-- ===== src/Controlplane/Registry.antt =====
-- controlplane/controller/controller.go: the controller's own state, registration, heartbeats, the
-- check of heartbeats, and the list of the workers. The cluster, JSON and Go's order of a map's
-- keys are outside.
use Prim.Native.String.{◌++◌ as concat}
use ai_fs.Prelude.{
  ℕ, ◌+◌, ◌-◌, length, ◌≡◌, String, Bool, true, false, ltb, if◌then◌else◌, Option, none, some, List,
  [], ◌∷◌,
}
use ai_fs.Prelude.Dict.{Dict, ◌==◌, string_eq, insert, delete}
use ai_fs.Models.{WorkerInfo, worker_key, ensure_id}
use ai_fs.Controlplane.Scheduling.{Floats, Set, pick_best}

-- The client of the cluster. Any call may fail: `put` then returns false, and `get` none. `stored`
-- is what the cluster holds, the empty text for a missing key. A `put` that is answered with OK
-- changes no other key; it need not have stored its own value, and one that fails promises nothing.
pub record Kv (W : Type 0) : Type 0 where
  pub put : (key value : String) → W → W × Bool
  pub get : (key : String) → W → W × Option String
  pub stored : W → String → String
  pub put_apart :
      (key value : String) (w : W) (j : String)
      → (put key value w).1 ≡ true
      → (key == j) ≡ false
      → stored (put key value w).0 j ≡ stored w j

-- `json.Marshal` and `json.Unmarshal` at one type.
pub record Json (A : Type 0) : Type 0 where
  pub marshal : A → String
  pub unmarshal : String → Option A
  pub unmarshal-marshal : (a : A) → unmarshal (marshal a) ≡ some a

pub record Controller (W : Type 0) : Type 0 where
  pub kv : W
  pub seen : Set
  pub lastseen : Dict String ℕ

abbrev pub workers_index_key : String
workers_index_key = "workers/index"

unfoldable pub add_all : List String → Set → Set
add_all [] seen = seen
add_all (id ∷ ids) seen = add_all ids (insert id tt seen)

module _ {W : Type 0} where
  unfoldable pub note_seen : (id : String) (now : ℕ) → Controller W → Controller W
  note_seen id now c = record c { seen = insert id tt c.seen; lastseen = insert id now c.lastseen }

  -- The loop of `startHeartbeatChecker` over `lastseen`; the flag is `hasChange`.
  unfoldable pub expire :
      (timeout now : ℕ) → Dict String ℕ → Controller W × Bool → Controller W × Bool
  expire timeout now [] r = r
  expire timeout now ((id, last) ∷ rest) (c, changed) = expire timeout now rest (
      if ltb timeout (now - last)
      then (record c { seen = delete id c.seen; lastseen = delete id c.lastseen }, true)
      else (c, changed))

-- `ids_of` is `idsLocked`, in some order of the keys.
module _ {F : Type 0} {W : Type 0} (format : String → ℕ → String) (cluster : Kv W)
    (worker_json : Json (WorkerInfo F)) (ids_json : Json (List String))
    (ids_of : Set → List String) where
  unfoldable pub save_index : Controller W → Controller W × Bool
  save_index c =
      let (w, saved) = cluster.put workers_index_key (ids_json.marshal (ids_of c.seen)) c.kv in
      (record c { kv = w }, saved)

  -- The result is false where the code returns an error. `others` is what other operations do before
  -- the lock is taken: the record is put without it.
  unfoldable pub register_worker :
      (others : Controller W → Controller W) (now : ℕ)
      → WorkerInfo F
      → Controller W
      → Controller W × Bool
  unfolding save_index note_seen
  register_worker others now info c =
      let known = ensure_id format info in
      let (w, stored) = cluster.put (worker_key format known) (worker_json.marshal known) c.kv in
      if stored
      then save_index (note_seen known.id now (others (record c { kv = w })))
      else (record c { kv = w }, false)

  unfoldable pub heartbeat : (now : ℕ) → WorkerInfo F → Controller W → Controller W × Bool
  unfolding save_index note_seen
  heartbeat now info c = save_index (note_seen info.id now c)

  unfoldable pub get_worker : String → Controller W → Controller W × Option (WorkerInfo F)
  get_worker id c =
      let (w, answer) = cluster.get (concat "worker/" id) c.kv in
      (
        record c { kv = w },
        elim answer [
          | none ↦ none
          | some raw ↦ if raw == "" then none else worker_json.unmarshal raw
        ],
      )

  unfoldable pub load_index : Controller W → Controller W × Option (List String)
  unfolding add_all
  load_index c = elim c.seen [
    | _ ∷ _ ↦ (c, some (ids_of c.seen))
    | [] ↦
        let (w, answer) = cluster.get workers_index_key c.kv in
        elim answer [
          | none ↦ (record c { kv = w }, none)
          | some raw ↦
              if raw == "" then (record c { kv = w }, some []) else elim (ids_json.unmarshal raw) [
                | none ↦ (record c { kv = w }, none)
                | some ids ↦ (record c { kv = w; seen = add_all ids c.seen }, some ids)
              ]
        ]
  ]

  -- The lists and the choice take the lock only for the index and for the choice itself: `others n`
  -- is what other operations do while it is free and `n` workers are still to be loaded.
  -- A worker that cannot be loaded is left out.
  unfoldable pub get_workers :
      (others : ℕ → Controller W → Controller W)
      → List String
      → Controller W
      → Controller W × List (WorkerInfo F)
  get_workers others [] c = (c, [])
  get_workers others (id ∷ ids) c =
      let (c', loaded) = get_worker id (others (length ids + 1) c) in
      let (c'', infos) = get_workers others ids c' in
      (c'', elim loaded [ none ↦ infos | some info ↦ info ∷ infos ])

  unfoldable pub list_workers :
      (others : ℕ → Controller W → Controller W)
      → Controller W
      → Controller W × Option (List (WorkerInfo F))
  list_workers others c =
      let (c', ids) = load_index c in
      elim ids [
        | none ↦ (c', none)
        | some ids' ↦ let (c'', infos) = get_workers others ids' c' in (c'', some infos)
      ]

  unfoldable pub pick_best_worker :
      Floats F
      → (others : ℕ → Controller W → Controller W) → Controller W
      → Controller W × Option (WorkerInfo F)
  pick_best_worker floats others c =
      let (c', workers) = list_workers others c in
      elim workers [
        | none ↦ (c', none)
        | some infos ↦ let c'' = others 0 c' in (c'', pick_best floats infos c''.seen)
      ]

  -- One tick; an error of the save is dropped.
  unfoldable pub check_heartbeats : (timeout now : ℕ) → Controller W → Controller W
  unfolding expire save_index
  check_heartbeats timeout now c =
      let (c', changed) = expire timeout now c.lastseen (c, false) in
      if changed then (save_index c').0 else c'
