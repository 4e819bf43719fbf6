-- ===== src/Controlplane/Registration.antt =====
-- What registration, heartbeats and the check of heartbeats leave behind.
use Prim.Native.Char.{code}
use Prim.Native.String as Text
use Prim.Native.String.{◌++◌ as concat}
use Prim.Native.String.append
use text.Mathlib.TextEquality.{eq_iff}
use ai_fs.Prelude.{
  ℕ, zero, suc, ◌-◌, ◌≡◌, refl, ap, String, Bool, true, false, not, ◌&&◌, ◌||◌, ltb, Bool-cases,
  inl, inr, Option, none, some, List, [], ◌∷◌, arith,
}
use ai_fs.Prelude.Dict.{Dict, ◌==◌, string_eq, lookup, delete, lookup-insert_self, lookup-delete}
use ai_fs.Models.{WorkerInfo, worker_key, ensure_id}
use ai_fs.Controlplane.Scheduling.{Set, contains}
use ai_fs.Controlplane.Registry.{
  Kv, Json, Controller, workers_index_key, save_index, note_seen, register_worker, heartbeat,
  expire, check_heartbeats,
}

abbrev pub record_key : String → String
record_key id = concat "worker/" id

-- The code of the character at a place of a text.
char_at : ℕ → String → Option ℕ
char_at n Text.[] = none
char_at zero (Text.◌∷◌ c s) = some (code c)
char_at (suc n) (Text.◌∷◌ c s) = char_at n s

char_at-append :
    (n : ℕ) (s t : String) (k : ℕ) → char_at n s ≡ some k → char_at n (concat s t) ≡ some k
unfolding char_at
char_at-append n Text.[] t k h = ground arith
char_at-append zero (Text.◌∷◌ c s) t k h = rw (append.cons c s t) h
char_at-append (suc n) (Text.◌∷◌ c s) t k h = rw (append.cons c s t) (char_at-append n s t k h)

-- The key of the index is no worker's key.
key_apart : (id : String) → (workers_index_key == record_key id) ≡ false
unfolding char_at
key_apart id = elim (Bool-cases (workers_index_key == record_key id)) [
  | inr e ↦ e
  | inl e ↦
      let same = ap (char_at 6) ((eq_iff workers_index_key (record_key id)).0 e) in
      let slash = char_at-append 6 "worker/" id 47 refl in ground (arith, same, slash)
]

module _ {F : Type 0} (format : String → ℕ → String) where
  worker_key-ensure_id :
      (info : WorkerInfo F)
      → worker_key format (ensure_id format info) ≡ record_key (ensure_id format info).id
  unfolding worker_key ensure_id
  worker_key-ensure_id info = ground arith

-- An entry of `id` is older than the time-out.
abbrev pub is_stale : (timeout now : ℕ) → String → Dict String ℕ → Bool
is_stale timeout now id [] = false
is_stale timeout now id ((k, last) ∷ rest) =
    ((k == id) && ltb timeout (now - last)) || is_stale timeout now id rest

contains-delete :
    (k id : String) (seen : Set) → contains id (delete k seen) ≡ (contains id seen && not (k == id))
unfolding contains
contains-delete k id seen = ground (arith, lookup-delete k id seen)

module _ {W : Type 0} where
  contains-expire :
      (timeout now : ℕ) (id : String) (last : Dict String ℕ) (c : Controller W) (b : Bool)
      → contains id (expire timeout now last (c, b)).0.seen
        ≡ (contains id c.seen && not (is_stale timeout now id last))
  unfolding expire
  contains-expire timeout now id [] c b = ground arith
  contains-expire timeout now id ((k, t) ∷ rest) c b = elim (Bool-cases (ltb timeout (now - t))) [
    | inl old ↦
        let c' : Controller W = record c {
          seen = delete k c.seen;
          lastseen = delete k c.lastseen;
        } in
        ground (arith, contains-expire timeout now id rest c' true, contains-delete k id c.seen)
    | inr young ↦ ground (arith, contains-expire timeout now id rest c b)
  ]

module _ {F : Type 0} {W : Type 0} (format : String → ℕ → String) (cluster : Kv W)
    (worker_json : Json (WorkerInfo F)) (ids_json : Json (List String))
    (ids_of : Set → List String) where
  -- After a tick of the check a worker counts as seen if it did before and it has no last heartbeat
  -- that is older than the time-out. So a worker without a last heartbeat stays.
  pub check_heartbeats-contains :
      (timeout now : ℕ) (id : String) (c : Controller W)
      → contains id (check_heartbeats format cluster worker_json ids_json ids_of timeout now c).seen
        ≡ (contains id c.seen && not (is_stale timeout now id c.lastseen))
  unfolding check_heartbeats save_index
  check_heartbeats-contains timeout now id c =
      ground (arith, contains-expire timeout now id c.lastseen c false)

  save_index_lem :
      (c : Controller W)
      → (save_index format cluster worker_json ids_json ids_of c).1 ≡ true
      → (id : String)
      → cluster.stored
          (save_index format cluster worker_json ids_json ids_of c).0.kv
          (record_key id)
        ≡ cluster.stored c.kv (record_key id)
  unfolding save_index
  save_index_lem c h id = ground (
    arith,
    key_apart id,
    cluster.put_apart workers_index_key (ids_json.marshal (ids_of c.seen)) c.kv (record_key id),
  )

  -- A heartbeat that returns no error changes no worker's record in the cluster, whatever status and
  -- load it brings; it makes the worker count as seen now.
  pub heartbeat_keeps_records :
      (now : ℕ) (info : WorkerInfo F) (c : Controller W)
      → (heartbeat format cluster worker_json ids_json ids_of now info c).1 ≡ true
      → ((id : String)
          → cluster.stored
              (heartbeat format cluster worker_json ids_json ids_of now info c).0.kv
              (record_key id)
            ≡ cluster.stored c.kv (record_key id))
        × (contains info.id (heartbeat format cluster worker_json ids_json ids_of now info c).0.seen
            ≡ true)
        × (lookup info.id
              (heartbeat format cluster worker_json ids_json ids_of now info c).0.lastseen
            ≡ some now)
  unfolding heartbeat save_index note_seen contains
  heartbeat_keeps_records now info c h = (
    save_index_lem (note_seen info.id now c) h,
    ground (arith, lookup-insert_self info.id tt c.seen),
    lookup-insert_self info.id now c.lastseen,
  )

  -- The record was put under the worker's ID and the index was put with the workers that then count
  -- as seen; both puts were answered with OK.
  pub register_worker_puts :
      (others : Controller W → Controller W) (now : ℕ) (info : WorkerInfo F) (c : Controller W)
      → (register_worker format cluster worker_json ids_json ids_of others now info c).1 ≡ true
      → ((cluster.put
            (record_key (ensure_id format info).id)
            (worker_json.marshal (ensure_id format info))
            c.kv).1
          ≡ true)
        × ((w : W) × (cluster.put workers_index_key
                (ids_json.marshal (
                  ids_of
                    (register_worker format cluster worker_json ids_json ids_of others now info
                      c).0.seen))
                w
              ≡ (
                (register_worker format cluster worker_json ids_json ids_of others now info c).0.kv,
                true,
              )))
  unfolding register_worker save_index note_seen
  register_worker_puts others now info c h =
      let known = ensure_id format info in
      let same = worker_key-ensure_id format info in
      let put = cluster.put (worker_key format known) (worker_json.marshal known) c.kv in
      let locked = others (record c { kv = put.0 }) in (ground arith, (locked.kv, ground arith))

  -- The worker counts as seen now.
  pub register_worker_seen :
      (others : Controller W → Controller W) (now : ℕ) (info : WorkerInfo F) (c : Controller W)
      → (register_worker format cluster worker_json ids_json ids_of others now info c).1 ≡ true
      → (contains
            (ensure_id format info).id
            (register_worker format cluster worker_json ids_json ids_of others now info c).0.seen
          ≡ true)
        × (lookup
              (ensure_id format info).id
              (register_worker format cluster worker_json ids_json ids_of others now info
                c).0.lastseen
            ≡ some now)
  unfolding register_worker save_index note_seen contains
  register_worker_seen others now info c h =
      let known = ensure_id format info in
      let put = cluster.put (worker_key format known) (worker_json.marshal known) c.kv in
      let locked = others (record c { kv = put.0 }) in
      (
        ground (arith, lookup-insert_self known.id tt locked.seen),
        ground (arith, lookup-insert_self known.id now locked.lastseen),
      )
