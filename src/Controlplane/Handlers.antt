-- ===== src/Controlplane/Handlers.antt =====
-- controlplane/controller/controller.go: the HTTP handlers, from the posted body to the answer. The
-- HTTP server and the JSON decoder of bodies are outside: what they give is an argument.
use ai_fs.Prelude.{◌&&◌, ℕ, String, ◌||◌, if◌then◌else◌, Option, none, some, List}
use ai_fs.Prelude.Dict.{◌==◌, nat_eq, string_eq}
use ai_fs.Models.{WorkerInfo, ensure_id, worker_idle}
use ai_fs.Controlplane.KvClient.{normalize}
use ai_fs.Controlplane.Scheduling.{Floats, Set}
use ai_fs.Controlplane.Registry.{
  Kv, Json, Controller, register_worker, heartbeat, list_workers, pick_best_worker,
}

-- What came in as the body.
pub data Posted (F : Type 0) : Type 0 where
  unreadable : Posted F
  invalid_json : Posted F
  posted : WorkerInfo F → Posted F

pub data Answer (F : Type 0) : Type 0 where
  failed : (status : ℕ) → Answer F
  registered : (id : String) → Answer F
  alive : (id : String) → Answer F
  best : WorkerInfo F → Answer F
  listed : List (WorkerInfo F) → Answer F

module _ {F : Type 0} (format : String → ℕ → String) where
  unfoldable pub decode_worker : Posted F → Option (WorkerInfo F)
  decode_worker unreadable = none
  decode_worker invalid_json = none
  decode_worker (posted info) =
      if info.ip == "" || info.port == 0
      then none
      else some (
          ensure_id format
            (if info.status == "" then record info { status = worker_idle } else info))

module _ {F : Type 0} {W : Type 0} (format : String → ℕ → String) (cluster : Kv W)
    (worker_json : Json (WorkerInfo F)) (ids_json : Json (List String))
    (ids_of : Set → List String) where
  unfoldable pub handle_register :
      (others : Controller W → Controller W) (now : ℕ)
      → Posted F
      → Controller W
      → Controller W × Answer F
  unfolding decode_worker
  handle_register others now body c = elim (decode_worker format body) [
    | none ↦ (c, failed 400)
    | some info ↦
        let (c', done) =
          register_worker format cluster worker_json ids_json ids_of others now info c in
        if done then (c', registered info.id) else (c', failed 502)
  ]

  unfoldable pub handle_heartbeat : (now : ℕ) → Posted F → Controller W → Controller W × Answer F
  unfolding decode_worker
  handle_heartbeat now body c = elim (decode_worker format body) [
    | none ↦ (c, failed 400)
    | some info ↦
        let (c', done) = heartbeat format cluster worker_json ids_json ids_of now info c in
        if done then (c', alive info.id) else (c', failed 502)
  ]

  unfoldable pub handle_best :
      Floats F → (others : ℕ → Controller W → Controller W) → Controller W → Controller W × Answer F
  handle_best floats others c =
      let (c', picked) =
        pick_best_worker format cluster worker_json ids_json ids_of floats others c in
      (c', elim picked [ none ↦ failed 503 | some info ↦ best info ])

  unfoldable pub handle_list :
      (others : ℕ → Controller W → Controller W) → Controller W → Controller W × Answer F
  handle_list others c =
      let (c', workers) = list_workers format cluster worker_json ids_json ids_of others c in
      (c', elim workers [ none ↦ failed 502 | some infos ↦ listed infos ])

  -- `ServeHTTP`. `others` is what other requests do while the lock is free.
  unfoldable pub serve :
      Floats F
      → (others : ℕ → Controller W → Controller W) (now : ℕ) (method path : String) → Posted F
      → Controller W
      → Controller W × Answer F
  unfolding handle_register handle_heartbeat handle_list handle_best
  serve floats others now method path body c =
      if method == "POST" && path == "/workers/register"
      then handle_register (others 0) now body c
      else if method == "POST" && path == "/workers/heartbeat"
      then handle_heartbeat now body c
      else if method == "GET" && path == "/workers"
      then handle_list others c
      else if method == "GET" && path == "/workers/best"
      then handle_best floats others c
      else (c, failed 404)

-- `strings.Split` at commas and `strings.TrimSpace` are outside.
unfoldable pub parse_kv_addrs :
    (split : String → List String) (trim_space : String → String) → String → List String
unfolding normalize
parse_kv_addrs split trim_space s = normalize trim_space (split s)
