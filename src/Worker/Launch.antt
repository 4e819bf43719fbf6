-- ===== src/Worker/Launch.antt =====
-- cmd/worker/main.go: how a worker comes up. The command line is parsed outside, as are JSON and one
-- exchange over HTTP, of which only the status of the reply is read.
use Prim.Native.String.{◌++◌ as concat}
use ai_fs.Prelude.{
  ℕ, zero, suc, ◌+◌, String, Bool, true, false, not, ◌||◌, ltb, leb, if◌then◌else◌, Option, none,
  some, List, [], ◌∷◌,
}
use ai_fs.Prelude.Dict.{◌==◌, string_eq}
use ai_fs.Models.{WorkerStatus, GpuInfo, WorkerInfo, ensure_id}
use ai_fs.Controlplane.Registry.{Json}
use ai_fs.Worker.Backend.{VllmBackend, new_vllm_backend, Round, wait_for_backend}
use ai_fs.Worker.Pool.{Pool, new_pool}

-- The interface `Backend`, by what implements it.
pub data Engine : Type 0 where
  mock_engine : (worker_id : String) → Engine
  vllm_engine : VllmBackend → Engine

unfoldable pub build_backend :
    (trim_right : String → String) (kind vllm_url model : String) (max_tokens : ℕ)
    (worker_id : String)
    → Option Engine
build_backend trim_right kind vllm_url model max_tokens worker_id =
    if kind == "mock"
    then some (mock_engine worker_id)
    else if kind == "vllm"
    then some (vllm_engine (new_vllm_backend trim_right vllm_url model max_tokens worker_id))
    else none

-- The flags. Their defaults are applied where they are parsed.
pub record Flags : Type 0 where
  pub controller_url : String
  pub ip : String
  pub port : ℕ
  pub status : WorkerStatus
  pub gpus : ℕ
  pub backend : String
  pub vllm_url : String
  pub model : String
  pub max_tokens : ℕ

module _ {F : Type 0} (format : String → ℕ → String) (tenth : F) where
  -- The loop over `info.GPUs`, from number `i` on.
  unfoldable pub mock_gpus : (left i : ℕ) → List (GpuInfo F)
  mock_gpus zero i = []
  mock_gpus (suc left) i =
      record { id = i; model = "mock-gpu"; memory_mb = 24576; utilization = tenth }
      ∷ mock_gpus left (i + 1)

  unfoldable pub worker_info : Flags → WorkerInfo F
  worker_info flags = ensure_id format (record {
    id = "";
    ip = flags.ip;
    port = flags.port;
    gpus = mock_gpus flags.gpus 0;
    status = flags.status;
  })

-- `post` gives the status of the reply, or an error. False is an error of the code.
module _ {A : Type 0} (json : Json A) (post : (url body : String) → Option ℕ) where
  unfoldable pub post_json : (url : String) → A → Bool
  post_json url body = elim (post url (json.marshal body)) [
    | none ↦ false
    | some status ↦ not (ltb status 200 || leb 300 status)
  ]

  unfoldable pub register_at : (base : String) → A → Bool
  unfolding post_json
  register_at base info = post_json (concat base "/workers/register") info

  unfoldable pub send_heartbeat : (base : String) → A → Bool
  unfolding post_json
  send_heartbeat base info = post_json (concat base "/workers/heartbeat") info

-- `gave_up` is a call of `log.Fatal`.
pub data Launch (F : Type 0) : Type 0 where
  gave_up : Launch F
  waiting : Launch F
  running : WorkerInfo F → Engine → Pool → Launch F

-- `main` up to the pool, where `WaitForBackend` meets these rounds.
unfoldable pub launch :
    {F : Type 0} (format : String → ℕ → String) (tenth : F) (trim_right : String → String)
    → Json (WorkerInfo F)
    → (post : (url body : String) → Option ℕ) → List Round
    → Flags
    → Launch F
unfolding worker_info build_backend wait_for_backend register_at new_pool
launch format tenth trim_right json post rounds flags =
    let info = worker_info format tenth flags in
    elim (build_backend trim_right flags.backend flags.vllm_url flags.model flags.max_tokens
      info.id) [
        | none ↦ gave_up
        | some engine ↦ elim (wait_for_backend rounds) [
          | none ↦ waiting
          | some false ↦ gave_up
          | some true ↦
              if register_at json post flags.controller_url info
              then running info engine (new_pool info.id flags.gpus)
              else gave_up
        ]
      ]
