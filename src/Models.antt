-- ===== src/Models.antt =====
-- models/: the data that the services exchange, of worker.go and chat.go.
use Prim.Native.String.{◌++◌ as concat}
use ai_fs.Prelude.{ℕ, String, if◌then◌else◌, List}
use ai_fs.Prelude.Dict.{◌==◌, string_eq}
pub mod Kv

-- `type WorkerStatus string`, with its constants.
abbrev pub WorkerStatus : Type 0
WorkerStatus = String

abbrev pub worker_busy : WorkerStatus
worker_busy = "busy"

abbrev pub worker_idle : WorkerStatus
worker_idle = "idle"

abbrev pub worker_offline : WorkerStatus
worker_offline = "offline"

-- `F` stands for float64.
pub record GpuInfo (F : Type 0) : Type 0 where
  pub id : ℕ
  pub model : String
  pub memory_mb : ℕ
  pub utilization : F

pub record WorkerInfo (F : Type 0) : Type 0 where
  pub id : String
  pub ip : String
  pub port : ℕ
  pub gpus : List (GpuInfo F)
  pub status : WorkerStatus

-- `format` is `fmt.Sprintf("%s:%d", …)`, of the Go library.
module _ {F : Type 0} (format : String → ℕ → String) where
  unfoldable pub worker_key : WorkerInfo F → String
  worker_key w = if w.id == "" then concat "worker/" (format w.ip w.port) else concat "worker/" w.id

  unfoldable pub ensure_id : WorkerInfo F → WorkerInfo F
  ensure_id w = if w.id == "" then record w { id = format w.ip w.port } else w

pub record ChatMessage : Type 0 where
  pub role : String
  pub content : String

pub record ChatRequest : Type 0 where
  pub prompt : String
  pub model : String
  pub messages : List ChatMessage
  pub max_tokens : ℕ

pub record ChatResponse : Type 0 where
  pub reply : String
  pub worker_id : String
  pub gpu_id : ℕ
