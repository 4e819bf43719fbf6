-- ===== src/Worker/Backend.antt =====
-- worker/backend.go: the engines that a pool's goroutines call. One exchange over HTTP, JSON and
-- `strings.TrimRight` are outside.
use Prim.Native.String.{◌++◌ as concat}
use ai_fs.Prelude.{
  ℕ, String, Bool, true, false, not, if◌then◌else◌, Option, none, some, List, [], ◌∷◌,
}
use ai_fs.Prelude.Dict.{◌==◌, nat_eq}
use ai_fs.Prelude.Web.{HttpReply}
use ai_fs.Models.{ChatMessage, ChatResponse}
use ai_fs.Controlplane.Registry.{Json}

-- What `Generate` returns: on an error `ok` is false.
pub record Generated : Type 0 where
  pub response : ChatResponse
  pub ok : Bool

abbrev pub no_response : ChatResponse
no_response = record { reply = ""; worker_id = ""; gpu_id = 0 }

abbrev pub generate_failed : Generated
generate_failed = record { response = no_response; ok = false }

-- `in_time` says that the delay was over before the context was done.
unfoldable pub mock_generate :
    (sprintf : String → String) (worker_id : String) (in_time : Bool) (prompt : String) → Generated
mock_generate sprintf worker_id in_time prompt =
    if in_time
    then record {
      response = record { reply = sprintf prompt; worker_id = worker_id; gpu_id = 0 };
      ok = true;
    }
    else generate_failed

pub record VllmBackend : Type 0 where
  pub base_url : String
  pub model : String
  pub max_tokens : ℕ
  pub worker_id : String

unfoldable pub new_vllm_backend :
    (trim_right : String → String) (base_url model : String) (max_tokens : ℕ) (worker_id : String)
    → VllmBackend
new_vllm_backend trim_right base_url model max_tokens worker_id = record {
  base_url = trim_right base_url;
  model = model;
  max_tokens = max_tokens;
  worker_id = worker_id;
}

pub record VllmChatRequest : Type 0 where
  pub model : String
  pub messages : List ChatMessage
  pub max_tokens : ℕ

pub record VllmChatResponse : Type 0 where
  pub model : String
  pub choices : List ChatMessage

unfoldable pub vllm_health : (get : String → Option HttpReply) → VllmBackend → Bool
vllm_health get b = elim (get (concat b.base_url "/v1/models")) [
  | none ↦ false
  | some resp ↦ resp.status == 200
]

unfoldable pub vllm_request : VllmBackend → (prompt : String) → VllmChatRequest
vllm_request b prompt = record {
  model = b.model;
  messages = record { role = "user"; content = prompt } ∷ [];
  max_tokens = if b.max_tokens == 0 then 256 else b.max_tokens;
}

unfoldable pub vllm_reply : VllmBackend → VllmChatResponse → Generated
vllm_reply b out = elim out.choices [
  | [] ↦ generate_failed
  | choice ∷ choices ↦ record {
    response = record { reply = choice.content; worker_id = b.worker_id; gpu_id = 0 };
    ok = true;
  }
]

module _ (post : (url body : String) → Option HttpReply) (request_json : Json VllmChatRequest)
    (response_json : Json VllmChatResponse) where
  unfoldable pub vllm_generate : VllmBackend → (prompt : String) → Generated
  unfolding vllm_request vllm_reply
  vllm_generate b prompt =
      let req_body = request_json.marshal (vllm_request b prompt) in
      elim (post (concat b.base_url "/v1/chat/completions") req_body) [
        | none ↦ generate_failed
        | some resp ↦ elim resp.body [
          | none ↦ generate_failed
          | some raw ↦
              if not (resp.status == 200)
              then generate_failed
              else elim (response_json.unmarshal raw) [
                | none ↦ generate_failed
                | some out ↦ vllm_reply b out
              ]
        ]
      ]

-- What one round of `WaitForBackend` meets: whether the backend is healthy, and whether the context
-- was done before the next tick.
pub record Round : Type 0 where
  pub healthy : Bool
  pub expired : Bool

-- `none` while it waits, else whether the backend is ready.
unfoldable pub wait_for_backend : List Round → Option Bool
wait_for_backend [] = none
wait_for_backend (round ∷ rounds) =
    let rest = wait_for_backend rounds in
    if round.healthy then some true else if round.expired then some false else rest
