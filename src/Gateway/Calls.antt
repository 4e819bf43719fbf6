-- ===== src/Gateway/Calls.antt =====
-- gateway/gateway.go: the calls of the controller and of a worker. One exchange over HTTP, JSON and
-- `fmt.Sprintf` are outside. An error is `none`.
use Prim.Native.String.{◌++◌ as concat}
use ai_fs.Prelude.{ℕ, String, not, if◌then◌else◌, Option, none, some, []}
use ai_fs.Prelude.Dict.{◌==◌, nat_eq}
use ai_fs.Prelude.Web.{HttpReply}
use ai_fs.Models.{WorkerInfo, ChatRequest, ChatResponse}
use ai_fs.Controlplane.Registry.{Json}

-- A reply with another status than 200 is an error, as is a body that is no document.
unfoldable pub decode_reply : {A : Type 0} → Json A → Option HttpReply → Option A
decode_reply json none = none
decode_reply json (some resp) =
    if not (resp.status == 200)
    then none
    else elim resp.body [ none ↦ none | some raw ↦ json.unmarshal raw ]

unfoldable pub pick_worker :
    {F : Type 0} (get : String → Option HttpReply)
    → Json (WorkerInfo F)
    → (controller_url : String) → Option (WorkerInfo F)
unfolding decode_reply
pick_worker get worker_json controller_url =
    decode_reply worker_json (get (concat controller_url "/workers/best"))

-- `format` is `fmt.Sprintf("%s:%d", …)`.
abbrev pub chat_url : {F : Type 0} (format : String → ℕ → String) → WorkerInfo F → String
chat_url format w = concat "http://" (concat (format w.ip w.port) "/v1/chat/completions")

abbrev pub chat_request : String → ChatRequest
chat_request prompt = record { prompt = prompt; model = ""; messages = []; max_tokens = 0 }

module _ {F : Type 0} (format : String → ℕ → String) (post : (url body : String) → Option HttpReply)
    (request_json : Json ChatRequest) (response_json : Json ChatResponse) where
  unfoldable pub forward_to_worker : WorkerInfo F → (prompt : String) → Option ChatResponse
  unfolding decode_reply
  forward_to_worker w prompt =
      let req_body = request_json.marshal (chat_request prompt) in
      decode_reply response_json (post (chat_url format w) req_body)
