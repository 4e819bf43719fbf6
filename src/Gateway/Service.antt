-- ===== src/Gateway/Service.antt =====
-- The gateway's calls meet the handlers of the controller and of a worker.
use Prim.Native.String.{◌++◌ as concat}
use ai_fs.Prelude.{
  ℕ, ◌≡◌, ◌≢◌, refl, ◌∙◌, ap, inl, inr, String, true, false, Bool-cases, Option, none, some, List,
  arith,
}
use ai_fs.Prelude.Dict.{◌==◌, nat_eq, string_eq}
use ai_fs.Prelude.Web.{HttpReply}
use ai_fs.Models.{WorkerInfo, ChatRequest, ChatResponse}
use ai_fs.Controlplane.Scheduling.{Floats, Set}
use ai_fs.Controlplane.Registry.{Kv, Json, Controller, pick_best_worker}
use ai_fs.Controlplane.Handlers.{Answer, failed, registered, alive, best, listed, handle_best}
use ai_fs.Worker.Server.{
  ServerAnswer, answered, failed as refused, handle_chat, serve_http, write_answer,
}
use ai_fs.Gateway.Prompt.{read_body, request, prompt_from_request}
use ai_fs.Gateway.Calls.{decode_reply, pick_worker, chat_url, chat_request, forward_to_worker}

-- What a handler of the controller sends to a caller of `/workers/best`.
unfoldable pub best_reply : {F : Type 0} → Json (WorkerInfo F) → Answer F → Option HttpReply
best_reply worker_json (failed status) = some (record { status = status; body = some "" })
best_reply worker_json (best info) =
    some (record { status = 200; body = some (worker_json.marshal info) })
best_reply worker_json (registered id) = none
best_reply worker_json (alive id) = none
best_reply worker_json (listed infos) = none

module _ {F : Type 0} {W : Type 0} (format : String → ℕ → String) (cluster : Kv W)
    (worker_json : Json (WorkerInfo F)) (ids_json : Json (List String))
    (ids_of : Set → List String) where
  decode_best :
      (picked : Option (WorkerInfo F))
      → decode_reply worker_json
          (best_reply worker_json (elim picked [ none ↦ failed 503 | some info ↦ best info ]))
        ≡ picked
  unfolding decode_reply best_reply
  decode_best none = refl
  decode_best (some info) = worker_json.unmarshal-marshal info

  -- Where the controller serves its address, `pickWorker` of the gateway returns the worker that
  -- `PickBestWorker` picks, and an error where that returns one, whatever other operations do to the
  -- controller meanwhile.
  pub gateway_picks_best :
      (floats : Floats F) (others : ℕ → Controller W → Controller W) (c : Controller W)
      (get : String → Option HttpReply) (controller_url : String)
      → get (concat controller_url "/workers/best")
        ≡ best_reply worker_json
            (handle_best format cluster worker_json ids_json ids_of floats others c).1
      → pick_worker get worker_json controller_url
        ≡ (pick_best_worker format cluster worker_json ids_json ids_of floats others c).1
  unfolding pick_worker handle_best
  gateway_picks_best floats others c get controller_url served =
      ap (decode_reply worker_json) served
      ∙ decode_best (pick_best_worker format cluster worker_json ids_json ids_of floats others c).1

abbrev answer_of : Option ChatResponse → ServerAnswer
answer_of result = elim result [ none ↦ refused 503 | some resp ↦ answered resp ]

module _ (response_json : Json ChatResponse) where
  decode_answer :
      (result : Option ChatResponse)
      → decode_reply response_json (write_answer response_json (some (answer_of result))) ≡ result
  unfolding decode_reply write_answer
  decode_answer none = refl
  decode_answer (some resp) = response_json.unmarshal-marshal resp

handles_prompt :
    (submit : String → Option ChatResponse) (prompt : String)
    → (prompt == "") ≡ false
    → handle_chat submit (request (chat_request prompt)) ≡ some (answer_of (submit prompt))
unfolding handle_chat prompt_from_request
handles_prompt submit prompt f = ground arith

module _ (request_json : Json ChatRequest) where
  reads_prompt :
      (prompt : String)
      → read_body request_json (some (request_json.marshal (chat_request prompt)))
        ≡ request (chat_request prompt)
  unfolding read_body
  reads_prompt prompt =
      let back = request_json.unmarshal-marshal (chat_request prompt) in grind arith

  serves_prompt :
      (submit : String → Option ChatResponse) (prompt : String)
      → (prompt == "") ≡ false
      → serve_http submit true "/v1/chat/completions"
          (read_body request_json (some (request_json.marshal (chat_request prompt))))
        ≡ some (answer_of (submit prompt))
  unfolding serve_http
  serves_prompt submit prompt f =
      ap (handle_chat submit) (reads_prompt prompt) ∙ handles_prompt submit prompt f

module _ {F : Type 0} (format : String → ℕ → String) (request_json : Json ChatRequest)
    (response_json : Json ChatResponse) where
  -- Where a worker's server is at the address that the record of the worker says, and its client
  -- sends a prompt that is not empty, `forwardToWorker` of the gateway returns what the worker's
  -- `Submit` returns for this very prompt, and an error where that returns one.
  pub forward_reaches_pool :
      (post : (url body : String) → Option HttpReply) (submit : String → Option ChatResponse)
      (w : WorkerInfo F) (prompt : String)
      → prompt ≢ ""
      → ((body : String)
          → post (chat_url format w) body
            ≡ write_answer response_json (
                serve_http submit true "/v1/chat/completions" (read_body request_json (some body))))
      → forward_to_worker format post request_json response_json w prompt ≡ submit prompt
  unfolding forward_to_worker
  forward_reaches_pool post submit w prompt given served = elim (Bool-cases (prompt == "")) [
    | inl t ↦ absurd (given ((string_eq.same_key prompt "").0 t))
    | inr f ↦
        ap (decode_reply response_json) (
          served (request_json.marshal (chat_request prompt))
          ∙ ap (write_answer response_json) (serves_prompt request_json submit prompt f))
        ∙ decode_answer response_json (submit prompt)
  ]
