-- ===== src/Worker/Server.antt =====
-- worker/server.go: the HTTP server of a worker.
use ai_fs.Prelude.{ℕ, String, Bool, ◌&&◌, if◌then◌else◌, Option, none, some}
use ai_fs.Prelude.Dict.{◌==◌, string_eq}
use ai_fs.Models.{ChatResponse}
use ai_fs.Gateway.Prompt.{ChatBody, unreadable, invalid_json, request, prompt_from_request}
use ai_fs.Prelude.Web.{HttpReply}
use ai_fs.Controlplane.Registry.{Json}

pub data ServerAnswer : Type 0 where
  failed : (status : ℕ) → ServerAnswer
  answered : ChatResponse → ServerAnswer

-- `submit` is what `Submit` returns in the end; `promptFromRequest` is the one of the gateway. A
-- panic is `none`.
unfoldable pub handle_chat :
    (submit : String → Option ChatResponse) → ChatBody → Option ServerAnswer
handle_chat submit unreadable = some (failed 400)
handle_chat submit invalid_json = some (failed 400)
handle_chat submit (request req) = elim (prompt_from_request req) [
  | none ↦ none
  | some prompt ↦
      if prompt == ""
      then some (failed 400)
      else some (elim (submit prompt) [ none ↦ failed 503 | some resp ↦ answered resp ])
]

unfoldable pub serve_http :
    (submit : String → Option ChatResponse) (is_post : Bool) (path : String)
    → ChatBody
    → Option ServerAnswer
unfolding handle_chat
serve_http submit is_post path body =
    if is_post && path == "/v1/chat/completions" then handle_chat submit body else some (failed 404)

-- What the client gets. A panic closes the connection; the text of an error is left out.
unfoldable pub write_answer : Json ChatResponse → Option ServerAnswer → Option HttpReply
write_answer response_json none = none
write_answer response_json (some (failed status)) =
    some (record { status = status; body = some "" })
write_answer response_json (some (answered resp)) =
    some (record { status = 200; body = some (response_json.marshal resp) })
