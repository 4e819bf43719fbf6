-- ===== src/Gateway/Prompt.antt =====
-- gateway/gateway.go and worker/server.go: `promptFromRequest`, which both have, and the checks of
-- `HandleChat` and `handleChat` before a request is queued.
pub mod Latest
use ai_fs.Prelude.{
  ℕ, zero, suc, ◌≡◌, String, Bool, true, false, not, ◌&&◌, if◌then◌else◌, Option, none, some, List,
  length, get_elem?,
}
use ai_fs.Prelude.Dict.{◌==◌, string_eq}
use ai_fs.Models.{ChatMessage, ChatRequest}
use ai_fs.Controlplane.Registry.{Json}

abbrev pub is_user_text : ChatMessage → Bool
is_user_text m = m.role == "user" && not (m.content == "")

-- The loop down from message `left - 1`. An index out of range is a panic.
unfoldable pub last_user_text : List ChatMessage → (left : ℕ) → Option String
last_user_text messages zero = some ""
last_user_text messages (suc i) =
    let rest = last_user_text messages i in
    elim (get_elem? messages i) [
      | none ↦ none
      | some m ↦ if is_user_text m then some m.content else rest
    ]

unfoldable pub prompt_from_request : ChatRequest → Option String
unfolding last_user_text
prompt_from_request req =
    if not (req.prompt == "")
    then some req.prompt
    else last_user_text req.messages (length req.messages)

-- What came in as the body.
pub data ChatBody : Type 0 where
  unreadable : ChatBody
  invalid_json : ChatBody
  request : ChatRequest → ChatBody

-- `io.ReadAll` and `json.Unmarshal`.
unfoldable pub read_body : Json ChatRequest → (raw : Option String) → ChatBody
read_body request_json none = unreadable
read_body request_json (some raw) = elim (request_json.unmarshal raw) [
  | none ↦ invalid_json
  | some req ↦ request req
]

pub data Checked : Type 0 where
  refused : (status : ℕ) → Checked
  accepted : (prompt : String) → Checked

-- The gateway's `HandleChat`, up to the queue.
unfoldable pub check_chat : (is_post : Bool) → ChatBody → Option Checked
check_chat false body = some (refused 405)
check_chat true unreadable = some (refused 400)
check_chat true invalid_json = some (refused 400)
check_chat true (request req) = elim (prompt_from_request req) [
  | none ↦ none
  | some prompt ↦ if prompt == "" then some (refused 400) else some (accepted prompt)
]

-- `ServeHTTP` of the gateway.
unfoldable pub route_chat : (path : String) (is_post : Bool) → ChatBody → Option Checked
unfolding check_chat
route_chat path is_post body =
    if path == "/v1/chat/completions" then check_chat is_post body else some (refused 404)
