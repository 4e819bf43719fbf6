-- ===== src/Controlplane/KvClient.antt =====
-- controlplane/kvclient/client.go: the HTTP client of the key-value cluster. One exchange with a
-- server is outside, as are JSON and the trimming of texts. `none` stands for a Go error.
use ai_fs.Prelude.{
  ℕ, zero, suc, ◌+◌, ◌%◌, String, Bool, true, false, ◌||◌, if◌then◌else◌, Option, none, some, List,
  [], ◌∷◌, length, get_elem?,
}
use Prim.Native.String.{◌++◌ as concat}
use ai_fs.Prelude.Dict.{◌==◌, string_eq}
use ai_fs.Prelude.Web.{HttpReply}
use ai_fs.Kvraft.Common.{err_wrong_leader, err_time_out, err_no_key, ok}
use ai_fs.Kvraft.Http.{HttpRequest, HttpResponse}
use ai_fs.Controlplane.Registry.{Json}

pub record Client : Type 0 where
  pub addrs : List String
  pub curr : ℕ
  pub client_id : ℕ
  pub seq_id : ℕ

-- `trim` cuts spaces off both ends, and then slashes off the right one.
unfoldable pub normalize : (trim : String → String) → List String → List String
normalize trim [] = []
normalize trim (a ∷ rest) =
    let others = normalize trim rest in if trim a == "" then others else trim a ∷ others

unfoldable pub new_client : (trim : String → String) (addrs : List String) (client_id : ℕ) → Client
unfolding normalize
new_client trim addrs client_id = record {
  addrs = normalize trim addrs;
  curr = 0;
  client_id = client_id;
  seq_id = 0;
}

-- The status of the reply is not looked at.
unfoldable pub do_once :
    (post : (url body : String) → Option HttpReply)
    → Json HttpRequest
    → Json HttpResponse
    → (addr : String) → HttpRequest
    → Option HttpResponse
do_once post request_json response_json addr req =
    elim (post (concat addr "/kv") (request_json.marshal req)) [
      | none ↦ none
      | some resp ↦ elim resp.body [ none ↦ none | some raw ↦ response_json.unmarshal raw ]
    ]

-- The request of an operation, before it has its number.
abbrev pub operation : (op key value : String) → HttpRequest
operation op key value = record { op = op; key = key; value = value; client_id = 0; seq_id = 0 }

-- An index out of range is a panic.
unfoldable pub next_addr : Client → Option (Client × String)
next_addr c = elim c.addrs [
  | [] ↦ some (c, "")
  | a ∷ rest ↦ elim (get_elem? c.addrs c.curr) [
    | none ↦ none
    | some addr ↦ some (record c { curr = (c.curr + 1) % length c.addrs }, addr)
  ]
]

unfoldable pub prepare_request : HttpRequest → Client → Client × HttpRequest
prepare_request req c = (
  record c { seq_id = c.seq_id + 1 },
  record req { client_id = c.client_id; seq_id = c.seq_id + 1 },
)

-- The answers after which the next server is tried.
unfoldable pub is_retry : Option HttpResponse → Bool
is_retry none = true
is_retry (some resp) = resp.err == err_wrong_leader || resp.err == err_time_out

-- What another operation does with the client, under the lock: it takes an address, or a number.
pub data Elsewhere : Type 0 where
  takes_address : Elsewhere
  takes_number : Elsewhere

unfoldable pub other_steps : List Elsewhere → Client → Option Client
unfolding next_addr
other_steps [] c = some c
other_steps (takes_address ∷ steps) c = elim (next_addr c) [
  | none ↦ none
  | some (c', addr) ↦ other_steps steps c'
]
other_steps (takes_number ∷ steps) c = other_steps steps (record c { seq_id = c.seq_id + 1 })

-- `others` are the steps of other operations before each try, by the tries that are left after it:
-- the lock is free then.
module _ (do_once : String → HttpRequest → Option HttpResponse) (others : ℕ → List Elsewhere) where
  -- The loop over `tries`; the result is `none` for "no available kv leader". Beside it come the
  -- addresses that were asked.
  unfoldable pub try_servers :
      (tries : ℕ) → HttpRequest → Client → Option (Client × Option HttpResponse × List String)
  unfolding other_steps
  try_servers zero req c = some (c, none, [])
  try_servers (suc tries) req c = elim (other_steps (others tries) c) [
    | none ↦ none
    | some between ↦ elim (next_addr between) [
      | none ↦ none
      | some (c', addr) ↦ elim (is_retry (do_once addr req)) [
        | false ↦ some (c', do_once addr req, addr ∷ [])
        | true ↦ elim (try_servers tries req c') [
          | none ↦ none
          | some (c'', resp, asked) ↦ some (c'', resp, addr ∷ asked)
        ]
      ]
    ]
  ]

  unfoldable pub execute :
      HttpRequest → Client → Option (Client × Option HttpResponse × List String)
  unfolding prepare_request
  execute req c = elim c.addrs [
    | [] ↦ some (c, none, [])
    | a ∷ rest ↦ try_servers (length c.addrs) (prepare_request req c).1 (prepare_request req c).0
  ]

-- `Put` and `Delete`: whether they return nil.
unfoldable pub put_result : Option HttpResponse → Bool
put_result none = false
put_result (some resp) = resp.err == ok

-- `Get`: `none` is an error, and a missing key reads as the empty text.
unfoldable pub get_result : Option HttpResponse → Option String
get_result none = none
get_result (some resp) =
    if resp.err == ok then some resp.value else if resp.err == err_no_key then some "" else none

-- The operations, with the client after them. `none` is a panic.
module _ (do_once : String → HttpRequest → Option HttpResponse) (others : ℕ → List Elsewhere) where
  unfoldable pub client_put : (key value : String) → Client → Option (Client × Bool)
  unfolding put_result
  client_put key value c = elim (execute do_once others (operation "put" key value) c) [
    | none ↦ none
    | some (c', resp, asked) ↦ some (c', put_result resp)
  ]

  unfoldable pub client_get : (key : String) → Client → Option (Client × Option String)
  unfolding get_result
  client_get key c = elim (execute do_once others (operation "get" key "") c) [
    | none ↦ none
    | some (c', resp, asked) ↦ some (c', get_result resp)
  ]

  unfoldable pub client_delete : (key : String) → Client → Option (Client × Bool)
  unfolding put_result
  client_delete key c = elim (execute do_once others (operation "delete" key "") c) [
    | none ↦ none
    | some (c', resp, asked) ↦ some (c', put_result resp)
  ]
