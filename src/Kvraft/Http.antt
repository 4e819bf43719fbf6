-- ===== src/Kvraft/Http.antt =====
-- kvraft/http.go: requests of `POST /kv`, from the body to the command, and the status of the
-- answer. The HTTP server and the JSON decoder are outside: what they give is an argument.
use ai_fs.Prelude.{
  ℕ, ◌+◌, String, Bool, true, false, not, ◌&&◌, ◌||◌, if◌then◌else◌, Option, none, some,
}
use ai_fs.Prelude.Dict.{◌==◌, nat_eq, string_eq}
use ai_fs.Kvraft.Common.{Err, ok, err_wrong_leader, err_bad_request, Op, KvServer}
use ai_fs.Kvraft.Handlers.{get_command, put_append_command, delete_command}

abbrev pub http_client_id : ℕ
http_client_id = 0xA1F5

pub record HttpRequest : Type 0 where
  pub op : String
  pub key : String
  pub value : String
  pub client_id : ℕ
  pub seq_id : ℕ

pub record HttpResponse : Type 0 where
  pub ok : Bool
  pub value : String
  pub err : Err

-- What came in as the body.
pub data Body : Type 0 where
  unreadable : Body
  invalid_json : Body
  request : HttpRequest → Body

pub data Admitted : Type 0 where
  refused : (status : ℕ) → Admitted
  execute : HttpRequest → Admitted

unfoldable pub next_http_seq : KvServer → KvServer × ℕ
next_http_seq kv = (record kv { http_seq = kv.http_seq + 1 }, kv.http_seq + 1)

-- A request that does not name its client and number runs under the server's own.
unfoldable pub identify : HttpRequest → KvServer → KvServer × HttpRequest
unfolding next_http_seq
identify req kv =
    if req.client_id == 0 || req.seq_id == 0
    then (
      (next_http_seq kv).0,
      record req { client_id = http_client_id; seq_id = (next_http_seq kv).1 },
    )
    else (kv, req)

-- `ServeHTTP` up to the call of `executeHTTPWithClient`.
unfoldable pub admit : (is_post : Bool) → Body → KvServer → KvServer × Admitted
unfolding identify
admit false body kv = (kv, refused 405)
admit true unreadable kv = (kv, refused 400)
admit true invalid_json kv = (kv, refused 400)
admit true (request req) kv =
    if req.key == "" then (kv, refused 400) else ((identify req kv).0, execute (identify req kv).1)

-- `executeHTTPWithClient`: the command of the handler that is called, and whether it is `Get`.
unfoldable pub http_command : HttpRequest → Option (Op × Bool)
unfolding get_command put_append_command delete_command
http_command req =
    if req.op == "get"
    then some (
      get_command (record { key = req.key; seq_id = req.seq_id; client_id = req.client_id }),
      true,
    )
    else if req.op == "put"
    then some (
      put_append_command (record {
        key = req.key;
        value = req.value;
        op = "Put";
        seq_id = req.seq_id;
        client_id = req.client_id;
      }),
      false,
    )
    else if req.op == "delete"
    then some (
      delete_command (record { key = req.key; seq_id = req.seq_id; client_id = req.client_id }),
      false,
    )
    else none

abbrev pub bad_request : HttpResponse
bad_request = record { ok = false; value = ""; err = err_bad_request }

unfoldable pub http_response_from_err : Err → String → HttpResponse
http_response_from_err err value = record { ok = err == ok; value = value; err = err }

-- The status that `ServeHTTP` writes with the answer.
unfoldable pub http_status : HttpResponse → ℕ
http_status resp =
    if resp.err == err_wrong_leader
    then 503
    else if not resp.ok && resp.err == err_bad_request
    then 400
    else 200
