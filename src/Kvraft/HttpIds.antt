-- ===== src/Kvraft/HttpIds.antt =====
-- The numbers of HTTP requests that name no client.
use ai_fs.Prelude.{ℕ, ◌+◌, ◌≤◌, ◌<◌, ◌≡◌, Bool, true, false, some, arith}
use ai_fs.Prelude.Dict.{◌==◌, nat_eq, string_eq, lookup}
use ai_fs.Raft.State.{Codec, Persistent}
use ai_fs.Kvraft.Common.{Op, OpReply, LastOpRecord, KvServer}
use ai_fs.Kvraft.StateMachine.{recorded}
use ai_fs.Kvraft.Handlers.{known, begin}
use ai_fs.Kvraft.Http.{HttpRequest, request, execute, admit, http_command, http_client_id}

-- The request under the number that `kv` gives it.
abbrev pub numbered : HttpRequest → KvServer → HttpRequest
numbered req kv = record req { client_id = http_client_id; seq_id = kv.http_seq + 1 }

abbrev pub counted : KvServer → KvServer
counted kv = record kv { http_seq = kv.http_seq + 1 }

-- The command carries the number of the request.
http_command_numbers :
    (req : HttpRequest) (cmd : Op) (is_get : Bool)
    → http_command req ≡ some (cmd, is_get)
    → (cmd.client_id ≡ req.client_id) × (cmd.seq_id ≡ req.seq_id)
unfolding http_command
http_command_numbers req cmd is_get h = ground arith

known_at :
    (client_id seq_id : ℕ) (kv : KvServer) (r : LastOpRecord)
    → client_id ≡ http_client_id
    → seq_id ≤ r.last_seq_id
    → lookup http_client_id kv.record_map ≡ some r
    → recorded client_id seq_id kv.record_map ≡ some r.last_reply
unfolding recorded
known_at client_id seq_id kv r c le found = rw (c, recorded, found) (ground arith)

begin_known :
    (codec : Codec (Persistent Op)) (cmd : Op) (kv : KvServer) (reply : OpReply)
    → kv.dead ≡ false
    → recorded cmd.client_id cmd.seq_id kv.record_map ≡ some reply
    → begin codec cmd kv ≡ (kv, known reply)
unfolding begin
begin_known codec cmd kv reply up e = ground arith

-- Servers count the requests of unnamed clients apart, but record them under one client. Where the
-- record has a higher number than this server has given out, a request without a client is
-- admitted, and is then answered with the recorded reply of another request: it is not started.
pub anonymous_request_lost :
    (codec : Codec (Persistent Op)) (kv : KvServer) (r : LastOpRecord) (req : HttpRequest)
    (cmd : Op) (is_get : Bool)
    → kv.dead ≡ false
    → lookup http_client_id kv.record_map ≡ some r
    → kv.http_seq < r.last_seq_id
    → req.client_id ≡ 0
    → (req.key == "") ≡ false
    → http_command (numbered req kv) ≡ some (cmd, is_get)
    → (admit true (request req) kv ≡ (counted kv, execute (numbered req kv)))
      × (begin codec cmd (counted kv) ≡ (counted kv, known r.last_reply))
unfolding admit
anonymous_request_lost codec kv r req cmd is_get up found behind anonymous key h =
    let (c, n) = http_command_numbers (numbered req kv) cmd is_get h in
    (
      rw (anonymous, key),
      begin_known codec cmd (counted kv) r.last_reply up
          (known_at cmd.client_id cmd.seq_id (counted kv) r c (omega arith) found),
    )
