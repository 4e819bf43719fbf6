-- ===== src/Kvraft/Tests.antt =====
-- Small runs of servers and logs, on which the theorems are applied.
use ai_fs.Kvraft.Clerk.{clerk_get, clerk_put_append}
use ai_fs.Kvraft.Retries.{clerk_get_returns, clerk_put_append_returns}
use ai_fs.Prelude.{
  ◌≢◌, inl, ℕ, ◌+◌, ◌≡◌, refl, ◌⊎◌, true, false, ◌&&◌, if◌then◌else◌, Option, some, none, [], ◌∷◌,
  arith,
}
use ai_fs.Prelude.Dict.{◌==◌, nat_eq, string_eq, lookup, insert}
use ai_fs.Raft.Persister.{make_persister}
use ai_fs.Raft.State.{
  Codec, leader, is_leader, last_logical_index, log_at, command_msg, snapshot_msg,
}
use ai_fs.Raft.Lifetime.{make}
use ai_fs.Raft.Steps.{here}
use ai_fs.Raft.Valid.{IsValid}
use ai_fs.Raft.Valid.Runs.{made-IsValid}
use ai_fs.Kvraft.Common.{Op, OpReply, ok, err_time_out, err_wrong_leader, Tables, KvServer}
use ai_fs.Kvraft.StateMachine.{apply_to_state_machine, apply_command, recorded, put_handler}
use ai_fs.Kvraft.Applier.{
  tables, notify, take_snapshot, applier, handle_command, handle_snapshot, restore_snapshot,
  full_chans, open_chans, start_kv_server,
}
use ai_fs.Kvraft.Handlers.{
  begin, known, not_leader, waiting, register, wait_applied, finish, zero_reply,
}
use ai_fs.Kvraft.Once.{
  apply_all, run_all, once, exactly_once, stale_duplicate_forgets, overtaken_command_lost,
}
use ai_fs.Kvraft.Spec.{spec_view, spec_reply, view, state_machine_refines}
use ai_fs.Kvraft.Replicas.{Agree, applier-Agree, snapshot_catches_up}
use ai_fs.Kvraft.Requests.{begin_cases, request_served}
use ai_fs.Kvraft.Http.{HttpRequest, request, execute, admit, http_command}
use ai_fs.Kvraft.HttpIds.{numbered, counted, anonymous_request_lost}
use ai_fs.Kvraft.Channels as Channels
use ai_fs.Kvraft.Channels.{applied, applier_never_blocks}
use ai_fs.Kvraft.Codings.{state_codec, tables_codec}

abbrev put_a : Op
put_a = record { op = "Put"; key = "a"; value = "1"; seq_id = 1; client_id = 7 }

abbrev append_a : Op
append_a = record { op = "Append"; key = "a"; value = "2"; seq_id = 2; client_id = 7 }

abbrev empty : Tables
empty = record { kv_store = []; record_map = [] }

-- The append comes twice in the log.
exactly_once_example :
    (apply_all (put_a ∷ append_a ∷ append_a ∷ []) empty).kv_store
    ≡ run_all (once (put_a ∷ append_a ∷ append_a ∷ []) (λ _. none)) []
unfolding lookup
exactly_once_example =
    exactly_once (put_a ∷ append_a ∷ append_a ∷ []) (λ _. none) empty (λ i. refl)
      ((λ n h. ground arith), ((λ n h. ground arith), ((λ n h. ground arith), tt)))

append_twice : (apply_all (put_a ∷ append_a ∷ append_a ∷ []) empty).kv_store ≡ ("a", "12") ∷ []
unfolding apply_all apply_command apply_to_state_machine recorded lookup insert
append_twice = refl

abbrev appended : Tables
appended = record {
  kv_store = ("a", "12") ∷ [];
  record_map = (7, record { last_seq_id = 2; last_reply = record { err = ok; value = "" } }) ∷ [];
}

-- The late put takes the record back, and the append runs a second time.
stale_duplicate_forgets_example :
    (apply_all (put_a ∷ append_a ∷ []) appended).kv_store
    ≡ (apply_to_state_machine append_a (("a", "12") ∷ [])).0
unfolding lookup
stale_duplicate_forgets_example =
    stale_duplicate_forgets put_a append_a appended refl (omega arith) refl

abbrev put_b : Op
put_b = record { op = "Put"; key = "b"; value = "3"; seq_id = 2; client_id = 7 }

overtaken_command_lost_example :
    ((apply_all (put_b ∷ put_a ∷ []) empty).kv_store ≡ (apply_to_state_machine put_b []).0)
    × ((apply_command put_a (apply_command put_b empty).0).1 ≡ (apply_to_state_machine put_b []).1)
unfolding lookup
overtaken_command_lost_example = overtaken_command_lost put_a put_b empty refl (omega arith) refl

-- It is answered with OK and not stored.
first_put_lost :
    (lookup "a" (apply_all (put_b ∷ put_a ∷ []) empty).kv_store ≡ none)
    × ((apply_command put_a (apply_command put_b empty).0).1.err ≡ ok)
unfolding lookup apply_command apply_to_state_machine recorded insert apply_all put_handler
first_put_lost = (refl, refl)

state_machine_refines_example :
    (view (apply_to_state_machine append_a (("a", "1") ∷ [])).0 "a"
      ≡ spec_view append_a (view (("a", "1") ∷ [])) "a")
    × ((apply_to_state_machine append_a (("a", "1") ∷ [])).1
        ≡ spec_reply append_a (view (("a", "1") ∷ [])))
state_machine_refines_example = state_machine_refines append_a (("a", "1") ∷ []) "a"

-- A server that has just started, as number `me` of three.
abbrev server : (me : ℕ) → KvServer
server me = record {
  me = me;
  rf = make state_codec 0 3 me make_persister;
  notify_chans = [];
  dead = false;
  max_raft_state = none;
  commit_index = 0;
  leader_id = 0;
  kv_store = [];
  record_map = [];
  http_seq = 0;
}

server-IsValid : (me : ℕ) → IsValid (server me).rf
server-IsValid me = made-IsValid state_codec 0 3 me (make state_codec 0 3 me make_persister) here

-- The leader of its term.
abbrev leading_server : KvServer
leading_server = record (server 0) { rf = record (server 0).rf { state = leader } }

leading_server-IsValid : IsValid leading_server.rf
leading_server-IsValid = ground (arith, server-IsValid 0)

begin_cases_example :
    ((r : OpReply) × (recorded 7 1 [] ≡ some r)
      × (begin state_codec put_a leading_server ≡ (leading_server, known r)))
    ⊎ (((recorded 7 1 [] ≡ none)
          × (is_leader leading_server.rf ≡ false)
          × (begin state_codec put_a leading_server ≡ (leading_server, not_leader 0)))
        ⊎ ((recorded 7 1 [] ≡ none)
            × (is_leader leading_server.rf ≡ true)
            × ((begin state_codec put_a leading_server).1
                ≡ waiting (last_logical_index leading_server.rf + 1) leading_server.rf.curr_term)
            × (log_at
                  (last_logical_index leading_server.rf + 1)
                  (begin state_codec put_a leading_server).0.rf
                ≡ some (record { term = leading_server.rf.curr_term; command = some put_a }))
            × (tables (begin state_codec put_a leading_server).0 ≡ tables leading_server)))
begin_cases_example = begin_cases state_codec put_a leading_server refl leading_server-IsValid

-- The server after the first command of the log.
abbrev after_put : (me : ℕ) → KvServer
after_put me = record (server me) {
  commit_index = 1;
  kv_store = ("a", "1") ∷ [];
  record_map = (7, record { last_seq_id = 1; last_reply = record { err = ok; value = "" } }) ∷ [];
}

abbrev after_append : (me : ℕ) → KvServer
after_append me = record (server me) {
  commit_index = 2;
  kv_store = ("a", "12") ∷ [];
  record_map = (7, record { last_seq_id = 2; last_reply = record { err = ok; value = "" } }) ∷ [];
}

applied_put :
    (me : ℕ)
    → applier state_codec tables_codec (command_msg (some put_a) 1 ∷ []) (server me)
      ≡ some (after_put me)
unfolding applier handle_command take_snapshot notify apply_command apply_to_state_machine recorded
    lookup insert
applied_put me = refl

applied_append :
    (me : ℕ)
    → applier state_codec tables_codec (command_msg (some append_a) 2 ∷ []) (after_put me)
      ≡ some (after_append me)
unfolding applier handle_command take_snapshot notify apply_command apply_to_state_machine recorded
    lookup insert
applied_append me = refl

applier-Agree_example : Agree (after_put 0) (after_put 1)
applier-Agree_example =
    applier-Agree state_codec tables_codec (command_msg (some put_a) 1 ∷ []) (server 0)
      (after_put 0) (server 1) (after_put 1) (record { tables_eq = refl; index_eq = refl })
      (applied_put 0) (applied_put 1)

restored :
    (c : Codec Tables)
    → (handle_snapshot state_codec c (c.encode (tables (after_put 0))) 1 (server 1)).0 ≡ after_put 1
unfolding handle_snapshot restore_snapshot full_chans open_chans
restored c = ground (arith, c.decode-encode (tables (after_put 0)))

caught_up :
    applier state_codec tables_codec
      (snapshot_msg (tables_codec.encode (tables (after_put 0))) 1 1
        ∷ command_msg (some append_a) 2
        ∷ [])
      (server 1)
    ≡ some (after_append 1)
unfolding applier
caught_up = rw (restored tables_codec) (applied_append 1)

snapshot_catches_up_example : tables (after_append 1) ≡ tables (after_append 0)
snapshot_catches_up_example =
    snapshot_catches_up state_codec tables_codec 1 (command_msg (some append_a) 2 ∷ [])
      (after_put 0) (after_append 0) (server 1) (after_append 1) (omega arith) (applied_append 0)
      caught_up

abbrev put_reply : OpReply
put_reply = record { err = ok; value = "" }

-- The handler of the put waits for index 1, and its reply has come.
abbrev replied : KvServer
replied = record (after_put 0) { notify_chans = (1, some put_reply) ∷ [] }

put_reply_lem : (apply_command put_a empty).1 ≡ put_reply
unfolding apply_command apply_to_state_machine recorded lookup
put_reply_lem = refl

replied_lem :
    handle_command state_codec tables_codec (some put_a) 1 (register 1 (server 0)) ≡ some replied
unfolding handle_command take_snapshot notify apply_command apply_to_state_machine recorded lookup
    insert register
replied_lem = refl

request_served_example :
    (lookup 1 replied.notify_chans ≡ some (some (apply_command put_a empty).1))
    × ((finish false 1
          (wait_applied 0 (some (apply_command put_a empty).1) (server 0).rf)
          replied).1
        ≡ (if is_leader (server 0).rf && (server 0).rf.curr_term == 0
            then record zero_reply { err = (apply_command put_a empty).1.err; value = "" }
            else record zero_reply { err = err_wrong_leader }))
    × ((finish false 1 (wait_applied 0 none (server 0).rf) replied).1
        ≡ record zero_reply { err = err_time_out })
    × ((o : Option OpReply)
        → lookup 1 (finish false 1 (wait_applied 0 o (server 0).rf) replied).0.notify_chans ≡ none)
request_served_example =
    request_served state_codec tables_codec put_a 1 0 false (server 0).rf (server 0) replied
      replied_lem

-- A server that has applied a request which another server numbered 1, and has numbered none.
abbrev behind : KvServer
behind = record (server 1) {
  kv_store = ("x", "1") ∷ [];
  record_map = (0xA1F5, record { last_seq_id = 1; last_reply = put_reply }) ∷ [];
}

abbrev anonymous : HttpRequest
anonymous = record { op = "put"; key = "y"; value = "2"; client_id = 0; seq_id = 0 }

abbrev lost : Op
lost = record { op = "Put"; key = "y"; value = "2"; seq_id = 1; client_id = 0xA1F5 }

lost_lem : http_command (numbered anonymous behind) ≡ some (lost, false)
unfolding http_command
lost_lem = refl

behind_lem :
    lookup 0xA1F5 behind.record_map ≡ some (record { last_seq_id = 1; last_reply = put_reply })
unfolding lookup
behind_lem = refl

anonymous_request_lost_example :
    (admit true (request anonymous) behind ≡ (counted behind, execute (numbered anonymous behind)))
    × (begin state_codec lost (counted behind) ≡ (counted behind, known put_reply))
anonymous_request_lost_example =
    anonymous_request_lost state_codec behind (record { last_seq_id = 1; last_reply = put_reply })
      anonymous lost false refl behind_lem (omega arith) refl refl lost_lem

-- The first server follows, the second does not answer, the third has the value.
clerk_get_returns_example :
    clerk_get "a"
      (some (record zero_reply { err = err_wrong_leader })
        ∷ none
        ∷ some (record zero_reply { err = ok; value = "12" })
        ∷ [])
      (record { servers = 3; curr_leader = 2; client_id = 5; seq_id = 4 })
    ≡ (
      record { key = "a"; seq_id = 4; client_id = 5 },
      record { servers = 3; curr_leader = 1; client_id = 5; seq_id = 5 },
      some "12",
    )
clerk_get_returns_example =
    clerk_get_returns "a" (some (record zero_reply { err = err_wrong_leader }) ∷ none ∷ [])
      (record zero_reply { err = ok; value = "12" }) []
      (record { servers = 3; curr_leader = 2; client_id = 5; seq_id = 4 }) (omega arith)
      (inl refl, (tt, tt)) refl

clerk_put_append_returns_example :
    clerk_put_append "a" "1" "Put"
      (none ∷ some (record zero_reply { err = ok }) ∷ some zero_reply ∷ [])
      (record { servers = 3; curr_leader = 2; client_id = 5; seq_id = 4 })
    ≡ (
      record { key = "a"; value = "1"; op = "Put"; seq_id = 4; client_id = 5 },
      record { servers = 3; curr_leader = 0; client_id = 5; seq_id = 5 },
      some tt,
    )
clerk_put_append_returns_example =
    clerk_put_append_returns "a" "1" "Put" (none ∷ []) (record zero_reply { err = ok })
      (some zero_reply ∷ []) (record { servers = 3; curr_leader = 2; client_id = 5; seq_id = 4 })
      (omega arith) (tt, tt) refl

-- A new server, with a handler that waits at index 1.
abbrev listening : KvServer
listening = register 1 (start_kv_server state_codec tables_codec 0 3 0 make_persister none)

abbrev put_applied : KvServer
put_applied = applied state_codec tables_codec put_a 1 listening

listening-Run :
    Channels.Run state_codec tables_codec
      (start_kv_server state_codec tables_codec 0 3 0 make_persister none)
      listening
listening-Run = Channels.then_step Channels.here (Channels.registers 1 refl)

listening_start : listening.commit_index ≡ 0
unfolding register start_kv_server restore_snapshot make_persister
listening_start = refl

no_snapshot : take_snapshot state_codec tables_codec put_applied ≡ some put_applied
unfolding take_snapshot register start_kv_server restore_snapshot make_persister
no_snapshot = refl

applier_never_blocks_example :
    handle_command state_codec tables_codec (some put_a) 1 listening ≢ none
applier_never_blocks_example =
    applier_never_blocks state_codec tables_codec 0 3 0 make_persister none listening put_applied
      put_a 1 listening-Run (omega (arith, listening_start)) no_snapshot
