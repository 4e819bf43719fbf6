-- ===== src/Kvraft/AgreementTests.antt =====
-- Two servers of the example's cluster apply its committed command.
use ai_fs.Prelude.{ℕ, ◌≡◌, refl, false, none, some, [], ◌∷◌, List, arith}
use ai_fs.Prelude.Dict.{lookup, insert}
use ai_fs.Raft.State.{Raft, ApplyMsg, command_msg, log_at, get_physical_index, last_logical_index}
use ai_fs.Raft.Lifetime.{send_apply_msg, apply_one}
use ai_fs.Raft.Network.Sample.{entry, committing, informed, n10, commitment}
use ai_fs.Kvraft.Codings.{state_codec, tables_codec}
use ai_fs.Kvraft.Common.{Op, KvServer}
use ai_fs.Kvraft.StateMachine.{apply_command, apply_to_state_machine, put_handler, recorded}
use ai_fs.Kvraft.Applier.{applier, handle_command, take_snapshot, notify}
use ai_fs.Kvraft.Replicas.{Agree}
use ai_fs.Kvraft.Agreement.{servers-Agree}

abbrev command : Op
command = record { op = "Put"; key = "a"; value = "x"; seq_id = 1; client_id = 1 }

abbrev messages : List (ApplyMsg Op)
messages = command_msg (some command) 1 ∷ []

abbrev applied_at : Raft Op → Raft Op
applied_at rf = record rf { last_applied = 1; apply_ch = messages }

abbrev server : ℕ → Raft Op → KvServer
server me rf = record {
  me = me;
  rf = rf;
  notify_chans = [];
  dead = false;
  max_raft_state = none;
  commit_index = 0;
  leader_id = 0;
  kv_store = [];
  record_map = [];
  http_seq = 0;
}

abbrev served : KvServer → KvServer
served kv = record kv {
  commit_index = 1;
  kv_store = ("a", "x") ∷ [];
  record_map = (1, record { last_seq_id = 1; last_reply = record { err = "OK"; value = "" } }) ∷ [];
}

abbrev leader_server : KvServer
leader_server = server 0 (committing state_codec command)

abbrev other_server : KvServer
other_server = server 1 (informed state_codec command)

hands_over :
    (send_apply_msg 2 (committing state_codec command)
      ≡ some (applied_at (committing state_codec command)))
    × (send_apply_msg 2 (informed state_codec command)
        ≡ some (applied_at (informed state_codec command)))
unfolding send_apply_msg apply_one log_at get_physical_index last_logical_index
hands_over = (refl, refl)

held :
    (log_at 1 (committing state_codec command) ≡ some (entry state_codec command))
    × (log_at 1 (informed state_codec command) ≡ some (entry state_codec command))
unfolding log_at get_physical_index
held = (refl, refl)

applies :
    (applier state_codec tables_codec messages leader_server ≡ some (served leader_server))
    × (applier state_codec tables_codec messages other_server ≡ some (served other_server))
unfolding applier handle_command apply_command apply_to_state_machine put_handler recorded
    take_snapshot notify lookup insert
applies = (refl, refl)

servers-Agree_example : (messages ≡ messages) × Agree (served leader_server) (served other_server)
servers-Agree_example =
    servers-Agree state_codec tables_codec 3 0 (n10 state_codec command)
      (commitment state_codec command) 0 1 2 2 (applied_at (committing state_codec command))
      (applied_at (informed state_codec command)) (entry state_codec command)
      (entry state_codec command) messages messages leader_server (served leader_server)
      other_server (served other_server) (omega arith) (omega arith) refl (omega arith)
      (omega arith) hands_over.0 hands_over.1 refl refl refl held.0 held.1 refl
      (record { tables_eq = refl; index_eq = refl }) applies.0 applies.1
