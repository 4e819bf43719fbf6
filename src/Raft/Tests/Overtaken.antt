-- ===== src/Raft/Tests/Overtaken.antt =====
-- A peer that does not lead sends the entry of an older term, and a committed one gives way.
use ai_fs.Prelude.{ℕ, ◌≤◌, ◌≡◌, refl, true, some, none, [], ◌∷◌, arith}
use ai_fs.Raft.Plain.{plain, encode_option, encode_logs, encode_state}
use ai_fs.Raft.State.{Raft, follower, LogEntry, log_at, last_logical_index}
use ai_fs.Raft.AppendEntries.{
  AppendEntriesArgs, AppendEntriesReply, zero_reply, append_entries, check_prev, match_prev, follow,
  sync_logs,
}
use ai_fs.Raft.Replication.{make_append_entry, send_entries}
use ai_fs.Raft.Steps.{then_step, live, sent_entries}
use ai_fs.Raft.Valid.{IsValid}
use ai_fs.Raft.Valid.Runs.{made-IsValid}
use ai_fs.Raft.Logs.{TermAt}
use ai_fs.Raft.Logs.Taken.{sent_entries_taken}
use ai_fs.Raft.Tests.{voted, voted-Steps}

-- Peer 2 leads term 2, and has committed its entry.
abbrev committing : AppendEntriesArgs ℕ
committing = record {
  term = 2;
  leader_id = 2;
  prev_log_index = 0;
  prev_log_term = 0;
  entries = record { term = 2; command = some 7 } ∷ [];
  leader_commit = 1;
}

abbrev committed : Raft ℕ
committed = record voted {
  persister = record { raftstate = 2 ∷ 0 ∷ 0 ∷ 0 ∷ 0 ∷ 0 ∷ 2 ∷ 8 ∷ []; snapshot = [] };
  curr_leader = 2;
  curr_term = 2;
  voted_for = none;
  timer = 7;
  logs = record { term = 0; command = none } ∷ record { term = 2; command = some 7 } ∷ [];
  commit_index = 1;
}

took_committed :
    append_entries plain 7 committing voted ≡ some (committed, record zero_reply { success = true })
unfolding append_entries check_prev match_prev follow sync_logs log_at last_logical_index
    encode_state encode_option encode_logs
took_committed = refl

committed-IsValid : IsValid committed
committed-IsValid =
    made-IsValid plain 0 3 0 committed
      (then_step voted-Steps (live (sent_entries 7 committing _ took_committed)))

-- Peer 1 led term 1, and has followed to term 2 before its goroutine runs.
abbrev overtaken : Raft ℕ
overtaken = record voted {
  me = 1;
  curr_term = 2;
  voted_for = none;
  logs = record { term = 0; command = none } ∷ record { term = 1; command = some 5 } ∷ [];
  next_index = 1 ∷ 1 ∷ 1 ∷ [];
}

base_at : (log_at 0 overtaken ≡ some (record { term = 0; command = none })) × TermAt 0 0 committed
unfolding log_at
base_at = (refl, (record { term = 0; command = none }, refl, refl))

sent_entries_taken_example :
    (args : AppendEntriesArgs ℕ) × (rf' : Raft ℕ) × (reply : AppendEntriesReply)
    × (make_append_entry 0 overtaken ≡ some (send_entries args))
    × (append_entries plain 8 args committed ≡ some (rf', reply))
    × (reply.success ≡ true)
    × (rf'.state ≡ follower)
    × (rf'.curr_leader ≡ 1)
    × ((i : ℕ) (e : LogEntry ℕ) → 1 ≤ i → log_at i overtaken ≡ some e → TermAt i e.term rf')
sent_entries_taken_example =
    sent_entries_taken plain 8 0 1 overtaken committed (record { term = 0; command = none })
      committed-IsValid refl (omega arith) base_at.0 base_at.1 (omega arith)
