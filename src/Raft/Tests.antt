-- ===== src/Raft/Tests.antt =====
-- A concrete encoding and small runs of a peer, on which the theorems are applied.
use ai_fs.Prelude.{
  ℕ, zero, suc, ◌+◌, ◌≤◌, ◌<◌, ◌≡◌, ◌≢◌, refl, true, false, some, none, [], ◌∷◌, get_elem?, arith,
  ◌⊎◌, Returns,
}
use ai_fs.Raft.Plain.{plain, encode_option, encode_logs, encode_state}
use ai_fs.Raft.Persister.{make_persister}
use ai_fs.Raft.State.{
  Raft, leader, follower, candidate, LogEntry, persistent, read_persist, log_at, last_logical_index,
}
use ai_fs.Raft.RequestVote.{RequestVoteArgs, RequestVoteReply, request_vote}
use ai_fs.Raft.AppendEntries.{
  AppendEntriesArgs, zero_reply, append_entries, check_prev, match_prev, follow, sync_logs,
}
use ai_fs.Raft.Snapshots.{InstallSnapshotArgs, snapshot}
use ai_fs.Raft.Election.{start_election, become_leader, reset_next}
use ai_fs.Raft.Replication.{
  append_reply, install_reply, start, make_append_entry, commit_index_update, commit_loop,
  count_matches,
}
use ai_fs.Raft.Lifetime.{make, apply_one, send_apply_msg}
use ai_fs.Raft.Steps.{Steps, here, then_step, live, asked_for_vote}
use ai_fs.Raft.Durability.{restart_recovers}
use ai_fs.Raft.Votes.{one_vote_per_term}
use ai_fs.Raft.Valid.{IsValid}
use ai_fs.Raft.Valid.Runs.{made-IsValid, no_panic}
use ai_fs.Raft.Logs.{TermAt}
use ai_fs.Raft.Logs.Accepted.{accepted_entries}
use ai_fs.Raft.Logs.Known.{known_entries_kept}
use ai_fs.Raft.Commit.{IsCommittable, commits_highest_majority}
use ai_fs.Raft.Delivery.{Delivers, sends_in_order}
use ai_fs.Raft.Stale.{elected_with, stale_matches_commit}
mod Overtaken

-- One of three peers, freshly made.
abbrev fresh : Raft ℕ
fresh = make plain 0 3 0 make_persister

abbrev asking : RequestVoteArgs
asking = record { term = 1; candidate_id = 2; last_log_index = 0; last_log_term = 0 }

abbrev granted : RequestVoteReply
granted = record { term = 1; vote_granted = true }

-- The same peer after it has voted for peer 2.
abbrev voted : Raft ℕ
voted = record {
  peers = 3;
  persister = record { raftstate = 1 ∷ 3 ∷ 0 ∷ 0 ∷ 0 ∷ 0 ∷ []; snapshot = [] };
  me = 0;
  dead = false;
  curr_leader = 0;
  curr_term = 1;
  voted_for = some 2;
  state = follower;
  logs = record { term = 0; command = none } ∷ [];
  apply_ch = [];
  timer = 5;
  last_included_index = 0;
  last_included_term = 0;
  commit_index = 0;
  last_applied = 0;
  next_index = 0 ∷ 0 ∷ 0 ∷ [];
  match_index = 0 ∷ 0 ∷ 0 ∷ [];
}

vote_fresh : request_vote plain 5 asking fresh ≡ some (voted, granted)
unfolding request_vote make make_persister encode_state encode_option encode_logs read_persist
    log_at last_logical_index
vote_fresh = refl

voted-Steps : Steps plain fresh voted
voted-Steps = then_step here (live (asked_for_vote 5 asking granted vote_fresh))

restart_recovers_example : persistent (make plain 9 3 0 voted.persister) ≡ persistent voted
restart_recovers_example = restart_recovers plain 0 9 3 0 voted voted-Steps

vote_again : request_vote plain 6 asking voted ≡ some (record voted { timer = 6 }, granted)
unfolding request_vote encode_state encode_option encode_logs log_at last_logical_index
vote_again = refl

one_vote_per_term_example : ◌≡◌ {A = ℕ} 2 2
one_vote_per_term_example =
    one_vote_per_term plain 0 3 0 5 6 asking asking granted granted fresh voted voted
      (record voted { timer = 6 }) here vote_fresh refl here vote_again refl refl

abbrev sending : AppendEntriesArgs ℕ
sending = record {
  term = 1;
  leader_id = 2;
  prev_log_index = 0;
  prev_log_term = 0;
  entries = record { term = 1; command = some 7 } ∷ record { term = 1; command = some 8 } ∷ [];
  leader_commit = 1;
}

-- The peer once it has taken two entries of peer 2.
abbrev caught_up : Raft ℕ
caught_up = record voted {
  persister = record { raftstate = 1 ∷ 3 ∷ 0 ∷ 0 ∷ 0 ∷ 0 ∷ 1 ∷ 8 ∷ 1 ∷ 9 ∷ []; snapshot = [] };
  curr_leader = 2;
  timer = 7;
  logs =
      record { term = 0; command = none }
      ∷ record { term = 1; command = some 7 }
      ∷ record { term = 1; command = some 8 }
      ∷ [];
  commit_index = 1;
}

took_entries :
    append_entries plain 7 sending voted ≡ some (caught_up, record zero_reply { success = true })
unfolding append_entries check_prev match_prev follow sync_logs log_at last_logical_index
    encode_state encode_option encode_logs
took_entries = refl

abbrev installing : InstallSnapshotArgs
installing = record {
  term = 1;
  leader_id = 2;
  last_included_index = 3;
  last_included_term = 1;
  snapshot = 1 ∷ [];
}

voted-IsValid : IsValid voted
voted-IsValid = made-IsValid plain 0 3 0 voted voted-Steps

accepted_entries_example :
    (1 ≤ sending.term)
    × TermAt 0 0 voted
    × ((i : ℕ) → i ≤ 0 → log_at i caught_up ≡ log_at i voted)
    × ((j : ℕ) (e : LogEntry ℕ)
        → get_elem? sending.entries j ≡ some e
        → TermAt (0 + 1 + j) e.term caught_up)
accepted_entries_example =
    accepted_entries plain 7 sending (record zero_reply { success = true }) voted caught_up
      voted-IsValid took_entries refl

no_panic_example :
    (request_vote plain 8 asking voted ≢ none)
    × (append_entries plain 8 sending voted ≢ none)
    × (start_election plain 8 voted ≢ none)
    × (append_reply plain 8 1 sending zero_reply voted ≢ none)
    × (install_reply plain 8 1 installing 2 voted ≢ none)
    × (apply_one voted ≢ none)
    × (((0 ≤ last_logical_index voted + 1) × (make_append_entry 1 voted ≢ none))
        ⊎ ((last_logical_index voted + 1 < 0) × (make_append_entry 1 voted ≡ none)))
    × (((1 ≤ last_logical_index voted) × (snapshot plain 1 (7 ∷ []) voted ≢ none))
        ⊎ ((last_logical_index voted < 1) × (snapshot plain 1 (7 ∷ []) voted ≡ none)))
no_panic_example =
    no_panic plain 0 3 0 voted voted-Steps 8 1 0 1 (7 ∷ []) asking sending zero_reply installing 2
      (omega arith) refl

sent_again :
    (j : ℕ) (e : LogEntry ℕ)
    → get_elem? sending.entries j ≡ some e
    → TermAt (0 + 1 + j) e.term caught_up
unfolding log_at
sent_again zero e h = (e, h, refl)
sent_again (suc zero) e h = (e, h, refl)
sent_again (suc (suc j)) e h = ground arith

known_entries_kept_example :
    Returns
      (λ r. (r.0.logs ≡ caught_up.logs) × (r.1.success ≡ true))
      (append_entries plain 9 sending caught_up)
unfolding log_at
known_entries_kept_example =
    known_entries_kept plain 9 sending caught_up (omega arith)
      (record { term = 0; command = none }, refl, refl) sent_again

-- A leader of the term, which peer 1 has told that it holds index 2.
abbrev leading : Raft ℕ
leading = record caught_up { state = leader; commit_index = 0; match_index = 0 ∷ 2 ∷ 0 ∷ [] }

commit_leading : commit_index_update leading ≡ some (record leading { commit_index = 2 })
unfolding commit_index_update commit_loop count_matches log_at last_logical_index
commit_leading = refl

commits_highest_majority_example :
    (record leading { commit_index = 2 } ≡ record leading { commit_index = 2 })
    × (0 ≤ 2)
    × ((◌≡◌ {A = ℕ} 2 0) ⊎ (IsCommittable leading 2 × (2 ≤ last_logical_index leading)))
    × ((n : ℕ) → 2 < n → n ≤ last_logical_index leading → ¬ (IsCommittable leading n))
commits_highest_majority_example =
    commits_highest_majority leading (record leading { commit_index = 2 }) commit_leading

caught_up-IsValid : IsValid caught_up
caught_up-IsValid = ground arith

sends_in_order_example : Returns (Delivers caught_up) (send_apply_msg 5 caught_up)
sends_in_order_example = sends_in_order 5 caught_up caught_up-IsValid (omega arith)

-- A candidate that led before, when peer 1 had two of its entries. It has lost them since.
abbrev returning : Raft ℕ
returning = record voted {
  voted_for = some 0;
  state = candidate;
  curr_term = 4;
  match_index = 0 ∷ 2 ∷ 0 ∷ [];
}

returning-IsValid : IsValid returning
returning-IsValid = ground arith

abbrev restarted : Raft ℕ
restarted = elected_with plain 4 (some 9) returning

commits_at_once : commit_index_update restarted ≡ some (record restarted { commit_index = 1 })
unfolding commit_index_update commit_loop count_matches log_at last_logical_index start
    become_leader reset_next encode_state encode_option encode_logs
commits_at_once = refl

stale_matches_commit_example :
    (◌≡◌ {A = ℕ} 1 1) × (log_at 1 restarted ≡ some (record { term = 4; command = some 9 }))
unfolding last_logical_index
stale_matches_commit_example =
    stale_matches_commit plain 4 (some 9) returning (record restarted { commit_index = 1 }) (1 ∷ [])
      returning-IsValid refl refl (omega arith)
      (omega arith, (omega arith, (2, refl, omega arith)), tt) (omega arith) commits_at_once
