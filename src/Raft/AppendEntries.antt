-- ===== src/Raft/AppendEntries.antt =====
-- raft/raft.go: `AppendEntries`.
use ai_fs.Prelude.{
  ℕ, zero, suc, ◌+◌, ◌-◌, min, Bool, true, false, Option, none, some, List, [], ◌∷◌, ◌++◌, take,
  ltb, leb, ◌==◌, if◌then◌else◌, ◌>>=◌,
}
use ai_fs.Raft.State.{
  LogEntry, Raft, follower, Codec, Persistent, last_logical_index, log_at, persist,
}

pub record AppendEntriesArgs (C : Type 0) : Type 0 where
  pub term : ℕ
  pub leader_id : ℕ
  pub prev_log_index : ℕ
  pub prev_log_term : ℕ
  pub entries : List (LogEntry C)
  pub leader_commit : ℕ

-- `conflict_term` is `none` for -1.
pub record AppendEntriesReply : Type 0 where
  pub success : Bool
  pub term : ℕ
  pub conflict_index : ℕ
  pub conflict_term : Option ℕ

-- The reply that the caller hands in, with Go's zero values.
abbrev pub zero_reply : AppendEntriesReply
zero_reply = record { success = false; term = 0; conflict_index = 0; conflict_term = some 0 }

module _ {C : Type 0} where
  -- The loop that walks back over the entries of the conflicting term: `left` is
  -- `i - lastIncludedIndex`, and `found` the conflict index so far.
  unfoldable pub first_of_term : Raft C → (term left found : ℕ) → Option ℕ
  first_of_term rf term zero found = some found
  first_of_term rf term (suc left) found = do
    let i = rf.last_included_index + suc left
    let rest = first_of_term rf term left i
    entry ← log_at i rf
    if entry.term == term then rest else some found

  -- The loop over `args.Entries`, at the logical index `curr`: `entries` are those from there on.
  unfoldable pub sync_logs : ℕ → List (LogEntry C) → Raft C → Option (Raft C)
  sync_logs curr [] rf = some rf
  sync_logs curr (entry ∷ entries) rf =
      let rest = sync_logs (curr + 1) entries rf in
      if leb curr (last_logical_index rf)
      then (do
        mine ← log_at curr rf
        if mine.term == entry.term
            then rest
            else some (record rf {
              logs = take (curr - rf.last_included_index) rf.logs ++ (entry ∷ entries);
            }))
      else some (record rf { logs = rf.logs ++ (entry ∷ entries) })

  -- The last `if`.
  unfoldable pub advance_commit : ℕ → Raft C → Raft C
  advance_commit leader_commit rf =
      if ltb rf.commit_index leader_commit
      then record rf { commit_index = min leader_commit (last_logical_index rf) }
      else rf

module _ {C : Type 0} (codec : Codec (Persistent C)) where
  -- From `rf.state = 2` up to the log: the sender is the leader of its term.
  unfoldable pub follow : (now leader_id term : ℕ) → Raft C → Raft C
  unfolding persist
  follow now leader_id term rf =
      let rf' : Raft C = record rf { state = follower; timer = now; curr_leader = leader_id } in
      if ltb rf.curr_term term
      then persist codec (record rf' { voted_for = none; curr_term = term })
      else rf'

  -- The entry at `PrevLogIndex` is `prev`.
  unfoldable pub match_prev :
      AppendEntriesArgs C → Raft C → LogEntry C → Option (Raft C × AppendEntriesReply)
  unfolding advance_commit persist
  match_prev args rf prev =
      if args.prev_log_term == prev.term
      then (do
        rf' ← sync_logs (args.prev_log_index + 1) args.entries rf
        some (
          advance_commit args.leader_commit (persist codec rf'),
          record zero_reply { success = true },
        ))
      else (do
        i ← first_of_term rf prev.term (args.prev_log_index - rf.last_included_index) 0
        some (rf, record zero_reply { conflict_index = i; conflict_term = some prev.term }))

  -- The checks of `PrevLogIndex`.
  unfoldable pub check_prev : AppendEntriesArgs C → Raft C → Option (Raft C × AppendEntriesReply)
  check_prev args rf =
      if ltb (last_logical_index rf) args.prev_log_index
      then some (
        rf,
        record zero_reply { conflict_term = none; conflict_index = last_logical_index rf + 1 },
      )
      else if ltb args.prev_log_index rf.last_included_index
      then some (
        rf,
        record zero_reply {
          term = rf.curr_term;
          conflict_index = rf.last_included_index + 1;
          conflict_term = none;
        },
      )
      else (do prev ← log_at args.prev_log_index rf; match_prev args rf prev)

  unfoldable pub append_entries :
      ℕ → AppendEntriesArgs C → Raft C → Option (Raft C × AppendEntriesReply)
  append_entries now args rf =
      if ltb args.term rf.curr_term
      then some (rf, record zero_reply { term = rf.curr_term })
      else check_prev args (follow now args.leader_id args.term rf)
