-- ===== src/Raft/Logs/Known.antt =====
-- A repeated or late `AppendEntries` whose entries the peer has already.
use ai_fs.Prelude.{ℕ, ◌+◌, ◌≤◌, ◌≡◌, ◌∙◌, true, some, List, get_elem?, arith, Returns}
use ai_fs.Raft.State.{Raft, LogEntry, Codec, Persistent, last_logical_index}
use ai_fs.Raft.AppendEntries.{
  AppendEntriesArgs, AppendEntriesReply, sync_logs, append_entries, follow, match_prev, check_prev,
}
use ai_fs.Raft.Logs.{TermAt, sync_logs_known}
use ai_fs.Raft.Logs.Accepted.{in_range, log_at-follow}

module _ {C : Type 0} (codec : Codec (Persistent C)) where
  abbrev pub Takes : List (LogEntry C) → Raft C × AppendEntriesReply → Type 0
  Takes logs r = (r.0.logs ≡ logs) × (r.1.success ≡ true)

  match_prev_known :
      (args : AppendEntriesArgs C) (rf : Raft C) (prev : LogEntry C)
      → prev.term ≡ args.prev_log_term
      → sync_logs (args.prev_log_index + 1) args.entries rf ≡ some rf
      → Returns (Takes rf.logs) (match_prev codec args rf prev)
  unfolding match_prev
  match_prev_known args rf prev t h = ground arith

  check_prev_known :
      (args : AppendEntriesArgs C) (rf : Raft C)
      → TermAt args.prev_log_index args.prev_log_term rf
      → sync_logs (args.prev_log_index + 1) args.entries rf ≡ some rf
      → Returns (Takes rf.logs) (check_prev codec args rf)
  unfolding check_prev
  check_prev_known args rf (prev, p, t) h =
      ground (arith, in_range args.prev_log_index rf prev p, match_prev_known args rf prev t h)

  logs-follow :
      (now leader_id term : ℕ) (rf : Raft C)
      → ((follow codec now leader_id term rf).logs ≡ rf.logs)
        × (last_logical_index (follow codec now leader_id term rf) ≡ last_logical_index rf)
  unfolding follow last_logical_index
  logs-follow now leader_id term rf = ground arith

  -- A request that is not behind in its term, whose previous entry matches and whose entries all
  -- stand in the log already, is answered with success and leaves the log as it is: entries behind
  -- those of the request are not cut off.
  pub known_entries_kept :
      (now : ℕ) (args : AppendEntriesArgs C) (rf : Raft C)
      → rf.curr_term ≤ args.term
      → TermAt args.prev_log_index args.prev_log_term rf
      → ((j : ℕ) (e : LogEntry C)
          → get_elem? args.entries j ≡ some e
          → TermAt (args.prev_log_index + 1 + j) e.term rf)
      → Returns
          (λ r. (r.0.logs ≡ rf.logs) × (r.1.success ≡ true))
          (append_entries codec now args rf)
  unfolding append_entries
  known_entries_kept now args rf h (prev, p, t) known =
      let rf' = follow codec now args.leader_id args.term rf in
      let followed = λ (i : ℕ). log_at-follow codec now args.leader_id args.term i rf in
      let same = logs-follow now args.leader_id args.term rf in
      ground (
        arith,
        same,
        check_prev_known args rf' (prev, followed args.prev_log_index ∙ p, t)
            (sync_logs_known (args.prev_log_index + 1) args.entries rf' (λ j e g.
              let (x, q, u) = known j e g in
              let q' = followed (args.prev_log_index + 1 + j) ∙ q in
              ((in_range (args.prev_log_index + 1 + j) rf' x q').1, (x, q', u)))),
      )
