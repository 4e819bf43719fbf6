-- ===== src/Raft/Logs/Accepted.antt =====
-- The answer of `AppendEntries`, and the log behind it.
use ai_fs.Prelude.{
  ℕ, ◌+◌, ◌-◌, ◌≤◌, ◌≡◌, ◌∙◌, sym, ap, true, some, get_elem?, arith, ltb, Bool-cases, Option-cases,
  inl, inr, lt-length_of_get_elem?,
}
use ai_fs.Raft.State.{Raft, LogEntry, Codec, Persistent, log_at, last_logical_index, persist}
use ai_fs.Raft.AppendEntries.{
  AppendEntriesArgs, AppendEntriesReply, sync_logs, append_entries, advance_commit, follow,
  match_prev, check_prev,
}
use ai_fs.Raft.Valid.{IsValid, nonempty}
use ai_fs.Raft.Logs.{TermAt, InLog, sync_logs_before, sync_logs_terms}

module _ {C : Type 0} where
  -- The log has entries from the base entry to the last one.
  pub in_range :
      (i : ℕ) (rf : Raft C) (e : LogEntry C)
      → log_at i rf ≡ some e
      → (rf.last_included_index ≤ i) × (i ≤ last_logical_index rf)
  unfolding log_at last_logical_index
  in_range i rf e h = ground (arith, lt-length_of_get_elem? rf.logs (i - rf.last_included_index) e)

module _ {C : Type 0} (codec : Codec (Persistent C)) where
  pub log_at-follow :
      (now leader_id term i : ℕ) (rf : Raft C)
      → log_at i (follow codec now leader_id term rf) ≡ log_at i rf
  unfolding follow log_at
  log_at-follow now leader_id term i rf = ground arith

  log_at-written :
      (commit i : ℕ) (rf : Raft C)
      → log_at i (advance_commit commit (persist codec rf)) ≡ log_at i rf
  unfolding advance_commit persist log_at
  log_at-written commit i rf = ground arith

  -- What a success went through.
  pub record Passed (args : AppendEntriesArgs C) (rf rf' : Raft C) : Type 0 where
    pub prev : LogEntry C
    pub synced : Raft C
    pub found : log_at args.prev_log_index rf ≡ some prev
    pub same : prev.term ≡ args.prev_log_term
    pub sync : sync_logs (args.prev_log_index + 1) args.entries rf ≡ some synced
    pub result : rf' ≡ advance_commit args.leader_commit (persist codec synced)

  match_prev-Passed :
      (args : AppendEntriesArgs C) (reply : AppendEntriesReply) (rf rf' : Raft C)
      (prev : LogEntry C)
      → log_at args.prev_log_index rf ≡ some prev
      → match_prev codec args rf prev ≡ some (rf', reply)
      → reply.success ≡ true
      → Passed args rf rf'
  unfolding match_prev
  match_prev-Passed args reply rf rf' prev e h g =
      elim (Option-cases (sync_logs (args.prev_log_index + 1) args.entries rf)) [
        | inl n ↦ ground arith
        | inr (s, p) ↦ record {
          prev = prev;
          synced = s;
          found = e;
          same = ground arith;
          sync = p;
          result = ground arith;
        }
      ]

  check_prev-Passed :
      (args : AppendEntriesArgs C) (reply : AppendEntriesReply) (rf rf' : Raft C)
      → check_prev codec args rf ≡ some (rf', reply)
      → reply.success ≡ true
      → Passed args rf rf'
  unfolding check_prev
  check_prev-Passed args reply rf rf' h g = elim (Option-cases (log_at args.prev_log_index rf)) [
    | inl e ↦ ground arith
    | inr (prev, e) ↦ match_prev-Passed args reply rf rf' prev e (ground arith) g
  ]

  pub append_entries-Passed :
      (now : ℕ) (args : AppendEntriesArgs C) (reply : AppendEntriesReply) (rf rf' : Raft C)
      → append_entries codec now args rf ≡ some (rf', reply)
      → reply.success ≡ true
      → (rf.curr_term ≤ args.term) × Passed args (follow codec now args.leader_id args.term rf) rf'
  unfolding append_entries
  append_entries-Passed now args reply rf rf' h g = elim (Bool-cases (ltb args.term rf.curr_term)) [
    | inl old ↦ ground arith
    | inr new ↦ (ground arith, check_prev-Passed args reply _ rf' (ground arith) g)
  ]

  pub InLog-of_prev :
      (now : ℕ) (args : AppendEntriesArgs C) (rf : Raft C) (e : LogEntry C)
      → IsValid rf
      → log_at args.prev_log_index (follow codec now args.leader_id args.term rf) ≡ some e
      → InLog (args.prev_log_index + 1) (follow codec now args.leader_id args.term rf)
  unfolding follow last_logical_index
  InLog-of_prev now args rf e v h =
      let (low, high) =
        in_range args.prev_log_index (follow codec now args.leader_id args.term rf) e h in
      ground (arith, nonempty rf v)

  -- If a valid peer takes the entries of a leader, then the leader's term is not behind, the
  -- peer's log had the previous entry's term at its index, nothing up to that index has changed, and
  -- behind it the log has the terms of the entries, one after the other.
  pub accepted_entries :
      (now : ℕ) (args : AppendEntriesArgs C) (reply : AppendEntriesReply) (rf rf' : Raft C)
      → IsValid rf
      → append_entries codec now args rf ≡ some (rf', reply)
      → reply.success ≡ true
      → (rf.curr_term ≤ args.term)
        × TermAt args.prev_log_index args.prev_log_term rf
        × ((i : ℕ) → i ≤ args.prev_log_index → log_at i rf' ≡ log_at i rf)
        × ((j : ℕ) (e : LogEntry C)
            → get_elem? args.entries j ≡ some e
            → TermAt (args.prev_log_index + 1 + j) e.term rf')
  accepted_entries now args reply rf rf' v h g =
      let (fresh, p) = append_entries-Passed now args reply rf rf' h g in
      let at = InLog-of_prev now args rf p.prev v p.found in
      let followed = log_at-follow now args.leader_id args.term in
      let written = log_at-written args.leader_commit in
      (
        fresh,
        (p.prev, sym (followed args.prev_log_index rf) ∙ p.found, p.same),
        (λ i k.
            ap (log_at i) p.result
            ∙ written i p.synced
            ∙ sync_logs_before (args.prev_log_index + 1) args.entries _ p.synced i at (omega arith)
                p.sync
            ∙ followed i rf),
        (λ j e q.
            let (x, r, t) =
              sync_logs_terms (args.prev_log_index + 1) args.entries _ p.synced j e at p.sync q in
            (
              x,
              ap (log_at (args.prev_log_index + 1 + j)) p.result
                  ∙ written (args.prev_log_index + 1 + j) p.synced
                  ∙ r,
              t,
            )),
      )
