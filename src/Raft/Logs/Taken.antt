-- ===== src/Raft/Logs/Taken.antt =====
-- The entries of one peer's `makeAppendEntry` at another peer.
use ai_fs.Prelude.{
  ℕ, ◌+◌, ◌-◌, ◌≤◌, ◌<◌, ◌≡◌, ◌∙◌, ap, subst, true, some, get_elem?, get_elem?-drop, drop, arith,
  Returns, Option-cases, inl, inr,
}
use ai_fs.Raft.State.{
  Raft, LogEntry, follower, Codec, Persistent, log_at, last_logical_index, get_physical_index,
  persist,
}
use ai_fs.Raft.AppendEntries.{
  AppendEntriesArgs, AppendEntriesReply, sync_logs, append_entries, follow, match_prev, check_prev,
  advance_commit,
}
use ai_fs.Raft.Replication.{make_append_entry, send_entries, entries_from}
use ai_fs.Raft.Keeps.{sync_logs_frame}
use ai_fs.Raft.Valid.{IsValid}
use ai_fs.Raft.Valid.Handlers.{append_entries-IsValid}
use ai_fs.Raft.Logs.{TermAt}
use ai_fs.Raft.Logs.Accepted.{
  Passed, append_entries-Passed, accepted_entries, in_range, log_at-follow,
}

module _ {C : Type 0} (codec : Codec (Persistent C)) where
  follow_lem :
      (now leader_id term : ℕ) (rf : Raft C)
      → ((follow codec now leader_id term rf).state ≡ follower)
        × ((follow codec now leader_id term rf).curr_leader ≡ leader_id)
  unfolding follow
  follow_lem now leader_id term rf = ground arith

  written_lem :
      (commit : ℕ) (rf : Raft C)
      → ((advance_commit commit (persist codec rf)).state ≡ rf.state)
        × ((advance_commit commit (persist codec rf)).curr_leader ≡ rf.curr_leader)
  unfolding advance_commit persist
  written_lem commit rf = ground arith

  passed_lem :
      (args : AppendEntriesArgs C) (rf rf' : Raft C)
      → Passed codec args rf rf'
      → (rf'.state ≡ rf.state) × (rf'.curr_leader ≡ rf.curr_leader)
  passed_lem args rf rf' p =
      let frame = sync_logs_frame codec (args.prev_log_index + 1) args.entries rf p.synced p.sync in
      let (s, l) = written_lem args.leader_commit p.synced in
      (
        ap (λ x. x.state) p.result ∙ s ∙ ap (λ x. x.state) frame,
        ap (λ x. x.curr_leader) p.result ∙ l ∙ ap (λ x. x.curr_leader) frame,
      )

  check_prev_success :
      (args : AppendEntriesArgs C) (reply : AppendEntriesReply) (rf rf' : Raft C)
      → TermAt args.prev_log_index args.prev_log_term rf
      → check_prev codec args rf ≡ some (rf', reply)
      → reply.success ≡ true
  unfolding check_prev match_prev
  check_prev_success args reply rf rf' (prev, p, t) h =
      elim (Option-cases (sync_logs (args.prev_log_index + 1) args.entries rf)) [
        | inl stuck ↦ ground (arith, in_range args.prev_log_index rf prev p)
        | inr (synced, e) ↦ ground (arith, in_range args.prev_log_index rf prev p)
      ]

  matching_success :
      (now : ℕ) (args : AppendEntriesArgs C) (reply : AppendEntriesReply) (rf rf' : Raft C)
      → rf.curr_term ≤ args.term
      → TermAt args.prev_log_index args.prev_log_term rf
      → append_entries codec now args rf ≡ some (rf', reply)
      → reply.success ≡ true
  unfolding append_entries
  matching_success now args reply rf rf' h (prev, p, t) e =
      let followed = follow codec now args.leader_id args.term rf in
      check_prev_success args reply followed rf'
        (prev, log_at-follow codec now args.leader_id args.term args.prev_log_index rf ∙ p, t)
        (ground arith)

  -- What the request for `peer` has, if its next index lies in the log.
  request_lem :
      (peer next : ℕ) (sender : Raft C) (prev : LogEntry C)
      → get_elem? sender.next_index peer ≡ some next
      → sender.last_included_index < next
      → log_at (next - 1) sender ≡ some prev
      → make_append_entry peer sender
        ≡ some (
            send_entries (record {
              term = sender.curr_term;
              leader_id = sender.me;
              prev_log_index = next - 1;
              prev_log_term = prev.term;
              entries = drop (next - sender.last_included_index) sender.logs;
              leader_commit = sender.commit_index;
            }))
  unfolding make_append_entry entries_from get_physical_index log_at last_logical_index
  request_lem peer next sender prev e low p =
      let k = sender.last_included_index in
      let at : next - 1 - k ≡ next - k - 1 = omega arith in
      ground (arith, in_range (next - 1) sender prev p)

  append_entries_total :
      (now : ℕ) (args : AppendEntriesArgs C) (rf : Raft C)
      → IsValid rf
      → (rf' : Raft C) × (reply : AppendEntriesReply) × (append_entries codec now args rf
          ≡ some (rf', reply))
  append_entries_total now args rf v = elim (Option-cases (append_entries codec now args rf)) [
    | inl e ↦
        absurd (subst (Returns (λ r. IsValid r.0)) e (append_entries-IsValid codec now args rf v))
    | inr ((rf', reply), e) ↦ (rf', reply, e)
  ]

  -- Where the log holds the previous entry of a request of makeAppendEntry, the entries of the
  -- sender's log are those of the request.
  log_at-entries :
      (next i : ℕ) (sender : Raft C) (e : LogEntry C)
      → sender.last_included_index < next
      → next ≤ i
      → log_at i sender ≡ some e
      → get_elem? (drop (next - sender.last_included_index) sender.logs) (i - next) ≡ some e
  unfolding log_at get_physical_index
  log_at-entries next i sender e low h g =
      let k = sender.last_included_index in
      let at : next - k + (i - next) ≡ i - k = omega arith in
      get_elem?-drop (next - k) sender.logs (i - next)
      ∙ ap (get_elem? sender.logs) at
      ∙ ground arith

  -- If the next index of `peer` lies in the sender's log, and a valid peer whose term is not higher
  -- has the sender's entry before it, then `makeAppendEntry` sends a request, and the peer answers
  -- it with success, follows the sender, and has from there on the terms of the sender's log. The
  -- sender may have any role.
  pub sent_entries_taken :
      (now peer next : ℕ) (sender rf : Raft C) (prev : LogEntry C)
      → IsValid rf
      → get_elem? sender.next_index peer ≡ some next
      → sender.last_included_index < next
      → log_at (next - 1) sender ≡ some prev
      → TermAt (next - 1) prev.term rf
      → rf.curr_term ≤ sender.curr_term
      → (args : AppendEntriesArgs C) × (rf' : Raft C) × (reply : AppendEntriesReply)
        × (make_append_entry peer sender ≡ some (send_entries args))
        × (append_entries codec now args rf ≡ some (rf', reply))
        × (reply.success ≡ true)
        × (rf'.state ≡ follower)
        × (rf'.curr_leader ≡ sender.me)
        × ((i : ℕ) (e : LogEntry C) → next ≤ i → log_at i sender ≡ some e → TermAt i e.term rf')
  sent_entries_taken now peer next sender rf prev v e low p at term =
      let args : AppendEntriesArgs C = record {
        term = sender.curr_term;
        leader_id = sender.me;
        prev_log_index = next - 1;
        prev_log_term = prev.term;
        entries = drop (next - sender.last_included_index) sender.logs;
        leader_commit = sender.commit_index;
      } in
      let (rf', reply, done) = append_entries_total now args rf v in
      let success = matching_success now args reply rf rf' term at done in
      let passed = (append_entries-Passed codec now args reply rf rf' done success).1 in
      let (role, led) =
        passed_lem args (follow codec now sender.me sender.curr_term rf) rf' passed in
      let (role', led') = follow_lem now sender.me sender.curr_term rf in
      let (_, _, _, taken) = accepted_entries codec now args reply rf rf' v done success in
      (
        args,
        rf',
        reply,
        request_lem peer next sender prev e low p,
        done,
        success,
        role ∙ role',
        led ∙ led',
        λ i x h g.
            subst (λ y. TermAt y x.term rf') (omega arith)
              (taken (i - next) x (log_at-entries next i sender x low h g)),
      )
