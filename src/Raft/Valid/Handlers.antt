-- ===== src/Raft/Valid/Handlers.antt =====
-- No request makes a valid peer panic, and it stays valid.
use ai_fs.Prelude.{
  ℕ, zero, suc, ◌+◌, ◌-◌, ◌≤◌, ◌<◌, ◌≡◌, some, List, [], ◌∷◌, ◌++◌, take, arith, leb, ltb, ◌==◌,
  Bool-cases, Returns, Option-cases, inl, inr, refl,
}
use ai_fs.Raft.State.{Raft, LogEntry, Codec, Persistent, log_at, last_logical_index, persist}
use ai_fs.Raft.RequestVote.{RequestVoteArgs, request_vote}
use ai_fs.Raft.AppendEntries.{
  AppendEntriesArgs, sync_logs, first_of_term, append_entries, advance_commit, follow, match_prev,
  check_prev,
}
use ai_fs.Raft.Snapshots.{InstallSnapshotArgs, install_snapshot, install, split_logs}
use ai_fs.Raft.Valid.{IsValid, head_term, log_at_total, nonempty}

module _ {C : Type 0} where
  head_term-take :
      (k : ℕ) (logs entries : List (LogEntry C)) (t : ℕ)
      → 0 < k
      → head_term logs ≡ some t
      → head_term (take k logs ++ entries) ≡ some t
  head_term-take zero logs entries t h e = elim h [ ]
  head_term-take (suc k) [] entries t h e = ground arith
  head_term-take (suc k) (x ∷ xs) entries t h e = e

  head_term-append :
      (logs entries : List (LogEntry C)) (t : ℕ)
      → head_term logs ≡ some t
      → head_term (logs ++ entries) ≡ some t
  head_term-append [] entries t e = ground arith
  head_term-append (x ∷ xs) entries t e = e

  -- Behind the first entry, entries go in without a panic.
  sync_logs-IsValid :
      (curr : ℕ) (entries : List (LogEntry C)) (rf : Raft C)
      → IsValid rf
      → rf.last_included_index < curr
      → Returns IsValid (sync_logs curr entries rf)
  unfolding sync_logs
  sync_logs-IsValid curr [] rf v h = v
  sync_logs-IsValid curr (e ∷ es) rf v h = elim (Bool-cases (leb curr (last_logical_index rf))) [
    | inl inside ↦
        let (mine, p) = log_at_total curr rf v (omega arith) (ground arith) in
        ground (
          arith,
          sync_logs-IsValid (curr + 1) es rf v,
          head_term-take (curr - rf.last_included_index) rf.logs (e ∷ es) rf.last_included_term,
        )
    | inr outside ↦ ground (arith, head_term-append rf.logs (e ∷ es) rf.last_included_term)
  ]

  -- Back to the first entry.
  first_of_term_total :
      (rf : Raft C) (term left found : ℕ)
      → IsValid rf
      → rf.last_included_index + left ≤ last_logical_index rf
      → (i : ℕ) × (first_of_term rf term left found ≡ some i)
  unfolding first_of_term
  first_of_term_total rf term zero found v h = (found, refl)
  first_of_term_total rf term (suc left) found v h =
      let (e, p) =
        log_at_total (rf.last_included_index + suc left) rf v (omega arith) (omega arith) in
      elim (Bool-cases (e.term == term)) [
        | inl same ↦
            let (i, q) =
              first_of_term_total rf term left (rf.last_included_index + suc left) v
                (omega arith) in
            (i, ground arith)
        | inr other ↦ (found, ground arith)
      ]

module _ {C : Type 0} (codec : Codec (Persistent C)) where
  last_ge : (rf : Raft C) → IsValid rf → rf.last_included_index ≤ last_logical_index rf
  unfolding last_logical_index
  last_ge rf v = omega (arith, nonempty rf v)

  written-IsValid :
      (commit : ℕ) (rf : Raft C) → IsValid rf → IsValid (advance_commit commit (persist codec rf))
  unfolding advance_commit persist last_logical_index
  written-IsValid commit rf v = ground (arith, nonempty rf v)

  pub request_vote-IsValid :
      (now : ℕ) (args : RequestVoteArgs) (rf : Raft C)
      → IsValid rf
      → Returns (λ r. IsValid r.0) (request_vote codec now args rf)
  unfolding request_vote log_at last_logical_index
  request_vote-IsValid now args rf v =
      let (e, p) = log_at_total (last_logical_index rf) rf v (last_ge rf v) (omega arith) in
      ground arith

  match_prev-IsValid :
      (args : AppendEntriesArgs C) (rf : Raft C) (prev : LogEntry C)
      → IsValid rf
      → rf.last_included_index ≤ args.prev_log_index
      → args.prev_log_index ≤ last_logical_index rf
      → Returns (λ r. IsValid r.0) (match_prev codec args rf prev)
  unfolding match_prev
  match_prev-IsValid args rf prev v h k = elim (Bool-cases (args.prev_log_term == prev.term)) [
    | inl same ↦
        let synced = sync_logs-IsValid (args.prev_log_index + 1) args.entries rf v (omega arith) in
        elim (Option-cases (sync_logs (args.prev_log_index + 1) args.entries rf)) [
          | inl e ↦ ground arith
          | inr (s, e) ↦ ground (arith, written-IsValid args.leader_commit s)
        ]
    | inr other ↦
        let (i, e) =
          first_of_term_total rf prev.term (args.prev_log_index - rf.last_included_index) 0 v
            (omega arith) in
        ground arith
  ]

  follow-IsValid :
      (now leader_id term : ℕ) (rf : Raft C)
      → IsValid rf
      → IsValid (follow codec now leader_id term rf)
  unfolding follow
  follow-IsValid now leader_id term rf v = ground arith

  check_prev-IsValid :
      (args : AppendEntriesArgs C) (rf : Raft C)
      → IsValid rf
      → Returns (λ r. IsValid r.0) (check_prev codec args rf)
  unfolding check_prev
  check_prev-IsValid args rf v =
      elim (Bool-cases (ltb (last_logical_index rf) args.prev_log_index)) [
        | inl beyond ↦ ground arith
        | inr within ↦ elim (Bool-cases (ltb args.prev_log_index rf.last_included_index)) [
          | inl before ↦ ground arith
          | inr behind ↦
              let (prev, e) = log_at_total args.prev_log_index rf v (ground arith) (ground arith) in
              ground (arith, match_prev-IsValid args rf prev v)
        ]
      ]

  pub append_entries-IsValid :
      (now : ℕ) (args : AppendEntriesArgs C) (rf : Raft C)
      → IsValid rf
      → Returns (λ r. IsValid r.0) (append_entries codec now args rf)
  unfolding append_entries
  append_entries-IsValid now args rf v = elim (Bool-cases (ltb args.term rf.curr_term)) [
    | inl old ↦ ground arith
    | inr new ↦
        let rf' = follow codec now args.leader_id args.term rf in
        ground
          (arith, check_prev-IsValid args rf' (follow-IsValid now args.leader_id args.term rf v))
  ]

  find_split-IsValid :
      (args : InstallSnapshotArgs) (rf : Raft C) → IsValid rf → IsValid (install codec args rf)
  unfolding install split_logs
  find_split-IsValid args rf v = ground arith

  pub install_snapshot-IsValid :
      (now : ℕ) (args : InstallSnapshotArgs) (rf : Raft C)
      → IsValid rf
      → IsValid (install_snapshot codec now args rf).0
  unfolding install_snapshot follow split_logs
  install_snapshot-IsValid now args rf v = ground arith
