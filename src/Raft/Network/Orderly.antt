-- ===== src/Raft/Network/Orderly.antt =====
-- Within a term nobody becomes a candidate again, and a leader's log does not shrink.
use ai_fs.Prelude.{
  ℕ, zero, suc, ◌+◌, ◌-◌, ◌≤◌, ◌≡◌, sym, ◌∙◌, subst, ◌⊎◌, inl, inr, Bool, Bool-cases, ltb, max,
  Option, Option-cases, some, [], ◌∷◌, length, length-append, length-drop, get_elem?, arith,
}
use ai_fs.Raft.Persister.{Bytes, Persister}
use ai_fs.Raft.State.{
  LogEntry, Raft, leader, candidate, follower, Codec, Persistent, log_at, last_logical_index,
}
use ai_fs.Raft.RequestVote.{RequestVoteArgs, RequestVoteReply, request_vote}
use ai_fs.Raft.AppendEntries.{
  AppendEntriesArgs, AppendEntriesReply, append_entries, match_prev, check_prev, follow,
  advance_commit, sync_logs,
}
use ai_fs.Raft.Snapshots.{InstallSnapshotArgs, snapshot, install_snapshot}
use ai_fs.Raft.Election.{start_election, become_leader, observe_term}
use ai_fs.Raft.Replication.{
  start, append_reply, install_reply, acknowledge, back_up, aim_next, note_match,
  commit_index_update, commit_loop,
}
use ai_fs.Raft.Lifetime.{make, kill, apply_one}
use ai_fs.Raft.Cluster.Stays.{sync_logs_role, follow_role, make_role}

module _ {C : Type 0} where
  pub record Orderly (rf rf' : Raft C) : Type 0 where
    pub stands : rf'.curr_term ≡ rf.curr_term → rf'.state ≡ candidate → rf.state ≡ candidate
    pub leads :
        rf'.curr_term ≡ rf.curr_term
        → rf'.state ≡ leader
        → (rf.state ≡ candidate)
          ⊎ ((rf.state ≡ leader) × (last_logical_index rf ≤ last_logical_index rf'))

  -- The same, with the log as it was.
  pub record IsCalm (rf rf' : Raft C) : Type 0 where
    pub logs : rf'.logs ≡ rf.logs
    pub start : rf'.last_included_index ≡ rf.last_included_index
    pub stands : rf'.curr_term ≡ rf.curr_term → rf'.state ≡ candidate → rf.state ≡ candidate
    pub leads :
        rf'.curr_term ≡ rf.curr_term
        → rf'.state ≡ leader
        → (rf.state ≡ candidate) ⊎ (rf.state ≡ leader)

  pub IsCalm-Orderly : (rf rf' : Raft C) → IsCalm rf rf' → Orderly rf rf'
  unfolding last_logical_index
  IsCalm-Orderly rf rf' c = record {
    stands = c.stands;
    leads = λ t l. elim (c.leads t l) [
      | inl stood ↦ inl stood
      | inr led ↦ inr (led, ground (arith, c.logs, c.start))
    ];
  }

  -- Nothing else than the role, or the same role.
  rests-Orderly : (rf rf' : Raft C) → (rf' ≡ rf) ⊎ (rf'.state ≡ follower) → Orderly rf rf'
  rests-Orderly rf rf' (inl same) = record {
    stands = λ t s. ground arith;
    leads = λ t l. inr (
      ground arith,
      subst (λ x. last_logical_index rf ≤ last_logical_index x) (sym same) (omega arith),
    );
  }
  rests-Orderly rf rf' (inr role) = record {
    stands = λ t s. ground arith;
    leads = λ t l. ground arith;
  }

module _ {C : Type 0} (codec : Codec (Persistent C)) where
  pub request_vote-IsCalm :
      (now : ℕ) (args : RequestVoteArgs) (reply : RequestVoteReply) (rf rf' : Raft C)
      → request_vote codec now args rf ≡ some (rf', reply)
      → IsCalm rf rf'
  unfolding request_vote log_at
  request_vote-IsCalm now args reply rf rf' h = ground arith

  pub start_election-IsCalm :
      (now : ℕ) (args : RequestVoteArgs) (rf rf' : Raft C)
      → start_election codec now rf ≡ some (rf', args)
      → IsCalm rf rf'
  unfolding start_election
  start_election-IsCalm now args rf rf' h = ground arith

  pub become_leader-IsCalm : (term : ℕ) (rf : Raft C) → IsCalm rf (become_leader term rf)
  unfolding become_leader
  become_leader-IsCalm term rf = ground arith

  pub observe_term-IsCalm : (term : ℕ) (rf : Raft C) → IsCalm rf (observe_term codec term rf)
  unfolding observe_term
  observe_term-IsCalm term rf = ground arith

  commit_loop_same :
      (left : ℕ) (rf rf' : Raft C)
      → commit_loop rf left ≡ some rf'
      → rf' ≡ record rf { commit_index = rf'.commit_index }
  unfolding commit_loop
  commit_loop_same zero rf rf' h = ground arith
  commit_loop_same (suc left) rf rf' h = ground (arith, commit_loop_same left rf rf')

  acknowledge-IsCalm :
      (peer upto : ℕ) (rf rf' : Raft C) → acknowledge peer upto rf ≡ some rf' → IsCalm rf rf'
  unfolding acknowledge commit_index_update note_match
  acknowledge-IsCalm peer upto rf rf' h = elim (Option-cases (get_elem? rf.match_index peer)) [
    | inl e ↦ ground arith
    | inr (m, e) ↦
        let noted = note_match peer (max upto m) rf in
        ground (arith, commit_loop_same (last_logical_index noted - noted.commit_index) noted rf')
  ]

  back_up-IsCalm :
      (peer : ℕ) (reply : AppendEntriesReply) (rf rf' : Raft C)
      → back_up peer reply rf ≡ some rf'
      → IsCalm rf rf'
  unfolding back_up aim_next
  back_up-IsCalm peer reply rf rf' h = ground arith

  pub append_reply-IsCalm :
      (now peer : ℕ) (args : AppendEntriesArgs C) (reply : AppendEntriesReply) (rf rf' : Raft C)
      → append_reply codec now peer args reply rf ≡ some rf'
      → IsCalm rf rf'
  unfolding append_reply
  append_reply-IsCalm now peer args reply rf rf' h = ground (
    arith,
    acknowledge-IsCalm peer (args.prev_log_index + length args.entries) rf rf',
    back_up-IsCalm peer reply rf rf',
  )

  pub install_reply-IsCalm :
      (now peer : ℕ) (args : InstallSnapshotArgs) (term : ℕ) (rf rf' : Raft C)
      → install_reply codec now peer args term rf ≡ some rf'
      → IsCalm rf rf'
  unfolding install_reply
  install_reply-IsCalm now peer args term rf rf' h = ground arith

  pub apply_one-IsCalm :
      (again : Bool) (rf rf' : Raft C) → apply_one rf ≡ some (rf', again) → IsCalm rf rf'
  unfolding apply_one
  apply_one-IsCalm again rf rf' h = ground arith

  pub kill-IsCalm : (rf : Raft C) → IsCalm rf (kill rf)
  unfolding kill
  kill-IsCalm rf = ground arith

  pub start-Orderly : (command : Option C) (rf : Raft C) → Orderly rf (start codec command rf).0
  unfolding start last_logical_index
  start-Orderly command rf =
      ground (arith, length-append rf.logs (record { term = rf.curr_term; command = command } ∷ []))

  pub snapshot-Orderly :
      (index : ℕ) (snap : Bytes) (rf rf' : Raft C)
      → snapshot codec index snap rf ≡ some rf'
      → Orderly rf rf'
  unfolding snapshot last_logical_index
  snapshot-Orderly index snap rf rf' h =
      ground (arith, length-drop (index + 1 - rf.last_included_index) rf.logs)

  pub install_snapshot-Orderly :
      (now : ℕ) (args : InstallSnapshotArgs) (rf : Raft C)
      → Orderly rf (install_snapshot codec now args rf).0
  unfolding install_snapshot follow
  install_snapshot-Orderly now args rf =
      rests-Orderly rf (install_snapshot codec now args rf).0 (ground arith)

  match_prev_role :
      (args : AppendEntriesArgs C) (prev : LogEntry C) (reply : AppendEntriesReply)
      (rf rf' : Raft C)
      → match_prev codec args rf prev ≡ some (rf', reply)
      → rf'.state ≡ rf.state
  unfolding match_prev advance_commit
  match_prev_role args prev reply rf rf' h =
      elim (Option-cases (sync_logs (args.prev_log_index + 1) args.entries rf)) [
        | inl e ↦ ground arith
        | inr (s, e) ↦ ground (arith, sync_logs_role codec _ _ rf s e)
      ]

  check_prev_role :
      (args : AppendEntriesArgs C) (reply : AppendEntriesReply) (rf rf' : Raft C)
      → check_prev codec args rf ≡ some (rf', reply)
      → rf'.state ≡ rf.state
  unfolding check_prev
  check_prev_role args reply rf rf' h = elim (Option-cases (log_at args.prev_log_index rf)) [
    | inl e ↦ ground arith
    | inr (prev, e) ↦ ground (arith, match_prev_role args prev reply rf rf')
  ]

  pub append_entries-Orderly :
      (now : ℕ) (args : AppendEntriesArgs C) (reply : AppendEntriesReply) (rf rf' : Raft C)
      → append_entries codec now args rf ≡ some (rf', reply)
      → Orderly rf rf'
  unfolding append_entries
  append_entries-Orderly now args reply rf rf' h =
      rests-Orderly rf rf' (elim (Bool-cases (ltb args.term rf.curr_term)) [
        | inl old ↦ inl (ground arith)
        | inr new ↦
            let followed = follow codec now args.leader_id args.term rf in
            inr (
              check_prev_role args reply followed rf' (ground arith)
              ∙ follow_role codec now args.leader_id args.term rf)
      ])

  pub make-Orderly :
      (now peers me : ℕ) (ps : Persister) (rf : Raft C) → Orderly rf (make codec now peers me ps)
  make-Orderly now peers me ps rf =
      rests-Orderly rf (make codec now peers me ps) (inr (make_role codec now peers me ps).0)
