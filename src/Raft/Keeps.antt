-- ===== src/Raft/Keeps.antt =====
-- What every handler and every step of a peer keeps: its vote within a term, and a persister that
-- holds what the peer would need after a crash.
use ai_fs.Prelude.{
  ℕ, zero, suc, ◌+◌, ◌≤◌, ◌≡◌, ◌⊎◌, inl, inr, Option-cases, Bool-cases, ltb, length, get_elem?, ◌-◌,
  max, Bool, Option, some, List, [], ◌∷◌, arith, subst, sym,
}
use ai_fs.Raft.Persister.{Bytes}
use ai_fs.Raft.State.{
  Raft, LogEntry, Codec, Persistent, persistent, persist, log_at, last_logical_index,
}
use ai_fs.Raft.RequestVote.{RequestVoteArgs, RequestVoteReply, request_vote}
use ai_fs.Raft.AppendEntries.{
  AppendEntriesArgs, AppendEntriesReply, append_entries, sync_logs, check_prev, match_prev, follow,
  advance_commit,
}
use ai_fs.Raft.Snapshots.{InstallSnapshotArgs, snapshot, install_snapshot}
use ai_fs.Raft.Election.{start_election, become_leader, observe_term}
use ai_fs.Raft.Replication.{
  start, append_reply, install_reply, acknowledge, back_up, aim_next, note_match,
  commit_index_update, commit_loop,
}
use ai_fs.Raft.Lifetime.{apply_one, kill}

module _ {C : Type 0} (codec : Codec (Persistent C)) where
  -- The persister was written last with the present state, or neither has changed.
  abbrev pub Saves : Raft C → Raft C → Type 0
  Saves rf rf' =
      (rf'.persister.raftstate ≡ codec.encode (persistent rf'))
      ⊎ ((rf'.persister.raftstate ≡ rf.persister.raftstate) × (persistent rf' ≡ persistent rf))

  pub record Keeps (rf rf' : Raft C) : Type 0 where
    pub term : rf.curr_term ≤ rf'.curr_term
    pub vote :
        (c : ℕ) → rf'.curr_term ≡ rf.curr_term → rf.voted_for ≡ some c → rf'.voted_for ≡ some c
    pub saved : Saves rf rf'
    pub peers : rf'.peers ≡ rf.peers
    pub me : rf'.me ≡ rf.me

  pub request_vote-Keeps :
      (now : ℕ) (args : RequestVoteArgs) (reply : RequestVoteReply) (rf rf' : Raft C)
      → request_vote codec now args rf ≡ some (rf', reply)
      → Keeps rf rf'
  unfolding request_vote log_at
  request_vote-Keeps now args reply rf rf' h = ground arith

  -- Only the log changes.
  pub sync_logs_frame :
      (curr : ℕ) (entries : List (LogEntry C)) (rf rf' : Raft C)
      → sync_logs curr entries rf ≡ some rf'
      → rf' ≡ record rf { logs = rf'.logs }
  unfolding sync_logs
  sync_logs_frame curr [] rf rf' h = ground arith
  sync_logs_frame curr (e ∷ es) rf rf' h = ground (arith, sync_logs_frame (curr + 1) es rf rf')

  pub Keeps-refl : (rf : Raft C) → Keeps rf rf
  Keeps-refl rf = ground arith

  pub Keeps-trans : {a b c : Raft C} → Keeps a b → Keeps b c → Keeps a c
  Keeps-trans {a} {b} {c} h k = record {
    term = omega arith;
    vote = λ i e v. ground (arith, h.vote i, k.vote i);
    saved = ground arith;
    peers = ground arith;
    me = ground arith;
  }

  written-Keeps :
      (commit : ℕ) (rf : Raft C) (logs : List (LogEntry C))
      → Keeps rf (advance_commit commit (persist codec (record rf { logs = logs })))
  unfolding advance_commit persist
  written-Keeps commit rf logs = ground arith

  synced-Keeps :
      (commit : ℕ) (rf s : Raft C)
      → s ≡ record rf { logs = s.logs }
      → Keeps rf (advance_commit commit (persist codec s))
  synced-Keeps commit rf s e =
      subst (λ x. Keeps rf (advance_commit commit (persist codec x))) (sym e)
        (written-Keeps commit rf s.logs)

  match_prev-Keeps :
      (args : AppendEntriesArgs C) (prev : LogEntry C) (reply : AppendEntriesReply)
      (rf rf' : Raft C)
      → match_prev codec args rf prev ≡ some (rf', reply)
      → Keeps rf rf'
  unfolding match_prev
  match_prev-Keeps args prev reply rf rf' h =
      elim (Option-cases (sync_logs (args.prev_log_index + 1) args.entries rf)) [
        | inl e ↦ ground (arith, Keeps-refl rf)
        | inr (s, e) ↦ ground (
          arith,
          Keeps-refl rf,
          synced-Keeps args.leader_commit rf s (sync_logs_frame _ _ rf s e),
        )
      ]

  follow-Keeps :
      (now leader_id term : ℕ) (rf : Raft C) → Keeps rf (follow codec now leader_id term rf)
  unfolding follow
  follow-Keeps now leader_id term rf = ground arith

  check_prev-Keeps :
      (args : AppendEntriesArgs C) (reply : AppendEntriesReply) (rf rf' : Raft C)
      → check_prev codec args rf ≡ some (rf', reply)
      → Keeps rf rf'
  unfolding check_prev
  check_prev-Keeps args reply rf rf' h = elim (Option-cases (log_at args.prev_log_index rf)) [
    | inl e ↦ ground (arith, Keeps-refl rf)
    | inr (prev, e) ↦ ground (arith, Keeps-refl rf, match_prev-Keeps args prev reply rf rf')
  ]

  pub append_entries-Keeps :
      (now : ℕ) (args : AppendEntriesArgs C) (reply : AppendEntriesReply) (rf rf' : Raft C)
      → append_entries codec now args rf ≡ some (rf', reply)
      → Keeps rf rf'
  unfolding append_entries
  append_entries-Keeps now args reply rf rf' h = elim (Bool-cases (ltb args.term rf.curr_term)) [
    | inl old ↦ ground (arith, Keeps-refl rf)
    | inr new ↦ Keeps-trans (follow-Keeps now args.leader_id args.term rf) (
        check_prev-Keeps args reply (follow codec now args.leader_id args.term rf) rf'
          (ground arith))
  ]

  pub install_snapshot-Keeps :
      (now : ℕ) (args : InstallSnapshotArgs) (rf : Raft C)
      → Keeps rf (install_snapshot codec now args rf).0
  unfolding install_snapshot follow
  install_snapshot-Keeps now args rf = ground arith

  pub snapshot-Keeps :
      (index : ℕ) (snap : Bytes) (rf rf' : Raft C)
      → snapshot codec index snap rf ≡ some rf'
      → Keeps rf rf'
  unfolding snapshot
  snapshot-Keeps index snap rf rf' h = ground arith

  pub start-Keeps : (command : Option C) (rf : Raft C) → Keeps rf (start codec command rf).0
  unfolding start
  start-Keeps command rf = ground arith

  pub start_election-Keeps :
      (now : ℕ) (args : RequestVoteArgs) (rf rf' : Raft C)
      → start_election codec now rf ≡ some (rf', args)
      → Keeps rf rf'
  unfolding start_election
  start_election-Keeps now args rf rf' h = ground arith

  pub become_leader-Keeps : (term : ℕ) (rf : Raft C) → Keeps rf (become_leader term rf)
  unfolding become_leader
  become_leader-Keeps term rf = ground arith

  pub observe_term-Keeps : (term : ℕ) (rf : Raft C) → Keeps rf (observe_term codec term rf)
  unfolding observe_term
  observe_term-Keeps term rf = ground arith

  commit_loop-Keeps : (left : ℕ) (rf rf' : Raft C) → commit_loop rf left ≡ some rf' → Keeps rf rf'
  unfolding commit_loop
  commit_loop-Keeps zero rf rf' h = ground (arith, Keeps-refl rf)
  commit_loop-Keeps (suc left) rf rf' h = ground (arith, commit_loop-Keeps left rf rf')

  note_match-Keeps : (peer matched : ℕ) (rf : Raft C) → Keeps rf (note_match peer matched rf)
  unfolding note_match
  note_match-Keeps peer matched rf = ground arith

  acknowledge-Keeps :
      (peer upto : ℕ) (rf rf' : Raft C) → acknowledge peer upto rf ≡ some rf' → Keeps rf rf'
  unfolding acknowledge commit_index_update
  acknowledge-Keeps peer upto rf rf' h = elim (Option-cases (get_elem? rf.match_index peer)) [
    | inl e ↦ ground arith
    | inr (m, e) ↦
        let noted = note_match peer (max upto m) rf in
        Keeps-trans (note_match-Keeps peer (max upto m) rf) (
          commit_loop-Keeps (last_logical_index noted - noted.commit_index) noted rf'
            (ground arith))
  ]

  back_up-Keeps :
      (peer : ℕ) (reply : AppendEntriesReply) (rf rf' : Raft C)
      → back_up peer reply rf ≡ some rf'
      → Keeps rf rf'
  unfolding back_up aim_next
  back_up-Keeps peer reply rf rf' h = ground arith

  pub append_reply-Keeps :
      (now peer : ℕ) (args : AppendEntriesArgs C) (reply : AppendEntriesReply) (rf rf' : Raft C)
      → append_reply codec now peer args reply rf ≡ some rf'
      → Keeps rf rf'
  unfolding append_reply
  append_reply-Keeps now peer args reply rf rf' h = ground (
    arith,
    Keeps-refl rf,
    acknowledge-Keeps peer (args.prev_log_index + length args.entries) rf rf',
    back_up-Keeps peer reply rf rf',
  )

  pub install_reply-Keeps :
      (now peer : ℕ) (args : InstallSnapshotArgs) (term : ℕ) (rf rf' : Raft C)
      → install_reply codec now peer args term rf ≡ some rf'
      → Keeps rf rf'
  unfolding install_reply
  install_reply-Keeps now peer args term rf rf' h = ground arith

  pub apply_one-Keeps :
      (again : Bool) (rf rf' : Raft C) → apply_one rf ≡ some (rf', again) → Keeps rf rf'
  unfolding apply_one
  apply_one-Keeps again rf rf' h = ground arith

  pub kill-Keeps : (rf : Raft C) → Keeps rf (kill rf)
  unfolding kill
  kill-Keeps rf = ground arith
