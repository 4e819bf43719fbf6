-- ===== src/Raft/Cluster/Stays.antt =====
-- A peer comes to lead by `becomeLeader` alone: no other step of it begins to lead.
use ai_fs.Prelude.{
  ℕ, zero, suc, ◌+◌, ◌-◌, ◌≡◌, refl, subst, sym, inl, inr, Option-cases, Bool-cases, ltb, length,
  get_elem?, max, Bool, Option, some, List, [], ◌∷◌, arith,
}
use ai_fs.Raft.Persister.{Bytes, Persister}
use ai_fs.Raft.State.{
  Raft, leader, follower, LogEntry, Codec, Persistent, log_at, last_logical_index, read_persist,
}
use ai_fs.Raft.RequestVote.{RequestVoteArgs, RequestVoteReply, request_vote}
use ai_fs.Raft.AppendEntries.{
  AppendEntriesArgs, AppendEntriesReply, append_entries, sync_logs, check_prev, match_prev, follow,
  advance_commit,
}
use ai_fs.Raft.Snapshots.{InstallSnapshotArgs, snapshot, install_snapshot}
use ai_fs.Raft.Election.{start_election, observe_term}
use ai_fs.Raft.Replication.{
  start, append_reply, install_reply, acknowledge, back_up, aim_next, note_match,
  commit_index_update, commit_loop,
}
use ai_fs.Raft.Lifetime.{apply_one, kill, make, fresh_raft}
use ai_fs.Raft.Steps.{Live}
use ai_fs.Raft.Cluster.{IsOther}

module _ {C : Type 0} where
  -- Who leads after the step led before, in the same term.
  abbrev pub Stays : Raft C → Raft C → Type 0
  Stays rf rf' = rf'.state ≡ leader → (rf.state ≡ leader) × (rf'.curr_term ≡ rf.curr_term)

module _ {C : Type 0} (codec : Codec (Persistent C)) where
  pub request_vote-Stays :
      (now : ℕ) (args : RequestVoteArgs) (reply : RequestVoteReply) (rf rf' : Raft C)
      → request_vote codec now args rf ≡ some (rf', reply)
      → Stays rf rf'
  unfolding request_vote log_at
  request_vote-Stays now args reply rf rf' h l = ground arith

  pub sync_logs_role :
      (curr : ℕ) (entries : List (LogEntry C)) (rf rf' : Raft C)
      → sync_logs curr entries rf ≡ some rf'
      → (rf'.state ≡ rf.state) × (rf'.curr_term ≡ rf.curr_term)
  unfolding sync_logs
  sync_logs_role curr [] rf rf' h = ground arith
  sync_logs_role curr (e ∷ es) rf rf' h = ground (arith, sync_logs_role (curr + 1) es rf rf')

  match_prev-Stays :
      (args : AppendEntriesArgs C) (prev : LogEntry C) (reply : AppendEntriesReply)
      (rf rf' : Raft C)
      → match_prev codec args rf prev ≡ some (rf', reply)
      → Stays rf rf'
  unfolding match_prev advance_commit
  match_prev-Stays args prev reply rf rf' h l =
      elim (Option-cases (sync_logs (args.prev_log_index + 1) args.entries rf)) [
        | inl e ↦ ground arith
        | inr (s, e) ↦ ground (arith, sync_logs_role _ _ rf s e)
      ]

  check_prev-Stays :
      (args : AppendEntriesArgs C) (reply : AppendEntriesReply) (rf rf' : Raft C)
      → check_prev codec args rf ≡ some (rf', reply)
      → Stays rf rf'
  unfolding check_prev
  check_prev-Stays args reply rf rf' h l = elim (Option-cases (log_at args.prev_log_index rf)) [
    | inl e ↦ ground arith
    | inr (prev, e) ↦ ground (arith, match_prev-Stays args prev reply rf rf')
  ]

  pub follow_role :
      (now leader_id term : ℕ) (rf : Raft C) → (follow codec now leader_id term rf).state ≡ follower
  unfolding follow
  follow_role now leader_id term rf = ground arith

  append_entries-Stays :
      (now : ℕ) (args : AppendEntriesArgs C) (reply : AppendEntriesReply) (rf rf' : Raft C)
      → append_entries codec now args rf ≡ some (rf', reply)
      → Stays rf rf'
  unfolding append_entries
  append_entries-Stays now args reply rf rf' h l = elim (Bool-cases (ltb args.term rf.curr_term)) [
    | inl old ↦ ground arith
    | inr new ↦
        let followed = follow codec now args.leader_id args.term rf in
        let led = check_prev-Stays args reply followed rf' (ground arith) l in
        ground (arith, follow_role now args.leader_id args.term rf)
  ]

  install_snapshot-Stays :
      (now : ℕ) (args : InstallSnapshotArgs) (rf : Raft C)
      → Stays rf (install_snapshot codec now args rf).0
  unfolding install_snapshot follow
  install_snapshot-Stays now args rf l = ground arith

  snapshot-Stays :
      (index : ℕ) (snap : Bytes) (rf rf' : Raft C)
      → snapshot codec index snap rf ≡ some rf'
      → Stays rf rf'
  unfolding snapshot
  snapshot-Stays index snap rf rf' h l = ground arith

  start-Stays : (command : Option C) (rf : Raft C) → Stays rf (start codec command rf).0
  unfolding start
  start-Stays command rf l = ground arith

  -- Nobody leads at the beginning of an election, nor after a crash.
  pub start_election_role :
      (now : ℕ) (args : RequestVoteArgs) (rf rf' : Raft C)
      → start_election codec now rf ≡ some (rf', args)
      → ¬ (rf'.state ≡ leader)
  unfolding start_election
  start_election_role now args rf rf' h l = ground arith

  observe_term-Stays : (term : ℕ) (rf : Raft C) → Stays rf (observe_term codec term rf)
  unfolding observe_term
  observe_term-Stays term rf l = ground arith

  pub commit_loop_role :
      (left : ℕ) (rf rf' : Raft C)
      → commit_loop rf left ≡ some rf'
      → (rf'.state ≡ rf.state) × (rf'.curr_term ≡ rf.curr_term)
  unfolding commit_loop
  commit_loop_role zero rf rf' h = ground arith
  commit_loop_role (suc left) rf rf' h = ground (arith, commit_loop_role left rf rf')

  acknowledge_role :
      (peer upto : ℕ) (rf rf' : Raft C)
      → acknowledge peer upto rf ≡ some rf'
      → (rf'.state ≡ rf.state) × (rf'.curr_term ≡ rf.curr_term)
  unfolding acknowledge commit_index_update note_match
  acknowledge_role peer upto rf rf' h = elim (Option-cases (get_elem? rf.match_index peer)) [
    | inl e ↦ ground arith
    | inr (m, e) ↦
        let noted = note_match peer (max upto m) rf in
        ground (arith, commit_loop_role (last_logical_index noted - noted.commit_index) noted rf')
  ]

  back_up_role :
      (peer : ℕ) (reply : AppendEntriesReply) (rf rf' : Raft C)
      → back_up peer reply rf ≡ some rf'
      → (rf'.state ≡ rf.state) × (rf'.curr_term ≡ rf.curr_term)
  unfolding back_up aim_next
  back_up_role peer reply rf rf' h = ground arith

  append_reply-Stays :
      (now peer : ℕ) (args : AppendEntriesArgs C) (reply : AppendEntriesReply) (rf rf' : Raft C)
      → append_reply codec now peer args reply rf ≡ some rf'
      → Stays rf rf'
  unfolding append_reply
  append_reply-Stays now peer args reply rf rf' h l = ground (
    arith,
    acknowledge_role peer (args.prev_log_index + length args.entries) rf rf',
    back_up_role peer reply rf rf',
  )

  install_reply-Stays :
      (now peer : ℕ) (args : InstallSnapshotArgs) (term : ℕ) (rf rf' : Raft C)
      → install_reply codec now peer args term rf ≡ some rf'
      → Stays rf rf'
  unfolding install_reply
  install_reply-Stays now peer args term rf rf' h l = ground arith

  apply_one-Stays :
      (again : Bool) (rf rf' : Raft C) → apply_one rf ≡ some (rf', again) → Stays rf rf'
  unfolding apply_one
  apply_one-Stays again rf rf' h l = ground arith

  kill-Stays : (rf : Raft C) → Stays rf (kill rf)
  unfolding kill
  kill-Stays rf l = (l, refl)

  read_persist_role :
      (bs : Bytes) (rf : Raft C)
      → ((read_persist codec bs rf).state ≡ rf.state)
        × ((read_persist codec bs rf).me ≡ rf.me)
        × ((read_persist codec bs rf).peers ≡ rf.peers)
  unfolding read_persist
  read_persist_role [] rf = (refl, refl, refl)
  read_persist_role (b ∷ bs) rf = ground arith

  pub make_role :
      (now peers me : ℕ) (ps : Persister)
      → ((make codec now peers me ps).state ≡ follower)
        × ((make codec now peers me ps).me ≡ me)
        × ((make codec now peers me ps).peers ≡ peers)
  unfolding make fresh_raft
  make_role now peers me ps =
      ground (arith, read_persist_role ps.raftstate (fresh_raft now peers me ps))

  equal-Stays : (rf : Raft C) {s t : Raft C} → t ≡ s → Stays rf s → Stays rf t
  equal-Stays rf e k = subst (λ x. Stays rf x) (sym e) k

  pub Live-Stays : {rf rf' : Raft C} (l : Live codec rf rf') → IsOther l → Stays rf rf'
  Live-Stays (Live.asked_for_vote now args reply e) o = absurd o
  Live-Stays (Live.stood now args e) o = absurd o
  Live-Stays (Live.won term e) o = absurd o
  Live-Stays {rf} {rf'} (Live.sent_entries now args reply e) o =
      append_entries-Stays now args reply rf rf' e
  Live-Stays {rf} (Live.sent_snapshot now args e) o =
      equal-Stays rf e (install_snapshot-Stays now args rf)
  Live-Stays {rf} {rf'} (Live.took_snapshot index snap _ _ e) o = snapshot-Stays index snap rf rf' e
  Live-Stays {rf} (Live.started command e) o = equal-Stays rf e (start-Stays command rf)
  Live-Stays {rf} (Live.saw_term term e) o = equal-Stays rf e (observe_term-Stays term rf)
  Live-Stays {rf} {rf'} (Live.heard_append now peer args reply _ e) o =
      append_reply-Stays now peer args reply rf rf' e
  Live-Stays {rf} {rf'} (Live.heard_install now peer args term _ e) o =
      install_reply-Stays now peer args term rf rf' e
  Live-Stays {rf} {rf'} (Live.applied again e) o = apply_one-Stays again rf rf' e
  Live-Stays {rf} (Live.killed e) o = equal-Stays rf e (kill-Stays rf)
