-- ===== src/Raft/Valid/Leader.antt =====
-- The leader's own steps neither panic nor leave a peer invalid.
use ai_fs.Prelude.{
  ℕ, zero, suc, ◌+◌, ◌-◌, ◌≤◌, ◌<◌, ◌≡◌, Option, none, some, List, [], ◌∷◌, ◌++◌, length, set,
  length-set, get_elem?_total, arith, if◌then◌else◌, leb, ltb, not, ◌&&◌, ◌==◌, Bool-cases, Returns,
  Option-cases, inl, inr, max, refl,
}
use ai_fs.Raft.Persister.{Bytes}
use ai_fs.Raft.State.{Raft, LogEntry, Codec, Persistent, log_at, last_logical_index}
use ai_fs.Raft.AppendEntries.{AppendEntriesArgs, AppendEntriesReply}
use ai_fs.Raft.Snapshots.{InstallSnapshotArgs, snapshot}
use ai_fs.Raft.Election.{start_election, become_leader, observe_term, reset_next}
use ai_fs.Raft.Replication.{
  start, append_reply, install_reply, acknowledge, back_up, note_match, count_matches, commit_loop,
  commit_index_update, last_of_term, set_next, aim_next,
}
use ai_fs.Raft.Lifetime.{apply_one, kill}
use ai_fs.Raft.Valid.{IsValid, head_term, log_at_total, nonempty}

length-reset_next :
    (left me next : ℕ) (xs : List ℕ) → length (reset_next left me next xs) ≡ length xs
unfolding reset_next
length-reset_next zero me next xs = refl
length-reset_next (suc peer) me next xs = elim (Bool-cases (peer == me)) [
  | inl own ↦ ground (arith, length-reset_next peer me next xs)
  | inr other ↦
      ground (arith, length-reset_next peer me next (set xs peer next), length-set xs peer next)
]

module _ {C : Type 0} where
  pub become_leader-IsValid :
      (term : ℕ) (rf : Raft C) → IsValid rf → IsValid (become_leader term rf)
  unfolding become_leader
  become_leader-IsValid term rf v =
      ground (arith, length-reset_next rf.peers rf.me (last_logical_index rf + 1) rf.next_index)

  pub kill-IsValid : (rf : Raft C) → IsValid rf → IsValid (kill rf)
  unfolding kill
  kill-IsValid rf v = ground arith

  pub apply_one-IsValid : (rf : Raft C) → IsValid rf → Returns (λ r. IsValid r.0) (apply_one rf)
  unfolding apply_one
  apply_one-IsValid rf v = elim (Bool-cases (ltb (last_logical_index rf) (rf.last_applied + 1))) [
    | inl short ↦ ground arith
    | inr long ↦
        let (e, p) = log_at_total (rf.last_applied + 1) rf v (omega arith) (ground arith) in
        ground arith
  ]

  -- The log has an entry at every index between the commit index and the end.
  count_matches_total :
      (rf : Raft C) (n left : ℕ)
      → left ≤ length rf.match_index
      → (k : ℕ) × (count_matches rf n left ≡ some k)
  unfolding count_matches
  count_matches_total rf n zero h = (1, refl)
  count_matches_total rf n (suc peer) h =
      let (k, e) = count_matches_total rf n peer (omega arith) in
      let (m, q) = get_elem?_total rf.match_index peer h in
      (if not (peer == rf.me) && leb n m then k + 1 else k, ground arith)

  commit_loop-IsValid :
      (rf : Raft C) (left : ℕ)
      → IsValid rf
      → left ≤ last_logical_index rf - rf.commit_index
      → Returns IsValid (commit_loop rf left)
  unfolding commit_loop
  commit_loop-IsValid rf zero v h = v
  commit_loop-IsValid rf (suc left) v h =
      let (e, p) = log_at_total (rf.commit_index + suc left) rf v (omega arith) (omega arith) in
      let (k, q) = count_matches_total rf (rf.commit_index + suc left) rf.peers (omega arith) in
      ground (arith, commit_loop-IsValid rf left v)

  pub commit_index_update-IsValid :
      (rf : Raft C) → IsValid rf → Returns IsValid (commit_index_update rf)
  unfolding commit_index_update
  commit_index_update-IsValid rf v =
      commit_loop-IsValid rf (last_logical_index rf - rf.commit_index) v (omega arith)

  note_match-IsValid :
      (peer matched : ℕ) (rf : Raft C) → IsValid rf → IsValid (note_match peer matched rf)
  unfolding note_match
  note_match-IsValid peer matched rf v =
      ground
        (arith, length-set rf.match_index peer matched, length-set rf.next_index peer (matched + 1))

  acknowledge-IsValid :
      (peer upto : ℕ) (rf : Raft C)
      → IsValid rf
      → peer < rf.peers
      → Returns IsValid (acknowledge peer upto rf)
  unfolding acknowledge
  acknowledge-IsValid peer upto rf v h =
      let (m, q) = get_elem?_total rf.match_index peer (omega arith) in
      rw q (commit_index_update-IsValid _ (note_match-IsValid peer (max upto m) rf v))

  last_of_term_total :
      (logs : List (LogEntry C)) (term left : ℕ)
      → left ≤ length logs
      → (found : Option ℕ) × (last_of_term logs term left ≡ some found)
  unfolding last_of_term
  last_of_term_total logs term zero h = (none, refl)
  last_of_term_total logs term (suc i) h =
      let (rest, e) = last_of_term_total logs term i (omega arith) in
      let (entry, q) = get_elem?_total logs i h in
      (if entry.term == term then some i else rest, ground arith)

  set_next-IsValid : (peer next : ℕ) (rf : Raft C) → IsValid rf → IsValid (set_next peer next rf)
  unfolding set_next
  set_next-IsValid peer next rf v =
      ground (arith, length-set rf.next_index peer (if ltb next 1 then 1 else next))

  aim_next-IsValid :
      (peer conflict_index : ℕ) (found : Option ℕ) (rf : Raft C)
      → IsValid rf
      → IsValid (aim_next peer conflict_index found rf)
  unfolding aim_next
  aim_next-IsValid peer conflict_index none rf v = set_next-IsValid peer conflict_index rf v
  aim_next-IsValid peer conflict_index (some i) rf v =
      set_next-IsValid peer (i + rf.last_included_index + 1) rf v

  back_up-IsValid :
      (peer : ℕ) (reply : AppendEntriesReply) (rf : Raft C)
      → IsValid rf
      → Returns IsValid (back_up peer reply rf)
  unfolding back_up
  back_up-IsValid peer reply rf v = elim (Option-cases reply.conflict_term) [
    | inl e ↦ rw e (set_next-IsValid peer reply.conflict_index rf v)
    | inr (term, e) ↦
        let (found, q) = last_of_term_total rf.logs term (length rf.logs) (omega arith) in
        ground (arith, aim_next-IsValid peer reply.conflict_index found rf v)
  ]

module _ {C : Type 0} (codec : Codec (Persistent C)) where
  pub append_reply-IsValid :
      (now peer : ℕ) (args : AppendEntriesArgs C) (reply : AppendEntriesReply) (rf : Raft C)
      → IsValid rf
      → peer < rf.peers
      → Returns IsValid (append_reply codec now peer args reply rf)
  unfolding append_reply
  append_reply-IsValid now peer args reply rf v h = ground (
    arith,
    back_up-IsValid peer reply rf v,
    acknowledge-IsValid peer (args.prev_log_index + length args.entries) rf v h,
  )

  pub install_reply-IsValid :
      (now peer : ℕ) (args : InstallSnapshotArgs) (term : ℕ) (rf : Raft C)
      → IsValid rf
      → peer < rf.peers
      → Returns IsValid (install_reply codec now peer args term rf)
  unfolding install_reply
  install_reply-IsValid now peer args term rf v h =
      let (m, p) = get_elem?_total rf.match_index peer (omega arith) in
      let (n, q) = get_elem?_total rf.next_index peer (omega arith) in
      let matched = max args.last_included_index m in
      ground (
        arith,
        length-set rf.match_index peer matched,
        length-set rf.next_index peer (max (matched + 1) n),
      )

  pub observe_term-IsValid :
      (term : ℕ) (rf : Raft C) → IsValid rf → IsValid (observe_term codec term rf)
  unfolding observe_term
  observe_term-IsValid term rf v = ground arith

  head_term-append :
      (logs entries : List (LogEntry C)) (t : ℕ)
      → head_term logs ≡ some t
      → head_term (logs ++ entries) ≡ some t
  head_term-append [] entries t e = ground arith
  head_term-append (x ∷ xs) entries t e = e

  pub start-IsValid :
      (command : Option C) (rf : Raft C) → IsValid rf → IsValid (start codec command rf).0
  unfolding start
  start-IsValid command rf v = ground (
    arith,
    head_term-append rf.logs (record { term = rf.curr_term; command = command } ∷ [])
        rf.last_included_term,
  )

  pub start_election-IsValid :
      (now : ℕ) (rf : Raft C)
      → IsValid rf
      → Returns (λ r. IsValid r.0) (start_election codec now rf)
  unfolding start_election log_at last_logical_index
  start_election-IsValid now rf v =
      let (e, p) =
        log_at_total (last_logical_index rf) rf v (omega (arith, nonempty rf v)) (omega arith) in
      ground arith

  pub snapshot-IsValid :
      (index : ℕ) (snap : Bytes) (rf rf' : Raft C)
      → IsValid rf
      → index ≤ rf.last_applied
      → index ≤ rf.commit_index
      → snapshot codec index snap rf ≡ some rf'
      → IsValid rf'
  unfolding snapshot
  snapshot-IsValid index snap rf rf' v h k e = ground arith
