-- ===== src/Raft/Valid/Runs.antt =====
-- Every peer is valid at every moment. What may make it panic.
use ai_fs.Prelude.{
  zero, ℕ, ◌+◌, ◌-◌, ◌<◌, ◌≤◌, ◌⊎◌, inl, inr, dec_lt, get_elem?, get_elem?_total, get_elem?_beyond,
  ◌≡◌, ◌≢◌, refl, [], ◌∷◌, sym, subst, Option, none, some, arith, Returns, length, length-replicate,
}
use ai_fs.Raft.Persister.{Bytes, Persister, make_persister}
use ai_fs.Raft.State.{
  Raft, Codec, Persistent, read_persist, last_logical_index, log_at, get_physical_index,
}
use ai_fs.Raft.RequestVote.{RequestVoteArgs, request_vote}
use ai_fs.Raft.AppendEntries.{AppendEntriesArgs, AppendEntriesReply, append_entries}
use ai_fs.Raft.Snapshots.{InstallSnapshotArgs, snapshot}
use ai_fs.Raft.Election.{start_election}
use ai_fs.Raft.Replication.{append_reply, install_reply, make_append_entry, entries_from}
use ai_fs.Raft.Lifetime.{make, fresh_raft, apply_one}
use ai_fs.Raft.Steps.{
  Live, asked_for_vote, sent_entries, sent_snapshot, took_snapshot, started, stood, won, saw_term,
  heard_append, heard_install, applied, killed, live, restarted, Steps, here, then_step,
}
use ai_fs.Raft.Durability.{
  recovered, IsDurable, read_persist-recovered, make-IsDurable, Steps-IsDurable,
}
use ai_fs.Raft.Valid.{IsValid, head_term, nonempty, log_at_total}
use ai_fs.Raft.Valid.Handlers.{
  request_vote-IsValid, append_entries-IsValid, install_snapshot-IsValid,
}
use ai_fs.Raft.Valid.Leader.{
  become_leader-IsValid, kill-IsValid, apply_one-IsValid, append_reply-IsValid,
  install_reply-IsValid, observe_term-IsValid, start-IsValid, start_election-IsValid,
  snapshot-IsValid,
}

of_Returns {ℓ} :
    {A : Type ℓ} (P : A → Type 0) (m : Option A) {a : A} → Returns P m → m ≡ some a → P a
of_Returns P m h e = subst (Returns P) e h

Returns-ne-none {ℓ} : {A : Type ℓ} (P : A → Type 0) (m : Option A) → Returns P m → m ≢ none
Returns-ne-none P none h e = h
Returns-ne-none P (some a) h e = cc

module _ {C : Type 0} (codec : Codec (Persistent C)) where
  pub Live-IsValid : {rf rf' : Raft C} → IsValid rf → Live codec rf rf' → IsValid rf'
  Live-IsValid {rf} v (asked_for_vote now args reply e) =
      of_Returns (λ r. IsValid r.0) _ (request_vote-IsValid codec now args rf v) e
  Live-IsValid {rf} v (sent_entries now args reply e) =
      of_Returns (λ r. IsValid r.0) _ (append_entries-IsValid codec now args rf v) e
  Live-IsValid {rf} v (sent_snapshot now args e) =
      subst IsValid (sym e) (install_snapshot-IsValid codec now args rf v)
  Live-IsValid {rf} {rf'} v (took_snapshot index snap h k e) =
      snapshot-IsValid codec index snap rf rf' v h k e
  Live-IsValid {rf} v (started command e) = subst IsValid (sym e) (start-IsValid codec command rf v)
  Live-IsValid {rf} v (stood now args e) =
      of_Returns (λ r. IsValid r.0) _ (start_election-IsValid codec now rf v) e
  Live-IsValid {rf} v (won term e) = subst IsValid (sym e) (become_leader-IsValid term rf v)
  Live-IsValid {rf} v (saw_term term e) =
      subst IsValid (sym e) (observe_term-IsValid codec term rf v)
  Live-IsValid {rf} v (heard_append now peer args reply h e) =
      of_Returns IsValid _ (append_reply-IsValid codec now peer args reply rf v h) e
  Live-IsValid {rf} v (heard_install now peer args term h e) =
      of_Returns IsValid _ (install_reply-IsValid codec now peer args term rf v h) e
  Live-IsValid {rf} v (applied again e) = of_Returns (λ r. IsValid r.0) _ (apply_one-IsValid rf v) e
  Live-IsValid {rf} v (killed e) = subst IsValid (sym e) (kill-IsValid rf v)

  -- What a fresh peer and its saved state leave of the indexes.
  record IsFresh (n : ℕ) (rf : Raft C) : Type 0 where
    commit : rf.last_included_index ≡ 0 → rf.commit_index ≡ 0
    applied : rf.last_included_index ≡ 0 → rf.last_applied ≡ 0
    peers : rf.peers ≡ n
    nexts : length rf.next_index ≡ n
    matches : length rf.match_index ≡ n

  read_persist-IsFresh :
      (now peers me : ℕ) (ps : Persister) (bs : Bytes)
      → IsFresh peers (read_persist codec bs (fresh_raft now peers me ps))
  unfolding read_persist fresh_raft
  read_persist-IsFresh now peers me ps [] = ground (arith, length-replicate peers zero)
  read_persist-IsFresh now peers me ps (b ∷ bs) = ground (arith, length-replicate peers zero)

  -- `Make` gives a valid peer if the saved log begins with the base entry.
  pub make-IsValid :
      (now peers me : ℕ) (ps : Persister)
      → head_term (recovered codec ps.raftstate).logs
        ≡ some (recovered codec ps.raftstate).last_included_term
      → IsValid (make codec now peers me ps)
  unfolding make
  make-IsValid now peers me ps h = ground (
    arith,
    read_persist-IsFresh now peers me ps ps.raftstate,
    read_persist-recovered codec now peers me ps ps.raftstate,
  )

  Steps-IsValid :
      {rf rf' : Raft C} → IsDurable codec rf → IsValid rf → Steps codec rf rf' → IsValid rf'
  Steps-IsValid d v here = v
  Steps-IsValid d v (then_step steps (live l)) = Live-IsValid (Steps-IsValid d v steps) l
  Steps-IsValid d v (then_step {s} steps (restarted now e)) = subst IsValid (sym e) (
      make-IsValid now s.peers s.me s.persister
        (rw (Steps-IsDurable codec steps d) (Steps-IsValid d v steps).base))

  -- A peer that was first made with an empty persister is valid after any steps and crashes.
  pub made-IsValid :
      (start_time peers me : ℕ) (rf : Raft C)
      → Steps codec (make codec start_time peers me make_persister) rf
      → IsValid rf
  unfolding make_persister
  made-IsValid start_time peers me rf steps =
      Steps-IsValid (make-IsDurable codec start_time peers me make_persister)
        (make-IsValid start_time peers me make_persister refl) steps

  -- The request to a peer fails on the log just if its next index is beyond the end of the log.
  make_append_entry_cases :
      (peer next : ℕ) (rf : Raft C)
      → IsValid rf
      → get_elem? rf.next_index peer ≡ some next
      → ((next ≤ last_logical_index rf + 1) × (make_append_entry peer rf ≢ none))
        ⊎ ((last_logical_index rf + 1 < next) × (make_append_entry peer rf ≡ none))
  unfolding make_append_entry entries_from get_physical_index last_logical_index
  make_append_entry_cases peer next rf v e =
      let some_log = nonempty rf v in
      elim (dec_lt (last_logical_index rf + 1) next) [
        | yes beyond ↦ inr (beyond, ground arith)
        | no within ↦ elim (dec_lt rf.last_included_index next) [
          | yes ahead ↦
              let (prev, p) =
                get_elem?_total rf.logs (next - rf.last_included_index - 1) (omega arith) in
              inl (omega arith, ground arith)
          | no behind ↦ inl (omega arith, ground arith)
        ]
      ]

  -- A snapshot fails on the log just if its index is beyond the end of the log.
  snapshot_cases :
      (index : ℕ) (snap : Bytes) (rf : Raft C)
      → IsValid rf
      → ((index ≤ last_logical_index rf) × (snapshot codec index snap rf ≢ none))
        ⊎ ((last_logical_index rf < index) × (snapshot codec index snap rf ≡ none))
  unfolding snapshot last_logical_index log_at get_physical_index
  snapshot_cases index snap rf v =
      let some_log = nonempty rf v in
      elim (dec_lt (last_logical_index rf) index) [
        | yes beyond ↦
            let nothing = get_elem?_beyond rf.logs (index - rf.last_included_index) (omega arith) in
            inr (beyond, ground arith)
        | no within ↦ elim (dec_lt index rf.last_included_index) [
          | yes behind ↦ inl (omega arith, ground arith)
          | no ahead ↦
              let (entry, p) = log_at_total index rf v (omega arith) (omega arith) in
              inl (omega arith, ground arith)
        ]
      ]

  pub no_panic :
      (start_time peers me : ℕ) (rf : Raft C)
      → Steps codec (make codec start_time peers me make_persister) rf
      → (now peer next index : ℕ) (snap : Bytes) (votes : RequestVoteArgs)
        (sent : AppendEntriesArgs C) (reply : AppendEntriesReply) (installed : InstallSnapshotArgs)
        (reply_term : ℕ)
      → peer < rf.peers
      → get_elem? rf.next_index peer ≡ some next
      → (request_vote codec now votes rf ≢ none)
        × (append_entries codec now sent rf ≢ none)
        × (start_election codec now rf ≢ none)
        × (append_reply codec now peer sent reply rf ≢ none)
        × (install_reply codec now peer installed reply_term rf ≢ none)
        × (apply_one rf ≢ none)
        × (((next ≤ last_logical_index rf + 1) × (make_append_entry peer rf ≢ none))
            ⊎ ((last_logical_index rf + 1 < next) × (make_append_entry peer rf ≡ none)))
        × (((index ≤ last_logical_index rf) × (snapshot codec index snap rf ≢ none))
            ⊎ ((last_logical_index rf < index) × (snapshot codec index snap rf ≡ none)))
  no_panic start_time peers me rf steps now peer next index snap votes sent reply installed
        reply_term h e =
      let v = made-IsValid start_time peers me rf steps in
      (
        Returns-ne-none _ _ (request_vote-IsValid codec now votes rf v),
        Returns-ne-none _ _ (append_entries-IsValid codec now sent rf v),
        Returns-ne-none _ _ (start_election-IsValid codec now rf v),
        Returns-ne-none _ _ (append_reply-IsValid codec now peer sent reply rf v h),
        Returns-ne-none _ _ (install_reply-IsValid codec now peer installed reply_term rf v h),
        Returns-ne-none _ _ (apply_one-IsValid rf v),
        make_append_entry_cases peer next rf v e,
        snapshot_cases index snap rf v,
      )
