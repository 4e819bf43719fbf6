-- ===== src/Raft/Stale.antt =====
-- `becomeLeader` sets `nextIndex` anew and leaves `matchIndex` as it is: what a peer learned when it
-- led before counts again, although the others may have dropped those entries since.
use ai_fs.Prelude.{
  ℕ, ◌+◌, ◌≤◌, ◌≡◌, refl, sym, subst, inl, inr, true, Option, some, List, [], ◌∷◌, ◌++◌, length,
  length-append, get_elem?-append_right, dec_lt, arith,
}
use ai_fs.Raft.State.{
  Raft, Codec, Persistent, candidate, is_leader, persist, log_at, last_logical_index,
}
use ai_fs.Raft.Election.{become_leader}
use ai_fs.Raft.Replication.{start, commit_index_update}
use ai_fs.Raft.Valid.{IsValid, nonempty}
use ai_fs.Raft.Quorum.{Peers, IsMajority}
use ai_fs.Raft.Commit.{Holds, IsCommittable, commits_highest_majority}

module _ {C : Type 0} (codec : Codec (Persistent C)) where
  -- What becomes of the leader when it begins: its log and its matches stay.
  record Begins (t : ℕ) (rf led : Raft C) : Type 0 where
    leads : is_leader led ≡ true
    term : led.curr_term ≡ t
    same_log : led.logs ≡ rf.logs
    same_start : led.last_included_index ≡ rf.last_included_index
    same_matches : led.match_index ≡ rf.match_index
    same_peers : led.peers ≡ rf.peers
    same_me : led.me ≡ rf.me
    same_commit : led.commit_index ≡ rf.commit_index

  become_leader-Begins :
      (t : ℕ) (rf : Raft C)
      → rf.state ≡ candidate
      → rf.curr_term ≡ t
      → Begins t rf (become_leader t rf)
  unfolding become_leader is_leader
  become_leader-Begins t rf c e = ground arith

  abbrev pub elected_with : ℕ → Option C → Raft C → Raft C
  elected_with t command rf = (start codec command (become_leader t rf)).0

  -- Its first entry follows the log.
  record Starts (t : ℕ) (command : Option C) (rf led : Raft C) : Type 0 where
    term : led.curr_term ≡ t
    last : last_logical_index led ≡ last_logical_index rf + 1
    entry : log_at (last_logical_index rf + 1) led ≡ some (record { term = t; command = command })
    same_matches : led.match_index ≡ rf.match_index
    same_peers : led.peers ≡ rf.peers
    same_me : led.me ≡ rf.me
    same_commit : led.commit_index ≡ rf.commit_index

  abbrev appended : Option C → Raft C → Raft C
  appended command led =
      persist codec (record led {
        logs = led.logs ++ (record { term = led.curr_term; command = command } ∷ []);
      })

  start_lem :
      (command : Option C) (led : Raft C)
      → is_leader led ≡ true
      → (start codec command led).0 ≡ appended command led
  unfolding start
  start_lem command led h = rw (h, start) refl

  appended-Starts :
      (t : ℕ) (command : Option C) (rf led : Raft C)
      → IsValid rf
      → Begins t rf led
      → Starts t command rf (appended command led)
  unfolding persist log_at last_logical_index
  appended-Starts t command rf led v b = ground (
    arith,
    nonempty rf v,
    length-append rf.logs (record { term = t; command = command } ∷ []),
    get_elem?-append_right rf.logs (record { term = t; command = command } ∷ []) 0,
  )

  start-Starts :
      (t : ℕ) (command : Option C) (rf led : Raft C)
      → IsValid rf
      → Begins t rf led
      → Starts t command rf (start codec command led).0
  start-Starts t command rf led v b =
      subst (Starts t command rf) (sym (start_lem command led b.leads))
        (appended-Starts t command rf led v b)

  Holds-of_Starts :
      (t : ℕ) (command : Option C) (rf led : Raft C) (n b : ℕ) (ps : List ℕ)
      → Starts t command rf led
      → Peers (Holds rf n) b ps
      → Peers (Holds led n) b ps
  Holds-of_Starts t command rf led n b [] s h = tt
  Holds-of_Starts t command rf led n b (p ∷ ps) s (lt, (other, (m, e, le)), h) =
      (lt, (ground arith, (m, ground arith, le)), Holds-of_Starts t command rf led n p ps s h)

  -- A candidate whose `matchIndex`, from an earlier leadership, has a majority of the peers beyond
  -- the end of its present log: when it becomes leader and then takes a command, a
  -- `commitIndexUpdate` right after that commits the command, with no message to another peer in
  -- between.
  pub stale_matches_commit :
      (t : ℕ) (command : Option C) (rf rf' : Raft C) (ps : List ℕ)
      → IsValid rf
      → rf.state ≡ candidate
      → rf.curr_term ≡ t
      → rf.commit_index ≤ last_logical_index rf
      → Peers (Holds rf (last_logical_index rf + 1)) rf.peers ps
      → IsMajority rf.peers (length ps + 1)
      → commit_index_update (elected_with t command rf) ≡ some rf'
      → (rf'.commit_index ≡ last_logical_index rf + 1)
        × (log_at (last_logical_index rf + 1) (elected_with t command rf)
            ≡ some (record { term = t; command = command }))
  stale_matches_commit t command rf rf' ps v c e le held most h =
      let led = elected_with t command rf in
      let n = last_logical_index rf + 1 in
      let s = start-Starts t command rf (become_leader t rf) v (become_leader-Begins t rf c e) in
      let (_, low, why, none_behind) = commits_highest_majority led rf' h in
      let committable : IsCommittable led n = record {
        own_term = (record { term = t; command = command }, s.entry, sym s.term);
        holders = ps;
        hold =
            subst (λ b. Peers (Holds led n) b ps) (sym s.same_peers)
              (Holds-of_Starts t command rf led n rf.peers ps s held);
        majority = ground (arith, s.same_peers, most);
      } in
      elim (dec_lt rf'.commit_index n) [
        | yes behind ↦ absurd (none_behind n behind (omega (arith, s.last)) committable)
        | no reached ↦ elim why [
          | inl stays ↦ absurd (omega (arith, s.same_commit))
          | inr (_, high) ↦ (omega (arith, s.last), s.entry)
        ]
      ]
