-- ===== src/Raft/Commit.antt =====
-- What a leader commits, and what is handed to the service.
use ai_fs.Prelude.{
  ℕ, zero, suc, ◌+◌, ◌-◌, ◌/◌, ◌≤◌, ◌<◌, ◌≡◌, ◌≢◌, ◌⊎◌, inl, inr, refl, sym, subst, ℕ_discrete,
  dec_lt, not, Bool, true, false, ◌&&◌, some, List, [], ◌∷◌, length, get_elem?, arith, leb, ltb,
  ◌==◌, Bool-cases, Option-cases,
}
use ai_fs.Raft.State.{Raft, LogEntry, log_at, last_logical_index}
use ai_fs.Raft.Replication.{count_matches, commit_loop, commit_index_update}
use ai_fs.Raft.Logs.{TermAt}
use ai_fs.Raft.Quorum.{Peers, IsMajority, Peers-widen, Peers-top}

module _ {C : Type 0} where
  -- The leader knows that peer `p` holds the log up to `n`.
  abbrev pub Holds : Raft C → (n p : ℕ) → Type 0
  Holds rf n p = (p ≢ rf.me) × ((m : ℕ) × (get_elem? rf.match_index p ≡ some m) × (n ≤ m))

  -- The count is that of a set of other peers, and the leader.
  count_matches-Peers :
      (rf : Raft C) (n left k : ℕ)
      → count_matches rf n left ≡ some k
      → (ps : List ℕ) × Peers (Holds rf n) left ps × (length ps + 1 ≡ k)
  unfolding count_matches
  count_matches-Peers rf n zero k h = ([], tt, ground arith)
  count_matches-Peers rf n (suc peer) k h = elim (Option-cases (count_matches rf n peer)) [
    | inl e ↦ ground arith
    | inr (c, e) ↦
        let (ps, s, l) = count_matches-Peers rf n peer c e in
        elim (Option-cases (get_elem? rf.match_index peer)) [
          | inl q ↦ ground arith
          | inr (m, q) ↦ elim (Bool-cases (not (peer == rf.me) && leb n m)) [
            | inl holds ↦
                (peer ∷ ps, (omega arith, (ground arith, (m, q, ground arith)), s), ground arith)
            | inr lacks ↦
                (ps, Peers-widen (Holds rf n) peer (suc peer) ps (omega arith) s, ground arith)
          ]
        ]
  ]

  -- No set of such peers is larger.
  count_matches_most :
      (rf : Raft C) (n left k : ℕ) (ps : List ℕ)
      → count_matches rf n left ≡ some k
      → Peers (Holds rf n) left ps
      → length ps + 1 ≤ k
  unfolding count_matches
  count_matches_most rf n zero k [] h s = ground arith
  count_matches_most rf n zero k (p ∷ ps) h s = absurd (omega (arith, s.0))
  count_matches_most rf n (suc peer) k ps h s = elim (Option-cases (count_matches rf n peer)) [
    | inl e ↦ ground arith
    | inr (c, e) ↦ elim (Option-cases (get_elem? rf.match_index peer)) [
      | inl q ↦ ground arith
      | inr (m, q) ↦ elim (Peers-top (Holds rf n) peer ps s) [
        | inl ((other, (m', q', le)), (rest, s', l)) ↦
            ground (arith, count_matches_most rf n peer c rest e s')
        | inr s' ↦ ground (arith, count_matches_most rf n peer c ps e s')
      ]
    ]
  ]

  -- Index `n` has an entry of the leader's own term, and a majority of the peers holds it.
  pub record IsCommittable (rf : Raft C) (n : ℕ) : Type 0 where
    pub own_term : TermAt n rf.curr_term rf
    pub holders : List ℕ
    pub hold : Peers (Holds rf n) rf.peers holders
    pub majority : IsMajority rf.peers (length holders + 1)

  -- The test in the loop decides `IsCommittable`.
  abbrev loop_test : Raft C → LogEntry C → ℕ → Bool
  loop_test rf entry count = entry.term == rf.curr_term && ltb (rf.peers / 2) count

  loop_test_sound :
      (rf : Raft C) (n : ℕ) (entry : LogEntry C) (count : ℕ)
      → log_at n rf ≡ some entry
      → count_matches rf n rf.peers ≡ some count
      → loop_test rf entry count ≡ true
      → IsCommittable rf n
  loop_test_sound rf n entry count p q t =
      let (ps, s, l) = count_matches-Peers rf n rf.peers count q in
      record {
        own_term = (entry, p, ground arith);
        holders = ps;
        hold = s;
        majority = ground arith;
      }

  loop_test_complete :
      (rf : Raft C) (n : ℕ) (entry : LogEntry C) (count : ℕ)
      → log_at n rf ≡ some entry
      → count_matches rf n rf.peers ≡ some count
      → loop_test rf entry count ≡ false
      → ¬ (IsCommittable rf n)
  loop_test_complete rf n entry count p q t c =
      let (x, p', e) = c.own_term in
      ground (arith, count_matches_most rf n rf.peers count c.holders q c.hold)

  -- The commit index of the result, among the `left` indexes behind the old one.
  abbrev pub Advances : (left : ℕ) (rf rf' : Raft C) → Type 0
  Advances left rf rf' =
      (rf' ≡ record rf { commit_index = rf'.commit_index })
      × (rf.commit_index ≤ rf'.commit_index)
      × (rf'.commit_index ≤ rf.commit_index + left)
      × (rf.commit_index < rf'.commit_index → IsCommittable rf rf'.commit_index)
      × ((n : ℕ) → rf'.commit_index < n → n ≤ rf.commit_index + left → ¬ (IsCommittable rf n))

  commit_loop-Advances :
      (left : ℕ) (rf rf' : Raft C) → commit_loop rf left ≡ some rf' → Advances left rf rf'
  unfolding commit_loop
  commit_loop-Advances zero rf rf' h = (
    ground arith,
    ground arith,
    ground arith,
    (λ l. absurd (ground arith)),
    (λ n l m. absurd (ground arith)),
  )
  commit_loop-Advances (suc left) rf rf' h =
      elim (Option-cases (log_at (rf.commit_index + suc left) rf)) [
        | inl p ↦ ground arith
        | inr (entry, p) ↦
            elim (Option-cases (count_matches rf (rf.commit_index + suc left) rf.peers)) [
              | inl q ↦ ground arith
              | inr (count, q) ↦ elim (Bool-cases (loop_test rf entry count)) [
                | inl t ↦
                    let c = loop_test_sound rf (rf.commit_index + suc left) entry count p q t in
                    let e : rf' ≡ record rf { commit_index = rf.commit_index + suc left } =
                      ground arith in
                    rw e (refl, omega arith, omega arith, (λ l. c), (λ n l m. absurd (omega arith)))
                | inr t ↦
                    let (same, low, high, sound, most) =
                      commit_loop-Advances left rf rf' (ground arith) in
                    (
                      same,
                      low,
                      omega arith,
                      sound,
                      λ n l m. elim (ℕ_discrete n (rf.commit_index + suc left)) [
                        | yes e ↦
                            subst (λ i. ¬ (IsCommittable rf i)) (sym e)
                              (loop_test_complete rf (rf.commit_index + suc left) entry count p q t)
                        | no e ↦ most n l (omega arith)
                      ],
                    )
              ]
            ]
      ]

  -- The commit index does not fall. If it rises, then to an index inside the log that has an entry
  -- of the leader's own term and that a majority of the peers holds, the leader among them; and no
  -- index behind it in the log is such. Nothing else changes.
  pub commits_highest_majority :
      (rf rf' : Raft C)
      → commit_index_update rf ≡ some rf'
      → (rf' ≡ record rf { commit_index = rf'.commit_index })
        × (rf.commit_index ≤ rf'.commit_index)
        × ((rf'.commit_index ≡ rf.commit_index)
            ⊎ (IsCommittable rf rf'.commit_index × (rf'.commit_index ≤ last_logical_index rf)))
        × ((n : ℕ) → rf'.commit_index < n → n ≤ last_logical_index rf → ¬ (IsCommittable rf n))
  unfolding commit_index_update
  commits_highest_majority rf rf' h =
      let (same, low, high, sound, most) =
        commit_loop-Advances (last_logical_index rf - rf.commit_index) rf rf' h in
      (
        same,
        low,
        (elim (dec_lt rf.commit_index rf'.commit_index) [
          | yes l ↦ inr (sound l, omega arith)
          | no l ↦ inl (omega arith)
        ]),
        λ n l m. most n l (omega arith),
      )
