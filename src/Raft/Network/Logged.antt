-- ===== src/Raft/Network/Logged.antt =====
-- What holds of a cluster and its messages at every moment.
use ai_fs.Prelude.{
  ℕ, ◌≤◌, ◌<◌, ◌≡◌, ◌≢◌, refl, sym, subst, inl, inr, Bool-cases, ◌==◌, ==_iff, List, Among, arith,
}
use ai_fs.Raft.State.{Raft, leader, candidate, Codec, Persistent, last_logical_index}
use ai_fs.Raft.AppendEntries.{AppendEntriesArgs}
use ai_fs.Raft.Steps.{Live}
use ai_fs.Raft.Cluster.{Cluster, put, Move, stands, answers, hears, wins, acts, crashes}
use ai_fs.Raft.Cluster.Ballots.{HasMajority, Grows, Grows-HasMajority}
use ai_fs.Raft.Cluster.Sound.{IsSound}
use ai_fs.Raft.Network.{Creation, Network, IsQuietMove}
use ai_fs.Raft.Network.Chain.{Chain}
use ai_fs.Raft.Network.Turns.{IsFit, Goes, quiet-Goes, crash-Goes}

module _ {C : Type 0} (n : ℕ) where
  -- An entry's creator led in its term, and does not lead in that term any more or still has it.
  pub record IsOwned (s : Cluster C) (c : Creation C) : Type 0 where
    pub inside : c.by < n
    pub chosen : HasMajority n s.ballots c.term c.by
    pub reached : c.term ≤ (s.peer c.by).curr_term
    pub stands : c.term ≡ (s.peer c.by).curr_term → (s.peer c.by).state ≢ candidate
    pub leads :
        c.term ≡ (s.peer c.by).curr_term
        → (s.peer c.by).state ≡ leader
        → c.index ≤ last_logical_index (s.peer c.by)

  pub Goes-IsOwned :
      (made : List (Creation C)) (s s' : Cluster C) (c : Creation C)
      → Grows s.ballots s'.ballots
      → Goes made (s.peer c.by) (s'.peer c.by)
      → IsOwned s c
      → IsOwned s' c
  Goes-IsOwned made s s' c grows g o = record {
    inside = o.inside;
    chosen = Grows-HasMajority n s.ballots s'.ballots c.term c.by grows o.chosen;
    reached = omega (arith, o.reached, g.term);
    stands = λ t e.
        let same : (s'.peer c.by).curr_term ≡ (s.peer c.by).curr_term =
          omega (arith, o.reached, g.term) in
        o.stands (omega arith) (g.order.stands same e);
    leads = λ t l.
        let same : (s'.peer c.by).curr_term ≡ (s.peer c.by).curr_term =
          omega (arith, o.reached, g.term) in
        elim (g.order.leads same l) [
          | inl stood ↦ absurd (o.stands (omega arith) stood)
          | inr (led, more) ↦ omega (arith, o.leads (omega arith) led)
        ];
  }

module _ {C : Type 0} (codec : Codec (Persistent C)) (n : ℕ) where
  pub record IsLogged (s : Network C) : Type 0 where
    pub sound : IsSound codec n s.cluster
    pub fit : (i : ℕ) → i < n → IsFit s.created (s.cluster.peer i)
    pub messages :
        (args : AppendEntriesArgs C)
        → Among args s.sent
        → Chain s.created args.prev_log_index args.prev_log_term args.entries
    pub owned : (c : Creation C) → Among c s.created → IsOwned n s.cluster c
    pub unique :
        (a b : Creation C)
        → Among a s.created
        → Among b s.created
        → a.index ≡ b.index
        → a.term ≡ b.term
        → (a.command ≡ b.command) × (a.prev_term ≡ b.prev_term)

  rests-Goes : (made : List (Creation C)) (rf : Raft C) → IsFit made rf → Goes made rf rf
  rests-Goes made rf f = record {
    term = omega arith;
    order = record { stands = λ t e. e; leads = λ t l. inr (l, omega arith) };
    fit = f;
  }

  pub put-Goes :
      (made : List (Creation C)) (i : ℕ) (rf : Raft C) (peer : ℕ → Raft C)
      → ((j : ℕ) → j < n → IsFit made (peer j))
      → (i < n → Goes made (peer i) rf)
      → (j : ℕ) → j < n
      → Goes made (peer j) (put i rf peer j)
  put-Goes made i rf peer f g j h = elim (Bool-cases (j == i)) [
    | inl same ↦
        let at : i ≡ j = sym ((==_iff j i).0 same) in
        rw same (subst (λ k. Goes made (peer k) rf) at (g (subst (λ k. k < n) (sym at) h)))
    | inr other ↦ rw other (rests-Goes made (peer j) (f j h))
  ]

  -- Every peer goes on, and no vote is lost.
  abbrev pub PeersGo : List (Creation C) → Cluster C → Cluster C → Type 0
  PeersGo made s s' =
      Grows s.ballots s'.ballots × ((j : ℕ) → j < n → Goes made (s.peer j) (s'.peer j))

  -- A move with no message of entries.
  pub quiet_move-Goes :
      (made : List (Creation C)) (s s' : Cluster C) (m : Move codec n s s')
      → IsQuietMove m
      → IsSound codec n s
      → ((j : ℕ) → j < n → IsFit made (s.peer j))
      → PeersGo made s s'
  quiet_move-Goes made s s' (stands i now args rf h e same) q v f =
      subst (PeersGo made s) (sym same) (
        λ b m. inr m,
        put-Goes made i rf s.peer f (λ h. quiet-Goes codec made (Live.stood now args e) tt (f i h)),
      )
  quiet_move-Goes made s s' (answers p now k e reply rf h g asked same) q v f =
      subst (PeersGo made s) (sym same) (
        λ b m. elim (Bool-cases reply.vote_granted) [
          | inl granted ↦ rw granted (inr m)
          | inr refused ↦ rw refused m
        ],
        put-Goes made p rf s.peer f
            (λ h. quiet-Goes codec made (Live.asked_for_vote now e.args reply asked) tt (f p h)),
      )
  quiet_move-Goes made s s' (hears p k e reply h g a vote same) q v f =
      subst (PeersGo made s) (sym same) (λ b m. m, λ j h. rests-Goes made (s.peer j) (f j h))
  quiet_move-Goes made s s' (wins k e g won same) q v f = subst (PeersGo made s) (sym same) (
    λ b m. m,
    put-Goes made e.args.candidate_id _ s.peer f
        (λ h. quiet-Goes codec made (Live.won e.args.term refl) tt (f e.args.candidate_id h)),
  )
  quiet_move-Goes made s s' (acts i rf l h o same) q v f =
      subst (PeersGo made s) (sym same)
        (λ b m. m, put-Goes made i rf s.peer f (λ h. quiet-Goes codec made l q (f i h)))
  quiet_move-Goes made s s' (crashes i now h same) q v f = subst (PeersGo made s) (sym same) (
    λ b m. m,
    put-Goes made i _ s.peer f (λ h. crash-Goes codec made now (s.peer i) (v.durable i h) (f i h)),
  )
