-- ===== src/Raft/Cluster/Sound.antt =====
-- What holds of a cluster at every moment, and how a change of one peer keeps it.
use ai_fs.Prelude.{
  ℕ, ◌≤◌, ◌<◌, ◌≡◌, refl, sym, subst, ◌∙◌, ◌⊎◌, inl, inr, Bool, true, ◌==◌, ==_iff, Bool-cases,
  some, List, Among, get_elem?, arith,
}
use ai_fs.Raft.State.{Raft, leader, Codec, Persistent}
use ai_fs.Raft.Votes.{KeepsVote}
use ai_fs.Raft.Durability.{IsDurable}
use ai_fs.Raft.Quorum.{IsMajority}
use ai_fs.Raft.Cluster.{Ballot, Election, Cluster, put}
use ai_fs.Raft.Cluster.Ballots.{HasVote, HasMajority, Grows, Grows-HasMajority, count}

module _ {C : Type 0} (codec : Codec (Persistent C)) (n : ℕ) where
  -- The voter is past the term of the vote, or still has it.
  abbrev pub Binds : (ℕ → Raft C) → Ballot → Type 0
  Binds peer b =
      (b.voter < n)
      × (b.term ≤ (peer b.voter).curr_term)
      × (b.term ≡ (peer b.voter).curr_term → (peer b.voter).voted_for ≡ some b.candidate)

  -- The votes that are counted were given, by as many peers.
  abbrev pub IsFair : List Ballot → Election → Type 0
  IsFair bs e =
      (e.args.candidate_id < n)
      × ((got : ℕ → Bool) × (count n got ≡ e.votes)
          × ((p : ℕ)
              → got p ≡ true
              → (e.answered p ≡ true) × HasVote bs e.args.term e.args.candidate_id p))
      × (e.won ≡ true → IsMajority n e.votes)

  pub record IsSound (s : Cluster C) : Type 0 where
    pub identity : (i : ℕ) → i < n → ((s.peer i).me ≡ i) × ((s.peer i).peers ≡ n)
    pub durable : (i : ℕ) → i < n → IsDurable codec (s.peer i)
    pub binds : (b : Ballot) → Among b s.ballots → Binds s.peer b
    pub once :
        (a b : Ballot)
        → Among a s.ballots
        → Among b s.ballots
        → a.voter ≡ b.voter
        → a.term ≡ b.term
        → a.candidate ≡ b.candidate
    pub fair : (k : ℕ) (e : Election) → get_elem? s.elections k ≡ some e → IsFair s.ballots e
    pub led :
        (i : ℕ) → i < n → (s.peer i).state ≡ leader → HasMajority n s.ballots (s.peer i).curr_term i

  -- Peer `i` becomes `rf`, and may give a vote that it then has.
  pub record Change (s : Cluster C) (i : ℕ) (rf : Raft C) (bs : List Ballot) : Type 0 where
    pub inside : i < n
    pub keeps : KeepsVote (s.peer i) rf
    pub named : (rf.me ≡ (s.peer i).me) × (rf.peers ≡ (s.peer i).peers)
    pub saved : IsDurable codec rf
    pub grows : Grows s.ballots bs
    pub given :
        (b : Ballot)
        → Among b bs
        → Among b s.ballots
          ⊎ ((b.voter ≡ i) × (b.term ≡ rf.curr_term) × (rf.voted_for ≡ some b.candidate))
    pub leads : rf.state ≡ leader → HasMajority n bs rf.curr_term i

  Change-Binds :
      (s : Cluster C) (i : ℕ) (rf : Raft C) (bs : List Ballot)
      → IsSound s
      → Change s i rf bs
      → (b : Ballot) → Among b bs
      → Binds (put i rf s.peer) b
  Change-Binds s i rf bs v c b m = elim (Bool-cases (b.voter == i)) [
    | inl same ↦ elim (c.given b m) [
      | inl old ↦
          let o = v.binds b old in
          let p = c.keeps.term in ground (arith, c.keeps.vote b.candidate, ==_iff b.voter i)
      | inr new ↦ ground (arith, c.inside, ==_iff b.voter i)
    ]
    | inr other ↦ elim (c.given b m) [
      | inl old ↦ let o = v.binds b old in ground arith
      | inr new ↦ ground (arith, ==_iff b.voter i)
    ]
  ]

  -- A new vote of a voter that had voted in the term is the old one.
  old_and_new :
      (s : Cluster C) (i : ℕ) (rf : Raft C) (bs : List Ballot)
      → IsSound s
      → Change s i rf bs
      → (a : Ballot) (c : ℕ) → Among a s.ballots
      → a.voter ≡ i
      → a.term ≡ rf.curr_term
      → rf.voted_for ≡ some c
      → a.candidate ≡ c
  old_and_new s i rf bs v change a c m e t f =
      let o = v.binds a m in
      let p = change.keeps.term in ground (arith, change.keeps.vote a.candidate)

  Change-once :
      (s : Cluster C) (i : ℕ) (rf : Raft C) (bs : List Ballot)
      → IsSound s
      → Change s i rf bs
      → (a b : Ballot) → Among a bs
      → Among b bs
      → a.voter ≡ b.voter
      → a.term ≡ b.term
      → a.candidate ≡ b.candidate
  Change-once s i rf bs v c a b ma mb e t = elim (c.given a ma) [
    | inl oa ↦ elim (c.given b mb) [
      | inl ob ↦ v.once a b oa ob e t
      | inr (vb, tb, fb) ↦ old_and_new s i rf bs v c a b.candidate oa (e ∙ vb) (t ∙ tb) fb
    ]
    | inr (va, ta, fa) ↦ elim (c.given b mb) [
      | inl ob ↦ sym (old_and_new s i rf bs v c b a.candidate ob (sym e ∙ va) (sym t ∙ ta) fa)
      | inr (vb, tb, fb) ↦ cc
    ]
  ]

  Change-led :
      (s : Cluster C) (i : ℕ) (rf : Raft C) (bs : List Ballot)
      → IsSound s
      → Change s i rf bs
      → (j : ℕ) → j < n
      → (put i rf s.peer j).state ≡ leader
      → HasMajority n bs (put i rf s.peer j).curr_term j
  Change-led s i rf bs v c j h l = elim (Bool-cases (j == i)) [
    | inl same ↦
        let at : put i rf s.peer j ≡ rf = rw same refl in
        let own = c.leads (subst (λ x. x.state ≡ leader) at l) in
        subst (λ x. HasMajority n bs x.curr_term j) (sym at)
          (subst (λ x. HasMajority n bs rf.curr_term x) (sym ((==_iff j i).0 same)) own)
    | inr other ↦
        let at : put i rf s.peer j ≡ s.peer j = rw other refl in
        let before = v.led j h (subst (λ x. x.state ≡ leader) at l) in
        subst (λ x. HasMajority n bs x.curr_term j) (sym at)
          (Grows-HasMajority n s.ballots bs (s.peer j).curr_term j c.grows before)
  ]

  pub Change-IsSound :
      (s : Cluster C) (i : ℕ) (rf : Raft C) (bs : List Ballot) (es : List Election)
      → IsSound s
      → Change s i rf bs
      → ((k : ℕ) (e : Election) → get_elem? es k ≡ some e → IsFair bs e)
      → IsSound (record { peer = put i rf s.peer; elections = es; ballots = bs })
  Change-IsSound s i rf bs es v c fair = record {
    identity = λ j h. elim (Bool-cases (j == i)) [
      | inl same ↦ let o = v.identity j h in ground (arith, c.named, ==_iff j i)
      | inr other ↦ let o = v.identity j h in ground arith
    ];
    durable = λ j h. elim (Bool-cases (j == i)) [
      | inl same ↦ rw same c.saved
      | inr other ↦ rw other (v.durable j h)
    ];
    binds = Change-Binds s i rf bs v c;
    once = Change-once s i rf bs v c;
    fair = fair;
    led = Change-led s i rf bs v c;
  }
