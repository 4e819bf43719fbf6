-- ===== src/Raft/Cluster/Moves.antt =====
-- Every move of a cluster keeps its invariant.
use ai_fs.Prelude.{
  ℕ, ◌<◌, ◌≡◌, refl, sym, subst, ◌∙◌, ◌⊎◌, inl, inr, true, false, not, ◌||◌, ◌==◌, ==_iff,
  Bool-cases, some, List, ◌∷◌, arith,
}
use ai_fs.Raft.State.{Raft, leader, Codec, Persistent}
use ai_fs.Raft.RequestVote.{RequestVoteArgs, RequestVoteReply}
use ai_fs.Raft.Election.{is_candidate, start_election, count_vote, become_leader}
use ai_fs.Raft.Lifetime.{make}
use ai_fs.Raft.Keeps.{Keeps, become_leader-Keeps}
use ai_fs.Raft.Steps.{restarted}
use ai_fs.Raft.Votes.{Step-KeepsVote}
use ai_fs.Raft.Durability.{Keeps-IsDurable, make-IsDurable}
use ai_fs.Raft.Cluster.{Ballot, Election, Cluster, put, opened, take_reply}
use ai_fs.Raft.Cluster.Stays.{Stays, make_role}
use ai_fs.Raft.Cluster.Ballots.{
  HasVote, HasMajority, Grows, Grows-HasMajority, count-put, count-Peers, count_none, Peers-map,
}
use ai_fs.Raft.Cluster.Sound.{IsFair, IsSound, Change}

module _ {C : Type 0} (codec : Codec (Persistent C)) (n : ℕ) where
  -- A step that gives no vote and begins no leadership.
  pub Keeps-Change :
      (s : Cluster C) (i : ℕ) (rf : Raft C)
      → IsSound codec n s
      → i < n
      → Keeps codec (s.peer i) rf
      → Stays (s.peer i) rf
      → Change codec n s i rf s.ballots
  Keeps-Change s i rf v h k stays = record {
    inside = h;
    keeps = record { term = k.term; vote = k.vote };
    named = (k.me, k.peers);
    saved = Keeps-IsDurable codec (s.peer i) rf k (v.durable i h);
    grows = λ b m. m;
    given = λ b m. inl m;
    leads = λ l.
        let (before, same) = stays l in
        subst (λ t. HasMajority n s.ballots t i) (sym same) (v.led i h before);
  }

  -- The same, with a vote that the peer then has.
  pub given-Change :
      (s : Cluster C) (i t c : ℕ) (rf : Raft C)
      → IsSound codec n s
      → i < n
      → Keeps codec (s.peer i) rf
      → Stays (s.peer i) rf
      → t ≡ rf.curr_term
      → rf.voted_for ≡ some c
      → Change codec n s i rf (record { voter = i; term = t; candidate = c } ∷ s.ballots)
  given-Change s i t c rf v h k stays e f =
      let old = Keeps-Change s i rf v h k stays in
      let bs = record { voter = i; term = t; candidate = c } ∷ s.ballots in
      record {
        inside = h;
        keeps = old.keeps;
        named = old.named;
        saved = old.saved;
        grows = λ b m. inr m;
        given = λ b m. elim m [ inl same ↦ inr (ground arith) | inr m' ↦ inl m' ];
        leads = λ l. Grows-HasMajority n s.ballots bs rf.curr_term i (λ b m. inr m) (old.leads l);
      }

  pub Grows-IsFair :
      (bs bs' : List Ballot) (e : Election)
      → Grows bs bs'
      → IsFair codec n bs e
      → IsFair codec n bs' e
  Grows-IsFair bs bs' e g (h, (got, c, voted), w) =
      (h, (got, c, λ p q. let (a, m) = voted p q in (a, g _ m)), w)

  pub stood_lem :
      (now : ℕ) (args : RequestVoteArgs) (rf rf' : Raft C)
      → start_election codec now rf ≡ some (rf', args)
      → (args.candidate_id ≡ rf.me)
        × (args.term ≡ rf'.curr_term)
        × (rf'.voted_for ≡ some args.candidate_id)
  unfolding start_election
  stood_lem now args rf rf' h = ground arith

  -- A new election has the candidate's own vote.
  pub opened-IsFair :
      (args : RequestVoteArgs) (bs : List Ballot)
      → args.candidate_id < n
      → HasVote bs args.term args.candidate_id args.candidate_id
      → IsFair codec n bs (opened args)
  opened-IsFair args bs h own =
      let c = args.candidate_id in
      let none_yet = λ (p : ℕ). false in
      (
        h,
        (
          put c true none_yet,
          count-put n c none_yet h refl ∙ omega (arith, count_none n),
          λ p e. (e, subst (HasVote bs args.term c) (ground (arith, ==_iff p c)) own),
        ),
        λ w. cc,
      )

  -- A reply adds one vote at most, of a peer that had none in this election.
  pub take_reply-IsFair :
      (p : ℕ) (reply : RequestVoteReply) (rf : Raft C) (e : Election) (bs : List Ballot)
      → p < n
      → rf.peers ≡ n
      → e.answered p ≡ false
      → (reply.vote_granted ≡ true → HasVote bs e.args.term e.args.candidate_id p)
      → IsFair codec n bs e
      → IsFair codec n bs (take_reply p reply rf e)
  unfolding count_vote
  take_reply-IsFair p reply rf e bs h peers a vote (c, (got, l, voted), w) =
      elim (Bool-cases (not (is_candidate rf.state) || not (rf.curr_term == e.args.term))) [
        | inl over ↦ (
          c,
          (got, ground arith, λ q g. let (x, m) = voted q g in (ground arith, m)),
          ground arith,
        )
        | inr on ↦ elim (Bool-cases reply.vote_granted) [
          | inr refused ↦ (
            c,
            (got, ground arith, λ q g. let (x, m) = voted q g in (ground arith, m)),
            ground arith,
          )
          | inl granted ↦
              let fresh : got p ≡ false = elim (Bool-cases (got p)) [
                | inl g ↦ let (x, m) = voted p g in cc
                | inr g ↦ g
              ] in
              (
                c,
                (
                  put p true got,
                  ground (arith, count-put n p got h fresh),
                  λ q g. elim (Bool-cases (q == p)) [
                    | inl same ↦ (
                      rw same refl,
                      subst (HasVote bs e.args.term e.args.candidate_id) (sym ((==_iff q p).0 same))
                          (vote granted),
                    )
                    | inr other ↦ let (x, m) = voted q (rw other at g) in (rw other x, m)
                  ],
                ),
                ground arith,
              )
        ]
      ]

  -- Who begins to lead was the candidate of the term.
  become_leader_lem :
      (t : ℕ) (rf : Raft C)
      → (become_leader t rf).state ≡ leader
      → ((become_leader t rf).curr_term ≡ rf.curr_term) × ((rf.state ≡ leader) ⊎ (rf.curr_term ≡ t))
  unfolding become_leader
  become_leader_lem t rf l =
      elim (Bool-cases (not (is_candidate rf.state) || not (t == rf.curr_term))) [
        | inl stays ↦ (ground arith, inl (ground arith))
        | inr wins ↦ (ground arith, inr (ground arith))
      ]

  won-HasMajority :
      (bs : List Ballot) (e : Election)
      → IsFair codec n bs e
      → e.won ≡ true
      → HasMajority n bs e.args.term e.args.candidate_id
  won-HasMajority bs e (c, (got, l, voted), w) won =
      let (ps, s, len) = count-Peers n got in
      let most = w won in
      (
        ps,
        Peers-map (λ p. got p ≡ true) (HasVote bs e.args.term e.args.candidate_id) n ps
            (λ p g. (voted p g).1) s,
        omega arith,
      )

  pub wins-Change :
      (s : Cluster C) (e : Election)
      → IsSound codec n s
      → IsFair codec n s.ballots e
      → e.won ≡ true
      → Change codec n s e.args.candidate_id
          (become_leader e.args.term (s.peer e.args.candidate_id))
          s.ballots
  wins-Change s e v fair won =
      let i = e.args.candidate_id in
      let rf = s.peer i in
      let k = become_leader-Keeps codec e.args.term rf in
      record {
        inside = fair.0;
        keeps = record { term = k.term; vote = k.vote };
        named = (k.me, k.peers);
        saved = Keeps-IsDurable codec rf (become_leader e.args.term rf) k (v.durable i fair.0);
        grows = λ b m. m;
        given = λ b m. inl m;
        leads = λ l.
            let (same, why) = become_leader_lem e.args.term rf l in
            subst (λ t. HasMajority n s.ballots t i) (sym same)
              (elim why [
                | inl led ↦ v.led i fair.0 led
                | inr term ↦
                    subst (λ t. HasMajority n s.ballots t i) (sym term)
                      (won-HasMajority s.ballots e fair won)
              ]);
      }

  pub crash-Change :
      (s : Cluster C) (i now : ℕ)
      → IsSound codec n s
      → i < n
      → Change codec n s i
          (make codec now (s.peer i).peers (s.peer i).me (s.peer i).persister)
          s.ballots
  crash-Change s i now v h =
      let rf = s.peer i in
      let (role, me, peers) = make_role codec now rf.peers rf.me rf.persister in
      record {
        inside = h;
        keeps = Step-KeepsVote codec (v.durable i h) (restarted now refl);
        named = (me, peers);
        saved = make-IsDurable codec now rf.peers rf.me rf.persister;
        grows = λ b m. m;
        given = λ b m. inl m;
        leads = λ l. absurd (ground arith);
      }
