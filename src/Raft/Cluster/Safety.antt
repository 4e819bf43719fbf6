-- ===== src/Raft/Cluster/Safety.antt =====
-- At most one peer leads in a term.
use ai_fs.Prelude.{
  ◌<◌, ◌≡◌, refl, sym, subst, ap, ◌∙◌, inl, inr, true, false, if◌then◌else◌, Bool-cases, some, List,
  ◌∷◌, get_elem?, get_elem?-set_cases, set, arith, ℕ, zero, suc,
}
use ai_fs.Raft.Persister.{make_persister}
use ai_fs.Raft.State.{Raft, leader, Codec, Persistent}
use ai_fs.Raft.RequestVote.{RequestVoteArgs, RequestVoteReply, request_vote}
use ai_fs.Raft.Election.{start_election}
use ai_fs.Raft.Keeps.{request_vote-Keeps, start_election-Keeps}
use ai_fs.Raft.Steps.{Live-Keeps}
use ai_fs.Raft.Votes.{granted_noted}
use ai_fs.Raft.Durability.{make-IsDurable}
use ai_fs.Raft.Quorum.{Peers-meet}
use ai_fs.Raft.Cluster.{
  Ballot, Election, Cluster, put, opened, take_reply, Move, stands, answers, hears, wins, acts,
  crashes, Run, here, then_move, new_cluster,
}
use ai_fs.Raft.Cluster.Stays.{Live-Stays, request_vote-Stays, start_election_role, make_role}
use ai_fs.Raft.Cluster.Ballots.{HasVote, HasMajority}
use ai_fs.Raft.Cluster.Sound.{IsFair, IsSound, Change, Change-IsSound}
use ai_fs.Raft.Cluster.Moves.{
  Keeps-Change, given-Change, Grows-IsFair, stood_lem, opened-IsFair, take_reply-IsFair,
  wins-Change, crash-Change,
}

module _ {C : Type 0} (codec : Codec (Persistent C)) (n : ℕ) where
  consed-IsFair :
      (bs : List Ballot) (e : Election) (es : List Election)
      → IsFair codec n bs e
      → ((k : ℕ) (x : Election) → get_elem? es k ≡ some x → IsFair codec n bs x)
      → (k : ℕ) (x : Election) → get_elem? (e ∷ es) k ≡ some x
      → IsFair codec n bs x
  consed-IsFair bs e es f g zero x m = let same : e ≡ x = cc in subst (IsFair codec n bs) same f
  consed-IsFair bs e es f g (suc k) x m = g k x m

  -- A change that leaves the elections alone.
  changed-IsSound :
      (s : Cluster C) (i : ℕ) (rf : Raft C) (bs : List Ballot)
      → IsSound codec n s
      → Change codec n s i rf bs
      → IsSound codec n (record s { peer = put i rf s.peer; ballots = bs })
  changed-IsSound s i rf bs v c =
      Change-IsSound codec n s i rf bs s.elections v c
        (λ k e m. Grows-IsFair codec n s.ballots bs e c.grows (v.fair k e m))

  stands-IsSound :
      (s : Cluster C) (i now : ℕ) (args : RequestVoteArgs) (rf : Raft C)
      → IsSound codec n s
      → i < n
      → start_election codec now (s.peer i) ≡ some (rf, args)
      → IsSound codec n (record {
        peer = put i rf s.peer;
        elections = opened args ∷ s.elections;
        ballots = record { voter = i; term = args.term; candidate = args.candidate_id } ∷ s.ballots;
      })
  stands-IsSound s i now args rf v h e =
      let (me, term, vote) = stood_lem codec n now args (s.peer i) rf e in
      let own : args.candidate_id ≡ i = me ∙ (v.identity i h).0 in
      let bs = record { voter = i; term = args.term; candidate = args.candidate_id } ∷ s.ballots in
      let c =
        given-Change codec n s i args.term args.candidate_id rf v h
          (start_election-Keeps codec now args (s.peer i) rf e)
          (λ l. absurd (start_election_role codec now args (s.peer i) rf e l)) term vote in
      Change-IsSound codec n s i rf bs (opened args ∷ s.elections) v c (
        consed-IsFair bs (opened args) s.elections
          (opened-IsFair codec n args bs (subst (λ x. x < n) (sym own) h) (
            inl (
              ap (λ x. record { voter = x; term = args.term; candidate = args.candidate_id })
                (sym own))))
          (λ k x m. Grows-IsFair codec n s.ballots bs x c.grows (v.fair k x m)))

  answers-IsSound :
      (s : Cluster C) (p now k : ℕ) (e : Election) (reply : RequestVoteReply) (rf : Raft C)
      → IsSound codec n s
      → p < n
      → request_vote codec now e.args (s.peer p) ≡ some (rf, reply)
      → IsSound codec n (record s {
        peer = put p rf s.peer;
        ballots =
            (if reply.vote_granted
              then record { voter = p; term = e.args.term; candidate = e.args.candidate_id }
                ∷ s.ballots
              else s.ballots);
      })
  answers-IsSound s p now k e reply rf v h asked =
      let keeps = request_vote-Keeps codec now e.args reply (s.peer p) rf asked in
      let stays = request_vote-Stays codec now e.args reply (s.peer p) rf asked in
      elim (Bool-cases reply.vote_granted) [
        | inl yes_vote ↦
            let (term, vote) = granted_noted codec now e.args reply (s.peer p) rf asked yes_vote in
            rw yes_vote (
              changed-IsSound s p rf _ v (
                given-Change codec n s p e.args.term e.args.candidate_id rf v h keeps stays
                  (sym term) vote))
        | inr no_vote ↦
            rw no_vote
              (changed-IsSound s p rf s.ballots v (Keeps-Change codec n s p rf v h keeps stays))
      ]

  hears-IsSound :
      (s : Cluster C) (p k : ℕ) (e : Election) (reply : RequestVoteReply)
      → IsSound codec n s
      → p < n
      → get_elem? s.elections k ≡ some e
      → e.answered p ≡ false
      → (reply.vote_granted ≡ true → HasVote s.ballots e.args.term e.args.candidate_id p)
      → IsSound codec n (record s {
        elections = set s.elections k (take_reply p reply (s.peer e.args.candidate_id) e);
      })
  hears-IsSound s p k e reply v h m a vote = record {
    identity = v.identity;
    durable = v.durable;
    binds = v.binds;
    once = v.once;
    led = v.led;
    fair = λ j x get.
        let rf = s.peer e.args.candidate_id in
        elim (get_elem?-set_cases s.elections k j (take_reply p reply rf e) x get) [
          | inr old ↦ v.fair j x old
          | inl new ↦
              let before = v.fair k e m in
              subst (IsFair codec n s.ballots) (sym new) (
                take_reply-IsFair codec n p reply rf e s.ballots h
                  (v.identity e.args.candidate_id before.0).1 a vote before)
        ];
  }

  pub Move-IsSound : (s s' : Cluster C) → IsSound codec n s → Move codec n s s' → IsSound codec n s'
  Move-IsSound s s' v (stands i now args rf h e same) =
      subst (IsSound codec n) (sym same) (stands-IsSound s i now args rf v h e)
  Move-IsSound s s' v (answers p now k e reply rf h m asked same) =
      subst (IsSound codec n) (sym same) (answers-IsSound s p now k e reply rf v h asked)
  Move-IsSound s s' v (hears p k e reply h m a vote same) =
      subst (IsSound codec n) (sym same) (hears-IsSound s p k e reply v h m a vote)
  Move-IsSound s s' v (wins k e m won same) = subst (IsSound codec n) (sym same) (
      changed-IsSound s e.args.candidate_id _ s.ballots v
        (wins-Change codec n s e v (v.fair k e m) won))
  Move-IsSound s s' v (acts i rf l h o same) = subst (IsSound codec n) (sym same) (
      changed-IsSound s i rf s.ballots v
        (Keeps-Change codec n s i rf v h (Live-Keeps codec l) (Live-Stays codec l o)))
  Move-IsSound s s' v (crashes i now h same) =
      subst (IsSound codec n) (sym same)
        (changed-IsSound s i _ s.ballots v (crash-Change codec n s i now v h))

  pub new_cluster-IsSound : (now : ℕ) → IsSound codec n (new_cluster codec n now)
  new_cluster-IsSound now = record {
    identity = λ i h. let (_, me, peers) = make_role codec now n i make_persister in (me, peers);
    durable = λ i h. make-IsDurable codec now n i make_persister;
    binds = λ b m. absurd m;
    once = λ a b ma mb. absurd ma;
    fair = λ k e m. absurd (cc);
    led = λ i h l. absurd (ground (arith, make_role codec now n i make_persister));
  }

  pub Run-IsSound : (s s' : Cluster C) → IsSound codec n s → Run codec n s s' → IsSound codec n s'
  Run-IsSound s s' v here = v
  Run-IsSound s s' v (then_move {t} run move) = Move-IsSound t s' (Run-IsSound s t v run) move

  -- In a cluster whose peers start with empty persisters, whatever messages are lost, late or out
  -- of order and whichever peers crash and restart: two peers that lead in the same term are one.
  pub one_leader_per_term :
      (now : ℕ) (s : Cluster C)
      → Run codec n (new_cluster codec n now) s
      → (i j : ℕ) → i < n
      → j < n
      → (s.peer i).state ≡ leader
      → (s.peer j).state ≡ leader
      → (s.peer i).curr_term ≡ (s.peer j).curr_term
      → i ≡ j
  one_leader_per_term now s run i j hi hj li lj same =
      let v = Run-IsSound (new_cluster codec n now) s (new_cluster-IsSound now) run in
      let t = (s.peer i).curr_term in
      let (ps, sp, mp) = v.led i hi li in
      let (qs, sq, mq) = subst (λ x. HasMajority n s.ballots x j) (sym same) (v.led j hj lj) in
      let (p, _, vi, vj) =
        Peers-meet (HasVote s.ballots t i) (HasVote s.ballots t j) n ps qs sp sq (omega arith) in
      v.once _ _ vi vj refl refl
