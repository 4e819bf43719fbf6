-- ===== src/Raft/Votes.antt =====
-- A peer gives its vote to one candidate in a term.
use ai_fs.Prelude.{ℕ, ◌≤◌, ◌≡◌, refl, ◌∙◌, sym, subst, true, some, arith}
use ai_fs.Raft.Persister.{make_persister}
use ai_fs.Raft.State.{Raft, Codec, Persistent, persistent, log_at}
use ai_fs.Raft.RequestVote.{RequestVoteArgs, RequestVoteReply, request_vote}
use ai_fs.Raft.Lifetime.{make}
use ai_fs.Raft.Keeps.{Keeps, request_vote-Keeps}
use ai_fs.Raft.Steps.{Live, Live-Keeps, Step, live, restarted, Steps, here, then_step}
use ai_fs.Raft.Durability.{IsDurable, make_recovers, make-IsDurable, Steps-IsDurable}

-- The term does not fall, and in the same term a vote stays.
pub record KeepsVote {C : Type 0} (rf rf' : Raft C) : Type 0 where
  pub term : rf.curr_term ≤ rf'.curr_term
  pub vote : (c : ℕ) → rf'.curr_term ≡ rf.curr_term → rf.voted_for ≡ some c → rf'.voted_for ≡ some c

module _ {C : Type 0} (codec : Codec (Persistent C)) where
  KeepsVote-trans : {a b c : Raft C} → KeepsVote a b → KeepsVote b c → KeepsVote a c
  KeepsVote-trans h k = record {
    term = omega arith;
    vote = λ i e v. ground (arith, h.vote i, k.vote i);
  }

  same-KeepsVote : (rf rf' : Raft C) → persistent rf' ≡ persistent rf → KeepsVote rf rf'
  same-KeepsVote rf rf' e = ground arith

  pub Step-KeepsVote : {rf rf' : Raft C} → IsDurable codec rf → Step codec rf rf' → KeepsVote rf rf'
  Step-KeepsVote d (live l) = let k = Live-Keeps codec l in record { term = k.term; vote = k.vote }
  Step-KeepsVote {rf} d (restarted now e) = subst (KeepsVote rf) (sym e) (
      same-KeepsVote rf (make codec now rf.peers rf.me rf.persister)
        (make_recovers codec now rf.peers rf.me rf.persister ∙ d))

  -- From a state whose persister is up to date, any steps, crashes among them, keep the vote.
  pub Steps-KeepsVote :
      {rf rf' : Raft C} → IsDurable codec rf → Steps codec rf rf' → KeepsVote rf rf'
  Steps-KeepsVote {rf} d here = same-KeepsVote rf rf refl
  Steps-KeepsVote d (then_step steps step) =
      KeepsVote-trans (Steps-KeepsVote d steps)
        (Step-KeepsVote (Steps-IsDurable codec steps d) step)

  -- A granted vote is noted for the term of the request.
  pub granted_noted :
      (now : ℕ) (args : RequestVoteArgs) (reply : RequestVoteReply) (rf rf' : Raft C)
      → request_vote codec now args rf ≡ some (rf', reply)
      → reply.vote_granted ≡ true
      → (rf'.curr_term ≡ args.term) × (rf'.voted_for ≡ some args.candidate_id)
  unfolding request_vote log_at
  granted_noted now args reply rf rf' h g = ground arith

  -- A peer that grants its vote twice in one term, with any steps and crashes in between, grants it
  -- to the same candidate.
  pub one_vote_per_term :
      (start_time peers me t1 t2 : ℕ) (a b : RequestVoteArgs) (ra rb : RequestVoteReply)
      (s0 s1 s2 s3 : Raft C)
      → Steps codec (make codec start_time peers me make_persister) s0
      → request_vote codec t1 a s0 ≡ some (s1, ra)
      → ra.vote_granted ≡ true
      → Steps codec s1 s2
      → request_vote codec t2 b s2 ≡ some (s3, rb)
      → rb.vote_granted ≡ true
      → a.term ≡ b.term
      → a.candidate_id ≡ b.candidate_id
  one_vote_per_term start_time peers me t1 t2 a b ra rb s0 s1 s2 s3 before ea ga between eb gb
        same =
      ground (
        arith,
        granted_noted t1 a ra s0 s1,
        granted_noted t2 b rb s2 s3,
        kept.term,
        kept.vote a.candidate_id,
        again.term,
        again.vote a.candidate_id,
      )
    where
      durable : IsDurable codec s1
      durable =
          Steps-IsDurable codec (then_step before (live (Live.asked_for_vote t1 a ra ea)))
            (make-IsDurable codec start_time peers me make_persister)

      kept : KeepsVote s1 s2
      kept = Steps-KeepsVote durable between

      again : Keeps codec s2 s3
      again = request_vote-Keeps codec t2 b rb s2 s3 eb
