-- ===== src/Raft/Cluster.antt =====
-- raft/raft.go: the peers of a cluster together, and their elections. A vote is asked for and
-- given by RPC; all other messages may bring anything at any time, so they are steps of one peer
-- with arguments of their own. Messages are lost, late and out of order, and peers crash.
use ai_fs.Prelude.{
  ℕ, ◌<◌, ◌≡◌, Bool, true, false, ◌||◌, if◌then◌else◌, ◌==◌, some, List, [], ◌∷◌, ◌++◌, Among,
  get_elem?, set,
}
use ai_fs.Raft.Persister.{make_persister}
use ai_fs.Raft.State.{Raft, Codec, Persistent}
use ai_fs.Raft.RequestVote.{RequestVoteArgs, RequestVoteReply, request_vote}
use ai_fs.Raft.Election.{
  Tally, stopped, elected, counted, start_election, count_vote, become_leader,
}
use ai_fs.Raft.Lifetime.{make}
use ai_fs.Raft.Steps.{Live}
pub mod Stays
pub mod Ballots
pub mod Sound
pub mod Moves
pub mod Safety
pub mod Sample
mod Tests

-- A vote that was given: by RPC, or by a candidate to itself.
pub record Ballot : Type 0 where
  pub voter : ℕ
  pub term : ℕ
  pub candidate : ℕ

-- The goroutines of one `startElection`: the request that they send, the variable `votes` that they
-- share, the peers whose goroutine has had its reply, and whether one calls `becomeLeader`.
pub record Election : Type 0 where
  pub args : RequestVoteArgs
  pub votes : ℕ
  pub answered : ℕ → Bool
  pub won : Bool

-- `ballots` are the votes given so far, of which a reply may still be under way.
pub record Cluster (C : Type 0) : Type 0 where
  pub peer : ℕ → Raft C
  pub elections : List Election
  pub ballots : List Ballot

abbrev pub put {ℓ} : {A : Type ℓ} → ℕ → A → (ℕ → A) → ℕ → A
put i v f j = if j == i then v else f j

-- The candidate has its own vote, and asks the others only.
abbrev pub opened : RequestVoteArgs → Election
opened args = record {
  args = args;
  votes = 1;
  answered = put args.candidate_id true (λ _. false);
  won = false;
}

abbrev pub is_elected : Tally → Bool
is_elected elected = true
is_elected stopped = false
is_elected counted = false

-- The goroutine for peer `p` counts its reply, at candidate `rf`.
abbrev pub take_reply : {C : Type 0} → (p : ℕ) → RequestVoteReply → Raft C → Election → Election
take_reply p reply rf e =
    let (votes, tally) = count_vote e.args.term reply e.votes rf in
    record e { votes = votes; answered = put p true e.answered; won = e.won || is_elected tally }

-- The steps of one peer but those of an election, which stand in `Move`.
abbrev pub IsOther :
    {C : Type 0} {codec : Codec (Persistent C)} {rf rf' : Raft C} → Live codec rf rf' → Type 0
IsOther (Live.asked_for_vote _ _ _ _) = ⊥
IsOther (Live.stood _ _ _) = ⊥
IsOther (Live.won _ _) = ⊥
IsOther _ = Unit {0}

module _ {C : Type 0} (codec : Codec (Persistent C)) (n : ℕ) where
  pub data Move (s s' : Cluster C) : Type 0 where
    stands :
        (i now : ℕ) (args : RequestVoteArgs) (rf : Raft C)
        → i < n
        → start_election codec now (s.peer i) ≡ some (rf, args)
        → s' ≡ record {
          peer = put i rf s.peer;
          elections = opened args ∷ s.elections;
          ballots =
              record { voter = i; term = args.term; candidate = args.candidate_id } ∷ s.ballots;
        }
        → Move s s'
    -- Peer `p` handles the request of election `k`.
    answers :
        (p now k : ℕ) (e : Election) (reply : RequestVoteReply) (rf : Raft C)
        → p < n
        → get_elem? s.elections k ≡ some e
        → request_vote codec now e.args (s.peer p) ≡ some (rf, reply)
        → s' ≡ record s {
          peer = put p rf s.peer;
          ballots =
              (if reply.vote_granted
                then record { voter = p; term = e.args.term; candidate = e.args.candidate_id }
                  ∷ s.ballots
                else s.ballots);
        }
        → Move s s'
    -- A goroutine of election `k` has its reply. Only a vote that `p` gave is granted: a call that
    -- fails leaves the zero reply.
    hears :
        (p k : ℕ) (e : Election) (reply : RequestVoteReply)
        → p < n
        → get_elem? s.elections k ≡ some e
        → e.answered p ≡ false
        → (reply.vote_granted ≡ true
            → Among
                (record { voter = p; term = e.args.term; candidate = e.args.candidate_id })
                s.ballots)
        → s' ≡ record s {
          elections = set s.elections k (take_reply p reply (s.peer e.args.candidate_id) e);
        }
        → Move s s'
    wins :
        (k : ℕ) (e : Election)
        → get_elem? s.elections k ≡ some e
        → e.won ≡ true
        → s' ≡ record s {
          peer =
              put e.args.candidate_id
                (become_leader e.args.term (s.peer e.args.candidate_id))
                s.peer;
        }
        → Move s s'
    acts :
        (i : ℕ) (rf : Raft C) (l : Live codec (s.peer i) rf)
        → i < n
        → IsOther l
        → s' ≡ record s { peer = put i rf s.peer }
        → Move s s'
    crashes :
        (i now : ℕ)
        → i < n
        → s' ≡ record s {
          peer = put i (make codec now (s.peer i).peers (s.peer i).me (s.peer i).persister) s.peer;
        }
        → Move s s'

  pub data Run (s : Cluster C) : Cluster C → Type 0 where
    here : Run s s
    then_move : {t u : Cluster C} → Run s t → Move t u → Run s u

  -- All peers are new, with empty persisters.
  abbrev pub new_cluster : (now : ℕ) → Cluster C
  new_cluster now = record {
    peer = λ i. make codec now n i make_persister;
    elections = [];
    ballots = [];
  }
