-- ===== src/Raft/Cluster/Sample.antt =====
-- An election in a cluster of three, as an example.
use ai_fs.Prelude.{◌≡◌, refl, true, false, some, none, [], ◌∷◌, arith, inl}
use ai_fs.Raft.Persister.{make_persister}
use ai_fs.Raft.State.{
  Codec, Persistent, Raft, candidate, follower, leader, log_at, last_logical_index, read_persist,
}
use ai_fs.Raft.RequestVote.{RequestVoteArgs, RequestVoteReply, request_vote}
use ai_fs.Raft.Election.{start_election, become_leader, count_vote, reset_next}
use ai_fs.Raft.Lifetime.{make}
use ai_fs.Raft.Cluster.{
  Election, Cluster, put, opened, take_reply, Move, stands, answers, hears, wins, Run, here,
  then_move, new_cluster,
}

module _ {C : Type 0} (codec : Codec (Persistent C)) where
  abbrev pub standing : Raft C
  standing = record {
    peers = 3;
    persister = record {
      raftstate = codec.encode (record {
        curr_term = 1;
        voted_for = some 0;
        logs = record { term = 0; command = none } ∷ [];
        last_included_index = 0;
        last_included_term = 0;
      });
      snapshot = [];
    };
    me = 0;
    dead = false;
    curr_leader = 0;
    curr_term = 1;
    voted_for = some 0;
    state = candidate;
    logs = record { term = 0; command = none } ∷ [];
    apply_ch = [];
    timer = 4;
    last_included_index = 0;
    last_included_term = 0;
    commit_index = 0;
    last_applied = 0;
    next_index = 0 ∷ 0 ∷ 0 ∷ [];
    match_index = 0 ∷ 0 ∷ 0 ∷ [];
  }

  abbrev pub asking : RequestVoteArgs
  asking = record { term = 1; candidate_id = 0; last_log_index = 0; last_log_term = 0 }

  -- Peer 1 after it has voted for peer 0.
  abbrev pub voter : Raft C
  voter = record standing { me = 1; state = follower; timer = 5 }

  abbrev pub granted : RequestVoteReply
  granted = record { term = 1; vote_granted = true }

  abbrev pub s0 : Cluster C
  s0 = new_cluster codec 3 0

  abbrev pub s1 : Cluster C
  s1 = record {
    peer = put 0 standing s0.peer;
    elections = opened asking ∷ [];
    ballots = record { voter = 0; term = 1; candidate = 0 } ∷ [];
  }

  abbrev pub s2 : Cluster C
  s2 = record s1 {
    peer = put 1 voter s1.peer;
    ballots = record { voter = 1; term = 1; candidate = 0 } ∷ s1.ballots;
  }

  abbrev pub decided : Election
  decided = record (opened asking) {
    votes = 2;
    answered = put 1 true (opened asking).answered;
    won = true;
  }

  abbrev pub s3 : Cluster C
  s3 = record s2 { elections = decided ∷ [] }

  abbrev pub leading : Raft C
  leading = record standing { state = leader; next_index = 0 ∷ 1 ∷ 1 ∷ [] }

  abbrev pub s4 : Cluster C
  s4 = record s3 { peer = put 0 leading s3.peer }

  pub stood : start_election codec 4 (s0.peer 0) ≡ some (standing, asking)
  unfolding start_election make make_persister read_persist log_at last_logical_index
  stood = refl

  pub answered : request_vote codec 5 asking (s1.peer 1) ≡ some (voter, granted)
  unfolding request_vote make make_persister read_persist log_at last_logical_index
  answered = refl

  pub heard : take_reply 1 granted standing (opened asking) ≡ decided
  unfolding count_vote
  heard = refl

  pub became : become_leader 1 standing ≡ leading
  unfolding become_leader last_logical_index reset_next
  became = refl

  abbrev pub first : Move codec 3 s0 s1
  first = stands 0 4 asking standing (omega arith) stood refl

  abbrev pub second : Move codec 3 s1 s2
  second = answers 1 5 0 (opened asking) granted voter (omega arith) refl answered refl

  abbrev pub third : Move codec 3 s2 s3
  third = hears 1 0 (opened asking) granted (omega arith) refl refl (λ _. inl refl) (rw heard refl)

  abbrev pub fourth : Move codec 3 s3 s4
  fourth = wins 0 decided refl refl (rw became refl)

  pub election : Run codec 3 s0 s4
  election = then_move (then_move (then_move (then_move here first) second) third) fourth
