-- ===== src/Raft/RequestVote.antt =====
-- raft/raft.go: `RequestVote`. The time at which a handler runs is its argument `now`.
use ai_fs.Prelude.{
  ℕ, Bool, true, false, ◌&&◌, ◌||◌, Option, none, some, ltb, leb, ◌==◌, if◌then◌else◌, ◌>>=◌,
}
use ai_fs.Raft.State.{
  LogEntry, Raft, follower, Codec, Persistent, last_logical_index, log_at, persist,
}

pub record RequestVoteArgs : Type 0 where
  pub term : ℕ
  pub candidate_id : ℕ
  pub last_log_index : ℕ
  pub last_log_term : ℕ

pub record RequestVoteReply : Type 0 where
  pub term : ℕ
  pub vote_granted : Bool

-- `rf.votedFor == -1 || rf.votedFor == args.CandidateId`
unfoldable pub is_vote_free : Option ℕ → ℕ → Bool
is_vote_free none id = true
is_vote_free (some v) id = v == id

-- The candidate's log is at least as up to date: its last term is higher, or the same with an
-- index as high.
unfoldable pub is_up_to_date : RequestVoteArgs → (last_term last_index : ℕ) → Bool
is_up_to_date args last_term last_index =
    ltb last_term args.last_log_term
    || (args.last_log_term == last_term && leb last_index args.last_log_index)

module _ {C : Type 0} (codec : Codec (Persistent C)) where
  -- A higher term makes the peer a follower of that term that has not voted.
  unfoldable pub adopt_term : ℕ → Raft C → Raft C
  unfolding persist
  adopt_term term rf =
      if ltb rf.curr_term term
      then persist codec (record rf { state = follower; voted_for = none; curr_term = term })
      else rf

  -- From `lastlog := …` on.
  decide_vote : ℕ → RequestVoteArgs → Raft C → LogEntry C → Raft C × RequestVoteReply
  unfolding persist is_up_to_date
  decide_vote now args rf lastlog =
      let rf' = persist codec (record rf { voted_for = some args.candidate_id }) in
      if is_up_to_date args lastlog.term (last_logical_index rf)
      then (
        record rf' { timer = now; state = follower },
        record { term = rf.curr_term; vote_granted = true },
      )
      else (rf, record { term = rf.curr_term; vote_granted = false })

  -- What follows the step to a higher term.
  answer_vote : ℕ → RequestVoteArgs → Raft C → Option (Raft C × RequestVoteReply)
  unfolding is_vote_free decide_vote
  answer_vote now args rf =
      let refused : Option (Raft C × RequestVoteReply) =
        some (rf, record { term = rf.curr_term; vote_granted = false }) in
      if ltb args.term rf.curr_term
      then refused
      else if is_vote_free rf.voted_for args.candidate_id
      then (do lastlog ← log_at (last_logical_index rf) rf; some (decide_vote now args rf lastlog))
      else refused

  unfoldable pub request_vote : ℕ → RequestVoteArgs → Raft C → Option (Raft C × RequestVoteReply)
  unfolding answer_vote adopt_term
  request_vote now args rf = answer_vote now args (adopt_term args.term rf)
