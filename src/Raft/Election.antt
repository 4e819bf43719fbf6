-- ===== src/Raft/Election.antt =====
-- raft/raft.go: `ticker`, `startElection`, the handling of its replies, and `becomeLeader`. An
-- election runs in goroutines, which take the lock anew for each part: a part is one function here.
use ai_fs.Prelude.{
  ℕ, zero, suc, ◌+◌, ◌-◌, ◌/◌, Bool, true, false, not, ◌&&◌, ◌||◌, Option, none, some, List, set,
  ltb, ◌==◌, if◌then◌else◌, ◌>>=◌,
}
use ai_fs.Raft.State.{
  Raft, Role, leader, candidate, follower, Codec, Persistent, is_leader, last_logical_index, log_at,
  persist,
}
use ai_fs.Raft.RequestVote.{RequestVoteArgs, RequestVoteReply}

unfoldable pub is_candidate : Role → Bool
is_candidate candidate = true
is_candidate _ = false

-- What becomes of a reply once its vote is counted.
pub data Tally : Type 0 where
  stopped : Tally  -- the election is over: the goroutine returns
  elected : Tally  -- a majority: `becomeLeader` is called, then the reply's term is looked at
  counted : Tally  -- the reply's term is looked at

-- `nextIndex` of every peer but this one, from peer `left - 1` down.
unfoldable pub reset_next : (left me next : ℕ) → List ℕ → List ℕ
reset_next zero me next indexes = indexes
reset_next (suc peer) me next indexes =
    reset_next peer me next (if peer == me then indexes else set indexes peer next)

module _ {C : Type 0} where
  -- The test of `ticker`, at time `now`.
  unfoldable pub needs_election : (now timeout : ℕ) → Raft C → Bool
  unfolding is_leader
  needs_election now timeout rf = not (is_leader rf) && ltb timeout (now - rf.timer)

  -- The first half of the handling of a reply: `votes` is shared by the goroutines of an election.
  unfoldable pub count_vote : (start_term : ℕ) → RequestVoteReply → ℕ → Raft C → ℕ × Tally
  unfolding is_candidate
  count_vote start_term reply votes rf =
      if not (is_candidate rf.state) || not (rf.curr_term == start_term)
      then (votes, stopped)
      else if reply.vote_granted
      then (votes + 1, (if ltb (rf.peers / 2) (votes + 1) then elected else counted))
      else (votes, counted)

  unfoldable pub become_leader : (election_term : ℕ) → Raft C → Raft C
  unfolding is_candidate
  become_leader election_term rf =
      if not (is_candidate rf.state) || not (election_term == rf.curr_term) then rf else record rf {
        state = leader;
        next_index = reset_next rf.peers rf.me (last_logical_index rf + 1) rf.next_index;
      }

module _ {C : Type 0} (codec : Codec (Persistent C)) where
  -- The request for votes goes to every other peer; the election starts with one vote, its own.
  unfoldable pub start_election : ℕ → Raft C → Option (Raft C × RequestVoteArgs)
  unfolding persist
  start_election now rf = do
    let rf' = persist codec (record rf {
      curr_term = rf.curr_term + 1;
      voted_for = some rf.me;
      timer = now;
      state = candidate;
    })
    entry ← log_at (last_logical_index rf') rf'
    some (
      rf',
      record {
        term = rf'.curr_term;
        candidate_id = rf'.me;
        last_log_index = last_logical_index rf';
        last_log_term = entry.term;
      },
    )

  -- The second half of the handling of a reply: a higher term ends the candidacy.
  unfoldable pub observe_term : ℕ → Raft C → Raft C
  unfolding persist
  observe_term term rf =
      if ltb rf.curr_term term
      then persist codec (record rf { curr_term = term; state = follower; voted_for = none })
      else rf
