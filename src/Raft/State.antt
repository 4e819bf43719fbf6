-- ===== src/Raft/State.antt =====
-- raft/raft.go: the state of a peer, its messages, the index arithmetic of its log, and `persist`.
-- Terms, indexes and peers are counted from 0; -1 stands for "none" in `votedFor` and
-- `ConflictTerm`, and is `none` here. An access out of range is a Go panic, and is `none` too.
use ai_fs.Prelude.{
  ℕ, ◌+◌, ◌-◌, ◌≡◌, ◌≢◌, Bool, true, false, Option, none, some, List, [], ◌∷◌, length, get_elem?,
  ltb, if◌then◌else◌,
}
use ai_fs.Raft.Persister.{Bytes, Persister, save_raft_state}

-- `command` is `none` for the nil command of the first entry.
pub record LogEntry (C : Type 0) : Type 0 where
  pub term : ℕ
  pub command : Option C

-- The numbers 0, 1 and 2 of `state`.
pub data Role : Type 0 where
  leader candidate follower : Role

-- `ApplyMsg`, by which of its two flags is set.
pub data ApplyMsg (C : Type 0) : Type 0 where
  command_msg : (command : Option C) (command_index : ℕ) → ApplyMsg C
  snapshot_msg : (snapshot : Bytes) (snapshot_term snapshot_index : ℕ) → ApplyMsg C

-- `apply_ch` lists the messages handed to the channel, the oldest first; `peers` is their number.
pub record Raft (C : Type 0) : Type 0 where
  pub peers : ℕ
  pub persister : Persister
  pub me : ℕ
  pub dead : Bool
  pub curr_leader : ℕ
  pub curr_term : ℕ
  pub voted_for : Option ℕ
  pub state : Role
  pub logs : List (LogEntry C)
  pub apply_ch : List (ApplyMsg C)
  pub timer : ℕ
  pub last_included_index : ℕ
  pub last_included_term : ℕ
  pub commit_index : ℕ
  pub last_applied : ℕ
  pub next_index : List ℕ
  pub match_index : List ℕ

-- What `persist` encodes, in its order.
pub record Persistent (C : Type 0) : Type 0 where
  pub curr_term : ℕ
  pub voted_for : Option ℕ
  pub logs : List (LogEntry C)
  pub last_included_index : ℕ
  pub last_included_term : ℕ

-- The encoding of labgob, which wraps encoding/gob: a decoder of what an encoder wrote gives the
-- values back, and an encoding is not empty.
pub record Codec {ℓ} (A : Type ℓ) : Type ℓ where
  pub encode : A → Bytes
  pub decode : Bytes → Option A
  pub decode-encode : (a : A) → decode (encode a) ≡ some a
  pub encode-ne-nil : (a : A) → encode a ≢ []

module _ {C : Type 0} where
  unfoldable pub get_physical_index : ℕ → Raft C → ℕ
  get_physical_index logical_index rf = logical_index - rf.last_included_index

  unfoldable pub get_logical_index : ℕ → Raft C → ℕ
  get_logical_index physical_index rf = physical_index + rf.last_included_index

  -- The log is never empty, so the subtraction does not stop at 0.
  unfoldable pub last_logical_index : Raft C → ℕ
  last_logical_index rf = rf.last_included_index + length rf.logs - 1

  -- `rf.logs[rf.getPhysicalIndex(i)]`: below `lastIncludedIndex` the physical index is negative.
  unfoldable pub log_at : ℕ → Raft C → Option (LogEntry C)
  unfolding get_physical_index
  log_at i rf =
      if ltb i rf.last_included_index then none else get_elem? rf.logs (get_physical_index i rf)

  abbrev pub persistent : Raft C → Persistent C
  persistent rf = record {
    curr_term = rf.curr_term;
    voted_for = rf.voted_for;
    logs = rf.logs;
    last_included_index = rf.last_included_index;
    last_included_term = rf.last_included_term;
  }

  unfoldable pub is_leader : Raft C → Bool
  is_leader rf = elim rf.state [ leader ↦ true | _ ↦ false ]

  -- `GetState`
  unfoldable pub get_state : Raft C → ℕ × Bool
  unfolding is_leader
  get_state rf = (rf.curr_term, is_leader rf)

  -- What `readPersist` takes from the decoded bytes; on an error it prints a line.
  restore : Option (Persistent C) → Raft C → Raft C
  restore none rf = rf
  restore (some p) rf = record rf {
    curr_term = p.curr_term;
    voted_for = p.voted_for;
    logs = p.logs;
    last_included_index = p.last_included_index;
    last_included_term = p.last_included_term;
  }

  -- The last `if` of `readPersist`, which `Make` repeats.
  unfoldable pub skip_included : Raft C → Raft C
  skip_included rf =
      if ltb 0 rf.last_included_index
      then record rf {
        commit_index = rf.last_included_index;
        last_applied = rf.last_included_index;
      }
      else rf

module _ {C : Type 0} (codec : Codec (Persistent C)) where
  unfoldable pub persist : Raft C → Raft C
  unfolding save_raft_state
  persist rf = record rf { persister = save_raft_state (codec.encode (persistent rf)) rf.persister }

  -- Empty data is no saved state: `readPersist` returns at once.
  unfoldable pub read_persist : Bytes → Raft C → Raft C
  unfolding restore skip_included
  read_persist [] rf = rf
  read_persist (b ∷ bs) rf = skip_included (restore (codec.decode (b ∷ bs)) rf)
