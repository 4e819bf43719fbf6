-- ===== src/Raft/Lifetime.antt =====
-- raft/raft.go: `Make`, `Kill`, and `sendApplyMsg`, which hands committed entries to the service.
use ai_fs.Prelude.{
  ℕ, zero, suc, ◌+◌, Bool, true, false, Option, none, some, [], ◌∷◌, ◌++◌, length, replicate, ltb,
  if◌then◌else◌, ◌>>=◌,
}
use ai_fs.Raft.Persister.{Persister, read_raft_state, read_snapshot}
use ai_fs.Raft.State.{
  Raft, follower, Codec, Persistent, command_msg, snapshot_msg, skip_included, last_logical_index,
  log_at, read_persist,
}

module _ {C : Type 0} where
  -- The struct that `Make` starts from, at time `now`.
  unfoldable pub fresh_raft : (now peers me : ℕ) → Persister → Raft C
  fresh_raft now peers me persister = record {
    peers = peers;
    persister = persister;
    me = me;
    dead = false;
    curr_leader = 0;
    curr_term = 0;
    voted_for = none;
    state = follower;
    logs = record { term = 0; command = none } ∷ [];
    apply_ch = [];
    timer = now;
    last_included_index = 0;
    last_included_term = 0;
    commit_index = 0;
    last_applied = 0;
    next_index = replicate peers 0;
    match_index = replicate peers 0;
  }

  -- A saved snapshot is handed to the service first.
  offer_snapshot : Raft C → Raft C
  unfolding read_snapshot
  offer_snapshot rf =
      if ltb 0 (length (read_snapshot rf.persister))
      then record rf {
        apply_ch =
            rf.apply_ch
            ++ (snapshot_msg (read_snapshot rf.persister) rf.last_included_term
                  rf.last_included_index
                ∷ []);
      }
      else rf

  unfoldable pub make : Codec (Persistent C) → (now peers me : ℕ) → Persister → Raft C
  unfolding fresh_raft offer_snapshot skip_included read_raft_state
  make codec now peers me persister = offer_snapshot (
      skip_included
        (read_persist codec (read_raft_state persister) (fresh_raft now peers me persister)))

  unfoldable pub kill : Raft C → Raft C
  kill rf = record rf { dead = true }

  -- One round of the inner loop of `sendApplyMsg`; the flag says that the loop goes on.
  unfoldable pub apply_one : Raft C → Option (Raft C × Bool)
  apply_one rf =
      if ltb rf.last_applied rf.commit_index
      then if ltb (last_logical_index rf) (rf.last_applied + 1) then some (rf, false) else (do
        entry ← log_at (rf.last_applied + 1) rf
        some (
          record rf {
            last_applied = rf.last_applied + 1;
            apply_ch = rf.apply_ch ++ (command_msg entry.command (rf.last_applied + 1) ∷ []);
          },
          true,
        ))
      else some (rf, false)

  -- The inner loop, when nothing comes between its rounds; `commitIndex - lastApplied` rounds are
  -- enough.
  unfoldable pub send_apply_msg : ℕ → Raft C → Option (Raft C)
  send_apply_msg zero rf = some rf
  send_apply_msg (suc fuel) rf = elim (apply_one rf) [
    | none ↦ none
    | some (rf', again) ↦ elim again [ true ↦ send_apply_msg fuel rf' | false ↦ some rf' ]
  ]
