-- ===== src/Raft/Snapshots.antt =====
-- raft/raft.go: `Snapshot`, called by the service, and `InstallSnapshot`, called by the leader.
use ai_fs.Prelude.{
  ℕ, suc, ◌+◌, max, ◌&&◌, Option, none, some, List, [], ◌∷◌, ◌++◌, drop, length, ltb, leb, ◌==◌,
  if◌then◌else◌, ◌>>=◌,
}
use ai_fs.Raft.Persister.{Bytes, save_state_and_snapshot}
use ai_fs.Raft.State.{
  LogEntry, Raft, Codec, Persistent, persistent, snapshot_msg, get_physical_index,
  get_logical_index, log_at,
}
use ai_fs.Raft.AppendEntries.{follow}

pub record InstallSnapshotArgs : Type 0 where
  pub term : ℕ
  pub leader_id : ℕ
  pub last_included_index : ℕ
  pub last_included_term : ℕ
  pub snapshot : Bytes

module _ {C : Type 0} where
  -- The first entry of a trimmed log has the term of the last entry that the snapshot covers.
  abbrev pub base_entry : ℕ → LogEntry C
  base_entry term = record { term = term; command = none }

  -- The search for the entry at `lastIncludedIndex`, from physical index `i` on: the last one found.
  unfoldable pub find_split : Raft C → (index term i : ℕ) → List (LogEntry C) → Option ℕ → Option ℕ
  unfolding get_logical_index
  find_split rf index term i [] found = found
  find_split rf index term i (entry ∷ entries) found =
      find_split rf index term (i + 1) entries
        (if get_logical_index i rf == index && entry.term == term then some i else found)

  -- The log that stays behind the snapshot.
  unfoldable pub split_logs : Option ℕ → ℕ → List (LogEntry C) → List (LogEntry C)
  split_logs none term logs = base_entry term ∷ []
  split_logs (some i) term logs = base_entry term ∷ drop (suc i) logs

module _ {C : Type 0} (codec : Codec (Persistent C)) where
  -- The state and the snapshot are saved together.
  unfoldable pub save_with_snapshot : Bytes → Raft C → Raft C
  unfolding save_state_and_snapshot
  save_with_snapshot snap rf = record rf {
    persister = save_state_and_snapshot (codec.encode (persistent rf)) snap rf.persister;
  }

  -- `Snapshot`. An index beyond the log is a panic.
  unfoldable pub snapshot : ℕ → Bytes → Raft C → Option (Raft C)
  unfolding save_with_snapshot get_physical_index
  snapshot index snap rf = if leb index rf.last_included_index then some rf else (do
    entry ← log_at index rf
    let later =
        if ltb (get_physical_index index rf + 1) (length rf.logs)
        then drop (get_physical_index (index + 1) rf) rf.logs
        else []
    some (
        save_with_snapshot snap (record rf {
          last_included_term = entry.term;
          logs = base_entry entry.term ∷ later;
          last_included_index = index;
          last_applied = max index rf.last_applied;
        })))

  -- The part of `InstallSnapshot` behind the checks: the new state, and the message to the service.
  unfoldable pub install : InstallSnapshotArgs → Raft C → Raft C
  unfolding save_with_snapshot
  install args rf =
      let split = find_split rf args.last_included_index args.last_included_term 0 rf.logs none in
      let rf' : Raft C = save_with_snapshot args.snapshot (record rf {
        logs = split_logs split args.last_included_term rf.logs;
        curr_term = args.term;
        last_included_index = args.last_included_index;
        last_included_term = args.last_included_term;
        commit_index = max args.last_included_index rf.commit_index;
        last_applied = max args.last_included_index rf.last_applied;
      }) in
      record rf' {
        apply_ch =
            rf'.apply_ch
            ++ (snapshot_msg args.snapshot args.last_included_term args.last_included_index ∷ []);
      }

  -- `InstallSnapshot`, with the term of its reply.
  unfoldable pub install_snapshot : ℕ → InstallSnapshotArgs → Raft C → Raft C × ℕ
  unfolding install
  install_snapshot now args rf =
      if ltb args.term rf.curr_term
      then (rf, rf.curr_term)
      else (let rf' = follow codec now args.leader_id args.term rf in
          if leb args.last_included_index rf'.last_included_index
          then (rf', rf'.curr_term)
          else (install args rf', rf'.curr_term))
