-- ===== src/Raft/Valid.antt =====
-- What holds of every peer at every moment, and that it makes its accesses to the log safe.
pub mod Handlers
pub mod Leader
pub mod Runs
use ai_fs.Prelude.{
  ℕ, zero, suc, ◌+◌, ◌-◌, ◌≤◌, ◌<◌, ◌≡◌, Option, none, some, List, [], ◌∷◌, ◌++◌, take, length,
  get_elem?, arith, get_elem?_total, leb, Bool-cases, Returns, Option-cases, inl, inr,
}
use ai_fs.Raft.State.{
  Raft, LogEntry, Codec, Persistent, log_at, last_logical_index, get_physical_index,
}
use ai_fs.Raft.AppendEntries.{sync_logs}

module _ {C : Type 0} where
  abbrev pub head_term : List (LogEntry C) → Option ℕ
  head_term [] = none
  head_term (entry ∷ entries) = some entry.term

  -- The log begins with the last entry of the snapshot, which is committed and applied, and there
  -- is a place for every peer.
  pub record IsValid (rf : Raft C) : Type 0 where
    pub base : head_term rf.logs ≡ some rf.last_included_term
    pub included_applied : rf.last_included_index ≤ rf.last_applied
    pub included_committed : rf.last_included_index ≤ rf.commit_index
    pub nexts : length rf.next_index ≡ rf.peers
    pub matches : length rf.match_index ≡ rf.peers

  length-pos_of_head :
      (logs : List (LogEntry C)) {t : ℕ} → head_term logs ≡ some t → 0 < length logs
  length-pos_of_head [] h = ground arith
  length-pos_of_head (e ∷ es) h = omega arith

  pub nonempty : (rf : Raft C) → IsValid rf → 0 < length rf.logs
  nonempty rf v = length-pos_of_head rf.logs v.base

  pub log_at_total :
      (i : ℕ) (rf : Raft C)
      → IsValid rf
      → rf.last_included_index ≤ i
      → i ≤ last_logical_index rf
      → (entry : LogEntry C) × (log_at i rf ≡ some entry)
  unfolding log_at last_logical_index
  log_at_total i rf v h k =
      let (e, p) =
        get_elem?_total rf.logs (i - rf.last_included_index) (omega (arith, nonempty rf v)) in
      (e, ground arith)
