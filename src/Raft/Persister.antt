-- ===== src/Raft/Persister.antt =====
-- raft/persister.go: the stable storage of a peer, which holds the encoded Raft state and the
-- snapshot of the service. `clone` copies bytes, so on values it is the identity.
use ai_fs.Prelude.{ℕ, List, [], length}

-- A `[]byte`, one number for a byte.
abbrev pub Bytes : Type 0
Bytes = List ℕ

pub record Persister : Type 0 where
  pub raftstate : Bytes
  pub snapshot : Bytes

unfoldable pub make_persister : Persister
make_persister = record { raftstate = []; snapshot = [] }

unfoldable pub save_raft_state : Bytes → Persister → Persister
save_raft_state state ps = record ps { raftstate = state }

unfoldable pub read_raft_state : Persister → Bytes
read_raft_state ps = ps.raftstate

unfoldable pub raft_state_size : Persister → ℕ
raft_state_size ps = length ps.raftstate

-- Both parts are written under one lock.
unfoldable pub save_state_and_snapshot : Bytes → Bytes → Persister → Persister
save_state_and_snapshot state data' ps = record { raftstate = state; snapshot = data' }

unfoldable pub read_snapshot : Persister → Bytes
read_snapshot ps = ps.snapshot
