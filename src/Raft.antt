-- ===== src/Raft.antt =====
-- raft/: one Raft peer. `Persister` and `State` hold its data; the handlers, the leader's side and
-- the lifetime of a peer follow, and then what is proved of them.
pub mod Persister
pub mod State
pub mod RequestVote
pub mod AppendEntries
pub mod Snapshots
pub mod Election
pub mod Replication
pub mod Lifetime
pub mod Keeps
pub mod Steps
pub mod Durability
pub mod Votes
pub mod Valid
pub mod Logs
pub mod Quorum
pub mod Commit
pub mod Delivery
pub mod Stale
pub mod Cluster
pub mod Network
pub mod Plain
mod Tests
