-- ===== src/Kvraft.antt =====
-- kvraft/: the replicated key-value service on top of a Raft peer.
pub mod Common
pub mod StateMachine
pub mod Applier
pub mod Handlers
pub mod Once
pub mod Replicas
pub mod Agreement
pub mod Runtime
pub mod Spec
pub mod Legal
pub mod Http
pub mod Requests
pub mod HttpIds
pub mod Clerk
pub mod Retries
pub mod Channels
pub mod Codings
mod Tests
mod LegalTests
mod AgreementTests
