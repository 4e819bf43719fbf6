-- ===== src/Gateway.antt =====
-- gateway/: the entry for users' chat requests, and the two queues by which they reach a worker.
pub mod Prompt
pub mod Pipeline
pub mod Places
pub mod Results
pub mod Work
pub mod Progress
pub mod Calls
pub mod Service
mod Tests
mod ServiceTests
