-- ===== src/Worker.antt =====
-- worker/backend.go, worker/pool.go and worker/server.go: the node that does the inference.
pub mod Backend
pub mod Pool
pub mod Owners
pub mod Answers
pub mod Server
pub mod Launch
pub mod Enrolment
mod Tests
mod LaunchTests
