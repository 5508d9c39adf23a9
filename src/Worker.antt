-- ===== src/Worker.antt =====
-- src/fronta/worker.py: the attempt controller, the completion queue, the lease renewals, the claim
-- loop, the retried writes and the shutdown. Times are microseconds of the monotonic clock.
pub mod Attempt
pub mod Completions
pub mod Writes
pub mod Examples
pub mod Claims
pub mod Renewals
pub mod Lifecycle
pub mod Drain
pub mod Context
pub mod Startup
