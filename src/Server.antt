-- ===== src/Server.antt =====
-- src/fronta/server/: the operations that REST and MCP share, the statuses of their errors, and the middleware
-- in front of them.
pub mod Service
pub mod Enqueue
pub mod Paging
pub mod Cancelling
pub mod Gates
pub mod Examples
