-- ===== src/Sandbox.antt =====
-- src/fronta/sandbox.py: process handles, the sandbox process, its outputs, worker ids and the scavenger.
pub mod Pidfd
pub mod Output
pub mod Process
pub mod Identity
pub mod Scavenger
pub mod Command
pub mod Abort
pub mod Examples
