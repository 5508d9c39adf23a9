-- ===== src/Codec.antt =====
-- src/fronta/codec.py: what a stored value may hold, and how an error is cut to its cap.
pub mod Text
pub mod Truncate
pub mod Check
pub mod Examples
