-- ===== src/Seal.antt =====
-- The interface to SEAL and the rules that follow from it.
mod Interface
mod Rules
pub use Interface.*
pub use Rules.*
