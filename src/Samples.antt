-- ===== src/Samples.antt =====
-- Concrete instances, for the examples: an implementation of the interface to SEAL in which a
-- ciphertext is its message, and runs of the modelled code on small inputs.
pub mod Ideal
pub mod Layers
pub mod Queues
pub mod Systems
pub mod Units
pub mod Pools
pub mod Models
pub mod Normalizations
pub mod Folded
pub mod Wires
pub mod Messages
pub mod Keys
pub mod Texts
pub mod Trials
