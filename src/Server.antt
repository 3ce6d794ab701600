-- ===== src/Server.antt =====
-- The server (ppcnn/ppcnn_server): the queues, the manager of the calculations, the keys, and the
-- threads that take queries and leave results.
pub mod MapQueue
pub mod CalcManager
pub mod System
pub mod KeyContainer
pub mod CalcThread
pub mod Callbacks
