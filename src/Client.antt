-- ===== src/Client.antt =====
-- The client (ppcnn/ppcnn_client): the messages that it sends and reads, and its keys.
pub mod KeyFiles
pub mod KeyContainer
pub mod Requests
pub mod Exchange
