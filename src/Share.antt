-- ===== src/Share.antt =====
-- What the client and the server share (ppcnn/ppcnn_share): the streams of bytes, the data that are
-- saved to them, the texts and the configuration file.
pub mod Streams
pub mod PlainData
pub mod EncData
pub mod SealUtility
pub mod Messages
pub mod Utility
pub mod Config
