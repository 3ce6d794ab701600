-- ===== src/Share/Messages.antt =====
-- The structs of the messages (ppcnn/ppcnn_share/ppcnn_cli2srvparam.hpp, ppcnn_srv2cliparam.hpp), and what
-- the messages stand on: the types of SEAL and how they are saved, the representation of the structs
-- in memory, and a fresh `stdsc::BufferStream`. The socket of stdsc delivers the buffers as they are.
use pp_cnn.Prelude.{ℕ, ◌≡◌, Option, length}
use pp_cnn.Share.Streams.{Bytes, Raw, Codec}

pub record C2SEnckeyParam : Type 0 where
  pub key_id : ℕ
  pub enc_params_stream_sz : ℕ
  pub pubkey_stream_sz : ℕ
  pub relinkey_stream_sz : ℕ

-- with the type of `comp_params` as a parameter
pub record C2SQueryParam (ComputationParams : Type 0) : Type 0 where
  pub comp_params : ComputationParams
  pub enc_inputs_stream_sz : ℕ
  pub key_id : ℕ

pub record C2SResreqParam : Type 0 where
  pub query_id : ℕ

pub data ServerCalcResult : Type 0 where
  result_nil result_success result_failed : ServerCalcResult

pub record Srv2CliParam : Type 0 where
  pub result : ServerCalcResult
  pub enc_results_stream_sz : ℕ

pub record Wire : Type 1 where
  pub Params : Type 0
  pub PublicKey : Type 0
  pub RelinKeys : Type 0
  pub Ciphertext : Type 0
  pub ComputationParams : Type 0
  pub params : Codec (Unit {0}) Params
  pub public_key : Codec Params PublicKey
  pub relin_keys : Codec Params RelinKeys
  pub ciphertext : Codec Params Ciphertext
  pub enckey_param : Raw C2SEnckeyParam
  pub query_param : Raw (C2SQueryParam ComputationParams)
  pub resreq_param : Raw C2SResreqParam
  pub result_param : Raw Srv2CliParam
  -- `int32_t`, where `none` is -1
  pub query_id : Raw (Option ℕ)
  -- the bytes of a buffer of this size
  pub blank : ℕ → Bytes
  pub length-blank : (n : ℕ) → length (blank n) ≡ n

-- `EncryptionKeys` (ppcnn/ppcnn_server/ppcnn_server_keycontainer.hpp)
pub record EncryptionKeys (wire : Wire) : Type 0 where
  pub params : wire.Params
  pub pubkey : wire.PublicKey
  pub relinkey : wire.RelinKeys
