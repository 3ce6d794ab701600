-- ===== src/Client/Requests.antt =====
-- `Client::Impl` (ppcnn/ppcnn_client/ppcnn_client.cpp): the buffers that are sent, and what is read of the
-- answers.
use pp_cnn.Prelude.{ℕ, ◌+◌, Bool, true, false, Option, List, [], ◌∷◌, length, Result, ok, ◌>>=◌}
use pp_cnn.Share.Streams.{Bytes, BufferStream, stream_over}
use pp_cnn.Share.PlainData
use pp_cnn.Share.EncData
use pp_cnn.Share.SealUtility.{
  stream_size, saved, write_to_binary_stream, read_from_binary_stream, write_plain, read_plain,
}
use pp_cnn.Share.Messages.{
  Wire, C2SEnckeyParam, C2SQueryParam, C2SResreqParam, Srv2CliParam, ServerCalcResult, result_nil,
  result_success, result_failed,
}

-- `s2c_param.result == kServerCalcResultSuccess`
unfoldable pub is_success : ServerCalcResult → Bool
is_success result_nil = false
is_success result_success = true
is_success result_failed = false

module _ (wire : Wire) where
  open wire use {
    Params, PublicKey, RelinKeys, Ciphertext, ComputationParams, params, public_key, relin_keys,
    ciphertext, enckey_param, query_param, resreq_param, result_param, query_id, blank,
  }

  unfoldable pub enckey_message : Params → (key_id : ℕ) → PublicKey → RelinKeys → C2SEnckeyParam
  enckey_message enc_params key_id pubkey relinkey = record {
    key_id = key_id;
    enc_params_stream_sz = stream_size params enc_params;
    pubkey_stream_sz = stream_size public_key pubkey;
    relinkey_stream_sz = stream_size relin_keys relinkey;
  }

  -- `register_enckeys`, up to the buffer that it sends
  unfoldable pub register_enckeys : Params → (key_id : ℕ) → PublicKey → RelinKeys → Result Bytes
  unfolding enckey_message
  register_enckeys enc_params key_id pubkey relinkey =
      let c2s_param = enckey_message enc_params key_id pubkey relinkey in
      let sz =
        PlainData.stream_size enckey_param (c2s_param ∷ [])
        + c2s_param.enc_params_stream_sz
        + c2s_param.pubkey_stream_sz
        + c2s_param.relinkey_stream_sz in
      do
        s ← write_plain enckey_param (c2s_param ∷ []) (stream_over (blank sz))
        s ← write_to_binary_stream (saved params enc_params) true s
        s ← write_to_binary_stream (saved public_key pubkey) true s
        s ← write_to_binary_stream (saved relin_keys relinkey) true s
        ok s.buffer

  unfoldable pub query_message :
      (key_id : ℕ) → ComputationParams → List Ciphertext → C2SQueryParam ComputationParams
  query_message key_id comp_params enc_inputs = record {
    comp_params = comp_params;
    enc_inputs_stream_sz = length (EncData.save ciphertext enc_inputs).0;
    key_id = key_id;
  }

  -- `send_query`, up to the buffer that it sends
  unfoldable pub send_query : (key_id : ℕ) → ComputationParams → List Ciphertext → Result Bytes
  unfolding query_message
  send_query key_id comp_params enc_inputs =
      let c2s_param = query_message key_id comp_params enc_inputs in
      let sz =
        PlainData.stream_size query_param (c2s_param ∷ []) + c2s_param.enc_inputs_stream_sz in
      do
        s ← write_plain query_param (c2s_param ∷ []) (stream_over (blank sz))
        s ← write_to_binary_stream (EncData.save ciphertext enc_inputs) true s
        ok s.buffer

  -- the rest of `send_query`: the identifier in the answer
  unfoldable pub recv_query_id : Bytes → Result (Option ℕ)
  recv_query_id rbuffer = do
    (vec, s) ← read_plain query_id (stream_over rbuffer)
    PlainData.first vec

  -- `recv_results`, up to the buffer that it sends
  unfoldable pub request_results : (query_id : ℕ) → Result Bytes
  request_results id =
      let c2s_param : C2SResreqParam = record { query_id = id } in
      let sz = PlainData.stream_size resreq_param (c2s_param ∷ []) in
      do s ← write_plain resreq_param (c2s_param ∷ []) (stream_over (blank sz)); ok s.buffer

  -- `enc_results`, read if the status is a success; its `vdata()` is called for the log.
  unfoldable pub recv_ctxts :
      Params → Bool → Srv2CliParam → BufferStream → Result (Bool × List Ciphertext)
  recv_ctxts enc_params false s2c_param s = ok (false, [])
  recv_ctxts enc_params true s2c_param s = do
    (enc_results, s) ←
        read_from_binary_stream (EncData.load ciphertext enc_params) s2c_param.enc_results_stream_sz
          true s
    vec ← PlainData.vdata enc_results
    ok (true, vec)

  -- the rest of `recv_results`: the status and the results in the answer
  unfoldable pub recv_results : Params → Bytes → Result (Bool × List Ciphertext)
  unfolding is_success recv_ctxts
  recv_results enc_params rbuffer = do
    (vec, s) ← read_plain result_param (stream_over rbuffer)
    s2c_param ← PlainData.first vec
    recv_ctxts enc_params (is_success s2c_param.result) s2c_param s

  -- `ResultThread::Impl::exec`: what the callback function is called with, or what is recorded.
  unfoldable pub result_thread : Params → Bytes → Result (Bool × List Ciphertext)
  unfolding recv_results
  result_thread enc_params rbuffer = do
    (status, enc_results) ← recv_results enc_params rbuffer
    ctxts ← PlainData.vdata enc_results
    ok (status, ctxts)
