-- ===== src/Server/Callbacks.antt =====
-- The callback functions of the server
-- (ppcnn/ppcnn_server/ppcnn_server_callback_function.cpp): what each reads from the buffer of a request,
-- what it does with the manager and the keys, and the buffer that it answers. The files that
-- `ENABLE_LOCAL_DEBUG` writes are left out.
use pp_cnn.Prelude.{
  ℕ, zero, suc, ◌+◌, Bool, true, false, Option, none, some, List, [], ◌∷◌, length, Result, ok,
  ◌>>=◌,
}
use pp_cnn.Share.Streams.{Bytes, stream_over}
use pp_cnn.Share.PlainData
use pp_cnn.Share.EncData
use pp_cnn.Share.SealUtility.{
  write_to_binary_stream, read_from_binary_stream, read_loaded, write_plain, read_plain,
}
use pp_cnn.Share.Messages.{
  Wire, EncryptionKeys, ServerCalcResult, result_success, result_failed, Srv2CliParam,
}
use pp_cnn.Server.KeyContainer.{register_keys, get_keys}
use pp_cnn.Server.CalcManager.{Query, CalcResult, Manager, push_query, try_pop_result}

-- `CalcManager::pop_result`: after so many rounds of its loop, the result, or none yet. In the round
-- `k` the manager is `at k`, as the other threads have left it.
unfoldable pub pop_result : {Q R : Type 0} → ℕ → ℕ → (ℕ → Manager Q R) → Option (R × Manager Q R)
unfolding try_pop_result
pop_result zero id at = none
pop_result (suc rounds) id at = elim (try_pop_result id (at 0)) [
  | some r ↦ some r
  | none ↦ pop_result rounds id (λ k. at (suc k))
]

-- `result.status_ ? kServerCalcResultSuccess : kServerCalcResultFailed`
unfoldable pub calc_result : Bool → ServerCalcResult
calc_result true = result_success
calc_result false = result_failed

module _ (wire : Wire) where
  open wire use {
    Params, PublicKey, RelinKeys, Ciphertext, ComputationParams, params, public_key, relin_keys,
    ciphertext, enckey_param, query_param, resreq_param, result_param, query_id, blank,
  }

  -- the keys of the clients, and the manager of the calculations
  abbrev pub Keymap : Type 0
  Keymap = List (ℕ × EncryptionKeys wire)

  abbrev pub ServerQuery : Type 0
  ServerQuery = Query Ciphertext (EncryptionKeys wire) ComputationParams

  abbrev pub ServerManager : Type 0
  ServerManager = Manager ServerQuery (CalcResult Ciphertext)

  -- `CallbackFunctionEncryptionKeys`
  unfoldable pub on_encryption_keys : Bytes → Keymap → Result Keymap
  on_encryption_keys buffer keymap = do
    (vec, s) ← read_plain enckey_param (stream_over buffer)
    param ← PlainData.first vec
    (enc_params, s) ← read_loaded (params.load tt) param.enc_params_stream_sz true s
    (pubkey, s) ← read_loaded (public_key.load enc_params) param.pubkey_stream_sz true s
    (relinkey, s) ← read_loaded (relin_keys.load enc_params) param.relinkey_stream_sz true s
    ok (
        register_keys param.key_id
          (record { params = enc_params; pubkey = pubkey; relinkey = relinkey }) keymap)

  -- the answer to a query, from what `push_query` returns
  unfoldable pub answer_query : Option ℕ → Result Bytes
  answer_query id =
      let sz = PlainData.stream_size query_id (id ∷ []) in
      do s ← write_plain query_id (id ∷ []) (stream_over (blank sz)); ok s.buffer

  -- `CallbackFunctionQuery`: the manager afterwards, and the answer
  unfoldable pub on_query :
      (uuid : ℕ) → Bytes → Keymap → ServerManager → Result (ServerManager × Bytes)
  unfolding answer_query
  on_query uuid buffer keymap calc_manager = do
    (vec, s) ← read_plain query_param (stream_over buffer)
    param ← PlainData.first vec
    enc_keys ← get_keys param.key_id keymap
    (enc_inputs, s) ←
        read_from_binary_stream (EncData.load ciphertext enc_keys.params) param.enc_inputs_stream_sz
          true s
    ctxts ← PlainData.vdata enc_inputs
    let query : ServerQuery = record {
      key_id = param.key_id;
      params = param.comp_params;
      ctxts = ctxts;
      enc_keys = enc_keys;
    }
    answer ← answer_query (push_query uuid query calc_manager).0
    ok ((push_query uuid query calc_manager).1, answer)

  unfoldable pub result_message : CalcResult Ciphertext → Srv2CliParam
  unfolding calc_result
  result_message result = record {
    result = calc_result result.status;
    enc_results_stream_sz = length (EncData.save ciphertext result.ctxts).0;
  }

  -- the answer to a request, from the result that was popped
  unfoldable pub answer_result : CalcResult Ciphertext → Keymap → Result Bytes
  unfolding result_message
  answer_result result keymap =
      let s2c_param = result_message result in
      let sz =
        PlainData.stream_size result_param (s2c_param ∷ [])
        + length (EncData.save ciphertext result.ctxts).0 in
      do
        enc_keys ← get_keys result.key_id keymap
        s ← write_plain result_param (s2c_param ∷ []) (stream_over (blank sz))
        s ← write_to_binary_stream (EncData.save ciphertext result.ctxts) true s
        ok s.buffer

  -- what becomes of the outcome of `pop_result`
  unfoldable pub answer_popped :
      Option (CalcResult Ciphertext × ServerManager)
      → Keymap
      → Result (Option (ServerManager × Bytes))
  unfolding answer_result
  answer_popped none keymap = ok none
  answer_popped (some (result, calc_manager)) keymap = do
    answer ← answer_result result keymap
    ok (some (calc_manager, answer))

  -- `CallbackFunctionResultRequest`, in the first rounds of the loop of `pop_result`: the manager
  -- afterwards and the answer, or `none`, where it still waits.
  unfoldable pub on_result_request :
      (rounds : ℕ) → (ℕ → ServerManager) → Bytes → Keymap → Result (Option (ServerManager × Bytes))
  unfolding answer_popped
  on_result_request rounds at buffer keymap = do
    (vec, s) ← read_plain resreq_param (stream_over buffer)
    param ← PlainData.first vec
    answer_popped (pop_result rounds param.query_id at) keymap
