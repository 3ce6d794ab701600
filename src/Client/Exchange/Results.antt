-- ===== src/Client/Exchange/Results.antt =====
-- `recv_results`, the thread that waits for a result (ppcnn/ppcnn_client/ppcnn_client_result_thread.cpp),
-- and `CallbackFunctionResultRequest` with the loop of `CalcManager::pop_result`.
use pp_cnn.Prelude.{
  ℕ, zero, suc, ◌^◌, ◌<◌, ◌≡◌, refl, true, none, some, List, ◌∷◌, ◌++◌, arith, length, ok, ◌>>=◌,
}
use pp_cnn.Share.Streams.{Bytes, size_width}
use pp_cnn.Share.PlainData
use pp_cnn.Share.EncData
use pp_cnn.Share.Messages.{Wire, EncryptionKeys}
use pp_cnn.Server.CalcManager.{Manager, CalcResult, try_pop_result}
use pp_cnn.Server.KeyContainer.{get_keys}
use pp_cnn.Server.Callbacks.{
  Keymap, ServerManager, pop_result, calc_result, result_message, answer_result, answer_popped,
  on_result_request,
}
use pp_cnn.Client.Requests.{is_success, request_results, recv_ctxts, recv_results, result_thread}
use pp_cnn.Client.Exchange.Parts.{
  plain, plain_message, read_plain-plain, read_plain_alone, ctxts_message, read_ctxts,
}

module _ {Q R : Type 0} where
  -- The loop ends in the first round in which the result is there, given that many rounds.
  pub pop_result-first :
      (k rounds id : ℕ) (at : ℕ → Manager Q R) (r : R × Manager Q R)
      → k < rounds
      → ((j : ℕ) → j < k → try_pop_result id (at j) ≡ none)
      → try_pop_result id (at k) ≡ some r
      → pop_result rounds id at ≡ some r
  unfolding pop_result
  pop_result-first k zero id at r lt before found = absurd (omega arith)
  pop_result-first zero (suc rounds) id at r lt before found = rw (pop_result, found) refl
  pop_result-first (suc k) (suc rounds) id at r lt before found =
      rw (pop_result, before 0 (omega arith))
        (pop_result-first k rounds id (λ j. at (suc j)) r (omega arith)
          (λ j h. before (suc j) (omega arith)) found)

module _ (wire : Wire) where
  open wire use {ciphertext, resreq_param, result_param, blank, Ciphertext}

  -- the answer to the request, for a result of a registered key
  answer_result-parts :
      (result : CalcResult Ciphertext) (keys : EncryptionKeys wire) (keymap : Keymap wire)
      → get_keys result.key_id keymap ≡ ok keys
      → answer_result wire result keymap
        ≡ ok (
            plain result_param (result_message wire result)
            ++ (EncData.save ciphertext result.ctxts).0)
  unfolding answer_result
  answer_result-parts result keys keymap registered = rw registered (
      ctxts_message result_param (result_message wire result) ciphertext result.ctxts (blank _)
        (wire.length-blank _))

  module _ (id k rounds : ℕ) (at : ℕ → ServerManager wire) (result : CalcResult Ciphertext)
      (m : ServerManager wire) (keys : EncryptionKeys wire) (keymap : Keymap wire)
      (fits_id : resreq_param.Fits (record { query_id = id })) (lt : k < rounds)
      (before : (j : ℕ) → j < k → try_pop_result id (at j) ≡ none)
      (found : try_pop_result id (at k) ≡ some (result, m))
      (registered : get_keys result.key_id keymap ≡ ok keys) where
    -- the server answers, and removes the result
    answered :
        (request_results wire id >>= λ buffer. on_result_request wire rounds at buffer keymap)
        ≡ ok (
            some (
              m,
              plain result_param (result_message wire result)
                  ++ (EncData.save ciphertext result.ctxts).0,
            ))
    unfolding request_results on_result_request PlainData.first answer_popped
    answered =
        let sent =
          plain_message resreq_param (record { query_id = id }) (blank _) (wire.length-blank _) in
        let (s, e) = read_plain_alone resreq_param (record { query_id = id }) fits_id in
        let popped = pop_result-first k rounds id at (result, m) lt before found in
        rw (sent, e, popped, answer_result-parts result keys keymap registered) refl

-- A result of one or more ciphertexts that the server has computed.
abbrev pub succeeded : {C : Type 0} → (key_id query_id : ℕ) → List C → ℕ → CalcResult C
succeeded key_id query_id ctxts time = record {
  key_id = key_id;
  query_id = query_id;
  status = true;
  ctxts = ctxts;
  created_time = time;
}

module _ (wire : Wire) (id k rounds : ℕ) (at : ℕ → ServerManager wire) (m : ServerManager wire)
    (keys : EncryptionKeys wire) (keymap : Keymap wire) where
  open wire use {ciphertext, resreq_param, result_param, Ciphertext}

  -- The result of a query is first in the queue in the round `k` of the loop of the server, and the
  -- loop is given more rounds. Then the server answers, without that result in its queue, and the
  -- callback function of the client is called with success and with just the ciphertexts of the
  -- result. The conditions: the structs fit their fields, the key of the result is registered, and
  -- the result has one or more ciphertexts, which are valid under the parameters of the client.
  pub request_results-result_thread :
      (enc_params : wire.Params) (key_id time : ℕ) (x : Ciphertext) (xs : List Ciphertext)
      → resreq_param.Fits (record { query_id = id })
      → result_param.Fits (result_message wire (succeeded key_id id (x ∷ xs) time))
      → length (x ∷ xs) < 256 ^ size_width
      → EncData.AllValid ciphertext enc_params (x ∷ xs)
      → get_keys key_id keymap ≡ ok keys
      → k < rounds
      → ((j : ℕ) → j < k → try_pop_result id (at j) ≡ none)
      → try_pop_result id (at k) ≡ some (succeeded key_id id (x ∷ xs) time, m)
      → (rbuffer : Bytes) × ((request_results wire id >>= λ buffer.
            on_result_request wire rounds at buffer keymap)
          ≡ ok (some (m, rbuffer)))
        × (result_thread wire enc_params rbuffer ≡ ok (true, x ∷ xs))
  unfolding result_thread result_message calc_result is_success recv_ctxts PlainData.first
      PlainData.vdata
  request_results-result_thread enc_params key_id time x xs fits_id fits small valid registered lt
        before found =
      let result = succeeded key_id id (x ∷ xs) time in
      let bytes = (EncData.save ciphertext (x ∷ xs)).0 in
      let (s, e, u) = read_plain-plain result_param (result_message wire result) bytes fits in
      let (s', e') = read_ctxts ciphertext (x ∷ xs) enc_params s small valid u in
      (
        _,
        answered wire id k rounds at result m keys keymap fits_id lt before found registered,
        rw (recv_results, e, e') refl,
      )
