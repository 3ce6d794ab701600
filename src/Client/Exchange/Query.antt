-- ===== src/Client/Exchange/Query.antt =====
-- `send_query` and `CallbackFunctionQuery`.
use pp_cnn.Prelude.{ℕ, ◌^◌, ◌<◌, ◌≡◌, refl, Option, List, ◌∷◌, length, ok, ◌>>=◌}
use pp_cnn.Share.Streams.{size_width}
use pp_cnn.Share.PlainData
use pp_cnn.Share.EncData
use pp_cnn.Share.Messages.{Wire, EncryptionKeys}
use pp_cnn.Server.CalcManager.{push_query}
use pp_cnn.Server.KeyContainer.{get_keys}
use pp_cnn.Server.Callbacks.{Keymap, ServerQuery, ServerManager, answer_query, on_query}
use pp_cnn.Client.Requests.{query_message, send_query, recv_query_id}
use pp_cnn.Client.Exchange.Parts.{
  plain, plain_message, read_plain-plain, read_plain_alone, ctxts_message, read_ctxts,
}

module _ (wire : Wire) where
  open wire use {ciphertext, query_param, query_id, blank, Ciphertext}

  abbrev pub query_of :
      (key_id : ℕ)
      → wire.ComputationParams
      → List Ciphertext
      → EncryptionKeys wire
      → ServerQuery wire
  query_of key_id comp_params ctxts keys = record {
    key_id = key_id;
    params = comp_params;
    ctxts = ctxts;
    enc_keys = keys;
  }

  -- the answer to a query holds the identifier
  answer_query-plain : (id : Option ℕ) → answer_query wire id ≡ ok (plain query_id id)
  unfolding answer_query
  answer_query-plain id = plain_message query_id id (blank _) (wire.length-blank _)

  -- and the client reads it
  recv_query_id-plain :
      (id : Option ℕ) → query_id.Fits id → recv_query_id wire (plain query_id id) ≡ ok id
  unfolding recv_query_id PlainData.first
  recv_query_id-plain id fits = let (s, e) = read_plain_alone query_id id fits in rw e refl

  -- Where the struct and the identifier fit their fields, the key is registered, and the inputs are
  -- one or more ciphertexts that are valid under the parameters of that key, the server pushes just
  -- the query that the client was given, and the client receives the identifier of that push, or -1.
  pub send_query-on_query :
      (key_id : ℕ) (comp_params : wire.ComputationParams) (x : Ciphertext) (xs : List Ciphertext)
      (keys : EncryptionKeys wire) (uuid : ℕ) (keymap : Keymap wire) (m : ServerManager wire)
      → query_param.Fits (query_message wire key_id comp_params (x ∷ xs))
      → query_id.Fits (push_query uuid (query_of key_id comp_params (x ∷ xs) keys) m).0
      → get_keys key_id keymap ≡ ok keys
      → length (x ∷ xs) < 256 ^ size_width
      → EncData.AllValid ciphertext keys.params (x ∷ xs)
      → (do
        buffer ← send_query wire key_id comp_params (x ∷ xs)
        (m', rbuffer) ← on_query wire uuid buffer keymap m
        id ← recv_query_id wire rbuffer
        ok (id, m'))
        ≡ ok (push_query uuid (query_of key_id comp_params (x ∷ xs) keys) m)
  unfolding send_query on_query query_message PlainData.first PlainData.vdata
  send_query-on_query key_id comp_params x xs keys uuid keymap m fits fits_id registered small
        valid =
      let c2s = query_message wire key_id comp_params (x ∷ xs) in
      let bytes = (EncData.save ciphertext (x ∷ xs)).0 in
      let sent =
        ctxts_message query_param c2s ciphertext (x ∷ xs) (blank _) (wire.length-blank _) in
      let (s, e, u) = read_plain-plain query_param c2s bytes fits in
      let (s', e') = read_ctxts ciphertext (x ∷ xs) keys.params s small valid u in
      rw (sent, e, registered, e', answer_query-plain, recv_query_id-plain _ fits_id) refl
