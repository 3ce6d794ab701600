-- ===== src/Client/Exchange/Keys.antt =====
-- `register_enckeys` and `CallbackFunctionEncryptionKeys`.
use mathlib.Core.List.{append_assoc, append-nil}
use pp_cnn.Prelude.{ℕ, ◌+◌, ◌≡◌, refl, subst, ap, [], ◌∷◌, ◌++◌, arith, length, ok, ◌>>=◌}
use pp_cnn.Share.Streams.{Bytes, stream_over}
use pp_cnn.Share.Streams.Positions.{Unread, Written-start, Written-full, Unread-start}
use pp_cnn.Share.PlainData
use pp_cnn.Share.SealUtility.{stream_size}
use pp_cnn.Share.SealUtility.Transfer.{
  write_to_binary_stream-Written, write_plain-Written, read_plain-Unread, read_loaded-Unread,
  load-save_all,
}
use pp_cnn.Share.Messages.{Wire}
use pp_cnn.Server.KeyContainer.{register_keys}
use pp_cnn.Server.Callbacks.{Keymap, on_encryption_keys}
use pp_cnn.Client.Requests.{enckey_message, register_enckeys}

module _ (wire : Wire) (enc_params : wire.Params) (key_id : ℕ) (pubkey : wire.PublicKey)
    (relinkey : wire.RelinKeys) where
  open wire use {params, public_key, relin_keys, enckey_param, blank}

  -- the parts of the message
  abbrev header : Bytes
  header =
      PlainData.written
        (PlainData.save enckey_param (enckey_message wire enc_params key_id pubkey relinkey ∷ []))

  -- The buffer has the size that was computed for it, and holds the parts one after the other.
  register_enckeys-parts :
      register_enckeys wire enc_params key_id pubkey relinkey
      ≡ ok (header ++ params.save enc_params ++ public_key.save pubkey ++ relin_keys.save relinkey)
  unfolding register_enckeys enckey_message
  register_enckeys-parts =
      let c2s = enckey_message wire enc_params key_id pubkey relinkey in
      let a = PlainData.stream_size enckey_param (c2s ∷ []) in
      let b = stream_size params enc_params in
      let c = stream_size public_key pubkey in
      let d = stream_size relin_keys relinkey in
      let start =
        Written-start (blank (a + b + c + d)) (a + (b + (c + (d + 0))))
          (omega (arith, wire.length-blank (a + b + c + d))) in
      let (s, e, w) = write_plain-Written enckey_param (c2s ∷ []) [] (b + (c + (d + 0))) _ start in
      let (s', e', w') =
        write_to_binary_stream-Written header (params.save enc_params) b (c + (d + 0)) s refl w in
      let (s'', e'', w'') =
        write_to_binary_stream-Written _ (public_key.save pubkey) c (d + 0) s' refl w' in
      let (s''', e''', w''') =
        write_to_binary_stream-Written _ (relin_keys.save relinkey) d 0 s'' refl w'' in
      rw (e, e', e'', e''') (ap ok (Written-full _ s''' w'''))

  -- Where the sizes fit their fields and the keys belong to the parameters, the server registers
  -- under the key identifier exactly the parameters and the keys that the client was given.
  pub register_enckeys-on_encryption_keys :
      (keymap : Keymap wire)
      → enckey_param.Fits (enckey_message wire enc_params key_id pubkey relinkey)
      → params.IsValidFor tt enc_params
      → public_key.IsValidFor enc_params pubkey
      → relin_keys.IsValidFor enc_params relinkey
      → (register_enckeys wire enc_params key_id pubkey relinkey >>= λ buffer.
          on_encryption_keys wire buffer keymap)
        ≡ ok (
            register_keys key_id
              (record { params = enc_params; pubkey = pubkey; relinkey = relinkey })
              keymap)
  unfolding on_encryption_keys PlainData.first enckey_message
  register_enckeys-on_encryption_keys keymap fits valid valid_pubkey valid_relinkey =
      let c2s = enckey_message wire enc_params key_id pubkey relinkey in
      let P = params.save enc_params in
      let K = public_key.save pubkey in
      let R = relin_keys.save relinkey in
      let buffer = header ++ P ++ K ++ R in
      let split : buffer ≡ header ++ (P ++ (K ++ (R ++ []))) =
        simp (append_assoc, append-nil) refl in
      let start = subst (λ b. Unread b (stream_over buffer)) split (Unread-start buffer) in
      let (s1, e1, u1) =
        read_plain-Unread enckey_param c2s (P ++ (K ++ (R ++ []))) (stream_over buffer) fits
          start in
      let (s2, e2, u2) =
        read_loaded-Unread (params.load tt) enc_params P (K ++ (R ++ [])) (length P) s1 refl
          (load-save_all params tt enc_params valid) u1 in
      let (s3, e3, u3) =
        read_loaded-Unread (public_key.load enc_params) pubkey K (R ++ []) (length K) s2 refl
          (load-save_all public_key enc_params pubkey valid_pubkey) u2 in
      let (s4, e4, u4) =
        read_loaded-Unread (relin_keys.load enc_params) relinkey R [] (length R) s3 refl
          (load-save_all relin_keys enc_params relinkey valid_relinkey) u3 in
      rw (register_enckeys-parts, e1, e2, e3, e4) refl
