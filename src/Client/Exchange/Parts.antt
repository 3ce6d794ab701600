-- ===== src/Client/Exchange/Parts.antt =====
-- A message of a `PlainData` of one struct, alone or followed by the ciphertexts of an `EncData`.
use mathlib.Core.List.{append-nil}
use pp_cnn.Prelude.{
  ◌+◌, ◌^◌, ◌<◌, ◌≡◌, refl, sym, subst, ap, ◌∙◌, List, [], ◌∷◌, ◌++◌, arith, length, true, ok,
  ◌>>=◌,
}
use pp_cnn.Share.Streams.{Bytes, Raw, Codec, size_width, BufferStream, stream_over}
use pp_cnn.Share.Streams.Positions.{Written, Unread, Written-start, Written-full, Unread-start}
use pp_cnn.Share.PlainData
use pp_cnn.Share.EncData
use pp_cnn.Share.SealUtility.{
  write_to_binary_stream, read_from_binary_stream, write_plain, read_plain,
}
use pp_cnn.Share.SealUtility.Transfer.{
  write_to_binary_stream-Written, write_plain-Written, Reads, read_plain-Unread,
  read_from_binary_stream-Unread,
}

module _ {A : Type 0} (raw : Raw A) (x : A) where
  abbrev pub plain : Bytes
  plain = PlainData.written (PlainData.save raw (x ∷ []))

  pub plain_message :
      (blank : Bytes)
      → length blank ≡ PlainData.stream_size raw (x ∷ [])
      → (write_plain raw (x ∷ []) (stream_over blank) >>= λ s. ok s.buffer) ≡ ok plain
  plain_message blank size =
      let start =
        Written-start blank (PlainData.stream_size raw (x ∷ []) + 0) (omega (arith, size)) in
      let (s, e, w) = write_plain-Written raw (x ∷ []) [] 0 (stream_over blank) start in
      rw e (ap ok (Written-full plain s w))

  pub read_plain-plain :
      (rest : Bytes)
      → raw.Fits x
      → Reads (read_plain raw (stream_over (plain ++ rest))) (x ∷ []) rest
  read_plain-plain rest fits =
      read_plain-Unread raw x rest (stream_over (plain ++ rest)) fits (Unread-start (plain ++ rest))

  -- the same, of a message with nothing behind
  pub read_plain_alone :
      raw.Fits x → (s : BufferStream) × (read_plain raw (stream_over plain) ≡ ok (x ∷ [], s))
  read_plain_alone fits =
      let (s, e, u) = read_plain-plain [] fits in
      (s, subst (λ b. read_plain raw (stream_over b) ≡ ok (x ∷ [], s)) (append-nil plain) e)

  module _ {Context Ciphertext : Type 0} (codec : Codec Context Ciphertext)
      (ctxts : List Ciphertext) where
    pub ctxts_message :
        (blank : Bytes)
        → length blank ≡ PlainData.stream_size raw (x ∷ []) + length (EncData.save codec ctxts).0
        → (write_plain raw (x ∷ []) (stream_over blank) >>= λ s.
            write_to_binary_stream (EncData.save codec ctxts) true s >>= λ s. ok s.buffer)
          ≡ ok (plain ++ (EncData.save codec ctxts).0)
    ctxts_message blank size =
        let bytes = (EncData.save codec ctxts).0 in
        let start =
          Written-start blank (PlainData.stream_size raw (x ∷ []) + (length bytes + 0))
            (omega (arith, size)) in
        let (s, e, w) =
          write_plain-Written raw (x ∷ []) [] (length bytes + 0) (stream_over blank) start in
        let returned = EncData.save-length codec ctxts in
        let room =
          subst (λ n. Written plain (n + 0) s) {x = length bytes} {y = (EncData.save codec ctxts).1}
            (sym returned) w in
        let (s', e', w') =
          write_to_binary_stream-Written plain bytes (EncData.save codec ctxts).1 0 s returned
            room in
        rw (e, e') (ap ok (Written-full (plain ++ bytes) s' w'))

module _ {Context Ciphertext : Type 0} (codec : Codec Context Ciphertext)
    (ctxts : List Ciphertext) where
  -- the ciphertexts that follow are loaded in a context for which they are valid
  pub read_ctxts :
      (context : Context) (s : BufferStream)
      → length ctxts < 256 ^ size_width
      → EncData.AllValid codec context ctxts
      → Unread (EncData.save codec ctxts).0 s
      → (s' : BufferStream) × (read_from_binary_stream
            (EncData.load codec context)
            (length (EncData.save codec ctxts).0)
            true
            s
          ≡ ok (ctxts, s'))
  read_ctxts context s small valid u =
      let bytes = (EncData.save codec ctxts).0 in
      let whole : EncData.load codec context bytes ≡ ok (ctxts, length bytes) =
        rw append-nil at (EncData.load-save codec context ctxts [] small valid)
        ∙ ap (λ n. ok (ctxts, n)) (EncData.save-length codec ctxts) in
      let (s', e, u') =
        read_from_binary_stream-Unread (EncData.load codec context) ctxts bytes [] (length bytes) s
          refl whole (subst (λ b. Unread b s) (sym (append-nil bytes)) u) in
      (s', e)
