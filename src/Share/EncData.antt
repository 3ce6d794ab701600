-- ===== src/Share/EncData.antt =====
-- `EncData` (ppcnn/ppcnn_share/ppcnn_encdata.cpp), a vector of ciphertexts, and how it is saved. The
-- encryption parameters that it refers to give the context in which its ciphertexts are loaded.
use mathlib.Core.List.{append_assoc, append-nil}
use pp_cnn.Prelude.{
  ℕ, zero, suc, ◌+◌, ◌^◌, ◌<◌, ◌≡◌, refl, sym, ap, List, [], ◌∷◌, ◌++◌, arith, length, drop, Option,
  none, some, Result, ok, err, file_error, ◌>>=◌, length-append, ◌∙◌,
}
use pp_cnn.Share.Streams.{Bytes, word_bytes, word_value, size_width, read_bytes, Codec}
use pp_cnn.Share.Streams.Words.{
  length-word_bytes, word_value-word_bytes, read_bytes-append, drop-append,
}

module _ {Context Ciphertext : Type 0} (codec : Codec Context Ciphertext) where
  -- what the loop of `EncData::save` writes, and the sum in `saved_bytes`
  unfoldable pub save_each : List Ciphertext → Bytes
  save_each [] = []
  save_each (v ∷ vec) = codec.save v ++ save_each vec

  unfoldable pub saved_bytes : ℕ → List Ciphertext → ℕ
  saved_bytes n [] = n
  saved_bytes n (v ∷ vec) = saved_bytes (n + length (codec.save v)) vec

  -- `EncData::save`: the bytes, and the number that it returns
  unfoldable pub save : List Ciphertext → Bytes × ℕ
  save vec = (word_bytes size_width (length vec) ++ save_each vec, saved_bytes size_width vec)

  -- the loop of `EncData::load`
  unfoldable pub load_each : Context → ℕ → ℕ → Bytes → Result (List Ciphertext × ℕ)
  load_each context zero loaded s = ok ([], loaded)
  load_each context (suc n) loaded s = do
    (ctxt, sz) ← codec.load context s
    (vec, loaded) ← load_each context n (loaded + sz) (drop sz s)
    ok (ctxt ∷ vec, loaded)

  -- `EncData::load`: the vector, and the number that it returns
  unfoldable pub load : Context → Bytes → Result (List Ciphertext × ℕ)
  unfolding load_each
  load context s = do
    (bytes, s) ← read_bytes size_width s
    load_each context (word_value bytes) size_width s

  -- `EncData::save_to_file`, what the file holds afterwards
  unfoldable pub save_to_file : List Ciphertext → Option Bytes
  unfolding save
  save_to_file vec = some (save vec).0

  -- `EncData::load_from_file`, for a file that is missing or has these bytes
  unfoldable pub load_from_file : Context → Option Bytes → Result (List Ciphertext)
  unfolding load
  load_from_file context none = err file_error
  load_from_file context (some bytes) = do (vec, loaded) ← load context bytes; ok vec

  abbrev pub AllValid : Context → List Ciphertext → Type 0
  AllValid context [] = Unit
  AllValid context (v ∷ vec) = codec.IsValidFor context v × AllValid context vec

  saved_bytes-length :
      (n : ℕ) (vec : List Ciphertext) → saved_bytes n vec ≡ n + length (save_each vec)
  unfolding saved_bytes save_each
  saved_bytes-length n [] = omega arith
  saved_bytes-length n (v ∷ vec) = omega (
    arith,
    length-append (codec.save v) (save_each vec),
    saved_bytes-length (n + length (codec.save v)) vec,
  )

  -- The number that `save` returns is that of the bytes that it writes.
  pub save-length : (vec : List Ciphertext) → (save vec).1 ≡ length (save vec).0
  unfolding save
  save-length vec = omega (
    arith,
    saved_bytes-length size_width vec,
    length-word_bytes size_width (length vec),
    length-append (word_bytes size_width (length vec)) (save_each vec),
  )

  load_each-save_each :
      (context : Context) (vec : List Ciphertext) (loaded : ℕ) (rest : Bytes)
      → AllValid context vec
      → load_each context (length vec) loaded (save_each vec ++ rest)
        ≡ ok (vec, loaded + length (save_each vec))
  unfolding load_each save_each
  load_each-save_each context [] loaded rest h =
      ap (λ n. ok ([], n)) {x = loaded} {y = loaded + 0} (omega arith)
  load_each-save_each context (v ∷ vec) loaded rest h =
      rw
        (
          append_assoc,
          codec.load-save context v (save_each vec ++ rest) h.0,
          drop-append,
          load_each-save_each context vec (loaded + length (codec.save v)) rest h.1,
        )
        (ap (λ n. ok (v ∷ vec, n)) {x = loaded + length (codec.save v) + length (save_each vec)}
          (omega (arith, length-append (codec.save v) (save_each vec))))

  -- Ciphertexts that are valid under the parameters are loaded as they were saved, whatever follows
  -- them in the stream, and `load` and `save` return the same number.
  pub load-save :
      (context : Context) (vec : List Ciphertext) (rest : Bytes)
      → length vec < 256 ^ size_width
      → AllValid context vec
      → load context ((save vec).0 ++ rest) ≡ ok (vec, (save vec).1)
  unfolding load save
  load-save context vec rest small h =
      let front : read_bytes size_width
            (word_bytes size_width (length vec) ++ (save_each vec ++ rest))
          ≡ ok (word_bytes size_width (length vec), save_each vec ++ rest) =
        rw (length-word_bytes size_width (length vec)) at
          (read_bytes-append (word_bytes size_width (length vec)) (save_each vec ++ rest)) in
      rw (append_assoc, front, word_value-word_bytes size_width (length vec) small)
        (load_each-save_each context vec size_width rest h
          ∙ ap (λ n. ok (vec, n)) (sym (saved_bytes-length size_width vec)))

  -- What `save_to_file` leaves in a file, `load_from_file` reads back; a missing file is refused.
  pub load_from_file-save_to_file :
      (context : Context) (vec : List Ciphertext)
      → length vec < 256 ^ size_width
      → AllValid context vec
      → (load_from_file context (save_to_file vec) ≡ ok vec)
        × (load_from_file context none ≡ err file_error)
  unfolding load_from_file save_to_file
  load_from_file-save_to_file context vec small h =
      let whole : load context (save vec).0 ≡ ok (vec, (save vec).1) =
        rw append-nil at (load-save context vec [] small h) in
      (rw whole refl, refl)
