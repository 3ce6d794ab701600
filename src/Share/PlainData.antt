-- ===== src/Share/PlainData.antt =====
-- `BasicData` and `PlainData` (ppcnn/ppcnn_share/ppcnn_basicdata.hpp, ppcnn_plaindata.hpp): a vector of
-- values that is saved as its size and the bytes of each element.
use pp_cnn.Prelude.{
  ℕ, zero, suc, ◌+◌, ◌*◌, ◌^◌, ◌<◌, ◌≡◌, refl, sym, ap, Option, none, some, List, [], ◌∷◌, ◌++◌,
  arith, length, Result, ok, err, failure, ◌>>=◌, length-append, ◌∙◌,
}
use pp_cnn.Share.Streams.{Bytes, word_bytes, word_value, size_width, read_bytes, Raw}
use pp_cnn.Share.Streams.Words.{length-word_bytes, word_value-word_bytes, read_bytes-append}
use mathlib.Core.List.{append_assoc}

-- what a stream holds after a `save` to it
abbrev pub written : Option Bytes → Bytes
written none = []
written (some bytes) = bytes

module _ {A : Type 0} where
  -- `BasicData::data`
  unfoldable pub first : List A → Result A
  first [] = err failure
  first (x ∷ vec) = ok x

  -- `BasicData::vdata`
  unfoldable pub vdata : List A → Result (List A)
  vdata [] = err failure
  vdata (x ∷ vec) = ok (x ∷ vec)

  -- the writes of `for (const auto& v : vec_)`
  unfoldable pub write_all : Raw A → List A → Bytes
  write_all raw [] = []
  write_all raw (x ∷ vec) = raw.bytes x ++ write_all raw vec

  -- `PlainData::save`: what it writes; without elements it returns -1 and writes nothing.
  unfoldable pub save : Raw A → List A → Option Bytes
  save raw [] = none
  save raw (x ∷ vec) = some (word_bytes size_width (length (x ∷ vec)) ++ write_all raw (x ∷ vec))

  -- `BasicData::stream_size`
  unfoldable pub stream_size : Raw A → List A → ℕ
  unfolding save
  stream_size raw vec = length (written (save raw vec))

  -- the loop of `PlainData::load`, with the rest of the stream
  unfoldable pub load_all : Raw A → ℕ → Bytes → Result (List A × Bytes)
  load_all raw zero s = ok ([], s)
  load_all raw (suc n) s = do
    (bytes, s) ← read_bytes raw.width s
    (vec, s) ← load_all raw n s
    ok (raw.value bytes ∷ vec, s)

  -- `PlainData::load`
  unfoldable pub load : Raw A → Bytes → Result (List A × Bytes)
  unfolding load_all
  load raw s = do (bytes, s) ← read_bytes size_width s; load_all raw (word_value bytes) s

  length-write_all :
      (raw : Raw A) (vec : List A) → length (write_all raw vec) ≡ length vec * raw.width
  unfolding write_all
  length-write_all raw [] = omega arith
  length-write_all raw (x ∷ vec) = omega (
    arith,
    length-append (raw.bytes x) (write_all raw vec),
    raw.length-bytes x,
    length-write_all raw vec,
  )

  abbrev pub AllFit : Raw A → List A → Type 0
  AllFit raw [] = Unit
  AllFit raw (x ∷ vec) = raw.Fits x × AllFit raw vec

  read-bytes :
      (raw : Raw A) (x : A) (rest : Bytes)
      → read_bytes raw.width (raw.bytes x ++ rest) ≡ ok (raw.bytes x, rest)
  read-bytes raw x rest =
      ap (λ n. read_bytes n (raw.bytes x ++ rest)) {y = length (raw.bytes x)}
        (sym (raw.length-bytes x))
      ∙ read_bytes-append (raw.bytes x) rest

  load_all-write_all :
      (raw : Raw A) (vec : List A) (rest : Bytes)
      → AllFit raw vec
      → load_all raw (length vec) (write_all raw vec ++ rest) ≡ ok (vec, rest)
  unfolding load_all write_all
  load_all-write_all raw [] rest h = refl
  load_all-write_all raw (x ∷ vec) rest h =
      rw
        (
          append_assoc,
          read-bytes raw x (write_all raw vec ++ rest),
          load_all-write_all raw vec rest h.1,
          raw.value-bytes x h.0,
        )
        refl

  load_written :
      (raw : Raw A) (vec : List A) (rest : Bytes)
      → length vec < 256 ^ size_width
      → AllFit raw vec
      → load raw (word_bytes size_width (length vec) ++ write_all raw vec ++ rest) ≡ ok (vec, rest)
  unfolding load
  load_written raw vec rest small h =
      let front : read_bytes size_width
            (word_bytes size_width (length vec) ++ (write_all raw vec ++ rest))
          ≡ ok (word_bytes size_width (length vec), write_all raw vec ++ rest) =
        rw (length-word_bytes size_width (length vec)) at
          (read_bytes-append (word_bytes size_width (length vec)) (write_all raw vec ++ rest)) in
      rw (append_assoc, front, word_value-word_bytes size_width (length vec) small)
        (load_all-write_all raw vec rest h)

  -- Vectors that are not empty, and whose size is a `size_t`, are read back from what was saved,
  -- whatever follows it in the stream, and `stream_size` is the number of the bytes.
  pub load-save_vector :
      (raw : Raw A) (x : A) (vec : List A) (rest : Bytes)
      → length (x ∷ vec) < 256 ^ size_width
      → AllFit raw (x ∷ vec)
      → (load raw (written (save raw (x ∷ vec)) ++ rest) ≡ ok (x ∷ vec, rest))
        × (stream_size raw (x ∷ vec) ≡ size_width + length (x ∷ vec) * raw.width)
  unfolding save stream_size
  load-save_vector raw x vec rest small h = (
    load_written raw (x ∷ vec) rest small h,
    omega (
      arith,
      length-append (word_bytes size_width (length (x ∷ vec))) (write_all raw (x ∷ vec)),
      length-word_bytes size_width (length (x ∷ vec)),
      length-write_all raw (x ∷ vec),
    ),
  )
