-- ===== src/Share/SealUtility/Transfer.antt =====
-- What is written to the buffer of a message is read back from it, one part after the other.
use mathlib.Core.List.{append-nil}
use pp_cnn.Prelude.{
  ℕ, ◌+◌, ◌-◌, ◌≡◌, refl, sym, ap, ◌∙◌, List, [], ◌∷◌, ◌++◌, length, drop, true, Result, ok,
  Returns, subst, arith, length-append,
}
use pp_cnn.Share.Streams.{Bytes, Raw, Codec, BufferStream, read_bytes, copy_out, seekp, seekg}
use pp_cnn.Share.Streams.Words.{read_bytes-append, drop-append}
use pp_cnn.Share.Streams.Positions.{Written, Unread, copy_in-Written, copy_out-Unread}
use pp_cnn.Share.PlainData
use pp_cnn.Share.SealUtility.{
  write_to_binary_stream, read_from_binary_stream, read_loaded, write_plain, read_plain,
}

pub write_to_binary_stream-Written :
    (done bytes : Bytes) (n room : ℕ) (s : BufferStream)
    → n ≡ length bytes
    → Written done (n + room) s
    → Returns (write_to_binary_stream (bytes, n) true s) (Written (done ++ bytes) room)
unfolding write_to_binary_stream
write_to_binary_stream-Written done bytes n room s e w =
    let whole : read_bytes n bytes ≡ ok (bytes, []) =
      ap (λ k. read_bytes k bytes) e ∙ (rw append-nil at (read_bytes-append bytes [])) in
    let (s', c, w') =
      copy_in-Written done bytes room s
        (subst (λ k. Written done (k + room) s) {x = n} {y = length bytes} e w) in
    (seekp n s', rw (whole, c) refl, rw (sym e) at w')

Unread-drop : (rest : Bytes) (s : BufferStream) → Unread rest s → drop s.tellg s.buffer ≡ rest
Unread-drop rest s u = simp (u.split, u.at) (drop-append u.seen rest)

-- The call returns this value, and leaves these bytes to be read.
abbrev pub Reads : {A : Type 0} → Result (A × BufferStream) → A → Bytes → Type 0
Reads r x rest = (s : BufferStream) × (r ≡ ok (x, s)) × Unread rest s

module _ {A : Type 0} where
  pub write_plain-Written :
      (raw : Raw A) (vec : List A) (done : Bytes) (room : ℕ) (s : BufferStream)
      → Written done (PlainData.stream_size raw vec + room) s
      → Returns
          (write_plain raw vec s)
          (Written (done ++ PlainData.written (PlainData.save raw vec)) room)
  unfolding write_plain PlainData.stream_size
  write_plain-Written raw vec done room s w =
      let (s', c, w') =
        copy_in-Written done (PlainData.written (PlainData.save raw vec)) room s w in
      (_, rw c refl, w')

  pub read_plain-Unread :
      (raw : Raw A) (x : A) (rest : Bytes) (s : BufferStream)
      → raw.Fits x
      → Unread (PlainData.written (PlainData.save raw (x ∷ [])) ++ rest) s
      → Reads (read_plain raw s) (x ∷ []) rest
  unfolding read_plain
  read_plain-Unread raw x rest s fits u =
      let bytes = PlainData.written (PlainData.save raw (x ∷ [])) in
      let (back, size) = PlainData.load-save_vector raw x [] rest (omega arith) (fits, tt) in
      let taken : length (bytes ++ rest) - length rest ≡ length bytes =
        omega (arith, length-append bytes rest) in
      (
        seekg (length bytes) s,
        rw (Unread-drop (bytes ++ rest) s u, back, taken) refl,
        (copy_out-Unread bytes rest s u).1,
      )

  pub read_loaded-Unread :
      (load : Bytes → Result (A × ℕ)) (x : A) (bytes rest : Bytes) (n : ℕ) (s : BufferStream)
      → n ≡ length bytes
      → load bytes ≡ ok (x, n)
      → Unread (bytes ++ rest) s
      → Reads (read_loaded load n true s) x rest
  unfolding read_loaded
  read_loaded-Unread load x bytes rest n s e l u =
      let (out, u') = copy_out-Unread bytes rest s u in
      (
        seekg n s,
        rw (ap (λ k. copy_out k s) e ∙ out, l) refl,
        subst (λ k. Unread rest (seekg k s)) {x = length bytes} {y = n} (sym e) u',
      )

  pub read_from_binary_stream-Unread :
      (load : Bytes → Result (A × ℕ)) (x : A) (bytes rest : Bytes) (n : ℕ) (s : BufferStream)
      → n ≡ length bytes
      → load bytes ≡ ok (x, n)
      → Unread (bytes ++ rest) s
      → Reads (read_from_binary_stream load n true s) x rest
  unfolding read_from_binary_stream
  read_from_binary_stream-Unread load x bytes rest n s e l u =
      let (out, u') = copy_out-Unread bytes rest s u in
      (
        seekg n s,
        rw (ap (λ k. copy_out k s) e ∙ out, l) refl,
        subst (λ k. Unread rest (seekg k s)) {x = length bytes} {y = n} (sym e) u',
      )

-- A value of SEAL is loaded from just the bytes that it was saved as.
pub load-save_all :
    {Context A : Type 0} (codec : Codec Context A) (c : Context) (a : A)
    → codec.IsValidFor c a
    → codec.load c (codec.save a) ≡ ok (a, length (codec.save a))
load-save_all codec c a valid = rw append-nil at (codec.load-save c a [] valid)
