-- ===== src/Share/SealUtility.antt =====
-- `seal_utility` (ppcnn/ppcnn_share/ppcnn_seal_utility.cpp): values of SEAL and `EncData` in the buffer
-- of a message; and `PlainData` in the same buffer, through its stream.
pub mod Transfer
use pp_cnn.Prelude.{
  ℕ, ◌+◌, ◌-◌, List, [], ◌∷◌, ◌++◌, length, drop, Bool, true, false, Result, ok, ◌>>=◌,
  if◌then◌else◌,
}
use pp_cnn.Share.Streams.{
  Bytes, read_bytes, Raw, Codec, BufferStream, copy_in, copy_out, seekp, seekg,
}
use pp_cnn.Share.PlainData

-- `stream_size`
abbrev pub stream_size : {Context A : Type 0} → Codec Context A → A → ℕ
stream_size codec x = length (codec.save x)

-- What `save` writes to a fresh stream, and what it returns.
abbrev pub saved : {Context A : Type 0} → Codec Context A → A → Bytes × ℕ
saved codec x = (codec.save x, length (codec.save x))

-- `write_to_binary_stream`, of a value that is saved as these bytes
unfoldable pub write_to_binary_stream : Bytes × ℕ → Bool → BufferStream → Result BufferStream
write_to_binary_stream (oss, saved_sz) shift s = do
  (bytes, rest) ← read_bytes saved_sz oss
  s ← copy_in bytes s
  ok (if shift then seekp saved_sz s else s)

module _ {A : Type 0} where
  -- `read_from_binary_stream` of `EncData`, which shifts the position by `read_sz`
  unfoldable pub read_from_binary_stream :
      (Bytes → Result (A × ℕ)) → ℕ → Bool → BufferStream → Result (A × BufferStream)
  read_from_binary_stream load read_sz shift s = do
    bytes ← copy_out read_sz s
    (x, loaded_sz) ← load bytes
    ok (x, if shift then seekg read_sz s else s)

  -- the two others, which shift it by what `load` returns
  unfoldable pub read_loaded :
      (Bytes → Result (A × ℕ)) → ℕ → Bool → BufferStream → Result (A × BufferStream)
  read_loaded load read_sz shift s = do
    bytes ← copy_out read_sz s
    (x, loaded_sz) ← load bytes
    ok (x, if shift then seekg loaded_sz s else s)

  -- `save(stream)` of a `PlainData`
  unfoldable pub write_plain : Raw A → List A → BufferStream → Result BufferStream
  write_plain raw vec s =
      let bytes = PlainData.written (PlainData.save raw vec) in
      copy_in bytes s >>= λ s'. ok (seekp (length bytes) s')

  -- `load(stream)` of a `PlainData`
  unfoldable pub read_plain : Raw A → BufferStream → Result (List A × BufferStream)
  read_plain raw s = do
    (vec, rest) ← PlainData.load raw (drop s.tellg s.buffer)
    ok (vec, seekg (length (drop s.tellg s.buffer) - length rest) s)
