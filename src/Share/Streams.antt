-- ===== src/Share/Streams.antt =====
-- The `std::iostream` over a `stdsc::BufferStream`, a buffer of a fixed size with a position to write
-- at and a position to read at; the bytes of a `size_t`; and what is documented of the values that
-- are saved: the object representation of a trivially copyable struct, and `save` and `load` of SEAL.
pub mod Words
pub mod Positions
use pp_cnn.Prelude.{
  ℕ, zero, suc, ◌+◌, ◌*◌, ◌/◌, ◌%◌, ◌≡◌, List, [], ◌∷◌, ◌++◌, length, take, drop, Result, ok, err,
  out_of_range, leb, if◌then◌else◌,
}

abbrev pub Bytes : Type 0
Bytes = List ℕ

-- The `n` bytes of a word, the lowest first: `os.write(reinterpret_cast<char*>(&sz), sizeof(sz))`.
unfoldable pub word_bytes : ℕ → ℕ → Bytes
word_bytes zero x = []
word_bytes (suc n) x = (x % 256) ∷ word_bytes n (x / 256)

unfoldable pub word_value : Bytes → ℕ
word_value [] = 0
word_value (b ∷ bs) = b + 256 * word_value bs

-- `sizeof(size_t)`
abbrev pub size_width : ℕ
size_width = 8

-- `is.read(p, n)`: what is read and the rest; a short read leaves the variable indeterminate.
unfoldable pub read_bytes : ℕ → Bytes → Result (Bytes × Bytes)
read_bytes n s = if leb n (length s) then ok (take n s, drop n s) else err out_of_range

-- A trivially copyable type: `sizeof`, and the bytes of a value in memory.
pub record Raw (A : Type 0) : Type 1 where
  pub width : ℕ
  pub bytes : A → Bytes
  pub value : Bytes → A
  -- the value is one of the type, for a type of the source that is smaller than `A`
  pub Fits : A → Type 0
  pub length-bytes : (a : A) → length (bytes a) ≡ width
  pub value-bytes : (a : A) → Fits a → value (bytes a) ≡ a

-- A type of SEAL: `save` writes bytes and returns how many, and `load`, in a context, takes as many
-- from the front of a stream, and returns their number. It refuses what does not fit the context.
pub record Codec (Context A : Type 0) : Type 1 where
  pub save : A → Bytes
  pub load : Context → Bytes → Result (A × ℕ)
  pub IsValidFor : Context → A → Type 0
  pub load-save :
      (c : Context) (a : A) (rest : Bytes)
      → IsValidFor c a
      → load c (save a ++ rest) ≡ ok (a, length (save a))

-- `stdsc::BufferStream`: the bytes of the buffer, `tellp()` and `tellg()`
pub record BufferStream : Type 0 where
  pub buffer : Bytes
  pub tellp : ℕ
  pub tellg : ℕ

abbrev pub stream_over : Bytes → BufferStream
stream_over bytes = record { buffer = bytes; tellp = 0; tellg = 0 }

-- `memcpy(base + tellp(), bytes, n)`
unfoldable pub copy_in : Bytes → BufferStream → Result BufferStream
copy_in bytes s =
    if leb (s.tellp + length bytes) (length s.buffer)
    then ok (record s {
      buffer = take s.tellp s.buffer ++ (bytes ++ drop (s.tellp + length bytes) s.buffer);
    })
    else err out_of_range

-- `seekp(n, std::ios_base::cur)` and `seekg(n, std::ios_base::cur)`
abbrev pub seekp : ℕ → BufferStream → BufferStream
seekp n s = record s { tellp = s.tellp + n }

abbrev pub seekg : ℕ → BufferStream → BufferStream
seekg n s = record s { tellg = s.tellg + n }

-- `std::string(p, p + n)` at `p = base + tellg()`
unfoldable pub copy_out : ℕ → BufferStream → Result Bytes
copy_out n s =
    if leb (s.tellg + n) (length s.buffer)
    then ok (take n (drop s.tellg s.buffer))
    else err out_of_range
