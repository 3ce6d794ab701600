-- ===== src/Share/Streams/Positions.antt =====
-- Writing and reading at the positions of a `stdsc::BufferStream`.
use mathlib.Core.List.{append_assoc, append-nil}
use pp_cnn.Prelude.{
  ℕ, ◌+◌, ◌≡◌, refl, sym, ap, [], ◌∷◌, ◌++◌, arith, length, take, drop, ok, leb, length-append, ◌∙◌,
  Returns, true,
}
use pp_cnn.Share.Streams.{Bytes, BufferStream, copy_in, copy_out, seekp, seekg, stream_over}
use pp_cnn.Share.Streams.Words.{take-append, drop-append, drop-append_more, length-drop}

-- The bytes `done` have been written, and there is room for `room` more.
pub record Written (done : Bytes) (room : ℕ) (s : BufferStream) : Type 0 where
  pub rest : Bytes
  pub split : s.buffer ≡ done ++ rest
  pub left : length rest ≡ room
  pub at : s.tellp ≡ length done

-- The bytes `rest` have not been read.
pub record Unread (rest : Bytes) (s : BufferStream) : Type 0 where
  pub seen : Bytes
  pub split : s.buffer ≡ seen ++ rest
  pub at : s.tellg ≡ length seen

pub Written-start : (blank : Bytes) (n : ℕ) → length blank ≡ n → Written [] n (stream_over blank)
Written-start blank n h = record { rest = blank; split = refl; left = h; at = refl }

pub Written-full : (done : Bytes) (s : BufferStream) → Written done 0 s → s.buffer ≡ done
Written-full done s w =
    elim w.rest as (λ r. length r ≡ 0 → s.buffer ≡ done ++ r → s.buffer ≡ done) [
      | [] ↦ λ h e. e ∙ append-nil done
      | x ∷ r ↦ λ h e. absurd (omega (arith, h))
    ]
      w.left w.split

pub Unread-start : (bytes : Bytes) → Unread bytes (stream_over bytes)
Unread-start bytes = record { seen = []; split = refl; at = refl }

overwrite :
    (done bytes rest : Bytes)
    → take (length done) (done ++ rest)
        ++ (bytes ++ drop (length done + length bytes) (done ++ rest))
      ≡ done ++ bytes ++ drop (length bytes) rest
overwrite done bytes rest =
    rw (take-append, drop-append_more (length bytes) done rest, append_assoc) refl

-- A copy of as many bytes as there is room for leaves them behind those that have been written.
pub copy_in-Written :
    (done bytes : Bytes) (room : ℕ) (s : BufferStream)
    → Written done (length bytes + room) s
    → Returns (copy_in bytes s) λ s'. Written (done ++ bytes) room (seekp (length bytes) s')
unfolding copy_in
copy_in-Written done bytes room s w =
    let fits : leb (s.tellp + length bytes) (length s.buffer) ≡ true =
      let size : length s.buffer ≡ length done + length w.rest =
        ap length w.split ∙ length-append done w.rest in
      ground (arith, size, w.at, w.left) in
    (
      record s {
        buffer = take s.tellp s.buffer ++ (bytes ++ drop (s.tellp + length bytes) s.buffer);
      },
      rw fits refl,
      record {
        rest = drop (length bytes) w.rest;
        split = simp (w.split, w.at) (overwrite done bytes w.rest);
        left = omega (arith, w.left, length-drop (length bytes) w.rest (omega (arith, w.left)));
        at = simp (w.at) (sym (length-append done bytes));
      },
    )

-- Bytes that stand before the position are read back.
pub copy_out-Unread :
    (bytes rest : Bytes) (s : BufferStream)
    → Unread (bytes ++ rest) s
    → (copy_out (length bytes) s ≡ ok bytes) × Unread rest (seekg (length bytes) s)
unfolding copy_out
copy_out-Unread bytes rest s u =
    let size : length s.buffer ≡ length u.seen + (length bytes + length rest) =
      ap length u.split
      ∙ length-append u.seen (bytes ++ rest)
      ∙ ap (λ k. length u.seen + k) (length-append bytes rest) in
    let fits : leb (s.tellg + length bytes) (length s.buffer) ≡ true = ground (arith, size, u.at) in
    (
      rw fits (simp (u.split, u.at, drop-append, take-append) refl),
      record {
        seen = u.seen ++ bytes;
        split = u.split ∙ sym (append_assoc u.seen bytes rest);
        at = simp (u.at) (sym (length-append u.seen bytes));
      },
    )
