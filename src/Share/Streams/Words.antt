-- ===== src/Share/Streams/Words.antt =====
-- The bytes of a word, and what `read` takes from the front of a stream.
use pp_cnn.Prelude.{
  ℕ, zero, suc, ◌+◌, ◌/◌, ◌^◌, true, ◌<◌, ◌≤◌, ◌≡◌, refl, ap, List, [], ◌∷◌, ◌++◌, arith, length,
  take, drop, ok, leb, length-append, ◌∙◌,
}
use pp_cnn.Share.Streams.{Bytes, word_bytes, word_value, read_bytes}

pub length-word_bytes : (n x : ℕ) → length (word_bytes n x) ≡ n
unfolding word_bytes
length-word_bytes zero x = refl
length-word_bytes (suc n) x = ap suc (length-word_bytes n (x / 256))

pub word_value-word_bytes : (n x : ℕ) → x < 256 ^ n → word_value (word_bytes n x) ≡ x
unfolding word_bytes word_value
word_value-word_bytes zero x h = omega arith
word_value-word_bytes (suc n) x h =
    rw (word_value-word_bytes n (x / 256) (omega arith)) (omega arith)

module _ {ℓ} {A : Type ℓ} where
  pub take-append : (xs ys : List A) → take (length xs) (xs ++ ys) ≡ xs
  take-append [] ys = refl
  take-append (x ∷ xs) ys = ap (◌∷◌ x) (take-append xs ys)

  pub drop-append : (xs ys : List A) → drop (length xs) (xs ++ ys) ≡ ys
  drop-append [] ys = refl
  drop-append (x ∷ xs) ys = drop-append xs ys

  pub drop-append_more : (n : ℕ) (xs ys : List A) → drop (length xs + n) (xs ++ ys) ≡ drop n ys
  drop-append_more n [] ys = ap (λ k. drop k ys) {x = 0 + n} (omega arith)
  drop-append_more n (x ∷ xs) ys =
      ap (λ k. drop k (x ∷ (xs ++ ys))) {x = suc (length xs) + n} {y = suc (length xs + n)}
        (omega arith)
      ∙ drop-append_more n xs ys

  pub length-drop : (n : ℕ) (xs : List A) → n ≤ length xs → n + length (drop n xs) ≡ length xs
  length-drop zero xs h = omega arith
  length-drop (suc n) [] h = absurd (omega arith)
  length-drop (suc n) (x ∷ xs) h = omega (arith, length-drop n xs (omega arith))

pub read_bytes-append : (bs rest : Bytes) → read_bytes (length bs) (bs ++ rest) ≡ ok (bs, rest)
unfolding read_bytes
read_bytes-append bs rest =
    let room : leb (length bs) (length (bs ++ rest)) ≡ true = rw length-append (ground arith) in
    rw (room, take-append, drop-append) refl
