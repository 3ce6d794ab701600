-- ===== src/Share/Utility/Words.antt =====
-- `split` (ppcnn/ppcnn_share/ppcnn_utility.cpp) against a scanner that reads one character after the other.
use mathlib.Core.List.{append_assoc, append-nil}
use pp_cnn.Prelude.{
  ℕ, zero, suc, ◌+◌, ◌-◌, ◌<◌, ◌≤◌, ◌≡◌, refl, sym, ap, subst, ◌∙◌, Bool, true, false, not, List,
  [], ◌∷◌, ◌++◌, arith, length, take, drop, ltb, Bool-cases, Option-cases, inl, inr, lt→ltb, ge→ltb,
}
use pp_cnn.Share.Utility.{
  Text, contains, find_first_of, find_first_not_of, next_index, substr, split_from, split,
}
use pp_cnn.Share.Utility.Search.{
  drop-drop, drop_next, drop_past, length-drop_cons, take_all, Lacks, FoundFirst, find_first-none,
  find_first-some,
}

abbrev pub flush : Text → List Text → List Text
flush [] words = words
flush (c ∷ cur) words = (c ∷ cur) ∷ words

-- The words of a text, where `cur` has been read of the word at its front.
unfoldable pub words : (ℕ → Bool) → Text → Text → List Text
words is_delim cur [] = flush cur []
words is_delim cur (c ∷ s) = elim (is_delim c) [
  | true ↦ flush cur (words is_delim [] s)
  | false ↦ words is_delim (cur ++ c ∷ []) s
]

module _ (d : ℕ → Bool) where
  -- a gap before a word is skipped
  words-gap :
      (k : ℕ) (s : Text) → Lacks (λ c. not (d c)) (take k s) → words d [] (drop k s) ≡ words d [] s
  unfolding words
  words-gap zero s h = refl
  words-gap (suc k) [] h = refl
  words-gap (suc k) (c ∷ s) h = elim (Bool-cases (d c)) [
    | inl t ↦ words-gap k s h.1 ∙ sym (rw (words, t) refl)
    | inr f ↦ cc (rw f at h.0)
  ]

  -- a word ends at a delimiter or with the text
  words-word :
      (k : ℕ) (a : ℕ) (cur s : Text) (c : ℕ) (rest : Text)
      → Lacks d (take k s)
      → drop k s ≡ c ∷ rest
      → d c ≡ true
      → words d (a ∷ cur) s ≡ (a ∷ cur ++ take k s) ∷ words d [] rest
  unfolding words
  words-word zero a cur s c rest l e t =
      rw (e, words, t) (ap (λ w. (a ∷ w) ∷ words d [] rest) (sym (append-nil cur)))
  words-word (suc k) a cur [] c rest l e t = cc
  words-word (suc k) a cur (x ∷ s) c rest l e t =
      rw (words, l.0)
        (words-word k a (cur ++ x ∷ []) s c rest l.1 e t
          ∙ ap (λ w. (a ∷ w) ∷ words d [] rest) (append_assoc cur (x ∷ []) (take k s)))

  pub words_last : (a : ℕ) (cur s : Text) → Lacks d s → words d (a ∷ cur) s ≡ (a ∷ cur ++ s) ∷ []
  unfolding words
  words_last a cur [] l = ap (λ w. (a ∷ w) ∷ []) (sym (append-nil cur))
  words_last a cur (x ∷ s) l =
      rw (words, l.0)
        (words_last a (cur ++ x ∷ []) s l.1 ∙ ap (λ w. (a ∷ w) ∷ []) (append_assoc cur (x ∷ []) s))

  words_none : (s : Text) → Lacks (λ c. not (d c)) s → words d [] s ≡ []
  unfolding words
  words_none [] l = refl
  words_none (c ∷ s) l = elim (Bool-cases (d c)) [
    | inl t ↦ rw (words, t) (words_none s l.1)
    | inr f ↦ cc (rw f at l.0)
  ]

-- What a round of the loop does at the front of a word: the word, and where the search goes on.
record Round (str delims : Text) (index next : ℕ) : Type 0 where
  scanned :
      words (contains delims) [] (drop index str)
      ≡ substr str index (next - index) ∷ words (contains delims) [] (drop (next + 1) str)
  shorter : length (drop (next + 1) str) < length (drop index str)

module _ (str delims : Text) (index : ℕ) (c : ℕ) (r : Text) (front : drop index str ≡ c ∷ r)
    (inside : contains delims c ≡ false) where
  words-front : words (contains delims) [] (drop index str) ≡ words (contains delims) (c ∷ []) r
  unfolding words
  words-front = rw (front, words, inside) refl

  Round-last : Lacks (contains delims) (drop index str) → Round str delims index (length str)
  unfolding words
  Round-last lacks =
      let d = contains delims in
      let l : Lacks d (c ∷ r) = subst (Lacks d) front lacks in
      let size = length-drop_cons index str c r front in
      let past = drop_past (length str + 1) str (omega arith) in
      let whole = take_all (length str - index) (c ∷ r) (omega (arith, size)) in
      record {
        scanned = words-front ∙ words_last d c [] r l.1 ∙ sym (rw (past, front, whole) refl);
        shorter = rw (past, front) (omega arith);
      }

  Round-next :
      (j : ℕ)
      → FoundFirst (contains delims) index (drop index str) j
      → (j < length str) × Round str delims index j
  Round-next j found =
      go found.k found.c found.rest found.position found.before found.here found.kind
    where
      go :
          (k c' : ℕ) (rest : Text)
          → j ≡ index + k
          → Lacks (contains delims) (take k (drop index str))
          → drop k (drop index str) ≡ c' ∷ rest
          → contains delims c' ≡ true
          → (j < length str) × Round str delims index j
      go zero c' rest e l h t = cc (front, inside)
      go (suc k) c' rest e l h t =
          let d = contains delims in
          let size = length-drop_cons index str c r front in
          let h' : drop k r ≡ c' ∷ rest = rw front at h in
          let size' = length-drop_cons k r c' rest h' in
          let l' : Lacks d (c ∷ take k r) = rw front at l in
          let there : drop j str ≡ c' ∷ rest =
            ap (λ n. drop n str) e ∙ sym (drop-drop index (suc k) str) ∙ h in
          let on = drop_next j str c' rest there in
          let many : j - index ≡ suc k = omega arith in
          (
            omega (arith, size, size'),
            record {
              scanned =
                  words-front
                  ∙ words-word d k c [] r c' rest l'.1 h' t
                  ∙ sym (rw (on, many, front) refl);
              shorter = rw (on, front) (omega (arith, size'));
            },
          )

  Round-of_next : Round str delims index (next_index str (find_first_of str delims index))
  Round-of_next =
      let s = drop index str in
      elim (Option-cases (find_first_of str delims index)) [
        | inl e ↦ rw e (Round-last (find_first-none (contains delims) index s e))
        | inr (j, e) ↦
            let (lt, round) = Round-next j (find_first-some (contains delims) index s j e) in
            let within : ltb (length str) j ≡ false = ge→ltb (length str) j (omega arith) in
            rw (e, within) round
      ]

not-false : (b : Bool) → not b ≡ true → b ≡ false
not-false true h = sym h
not-false false h = refl

-- Enough rounds take the words of the rest of the text.
split_from-words :
    (rounds : ℕ) (str delims : Text) (pos : ℕ) (vec_str : List Text)
    → length (drop pos str) < rounds
    → split_from rounds str delims (find_first_not_of str delims pos) vec_str
      ≡ vec_str ++ words (contains delims) [] (drop pos str)
unfolding split_from
split_from-words zero str delims pos vec_str h = absurd (omega arith)
split_from-words (suc rounds) str delims pos vec_str h =
    let d = contains delims in
    let is_kind = λ (c : ℕ). not (d c) in
    elim (Option-cases (find_first_not_of str delims pos)) [
      | inl e ↦
          rw (e, words_none d (drop pos str) (find_first-none is_kind pos (drop pos str) e))
            (sym (append-nil vec_str))
      | inr (index, e) ↦
          let f = find_first-some is_kind pos (drop pos str) index e in
          let front : drop index str ≡ f.c ∷ f.rest =
            ap (λ n. drop n str) f.position ∙ sym (drop-drop pos f.k str) ∙ f.here in
          let size = length-drop_cons index str f.c f.rest front in
          let within : ltb index (length str) ≡ true = lt→ltb index (length str) (omega arith) in
          let round = Round-of_next str delims index f.c f.rest front (not-false (d f.c) f.kind) in
          let next = next_index str (find_first_of str delims index) in
          let word = substr str index (next - index) in
          let gap : words d [] (drop index str) ≡ words d [] (drop pos str) =
            ap (λ s. words d [] s) (ap (λ n. drop n str) f.position ∙ sym (drop-drop pos f.k str))
            ∙ words-gap d f.k (drop pos str) f.before in
          let before : length (drop index str) ≤ length (drop pos str) =
            let size' = length-drop_cons f.k (drop pos str) f.c f.rest f.here in
            rw front (omega arith) in
          let ih =
            split_from-words rounds str delims (next + 1) (vec_str ++ word ∷ [])
              (omega (arith, round.shorter)) in
          rw (e, split_from, within)
            (ih
              ∙ append_assoc vec_str (word ∷ []) (words d [] (drop (next + 1) str))
              ∙ ap (λ ws. vec_str ++ ws) (sym round.scanned ∙ gap))
    ]

-- For every text and all delimiters, `split` ends and returns the words that the scanner finds.
pub split-words : (str delims : Text) → split str delims ≡ words (contains delims) [] str
unfolding split
split-words str delims = split_from-words (suc (length str)) str delims 0 [] (omega arith)
