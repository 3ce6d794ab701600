-- ===== src/Share/Utility/Search.antt =====
-- What the searches of a text find.
use pp_cnn.Prelude.{
  ℕ, zero, suc, ◌+◌, ◌≤◌, ◌≡◌, refl, sym, ap, ◌∙◌, Bool, true, false, none, some, List, [], ◌∷◌,
  ◌++◌, arith, length, take, drop, Bool-cases, Option-cases, inl, inr, some_inj,
}
use pp_cnn.Share.Utility.{Text, find_first, find_last}

module _ {ℓ} {A : Type ℓ} where
  pub drop-nil : (n : ℕ) → drop {A = A} n [] ≡ []
  drop-nil zero = refl
  drop-nil (suc n) = refl

  pub drop-drop : (n k : ℕ) (xs : List A) → drop k (drop n xs) ≡ drop (n + k) xs
  drop-drop zero k xs = ap (λ m. drop m xs) {x = k} {y = 0 + k} (omega arith)
  drop-drop (suc n) k [] = drop-nil k ∙ sym (drop-nil (suc n + k))
  drop-drop (suc n) k (x ∷ xs) =
      drop-drop n k xs ∙ ap (λ m. drop m (x ∷ xs)) {x = suc (n + k)} {y = suc n + k} (omega arith)

  pub length-drop_cons :
      (n : ℕ) (xs : List A) (y : A) (ys : List A)
      → drop n xs ≡ y ∷ ys
      → length xs ≡ n + suc (length ys)
  length-drop_cons zero xs y ys h = omega (arith, ap length h)
  length-drop_cons (suc n) [] y ys h = cc
  length-drop_cons (suc n) (x ∷ xs) y ys h = omega (arith, length-drop_cons n xs y ys h)

  pub drop_next :
      (n : ℕ) (xs : List A) (y : A) (ys : List A) → drop n xs ≡ y ∷ ys → drop (n + 1) xs ≡ ys
  drop_next zero [] y ys h = cc
  drop_next zero (x ∷ xs) y ys h = cc
  drop_next (suc n) [] y ys h = cc
  drop_next (suc n) (x ∷ xs) y ys h =
      ap (λ m. drop m (x ∷ xs)) {x = suc n + 1} {y = suc (n + 1)} (omega arith)
      ∙ drop_next n xs y ys h

  pub drop_past : (n : ℕ) (xs : List A) → length xs ≤ n → drop n xs ≡ []
  drop_past zero [] h = refl
  drop_past zero (x ∷ xs) h = absurd (omega arith)
  drop_past (suc n) [] h = refl
  drop_past (suc n) (x ∷ xs) h = drop_past n xs (omega arith)

  pub take_all : (n : ℕ) (xs : List A) → length xs ≤ n → take n xs ≡ xs
  take_all zero [] h = refl
  take_all zero (x ∷ xs) h = absurd (omega arith)
  take_all (suc n) [] h = refl
  take_all (suc n) (x ∷ xs) h = ap (◌∷◌ x) (take_all n xs (omega arith))

  pub take-append-drop : (n : ℕ) (xs : List A) → take n xs ++ drop n xs ≡ xs
  take-append-drop zero xs = refl
  take-append-drop (suc n) [] = refl
  take-append-drop (suc n) (x ∷ xs) = ap (◌∷◌ x) (take-append-drop n xs)

-- No character of the text is of the kind.
abbrev pub Lacks : (ℕ → Bool) → Text → Type 0
Lacks is_kind [] = Unit
Lacks is_kind (c ∷ s) = (is_kind c ≡ false) × Lacks is_kind s

-- The first position of the kind is `k` further on, behind characters that are not of the kind.
pub record FoundFirst (is_kind : ℕ → Bool) (i : ℕ) (s : Text) (j : ℕ) : Type 0 where
  pub k : ℕ
  pub c : ℕ
  pub rest : Text
  pub position : j ≡ i + k
  pub before : Lacks is_kind (take k s)
  pub here : drop k s ≡ c ∷ rest
  pub kind : is_kind c ≡ true

pub find_first-none :
    (is_kind : ℕ → Bool) (i : ℕ) (s : Text) → find_first is_kind i s ≡ none → Lacks is_kind s
unfolding find_first
find_first-none is_kind i [] h = tt
find_first-none is_kind i (c ∷ s) h = elim (Bool-cases (is_kind c)) [
  | inl t ↦ cc (rw (find_first, t) at h)
  | inr f ↦ (f, find_first-none is_kind (suc i) s (rw (find_first, f) at h))
]

pub find_first-some :
    (is_kind : ℕ → Bool) (i : ℕ) (s : Text) (j : ℕ)
    → find_first is_kind i s ≡ some j
    → FoundFirst is_kind i s j
unfolding find_first
find_first-some is_kind i [] j h = cc
find_first-some is_kind i (c ∷ s) j h = elim (Bool-cases (is_kind c)) [
  | inl t ↦
      let e : i ≡ j = some_inj (rw (find_first, t) at h) in
      record { k = 0; c = c; rest = s; position = omega arith; before = tt; here = refl; kind = t }
  | inr f ↦
      let r = find_first-some is_kind (suc i) s j (rw (find_first, f) at h) in
      record {
        k = suc r.k;
        c = r.c;
        rest = r.rest;
        position = omega (arith, r.position);
        before = (f, r.before);
        here = r.here;
        kind = r.kind;
      }
]

-- The last position of the kind is `k` further on, before characters that are not of the kind.
pub record FoundLast (is_kind : ℕ → Bool) (i : ℕ) (s : Text) (j : ℕ) : Type 0 where
  pub k : ℕ
  pub c : ℕ
  pub rest : Text
  pub position : j ≡ i + k
  pub here : drop k s ≡ c ∷ rest
  pub kind : is_kind c ≡ true
  pub behind : Lacks is_kind rest

pub find_last-none :
    (is_kind : ℕ → Bool) (i : ℕ) (s : Text) → find_last is_kind i s ≡ none → Lacks is_kind s
unfolding find_last
find_last-none is_kind i [] h = tt
find_last-none is_kind i (c ∷ s) h = elim (Option-cases (find_last is_kind (suc i) s)) [
  | inr (j, e) ↦ cc (rw (find_last, e) at h)
  | inl e ↦ elim (Bool-cases (is_kind c)) [
    | inl t ↦ cc (rw (find_last, e, t) at h)
    | inr f ↦ (f, find_last-none is_kind (suc i) s e)
  ]
]

pub find_last-some :
    (is_kind : ℕ → Bool) (i : ℕ) (s : Text) (j : ℕ)
    → find_last is_kind i s ≡ some j
    → FoundLast is_kind i s j
unfolding find_last
find_last-some is_kind i [] j h = cc
find_last-some is_kind i (c ∷ s) j h = elim (Option-cases (find_last is_kind (suc i) s)) [
  | inr (m, e) ↦
      let same : m ≡ j = some_inj (rw (find_last, e) at h) in
      let r = find_last-some is_kind (suc i) s m e in
      record {
        k = suc r.k;
        c = r.c;
        rest = r.rest;
        position = omega (arith, r.position, same);
        here = r.here;
        kind = r.kind;
        behind = r.behind;
      }
  | inl e ↦ elim (Bool-cases (is_kind c)) [
    | inr f ↦ cc (rw (find_last, e, f) at h)
    | inl t ↦
        let same : i ≡ j = some_inj (rw (find_last, e, t) at h) in
        record {
          k = 0;
          c = c;
          rest = s;
          position = omega (arith, same);
          here = refl;
          kind = t;
          behind = find_last-none is_kind (suc i) s e;
        }
  ]
]
