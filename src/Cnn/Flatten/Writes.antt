-- ===== src/Cnn/Flatten/Writes.antt =====
-- Loops that write one chunk behind another into a list.
use pp_cnn.Prelude.{
  ℕ, zero, suc, ◌+◌, ◌*◌, ◌≡◌, refl, sym, ap, subst, ◌∙◌, List, [], ◌∷◌, ◌++◌, length,
  length-append, replicate, arith, some, Result, ok, for_range, get_elem?, some_inj, none≢some,
}
use mathlib.Core.List.{append_assoc, append-nil}
use pp_cnn.Cnn.Flatten.{assign}

module _ {ℓ} {A : Type ℓ} where
  unfoldable pub concat : List (List A) → List A
  concat [] = []
  concat (xs ∷ xss) = xs ++ concat xss

  assign_lem :
      (pre : List A) (x y : A) (ys : List A)
      → assign (length pre) x (pre ++ y ∷ ys) ≡ ok (pre ++ x ∷ ys)
  unfolding assign
  assign_lem [] x y ys = refl
  assign_lem (p ∷ pre) x y ys = rw (assign_lem pre x y ys) refl

  -- The call writes `chunk` at the index `start` of a list that holds `b` from there on.
  abbrev pub Writes : (b : A) → (List A → Result (List A)) → List A → ℕ → Type ℓ
  Writes b f chunk start =
      (pre : List A) (m n : ℕ)
      → length pre ≡ start
      → m ≡ length chunk + n
      → f (pre ++ replicate m b) ≡ ok ((pre ++ chunk) ++ replicate n b)

  next_chunk :
      (b : A) (cs : List (List A)) (c : List A) (size base i : ℕ)
      (body : ℕ → List A → Result (List A))
      → ((k : ℕ) (chunk : List A)
          → get_elem? (c ∷ cs) k ≡ some chunk
          → (length chunk ≡ size) × Writes b (body (i + k)) chunk (base + k * size))
      → (k : ℕ) (chunk : List A) → get_elem? cs k ≡ some chunk
      → (length chunk ≡ size) × Writes b (body (suc i + k)) chunk (base + size + k * size)
  next_chunk b cs c size base i body h k chunk ek =
      let (len, w) = h (suc k) chunk ek in
      (
        len,
        subst (λ j. Writes b (body j) chunk (base + size + k * size)) {x = i + suc k}
            {y = suc i + k} (omega arith)
            (subst (Writes b (body (i + suc k)) chunk) {x = base + suc k * size}
              {y = base + size + k * size} (omega arith) w),
      )

  -- A loop that writes one chunk after another, all of the length `size`.
  pub for_range-Writes :
      (b : A) (chunks : List (List A)) (size base i : ℕ) (body : ℕ → List A → Result (List A))
      → ((k : ℕ) (chunk : List A)
          → get_elem? chunks k ≡ some chunk
          → (length chunk ≡ size) × Writes b (body (i + k)) chunk (base + k * size))
      → Writes b (for_range i (length chunks) body) (concat chunks) base
  unfolding concat for_range
  for_range-Writes b [] size base i body h pre m n e em =
      rw (append-nil pre) (ap (λ k. ok (pre ++ replicate k b)) em')
    where
      em' : m ≡ n
      em' = omega (arith, em)
  for_range-Writes b (c ∷ cs) size base i body h pre m n e em =
      let (len, here) = h 0 c refl in
      let first : body i (pre ++ replicate m b)
          ≡ ok ((pre ++ c) ++ replicate (length (concat cs) + n) b) =
        subst
          (λ k.
            body k (pre ++ replicate m b) ≡ ok ((pre ++ c) ++ replicate (length (concat cs) + n) b))
          {x = i + 0} {y = i} (omega arith)
          (here pre m (length (concat cs) + n) (omega (arith, e))
            (omega (arith, em, length-append c (concat cs)))) in
      let rest : for_range (suc i) (length cs) body
            ((pre ++ c) ++ replicate (length (concat cs) + n) b)
          ≡ ok (((pre ++ c) ++ concat cs) ++ replicate n b) =
        for_range-Writes b cs size (base + size) (suc i) body
          (λ k chunk ek. next_chunk b cs c size base i body h k chunk ek) (pre ++ c)
          (length (concat cs) + n) n (omega (arith, e, len, length-append pre c)) refl in
      rw first (rest ∙ ap (λ l. ok (l ++ replicate n b)) (append_assoc pre c (concat cs)))

  pub singletons : List A → List (List A)
  singletons [] = []
  singletons (x ∷ xs) = (x ∷ []) ∷ singletons xs

  pub concat-singletons : (xs : List A) → concat (singletons xs) ≡ xs
  unfolding concat singletons
  concat-singletons [] = refl
  concat-singletons (x ∷ xs) = ap (λ l. x ∷ l) (concat-singletons xs)

  pub length-singletons : (xs : List A) → length (singletons xs) ≡ length xs
  unfolding singletons
  length-singletons [] = refl
  length-singletons (x ∷ xs) = ap suc (length-singletons xs)

  pub singletons-cases :
      (xs : List A) (k : ℕ) (chunk : List A)
      → get_elem? (singletons xs) k ≡ some chunk
      → (x : A) × (chunk ≡ x ∷ []) × (get_elem? xs k ≡ some x)
  unfolding singletons
  singletons-cases [] k chunk e = absurd (none≢some e)
  singletons-cases (x ∷ xs) zero chunk e = (x, sym (some_inj e), refl)
  singletons-cases (x ∷ xs) (suc k) chunk e = singletons-cases xs k chunk e

  pub assign-Writes : (b x : A) (start : ℕ) → Writes b (assign start x) (x ∷ []) start
  assign-Writes b x start pre m n e em =
      subst (λ k. assign start x (pre ++ replicate k b) ≡ ok ((pre ++ x ∷ []) ++ replicate n b))
        {x = suc n} {y = m} (omega (arith, em))
        (subst (λ k. assign k x (pre ++ b ∷ replicate n b) ≡ ok ((pre ++ x ∷ []) ++ replicate n b))
          e
          (assign_lem pre x b (replicate n b)
            ∙ ap ok (sym (append_assoc pre (x ∷ []) (replicate n b)))))

  pub length-concat :
      (xss : List (List A)) (n : ℕ)
      → ((k : ℕ) (xs : List A) → get_elem? xss k ≡ some xs → length xs ≡ n)
      → length (concat xss) ≡ length xss * n
  unfolding concat
  length-concat [] n h = omega arith
  length-concat (xs ∷ xss) n h = omega (
    arith,
    h 0 xs refl,
    length-append xs (concat xss),
    length-concat xss n (λ k ys e. h (suc k) ys e),
  )
