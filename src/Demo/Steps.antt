-- ===== src/Demo/Steps.antt =====
-- The last step of the demo client, where there are as many images as slots or more.
use native.Mathlib.Nat.{mod-lt, div-add-mod'}
use pp_cnn.Prelude.{
  ℕ, zero, suc, ◌+◌, ◌-◌, ◌*◌, ◌/◌, ◌%◌, ◌<◌, ◌≤◌, ◌≡◌, refl, ap, subst, ◌∙◌, Bool, ◌⊎◌, inl, inr,
  List, [], ◌∷◌, length, replicate, get_elem?, Result, ok, err, Error, out_of_range, ◌>>=◌, index,
  for_range, Returns, ltb, if_cases, arith, Option-cases, dec_lt, ltb→ge,
}
use pp_cnn.Cnn.Flatten.{assign}
use pp_cnn.Demo.Images.{
  step_count, img_count_in_step, step_range, assign_score, assign_scores, callback_func,
}

-- A loop whose rounds keep an invariant or throw `e`, and one of which always throws, throws.
for_range_throws {ℓ κ} :
    {S : Type ℓ} (I : S → Type κ) (e : Error) (i n : ℕ) (body : ℕ → S → Result S) (k : ℕ)
    → ((j : ℕ) (s : S) → I s → Returns (body j s) I ⊎ (body j s ≡ err e))
    → ((s : S) → I s → body k s ≡ err e)
    → i ≤ k
    → k < i + n
    → (s : S) → I s
    → for_range i n body s ≡ err e
unfolding for_range
for_range_throws I e i zero body k keep bad lo hi s h = absurd (omega arith)
for_range_throws I e i (suc n) body k keep bad lo hi s h = elim (keep i s h) [
  | inr t ↦ rw t refl
  | inl (s', eq, h') ↦ elim (dec_lt i k) [
    | yes later ↦
        rw eq (for_range_throws I e (suc i) n body k keep bad (omega arith) (omega arith) s' h')
    | no here ↦ rw (subst (λ m. body m s ≡ err e) {x = k} {y = i} (omega arith) (bad s h)) refl
  ]
]

module _ {ℓ} {A : Type ℓ} where
  index_cases :
      (xs : List A) (i : ℕ) → ((x : A) × (index xs i ≡ ok x)) ⊎ (index xs i ≡ err out_of_range)
  unfolding index
  index_cases xs i = elim (Option-cases (get_elem? xs i)) [
    | inl n ↦ inr (rw n refl)
    | inr (x, e) ↦ inl (x, rw e refl)
  ]

  index_past : (xs : List A) (i : ℕ) → length xs ≤ i → index xs i ≡ err out_of_range
  unfolding index
  index_past [] i h = refl
  index_past (x ∷ xs) zero h = absurd (omega arith)
  index_past (x ∷ xs) (suc i) h = index_past xs i (omega arith)

  assign-length :
      (i : ℕ) (x : A) (xs : List A)
      → Returns (assign i x xs) (λ ys. length ys ≡ length xs) ⊎ (assign i x xs ≡ err out_of_range)
  unfolding assign
  assign-length i x [] = inr refl
  assign-length zero x (y ∷ xs) = inl (x ∷ xs, refl, refl)
  assign-length (suc i) x (y ∷ xs) = elim (assign-length i x xs) [
    | inr e ↦ inr (rw e refl)
    | inl (ys, e, l) ↦ inl (y ∷ ys, rw e refl, ap suc l)
  ]

  length-replicate : (n : ℕ) (x : A) → length (replicate n x) ≡ n
  length-replicate zero x = refl
  length-replicate (suc n) x = ap suc (length-replicate n x)

module _ {F : Type 0} {Ciphertext : Type 0} (decode : Ciphertext → Result (List F))
    (less : F → F → Bool) (zero_score : F) (count : ℕ) where
  -- There is a row for each image.
  Rows : List (List F) → Type 0
  Rows results = length results ≡ count

  assign_score-Rows :
      (j i : ℕ) (score : F) (results : List (List F))
      → Rows results
      → Returns (assign_score decode less zero_score j i score results) Rows
        ⊎ (assign_score decode less zero_score j i score results ≡ err out_of_range)
  unfolding assign_score Rows
  assign_score-Rows j i score results h = elim (index_cases results j) [
    | inr e ↦ inr (rw e refl)
    | inl (row, e) ↦ elim (assign-length i score row) [
      | inr e' ↦ inr (rw (e, e') refl)
      | inl (row', e', l) ↦ elim (assign-length j row' results) [
        | inr e'' ↦ inr (rw (e, e', e'') refl)
        | inl (results', e'', l') ↦ inl (results', rw (e, e') e'', l' ∙ h)
      ]
    ]
  ]

  past_row :
      (results : List (List F))
      → Rows results
      → (i : ℕ) (score : F)
      → assign_score decode less zero_score count i score results ≡ err out_of_range
  unfolding assign_score Rows
  past_row results h i score = rw (index_past results count (omega (arith, h))) refl

  assign_scores_past :
      (img_beg_idx img_end_idx i : ℕ) (tmp_results : List F) (results : List (List F))
      → Rows results
      → img_beg_idx ≤ count
      → count < img_end_idx
      → assign_scores decode less zero_score img_beg_idx img_end_idx i tmp_results results
        ≡ err out_of_range
  unfolding assign_scores
  assign_scores_past img_beg_idx img_end_idx i tmp_results results h l1 l2 =
      for_range_throws Rows out_of_range img_beg_idx (img_end_idx - img_beg_idx) _ count keep past
        l1 (omega arith) results h
    where
      keep :
          (j : ℕ) (s : List (List F))
          → Rows s
          → Returns
              (index tmp_results (j - img_beg_idx) >>= λ score.
                assign_score decode less zero_score j i score s)
              Rows
            ⊎ ((index tmp_results (j - img_beg_idx) >>= λ score.
                  assign_score decode less zero_score j i score s)
                ≡ err out_of_range)
      keep j s h = elim (index_cases tmp_results (j - img_beg_idx)) [
        | inr e ↦ inr (rw e refl)
        | inl (score, e) ↦ rw e (assign_score-Rows j i score s h)
      ]

      past :
          (s : List (List F))
          → Rows s
          → (index tmp_results (count - img_beg_idx) >>= λ score.
              assign_score decode less zero_score count i score s)
            ≡ err out_of_range
      past s h = elim (index_cases tmp_results (count - img_beg_idx)) [
        | inr e ↦ rw e refl
        | inl (score, e) ↦ rw e (past_row s h i score)
      ]

-- the range of the last step, where the images fill the slots once or more
last_range :
    (test_img_count slot_count step : ℕ)
    → 0 < slot_count
    → slot_count ≤ test_img_count
    → step_count test_img_count slot_count ≡ step + 1
    → ((step_range test_img_count slot_count step).0 ≤ test_img_count)
      × (test_img_count < (step_range test_img_count slot_count step).1)
unfolding step_count step_range img_count_in_step
last_range n m step pos full last =
    let quotient : step * m + n % m ≡ n =
      ap (λ q. q * m + n % m) {x = step} {y = n / m} (omega arith) ∙ div-add-mod' n m in
    let small = mod-lt n pos in
    (
      omega arith,
      if_cases (λ r. n < step * m + r) (ltb m n) (λ t. omega arith)
          (λ f. omega (arith, ltb→ge m n f)),
    )

-- Where the images fill the slots once or more, the callback function of the last step reads behind
-- the end of the results, for every answer of which the first ciphertext can be decoded: the range
-- of that step ends behind the images.
pub callback_func_last_step :
    {F Ciphertext : Type 0} (decode : Ciphertext → Result (List F)) (less : F → F → Bool)
    (zero_score : F) (labels test_img_count slot_count step : ℕ) (test_labels : List ℕ)
    (x : Ciphertext) (xs : List Ciphertext) (tmp_results : List F)
    → 0 < slot_count
    → slot_count ≤ test_img_count
    → step_count test_img_count slot_count ≡ step + 1
    → decode x ≡ ok tmp_results
    → callback_func decode less zero_score
        (suc labels)
        test_img_count
        (step_range test_img_count slot_count step).0
        (step_range test_img_count slot_count step).1
        test_labels
        (x ∷ xs)
      ≡ err out_of_range
unfolding callback_func for_range index Rows
callback_func_last_step decode less zero_score labels n m step test_labels x xs tmp pos full last
      e =
    let (l1, l2) = last_range n m step pos full last in
    let past =
      assign_scores_past decode less zero_score n (step_range n m step).0 (step_range n m step).1 0
        tmp (replicate n (replicate (suc labels) zero_score))
        (length-replicate n (replicate (suc labels) zero_score)) l1 l2 in
    rw (e, past) refl
