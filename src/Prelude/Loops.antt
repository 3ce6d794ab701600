-- ===== src/Prelude/Loops.antt =====
-- `for` loops whose body may throw, arrays that are filled cell by cell, and their rules.
use Prim.Native.Nat.{ℕ, zero, suc, ◌+◌, ◌<◌, ◌≤◌}
use mathlib.Core.Path.{◌≡◌, refl, ap, subst}
use mathlib.Core.List.{List, [], ◌∷◌}
use native.Mathlib.Omega.{arith}
use pp_cnn.Prelude.Lists.{length, get_elem?}
use mathlib.Core.Path.{sym, ◌∙◌}
use mathlib.Core.Logic.{◌⊎◌, inl, inr}
use native.Mathlib.Decide.{dec_lt}
use pp_cnn.Prelude.Results.{
  Error, err, ok≢err, Result, ok, out_of_range, ◌>>=◌, or_throw, Returns, Returns->>=,
}

-- `for (k = i; k < i + n; ++k) body(k)` over the variables `s`.
unfoldable pub for_range {ℓ} : {S : Type ℓ} → ℕ → ℕ → (ℕ → S → Result S) → S → Result S
for_range i zero body s = ok s
for_range i (suc n) body s = body i s >>= λ s'. for_range (suc i) n body s'

pub for_range_inv {ℓ κ} :
    {S : Type ℓ} (I : ℕ → S → Type κ) (i n : ℕ) (body : ℕ → S → Result S)
    → ((k : ℕ) → i ≤ k → k < i + n → (s : S) → I k s → Returns (body k s) (I (suc k)))
    → (s : S) → I i s
    → Returns (for_range i n body s) (I (i + n))
unfolding for_range
for_range_inv I i zero body keep s h =
    (s, refl, subst (λ k. I k s) {x = i} {y = i + 0} (omega arith) h)
for_range_inv I i (suc n) body keep s h =
    Returns->>= {P = I (suc i)} (body i s) (λ s'. for_range (suc i) n body s')
      (keep i (omega arith) (omega arith) s h)
      λ s' h'.
        subst (λ k. Returns (for_range (suc i) n body s') (I k)) {x = suc i + n} {y = i + suc n}
          (omega arith)
          (for_range_inv I (suc i) n body (λ k a b. keep k (omega arith) (omega arith)) s' h')

-- The same, for a loop from 0.
pub for_range_inv_zero {ℓ κ} :
    {S : Type ℓ} (I : ℕ → S → Type κ) (n : ℕ) (body : ℕ → S → Result S)
    → ((k : ℕ) → k < n → (s : S) → I k s → Returns (body k s) (I (suc k)))
    → (s : S) → I 0 s
    → Returns (for_range 0 n body s) (I n)
for_range_inv_zero I n body keep s h =
    subst (λ k. Returns (for_range 0 n body s) (I k)) {x = 0 + n} {y = n} (omega arith)
      (for_range_inv I 0 n body (λ k _ lt. keep k (omega arith)) s h)

-- A loop in which every round either leaves the variables alone or throws `e`.
pub for_range-idle {ℓ} :
    {S : Type ℓ} (e : Error) (i n : ℕ) (body : ℕ → S → Result S) (s : S)
    → ((k : ℕ) → i ≤ k → k < i + n → (body k s ≡ ok s) ⊎ (body k s ≡ err e))
    → (for_range i n body s ≡ ok s) ⊎ (for_range i n body s ≡ err e)
unfolding for_range
for_range-idle e i zero body s h = inl refl
for_range-idle e i (suc n) body s h = elim (h i (omega arith) (omega arith)) [
  | inl same ↦ rw same (for_range-idle e (suc i) n body s λ k a b. h k (omega arith) (omega arith))
  | inr bad ↦ inr (rw bad refl)
]

pub for_range-throws {ℓ} :
    {S : Type ℓ} (e : Error) (i n : ℕ) (body : ℕ → S → Result S) (s : S)
    → ((k : ℕ) → i ≤ k → k < i + n → (body k s ≡ ok s) ⊎ (body k s ≡ err e))
    → (k : ℕ) → i ≤ k
    → k < i + n
    → body k s ≡ err e
    → for_range i n body s ≡ err e
unfolding for_range
for_range-throws e i zero body s h k a b bad = absurd (omega arith)
for_range-throws e i (suc n) body s h k a b bad = elim (h i (omega arith) (omega arith)) [
  | inr now ↦ rw now refl
  | inl same ↦ rw same (elim (dec_lt i k) [
    | yes later ↦
        for_range-throws e (suc i) n body s (λ m c d. h m (omega arith) (omega arith)) k
          (omega arith) (omega arith) bad
    | no here ↦
        absurd (ok≢err (sym same ∙ subst (λ m. body m s ≡ err e) {x = k} {y = i} (omega arith) bad))
  ])
]

module _ {ℓ} {A : Type ℓ} where
  -- `v[i]`
  unfoldable pub index : List A → ℕ → Result A
  index xs i = or_throw out_of_range (get_elem? xs i)

  -- An array of `n` cells, the cell `k` computed by `f (i + k)`.
  unfoldable pub tabulate_from : ℕ → ℕ → (ℕ → Result A) → Result (List A)
  tabulate_from i zero f = ok []
  tabulate_from i (suc n) f = do x ← f i; xs ← tabulate_from (suc i) n f; ok (x ∷ xs)

  unfoldable pub tabulate : ℕ → (ℕ → Result A) → Result (List A)
  unfolding tabulate_from
  tabulate n f = tabulate_from 0 n f

  -- The array has `n` cells, and the cell `i` satisfies `P i`.
  pub record Filled {κ} (n : ℕ) (P : ℕ → A → Type κ) (xs : List A) : Type (ℓ ⊔ κ) where
    pub size : length xs ≡ n
    pub cell : (i : ℕ) → i < n → Returns (index xs i) (P i)

  pub Filled-nil {κ} : (P : ℕ → A → Type κ) → Filled 0 P []
  Filled-nil P = record { size = refl; cell = λ i h. elim h [ ] }

  pub Filled-cons {κ} :
      (n : ℕ) (P : ℕ → A → Type κ) (x : A) (xs : List A)
      → P 0 x
      → Filled n (λ i. P (suc i)) xs
      → Filled (suc n) P (x ∷ xs)
  unfolding index
  Filled-cons n P x xs p f = record { size = ap suc f.size; cell = go }
    where
      go : (i : ℕ) → i < suc n → Returns (index (x ∷ xs) i) (P i)
      go zero h = (x, refl, p)
      go (suc i) h = f.cell i (omega arith)

  -- The array of the cells of a list, from a proof for each.
  abbrev pub Each {κ} : (ℕ → A → Type κ) → List A → Type κ
  Each P [] = Unit
  Each P (x ∷ xs) = P 0 x × Each (λ i. P (suc i)) xs

  pub Each-Filled {κ} : (P : ℕ → A → Type κ) (xs : List A) → Each P xs → Filled (length xs) P xs
  Each-Filled P [] h = Filled-nil P
  Each-Filled P (x ∷ xs) h =
      Filled-cons (length xs) P x xs h.0 (Each-Filled (λ i. P (suc i)) xs h.1)

  tabulate_from-Filled {κ} :
      (i n : ℕ) (f : ℕ → Result A) (P : ℕ → A → Type κ)
      → ((k : ℕ) → k < n → Returns (f (i + k)) (P k))
      → Returns (tabulate_from i n f) (Filled n P)
  unfolding tabulate_from
  tabulate_from-Filled i zero f P h = ([], refl, Filled-nil P)
  tabulate_from-Filled i (suc n) f P h =
      let (x, e, p) =
        subst (λ k. Returns (f k) (P 0)) {x = i + 0} {y = i} (omega arith) (h 0 (omega arith)) in
      let (xs, e', q) =
        tabulate_from-Filled (suc i) n f (λ k. P (suc k))
          (λ k lt.
            subst (λ m. Returns (f m) (P (suc k))) {x = i + suc k} {y = suc i + k} (omega arith)
              (h (suc k) (omega arith))) in
      (x ∷ xs, rw (e, e'), Filled-cons n P x xs p q)

  pub tabulate-Filled {κ} :
      (n : ℕ) (f : ℕ → Result A) (P : ℕ → A → Type κ)
      → ((k : ℕ) → k < n → Returns (f k) (P k))
      → Returns (tabulate n f) (Filled n P)
  unfolding tabulate
  tabulate-Filled n f P h =
      tabulate_from-Filled 0 n f P
        (λ k lt. subst (λ m. Returns (f m) (P k)) {x = k} {y = 0 + k} (omega arith) (h k lt))

module _ {ℓ} {A : Type ℓ} where
  -- `for (k = 0; k < v.size(); ++k) v[k] = f(k, v[k])`
  unfoldable pub update_from : ℕ → (ℕ → A → Result A) → List A → Result (List A)
  update_from i f [] = ok []
  update_from i f (x ∷ xs) = do y ← f i x; ys ← update_from (suc i) f xs; ok (y ∷ ys)

  unfoldable pub update_each : (ℕ → A → Result A) → List A → Result (List A)
  unfolding update_from
  update_each f xs = update_from 0 f xs

  pub Filled-tail {κ} :
      (n : ℕ) (P : ℕ → A → Type κ) (x : A) (xs : List A)
      → Filled (suc n) P (x ∷ xs)
      → Filled n (λ i. P (suc i)) xs
  unfolding index
  Filled-tail n P x xs f = record {
    size = omega (arith, f.size);
    cell = λ i h. f.cell (suc i) (omega arith);
  }

  pub Filled-head {κ} :
      (n : ℕ) (P : ℕ → A → Type κ) (x : A) (xs : List A) → Filled (suc n) P (x ∷ xs) → P 0 x
  unfolding index
  Filled-head n P x xs f =
      let (y, e, p) = f.cell 0 (omega arith) in subst (P 0) {x = y} {y = x} (cc) p

  update_from-Filled {κ} :
      (i n : ℕ) (f : ℕ → A → Result A) (P Q : ℕ → A → Type κ)
      → ((k : ℕ) (a : A) → k < n → P k a → Returns (f (i + k) a) (Q k))
      → (xs : List A) → Filled n P xs
      → Returns (update_from i f xs) (Filled n Q)
  unfolding update_from
  update_from-Filled i zero f P Q h [] fl = ([], refl, Filled-nil Q)
  update_from-Filled i zero f P Q h (x ∷ xs) fl = absurd (omega (arith, fl.size))
  update_from-Filled i (suc n) f P Q h [] fl = absurd (omega (arith, fl.size))
  update_from-Filled i (suc n) f P Q h (x ∷ xs) fl =
      let (y, e, q) =
        subst (λ k. Returns (f k x) (Q 0)) {x = i + 0} {y = i} (omega arith)
          (h 0 x (omega arith) (Filled-head n P x xs fl)) in
      let (ys, e', r) =
        update_from-Filled (suc i) n f (λ k. P (suc k)) (λ k. Q (suc k))
          (λ k a lt p.
            subst (λ m. Returns (f m a) (Q (suc k))) {x = i + suc k} {y = suc i + k} (omega arith)
              (h (suc k) a (omega arith) p))
          xs (Filled-tail n P x xs fl) in
      (y ∷ ys, rw (e, e'), Filled-cons n Q y ys q r)

  pub update_each-Filled {κ} :
      (n : ℕ) (f : ℕ → A → Result A) (P Q : ℕ → A → Type κ)
      → ((k : ℕ) (a : A) → k < n → P k a → Returns (f k a) (Q k))
      → (xs : List A) → Filled n P xs
      → Returns (update_each f xs) (Filled n Q)
  unfolding update_each
  update_each-Filled n f P Q h xs fl =
      update_from-Filled 0 n f P Q
        (λ k a lt p.
          subst (λ m. Returns (f m a) (Q k)) {x = k} {y = 0 + k} (omega arith) (h k a lt p))
        xs fl
