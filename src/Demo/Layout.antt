-- ===== src/Demo/Layout.antt =====
-- The data of a tensor in the order of the memory, and the tensor that the server unpacks from it.
use native.Mathlib.Nat.{mul_assoc}
use pp_cnn.Prelude.{
  ℕ, zero, suc, ◌+◌, ◌*◌, ◌<◌, ◌≤◌, ◌≡◌, refl, sym, ap, subst, ◌∙◌, true, some, List, [], ◌∷◌, ◌++◌,
  map, length, get_elem?, get_elem?-append_left, get_elem?-append_right, ok, ok≢err, index, Filled,
  Returns, arith, leb, Option-cases, inl, inr, some_inj, none≢some,
}
use pp_cnn.Seal.{Seal}
use pp_cnn.Cnn.Tensor.{Tensor, fill-Cells, Cells}
use pp_cnn.Cnn.Flatten.Writes.{concat, length-concat}
use pp_cnn.Server.CalcThread.{unpack_images}
use pp_cnn.Demo.Images.{packed_data}

module _ {ℓ} {A : Type ℓ} where
  index-get_elem? : (xs : List A) (i : ℕ) (x : A) → index xs i ≡ ok x → get_elem? xs i ≡ some x
  unfolding index
  index-get_elem? xs i x e = elim (Option-cases (get_elem? xs i)) [
    | inl n ↦ absurd (ok≢err (sym (rw n at e)))
    | inr (y, s) ↦ let same : ok y ≡ ok x = rw s at e in s ∙ cc
  ]

  get_elem?_lt : (xs : List A) (i : ℕ) (x : A) → get_elem? xs i ≡ some x → i < length xs
  get_elem?_lt [] i x e = absurd (none≢some e)
  get_elem?_lt (y ∷ xs) zero x e = omega arith
  get_elem?_lt (y ∷ xs) (suc i) x e = omega (arith, get_elem?_lt xs i x e)

  -- the element of a chunk, in the chunks one behind another
  get_elem?-concat :
      (xss : List (List A)) (n i j : ℕ) (xs : List A)
      → ((k : ℕ) (ys : List A) → get_elem? xss k ≡ some ys → length ys ≡ n)
      → get_elem? xss i ≡ some xs
      → j < n
      → get_elem? (concat xss) (i * n + j) ≡ get_elem? xs j
  unfolding concat
  get_elem?-concat [] n i j xs sizes e lt = absurd (none≢some e)
  get_elem?-concat (ys ∷ xss) n zero j xs sizes e lt =
      let same : ys ≡ xs = some_inj e in
      ap (get_elem? (ys ++ concat xss)) {x = 0 * n + j} {y = j} (omega arith)
      ∙ get_elem?-append_left ys (concat xss) j (omega (arith, sizes 0 ys refl))
      ∙ ap (λ zs. get_elem? zs j) same
  get_elem?-concat (ys ∷ xss) n (suc i) j xs sizes e lt =
      ap (get_elem? (ys ++ concat xss)) {x = suc i * n + j} {y = length ys + (i * n + j)}
        (omega (arith, sizes 0 ys refl))
      ∙ get_elem?-append_right ys (concat xss) (i * n + j)
      ∙ get_elem?-concat xss n i j xs (λ k zs. sizes (suc k) zs) e lt

  length-map :
      {B : Type ℓ} (t : List B) (f : B → List A) (n : ℕ)
      → ((k : ℕ) (row : B) → get_elem? t k ≡ some row → length (f row) ≡ n)
      → (k : ℕ) (ys : List A) → get_elem? (map f t) k ≡ some ys
      → length ys ≡ n
  length-map [] f n h k ys e = absurd (none≢some e)
  length-map (row ∷ t) f n h zero ys e = ap length (sym (some_inj e)) ∙ h 0 row refl
  length-map (row ∷ t) f n h (suc k) ys e = length-map t f n (λ j. h (suc j)) k ys e

  get_elem?-map :
      {B : Type ℓ} (t : List B) (f : B → List A) (i : ℕ) (row : B)
      → get_elem? t i ≡ some row
      → get_elem? (map f t) i ≡ some (f row)
  get_elem?-map [] f i row e = absurd (none≢some e)
  get_elem?-map (r ∷ t) f zero row e = ap (λ x. some (f x)) (some_inj e)
  get_elem?-map (r ∷ t) f (suc i) row e = get_elem?-map t f i row e

  length-map_size : {B : Type ℓ} (f : B → List A) (t : List B) → length (map f t) ≡ length t
  length-map_size f [] = refl
  length-map_size f (x ∷ t) = ap suc (length-map_size f t)

  found {κ} :
      {n : ℕ} {P : ℕ → A → Type κ} (xs : List A) (i : ℕ)
      → Filled n P xs
      → i < n
      → (x : A) × (get_elem? xs i ≡ some x) × P i x
  found xs i filled lt = let (x, e, p) = filled.cell i lt in (x, index-get_elem? xs i x e, p)

  found_back {κ} :
      {n : ℕ} {P : ℕ → A → Type κ} (xs : List A) (i : ℕ) (x : A)
      → Filled n P xs
      → get_elem? xs i ≡ some x
      → P i x
  found_back {P = P} xs i x filled e =
      let lt = get_elem?_lt xs i x e in
      let (y, ey, p) = found xs i filled (omega (arith, filled.size)) in
      subst (P i) (some_inj (sym ey ∙ e)) p

module _ {κ} {A : Type 0} {rows cols channels : ℕ} {P : ℕ → ℕ → ℕ → A → Type κ} (t : Tensor A)
    (cells : Cells rows cols channels P t) where
  length-row :
      (h : ℕ) (row : List (List A))
      → get_elem? t h ≡ some row
      → length (concat row) ≡ cols * channels
  length-row h row e =
      let filled = found_back t h row cells e in
      length-concat row channels (λ w column ew. (found_back row w column filled ew).size)
      ∙ ap (λ n. n * channels) filled.size

  -- the element of the data at the place of the cell
  packed_data-Cells :
      (h w c : ℕ)
      → h < rows
      → w < cols
      → c < channels
      → (x : A) × (get_elem? (packed_data t) (h * cols * channels + w * channels + c) ≡ some x)
        × P h w c x
  unfolding packed_data
  packed_data-Cells h w c lh lw lc =
      let (row, er, frow) = found t h cells lh in
      let (column, ec, fcol) = found row w frow lw in
      let (x, ex, p) = found column c fcol lc in
      let inner : get_elem? (concat row) (w * channels + c) ≡ some x =
        get_elem?-concat row channels w c column (λ k ys ek. (found_back row k ys frow ek).size) ec
          lc
        ∙ ex in
      let lt = get_elem?_lt (concat row) (w * channels + c) x inner in
      let outer =
        get_elem?-concat (map concat t) (cols * channels) h (w * channels + c) (concat row)
          (length-map t concat (cols * channels) length-row) (get_elem?-map t concat h row er)
          (omega (arith, length-row h row er)) in
      let place : h * cols * channels + w * channels + c
          ≡ h * (cols * channels) + (w * channels + c) =
        omega (arith, mul_assoc h cols channels) in
      (x, ap (get_elem? (packed_data t)) place ∙ outer ∙ inner, p)

  length-packed_data : length (packed_data t) ≡ rows * cols * channels
  unfolding packed_data
  length-packed_data =
      length-concat (map concat t) (cols * channels)
        (length-map t concat (cols * channels) length-row)
      ∙ ap (λ n. n * (cols * channels)) (length-map_size concat t ∙ cells.size)
      ∙ sym (mul_assoc rows cols channels)

pub le→leb : (a b : ℕ) → a ≤ b → leb a b ≡ true
le→leb a b h = ground arith

-- The server unpacks the data of a tensor into one with the same cells.
pub unpack_images-packed_data {κ} :
    (seal : Seal) {rows cols channels : ℕ} {P : ℕ → ℕ → ℕ → seal.Ciphertext → Type κ}
    (t : Tensor seal.Ciphertext)
    → Cells rows cols channels P t
    → Returns (unpack_images seal rows cols channels (packed_data t)) (Cells rows cols channels P)
unfolding unpack_images
unpack_images-packed_data seal {rows} {cols} {channels} {P} t cells =
    let size : leb (length (packed_data t)) (rows * cols * channels) ≡ true =
      le→leb (length (packed_data t)) (rows * cols * channels)
        (omega (arith, length-packed_data t cells)) in
    rw size (
      fill-Cells rows cols channels _ P λ h w c lh lw lc.
        let (x, e, p) = packed_data-Cells t cells h w c lh lw lc in (x, rw e refl, p))
