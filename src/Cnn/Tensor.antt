-- ===== src/Cnn/Tensor.antt =====
-- `boost::multi_array<T, 3>`, the `Ciphertext3D` of ppcnn/ppcnn_share/cnn_utils/types.h: rows of
-- columns of channels. An access outside the extents is `out_of_range`.
use pp_cnn.Prelude.{
  ℕ, ◌<◌, List, Result, ◌>>=◌, Returns, Returns->>=, index, tabulate, tabulate-Filled, Filled,
  update_each, update_each-Filled,
}

abbrev pub Tensor {ℓ} : Type ℓ → Type ℓ
Tensor A = List (List (List A))

module _ {ℓ} {A : Type ℓ} where
  -- `input[h][w][c]`
  unfoldable pub at : Tensor A → ℕ → ℕ → ℕ → Result A
  at t h w c = do row ← index t h; column ← index row w; index column c

  -- `Ciphertext3D output(boost::extents[height][width][channels])`, every cell computed by `f`.
  unfoldable pub fill : ℕ → ℕ → ℕ → (ℕ → ℕ → ℕ → Result A) → Result (Tensor A)
  fill height width channels f = tabulate height λ h. tabulate width λ w. tabulate channels (f h w)

  -- `input[h][w][c] = f(h, w, c, input[h][w][c])` for every cell.
  unfoldable pub update_cells : (ℕ → ℕ → ℕ → A → Result A) → Tensor A → Result (Tensor A)
  update_cells f t =
      update_each (λ h row. update_each (λ w column. update_each (f h w) column) row) t

  -- The tensor has these extents, and every cell satisfies `P`.
  abbrev pub Cells {κ} : ℕ → ℕ → ℕ → (ℕ → ℕ → ℕ → A → Type κ) → Tensor A → Type (ℓ ⊔ κ)
  Cells height width channels P = Filled height λ h. Filled width λ w. Filled channels (P h w)

  pub at-Cells {κ} :
      {height width channels : ℕ} {P : ℕ → ℕ → ℕ → A → Type κ} (t : Tensor A)
      → Cells height width channels P t
      → (h w c : ℕ) → h < height
      → w < width
      → c < channels
      → Returns (at t h w c) (P h w c)
  unfolding at
  at-Cells t filled h w c lh lw lc =
      Returns->>= (index t h) _ (filled.cell h lh)
        λ row rows. Returns->>= (index row w) _ (rows.cell w lw) λ column columns. columns.cell c lc

  pub fill-Cells {κ} :
      (height width channels : ℕ) (f : ℕ → ℕ → ℕ → Result A) (P : ℕ → ℕ → ℕ → A → Type κ)
      → ((h w c : ℕ) → h < height → w < width → c < channels → Returns (f h w c) (P h w c))
      → Returns (fill height width channels f) (Cells height width channels P)
  unfolding fill
  fill-Cells height width channels f P k = tabulate-Filled height _ _ λ h lh.
      tabulate-Filled width _ _ λ w lw. tabulate-Filled channels _ _ λ c lc. k h w c lh lw lc

  pub update_cells-Cells {κ} :
      (height width channels : ℕ) (f : ℕ → ℕ → ℕ → A → Result A) (P Q : ℕ → ℕ → ℕ → A → Type κ)
      → ((h w c : ℕ) (a : A)
          → h < height
          → w < width
          → c < channels
          → P h w c a
          → Returns (f h w c a) (Q h w c))
      → (t : Tensor A) → Cells height width channels P t
      → Returns (update_cells f t) (Cells height width channels Q)
  unfolding update_cells
  update_cells-Cells height width channels f P Q k = update_each-Filled height _ _ _ λ h row lh.
      update_each-Filled width _ _ _
        (λ w column lw. update_each-Filled channels _ _ _ (λ c a lc. k h w c a lh lw lc) column) row
