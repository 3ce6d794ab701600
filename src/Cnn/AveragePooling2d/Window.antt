-- ===== src/Cnn/AveragePooling2d/Window.antt =====
-- What one cell of `AveragePooling2D::forward` adds up: the layer and its input, the sum over a
-- window, and the part of it that the loops have reached.
use pp_cnn.Prelude.{
  ℕ, suc, ◌+◌, ◌<◌, ◌≡◌, refl, ◌⊎◌, inl, inr, true, false, ◌&&◌, arith, ok, Returns, Returns_weaken,
  ◌==◌, if◌then◌else◌,
}
use pp_cnn.Seal.{Seal, Holds, add-Holds}
use pp_cnn.Cnn.Geometry.{Axis}
use pp_cnn.Cnn.Geometry.Reach.{FitsInt, covers, source_cell}
use pp_cnn.Cnn.Tensor.{Tensor, Cells}
use pp_cnn.Cnn.Sums.{sum, sum-zero, sum-suc, plus-nil}
use pp_cnn.Cnn.AveragePooling2d.{AveragePooling2d}

-- Every tap of every window lies on the input.
abbrev pub Inside : Axis → Type 0
Inside a = (o f : ℕ) → o < a.out → f < a.window → covers a o f ≡ true

module _ (seal : Seal) where
  open seal use {
    numbers, Real, plus, times, nil, nil-plus, plus_assoc, Scale, Plaintext, Ciphertext, capacity,
    Nominal, product, rescaled, NonZero, blank, add, pow2-Nominal, add-blank,
  }

  pub record PoolInput (pool : AveragePooling2d seal) (l : ℕ) (s : Scale) (v : ℕ → ℕ → ℕ → Real)
      (input : Tensor Ciphertext) : Type 0 where
    pub fits_height : FitsInt pool.height
    pub fits_width : FitsInt pool.width
    pub window_height : 0 < pool.height.window
    pub window_width : 0 < pool.width.window
    pub cells :
        Cells pool.height.size pool.width.size pool.out_channels
          (λ h w c. Holds seal l s 1 (v h w c))
          input

  -- The sum over the window of the output `oh`, `ow`.
  abbrev pub window_sum : Axis → Axis → (ℕ → ℕ → ℕ → Real) → (oh ow oc : ℕ) → Real
  window_sum height width v oh ow oc =
      sum numbers height.window λ ph.
        sum numbers width.window λ pw. v (source_cell height oh ph) (source_cell width ow pw) oc

  module _ (height width : Axis) (l : ℕ) (s : Scale) (v : ℕ → ℕ → ℕ → Real) (oh ow oc : ℕ) where
    abbrev pub cell : ℕ → ℕ → Real
    cell ph pw = v (source_cell height oh ph) (source_cell width ow pw) oc

    abbrev pub row : ℕ → Real
    row ph = sum numbers width.window (cell ph)

    -- What the rounds before the tap `ph`, `pw` leave.
    abbrev pub Pooled : ℕ → ℕ → Ciphertext → Type 0
    Pooled ph pw output =
        ((ph ≡ 0) × (pw ≡ 0))
        ⊎ ((0 < ph + pw)
            × Holds seal l s 1 (plus (sum numbers ph row) (sum numbers pw (cell ph))) output)

    first_sum :
        (ph pw : ℕ)
        → ph ≡ 0
        → pw ≡ 0
        → plus (sum numbers ph row) (sum numbers (suc pw) (cell ph)) ≡ cell ph pw
    first_sum ph pw e z =
        rw
          (
            e,
            z,
            sum-suc numbers 0 (cell 0),
            sum-zero numbers row,
            sum-zero numbers (cell 0),
            nil-plus (cell 0 0),
          )
          (nil-plus (cell 0 0))

    pub join :
        (ph pw : ℕ) (output pixel : Ciphertext)
        → Pooled ph pw output
        → Holds seal l s 1 (cell ph pw) pixel
        → Returns (if ph == 0 && pw == 0 then ok pixel else add output pixel) (Pooled ph (suc pw))
    join ph pw output pixel (inl (e, z)) w = rw test (pixel, refl, inr (omega arith, first))
      where
        test : (ph == 0 && pw == 0) ≡ true
        test = ground arith

        first : Holds seal l s 1 (plus (sum numbers ph row) (sum numbers (suc pw) (cell ph))) pixel
        first = rw (first_sum ph pw e z) w
    join ph pw output pixel (inr (p, hold)) w = rw test (
        Returns_weaken (add-Holds seal output hold pixel w) λ z hz. inr (
          omega arith,
          rw
              (
                sum-suc numbers pw (cell ph),
                ← plus_assoc (sum numbers ph row) (sum numbers pw (cell ph)) (cell ph pw),
              )
              hz,
        ))
      where
        test : (ph == 0 && pw == 0) ≡ false
        test = ground arith

    abbrev pub Rows : ℕ → Ciphertext → Type 0
    Rows ph output = (ph ≡ 0) ⊎ ((0 < ph) × Holds seal l s 1 (sum numbers ph row) output)

    pub start_row : (ph : ℕ) (output : Ciphertext) → Rows ph output → Pooled ph 0 output
    start_row ph output (inl e) = inl (e, refl)
    start_row ph output (inr (p, hold)) =
        inr
          (omega arith, rw (sum-zero numbers (cell ph), plus-nil numbers (sum numbers ph row)) hold)

    pub end_row :
        (ph : ℕ) (output : Ciphertext)
        → 0 < width.window
        → Pooled ph width.window output
        → Rows (suc ph) output
    end_row ph output pos (inl (_, e)) = absurd (omega (arith, pos))
    end_row ph output pos (inr (_, hold)) = inr (omega arith, rw (sum-suc numbers ph row) hold)

    pub total :
        (output : Ciphertext)
        → 0 < height.window
        → Rows height.window output
        → Holds seal l s 1 (window_sum height width v oh ow oc) output
    total output pos (inl e) = absurd (omega (arith, pos))
    total output pos (inr (_, hold)) = hold
