-- ===== src/Cnn/Flatten/Global.antt =====
-- `GlobalAveragePooling2D::flatten` sums each channel over all positions.
use pp_cnn.Prelude.{
  ℕ, suc, ◌+◌, ◌<◌, ◌≡◌, refl, sym, subst, ◌⊎◌, inl, inr, true, false, ◌&&◌, List, arith, Returns,
  Returns->>=, Returns_weaken, Filled, tabulate-Filled, for_range_inv_zero, ◌==◌,
}
use pp_cnn.Seal.{Seal, Holds}
use pp_cnn.Cnn.Tensor.{Tensor, Cells, at, at-Cells}
use pp_cnn.Cnn.Sums.{sum, sum-zero, sum-suc, plus-nil}
use pp_cnn.Cnn.Flatten.{Flatten, add_position, global_average_pooling2d_flatten}
use pp_cnn.Cnn.Flatten.Pixels
use pp_cnn.Cnn.Flatten.Pixels.{Filled-weaken}

module _ (seal : Seal) where
  open seal use {numbers, Real, plus, nil-plus, plus_assoc, Scale, Ciphertext, add}

  module _ (layer : Flatten) (l : ℕ) (s : Scale) (v : ℕ → ℕ → ℕ → Real) (input : Tensor Ciphertext)
      (cells : Cells layer.in_height layer.in_width layer.in_channels
        (λ h w c. Holds seal l s 1 (v h w c))
        input) where
    abbrev Totals : (ℕ → Real) → List Ciphertext → Type 0
    Totals = Pixels.Totals seal layer l s v input cells

    abbrev cell : ℕ → ℕ → ℕ → Real
    cell c ih iw = v ih iw c

    abbrev row : ℕ → ℕ → Real
    row c ih = sum numbers layer.in_width (cell c ih)

    abbrev part : (ih iw c : ℕ) → Real
    part ih iw c = plus (sum numbers ih (row c)) (sum numbers iw (cell c ih))

    -- What the rounds before the position `ih`, `iw` leave; the first position is there from the start.
    abbrev Pooled : ℕ → ℕ → List Ciphertext → Type 0
    Pooled ih iw us =
        ((ih ≡ 0) × (iw ≡ 0) × Totals (v 0 0) us) ⊎ ((0 < ih + iw) × Totals (part ih iw) us)

    first_part :
        (ih iw c : ℕ)
        → ih ≡ 0
        → iw ≡ 0
        → plus (sum numbers ih (row c)) (sum numbers (suc iw) (cell c ih)) ≡ v 0 0 c
    first_part ih iw c e z =
        rw
          (
            e,
            z,
            sum-suc numbers 0 (cell c 0),
            sum-zero numbers (row c),
            sum-zero numbers (cell c 0),
            nil-plus (v 0 0 c),
          )
          (nil-plus (v 0 0 c))

    next_part :
        (ih iw c : ℕ)
        → plus (plus (sum numbers ih (row c)) (sum numbers iw (cell c ih))) (cell c ih iw)
          ≡ plus (sum numbers ih (row c)) (sum numbers (suc iw) (cell c ih))
    next_part ih iw c =
        rw (sum-suc numbers iw (cell c ih))
          (plus_assoc (sum numbers ih (row c)) (sum numbers iw (cell c ih)) (cell c ih iw))

    add_position_lem :
        (ih iw : ℕ) (us : List Ciphertext)
        → ih < layer.in_height
        → iw < layer.in_width
        → Pooled ih iw us
        → Returns (add_position seal layer input ih iw us) (Pooled ih (suc iw))
    unfolding add_position
    add_position_lem ih iw us lh lw (inl (e, z, h)) = rw test (
      us,
      refl,
      inr (
        omega arith,
        Filled-weaken layer.in_channels _ _ us
            (λ c x hx. subst (λ t. Holds seal l s 1 t x) (sym (first_part ih iw c e z)) hx) h,
      ),
    )
      where
        test : (ih == 0 && iw == 0) ≡ true
        test = ground arith
    add_position_lem ih iw us lh lw (inr (p, h)) = rw test (
        Returns_weaken
          (Pixels.add_pixels_lem seal layer l s v input cells (part ih iw) ih iw us lh lw h)
          λ vs hv. inr (
            omega arith,
            Filled-weaken layer.in_channels _ _ vs
                (λ c x hx. subst (λ t. Holds seal l s 1 t x) (next_part ih iw c) hx) hv,
          ))
      where
        test : (ih == 0 && iw == 0) ≡ false
        test = ground arith

    abbrev Rows : ℕ → List Ciphertext → Type 0
    Rows ih us =
        ((ih ≡ 0) × Totals (v 0 0) us) ⊎ ((0 < ih) × Totals (λ c. sum numbers ih (row c)) us)

    zero_part :
        (ih c : ℕ)
        → plus (sum numbers ih (row c)) (sum numbers 0 (cell c ih)) ≡ sum numbers ih (row c)
    zero_part ih c = rw (sum-zero numbers (cell c ih)) (plus-nil numbers (sum numbers ih (row c)))

    start_row : (ih : ℕ) (us : List Ciphertext) → Rows ih us → Pooled ih 0 us
    start_row ih us (inl (e, h)) = inl (e, refl, h)
    start_row ih us (inr (p, h)) = inr (
      omega arith,
      Filled-weaken layer.in_channels _ _ us
          (λ c x hx. subst (λ t. Holds seal l s 1 t x) (sym (zero_part ih c)) hx) h,
    )

    end_row :
        (ih : ℕ) (us : List Ciphertext)
        → 0 < layer.in_width
        → Pooled ih layer.in_width us
        → Rows (suc ih) us
    end_row ih us pos (inl (_, e, _)) = absurd (omega (arith, pos))
    end_row ih us pos (inr (_, h)) = inr (
      omega arith,
      Filled-weaken layer.in_channels _ _ us (λ c x hx. rw (sum-suc numbers ih (row c)) hx) h,
    )

    Totals-all :
        (us : List Ciphertext)
        → 0 < layer.in_height
        → Rows layer.in_height us
        → Totals (λ c. sum numbers layer.in_height (row c)) us
    Totals-all us pos (inl (e, _)) = absurd (omega (arith, pos))
    Totals-all us pos (inr (_, h)) = h

    global_lem :
        layer.out_units ≡ layer.in_channels
        → 0 < layer.in_height
        → 0 < layer.in_width
        → Returns
            (global_average_pooling2d_flatten seal layer input)
            (Totals λ c. sum numbers layer.in_height (row c))
    unfolding global_average_pooling2d_flatten
    global_lem units ph pw =
        Returns->>= _ _
          (tabulate-Filled layer.out_units (λ ou. at input 0 0 ou) (λ c. Holds seal l s 1 (v 0 0 c))
            λ c lt. at-Cells input cells 0 0 c ph pw (omega (arith, units)))
          λ firsts h.
            Returns_weaken
              (for_range_inv_zero Rows layer.in_height _
                (λ ih lh us rows.
                  Returns_weaken
                    (for_range_inv_zero (Pooled ih) layer.in_width _
                      (λ iw lw vs pooled. add_position_lem ih iw vs lh lw pooled) us
                      (start_row ih us rows))
                    λ vs pooled. end_row ih vs pw pooled)
                firsts
                (inl
                  (refl, subst (λ n. Filled n (λ c. Holds seal l s 1 (v 0 0 c)) firsts) units h)))
              λ us rows. Totals-all us ph rows

  -- `GlobalAveragePooling2D::flatten` of a tensor with the extents of the layer, of at least one
  -- position, and with one unit for each channel, throws nothing and consumes no level: each unit holds
  -- the sum of its channel over all positions, without the factor.
  pub global_average_pooling2d_flatten-sum :
      (layer : Flatten) (l : ℕ) (s : Scale) (v : ℕ → ℕ → ℕ → Real) (input : Tensor Ciphertext)
      → Cells layer.in_height layer.in_width layer.in_channels
          (λ h w c. Holds seal l s 1 (v h w c))
          input
      → layer.out_units ≡ layer.in_channels
      → 0 < layer.in_height
      → 0 < layer.in_width
      → Returns (global_average_pooling2d_flatten seal layer input) (
          Filled layer.in_channels λ c.
            Holds seal l s 1
              (sum numbers layer.in_height λ ih. sum numbers layer.in_width λ iw. v ih iw c))
  global_average_pooling2d_flatten-sum layer l s v input cells units ph pw =
      global_lem layer l s v input cells units ph pw
