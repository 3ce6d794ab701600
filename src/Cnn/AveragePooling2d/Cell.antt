-- ===== src/Cnn/AveragePooling2d/Cell.antt =====
-- One cell of `AveragePooling2D::forward`, on a window inside the input and on one that is not.
use mathlib.Core.Bool.{true≢false}
use pp_cnn.Prelude.{
  sym, ◌∙◌, ℕ, zero, suc, ◌<◌, ◌≡◌, refl, ◌⊎◌, inl, inr, true, false, ◌&&◌, arith, Result, ok, err,
  seal_error, ◌>>=◌, Returns, Returns->>=, Returns_weaken, for_range_inv_zero, for_range-idle,
  for_range-throws, ◌==◌, Bool-cases,
}
use pp_cnn.Seal.{Seal, Holds, PlainHolds, multiply_plain-Holds, rescale_to_next-Holds}
use pp_cnn.Cnn.Geometry.Reach.{covers, source_cell, target_at-covers, is_out_of_range_input-covers}
use pp_cnn.Cnn.Tensor.{Tensor, Cells, at-Cells, fill-Cells}
use pp_cnn.Cnn.Options.{scale_param}
use pp_cnn.Cnn.AveragePooling2d.{
  AveragePooling2d, pool_covered_tap, pool_tap, pool_taps, multiply_factor, pool_cell,
}
use pp_cnn.Cnn.AveragePooling2d.Window.{Inside, PoolInput, window_sum}
use pp_cnn.Cnn.AveragePooling2d.Window

module _ (seal : Seal) where
  open seal use {
    numbers, Real, plus, times, nil, nil-plus, plus_assoc, Scale, Plaintext, Ciphertext, capacity,
    Nominal, product, rescaled, NonZero, blank, add, pow2-Nominal, add-blank,
  }

  module _ (pool : AveragePooling2d seal) (l : ℕ) (s : Scale) (v : ℕ → ℕ → ℕ → Real)
      (input : Tensor Ciphertext) (given : PoolInput seal pool l s v input) (oh ow oc : ℕ)
      (loh : oh < pool.height.out) (low : ow < pool.width.out) (loc : oc < pool.out_channels) where
    -- A tap reads the cell that the independent description names.
    pool_tap_covered :
        (ph pw : ℕ)
        → ph < pool.height.window
        → pw < pool.width.window
        → covers pool.height oh ph ≡ true
        → covers pool.width ow pw ≡ true
        → (output : Ciphertext)
        → pool_tap seal pool input oh ow oc ph pw output
          ≡ pool_covered_tap seal input
              (source_cell pool.height oh ph)
              (source_cell pool.width ow pw)
              oc
              ph
              pw
              output
    unfolding pool_tap
    pool_tap_covered ph pw lph lpw ch cw output =
        rw
          (
            is_out_of_range_input-covers pool.height pool.width oh ow ph pw given.fits_height
                given.fits_width loh low lph lpw,
            ch,
            cw,
            target_at-covers pool.height oh ph given.fits_height loh lph ch,
            target_at-covers pool.width ow pw given.fits_width low lpw cw,
          )
          refl

    pool_tap_uncovered :
        (ph pw : ℕ)
        → ph < pool.height.window
        → pw < pool.width.window
        → (covers pool.height oh ph && covers pool.width ow pw) ≡ false
        → (output : Ciphertext) → pool_tap seal pool input oh ow oc ph pw output ≡ ok output
    unfolding pool_tap
    pool_tap_uncovered ph pw lph lpw out output =
        rw
          (
            is_out_of_range_input-covers pool.height pool.width oh ow ph pw given.fits_height
                given.fits_width loh low lph lpw,
            out,
          )
          refl

    pixel_lem :
        (ph pw : ℕ)
        → ph < pool.height.window
        → pw < pool.width.window
        → covers pool.height oh ph ≡ true
        → covers pool.width ow pw ≡ true
        → (f : Ciphertext → Result Ciphertext) {P : Ciphertext → Type 0}
        → ((pixel : Ciphertext)
            → Holds seal l s 1
                (v (source_cell pool.height oh ph) (source_cell pool.width ow pw) oc)
                pixel
            → Returns (f pixel) P)
        → Returns
            (pp_cnn.Cnn.Tensor.at input
                (source_cell pool.height oh ph)
                (source_cell pool.width ow pw)
                oc
              >>= f)
            P
    pixel_lem ph pw lph lpw ch cw f k =
        Returns->>= _ f
          (at-Cells input given.cells (source_cell pool.height oh ph) (source_cell pool.width ow pw)
            oc (ground arith) (ground arith) loc)
          k

    pool_taps_lem :
        Inside pool.height
        → Inside pool.width
        → (output : Ciphertext)
        → Returns
            (pool_taps seal pool input oh ow oc output)
            (Holds seal l s 1 (window_sum seal pool.height pool.width v oh ow oc))
    unfolding pool_taps pool_covered_tap
    pool_taps_lem ih iw output =
        Returns_weaken
          (for_range_inv_zero (Window.Rows seal pool.height pool.width l s v oh ow oc)
            pool.height.window _
            (λ ph lph out rows.
              Returns_weaken
                (for_range_inv_zero (Window.Pooled seal pool.height pool.width l s v oh ow oc ph)
                  pool.width.window _
                  (λ pw lpw out' pooled.
                    rw (pool_tap_covered ph pw lph lpw (ih oh ph loh lph) (iw ow pw low lpw) out') (
                      pixel_lem ph pw lph lpw (ih oh ph loh lph) (iw ow pw low lpw) _ λ pixel hp.
                        Window.join seal pool.height pool.width l s v oh ow oc ph pw out' pixel
                          pooled hp))
                  out (Window.start_row seal pool.height pool.width l s v oh ow oc ph out rows))
                λ out' pooled.
                  Window.end_row seal pool.height pool.width l s v oh ow oc ph out'
                    given.window_width pooled)
            output (inl refl))
          λ out rows.
            Window.total seal pool.height pool.width l s v oh ow oc out given.window_height rows

    -- The taps of a cell whose first tap is off the input, but another one is not.
    off_first :
        (covers pool.height oh 0 && covers pool.width ow 0) ≡ false
        → (ph pw : ℕ) → (covers pool.height oh ph && covers pool.width ow pw) ≡ true
        → (ph == 0 && pw == 0) ≡ false
    off_first first zero zero on = absurd (true≢false (sym on ∙ first))
    off_first first zero (suc pw) on = ground arith
    off_first first (suc ph) pw on = ground arith

    add_to_blank :
        (covers pool.height oh 0 && covers pool.width ow 0) ≡ false
        → (ph pw : ℕ) → ph < pool.height.window
        → pw < pool.width.window
        → (covers pool.height oh ph && covers pool.width ow pw) ≡ true
        → pool_tap seal pool input oh ow oc ph pw blank ≡ err seal_error
    unfolding pool_covered_tap
    add_to_blank first ph pw lph lpw on =
        let ch : covers pool.height oh ph ≡ true = ground arith in
        let cw : covers pool.width ow pw ≡ true = ground arith in
        let (pixel, e, _) =
          at-Cells input given.cells (source_cell pool.height oh ph) (source_cell pool.width ow pw)
            oc (ground arith) (ground arith) loc in
        rw (pool_tap_covered ph pw lph lpw ch cw blank, e, off_first first ph pw on)
          (add-blank pixel)

    idle_tap :
        (covers pool.height oh 0 && covers pool.width ow 0) ≡ false
        → (ph pw : ℕ) → ph < pool.height.window
        → pw < pool.width.window
        → (pool_tap seal pool input oh ow oc ph pw blank ≡ ok blank)
          ⊎ (pool_tap seal pool input oh ow oc ph pw blank ≡ err seal_error)
    idle_tap first ph pw lph lpw =
        elim (Bool-cases (covers pool.height oh ph && covers pool.width ow pw)) [
          | inr out ↦ inl (pool_tap_uncovered ph pw lph lpw out blank)
          | inl on ↦ inr (add_to_blank first ph pw lph lpw on)
        ]

    pool_taps-throws :
        (covers pool.height oh 0 && covers pool.width ow 0) ≡ false
        → (ph pw : ℕ) → ph < pool.height.window
        → pw < pool.width.window
        → (covers pool.height oh ph && covers pool.width ow pw) ≡ true
        → pool_taps seal pool input oh ow oc blank ≡ err seal_error
    unfolding pool_taps
    pool_taps-throws first ph pw lph lpw on =
        for_range-throws seal_error 0 pool.height.window _ blank
          (λ k _ lk.
            for_range-idle seal_error 0 pool.width.window _ blank
              λ m _ lm. idle_tap first k m (omega arith) (omega arith))
          ph (omega arith) (omega arith)
          (for_range-throws seal_error 0 pool.width.window _ blank
            (λ m _ lm. idle_tap first ph m lph (omega arith)) pw (omega arith) (omega arith)
            (add_to_blank first ph pw lph lpw on))

    -- A cell whose windows lie inside, with and without the factor.
    pub pool_cell-optimized :
        Inside pool.height
        → Inside pool.width
        → pool.optimized ≡ true
        → Returns
            (pool_cell seal pool input oh ow oc)
            (Holds seal l s 1 (window_sum seal pool.height pool.width v oh ow oc))
    unfolding pool_cell
    pool_cell-optimized ih iw on =
        simp on (Returns->>= _ _ (pool_taps_lem ih iw blank) λ output hold. (output, refl, hold))

    pub pool_cell-factor :
        Inside pool.height
        → Inside pool.width
        → pool.optimized ≡ false
        → (factor : Real) → PlainHolds seal l (scale_param seal) factor pool.plain_mul_factor
        → NonZero pool.plain_mul_factor
        → l < capacity
        → Nominal s
        → Returns (pool_cell seal pool input oh ow oc) (
            Holds seal
              (suc l)
              (rescaled (product s (scale_param seal)) l)
              1
              (times (window_sum seal pool.height pool.width v oh ow oc) factor))
    unfolding pool_cell multiply_factor
    pool_cell-factor ih iw off factor hf nz left n = simp off (
        Returns->>= _ _ (pool_taps_lem ih iw blank) λ output hold.
          Returns->>= _ _
            (multiply_plain-Holds seal output hold pool.plain_mul_factor hf nz left n pow2-Nominal)
            λ weighted w. rescale_to_next-Holds seal 1 weighted w left)

    pub pool_cell-err :
        (covers pool.height oh 0 && covers pool.width ow 0) ≡ false
        → (ph pw : ℕ) → ph < pool.height.window
        → pw < pool.width.window
        → (covers pool.height oh ph && covers pool.width ow pw) ≡ true
        → pool_cell seal pool input oh ow oc ≡ err seal_error
    unfolding pool_cell
    pool_cell-err first ph pw lph lpw on = rw (pool_taps-throws first ph pw lph lpw on) refl
