-- ===== src/Cnn/Conv2d/Cell.antt =====
-- One cell of `Conv2D::forward`: the loops over the taps.
use pp_cnn.Prelude.{
  ℕ, suc, ◌+◌, ◌<◌, ◌≡◌, refl, subst, inl, inr, true, false, ◌&&◌, not, arith, Returns, Returns->>=,
  for_range, for_range_inv_zero, if◌then◌else◌, Bool-cases,
}
use native.Mathlib.Nat.{add_assoc, add-zero}
use pp_cnn.Seal.{Seal, Holds, rescale_to_next-Holds, set_scale-Holds, add_plain-Holds}
use pp_cnn.Cnn.Geometry.{target_start, target_at, is_out_of_range_input}
use pp_cnn.Cnn.Geometry.Reach.{covers, source_cell, target_at-covers, is_out_of_range_input-covers}
use pp_cnn.Cnn.Tensor.{Tensor}
use pp_cnn.Cnn.Sums.{
  sum, sum-zero, sum-suc, sum_of_nil, plus-nil, count, count-zero, count-suc, count-pos,
}
use pp_cnn.Cnn.Options.{scale_param}
use pp_cnn.Cnn.Conv2d.Convolution.{padded, tap_sum, convolution, Conv2dInput}
use pp_cnn.Cnn.Conv2d.Tap
use pp_cnn.Cnn.Conv2d.{Conv2d, Accumulator, add_covered_tap, add_tap, add_taps, conv2d_cell}

module _ (seal : Seal) where
  open seal use {
    numbers, Real, nil, plus, times, plus_assoc, nil-plus, nil-times, Scale, Plaintext, Ciphertext,
    capacity, Nominal, product, NonZero, blank, pow2-Nominal,
  }

  module _ (conv : Conv2d seal) (l : ℕ) (s : Scale) (v : ℕ → ℕ → ℕ → Real)
      (f : ℕ → ℕ → ℕ → ℕ → Real) (b : ℕ → Real) (input : Tensor Ciphertext)
      (given : Conv2dInput seal conv l s v f b input) where
    abbrev Summed : ℕ → Real → Ciphertext → Type 0
    Summed = Tap.Summed seal conv l s v f b input given

    -- Whether a tap lies on the input, as a number.
    abbrev hit : (oh ow fh fw : ℕ) → ℕ
    hit oh ow fh fw = if covers conv.height oh fh && covers conv.width ow fw then 1 else 0

    abbrev Running : ℕ → Real → Accumulator seal → Type 0
    Running c total acc = (acc.counter ≡ c) × Summed c total acc.output

    module _ (oh ow oc : ℕ) (loh : oh < conv.height.out) (low : ow < conv.width.out)
        (loc : oc < conv.out_channels) where
      abbrev tap : ℕ → ℕ → Real
      tap fh fw = tap_sum seal conv.height conv.width conv.in_channels v f oh ow oc fh fw

      add_covered_tap_lem :
          (fh fw c : ℕ) (total : Real) (acc : Accumulator seal)
          → fh < conv.height.window
          → fw < conv.width.window
          → covers conv.height oh fh ≡ true
          → covers conv.width ow fw ≡ true
          → Running c total acc
          → Returns
              (add_covered_tap seal conv input
                (source_cell conv.height oh fh)
                (source_cell conv.width ow fw)
                fh
                fw
                oc
                acc)
              (Running (c + 1) (plus total (tap fh fw)))
      unfolding add_covered_tap tap_sum padded
      add_covered_tap_lem fh fw c total acc lfh lfw ch cw (e, summed) =
          rw (e, ch, cw)
            (Returns->>= _ _
              (Tap.add_channels_lem seal conv l s v f b input given (source_cell conv.height oh fh)
                (source_cell conv.width ow fw) fh fw oc (ground arith) (ground arith) lfh lfw loc c
                total acc.output summed)
              λ output hold. (_, refl, (refl, inr (omega arith, hold))))

      outside :
          (fh fw : ℕ)
          → (covers conv.height oh fh && covers conv.width ow fw) ≡ false
          → tap fh fw ≡ nil
      unfolding tap_sum padded
      outside fh fw out =
          rw out (sum_of_nil numbers conv.in_channels _ λ ic. nil-times (f fh fw ic oc))

      add_tap_lem :
          (fh fw c : ℕ) (total : Real) (acc : Accumulator seal)
          → fh < conv.height.window
          → fw < conv.width.window
          → Running c total acc
          → Returns
              (add_tap seal conv input oh ow oc fh fw acc)
              (Running (c + hit oh ow fh fw) (plus total (tap fh fw)))
      unfolding add_tap
      add_tap_lem fh fw c total acc lfh lfw run =
          elim (Bool-cases (covers conv.height oh fh && covers conv.width ow fw)) [
            | inl on ↦
                let ch : covers conv.height oh fh ≡ true = ground arith in
                let cw : covers conv.width ow fw ≡ true = ground arith in
                rw
                  (
                    reject,
                    on,
                    target_at-covers conv.height oh fh given.fits_height loh lfh ch,
                    target_at-covers conv.width ow fw given.fits_width low lfw cw,
                  )
                  (add_covered_tap_lem fh fw c total acc lfh lfw ch cw run)
            | inr off ↦
                rw (reject, off, outside fh fw off, plus-nil numbers total)
                  (
                    acc,
                    refl,
                    subst (λ n. Running n total acc) {x = c} {y = c + 0} (omega arith) run,
                  )
          ]
        where
          reject :
              is_out_of_range_input conv.height conv.width
                (target_at (target_start conv.width ow) fw)
                (target_at (target_start conv.height oh) fh)
              ≡ not (covers conv.height oh fh && covers conv.width ow fw)
          reject =
              is_out_of_range_input-covers conv.height conv.width oh ow fh fw given.fits_height
                given.fits_width loh low lfh lfw

      abbrev row_hits : ℕ → ℕ
      row_hits fh = count conv.width.window (hit oh ow fh)

      abbrev row_sum : ℕ → Real
      row_sum fh = sum numbers conv.width.window (tap fh)

      add_row_lem :
          (fh c : ℕ) (total : Real) (acc : Accumulator seal)
          → fh < conv.height.window
          → Running c total acc
          → Returns
              (for_range 0 conv.width.window (add_tap seal conv input oh ow oc fh) acc)
              (Running (c + row_hits fh) (plus total (row_sum fh)))
      add_row_lem fh c total acc lfh run =
          for_range_inv_zero
            (λ fw. Running (c + count fw (hit oh ow fh)) (plus total (sum numbers fw (tap fh))))
            conv.width.window (add_tap seal conv input oh ow oc fh)
            (λ fw lt a r.
              rw
                (
                  count-suc fw (hit oh ow fh),
                  sum-suc numbers fw (tap fh),
                  ← add_assoc c (count fw (hit oh ow fh)) (hit oh ow fh fw),
                  ← plus_assoc total (sum numbers fw (tap fh)) (tap fh fw),
                )
                (add_tap_lem fh fw _ _ a lfh lt r))
            acc
            (rw
              (
                count-zero (hit oh ow fh),
                sum-zero numbers (tap fh),
                plus-nil numbers total,
                add-zero,
              )
              run)

      add_taps_lem :
          (acc : Accumulator seal)
          → Running 0 nil acc
          → Returns
              (add_taps seal conv input oh ow oc acc)
              (Running (count conv.height.window row_hits) (sum numbers conv.height.window row_sum))
      unfolding add_taps
      add_taps_lem acc run =
          for_range_inv_zero (λ fh. Running (count fh row_hits) (sum numbers fh row_sum))
            conv.height.window _
            (λ fh lt a r.
              rw (count-suc fh row_hits, sum-suc numbers fh row_sum) (add_row_lem fh _ _ a lt r))
            acc (rw (count-zero row_hits, sum-zero numbers row_sum) run)

      -- A cell with at least one tap on the input.
      pub conv2d_cell_lem :
          (fh fw : ℕ)
          → fh < conv.height.window
          → fw < conv.width.window
          → covers conv.height oh fh ≡ true
          → covers conv.width ow fw ≡ true
          → Returns (conv2d_cell seal conv input oh ow oc) (
              Holds seal
                (suc l)
                (scale_param seal)
                1
                (convolution seal conv.height conv.width conv.in_channels v f b oh ow oc))
      unfolding conv2d_cell convolution
      conv2d_cell_lem fh fw lfh lfw ch cw =
          Returns->>= _ _
            (add_taps_lem (record { counter = 0; output = blank }) (refl, inl (refl, refl)))
            λ acc run.
              Returns->>= _ _
                (rescale_to_next-Holds seal 1 acc.output (taken acc.output run.1) given.left)
                λ rescaled hr. Returns->>= _ _ (given.biases.cell oc loc) λ bias hb.
                  add_plain-Holds seal _ bias (set_scale-Holds seal rescaled hr (scale_param seal))
                    hb
        where
          hits : 0 < count conv.height.window row_hits
          hits =
              count-pos conv.height.window fh row_hits lfh
                (count-pos conv.width.window fw (hit oh ow fh) lfw (rw (ch, cw) (omega arith)))

          taken :
              (output : Ciphertext)
              → Summed
                  (count conv.height.window row_hits)
                  (sum numbers conv.height.window row_sum)
                  output
              → Holds seal l
                  (product s (scale_param seal))
                  2
                  (sum numbers conv.height.window row_sum)
                  output
          taken output (inl (e, _)) = absurd (omega (arith, hits))
          taken output (inr (_, hold)) = hold
