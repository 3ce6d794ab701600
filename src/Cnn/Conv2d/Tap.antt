-- ===== src/Cnn/Conv2d/Tap.antt =====
-- One tap of `Conv2D::forward`: the loop over the channels.
use pp_cnn.Prelude.{
  ℕ, suc, ◌+◌, ◌<◌, ◌≡◌, refl, ◌⊎◌, inl, inr, true, false, ◌&&◌, arith, ok, Returns, Returns->>=,
  Returns_weaken, for_range_inv_zero, ◌==◌, if◌then◌else◌,
}
use pp_cnn.Seal.{Seal, Holds, PlainHolds, multiply_plain-Holds, add-Holds}
use pp_cnn.Cnn.Tensor.{Tensor, at-Cells}
use pp_cnn.Cnn.Sums.{sum, sum-zero, sum-suc}
use pp_cnn.Cnn.Options.{scale_param}
use pp_cnn.Cnn.Conv2d.Convolution.{Conv2dInput}
use pp_cnn.Cnn.Conv2d.{Conv2d, filter_at, add_channels}

module _ (seal : Seal) where
  open seal use {
    numbers, Real, nil, plus, times, plus_assoc, nil-plus, nil-times, Scale, Plaintext, Ciphertext,
    capacity, Nominal, product, NonZero, blank, pow2-Nominal,
  }

  module _ (conv : Conv2d seal) (l : ℕ) (s : Scale) (v : ℕ → ℕ → ℕ → Real)
      (f : ℕ → ℕ → ℕ → ℕ → Real) (b : ℕ → Real) (input : Tensor Ciphertext)
      (given : Conv2dInput seal conv l s v f b input) where
    -- After `c` taps on the input, the output is still blank or holds their sum.
    abbrev pub Summed : ℕ → Real → Ciphertext → Type 0
    Summed c total output =
        ((c ≡ 0) × (total ≡ nil))
        ⊎ ((0 < c) × Holds seal l (product s (scale_param seal)) 2 total output)

    filter_at_lem :
        (fh fw ic oc : ℕ)
        → fh < conv.height.window
        → fw < conv.width.window
        → ic < conv.in_channels
        → oc < conv.out_channels
        → Returns
            (filter_at seal conv.plain_filters fh fw ic oc)
            (λ p. PlainHolds seal l (scale_param seal) (f fh fw ic oc) p × NonZero p)
    unfolding filter_at
    filter_at_lem fh fw ic oc lfh lfw lic loc =
        Returns->>= _ _ (given.filters.cell fh lfh)
          λ rows filled. at-Cells rows filled fw ic oc lfw lic loc

    module _ (y x fh fw oc : ℕ) (ly : y < conv.height.size) (lx : x < conv.width.size)
        (lfh : fh < conv.height.window) (lfw : fw < conv.width.window)
        (loc : oc < conv.out_channels) (c : ℕ) (total : Real) where
      abbrev term : ℕ → Real
      term ic = times (v y x ic) (f fh fw ic oc)

      -- Within the loop over the channels: nothing done yet, or a part of this tap added.
      abbrev Adding : ℕ → Ciphertext → Type 0
      Adding ic output =
          ((ic ≡ 0) × Summed c total output)
          ⊎ ((0 < ic)
              × Holds seal l (product s (scale_param seal)) 2 (plus total (sum numbers ic term))
                  output)

      first_term : (ic : ℕ) → ic ≡ 0 → sum numbers (suc ic) term ≡ term ic
      first_term ic e = rw (e, sum-suc numbers 0 term, sum-zero numbers term) (nil-plus (term 0))

      next_term :
          (ic : ℕ)
          → plus (plus total (sum numbers ic term)) (term ic)
            ≡ plus total (sum numbers (suc ic) term)
      next_term ic = rw (sum-suc numbers ic term) (plus_assoc total (sum numbers ic term) (term ic))

      -- One round: the assignment of the first product, or an addition.
      join :
          (ic : ℕ) (output weighted : Ciphertext)
          → Adding ic output
          → Holds seal l (product s (scale_param seal)) 2 (term ic) weighted
          → Returns
              (if c + 1 == 1 && ic == 0 then ok weighted else seal.add output weighted)
              (Adding (suc ic))
      join ic output weighted (inl (e, inl (z, t))) w =
          rw test (weighted, refl, inr (omega arith, first))
        where
          test : (c + 1 == 1 && ic == 0) ≡ true
          test = ground arith

          first :
              Holds seal l
                (product s (scale_param seal))
                2
                (plus total (sum numbers (suc ic) term))
                weighted
          first = rw (t, nil-plus (sum numbers (suc ic) term), first_term ic e) w
      join ic output weighted (inl (e, inr (p, hold))) w = rw test (
          Returns_weaken (add-Holds seal output hold weighted w)
            λ z hz. inr (omega arith, rw (first_term ic e) hz))
        where
          test : (c + 1 == 1 && ic == 0) ≡ false
          test = ground arith
      join ic output weighted (inr (p, hold)) w = rw test (
          Returns_weaken (add-Holds seal output hold weighted w)
            λ z hz. inr (omega arith, rw (← next_term ic) hz))
        where
          test : (c + 1 == 1 && ic == 0) ≡ false
          test = ground arith

      added_all :
          (output : Ciphertext)
          → Adding conv.in_channels output
          → Holds seal l
              (product s (scale_param seal))
              2
              (plus total (sum numbers conv.in_channels term))
              output
      added_all output (inl (e, _)) = absurd (omega (arith, given.channels))
      added_all output (inr (_, hold)) = hold

      pub add_channels_lem :
          (output : Ciphertext)
          → Summed c total output
          → Returns (add_channels seal conv input y x fh fw oc (c + 1) output) (
              Holds seal l
                (product s (scale_param seal))
                2
                (plus total (sum numbers conv.in_channels term)))
      unfolding add_channels
      add_channels_lem output start =
          Returns_weaken
            (for_range_inv_zero Adding conv.in_channels _
              (λ ic lt out adding.
                Returns->>= _ _ (at-Cells input given.cells y x ic ly lx lt) λ pixel hp.
                  Returns->>= _ _ (filter_at_lem fh fw ic oc lfh lfw lt loc) λ weight hw.
                    Returns->>= _ _
                      (multiply_plain-Holds seal pixel hp weight hw.0 hw.1 given.left given.nominal
                        pow2-Nominal)
                      λ weighted w. join ic out weighted adding w)
              output (inl (refl, start)))
            λ out adding. added_all out adding
