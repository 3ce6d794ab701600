-- ===== src/Cnn/Dense/Forward.antt =====
-- `Dense::forward` computes the product with the weights, and throws nothing.
use pp_cnn.Prelude.{
  ℕ, suc, ◌<◌, ◌≡◌, refl, ◌⊎◌, inl, inr, true, false, List, arith, ok, Returns, Returns->>=,
  Returns_weaken, for_range_inv_zero, Filled, tabulate-Filled, ◌==◌, if◌then◌else◌,
}
use pp_cnn.Seal.{
  Seal, Holds, PlainHolds, multiply_plain-Holds, add-Holds, rescale_to_next-Holds, set_scale-Holds,
  add_plain-Holds,
}
use pp_cnn.Cnn.Sums.{sum, sum-zero, sum-suc}
use pp_cnn.Cnn.Options.{scale_param}
use pp_cnn.Cnn.Dense.{Dense, weight_at, add_units, dense_unit, dense_forward}

module _ (seal : Seal) where
  open seal use {
    numbers, Real, plus, times, nil-plus, Scale, Ciphertext, capacity, Nominal, product, NonZero,
    blank, pow2-Nominal,
  }

  -- What the layer is given: the input at the level `l`, the weights encoded for that level and the
  -- biases for the next.
  pub record DenseInput (dense : Dense seal) (l : ℕ) (s : Scale) (v : ℕ → Real) (f : ℕ → ℕ → Real)
      (b : ℕ → Real) (input : List Ciphertext) : Type 0 where
    pub left : l < capacity
    pub nominal : Nominal s
    pub in_units_pos : 0 < dense.in_units
    pub units : Filled dense.in_units (λ iu. Holds seal l s 1 (v iu)) input
    pub weights :
        Filled dense.in_units
          (λ iu.
            Filled dense.out_units
              λ ou p. PlainHolds seal l (scale_param seal) (f iu ou) p × NonZero p)
          dense.plain_weights
    pub biases :
        Filled dense.out_units
          (λ ou. PlainHolds seal (suc l) (scale_param seal) (b ou))
          dense.plain_biases

  module _ (dense : Dense seal) (l : ℕ) (s : Scale) (v : ℕ → Real) (f : ℕ → ℕ → Real) (b : ℕ → Real)
      (input : List Ciphertext) (given : DenseInput dense l s v f b input) (ou : ℕ)
      (lou : ou < dense.out_units) where
    abbrev term : ℕ → Real
    term iu = times (v iu) (f iu ou)

    abbrev Adding : ℕ → Ciphertext → Type 0
    Adding iu output =
        (iu ≡ 0)
        ⊎ ((0 < iu) × Holds seal l (product s (scale_param seal)) 2 (sum numbers iu term) output)

    weight_at_lem :
        (iu : ℕ)
        → iu < dense.in_units
        → Returns
            (weight_at seal dense.plain_weights iu ou)
            (λ p. PlainHolds seal l (scale_param seal) (f iu ou) p × NonZero p)
    unfolding weight_at
    weight_at_lem iu lt =
        Returns->>= _ _ (given.weights.cell iu lt) λ row filled. filled.cell ou lou

    -- One round: the assignment of the first product, or an addition.
    join :
        (iu : ℕ) (output weighted : Ciphertext)
        → Adding iu output
        → Holds seal l (product s (scale_param seal)) 2 (term iu) weighted
        → Returns (if iu == 0 then ok weighted else seal.add output weighted) (Adding (suc iu))
    join iu output weighted (inl e) w = rw test (weighted, refl, inr (omega arith, first))
      where
        test : (iu == 0) ≡ true
        test = ground arith

        first : Holds seal l (product s (scale_param seal)) 2 (sum numbers (suc iu) term) weighted
        first = rw (sum-suc numbers iu term, e, sum-zero numbers term, nil-plus (term 0), ← e) w
    join iu output weighted (inr (p, hold)) w = rw test (
        Returns_weaken (add-Holds seal output hold weighted w)
          λ z hz. inr (omega arith, rw (sum-suc numbers iu term) hz))
      where
        test : (iu == 0) ≡ false
        test = ground arith

    add_units_lem :
        (output : Ciphertext)
        → Returns (add_units seal dense input ou output) (Adding dense.in_units)
    unfolding add_units
    add_units_lem output =
        for_range_inv_zero Adding dense.in_units _
          (λ iu lt out adding. Returns->>= _ _ (given.units.cell iu lt) λ unit hu.
            Returns->>= _ _ (weight_at_lem iu lt) λ weight hw.
              Returns->>= _ _
                (multiply_plain-Holds seal unit hu weight hw.0 hw.1 given.left given.nominal
                  pow2-Nominal)
                λ weighted w. join iu out weighted adding w)
          output (inl refl)

    added_all :
        (output : Ciphertext)
        → Adding dense.in_units output
        → Holds seal l (product s (scale_param seal)) 2 (sum numbers dense.in_units term) output
    added_all output (inl e) = absurd (omega (arith, given.in_units_pos))
    added_all output (inr (_, hold)) = hold

    dense_unit_lem :
        Returns
          (dense_unit seal dense input ou)
          (Holds seal (suc l) (scale_param seal) 1 (plus (sum numbers dense.in_units term) (b ou)))
    unfolding dense_unit
    dense_unit_lem = Returns->>= _ _ (add_units_lem blank) λ output adding.
        Returns->>= _ _ (rescale_to_next-Holds seal 1 output (added_all output adding) given.left)
          λ rescaled hr. Returns->>= _ _ (given.biases.cell ou lou) λ bias hb.
            add_plain-Holds seal _ bias (set_scale-Holds seal rescaled hr (scale_param seal)) hb

  -- `Dense::forward` throws nothing on at least one input unit, and its unit `ou` holds
  -- `Σ_iu v iu * f iu ou + b ou`, one level further down the chain and at the nominal scale.
  pub dense_forward-affine :
      (dense : Dense seal) (l : ℕ) (s : Scale) (v : ℕ → Real) (f : ℕ → ℕ → Real) (b : ℕ → Real)
      (input : List Ciphertext)
      → DenseInput dense l s v f b input
      → Returns (dense_forward seal dense input) (
          Filled dense.out_units λ ou.
            Holds seal
              (suc l)
              (scale_param seal)
              1
              (plus (sum numbers dense.in_units (λ iu. times (v iu) (f iu ou))) (b ou)))
  unfolding dense_forward
  dense_forward-affine dense l s v f b input given =
      tabulate-Filled dense.out_units _ _
        λ ou lou. dense_unit_lem dense l s v f b input given ou lou
