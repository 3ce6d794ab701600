-- ===== src/Cnn/Activation/Forward.antt =====
-- `Activation::activate` evaluates its polynomial, and throws nothing.
use pp_cnn.Prelude.{
  ℕ, suc, ◌+◌, ◌<◌, ◌≡◌, arith, List, Returns, Returns->>=, get_elem?, some, index, length, [], ◌∷◌,
  refl,
}
use pp_cnn.Seal.{
  Seal, Holds, PlainHolds, multiply_plain-Holds, rescale_to_next-Holds, set_scale-Holds, add-Holds,
  add_plain-Holds, square-Holds, relinearize-Holds, mod_switch_to_next-Holds,
}
use pp_cnn.Cnn.Options.{scale_param}
use pp_cnn.Cnn.Activation.{activate_square, swish_deg4, swish_deg4_opt}

module _ (seal : Seal) where
  open seal use {
    Real, plus, times, Scale, Ciphertext, Plaintext, capacity, Nominal, NonZero, pow2-Nominal,
    product, rescaled, rescaled-Nominal,
  }

  abbrev pub squared : Scale → ℕ → Scale
  squared s l = rescaled (product s s) l

  pub activate_square_lem :
      {l : ℕ} {s : Scale} {v : Real} (x : Ciphertext)
      → Holds seal l s 1 v x
      → l < capacity
      → Nominal s
      → Returns (activate_square seal x) (Holds seal (suc l) (squared s l) 1 (times v v))
  unfolding activate_square
  activate_square_lem x h lt n = Returns->>= _ _ (square-Holds seal x h lt n) λ y hy.
      Returns->>= _ _ (relinearize-Holds seal y hy) λ y' hy'. rescale_to_next-Holds seal 1 y' hy' lt

  -- a * x ^ 4 + b * x ^ 2 + c * x + d
  abbrev pub quartic : (a b c d x : Real) → Real
  quartic a b c d x =
      plus (plus (plus (times (times (times x x) (times x x)) a) (times (times x x) b)) (times x c))
        d

  -- x ^ 4 + b * x ^ 2 + c * x + d
  abbrev pub monic_quartic : (b c d x : Real) → Real
  monic_quartic b c d x =
      plus (plus (plus (times (times x x) (times x x)) (times (times x x) b)) (times x c)) d

  -- The encoded coefficients: all of them `n` levels down, and the last one level further.
  pub record SwishWeights (n : ℕ) (weights : List Real) (constant : Real) (ps : List Plaintext)
      : Type 0 where
    pub factors :
        (i : ℕ) (w : Real)
        → get_elem? weights i ≡ some w
        → Returns (index ps i) (λ p. PlainHolds seal n (scale_param seal) w p × NonZero p)
    pub last :
        Returns (index ps (length weights)) (PlainHolds seal (suc n) (scale_param seal) constant)

  module _ {l : ℕ} {s : Scale} {v : Real} (x : Ciphertext) (hx : Holds seal l s 1 v x)
      (n : Nominal s) where
    -- `swishDeg4` on an input at the level `l` with three levels left returns
    -- `a x^4 + b x^2 + c x + d`, three levels down and at the nominal scale.
    pub swish_deg4-quartic :
        (a b c d : Real) (ps : List Plaintext)
        → l + 2 < capacity
        → SwishWeights (suc (suc l)) (a ∷ b ∷ c ∷ []) d ps
        → Returns
            (swish_deg4 seal ps x)
            (Holds seal (suc (suc (suc l))) (scale_param seal) 1 (quartic a b c d v))
    unfolding swish_deg4
    swish_deg4-quartic a b c d ps room w =
        let l0 : l < capacity = omega arith in
        let l1 : suc l < capacity = omega arith in
        let l2 : suc (suc l) < capacity = omega arith in
        let n1 : Nominal (squared s l) = rescaled-Nominal s s l n n in
        let n2 : Nominal (squared (squared s l) (suc l)) = rescaled-Nominal _ _ (suc l) n1 n1 in
        Returns->>= _ _ (activate_square_lem x hx l0 n) λ x2 h2.
          Returns->>= _ _ (activate_square_lem x2 h2 l1 n1) λ x4 h4.
            Returns->>= _ _ (mod_switch_to_next-Holds seal x2 h2 l1) λ x2_low h2'.
              Returns->>= _ _ (mod_switch_to_next-Holds seal x hx l0) λ x_low h1.
                Returns->>= _ _ (mod_switch_to_next-Holds seal x_low h1 l1) λ x_lower h1'.
                  Returns->>= _ _ (w.factors 0 a refl) λ pa ha.
                    Returns->>= _ _
                      (multiply_plain-Holds seal x4 h4 pa ha.0 ha.1 l2 n2 pow2-Nominal)
                      λ ax4 g4. Returns->>= _ _ (w.factors 1 b refl) λ pb hb.
                        Returns->>= _ _
                          (multiply_plain-Holds seal x2_low h2' pb hb.0 hb.1 l2 n1 pow2-Nominal)
                          λ bx2 g2. Returns->>= _ _ (w.factors 2 c refl) λ pc hc.
                            Returns->>= _ _
                              (multiply_plain-Holds seal x_lower h1' pc hc.0 hc.1 l2 n pow2-Nominal)
                              λ cx g1.
                                Returns->>= _ _
                                  (add-Holds seal _ (set_scale-Holds seal ax4 g4 (scale_param seal))
                                    _ (set_scale-Holds seal bx2 g2 (scale_param seal)))
                                  λ y k.
                                    Returns->>= _ _
                                      (add-Holds seal y k _
                                        (set_scale-Holds seal cx g1 (scale_param seal)))
                                      λ z kz.
                                        Returns->>= _ _ (rescale_to_next-Holds seal 1 z kz l2)
                                          λ z_low kl. Returns->>= _ _ w.last λ pd hd.
                                            add_plain-Holds seal _ pd
                                              (set_scale-Holds seal z_low kl (scale_param seal)) hd

    -- `swishDeg4Opt` on an input at the level `l` with two levels left returns
    -- `x^4 + b x^2 + c x + d`, two levels down and at the nominal scale.
    pub swish_deg4_opt-monic_quartic :
        (b c d : Real) (ps : List Plaintext)
        → l + 1 < capacity
        → SwishWeights (suc l) (b ∷ c ∷ []) d ps
        → Returns
            (swish_deg4_opt seal ps x)
            (Holds seal (suc (suc l)) (scale_param seal) 1 (monic_quartic b c d v))
    unfolding swish_deg4_opt
    swish_deg4_opt-monic_quartic b c d ps room w =
        let l0 : l < capacity = omega arith in
        let l1 : suc l < capacity = omega arith in
        let n1 : Nominal (squared s l) = rescaled-Nominal s s l n n in
        Returns->>= _ _ (activate_square_lem x hx l0 n) λ x2 h2.
          Returns->>= _ _ (square-Holds seal x2 h2 l1 n1) λ x4_large h4'.
            Returns->>= _ _ (relinearize-Holds seal x4_large h4') λ x4 h4.
              Returns->>= _ _ (mod_switch_to_next-Holds seal x hx l0) λ x_low h1.
                Returns->>= _ _ (w.factors 0 b refl) λ pb hb.
                  Returns->>= _ _ (multiply_plain-Holds seal x2 h2 pb hb.0 hb.1 l1 n1 pow2-Nominal)
                    λ bx2 g2. Returns->>= _ _ (w.factors 1 c refl) λ pc hc.
                      Returns->>= _ _
                        (multiply_plain-Holds seal x_low h1 pc hc.0 hc.1 l1 n pow2-Nominal)
                        λ cx g1.
                          Returns->>= _ _
                            (add-Holds seal _ (set_scale-Holds seal x4 h4 (scale_param seal)) _
                              (set_scale-Holds seal bx2 g2 (scale_param seal)))
                            λ y k.
                              Returns->>= _ _
                                (add-Holds seal y k _
                                  (set_scale-Holds seal cx g1 (scale_param seal)))
                                λ z kz.
                                  Returns->>= _ _ (rescale_to_next-Holds seal 1 z kz l1) λ z_low kl.
                                    Returns->>= _ _ w.last λ pd hd.
                                      add_plain-Holds seal _ pd
                                        (set_scale-Holds seal z_low kl (scale_param seal)) hd
