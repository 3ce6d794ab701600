-- ===== src/Cnn/Activation/Square.antt =====
-- The option SQUARE with a layer whose activation has another name.
use pp_cnn.Prelude.{
  ℕ, ◌+◌, ◌≤◌, ◌≡◌, refl, arith, false, [], err, out_of_range, Returns, inl, inr, Bool-cases, index,
}
use pp_cnn.Seal.{Seal, Holds, square-Holds, relinearize-Holds, mod_switch_to_next-Holds}
use pp_cnn.Cnn.Floats.{FloatOps}
use pp_cnn.Cnn.Options.{OptOption, square_option}
use pp_cnn.Cnn.Activation.{
  Activation, ActivationName, is_square_name, activation_new, activate, swish_deg4, swish_deg4_opt,
}
use pp_cnn.Cnn.Activation.Forward.{activate_square_lem}

module _ (seal : Seal) where
  open seal use {Float, Real, Scale, Ciphertext, capacity, Nominal, rescaled-Nominal}

  module _ {l : ℕ} {s : Scale} {v : Real} (x : Ciphertext) (hx : Holds seal l s 1 v x)
      (n : Nominal s) (room : l + 2 ≤ capacity) where
    swish_deg4-empty : swish_deg4 seal [] x ≡ err out_of_range
    unfolding swish_deg4 index
    swish_deg4-empty =
        let (x2, e2, h2) = activate_square_lem seal x hx (omega arith) n in
        let (x4, e4, _) =
          activate_square_lem seal x2 h2 (omega arith) (rescaled-Nominal s s l n n) in
        let (x2_low, e2', _) = mod_switch_to_next-Holds seal x2 h2 (omega arith) in
        let (x_low, e1, h1) = mod_switch_to_next-Holds seal x hx (omega arith) in
        let (x_lower, e1', _) = mod_switch_to_next-Holds seal x_low h1 (omega arith) in
        rw (swish_deg4, e2, e4, e2', e1, e1') refl

    swish_deg4_opt-empty : swish_deg4_opt seal [] x ≡ err out_of_range
    unfolding swish_deg4_opt index
    swish_deg4_opt-empty =
        let (x2, e2, h2) = activate_square_lem seal x hx (omega arith) n in
        let (x4_large, e4, h4) =
          square-Holds seal x2 h2 (omega arith) (rescaled-Nominal s s l n n) in
        let (x4, e4', _) = relinearize-Holds seal x4_large h4 in
        let (x_low, e1, h1) = mod_switch_to_next-Holds seal x hx (omega arith) in
        rw (swish_deg4_opt, e2, e4, e4', e1) refl

  activate-empty :
      (act : Activation seal) {l : ℕ} {s : Scale} {v : Real} (x : Ciphertext)
      → is_square_name act.activation ≡ false
      → act.plain_poly_coeffs ≡ []
      → Holds seal l s 1 v x
      → Nominal s
      → l + 2 ≤ capacity
      → activate seal act x ≡ err out_of_range
  unfolding activate
  activate-empty act x other none_left hx n room = elim (Bool-cases act.optimized) [
    | inl on ↦ simp (activate, other, on, none_left) (swish_deg4_opt-empty x hx n room)
    | inr off ↦ simp (activate, other, off, none_left) (swish_deg4-empty x hx n room)
  ]

  -- With the option SQUARE, the constructor accepts a layer whose activation is not named "square", and
  -- prepares no coefficients; on any input with two levels left, the layer then reads the first of them
  -- behind the end of the vector.
  pub activation_new-square_option :
      (ops : FloatOps Float) (name : ActivationName) (option : OptOption seal) (x : Ciphertext)
      {l : ℕ} {s : Scale} {v : Real}
      → is_square_name name ≡ false
      → option.activation ≡ square_option
      → Holds seal l s 1 v x
      → Nominal s
      → l + 2 ≤ capacity
      → Returns (activation_new seal ops name option) λ r. activate seal r.0 x ≡ err out_of_range
  unfolding activation_new
  activation_new-square_option ops name option x other chosen hx n room = (
    (
      record {
        activation = name;
        optimized = option.enable_optimize_activation;
        plain_poly_coeffs = [];
      },
      record option { consumed_level = option.consumed_level + 1 },
    ),
    simp (activation_new, other, chosen) refl,
    activate-empty _ x other refl hx n room,
  )
