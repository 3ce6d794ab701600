-- ===== src/Cnn/Activation/Construct.antt =====
-- What the constructor of `Activation` prepares is what `activate` needs.
use pp_cnn.Prelude.{
  ℕ, suc, ◌+◌, ◌≤◌, ◌≡◌, inl, inr, refl, arith, Bool, true, false, List, [], ◌∷◌, map, ◌++◌, Result,
  ok, err, ◌>>=◌, Returns, Returns->>=, if◌then◌else◌, Bool-cases,
}
use pp_cnn.Seal.{Seal, Holds}
use pp_cnn.Cnn.Options.{OptOption, scale_param}
use pp_cnn.Cnn.Activation.{
  Activation, ActivationName, is_square_name, swish_new, swish_with, activate, swish_deg4,
  swish_deg4_opt, encode_coeffs, lower_last,
}
use pp_cnn.Cnn.Activation.Forward.{
  SwishWeights, swish_deg4-quartic, swish_deg4_opt-monic_quartic, quartic, monic_quartic,
}
use pp_cnn.Cnn.Activation.Encode.{AllFit, encode_coeffs-SwishWeights}

module _ (seal : Seal) where
  open seal use {Real, Float, Scale, Ciphertext, capacity, Nominal, Encodable, real}

  -- What the constructor leaves: the coefficients `weights` and `constant` at the level `n`.
  abbrev Prepared :
      ActivationName
      → Bool
      → (n next : ℕ) → List Real
      → Real
      → Activation seal × OptOption seal
      → Type 0
  Prepared name optimized n next weights constant r =
      (r.0.activation ≡ name)
      × (r.0.optimized ≡ optimized)
      × SwishWeights seal n weights constant r.0.plain_poly_coeffs
      × (r.1.consumed_level ≡ next)

  chain {ℓ κ μ} :
      {A : Type ℓ} {B : Type κ} {C : Type μ} (m : Result A) (f : A → Result B) (g : B → Result C)
      {b : B}
      → (m >>= f) ≡ ok b
      → (m >>= λ x. f x >>= g) ≡ g b
  chain (ok x) f g h = rw h
  chain (err e) f g h = cc

  swish_with_lem :
      (name : ActivationName) (optimized : Bool) (depth n : ℕ) (cs : List Float) (c : Float)
      (option : OptOption seal)
      → option.consumed_level + depth ≡ n
      → suc n ≤ capacity
      → AllFit seal cs
      → Encodable c
      → Returns
          (swish_with seal name optimized depth (cs ++ c ∷ []) option)
          (Prepared name optimized n (suc n) (map real cs) (real c))
  unfolding swish_with
  swish_with_lem name optimized depth n cs c option e room fit enc =
      let (qs, eqs, w) = encode_coeffs-SwishWeights seal n cs c room fit enc in
      (
        (
          record { activation = name; optimized = optimized; plain_poly_coeffs = qs },
          record option { consumed_level = option.consumed_level + (depth + 1) },
        ),
        rw e (chain (encode_coeffs seal n (cs ++ c ∷ [])) (lower_last seal) _ eqs),
        (refl, refl, w, omega (arith, e)),
      )

  -- The constructor, and then the layer on one ciphertext; also the level that is now consumed.
  pub build_and_activate :
      ActivationName
      → List Float
      → List Float
      → OptOption seal
      → Ciphertext
      → Result (Ciphertext × ℕ)
  build_and_activate name coeffs opt_coeffs option x = do
    (act, option') ← swish_new seal name coeffs opt_coeffs option
    y ← activate seal act x
    ok (y, option'.consumed_level)

  -- The value of the swish with the one or the other list of coefficients.
  abbrev pub swish_value : Bool → (a b c d b' c' d' : Float) → Real → Real
  swish_value true a b c d b' c' d' v = monic_quartic seal (real b') (real c') (real d') v
  swish_value false a b c d b' c' d' v = quartic seal (real a) (real b) (real c) (real d) v

  -- What `activate` calls on a prepared layer.
  activate_swish :
      (name : ActivationName) (optimized : Bool) (n next : ℕ) (ws : List Real) (w : Real)
      (r : Activation seal × OptOption seal) (x : Ciphertext)
      → is_square_name name ≡ false
      → Prepared name optimized n next ws w r
      → activate seal r.0 x ≡ (
          if optimized
          then swish_deg4_opt seal r.0.plain_poly_coeffs x
          else swish_deg4 seal r.0.plain_poly_coeffs x)
  unfolding activate
  activate_swish name optimized n next ws w r x other p = rw (p.0, other, p.1)

  -- A layer with a swish, built when `consumed_level` is the level of its input, throws nothing if
  -- three levels are left: it evaluates its polynomial, with or without the optimisation, and its
  -- result is at the new `consumed_level` and at the nominal scale.
  pub swish_new-activate :
      (name : ActivationName) (a b c d b' c' d' : Float) (option : OptOption seal) (x : Ciphertext)
      {s : Scale} {v : Real}
      → is_square_name name ≡ false
      → option.consumed_level + 3 ≤ capacity
      → AllFit seal (a ∷ b ∷ c ∷ d ∷ [])
      → AllFit seal (b' ∷ c' ∷ d' ∷ [])
      → Holds seal option.consumed_level s 1 v x
      → Nominal s
      → Returns (build_and_activate name (a ∷ b ∷ c ∷ d ∷ []) (b' ∷ c' ∷ d' ∷ []) option x) λ r.
        Holds seal r.1
          (scale_param seal)
          1
          (swish_value option.enable_optimize_activation a b c d b' c' d' v)
          r.0
  unfolding build_and_activate swish_new
  swish_new-activate name a b c d b' c' d' option x {s} {v} other room fit fit' hx n =
      elim (Bool-cases option.enable_optimize_activation) [
        | inl on ↦ simp on (
            Returns->>= _ _
              (swish_with_lem name true 1 (suc option.consumed_level) (b' ∷ c' ∷ []) d' option
                (omega arith) (omega arith) (fit'.0, (fit'.1.0, tt)) fit'.1.1.0.0)
              λ r p.
                Returns->>= _ _
                  (rw (activate_swish name true _ _ _ _ r x other p) (
                    swish_deg4_opt-monic_quartic seal x hx n _ _ _ r.0.plain_poly_coeffs
                      (omega arith) p.2))
                  λ y hy. ((y, r.1.consumed_level), refl, rw p.3 hy))
        | inr off ↦ simp off (
            Returns->>= _ _
              (swish_with_lem name false 2 (suc (suc option.consumed_level)) (a ∷ b ∷ c ∷ []) d
                option (omega arith) (omega arith) (fit.0, (fit.1.0, (fit.1.1.0, tt)))
                fit.1.1.1.0.0)
              λ r p.
                Returns->>= _ _
                  (rw (activate_swish name false _ _ _ _ r x other p) (
                    swish_deg4-quartic seal x hx n _ _ _ _ r.0.plain_poly_coeffs (omega arith) p.2))
                  λ y hy. ((y, r.1.consumed_level), refl, rw p.3 hy))
      ]
