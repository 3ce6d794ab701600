-- ===== src/Cnn/Activation/Encode.antt =====
-- The encoding of a value and its way down the chain.
use pp_cnn.Prelude.{
  ℕ, zero, suc, ◌≤◌, ◌≡◌, refl, arith, List, [], ◌∷◌, ◌++◌, map, ok, Returns, Returns->>=,
  for_range_inv_zero, index, get_elem?, some, ◌>>=◌,
}
use pp_cnn.Seal.{Seal, PlainHolds, plain_mod_switch_to_next-Holds}
use pp_cnn.Cnn.Options.{scale_param}
use pp_cnn.Cnn.Activation.{encode_at, encode_coeffs, lower_last}
use pp_cnn.Cnn.Activation.Forward.{SwishWeights}

module _ (seal : Seal) where
  open seal use {
    Float, Plaintext, capacity, real, Encodable, Visible, NonZero, encode_lem, encode-NonZero,
    plain_mod_switch_to_next-NonZero,
  }

  -- An encodable value reaches the level `n`.
  pub encode_at_lem :
      (n : ℕ) (v : Float)
      → n ≤ capacity
      → Encodable v
      → Returns (encode_at seal n v) (PlainHolds seal n (scale_param seal) (real v))
  unfolding encode_at
  encode_at_lem n v room e = Returns->>= _ _ (encode_lem v (scale_param seal) e) λ p hp.
      for_range_inv_zero (λ k. PlainHolds seal k (scale_param seal) (real v)) n _
        (λ k lt q hq. plain_mod_switch_to_next-Holds seal q hq (omega arith)) p hp

  -- A visible one is not the zero plaintext there.
  pub encode_at-NonZero :
      (n : ℕ) (v : Float)
      → n ≤ capacity
      → Encodable v
      → Visible v
      → Returns
          (encode_at seal n v)
          (λ p. PlainHolds seal n (scale_param seal) (real v) p × NonZero p)
  unfolding encode_at
  encode_at-NonZero n v room e vis =
      let (p, eq, hp) = encode_lem v (scale_param seal) e in
      Returns->>= _ _ (p, eq, (hp, encode-NonZero v (scale_param seal) p vis eq))
        λ p' hp'.
          for_range_inv_zero (λ k q. PlainHolds seal k (scale_param seal) (real v) q × NonZero q) n
            _
            (λ k lt q hq.
              let (r, er, hr) = plain_mod_switch_to_next-Holds seal q hq.0 (omega arith) in
              (r, er, (hr, plain_mod_switch_to_next-NonZero q r hq.1 er)))
            p' hp'

  -- A value that can be multiplied with.
  abbrev pub Fits : Float → Type 0
  Fits v = Encodable v × Visible v

  abbrev pub AllFit : List Float → Type 0
  AllFit [] = Unit {0}
  AllFit (v ∷ vs) = Fits v × AllFit vs

  SwishWeights-nil :
      (n : ℕ) (c : seal.numbers.Real) (p : Plaintext)
      → PlainHolds seal (suc n) (scale_param seal) c p
      → SwishWeights seal n [] c (p ∷ [])
  unfolding index
  SwishWeights-nil n c p h = record { factors = λ i w e. cc; last = (p, refl, h) }

  SwishWeights-cons :
      (n : ℕ) (ws : List seal.numbers.Real) (w c : seal.numbers.Real) (p : Plaintext)
      (ps : List Plaintext)
      → PlainHolds seal n (scale_param seal) w p × NonZero p
      → SwishWeights seal n ws c ps
      → SwishWeights seal n (w ∷ ws) c (p ∷ ps)
  unfolding index
  SwishWeights-cons n ws w c p ps hp h = record { factors = go; last = h.last }
    where
      go :
          (i : ℕ) (u : seal.numbers.Real)
          → get_elem? (w ∷ ws) i ≡ some u
          → Returns (index (p ∷ ps) i) (λ q. PlainHolds seal n (scale_param seal) u q × NonZero q)
      go zero u e = let same : u ≡ w = cc in rw same (p, refl, hp)
      go (suc i) u e = h.factors i u e

  encoded :
      (n : ℕ) (cs : List Float) (c : Float)
      → suc n ≤ capacity
      → AllFit cs
      → Encodable c
      → (q : Plaintext) × (qs : List Plaintext) × (encode_coeffs seal n (cs ++ c ∷ [])
          ≡ ok (q ∷ qs))
        × Returns (lower_last seal (q ∷ qs)) (SwishWeights seal n (map real cs) (real c))
  unfolding encode_coeffs lower_last
  encoded n [] c room fit e =
      let (q, eq, hq) = encode_at_lem n c (omega arith) e in
      let (r, er, hr) = plain_mod_switch_to_next-Holds seal q hq room in
      (q, [], rw eq, (r ∷ [], rw er, SwishWeights-nil n (real c) r hr))
  encoded n (v ∷ vs) c room fit e =
      let (p, ep, hp) = encode_at-NonZero n v (omega arith) fit.0.0 fit.0.1 in
      let (q, qs, eqs, (rs, ers, hrs)) = encoded n vs c room fit.1 e in
      (
        p,
        q ∷ qs,
        rw (ep, eqs),
        (p ∷ rs, rw ers, SwishWeights-cons n (map real vs) (real v) (real c) p rs hp hrs),
      )

  -- The constructor's coefficients are at the level `n`, and the constant at the next.
  pub encode_coeffs-SwishWeights :
      (n : ℕ) (cs : List Float) (c : Float)
      → suc n ≤ capacity
      → AllFit cs
      → Encodable c
      → Returns
          (encode_coeffs seal n (cs ++ c ∷ []) >>= lower_last seal)
          (SwishWeights seal n (map real cs) (real c))
  encode_coeffs-SwishWeights n cs c room fit e =
      let (q, qs, eq, h) = encoded n cs c room fit e in rw eq h
