-- ===== src/Cnn/Floats.antt =====
-- The `float` and `double` operations of the builders, as a parameter: rounding is not modelled, and
-- the laws that a proof needs of them are hypotheses of that proof. Then the constants of
-- ppcnn/ppcnn_share/cnn_utils/define.h and ppcnn/ppcnn_server/cnn/batch_normalization.hpp.
use pp_cnn.Prelude.{ℕ, Bool, true, false, List, [], ◌∷◌}

pub record FloatOps (Float : Type 0) : Type 0 where
  -- `literal negative digits places`: the decimal digits / 10 ^ places, with its sign
  pub literal : Bool → ℕ → ℕ → Float
  -- the conversion from a `size_t`
  pub of_size : ℕ → Float
  pub mul : Float → Float → Float
  pub div : Float → Float → Float
  pub add : Float → Float → Float
  pub sub : Float → Float → Float
  pub sqrt : Float → Float
  pub fabs : Float → Float
  -- the conversion to an `int` and back
  pub truncate : Float → Float
  pub is_zero : Float → Bool
  pub less : Float → Float → Bool

module _ {Float : Type 0} (ops : FloatOps Float) where
  open ops use {literal}

  abbrev pub zero_float : Float
  zero_float = literal false 0 0

  abbrev pub one_float : Float
  one_float = literal false 1 0

  -- `EPSILON`, the entry of `EPSILON_MAP` for the sizes 50 and 30
  abbrev pub epsilon : Float
  epsilon = literal false 1 7

  abbrev pub bn_epsilon : Float
  bn_epsilon = literal false 1 3

  abbrev pub swish_rg4_deg4_coeffs : List Float
  swish_rg4_deg4_coeffs =
      literal true 5075 6 ∷ literal false 19566 5 ∷ literal false 5 1 ∷ literal false 3347 5 ∷ []

  abbrev pub swish_rg6_deg4_coeffs : List Float
  swish_rg6_deg4_coeffs =
      literal true 2012 6 ∷ literal false 1473 4 ∷ literal false 5 1 ∷ literal false 1198 4 ∷ []

  abbrev pub swish_rg4_deg4_opt_coeffs : List Float
  swish_rg4_deg4_opt_coeffs =
      literal true 385537 4 ∷ literal true 9852222 5 ∷ literal true 659507 5 ∷ []

  abbrev pub swish_rg6_deg4_opt_coeffs : List Float
  swish_rg6_deg4_opt_coeffs =
      literal true 732107 4 ∷ literal true 2485089 4 ∷ literal true 595427 4 ∷ []
