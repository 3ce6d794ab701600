-- ===== src/Cnn/Activation.antt =====
-- `Activation` (ppcnn/ppcnn_server/cnn/activation.cpp and activation.hpp).
-- The C++ code takes `x` by reference and lowers it in place; every caller overwrites that cell with
-- the result, so the value that is lowered is local here.
pub mod Forward
pub mod Encode
pub mod Construct
pub mod Square
use pp_cnn.Prelude.{
  ℕ, ◌+◌, Bool, true, false, List, [], ◌∷◌, ◌++◌, Result, ok, err, runtime_error, ◌>>=◌, for_range,
  index, update_each, if◌then◌else◌, out_of_range, ◌||◌,
}
use pp_cnn.Seal.{Seal}
use pp_cnn.Cnn.Tensor.{Tensor, update_cells}
use pp_cnn.Cnn.Floats.{
  FloatOps, swish_rg4_deg4_coeffs, swish_rg6_deg4_coeffs, swish_rg4_deg4_opt_coeffs,
  swish_rg6_deg4_opt_coeffs,
}
use pp_cnn.Cnn.Options.{
  OptOption, ActivationOption, square_option, swish_rg4_deg4, swish_rg6_deg4, scale_param,
}

-- The names that the constructor compares `activation_` with, and any other string.
pub data ActivationName : Type 0 where
  square_name swish_rg4_deg4_name swish_rg6_deg4_name other_name : ActivationName

abbrev pub is_square_name : ActivationName → Bool
is_square_name square_name = true
is_square_name _ = false

abbrev pub is_rg4_name : ActivationName → Bool
is_rg4_name swish_rg4_deg4_name = true
is_rg4_name _ = false

abbrev pub is_rg6_name : ActivationName → Bool
is_rg6_name swish_rg6_deg4_name = true
is_rg6_name _ = false

abbrev pub is_square_option : ActivationOption → Bool
is_square_option square_option = true
is_square_option _ = false

abbrev pub is_rg4_option : ActivationOption → Bool
is_rg4_option swish_rg4_deg4 = true
is_rg4_option _ = false

abbrev pub is_rg6_option : ActivationOption → Bool
is_rg6_option swish_rg6_deg4 = true
is_rg6_option _ = false

module _ (seal : Seal) where
  open seal use {
    Float, Plaintext, Ciphertext, encode, plain_mod_switch_to_next, mod_switch_to_next, square,
    relinearize, rescale_to_next, set_scale, multiply_plain, add, add_plain,
  }

  pub record Activation : Type 0 where
    pub activation : ActivationName
    -- `option_.enable_optimize_activation`, which nothing changes after the construction
    pub optimized : Bool
    pub plain_poly_coeffs : List Plaintext

  -- `encode`, and `mod_switch_to_next_inplace` as often as `levels` says
  unfoldable pub encode_at : ℕ → Float → Result Plaintext
  encode_at levels v = do
    p ← encode v (scale_param seal)
    for_range 0 levels (λ _. plain_mod_switch_to_next) p

  unfoldable pub encode_coeffs : ℕ → List Float → Result (List Plaintext)
  encode_coeffs levels [] = ok []
  encode_coeffs levels (c ∷ cs) = do
    p ← encode_at levels c
    ps ← encode_coeffs levels cs
    ok (p ∷ ps)

  -- `mod_switch_to_next_inplace(plain_poly_coeffs_.back())`
  unfoldable pub lower_last : List Plaintext → Result (List Plaintext)
  lower_last [] = err out_of_range
  lower_last (p ∷ []) = do q ← plain_mod_switch_to_next p; ok (q ∷ [])
  lower_last (p ∷ q ∷ ps) = do qs ← lower_last (q ∷ ps); ok (p ∷ qs)

  -- One branch of the constructor for a swish: the coefficients go `depth` levels below the input.
  unfoldable pub swish_with :
      ActivationName → Bool → ℕ → List Float → OptOption seal → Result (Activation × OptOption seal)
  swish_with name optimized depth coeffs option = do
    encoded ← encode_coeffs (option.consumed_level + depth) coeffs
    lowered ← lower_last encoded
    ok (
      record { activation = name; optimized = optimized; plain_poly_coeffs = lowered },
      record option { consumed_level = option.consumed_level + (depth + 1) },
    )

  unfoldable pub swish_new :
      ActivationName
      → List Float
      → List Float
      → OptOption seal
      → Result (Activation × OptOption seal)
  swish_new name coeffs opt_coeffs option =
      if option.enable_optimize_activation
      then swish_with name true 1 opt_coeffs option
      else swish_with name false 2 coeffs option

  -- `Activation::Activation`
  unfoldable pub activation_new :
      FloatOps Float → ActivationName → OptOption seal → Result (Activation × OptOption seal)
  activation_new ops name option =
      if is_square_name name || is_square_option option.activation
      then ok (
        record {
          activation = name;
          optimized = option.enable_optimize_activation;
          plain_poly_coeffs = [];
        },
        record option { consumed_level = option.consumed_level + 1 },
      )
      else if is_rg4_name name || is_rg4_option option.activation
      then swish_new name (swish_rg4_deg4_coeffs ops) (swish_rg4_deg4_opt_coeffs ops) option
      else if is_rg6_name name || is_rg6_option option.activation
      then swish_new name (swish_rg6_deg4_coeffs ops) (swish_rg6_deg4_opt_coeffs ops) option
      else err runtime_error

  -- `Activation::square`
  unfoldable pub activate_square : Ciphertext → Result Ciphertext
  activate_square x = do y ← square x; y' ← relinearize y; rescale_to_next y'

  -- `Activation::swishDeg4`
  unfoldable pub swish_deg4 : List Plaintext → Ciphertext → Result Ciphertext
  swish_deg4 coeffs x = do
    x2 ← activate_square x
    x4 ← activate_square x2
    x2_low ← mod_switch_to_next x2
    x_low ← mod_switch_to_next x
    x_lower ← mod_switch_to_next x_low
    a ← index coeffs 0
    ax4 ← multiply_plain x4 a
    b ← index coeffs 1
    bx2 ← multiply_plain x2_low b
    c ← index coeffs 2
    cx ← multiply_plain x_lower c
    ax4_bx2 ← add (set_scale (scale_param seal) ax4) (set_scale (scale_param seal) bx2)
    y ← add ax4_bx2 (set_scale (scale_param seal) cx)
    y_low ← rescale_to_next y
    d ← index coeffs 3
    add_plain (set_scale (scale_param seal) y_low) d

  -- `Activation::swishDeg4Opt`
  unfoldable pub swish_deg4_opt : List Plaintext → Ciphertext → Result Ciphertext
  swish_deg4_opt coeffs x = do
    x2 ← activate_square x
    x4_large ← square x2
    x4 ← relinearize x4_large
    x_low ← mod_switch_to_next x
    b ← index coeffs 0
    bx2 ← multiply_plain x2 b
    c ← index coeffs 1
    cx ← multiply_plain x_low c
    x4_bx2 ← add (set_scale (scale_param seal) x4) (set_scale (scale_param seal) bx2)
    y ← add x4_bx2 (set_scale (scale_param seal) cx)
    y_low ← rescale_to_next y
    d ← index coeffs 2
    add_plain (set_scale (scale_param seal) y_low) d

  -- `Activation::activate`
  unfoldable pub activate : Activation → Ciphertext → Result Ciphertext
  activate act x =
      if is_square_name act.activation
      then activate_square x
      else if act.optimized
      then swish_deg4_opt act.plain_poly_coeffs x
      else swish_deg4 act.plain_poly_coeffs x

  -- `Activation::forward(Ciphertext3D&)`
  unfoldable pub activation_forward : Activation → Tensor Ciphertext → Result (Tensor Ciphertext)
  activation_forward act = update_cells λ h w c. activate act

  -- `Activation::forward(vector<Ciphertext>&)`
  unfoldable pub activation_forward_units : Activation → List Ciphertext → Result (List Ciphertext)
  activation_forward_units act = update_each λ u. activate act
