-- ===== src/Samples/Units.antt =====
-- Runs of the layers on units, and of the normalization and the activation, over the ideal
-- implementation of SEAL.
use pp_cnn.Prelude.{
  ℕ, ◌+◌, ◌*◌, ◌≡◌, refl, arith, true, false, List, [], ◌∷◌, err, out_of_range, Returns, Filled,
  Each-Filled,
}
use pp_cnn.Seal.{Holds}
use pp_cnn.Samples.Ideal.{Slot, slot, ideal}
use pp_cnn.Cnn.Options.{OptOption, default_activation, square_option}
use pp_cnn.Cnn.Tensor.{Tensor, Cells}
use pp_cnn.Cnn.Sums.{sum}
use pp_cnn.Cnn.Dense.{Dense, dense_forward}
use pp_cnn.Cnn.Dense.Forward.{DenseInput, dense_forward-affine}
use pp_cnn.Cnn.BatchNormalization.{
  BatchNormalization, batch_normalization_forward, batch_normalization_forward_units,
}
use pp_cnn.Cnn.BatchNormalization.Forward.{
  Normalizes, batch_normalization_forward-affine, batch_normalization_forward_units-affine,
}
use pp_cnn.Cnn.Activation.{activation_new, activate, swish_rg4_deg4_name}
use pp_cnn.Cnn.Activation.Construct.{build_and_activate, swish_value, swish_new-activate}
use pp_cnn.Cnn.Activation.Square.{activation_new-square_option}
use pp_cnn.Samples.Models.{whole_floats}

abbrev two_units : List Slot
two_units = slot 0 2 ∷ slot 0 3 ∷ []

abbrev unit_values : ℕ → ℕ
unit_values u = u + 2

abbrev unit_weights : ℕ → ℕ → ℕ
unit_weights iu ou = 5 + iu

abbrev one_dense : Dense ideal
one_dense = record {
  in_units = 2;
  out_units = 1;
  plain_weights = (slot 0 5 ∷ []) ∷ (slot 0 6 ∷ []) ∷ [];
  plain_biases = slot 1 1 ∷ [];
}

dense_given : DenseInput ideal one_dense 0 30 unit_values unit_weights (λ ou. 1) two_units
dense_given = record {
  left = omega arith;
  nominal = refl;
  in_units_pos = omega arith;
  units = Each-Filled _ two_units (refl, (refl, tt));
  weights = Each-Filled _ one_dense.plain_weights (
    Each-Filled _ (slot 0 5 ∷ []) ((refl, omega arith), tt),
    (Each-Filled _ (slot 0 6 ∷ []) ((refl, omega arith), tt), tt),
  );
  biases = Each-Filled _ (slot 1 1 ∷ []) (refl, tt);
}

dense_forward-affine_example : Returns (dense_forward ideal one_dense two_units) (
    Filled 1 λ ou.
      Holds ideal 1 30 1 (sum ideal.numbers 2 (λ iu. unit_values iu * unit_weights iu ou) + 1))
dense_forward-affine_example =
    dense_forward-affine ideal one_dense 0 30 unit_values unit_weights (λ ou. 1) two_units
      dense_given

abbrev two_bn : BatchNormalization ideal
two_bn = record {
  plain_weights = slot 0 4 ∷ slot 0 5 ∷ [];
  plain_biases = slot 1 1 ∷ slot 1 1 ∷ [];
}

bn_given : Normalizes ideal two_bn 0 2 30 (λ c. c + 4) (λ c. 1)
bn_given = record {
  left = omega arith;
  nominal = refl;
  weights = Each-Filled _ two_bn.plain_weights ((refl, omega arith), ((refl, omega arith), tt));
  biases = Each-Filled _ two_bn.plain_biases (refl, (refl, tt));
}

abbrev one_pixel : Tensor Slot
one_pixel = (two_units ∷ []) ∷ []

batch_normalization_forward-affine_example :
    Returns
      (batch_normalization_forward ideal two_bn one_pixel)
      (Cells 1 1 2 λ h w c. Holds ideal 1 30 1 (unit_values c * (c + 4) + 1))
batch_normalization_forward-affine_example =
    batch_normalization_forward-affine ideal two_bn 0 2 30 (λ c. c + 4) (λ c. 1) bn_given 1 1
      (λ h w c. unit_values c) one_pixel
      (Each-Filled _ one_pixel
        (Each-Filled _ (two_units ∷ []) (Each-Filled _ two_units (refl, (refl, tt)), tt), tt))

batch_normalization_forward_units-affine_example :
    Returns
      (batch_normalization_forward_units ideal two_bn two_units)
      (Filled 2 λ u. Holds ideal 1 30 1 (unit_values u * (u + 4) + 1))
batch_normalization_forward_units-affine_example =
    batch_normalization_forward_units-affine ideal two_bn 0 2 30 (λ c. c + 4) (λ c. 1) bn_given
      unit_values two_units (Each-Filled _ two_units (refl, (refl, tt)))

abbrev optimized_option : OptOption ideal
optimized_option = record {
  enable_fuse_layers = false;
  enable_optimize_activation = true;
  enable_optimize_pooling = false;
  should_multiply_coeff = true;
  should_multiply_pool = false;
  activation = default_activation;
  highest_deg_coeff = 2;
  current_pooling_mul_factor = 0;
  consumed_level = 1;
}

swish_new-activate_example :
    Returns
      (build_and_activate ideal swish_rg4_deg4_name
        (2 ∷ 3 ∷ 4 ∷ 5 ∷ [])
        (6 ∷ 7 ∷ 8 ∷ [])
        optimized_option
        (slot 1 2))
      λ r. Holds ideal r.1 30 1 (swish_value ideal true 2 3 4 5 6 7 8 2) r.0
swish_new-activate_example =
    swish_new-activate ideal swish_rg4_deg4_name 2 3 4 5 6 7 8 optimized_option (slot 1 2) {s = 30}
      {v = 2} refl (omega arith)
      (
        (omega arith, omega arith),
        (
          (omega arith, omega arith),
          ((omega arith, omega arith), ((omega arith, omega arith), tt)),
        ),
      )
      ((omega arith, omega arith), ((omega arith, omega arith), ((omega arith, omega arith), tt)))
      refl refl

activation_new-square_option_example :
    Returns
      (activation_new ideal whole_floats swish_rg4_deg4_name
        (record optimized_option { activation = square_option }))
      λ r. activate ideal r.0 (slot 1 2) ≡ err out_of_range
activation_new-square_option_example =
    activation_new-square_option ideal whole_floats swish_rg4_deg4_name
      (record optimized_option { activation = square_option }) (slot 1 2) {l = 1} {s = 30} {v = 2}
      refl refl refl refl (omega arith)
