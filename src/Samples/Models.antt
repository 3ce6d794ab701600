-- ===== src/Samples/Models.antt =====
-- A model with one convolution, built over the ideal implementation of SEAL.
use pp_cnn.Prelude.{
  Filled, ◌≡◌, ℕ, ◌+◌, ◌*◌, ◌-◌, ◌/◌, refl, arith, true, false, [], ◌∷◌, ok, Returns, ltb, ◌==◌,
  Each-Filled,
}
use pp_cnn.Seal.{Holds}
use pp_cnn.Samples.Ideal.{slot, ideal, unassigned}
use pp_cnn.Cnn.Floats.{FloatOps}
use pp_cnn.Cnn.Options.{OptOption, default_activation}
use pp_cnn.Cnn.Geometry.{Axis, same}
use pp_cnn.Cnn.Tensor.{Cells}
use pp_cnn.Cnn.Activation.{square_name}
use pp_cnn.Cnn.Conv2d.Convolution.{convolution}
use pp_cnn.Cnn.Network.{Flow}
use pp_cnn.Cnn.Build.{WeightsFile, NextLayer}
use pp_cnn.Cnn.Build.Folding.{rounded, fold_option}
use pp_cnn.Cnn.Sums.{sum}
use pp_cnn.Cnn.Build.Dense.{
  dense_info, build_dense_and_forward, folded_unit_weight, build_dense-forward,
}
use pp_cnn.Cnn.Build.Conv2dConfig.{Conv2dConfig, Conv2dSizes, conv2d_info}
use pp_cnn.Cnn.Build.Conv2d.{
  build_and_forward, folded_weight, height_axis, width_axis, build_conv2d-forward,
}

-- Arithmetic on whole numbers in place of `float`.
abbrev pub whole_floats : FloatOps ℕ
whole_floats = record {
  literal = λ negative digits places. digits;
  of_size = λ n. n;
  mul = λ a b. a * b;
  div = λ a b. a / b;
  add = λ a b. a + b;
  sub = λ a b. a - b;
  sqrt = λ a. a;
  fabs = λ a. a;
  truncate = λ a. a;
  is_zero = λ a. a == 0;
  less = λ a b. ltb a b;
}

-- Every weight is 3, and every bias 7.
abbrev constant_file : WeightsFile ℕ
constant_file = record {
  kernel_4d = λ g a b c d. ok (λ fh fw ic fs. 3);
  kernel_2d = λ g a b. ok (λ iu ou. 3);
  vector = λ g k n. ok (λ i. 7);
}

abbrev pub no_axis : Axis
no_axis = record { size = 0; window = 0; stride = 0; out = 0; pad_before = 0; pad_after = 0 }

abbrev row_config : Conv2dConfig
row_config = record {
  name = 1;
  in_height = 1;
  in_width = 2;
  in_channels = 1;
  filters = 1;
  kernel_height = 1;
  kernel_width = 2;
  stride_height = 1;
  stride_width = 1;
  padding = same;
  activation = square_name;
}

row_sizes : Conv2dSizes row_config
row_sizes = record {
  channels = omega arith;
  sized_height = record {
    sized = record { stride_pos = omega arith; window_pos = omega arith; small = omega arith };
    size_exact = omega arith;
    stride_exact = omega arith;
  };
  sized_width = record {
    sized = record { stride_pos = omega arith; window_pos = omega arith; small = omega arith };
    size_exact = omega arith;
    stride_exact = omega arith;
  };
  height_pos = omega arith;
  width_pos = omega arith;
  covered_height = omega arith;
  covered_width = omega arith;
}

-- The coefficient 2 of the activation before is still to be folded.
abbrev pub pending_option : OptOption ideal
pending_option = record {
  enable_fuse_layers = false;
  enable_optimize_activation = true;
  enable_optimize_pooling = false;
  should_multiply_coeff = true;
  should_multiply_pool = false;
  activation = default_activation;
  highest_deg_coeff = 2;
  current_pooling_mul_factor = 0;
  consumed_level = 3;
}

abbrev no_next : NextLayer
no_next = record { in_height = 0; in_width = 0; in_channels = 0; in_units = 0 }

abbrev row_flow : Flow ideal
row_flow = record {
  encrypted_3d = ((slot 3 1 ∷ []) ∷ (slot 3 2 ∷ []) ∷ []) ∷ [];
  encrypted_units = [];
  is_flat = false;
}

abbrev row_values : ℕ → ℕ → ℕ → ℕ
row_values h w c = w + 1

build_conv2d-forward_example :
    Returns
      (build_and_forward ideal whole_floats constant_file no_axis unassigned
        (conv2d_info row_config)
        pending_option
        no_next
        row_flow)
      λ r.
        Cells
          (height_axis ideal whole_floats constant_file no_axis unassigned row_config).out
          (width_axis ideal whole_floats constant_file no_axis unassigned row_config).out
          1
          (λ oh ow oc. Holds ideal r.1.consumed_level 30 1 (
            convolution ideal
              (height_axis ideal whole_floats constant_file no_axis unassigned row_config)
              (width_axis ideal whole_floats constant_file no_axis unassigned row_config)
              1
              row_values
              (λ fh fw ic fs.
                folded_weight ideal whole_floats constant_file no_axis unassigned pending_option 3)
              (λ fs. 7)
              oh
              ow
              oc))
          r.0.encrypted_3d
unfolding rounded fold_option
build_conv2d-forward_example =
    build_conv2d-forward ideal whole_floats constant_file no_axis unassigned row_config
      pending_option no_next row_flow (λ fh fw ic fs. 3) (λ fs. 7) 30 row_values row_sizes refl refl
      (λ fh fw ic fs _ _ _ _. (omega arith, omega arith)) (λ fs _. omega arith) (omega arith) refl
      (Each-Filled _ row_flow.encrypted_3d (
        Each-Filled _ ((slot 3 1 ∷ []) ∷ (slot 3 2 ∷ []) ∷ []) (
          Each-Filled _ (slot 3 1 ∷ []) (refl, tt),
          (Each-Filled _ (slot 3 2 ∷ []) (refl, tt), tt),
        ),
        tt,
      ))

abbrev two_next : NextLayer
two_next = record { in_height = 1; in_width = 2; in_channels = 1; in_units = 2 }

abbrev unit_flow : Flow ideal
unit_flow = record { encrypted_3d = []; encrypted_units = slot 3 1 ∷ slot 3 2 ∷ []; is_flat = true }

build_dense-forward_example :
    Returns
      (build_dense_and_forward ideal whole_floats constant_file no_axis unassigned
        (dense_info 2 1 square_name)
        pending_option
        two_next
        unit_flow)
      λ r.
        Filled 1
          (λ ou. Holds ideal r.1.consumed_level 30 1 (
            sum ideal.numbers 2 (λ iu.
              (iu + 1)
              * folded_unit_weight ideal whole_floats constant_file no_axis unassigned
                  pending_option 3)
            + 7))
          r.0.encrypted_units
        × (r.2.in_units ≡ 1)
unfolding rounded fold_option
build_dense-forward_example =
    build_dense-forward ideal whole_floats constant_file no_axis unassigned 2 1 square_name
      pending_option two_next unit_flow (λ iu ou. 3) (λ ou. 7) 30 (λ iu. iu + 1) (omega arith) refl
      refl (λ iu ou _ _. (omega arith, omega arith)) (λ ou _. omega arith) (omega arith) refl
      (Each-Filled _ unit_flow.encrypted_units (refl, (refl, tt)))
