-- ===== src/Samples/Normalizations.antt =====
-- A model with one batch normalization, built over the ideal implementation of SEAL.
use pp_cnn.Prelude.{◌≡◌, ℕ, ◌+◌, ◌*◌, refl, arith, false, [], ◌∷◌, ok, Returns, Each-Filled}
use pp_cnn.Seal.{Holds}
use pp_cnn.Samples.Ideal.{slot, ideal, unassigned}
use pp_cnn.Samples.Models.{whole_floats, no_axis, pending_option}
use pp_cnn.Cnn.Tensor.{Cells}
use pp_cnn.Cnn.Network.{Flow}
use pp_cnn.Cnn.Build.{
  WeightsFile, NextLayer, VectorKey, bias_key, beta_key, gamma_key, moving_mean_key,
  moving_variance_key,
}
use pp_cnn.Cnn.Build.Folding.{bn_weight, bn_bias}
use pp_cnn.Cnn.Build.Normalization.{
  batch_normalization_info, Trained, IsTrained, build_normalization_and_forward,
  build_batch_normalization-forward,
}

abbrev by_key : VectorKey → ℕ
by_key bias_key = 7
by_key beta_key = 9
by_key gamma_key = 8
by_key moving_mean_key = 1
by_key moving_variance_key = 3

abbrev pub trained_file : WeightsFile ℕ
trained_file = record {
  kernel_4d = λ g a b c d. ok (λ fh fw ic fs. 3);
  kernel_2d = λ g a b. ok (λ iu ou. 3);
  vector = λ g k n. ok (λ i. by_key k);
}

abbrev trained : Trained ℕ
trained = record { beta = λ i. 9; gamma = λ i. 8; moving_mean = λ i. 1; moving_variance = λ i. 3 }

trained-IsTrained : IsTrained ideal whole_floats trained_file no_axis unassigned 4 1 trained
trained-IsTrained = record { beta = refl; gamma = refl; moving_mean = refl; moving_variance = refl }

abbrev pub one_channel : NextLayer
one_channel = record { in_height = 1; in_width = 2; in_channels = 1; in_units = 0 }

abbrev pub pair_flow : Flow ideal
pair_flow = record {
  encrypted_3d = ((slot 3 1 ∷ []) ∷ (slot 3 2 ∷ []) ∷ []) ∷ [];
  encrypted_units = [];
  is_flat = false;
}

-- The weight is 8 / (3 + 1), the bias 9 - 2 * 1.
build_batch_normalization-forward_example :
    Returns
      (build_normalization_and_forward ideal whole_floats trained_file no_axis unassigned
        (batch_normalization_info 4)
        pending_option
        one_channel
        pair_flow)
      λ r.
        Cells 1 2 1
          (λ h w c. Holds ideal r.1.consumed_level 30 1 ((w + 1) * 2 + 7))
          r.0.encrypted_3d
        × (r.2 ≡ one_channel)
unfolding bn_weight bn_bias
build_batch_normalization-forward_example =
    build_batch_normalization-forward ideal whole_floats trained_file no_axis unassigned 4 1 2
      pending_option one_channel pair_flow trained 30 (λ h w c. w + 1) refl refl trained-IsTrained
      (λ c _. (omega arith, omega arith)) (λ c _. omega arith) (omega arith) refl
      (Each-Filled _ pair_flow.encrypted_3d (
        Each-Filled _ ((slot 3 1 ∷ []) ∷ (slot 3 2 ∷ []) ∷ []) (
          Each-Filled _ (slot 3 1 ∷ []) (refl, tt),
          (Each-Filled _ (slot 3 2 ∷ []) (refl, tt), tt),
        ),
        tt,
      ))
