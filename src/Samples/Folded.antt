-- ===== src/Samples/Folded.antt =====
-- A model with one pooling whose factor is left to be folded, over the ideal implementation of SEAL.
use pp_cnn.Prelude.{◌≡◌, ◌+◌, refl, arith, true, [], ◌∷◌, Returns, Each-Filled}
use pp_cnn.Seal.{Holds}
use pp_cnn.Samples.Ideal.{slot, ideal, unassigned}
use pp_cnn.Samples.Models.{whole_floats, no_axis, pending_option}
use pp_cnn.Samples.Normalizations.{trained_file, one_channel, pair_flow}
use pp_cnn.Cnn.Options.{OptOption}
use pp_cnn.Cnn.Geometry.{axis_fields}
use pp_cnn.Cnn.Tensor.{Cells}
use pp_cnn.Cnn.AveragePooling2d.Window.{window_sum}
use pp_cnn.Cnn.Build.Pooling.{
  PoolConfig, pool_info, PoolSizes, build_pooling_and_forward, pool_axis, folding,
  build_average_pooling2d-forward,
}

-- The whole row is one window.
abbrev pair_config : PoolConfig
pair_config = record {
  name = 5;
  pool_height = 1;
  pool_width = 2;
  stride_height = 1;
  stride_width = 1;
}

pair_sizes : PoolSizes pair_config one_channel
pair_sizes = record {
  sized_height = record {
    sized = record { stride_pos = omega arith; window_pos = omega arith; small = omega arith };
    size_exact = omega arith;
    stride_exact = omega arith;
  };
  sized_width = record {
    sized = record { stride_pos = omega arith; window_pos = omega arith; small = omega arith };
    size_exact = omega arith;
    stride_exact = omega arith;
  };
  inside_height = omega arith;
  inside_width = omega arith;
}

abbrev pooled_option : OptOption ideal
pooled_option = record pending_option { enable_optimize_pooling = true }

build_average_pooling2d-forward_example :
    Returns
      (build_pooling_and_forward ideal whole_floats trained_file no_axis unassigned
        (pool_info pair_config)
        pooled_option
        one_channel
        pair_flow)
      λ r.
        Cells r.2.in_height r.2.in_width r.2.in_channels
          (λ oh ow oc. Holds ideal r.1.consumed_level 30 1 (
            window_sum ideal
              (pool_axis ideal whole_floats trained_file no_axis unassigned 1 1 1)
              (pool_axis ideal whole_floats trained_file no_axis unassigned 2 2 1)
              (λ h w c. w + 1)
              oh
              ow
              oc))
          r.0.encrypted_3d
        × (r.1
            ≡ folding ideal whole_floats trained_file no_axis unassigned pair_config pooled_option)
        × (r.2 ≡ record one_channel { in_height = 1; in_width = 1 })
unfolding axis_fields
build_average_pooling2d-forward_example =
    build_average_pooling2d-forward ideal whole_floats trained_file no_axis unassigned pair_config
      pooled_option one_channel pair_flow 30 (λ h w c. w + 1) pair_sizes refl
      (Each-Filled _ pair_flow.encrypted_3d (
        Each-Filled _ ((slot 3 1 ∷ []) ∷ (slot 3 2 ∷ []) ∷ []) (
          Each-Filled _ (slot 3 1 ∷ []) (refl, tt),
          (Each-Filled _ (slot 3 2 ∷ []) (refl, tt), tt),
        ),
        tt,
      ))
