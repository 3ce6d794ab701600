-- ===== src/Cnn/Build/Layers.antt =====
-- The builders of the unfused layers (ppcnn/ppcnn_server/cnn/load_model.cpp). Each takes and returns
-- the option and the global variables.
use pp_cnn.Prelude.{
  ℕ, ◌+◌, ◌*◌, true, false, ◌&&◌, none, some, Result, ok, ◌>>=◌, if◌then◌else◌, ◌==◌,
}
use pp_cnn.Seal.{Seal}
use pp_cnn.Cnn.Floats.{FloatOps, one_float}
use pp_cnn.Cnn.Options.{OptOption}
use pp_cnn.Cnn.Geometry.{Axis}
use pp_cnn.Cnn.Conv2d.{Conv2d, conv2d_new}
use pp_cnn.Cnn.Dense.{Dense, dense_new}
use pp_cnn.Cnn.BatchNormalization.{BatchNormalization, batch_normalization_new}
use pp_cnn.Cnn.AveragePooling2d.{AveragePooling2d, average_pooling2d_new}
use pp_cnn.Cnn.Flatten.{Flatten}
use pp_cnn.Cnn.Activation.{activation_new, encode_at}
use pp_cnn.Cnn.Network.{
  Layer, conv2d, average_pooling2d, batch_normalization, flatten_layer, dense, activation,
  global_average_pooling2d,
}
use pp_cnn.Cnn.Build.{
  LayerInfo, WeightsFile, NextLayer, get, layer_group, bias_key, beta_key, gamma_key,
  moving_mean_key, moving_variance_key,
}
use pp_cnn.Cnn.Build.Folding.{
  fold_option, encode_vector, encode_filters, encode_weights, bn_weight, bn_bias,
}

-- `batch_input_shape`, or what the layer before left, where the member is missing.
abbrev pub input_shape : LayerInfo → NextLayer → ℕ × ℕ × ℕ
input_shape info next = elim info.batch_input_shape [
  | some shape ↦ shape
  | none ↦ (next.in_height, next.in_width, next.in_channels)
]

module _ (seal : Seal) (ops : FloatOps seal.Float) (file : WeightsFile seal.Float) (uninit : Axis)
    (blank_plaintext : seal.Plaintext) where
  open seal use {Float, Plaintext}
  open ops use {mul, div, of_size}

  -- A layer, the option and the global variables after a builder.
  pub record Built : Type 0 where
    pub layer : Layer seal
    pub option : OptOption seal
    pub next : NextLayer

  -- The end of `buildConv2D` and `buildConv2DFusedBN`.
  abbrev pub conv2d_built : NextLayer → Conv2d seal × OptOption seal → Built
  conv2d_built next (layer, option) = record {
    layer = conv2d layer;
    option = option;
    next = record next {
      in_height = layer.height.out;
      in_width = layer.width.out;
      in_channels = layer.out_channels;
    };
  }

  -- The end of `buildDense` and `buildDenseFusedBN`.
  abbrev pub dense_built : NextLayer → Dense seal × OptOption seal → Built
  dense_built next (layer, option) = record {
    layer = dense layer;
    option = option;
    next = record next { in_units = layer.out_units };
  }

  abbrev pooling_built : NextLayer → AveragePooling2d seal × OptOption seal → Built
  pooling_built next (layer, option) = record {
    layer = average_pooling2d layer;
    option = option;
    next = record next {
      in_height = layer.height.out;
      in_width = layer.width.out;
      in_channels = layer.out_channels;
    };
  }

  abbrev batch_normalization_built : NextLayer → BatchNormalization seal × OptOption seal → Built
  batch_normalization_built next (layer, option) = record {
    layer = batch_normalization layer;
    option = option;
    next = next;
  }

  -- `buildConv2D`
  unfoldable pub build_conv2d : LayerInfo → OptOption seal → NextLayer → Result Built
  build_conv2d info option next = do
    name ← get info.name
    filter_size ← get info.filters
    filter_hw ← get info.kernel_size
    stride_hw ← get info.strides
    padding ← get info.padding
    activation_name ← get info.activation
    filters ←
        file.kernel_4d (layer_group name name) filter_hw.0 filter_hw.1 (input_shape info next).2
          filter_size
    biases ← file.vector (layer_group name name) bias_key filter_size
    plain_filters ←
        encode_filters seal ops option.consumed_level filter_hw.0 filter_hw.1
          (input_shape info next).2 filter_size
          λ fh fw ic fs. mul (fold_option seal ops option).0 (filters fh fw ic fs)
    plain_biases ← encode_vector seal ops (option.consumed_level + 1) filter_size biases
    ok (
        conv2d_built next (
          conv2d_new seal (input_shape info next).0 (input_shape info next).1
            (input_shape info next).2 filter_size filter_hw.0 filter_hw.1 stride_hw.0 stride_hw.1
            padding plain_filters plain_biases uninit (fold_option seal ops option).1))

  -- The factor of a pooling: folded into a later layer, or encoded with or without the coefficient
  -- of the activation.
  unfoldable pub pooling_factor :
      (pool_height pool_width : ℕ) → OptOption seal → Result (Plaintext × OptOption seal)
  pooling_factor pool_height pool_width option =
      if option.enable_optimize_pooling
      then ok (
        blank_plaintext,
        record option {
          current_pooling_mul_factor = div (one_float ops) (of_size (pool_height * pool_width));
          should_multiply_pool = true;
        },
      )
      else if option.enable_optimize_activation && option.should_multiply_coeff
      then (encode_at seal option.consumed_level
            (div option.highest_deg_coeff (of_size (pool_height * pool_width)))
          >>= λ p. ok (p, record option { should_multiply_coeff = false }))
      else (encode_at seal option.consumed_level
            (div (one_float ops) (of_size (pool_height * pool_width)))
          >>= λ p. ok (p, option))

  -- `buildAveragePooling2D`
  unfoldable pub build_average_pooling2d : LayerInfo → OptOption seal → NextLayer → Result Built
  build_average_pooling2d info option next = do
    name ← get info.name
    pool_hw ← get info.pool_size
    stride_hw ← get info.strides
    padding ← get info.padding
    (factor, option') ← pooling_factor pool_hw.0 pool_hw.1 option
    ok (
        pooling_built next (
          average_pooling2d_new seal next.in_height next.in_width next.in_channels pool_hw.0
            pool_hw.1 stride_hw.0 stride_hw.1 padding factor uninit option'))

  -- `buildBatchNormalization`
  unfoldable pub build_batch_normalization : LayerInfo → OptOption seal → NextLayer → Result Built
  build_batch_normalization info option next = do
    name ← get info.name
    dim ← ok (if next.in_units == 0 then next.in_channels else next.in_units)
    beta ← file.vector (layer_group name name) beta_key dim
    gamma ← file.vector (layer_group name name) gamma_key dim
    moving_mean ← file.vector (layer_group name name) moving_mean_key dim
    moving_variance ← file.vector (layer_group name name) moving_variance_key dim
    plain_weights ←
        encode_vector seal ops option.consumed_level dim
          λ i. bn_weight ops (gamma i) (moving_variance i)
    plain_biases ←
        encode_vector seal ops (option.consumed_level + 1) dim
          λ i. bn_bias ops (beta i) (bn_weight ops (gamma i) (moving_variance i)) (moving_mean i)
    ok (
        batch_normalization_built next
          (batch_normalization_new seal plain_weights plain_biases option))

  abbrev flat_layer : (units : ℕ) → NextLayer → Flatten
  flat_layer units next = record {
    in_height = next.in_height;
    in_width = next.in_width;
    in_channels = next.in_channels;
    out_units = units;
  }

  -- `buildFlatten`
  unfoldable pub build_flatten : LayerInfo → OptOption seal → NextLayer → Result Built
  build_flatten info option next = do
    name ← get info.name
    ok (record {
      layer = flatten_layer (flat_layer (next.in_height * next.in_width * next.in_channels) next);
      option = option;
      next = record next { in_units = next.in_height * next.in_width * next.in_channels };
    })

  -- `buildDense`
  unfoldable pub build_dense : LayerInfo → OptOption seal → NextLayer → Result Built
  build_dense info option next = do
    name ← get info.name
    out_units ← get info.units
    activation_name ← get info.activation
    weights ← file.kernel_2d (layer_group name name) next.in_units out_units
    biases ← file.vector (layer_group name name) bias_key out_units
    plain_weights ←
        encode_weights seal ops option.consumed_level next.in_units out_units
          λ iu ou. mul (fold_option seal ops option).0 (weights iu ou)
    plain_biases ← encode_vector seal ops (option.consumed_level + 1) out_units biases
    ok (
        dense_built next (
          dense_new seal next.in_units out_units plain_weights plain_biases
            (fold_option seal ops option).1))

  -- `buildActivation`
  unfoldable pub build_activation : LayerInfo → OptOption seal → NextLayer → Result Built
  build_activation info option next = do
    name ← get info.name
    activation_name ← get info.activation
    (layer, option') ← activation_new seal ops activation_name (
        if option.enable_optimize_activation
        then record option { should_multiply_coeff = true }
        else option)
    ok (record { layer = activation layer; option = option'; next = next })

  -- `buildGlobalAveragePooling2D`; its test is `true || …`.
  unfoldable pub build_global_average_pooling2d :
      LayerInfo → OptOption seal → NextLayer → Result Built
  build_global_average_pooling2d info option next = do
    name ← get info.name
    ok (record {
      layer = global_average_pooling2d (flat_layer next.in_channels next);
      option = record option {
        current_pooling_mul_factor =
            if option.should_multiply_pool
            then mul option.current_pooling_mul_factor
                (div (one_float ops) (of_size (next.in_height * next.in_width)))
            else div (one_float ops) (of_size (next.in_height * next.in_width));
        should_multiply_pool = true;
      };
      next = record next { in_units = next.in_channels };
    })
