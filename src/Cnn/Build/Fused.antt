-- ===== src/Cnn/Build/Fused.antt =====
-- The builders of the fused layers, and `BuildNetwork` with the choice of the builder
-- (ppcnn/ppcnn_server/cnn/load_model.cpp and ppcnn/ppcnn_server/ppcnn_server_calcthread.cpp).
use pp_cnn.Prelude.{
  ℕ, ◌+◌, Bool, true, false, List, [], ◌∷◌, Result, ok, err, runtime_error, ◌>>=◌, if◌then◌else◌,
}
use pp_cnn.Seal.{Seal}
use pp_cnn.Cnn.Floats.{FloatOps}
use pp_cnn.Cnn.Options.{OptOption}
use pp_cnn.Cnn.Geometry.{Axis}
use pp_cnn.Cnn.Conv2d.{conv2d_new}
use pp_cnn.Cnn.Dense.{dense_new}
use pp_cnn.Cnn.Network.{Layer}
use pp_cnn.Cnn.Build.{
  ClassName, conv2d_class, average_pooling2d_class, batch_normalization_class, flatten_class,
  dense_class, activation_class, global_average_pooling2d_class, other_class, LayerInfo,
  WeightsFile, NextLayer, get, layer_group, fused_group, bias_key, beta_key, gamma_key,
  moving_mean_key, moving_variance_key,
}
use pp_cnn.Cnn.Build.Folding.{
  fold_option, encode_vector, encode_filters, encode_weights, bn_weight, bn_bias,
}
use pp_cnn.Cnn.Build.Layers.{
  Built, input_shape, conv2d_built, dense_built, build_conv2d, build_average_pooling2d,
  build_batch_normalization, build_flatten, build_dense, build_activation,
  build_global_average_pooling2d,
}

module _ (seal : Seal) (ops : FloatOps seal.Float) (file : WeightsFile seal.Float) (uninit : Axis)
    (blank_plaintext : seal.Plaintext) where
  open seal use {Float, Plaintext}
  open ops use {mul, add}

  -- `weights_bn` and the new `biases` of the fused layers.
  pub record FusedBn : Type 0 where
    pub weights_bn : ℕ → Float
    pub biases : ℕ → Float

  -- The reads of the parameters of the batch normalization, and the first loop.
  unfoldable pub fuse_bn : (name n : ℕ) → (ℕ → Float) → Result FusedBn
  fuse_bn name n biases = do
    beta ← file.vector (layer_group name name) beta_key n
    gamma ← file.vector (layer_group name name) gamma_key n
    moving_mean ← file.vector (layer_group name name) moving_mean_key n
    moving_variance ← file.vector (layer_group name name) moving_variance_key n
    ok (record {
      weights_bn = λ i. bn_weight ops (gamma i) (moving_variance i);
      biases = λ i.
          add (mul (biases i) (bn_weight ops (gamma i) (moving_variance i)))
            (bn_bias ops (beta i) (bn_weight ops (gamma i) (moving_variance i)) (moving_mean i));
    })

  -- `buildConv2DFusedBN`
  unfoldable pub build_conv2d_fused_bn :
      LayerInfo
      → LayerInfo
      → OptOption seal
      → NextLayer
      → Result (Built seal ops file uninit blank_plaintext)
  build_conv2d_fused_bn info bn_info option next = do
    name ← get info.name
    filter_size ← get info.filters
    filter_hw ← get info.kernel_size
    stride_hw ← get info.strides
    padding ← get info.padding
    activation_name ← get info.activation
    bn_name ← get bn_info.name
    filters ←
        file.kernel_4d (layer_group name name) filter_hw.0 filter_hw.1 (input_shape info next).2
          filter_size
    biases ← file.vector (layer_group name name) bias_key filter_size
    bn ← fuse_bn bn_name filter_size biases
    plain_biases ← encode_vector seal ops (option.consumed_level + 1) filter_size bn.biases
    plain_filters ←
        encode_filters seal ops option.consumed_level filter_hw.0 filter_hw.1
          (input_shape info next).2 filter_size
          λ fh fw ic fs.
            mul (mul (fold_option seal ops option).0 (filters fh fw ic fs)) (bn.weights_bn fs)
    ok (
        conv2d_built seal ops file uninit blank_plaintext next (
          conv2d_new seal (input_shape info next).0 (input_shape info next).1
            (input_shape info next).2 filter_size filter_hw.0 filter_hw.1 stride_hw.0 stride_hw.1
            padding plain_filters plain_biases uninit (fold_option seal ops option).1))

  -- `buildDenseFusedBN`; its first group is "/dense/dense-fused-with-bn".
  unfoldable pub build_dense_fused_bn :
      LayerInfo
      → LayerInfo
      → OptOption seal
      → NextLayer
      → Result (Built seal ops file uninit blank_plaintext)
  build_dense_fused_bn info bn_info option next = do
    name ← get info.name
    out_units ← get info.units
    activation_name ← get info.activation
    bn_name ← get bn_info.name
    weights ← file.kernel_2d (fused_group name bn_name) next.in_units out_units
    biases ← file.vector (fused_group name bn_name) bias_key out_units
    bn ← fuse_bn bn_name out_units biases
    plain_biases ← encode_vector seal ops (option.consumed_level + 1) out_units bn.biases
    plain_weights ←
        encode_weights seal ops option.consumed_level next.in_units out_units
          λ iu ou. mul (mul (fold_option seal ops option).0 (weights iu ou)) (bn.weights_bn ou)
    ok (
        dense_built seal ops file uninit blank_plaintext next (
          dense_new seal next.in_units out_units plain_weights plain_biases
            (fold_option seal ops option).1))

  -- `buildLayer(layer, layer_class_name, …)`, with `BUILD_LAYER_MAP`
  unfoldable pub build_layer :
      ClassName
      → LayerInfo
      → OptOption seal
      → NextLayer
      → Result (Built seal ops file uninit blank_plaintext)
  build_layer conv2d_class = build_conv2d seal ops file uninit blank_plaintext
  build_layer average_pooling2d_class = build_average_pooling2d seal ops file uninit blank_plaintext
  build_layer batch_normalization_class =
      build_batch_normalization seal ops file uninit blank_plaintext
  build_layer flatten_class = build_flatten seal ops file uninit blank_plaintext
  build_layer dense_class = build_dense seal ops file uninit blank_plaintext
  build_layer activation_class = build_activation seal ops file uninit blank_plaintext
  build_layer global_average_pooling2d_class =
      build_global_average_pooling2d seal ops file uninit blank_plaintext
  build_layer other_class = λ info option next. err runtime_error

  -- What the second `buildLayer` makes of a layer and the class of the next one.
  pub data Choice : Type 0 where
    one_layer conv2d_with_bn dense_with_bn : Choice

  unfoldable pub choose : ClassName → ClassName → Choice
  choose conv2d_class batch_normalization_class = conv2d_with_bn
  choose dense_class batch_normalization_class = dense_with_bn
  choose _ _ = one_layer

  -- `buildLayer(layer, next_layer, …)`; the Boolean says whether the iterator is moved.
  unfoldable pub build_chosen :
      Choice
      → ClassName
      → LayerInfo
      → LayerInfo
      → OptOption seal
      → NextLayer
      → Result (Built seal ops file uninit blank_plaintext × Bool)
  build_chosen conv2d_with_bn class_name info next_info option next =
      build_conv2d_fused_bn info next_info option next >>= λ built. ok (built, true)
  build_chosen dense_with_bn class_name info next_info option next =
      build_dense_fused_bn info next_info option next >>= λ built. ok (built, true)
  build_chosen one_layer class_name info next_info option next =
      build_layer class_name info option next >>= λ built. ok (built, false)

  -- `BuildNetwork` without `enable_fuse_layers`.
  unfoldable pub build_unfused :
      List LayerInfo
      → OptOption seal
      → NextLayer
      → Result (List (Layer seal) × OptOption seal × NextLayer)
  build_unfused [] option next = ok ([], option, next)
  build_unfused (info ∷ infos) option next = do
    class_name ← get info.class_name
    built ← build_layer class_name info option next
    rest ← build_unfused infos built.option built.next
    ok (built.layer ∷ rest.0, rest.1, rest.2)

  -- With `enable_fuse_layers`: a fused layer also takes the layer behind it, which the iterator then
  -- steps over. `skip` says that the head of the list is such a layer.
  unfoldable pub build_fused :
      Bool
      → List LayerInfo
      → OptOption seal
      → NextLayer
      → Result (List (Layer seal) × OptOption seal × NextLayer)
  build_fused skip [] option next = ok ([], option, next)
  build_fused true (info ∷ infos) option next = build_fused false infos option next
  build_fused false (info ∷ []) option next = do
    class_name ← get info.class_name
    built ← build_layer class_name info option next
    ok (built.layer ∷ [], built.option, built.next)
  build_fused false (info ∷ next_info ∷ infos) option next = do
    class_name ← get info.class_name
    next_class_name ← get next_info.class_name
    (built, skip) ←
        build_chosen (choose class_name next_class_name) class_name info next_info option next
    rest ← build_fused skip (next_info ∷ infos) built.option built.next
    ok (built.layer ∷ rest.0, rest.1, rest.2)

  -- `BuildNetwork`
  unfoldable pub build_network :
      List LayerInfo
      → OptOption seal
      → NextLayer
      → Result (List (Layer seal) × OptOption seal × NextLayer)
  build_network infos option next =
      if option.enable_fuse_layers
      then build_fused false infos option next
      else build_unfused infos option next
