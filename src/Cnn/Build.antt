-- ===== src/Cnn/Build.antt =====
-- The construction of the layers from a trained model (ppcnn/ppcnn_server/cnn/load_model.cpp).
-- picojson and HDF5 are libraries outside the repository: `LayerInfo` is what the code reads of one
-- layer's object, with `none` where the conversion fails (`std::runtime_error`), and `WeightsFile`
-- is the opened file of the trained parameters. The sizes are read as `double` and converted to
-- `size_t`: they are natural numbers here.
pub mod Folding
pub mod Layers
pub mod Fused
pub mod Weights
pub mod Conv2dConfig
pub mod Conv2d
pub mod Dense
pub mod Normalization
pub mod Pooling
use pp_cnn.Prelude.{ℕ, Option, Result, Bool, or_throw, runtime_error}
use pp_cnn.Cnn.Geometry.{Padding}
use pp_cnn.Cnn.Activation.{ActivationName}

-- The names of the classes that `BUILD_LAYER_MAP` registers, and any other string.
pub data ClassName : Type 0 where
  conv2d_class average_pooling2d_class batch_normalization_class flatten_class dense_class
        activation_class global_average_pooling2d_class other_class :
      ClassName

-- The members of `layer["config"]`, and `layer["class_name"]`; a name is an identifier.
pub record LayerInfo : Type 0 where
  pub class_name : Option ClassName
  pub name : Option ℕ
  -- the height, the width and the channels
  pub batch_input_shape : Option (ℕ × ℕ × ℕ)
  pub filters : Option ℕ
  pub kernel_size : Option (ℕ × ℕ)
  pub pool_size : Option (ℕ × ℕ)
  pub strides : Option (ℕ × ℕ)
  pub padding : Option Padding
  pub activation : Option ActivationName
  pub units : Option ℕ

-- `layer_info[key].get<T>()`
abbrev pub get {ℓ} : {A : Type ℓ} → Option A → Result A
get o = or_throw runtime_error o

-- The data sets that the keys name: "kernel:0", "bias:0", "beta:0", "gamma:0", "moving_mean:0" and
-- "moving_variance:0".
pub data VectorKey : Type 0 where
  bias_key beta_key gamma_key moving_mean_key moving_variance_key : VectorKey

-- The group "/a/b" of the file is asked for by the names `a` and `b`; a fused layer has a name of its
-- own.
pub data GroupName : Type 0 where
  layer_group : ℕ → ℕ → GroupName
  -- "/dense/dense-fused-with-bn"
  fused_group : ℕ → ℕ → GroupName

-- A read with the extents of the buffer, at the indices below the extents.
pub record WeightsFile (Float : Type 0) : Type 0 where
  pub kernel_4d : GroupName → (a b c d : ℕ) → Result (ℕ → ℕ → ℕ → ℕ → Float)
  pub kernel_2d : GroupName → (a b : ℕ) → Result (ℕ → ℕ → Float)
  pub vector : GroupName → VectorKey → (n : ℕ) → Result (ℕ → Float)

-- The global variables `next_layer_in_…`, which the calls of one build, and of the next one, share.
pub record NextLayer : Type 0 where
  pub in_height : ℕ
  pub in_width : ℕ
  pub in_channels : ℕ
  pub in_units : ℕ
