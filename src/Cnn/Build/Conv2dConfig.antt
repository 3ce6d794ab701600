-- ===== src/Cnn/Build/Conv2dConfig.antt =====
-- The object of a convolution in the model file, and the sizes that the source can handle.
use pp_cnn.Prelude.{none, ℕ, ◌<◌, some}
use pp_cnn.Cnn.Geometry.{Padding}
use pp_cnn.Cnn.Geometry.Shape.{IsMeasured, IsCovered}
use pp_cnn.Cnn.Activation.{ActivationName}
use pp_cnn.Cnn.Build.{conv2d_class, LayerInfo}

-- The members of a convolution's object that the builder reads.
pub record Conv2dConfig : Type 0 where
  pub name : ℕ
  pub in_height : ℕ
  pub in_width : ℕ
  pub in_channels : ℕ
  pub filters : ℕ
  pub kernel_height : ℕ
  pub kernel_width : ℕ
  pub stride_height : ℕ
  pub stride_width : ℕ
  pub padding : Padding
  pub activation : ActivationName

-- Its object; the shape of the input is given, as for the first layer.
abbrev pub conv2d_info : Conv2dConfig → LayerInfo
conv2d_info c = record {
  class_name = some conv2d_class;
  name = some c.name;
  batch_input_shape = some (c.in_height, c.in_width, c.in_channels);
  filters = some c.filters;
  kernel_size = some (c.kernel_height, c.kernel_width);
  pool_size = none;
  strides = some (c.stride_height, c.stride_width);
  padding = some c.padding;
  activation = some c.activation;
  units = none;
}

-- The sizes for which the window of the layer stays in range.
pub record Conv2dSizes (c : Conv2dConfig) : Type 0 where
  pub channels : 0 < c.in_channels
  pub sized_height : IsMeasured c.in_height c.kernel_height c.stride_height
  pub sized_width : IsMeasured c.in_width c.kernel_width c.stride_width
  pub height_pos : 0 < c.in_height
  pub width_pos : 0 < c.in_width
  pub covered_height : IsCovered c.padding c.in_height c.kernel_height c.stride_height
  pub covered_width : IsCovered c.padding c.in_width c.kernel_width c.stride_width
