-- ===== src/Cnn/Conv2d.antt =====
-- `Conv2D` (ppcnn/ppcnn_server/cnn/conv2d.cpp).
-- The cells of the output do not depend on one another, so that the parallel loops over them are a
-- table of cells; the loops over the taps of one cell are kept with their order and their state.
pub mod Convolution
pub mod Tap
pub mod Cell
pub mod Forward
use pp_cnn.Prelude.{
  ℕ, ◌+◌, refl, Bool, ◌&&◌, List, Result, ok, ◌>>=◌, for_range, index, ◌==◌, if◌then◌else◌,
}
use pp_cnn.Seal.{Seal}
use pp_cnn.Cnn.Geometry.{Axis, Padding, axis_fields, target_start, target_at, is_out_of_range_input}
use pp_cnn.Cnn.Tensor.{Tensor, at, fill}
use pp_cnn.Cnn.Options.{OptOption, scale_param}

module _ (seal : Seal) where
  open seal use {
    Plaintext, Ciphertext, blank, multiply_plain, add, rescale_to_next, set_scale, add_plain,
  }

  pub record Conv2d : Type 0 where
    pub height : Axis
    pub width : Axis
    pub in_channels : ℕ
    pub out_channels : ℕ
    pub plain_filters : List (Tensor Plaintext)
    pub plain_biases : List Plaintext

  -- `Conv2D::Conv2D`: the fields, and one more level that is consumed.
  unfoldable pub conv2d_new :
      (in_height in_width in_channels filter_size filter_height filter_width stride_height
        stride_width : ℕ)
      → Padding
      → List (Tensor Plaintext)
      → List Plaintext
      → Axis
      → OptOption seal
      → Conv2d × OptOption seal
  conv2d_new in_height in_width in_channels filter_size filter_height filter_width stride_height
        stride_width padding plain_filters plain_biases uninit option =
      (
        record {
          height = axis_fields padding in_height filter_height stride_height uninit;
          width = axis_fields padding in_width filter_width stride_width uninit;
          in_channels = in_channels;
          out_channels = filter_size;
          plain_filters = plain_filters;
          plain_biases = plain_biases;
        },
        record option { consumed_level = option.consumed_level + 1 },
      )

  -- `plain_filters_[fh][fw][ic][oc]`
  unfoldable pub filter_at : List (Tensor Plaintext) → ℕ → ℕ → ℕ → ℕ → Result Plaintext
  filter_at filters fh fw ic oc = do rows ← index filters fh; at rows fw ic oc

  -- `output[oh][ow][oc]` and `within_range_counter`
  pub record Accumulator : Type 0 where
    pub counter : ℕ
    pub output : Ciphertext

  -- The loop over the input channels at one tap; the counter has already been raised.
  unfoldable pub add_channels :
      Conv2d → Tensor Ciphertext → (y x fh fw oc counter : ℕ) → Ciphertext → Result Ciphertext
  add_channels conv input y x fh fw oc counter = for_range 0 conv.in_channels λ ic output. do
    pixel ← at input y x ic
    weight ← filter_at conv.plain_filters fh fw ic oc
    weighted_pixel ← multiply_plain pixel weight
    if counter == 1 && ic == 0 then ok weighted_pixel else add output weighted_pixel

  -- A tap on the input: `within_range_counter++` and the loop over the channels.
  unfoldable pub add_covered_tap :
      Conv2d → Tensor Ciphertext → (y x fh fw oc : ℕ) → Accumulator → Result Accumulator
  add_covered_tap conv input y x fh fw oc acc = do
    output ← add_channels conv input y x fh fw oc (acc.counter + 1) acc.output
    ok (record { counter = acc.counter + 1; output = output })

  -- One tap of the filter; `continue` behind `isOutOfRangeInput`.
  unfoldable pub add_tap :
      Conv2d → Tensor Ciphertext → (oh ow oc fh fw : ℕ) → Accumulator → Result Accumulator
  add_tap conv input oh ow oc fh fw acc =
      let x = target_at (target_start conv.width ow) fw in
      let y = target_at (target_start conv.height oh) fh in
      if is_out_of_range_input conv.height conv.width x y
      then ok acc
      else add_covered_tap conv input y x fh fw oc acc

  unfoldable pub add_taps :
      Conv2d → Tensor Ciphertext → (oh ow oc : ℕ) → Accumulator → Result Accumulator
  add_taps conv input oh ow oc =
      for_range 0 conv.height.window
        λ fh. for_range 0 conv.width.window λ fw. add_tap conv input oh ow oc fh fw

  unfoldable pub conv2d_cell : Conv2d → Tensor Ciphertext → (oh ow oc : ℕ) → Result Ciphertext
  conv2d_cell conv input oh ow oc = do
    acc ← add_taps conv input oh ow oc (record { counter = 0; output = blank })
    rescaled ← rescale_to_next acc.output
    bias ← index conv.plain_biases oc
    add_plain (set_scale (scale_param seal) rescaled) bias

  -- `Conv2D::forward`
  unfoldable pub conv2d_forward : Conv2d → Tensor Ciphertext → Result (Tensor Ciphertext)
  conv2d_forward conv input =
      fill conv.height.out conv.width.out conv.out_channels (conv2d_cell conv input)
