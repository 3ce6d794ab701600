-- ===== src/Cnn/AveragePooling2d.antt =====
-- `AveragePooling2D` (ppcnn/ppcnn_server/cnn/average_pooling2d.cpp).
-- The fields of the window are those of `Axis`; the loops over one cell keep their order.
pub mod Window
pub mod Cell
pub mod Forward
use pp_cnn.Prelude.{ℕ, ◌+◌, Bool, ◌&&◌, Result, ok, ◌>>=◌, for_range, ◌==◌, if◌then◌else◌}
use pp_cnn.Seal.{Seal}
use pp_cnn.Cnn.Geometry.{Axis, Padding, axis_fields, target_start, target_at, is_out_of_range_input}
use pp_cnn.Cnn.Tensor.{Tensor, at, fill}
use pp_cnn.Cnn.Options.{OptOption}

module _ (seal : Seal) where
  open seal use {Plaintext, Ciphertext, blank, multiply_plain, add, rescale_to_next}

  pub record AveragePooling2d : Type 0 where
    pub height : Axis
    pub width : Axis
    pub out_channels : ℕ
    pub plain_mul_factor : Plaintext
    -- `option_.enable_optimize_pooling`, which nothing changes after the construction
    pub optimized : Bool

  -- `AveragePooling2D::AveragePooling2D`
  unfoldable pub average_pooling2d_new :
      (in_height in_width in_channels pool_height pool_width stride_height stride_width : ℕ)
      → Padding
      → Plaintext
      → Axis
      → OptOption seal
      → AveragePooling2d × OptOption seal
  average_pooling2d_new in_height in_width in_channels pool_height pool_width stride_height
        stride_width padding plain_mul_factor uninit option =
      (
        record {
          height = axis_fields padding in_height pool_height stride_height uninit;
          width = axis_fields padding in_width pool_width stride_width uninit;
          out_channels = in_channels;
          plain_mul_factor = plain_mul_factor;
          optimized = option.enable_optimize_pooling;
        },
        if option.enable_optimize_pooling
            then option
            else record option { consumed_level = option.consumed_level + 1 },
      )

  -- A tap on the input: the first tap of the window assigns, every other one adds.
  unfoldable pub pool_covered_tap :
      Tensor Ciphertext → (y x oc ph pw : ℕ) → Ciphertext → Result Ciphertext
  pool_covered_tap input y x oc ph pw output = do
    pixel ← at input y x oc
    if ph == 0 && pw == 0 then ok pixel else add output pixel

  unfoldable pub pool_tap :
      AveragePooling2d → Tensor Ciphertext → (oh ow oc ph pw : ℕ) → Ciphertext → Result Ciphertext
  pool_tap pool input oh ow oc ph pw output =
      let x = target_at (target_start pool.width ow) pw in
      let y = target_at (target_start pool.height oh) ph in
      if is_out_of_range_input pool.height pool.width x y
      then ok output
      else pool_covered_tap input y x oc ph pw output

  unfoldable pub pool_taps :
      AveragePooling2d → Tensor Ciphertext → (oh ow oc : ℕ) → Ciphertext → Result Ciphertext
  pool_taps pool input oh ow oc =
      for_range 0 pool.height.window
        λ ph. for_range 0 pool.width.window λ pw. pool_tap pool input oh ow oc ph pw

  -- `multiply_plain_inplace(…, plain_mul_factor_)` and `rescale_to_next_inplace`
  unfoldable pub multiply_factor : Plaintext → Ciphertext → Result Ciphertext
  multiply_factor factor output = do
    weighted ← multiply_plain output factor
    rescale_to_next weighted

  unfoldable pub pool_cell :
      AveragePooling2d → Tensor Ciphertext → (oh ow oc : ℕ) → Result Ciphertext
  pool_cell pool input oh ow oc = pool_taps pool input oh ow oc blank >>= λ output.
      if pool.optimized then ok output else multiply_factor pool.plain_mul_factor output

  -- `AveragePooling2D::forward`
  unfoldable pub average_pooling2d_forward :
      AveragePooling2d → Tensor Ciphertext → Result (Tensor Ciphertext)
  average_pooling2d_forward pool input =
      fill pool.height.out pool.width.out pool.out_channels (pool_cell pool input)
