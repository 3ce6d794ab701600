-- ===== src/Cnn/Build/Pooling.antt =====
-- A pooling that `buildAveragePooling2D` made with `enable_optimize_pooling`, applied to a tensor.
use pp_cnn.Prelude.{
  ℕ, ◌*◌, ◌≤◌, ◌≡◌, refl, arith, none, some, true, Result, ok, ◌>>=◌, Returns, Returns->>=,
}
use pp_cnn.Seal.{Seal, Holds}
use pp_cnn.Cnn.Floats.{FloatOps, one_float}
use pp_cnn.Cnn.Geometry.{Axis, valid, axis_fields}
use pp_cnn.Cnn.Geometry.Shape.{
  IsMeasured, valid-covers, axis_fields-FitsInt, axis_fields-size, axis_fields-window,
}
use pp_cnn.Cnn.Options.{OptOption}
use pp_cnn.Cnn.Tensor.{Tensor, Cells}
use pp_cnn.Cnn.AveragePooling2d.{AveragePooling2d, average_pooling2d_new}
use pp_cnn.Cnn.AveragePooling2d.Window.{Inside, PoolInput, window_sum}
use pp_cnn.Cnn.AveragePooling2d.Forward.{average_pooling2d_forward-sum}
use pp_cnn.Cnn.Network.{average_pooling2d, Flow, forward_layer}
use pp_cnn.Cnn.Build.{average_pooling2d_class, LayerInfo, WeightsFile, NextLayer}
use pp_cnn.Cnn.Build.Layers.{Built, pooling_factor, build_average_pooling2d}

-- The members of a pooling's object that the builder reads.
pub record PoolConfig : Type 0 where
  pub name : ℕ
  pub pool_height : ℕ
  pub pool_width : ℕ
  pub stride_height : ℕ
  pub stride_width : ℕ

-- Its object, with the padding "valid".
abbrev pub pool_info : PoolConfig → LayerInfo
pool_info c = record {
  class_name = some average_pooling2d_class;
  name = some c.name;
  batch_input_shape = none;
  filters = none;
  kernel_size = none;
  pool_size = some (c.pool_height, c.pool_width);
  strides = some (c.stride_height, c.stride_width);
  padding = some valid;
  activation = none;
  units = none;
}

-- The sizes for which every window lies on the input.
pub record PoolSizes (c : PoolConfig) (next : NextLayer) : Type 0 where
  pub sized_height : IsMeasured next.in_height c.pool_height c.stride_height
  pub sized_width : IsMeasured next.in_width c.pool_width c.stride_width
  pub inside_height : c.pool_height ≤ next.in_height
  pub inside_width : c.pool_width ≤ next.in_width

module _ (seal : Seal) (ops : FloatOps seal.Float) (file : WeightsFile seal.Float) (uninit : Axis)
    (blank_plaintext : seal.Plaintext) where
  open seal use {Real, Float, Scale, Ciphertext}
  open ops use {div, of_size}

  -- The builder, and then the layer on one input; also what the next layer sees.
  pub build_pooling_and_forward :
      LayerInfo
      → OptOption seal
      → NextLayer
      → Flow seal
      → Result (Flow seal × OptOption seal × NextLayer)
  build_pooling_and_forward info option next flow = do
    built ← build_average_pooling2d seal ops file uninit blank_plaintext info option next
    flow' ← forward_layer seal built.layer flow
    ok (flow', built.option, built.next)

  abbrev pub pool_axis : (size window stride : ℕ) → Axis
  pool_axis size window stride = axis_fields valid size window stride uninit

  Inside-pool_axis :
      (size window stride : ℕ)
      → IsMeasured size window stride
      → window ≤ size
      → Inside (pool_axis size window stride)
  Inside-pool_axis size window stride z le o f lo lf =
      valid-covers size window stride uninit o f z le lo
        (rw (axis_fields-window uninit valid size window stride) at lf)

  -- The option behind the layer: the factor of this pooling is to be folded.
  abbrev pub folding : PoolConfig → OptOption seal → OptOption seal
  folding c option = record option {
    current_pooling_mul_factor = div (one_float ops) (of_size (c.pool_height * c.pool_width));
    should_multiply_pool = true;
  }

  -- What the builder leaves for an input at the level `l`.
  abbrev Ready :
      PoolConfig
      → OptOption seal
      → NextLayer
      → (l : ℕ) → Scale
      → (ℕ → ℕ → ℕ → Real)
      → Tensor Ciphertext
      → Built seal ops file uninit blank_plaintext
      → Type 0
  Ready c option next l s v input built =
      (pool : AveragePooling2d seal) × (built.layer ≡ average_pooling2d pool)
      × (pool.height ≡ pool_axis next.in_height c.pool_height c.stride_height)
      × (pool.width ≡ pool_axis next.in_width c.pool_width c.stride_width)
      × (pool.out_channels ≡ next.in_channels)
      × (pool.optimized ≡ true)
      × PoolInput seal pool l s v input
      × (built.option ≡ folding c option)
      × (built.next ≡ record next {
        in_height = pool.height.out;
        in_width = pool.width.out;
        in_channels = pool.out_channels;
      })

  build_average_pooling2d_lem :
      (c : PoolConfig) (option : OptOption seal) (next : NextLayer) (input : Tensor Ciphertext)
      (s : Scale) (v : ℕ → ℕ → ℕ → Real)
      → PoolSizes c next
      → option.enable_optimize_pooling ≡ true
      → Cells next.in_height next.in_width next.in_channels
          (λ h w ch. Holds seal option.consumed_level s 1 (v h w ch))
          input
      → Returns
          (build_average_pooling2d seal ops file uninit blank_plaintext (pool_info c) option next)
          (Ready c option next option.consumed_level s v input)
  unfolding build_average_pooling2d average_pooling2d_new pooling_factor
  build_average_pooling2d_lem c option next input s v z on cells = simp on (
    _,
    refl,
    (
      _,
      refl,
      refl,
      refl,
      refl,
      refl,
      record {
        fits_height =
            axis_fields-FitsInt valid _ _ _ uninit z.sized_height
              (omega (arith, z.sized_height.sized.window_pos, z.inside_height)) z.inside_height;
        fits_width =
            axis_fields-FitsInt valid _ _ _ uninit z.sized_width
              (omega (arith, z.sized_width.sized.window_pos, z.inside_width)) z.inside_width;
        window_height =
            rw (axis_fields-window uninit valid next.in_height c.pool_height c.stride_height)
              z.sized_height.sized.window_pos;
        window_width =
            rw (axis_fields-window uninit valid next.in_width c.pool_width c.stride_width)
              z.sized_width.sized.window_pos;
        cells =
            rw
              (
                axis_fields-size uninit valid next.in_height c.pool_height c.stride_height,
                axis_fields-size uninit valid next.in_width c.pool_width c.stride_width,
              )
              cells;
      },
      refl,
      refl,
    ),
  )

  -- A pooling with the padding "valid" and sizes up to 2 ^ 24 whose windows lie on the input, built with
  -- `enable_optimize_pooling` when `consumed_level` is the level of its input, throws nothing and
  -- consumes no level: each cell holds the sum over its window. What is left to be folded into the next
  -- layer is the factor 1 / (pool_height * pool_width), whatever factor was left before; the next
  -- layer is built for the shape of the result.
  pub build_average_pooling2d-forward :
      (c : PoolConfig) (option : OptOption seal) (next : NextLayer) (flow : Flow seal) (s : Scale)
      (v : ℕ → ℕ → ℕ → Real)
      → PoolSizes c next
      → option.enable_optimize_pooling ≡ true
      → Cells next.in_height next.in_width next.in_channels
          (λ h w ch. Holds seal option.consumed_level s 1 (v h w ch))
          flow.encrypted_3d
      → Returns (build_pooling_and_forward (pool_info c) option next flow) λ r.
        Cells r.2.in_height r.2.in_width r.2.in_channels
          (λ oh ow oc. Holds seal r.1.consumed_level s 1 (
            window_sum seal
              (pool_axis next.in_height c.pool_height c.stride_height)
              (pool_axis next.in_width c.pool_width c.stride_width)
              v
              oh
              ow
              oc))
          r.0.encrypted_3d
        × (r.1 ≡ folding c option)
        × (r.2 ≡ record next {
          in_height = (pool_axis next.in_height c.pool_height c.stride_height).out;
          in_width = (pool_axis next.in_width c.pool_width c.stride_width).out;
        })
  unfolding build_pooling_and_forward forward_layer
  build_average_pooling2d-forward c option next flow s v z on cells =
      Returns->>= _ _ (build_average_pooling2d_lem c option next flow.encrypted_3d s v z on cells)
        λ built (pool, is_pool, height, width, channels, optimized, given, same_option, same_next).
          let (out, e, h) =
            average_pooling2d_forward-sum seal pool _ s v flow.encrypted_3d given
              (rw height (
                Inside-pool_axis next.in_height c.pool_height c.stride_height z.sized_height
                  z.inside_height))
              (rw width (
                Inside-pool_axis next.in_width c.pool_width c.stride_width z.sized_width
                  z.inside_width))
              optimized in
          (
            (record flow { encrypted_3d = out }, built.option, built.next),
            rw (is_pool, e) refl,
            (
              rw (same_next, same_option, ← height, ← width) h,
              same_option,
              rw (same_next, height, width, channels) refl,
            ),
          )
