-- ===== src/Cnn/Build/Conv2d.antt =====
-- A convolution that `buildConv2D` made, applied to its input.
use pp_cnn.Prelude.{
  subst, ℕ, suc, ◌+◌, ◌<◌, ◌≡◌, refl, arith, Result, ok, ◌>>=◌, Returns, Returns->>=, Filled,
}
use pp_cnn.Seal.{Seal, Holds, PlainHolds}
use pp_cnn.Cnn.Floats.{FloatOps}
use pp_cnn.Cnn.Geometry.{Axis, axis_fields}
use pp_cnn.Cnn.Geometry.Shape.{
  axis_fields-Reached, axis_fields-FitsInt, axis_fields-size, axis_fields-window,
}
use pp_cnn.Cnn.Options.{OptOption, scale_param}
use pp_cnn.Cnn.Tensor.{Tensor, Cells}
use pp_cnn.Cnn.Activation.Encode.{Fits}
use pp_cnn.Cnn.Conv2d.{Conv2d, conv2d_new}
use pp_cnn.Cnn.Conv2d.Convolution.{Conv2dInput, convolution}
use pp_cnn.Cnn.Conv2d.Forward.{conv2d_forward-convolution}
use pp_cnn.Cnn.Network.{conv2d, Flow, forward_layer}
use pp_cnn.Cnn.Build.{LayerInfo, WeightsFile, NextLayer, layer_group, bias_key}
use pp_cnn.Cnn.Build.Folding.{fold_option, rounded}
use pp_cnn.Cnn.Build.Weights.{encode_filters_lem, encode_vector_lem, fold_option-consumed_level}
use pp_cnn.Cnn.Build.Layers.{Built, build_conv2d}
use pp_cnn.Cnn.Build.Conv2dConfig.{Conv2dConfig, conv2d_info, Conv2dSizes}

module _ (seal : Seal) (ops : FloatOps seal.Float) (file : WeightsFile seal.Float) (uninit : Axis)
    (blank_plaintext : seal.Plaintext) where
  open seal use {
    Real, Float, Scale, Plaintext, Ciphertext, capacity, real, Encodable, NonZero, Nominal,
  }
  open ops use {mul}

  -- The builder, and then the layer on one input.
  pub build_and_forward :
      LayerInfo → OptOption seal → NextLayer → Flow seal → Result (Flow seal × OptOption seal)
  build_and_forward info option next flow = do
    built ← build_conv2d seal ops file uninit blank_plaintext info option next
    flow' ← forward_layer seal built.layer flow
    ok (flow', built.option)

  -- The weight that is encoded for a trained one.
  abbrev pub folded_weight : OptOption seal → Float → Float
  folded_weight option w = rounded ops (mul (fold_option seal ops option).0 w)

  abbrev pub height_axis : Conv2dConfig → Axis
  height_axis c = axis_fields c.padding c.in_height c.kernel_height c.stride_height uninit

  abbrev pub width_axis : Conv2dConfig → Axis
  width_axis c = axis_fields c.padding c.in_width c.kernel_width c.stride_width uninit

  -- What `buildConv2D` leaves for an input at the level `l`.
  abbrev Ready :
      Conv2dConfig
      → (l : ℕ) → Scale
      → (ℕ → ℕ → ℕ → Real)
      → (ℕ → ℕ → ℕ → ℕ → Real)
      → (ℕ → Real)
      → Tensor Ciphertext
      → Built seal ops file uninit blank_plaintext
      → Type 0
  Ready c l s v f b input built =
      (conv : Conv2d seal) × (built.layer ≡ conv2d conv)
      × (conv.height ≡ height_axis c)
      × (conv.width ≡ width_axis c)
      × (conv.in_channels ≡ c.in_channels)
      × (conv.out_channels ≡ c.filters)
      × Conv2dInput seal conv l s v f b input
      × (built.option.consumed_level ≡ suc l)

  build_conv2d_lem :
      (c : Conv2dConfig) (option : OptOption seal) (next : NextLayer) (input : Tensor Ciphertext)
      (filters : ℕ → ℕ → ℕ → ℕ → Float) (biases : ℕ → Float) (s : Scale) (v : ℕ → ℕ → ℕ → Real)
      → Conv2dSizes c
      → file.kernel_4d
          (layer_group c.name c.name)
          c.kernel_height
          c.kernel_width
          c.in_channels
          c.filters
        ≡ ok filters
      → file.vector (layer_group c.name c.name) bias_key c.filters ≡ ok biases
      → ((fh fw ic fs : ℕ)
          → fh < c.kernel_height
          → fw < c.kernel_width
          → ic < c.in_channels
          → fs < c.filters
          → Fits seal (folded_weight option (filters fh fw ic fs)))
      → ((fs : ℕ) → fs < c.filters → Encodable (biases fs))
      → option.consumed_level < capacity
      → Nominal s
      → Cells c.in_height c.in_width c.in_channels
          (λ h w ic. Holds seal option.consumed_level s 1 (v h w ic))
          input
      → Returns (build_conv2d seal ops file uninit blank_plaintext (conv2d_info c) option next) (
          Ready c option.consumed_level s v
            (λ fh fw ic fs. real (folded_weight option (filters fh fw ic fs)))
            (λ fs. real (biases fs))
            input)
  unfolding build_conv2d conv2d_new
  build_conv2d_lem c option next input filters biases s v z ek eb fits encs left nominal cells =
      simp (ek, eb)
        (Returns->>= _ _
          (encode_filters_lem seal ops option.consumed_level c.kernel_height c.kernel_width
            c.in_channels c.filters
            (λ fh fw ic fs. mul (fold_option seal ops option).0 (filters fh fw ic fs)) (omega arith)
            fits)
          λ plain_filters hf.
            Returns->>= _ _
              (encode_vector_lem seal ops (option.consumed_level + 1) c.filters biases (omega arith)
                encs)
              λ plain_biases hb. (
                _,
                refl,
                (
                  _,
                  refl,
                  refl,
                  refl,
                  refl,
                  refl,
                  record {
                    left = left;
                    nominal = nominal;
                    channels = z.channels;
                    fits_height =
                        axis_fields-FitsInt c.padding _ _ _ uninit z.sized_height z.height_pos
                          z.covered_height;
                    fits_width =
                        axis_fields-FitsInt c.padding _ _ _ uninit z.sized_width z.width_pos
                          z.covered_width;
                    cells =
                        rw
                          (
                            axis_fields-size uninit c.padding c.in_height c.kernel_height
                                c.stride_height,
                            axis_fields-size uninit c.padding c.in_width c.kernel_width
                                c.stride_width,
                          )
                          cells;
                    filters =
                        rw
                          (
                            axis_fields-window uninit c.padding c.in_height c.kernel_height
                                c.stride_height,
                            axis_fields-window uninit c.padding c.in_width c.kernel_width
                                c.stride_width,
                          )
                          hf;
                    biases =
                        subst
                          (λ m.
                            Filled c.filters
                              (λ fs. PlainHolds seal m (scale_param seal) (real (biases fs)))
                              plain_biases)
                          {x = option.consumed_level + 1} {y = suc option.consumed_level}
                          (omega arith) hb;
                  },
                  omega (arith, fold_option-consumed_level seal ops option),
                ),
              ))

  -- A convolution of sizes up to 2 ^ 24, built when `consumed_level` is the level of its input, from
  -- trained parameters that can be encoded, throws nothing on that input: it computes the convolution
  -- with the folded and rounded weights, at the nominal scale and at the new `consumed_level`.
  pub build_conv2d-forward :
      (c : Conv2dConfig) (option : OptOption seal) (next : NextLayer) (flow : Flow seal)
      (filters : ℕ → ℕ → ℕ → ℕ → Float) (biases : ℕ → Float) (s : Scale) (v : ℕ → ℕ → ℕ → Real)
      → Conv2dSizes c
      → file.kernel_4d
          (layer_group c.name c.name)
          c.kernel_height
          c.kernel_width
          c.in_channels
          c.filters
        ≡ ok filters
      → file.vector (layer_group c.name c.name) bias_key c.filters ≡ ok biases
      → ((fh fw ic fs : ℕ)
          → fh < c.kernel_height
          → fw < c.kernel_width
          → ic < c.in_channels
          → fs < c.filters
          → Fits seal (folded_weight option (filters fh fw ic fs)))
      → ((fs : ℕ) → fs < c.filters → Encodable (biases fs))
      → option.consumed_level < capacity
      → Nominal s
      → Cells c.in_height c.in_width c.in_channels
          (λ h w ic. Holds seal option.consumed_level s 1 (v h w ic))
          flow.encrypted_3d
      → Returns (build_and_forward (conv2d_info c) option next flow) λ r.
        Cells
          (height_axis c).out
          (width_axis c).out
          c.filters
          (λ oh ow oc. Holds seal r.1.consumed_level (scale_param seal) 1 (
            convolution seal
              (height_axis c)
              (width_axis c)
              c.in_channels
              v
              (λ fh fw ic fs. real (folded_weight option (filters fh fw ic fs)))
              (λ fs. real (biases fs))
              oh
              ow
              oc))
          r.0.encrypted_3d
  unfolding build_and_forward forward_layer
  build_conv2d-forward c option next flow filters biases s v z ek eb fits encs left nominal cells =
      Returns->>= _ _
        (build_conv2d_lem c option next flow.encrypted_3d filters biases s v z ek eb fits encs left
          nominal cells)
        λ built (conv, layer, height, width, ins, outs, given, level).
          let (t, e, h) =
            conv2d_forward-convolution seal conv _ s v _ _ flow.encrypted_3d given
              (rw height (
                axis_fields-Reached c.padding _ _ _ uninit z.sized_height z.height_pos
                  z.covered_height))
              (rw width (
                axis_fields-Reached c.padding _ _ _ uninit z.sized_width z.width_pos
                  z.covered_width)) in
          (
            (record flow { encrypted_3d = t }, built.option),
            rw (layer, e) refl,
            rw (level, ← height, ← width, ← ins, ← outs) h,
          )
