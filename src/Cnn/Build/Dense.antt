-- ===== src/Cnn/Build/Dense.antt =====
-- A dense layer that `buildDense` made, applied to its input.
use pp_cnn.Prelude.{
  ℕ, suc, ◌+◌, ◌<◌, ◌≡◌, refl, subst, arith, none, some, List, Result, ok, ◌>>=◌, Returns,
  Returns->>=, Filled,
}
use pp_cnn.Seal.{Seal, Holds, PlainHolds}
use pp_cnn.Cnn.Floats.{FloatOps}
use pp_cnn.Cnn.Geometry.{Axis}
use pp_cnn.Cnn.Options.{OptOption, scale_param}
use pp_cnn.Cnn.Sums.{sum}
use pp_cnn.Cnn.Activation.{ActivationName}
use pp_cnn.Cnn.Activation.Encode.{Fits}
use pp_cnn.Cnn.Dense.{Dense, dense_new}
use pp_cnn.Cnn.Dense.Forward.{DenseInput, dense_forward-affine}
use pp_cnn.Cnn.Network.{dense, Flow, forward_layer}
use pp_cnn.Cnn.Build.{dense_class, LayerInfo, WeightsFile, NextLayer, layer_group, bias_key}
use pp_cnn.Cnn.Build.Folding.{fold_option, rounded}
use pp_cnn.Cnn.Build.Weights.{encode_weights_lem, encode_vector_lem, fold_option-consumed_level}
use pp_cnn.Cnn.Build.Layers.{Built, build_dense}

-- The object of a dense layer, as far as the builder reads it.
abbrev pub dense_info : (name units : ℕ) → ActivationName → LayerInfo
dense_info name units activation = record {
  class_name = some dense_class;
  name = some name;
  batch_input_shape = none;
  filters = none;
  kernel_size = none;
  pool_size = none;
  strides = none;
  padding = none;
  activation = some activation;
  units = some units;
}

module _ (seal : Seal) (ops : FloatOps seal.Float) (file : WeightsFile seal.Float) (uninit : Axis)
    (blank_plaintext : seal.Plaintext) where
  open seal use {
    numbers, Real, plus, times, Float, Scale, Ciphertext, capacity, real, Encodable, Nominal,
  }
  open ops use {mul}

  -- The builder, and then the layer on one input; also the number of units that the next layer sees.
  pub build_dense_and_forward :
      LayerInfo
      → OptOption seal
      → NextLayer
      → Flow seal
      → Result (Flow seal × OptOption seal × NextLayer)
  build_dense_and_forward info option next flow = do
    built ← build_dense seal ops file uninit blank_plaintext info option next
    flow' ← forward_layer seal built.layer flow
    ok (flow', built.option, built.next)

  -- The weight that is encoded for a trained one.
  abbrev pub folded_unit_weight : OptOption seal → Float → Float
  folded_unit_weight option w = rounded ops (mul (fold_option seal ops option).0 w)

  -- What `buildDense` leaves for an input at the level `l`.
  abbrev Ready :
      (units : ℕ)
      → NextLayer
      → (l : ℕ) → Scale
      → (ℕ → Real)
      → (ℕ → ℕ → Real)
      → (ℕ → Real)
      → List Ciphertext
      → Built seal ops file uninit blank_plaintext
      → Type 0
  Ready units next l s v f b input built =
      (layer : Dense seal) × (built.layer ≡ dense layer)
      × (layer.in_units ≡ next.in_units)
      × (layer.out_units ≡ units)
      × DenseInput seal layer l s v f b input
      × (built.option.consumed_level ≡ suc l)
      × (built.next.in_units ≡ units)

  build_dense_lem :
      (name units : ℕ) (activation : ActivationName) (option : OptOption seal) (next : NextLayer)
      (input : List Ciphertext) (weights : ℕ → ℕ → Float) (biases : ℕ → Float) (s : Scale)
      (v : ℕ → Real)
      → 0 < next.in_units
      → file.kernel_2d (layer_group name name) next.in_units units ≡ ok weights
      → file.vector (layer_group name name) bias_key units ≡ ok biases
      → ((iu ou : ℕ)
          → iu < next.in_units
          → ou < units
          → Fits seal (folded_unit_weight option (weights iu ou)))
      → ((ou : ℕ) → ou < units → Encodable (biases ou))
      → option.consumed_level < capacity
      → Nominal s
      → Filled next.in_units (λ iu. Holds seal option.consumed_level s 1 (v iu)) input
      → Returns
          (build_dense seal ops file uninit blank_plaintext
            (dense_info name units activation)
            option
            next)
          (Ready units next option.consumed_level s v
            (λ iu ou. real (folded_unit_weight option (weights iu ou)))
            (λ ou. real (biases ou))
            input)
  unfolding build_dense dense_new
  build_dense_lem name units activation option next input weights biases s v pos ek eb fits encs
        left nominal filled =
      simp (ek, eb)
        (Returns->>= _ _
          (encode_weights_lem seal ops option.consumed_level next.in_units units
            (λ iu ou. mul (fold_option seal ops option).0 (weights iu ou)) (omega arith) fits)
          λ plain_weights hw.
            Returns->>= _ _
              (encode_vector_lem seal ops (option.consumed_level + 1) units biases (omega arith)
                encs)
              λ plain_biases hb. (
                _,
                refl,
                (
                  _,
                  refl,
                  refl,
                  refl,
                  record {
                    left = left;
                    nominal = nominal;
                    in_units_pos = pos;
                    units = filled;
                    weights = hw;
                    biases =
                        subst
                          (λ m.
                            Filled units
                              (λ ou. PlainHolds seal m (scale_param seal) (real (biases ou)))
                              plain_biases)
                          {x = option.consumed_level + 1} {y = suc option.consumed_level}
                          (omega arith) hb;
                  },
                  omega (arith, fold_option-consumed_level seal ops option),
                  refl,
                ),
              ))

  -- A dense layer built when `consumed_level` is the level of its input, from trained parameters that
  -- can be encoded, throws nothing on that input: each unit holds the sum of the inputs, weighted by the
  -- folded and rounded weights, plus the bias, at the nominal scale and at the new `consumed_level`;
  -- the next layer is built for its number of units.
  pub build_dense-forward :
      (name units : ℕ) (activation : ActivationName) (option : OptOption seal) (next : NextLayer)
      (flow : Flow seal) (weights : ℕ → ℕ → Float) (biases : ℕ → Float) (s : Scale) (v : ℕ → Real)
      → 0 < next.in_units
      → file.kernel_2d (layer_group name name) next.in_units units ≡ ok weights
      → file.vector (layer_group name name) bias_key units ≡ ok biases
      → ((iu ou : ℕ)
          → iu < next.in_units
          → ou < units
          → Fits seal (folded_unit_weight option (weights iu ou)))
      → ((ou : ℕ) → ou < units → Encodable (biases ou))
      → option.consumed_level < capacity
      → Nominal s
      → Filled next.in_units
          (λ iu. Holds seal option.consumed_level s 1 (v iu))
          flow.encrypted_units
      → Returns (build_dense_and_forward (dense_info name units activation) option next flow) λ r.
        Filled units
          (λ ou. Holds seal r.1.consumed_level (scale_param seal) 1 (
            plus
              (sum numbers next.in_units
                λ iu. times (v iu) (real (folded_unit_weight option (weights iu ou))))
              (real (biases ou))))
          r.0.encrypted_units
        × (r.2.in_units ≡ units)
  unfolding build_dense_and_forward forward_layer
  build_dense-forward name units activation option next flow weights biases s v pos ek eb fits encs
        left nominal filled =
      Returns->>= _ _
        (build_dense_lem name units activation option next flow.encrypted_units weights biases s v
          pos ek eb fits encs left nominal filled)
        λ built (layer, is_dense, ins, outs, given, level, in_units).
          let (us, e, h) = dense_forward-affine seal layer _ s v _ _ flow.encrypted_units given in
          (
            (record flow { encrypted_units = us }, built.option, built.next),
            rw (is_dense, e) refl,
            (rw (level, ← ins, ← outs) h, in_units),
          )
