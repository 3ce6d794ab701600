-- ===== src/Cnn/Build/Normalization.antt =====
-- A batch normalization that `buildBatchNormalization` made, applied to a tensor.
use pp_cnn.Prelude.{
  ℕ, suc, ◌+◌, ◌<◌, ◌≡◌, refl, subst, arith, none, some, false, Result, ok, ◌>>=◌, Returns,
  Returns->>=, Filled,
}
use pp_cnn.Seal.{Seal, Holds, PlainHolds}
use pp_cnn.Cnn.Floats.{FloatOps}
use pp_cnn.Cnn.Geometry.{Axis}
use pp_cnn.Cnn.Options.{OptOption, scale_param}
use pp_cnn.Cnn.Tensor.{Cells}
use pp_cnn.Cnn.Activation.Encode.{Fits}
use pp_cnn.Cnn.BatchNormalization.{BatchNormalization, batch_normalization_new}
use pp_cnn.Cnn.BatchNormalization.Forward.{Normalizes, batch_normalization_forward-affine}
use pp_cnn.Cnn.Network.{batch_normalization, Flow, forward_layer}
use pp_cnn.Cnn.Build.{
  batch_normalization_class, LayerInfo, WeightsFile, NextLayer, layer_group, beta_key, gamma_key,
  moving_mean_key, moving_variance_key,
}
use pp_cnn.Cnn.Build.Folding.{bn_weight, bn_bias}
use pp_cnn.Cnn.Build.Weights.{encode_vector_lem, encode_vector-NonZero}
use pp_cnn.Cnn.Build.Layers.{Built, build_batch_normalization}

-- The object of a batch normalization, as far as the builder reads it.
abbrev pub batch_normalization_info : (name : ℕ) → LayerInfo
batch_normalization_info name = record {
  class_name = some batch_normalization_class;
  name = some name;
  batch_input_shape = none;
  filters = none;
  kernel_size = none;
  pool_size = none;
  strides = none;
  padding = none;
  activation = none;
  units = none;
}

-- The parameters of a trained batch normalization, as the weights file holds them.
pub record Trained {ℓ} (Float : Type ℓ) : Type ℓ where
  pub beta : ℕ → Float
  pub gamma : ℕ → Float
  pub moving_mean : ℕ → Float
  pub moving_variance : ℕ → Float

module _ (seal : Seal) (ops : FloatOps seal.Float) (file : WeightsFile seal.Float) (uninit : Axis)
    (blank_plaintext : seal.Plaintext) where
  open seal use {Real, plus, times, Float, Scale, capacity, real, Encodable, Nominal}
  open ops use {literal, add, sub, mul, div, sqrt}

  -- The vectors of the layer in the weights file.
  pub record IsTrained (name dim : ℕ) (t : Trained Float) : Type 0 where
    pub beta : file.vector (layer_group name name) beta_key dim ≡ ok t.beta
    pub gamma : file.vector (layer_group name name) gamma_key dim ≡ ok t.gamma
    pub moving_mean : file.vector (layer_group name name) moving_mean_key dim ≡ ok t.moving_mean
    pub moving_variance :
        file.vector (layer_group name name) moving_variance_key dim ≡ ok t.moving_variance

  -- The builder, and then the layer on one input; also what the next layer sees.
  pub build_normalization_and_forward :
      LayerInfo
      → OptOption seal
      → NextLayer
      → Flow seal
      → Result (Flow seal × OptOption seal × NextLayer)
  build_normalization_and_forward info option next flow = do
    built ← build_batch_normalization seal ops file uninit blank_plaintext info option next
    flow' ← forward_layer seal built.layer flow
    ok (flow', built.option, built.next)

  -- The weight and the bias of a channel, after Keras.
  abbrev pub weight_at : Trained Float → ℕ → Float
  weight_at t c = div (t.gamma c) (sqrt (add (t.moving_variance c) (literal false 1 3)))

  abbrev pub bias_at : Trained Float → ℕ → Float
  bias_at t c = sub (t.beta c) (
      mul (div (t.gamma c) (sqrt (add (t.moving_variance c) (literal false 1 3))))
        (t.moving_mean c))

  -- What `buildBatchNormalization` leaves for an input at the level `l`.
  abbrev Ready :
      NextLayer
      → (l : ℕ) → Scale
      → (f b : ℕ → Real) → Built seal ops file uninit blank_plaintext
      → Type 0
  Ready next l s f b built =
      (bn : BatchNormalization seal) × (built.layer ≡ batch_normalization bn)
      × Normalizes seal bn l next.in_channels s f b
      × (built.option.consumed_level ≡ suc l)
      × (built.next ≡ next)

  build_batch_normalization_lem :
      (name : ℕ) (option : OptOption seal) (next : NextLayer) (t : Trained Float) (s : Scale)
      → next.in_units ≡ 0
      → IsTrained name next.in_channels t
      → ((c : ℕ) → c < next.in_channels → Fits seal (weight_at t c))
      → ((c : ℕ) → c < next.in_channels → Encodable (bias_at t c))
      → option.consumed_level < capacity
      → Nominal s
      → Returns
          (build_batch_normalization seal ops file uninit blank_plaintext
            (batch_normalization_info name)
            option
            next)
          (Ready next option.consumed_level s (λ c. real (weight_at t c)) (λ c. real (bias_at t c)))
  unfolding build_batch_normalization batch_normalization_new bn_weight bn_bias
  build_batch_normalization_lem name option next t s flat trained fits encs left nominal =
      simp (flat, trained.beta, trained.gamma, trained.moving_mean, trained.moving_variance)
        (Returns->>= _ _
          (encode_vector-NonZero seal ops option.consumed_level next.in_channels (weight_at t)
            (omega arith) fits)
          λ plain_weights hw.
            Returns->>= _ _
              (encode_vector_lem seal ops (option.consumed_level + 1) next.in_channels (bias_at t)
                (omega arith) encs)
              λ plain_biases hb. (
                _,
                refl,
                (
                  _,
                  refl,
                  record {
                    left = left;
                    nominal = nominal;
                    weights = hw;
                    biases =
                        subst
                          (λ m.
                            Filled next.in_channels
                              (λ c. PlainHolds seal m (scale_param seal) (real (bias_at t c)))
                              plain_biases)
                          {x = option.consumed_level + 1} {y = suc option.consumed_level}
                          (omega arith) hb;
                  },
                  omega arith,
                  refl,
                ),
              ))

  -- A batch normalization of a tensor, built when `consumed_level` is the level of its input and no
  -- layer before has units, from trained parameters whose weights and biases can be encoded, throws
  -- nothing: each cell is scaled by gamma / sqrt(moving_variance + 0.001) of its channel and shifted
  -- by beta - weight * moving_mean, at the nominal scale and at the new `consumed_level`. The shape
  -- for the next layer stays.
  pub build_batch_normalization-forward :
      (name height width : ℕ) (option : OptOption seal) (next : NextLayer) (flow : Flow seal)
      (t : Trained Float) (s : Scale) (v : ℕ → ℕ → ℕ → Real)
      → next.in_units ≡ 0
      → flow.is_flat ≡ false
      → IsTrained name next.in_channels t
      → ((c : ℕ) → c < next.in_channels → Fits seal (weight_at t c))
      → ((c : ℕ) → c < next.in_channels → Encodable (bias_at t c))
      → option.consumed_level < capacity
      → Nominal s
      → Cells height width next.in_channels
          (λ h w c. Holds seal option.consumed_level s 1 (v h w c))
          flow.encrypted_3d
      → Returns
          (build_normalization_and_forward (batch_normalization_info name) option next flow)
          λ r.
            Cells height width next.in_channels
              (λ h w c.
                Holds seal r.1.consumed_level
                  (scale_param seal)
                  1
                  (plus (times (v h w c) (real (weight_at t c))) (real (bias_at t c))))
              r.0.encrypted_3d
            × (r.2 ≡ next)
  unfolding build_normalization_and_forward forward_layer
  build_batch_normalization-forward name height width option next flow t s v no_units tensor trained
        fits encs left nominal cells =
      Returns->>= _ _
        (build_batch_normalization_lem name option next t s no_units trained fits encs left nominal)
        λ built (bn, is_bn, given, level, same_next).
          let (out, e, h) =
            batch_normalization_forward-affine seal bn _ _ s _ _ given height width v
              flow.encrypted_3d cells in
          (
            (record flow { encrypted_3d = out }, built.option, built.next),
            rw (is_bn, tensor, e) refl,
            (rw level h, same_next),
          )
