-- ===== src/Cnn/Build/Folding.antt =====
-- Encoding the trained parameters: `roundValue`, the choice of `folding_value` that the four builders
-- of a layer with weights repeat, and the loops that encode (ppcnn/ppcnn_server/cnn/load_model.cpp).
use pp_cnn.Prelude.{ℕ, false, ◌&&◌, not, List, Result, tabulate, if◌then◌else◌}
use pp_cnn.Seal.{Seal}
use pp_cnn.Cnn.Floats.{FloatOps, epsilon, one_float, bn_epsilon}
use pp_cnn.Cnn.Options.{OptOption}
use pp_cnn.Cnn.Tensor.{Tensor, fill}
use pp_cnn.Cnn.Activation.{encode_at}

module _ {Float : Type 0} (ops : FloatOps Float) where
  open ops use {mul, div, add, sub, sqrt, fabs, truncate, is_zero, less}

  -- `roundValue`
  unfoldable pub round_value : Float → Float
  round_value value =
      let sign = if not (is_zero value) then truncate (div value (fabs value)) else one_float ops in
      mul (epsilon ops) sign

  -- `if (fabs(weight) < EPSILON) roundValue(weight)`
  unfoldable pub rounded : Float → Float
  unfolding round_value
  rounded weight = if less (fabs weight) (epsilon ops) then round_value weight else weight

  -- The weight and the bias of a batch normalization, from its trained parameters.
  unfoldable pub bn_weight : (gamma moving_variance : Float) → Float
  bn_weight gamma moving_variance = div gamma (sqrt (add moving_variance (bn_epsilon ops)))

  unfoldable pub bn_bias : (beta weight moving_mean : Float) → Float
  bn_bias beta weight moving_mean = sub beta (mul weight moving_mean)

module _ (seal : Seal) (ops : FloatOps seal.Float) where
  open seal use {Float, Plaintext}
  open ops use {mul}

  -- `folding_value`, and the option with the flags of what is folded reset.
  unfoldable pub fold_option : OptOption seal → Float × OptOption seal
  fold_option option =
      if option.enable_optimize_activation && option.should_multiply_coeff
        && option.enable_optimize_pooling && option.should_multiply_pool
      then (
        mul option.highest_deg_coeff option.current_pooling_mul_factor,
        record option { should_multiply_coeff = false; should_multiply_pool = false },
      )
      else if option.enable_optimize_activation && option.should_multiply_coeff
      then (option.highest_deg_coeff, record option { should_multiply_coeff = false })
      else if option.enable_optimize_pooling && option.should_multiply_pool
      then (option.current_pooling_mul_factor, record option { should_multiply_pool = false })
      else (one_float ops, option)

  -- The biases, encoded and lowered to `levels`.
  unfoldable pub encode_vector : ℕ → ℕ → (ℕ → Float) → Result (List Plaintext)
  encode_vector levels n biases = tabulate n λ i. encode_at seal levels (biases i)

  -- The weights of the filters and of the units.
  unfoldable pub encode_filters :
      ℕ → (a b c d : ℕ) → (ℕ → ℕ → ℕ → ℕ → Float) → Result (List (Tensor Plaintext))
  unfolding rounded
  encode_filters levels a b c d weight =
      tabulate a
        λ fh. fill b c d λ fw ic fs. encode_at seal levels (rounded ops (weight fh fw ic fs))

  unfoldable pub encode_weights : ℕ → (a b : ℕ) → (ℕ → ℕ → Float) → Result (List (List Plaintext))
  unfolding rounded
  encode_weights levels a b weight =
      tabulate a λ iu. tabulate b λ ou. encode_at seal levels (rounded ops (weight iu ou))
