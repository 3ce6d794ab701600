-- ===== src/Cnn/Build/Weights.antt =====
-- What the loops of the builders that encode weights and biases leave.
use pp_cnn.Prelude.{◌≡◌, arith, ℕ, ◌<◌, ◌≤◌, Returns, Filled, tabulate-Filled}
use pp_cnn.Seal.{Seal, PlainHolds}
use pp_cnn.Cnn.Floats.{FloatOps}
use pp_cnn.Cnn.Options.{OptOption, scale_param}
use pp_cnn.Cnn.Tensor.{Cells, fill-Cells}
use pp_cnn.Cnn.Activation.Encode.{Fits, encode_at_lem, encode_at-NonZero}
use pp_cnn.Cnn.Build.Folding.{rounded, encode_vector, encode_filters, encode_weights, fold_option}

module _ (seal : Seal) (ops : FloatOps seal.Float) where
  open seal use {Float, capacity, real, Encodable, NonZero}

  pub encode_vector_lem :
      (levels n : ℕ) (biases : ℕ → Float)
      → levels ≤ capacity
      → ((i : ℕ) → i < n → Encodable (biases i))
      → Returns
          (encode_vector seal ops levels n biases)
          (Filled n λ i. PlainHolds seal levels (scale_param seal) (real (biases i)))
  unfolding encode_vector
  encode_vector_lem levels n biases room e =
      tabulate-Filled n _ _ λ i lt. encode_at_lem seal levels (biases i) room (e i lt)

  pub encode_vector-NonZero :
      (levels n : ℕ) (weights : ℕ → Float)
      → levels ≤ capacity
      → ((i : ℕ) → i < n → Fits seal (weights i))
      → Returns (encode_vector seal ops levels n weights) (
          Filled n
            λ i p. PlainHolds seal levels (scale_param seal) (real (weights i)) p × NonZero p)
  unfolding encode_vector
  encode_vector-NonZero levels n weights room e =
      tabulate-Filled n _ _
        λ i lt. encode_at-NonZero seal levels (weights i) room (e i lt).0 (e i lt).1

  pub encode_filters_lem :
      (levels a b c d : ℕ) (weight : ℕ → ℕ → ℕ → ℕ → Float)
      → levels ≤ capacity
      → ((fh fw ic fs : ℕ)
          → fh < a
          → fw < b
          → ic < c
          → fs < d
          → Fits seal (rounded ops (weight fh fw ic fs)))
      → Returns (encode_filters seal ops levels a b c d weight) (
          Filled a λ fh. Cells b c d λ fw ic fs p.
            PlainHolds seal levels (scale_param seal) (real (rounded ops (weight fh fw ic fs))) p
            × NonZero p)
  unfolding encode_filters
  encode_filters_lem levels a b c d weight room e = tabulate-Filled a _ _ λ fh lfh.
      fill-Cells b c d _ _ λ fw ic fs lfw lic lfs.
        let (enc, vis) = e fh fw ic fs lfh lfw lic lfs in
        encode_at-NonZero seal levels (rounded ops (weight fh fw ic fs)) room enc vis

  pub encode_weights_lem :
      (levels a b : ℕ) (weight : ℕ → ℕ → Float)
      → levels ≤ capacity
      → ((iu ou : ℕ) → iu < a → ou < b → Fits seal (rounded ops (weight iu ou)))
      → Returns (encode_weights seal ops levels a b weight) (
          Filled a λ iu. Filled b λ ou p.
            PlainHolds seal levels (scale_param seal) (real (rounded ops (weight iu ou))) p
            × NonZero p)
  unfolding encode_weights
  encode_weights_lem levels a b weight room e = tabulate-Filled a _ _ λ iu liu.
      tabulate-Filled b _ _ λ ou lou.
        let (enc, vis) = e iu ou liu lou in
        encode_at-NonZero seal levels (rounded ops (weight iu ou)) room enc vis

  pub fold_option-consumed_level :
      (option : OptOption seal)
      → (fold_option seal ops option).1.consumed_level ≡ option.consumed_level
  unfolding fold_option
  fold_option-consumed_level option = ground arith
