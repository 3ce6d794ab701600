-- ===== src/Cnn/Dense.antt =====
-- `Dense` (ppcnn/ppcnn_server/cnn/dense.cpp).
pub mod Forward
use pp_cnn.Prelude.{
  ℕ, ◌+◌, List, Result, ok, ◌>>=◌, for_range, index, tabulate, ◌==◌, if◌then◌else◌,
}
use pp_cnn.Seal.{Seal}
use pp_cnn.Cnn.Options.{OptOption, scale_param}

module _ (seal : Seal) where
  open seal use {
    Plaintext, Ciphertext, blank, multiply_plain, add, rescale_to_next, set_scale, add_plain,
  }

  pub record Dense : Type 0 where
    pub in_units : ℕ
    pub out_units : ℕ
    pub plain_weights : List (List Plaintext)
    pub plain_biases : List Plaintext

  -- `Dense::Dense`
  unfoldable pub dense_new :
      (in_units out_units : ℕ)
      → List (List Plaintext)
      → List Plaintext
      → OptOption seal
      → Dense × OptOption seal
  dense_new in_units out_units plain_weights plain_biases option = (
    record {
      in_units = in_units;
      out_units = out_units;
      plain_weights = plain_weights;
      plain_biases = plain_biases;
    },
    record option { consumed_level = option.consumed_level + 1 },
  )

  -- `plain_weights_[iu][ou]`
  unfoldable pub weight_at : List (List Plaintext) → ℕ → ℕ → Result Plaintext
  weight_at weights iu ou = do row ← index weights iu; index row ou

  -- The loop over the input units.
  unfoldable pub add_units : Dense → List Ciphertext → ℕ → Ciphertext → Result Ciphertext
  add_units dense input ou = for_range 0 dense.in_units λ iu output. do
    unit ← index input iu
    weight ← weight_at dense.plain_weights iu ou
    weighted_unit ← multiply_plain unit weight
    if iu == 0 then ok weighted_unit else add output weighted_unit

  unfoldable pub dense_unit : Dense → List Ciphertext → ℕ → Result Ciphertext
  dense_unit dense input ou = do
    output ← add_units dense input ou blank
    rescaled ← rescale_to_next output
    bias ← index dense.plain_biases ou
    add_plain (set_scale (scale_param seal) rescaled) bias

  -- `Dense::forward`
  unfoldable pub dense_forward : Dense → List Ciphertext → Result (List Ciphertext)
  dense_forward dense input = tabulate dense.out_units (dense_unit dense input)
