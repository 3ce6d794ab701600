-- ===== src/Cnn/BatchNormalization.antt =====
-- `BatchNormalization` (ppcnn/ppcnn_server/cnn/batch_normalization.cpp).
pub mod Forward
use pp_cnn.Prelude.{ℕ, ◌+◌, List, Result, ◌>>=◌, index, update_each}
use pp_cnn.Seal.{Seal}
use pp_cnn.Cnn.Tensor.{Tensor, update_cells}
use pp_cnn.Cnn.Options.{OptOption, scale_param}

module _ (seal : Seal) where
  open seal use {Plaintext, Ciphertext, multiply_plain, rescale_to_next, set_scale, add_plain}

  pub record BatchNormalization : Type 0 where
    pub plain_weights : List Plaintext
    pub plain_biases : List Plaintext

  -- `BatchNormalization::BatchNormalization`
  unfoldable pub batch_normalization_new :
      List Plaintext → List Plaintext → OptOption seal → BatchNormalization × OptOption seal
  batch_normalization_new plain_weights plain_biases option = (
    record { plain_weights = plain_weights; plain_biases = plain_biases },
    record option { consumed_level = option.consumed_level + 1 },
  )

  -- The body of both loops; `c` is the channel, or the unit.
  unfoldable pub normalize_cell : BatchNormalization → ℕ → Ciphertext → Result Ciphertext
  normalize_cell bn c x = do
    weight ← index bn.plain_weights c
    weighted ← multiply_plain x weight
    rescaled ← rescale_to_next weighted
    bias ← index bn.plain_biases c
    add_plain (set_scale (scale_param seal) rescaled) bias

  -- `BatchNormalization::forward(Ciphertext3D&)`
  unfoldable pub batch_normalization_forward :
      BatchNormalization → Tensor Ciphertext → Result (Tensor Ciphertext)
  batch_normalization_forward bn = update_cells λ h w c. normalize_cell bn c

  -- `BatchNormalization::forward(vector<Ciphertext>&)`
  unfoldable pub batch_normalization_forward_units :
      BatchNormalization → List Ciphertext → Result (List Ciphertext)
  batch_normalization_forward_units bn = update_each (normalize_cell bn)
