-- ===== src/Cnn/BatchNormalization/Forward.antt =====
-- `BatchNormalization::forward` scales and shifts every channel, and throws nothing.
use pp_cnn.Prelude.{ℕ, suc, ◌<◌, List, Returns, Returns->>=, Filled, update_each-Filled}
use pp_cnn.Seal.{
  Seal, Holds, PlainHolds, multiply_plain-Holds, rescale_to_next-Holds, set_scale-Holds,
  add_plain-Holds,
}
use pp_cnn.Cnn.Tensor.{Tensor, Cells, update_cells-Cells}
use pp_cnn.Cnn.Options.{scale_param}
use pp_cnn.Cnn.BatchNormalization.{
  BatchNormalization, normalize_cell, batch_normalization_forward,
  batch_normalization_forward_units,
}

module _ (seal : Seal) where
  open seal use {Real, plus, times, Scale, Ciphertext, capacity, Nominal, NonZero, pow2-Nominal}

  -- The weights `f` encoded for the level `l`, the biases `b` for the next, one for each of the
  -- `dim` channels.
  pub record Normalizes (bn : BatchNormalization seal) (l dim : ℕ) (s : Scale) (f b : ℕ → Real)
      : Type 0 where
    pub left : l < capacity
    pub nominal : Nominal s
    pub weights :
        Filled dim
          (λ c p. PlainHolds seal l (scale_param seal) (f c) p × NonZero p)
          bn.plain_weights
    pub biases : Filled dim (λ c. PlainHolds seal (suc l) (scale_param seal) (b c)) bn.plain_biases

  module _ (bn : BatchNormalization seal) (l dim : ℕ) (s : Scale) (f b : ℕ → Real)
      (given : Normalizes bn l dim s f b) where
    normalize_cell_lem :
        (c : ℕ) (x : Ciphertext) {v : Real}
        → c < dim
        → Holds seal l s 1 v x
        → Returns
            (normalize_cell seal bn c x)
            (Holds seal (suc l) (scale_param seal) 1 (plus (times v (f c)) (b c)))
    unfolding normalize_cell
    normalize_cell_lem c x lt hx = Returns->>= _ _ (given.weights.cell c lt) λ weight hw.
        Returns->>= _ _
          (multiply_plain-Holds seal x hx weight hw.0 hw.1 given.left given.nominal pow2-Nominal)
          λ weighted h.
            Returns->>= _ _ (rescale_to_next-Holds seal 1 weighted h given.left) λ rescaled hr.
              Returns->>= _ _ (given.biases.cell c lt) λ bias hb.
                add_plain-Holds seal _ bias (set_scale-Holds seal rescaled hr (scale_param seal)) hb

    -- `forward(Ciphertext3D&)` throws nothing, and a cell of the channel `c` that held `v` holds
    -- `v * f c + b c`, one level further down the chain and at the nominal scale.
    pub batch_normalization_forward-affine :
        (height width : ℕ) (v : ℕ → ℕ → ℕ → Real) (input : Tensor Ciphertext)
        → Cells height width dim (λ h w c. Holds seal l s 1 (v h w c)) input
        → Returns (batch_normalization_forward seal bn input) (
            Cells height width dim
              λ h w c. Holds seal (suc l) (scale_param seal) 1 (plus (times (v h w c) (f c)) (b c)))
    unfolding batch_normalization_forward
    batch_normalization_forward-affine height width v input cells =
        update_cells-Cells height width dim _ _ _
          (λ h w c x lh lw lc hx. normalize_cell_lem c x lc hx) input cells

    -- `forward(vector<Ciphertext>&)` throws nothing, and a unit `u` that held `v` holds `v * f u + b u`,
    -- one level further down the chain and at the nominal scale.
    pub batch_normalization_forward_units-affine :
        (v : ℕ → Real) (input : List Ciphertext)
        → Filled dim (λ u. Holds seal l s 1 (v u)) input
        → Returns (batch_normalization_forward_units seal bn input) (
            Filled dim
              λ u. Holds seal (suc l) (scale_param seal) 1 (plus (times (v u) (f u)) (b u)))
    unfolding batch_normalization_forward_units
    batch_normalization_forward_units-affine v input units =
        update_each-Filled dim _ _ _ (λ u x lu hx. normalize_cell_lem u x lu hx) input units
