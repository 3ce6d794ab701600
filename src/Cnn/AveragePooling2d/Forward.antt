-- ===== src/Cnn/AveragePooling2d/Forward.antt =====
-- What `AveragePooling2D::forward` computes on windows inside the input, and where it throws.
use pp_cnn.Prelude.{ℕ, suc, ◌<◌, ◌≡◌, true, false, ◌&&◌, err, seal_error, Returns}
use pp_cnn.Seal.{Seal, Holds, PlainHolds}
use pp_cnn.Cnn.Geometry.Reach.{covers}
use pp_cnn.Cnn.Tensor.{Tensor, Cells, fill-Cells}
use pp_cnn.Cnn.Options.{scale_param}
use pp_cnn.Cnn.AveragePooling2d.{AveragePooling2d, pool_cell, average_pooling2d_forward}
use pp_cnn.Cnn.AveragePooling2d.Window.{Inside, PoolInput, window_sum}
use pp_cnn.Cnn.AveragePooling2d.Cell.{pool_cell-optimized, pool_cell-factor, pool_cell-err}

module _ (seal : Seal) where
  open seal use {
    numbers, Real, plus, times, nil, nil-plus, plus_assoc, Scale, Plaintext, Ciphertext, capacity,
    Nominal, product, rescaled, NonZero, blank, add, pow2-Nominal, add-blank,
  }

  -- With `enable_optimize_pooling`, and every window inside the input, `AveragePooling2D::forward`
  -- throws nothing and consumes no level: each cell holds the sum over its window, without the
  -- factor, which the next layer is to apply.
  pub average_pooling2d_forward-sum :
      (pool : AveragePooling2d seal) (l : ℕ) (s : Scale) (v : ℕ → ℕ → ℕ → Real)
      (input : Tensor Ciphertext)
      → PoolInput seal pool l s v input
      → Inside pool.height
      → Inside pool.width
      → pool.optimized ≡ true
      → Returns (average_pooling2d_forward seal pool input) (
          Cells pool.height.out pool.width.out pool.out_channels
            λ oh ow oc. Holds seal l s 1 (window_sum seal pool.height pool.width v oh ow oc))
  unfolding average_pooling2d_forward
  average_pooling2d_forward-sum pool l s v input given ih iw on =
      fill-Cells pool.height.out pool.width.out pool.out_channels _ _ λ oh ow oc loh low loc.
        pool_cell-optimized seal pool l s v input given oh ow oc loh low loc ih iw on

  -- Without it, every window inside the input and the factor encoded for the level of the input,
  -- `AveragePooling2D::forward` throws nothing: each cell holds the sum over its window times the
  -- factor, one level further down, at the scale that the rescaling leaves.
  pub average_pooling2d_forward-mean :
      (pool : AveragePooling2d seal) (l : ℕ) (s : Scale) (v : ℕ → ℕ → ℕ → Real) (factor : Real)
      (input : Tensor Ciphertext)
      → PoolInput seal pool l s v input
      → Inside pool.height
      → Inside pool.width
      → pool.optimized ≡ false
      → PlainHolds seal l (scale_param seal) factor pool.plain_mul_factor
      → NonZero pool.plain_mul_factor
      → l < capacity
      → Nominal s
      → Returns (average_pooling2d_forward seal pool input) (
          Cells pool.height.out pool.width.out pool.out_channels λ oh ow oc.
            Holds seal
              (suc l)
              (rescaled (product s (scale_param seal)) l)
              1
              (times (window_sum seal pool.height pool.width v oh ow oc) factor))
  unfolding average_pooling2d_forward
  average_pooling2d_forward-mean pool l s v factor input given ih iw off hf nz left n =
      fill-Cells pool.height.out pool.width.out pool.out_channels _ _ λ oh ow oc loh low loc.
        pool_cell-factor seal pool l s v input given oh ow oc loh low loc ih iw off factor hf nz
          left n

  -- A cell of the output whose first tap is off the input, while another tap is on it, throws: the
  -- first tap is skipped, so that the cell is never assigned before a value is added to it.
  pub pool_cell-throws :
      (pool : AveragePooling2d seal) (l : ℕ) (s : Scale) (v : ℕ → ℕ → ℕ → Real)
      (input : Tensor Ciphertext)
      → PoolInput seal pool l s v input
      → (oh ow oc : ℕ) → oh < pool.height.out
      → ow < pool.width.out
      → oc < pool.out_channels
      → (covers pool.height oh 0 && covers pool.width ow 0) ≡ false
      → (ph pw : ℕ) → ph < pool.height.window
      → pw < pool.width.window
      → (covers pool.height oh ph && covers pool.width ow pw) ≡ true
      → pool_cell seal pool input oh ow oc ≡ err seal_error
  pool_cell-throws pool l s v input given oh ow oc loh low loc first ph pw lph lpw on =
      pool_cell-err seal pool l s v input given oh ow oc loh low loc first ph pw lph lpw on
