-- ===== src/Cnn/Conv2d/Convolution.antt =====
-- The convolution of a zero-padded input, and what `Conv2D::forward` is given.
use pp_cnn.Prelude.{ℕ, suc, ◌<◌, ◌&&◌, Filled, if◌then◌else◌}
use pp_cnn.Seal.{Seal, Holds, PlainHolds}
use pp_cnn.Cnn.Geometry.{Axis}
use pp_cnn.Cnn.Geometry.Reach.{FitsInt, covers, source_cell}
use pp_cnn.Cnn.Tensor.{Tensor, Cells}
use pp_cnn.Cnn.Sums.{sum}
use pp_cnn.Cnn.Options.{scale_param}
use pp_cnn.Cnn.Conv2d.{Conv2d}

module _ (seal : Seal) where
  open seal use {
    numbers, Real, nil, plus, times, plus_assoc, nil-plus, nil-times, Scale, Plaintext, Ciphertext,
    capacity, Nominal, product, NonZero, blank, pow2-Nominal,
  }

  -- The input as the filter sees it at a tap: nil outside.
  unfoldable pub padded : Axis → Axis → (ℕ → ℕ → ℕ → Real) → (oh ow fh fw ic : ℕ) → Real
  padded height width v oh ow fh fw ic =
      if covers height oh fh && covers width ow fw
      then v (source_cell height oh fh) (source_cell width ow fw) ic
      else nil

  unfoldable pub tap_sum :
      Axis → Axis → ℕ → (ℕ → ℕ → ℕ → Real) → (ℕ → ℕ → ℕ → ℕ → Real) → (oh ow oc fh fw : ℕ) → Real
  tap_sum height width channels v f oh ow oc fh fw =
      sum numbers channels λ ic. times (padded height width v oh ow fh fw ic) (f fh fw ic oc)

  -- The convolution of the zero-padded input `v` with the filters `f`, and the bias `b`.
  unfoldable pub convolution :
      Axis
      → Axis
      → ℕ
      → (ℕ → ℕ → ℕ → Real)
      → (ℕ → ℕ → ℕ → ℕ → Real)
      → (ℕ → Real)
      → (oh ow oc : ℕ) → Real
  convolution height width channels v f b oh ow oc =
      plus
        (sum numbers height.window
          λ fh. sum numbers width.window λ fw. tap_sum height width channels v f oh ow oc fh fw)
        (b oc)

  -- What the layer is given: the input at the level `l`, the weights encoded for that level and the
  -- biases for the next.
  pub record Conv2dInput (conv : Conv2d seal) (l : ℕ) (s : Scale) (v : ℕ → ℕ → ℕ → Real)
      (f : ℕ → ℕ → ℕ → ℕ → Real) (b : ℕ → Real) (input : Tensor Ciphertext) : Type 0 where
    pub left : l < capacity
    pub nominal : Nominal s
    pub channels : 0 < conv.in_channels
    pub fits_height : FitsInt conv.height
    pub fits_width : FitsInt conv.width
    pub cells :
        Cells conv.height.size conv.width.size conv.in_channels
          (λ h w c. Holds seal l s 1 (v h w c))
          input
    pub filters :
        Filled conv.height.window
          (λ fh.
            Cells conv.width.window conv.in_channels conv.out_channels
              λ fw ic oc p. PlainHolds seal l (scale_param seal) (f fh fw ic oc) p × NonZero p)
          conv.plain_filters
    pub biases :
        Filled conv.out_channels
          (λ oc. PlainHolds seal (suc l) (scale_param seal) (b oc))
          conv.plain_biases
