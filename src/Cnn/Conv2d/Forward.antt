-- ===== src/Cnn/Conv2d/Forward.antt =====
-- `Conv2D::forward` computes the convolution with the zero-padded input, and throws nothing.
use pp_cnn.Prelude.{ℕ, suc, Returns}
use pp_cnn.Seal.{Seal, Holds}
use pp_cnn.Cnn.Geometry.Shape.{Reached}
use pp_cnn.Cnn.Tensor.{Tensor, Cells, fill-Cells}
use pp_cnn.Cnn.Options.{scale_param}
use pp_cnn.Cnn.Conv2d.{Conv2d, conv2d_forward}
use pp_cnn.Cnn.Conv2d.Convolution.{Conv2dInput, convolution}
use pp_cnn.Cnn.Conv2d.Cell.{conv2d_cell_lem}

module _ (seal : Seal) where
  open seal use {
    numbers, Real, nil, plus, times, plus_assoc, nil-plus, nil-times, Scale, Plaintext, Ciphertext,
    capacity, Nominal, product, NonZero, blank, pow2-Nominal,
  }

  -- `Conv2D::forward` throws nothing where every window touches the input, and every cell of its
  -- result holds the convolution of the zero-padded input with the filters, plus the bias, one level
  -- further down the chain and at the nominal scale.
  pub conv2d_forward-convolution :
      (conv : Conv2d seal) (l : ℕ) (s : Scale) (v : ℕ → ℕ → ℕ → Real) (f : ℕ → ℕ → ℕ → ℕ → Real)
      (b : ℕ → Real) (input : Tensor Ciphertext)
      → Conv2dInput seal conv l s v f b input
      → Reached conv.height
      → Reached conv.width
      → Returns (conv2d_forward seal conv input) (
          Cells conv.height.out conv.width.out conv.out_channels λ oh ow oc.
            Holds seal
              (suc l)
              (scale_param seal)
              1
              (convolution seal conv.height conv.width conv.in_channels v f b oh ow oc))
  unfolding conv2d_forward
  conv2d_forward-convolution conv l s v f b input given rh rw' =
      fill-Cells conv.height.out conv.width.out conv.out_channels _ _ λ oh ow oc loh low loc.
        let (fh, lfh, ch) = rh oh loh in
        let (fw, lfw, cw) = rw' ow low in
        conv2d_cell_lem seal conv l s v f b input given oh ow oc loh low loc fh fw lfh lfw ch cw
