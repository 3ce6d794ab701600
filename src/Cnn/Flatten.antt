-- ===== src/Cnn/Flatten.antt =====
-- `Flatten` and `GlobalAveragePooling2D` (ppcnn/ppcnn_server/cnn/flatten.cpp and
-- global_average_pooling2d.cpp). The tensor that is moved from is not read again.
pub mod Writes
pub mod Forward
pub mod Pixels
pub mod Global
use pp_cnn.Prelude.{
  ℕ, zero, suc, ◌+◌, ◌*◌, Bool, ◌&&◌, List, [], ◌∷◌, Result, ok, err, out_of_range, ◌>>=◌,
  for_range, index, tabulate, replicate, ◌==◌, if◌then◌else◌,
}
use pp_cnn.Seal.{Seal}
use pp_cnn.Cnn.Tensor.{Tensor, at}

-- `v[i] = x`
unfoldable pub assign {ℓ} : {A : Type ℓ} → ℕ → A → List A → Result (List A)
assign i x [] = err out_of_range
assign zero x (y ∷ ys) = ok (x ∷ ys)
assign (suc i) x (y ∷ ys) = do zs ← assign i x ys; ok (y ∷ zs)

pub record Flatten : Type 0 where
  pub in_height : ℕ
  pub in_width : ℕ
  pub in_channels : ℕ
  pub out_units : ℕ

-- `pos`
abbrev pub position : (in_width in_channels ih iw ic : ℕ) → ℕ
position in_width in_channels ih iw ic = ih * in_width * in_channels + iw * in_channels + ic

module _ (seal : Seal) where
  open seal use {Ciphertext, blank, add}

  -- One round of the three loops.
  unfoldable pub flatten_cell :
      Flatten → Tensor Ciphertext → (ih iw ic : ℕ) → List Ciphertext → Result (List Ciphertext)
  flatten_cell layer input ih iw ic flattened = do
    x ← at input ih iw ic
    assign (position layer.in_width layer.in_channels ih iw ic) x flattened

  -- `Flatten::flatten`
  unfoldable pub flatten : Flatten → Tensor Ciphertext → Result (List Ciphertext)
  flatten layer input =
      for_range 0 layer.in_height
        (λ ih.
          for_range 0 layer.in_width
            λ iw. for_range 0 layer.in_channels λ ic. flatten_cell layer input ih iw ic)
        (replicate layer.out_units blank)

  -- `add_inplace(flattened_input[ic], input[ih][iw][ic])`
  unfoldable pub add_pixel :
      Tensor Ciphertext → (ih iw ic : ℕ) → List Ciphertext → Result (List Ciphertext)
  add_pixel input ih iw ic flattened = do
    total ← index flattened ic
    x ← at input ih iw ic
    total' ← add total x
    assign ic total' flattened

  unfoldable pub add_position :
      Flatten → Tensor Ciphertext → (ih iw : ℕ) → List Ciphertext → Result (List Ciphertext)
  add_position layer input ih iw flattened =
      if ih == 0 && iw == 0
      then ok flattened
      else for_range 0 layer.in_channels (add_pixel input ih iw) flattened

  -- `GlobalAveragePooling2D::flatten`, whose fields are those of `Flatten` and a factor that nothing
  -- reads.
  unfoldable pub global_average_pooling2d_flatten :
      Flatten → Tensor Ciphertext → Result (List Ciphertext)
  global_average_pooling2d_flatten layer input = do
    firsts ← tabulate layer.out_units λ ou. at input 0 0 ou
    for_range 0 layer.in_height
        (λ ih. for_range 0 layer.in_width λ iw. add_position layer input ih iw) firsts
