-- ===== src/Samples/Trials.antt =====
-- Runs of the demo client: two images of four pixels in three slots.
use pp_cnn.Prelude.{
  ℕ, ◌+◌, ◌*◌, ◌%◌, ◌≡◌, refl, arith, List, [], ◌∷◌, length, Result, ok, err, out_of_range, ◌>>=◌,
  Filled, Each-Filled, Returns, ltb,
}
use pp_cnn.Cnn.Tensor.{Cells}
use pp_cnn.Server.CalcThread.{unpack_images}
use pp_cnn.Demo.Images.{pixel, encrypt_images, packed_data, step_count, step_range, callback_func}
use pp_cnn.Demo.Packing.{encrypt_images-unpack_images}
use pp_cnn.Demo.Steps.{callback_func_last_step}
use pp_cnn.Samples.Ideal.{ideal, slot}

abbrev two_images : List (List ℕ)
two_images = (1 ∷ 2 ∷ 3 ∷ 4 ∷ []) ∷ ((5 ∷ 6 ∷ 7 ∷ 8 ∷ []) ∷ [])

abbrev encrypt_first : List ℕ → Result ideal.Ciphertext
encrypt_first [] = err out_of_range
encrypt_first (x ∷ xs) = ok (slot 0 x)

encrypt_first_total :
    (slots : List ℕ)
    → length slots ≡ 3
    → Returns (encrypt_first slots) (λ x. encrypt_first slots ≡ ok x)
encrypt_first_total [] h = absurd (omega arith)
encrypt_first_total (x ∷ xs) h = (slot 0 x, refl, refl)

encrypt_images-unpack_images_example :
    Returns
      (encrypt_images encrypt_first two_images 2 2 1 0 2 3 >>= λ t.
        unpack_images ideal 2 2 1 (packed_data t))
      (Cells 2 2 1 λ row col ch x.
        (slots : List ℕ) × Filled 3
          (λ k v. pixel two_images ((0 + k) % 2) (ch * (2 * 2) + row * 2 + col) ≡ ok v)
          slots
        × (encrypt_first slots ≡ ok x))
encrypt_images-unpack_images_example =
    encrypt_images-unpack_images ideal encrypt_first two_images 2 2 1 0 2 3 (omega arith)
      (Each-Filled (λ i image. length image ≡ 4) two_images (refl, (refl, tt))) (omega arith)
      (omega arith) (omega arith) encrypt_first_total

abbrev decode_pair : ℕ → Result (List ℕ)
decode_pair x = ok (x ∷ ((x + 1) ∷ []))

-- Three images in two slots: the second step is the last one.
callback_func_last_step_example :
    callback_func decode_pair ltb 0 2 3
      (step_range 3 2 1).0
      (step_range 3 2 1).1
      (0 ∷ 1 ∷ 0 ∷ [])
      (4 ∷ 5 ∷ [])
    ≡ err out_of_range
unfolding step_count
callback_func_last_step_example =
    callback_func_last_step decode_pair ltb 0 1 3 2 1 (0 ∷ 1 ∷ 0 ∷ []) 4 (5 ∷ []) (4 ∷ (5 ∷ []))
      (omega arith) (omega arith) refl refl
