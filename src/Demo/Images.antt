-- ===== src/Demo/Images.antt =====
-- `encryptImages` (ppcnn/ppcnn_share/cnn_utils/helper_functions.cpp), and `compute` and `callback_func` of
-- the demo client (demo/client/main.cpp). The encoding, the encryption and their inverses are
-- parameters, and so is the comparison of two results.
use pp_cnn.Prelude.{
  ℕ, suc, ◌+◌, ◌-◌, ◌*◌, ◌/◌, ◌%◌, Bool, List, [], ◌∷◌, map, length, replicate, Result, ok, err,
  out_of_range, ◌>>=◌, index, tabulate, for_range, ltb, leb, ◌==◌, if◌then◌else◌,
}
use pp_cnn.Cnn.Tensor.{Tensor, fill}
use pp_cnn.Cnn.Flatten.{assign}
use pp_cnn.Cnn.Flatten.Writes.{concat}

module _ {F : Type 0} where
  -- `origin_images[idx][pos]`
  unfoldable pub pixel : List (List F) → ℕ → ℕ → Result F
  pixel images idx pos = do image ← index images idx; index image pos

  -- `idx % origin_images_size`, which is undefined for no images
  unfoldable pub wrapped_pixel : List (List F) → ℕ → ℕ → Result F
  unfolding pixel
  wrapped_pixel [] idx pos = err out_of_range
  wrapped_pixel (x ∷ xs) idx pos = pixel (x ∷ xs) (idx % length (x ∷ xs)) pos

  -- `pixels_in_slots` for one position of the images from `begin_idx` to `end_idx`: images from the
  -- front fill the slots that are left; more images than slots are written behind the end.
  unfoldable pub pixels_in_slots :
      List (List F) → (begin_idx end_idx slot_count pos : ℕ) → Result (List F)
  unfolding wrapped_pixel pixel
  pixels_in_slots images begin_idx end_idx slot_count pos =
      if ltb (end_idx - begin_idx) slot_count
      then tabulate slot_count (λ counter. wrapped_pixel images (begin_idx + counter) pos)
      else if leb (end_idx - begin_idx) slot_count
      then tabulate slot_count (λ counter. pixel images (begin_idx + counter) pos)
      else err out_of_range

  -- `encryptImages`, for `begin_idx` at most `end_idx`
  unfoldable pub encrypt_images :
      {Ciphertext : Type 0}
      → (encrypt : List F → Result Ciphertext) → List (List F)
      → (rows cols channels begin_idx end_idx slot_count : ℕ) → Result (Tensor Ciphertext)
  unfolding pixels_in_slots
  encrypt_images encrypt images rows cols channels begin_idx end_idx slot_count =
      fill rows cols channels λ row col ch.
        pixels_in_slots images begin_idx end_idx slot_count (ch * (rows * cols) + row * cols + col)
        >>= encrypt

-- `enc_packed_imgs.data()`, the elements in the order of the memory
unfoldable pub packed_data : {Ciphertext : Type 0} → Tensor Ciphertext → List Ciphertext
packed_data t = concat (map concat t)

-- `compute`: the number of steps, and the range of the images of a step
unfoldable pub step_count : (test_img_count slot_count : ℕ) → ℕ
step_count test_img_count slot_count = test_img_count / slot_count + 1

unfoldable pub img_count_in_step : (remain_img_count slot_count : ℕ) → ℕ
img_count_in_step remain_img_count slot_count =
    if ltb slot_count remain_img_count then slot_count else remain_img_count

-- `beg_idx` and `end_idx`; `remain_img_count` is still the number of the images
unfoldable pub step_range : (test_img_count slot_count step : ℕ) → ℕ × ℕ
unfolding img_count_in_step
step_range test_img_count slot_count step =
    (step * slot_count, step * slot_count + img_count_in_step test_img_count slot_count)

module _ {F Ciphertext : Type 0} (decode : Ciphertext → Result (List F)) (less : F → F → Bool)
    (zero_score : F) where
  -- `results[j][i] = tmp_results[counter]`
  unfoldable pub assign_score : (j i : ℕ) → F → List (List F) → Result (List (List F))
  assign_score j i score results = do
    row ← index results j
    row ← assign i score row
    assign j row results

  -- the loop over the images of a step, for the label `i`
  unfoldable pub assign_scores :
      (img_beg_idx img_end_idx i : ℕ) → List F → List (List F) → Result (List (List F))
  unfolding assign_score
  assign_scores img_beg_idx img_end_idx i tmp_results results =
      for_range img_beg_idx (img_end_idx - img_beg_idx)
        (λ j results.
          index tmp_results (j - img_beg_idx) >>= λ score. assign_score j i score results)
        results

  -- `std::max_element` over the rest of a row, with the best so far and the position
  unfoldable pub max_element : (best : F) (best_idx idx : ℕ) → List F → ℕ
  max_element best best_idx idx [] = best_idx
  max_element best best_idx idx (x ∷ xs) =
      let rest = max_element x idx (suc idx) xs in
      let same = max_element best best_idx (suc idx) xs in if less best x then rest else same

  unfoldable pub predicted_label : List F → ℕ
  unfolding max_element
  predicted_label [] = 0
  predicted_label (x ∷ xs) = max_element x 0 1 xs

  -- the images whose predicted label is the one they have
  unfoldable pub correct_prediction_count : List (List F) → List ℕ → Result ℕ
  unfolding predicted_label
  correct_prediction_count [] test_labels = ok 0
  correct_prediction_count (row ∷ results) [] = err out_of_range
  correct_prediction_count (row ∷ results) (label ∷ test_labels) = do
    n ← correct_prediction_count results test_labels
    ok (if predicted_label row == label then suc n else n)

  -- `callback_func`, up to the number of the correct predictions, of which it prints the share
  unfoldable pub callback_func :
      (labels img_count img_beg_idx img_end_idx : ℕ) → List ℕ → List Ciphertext → Result ℕ
  unfolding assign_scores correct_prediction_count
  callback_func labels img_count img_beg_idx img_end_idx test_labels enc_results = do
    results ←
        for_range 0 labels
          (λ i results. do
            enc_result ← index enc_results i
            tmp_results ← decode enc_result
            assign_scores img_beg_idx img_end_idx i tmp_results results)
          (replicate img_count (replicate labels zero_score))
    correct_prediction_count results test_labels
