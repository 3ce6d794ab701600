-- ===== src/Demo/Packing.antt =====
-- What the server finds in the tensor that it unpacks, of the images that the client has packed.
use native.Mathlib.Nat.{mul_comm, mod-lt, mod-eq_of_lt}
use pp_cnn.Prelude.{
  ℕ, zero, suc, ◌+◌, ◌-◌, ◌*◌, ◌%◌, ◌<◌, ◌≤◌, ◌≡◌, refl, sym, ap, ◌∙◌, List, [], ◌∷◌, length,
  Result, ok, ◌>>=◌, index, tabulate-Filled, Filled, Returns, Returns->>=, arith, ltb, leb, ltb→ge,
  if_cases,
}
use pp_cnn.Seal.{Seal}
use pp_cnn.Cnn.Tensor.{Tensor, fill-Cells, Cells}
use pp_cnn.Server.CalcThread.{unpack_images}
use pp_cnn.Demo.Layout.{le→leb, unpack_images-packed_data}
use pp_cnn.Demo.Images.{pixel, wrapped_pixel, pixels_in_slots, encrypt_images, packed_data}

wrapped_pixel_lem :
    {F : Type 0} (xs : List (List F)) (idx pos : ℕ)
    → 0 < length xs
    → wrapped_pixel xs idx pos ≡ pixel xs (idx % length xs) pos
unfolding wrapped_pixel
wrapped_pixel_lem [] idx pos h = absurd (omega arith)
wrapped_pixel_lem (x ∷ xs) idx pos h = refl

chunk_lt : (m a n b : ℕ) → a < m → b < n → a * n + b < m * n
chunk_lt zero a n b la lb = absurd (omega arith)
chunk_lt (suc m) zero n b la lb = omega arith
chunk_lt (suc m) (suc a) n b la lb = omega (arith, chunk_lt m a n b (omega arith) lb)

module _ {F : Type 0} (images : List (List F)) (size : ℕ) (some_images : 0 < length images)
    (full : Filled (length images) (λ i image. length image ≡ size) images) where
  pixel_there :
      (idx pos : ℕ) → idx < length images → pos < size → (v : F) × (pixel images idx pos ≡ ok v)
  unfolding pixel index
  pixel_there idx pos li lp =
      let (image, e, len) = full.cell idx li in
      let (v, ev) = there image pos (omega (arith, len)) in (v, rw e ev)
    where
      there : (xs : List F) (i : ℕ) → i < length xs → (v : F) × (index xs i ≡ ok v)
      there [] i h = absurd (omega arith)
      there (x ∷ xs) zero h = (x, refl)
      there (x ∷ xs) (suc i) h = there xs i (omega arith)

  -- The slot `k` has the pixel of the image at `begin_idx + k`, counted around.
  abbrev Slot : (begin_idx pos : ℕ) → ℕ → F → Type 0
  Slot begin_idx pos k v = pixel images ((begin_idx + k) % length images) pos ≡ ok v

  pixels_in_slots-Slot :
      (begin_idx end_idx slot_count pos : ℕ)
      → begin_idx ≤ end_idx
      → end_idx ≤ length images
      → end_idx - begin_idx ≤ slot_count
      → pos < size
      → Returns
          (pixels_in_slots images begin_idx end_idx slot_count pos)
          (Filled slot_count (Slot begin_idx pos))
  unfolding pixels_in_slots
  pixels_in_slots-Slot begin_idx end_idx slot_count pos l1 l2 l3 lp =
      if_cases (λ r. Returns r (Filled slot_count (Slot begin_idx pos)))
        (ltb (end_idx - begin_idx) slot_count)
        (λ t. tabulate-Filled slot_count _ (Slot begin_idx pos) λ k lk.
          let (v, e) =
            pixel_there ((begin_idx + k) % length images) pos (mod-lt (begin_idx + k) some_images)
              lp in
          (v, wrapped_pixel_lem images (begin_idx + k) pos some_images ∙ e, e))
        (λ f.
          if_cases (λ r. Returns r (Filled slot_count (Slot begin_idx pos)))
            (leb (end_idx - begin_idx) slot_count)
            (λ t. tabulate-Filled slot_count _ (Slot begin_idx pos) λ k lk.
              let lt : begin_idx + k < length images =
                omega (arith, ltb→ge (end_idx - begin_idx) slot_count f) in
              let (v, e) = pixel_there (begin_idx + k) pos lt lp in
              (v, e, ap (λ i. pixel images i pos) (mod-eq_of_lt lt) ∙ e))
            (λ g. cc (sym (le→leb (end_idx - begin_idx) slot_count l3) ∙ g)))

module _ {F : Type 0} (seal : Seal) (encrypt : List F → Result seal.Ciphertext)
    (images : List (List F)) (rows cols channels begin_idx end_idx slot_count : ℕ) where
  -- The images of the range, at most as many as there are slots, are encrypted into a tensor whose
  -- elements, sent one after the other, the server unpacks into one of the same extents. There the
  -- cell of a row, a column and a channel is an encryption of slots of which the slot `k` holds that
  -- pixel of the image `begin_idx + k`, counted around at the end of the images. The conditions:
  -- there are images, all of them have a pixel for each cell, the range lies within them, and as
  -- many numbers as there are slots can be encrypted.
  pub encrypt_images-unpack_images :
      0 < length images
      → Filled (length images) (λ i image. length image ≡ rows * cols * channels) images
      → begin_idx ≤ end_idx
      → end_idx ≤ length images
      → end_idx - begin_idx ≤ slot_count
      → ((slots : List F)
          → length slots ≡ slot_count
          → Returns (encrypt slots) (λ x. encrypt slots ≡ ok x))
      → Returns
          (encrypt_images encrypt images rows cols channels begin_idx end_idx slot_count >>= λ t.
            unpack_images seal rows cols channels (packed_data t))
          (Cells rows cols channels λ row col ch x.
            (slots : List F) × Filled slot_count
              (λ k v.
                pixel images
                  ((begin_idx + k) % length images)
                  (ch * (rows * cols) + row * cols + col)
                ≡ ok v)
              slots
            × (encrypt slots ≡ ok x))
  unfolding encrypt_images unpack_images
  encrypt_images-unpack_images some_images full l1 l2 l3 total =
      Returns->>= (encrypt_images encrypt images rows cols channels begin_idx end_idx slot_count) _
        (fill-Cells rows cols channels _ Packed packed) λ t cells. unpacked t cells
    where
      Packed : ℕ → ℕ → ℕ → seal.Ciphertext → Type 0
      Packed row col ch x =
          (slots : List F) × Filled slot_count
            (λ k v.
              pixel images ((begin_idx + k) % length images) (ch * (rows * cols) + row * cols + col)
              ≡ ok v)
            slots
          × (encrypt slots ≡ ok x)

      packed :
          (row col ch : ℕ)
          → row < rows
          → col < cols
          → ch < channels
          → Returns
              (pixels_in_slots images begin_idx end_idx slot_count
                  (ch * (rows * cols) + row * cols + col)
                >>= encrypt)
              (Packed row col ch)
      packed row col ch lr lc lh =
          let inner = chunk_lt rows row cols col lr lc in
          let outer = chunk_lt channels ch (rows * cols) (row * cols + col) lh inner in
          let within : ch * (rows * cols) + row * cols + col < rows * cols * channels =
            omega (arith, outer, mul_comm channels (rows * cols)) in
          let (slots, e, filled) =
            pixels_in_slots-Slot images (rows * cols * channels) some_images full begin_idx end_idx
              slot_count (ch * (rows * cols) + row * cols + col) l1 l2 l3 within in
          let (x, ex, same) = total slots filled.size in (x, rw e ex, (slots, filled, ex))

      unpacked :
          (t : Tensor seal.Ciphertext)
          → Cells rows cols channels Packed t
          → Returns
              (unpack_images seal rows cols channels (packed_data t))
              (Cells rows cols channels Packed)
      unpacked t cells = unpack_images-packed_data seal t cells
