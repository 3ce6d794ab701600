-- ===== src/Cnn/Flatten/Pixels.antt =====
-- One position of the loop of `GlobalAveragePooling2D::flatten`, over all channels.
use pp_cnn.Prelude.{
  ℕ, zero, suc, ◌<◌, ◌≡◌, ◌≢◌, refl, true, false, List, [], ◌∷◌, arith, Returns, Returns->>=,
  Returns_weaken, Filled, Filled-head, Filled-tail, Filled-cons, for_range, for_range_inv_zero, ltb,
  if◌then◌else◌,
}
use pp_cnn.Seal.{Seal, Holds, add-Holds}
use pp_cnn.Cnn.Tensor.{Tensor, Cells, at-Cells}
use pp_cnn.Cnn.Flatten.{Flatten, assign, add_pixel}

module _ {ℓ κ} {A : Type ℓ} where
  pub Filled-weaken :
      (n : ℕ) (P Q : ℕ → A → Type κ) (xs : List A)
      → ((j : ℕ) (y : A) → P j y → Q j y)
      → Filled n P xs
      → Filled n Q xs
  Filled-weaken n P Q xs k f = record {
    size = f.size;
    cell = λ i lt. Returns_weaken (f.cell i lt) λ y p. k i y p;
  }

  -- An assignment within the list.
  assign-Filled :
      (n i : ℕ) (P Q : ℕ → A → Type κ) (x : A) (xs : List A)
      → i < n
      → Q i x
      → ((j : ℕ) (y : A) → j ≢ i → P j y → Q j y)
      → Filled n P xs
      → Returns (assign i x xs) (Filled n Q)
  unfolding assign
  assign-Filled zero i P Q x xs lt q keep f = absurd (omega arith)
  assign-Filled (suc n) i P Q x [] lt q keep f = absurd (omega (arith, f.size))
  assign-Filled (suc n) zero P Q x (y ∷ ys) lt q keep f = (
    x ∷ ys,
    refl,
    Filled-cons n Q x ys q (
        Filled-weaken n (λ j. P (suc j)) (λ j. Q (suc j)) ys
          (λ j z p. keep (suc j) z (λ same. absurd (omega (arith, same))) p)
          (Filled-tail n P y ys f)),
  )
  assign-Filled (suc n) (suc i) P Q x (y ∷ ys) lt q keep f =
      let (zs, e, g) =
        assign-Filled n i (λ j. P (suc j)) (λ j. Q (suc j)) x ys (omega arith) q
          (λ j z ne p. keep (suc j) z (λ same. ne (omega (arith, same))) p)
          (Filled-tail n P y ys f) in
      (
        y ∷ zs,
        rw e refl,
        Filled-cons n Q y zs
            (keep 0 y (λ same. absurd (omega (arith, same))) (Filled-head n P y ys f)) g,
      )

module _ (seal : Seal) where
  open seal use {numbers, Real, plus, nil-plus, plus_assoc, Scale, Ciphertext, add}

  module _ (layer : Flatten) (l : ℕ) (s : Scale) (v : ℕ → ℕ → ℕ → Real) (input : Tensor Ciphertext)
      (cells : Cells layer.in_height layer.in_width layer.in_channels
        (λ h w c. Holds seal l s 1 (v h w c))
        input) where
    abbrev pub Totals : (ℕ → Real) → List Ciphertext → Type 0
    Totals a = Filled layer.in_channels λ c. Holds seal l s 1 (a c)

    -- The totals while the position `ih`, `iw` is added, the channels below `ic` being done.
    abbrev partial : (ℕ → Real) → (ih iw ic : ℕ) → ℕ → Real
    partial a ih iw ic c = if ltb c ic then plus (a c) (v ih iw c) else a c

    add_pixel_lem :
        (a : ℕ → Real) (ih iw ic : ℕ) (us : List Ciphertext)
        → ih < layer.in_height
        → iw < layer.in_width
        → ic < layer.in_channels
        → Totals (partial a ih iw ic) us
        → Returns (add_pixel seal input ih iw ic us) (Totals (partial a ih iw (suc ic)))
    unfolding add_pixel
    add_pixel_lem a ih iw ic us lh lw lc given = Returns->>= _ _ (given.cell ic lc) λ total ht.
        Returns->>= _ _ (at-Cells input cells ih iw ic lh lw lc) λ x hx.
          Returns->>= _ _ (add-Holds seal total (rw (irrefl ic) at ht) x hx) λ total' hs.
            assign-Filled layer.in_channels ic _ _ total' us lc (rw (below ic) hs)
              (λ j y ne hy. rw (other ic j ne) at hy) given
      where
        irrefl : (c : ℕ) → ltb c c ≡ false
        irrefl c = ground arith

        below : (c : ℕ) → ltb c (suc c) ≡ true
        below c = ground arith

        other : (c j : ℕ) → j ≢ c → ltb j c ≡ ltb j (suc c)
        other c j ne = ground arith

    pub add_pixels_lem :
        (a : ℕ → Real) (ih iw : ℕ) (us : List Ciphertext)
        → ih < layer.in_height
        → iw < layer.in_width
        → Totals a us
        → Returns
            (for_range 0 layer.in_channels (add_pixel seal input ih iw) us)
            (Totals λ c. plus (a c) (v ih iw c))
    add_pixels_lem a ih iw us lh lw given =
        Returns_weaken
          (for_range_inv_zero (λ ic. Totals (partial a ih iw ic)) layer.in_channels _
            (λ ic lc vs h. add_pixel_lem a ih iw ic vs lh lw lc h) us
            (Filled-weaken layer.in_channels _ _ us (λ c x h. rw (none_yet c) h) given))
          λ vs h. record {
            size = h.size;
            cell = λ c lt. Returns_weaken (h.cell c lt) λ x hx. rw (all_done c lt) at hx;
          }
      where
        none_yet : (c : ℕ) → ltb c 0 ≡ false
        none_yet c = ground arith

        all_done : (c : ℕ) → c < layer.in_channels → ltb c layer.in_channels ≡ true
        all_done c lt = ground arith
