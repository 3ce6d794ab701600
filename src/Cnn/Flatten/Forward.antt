-- ===== src/Cnn/Flatten/Forward.antt =====
-- `Flatten::flatten` puts the cells one behind another.
use pp_cnn.Prelude.{
  ℕ, zero, suc, ◌+◌, ◌*◌, ◌≡◌, refl, sym, ap, subst, ◌∙◌, List, [], ◌∷◌, map, length, arith, some,
  Result, ok, for_range, get_elem?, index, some_inj, none≢some,
}
use mathlib.Core.List.{append-nil}
use pp_cnn.Seal.{Seal}
use pp_cnn.Cnn.Tensor.{Tensor, at}
use pp_cnn.Cnn.Flatten.{Flatten, position, flatten_cell, flatten}
use pp_cnn.Cnn.Flatten.Writes.{
  concat, length-concat, Writes, for_range-Writes, singletons, concat-singletons, length-singletons,
  singletons-cases, assign-Writes,
}

module _ {ℓ} {A : Type ℓ} where
  -- The tensor has these extents.
  pub record Extents (height width channels : ℕ) (t : Tensor A) : Type ℓ where
    pub rows : length t ≡ height
    pub columns : (h : ℕ) (row : List (List A)) → get_elem? t h ≡ some row → length row ≡ width
    pub cells :
        (h w : ℕ) (row : List (List A)) (column : List A)
        → get_elem? t h ≡ some row
        → get_elem? row w ≡ some column
        → length column ≡ channels

  -- The cells in the order of the memory: row after row, column after column.
  abbrev pub row_major : Tensor A → List A
  row_major t = concat (map concat t)

module _ {ℓ κ} {A : Type ℓ} {B : Type κ} where
  length-map : (f : A → B) (xs : List A) → length (map f xs) ≡ length xs
  length-map f [] = refl
  length-map f (x ∷ xs) = ap suc (length-map f xs)

  get_elem?-map :
      (f : A → B) (xs : List A) (k : ℕ) (y : B)
      → get_elem? (map f xs) k ≡ some y
      → (x : A) × (y ≡ f x) × (get_elem? xs k ≡ some x)
  get_elem?-map f [] k y e = absurd (none≢some e)
  get_elem?-map f (x ∷ xs) zero y e = (x, sym (some_inj e), refl)
  get_elem?-map f (x ∷ xs) (suc k) y e = get_elem?-map f xs k y e

module _ (seal : Seal) where
  open seal use {Ciphertext, blank}

  module _ (layer : Flatten) (t : Tensor Ciphertext)
      (ext : Extents layer.in_height layer.in_width layer.in_channels t) where
    flatten_cell-Writes :
        (ih iw ic : ℕ) (row : List (List Ciphertext)) (column : List Ciphertext) (x : Ciphertext)
        → get_elem? t ih ≡ some row
        → get_elem? row iw ≡ some column
        → get_elem? column ic ≡ some x
        → Writes blank
            (flatten_cell seal layer t ih iw ic)
            (x ∷ [])
            (position layer.in_width layer.in_channels ih iw ic)
    unfolding flatten_cell at index
    flatten_cell-Writes ih iw ic row column x er ec ex pre m n e em =
        rw (flatten_cell, found) (assign-Writes blank x _ pre m n e em)
      where
        found : at t ih iw ic ≡ ok x
        found = rw (at, index, er, ec, ex) refl

    cell-Writes :
        (ih iw k : ℕ) (row : List (List Ciphertext)) (column : List Ciphertext) (x : Ciphertext)
        (chunk : List Ciphertext)
        → get_elem? t ih ≡ some row
        → get_elem? row iw ≡ some column
        → get_elem? column k ≡ some x
        → chunk ≡ x ∷ []
        → (length chunk ≡ 1)
          × Writes blank
              (flatten_cell seal layer t ih iw (0 + k))
              chunk
              (ih * layer.in_width * layer.in_channels + iw * layer.in_channels + k * 1)
    cell-Writes ih iw k row column x chunk er ec ex shape =
        subst
          (λ c.
            (length c ≡ 1)
            × Writes blank (flatten_cell seal layer t ih iw (0 + k)) c
                (ih * layer.in_width * layer.in_channels + iw * layer.in_channels + k * 1))
          (sym shape)
          (
            refl,
            subst
                (λ j.
                  Writes blank (flatten_cell seal layer t ih iw j) (x ∷ [])
                    (ih * layer.in_width * layer.in_channels + iw * layer.in_channels + k * 1))
                {x = k} {y = 0 + k} (omega arith)
                (subst (Writes blank (flatten_cell seal layer t ih iw k) (x ∷ []))
                  {x = position layer.in_width layer.in_channels ih iw k}
                  {y = ih * layer.in_width * layer.in_channels + iw * layer.in_channels + k * 1}
                  (omega arith) (flatten_cell-Writes ih iw k row column x er ec ex)),
          )

    channels-Writes :
        (ih iw : ℕ) (row : List (List Ciphertext)) (column : List Ciphertext)
        → get_elem? t ih ≡ some row
        → get_elem? row iw ≡ some column
        → Writes blank
            (for_range 0 layer.in_channels λ ic. flatten_cell seal layer t ih iw ic)
            column
            (ih * layer.in_width * layer.in_channels + iw * layer.in_channels)
    unfolding flatten_cell at index
    channels-Writes ih iw row column er ec =
        subst
          (λ k. Writes blank (for_range 0 k λ ic. flatten_cell seal layer t ih iw ic) column start)
          {x = length (singletons column)} {y = layer.in_channels}
          (length-singletons column ∙ ext.cells ih iw row column er ec)
          (subst
            (λ l.
              Writes blank
                (for_range 0 (length (singletons column)) λ ic. flatten_cell seal layer t ih iw ic)
                l start)
            (concat-singletons column)
            (for_range-Writes blank (singletons column) 1 start 0 _ λ k chunk ek.
              let (x, shape, ex) = singletons-cases column k chunk ek in
              cell-Writes ih iw k row column x chunk er ec ex shape))
      where
        start : ℕ
        start = ih * layer.in_width * layer.in_channels + iw * layer.in_channels

    abbrev row_loop : ℕ → List Ciphertext → Result (List Ciphertext)
    row_loop ih =
        for_range 0 layer.in_width
          λ iw. for_range 0 layer.in_channels λ ic. flatten_cell seal layer t ih iw ic

    row-Writes :
        (ih : ℕ) (row : List (List Ciphertext))
        → get_elem? t ih ≡ some row
        → Writes blank (row_loop ih) (concat row) (ih * layer.in_width * layer.in_channels)
    row-Writes ih row er =
        subst
          (λ k.
            Writes blank
              (for_range 0 k
                λ iw. for_range 0 layer.in_channels λ ic. flatten_cell seal layer t ih iw ic)
              (concat row) (ih * layer.in_width * layer.in_channels))
          (ext.columns ih row er)
          (for_range-Writes blank row layer.in_channels (ih * layer.in_width * layer.in_channels) 0
            _
            λ k column ec. (
              ext.cells ih k row column er ec,
              subst
                  (λ j.
                    Writes blank
                      (for_range 0 layer.in_channels λ ic. flatten_cell seal layer t ih j ic) column
                      (ih * layer.in_width * layer.in_channels + k * layer.in_channels))
                  {x = k} {y = 0 + k} (omega arith) (channels-Writes ih k row column er ec),
            ))

    row-chunk :
        (k : ℕ) (row : List (List Ciphertext)) (chunk : List Ciphertext)
        → get_elem? t k ≡ some row
        → chunk ≡ concat row
        → (length chunk ≡ layer.in_width * layer.in_channels)
          × Writes blank (row_loop (0 + k)) chunk (0 + k * (layer.in_width * layer.in_channels))
    row-chunk k row chunk er shape =
        subst
          (λ c.
            (length c ≡ layer.in_width * layer.in_channels)
            × Writes blank (row_loop (0 + k)) c (0 + k * (layer.in_width * layer.in_channels)))
          (sym shape)
          (
            length-concat row layer.in_channels (λ w column ec. ext.cells k w row column er ec)
                ∙ ap (λ n. n * layer.in_channels) (ext.columns k row er),
            subst
                (λ j.
                  Writes blank (row_loop j) (concat row)
                    (0 + k * (layer.in_width * layer.in_channels)))
                {x = k} {y = 0 + k} (omega arith)
                (subst (Writes blank (row_loop k) (concat row))
                  {x = k * layer.in_width * layer.in_channels}
                  {y = 0 + k * (layer.in_width * layer.in_channels)} (omega arith)
                  (row-Writes k row er)),
          )

    rows-Writes : Writes blank (for_range 0 layer.in_height row_loop) (row_major t) 0
    rows-Writes =
        subst (λ k. Writes blank (for_range 0 k row_loop) (row_major t) 0)
          {x = length (map concat t)} {y = layer.in_height} (length-map concat t ∙ ext.rows)
          (for_range-Writes blank (map concat t) (layer.in_width * layer.in_channels) 0 0 row_loop
            λ k chunk ek.
              let (row, shape, er) = get_elem?-map concat t k chunk ek in
              row-chunk k row chunk er shape)

    flatten_lem :
        layer.out_units ≡ layer.in_height * layer.in_width * layer.in_channels
        → flatten seal layer t ≡ ok (row_major t)
    unfolding flatten
    flatten_lem e =
        rows-Writes [] layer.out_units 0 refl (omega (arith, e, size))
        ∙ ap ok (append-nil (row_major t))
      where
        size : length (row_major t) ≡ layer.in_height * (layer.in_width * layer.in_channels)
        size =
            length-concat (map concat t) (layer.in_width * layer.in_channels) (λ k chunk ek.
              let (row, shape, er) = get_elem?-map concat t k chunk ek in
              (row-chunk k row chunk er shape).0)
            ∙ ap (λ n. n * (layer.in_width * layer.in_channels)) (length-map concat t ∙ ext.rows)

  -- `Flatten::flatten` of a tensor with the extents of the layer, and with the number of units that the
  -- builder computes, returns the cells in the order of the memory.
  pub flatten-row_major :
      (layer : Flatten) (t : Tensor Ciphertext)
      → Extents layer.in_height layer.in_width layer.in_channels t
      → layer.out_units ≡ layer.in_height * layer.in_width * layer.in_channels
      → flatten seal layer t ≡ ok (row_major t)
  flatten-row_major layer t ext e = flatten_lem layer t ext e
