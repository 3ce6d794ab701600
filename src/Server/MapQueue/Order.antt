-- ===== src/Server/MapQueue/Order.antt =====
-- The operations of the queue as operations of a map, and the order in which the front is popped.
use pp_cnn.Prelude.{
  subst, ℕ, suc, ◌≡◌, refl, ap, ◌∙◌, none, some, List, [], ◌∷◌, arith, err, invalid_param, Returns,
  ◌==◌, if◌then◌else◌, Option-cases, none≢some, some_inj, inl, inr,
}
use pp_cnn.Server.MapQueue.{lookup, emplace, erase, push, pop, pop_key, get, size}
use pp_cnn.Server.MapQueue.Entries.{
  AllAbove, Sorted, lookup-emplace, emplace-Sorted, erase-Sorted, lookup-erase, length-emplace,
  length-erase, erase-emplace,
}

module _ {ℓ} {V : Type ℓ} where
  -- A push of a key that is not in the queue succeeds: the keys stay ascending, the queue has one
  -- entry more, every other key keeps its entry, and popping the key gives the value and the queue
  -- from before.
  pub push-pop_key :
      (key : ℕ) (val : V) (q : List (ℕ × V))
      → Sorted q
      → get key q ≡ none
      → Returns (push key val q) λ q'.
        Sorted q'
        × (size q' ≡ suc (size q))
        × ((j : ℕ) → get j q' ≡ (if j == key then some val else get j q))
        × (pop_key key q' ≡ some (val, q))
  unfolding push pop_key get
  push-pop_key key val q s h =
      let absent : lookup key q ≡ none = h in
      let here : lookup key (emplace key val q) ≡ some val =
        rw (lookup-emplace key val q key h) (ground arith) in
      (
        emplace key val q,
        rw (push, absent) refl,
        (
          emplace-Sorted key val q s,
          length-emplace key val q h,
          λ j. lookup-emplace key val q j h,
          rw (pop_key, here, erase-emplace key val q h) refl,
        ),
      )

  -- A push of a key that is in the queue throws.
  pub push-throws :
      (key : ℕ) (val v : V) (q : List (ℕ × V))
      → get key q ≡ some v
      → push key val q ≡ err invalid_param
  unfolding push get
  push-throws key val v q h = let present : lookup key q ≡ some v = h in rw (push, present) refl

  -- What a pop by key returns is the entry of the key: the keys stay ascending, the queue has one entry
  -- less, the key is gone, and every other key keeps its entry.
  pub pop_key-get :
      (key : ℕ) (val : V) (q q' : List (ℕ × V))
      → Sorted q
      → pop_key key q ≡ some (val, q')
      → (get key q ≡ some val)
        × Sorted q'
        × (suc (size q') ≡ size q)
        × ((j : ℕ) → get j q' ≡ (if j == key then none else get j q))
  unfolding pop_key get
  pop_key-get key val q q' s e = elim (Option-cases (lookup key q)) [
    | inl h ↦ absurd (none≢some (rw (pop_key, h) at e))
    | inr (v, h) ↦
        let pair : (v, erase key q) ≡ (val, q') = some_inj (rw (pop_key, h) at e) in
        let rest : erase key q ≡ q' = ap (λ p. p.1) pair in
        (
          h ∙ ap (λ p. some p.0) pair,
          subst Sorted rest (erase-Sorted key q s),
          rw⁻¹ rest (length-erase key v q h),
          λ j. rw⁻¹ rest (lookup-erase key q j s),
        )
  ]

  -- The front of the queue is the entry of the least key, and popping it is popping that key.
  pub pop-pop_key :
      (key : ℕ) (val : V) (q q' : List (ℕ × V))
      → Sorted q
      → pop q ≡ some ((key, val), q')
      → AllAbove key q' × Sorted q' × (pop_key key q ≡ some (val, q'))
  unfolding pop pop_key lookup erase
  pop-pop_key key val [] q' s e = absurd (none≢some e)
  pop-pop_key key val ((k, v) ∷ q) q' s e =
      let pair : ((k, v), q) ≡ ((key, val), q') = some_inj e in
      let rest : q ≡ q' = ap (λ p. p.1) pair in
      let ek : k ≡ key = ap (λ p. p.0.0) pair in
      let ev : v ≡ val = ap (λ p. p.0.1) pair in rw (← ek, ← ev, ← rest) (s.0, s.1, ground arith)
