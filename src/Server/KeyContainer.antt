-- ===== src/Server/KeyContainer.antt =====
-- `KeyContainer` (ppcnn/ppcnn_server/ppcnn_server_keycontainer.cpp): the keys of the clients. The
-- `std::unordered_map` is an association list, of which the first entry of a key counts.
use pp_cnn.Prelude.{
  ℕ, ◌≡◌, refl, Option, none, some, List, [], ◌∷◌, arith, Result, ok, invalid_param, ◌==◌,
  if◌then◌else◌, or_throw, Bool-cases, ==_iff, ap, Option-cases, inl, inr,
}

module _ {ℓ} {Keys : Type ℓ} where
  -- `keymap_.count(key_id)` and `keymap_.at(key_id)`
  unfoldable pub find_keys : ℕ → List (ℕ × Keys) → Option Keys
  find_keys key_id [] = none
  find_keys key_id ((k, keys) ∷ keymap) = if key_id == k then some keys else find_keys key_id keymap

  -- `KeyContainer::register_keys`: `emplace` keeps the keys that are there.
  unfoldable pub register_keys : ℕ → Keys → List (ℕ × Keys) → List (ℕ × Keys)
  unfolding find_keys
  register_keys key_id keys keymap = elim (find_keys key_id keymap) [
    | none ↦ (key_id, keys) ∷ keymap
    | some old ↦ keymap
  ]

  -- `KeyContainer::get_keys`
  unfoldable pub get_keys : ℕ → List (ℕ × Keys) → Result Keys
  get_keys key_id keymap = or_throw invalid_param (find_keys key_id keymap)

  kept :
      (key_id : ℕ) (keymap : List (ℕ × Keys)) (j : ℕ) (old : Keys)
      → find_keys key_id keymap ≡ some old
      → get_keys j keymap ≡ (if j == key_id then ok old else get_keys j keymap)
  unfolding get_keys
  kept key_id keymap j old e = elim (Bool-cases (j == key_id)) [
    | inl t ↦ rw (t, ap (λ k. get_keys k keymap) ((==_iff j key_id).0 t), get_keys, e) refl
    | inr f ↦ rw f refl
  ]

  -- After a registration, an identifier has the keys that were registered for it first: the new ones
  -- if there were none, and the old ones otherwise; every other identifier is as before.
  pub get_keys-register_keys :
      (key_id : ℕ) (keys : Keys) (keymap : List (ℕ × Keys)) (j : ℕ)
      → get_keys j (register_keys key_id keys keymap) ≡ (
          if j == key_id
          then ok (elim (find_keys key_id keymap) [ none ↦ keys | some old ↦ old ])
          else get_keys j keymap)
  unfolding get_keys register_keys find_keys
  get_keys-register_keys key_id keys keymap j = elim (Option-cases (find_keys key_id keymap)) [
    | inl new ↦ rw (get_keys, register_keys, new) (ground (arith, new))
    | inr (old, e) ↦ rw (get_keys, register_keys, e) (kept key_id keymap j old e)
  ]
