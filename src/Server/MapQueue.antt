-- ===== src/Server/MapQueue.antt =====
-- `ConcurrentMapQueue` (ppcnn/ppcnn_share/ppcnn_concurrent_mapqueue.hpp), the queue of the queries and
-- that of the results. The `std::map` is the list of its entries with ascending keys. The keys that
-- are pushed are values of `std::rand()`, which are not negative.
pub mod Entries
pub mod Order
use pp_cnn.Prelude.{
  ℕ, Option, none, some, List, [], ◌∷◌, length, Result, ok, err, invalid_param, ltb, ◌==◌,
  if◌then◌else◌,
}

module _ {ℓ} {V : Type ℓ} where
  -- `map_.count(key)` and `map_.at(key)`
  unfoldable pub lookup : ℕ → List (ℕ × V) → Option V
  lookup key [] = none
  lookup key ((k, v) ∷ q) = if key == k then some v else lookup key q

  -- `map_.emplace(key, val)`
  unfoldable pub emplace : ℕ → V → List (ℕ × V) → List (ℕ × V)
  emplace key val [] = (key, val) ∷ []
  emplace key val ((k, v) ∷ q) =
      if key == k
      then (k, v) ∷ q
      else if ltb key k
      then (key, val) ∷ (k, v) ∷ q
      else (k, v) ∷ emplace key val q

  -- `map_.erase(key)`
  unfoldable pub erase : ℕ → List (ℕ × V) → List (ℕ × V)
  erase key [] = []
  erase key ((k, v) ∷ q) = if key == k then q else (k, v) ∷ erase key q

  -- `push`, while no other thread touches the queue: the test of the key comes before the mutex.
  unfoldable pub push : ℕ → V → List (ℕ × V) → Result (List (ℕ × V))
  unfolding lookup
  push key val q = elim (lookup key q) [
    | none ↦ ok (emplace key val q)
    | some v ↦ err invalid_param
  ]

  -- `size`
  abbrev pub size : List (ℕ × V) → ℕ
  size q = length q

  -- `pop(Tk&, Tv&)`: the front, or `false`.
  unfoldable pub pop : List (ℕ × V) → Option ((ℕ × V) × List (ℕ × V))
  pop [] = none
  pop (front ∷ q) = some (front, q)

  -- `pop(const Tk&, Tv&)`: the entry of the key, or `false`.
  unfoldable pub pop_key : ℕ → List (ℕ × V) → Option (V × List (ℕ × V))
  unfolding lookup
  pop_key key q = elim (lookup key q) [ none ↦ none | some v ↦ some (v, erase key q) ]

  -- `get`
  unfoldable pub get : ℕ → List (ℕ × V) → Option V
  get key q = lookup key q
