-- ===== src/Server/MapQueue/Entries.antt =====
-- The queue as a map: what an operation does to the entry of each key.
use pp_cnn.Prelude.{
  ℕ, suc, ◌<◌, ◌≤◌, ◌≡◌, refl, none, some, List, [], ◌∷◌, length, arith, ltb, ltb→lt, if_cases,
  ◌==◌, if◌then◌else◌,
}
use pp_cnn.Server.MapQueue.{lookup, emplace, erase}

-- Ascending keys.
abbrev pub AllAbove {ℓ} : {V : Type ℓ} → ℕ → List (ℕ × V) → Type 0
AllAbove key [] = Unit {0}
AllAbove key ((k, v) ∷ q) = (key < k) × AllAbove key q

abbrev pub Sorted {ℓ} : {V : Type ℓ} → List (ℕ × V) → Type 0
Sorted [] = Unit {0}
Sorted ((k, v) ∷ q) = AllAbove k q × Sorted q

module _ {ℓ} {V : Type ℓ} where
  AllAbove-trans : (a b : ℕ) (q : List (ℕ × V)) → a < b → AllAbove b q → AllAbove a q
  AllAbove-trans a b [] lt h = tt
  AllAbove-trans a b ((k, v) ∷ q) lt h = (omega arith, AllAbove-trans a b q lt h.1)

  pub lookup-AllAbove : (key : ℕ) (q : List (ℕ × V)) → AllAbove key q → lookup key q ≡ none
  unfolding lookup
  lookup-AllAbove key [] h = refl
  lookup-AllAbove key ((k, v) ∷ q) h = ground (arith, lookup-AllAbove key q h.1, h.0)

  pub lookup-emplace :
      (key : ℕ) (val : V) (q : List (ℕ × V)) (j : ℕ)
      → lookup key q ≡ none
      → lookup j (emplace key val q) ≡ (if j == key then some val else lookup j q)
  unfolding lookup emplace
  lookup-emplace key val [] j h = refl
  lookup-emplace key val ((k, v) ∷ q) j h = ground (arith, lookup-emplace key val q j)

  AllAbove-emplace :
      (a key : ℕ) (val : V) (q : List (ℕ × V))
      → a < key
      → AllAbove a q
      → AllAbove a (emplace key val q)
  unfolding emplace
  AllAbove-emplace a key val [] lt h = (lt, tt)
  AllAbove-emplace a key val ((k, v) ∷ q) lt h =
      if_cases (AllAbove a) (key == k) (λ _. h)
        λ _.
          if_cases (AllAbove a) (ltb key k) (λ _. (lt, h))
            λ _. (h.0, AllAbove-emplace a key val q lt h.1)

  pub emplace-Sorted :
      (key : ℕ) (val : V) (q : List (ℕ × V)) → Sorted q → Sorted (emplace key val q)
  unfolding emplace
  emplace-Sorted key val [] h = (tt, tt)
  emplace-Sorted key val ((k, v) ∷ q) h =
      if_cases Sorted (key == k) (λ _. h)
        λ ne.
          if_cases Sorted (ltb key k)
            (λ below. ((ltb→lt key k below, AllAbove-trans key k q (ltb→lt key k below) h.0), h))
            λ above. (AllAbove-emplace k key val q (ground arith) h.0, emplace-Sorted key val q h.1)

  AllAbove-erase : (a key : ℕ) (q : List (ℕ × V)) → AllAbove a q → AllAbove a (erase key q)
  unfolding erase
  AllAbove-erase a key [] h = tt
  AllAbove-erase a key ((k, v) ∷ q) h =
      if_cases (AllAbove a) (key == k) (λ _. h.1) λ _. (h.0, AllAbove-erase a key q h.1)

  pub erase-Sorted : (key : ℕ) (q : List (ℕ × V)) → Sorted q → Sorted (erase key q)
  unfolding erase
  erase-Sorted key [] h = tt
  erase-Sorted key ((k, v) ∷ q) h =
      if_cases Sorted (key == k) (λ _. h.1)
        λ _. (AllAbove-erase k key q h.0, erase-Sorted key q h.1)

  pub lookup-erase :
      (key : ℕ) (q : List (ℕ × V)) (j : ℕ)
      → Sorted q
      → lookup j (erase key q) ≡ (if j == key then none else lookup j q)
  unfolding lookup erase
  lookup-erase key [] j h = ground arith
  lookup-erase key ((k, v) ∷ q) j h =
      ground (arith, lookup-erase key q j h.1, lookup-AllAbove k q h.0)

  pub length-emplace_le :
      (key : ℕ) (val : V) (q : List (ℕ × V)) → length (emplace key val q) ≤ suc (length q)
  unfolding emplace
  length-emplace_le key val [] = omega arith
  length-emplace_le key val ((k, v) ∷ q) = ground (arith, length-emplace_le key val q)

  pub length-emplace :
      (key : ℕ) (val : V) (q : List (ℕ × V))
      → lookup key q ≡ none
      → length (emplace key val q) ≡ suc (length q)
  unfolding lookup emplace
  length-emplace key val [] h = refl
  length-emplace key val ((k, v) ∷ q) h = ground (arith, length-emplace key val q)

  pub length-erase :
      (key : ℕ) (val : V) (q : List (ℕ × V))
      → lookup key q ≡ some val
      → suc (length (erase key q)) ≡ length q
  unfolding lookup erase
  length-erase key val [] h = cc
  length-erase key val ((k, v) ∷ q) h = ground (arith, length-erase key val q)

  pub erase-emplace :
      (key : ℕ) (val : V) (q : List (ℕ × V))
      → lookup key q ≡ none
      → erase key (emplace key val q) ≡ q
  unfolding lookup emplace erase
  erase-emplace key val [] h = ground arith
  erase-emplace key val ((k, v) ∷ q) h = ground (arith, erase-emplace key val q)
