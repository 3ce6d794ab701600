-- ===== src/Server/CalcManager/Bounds.antt =====
-- What the operations of `CalcManager` do to the two queues.
use pp_cnn.Prelude.{
  ℕ, ◌<◌, ◌≤◌, ◌≡◌, refl, ap, ◌⊎◌, inl, inr, Bool, true, false, ◌&&◌, ◌||◌, Option, none, some,
  List, [], ◌∷◌, arith, leb, ◌==◌, if◌then◌else◌, Bool-cases, Option-cases, ==_iff,
}
use pp_cnn.Server.MapQueue.{lookup, emplace, erase, push, pop_key, get, size}
use pp_cnn.Server.MapQueue.Entries.{
  Sorted, erase-Sorted, lookup-erase, lookup-AllAbove, length-erase,
}
use pp_cnn.Server.CalcManager.{
  Manager, queries_free, results_free, push_query, expired_ids, pop_all, cleanup_results,
}

-- Why a query is refused.
abbrev pub Refused : {Q R : Type 0} → ℕ → Manager Q R → Type 0
Refused {Q} uuid m =
    (m.max_concurrent_queries ≤ size m.qque)
    ⊎ (m.max_results ≤ size m.rque)
    ⊎ ((q : Q) × (get uuid m.qque ≡ some q))

-- What an accepted query found, and what it leaves.
abbrev pub Accepted : {Q R : Type 0} → ℕ → Q → Manager Q R → Manager Q R → Type 0
Accepted uuid query m m' =
    (size m.qque < m.max_concurrent_queries)
    × (size m.rque < m.max_results)
    × (get uuid m.qque ≡ none)
    × (m' ≡ record m { qque = emplace uuid query m.qque })

module _ {Q R : Type 0} where
  -- `push_query` returns the identifier and inserts the query, if neither queue is full and the
  -- identifier is new among the queries that wait; else it returns -1 and changes nothing.
  pub push_query-cases :
      (uuid : ℕ) (query : Q) (m : Manager Q R)
      → ((m' : Manager Q R) × (push_query uuid query m ≡ (some uuid, m'))
          × Accepted uuid query m m')
        ⊎ ((push_query uuid query m ≡ (none, m)) × Refused uuid m)
  unfolding push_query push get queries_free results_free
  push_query-cases uuid query m = elim (Bool-cases (queries_free m && results_free m)) [
    | inr full ↦ inr (simp (push_query, full) refl, ground arith)
    | inl free ↦ elim (Option-cases (lookup uuid m.qque)) [
      | inl new ↦
          inl (_, simp (push_query, free, push, new) refl, (ground arith, ground arith, new, refl))
      | inr (q, old) ↦ inr (simp (push_query, free, push, old) refl, inr (inr (q, old)))
    ]
  ]

-- Whether an identifier is in a list.
abbrev has : ℕ → List ℕ → Bool
has j [] = false
has j (id ∷ ids) = (j == id) || has j ids

module _ {R : Type 0} where
  same_key : (j id : ℕ) (q : List (ℕ × R)) → (j == id) ≡ true → lookup j q ≡ lookup id q
  same_key j id q t = ap (λ k. lookup k q) ((==_iff j id).0 t)

  absent :
      (j id : ℕ) (ids : List ℕ) (q : List (ℕ × R))
      → lookup id q ≡ none
      → (o : Option R) → o ≡ (if has j ids then none else lookup j q)
      → o ≡ (if has j (id ∷ ids) then none else lookup j q)
  absent j id ids q h o e = elim (Bool-cases (j == id)) [
    | inl t ↦ rw (t, e, same_key j id q t, h) (ground arith)
    | inr f ↦ rw f e
  ]

  present :
      (j id : ℕ) (ids : List ℕ) (q : List (ℕ × R))
      → Sorted q
      → (o : Option R) → o ≡ (if has j ids then none else lookup j (erase id q))
      → o ≡ (if has j (id ∷ ids) then none else lookup j q)
  present j id ids q s o e = elim (Bool-cases (j == id)) [
    | inl t ↦ rw (t, e, lookup-erase id q j s, t) (ground arith)
    | inr f ↦ rw f (rw (lookup-erase id q j s, f) at e)
  ]

  lookup-pop_all :
      (ids : List ℕ) (q : List (ℕ × R)) (j : ℕ)
      → Sorted q
      → Sorted (pop_all ids q)
        × (lookup j (pop_all ids q) ≡ (if has j ids then none else lookup j q))
  unfolding pop_all pop_key
  lookup-pop_all [] q j s = (s, refl)
  lookup-pop_all (id ∷ ids) q j s = elim (Option-cases (lookup id q)) [
    | inl h ↦
        let (s', e) = lookup-pop_all ids q j s in
        rw (pop_all, pop_key, h) (s', absent j id ids q h _ e)
    | inr (r, h) ↦
        let (s', e) = lookup-pop_all ids (erase id q) j (erase-Sorted id q s) in
        rw (pop_all, pop_key, h) (s', present j id ids q s _ e)
  ]

  -- Whether the entry of an identifier has expired.
  abbrev pub is_expired : (R → ℕ) → ℕ → Option R → Bool
  is_expired elapsed_time lifetime none = false
  is_expired elapsed_time lifetime (some r) = leb lifetime (elapsed_time r)

  has-expired_ids :
      (elapsed_time : R → ℕ) (lifetime : ℕ) (q : List (ℕ × R)) (j : ℕ)
      → Sorted q
      → has j (expired_ids elapsed_time lifetime q) ≡ is_expired elapsed_time lifetime (lookup j q)
  unfolding expired_ids lookup
  has-expired_ids elapsed_time lifetime [] j s = refl
  has-expired_ids elapsed_time lifetime ((k, r) ∷ q) j s =
      ground (arith, has-expired_ids elapsed_time lifetime q j s.1, lookup-AllAbove k q s.0)

  size-pop_all : (ids : List ℕ) (q : List (ℕ × R)) → size (pop_all ids q) ≤ size q
  unfolding pop_all pop_key
  size-pop_all [] q = omega arith
  size-pop_all (id ∷ ids) q = elim (Option-cases (lookup id q)) [
    | inl h ↦ rw (pop_all, pop_key, h) (size-pop_all ids q)
    | inr (r, h) ↦
        rw (pop_all, pop_key, h)
          (omega (arith, size-pop_all ids (erase id q), length-erase id r q h))
  ]

module _ {Q R : Type 0} where
  -- `cleanup_results` removes, if the results are at their maximum, exactly those that are at least as
  -- old as the lifetime, and nothing otherwise; the queries are left alone.
  pub cleanup_results-get :
      (elapsed_time : R → ℕ) (m : Manager Q R) (j : ℕ)
      → Sorted m.rque
      → Sorted (cleanup_results elapsed_time m).rque
        × ((cleanup_results elapsed_time m).qque ≡ m.qque)
        × (get j (cleanup_results elapsed_time m).rque ≡ (
            if leb m.max_results (size m.rque)
              && is_expired elapsed_time m.result_lifetime_sec (get j m.rque)
            then none
            else get j m.rque))
  unfolding cleanup_results get
  cleanup_results-get elapsed_time m j s =
      let (s', e) =
        lookup-pop_all (expired_ids elapsed_time m.result_lifetime_sec m.rque) m.rque j s in
      elim (Bool-cases (leb m.max_results (size m.rque))) [
        | inl full ↦
            simp (cleanup_results, full)
              (s', refl, rw (e, has-expired_ids elapsed_time m.result_lifetime_sec m.rque j s) refl)
        | inr free ↦ simp (cleanup_results, free) (s, refl, refl)
      ]

  pub cleanup_results-size :
      (elapsed_time : R → ℕ) (m : Manager Q R)
      → size (cleanup_results elapsed_time m).rque ≤ size m.rque
  unfolding cleanup_results
  cleanup_results-size elapsed_time m = elim (Bool-cases (leb m.max_results (size m.rque))) [
    | inl full ↦
        simp (cleanup_results, full)
          (size-pop_all (expired_ids elapsed_time m.result_lifetime_sec m.rque) m.rque)
    | inr free ↦ simp (cleanup_results, free) (omega arith)
  ]
