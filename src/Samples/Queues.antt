-- ===== src/Samples/Queues.antt =====
-- Runs of the queues, of the manager, of the keys and of the server.
use pp_cnn.Prelude.{
  ℕ, suc, ◌≡◌, refl, arith, ◌⊎◌, ◌&&◌, leb, none, some, List, [], ◌∷◌, ok, Returns, ◌==◌,
  if◌then◌else◌,
}
use pp_cnn.Server.MapQueue.{lookup, erase, push, pop, pop_key, get, size}
use pp_cnn.Server.MapQueue.Entries.{AllAbove, Sorted}
use pp_cnn.Server.MapQueue.Order.{push-pop_key, pop_key-get, pop-pop_key}
use pp_cnn.Server.CalcManager.{Manager, push_query, cleanup_results}
use pp_cnn.Server.CalcManager.Bounds.{
  Accepted, Refused, push_query-cases, cleanup_results-get, is_expired,
}
use pp_cnn.Server.KeyContainer.{find_keys, register_keys, get_keys, get_keys-register_keys}

abbrev two_entries : List (ℕ × ℕ)
two_entries = (4, 40) ∷ (7, 70) ∷ []

abbrev entry_of_4 : List (ℕ × ℕ)
entry_of_4 = (4, 40) ∷ []

abbrev entry_of_7 : List (ℕ × ℕ)
entry_of_7 = (7, 70) ∷ []

abbrev one_key : List (ℕ × ℕ)
one_key = (1, 10) ∷ []

two_entries-Sorted : Sorted two_entries
two_entries-Sorted = ((omega arith, tt), (tt, tt))

push-pop_key_example : Returns (push 5 50 two_entries) λ q'.
    Sorted q'
    × (size q' ≡ suc (size two_entries))
    × ((j : ℕ) → get j q' ≡ (if j == 5 then some 50 else get j two_entries))
    × (pop_key 5 q' ≡ some (50, two_entries))
unfolding get lookup
push-pop_key_example = push-pop_key 5 50 two_entries two_entries-Sorted refl

pop_key-get_example :
    (get 7 two_entries ≡ some 70)
    × Sorted entry_of_4
    × (suc (size entry_of_4) ≡ size two_entries)
    × ((j : ℕ) → get j entry_of_4 ≡ (if j == 7 then none else get j two_entries))
unfolding pop_key lookup erase
pop_key-get_example = pop_key-get 7 70 two_entries entry_of_4 two_entries-Sorted refl

pop-pop_key_example :
    AllAbove 4 entry_of_7 × Sorted entry_of_7 × (pop_key 4 two_entries ≡ some (40, entry_of_7))
unfolding pop
pop-pop_key_example = pop-pop_key 4 40 two_entries entry_of_7 two_entries-Sorted refl

-- Two results are the maximum, and the older of them, 90 seconds old, has expired.
abbrev full_manager : Manager ℕ ℕ
full_manager = record {
  max_concurrent_queries = 3;
  max_results = 2;
  result_lifetime_sec = 60;
  qque = [];
  rque = (4, 90) ∷ (7, 10) ∷ [];
}

push_query-cases_example :
    ((m' : Manager ℕ ℕ) × (push_query 5 50 full_manager ≡ (some 5, m'))
      × Accepted 5 50 full_manager m')
    ⊎ ((push_query 5 50 full_manager ≡ (none, full_manager)) × Refused 5 full_manager)
push_query-cases_example = push_query-cases 5 50 full_manager

cleanup_results-get_example :
    Sorted (cleanup_results (λ age. age) full_manager).rque
    × ((cleanup_results (λ age. age) full_manager).qque ≡ [])
    × (get 4 (cleanup_results (λ age. age) full_manager).rque ≡ (
        if leb 2 2 && is_expired (λ age. age) 60 (get 4 full_manager.rque)
        then none
        else get 4 full_manager.rque))
cleanup_results-get_example =
    cleanup_results-get (λ age. age) full_manager 4 ((omega arith, tt), (tt, tt))

get_keys-register_keys_example : get_keys {Keys = ℕ} 2 (register_keys 2 20 one_key) ≡ (
    if 2 == 2
    then ok (elim (find_keys 2 one_key) [ none ↦ 20 | some old ↦ old ])
    else get_keys 2 one_key)
get_keys-register_keys_example = get_keys-register_keys 2 20 one_key 2
