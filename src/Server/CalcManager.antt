-- ===== src/Server/CalcManager.antt =====
-- `CalcManager` (ppcnn/ppcnn_server/ppcnn_server_calcmanager.cpp) with the queues of
-- ppcnn_server_query.cpp and ppcnn_server_result.cpp. `std::rand()`, seeded with the seconds, is the
-- argument `uuid`, and the age of a result is a function of it.
pub mod Bounds
use pp_cnn.Prelude.{
  ℕ, Bool, true, false, ◌&&◌, Option, none, some, List, [], ◌∷◌, Result, ok, err, ltb, leb,
  if◌then◌else◌,
}
use pp_cnn.Server.MapQueue.{push, pop, pop_key, size}

-- `params_`, the key, the encrypted images and the keys of a query, with the types of SEAL as
-- parameters.
pub record Query (Ciphertext Keys Params : Type 0) : Type 0 where
  pub key_id : ℕ
  pub params : Params
  pub ctxts : List Ciphertext
  pub enc_keys : Keys

-- `Result`, with the time of its creation
pub record CalcResult (Ciphertext : Type 0) : Type 0 where
  pub key_id : ℕ
  pub query_id : ℕ
  pub status : Bool
  pub ctxts : List Ciphertext
  pub created_time : ℕ

-- `CalcManager::Impl`
pub record Manager (Q R : Type 0) : Type 0 where
  pub max_concurrent_queries : ℕ
  pub max_results : ℕ
  pub result_lifetime_sec : ℕ
  pub qque : List (ℕ × Q)
  pub rque : List (ℕ × R)

module _ {R : Type 0} where
  -- `query_ids`, what the loop over the results collects
  unfoldable pub expired_ids : (R → ℕ) → ℕ → List (ℕ × R) → List ℕ
  expired_ids elapsed_time lifetime [] = []
  expired_ids elapsed_time lifetime ((id, result) ∷ rque) =
      if leb lifetime (elapsed_time result)
      then id ∷ expired_ids elapsed_time lifetime rque
      else expired_ids elapsed_time lifetime rque

  -- `pop` of each of the identifiers; what it returns is dropped.
  unfoldable pub pop_all : List ℕ → List (ℕ × R) → List (ℕ × R)
  unfolding pop_key
  pop_all [] rque = rque
  pop_all (id ∷ ids) rque = elim (pop_key id rque) [
    | none ↦ pop_all ids rque
    | some (result, rque') ↦ pop_all ids rque'
  ]

module _ {Q R : Type 0} where
  -- `CalcManager::CalcManager`
  unfoldable pub manager_new :
      (max_concurrent_queries max_results result_lifetime_sec : ℕ) → Manager Q R
  manager_new max_concurrent_queries max_results result_lifetime_sec = record {
    max_concurrent_queries = max_concurrent_queries;
    max_results = max_results;
    result_lifetime_sec = result_lifetime_sec;
    qque = [];
    rque = [];
  }

  -- What the `try` makes of the push: the identifier, or -1, which is `none`.
  abbrev pub pushed : ℕ → Manager Q R → Result (List (ℕ × Q)) → Option ℕ × Manager Q R
  pushed uuid m (ok qque) = (some uuid, record m { qque = qque })
  pushed uuid m (err e) = (none, m)

  -- The two tests of `push_query`.
  unfoldable pub queries_free : Manager Q R → Bool
  queries_free m = ltb (size m.qque) m.max_concurrent_queries

  unfoldable pub results_free : Manager Q R → Bool
  results_free m = ltb (size m.rque) m.max_results

  -- `CalcManager::push_query`, while no other thread touches the queues; `Server/System` has its parts
  -- as steps of their own, since no mutex is held from the first test to the push.
  unfoldable pub push_query : ℕ → Q → Manager Q R → Option ℕ × Manager Q R
  push_query uuid query m =
      if queries_free m && results_free m then pushed uuid m (push uuid query m.qque) else (none, m)

  -- One round of the loop of `pop_result`: the result, or another round.
  unfoldable pub try_pop_result : ℕ → Manager Q R → Option (R × Manager Q R)
  try_pop_result query_id m = elim (pop_key query_id m.rque) [
    | none ↦ none
    | some (result, rque) ↦ some (result, record m { rque = rque })
  ]

  -- `CalcManager::cleanup_results`
  unfoldable pub cleanup_results : (R → ℕ) → Manager Q R → Manager Q R
  cleanup_results elapsed_time m =
      if leb m.max_results (size m.rque)
      then record m {
        rque = pop_all (expired_ids elapsed_time m.result_lifetime_sec m.rque) m.rque;
      }
      else m
