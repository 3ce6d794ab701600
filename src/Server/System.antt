-- ===== src/Server/System.antt =====
-- The callbacks and the threads around one `CalcManager`, as steps
-- (ppcnn/ppcnn_server/ppcnn_server_callback_function.cpp and ppcnn_server_calcthread.cpp). Callbacks and
-- threads run side by side. A step is one access to a queue: a test of its size, a test of a key, or
-- what is done under its mutex; the two tests of `push_query`, and the test of the key and the insertion
-- of `push`, are steps of their own, with steps of others between. A test that is not under the mutex is
-- taken to read the size, or the key, of one moment. No step calls `cleanup_results`, as nothing in the
-- repository does.
pub mod Bounds
pub mod Progress
pub mod Execution
use pp_cnn.Prelude.{ℕ, suc, ◌≡◌, true, false, none, some, List, [], ◌∷◌, ◌++◌}
use pp_cnn.Server.MapQueue.{lookup, emplace, pop}
use pp_cnn.Server.CalcManager.{Manager, manager_new, queries_free, results_free, try_pop_result}

-- The manager and the global variables, the callbacks of queries, and the threads.
pub record System (Q R G : Type 0) : Type 0 where
  pub manager : Manager Q R
  pub shared : G
  -- callbacks that may still come
  pub idle : ℕ
  -- `push_query` behind its first test, behind its second, and behind the test of the key
  pub tested_queries : List Q
  pub tested_results : List Q
  pub counted : List (ℕ × Q)
  -- threads that wait for a query, that compute one, and that have tested the key of its result
  pub waiting : ℕ
  pub running : List (ℕ × Q)
  pub answered : List (ℕ × R)

module _ {Q R G : Type 0} where
  -- `start_threads(thread_num)`, with at most `callbacks` callbacks of queries at one time
  abbrev pub started :
      (max_concurrent_queries max_results result_lifetime_sec callbacks thread_num : ℕ)
      → G
      → System Q R G
  started max_concurrent_queries max_results result_lifetime_sec callbacks thread_num shared =
      record {
        manager = manager_new max_concurrent_queries max_results result_lifetime_sec;
        shared = shared;
        idle = callbacks;
        tested_queries = [];
        tested_results = [];
        counted = [];
        waiting = thread_num;
        running = [];
        answered = [];
      }

  -- `Computes g id q r g'`: a thread that computes the query `q` leaves `r`, and the global variables
  -- `g'` for `g`.
  module _ (Computes : G → ℕ → Q → R → G → Type 0) where
    pub data Step : System Q R G → System Q R G → Type 0 where
      -- `push_query` finds room for a query; where it does not, it changes nothing
      test_queries :
          {s : System Q R G} (q : Q) (n : ℕ)
          → s.idle ≡ suc n
          → queries_free s.manager ≡ true
          → Step s (record s { idle = n; tested_queries = q ∷ s.tested_queries })
      -- and for a result
      test_results :
          {s : System Q R G} (q : Q) (before after : List Q)
          → s.tested_queries ≡ before ++ q ∷ after
          → results_free s.manager ≡ true
          → Step s
              (record s { tested_queries = before ++ after; tested_results = q ∷ s.tested_results })
      -- or does not
      refuse :
          {s : System Q R G} (q : Q) (before after : List Q)
          → s.tested_queries ≡ before ++ q ∷ after
          → results_free s.manager ≡ false
          → Step s (record s { idle = suc s.idle; tested_queries = before ++ after })
      -- `push` finds the identifier new
      count :
          {s : System Q R G} (uuid : ℕ) (q : Q) (before after : List Q)
          → s.tested_results ≡ before ++ q ∷ after
          → lookup uuid s.manager.qque ≡ none
          → Step s (record s { tested_results = before ++ after; counted = (uuid, q) ∷ s.counted })
      -- or throws
      throw :
          {s : System Q R G} (uuid : ℕ) (q old : Q) (before after : List Q)
          → s.tested_results ≡ before ++ q ∷ after
          → lookup uuid s.manager.qque ≡ some old
          → Step s (record s { idle = suc s.idle; tested_results = before ++ after })
      -- the insertion of `push`; an entry that came in between stays
      insert :
          {s : System Q R G} (uuid : ℕ) (q : Q) (before after : List (ℕ × Q))
          → s.counted ≡ before ++ (uuid, q) ∷ after
          → Step s (record s {
            manager = record s.manager { qque = emplace uuid q s.manager.qque };
            idle = suc s.idle;
            counted = before ++ after;
          })
      -- a thread pops the front of the queries
      take :
          {s : System Q R G} (id : ℕ) (q : Q) (qque : List (ℕ × Q)) (n : ℕ)
          → s.waiting ≡ suc n
          → pop s.manager.qque ≡ some ((id, q), qque)
          → Step s (record s {
            manager = record s.manager { qque = qque };
            waiting = n;
            running = (id, q) ∷ s.running;
          })
      -- a thread has computed its query, and finds no result of the identifier
      answer :
          {s : System Q R G} (id : ℕ) (q : Q) (r : R) (g : G) (before after : List (ℕ × Q))
          → s.running ≡ before ++ (id, q) ∷ after
          → Computes s.shared id q r g
          → lookup id s.manager.rque ≡ none
          → Step s
              (record s { shared = g; running = before ++ after; answered = (id, r) ∷ s.answered })
      -- it inserts the result, and waits again
      finish :
          {s : System Q R G} (id : ℕ) (r : R) (before after : List (ℕ × R))
          → s.answered ≡ before ++ (id, r) ∷ after
          → Step s (record s {
            manager = record s.manager { rque = emplace id r s.manager.rque };
            waiting = suc s.waiting;
            answered = before ++ after;
          })
      -- what a thread does throws: the thread ends, and its query is lost
      fail :
          {s : System Q R G} (id : ℕ) (q : Q) (g : G) (before after : List (ℕ × Q))
          → s.running ≡ before ++ (id, q) ∷ after
          → Step s (record s { shared = g; running = before ++ after })
      -- `CallbackFunctionResultRequest`, in the round of its loop that finds the result
      collect :
          {s : System Q R G} (id : ℕ) (r : R) (m : Manager Q R)
          → try_pop_result id s.manager ≡ some (r, m)
          → Step s (record s { manager = m })

    -- A server with the limits `a` and `b`, the lifetime `c`, `k` callbacks at one time and `n` threads.
    pub data Reachable (a b c k n : ℕ) (g : G) : System Q R G → Type 0 where
      start : Reachable a b c k n g (started a b c k n g)
      step : {s t : System Q R G} → Reachable a b c k n g s → Step s t → Reachable a b c k n g t
