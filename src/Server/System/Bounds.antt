-- ===== src/Server/System/Bounds.antt =====
-- Invariants of the server, by induction on its steps.
use pp_cnn.Prelude.{
  ℕ, suc, ◌+◌, ◌-◌, ◌<◌, ◌≤◌, ◌≡◌, refl, ap, subst, inl, inr, true, some, List, [], ◌∷◌, ◌++◌,
  length, length-append, arith, Option-cases, none≢some, some_inj,
}
use pp_cnn.Server.MapQueue.{pop, pop_key, size}
use pp_cnn.Server.MapQueue.Entries.{Sorted, emplace-Sorted, length-emplace_le}
use pp_cnn.Server.MapQueue.Order.{pop_key-get}
use pp_cnn.Server.CalcManager.{Manager, manager_new, queries_free, results_free, try_pop_result}
use pp_cnn.Server.System.{
  System, started, Step, test_queries, test_results, refuse, count, throw, insert, take, answer,
  finish, fail, collect, Reachable, start, step,
}

-- The limits of the manager, and the order of its queues.
pub record Ordered {Q R : Type 0} (a b : ℕ) (m : Manager Q R) : Type 0 where
  pub limit_queries : m.max_concurrent_queries ≡ a
  pub limit_results : m.max_results ≡ b
  pub queries : Sorted m.qque
  pub results : Sorted m.rque

-- Of a server with the limits `a` and `b`, with `k` callbacks at one time and with `n` threads.
pub record Bounded {Q R G : Type 0} (a b k n : ℕ) (s : System Q R G) : Type 0 where
  pub ordered : Ordered a b s.manager
  pub callbacks : s.idle + length s.tested_queries + length s.tested_results + length s.counted ≤ k
  pub queue :
      size s.manager.qque + length s.tested_queries + length s.tested_results + length s.counted
      ≤ a + (k - 1)
  pub threads : s.waiting + length s.running + length s.answered ≤ n
  pub total :
      size s.manager.qque
        + length s.tested_results
        + length s.counted
        + length s.running
        + length s.answered
        + size s.manager.rque
      ≤ a + (k - 1) + n + (b - 1)

pop_size :
    {V : Type 0} (e : ℕ × V) (q q' : List (ℕ × V))
    → pop q ≡ some (e, q')
    → Sorted q
    → Sorted q' × (size q ≡ suc (size q'))
unfolding pop
pop_size e [] q' h s = absurd (none≢some h)
pop_size e (x ∷ q) q' h s = let same : q ≡ q' = ap (λ p. p.1) (some_inj h) in rw⁻¹ same (s.1, refl)

length-remove {ℓ} :
    {A : Type ℓ} (before after : List A) (x : A) (l : List A)
    → l ≡ before ++ x ∷ after
    → length l ≡ suc (length (before ++ after))
length-remove before after x l e =
    rw e (omega (arith, length-append before (x ∷ after), length-append before after))

module _ {Q R G : Type 0} (Computes : G → ℕ → Q → R → G → Type 0) where
  queries_free_lt :
      (m : Manager Q R) → queries_free m ≡ true → size m.qque < m.max_concurrent_queries
  unfolding queries_free
  queries_free_lt m h = ground arith

  results_free_lt : (m : Manager Q R) → results_free m ≡ true → size m.rque < m.max_results
  unfolding results_free
  results_free_lt m h = ground arith

  started-Bounded : (a b c k n : ℕ) (g : G) → Bounded a b k n (started {Q = Q} {R = R} a b c k n g)
  unfolding manager_new
  started-Bounded a b c k n g = record {
    ordered = record { limit_queries = refl; limit_results = refl; queries = tt; results = tt };
    callbacks = omega arith;
    queue = omega arith;
    threads = omega arith;
    total = omega arith;
  }

  collect-Bounded :
      (a b k n : ℕ) (s : System Q R G) (id : ℕ) (r : R) (m : Manager Q R)
      → try_pop_result id s.manager ≡ some (r, m)
      → Bounded a b k n s
      → Bounded a b k n (record s { manager = m })
  unfolding try_pop_result
  collect-Bounded a b k n s id r m e h = elim (Option-cases (pop_key id s.manager.rque)) [
    | inl none_left ↦ absurd (none≢some (rw (try_pop_result, none_left) at e))
    | inr ((r', rque), found) ↦
        let (_, sorted, len, _) = pop_key-get id r' s.manager.rque rque h.ordered.results found in
        let shape : record s.manager { rque = rque } ≡ m =
          ap (λ p. p.1) (some_inj (rw (try_pop_result, found) at e)) in
        subst (λ m. Bounded a b k n (record s { manager = m })) shape
          (record {
            ordered = record {
              limit_queries = h.ordered.limit_queries;
              limit_results = h.ordered.limit_results;
              queries = h.ordered.queries;
              results = sorted;
            };
            callbacks = h.callbacks;
            queue = h.queue;
            threads = h.threads;
            total = omega (arith, h.total, len);
          })
  ]

  Step-Bounded :
      (a b k n : ℕ) (s t : System Q R G) → Step Computes s t → Bounded a b k n s → Bounded a b k n t
  Step-Bounded a b k n s t (test_queries q i idle free) h =
      let room = queries_free_lt s.manager free in
      record {
        ordered = h.ordered;
        callbacks = omega (arith, h.callbacks, idle);
        queue = omega (arith, h.callbacks, idle, room, h.ordered.limit_queries);
        threads = h.threads;
        total = h.total;
      }
  Step-Bounded a b k n s t (test_results q before after e free) h =
      let room = results_free_lt s.manager free in
      let less = length-remove before after q s.tested_queries e in
      record {
        ordered = h.ordered;
        callbacks = omega (arith, h.callbacks, less);
        queue = omega (arith, h.queue, less);
        threads = h.threads;
        total = omega (arith, h.queue, h.threads, less, room, h.ordered.limit_results);
      }
  Step-Bounded a b k n s t (refuse q before after e full) h =
      let less = length-remove before after q s.tested_queries e in
      record {
        ordered = h.ordered;
        callbacks = omega (arith, h.callbacks, less);
        queue = omega (arith, h.queue, less);
        threads = h.threads;
        total = h.total;
      }
  Step-Bounded a b k n s t (count uuid q before after e new) h =
      let less = length-remove before after q s.tested_results e in
      record {
        ordered = h.ordered;
        callbacks = omega (arith, h.callbacks, less);
        queue = omega (arith, h.queue, less);
        threads = h.threads;
        total = omega (arith, h.total, less);
      }
  Step-Bounded a b k n s t (throw uuid q old before after e found) h =
      let less = length-remove before after q s.tested_results e in
      record {
        ordered = h.ordered;
        callbacks = omega (arith, h.callbacks, less);
        queue = omega (arith, h.queue, less);
        threads = h.threads;
        total = omega (arith, h.total, less);
      }
  Step-Bounded a b k n s t (insert uuid q before after e) h =
      let less = length-remove before after (uuid, q) s.counted e in
      let more = length-emplace_le uuid q s.manager.qque in
      record {
        ordered = record {
          limit_queries = h.ordered.limit_queries;
          limit_results = h.ordered.limit_results;
          queries = emplace-Sorted uuid q s.manager.qque h.ordered.queries;
          results = h.ordered.results;
        };
        callbacks = omega (arith, h.callbacks, less);
        queue = omega (arith, h.queue, less, more);
        threads = h.threads;
        total = omega (arith, h.total, less, more);
      }
  Step-Bounded a b k n s t (take id q qque m wait front) h =
      let (sorted, len) = pop_size (id, q) s.manager.qque qque front h.ordered.queries in
      record {
        ordered = record {
          limit_queries = h.ordered.limit_queries;
          limit_results = h.ordered.limit_results;
          queries = sorted;
          results = h.ordered.results;
        };
        callbacks = h.callbacks;
        queue = omega (arith, h.queue, len);
        threads = omega (arith, h.threads, wait);
        total = omega (arith, h.total, len);
      }
  Step-Bounded a b k n s t (answer id q r g before after e computes new) h =
      let less = length-remove before after (id, q) s.running e in
      record {
        ordered = h.ordered;
        callbacks = h.callbacks;
        queue = h.queue;
        threads = omega (arith, h.threads, less);
        total = omega (arith, h.total, less);
      }
  Step-Bounded a b k n s t (finish id r before after e) h =
      let less = length-remove before after (id, r) s.answered e in
      let more = length-emplace_le id r s.manager.rque in
      record {
        ordered = record {
          limit_queries = h.ordered.limit_queries;
          limit_results = h.ordered.limit_results;
          queries = h.ordered.queries;
          results = emplace-Sorted id r s.manager.rque h.ordered.results;
        };
        callbacks = h.callbacks;
        queue = h.queue;
        threads = omega (arith, h.threads, less);
        total = omega (arith, h.total, less, more);
      }
  Step-Bounded a b k n s t (fail id q g before after e) h =
      let less = length-remove before after (id, q) s.running e in
      record {
        ordered = h.ordered;
        callbacks = h.callbacks;
        queue = h.queue;
        threads = omega (arith, h.threads, less);
        total = omega (arith, h.total, less);
      }
  Step-Bounded a b k n s t (collect id r m e) h = collect-Bounded a b k n s id r m e h

  -- In every reachable state of a server with the limits `a` and `b`, of which at most `k` callbacks of
  -- queries run at one time, and with `n` threads, whatever the threads compute and in whatever order
  -- the steps of callbacks and threads come: both queues have ascending keys; the queries that wait,
  -- with those that `push_query` still checks or inserts, are at most `a + (k - 1)`, thus at most `a`
  -- where callbacks come one at a time; at most `n` are computed; and all queries that are accepted,
  -- computed or answered are together at most `a + (k - 1) + n + (b - 1)`.
  pub Reachable-Bounded :
      (a b c k n : ℕ) (g : G) (s : System Q R G)
      → Reachable Computes a b c k n g s
      → Bounded a b k n s
  Reachable-Bounded a b c k n g s start = started-Bounded a b c k n g
  Reachable-Bounded a b c k n g s (step {s = r} h one) =
      Step-Bounded a b k n r s one (Reachable-Bounded a b c k n g r h)
