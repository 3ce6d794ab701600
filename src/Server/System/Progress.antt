-- ===== src/Server/System/Progress.antt =====
-- The queries that wait are answered: a run of the server in which one thread takes them one after the
-- other and the client collects each result.
use pp_cnn.Prelude.{ℕ, suc, ◌≡◌, refl, sym, subst, ◌∙◌, none, some, List, [], ◌∷◌, ok_inj}
use pp_cnn.Server.MapQueue.{emplace, push, pop, pop_key, get}
use pp_cnn.Server.MapQueue.Entries.{Sorted}
use pp_cnn.Server.MapQueue.Order.{push-pop_key}
use pp_cnn.Server.CalcManager.{Manager, try_pop_result}
use pp_cnn.Server.System.{System, Step, take, answer, finish}

-- None of these identifiers has a result.
abbrev pub Unanswered : {Q R : Type 0} → List (ℕ × Q) → List (ℕ × R) → Type 0
Unanswered [] rque = Unit
Unanswered ((id, q) ∷ qque) rque = (get id rque ≡ none) × Unanswered qque rque

module _ {Q R G : Type 0} (Computes : G → ℕ → Q → R → G → Type 0) where
  -- Steps from one state to another, with the results that are collected on the way.
  pub data Run : System Q R G → List (ℕ × R) → System Q R G → Type 0 where
    stop : {s : System Q R G} → Run s [] s
    silent : {s t u : System Q R G} {l : List (ℕ × R)} → Step Computes s t → Run t l u → Run s l u
    collected :
        {s u : System Q R G} {l : List (ℕ × R)} (id : ℕ) (r : R) (m : Manager Q R)
        → try_pop_result id s.manager ≡ some (r, m)
        → Run (record s { manager = m }) l u
        → Run s ((id, r) ∷ l) u

  -- What the queries are answered when they are computed one after the other.
  pub data Answers : G → List (ℕ × Q) → List (ℕ × R) → G → Type 0 where
    no_query : {g : G} → Answers g [] [] g
    next_query :
        {g g' g'' : G} {qs : List (ℕ × Q)} {rs : List (ℕ × R)} (id : ℕ) (q : Q) (r : R)
        → Computes g id q r g'
        → Answers g' qs rs g''
        → Answers g ((id, q) ∷ qs) ((id, r) ∷ rs) g''

  -- all is as before, but no query waits, and the global variables are these
  pub record Drained (g : G) (s t : System Q R G) : Type 0 where
    pub queries : t.manager.qque ≡ []
    pub results : t.manager.rque ≡ s.manager.rque
    pub threads : t.waiting ≡ s.waiting
    pub computing : t.running ≡ s.running
    pub globals : t.shared ≡ g

  inserted :
      (id : ℕ) (r : R) (rque : List (ℕ × R))
      → Sorted rque
      → get id rque ≡ none
      → pop_key id (emplace id r rque) ≡ some (r, rque)
  unfolding push get
  inserted id r rque sorted new =
      let (rque', pushed, (_, _, _, back)) = push-pop_key id r rque sorted new in
      let same : emplace id r rque ≡ rque' = ok_inj (rw (push, new) at pushed) in rw same back

  pub drain :
      (g g' : G) (qque : List (ℕ × Q)) (rs : List (ℕ × R)) (s : System Q R G) (n : ℕ)
      → Answers g qque rs g'
      → s.manager.qque ≡ qque
      → s.shared ≡ g
      → Sorted s.manager.rque
      → s.waiting ≡ suc n
      → Unanswered qque s.manager.rque
      → (t : System Q R G) × Run s rs t × Drained g' s t
  unfolding pop try_pop_result get
  drain g g' qque rs s n no_query e eg sorted w free = (
    s,
    stop,
    record { queries = e; results = refl; threads = refl; computing = refl; globals = eg },
  )
  drain g g' qque rs s n (next_query {g' = h} {qs = qs} {rs = rest} id q r computes others) e eg
        sorted w free =
      let front : pop s.manager.qque ≡ some ((id, q), qs) = rw e refl in
      let back = inserted id r s.manager.rque sorted free.0 in
      let taken : System Q R G = record s {
        manager = record s.manager { qque = qs };
        waiting = n;
        running = (id, q) ∷ s.running;
      } in
      let computed : System Q R G = record taken {
        shared = h;
        running = s.running;
        answered = (id, r) ∷ s.answered;
      } in
      let finished : System Q R G = record computed {
        manager = record taken.manager { rque = emplace id r s.manager.rque };
        waiting = suc n;
        answered = s.answered;
      } in
      let emptied : Manager Q R = record taken.manager { rque = s.manager.rque } in
      let popped : try_pop_result id finished.manager ≡ some (r, emptied) =
        rw (try_pop_result, back) refl in
      let (t, run, d) =
        drain h g' qs rest (record finished { manager = emptied }) n others refl refl sorted refl
          free.1 in
      (
        t,
        silent (take id q qs n w front) (
            silent
              (answer id q r h [] s.running refl
                (subst (λ k. Computes k id q r h) (sym eg) computes) free.0)
              (silent (finish id r [] s.answered refl) (collected id r emptied popped run))),
        record {
          queries = d.queries;
          results = d.results;
          threads = d.threads ∙ sym w;
          computing = d.computing;
          globals = d.globals;
        },
      )
