-- ===== src/Server/System/Execution.antt =====
-- The server with the threads of ppcnn/ppcnn_server/ppcnn_server_calcthread.cpp: what a thread leaves
-- for a query is what `exec` computes for it.
use pp_cnn.Prelude.{ℕ, suc, ◌≡◌, refl, subst, List, [], ◌∷◌, Result, ok, ◌>>=◌, >>=-inv, ok_inj}
use pp_cnn.Seal.{Seal}
use pp_cnn.Cnn.Floats.{FloatOps}
use pp_cnn.Cnn.Geometry.{Axis}
use pp_cnn.Cnn.Build.{NextLayer}
use pp_cnn.Server.CalcManager.{Query, CalcResult}
use pp_cnn.Server.CalcThread.{ComputationParams, ModelFiles, exec_round}
use pp_cnn.Server.System.{System, Reachable}
use pp_cnn.Server.System.Bounds.{Reachable-Bounded}
use pp_cnn.Server.System.Progress.{Unanswered, Run, Answers, no_query, next_query, drain}

module _ (seal : Seal) (ops : FloatOps seal.Float) (uninit : Axis)
    (blank_plaintext : seal.Plaintext) (Keys : Type 0) where
  open seal use {Float, Ciphertext}

  abbrev pub Asked : Type 0
  Asked = Query Ciphertext Keys ComputationParams

  -- The files that the parameters of a query name, and the time at which its result is made.
  module _ (files : Asked → ModelFiles Float) (clock : ℕ → Asked → ℕ) where
    -- A thread that computes a query: `exec` returns.
    abbrev pub Computed : NextLayer → ℕ → Asked → CalcResult Ciphertext → NextLayer → Type 0
    Computed next id query result next' =
        exec_round seal ops uninit blank_plaintext (files query) (clock id query) id query next
        ≡ ok (result, next')

    -- The queries computed one after the other, from the global variables that the one before left.
    unfoldable pub answer_all :
        List (ℕ × Asked) → NextLayer → Result (List (ℕ × CalcResult Ciphertext) × NextLayer)
    answer_all [] next = ok ([], next)
    answer_all ((id, query) ∷ queries) next = do
      (result, next') ←
          exec_round seal ops uninit blank_plaintext (files query) (clock id query) id query next
      (results, next'') ← answer_all queries next'
      ok ((id, result) ∷ results, next'')

    answer_all-Answers :
        (queries : List (ℕ × Asked)) (next next' : NextLayer)
        (results : List (ℕ × CalcResult Ciphertext))
        → answer_all queries next ≡ ok (results, next')
        → Answers Computed next queries results next'
    unfolding answer_all
    answer_all-Answers [] next next' results e =
        subst (λ p. Answers Computed next [] p.0 p.1) (ok_inj e) no_query
    answer_all-Answers ((id, query) ∷ queries) next next' results e =
        let ((result, between), computed, rest) = >>=-inv _ _ (results, next') e in
        let ((others, last), answered, same) = >>=-inv _ _ (results, next') rest in
        subst (λ p. Answers Computed next ((id, query) ∷ queries) p.0 p.1) (ok_inj same)
          (next_query id query result computed
            (answer_all-Answers queries between last others answered))

    -- From every state that the server reaches in which a thread waits and no query that waits has the
    -- identifier of a result: if the queries that wait can be computed one after the other, from the
    -- global variables of the state, then there is a run in which a thread computes them and just
    -- those results are collected, in the order of the queue. It ends with no query waiting, with the
    -- results, the threads and the computations of before, and with the global variables that the
    -- last computation leaves.
    pub Reachable-Run :
        (a b c k n : ℕ) (g next : NextLayer) (s : System Asked (CalcResult Ciphertext) NextLayer)
        (m : ℕ) (results : List (ℕ × CalcResult Ciphertext))
        → Reachable Computed a b c k n g s
        → s.waiting ≡ suc m
        → Unanswered s.manager.qque s.manager.rque
        → answer_all s.manager.qque s.shared ≡ ok (results, next)
        → (t : System Asked (CalcResult Ciphertext) NextLayer) × Run Computed s results t
          × (t.manager.qque ≡ [])
          × (t.manager.rque ≡ s.manager.rque)
          × (t.waiting ≡ s.waiting)
          × (t.running ≡ s.running)
          × (t.shared ≡ next)
    Reachable-Run a b c k n g next s m results reached w free answered =
        let bounds = Reachable-Bounded Computed a b c k n g s reached in
        let (t, run, d) =
          drain Computed s.shared next s.manager.qque results s m
            (answer_all-Answers s.manager.qque s.shared next results answered) refl refl
            bounds.ordered.results w free in
        (t, run, d.queries, d.results, d.threads, d.computing, d.globals)
