-- ===== src/Jobs/Postgres/Errors.antt =====
-- The last error of a thread, as both dispatchers read it: `latest_error` of
-- apps/api/app/jobs/dispatcher.py.
use zero_node.Prelude.{
  ℕ, ◌<◌, String, ◌≡◌, refl, sym, ap, ◌∙◌, transport, Bool, true, false, Option, none, some, List,
  [], ◌∷◌, inl, inr, Bool-cases, Option-cases, arith, leb, ltb, str_eq,
}
use zero_node.Jobs.State.{Job, MemoryJob, InMemoryDispatcher}
use zero_node.Jobs.Dispatcher.Order.{IsAscending, Above}
use zero_node.Jobs.Dispatcher.Reads.{newest, jobs_of, newest_error, latest_error, error_of}
use zero_node.Jobs.Postgres.{
  JobRow, Database, PostgresDispatcher, row_job, greatest_id, select_where, error_of_latest,
  latest_job_for_thread, pg_latest_error,
}
use zero_node.Jobs.Postgres.Simulation.{Twin, Matches, RowsAbove, RowsAscend}
use zero_node.Jobs.Postgres.InStep.{Sim}

module _ {J : Type 0} where
  abbrev of_thread : String → JobRow J → Bool
  of_thread thread_id r = str_eq r.entry.thread_id thread_id

  abbrev rows_of : String → List (JobRow J) → List (JobRow J)
  rows_of thread_id = select_where (of_thread thread_id)

  Above-of : (n : ℕ) (t : String) (js : List (MemoryJob J)) → Above n js → Above n (jobs_of t js)
  Above-of n t [] h = tt
  Above-of n t (j ∷ js) h = elim (Bool-cases (str_eq j.thread_id t)) [
    | inl mine ↦ rw mine (h.0, Above-of n t js h.1)
    | inr other ↦ rw other (Above-of n t js h.1)
  ]

  Ascending-of :
      (t : String) (js : List (MemoryJob J)) → IsAscending js → IsAscending (jobs_of t js)
  Ascending-of t [] h = tt
  Ascending-of t (j ∷ js) h = elim (Bool-cases (str_eq j.thread_id t)) [
    | inl mine ↦ rw mine (Above-of j.id t js h.0, Ascending-of t js h.1)
    | inr other ↦ rw other (Ascending-of t js h.1)
  ]

  RowsAbove-of :
      (n : ℕ) (t : String) (rs : List (JobRow J)) → RowsAbove n rs → RowsAbove n (rows_of t rs)
  RowsAbove-of n t [] h = tt
  RowsAbove-of n t (r ∷ rs) h = elim (Bool-cases (str_eq r.entry.thread_id t)) [
    | inl mine ↦ rw mine (h.0, RowsAbove-of n t rs h.1)
    | inr other ↦ rw other (RowsAbove-of n t rs h.1)
  ]

  RowsAscend-of : (t : String) (rs : List (JobRow J)) → RowsAscend rs → RowsAscend (rows_of t rs)
  RowsAscend-of t [] h = tt
  RowsAscend-of t (r ∷ rs) h = elim (Bool-cases (str_eq r.entry.thread_id t)) [
    | inl mine ↦ rw mine (RowsAbove-of r.id t rs h.0, RowsAscend-of t rs h.1)
    | inr other ↦ rw other (RowsAscend-of t rs h.1)
  ]

  Matches-of :
      (clock : ℕ) (t : String) (js : List (MemoryJob J)) (rs : List (JobRow J))
      → Matches clock js rs
      → Matches clock (jobs_of t js) (rows_of t rs)
  Matches-of clock t [] [] h = tt
  Matches-of clock t [] (r ∷ rs) h = absurd h
  Matches-of clock t (j ∷ js) [] h = absurd h
  Matches-of clock t (j ∷ js) (r ∷ rs) h =
      let same : str_eq r.entry.thread_id t ≡ str_eq j.thread_id t =
        ap (λ x. str_eq x t) (sym h.0.thread_eq) in
      elim (Bool-cases (str_eq j.thread_id t)) [
        | inl mine ↦ rw (mine, same ∙ mine) (h.0, Matches-of clock t js rs h.1)
        | inr other ↦ rw (other, same ∙ other) (Matches-of clock t js rs h.1)
      ]

  above-greatest :
      (n : ℕ) (rs : List (JobRow J)) (x : JobRow J)
      → RowsAbove n rs
      → greatest_id rs ≡ some x
      → n < x.id
  above-greatest n [] x h e = cc
  above-greatest n (r ∷ rs) x h e = elim (Option-cases (greatest_id rs)) [
    | inl alone ↦ ground (arith, h.0)
    | inr (q, found) ↦ elim (Bool-cases (leb q.id r.id)) [
      | inl larger ↦ ground (arith, h.0)
      | inr smaller ↦ above-greatest n rs x h.1 (ground arith)
    ]
  ]

  abbrev option_job : Option (JobRow J) → Option (Job J)
  option_job none = none
  option_job (some r) = some (row_job r)

  latest-shape :
      (t : String) (rows : List (JobRow J))
      → latest_job_for_thread t rows ≡ option_job (greatest_id (rows_of t rows))
  unfolding latest_job_for_thread
  latest-shape t rows = elim (Option-cases (greatest_id (rows_of t rows))) [
    | inl empty ↦ rw (empty, latest_job_for_thread, option_job) refl
    | inr (r, found) ↦ rw (found, latest_job_for_thread, option_job) refl
  ]

  newest_next :
      (j k : MemoryJob J) (js : List (MemoryJob J)) → j.id < k.id → newest j (k ∷ js) ≡ newest k js
  newest_next j k js h =
      let larger : ltb j.id k.id ≡ true = ground arith in rw (larger, newest) refl

  dead-Twin :
      (clock : ℕ) (j : MemoryJob J) (r : JobRow J)
      → Twin clock j r
      → error_of j ≡ error_of_latest (some (row_job r))
  dead-Twin clock j r t = ground arith

  -- The last of matching jobs and rows that ascend is the newest on both sides.
  newest-Twin :
      (clock : ℕ) (j : MemoryJob J) (js : List (MemoryJob J)) (r : JobRow J) (rs : List (JobRow J))
      → IsAscending (j ∷ js)
      → RowsAscend (r ∷ rs)
      → Matches clock (j ∷ js) (r ∷ rs)
      → (x : JobRow J) × (greatest_id (r ∷ rs) ≡ some x) × Twin clock (newest j js) x
  newest-Twin clock j [] r [] a b h = (r, refl, h.0)
  newest-Twin clock j [] r (q ∷ rs) a b h = absurd h.1
  newest-Twin clock j (k ∷ js) r [] a b h = absurd h.1
  newest-Twin clock j (k ∷ js) r (q ∷ rs) a b h =
      let (x, found, twin) = newest-Twin clock k js q rs a.1 b.1 h.1 in
      let over : r.id < x.id = above-greatest r.id (q ∷ rs) x b.0 found in
      let small : leb x.id r.id ≡ false = ground arith in
      let first : j.id < k.id = a.0.0 in
      (
        x,
        ground (arith, found, small),
        transport (ap (λ y. Twin clock y x) (sym (newest_next j k js first))) twin,
      )

  error-Twin :
      (clock : ℕ) (js : List (MemoryJob J)) (rs : List (JobRow J))
      → IsAscending js
      → RowsAscend rs
      → Matches clock js rs
      → newest_error js ≡ error_of_latest (option_job (greatest_id rs))
  error-Twin clock [] [] a b h = refl
  error-Twin clock [] (r ∷ rs) a b h = absurd h
  error-Twin clock (j ∷ js) [] a b h = absurd h
  error-Twin clock (j ∷ js) (r ∷ rs) a b h =
      let (x, found, twin) = newest-Twin clock j js r rs a b h in
      dead-Twin clock (newest j js) x twin ∙ ap (λ o. error_of_latest (option_job o)) (sym found)

  pub latest_refines :
      (now : ℕ) (t : String) (d : PostgresDispatcher) (s : InMemoryDispatcher J) (db : Database J)
      → Sim now d s db
      → latest_error t s ≡ pg_latest_error t db
  unfolding latest_error pg_latest_error latest_job_for_thread
  latest_refines now t d s db h =
      error-Twin now (jobs_of t s.jobs) (rows_of t db.investigation_jobs)
        (Ascending-of t s.jobs h.ascending) (RowsAscend-of t db.investigation_jobs h.rows_ascending)
        (Matches-of now t s.jobs db.investigation_jobs h.matches)
      ∙ ap error_of_latest (sym (latest-shape t db.investigation_jobs))
