-- ===== src/Jobs/Postgres/Writes.antt =====
-- The calls that write one job, in both dispatchers: apps/api/app/jobs/dispatcher.py.
use zero_node.Prelude.{
  ℕ, ◌≤◌, String, ◌≡◌, refl, sym, ap, ◌∙◌, some, List, [], ◌∷◌, All, inl, inr, Bool-cases, arith,
  ◌==◌, leb, if◌then◌else◌,
}
use zero_node.Jobs.State.{Status, Job, MemoryJob, InMemoryDispatcher}
use zero_node.Jobs.Dispatcher.{find_job, update_job, failed, complete, fail}
use zero_node.Jobs.Dispatcher.Shapes.{finished, complete_shape, fail_shape, fail_status}
use zero_node.Jobs.Postgres.{
  JobRow, Database, PostgresDispatcher, update_where, succeed_row, bury_row, retry_row, pg_complete,
  complete_job, fail_job, pg_fail,
}
use zero_node.Jobs.Postgres.Simulation.{Twin, Matches, SameJob, later, Matches-update}
use zero_node.Jobs.Postgres.InStep.{Sim, written}

module _ {J : Type 0} where
  pub complete_refines :
      (clock now k m : ℕ) (d : PostgresDispatcher) (s t : InMemoryDispatcher J) (db : Database J)
      → clock ≤ now
      → Sim clock d s db
      → SameJob k m s.jobs db.investigation_jobs
      → complete k s ≡ some t
      → Sim now d t (pg_complete now m db)
  unfolding pg_complete
  complete_refines clock now k m d s t db le h same e =
      rw (complete_shape k s t e, complete_job)
        (written clock now d s db (λ j. if j.id == k then finished k s j else j)
          (λ r. if r.id == m then succeed_row now r else r) (λ j. ground arith)
          (λ r. (ground arith, ground arith))
          (Matches-update clock now k m (finished k s) (succeed_row now) s.jobs
            db.investigation_jobs le (λ j r e. ground arith) same h.matches)
          h)

  -- The job that the worker was given says what the stored one says.
  abbrev pub UpToDate : ℕ → Job J → List (MemoryJob J) → Type 0
  UpToDate k job =
      All (λ j. j.id ≡ k → (j.attempts ≡ job.attempts) × (j.max_attempts ≡ job.max_attempts))

  failed_row : ℕ → Job J → String → ℕ → JobRow J → JobRow J
  failed_row now job error delay r =
      if leb job.max_attempts job.attempts
      then bury_row now error r
      else retry_row now error delay r

  failed-Twin :
      (clock now k : ℕ) (job : Job J) (error : String) (delay : ℕ) (j : MemoryJob J) (r : JobRow J)
      → clock ≤ now
      → (j.attempts ≡ job.attempts) × (j.max_attempts ≡ job.max_attempts)
      → Twin clock j r
      → Twin now (failed now error delay j) (failed_row now job error delay r)
  unfolding failed_row
  failed-Twin clock now k job error delay j r le (e, e') t = ground arith

  Matches-failed :
      (clock now k m : ℕ) (job : Job J) (error : String) (delay : ℕ) (js : List (MemoryJob J))
      (rs : List (JobRow J))
      → clock ≤ now
      → UpToDate k job js
      → SameJob k m js rs
      → Matches clock js rs
      → Matches now
          (update_job k (failed now error delay) js)
          (update_where (λ r. r.id == m) (failed_row now job error delay) rs)
  Matches-failed clock now k m job error delay [] [] le u same h = tt
  Matches-failed clock now k m job error delay [] (r ∷ rs) le u same h = h
  Matches-failed clock now k m job error delay (j ∷ js) [] le u same h = h
  Matches-failed clock now k m job error delay (j ∷ js) (r ∷ rs) le u same h =
      let rest = Matches-failed clock now k m job error delay js rs le u.1 same.1 h.1 in
      elim (Bool-cases (j.id == k)) [
        | inl this ↦
            rw (this, sym same.0 ∙ this)
              (failed-Twin clock now k job error delay j r le (u.0 (ground arith)) h.0, rest)
        | inr other ↦ rw (other, sym same.0 ∙ other) (later clock now j r le h.0, rest)
      ]

  pg_fail-shape :
      (now : ℕ) (job : Job J) (error : String) (delay : ℕ) (db : Database J)
      → pg_fail now job error delay db ≡ (
        record db {
          investigation_jobs =
              update_where
                (λ r. r.id == job.id)
                (failed_row now job error delay)
                db.investigation_jobs;
        },
        (if leb job.max_attempts job.attempts then Status.dead else Status.queued),
      )
  unfolding pg_fail fail_job failed_row
  pg_fail-shape now job error delay db = elim (Bool-cases (leb job.max_attempts job.attempts)) [
    | inl over ↦ rw (over, pg_fail, fail_job, failed_row) refl
    | inr more ↦ rw (more, pg_fail, fail_job, failed_row) refl
  ]

  keeps_failed :
      (now : ℕ) (job : Job J) (error : String) (delay : ℕ) (r : JobRow J)
      → let q = if r.id == job.id then failed_row now job error delay r else r in
        (q.id ≡ r.id) × (q.entry.dedupe_key ≡ r.entry.dedupe_key)
  unfolding failed_row
  keeps_failed now job error delay r = (ground arith, ground arith)

  found-UpToDate :
      (k : ℕ) (job : Job J) (js : List (MemoryJob J)) (j : MemoryJob J)
      → UpToDate k job js
      → find_job k js ≡ some j
      → (j.attempts ≡ job.attempts) × (j.max_attempts ≡ job.max_attempts)
  found-UpToDate k job [] j u e = cc
  found-UpToDate k job (x ∷ xs) j u e = elim (Bool-cases (x.id == k)) [
    | inl this ↦
        let same : x ≡ j = ground arith in
        let (a, b) = u.0 (ground arith) in
        (ap (λ y. y.attempts) (sym same) ∙ a, ap (λ y. y.max_attempts) (sym same) ∙ b)
    | inr other ↦ found-UpToDate k job xs j u.1 (ground arith)
  ]

  pub fail_refines :
      (clock now k : ℕ) (job : Job J) (error : String) (delay : ℕ) (d : PostgresDispatcher)
      (s t : InMemoryDispatcher J) (status : Status) (db : Database J)
      → clock ≤ now
      → Sim clock d s db
      → SameJob k job.id s.jobs db.investigation_jobs
      → UpToDate k job s.jobs
      → fail now k error delay s ≡ some (t, status)
      → Sim now d t (pg_fail now job error delay db).0
        × (status ≡ (pg_fail now job error delay db).1)
  fail_refines clock now k job error delay d s t status db le h same u e =
      let (j, found, is) = fail_status k s now error delay t status e in
      let (a, b) = found-UpToDate k job s.jobs j u found in
      let status_eq : status
          ≡ (if leb job.max_attempts job.attempts then Status.dead else Status.queued) =
        ground arith in
      rw (fail_shape k s now error delay t status e, pg_fail-shape now job error delay db)
        (
          written clock now d s db (λ j. if j.id == k then failed now error delay j else j)
              (λ r. if r.id == job.id then failed_row now job error delay r else r)
              (λ j. ground arith) (λ r. keeps_failed now job error delay r)
              (Matches-failed clock now k job.id job error delay s.jobs db.investigation_jobs le u
                same h.matches)
              h,
          status_eq,
        )
