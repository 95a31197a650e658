-- ===== src/Jobs/Postgres/InStep.antt =====
-- The two dispatchers in step, and what keeps them so: apps/api/app/jobs/dispatcher.py.
use zero_node.Prelude.{
  ℕ, ◌≤◌, ◌<◌, String, ◌≡◌, refl, sym, ◌∙◌, Bool, true, false, Option, none, some, List, [], ◌∷◌,
  map, exists, All, arith, lookup,
}
use zero_node.Jobs.State.{MemoryJob, InMemoryDispatcher}
use zero_node.Jobs.Dispatcher.Order.{IsAscending, map-IsAscending}
use zero_node.Jobs.Postgres.{JobRow, Database, PostgresDispatcher, has_key}
use zero_node.Jobs.Postgres.Simulation.{Matches, RowsAbove, RowsAscend, later}

abbrev pub is_some {ℓ} : {A : Type ℓ} → Option A → Bool
is_some none = false
is_some (some x) = true

module _ {J : Type 0} where
  pub record Sim (clock : ℕ) (d : PostgresDispatcher) (s : InMemoryDispatcher J) (db : Database J)
      : Type 0 where
    pub capacity_eq : s.capacity ≡ d.capacity
    pub max_eq : s.max_attempts ≡ d.max_attempts
    pub ascending : IsAscending s.jobs
    pub below : All (λ j. j.id < s.next_id) s.jobs
    pub rows_ascending : RowsAscend db.investigation_jobs
    pub rows_below : All (λ r. r.id < db.next_id) db.investigation_jobs
    pub matches : Matches clock s.jobs db.investigation_jobs
    pub known :
        (key : String) → is_some (lookup key s.by_key) ≡ exists (has_key key) db.investigation_jobs
    pub workers_eq : s.workers ≡ db.worker_heartbeats
    pub executions_eq : s.executions ≡ db.execution_results

  -- A write that keeps the ids of the rows.
  abbrev KeepsRow : (JobRow J → JobRow J) → Type 0
  KeepsRow g = (r : JobRow J) → ((g r).id ≡ r.id) × ((g r).entry.dedupe_key ≡ r.entry.dedupe_key)

  rows-Above :
      (n : ℕ) (g : JobRow J → JobRow J) (rs : List (JobRow J))
      → KeepsRow g
      → RowsAbove n rs
      → RowsAbove n (map g rs)
  rows-Above n g [] k h = tt
  rows-Above n g (r ∷ rs) k h = (rw ((k r).0) h.0, rows-Above n g rs k h.1)

  rows-Ascend :
      (g : JobRow J → JobRow J) (rs : List (JobRow J))
      → KeepsRow g
      → RowsAscend rs
      → RowsAscend (map g rs)
  rows-Ascend g [] k h = tt
  rows-Ascend g (r ∷ rs) k h = (rw ((k r).0) (rows-Above r.id g rs k h.0), rows-Ascend g rs k h.1)

  rows-Below :
      (n : ℕ) (g : JobRow J → JobRow J) (rs : List (JobRow J))
      → KeepsRow g
      → All (λ r. r.id < n) rs
      → All (λ r. r.id < n) (map g rs)
  rows-Below n g [] k h = tt
  rows-Below n g (r ∷ rs) k h = (rw ((k r).0) h.0, rows-Below n g rs k h.1)

  rows-known :
      (key : String) (g : JobRow J → JobRow J) (rs : List (JobRow J))
      → KeepsRow g
      → exists (has_key key) (map g rs) ≡ exists (has_key key) rs
  rows-known key g [] k = refl
  rows-known key g (r ∷ rs) k = ground (arith, (k r).1, rows-known key g rs k)

  jobs-Below :
      (n : ℕ) (f : MemoryJob J → MemoryJob J) (js : List (MemoryJob J))
      → ((j : MemoryJob J) → (f j).id ≡ j.id)
      → All (λ j. j.id < n) js
      → All (λ j. j.id < n) (map f js)
  jobs-Below n f [] k h = tt
  jobs-Below n f (j ∷ js) k h = (rw (k j) h.0, jobs-Below n f js k h.1)

  -- Writes to the jobs and the rows that keep the ids and the keys, and match, keep the two in step.
  pub written :
      (clock now : ℕ) (d : PostgresDispatcher) (s : InMemoryDispatcher J) (db : Database J)
      (f : MemoryJob J → MemoryJob J) (g : JobRow J → JobRow J)
      → ((j : MemoryJob J) → (f j).id ≡ j.id)
      → KeepsRow g
      → Matches now (map f s.jobs) (map g db.investigation_jobs)
      → Sim clock d s db
      → Sim now d
          (record s { jobs = map f s.jobs })
          (record db { investigation_jobs = map g db.investigation_jobs })
  written clock now d s db f g kf kg m h = record {
    capacity_eq = h.capacity_eq;
    max_eq = h.max_eq;
    ascending = map-IsAscending f s.jobs kf h.ascending;
    below = jobs-Below s.next_id f s.jobs kf h.below;
    rows_ascending = rows-Ascend g db.investigation_jobs kg h.rows_ascending;
    rows_below = rows-Below db.next_id g db.investigation_jobs kg h.rows_below;
    matches = m;
    known = λ key. h.known key ∙ sym (rows-known key g db.investigation_jobs kg);
    workers_eq = h.workers_eq;
    executions_eq = h.executions_eq;
  }

  -- The clock has moved on.
  Matches-later :
      (clock now : ℕ) (js : List (MemoryJob J)) (rs : List (JobRow J))
      → clock ≤ now
      → Matches clock js rs
      → Matches now js rs
  Matches-later clock now [] [] le h = tt
  Matches-later clock now [] (r ∷ rs) le h = h
  Matches-later clock now (j ∷ js) [] le h = h
  Matches-later clock now (j ∷ js) (r ∷ rs) le h =
      (later clock now j r le h.0, Matches-later clock now js rs le h.1)

  pub Sim-later :
      (clock now : ℕ) (d : PostgresDispatcher) (s : InMemoryDispatcher J) (db : Database J)
      → clock ≤ now
      → Sim clock d s db
      → Sim now d s db
  Sim-later clock now d s db le h = record {
    capacity_eq = h.capacity_eq;
    max_eq = h.max_eq;
    ascending = h.ascending;
    below = h.below;
    rows_ascending = h.rows_ascending;
    rows_below = h.rows_below;
    matches = Matches-later clock now s.jobs db.investigation_jobs le h.matches;
    known = h.known;
    workers_eq = h.workers_eq;
    executions_eq = h.executions_eq;
  }
