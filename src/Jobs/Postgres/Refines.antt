-- ===== src/Jobs/Postgres/Refines.antt =====
-- The calls of the two dispatchers side by side: apps/api/app/jobs/dispatcher.py.
use zero_node.Prelude.{
  ℕ, ◌≤◌, String, ◌≡◌, refl, ◌∙◌, Bool, true, false, not, ◌&&◌, Option, none, some, map, first, All,
  inl, inr, Option-cases, arith, ◌==◌, if◌then◌else◌,
}
use zero_node.Jobs.State.{Job, MemoryJob, InMemoryDispatcher, Enqueued, done, queue_full}
use zero_node.Jobs.Dispatcher.{update_job, claim, requeue, lease, is_ready, snapshot}
use zero_node.Jobs.Dispatcher.Order.{IsAscending, sort-ascending, map-IsAscending}
use zero_node.Jobs.Postgres.{
  JobRow, Database, PostgresDispatcher, row_job, update_where, row_ready, row_expired, release_row,
  lease_row, claim_next, select_for_update, reclaim_rows, pg_claim,
}
use zero_node.Jobs.Postgres.Simulation.{
  Twin, RowsAscend, requeue-Twin, lease-Twin, ready-Twin, Matches-map, Matches-ready, first-passes,
  least-eq-first, first-twins, FirstTwins,
}
use zero_node.Jobs.Postgres.InStep.{Sim, written}

-- What a client sees of an answer: not the ids, which each dispatcher gives out by itself.
abbrev pub SameAnswer : Enqueued → Enqueued → Type 0
SameAnswer (done k created) (done m created') = created ≡ created'
SameAnswer (queue_full n c) (queue_full n' c') = (n ≡ n') × (c ≡ c')
SameAnswer _ _ = ⊥

module _ {J : Type 0} where
  abbrev pub seen : Option (Job J) → Option (Job J)
  seen none = none
  seen (some job) = some (record job { id = 0 })

  -- The two claims, by the first job that is due.
  abbrev mem_after :
      ℕ
      → String
      → ℕ
      → InMemoryDispatcher J
      → Option (MemoryJob J)
      → InMemoryDispatcher J × Option (Job J)
  mem_after now w l s none = (s, none)
  mem_after now w l s (some job) = (
    record s { jobs = update_job job.id (lease now w l) s.jobs },
    some (snapshot (lease now w l job)),
  )

  abbrev pg_after : ℕ → String → ℕ → Database J → Option (JobRow J) → Database J × Option (Job J)
  pg_after now w l db none = (db, none)
  pg_after now w l db (some r) = (
    record db {
      investigation_jobs =
          update_where (λ q. q.id == r.id) (lease_row now w l) db.investigation_jobs;
    },
    some (row_job (lease_row now w l r)),
  )

  abbrev due_row : ℕ → JobRow J → Bool
  due_row now r = row_ready now r && not false

  seen-Twin :
      (now : ℕ) (w : String) (l : ℕ) (a : MemoryJob J) (b : JobRow J)
      → Twin now a b
      → seen (some (snapshot (lease now w l a))) ≡ seen (some (row_job (lease_row now w l b)))
  seen-Twin now w l a b t = ground arith

  after-Sim :
      (now : ℕ) (w : String) (l : ℕ) (d : PostgresDispatcher) (s : InMemoryDispatcher J)
      (db : Database J) (a : Option (MemoryJob J)) (b : Option (JobRow J))
      → Sim now d s db
      → FirstTwins now s.jobs db.investigation_jobs a b
      → ((x : MemoryJob J) → a ≡ some x → All (λ j. j.id ≡ x.id → is_ready now j ≡ true) s.jobs)
      → Sim now d (mem_after now w l s a).0 (pg_after now w l db b).0
        × (seen (mem_after now w l s a).1 ≡ seen (pg_after now w l db b).1)
  after-Sim now w l d s db none none h t ready = (h, refl)
  after-Sim now w l d s db none (some b) h t ready = absurd t
  after-Sim now w l d s db (some a) none h t ready = absurd t
  after-Sim now w l d s db (some a) (some b) h t ready = (
    written now now d s db (λ j. if j.id == a.id then lease now w l j else j)
        (λ q. if q.id == b.id then lease_row now w l q else q) (λ j. ground arith)
        (λ q. (ground arith, ground arith))
        (Matches-ready now a.id b.id (lease now w l) (lease_row now w l) s.jobs
          db.investigation_jobs (λ j r due e. lease-Twin now w l j r due e) (ready a refl) t.1
          h.matches)
        h,
    seen-Twin now w l a b t.0,
  )

  abbrev released : ℕ → InMemoryDispatcher J → InMemoryDispatcher J
  released now s = record s { jobs = map (requeue now) s.jobs }

  abbrev pg_released : ℕ → Database J → Database J
  pg_released now db = record db {
    investigation_jobs = update_where (row_expired now) (release_row now) db.investigation_jobs;
  }

  released-Sim :
      (clock now : ℕ) (d : PostgresDispatcher) (s : InMemoryDispatcher J) (db : Database J)
      → clock ≤ now
      → Sim clock d s db
      → Sim now d (released now s) (pg_released now db)
  released-Sim clock now d s db le h =
      written clock now d s db (requeue now)
        (λ r. if row_expired now r then release_row now r else r) (λ j. ground arith)
        (λ r. (ground arith, ground arith))
        (Matches-map clock now (requeue now)
          (λ r. if row_expired now r then release_row now r else r) s.jobs db.investigation_jobs
          (λ j r e. requeue-Twin clock now j r le e) h.matches)
        h

  claim-shape :
      (now : ℕ) (w : String) (l : ℕ) (s : InMemoryDispatcher J)
      → IsAscending s.jobs
      → claim now w l s
        ≡ mem_after now w l (released now s) (first (is_ready now) (map (requeue now) s.jobs))
  unfolding claim
  claim-shape now w l s h =
      rw
        (
          sort-ascending (map (requeue now) s.jobs)
              (map-IsAscending (requeue now) s.jobs (λ j. ground arith) h),
          claim,
        )
        (elim (Option-cases (first (is_ready now) (map (requeue now) s.jobs))) [
          | inl idle ↦ rw (idle, claim, mem_after) refl
          | inr (job, found) ↦ rw (found, claim, mem_after) refl
        ])

  pg_claim-shape :
      (now : ℕ) (w : String) (l : ℕ) (db : Database J)
      → RowsAscend (pg_released now db).investigation_jobs
      → pg_claim (λ _. false) now w l db
        ≡ pg_after now w l
            (pg_released now db)
            (first (due_row now) (pg_released now db).investigation_jobs)
  unfolding pg_claim reclaim_rows claim_next select_for_update
  pg_claim-shape now w l db h =
      rw
        (
          least-eq-first (due_row now) (pg_released now db).investigation_jobs h,
          pg_claim,
          claim_next,
          select_for_update,
        )
        (elim (Option-cases (first (due_row now) (pg_released now db).investigation_jobs)) [
          | inl idle ↦ rw (idle, claim_next, select_for_update, pg_after) refl
          | inr (r, found) ↦ rw (found, claim_next, select_for_update, pg_after) refl
        ])

  pub claim_refines :
      (clock now : ℕ) (w : String) (l : ℕ) (d : PostgresDispatcher) (s : InMemoryDispatcher J)
      (db : Database J)
      → clock ≤ now
      → Sim clock d s db
      → Sim now d (claim now w l s).0 (pg_claim (λ _. false) now w l db).0
        × (seen (claim now w l s).1 ≡ seen (pg_claim (λ _. false) now w l db).1)
  claim_refines clock now w l d s db le h =
      let h1 = released-Sim clock now d s db le h in
      rw (claim-shape now w l s h.ascending, pg_claim-shape now w l db h1.rows_ascending)
        (after-Sim now w l d (released now s) (pg_released now db)
          (first (is_ready now) (map (requeue now) s.jobs))
          (first (due_row now) (pg_released now db).investigation_jobs) h1
          (first-twins now (is_ready now) (due_row now) (map (requeue now) s.jobs)
            (pg_released now db).investigation_jobs (λ j r e. ready-Twin now j r e ∙ ground arith)
            h1.ascending h1.rows_ascending h1.matches)
          (λ x e. first-passes (is_ready now) (map (requeue now) s.jobs) x h1.ascending e))
