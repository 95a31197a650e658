-- ===== src/Jobs/Postgres/Reclaims.antt =====
-- The release of leases that have run out, by both dispatchers: `reclaim_expired` of
-- apps/api/app/jobs/dispatcher.py.
use zero_node.Prelude.{ℕ, ◌≤◌, ◌≡◌, refl, List, [], ◌∷◌, arith, if◌then◌else◌}
use zero_node.Jobs.State.{MemoryJob, InMemoryDispatcher}
use zero_node.Jobs.Dispatcher.{release, count_expired, reclaim_expired}
use zero_node.Jobs.Postgres.{
  JobRow, Database, PostgresDispatcher, count_where, row_expired, release_row, reclaim_rows,
  pg_reclaim_expired,
}
use zero_node.Jobs.Postgres.Simulation.{Matches, Matches-map, release-Twin}
use zero_node.Jobs.Postgres.InStep.{Sim, written}

module _ {J : Type 0} where
  count-eq :
      (clock now : ℕ) (js : List (MemoryJob J)) (rs : List (JobRow J))
      → Matches clock js rs
      → count_expired now js ≡ count_where (row_expired now) rs
  count-eq clock now [] [] h = refl
  count-eq clock now [] (r ∷ rs) h = absurd h
  count-eq clock now (j ∷ js) [] h = absurd h
  count-eq clock now (j ∷ js) (r ∷ rs) h = ground (arith, count-eq clock now js rs h.1)

  pub reclaim_refines :
      (clock now : ℕ) (d : PostgresDispatcher) (s : InMemoryDispatcher J) (db : Database J)
      → clock ≤ now
      → Sim clock d s db
      → Sim now d (reclaim_expired now s).0 (pg_reclaim_expired now db).0
        × ((reclaim_expired now s).1 ≡ (pg_reclaim_expired now db).1)
  unfolding reclaim_expired pg_reclaim_expired reclaim_rows
  reclaim_refines clock now d s db le h = (
    written clock now d s db (release now) (λ r. if row_expired now r then release_row now r else r)
        (λ j. ground arith) (λ r. (ground arith, ground arith))
        (Matches-map clock now (release now)
          (λ r. if row_expired now r then release_row now r else r) s.jobs db.investigation_jobs
          (λ j r e. release-Twin clock now j r le e) h.matches)
        h,
    count-eq clock now s.jobs db.investigation_jobs h.matches,
  )
