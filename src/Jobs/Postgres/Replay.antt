-- ===== src/Jobs/Postgres/Replay.antt =====
-- Whole runs of the two dispatchers: apps/api/app/jobs/dispatcher.py.
use zero_node.Prelude.{
  ℕ, ◌≤◌, String, ◌≡◌, refl, ap, transport, some, List, [], Option-cases, inl, inr, arith,
}
use zero_node.Jobs.State.{InMemoryDispatcher}
use zero_node.Jobs.Dispatcher.{complete, fail, touch_worker, put_execution, get_execution}
use zero_node.Jobs.Dispatcher.Invariant.{fresh}
use zero_node.Jobs.Postgres.{
  Database, PostgresDispatcher, pg_touch_worker, pg_put_execution, pg_get_execution,
}
use zero_node.Jobs.Postgres.InStep.{Sim, Sim-later}
use zero_node.Jobs.Postgres.Refines.{claim_refines}
use zero_node.Jobs.Postgres.Writes.{complete_refines, fail_refines}
use zero_node.Jobs.Postgres.Leases.{heartbeat_refines}
use zero_node.Jobs.Postgres.Simulation.{depth-eq}
use zero_node.Jobs.Postgres.Reclaims.{reclaim_refines}
use zero_node.Jobs.Postgres.Errors.{latest_refines}
use zero_node.Jobs.Postgres.Accepts.{enqueue_refines}
use zero_node.Jobs.Postgres.Calls.{
  Call, to_enqueue, to_claim, to_heartbeat, to_complete, to_fail, to_reclaim, to_depth, to_latest,
  to_touch, to_put, to_get, Answer, nothing, status, mem_call, pg_call, SameHandle, Agree, AllAgree,
  Runs, stop, call,
}

module _ {J : Type 0} where
  -- What holds of a result holds of what the call is known to have answered.
  carry :
      (now : ℕ) (d : PostgresDispatcher) (db : Database J) (b : Answer J)
      (x : InMemoryDispatcher J × Answer J) (t : InMemoryDispatcher J) (a : Answer J)
      → some x ≡ some (t, a)
      → Sim now d x.0 db × Agree x.1 b
      → Sim now d t db × Agree a b
  carry now d db b x t a e h =
      let is : x ≡ (t, a) = ground arith in
      transport (ap (λ y. Sim now d y.0 db × Agree y.1 b) is) h

  Sim-worker :
      (now : ℕ) (w : String) (n : ℕ) (meta : J) (d : PostgresDispatcher) (s : InMemoryDispatcher J)
      (db : Database J)
      → Sim now d s db
      → Sim now d (touch_worker now w n meta s) (pg_touch_worker now w n meta db)
  unfolding touch_worker pg_touch_worker
  Sim-worker now w n meta d s db h = record {
    capacity_eq = h.capacity_eq;
    max_eq = h.max_eq;
    ascending = h.ascending;
    below = h.below;
    rows_ascending = h.rows_ascending;
    rows_below = h.rows_below;
    matches = h.matches;
    known = h.known;
    workers_eq = rw h.workers_eq refl;
    executions_eq = h.executions_eq;
  }

  Sim-result :
      (now : ℕ) (key : String) (result : J) (d : PostgresDispatcher) (s : InMemoryDispatcher J)
      (db : Database J)
      → Sim now d s db
      → Sim now d (put_execution key result s) (pg_put_execution key result db)
  unfolding put_execution pg_put_execution
  Sim-result now key result d s db h = record {
    capacity_eq = h.capacity_eq;
    max_eq = h.max_eq;
    ascending = h.ascending;
    below = h.below;
    rows_ascending = h.rows_ascending;
    rows_below = h.rows_below;
    matches = h.matches;
    known = h.known;
    workers_eq = h.workers_eq;
    executions_eq = rw h.executions_eq refl;
  }

  same_execution :
      (now : ℕ) (key : String) (d : PostgresDispatcher) (s : InMemoryDispatcher J) (db : Database J)
      → Sim now d s db
      → get_execution key s ≡ pg_get_execution key db
  unfolding get_execution pg_get_execution
  same_execution now key d s db h = rw h.executions_eq refl

  pub call_refines :
      (clock now : ℕ) (d : PostgresDispatcher) (c : Call J) (s t : InMemoryDispatcher J)
      (a : Answer J) (db : Database J)
      → clock ≤ now
      → Sim clock d s db
      → SameHandle c s db
      → mem_call now c s ≡ some (t, a)
      → Sim now d t (pg_call d now c db).0 × Agree a (pg_call d now c db).1
  call_refines clock now d (to_enqueue kind th key p) s t a db le h same e =
      carry now d _ _ _ t a e (enqueue_refines clock now kind th key p d s db le h)
  call_refines clock now d (to_claim w l) s t a db le h same e =
      carry now d _ _ _ t a e (claim_refines clock now w l d s db le h)
  call_refines clock now d (to_heartbeat k m w l) s t a db le h same e =
      carry now d _ _ _ t a e (heartbeat_refines clock now k m w l d s db le h same)
  call_refines clock now d (to_complete k m) s t a db le h same e =
      elim (Option-cases (complete k s)) [
        | inl missing ↦ absurd (ground arith)
        | inr (u, finished) ↦
            carry now d _ _ (u, nothing) t a (ground arith)
              (complete_refines clock now k m d s u db le h same finished, tt)
      ]
  call_refines clock now d (to_fail k job error delay) s t a db le h same e =
      elim (Option-cases (fail now k error delay s)) [
        | inl missing ↦ absurd (ground arith)
        | inr ((u, st), failed) ↦
            carry now d _ _ (u, status st) t a (ground arith)
              (fail_refines clock now k job error delay d s u st db le h same.0 same.1 failed)
      ]
  call_refines clock now d to_reclaim s t a db le h same e =
      carry now d _ _ _ t a e (reclaim_refines clock now d s db le h)
  call_refines clock now d to_depth s t a db le h same e =
      let h1 = Sim-later clock now d s db le h in
      carry now d _ _ _ t a e (h1, depth-eq now s.jobs db.investigation_jobs h1.matches)
  call_refines clock now d (to_latest thread) s t a db le h same e =
      let h1 = Sim-later clock now d s db le h in
      carry now d _ _ _ t a e (h1, latest_refines now thread d s db h1)
  call_refines clock now d (to_touch w n meta) s t a db le h same e =
      carry now d _ _ _ t a e (Sim-worker now w n meta d s db (Sim-later clock now d s db le h), tt)
  call_refines clock now d (to_put key result) s t a db le h same e =
      carry now d _ _ _ t a e
        (Sim-result now key result d s db (Sim-later clock now d s db le h), tt)
  call_refines clock now d (to_get key) s t a db le h same e =
      let h1 = Sim-later clock now d s db le h in
      carry now d _ _ _ t a e (h1, same_execution now key d s db h1)

  run_refines :
      {d : PostgresDispatcher} {clock : ℕ} {s t : InMemoryDispatcher J} {db db' : Database J}
      {mine others : List (Answer J)}
      → Runs d clock s db mine others t db'
      → Sim clock d s db
      → AllAgree mine others
  run_refines stop h = tt
  run_refines {d} {clock} {s} {t} {db} (call {now = now} {t = u} {a = a} c le same e rest) h =
      let (h1, agrees) = call_refines clock now d c s u a db le h same e in
      (agrees, run_refines rest h1)

  abbrev pub empty : Database J
  empty = record {
    investigation_jobs = [];
    next_id = 1;
    worker_heartbeats = [];
    execution_results = [];
  }

  fresh-Sim : (d : PostgresDispatcher) → Sim {J = J} 0 d (fresh d.capacity d.max_attempts) empty
  fresh-Sim d = record {
    capacity_eq = refl;
    max_eq = refl;
    ascending = tt;
    below = tt;
    rows_ascending = tt;
    rows_below = tt;
    matches = tt;
    known = λ key. refl;
    workers_eq = refl;
    executions_eq = refl;
  }

  -- Both classes start empty, with the same capacity and number of attempts, and are called with the
  -- same calls in the same order, any but `health`, on the same jobs, at times that do not run back, each PostgreSQL
  -- call while no other transaction is open; a worker fails a job with the attempts that it now has, and
  -- no call is a `KeyError` in memory. Then they answer every call alike, but for the ids that they
  -- give out.
  pub dispatchers_agree :
      {d : PostgresDispatcher} {t : InMemoryDispatcher J} {db : Database J}
      {mine others : List (Answer J)}
      → Runs d 0 (fresh d.capacity d.max_attempts) empty mine others t db
      → AllAgree mine others
  dispatchers_agree {d} r = run_refines r (fresh-Sim d)
