-- ===== src/Jobs/Postgres/Calls.antt =====
-- The calls that a client of a dispatcher makes, all but `health`: `Dispatcher` of apps/api/app/jobs/dispatcher.py, with
-- the answers of both classes. A job has an id of its own in each class, so that a call on a job holds
-- both.
use zero_node.Prelude.{ℕ, ◌≤◌, String, ◌≡◌, Bool, false, Option, none, some, List, [], ◌∷◌}
use zero_node.Jobs.State.{Kind, Status, Job, InMemoryDispatcher, Enqueued}
use zero_node.Jobs.Dispatcher.{
  depth, enqueue, claim, heartbeat, complete, fail, reclaim_expired, touch_worker, put_execution,
  get_execution,
}
use zero_node.Jobs.Dispatcher.Reads.{latest_error}
use zero_node.Jobs.Postgres.{
  Database, queue_depth, pg_reclaim_expired, pg_latest_error, PostgresDispatcher, pg_enqueue,
  pg_claim, pg_heartbeat, pg_complete, pg_fail, pg_touch_worker, pg_put_execution, pg_get_execution,
}
use zero_node.Jobs.Postgres.Simulation.{SameJob}
use zero_node.Jobs.Postgres.Refines.{SameAnswer, seen}
use zero_node.Jobs.Postgres.Writes.{UpToDate}

-- `health` is left out: each class reports its own back end.
pub data Call (J : Type 0) : Type 0 where
  to_enqueue : Kind → String → String → J → Call J
  to_claim : String → ℕ → Call J
  to_heartbeat : ℕ → ℕ → String → ℕ → Call J
  to_complete : ℕ → ℕ → Call J
  to_fail : ℕ → Job J → String → ℕ → Call J
  to_reclaim : Call J
  to_touch : String → ℕ → J → Call J
  to_depth : Call J
  to_latest : String → Call J
  to_put : String → J → Call J
  to_get : String → Call J

pub data Answer (J : Type 0) : Type 0 where
  accepted : Enqueued → Answer J
  given : Option (Job J) → Answer J
  held : Bool → Answer J
  nothing : Answer J
  status : Status → Answer J
  counted : ℕ → Answer J
  last_error : String → Answer J
  execution : Option J → Answer J

module _ {J : Type 0} where
  abbrev completed : Option (InMemoryDispatcher J) → Option (InMemoryDispatcher J × Answer J)
  completed none = none
  completed (some s) = some (s, nothing)

  abbrev ended : Option (InMemoryDispatcher J × Status) → Option (InMemoryDispatcher J × Answer J)
  ended none = none
  ended (some (s, st)) = some (s, status st)

  -- A call of `InMemoryDispatcher`; `none` is its `KeyError`.
  abbrev pub mem_call : ℕ → Call J → InMemoryDispatcher J → Option (InMemoryDispatcher J × Answer J)
  mem_call now (to_enqueue kind thread_id key payload) s =
      let (t, e) = enqueue kind thread_id key payload s in some (t, accepted e)
  mem_call now (to_claim w l) s = let (t, job) = claim now w l s in some (t, given job)
  mem_call now (to_heartbeat k m w l) s = let (t, b) = heartbeat now k w l s in some (t, held b)
  mem_call now (to_complete k m) s = completed (complete k s)
  mem_call now (to_fail k job error delay) s = ended (fail now k error delay s)
  mem_call now to_reclaim s = let (t, n) = reclaim_expired now s in some (t, counted n)
  mem_call now (to_touch w n meta) s = some (touch_worker now w n meta s, nothing)
  mem_call now to_depth s = some (s, counted (depth s.jobs))
  mem_call now (to_latest thread_id) s = some (s, last_error (latest_error thread_id s))
  mem_call now (to_put key result) s = some (put_execution key result s, nothing)
  mem_call now (to_get key) s = some (s, execution (get_execution key s))

  -- A call of `PostgresDispatcher`, while no other transaction is open.
  abbrev pub pg_call : PostgresDispatcher → ℕ → Call J → Database J → Database J × Answer J
  pg_call d now (to_enqueue kind thread_id key payload) db =
      let (db', e) = pg_enqueue d now kind thread_id key payload db in (db', accepted e)
  pg_call d now (to_claim w l) db =
      let (db', job) = pg_claim (λ _. false) now w l db in (db', given job)
  pg_call d now (to_heartbeat k m w l) db =
      let (db', b) = pg_heartbeat now m w l db in (db', held b)
  pg_call d now (to_complete k m) db = (pg_complete now m db, nothing)
  pg_call d now (to_fail k job error delay) db =
      let (db', st) = pg_fail now job error delay db in (db', status st)
  pg_call d now to_reclaim db = let (db', n) = pg_reclaim_expired now db in (db', counted n)
  pg_call d now (to_touch w n meta) db = (pg_touch_worker now w n meta db, nothing)
  pg_call d now to_depth db = (db, counted (queue_depth db.investigation_jobs))
  pg_call d now (to_latest thread_id) db = (db, last_error (pg_latest_error thread_id db))
  pg_call d now (to_put key result) db = (pg_put_execution key result db, nothing)
  pg_call d now (to_get key) db = (db, execution (pg_get_execution key db))

  -- The ids of a call name one job, and a worker fails a job that it was given as it now stands.
  abbrev pub SameHandle : Call J → InMemoryDispatcher J → Database J → Type 0
  SameHandle (to_heartbeat k m w l) s db = SameJob k m s.jobs db.investigation_jobs
  SameHandle (to_complete k m) s db = SameJob k m s.jobs db.investigation_jobs
  SameHandle (to_fail k job error delay) s db =
      SameJob k job.id s.jobs db.investigation_jobs × UpToDate k job s.jobs
  SameHandle _ s db = Unit

  -- What a client can tell of two answers.
  abbrev pub Agree : Answer J → Answer J → Type 0
  Agree (accepted a) (accepted b) = SameAnswer a b
  Agree (given a) (given b) = seen a ≡ seen b
  Agree (held a) (held b) = a ≡ b
  Agree nothing nothing = Unit
  Agree (status a) (status b) = a ≡ b
  Agree (counted a) (counted b) = a ≡ b
  Agree (last_error a) (last_error b) = a ≡ b
  Agree (execution a) (execution b) = a ≡ b
  Agree _ _ = ⊥

  abbrev pub AllAgree : List (Answer J) → List (Answer J) → Type 0
  AllAgree [] [] = Unit
  AllAgree (a ∷ mine) (b ∷ others) = Agree a b × AllAgree mine others
  AllAgree _ _ = ⊥

  -- Calls at the times of a clock that does not run back, by both classes at once.
  pub data Runs (d : PostgresDispatcher)
      : ℕ
        → InMemoryDispatcher J
        → Database J
        → List (Answer J)
        → List (Answer J)
        → InMemoryDispatcher J
        → Database J
        → Type 0 where
    stop : {clock : ℕ} {s : InMemoryDispatcher J} {db : Database J} → Runs d clock s db [] [] s db
    call :
        {clock now : ℕ} {s t u : InMemoryDispatcher J} {db db' : Database J} {a : Answer J}
        {mine others : List (Answer J)} (c : Call J)
        → clock ≤ now
        → SameHandle c s db
        → mem_call now c s ≡ some (t, a)
        → Runs d now t (pg_call d now c db).0 mine others u db'
        → Runs d clock s db (a ∷ mine) ((pg_call d now c db).1 ∷ others) u db'
