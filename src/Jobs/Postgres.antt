-- ===== src/Jobs/Postgres.antt =====
-- The PostgreSQL queue: apps/api/app/jobs/store.py and `PostgresDispatcher` of jobs/dispatcher.py. A
-- table is the list of its rows. The pool is in autocommit, so that each statement is a transaction and
-- `now` is its `now()`. Each statement is what PostgreSQL documents of it; `locked` are the rows that
-- other open transactions have locked, which `SKIP LOCKED` passes over. A call of the dispatcher is its
-- statements, one after another.
pub mod Locks
pub mod Simulation
pub mod InStep
pub mod Refines
pub mod Writes
pub mod Leases
pub mod Accepts
pub mod Reclaims
pub mod Errors
pub mod Calls
pub mod Replay
pub mod Tests
use Prim.Native.String.{◌++◌ as str_append}
use zero_node.Prelude.{
  ℕ, ◌+◌, ◌-◌, String, Bool, true, false, ◌&&◌, ◌||◌, not, Option, none, some, List, [], ◌∷◌, map,
  ◌++◌, first, exists, length, ltb, leb, ◌==◌, str_eq, lookup, insert, set_default, take_text,
  if◌then◌else◌,
}
use zero_node.Jobs.State.{
  Kind, Status, is_queued, is_running, is_dead, is_active, Job, Heartbeat, Enqueued, done,
  queue_full,
}
use zero_node.Jobs.Dispatcher.{opt_eq, expired}

-- The columns of `investigation_jobs` that the queue hands on or decides by.
pub record Entry (J : Type 0) : Type 0 where
  pub kind : Kind
  pub thread_id : String
  pub dedupe_key : String
  pub payload : J
  pub status : Status
  pub attempts : ℕ
  pub max_attempts : ℕ
  pub last_error : String
  pub lease_owner : Option String
  pub lease_expires_at : Option ℕ

pub record JobRow (J : Type 0) : Type 0 where
  pub id : ℕ
  pub entry : Entry J
  pub available_at : ℕ
  pub created_at : ℕ
  pub updated_at : ℕ
  pub finished_at : Option ℕ

-- The tables, and the sequence behind `BIGSERIAL`, which a conflicting insert uses up too.
pub record Database (J : Type 0) : Type 0 where
  pub investigation_jobs : List (JobRow J)
  pub next_id : ℕ
  pub worker_heartbeats : List (String × Heartbeat J)
  pub execution_results : List (String × J)

pub record PostgresDispatcher : Type 0 where
  pub capacity : ℕ
  pub max_attempts : ℕ

abbrev age : ℕ → Option ℕ → Option ℕ
age now none = none
age now (some t) = some (now - t)

module _ {J : Type 0} where
  -- `_row`
  abbrev pub row_job : JobRow J → Job J
  row_job r = record {
    id = r.id;
    kind = r.entry.kind;
    thread_id = r.entry.thread_id;
    dedupe_key = r.entry.dedupe_key;
    payload = r.entry.payload;
    status = r.entry.status;
    attempts = r.entry.attempts;
    max_attempts = r.entry.max_attempts;
    last_error = r.entry.last_error;
  }

  -- `UPDATE ... WHERE`, and the number of rows that it matches.
  abbrev pub update_where :
      (JobRow J → Bool) → (JobRow J → JobRow J) → List (JobRow J) → List (JobRow J)
  update_where p f = map (λ r. if p r then f r else r)

  abbrev pub count_where : (JobRow J → Bool) → List (JobRow J) → ℕ
  count_where p [] = 0
  count_where p (r ∷ rs) = (if p r then 1 else 0) + count_where p rs

  -- `ORDER BY id LIMIT 1`
  abbrev pub least_id : List (JobRow J) → Option (JobRow J)
  least_id [] = none
  least_id (r ∷ rs) = elim (least_id rs) [
    | none ↦ some r
    | some q ↦ if leb r.id q.id then some r else some q
  ]

  -- `ORDER BY id DESC LIMIT 1`
  abbrev pub greatest_id : List (JobRow J) → Option (JobRow J)
  greatest_id [] = none
  greatest_id (r ∷ rs) = elim (greatest_id rs) [
    | none ↦ some r
    | some q ↦ if leb q.id r.id then some r else some q
  ]

  abbrev pub select_where : (JobRow J → Bool) → List (JobRow J) → List (JobRow J)
  select_where p [] = []
  select_where p (r ∷ rs) = let rest = select_where p rs in if p r then r ∷ rest else rest

  abbrev pub has_key : String → JobRow J → Bool
  has_key key r = str_eq r.entry.dedupe_key key

  -- `enqueue`: the id, and whether the row was inserted (`xmax = 0`). On a conflict the update sets the
  -- key to itself.
  pub insert_job : ℕ → Kind → String → String → J → ℕ → Database J → Database J × ℕ × Bool
  insert_job now kind thread_id key payload max_attempts db =
      elim (first (has_key key) db.investigation_jobs) [
        | some r ↦ (record db { next_id = db.next_id + 1 }, r.id, false)
        | none ↦ (
          record db {
            investigation_jobs =
                db.investigation_jobs
                ++ record {
                  id = db.next_id;
                  entry = record {
                    kind = kind;
                    thread_id = thread_id;
                    dedupe_key = key;
                    payload = payload;
                    status = Status.queued;
                    attempts = 0;
                    max_attempts = max_attempts;
                    last_error = "";
                    lease_owner = none;
                    lease_expires_at = none;
                  };
                  available_at = now;
                  created_at = now;
                  updated_at = now;
                  finished_at = none;
                }
                  ∷ [];
            next_id = db.next_id + 1;
          },
          db.next_id,
          true,
        )
      ]

  pub queue_depth : List (JobRow J) → ℕ
  queue_depth rows = count_where (λ r. is_active r.entry.status) rows

  abbrev least_created : List (JobRow J) → Option ℕ
  least_created [] = none
  least_created (r ∷ rs) = elim (least_created rs) [
    | none ↦ some r.created_at
    | some t ↦ if ltb r.created_at t then some r.created_at else some t
  ]

  pub oldest_queued_age_seconds : ℕ → List (JobRow J) → Option ℕ
  oldest_queued_age_seconds now rows =
      age now (least_created (select_where (λ r. is_queued r.entry.status) rows))

  abbrev pub row_ready : ℕ → JobRow J → Bool
  row_ready now r = is_queued r.entry.status && leb r.available_at now

  abbrev pub lease_row : ℕ → String → ℕ → JobRow J → JobRow J
  lease_row now worker_id lease_seconds r = record r {
    entry = record r.entry {
      status = Status.running;
      attempts = r.entry.attempts + 1;
      lease_owner = some worker_id;
      lease_expires_at = some (now + lease_seconds);
      last_error = "";
    };
    updated_at = now;
  }

  -- The row that `SKIP LOCKED` leaves to a statement, and the locks once `FOR UPDATE` has taken its own.
  pub select_for_update : (ℕ → Bool) → ℕ → List (JobRow J) → Option (JobRow J × (ℕ → Bool))
  select_for_update locked now rows =
      elim (least_id (select_where (λ r. row_ready now r && not (locked r.id)) rows)) [
        | none ↦ none
        | some r ↦ some (r, λ k. k == r.id || locked k)
      ]

  -- The update of `claim_next`, of the row that the subquery has locked.
  abbrev pub update_claimed : ℕ → String → ℕ → ℕ → List (JobRow J) → List (JobRow J)
  update_claimed now worker_id lease_seconds k =
      update_where (λ r. r.id == k) (lease_row now worker_id lease_seconds)

  -- The statement of `claim_next`, and the row that it returns.
  pub claim_next : (ℕ → Bool) → ℕ → String → ℕ → List (JobRow J) → List (JobRow J) × Option (Job J)
  unfolding select_for_update
  claim_next locked now worker_id lease_seconds rows = elim (select_for_update locked now rows) [
    | none ↦ (rows, none)
    | some (found, locks) ↦ (
      update_claimed now worker_id lease_seconds found.id rows,
      some (row_job (lease_row now worker_id lease_seconds found)),
    )
  ]

  abbrev pub row_expired : ℕ → JobRow J → Bool
  row_expired now r = is_running r.entry.status && expired now r.entry.lease_expires_at

  abbrev pub release_row : ℕ → JobRow J → JobRow J
  release_row now r = record r {
    entry = record r.entry {
      status = Status.queued;
      lease_owner = none;
      lease_expires_at = none;
      last_error = if str_eq r.entry.last_error "" then "lease expired" else r.entry.last_error;
    };
    available_at = now;
    updated_at = now;
  }

  -- The statement of `reclaim_expired`, and its `rowcount`.
  pub reclaim_rows : ℕ → List (JobRow J) → List (JobRow J) × ℕ
  reclaim_rows now rows =
      (update_where (row_expired now) (release_row now) rows, count_where (row_expired now) rows)

  abbrev pub held_by : ℕ → String → JobRow J → Bool
  held_by job_id worker_id r =
      r.id == job_id && (is_running r.entry.status && opt_eq r.entry.lease_owner worker_id)

  abbrev pub extend_row : ℕ → ℕ → JobRow J → JobRow J
  extend_row now lease_seconds r = record r {
    entry = record r.entry { lease_expires_at = some (now + lease_seconds) };
    updated_at = now;
  }

  pub heartbeat_job : ℕ → ℕ → String → ℕ → List (JobRow J) → List (JobRow J) × Bool
  heartbeat_job now job_id worker_id lease_seconds rows = (
    update_where (held_by job_id worker_id) (extend_row now lease_seconds) rows,
    not (count_where (held_by job_id worker_id) rows == 0),
  )

  abbrev pub succeed_row : ℕ → JobRow J → JobRow J
  succeed_row now r = record r {
    entry = record r.entry {
      status = Status.succeeded;
      lease_owner = none;
      lease_expires_at = none;
    };
    updated_at = now;
    finished_at = some now;
  }

  pub complete_job : ℕ → ℕ → List (JobRow J) → List (JobRow J)
  complete_job now job_id = update_where (λ r. r.id == job_id) (succeed_row now)

  abbrev pub bury_row : ℕ → String → JobRow J → JobRow J
  bury_row now error r = record r {
    entry = record r.entry {
      status = Status.dead;
      lease_owner = none;
      lease_expires_at = none;
      last_error = take_text 2000 error;
    };
    updated_at = now;
    finished_at = some now;
  }

  abbrev pub retry_row : ℕ → String → ℕ → JobRow J → JobRow J
  retry_row now error delay r = record r {
    entry = record r.entry {
      status = Status.queued;
      lease_owner = none;
      lease_expires_at = none;
      last_error = take_text 2000 error;
    };
    available_at = now + delay;
    updated_at = now;
  }

  -- `fail_job`, which decides by the attempts of the job that it is handed.
  pub fail_job : ℕ → Job J → String → ℕ → List (JobRow J) → List (JobRow J) × Status
  fail_job now job error delay rows =
      if leb job.max_attempts job.attempts
      then (update_where (λ r. r.id == job.id) (bury_row now error) rows, Status.dead)
      else (update_where (λ r. r.id == job.id) (retry_row now error delay) rows, Status.queued)

  pub latest_job_for_thread : String → List (JobRow J) → Option (Job J)
  latest_job_for_thread thread_id rows =
      elim (greatest_id (select_where (λ r. str_eq r.entry.thread_id thread_id) rows)) [
        | none ↦ none
        | some r ↦ some (row_job r)
      ]

  -- The calls of `PostgresDispatcher`.
  pub pg_enqueue :
      PostgresDispatcher → ℕ → Kind → String → String → J → Database J → Database J × Enqueued
  unfolding queue_depth insert_job
  pg_enqueue d now kind thread_id key payload db =
      if not (exists (has_key key) db.investigation_jobs)
        && leb d.capacity (queue_depth db.investigation_jobs)
      then (db, queue_full (queue_depth db.investigation_jobs) d.capacity)
      else (let (db', id, created) = insert_job now kind thread_id key payload d.max_attempts db in
          (db', done id created))

  pub pg_enqueue_start : PostgresDispatcher → ℕ → String → J → Database J → Database J × Enqueued
  pg_enqueue_start d now thread_id =
      pg_enqueue d now Kind.start thread_id (str_append "start:" thread_id)

  pub pg_enqueue_resume :
      PostgresDispatcher → ℕ → String → String → J → Database J → Database J × Enqueued
  pg_enqueue_resume d now thread_id approval_hash =
      pg_enqueue d now Kind.resume thread_id
        (str_append "resume:" (str_append thread_id (str_append ":" approval_hash)))

  pub pg_claim : (ℕ → Bool) → ℕ → String → ℕ → Database J → Database J × Option (Job J)
  unfolding reclaim_rows claim_next
  pg_claim locked now worker_id lease_seconds db =
      let (rows, answer) =
        claim_next locked now worker_id lease_seconds (reclaim_rows now db.investigation_jobs).0 in
      (record db { investigation_jobs = rows }, answer)

  pub pg_heartbeat : ℕ → ℕ → String → ℕ → Database J → Database J × Bool
  unfolding heartbeat_job
  pg_heartbeat now job_id worker_id lease_seconds db =
      let (rows, held) = heartbeat_job now job_id worker_id lease_seconds db.investigation_jobs in
      (record db { investigation_jobs = rows }, held)

  pub pg_complete : ℕ → ℕ → Database J → Database J
  unfolding complete_job
  pg_complete now job_id db = record db {
    investigation_jobs = complete_job now job_id db.investigation_jobs;
  }

  pub pg_fail : ℕ → Job J → String → ℕ → Database J → Database J × Status
  unfolding fail_job
  pg_fail now job error delay db =
      let (rows, status) = fail_job now job error delay db.investigation_jobs in
      (record db { investigation_jobs = rows }, status)

  pub pg_reclaim_expired : ℕ → Database J → Database J × ℕ
  unfolding reclaim_rows
  pg_reclaim_expired now db =
      let (rows, count) = reclaim_rows now db.investigation_jobs in
      (record db { investigation_jobs = rows }, count)

  pub pg_touch_worker : ℕ → String → ℕ → J → Database J → Database J
  pg_touch_worker now worker_id concurrency meta db = record db {
    worker_heartbeats =
        insert worker_id (record { concurrency = concurrency; last_seen = now; meta = meta })
          db.worker_heartbeats;
  }

  abbrev pub error_of_latest : Option (Job J) → String
  error_of_latest none = ""
  error_of_latest (some job) = if is_dead job.status then job.last_error else ""

  pub pg_latest_error : String → Database J → String
  unfolding latest_job_for_thread
  pg_latest_error thread_id db =
      error_of_latest (latest_job_for_thread thread_id db.investigation_jobs)

  pub pg_get_execution : String → Database J → Option J
  pg_get_execution key db = lookup key db.execution_results

  -- `ON CONFLICT (operation_key) DO NOTHING`
  pub pg_put_execution : String → J → Database J → Database J
  pg_put_execution key result db = record db {
    execution_results = set_default key result db.execution_results;
  }
