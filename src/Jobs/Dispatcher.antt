-- ===== src/Jobs/Dispatcher.antt =====
-- `InMemoryDispatcher` of apps/api/app/jobs/dispatcher.py. Each method holds the lock for its whole
-- body, so it is one function from the state to the new state; `now` is the loop's clock, read
-- at the start of the call.
pub mod Tests
pub mod Reads
pub mod Order
pub mod Steps
pub mod Dedupe
pub mod Shapes
pub mod Invariant
pub mod Capacity
pub mod Claim
pub mod Lease
use Prim.Native.String.{◌++◌ as str_append}
use zero_node.Prelude.{
  ℕ, zero, suc, ◌+◌, ◌-◌, String, Bool, true, false, ◌&&◌, not, Option, none, some, List, [], ◌∷◌,
  map, ◌++◌, first, exists, length, ltb, leb, ◌==◌, str_eq, lookup, insert, set_default, take_text,
  if◌then◌else◌,
}
use zero_node.Jobs.State.{
  Kind, Status, is_queued, is_running, is_dead, is_active, Job, MemoryJob, Heartbeat,
  InMemoryDispatcher, Enqueued, done, queue_full,
}

abbrev pub opt_eq : Option String → String → Bool
opt_eq none s = false
opt_eq (some t) s = str_eq t s

abbrev pub expired : ℕ → Option ℕ → Bool
expired now none = false
expired now (some at) = ltb at now

module _ {J : Type 0} where
  unfoldable pub depth : List (MemoryJob J) → ℕ
  depth [] = 0
  depth (job ∷ jobs) = (if is_active job.status then 1 else 0) + depth jobs

  abbrev pub find_job : ℕ → List (MemoryJob J) → Option (MemoryJob J)
  find_job k = first (λ job. job.id == k)

  -- Assignments to the fields of the object that `self._jobs[k]` is.
  abbrev pub update_job : ℕ → (MemoryJob J → MemoryJob J) → List (MemoryJob J) → List (MemoryJob J)
  update_job k f = map (λ job. if job.id == k then f job else job)

  abbrev pub insert_by_id : MemoryJob J → List (MemoryJob J) → List (MemoryJob J)
  insert_by_id job [] = job ∷ []
  insert_by_id job (j ∷ js) = if leb job.id j.id then job ∷ j ∷ js else j ∷ insert_by_id job js

  -- `sorted(jobs, key=lambda item: item.id)`, which is stable
  abbrev pub sort_by_id : List (MemoryJob J) → List (MemoryJob J)
  sort_by_id [] = []
  sort_by_id (job ∷ jobs) = insert_by_id job (sort_by_id jobs)

  unfoldable pub enqueue :
      Kind → String → String → J → InMemoryDispatcher J → InMemoryDispatcher J × Enqueued
  enqueue kind thread_id key payload s = elim (lookup key s.by_key) [
    | some k ↦ (s, done k false)
    | none ↦ if leb s.capacity (depth s.jobs) then (s, queue_full (depth s.jobs) s.capacity) else (
      record s {
        jobs =
            s.jobs
            ++ record {
              id = s.next_id;
              kind = kind;
              thread_id = thread_id;
              dedupe_key = key;
              payload = payload;
              status = Status.queued;
              attempts = 0;
              max_attempts = s.max_attempts;
              last_error = "";
              available_at = 0;
              lease_owner = none;
              lease_expires_at = none;
            }
              ∷ [];
        by_key = insert key s.next_id s.by_key;
        next_id = s.next_id + 1;
      },
      done s.next_id true,
    )
  ]

  pub enqueue_start : String → J → InMemoryDispatcher J → InMemoryDispatcher J × Enqueued
  enqueue_start thread_id payload s =
      enqueue Kind.start thread_id (str_append "start:" thread_id) payload s

  pub enqueue_resume : String → String → J → InMemoryDispatcher J → InMemoryDispatcher J × Enqueued
  enqueue_resume thread_id approval_hash payload s =
      enqueue Kind.resume thread_id
        (str_append "resume:" (str_append thread_id (str_append ":" approval_hash))) payload s

  -- A running job whose lease has run out.
  abbrev pub lease_expired : ℕ → MemoryJob J → Bool
  lease_expired now job = is_running job.status && expired now job.lease_expires_at

  abbrev pub requeue : ℕ → MemoryJob J → MemoryJob J
  requeue now job =
      if lease_expired now job
      then record job {
        status = Status.queued;
        lease_owner = none;
        lease_expires_at = none;
        available_at = now;
        last_error = if str_eq job.last_error "" then "lease expired" else job.last_error;
      }
      else job

  abbrev pub is_ready : ℕ → MemoryJob J → Bool
  is_ready now job = is_queued job.status && leb job.available_at now

  abbrev pub lease : ℕ → String → ℕ → MemoryJob J → MemoryJob J
  lease now worker_id lease_seconds job = record job {
    status = Status.running;
    attempts = job.attempts + 1;
    lease_owner = some worker_id;
    lease_expires_at = some (now + lease_seconds);
    last_error = "";
  }

  abbrev pub snapshot : MemoryJob J → Job J
  snapshot job = record {
    id = job.id;
    kind = job.kind;
    thread_id = job.thread_id;
    dedupe_key = job.dedupe_key;
    payload = job.payload;
    status = job.status;
    attempts = job.attempts;
    max_attempts = job.max_attempts;
    last_error = job.last_error;
  }

  unfoldable pub claim :
      ℕ → String → ℕ → InMemoryDispatcher J → InMemoryDispatcher J × Option (Job J)
  claim now worker_id lease_seconds s =
      let jobs = map (requeue now) s.jobs in
      elim (first (is_ready now) (sort_by_id jobs)) [
        | none ↦ (record s { jobs = jobs }, none)
        | some job ↦ (
          record s { jobs = update_job job.id (lease now worker_id lease_seconds) jobs },
          some (snapshot (lease now worker_id lease_seconds job)),
        )
      ]

  unfoldable pub heartbeat : ℕ → ℕ → String → ℕ → InMemoryDispatcher J → InMemoryDispatcher J × Bool
  heartbeat now k worker_id lease_seconds s = elim (find_job k s.jobs) [
    | none ↦ (s, false)
    | some job ↦
        if is_running job.status && opt_eq job.lease_owner worker_id
        then (
          record s {
            jobs =
                update_job k (λ j. record j { lease_expires_at = some (now + lease_seconds) })
                  s.jobs;
          },
          true,
        )
        else (s, false)
  ]

  -- `none` is the `KeyError` of `self._jobs[job_id]`.
  unfoldable pub complete : ℕ → InMemoryDispatcher J → Option (InMemoryDispatcher J)
  complete k s = elim (find_job k s.jobs) [
    | none ↦ none
    | some job ↦ some (record s {
      jobs =
          update_job k
            (λ j. record j {
              status = Status.succeeded;
              lease_owner = none;
              lease_expires_at = none;
            })
            s.jobs;
    })
  ]

  -- The writes of `fail` to the stored job.
  abbrev pub failed : ℕ → String → ℕ → MemoryJob J → MemoryJob J
  failed now error delay job =
      if leb job.max_attempts job.attempts
      then record job {
        last_error = take_text 2000 error;
        lease_owner = none;
        lease_expires_at = none;
        status = Status.dead;
      }
      else record job {
        last_error = take_text 2000 error;
        lease_owner = none;
        lease_expires_at = none;
        status = Status.queued;
        available_at = now + delay;
      }

  unfoldable pub fail :
      ℕ → ℕ → String → ℕ → InMemoryDispatcher J → Option (InMemoryDispatcher J × Status)
  fail now k error delay s = elim (find_job k s.jobs) [
    | none ↦ none
    | some job ↦ some (
      record s { jobs = update_job k (failed now error delay) s.jobs },
      (failed now error delay job).status,
    )
  ]

  -- `reclaim_expired` leaves `available_at` and `last_error` as they are.
  abbrev pub release : ℕ → MemoryJob J → MemoryJob J
  release now job =
      if lease_expired now job
      then record job { status = Status.queued; lease_owner = none; lease_expires_at = none }
      else job

  abbrev pub count_expired : ℕ → List (MemoryJob J) → ℕ
  count_expired now [] = 0
  count_expired now (job ∷ jobs) = (if lease_expired now job then 1 else 0) + count_expired now jobs

  unfoldable pub reclaim_expired : ℕ → InMemoryDispatcher J → InMemoryDispatcher J × ℕ
  reclaim_expired now s = (record s { jobs = map (release now) s.jobs }, count_expired now s.jobs)

  unfoldable pub touch_worker : ℕ → String → ℕ → J → InMemoryDispatcher J → InMemoryDispatcher J
  touch_worker now worker_id concurrency meta s = record s {
    workers =
        insert worker_id (record { concurrency = concurrency; last_seen = now; meta = meta })
          s.workers;
  }

  unfoldable pub get_execution : String → InMemoryDispatcher J → Option J
  get_execution key s = lookup key s.executions

  unfoldable pub put_execution : String → J → InMemoryDispatcher J → InMemoryDispatcher J
  put_execution key result s = record s { executions = set_default key result s.executions }
