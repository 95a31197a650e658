-- ===== src/Jobs/State.antt =====
-- The records of apps/api/app/jobs/store.py and of the in-memory half of jobs/dispatcher.py.
-- `J` stands for a JSON object (`dict[str, Any]`), which the queue stores and never reads.
-- Times are numbers of clock ticks.
use zero_node.Prelude.{ℕ, String, Bool, true, false, Option, List}

pub data Kind : Type 0 where
  start resume : Kind

pub data Status : Type 0 where
  queued running succeeded dead : Status

abbrev pub is_queued : Status → Bool
is_queued Status.queued = true
is_queued _ = false

abbrev pub is_running : Status → Bool
is_running Status.running = true
is_running _ = false

abbrev pub is_dead : Status → Bool
is_dead Status.dead = true
is_dead _ = false

-- `status in (STATUS_QUEUED, STATUS_RUNNING)`
abbrev pub is_active : Status → Bool
is_active Status.queued = true
is_active Status.running = true
is_active _ = false

pub record Job (J : Type 0) : Type 0 where
  pub id : ℕ
  pub kind : Kind
  pub thread_id : String
  pub dedupe_key : String
  pub payload : J
  pub status : Status
  pub attempts : ℕ
  pub max_attempts : ℕ
  pub last_error : String

pub record MemoryJob (J : Type 0) : Type 0 where
  pub id : ℕ
  pub kind : Kind
  pub thread_id : String
  pub dedupe_key : String
  pub payload : J
  pub status : Status
  pub attempts : ℕ
  pub max_attempts : ℕ
  pub last_error : String
  pub available_at : ℕ
  pub lease_owner : Option String
  pub lease_expires_at : Option ℕ

pub record Heartbeat (J : Type 0) : Type 0 where
  pub concurrency : ℕ
  pub last_seen : ℕ
  pub meta : J

-- The dicts keep their insertion order. `jobs` has no keys of its own: a job stands under its `id`.
-- `next_id` is what `next(self._ids)` returns.
pub record InMemoryDispatcher (J : Type 0) : Type 0 where
  pub capacity : ℕ
  pub max_attempts : ℕ
  pub jobs : List (MemoryJob J)
  pub by_key : List (String × ℕ)
  pub workers : List (String × Heartbeat J)
  pub executions : List (String × J)
  pub next_id : ℕ

pub data Enqueued : Type 0 where
  done : ℕ → Bool → Enqueued
  queue_full : ℕ → ℕ → Enqueued
