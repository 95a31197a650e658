-- ===== src/Jobs/Dispatcher/Reads.antt =====
-- The calls that only read the queue: apps/api/app/jobs/dispatcher.py.
use zero_node.Prelude.{ℕ, ◌-◌, String, List, [], ◌∷◌, ltb, leb, str_eq, if◌then◌else◌}
use zero_node.Jobs.State.{is_dead, MemoryJob, Heartbeat, InMemoryDispatcher}

module _ {J : Type 0} where
  abbrev pub live_workers : ℕ → ℕ → List (String × Heartbeat J) → List String
  live_workers now stale [] = []
  live_workers now stale ((w, info) ∷ ws) =
      let rest = live_workers now stale ws in
      if leb (now - info.last_seen) stale then w ∷ rest else rest

  -- `max(jobs, key=lambda item: item.id)`: the first of the largest.
  abbrev pub newest : MemoryJob J → List (MemoryJob J) → MemoryJob J
  newest best [] = best
  newest best (job ∷ jobs) = newest (if ltb best.id job.id then job else best) jobs

  abbrev pub jobs_of : String → List (MemoryJob J) → List (MemoryJob J)
  jobs_of thread_id [] = []
  jobs_of thread_id (job ∷ jobs) =
      let rest = jobs_of thread_id jobs in
      if str_eq job.thread_id thread_id then job ∷ rest else rest

  abbrev pub error_of : MemoryJob J → String
  error_of job = if is_dead job.status then job.last_error else ""

  abbrev pub newest_error : List (MemoryJob J) → String
  newest_error [] = ""
  newest_error (job ∷ jobs) = error_of (newest job jobs)

  unfoldable pub latest_error : String → InMemoryDispatcher J → String
  latest_error thread_id s = newest_error (jobs_of thread_id s.jobs)
