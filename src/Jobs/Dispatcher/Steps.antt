-- ===== src/Jobs/Dispatcher/Steps.antt =====
-- Any interleaving of workers and API requests is a sequence of the calls of
-- apps/api/app/jobs/dispatcher.py, since each call holds the lock.
use zero_node.Prelude.{ℕ, String, ◌≡◌, true, some}
use zero_node.Jobs.State.{Kind, Status, is_active, MemoryJob, InMemoryDispatcher}
use zero_node.Jobs.Dispatcher.{
  find_job, enqueue, claim, heartbeat, complete, fail, reclaim_expired, touch_worker, put_execution,
}

module _ {J : Type 0} where
  -- One call. A call that raises leaves the state as it was and is no step.
  pub data Step (s t : InMemoryDispatcher J) : Type 0 where
    enqueued :
        (kind : Kind) (thread_id key : String) (payload : J)
        → t ≡ (enqueue kind thread_id key payload s).0
        → Step s t
    claimed :
        (now : ℕ) (worker_id : String) (seconds : ℕ)
        → t ≡ (claim now worker_id seconds s).0
        → Step s t
    beaten :
        (now k : ℕ) (worker_id : String) (seconds : ℕ)
        → t ≡ (heartbeat now k worker_id seconds s).0
        → Step s t
    completed : (k : ℕ) → complete k s ≡ some t → Step s t
    failed_job :
        (now k : ℕ) (error : String) (delay : ℕ) (status : Status)
        → fail now k error delay s ≡ some (t, status)
        → Step s t
    reclaimed : (now : ℕ) → t ≡ (reclaim_expired now s).0 → Step s t
    touched :
        (now : ℕ) (worker_id : String) (concurrency : ℕ) (meta : J)
        → t ≡ touch_worker now worker_id concurrency meta s
        → Step s t
    recorded : (key : String) (result : J) → t ≡ put_execution key result s → Step s t

  -- A failure is reported while the job is still queued or running, and not after it has ended.
  abbrev pub IsTimely : {s t : InMemoryDispatcher J} → Step s t → Type 0
  IsTimely {s} (failed_job now k error delay status h) =
      (job : MemoryJob J) → find_job k s.jobs ≡ some job → is_active job.status ≡ true
  IsTimely _ = Unit

  pub data Reach (s : InMemoryDispatcher J) : InMemoryDispatcher J → Type 0 where
    here : Reach s s
    next : {t u : InMemoryDispatcher J} → Reach s t → Step t u → Reach s u

  pub data TimelyReach (s : InMemoryDispatcher J) : InMemoryDispatcher J → Type 0 where
    start : TimelyReach s s
    and_then :
        {t u : InMemoryDispatcher J}
        → TimelyReach s t
        → (st : Step t u) → IsTimely st
        → TimelyReach s u
