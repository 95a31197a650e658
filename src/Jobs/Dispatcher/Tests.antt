-- ===== src/Jobs/Dispatcher/Tests.antt =====
-- Runs of the queue on concrete states: apps/api/app/jobs/dispatcher.py.
use zero_node.Prelude.{ℕ, ◌+◌, ◌≤◌, ◌≡◌, ◌≢◌, refl, true, false, none, some, [], ◌∷◌, arith}
use zero_node.Jobs.State.{Kind, Status, Job, MemoryJob, InMemoryDispatcher, done}
use zero_node.Jobs.Dispatcher.{depth, find_job, enqueue, lease, snapshot, claim, failed, fail}
use zero_node.Jobs.Dispatcher.Steps.{enqueued, here, next, start, and_then}
use zero_node.Jobs.Dispatcher.Invariant.{IsOrdered, fresh, fresh-IsOrdered, Reach-IsOrdered}
use zero_node.Jobs.Dispatcher.Dedupe.{enqueue_again}
use zero_node.Jobs.Dispatcher.Capacity.{depth-le-capacity, fail_revives}
use zero_node.Jobs.Dispatcher.Lease.{claim_respects_lease}

-- One job that waits, one that ran out of its lease, one that is leased, one that has ended.
abbrev queued_job : MemoryJob ℕ
queued_job = record {
  id = 1;
  kind = Kind.start;
  thread_id = "t1";
  dedupe_key = "start:t1";
  payload = 7;
  status = Status.queued;
  attempts = 0;
  max_attempts = 3;
  last_error = "";
  available_at = 0;
  lease_owner = none;
  lease_expires_at = none;
}

abbrev leased_job : MemoryJob ℕ
leased_job = record queued_job {
  status = Status.running;
  attempts = 1;
  lease_owner = some "w1";
  lease_expires_at = some 40;
}

abbrev ended_job : MemoryJob ℕ
ended_job = record queued_job { status = Status.succeeded; attempts = 1 }

abbrev holding : MemoryJob ℕ → InMemoryDispatcher ℕ
holding job = record {
  capacity = 1;
  max_attempts = 3;
  jobs = job ∷ [];
  by_key = ("start:t1", 1) ∷ [];
  workers = [];
  executions = [];
  next_id = 2;
}

queued-IsOrdered : IsOrdered (holding queued_job)
queued-IsOrdered = record { ascending = (tt, tt); below = (omega arith, tt); keyed = (refl, tt) }

leased-IsOrdered : IsOrdered (holding leased_job)
leased-IsOrdered = record { ascending = (tt, tt); below = (omega arith, tt); keyed = (refl, tt) }

ended-IsOrdered : IsOrdered (holding ended_job)
ended-IsOrdered = record { ascending = (tt, tt); below = (omega arith, tt); keyed = (refl, tt) }

abbrev accepted : InMemoryDispatcher ℕ
accepted = (enqueue Kind.start "t1" "start:t1" 7 (fresh 1 3)).0

enqueue_again_example : enqueue Kind.resume "t2" "start:t1" 9 accepted ≡ (accepted, done 1 false)
unfolding enqueue depth
enqueue_again_example =
    enqueue_again Kind.start Kind.resume "t1" "t2" "start:t1" 7 9 (fresh 1 3) accepted 1 true refl
      here

Reach-IsOrdered_example : IsOrdered accepted
Reach-IsOrdered_example =
    Reach-IsOrdered (next here (enqueued Kind.start "t1" "start:t1" 7 refl)) (fresh-IsOrdered 1 3)

depth-le-capacity_example : depth accepted.jobs ≤ accepted.capacity
depth-le-capacity_example =
    depth-le-capacity 1 3 (and_then start (enqueued Kind.start "t1" "start:t1" 7 refl) tt)

abbrev answer : Job ℕ
answer = snapshot (lease 10 "w1" 30 queued_job)

claim_respects_lease_example :
    (find_job 1 (claim 10 "w2" 30 (holding leased_job)).0.jobs ≡ some leased_job)
    × ((result : Job ℕ) → (claim 10 "w2" 30 (holding leased_job)).1 ≡ some result → result.id ≢ 1)
claim_respects_lease_example =
    claim_respects_lease 10 "w2" 30 (holding leased_job) 1 40 leased_job leased-IsOrdered refl refl
      refl (omega arith)

fail_revives_example :
    (Status.queued ≡ Status.queued)
    × (depth (failed 20 "late" 5 ended_job ∷ []) ≡ depth (ended_job ∷ []) + 1)
unfolding fail
fail_revives_example =
    fail_revives 20 1 "late" 5 (holding ended_job) (holding (failed 20 "late" 5 ended_job))
      ended_job Status.queued ended-IsOrdered refl refl (omega arith) refl
