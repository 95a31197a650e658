-- ===== src/Jobs/Dispatcher/Capacity.antt =====
-- The number of queued and running jobs, and the capacity: apps/api/app/jobs/dispatcher.py.
use zero_node.Prelude.{
  ℕ, ◌+◌, ◌≤◌, ◌<◌, String, ◌≡◌, Bool, false, some, List, [], ◌∷◌, map, ◌++◌, first, first_passes,
  Option-cases, Bool-cases, inl, inr, arith, leb, ◌==◌, ==_iff, lookup, if◌then◌else◌,
}
use zero_node.Jobs.State.{Kind, Status, is_active, MemoryJob, InMemoryDispatcher}
use zero_node.Jobs.Dispatcher.{
  depth, find_job, update_job, is_ready, requeue, lease, failed, release, enqueue, claim, fail,
  reclaim_expired, touch_worker, put_execution,
}
use zero_node.Jobs.Dispatcher.Order.{
  IsAscending, modify_first, sort-ascending, update-first, map-IsAscending,
}
use zero_node.Jobs.Dispatcher.Shapes.{finished, heartbeat_cases, complete_shape, fail_shape}
use zero_node.Jobs.Dispatcher.Steps.{
  Step, enqueued, claimed, beaten, completed, failed_job, reclaimed, touched, recorded, IsTimely,
  TimelyReach, start, and_then, Reach, here, next,
}
use zero_node.Jobs.Dispatcher.Invariant.{IsOrdered, Reach-IsOrdered, fresh, fresh-IsOrdered}

module _ {J : Type 0} where
  abbrev weight : MemoryJob J → ℕ
  weight job = if is_active job.status then 1 else 0

  depth-map-le :
      (f : MemoryJob J → MemoryJob J)
      → ((job : MemoryJob J) → weight (f job) ≤ weight job)
      → (jobs : List (MemoryJob J)) → depth (map f jobs) ≤ depth jobs
  unfolding depth
  depth-map-le f h [] = omega arith
  depth-map-le f h (job ∷ jobs) = omega (arith, h job, depth-map-le f h jobs)

  depth-modify :
      (p : MemoryJob J → Bool) (f : MemoryJob J → MemoryJob J) (jobs : List (MemoryJob J))
      (job : MemoryJob J)
      → first p jobs ≡ some job
      → depth (modify_first p f jobs) + weight job ≡ depth jobs + weight (f job)
  unfolding depth
  depth-modify p f [] job e = cc
  depth-modify p f (j ∷ js) job e = elim (Bool-cases (p j)) [
    | inl hit ↦ ground arith
    | inr miss ↦ ground (arith, depth-modify p f js job)
  ]

  depth-append :
      (jobs : List (MemoryJob J)) (job : MemoryJob J)
      → depth (jobs ++ job ∷ []) ≡ depth jobs + weight job
  unfolding depth
  depth-append [] job = omega arith
  depth-append (j ∷ js) job = omega (arith, depth-append js job)

  -- A write to the job found under `k`.
  depth-update :
      (k : ℕ) (f : MemoryJob J → MemoryJob J) (jobs : List (MemoryJob J)) (job : MemoryJob J)
      → IsAscending jobs
      → find_job k jobs ≡ some job
      → depth (update_job k f jobs) + weight job ≡ depth jobs + weight (f job)
  depth-update k f jobs job a e =
      let id_is : job.id ≡ k = (==_iff job.id k).0 (first_passes (λ j. j.id == k) jobs e) in
      rw (← id_is) (
        rw (update-first (λ j. j.id == k) f jobs job a e)
          (depth-modify (λ j. j.id == k) f jobs job e))

  pub record IsWithin (s : InMemoryDispatcher J) : Type 0 where
    pub ordered : IsOrdered s
    pub room : depth s.jobs ≤ s.capacity

  claim_room :
      (now : ℕ) (w : String) (l : ℕ) (s : InMemoryDispatcher J)
      → IsWithin s
      → depth (claim now w l s).0.jobs ≤ (claim now w l s).0.capacity
  unfolding claim
  claim_room now w l s h =
      let up : IsAscending (map (requeue now) s.jobs) =
        map-IsAscending (requeue now) s.jobs (λ j. ground arith) h.ordered.ascending in
      let less : depth (map (requeue now) s.jobs) ≤ depth s.jobs =
        depth-map-le (requeue now) (λ j. ground arith) s.jobs in
      rw (sort-ascending (map (requeue now) s.jobs) up, claim)
        (elim (Option-cases (first (is_ready now) (map (requeue now) s.jobs))) [
          | inl idle ↦ rw (idle, claim) (omega (arith, h.room))
          | inr (job, found) ↦
              rw (found, claim)
                (rw
                  (update-first (is_ready now) (lease now w l) (map (requeue now) s.jobs) job up
                    found)
                  (room_after job found less))
        ])
    where
      room_after :
          (job : MemoryJob J)
          → first (is_ready now) (map (requeue now) s.jobs) ≡ some job
          → depth (map (requeue now) s.jobs) ≤ depth s.jobs
          → depth (modify_first (is_ready now) (lease now w l) (map (requeue now) s.jobs))
            ≤ s.capacity
      room_after job found less = ground (
        arith,
        depth-modify (is_ready now) (lease now w l) (map (requeue now) s.jobs) job found,
        first_passes (is_ready now) (map (requeue now) s.jobs) found,
        h.room,
      )

  enqueue_room :
      (kind : Kind) (thread_id key : String) (payload : J) (s : InMemoryDispatcher J)
      → depth s.jobs ≤ s.capacity
      → depth (enqueue kind thread_id key payload s).0.jobs
        ≤ (enqueue kind thread_id key payload s).0.capacity
  unfolding enqueue
  enqueue_room kind thread_id key payload s h = elim (Option-cases (lookup key s.by_key)) [
    | inr (x, old) ↦ rw (old, enqueue) h
    | inl new ↦
        rw (new, enqueue)
          (elim (Bool-cases (leb s.capacity (depth s.jobs))) [
            | inl full ↦ rw full h
            | inr room ↦ rw room (rw depth-append (ground arith))
          ])
  ]

  Step-room :
      {s t : InMemoryDispatcher J} (st : Step s t)
      → IsTimely st
      → IsWithin s
      → depth t.jobs ≤ t.capacity
  unfolding reclaim_expired touch_worker put_execution fail
  Step-room {s} (enqueued kind thread_id key payload e) m h =
      rw e (enqueue_room kind thread_id key payload s h.room)
  Step-room {s} (claimed now w l e) m h = rw e (claim_room now w l s h)
  Step-room {s} (beaten now k w l e) m h = elim (heartbeat_cases k s now w l) [
    | inl lost ↦ rw (e, lost) h.room
    | inr held ↦
        rw (e, held)
          (omega (
            arith,
            h.room,
            depth-map-le
                (λ j. if j.id == k then record j { lease_expires_at = some (now + l) } else j)
                (λ j. ground arith) s.jobs,
          ))
  ]
  Step-room {s} {t} (completed k e) m h = rw (complete_shape k s t e) (
      omega (
        arith,
        h.room,
        depth-map-le (λ j. if j.id == k then finished k s j else j) (λ j. ground arith) s.jobs,
      ))
  Step-room {s} {t} (failed_job now k error delay st e) m h =
      elim (Option-cases (find_job k s.jobs)) [
        | inl missing ↦ cc (rw (missing, fail) at e)
        | inr (job, found) ↦ rw (fail_shape k s now error delay t st e) (
            ground (
              arith,
              depth-update k (failed now error delay) s.jobs job h.ordered.ascending found,
              m job found,
              h.room,
            ))
      ]
  Step-room {s} (reclaimed now e) m h =
      rw e (omega (arith, h.room, depth-map-le (release now) (λ j. ground arith) s.jobs))
  Step-room (touched now w c x e) m h = rw e h.room
  Step-room (recorded k r e) m h = rw e h.room

  TimelyReach-Reach : {s t : InMemoryDispatcher J} → TimelyReach s t → Reach s t
  TimelyReach-Reach start = here
  TimelyReach-Reach (and_then r st m) = next (TimelyReach-Reach r) st

  TimelyReach-IsWithin : {s t : InMemoryDispatcher J} → TimelyReach s t → IsWithin s → IsWithin t
  TimelyReach-IsWithin start h = h
  TimelyReach-IsWithin (and_then r st m) h =
      let mid = TimelyReach-IsWithin r h in
      record { ordered = Reach-IsOrdered (next here st) mid.ordered; room = Step-room st m mid }

  -- From an empty queue, whatever calls are made, as long as no failure is reported for a job that
  -- has already ended, no more jobs are queued or running than the capacity.
  pub depth-le-capacity :
      (capacity max_attempts : ℕ) {t : InMemoryDispatcher J}
      → TimelyReach (fresh capacity max_attempts) t
      → depth t.jobs ≤ t.capacity
  unfolding depth
  depth-le-capacity c m r =
      (TimelyReach-IsWithin r (record { ordered = fresh-IsOrdered c m; room = omega arith })).room

  -- A failure that is reported late, for a job that has ended with attempts to spare, puts the job
  -- back into the queue: one more job is active than before, whatever the capacity.
  pub fail_revives :
      (now k : ℕ) (error : String) (delay : ℕ) (s t : InMemoryDispatcher J) (job : MemoryJob J)
      (status : Status)
      → IsOrdered s
      → find_job k s.jobs ≡ some job
      → is_active job.status ≡ false
      → job.attempts < job.max_attempts
      → fail now k error delay s ≡ some (t, status)
      → (status ≡ Status.queued) × (depth t.jobs ≡ depth s.jobs + 1)
  unfolding fail
  fail_revives now k error delay s t job status h found ended left e = (
    ground arith,
    rw (fail_shape k s now error delay t status e)
        (ground (arith, depth-update k (failed now error delay) s.jobs job h.ascending found)),
  )
