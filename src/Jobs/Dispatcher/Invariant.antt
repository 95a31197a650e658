-- ===== src/Jobs/Dispatcher/Invariant.antt =====
-- Invariants of the queue: apps/api/app/jobs/dispatcher.py.
use zero_node.Prelude.{
  ℕ, String, ◌≡◌, refl, none, some, List, [], ◌∷◌, map, ◌++◌, All, first, Option-cases, Bool-cases,
  inl, inr, arith, leb, ◌==◌, eq_iff, lookup, insert, lookup-insert, if◌then◌else◌,
}
use zero_node.Jobs.State.{Kind, MemoryJob, InMemoryDispatcher}
use zero_node.Jobs.Dispatcher.{
  depth, update_job, sort_by_id, is_ready, requeue, lease, release, enqueue, claim, reclaim_expired,
  touch_worker, put_execution,
}
use zero_node.Jobs.Dispatcher.Order.{
  IsAscending, Below, KeepsId, map-IsAscending, map-Below, update-KeepsId, append-IsAscending,
}
use zero_node.Jobs.Dispatcher.Shapes.{heartbeat_cases, complete_shape, fail_shape}
use zero_node.Jobs.Dispatcher.Steps.{
  Step, enqueued, claimed, beaten, completed, failed_job, reclaimed, touched, recorded, Reach, here,
  next,
}

module _ {J : Type 0} where
  -- Every job is registered under its dedupe key.
  abbrev pub IsKeyed : List (String × ℕ) → List (MemoryJob J) → Type 0
  IsKeyed keys = All (λ job. lookup job.dedupe_key keys ≡ some job.id)

  pub record IsOrdered (s : InMemoryDispatcher J) : Type 0 where
    pub ascending : IsAscending s.jobs
    pub below : Below s.next_id s.jobs
    pub keyed : IsKeyed s.by_key s.jobs

  abbrev KeepsKey : (MemoryJob J → MemoryJob J) → Type 0
  KeepsKey f = (job : MemoryJob J) → (f job).dedupe_key ≡ job.dedupe_key

  map-IsKeyed :
      (keys : List (String × ℕ)) (f : MemoryJob J → MemoryJob J) (jobs : List (MemoryJob J))
      → KeepsId f
      → KeepsKey f
      → IsKeyed keys jobs
      → IsKeyed keys (map f jobs)
  map-IsKeyed keys f [] i k h = tt
  map-IsKeyed keys f (job ∷ jobs) i k h = (rw (i job, k job) h.0, map-IsKeyed keys f jobs i k h.1)

  update-KeepsKey :
      (k : ℕ) (f : MemoryJob J → MemoryJob J)
      → KeepsKey f
      → KeepsKey (λ job. if job.id == k then f job else job)
  update-KeepsKey k f h job = ground (arith, h job)

  append-IsKeyed :
      (keys : List (String × ℕ)) (k : ℕ) (jobs : List (MemoryJob J)) (job : MemoryJob J)
      → lookup job.dedupe_key keys ≡ none
      → job.id ≡ k
      → IsKeyed keys jobs
      → IsKeyed (insert job.dedupe_key k keys) (jobs ++ job ∷ [])
  append-IsKeyed keys k [] job new e h = (
    ground (
      arith,
      lookup-insert job.dedupe_key job.dedupe_key k keys,
      eq_iff job.dedupe_key job.dedupe_key,
    ),
    tt,
  )
  append-IsKeyed keys k (j ∷ js) job new e h = (
    ground (
      arith,
      lookup-insert job.dedupe_key j.dedupe_key k keys,
      eq_iff job.dedupe_key j.dedupe_key,
      h.0,
    ),
    append-IsKeyed keys k js job new e h.1,
  )

  -- A step that rewrites jobs in place keeps the order.
  map-IsOrdered :
      (s t : InMemoryDispatcher J) (f : MemoryJob J → MemoryJob J)
      → KeepsId f
      → KeepsKey f
      → t.jobs ≡ map f s.jobs
      → t.next_id ≡ s.next_id
      → t.by_key ≡ s.by_key
      → IsOrdered s
      → IsOrdered t
  map-IsOrdered s t f i k e n b h = record {
    ascending = rw e (map-IsAscending f s.jobs i h.ascending);
    below = rw (e, n) (map-Below s.next_id f s.jobs i h.below);
    keyed = rw (e, b) (map-IsKeyed s.by_key f s.jobs i k h.keyed);
  }

  same-IsOrdered :
      (s t : InMemoryDispatcher J)
      → t.jobs ≡ s.jobs
      → t.next_id ≡ s.next_id
      → t.by_key ≡ s.by_key
      → IsOrdered s
      → IsOrdered t
  same-IsOrdered s t e n b h = record {
    ascending = rw e h.ascending;
    below = rw (e, n) h.below;
    keyed = rw (e, b) h.keyed;
  }

  enqueue-IsOrdered :
      (kind : Kind) (thread_id key : String) (payload : J) (s : InMemoryDispatcher J)
      → IsOrdered s
      → IsOrdered (enqueue kind thread_id key payload s).0
  unfolding enqueue
  enqueue-IsOrdered kind thread_id key payload s h = elim (Option-cases (lookup key s.by_key)) [
    | inr (x, old) ↦ rw (old, enqueue) h
    | inl new ↦
        rw (new, enqueue)
          (elim (Bool-cases (leb s.capacity (depth s.jobs))) [
            | inl full ↦ rw full h
            | inr room ↦ rw room (record {
              ascending = (append-IsAscending s.next_id s.jobs _ h.ascending h.below refl).0;
              below = (append-IsAscending s.next_id s.jobs _ h.ascending h.below refl).1;
              keyed = append-IsKeyed s.by_key s.next_id s.jobs _ new refl h.keyed;
            })
          ])
  ]

  claim-IsOrdered :
      (now : ℕ) (w : String) (l : ℕ) (s : InMemoryDispatcher J)
      → IsOrdered s
      → IsOrdered (claim now w l s).0
  unfolding claim
  claim-IsOrdered now w l s h =
      let mid : IsOrdered (record s { jobs = map (requeue now) s.jobs }) =
        map-IsOrdered s _ (requeue now) (λ j. ground arith) (λ j. ground arith) refl refl refl h in
      elim (Option-cases (first (is_ready now) (sort_by_id (map (requeue now) s.jobs)))) [
        | inl none_ready ↦ rw (none_ready, claim) mid
        | inr (job, found) ↦
            rw (found, claim)
              (map-IsOrdered (record s { jobs = map (requeue now) s.jobs }) _
                (λ j. if j.id == job.id then lease now w l j else j)
                (update-KeepsId job.id (lease now w l) (λ j. refl))
                (update-KeepsKey job.id (lease now w l) (λ j. refl)) refl refl refl mid)
      ]

  update-IsOrdered :
      (k : ℕ) (f : MemoryJob J → MemoryJob J) (s : InMemoryDispatcher J)
      → KeepsId f
      → KeepsKey f
      → IsOrdered s
      → IsOrdered (record s { jobs = update_job k f s.jobs })
  update-IsOrdered k f s i n h =
      map-IsOrdered s _ (λ job. if job.id == k then f job else job) (update-KeepsId k f i)
        (update-KeepsKey k f n) refl refl refl h

  Step-IsOrdered : {s t : InMemoryDispatcher J} → Step s t → IsOrdered s → IsOrdered t
  unfolding reclaim_expired touch_worker put_execution
  Step-IsOrdered {s} (enqueued kind thread_id key payload e) h =
      rw e (enqueue-IsOrdered kind thread_id key payload s h)
  Step-IsOrdered {s} (claimed now w l e) h = rw e (claim-IsOrdered now w l s h)
  Step-IsOrdered {s} {t} (beaten now k w l e) h = elim (heartbeat_cases k s now w l) [
    | inl lost ↦ rw (e, lost) h
    | inr held ↦ rw (e, held) (update-IsOrdered k _ s (λ j. refl) (λ j. refl) h)
  ]
  Step-IsOrdered {s} {t} (completed k e) h =
      rw (complete_shape k s t e) (update-IsOrdered k _ s (λ j. refl) (λ j. refl) h)
  Step-IsOrdered {s} {t} (failed_job now k error delay st e) h =
      rw (fail_shape k s now error delay t st e)
        (update-IsOrdered k _ s (λ j. ground arith) (λ j. ground arith) h)
  Step-IsOrdered {s} {t} (reclaimed now e) h =
      map-IsOrdered s t (release now) (λ j. ground arith) (λ j. ground arith) (ground arith)
        (ground arith) (ground arith) h
  Step-IsOrdered {s} {t} (touched now w c m e) h =
      same-IsOrdered s t (ground arith) (ground arith) (ground arith) h
  Step-IsOrdered {s} {t} (recorded k r e) h =
      same-IsOrdered s t (ground arith) (ground arith) (ground arith) h

  -- The ids ascend in the order of insertion and stay below the counter, and each job is the one
  -- registered under its dedupe key, in every state that calls can reach from such a state.
  pub Reach-IsOrdered : {s t : InMemoryDispatcher J} → Reach s t → IsOrdered s → IsOrdered t
  Reach-IsOrdered here h = h
  Reach-IsOrdered (next r st) h = Step-IsOrdered st (Reach-IsOrdered r h)

  abbrev pub fresh : ℕ → ℕ → InMemoryDispatcher J
  fresh capacity max_attempts = record {
    capacity = capacity;
    max_attempts = max_attempts;
    jobs = [];
    by_key = [];
    workers = [];
    executions = [];
    next_id = 1;
  }

  pub fresh-IsOrdered : (capacity max_attempts : ℕ) → IsOrdered (fresh capacity max_attempts)
  fresh-IsOrdered c m = record { ascending = tt; below = tt; keyed = tt }
