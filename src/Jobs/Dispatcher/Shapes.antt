-- ===== src/Jobs/Dispatcher/Shapes.antt =====
-- The calls of apps/api/app/jobs/dispatcher.py that write one job, as writes to the list of jobs.
use zero_node.Prelude.{
  ℕ, ◌+◌, String, ◌≡◌, refl, Bool, true, false, ◌&&◌, none, some, Option-cases, Bool-cases, ◌⊎◌,
  inl, inr, arith,
}
use zero_node.Jobs.State.{Status, is_running, MemoryJob, InMemoryDispatcher}
use zero_node.Jobs.Dispatcher.{find_job, update_job, opt_eq, failed, heartbeat, complete, fail}

module _ {J : Type 0} (k : ℕ) (s : InMemoryDispatcher J) where
  abbrev pub extended : ℕ → ℕ → InMemoryDispatcher J
  extended now l = record s {
    jobs = update_job k (λ j. record j { lease_expires_at = some (now + l) }) s.jobs;
  }

  -- Whose lease it is decides the answer.
  abbrev pub is_held : String → MemoryJob J → Bool
  is_held w job = is_running job.status && opt_eq job.lease_owner w

  pub heartbeat_cases :
      (now : ℕ) (w : String) (l : ℕ)
      → (heartbeat now k w l s ≡ (s, false)) ⊎ (heartbeat now k w l s ≡ (extended now l, true))
  unfolding heartbeat
  heartbeat_cases now w l = elim (Option-cases (find_job k s.jobs)) [
    | inl missing ↦ inl (rw (missing, heartbeat) refl)
    | inr (job, found) ↦ elim (Bool-cases (is_held w job)) [
      | inl held ↦ inr (rw (found, heartbeat) (rw held refl))
      | inr lost ↦ inl (rw (found, heartbeat) (rw lost refl))
    ]
  ]

  abbrev pub finished : MemoryJob J → MemoryJob J
  finished j = record j { status = Status.succeeded; lease_owner = none; lease_expires_at = none }

  pub complete_shape :
      (t : InMemoryDispatcher J)
      → complete k s ≡ some t
      → t ≡ record s { jobs = update_job k finished s.jobs }
  unfolding complete
  complete_shape t e = ground arith

  pub fail_shape :
      (now : ℕ) (error : String) (delay : ℕ) (t : InMemoryDispatcher J) (status : Status)
      → fail now k error delay s ≡ some (t, status)
      → t ≡ record s { jobs = update_job k (failed now error delay) s.jobs }
  unfolding fail
  fail_shape now error delay t status e = ground arith

  pub fail_status :
      (now : ℕ) (error : String) (delay : ℕ) (t : InMemoryDispatcher J) (status : Status)
      → fail now k error delay s ≡ some (t, status)
      → (j : MemoryJob J) × (find_job k s.jobs ≡ some j)
        × (status ≡ (failed now error delay j).status)
  unfolding fail
  fail_status now error delay t status e = elim (Option-cases (find_job k s.jobs)) [
    | inl missing ↦ absurd (ground arith)
    | inr (j, found) ↦ (j, found, ground arith)
  ]
