-- ===== src/Jobs/Dispatcher/Claim.antt =====
-- Claims of jobs: apps/api/app/jobs/dispatcher.py.
use zero_node.Prelude.{
  ℕ, ◌≤◌, String, ◌≡◌, ◌≢◌, refl, sym, ◌∙◌, Bool, true, ◌||◌, Option, none, some, List, [], ◌∷◌,
  map, first, first-map, first_passes, map_option, ap, Option-cases, Bool-cases, inl, inr, arith,
  ◌==◌,
}
use zero_node.Jobs.State.{Job, MemoryJob, InMemoryDispatcher}
use zero_node.Jobs.Dispatcher.{
  find_job, update_job, is_ready, lease_expired, requeue, lease, snapshot, claim,
}
use zero_node.Jobs.Dispatcher.Order.{IsAscending, sort-ascending, map-IsAscending, first-Above}
use zero_node.Jobs.Dispatcher.Invariant.{IsOrdered}

module _ {J : Type 0} where
  -- What a claim may take, said of the stored job: it is queued and due, or its lease has run out.
  abbrev pub is_claimable : ℕ → MemoryJob J → Bool
  is_claimable now job = is_ready now job || lease_expired now job

  ready-requeue :
      (now : ℕ) (job : MemoryJob J) → is_ready now (requeue now job) ≡ is_claimable now job
  ready-requeue now job = ground arith

  -- The result of a claim and the jobs it leaves, by the first claimable job.
  abbrev pub taken : ℕ → String → ℕ → Option (MemoryJob J) → Option (Job J)
  taken now w l none = none
  taken now w l (some job) = some (snapshot (lease now w l (requeue now job)))

  -- A claim takes the first job, in the order of the ids, that is queued and due or whose lease has
  -- run out; it answers with that job, running, with one attempt more, and with nothing exactly when
  -- there is no such job. The limit on the attempts has no part in it.
  pub claim-eq-first :
      (now : ℕ) (w : String) (l : ℕ) (s : InMemoryDispatcher J)
      → IsOrdered s
      → (claim now w l s).1 ≡ taken now w l (first (is_claimable now) s.jobs)
  unfolding claim
  claim-eq-first now w l s h =
      rw
        (
          sort-ascending (map (requeue now) s.jobs)
              (map-IsAscending (requeue now) s.jobs (λ j. ground arith) h.ascending),
          claim,
        )
        (rw
          (
            first-map (is_ready now) (is_claimable now) (requeue now) (ready-requeue now) s.jobs,
            claim,
          )
          (elim (Option-cases (first (is_claimable now) s.jobs)) [
            | inl idle ↦ rw (idle, claim) refl
            | inr (job, found) ↦ rw (found, claim) refl
          ]))

  first_least :
      (p : MemoryJob J → Bool) (k : ℕ) (jobs : List (MemoryJob J)) (a j : MemoryJob J)
      → IsAscending jobs
      → first p jobs ≡ some a
      → find_job k jobs ≡ some j
      → p j ≡ true
      → a.id ≤ k
  first_least p k [] a j h e f pj = cc
  first_least p k (x ∷ xs) a j h e f pj = elim (Bool-cases (p x)) [
    | inl hit ↦ elim (Bool-cases (x.id == k)) [
      | inl same ↦ ground arith
      | inr other ↦ ground (
        arith,
        first-Above x.id (λ i. i.id == k) xs j h.0,
        first_passes (λ i. i.id == k) xs {x = j},
      )
    ]
    | inr miss ↦ elim (Bool-cases (x.id == k)) [
      | inl same ↦ ground arith
      | inr other ↦ first_least p k xs a j h.1 (ground arith) (ground arith) pj
    ]
  ]

  pub first_same :
      (p : MemoryJob J → Bool) (k : ℕ) (jobs : List (MemoryJob J)) (a j : MemoryJob J)
      → IsAscending jobs
      → first p jobs ≡ some a
      → find_job k jobs ≡ some j
      → a.id ≡ k
      → a ≡ j
  first_same p k [] a j h e f same = cc
  first_same p k (x ∷ xs) a j h e f same = elim (Bool-cases (p x)) [
    | inl hit ↦ ground arith
    | inr miss ↦ elim (Bool-cases (x.id == k)) [
      | inl eq ↦ absurd (ground (arith, first-Above x.id p xs a h.0))
      | inr other ↦ first_same p k xs a j h.1 (ground arith) (ground arith) same
    ]
  ]

  pub find-first :
      (p : MemoryJob J → Bool) (jobs : List (MemoryJob J)) (a : MemoryJob J)
      → IsAscending jobs
      → first p jobs ≡ some a
      → find_job a.id jobs ≡ some a
  find-first p [] a h e = cc
  find-first p (x ∷ xs) a h e = elim (Bool-cases (p x)) [
    | inl hit ↦ ground arith
    | inr miss ↦ ground (arith, find-first p xs a h.1, first-Above x.id p xs a h.0)
  ]

  pub find-update_ne :
      (k m : ℕ) (f : MemoryJob J → MemoryJob J) (jobs : List (MemoryJob J))
      → m ≢ k
      → ((job : MemoryJob J) → (f job).id ≡ job.id)
      → find_job k (update_job m f jobs) ≡ find_job k jobs
  find-update_ne k m f [] ne keep = refl
  find-update_ne k m f (x ∷ xs) ne keep = ground (arith, keep x, find-update_ne k m f xs ne keep)

  pub find-update_self :
      (k : ℕ) (f : MemoryJob J → MemoryJob J) (jobs : List (MemoryJob J)) (job : MemoryJob J)
      → ((j : MemoryJob J) → (f j).id ≡ j.id)
      → find_job k jobs ≡ some job
      → find_job k (update_job k f jobs) ≡ some (f job)
  find-update_self k f [] job keep e = cc
  find-update_self k f (x ∷ xs) job keep e =
      ground (arith, keep x, find-update_self k f xs job keep)

  pub find-requeue :
      (now k : ℕ) (jobs : List (MemoryJob J))
      → find_job k (map (requeue now) jobs) ≡ map_option (requeue now) (find_job k jobs)
  find-requeue now k = first-map (λ j. j.id == k) (λ j. j.id == k) (requeue now) (λ j. ground arith)

  -- No claim hands out an older job late: a stored job that could have been taken has an id at
  -- least that of the job taken.
  pub claim_least :
      (now : ℕ) (w : String) (l : ℕ) (s : InMemoryDispatcher J) (k : ℕ) (j : MemoryJob J)
      (result : Job J)
      → IsOrdered s
      → (claim now w l s).1 ≡ some result
      → find_job k s.jobs ≡ some j
      → is_claimable now j ≡ true
      → result.id ≤ k
  claim_least now w l s k j result h e found can =
      elim (Option-cases (first (is_claimable now) s.jobs)) [
        | inl idle ↦ cc (sym e ∙ claim-eq-first now w l s h, ap (taken now w l) idle)
        | inr (a, first_is) ↦ ground (
          arith,
          sym e ∙ claim-eq-first now w l s h,
          ap (taken now w l) first_is,
          first_least (is_claimable now) k s.jobs a j h.ascending first_is found can,
        )
      ]
