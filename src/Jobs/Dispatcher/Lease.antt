-- ===== src/Jobs/Dispatcher/Lease.antt =====
-- Claims and heartbeats on a job with a live lease: apps/api/app/jobs/dispatcher.py.
use zero_node.Prelude.{
  ℕ, ◌+◌, ◌≤◌, String, ◌≡◌, ◌≢◌, refl, sym, ap, ◌∙◌, false, Option, none, some, List, map, first,
  first_passes, map_option, Option-cases, inl, inr, arith, eq_iff,
}
use zero_node.Jobs.State.{Status, Job, MemoryJob, InMemoryDispatcher}
use zero_node.Jobs.Dispatcher.{
  find_job, update_job, is_ready, requeue, lease, snapshot, claim, heartbeat,
}
use zero_node.Jobs.Dispatcher.Order.{sort-ascending, map-IsAscending}
use zero_node.Jobs.Dispatcher.Invariant.{IsOrdered}
use zero_node.Jobs.Dispatcher.Claim.{
  is_claimable, taken, claim-eq-first, first_same, find-first, find-update_ne, find-update_self,
  find-requeue,
}

module _ {J : Type 0} where
  -- The jobs after a claim.
  abbrev left_by : ℕ → String → ℕ → List (MemoryJob J) → Option (MemoryJob J) → List (MemoryJob J)
  left_by now w l jobs none = map (requeue now) jobs
  left_by now w l jobs (some a) = update_job a.id (lease now w l) (map (requeue now) jobs)

  jobs-claim :
      (now : ℕ) (w : String) (l : ℕ) (s : InMemoryDispatcher J)
      → IsOrdered s
      → (claim now w l s).0.jobs
        ≡ left_by now w l s.jobs (first (is_ready now) (map (requeue now) s.jobs))
  unfolding claim
  jobs-claim now w l s h =
      rw
        (
          sort-ascending (map (requeue now) s.jobs)
              (map-IsAscending (requeue now) s.jobs (λ j. ground arith) h.ascending),
          claim,
        )
        (elim (Option-cases (first (is_ready now) (map (requeue now) s.jobs))) [
          | inl idle ↦ rw (idle, claim) refl
          | inr (job, found) ↦ rw (found, claim) refl
        ])

  abbrev answer : ℕ → String → ℕ → Option (MemoryJob J) → Option (Job J)
  answer now w l none = none
  answer now w l (some a) = some (snapshot (lease now w l a))

  answer-claim :
      (now : ℕ) (w : String) (l : ℕ) (s : InMemoryDispatcher J)
      → IsOrdered s
      → (claim now w l s).1 ≡ answer now w l (first (is_ready now) (map (requeue now) s.jobs))
  unfolding claim
  answer-claim now w l s h =
      rw
        (
          sort-ascending (map (requeue now) s.jobs)
              (map-IsAscending (requeue now) s.jobs (λ j. ground arith) h.ascending),
          claim,
        )
        (elim (Option-cases (first (is_ready now) (map (requeue now) s.jobs))) [
          | inl idle ↦ rw (idle, claim) refl
          | inr (job, found) ↦ rw (found, claim) refl
        ])

  -- A running job whose lease has not run out is left as it is by every claim, whoever makes it,
  -- and the claim does not answer with it.
  pub claim_respects_lease :
      (now : ℕ) (w : String) (l : ℕ) (s : InMemoryDispatcher J) (k until : ℕ) (j : MemoryJob J)
      → IsOrdered s
      → find_job k s.jobs ≡ some j
      → j.status ≡ Status.running
      → j.lease_expires_at ≡ some until
      → now ≤ until
      → (find_job k (claim now w l s).0.jobs ≡ some j)
        × ((result : Job J) → (claim now w l s).1 ≡ some result → result.id ≢ k)
  claim_respects_lease now w l s k until j h found runs lease_is alive =
      let mapped : find_job k (map (requeue now) s.jobs) ≡ some j =
        find-requeue now k s.jobs ∙ ap (map_option (requeue now)) found ∙ ground arith in
      let busy : is_ready now j ≡ false = ground arith in
      let idle : is_claimable now j ≡ false = ground arith in
      (
        rw (jobs-claim now w l s h)
            (elim (Option-cases (first (is_ready now) (map (requeue now) s.jobs))) [
              | inl nothing ↦ rw (nothing, left_by) mapped
              | inr (a, first_is) ↦
                  rw (first_is, left_by)
                    (find-update_ne k a.id (lease now w l) (map (requeue now) s.jobs)
                        (λ same. not_same a first_is mapped busy same) (λ i. refl)
                      ∙ mapped)
            ]),
        λ result e. elim (Option-cases (first (is_claimable now) s.jobs)) [
          | inl nothing ↦ cc (sym e ∙ claim-eq-first now w l s h, ap (taken now w l) nothing)
          | inr (a, first_is) ↦ λ same.
              not_claimed a first_is idle
                (ground (arith, sym e ∙ claim-eq-first now w l s h, ap (taken now w l) first_is))
        ],
      )
    where
      not_same :
          (a : MemoryJob J)
          → first (is_ready now) (map (requeue now) s.jobs) ≡ some a
          → find_job k (map (requeue now) s.jobs) ≡ some j
          → is_ready now j ≡ false
          → a.id ≢ k
      not_same a e f busy same = cc (
        sym busy,
        ap (is_ready now) (
            first_same (is_ready now) k (map (requeue now) s.jobs) a j
              (map-IsAscending (requeue now) s.jobs (λ i. ground arith) h.ascending) e f same),
        first_passes (is_ready now) (map (requeue now) s.jobs) e,
      )

      not_claimed :
          (a : MemoryJob J)
          → first (is_claimable now) s.jobs ≡ some a
          → is_claimable now j ≡ false
          → a.id ≢ k
      not_claimed a e no_claim same = cc (
        sym no_claim,
        ap (is_claimable now) (first_same (is_claimable now) k s.jobs a j h.ascending e found same),
        first_passes (is_claimable now) s.jobs e,
      )

  -- What `claim` answers with is what the queue now holds: that job, running, leased to the worker
  -- until `now` and the lease seconds.
  pub claim_leases :
      (now : ℕ) (w : String) (l : ℕ) (s : InMemoryDispatcher J) (result : Job J)
      → IsOrdered s
      → (claim now w l s).1 ≡ some result
      → (j : MemoryJob J) × (find_job result.id (claim now w l s).0.jobs ≡ some j)
        × (snapshot j ≡ result)
        × (j.status ≡ Status.running)
        × (j.lease_owner ≡ some w)
        × (j.lease_expires_at ≡ some (now + l))
  claim_leases now w l s result h e =
      elim (Option-cases (first (is_ready now) (map (requeue now) s.jobs))) [
        | inl idle ↦ cc (sym e ∙ answer-claim now w l s h, ap (answer now w l) idle)
        | inr (a, first_is) ↦
            let is_a : snapshot (lease now w l a) ≡ result =
              ground (arith, sym e ∙ answer-claim now w l s h, ap (answer now w l) first_is) in
            let up = map-IsAscending (requeue now) s.jobs (λ j. ground arith) h.ascending in
            (
              lease now w l a,
              rw (← is_a, jobs-claim now w l s h)
                  (rw (first_is, left_by)
                    (find-update_self a.id (lease now w l) (map (requeue now) s.jobs) a (λ j. refl)
                      (find-first (is_ready now) (map (requeue now) s.jobs) a up first_is))),
              is_a,
              refl,
              refl,
              refl,
            )
      ]

  -- Once a claim has given a job to a worker, a heartbeat for it from any other worker is refused
  -- and changes nothing.
  pub heartbeat_after_claim :
      (now : ℕ) (w : String) (l : ℕ) (s : InMemoryDispatcher J) (result : Job J) (later seconds : ℕ)
      (other : String)
      → IsOrdered s
      → (claim now w l s).1 ≡ some result
      → other ≢ w
      → heartbeat later result.id other seconds (claim now w l s).0 ≡ ((claim now w l s).0, false)
  heartbeat_after_claim now w l s result later seconds other h e ne =
      let (j, found, _, _, owner, _) = claim_leases now w l s result h e in
      refused_at (claim now w l s).0 j found owner
    where
      refused_at :
          (t : InMemoryDispatcher J) (j : MemoryJob J)
          → find_job result.id t.jobs ≡ some j
          → j.lease_owner ≡ some w
          → heartbeat later result.id other seconds t ≡ (t, false)
      refused_at t j found owner =
          unfold heartbeat in
          rw (found, heartbeat) (rw owner (ground (arith, eq_iff w other, λ (p : other ≡ w). ne p)))
