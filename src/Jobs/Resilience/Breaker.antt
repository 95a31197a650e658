-- ===== src/Jobs/Resilience/Breaker.antt =====
-- When the circuit opens and closes: apps/api/app/jobs/resilience.py.
use zero_node.Prelude.{
  ℕ, ◌+◌, ◌-◌, ◌≤◌, ◌<◌, ◌≡◌, refl, true, false, none, List, [], ◌∷◌, Option-cases, Bool-cases, inl,
  inr, arith, leb,
}
use zero_node.Jobs.Resilience.{CircuitBreaker, closed, allow, record_success, record_failure, state}

-- The calls that write the breaker, in the order in which they take its lock.
pub data Event : Type 0 where
  success : Event
  failure : ℕ → Event

abbrev pub after : List Event → CircuitBreaker → CircuitBreaker
after [] c = c
after (success ∷ es) c = after es (record_success c)
after (failure now ∷ es) c = after es (record_failure now c)

-- Closed exactly while the failures counted are fewer than the threshold.
pub record IsConsistent (c : CircuitBreaker) : Type 0 where
  pub positive : 0 < c.failure_threshold
  pub below : c.opened_at ≡ none → c.failures < c.failure_threshold
  pub reached : c.failures < c.failure_threshold → c.opened_at ≡ none

success-IsConsistent : {c : CircuitBreaker} → IsConsistent c → IsConsistent (record_success c)
unfolding record_success
success-IsConsistent h = record {
  positive = h.positive;
  below = λ e. h.positive;
  reached = λ e. refl;
}

failure-IsConsistent :
    (now : ℕ) (c : CircuitBreaker) → IsConsistent c → IsConsistent (record_failure now c)
unfolding record_failure
failure-IsConsistent now c h = elim (Bool-cases (leb c.failure_threshold (c.failures + 1))) [
  | inl trips ↦
      rw trips
        (record { positive = h.positive; below = λ e. cc; reached = λ e. absurd (ground arith) })
  | inr stays ↦ rw stays (record {
    positive = h.positive;
    below = λ e. ground arith;
    reached = λ e. h.reached (omega arith);
  })
]

after-IsConsistent :
    (es : List Event) (c : CircuitBreaker) → IsConsistent c → IsConsistent (after es c)
after-IsConsistent [] c h = h
after-IsConsistent (success ∷ es) c h =
    after-IsConsistent es (record_success c) (success-IsConsistent h)
after-IsConsistent (failure now ∷ es) c h =
    after-IsConsistent es (record_failure now c) (failure-IsConsistent now c h)

abbrev pub new : ℕ → ℕ → CircuitBreaker
new threshold reset = record {
  failure_threshold = threshold;
  reset_seconds = reset;
  failures = 0;
  opened_at = none;
}

-- With a positive threshold, whatever successes and failures a new breaker records, in any order,
-- its state is closed exactly when the failures since the last success are fewer than the
-- threshold.
pub state_closed_iff :
    (threshold reset now : ℕ) (es : List Event)
    → 0 < threshold
    → let c = after es (new threshold reset) in
      (state now c ≡ closed → c.failures < c.failure_threshold)
      × (c.failures < c.failure_threshold → state now c ≡ closed)
unfolding state
state_closed_iff threshold reset now es h =
    let c = after es (new threshold reset) in
    let ok : IsConsistent c =
      after-IsConsistent es (new threshold reset)
        (record { positive = h; below = λ e. h; reached = λ e. refl }) in
    split c ok
  where
    split :
        (c : CircuitBreaker)
        → IsConsistent c
        → (state now c ≡ closed → c.failures < c.failure_threshold)
          × (c.failures < c.failure_threshold → state now c ≡ closed)
    split c ok = elim (Option-cases c.opened_at) [
      | inl none_yet ↦ (λ e. ok.below none_yet, λ e. rw (none_yet, state) refl)
      | inr (at, since) ↦ (λ e. absurd (ground arith), λ lt. rw (ok.reached lt, state) refl)
    ]

-- A failure that reaches the threshold refuses every call until the reset time has passed, and then
-- admits calls again, as many as ask: admitting one records nothing.
pub allow_after_failure :
    (c : CircuitBreaker) (now later : ℕ)
    → c.failure_threshold ≤ c.failures + 1
    → (later - now < c.reset_seconds → allow later (record_failure now c) ≡ false)
      × (c.reset_seconds ≤ later - now → allow later (record_failure now c) ≡ true)
unfolding record_failure allow
allow_after_failure c now later h = ground arith
