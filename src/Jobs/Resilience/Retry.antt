-- ===== src/Jobs/Resilience/Retry.antt =====
-- How a bounded call ends: apps/api/app/jobs/resilience.py.
use zero_node.Prelude.{
  ℕ, zero, suc, ◌+◌, ◌*◌, ◌≤◌, ◌≡◌, refl, ap, transport, Bool, true, false, not, ◌||◌, Option, none,
  some, List, [], ◌∷◌, Bool-cases, ◌⊎◌, inl, inr, arith, leb,
}
use zero_node.Prelude.Int.{ℤ, pos, negsuc}
use zero_node.Jobs.Resilience.{
  CircuitBreaker, Fault, Outcome, value, circuit_open, fault, Ending, returned, refused, raised,
  reraised_open, assertion_failed, Run, allow, record_success, record_failure, attempt_from, rounds,
  call_with_retry,
}

module _ {A : Type 0} (outcome : ℕ → Outcome A) (clock : ℕ → ℕ) (transient : Fault → Bool)
    (backoff_seconds : ℕ) where
  Outcome-cases :
      (o : Outcome A)
      → ((v : A) × (o ≡ value v)) ⊎ ((o ≡ circuit_open) ⊎ ((e : Fault) × (o ≡ fault e)))
  Outcome-cases (value v) = inl (v, refl)
  Outcome-cases circuit_open = inr (inl refl)
  Outcome-cases (fault e) = inr (inr (e, refl))

  -- What the attempt `last` came to is what the loop ends with.
  abbrev Told : ℕ → Ending A → Type 0
  Told last (returned v) = outcome last ≡ value v
  Told last (raised e) = outcome last ≡ fault e
  Told last reraised_open = outcome last ≡ circuit_open
  Told last refused = ⊥
  Told last assertion_failed = ⊥

  -- The loop from `attempt` on starts the operation at most `left` times, and ends as the last attempt.
  abbrev Bounded : ℕ → ℕ → Run A → Type 0
  Bounded left attempt r =
      (r.calls ≤ left) × ((last : ℕ) × (last + 1 ≡ attempt + r.calls) × Told last r.ending)

  attempt_from-Bounded :
      (left attempt attempts : ℕ) (last_error : Option Fault) (c : CircuitBreaker)
      → attempt + left ≡ attempts
      → Bounded (suc left) attempt (
          attempt_from outcome clock transient backoff_seconds attempts
            (suc left)
            attempt
            last_error
            c)
  unfolding attempt_from
  attempt_from-Bounded zero attempt attempts last_error c e =
      elim (Outcome-cases (outcome attempt)) [
        | inl (v, is) ↦ rw (is, attempt_from) (omega arith, (attempt, omega arith, is))
        | inr (inl is) ↦ rw (is, attempt_from) (omega arith, (attempt, omega arith, is))
        | inr (inr (x, is)) ↦ elim (Bool-cases (not (transient x) || leb attempts attempt)) [
          | inl over ↦ rw (is, attempt_from) (rw over (omega arith, (attempt, omega arith, is)))
          | inr again ↦ absurd (ground arith)
        ]
      ]
  attempt_from-Bounded (suc left) attempt attempts last_error c e =
      elim (Outcome-cases (outcome attempt)) [
        | inl (v, is) ↦ rw (is, attempt_from) (omega arith, (attempt, omega arith, is))
        | inr (inl is) ↦ rw (is, attempt_from) (omega arith, (attempt, omega arith, is))
        | inr (inr (x, is)) ↦ elim (Bool-cases (not (transient x) || leb attempts attempt)) [
          | inl over ↦ rw (is, attempt_from) (rw over (omega arith, (attempt, omega arith, is)))
          | inr again ↦
              let (few, (last, at, told)) =
                attempt_from-Bounded left (attempt + 1) attempts (some x) c (omega arith) in
              rw (is, attempt_from) (rw again (omega (arith, few), (last, omega (arith, at), told)))
        ]
      ]

  -- What explains each ending of a call after `calls` starts of the operation.
  abbrev pub Explained : ℤ → ℕ → CircuitBreaker → ℕ → Ending A → Type 0
  Explained max_retries now c calls (returned v) = outcome calls ≡ value v
  Explained max_retries now c calls (raised e) = outcome calls ≡ fault e
  Explained max_retries now c calls reraised_open = outcome calls ≡ circuit_open
  Explained max_retries now c calls refused = (allow now c ≡ false) × (calls ≡ 0)
  Explained max_retries now c calls assertion_failed = (rounds max_retries ≡ 0) × (calls ≡ 0)

  Told-Explained :
      (max_retries : ℤ) (now : ℕ) (c : CircuitBreaker) (n : ℕ) (e : Ending A)
      → Told n e
      → Explained max_retries now c n e
  Told-Explained max_retries now c n (returned v) h = h
  Told-Explained max_retries now c n (raised e) h = h
  Told-Explained max_retries now c n reraised_open h = h
  Told-Explained max_retries now c n refused h = absurd h
  Told-Explained max_retries now c n assertion_failed h = absurd h

  loop-Explained :
      (now : ℕ) (c : CircuitBreaker) (m : ℤ)
      → let r =
          attempt_from outcome clock transient backoff_seconds (rounds m) (rounds m) 1 none c in
        (r.calls ≤ rounds m) × Explained m now c r.calls r.ending
  unfolding attempt_from
  loop-Explained now c (negsuc n) = (omega arith, (refl, refl))
  loop-Explained now c (pos n) =
      let r = attempt_from outcome clock transient backoff_seconds (suc n) (suc n) 1 none c in
      let (few, (last, at, told)) = attempt_from-Bounded n 1 (suc n) none c (omega arith) in
      let here : last ≡ r.calls = omega arith in
      (
        few,
        Told-Explained (pos n) now c r.calls r.ending
            (transport (ap (λ k. Told k r.ending) here) told),
      )

  -- The operation is started at most `max_retries + 1` times, never if `max_retries` is negative, and
  -- the call always ends: it returns what the last attempt returned, or raises what the last attempt
  -- raised; the circuit refuses it before an attempt only when it does not allow one, and the
  -- assertion behind the loop fails only when there is no round, which a negative `max_retries` is.
  pub call_with_retry_bounded :
      (max_retries : ℤ) (now : ℕ) (c : CircuitBreaker)
      → let r = call_with_retry outcome clock transient max_retries backoff_seconds now c in
        (r.calls ≤ rounds max_retries) × Explained max_retries now c r.calls r.ending
  unfolding call_with_retry
  call_with_retry_bounded max_retries now c = elim (Bool-cases (allow now c)) [
    | inr stopped ↦ rw (stopped, call_with_retry) (omega arith, (stopped, refl))
    | inl admitted ↦ rw (admitted, call_with_retry) (loop-Explained now c max_retries)
  ]

  -- The sleeps between `n` attempts that follow one another from `attempt`.
  abbrev pub backoffs : ℕ → ℕ → List ℕ
  backoffs zero attempt = []
  backoffs (suc n) attempt = (backoff_seconds * attempt) ∷ backoffs n (attempt + 1)

  -- The attempts from `attempt` on, `n` of them, each fail in a way that may be retried.
  abbrev pub FailFor : ℕ → ℕ → Type 0
  FailFor zero attempt = Unit
  FailFor (suc n) attempt =
      ((e : Fault) × (outcome attempt ≡ fault e) × (transient e ≡ true)) × FailFor n (attempt + 1)

  attempt_from-succeeds :
      (n left attempt attempts last : ℕ) (before : Option Fault) (c : CircuitBreaker) (v : A)
      → n ≤ left
      → attempt + left ≡ attempts
      → attempt + n ≡ last
      → FailFor n attempt
      → outcome last ≡ value v
      → attempt_from outcome clock transient backoff_seconds attempts (suc left) attempt before c
        ≡ record {
          ending = returned v;
          circuit = record_success c;
          calls = n + 1;
          sleeps = backoffs n attempt;
        }
  unfolding attempt_from
  attempt_from-succeeds zero left attempt attempts last before c v few e at f ok =
      let here : attempt ≡ last = omega arith in rw (here, ok, attempt_from) (ground arith)
  attempt_from-succeeds (suc n) zero attempt attempts last before c v few e at f ok =
      absurd (omega arith)
  attempt_from-succeeds (suc n) (suc left) attempt attempts last before c v few e at f ok =
      let (x, is_fault, may_retry) = f.0 in
      ground (
        arith,
        is_fault,
        may_retry,
        attempt_from-succeeds n left (attempt + 1) attempts last (some x) c v (omega arith)
            (omega arith) (omega arith) f.1 ok,
      )

  attempt_from-exhausts :
      (n attempt attempts last : ℕ) (before : Option Fault) (c : CircuitBreaker) (x : Fault)
      → attempt + n ≡ attempts
      → attempt + n ≡ last
      → FailFor n attempt
      → outcome last ≡ fault x
      → attempt_from outcome clock transient backoff_seconds attempts (suc n) attempt before c
        ≡ record {
          ending = raised x;
          circuit = record_failure (clock last) c;
          calls = n + 1;
          sleeps = backoffs n attempt;
        }
  unfolding attempt_from
  attempt_from-exhausts zero attempt attempts last before c x e at f ok =
      let here : attempt ≡ last = omega arith in rw (here, ok, attempt_from) (ground arith)
  attempt_from-exhausts (suc n) attempt attempts last before c x e at f ok =
      let (y, is_fault, may_retry) = f.0 in
      ground (
        arith,
        is_fault,
        may_retry,
        attempt_from-exhausts n (attempt + 1) attempts last (some y) c x (omega arith) (omega arith)
            f.1 ok,
      )

  -- If the circuit admits the call, the first `n` attempts fail in ways that may be retried, with
  -- `n` no larger than the retries, and the next returns, then the call returns that value after
  -- `n + 1` starts, having slept the backoff times 1, 2, ..., `n`, and the circuit is closed with no
  -- failures.
  pub retries_until_success :
      (n max_retries now : ℕ) (c : CircuitBreaker) (v : A)
      → allow now c ≡ true
      → n ≤ max_retries
      → FailFor n 1
      → outcome (n + 1) ≡ value v
      → call_with_retry outcome clock transient (pos max_retries) backoff_seconds now c ≡ record {
        ending = returned v;
        circuit = record_success c;
        calls = n + 1;
        sleeps = backoffs n 1;
      }
  unfolding call_with_retry
  retries_until_success n max_retries now c v admitted few f ok = rw admitted (
      attempt_from-succeeds n max_retries 1 (suc max_retries) (n + 1) none c v few (omega arith)
        (omega arith) f ok)

  -- If the circuit admits the call and every one of the `max_retries + 1` attempts fails, all but
  -- perhaps the last in ways that may be retried, then the last error is raised, and the whole
  -- call counts as one failure of the circuit, however many attempts it made.
  pub exhaustion_counts_once :
      (max_retries now : ℕ) (c : CircuitBreaker) (x : Fault)
      → allow now c ≡ true
      → FailFor max_retries 1
      → outcome (max_retries + 1) ≡ fault x
      → call_with_retry outcome clock transient (pos max_retries) backoff_seconds now c ≡ record {
        ending = raised x;
        circuit = record_failure (clock (max_retries + 1)) c;
        calls = max_retries + 1;
        sleeps = backoffs max_retries 1;
      }
  unfolding call_with_retry
  exhaustion_counts_once max_retries now c x admitted f ok = rw admitted (
      attempt_from-exhausts max_retries 1 (suc max_retries) (max_retries + 1) none c x (omega arith)
        (omega arith) f ok)
