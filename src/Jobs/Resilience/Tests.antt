-- ===== src/Jobs/Resilience/Tests.antt =====
-- Runs of the circuit and of the retries: apps/api/app/jobs/resilience.py.
use zero_node.Prelude.{ℕ, ◌+◌, ◌≤◌, ◌≡◌, refl, true, [], ◌∷◌, arith, leb, if◌then◌else◌}
use zero_node.Prelude.Int.{pos}
use zero_node.Prelude.Text.{codes}
use zero_node.Jobs.Resilience.{
  allow, record_success, record_failure, Fault, Outcome, value, fault, returned, raised,
  call_with_retry,
}
use zero_node.Jobs.Resilience.Breaker.{new}
use zero_node.Jobs.Resilience.Retry.{
  Explained, call_with_retry_bounded, retries_until_success, exhaustion_counts_once,
}

abbrev timed_out : Fault
timed_out = record { known_class = true; name = codes "TimeoutError"; text = codes "timed out" }

-- Two attempts that time out, and then an answer.
abbrev third_time : ℕ → Outcome ℕ
third_time n = if leb n 2 then fault timed_out else value 42

abbrev never : ℕ → Outcome ℕ
never n = fault timed_out

abbrev ticking : ℕ → ℕ
ticking n = 100 + n

call_with_retry_bounded_example :
    let r = call_with_retry third_time ticking (λ e. e.known_class) (pos 2) 5 0 (new 3 30) in
    (r.calls ≤ 3)
    × Explained third_time ticking (λ e. e.known_class) 5 (pos 2) 0 (new 3 30) r.calls r.ending
call_with_retry_bounded_example =
    call_with_retry_bounded third_time ticking (λ e. e.known_class) 5 (pos 2) 0 (new 3 30)

retries_until_success_example :
    call_with_retry third_time ticking (λ e. e.known_class) (pos 2) 5 0 (new 3 30) ≡ record {
      ending = returned 42;
      circuit = record_success (new 3 30);
      calls = 3;
      sleeps = 5 ∷ 10 ∷ [];
    }
unfolding allow
retries_until_success_example =
    retries_until_success third_time ticking (λ e. e.known_class) 5 2 2 0 (new 3 30) 42 refl
      (omega arith) ((timed_out, refl, refl), ((timed_out, refl, refl), tt)) refl

exhaustion_counts_once_example :
    call_with_retry never ticking (λ e. e.known_class) (pos 2) 5 0 (new 3 30) ≡ record {
      ending = raised timed_out;
      circuit = record_failure 103 (new 3 30);
      calls = 3;
      sleeps = 5 ∷ 10 ∷ [];
    }
unfolding allow
exhaustion_counts_once_example =
    exhaustion_counts_once never ticking (λ e. e.known_class) 5 2 0 (new 3 30) timed_out refl
      ((timed_out, refl, refl), ((timed_out, refl, refl), tt)) refl
