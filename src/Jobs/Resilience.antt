-- ===== src/Jobs/Resilience.antt =====
-- Bounded model calls: apps/api/app/jobs/resilience.py. Times are ticks of `time.monotonic()`.
-- What the worker thread of `_run_with_timeout` comes to at each attempt is `outcome`, and the clock
-- when an attempt fails is `clock`: both are the environment's.
pub mod Breaker
pub mod Retry
pub mod Tests
use zero_node.Prelude.{
  ℕ, zero, suc, ◌+◌, ◌-◌, ◌*◌, Bool, true, false, not, ◌||◌, Option, none, some, List, [], ◌∷◌, leb,
  if◌then◌else◌,
}
use zero_node.Prelude.Int.{ℤ, pos, negsuc}
use zero_node.Prelude.Text.{Text, codes, lower, contains_text}

pub record CircuitBreaker : Type 0 where
  pub failure_threshold : ℕ
  pub reset_seconds : ℕ
  pub failures : ℕ
  pub opened_at : Option ℕ

pub data CircuitState : Type 0 where
  closed half_open opened : CircuitState

abbrev waited : ℕ → CircuitBreaker → Option ℕ → Bool
waited now c none = true
waited now c (some at) = leb c.reset_seconds (now - at)

pub allow : ℕ → CircuitBreaker → Bool
allow now c = waited now c c.opened_at

pub record_success : CircuitBreaker → CircuitBreaker
record_success c = record c { failures = 0; opened_at = none }

pub record_failure : ℕ → CircuitBreaker → CircuitBreaker
record_failure now c =
    if leb c.failure_threshold (c.failures + 1)
    then record c { failures = c.failures + 1; opened_at = some now }
    else record c { failures = c.failures + 1 }

abbrev state_at : ℕ → CircuitBreaker → Option ℕ → CircuitState
state_at now c none = closed
state_at now c (some at) = if leb c.reset_seconds (now - at) then half_open else opened

pub state : ℕ → CircuitBreaker → CircuitState
state now c = state_at now c c.opened_at

-- An exception: whether its class is one of `TimeoutError`, `ConnectionError`, `OSError` and
-- `CircuitOpen` or below them, the name of its class, and its text.
pub record Fault : Type 0 where
  pub known_class : Bool
  pub name : Text
  pub text : Text

abbrev any_in : List Text → Text → Text → Bool
any_in [] name text = false
any_in (n ∷ ns) name text = contains_text name n || contains_text text n || any_in ns name text

pub default_transient : Fault → Bool
default_transient e =
    if e.known_class
    then true
    else any_in
        (codes "timeout"
          ∷ codes "timed out"
          ∷ codes "connection"
          ∷ codes "temporarily"
          ∷ codes "unavailable"
          ∷ codes "503"
          ∷ [])
        (lower e.name) (lower e.text)

-- One attempt: the operation returned, raised `CircuitOpen`, or raised something else (a timeout
-- included).
pub data Outcome (A : Type 0) : Type 0 where
  value : A → Outcome A
  circuit_open : Outcome A
  fault : Fault → Outcome A

pub data Ending (A : Type 0) : Type 0 where
  returned : A → Ending A
  refused : Ending A
  raised : Fault → Ending A
  reraised_open : Ending A
  assertion_failed : Ending A

-- What a call leaves behind: how it ended, the circuit, how often the operation was started, and
-- the sleeps between.
pub record Run (A : Type 0) : Type 0 where
  pub ending : Ending A
  pub circuit : CircuitBreaker
  pub calls : ℕ
  pub sleeps : List ℕ

module _ {A : Type 0} (outcome : ℕ → Outcome A) (clock : ℕ → ℕ) (transient : Fault → Bool)
    (backoff_seconds attempts : ℕ) where
  -- The `assert` and the `raise` after the loop.
  abbrev after_loop : Option Fault → Ending A
  after_loop none = assertion_failed
  after_loop (some e) = raised e

  -- The `for` loop from `attempt` on and what follows it, with the number of rounds left and
  -- `last_error`.
  pub attempt_from : ℕ → ℕ → Option Fault → CircuitBreaker → Run A
  attempt_from zero attempt last_error c = record {
    ending = after_loop last_error;
    circuit = c;
    calls = 0;
    sleeps = [];
  }
  attempt_from (suc left) attempt last_error c = elim (outcome attempt) [
    | value v ↦ record { ending = returned v; circuit = record_success c; calls = 1; sleeps = [] }
    | circuit_open ↦ record { ending = reraised_open; circuit = c; calls = 1; sleeps = [] }
    | fault e ↦ elim (not (transient e) || leb attempts attempt) [
      | true ↦ record {
        ending = raised e;
        circuit = record_failure (clock attempt) c;
        calls = 1;
        sleeps = [];
      }
      | false ↦
          let rest = attempt_from left (attempt + 1) (some e) c in
          record {
            ending = rest.ending;
            circuit = rest.circuit;
            calls = rest.calls + 1;
            sleeps = (backoff_seconds * attempt) ∷ rest.sleeps;
          }
    ]
  ]

-- The rounds of `range(1, max_retries + 2)`, none for a negative number of retries.
abbrev pub rounds : ℤ → ℕ
rounds (pos n) = suc n
rounds (negsuc n) = 0

pub call_with_retry :
    {A : Type 0} → (ℕ → Outcome A) → (ℕ → ℕ) → (Fault → Bool) → ℤ → ℕ → ℕ → CircuitBreaker → Run A
unfolding attempt_from
call_with_retry outcome clock transient max_retries backoff now c =
    if allow now c
    then attempt_from outcome clock transient backoff (rounds max_retries) (rounds max_retries) 1
        none c
    else record { ending = refused; circuit = c; calls = 0; sleeps = [] }
