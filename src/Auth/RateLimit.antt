-- ===== src/Auth/RateLimit.antt =====
-- The sliding window before a login or a webhook: apps/api/app/auth/ratelimit.py. Times are numbers of
-- clock ticks.
pub mod Bounded
pub mod Tests
use zero_node.Prelude.{
  ℕ, ◌+◌, ◌-◌, String, Bool, true, false, Option, none, some, List, [], ◌∷◌, ◌++◌, length, leb, ltb,
  lookup, insert, if◌then◌else◌,
}

pub record SlidingWindow : Type 0 where
  pub limit : ℕ
  pub window : ℕ
  pub hits : List (String × List ℕ)

-- The answer of a call; with a limit of 0 it reads the first of no hits, which is an `IndexError`.
pub data Verdict : Type 0 where
  allowed : Verdict
  refused : ℕ → Verdict
  no_first_hit : Verdict

-- `while hits and moment - hits[0] > self.window`
abbrev pub expire : ℕ → ℕ → List ℕ → List ℕ
expire window moment [] = []
expire window moment (h ∷ hs) = elim (ltb (h + window) moment) [
  | true ↦ expire window moment hs
  | false ↦ h ∷ hs
]

-- `self._hits[key]`
abbrev pub hits_of : String → List (String × List ℕ) → List ℕ
hits_of key d = elim (lookup key d) [ none ↦ [] | some hs ↦ hs ]

-- `max(1, int(self.window - (moment - hits[0])))`
abbrev pub retry_after : ℕ → ℕ → List ℕ → Verdict
retry_after window moment [] = no_first_hit
retry_after window moment (h ∷ hs) =
    refused (if ltb 1 (h + window - moment) then h + window - moment else 1)

unfoldable pub check : String → ℕ → SlidingWindow → SlidingWindow × Verdict
check key moment s =
    let hs = expire s.window moment (hits_of key s.hits) in
    if leb s.limit (length hs)
    then (record s { hits = insert key hs s.hits }, retry_after s.window moment hs)
    else (record s { hits = insert key (hs ++ moment ∷ []) s.hits }, allowed)
