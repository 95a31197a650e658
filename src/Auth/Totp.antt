-- ===== src/Auth/Totp.antt =====
-- The check of a one-time password: `verify` of apps/api/app/auth/totp.py. The parameter `hotp` is
-- `_hotp`, which is HMAC-SHA-1 on a counter; a negative counter is a `struct.error`.
use zero_node.Prelude.{
  ℕ, zero, suc, ◌+◌, ◌-◌, ◌/◌, ◌≤◌, ◌<◌, ◌≡◌, Bool, true, false, not, ◌||◌, Option, none, some, [],
  ◌∷◌, length, ltb, ◌==◌, Bool-cases, inl, inr, arith, if◌then◌else◌,
}
use zero_node.Prelude.Text.{Text, text_eq, text_eq→eq, is_number, strip}

abbrev period : ℕ
period = 30

-- `.replace(" ", "")`
abbrev without_blanks : Text → Text
without_blanks [] = []
without_blanks (c ∷ s) = let rest = without_blanks s in if c == 32 then rest else c ∷ rest

-- `range(-window, window + 1)` from a counter that is `window` too high: `none` is an exception.
abbrev drifts : (Text → ℕ → Text) → Text → Text → ℕ → ℕ → ℕ → Option Bool
drifts hotp secret candidate window counter zero = some false
drifts hotp secret candidate window counter (suc left) = elim (ltb counter window) [
  | true ↦ none
  | false ↦ elim (text_eq (hotp secret (counter - window)) candidate) [
    | true ↦ some true
    | false ↦ drifts hotp secret candidate window (counter + 1) left
  ]
]

unfoldable pub verify : (Text → ℕ → Text) → Text → Text → ℕ → ℕ → Option Bool
verify hotp secret code timestamp window =
    let candidate = without_blanks (strip code) in
    if not (is_number candidate) || not (length candidate == 6)
    then some false
    else drifts hotp secret candidate window (timestamp / period) (window + window + 1)

drifts-near :
    (hotp : Text → ℕ → Text) (secret candidate : Text) (window counter left : ℕ)
    → drifts hotp secret candidate window counter left ≡ some true
    → (c : ℕ) × (hotp secret c ≡ candidate) × (counter ≤ c + window) × (c + window < counter + left)
drifts-near hotp secret candidate window counter zero e = absurd (ground arith)
drifts-near hotp secret candidate window counter (suc left) e =
    elim (Bool-cases (ltb counter window)) [
      | inl early ↦ absurd (ground arith)
      | inr late ↦ elim (Bool-cases (text_eq (hotp secret (counter - window)) candidate)) [
        | inl hit ↦ (
          counter - window,
          text_eq→eq (hotp secret (counter - window)) candidate hit,
          ground (arith, late),
          ground (arith, late),
        )
        | inr miss ↦
            let (c, is, low, high) =
              drifts-near hotp secret candidate window (counter + 1) left (ground arith) in
            (c, is, omega (arith, low), omega (arith, high))
      ]
    ]

-- A code that is accepted is the code of a time step that is at most `window` steps away.
pub verify-near :
    (hotp : Text → ℕ → Text) (secret code : Text) (timestamp window : ℕ)
    → verify hotp secret code timestamp window ≡ some true
    → (c : ℕ) × (hotp secret c ≡ without_blanks (strip code))
      × (timestamp / period ≤ c + window)
      × (c ≤ timestamp / period + window)
unfolding verify
verify-near hotp secret code timestamp window e =
    elim (Bool-cases (
      not (is_number (without_blanks (strip code)))
      || not (length (without_blanks (strip code)) == 6))) [
        | inl malformed ↦ absurd (ground arith)
        | inr fine ↦
            let (c, is, low, high) =
              drifts-near hotp secret (without_blanks (strip code)) window (timestamp / period)
                (window + window + 1) (ground arith) in
            (c, is, low, omega (arith, high))
      ]
