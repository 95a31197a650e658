-- ===== src/Prelude/Int.antt =====
-- Python's signed integers, for the line numbers of rules (a missing line is -1).
use Prim.Native.Nat.{ℕ, suc, ◌+◌, ◌-◌, ◌≤◌}
use mathlib.Core.Path.{◌≡◌}
use mathlib.Core.Bool.{Bool, ◌&&◌}
use native.Mathlib.Omega.{arith}
use zero_node.Prelude.Tests.{leb, ltb, if◌then◌else◌}

-- `negsuc n` is -(n + 1).
pub data ℤ : Type 0 where
  pos : ℕ → ℤ
  negsuc : ℕ → ℤ

abbrev pub pos_part : ℤ → ℕ
pos_part (pos n) = n
pos_part (negsuc n) = 0

abbrev pub neg_part : ℤ → ℕ
neg_part (pos n) = 0
neg_part (negsuc n) = suc n

infix 50 ◌≤ℤ◌
abbrev pub ◌≤ℤ◌ : ℤ → ℤ → Type 0
a ≤ℤ b = pos_part a + neg_part b ≤ pos_part b + neg_part a

abbrev pub leb_ℤ : ℤ → ℤ → Bool
leb_ℤ a b = leb (pos_part a + neg_part b) (pos_part b + neg_part a)

abbrev pub ltb_ℤ : ℤ → ℤ → Bool
ltb_ℤ a b = ltb (pos_part a + neg_part b) (pos_part b + neg_part a)

abbrev pub eq_ℤ : ℤ → ℤ → Bool
eq_ℤ a b = leb_ℤ a b && leb_ℤ b a

abbrev pub sub_ℕ : ℕ → ℕ → ℤ
sub_ℕ a b = if leb b a then pos (a - b) else negsuc (b - a - 1)

-- `z + n` and `z - n` for a literal `n`
abbrev pub add_ℕ : ℤ → ℕ → ℤ
add_ℕ z n = sub_ℕ (pos_part z + n) (neg_part z)

abbrev pub minus_ℕ : ℤ → ℕ → ℤ
minus_ℕ z n = sub_ℕ (pos_part z) (neg_part z + n)

abbrev pub max_ℤ : ℤ → ℤ → ℤ
max_ℤ a b = if ltb_ℤ a b then b else a

pub add_ℕ_parts :
    (z : ℤ) (n : ℕ) → pos_part (add_ℕ z n) + neg_part z ≡ neg_part (add_ℕ z n) + pos_part z + n
add_ℕ_parts z n = ground arith

pub max-le : (a b c : ℤ) → max_ℤ a b ≤ℤ c → (a ≤ℤ c) × (b ≤ℤ c)
max-le a b c h = ground arith
