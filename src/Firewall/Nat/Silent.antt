-- ===== src/Firewall/Nat/Silent.antt =====
-- What an assessment names: apps/api/app/firewall/nat.py.
use zero_node.Prelude.{◌≡◌, ◌≢◌, Bool, true, false, some, List}
use zero_node.Prelude.Text.{Text, one_of}
use zero_node.Firewall.ObjectGroup.{Registry}
use zero_node.Firewall.Nat.{NatRule, NatAssessment, covers}

module _ (objects : Registry) where
  -- What a missed rule says of an operand and an address.
  abbrev Missed : Bool → Text → Text → Type 0
  Missed u o a = (covers o a objects ≢ some true) × (u ≡ false → covers o a objects ≡ some false)

  -- The names that an assessment holds are never taken out of it.
  pub record Keeps (a b : NatAssessment) : Type 0 where
    translated_in : (x : Text) → one_of a.translated x ≡ true → one_of b.translated x ≡ true
    unresolved_in : (x : Text) → one_of a.unresolved x ≡ true → one_of b.unresolved x ≡ true

  -- What the final assessment `b` says of a rule.
  abbrev pub Told : NatAssessment → List Text → NatRule → Type 0
  Told b flow r =
      (o a : Text)
      → r.identity ≡ false
      → one_of r.operands o ≡ true
      → one_of flow a ≡ true
      → one_of b.translated r.raw ≡ false
      → (covers o a objects ≢ some true)
        × (one_of b.unresolved r.raw ≡ false → covers o a objects ≡ some false)
