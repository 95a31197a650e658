-- ===== src/Prelude/Dict.antt =====
-- A Python dict with text keys: its entries in the order of insertion.
use Prim.Native.Nat.{ℕ, zero, suc}
use Prim.Native.String.{String}
use mathlib.Core.Path.{◌≡◌, refl}
use mathlib.Core.Logic.{inl, inr}
use mathlib.Core.Option.{Option, none, some}
use mathlib.Core.List.{List, [], ◌∷◌}
use native.Mathlib.Omega.{arith}
use text.Mathlib.Text.{◌==◌}
use text.Mathlib.TextEquality.{eq_iff}
use zero_node.Prelude.Tests.{if◌then◌else◌, Option-cases}

-- `s[:n]`
abbrev pub take_text : ℕ → String → String
take_text zero s = ""
take_text (suc n) String.[] = ""
take_text (suc n) (String.◌∷◌ c s) = String.◌∷◌ c (take_text n s)

module _ {V : Type 0} where
  -- `d.get(k)`
  abbrev pub lookup : String → List (String × V) → Option V
  lookup k [] = none
  lookup k ((j, v) ∷ d) = if j == k then some v else lookup k d

  -- `d[k] = v`
  abbrev pub insert : String → V → List (String × V) → List (String × V)
  insert k v [] = (k, v) ∷ []
  insert k v ((j, w) ∷ d) = if j == k then (j, v) ∷ d else (j, w) ∷ insert k v d

  -- `d.setdefault(k, v)`
  abbrev pub set_default : String → V → List (String × V) → List (String × V)
  set_default k v d = elim (lookup k d) [ none ↦ insert k v d | some w ↦ d ]

  pub lookup-insert :
      (k j : String) (v : V) (d : List (String × V))
      → lookup j (insert k v d) ≡ (if k == j then some v else lookup j d)
  lookup-insert k j v [] = refl
  lookup-insert k j v ((i, w) ∷ d) =
      ground (arith, eq_iff k j, eq_iff i k, eq_iff i j, lookup-insert k j v d)

  pub lookup-insert_known :
      (k j : String) (v w : V) (d : List (String × V))
      → lookup k d ≡ none
      → lookup j d ≡ some w
      → lookup j (insert k v d) ≡ some w
  lookup-insert_known k j v w d h e = ground (arith, lookup-insert k j v d, eq_iff k j)

  pub lookup-set_default :
      (k j : String) (v w : V) (d : List (String × V))
      → lookup j d ≡ some w
      → lookup j (set_default k v d) ≡ some w
  lookup-set_default k j v w d e = elim (Option-cases (lookup k d)) [
    | inl new ↦ rw (new, set_default) (lookup-insert_known k j v w d new e)
    | inr (x, old) ↦ rw (old, set_default) e
  ]
