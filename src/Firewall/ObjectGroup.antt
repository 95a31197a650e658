-- ===== src/Firewall/ObjectGroup.antt =====
-- Object groups and their expansion: apps/api/app/firewall/objectgroup.py.
pub mod Terminates
pub mod Exact
pub mod Show
pub mod Tests
use zero_node.Prelude.{
  ℕ, zero, suc, ◌+◌, Bool, true, false, ◌&&◌, Option, none, some, List, [], ◌∷◌, ◌++◌, length,
}
use zero_node.Prelude.Text.{Text, codes, lower, one_of, lookup_text}

pub record ObjectGroup : Type 0 where
  pub name : Text
  pub kind : Text
  pub networks : List Text
  pub ports : List ℕ
  pub protocols : List Text
  pub members : List Text
  pub object_refs : List Text
  pub complete : Bool

pub record Expansion : Type 0 where
  pub networks : List Text
  pub ports : List ℕ
  pub protocols : List Text
  pub complete : Bool

pub data Which : Type 0 where
  group object : Which

-- A dict of groups or objects, by name.
abbrev pub Registry : Type 0
Registry = List (Text × ObjectGroup)

abbrev pub key_of : Which → Text → Text
key_of Which.group name = codes "group:" ++ lower name
key_of Which.object name = codes "object:" ++ lower name

abbrev pub entry_of : Registry → Registry → Which → Text → Option ObjectGroup
entry_of groups objects Which.group name = lookup_text (lower name) groups
entry_of groups objects Which.object name = lookup_text (lower name) objects

abbrev pub incomplete : Expansion
incomplete = record { networks = []; ports = []; protocols = []; complete = false }

abbrev pub own : ObjectGroup → Expansion
own e = record {
  networks = e.networks;
  ports = e.ports;
  protocols = e.protocols;
  complete = e.complete;
}

-- The four lines that add a nested expansion to the result.
abbrev pub absorb : Expansion → Expansion → Expansion
absorb r nested = record {
  networks = r.networks ++ nested.networks;
  ports = r.ports ++ nested.ports;
  protocols = r.protocols ++ nested.protocols;
  complete = r.complete && nested.complete;
}

-- The result of a call, and the set `seen` that all calls share as it then stands.
abbrev pub Expanded : Type 0
Expanded = Option (Expansion × List Text)

abbrev pub expand_all : (Text → List Text → Expanded) → List Text → Expansion → List Text → Expanded
expand_all visit [] r seen = some (r, seen)
expand_all visit (m ∷ ms) r seen = elim (visit m seen) [
  | none ↦ none
  | some (nested, seen') ↦ expand_all visit ms (absorb r nested) seen'
]

-- `_expand`, with a bound on the depth of its calls: `none` when it is passed.
unfoldable pub expand : ℕ → Registry → Registry → Which → Text → List Text → Expanded
expand zero groups objects which name seen = none
expand (suc depth) groups objects which name seen = elim (one_of seen (key_of which name)) [
  | true ↦ some (incomplete, seen)
  | false ↦ elim (entry_of groups objects which name) [
    | none ↦ some (incomplete, key_of which name ∷ seen)
    | some e ↦
        elim (expand_all (λ m s. expand depth groups objects Which.group m s) e.members (own e)
          (key_of which name ∷ seen)) [
            | none ↦ none
            | some (r, seen') ↦
                expand_all (λ m s. expand depth groups objects Which.object m s) e.object_refs r
                  seen'
          ]
  ]
]

abbrev pub result_of : Expanded → Option Expansion
result_of none = none
result_of (some (r, seen)) = some r

-- The depth is the number of groups and objects, and one.
unfoldable pub expand_group : Text → Registry → Registry → Option Expansion
unfolding expand
expand_group name groups objects =
    result_of (expand (length groups + length objects + 1) groups objects Which.group name [])

unfoldable pub expand_object : Text → Registry → Option Expansion
unfolding expand
expand_object name objects = result_of (expand (length objects + 1) [] objects Which.object name [])
