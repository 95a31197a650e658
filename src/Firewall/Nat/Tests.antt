-- ===== src/Firewall/Nat/Tests.antt =====
-- Translation rules as a device shows them.
use zero_node.Prelude.{◌≡◌, refl, true, false, [], ◌∷◌}
use zero_node.Prelude.Text.{Text, codes}
use zero_node.Firewall.Policy.{as_network}
use zero_node.Firewall.ObjectGroup.{expand_object}
use zero_node.Firewall.Nat.{
  NatRule, parse_show_nat, rules_from_body, operands_of, covers, assess_flow,
}

abbrev shown : Text
shown =
    codes
      "1 (inside) to (outside) source static 10.0.0.5 203.0.113.5 destination static any any\n    translate_hits = 0\n"

abbrev outward : NatRule
outward = record {
  raw =
      codes "1 (inside) to (outside) source static 10.0.0.5 203.0.113.5 destination static any any";
  from_zone = codes "inside";
  to_zone = codes "outside";
  kind = codes "static";
  identity = false;
  operands = codes "10.0.0.5" ∷ codes "203.0.113.5" ∷ [];
}

abbrev kept_rule : NatRule
kept_rule = record outward { identity = true; operands = codes "any" ∷ codes "any" ∷ [] }

parse_lem : parse_show_nat shown ≡ outward ∷ kept_rule ∷ []
unfolding parse_show_nat rules_from_body operands_of
parse_lem = refl

config_lem :
    parse_show_nat (codes "nat (inside, outside) 3 source dynamic LAN interface")
    ≡ record {
      raw = codes "nat (inside, outside) 3 source dynamic LAN interface";
      from_zone = codes "inside";
      to_zone = codes "outside";
      kind = codes "dynamic";
      identity = false;
      operands = codes "LAN" ∷ codes "interface" ∷ [];
    }
      ∷ []
unfolding parse_show_nat rules_from_body operands_of
config_lem = refl

assess_lem :
    assess_flow (outward ∷ kept_rule ∷ []) (codes "10.0.0.5" ∷ []) []
    ≡ record { translated = outward.raw ∷ []; unresolved = [] }
unfolding assess_flow covers as_network expand_object
assess_lem = refl
