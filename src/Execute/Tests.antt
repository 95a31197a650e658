-- ===== src/Execute/Tests.antt =====
-- A change of one rule on a toy firewall: apps/api/app/execute and apps/api/app/verify.py.
use zero_node.Prelude.{ℕ, ◌≡◌, refl, true, Option, none, some, List, [], ◌∷◌, if◌then◌else◌}
use zero_node.Prelude.Int.{pos, negsuc}
use zero_node.Prelude.Text.{Text, codes, starts_with}
use zero_node.Firewall.Policy.{AclRule, port_alias, parse_acl_command}
use zero_node.Execute.Base.{Action, Flow}
use zero_node.Execute.Device.{Devices, Site, accepted}

abbrev pub asa : Text
asa = codes "cisco_asa"

abbrev pub edge : Text
edge = codes "fw1"

abbrev pub flow : Flow
flow = record { src = codes "10.0.0.5"; dst = codes "10.0.1.9"; port = 443; proto = codes "tcp" }

abbrev pub action : Action
action = record {
  device = edge;
  command = codes "access-list A extended permit tcp host 10.0.0.5 host 10.0.1.9 eq 443";
  rollback = codes "no access-list A extended permit tcp host 10.0.0.5 host 10.0.1.9 eq 443";
  vendor = [];
  position = some (pos 5);
  verified = true;
  rollback_verified = true;
}

abbrev rule_with : Text → ℕ → AclRule
rule_with act line = record {
  line = pos line;
  action = act;
  proto = codes "tcp";
  src = codes "10.0.0.5";
  dst = codes "10.0.1.9";
  port = some 443;
  rule_id = codes "r";
  hits = 0;
  acl = codes "A";
  raw = [];
}

abbrev pub denying : List AclRule
denying = rule_with (codes "deny") 10 ∷ []

abbrev pub permitting : List AclRule
permitting = rule_with (codes "permit") 5 ∷ denying

-- One policy for every device; a push puts the rule of its first line in front, a removal does nothing.
abbrev with_rule : List AclRule → Option AclRule → List AclRule
with_rule w none = w
with_rule w (some r) = r ∷ w

abbrev pub toy : Devices
toy = record {
  World = List AclRule;
  open_session = λ w device. none;
  push = λ w device lines. accepted [] (
      with_rule w (elim lines [
        | [] ↦ none
        | l ∷ ls ↦ if starts_with l (codes "no ") then none else parse_acl_command l
      ]));
  read = λ w device. some w;
}

abbrev pub site : List AclRule → Site (List AclRule)
site w = record { world = w; sessions = []; trace = [] }

abbrev pub parsed_rule : AclRule
parsed_rule = record {
  line = negsuc 0;
  action = codes "permit";
  proto = codes "tcp";
  src = codes "10.0.0.5";
  dst = codes "10.0.1.9";
  port = some 443;
  rule_id = codes "proposed";
  hits = 0;
  acl = [];
  raw = [];
}

pub action-parses : parse_acl_command action.command ≡ some parsed_rule
unfolding parse_acl_command port_alias
action-parses = refl
