-- ===== src/Firewall/Policy/Tests.antt =====
-- Runs of the parser and the evaluation of apps/api/app/firewall/policy.py.
use zero_node.Prelude.{◌≡◌, refl, true, false, none, some, List, [], ◌∷◌, ◌++◌, if◌then◌else◌}
use zero_node.Prelude.Int.{pos}
use zero_node.Prelude.Text.{codes}
use zero_node.Firewall.Policy.{
  AclRule, port_alias, contains, breadth, matches, parse_acl_command, evaluate_flow,
}
use zero_node.Firewall.Policy.Match.{
  hit_by, Decides, demote, evaluate_flow-Decides, evaluate_flow-append,
}

abbrev proposed : AclRule
proposed = record {
  line = pos 39;
  action = codes "permit";
  proto = codes "tcp";
  src = codes "10.10.1.10";
  dst = codes "10.20.1.0/255.255.255.0";
  port = some 443;
  rule_id = codes "proposed";
  hits = 0;
  acl = [];
  raw = [];
}

parse_asa :
    parse_acl_command (
      codes
        "access-list DMZ_TO_TRUST line 39 extended PERMIT tcp host 10.10.1.10 10.20.1.0 255.255.255.0 eq https")
    ≡ some proposed
unfolding parse_acl_command port_alias
parse_asa = refl

parse_nothing : parse_acl_command (codes " show version ") ≡ none
unfolding parse_acl_command port_alias
parse_nothing = refl

in_subnet : contains (codes "10.20.1.0/255.255.255.0") (codes "10.20.1.77") ≡ true
unfolding contains
in_subnet = refl

wildcard : contains (codes "10.20.1.0/0.0.0.255") (codes "10.20.2.77") ≡ false
unfolding contains
wildcard = refl

breadth-subnet : breadth (codes "10.20.1.0/24") ≡ 254
unfolding breadth
breadth-subnet = refl

decides :
    evaluate_flow (proposed ∷ []) (codes "10.10.1.10") (codes "10.20.1.9") 443 (codes "tcp")
    ≡ (codes "permit", some proposed)
unfolding evaluate_flow matches contains
decides = refl

abbrev blocking : List AclRule
blocking = record proposed { line = pos 50; action = codes "deny" } ∷ []

evaluate_flow-Decides_example :
    Decides (codes "10.10.1.10") (codes "10.20.1.9") 443 (codes "tcp") (blocking ++ proposed ∷ []) (
      evaluate_flow
        (blocking ++ proposed ∷ [])
        (codes "10.10.1.10")
        (codes "10.20.1.9")
        443
        (codes "tcp"))
evaluate_flow-Decides_example =
    evaluate_flow-Decides (codes "10.10.1.10") (codes "10.20.1.9") 443 (codes "tcp")
      (blocking ++ proposed ∷ [])

evaluate_flow-append_example :
    evaluate_flow
      (blocking ++ proposed ∷ [])
      (codes "10.10.1.10")
      (codes "10.20.1.9")
      443
      (codes "tcp")
    ≡ (if hit_by (codes "10.10.1.10") (codes "10.20.1.9") 443 (codes "tcp") proposed
        then demote
            (codes "10.10.1.10")
            (codes "10.20.1.9")
            443
            (codes "tcp")
            proposed
            (evaluate_flow blocking (codes "10.10.1.10") (codes "10.20.1.9") 443 (codes "tcp"))
        else evaluate_flow blocking (codes "10.10.1.10") (codes "10.20.1.9") 443 (codes "tcp"))
evaluate_flow-append_example =
    evaluate_flow-append (codes "10.10.1.10") (codes "10.20.1.9") 443 (codes "tcp") blocking
      proposed
