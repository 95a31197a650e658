-- ===== src/Firewall/ObjectGroup/Tests.antt =====
-- Groups as a device shows them, read and expanded.
use zero_node.Prelude.{◌≡◌, ◌↔◌, refl, Bool, true, false, Option, none, some, [], ◌∷◌, ◌++◌}
use zero_node.Prelude.Text.{Text, codes, one_of, decimal}
use zero_node.Firewall.ObjectGroup.{
  ObjectGroup, Expansion, Which, Registry, own, expand, expand_group,
}
use zero_node.Firewall.ObjectGroup.Terminates.{expand_group_terminates}
use zero_node.Firewall.ObjectGroup.Exact.{Reach, Includes, expand_group_exact}
use zero_node.Firewall.ObjectGroup.Show.{
  parse_show_object_groups, parse_show_objects, group_member, object_member, absorb_service_object,
  network_member, summarise_range,
}

abbrev shown : Text
shown =
    codes
      "object-group network WEB\n network-object host 10.0.0.1\n network-object 10.1.0.0 255.255.0.0\n"
    ++ codes " group-object DB\nobject-group network DB\n network-object object LAN\n"

abbrev defined : Text
defined = codes "object network LAN\n range 10.2.0.0 10.2.0.2\n"

abbrev whole : Expansion
whole = record {
  networks =
      codes "10.0.0.1"
      ∷ codes "10.1.0.0/255.255.0.0"
      ∷ codes "10.2.0.0/31"
      ∷ codes "10.2.0.2/32"
      ∷ [];
  ports = [];
  protocols = [];
  complete = true;
}

web_lem :
    expand_group (codes "web") (parse_show_object_groups shown) (parse_show_objects defined)
    ≡ some whole
unfolding expand_group expand parse_show_object_groups parse_show_objects group_member object_member
    absorb_service_object network_member summarise_range decimal
web_lem = refl

-- A group that names itself.
abbrev looped : ObjectGroup
looped = record {
  name = codes "LOOP";
  kind = codes "network";
  networks = codes "10.0.0.1" ∷ [];
  ports = [];
  protocols = [];
  members = codes "loop" ∷ [];
  object_refs = [];
  complete = true;
}

abbrev plain : ObjectGroup
plain = record {
  name = codes "WEB";
  kind = codes "service";
  networks = codes "10.0.0.9" ∷ [];
  ports = 443 ∷ [];
  protocols = codes "tcp" ∷ [];
  members = [];
  object_refs = codes "lan" ∷ [];
  complete = true;
}

abbrev lan : ObjectGroup
lan = record plain { networks = codes "10.2.0.0/16" ∷ []; ports = []; object_refs = [] }

abbrev web_groups : Registry
web_groups = (codes "web", plain) ∷ []

abbrev lan_objects : Registry
lan_objects = (codes "lan", lan) ∷ []

abbrev web_result : Expansion
web_result = record {
  networks = codes "10.0.0.9" ∷ codes "10.2.0.0/16" ∷ [];
  ports = 443 ∷ [];
  protocols = codes "tcp" ∷ codes "tcp" ∷ [];
  complete = true;
}

expand_group_terminates_example :
    (r : Expansion) × (expand_group (codes "Loop") ((codes "loop", looped) ∷ []) [] ≡ some r)
expand_group_terminates_example =
    expand_group_terminates (codes "Loop") ((codes "loop", looped) ∷ []) []

expand_group_exact_example :
    ((x : Text)
      → (one_of web_result.networks x ≡ true) ↔ (
          (f : ObjectGroup) × Reach web_groups lan_objects Which.group (codes "WEB") f
          × (one_of f.networks x ≡ true)))
    × ((f : ObjectGroup)
        → Reach web_groups lan_objects Which.group (codes "WEB") f
        → (f.complete ≡ true) × Includes (own f) web_result)
unfolding expand_group expand
expand_group_exact_example =
    expand_group_exact (codes "WEB") web_groups lan_objects web_result refl refl

-- Two members that lead to the same group.
abbrev forked : Registry
forked =
    (codes "top", record lan { members = codes "a" ∷ codes "b" ∷ [] })
    ∷ (codes "a", record lan { members = codes "base" ∷ [] })
    ∷ (codes "b", record lan { members = codes "base" ∷ [] })
    ∷ (codes "base", lan)
    ∷ []

abbrev completeness : Option Expansion → Bool
completeness none = true
completeness (some e) = e.complete

forked_lem : completeness (expand_group (codes "top") forked []) ≡ false
unfolding expand_group expand
forked_lem = refl
