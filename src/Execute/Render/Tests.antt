-- ===== src/Execute/Render/Tests.antt =====
-- A removal rendered for SR Linux: apps/api/app/execute/render.py.
use zero_node.Prelude.{◌≡◌, refl, none, some, [], ◌∷◌}
use zero_node.Prelude.Text.{codes, decimal}
use zero_node.Firewall.Policy.{contains}
use zero_node.Execute.Render.Prefix.{srl_prefix-contains}
use zero_node.Execute.Render.{device_commands, srlinux_commands, srl_prefix}

removal_on_srlinux :
    device_commands (codes "no permit tcp any any eq 443") none (codes "nokia_srl")
    ≡ some (codes "permit tcp any any eq 443" ∷ [])
unfolding device_commands srlinux_commands
removal_on_srlinux = refl

srl_prefix-contains_example :
    contains (codes "10.0.0.0/16") (codes "10.0.3.4")
    ≡ contains (codes "10.0.7.0/255.255.0.0") (codes "10.0.3.4")
unfolding srl_prefix decimal
srl_prefix-contains_example =
    srl_prefix-contains (codes "10.0.7.0/255.255.0.0") (codes "10.0.0.0/16") (codes "10.0.3.4")
      167772932 refl refl
