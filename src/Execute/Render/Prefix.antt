-- ===== src/Execute/Render/Prefix.antt =====
-- The prefixes of an SR Linux rule: `_srl_prefix` of apps/api/app/execute/render.py.
use zero_node.Prelude.{
  ℕ, ◌≡◌, refl, sym, ap, transport, ◌∙◌, true, false, ◌||◌, some, [], ◌∷◌, ◌++◌, Bool-cases,
  Option-cases, inl, inr, arith,
}
use zero_node.Prelude.Text.{Text, codes, text_eq, text_eq→eq, decimal}
use zero_node.Firewall.Ipv4.{Network, ip_address, in_network, quad, network_text}
use zero_node.Firewall.Ipv4.Printed.{IsNetwork, network_read}
use zero_node.Firewall.Ipv4.Bounds.{ip_address_lt, ip_network-IsNetwork}
use zero_node.Firewall.Policy.{one_code, is_any, as_network, contains, in_some}
use zero_node.Execute.Render.{srl_prefix}

one_code-append : (c : ℕ) (s t : Text) → one_code c (s ++ t) ≡ (one_code c s || one_code c t)
one_code-append c [] t = refl
one_code-append c (d ∷ s) t = ground (arith, one_code-append c s t)

printed_slash : (net : Network) → one_code 47 (network_text net) ≡ true
printed_slash net =
    ground (arith, one_code-append 47 (quad net.address) (codes "/" ++ decimal net.prefixlen))

no_slash : (s w : Text) → one_code 47 s ≡ true → one_code 47 w ≡ false → text_eq s w ≡ false
no_slash s w h k = elim (Bool-cases (text_eq s w)) [
  | inl same ↦ absurd (ground (arith, ap (one_code 47) (text_eq→eq s w same), h, k))
  | inr other ↦ other
]

slash_some : (s : Text) → one_code 47 s ≡ true → is_any s ≡ false
slash_some s h = ground (
  arith,
  no_slash s (codes "any") h refl,
  no_slash s (codes "any4") h refl,
  no_slash s (codes "*") h refl,
)

contains_net :
    (spec addr : Text) (a : ℕ) (net : Network)
    → is_any spec ≡ false
    → ip_address addr ≡ some a
    → as_network spec ≡ some net
    → contains spec addr ≡ in_network a net
unfolding contains
contains_net spec addr a net plain h e = rw (plain, contains) (rw (h, e, in_some) refl)

network_as : (value : Text) (net : Network) → as_network value ≡ some net → IsNetwork net
unfolding as_network
network_as value net e = elim (Bool-cases (one_code 47 value)) [
  | inl slash ↦ ip_network-IsNetwork value net (ground arith)
  | inr bare ↦ ip_network-IsNetwork (value ++ codes "/32") net (ground arith)
]

printed_as : (net : Network) → IsNetwork net → as_network (network_text net) ≡ some net
unfolding as_network
printed_as net h = rw (printed_slash net, as_network) (network_read net h)

srl_prefix-shape :
    (value p : Text)
    → is_any value ≡ false
    → srl_prefix value ≡ some p
    → (net : Network) × (as_network value ≡ some net) × (network_text net ≡ p)
unfolding srl_prefix as_network
srl_prefix-shape value p plain e = elim (Option-cases (as_network value)) [
  | inl bad ↦ absurd (ground arith)
  | inr (net, read) ↦ (net, read, ground arith)
]

-- Where `_srl_prefix` gives a prefix, it covers an address exactly if the endpoint that it was given
-- covers it, whatever form that has: a wildcard, an address, or a network with a length or a mask.
pub srl_prefix-contains :
    (value p addr : Text) (a : ℕ)
    → srl_prefix value ≡ some p
    → ip_address addr ≡ some a
    → contains p addr ≡ contains value addr
unfolding srl_prefix contains as_network
srl_prefix-contains value p addr a e h = elim (Bool-cases (is_any value)) [
  | inl wild ↦
      let all : in_network a (record { address = 0; prefixlen = 0 }) ≡ true =
        ground (arith, ip_address_lt addr a h) in
      let is : codes "0.0.0.0/0" ≡ p = ground arith in
      transport (ap (λ q. contains q addr ≡ contains value addr) is) (
        contains_net (codes "0.0.0.0/0") addr a (record { address = 0; prefixlen = 0 }) refl h refl
        ∙ all
        ∙ rw (wild, contains) refl)
  | inr plain ↦
      let (net, read, is) = srl_prefix-shape value p plain e in
      transport (ap (λ q. contains q addr ≡ contains value addr) is) (
        contains_net (network_text net) addr a net
          (slash_some (network_text net) (printed_slash net)) h
          (printed_as net (network_as value net read))
        ∙ sym (contains_net value addr a net plain h read))
]
