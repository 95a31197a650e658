-- ===== src/Firewall/Ipv4/Bounds.antt =====
-- The ranges of the addresses and networks that are read.
use native.Mathlib.Nat.{mul-div_cancel, one-le-pow, div-mul-le_self}
use zero_node.Prelude.{
  ℕ, zero, suc, ◌+◌, ◌-◌, ◌*◌, ◌/◌, ◌^◌, ◌≤◌, ◌<◌, ◌≡◌, refl, sym, ap, transport, ◌∙◌, true, ◌&&◌,
  Option, none, some, List, [], ◌∷◌, length, leb, ◌==◌, Bool-cases, Option-cases, inl, inr, arith,
}
use zero_node.Prelude.Text.{Text, split_on, is_number, number}
use zero_node.Firewall.Ipv4.{
  Network, octet, octets, ip_address, netmask_prefix, mask_prefix, prefix_of, mask_to, network_of,
  network_parts, ip_network,
}
use zero_node.Firewall.Ipv4.Printed.{IsNetwork}

octet_lt : (s : Text) (k : ℕ) → octet s ≡ some k → k < 256
octet_lt s k e = ground arith

next_octet :
    (n a : ℕ) (p : Text) (ps : List Text)
    → octets (some n) (p ∷ ps) ≡ some a
    → (k : ℕ) × (k < 256) × (octets (some (n * 256 + k)) ps ≡ some a)
next_octet n a p ps e = elim (Option-cases (octet p)) [
  | inl bad ↦ absurd (ground arith)
  | inr (k, good) ↦ (k, octet_lt p k good, sym (octets_step n k p ps good) ∙ e)
]
  where
    octets_step :
        (n k : ℕ) (p : Text) (ps : List Text)
        → octet p ≡ some k
        → octets (some n) (p ∷ ps) ≡ octets (some (n * 256 + k)) ps
    octets_step n k p ps good = rw (good, octets) refl

octets_lt :
    (parts : List Text) (a : ℕ)
    → (length parts == 4) ≡ true
    → octets (some 0) parts ≡ some a
    → a < 2 ^ 32
octets_lt [] a l e = cc
octets_lt (p ∷ []) a l e = absurd (ground arith)
octets_lt (p ∷ q ∷ []) a l e = absurd (ground arith)
octets_lt (p ∷ q ∷ r ∷ []) a l e = absurd (ground arith)
octets_lt (p ∷ q ∷ r ∷ s ∷ t ∷ ps) a l e = absurd (ground arith)
octets_lt (p ∷ q ∷ r ∷ s ∷ []) a l e =
    let (k1, l1, e1) = next_octet 0 a p (q ∷ r ∷ s ∷ []) e in
    let (k2, l2, e2) = next_octet (0 * 256 + k1) a q (r ∷ s ∷ []) e1 in
    let (k3, l3, e3) = next_octet ((0 * 256 + k1) * 256 + k2) a r (s ∷ []) e2 in
    let (k4, l4, e4) = next_octet (((0 * 256 + k1) * 256 + k2) * 256 + k3) a s [] e3 in
    let is : (((0 * 256 + k1) * 256 + k2) * 256 + k3) * 256 + k4 ≡ a = ground arith in
    omega (arith, l1, l2, l3, l4, is)

pub ip_address_lt : (s : Text) (a : ℕ) → ip_address s ≡ some a → a < 2 ^ 32
ip_address_lt s a e = elim (Bool-cases (length (split_on 46 s) == 4)) [
  | inl four ↦ octets_lt (split_on 46 s) a four (ground arith)
  | inr other ↦ absurd (ground arith)
]

netmask_le : (q mask p : ℕ) → netmask_prefix q mask ≡ some p → p ≤ q
netmask_le zero mask p e = ground arith
netmask_le (suc q) mask p e = elim (Bool-cases (mask == 2 ^ 32 - 2 ^ (32 - suc q))) [
  | inl this ↦ ground arith
  | inr other ↦ ground (arith, netmask_le q mask p)
]

mask_le : (x : Option ℕ) (p : ℕ) → mask_prefix x ≡ some p → p ≤ 32
mask_le none p e = cc
mask_le (some mask) p e = elim (Option-cases (netmask_prefix 32 mask)) [
  | inl host ↦ netmask_le 32 (2 ^ 32 - 1 - mask) p (ground arith)
  | inr (q, net) ↦ netmask_le 32 mask p (ground arith)
]

prefix_of_le : (s : Text) (p : ℕ) → prefix_of s ≡ some p → p ≤ 32
prefix_of_le s p e = elim (Bool-cases (is_number s && leb (number s) 32)) [
  | inl plain ↦ ground arith
  | inr mask ↦ mask_le (ip_address s) p (ground arith)
]

mask_to_idem : (p a : ℕ) → mask_to p (mask_to p a) ≡ mask_to p a
mask_to_idem p a =
    ap (λ q. q * 2 ^ (32 - p))
      (mul-div_cancel (a / 2 ^ (32 - p)) (one-le-pow (32 - p) 2 (omega arith)))

network_of-IsNetwork :
    (x y : Option ℕ) (net : Network)
    → network_of x y ≡ some net
    → ((a : ℕ) → x ≡ some a → a < 2 ^ 32)
    → ((p : ℕ) → y ≡ some p → p ≤ 32)
    → IsNetwork net
network_of-IsNetwork none y net e hx hy = cc
network_of-IsNetwork (some a) none net e hx hy = cc
network_of-IsNetwork (some a) (some p) net e hx hy =
    let is : record { address = mask_to p a; prefixlen = p } ≡ net = ground arith in
    let lt = hx a refl in
    let made : IsNetwork (record { address = mask_to p a; prefixlen = p }) = record {
      address_lt = omega (arith, lt, div-mul-le_self a (2 ^ (32 - p)));
      prefix_le = hy p refl;
      aligned = mask_to_idem p a;
    } in
    transport (ap IsNetwork is) made

parts-IsNetwork :
    (parts : List Text) (net : Network) → network_parts parts ≡ some net → IsNetwork net
parts-IsNetwork [] net e = cc
parts-IsNetwork (s ∷ []) net e =
    network_of-IsNetwork (ip_address s) (some 32) net e (λ a h. ip_address_lt s a h)
      (λ p h. ground arith)
parts-IsNetwork (s ∷ t ∷ []) net e =
    network_of-IsNetwork (ip_address s) (prefix_of t) net e (λ a h. ip_address_lt s a h)
      (λ p h. prefix_of_le t p h)
parts-IsNetwork (s ∷ t ∷ u ∷ rest) net e = cc

pub ip_network-IsNetwork : (s : Text) (net : Network) → ip_network s ≡ some net → IsNetwork net
ip_network-IsNetwork s net e = parts-IsNetwork (split_on 47 s) net e
