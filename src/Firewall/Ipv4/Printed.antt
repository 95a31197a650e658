-- ===== src/Firewall/Ipv4/Printed.antt =====
-- Networks that are printed and read back, for the prefixes of apps/api/app/execute/render.py.
use mathlib.Core.List.{reverse_aux}
use zero_node.Prelude.{
  ℕ, zero, suc, ◌+◌, ◌*◌, ◌/◌, ◌%◌, ◌^◌, ◌≤◌, ◌<◌, ◌≡◌, refl, ap, ◌∙◌, Bool, true, false, not, ◌&&◌,
  Option, none, some, [], ◌∷◌, ◌++◌, ◌==◌, Bool-cases, inl, inr, arith,
}
use zero_node.Prelude.Text.{Text, codes, all_digits, split_from, split_on, decimal}
use zero_node.Firewall.Ipv4.{
  Network, octet, octets, ip_address, prefix_of, mask_to, network_of, network_parts, ip_network,
  dotted, quad, network_text,
}

abbrev lacks : ℕ → Text → Bool
lacks sep [] = true
lacks sep (c ∷ s) = not (c == sep) && lacks sep s

lacks-append : (sep : ℕ) (s t : Text) → lacks sep (s ++ t) ≡ (lacks sep s && lacks sep t)
lacks-append sep [] t = refl
lacks-append sep (c ∷ s) t = ground (arith, lacks-append sep s t)

digits_lack : (sep : ℕ) (s : Text) → sep < 48 → all_digits s ≡ true → lacks sep s ≡ true
digits_lack sep [] lt h = refl
digits_lack sep (c ∷ s) lt h = ground (arith, digits_lack sep s lt)

split_here :
    (sep : ℕ) (w d s : Text)
    → lacks sep d ≡ true
    → split_from sep w (d ++ sep ∷ s) ≡ reverse_aux w d ∷ split_on sep s
split_here sep w [] s h =
    let this : (sep == sep) ≡ true = ground arith in rw (this, split_from) refl
split_here sep w (c ∷ d) s h =
    let other : (c == sep) ≡ false = ground arith in
    rw (other, split_from) (split_here sep (c ∷ w) d s (ground arith))

split_last : (sep : ℕ) (w d : Text) → lacks sep d ≡ true → split_from sep w d ≡ reverse_aux w d ∷ []
split_last sep w [] h = refl
split_last sep w (c ∷ d) h =
    let other : (c == sep) ≡ false = ground arith in
    rw (other, split_from) (split_last sep (c ∷ w) d (ground arith))

-- A test of each number below a bound.
abbrev all_below : ℕ → (ℕ → Bool) → Bool
all_below zero p = true
all_below (suc m) p = p m && all_below m p

below_passes : (m n : ℕ) (p : ℕ → Bool) → all_below m p ≡ true → n < m → p n ≡ true
below_passes zero n p h lt = absurd (omega (arith, lt))
below_passes (suc m) n p h lt = elim (Bool-cases (n == m)) [
  | inl this ↦ let is : n ≡ m = ground arith in ground (arith, ap p is)
  | inr other ↦ below_passes m n p (ground arith) (ground arith)
]

abbrev is_exactly : ℕ → Option ℕ → Bool
is_exactly n none = false
is_exactly n (some m) = m == n

exactly : (n : ℕ) (x : Option ℕ) → is_exactly n x ≡ true → x ≡ some n
exactly n none h = cc
exactly n (some m) h = ground arith

abbrev prints_octet : ℕ → Bool
prints_octet n = all_digits (decimal n) && is_exactly n (octet (decimal n))

octets_print : all_below 256 prints_octet ≡ true
unfolding decimal
octets_print = refl

abbrev prints_prefix : ℕ → Bool
prints_prefix n = all_digits (decimal n) && is_exactly n (prefix_of (decimal n))

prefixes_print : all_below 33 prints_prefix ≡ true
unfolding decimal
prefixes_print = refl

printed_octet : (n : ℕ) → n < 256 → (all_digits (decimal n) ≡ true) × (octet (decimal n) ≡ some n)
printed_octet n lt =
    let both = below_passes 256 n prints_octet octets_print lt in
    (ground (arith, both), exactly n (octet (decimal n)) (ground (arith, both)))

printed_prefix :
    (n : ℕ) → n < 33 → (all_digits (decimal n) ≡ true) × (prefix_of (decimal n) ≡ some n)
printed_prefix n lt =
    let both = below_passes 33 n prints_prefix prefixes_print lt in
    (ground (arith, both), exactly n (prefix_of (decimal n)) (ground (arith, both)))

four_parts :
    (a b c d : Text)
    → all_digits a ≡ true
    → all_digits b ≡ true
    → all_digits c ≡ true
    → all_digits d ≡ true
    → split_on 46 (dotted a (dotted b (dotted c d))) ≡ a ∷ b ∷ c ∷ d ∷ []
four_parts a b c d ha hb hc hd =
    let lack : (s : Text) → all_digits s ≡ true → lacks 46 s ≡ true =
      λ s. digits_lack 46 s (omega arith) in
    split_here 46 [] a (dotted b (dotted c d)) (lack a ha)
    ∙ ap (λ t. a ∷ t)
        (split_here 46 [] b (dotted c d) (lack b hb)
          ∙ ap (λ t. b ∷ t)
              (split_here 46 [] c d (lack c hc) ∙ ap (λ t. c ∷ t) (split_last 46 [] d (lack d hd))))

four_octets :
    (a b c d : Text) (k l m n : ℕ)
    → octet a ≡ some k
    → octet b ≡ some l
    → octet c ≡ some m
    → octet d ≡ some n
    → octets (some 0) (a ∷ b ∷ c ∷ d ∷ []) ≡ some ((((0 * 256 + k) * 256 + l) * 256 + m) * 256 + n)
four_octets a b c d k l m n ha hb hc hd =
    rw (ha, octets) (rw (hb, octets) (rw (hc, octets) (rw (hd, octets) refl)))

quad_read : (a : ℕ) → a < 2 ^ 32 → ip_address (quad a) ≡ some a
quad_read a lt =
    let (d1, o1) = printed_octet (a / 2 ^ 24) (omega (arith, lt)) in
    let (d2, o2) = printed_octet (a / 2 ^ 16 % 256) (omega arith) in
    let (d3, o3) = printed_octet (a / 2 ^ 8 % 256) (omega arith) in
    let (d4, o4) = printed_octet (a % 256) (omega arith) in
    let parts =
      four_parts (decimal (a / 2 ^ 24)) (decimal (a / 2 ^ 16 % 256)) (decimal (a / 2 ^ 8 % 256))
        (decimal (a % 256)) d1 d2 d3 d4 in
    let value =
      four_octets (decimal (a / 2 ^ 24)) (decimal (a / 2 ^ 16 % 256)) (decimal (a / 2 ^ 8 % 256))
        (decimal (a % 256)) (a / 2 ^ 24) (a / 2 ^ 16 % 256) (a / 2 ^ 8 % 256) (a % 256) o1 o2 o3
        o4 in
    let sum : (((0 * 256 + a / 2 ^ 24) * 256 + a / 2 ^ 16 % 256) * 256 + a / 2 ^ 8 % 256) * 256
          + a % 256
        ≡ a =
      omega (arith, lt) in
    rw (parts, ip_address) (value ∙ ap some sum)

dotted-lacks :
    (sep : ℕ) (s t : Text)
    → sep < 48
    → not (sep == 46) ≡ true
    → all_digits s ≡ true
    → lacks sep t ≡ true
    → lacks sep (dotted s t) ≡ true
dotted-lacks sep s t lt other hs ht =
    ground (arith, lacks-append sep s (codes "." ++ t), digits_lack sep s lt hs)

-- A network as the library makes it: an address of 32 bits whose host bits are 0.
pub record IsNetwork (net : Network) : Type 0 where
  pub address_lt : net.address < 2 ^ 32
  pub prefix_le : net.prefixlen ≤ 32
  pub aligned : mask_to net.prefixlen net.address ≡ net.address

slash_parts :
    (s t : Text)
    → lacks 47 s ≡ true
    → all_digits t ≡ true
    → split_on 47 (s ++ (codes "/" ++ t)) ≡ s ∷ t ∷ []
slash_parts s t hs ht =
    split_here 47 [] s t hs
    ∙ ap (λ x. s ∷ x) (split_last 47 [] t (digits_lack 47 t (omega arith) ht))

-- A network is read back from its text: an address of 32 bits without host bits, and a length of at
-- most 32.
pub network_read : (net : Network) → IsNetwork net → ip_network (network_text net) ≡ some net
network_read net h =
    let a = net.address in
    let (d1, o1) = printed_octet (a / 2 ^ 24) (omega (arith, h.address_lt)) in
    let (d2, o2) = printed_octet (a / 2 ^ 16 % 256) (omega arith) in
    let (d3, o3) = printed_octet (a / 2 ^ 8 % 256) (omega arith) in
    let (d4, o4) = printed_octet (a % 256) (omega arith) in
    let (dp, op) = printed_prefix net.prefixlen (omega (arith, h.prefix_le)) in
    let clean = dotted-lacks 47 (decimal (a / 2 ^ 24)) _ (omega arith) refl d1 (
      dotted-lacks 47 (decimal (a / 2 ^ 16 % 256)) _ (omega arith) refl d2 (
        dotted-lacks 47 (decimal (a / 2 ^ 8 % 256)) _ (omega arith) refl d3
          (digits_lack 47 (decimal (a % 256)) (omega arith) d4))) in
    rw (slash_parts (quad a) (decimal net.prefixlen) clean dp, ip_network)
      (rw (quad_read a h.address_lt, op, network_parts) (rw (h.aligned, network_of) refl))
