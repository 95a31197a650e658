-- ===== src/Firewall/Ipv4.antt =====
-- What the program uses of Python's `ipaddress`: IPv4 addresses, and networks given with a prefix
-- length, a netmask or a hostmask and `strict=False`. A `ValueError` is `none`. Text that is an IPv6
-- address or network is not read, so it counts as a `ValueError` too.
pub mod Printed
pub mod Bounds
use zero_node.Prelude.{
  ℕ, zero, suc, ◌+◌, ◌-◌, ◌*◌, ◌/◌, ◌%◌, ◌^◌, Bool, true, false, ◌&&◌, ◌||◌, not, Option, none,
  some, List, [], ◌∷◌, ◌++◌, length, leb, ltb, ◌==◌, if◌then◌else◌,
}
use zero_node.Prelude.Text.{Text, codes, split_on, is_number, number, decimal}

pub record Network : Type 0 where
  pub address : ℕ
  pub prefixlen : ℕ

abbrev leading_zero : Text → Bool
leading_zero [] = false
leading_zero (c ∷ cs) = c == 48

-- One to three digits, no leading zero, at most 255.
abbrev octet : Text → Option ℕ
octet s =
    if is_number s
      && ltb (length s) 4
      && leb (number s) 255
      && (number s == 0 && length s == 1 || not (number s == 0) && not (leading_zero s))
    then some (number s)
    else none

abbrev join : ℕ → Option ℕ → Option ℕ
join hi none = none
join hi (some lo) = some (hi * 256 + lo)

abbrev octets : Option ℕ → List Text → Option ℕ
octets none parts = none
octets (some n) [] = some n
octets (some n) (p ∷ ps) = octets (join n (octet p)) ps

-- `ip_address(text)`
abbrev pub ip_address : Text → Option ℕ
ip_address text =
    let parts = split_on 46 text in if length parts == 4 then octets (some 0) parts else none

-- `_prefix_from_ip_int`: the prefix length whose netmask is the number.
abbrev netmask_prefix : ℕ → ℕ → Option ℕ
netmask_prefix zero mask = if mask == 0 then some 0 else none
netmask_prefix (suc p) mask =
    let rest = netmask_prefix p mask in
    if mask == 2 ^ 32 - 2 ^ (32 - suc p) then some (suc p) else rest

abbrev or_else : Option ℕ → Option ℕ → Option ℕ
or_else none b = b
or_else (some a) b = some a

-- `_prefix_from_ip_string`: a netmask, and failing that a hostmask.
abbrev mask_prefix : Option ℕ → Option ℕ
mask_prefix none = none
mask_prefix (some mask) = or_else (netmask_prefix 32 mask) (netmask_prefix 32 (2 ^ 32 - 1 - mask))

abbrev prefix_of : Text → Option ℕ
prefix_of s =
    if is_number s && leb (number s) 32 then some (number s) else mask_prefix (ip_address s)

abbrev mask_to : ℕ → ℕ → ℕ
mask_to p address = address / 2 ^ (32 - p) * 2 ^ (32 - p)

abbrev network_of : Option ℕ → Option ℕ → Option Network
network_of none p = none
network_of (some a) none = none
network_of (some a) (some p) = some (record { address = mask_to p a; prefixlen = p })

abbrev network_parts : List Text → Option Network
network_parts (a ∷ []) = network_of (ip_address a) (some 32)
network_parts (a ∷ p ∷ []) = network_of (ip_address a) (prefix_of p)
network_parts _ = none

-- `ip_network(text, strict=False)`
abbrev pub ip_network : Text → Option Network
ip_network text = network_parts (split_on 47 text)

-- `address in network`
abbrev pub in_network : ℕ → Network → Bool
in_network a net = mask_to net.prefixlen a == net.address

abbrev pub network_eq : Network → Network → Bool
network_eq m n = m.address == n.address && m.prefixlen == n.prefixlen

abbrev pub num_addresses : Network → ℕ
num_addresses net = 2 ^ (32 - net.prefixlen)

abbrev dotted : Text → Text → Text
dotted s t = s ++ (codes "." ++ t)

abbrev pub quad : ℕ → Text
quad a =
    dotted (decimal (a / 2 ^ 24))
      (dotted (decimal (a / 2 ^ 16 % 256)) (dotted (decimal (a / 2 ^ 8 % 256)) (decimal (a % 256))))

-- `str(network)`
abbrev pub network_text : Network → Text
network_text net = quad net.address ++ (codes "/" ++ decimal net.prefixlen)

-- The largest blocks of `2 ^ k` addresses from a base on that lie in a range.
abbrev blocks : ℕ → ℕ → ℕ → ℕ → List Network
blocks zero base low high =
    if leb low base && leb base high then record { address = base; prefixlen = 32 } ∷ [] else []
blocks (suc k) base low high = elim (ltb high base || leb (base + 2 ^ suc k) low) [
  | true ↦ []
  | false ↦ elim (leb low base && leb (base + 2 ^ suc k) (high + 1)) [
    | true ↦ record { address = base; prefixlen = 32 - suc k } ∷ []
    | false ↦ blocks k base low high ++ blocks k (base + 2 ^ k) low high
  ]
]

-- `summarize_address_range`; `none` is the `ValueError` of a range that runs back.
abbrev pub summarize_address_range : ℕ → ℕ → Option (List Network)
summarize_address_range low high = if ltb high low then none else some (blocks 32 0 low high)
