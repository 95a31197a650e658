-- ===== src/Firewall/Policy.antt =====
-- ACL rules, their parser and first-match evaluation: apps/api/app/firewall/policy.py.
pub mod Tests
pub mod Match
use zero_node.Prelude.{
  ℕ, zero, suc, ◌+◌, ◌-◌, ◌*◌, ◌^◌, Bool, true, false, not, ◌&&◌, ◌||◌, Option, none, some, List,
  [], ◌∷◌, ◌++◌, map, length, is_empty, leb, ltb, ◌==◌, if◌then◌else◌,
}
use zero_node.Prelude.Int.{ℤ, pos, negsuc, leb_ℤ}
use zero_node.Prelude.Text.{
  Text, codes, text_eq, one_of, is_space, is_digit, is_word, lower, strip, strip_left, words,
  split_on, is_number, number, starts_with, drop, contains_text,
}
use zero_node.Firewall.Ipv4.{Network, ip_address, ip_network, in_network, num_addresses}

abbrev pub one_code : ℕ → Text → Bool
one_code c [] = false
one_code c (d ∷ s) = c == d || one_code c s

abbrev alias_in : List (Text × ℕ) → Text → Option ℕ
alias_in [] s = none
alias_in ((name, port) ∷ rest) s = if text_eq name s then some port else alias_in rest s

-- `PORT_ALIASES.get(name)`
unfoldable pub port_alias : Text → Option ℕ
port_alias = alias_in (
    (codes "https", 443)
    ∷ (codes "http", 80)
    ∷ (codes "www", 80)
    ∷ (codes "ssh", 22)
    ∷ (codes "domain", 53)
    ∷ (codes "telnet", 23)
    ∷ (codes "smtp", 25)
    ∷ [])

pub record AclRule : Type 0 where
  pub line : ℤ
  pub action : Text
  pub proto : Text
  pub src : Text
  pub dst : Text
  pub port : Option ℕ
  pub rule_id : Text
  pub hits : ℕ
  pub acl : Text
  pub raw : Text

abbrev pub is_any : Text → Bool
is_any = one_of (codes "any" ∷ codes "any4" ∷ codes "*" ∷ [])

unfoldable pub as_network : Text → Option Network
as_network spec = if one_code 47 spec then ip_network spec else ip_network (spec ++ codes "/32")

abbrev pub in_some : Option ℕ → Option Network → Bool
in_some none net = false
in_some (some a) none = false
in_some (some a) (some net) = in_network a net

unfoldable pub contains : Text → Text → Bool
unfolding as_network
contains spec addr = if is_any spec then true else in_some (ip_address addr) (as_network spec)

abbrev hosts : Option Network → ℕ
hosts none = 2 ^ 32
hosts (some net) = if leb 31 net.prefixlen then num_addresses net else num_addresses net - 2

unfoldable pub breadth : Text → ℕ
unfolding as_network
breadth spec = if is_any spec then 2 ^ 32 else hosts (as_network spec)

abbrev pub permit : Text
permit = codes "permit"

abbrev pub deny : Text
deny = codes "deny"

abbrev port_differs : Option ℕ → ℕ → Bool
port_differs none port = false
port_differs (some p) port = not (p == port)

-- `AclRule.matches`
unfoldable pub matches : AclRule → Text → Text → ℕ → Text → Bool
matches rule src_ip dst_ip port proto =
    if not (one_of (permit ∷ deny ∷ []) rule.action)
    then false
    else if not (one_of (codes "ip" ∷ codes "any" ∷ proto ∷ []) rule.proto)
    then false
    else if port_differs rule.port port
    then false
    else contains rule.src src_ip && contains rule.dst dst_ip

abbrev number_of : Text → Option ℕ
number_of raw = if is_number raw then some (number raw) else port_alias raw

-- `parse_port` and `parse_endpoint` take the tokens from the index on; what is left is the index.
unfoldable pub parse_port : List Text → Option ℕ
unfolding port_alias
parse_port (eq ∷ raw ∷ rest) = if text_eq eq (codes "eq") then number_of raw else none
parse_port _ = none

-- `\d+\.\d+\.\d+\.\d+` as a full match
abbrev all_numbers : List Text → Bool
all_numbers [] = true
all_numbers (p ∷ ps) = is_number p && all_numbers ps

abbrev pub is_quad : Text → Bool
is_quad s = let parts = split_on 46 s in length parts == 4 && all_numbers parts

-- `none` is the `IndexError` of `tokens[index]`.
unfoldable pub parse_endpoint : List Text → Option (Text × List Text)
parse_endpoint [] = none
parse_endpoint (token ∷ []) =
    if one_of (codes "any" ∷ codes "any4" ∷ []) token
    then some (codes "any", [])
    else some (token, [])
parse_endpoint (token ∷ next ∷ rest) =
    if text_eq token (codes "host")
    then some (next, rest)
    else if one_of (codes "any" ∷ codes "any4" ∷ []) token
    then some (codes "any", next ∷ rest)
    else if is_quad next
    then some (token ++ codes "/" ++ next, rest)
    else some (token, next ∷ rest)

-- The digits at the start of a text, and what follows them.
abbrev pub digits_of : Text → Text × Text
digits_of [] = ([], [])
digits_of (c ∷ s) =
    let (ds, rest) = digits_of s in if is_digit c then (c ∷ ds, rest) else ([], c ∷ s)

abbrev pub head_is : (ℕ → Bool) → Text → Bool
head_is p [] = false
head_is p (c ∷ s) = p c

-- `line\s+(\d+)\b` at the start of a text, ignoring case: the number and the length of the match.
abbrev pub line_at : Text → Option (ℕ × ℕ)
line_at s =
    let after = drop 4 s in
    let (ds, rest) = digits_of (strip_left after) in
    if starts_with (lower s) (codes "line")
      && head_is is_space after
      && not (is_empty ds)
      && not (head_is is_word rest)
    then some (number ds, length s - length rest)
    else none

-- `LINE_RE.search`; the flag says that the code point before is a word character.
abbrev search_line : Bool → Text → Option ℕ
search_line word [] = none
search_line word (c ∷ s) = elim (if word then none else line_at (c ∷ s)) [
  | some (n, k) ↦ some n
  | none ↦ search_line (is_word c) s
]

-- `LINE_RE.sub(" ", text)`; the number says how much of a match is still to be passed over.
abbrev sub_line : Bool → ℕ → Text → Text
sub_line word k [] = []
sub_line word (suc k) (c ∷ s) = sub_line (is_word c) k s
sub_line word zero (c ∷ s) = elim (if word then none else line_at (c ∷ s)) [
  | some (n, k) ↦ 32 ∷ sub_line (is_word c) (k - 1) s
  | none ↦ c ∷ sub_line (is_word c) zero s
]

-- `LEADING_SEQ_RE.match`, on a stripped text
abbrev leading_seq : Text → Option ℕ
leading_seq s =
    let (ds, rest) = digits_of s in
    if not (is_empty ds) && head_is is_space rest then some (number ds) else none

abbrev or_line : Option ℕ → Option ℕ → Option ℕ
or_line none b = b
or_line (some n) b = some n

abbrev line_or : Option ℕ → ℤ
line_or none = negsuc 0
line_or (some n) = pos n

-- The action and the tokens after it.
abbrev from_action : List Text → Option (Text × List Text)
from_action [] = none
from_action (t ∷ ts) = elim (one_of (permit ∷ deny ∷ []) t) [
  | true ↦ some (t, ts)
  | false ↦ from_action ts
]

abbrev proto_of : List Text → Text × List Text
proto_of [] = (codes "ip", [])
proto_of (t ∷ ts) =
    if one_of (codes "tcp" ∷ codes "udp" ∷ codes "ip" ∷ codes "icmp" ∷ []) t
    then (t, ts)
    else (codes "ip", t ∷ ts)

abbrev port_or : Option ℕ → Option ℕ → Option ℕ
port_or none p = p
port_or (some n) p = some n

abbrev skip_port : Option ℕ → List Text → List Text
skip_port none ts = ts
skip_port (some n) (a ∷ b ∷ ts) = ts
skip_port (some n) ts = []

abbrev with_dst : ℤ → Text → Text → Text → Option ℕ → Option (Text × List Text) → Option AclRule
with_dst line action proto src port none = none
with_dst line action proto src port (some (dst, rest)) = some (record {
  line = line;
  action = action;
  proto = proto;
  src = src;
  dst = dst;
  port = port_or (parse_port rest) port;
  rule_id = codes "proposed";
  hits = 0;
  acl = [];
  raw = [];
})

abbrev with_src : ℤ → Text → Text → Option (Text × List Text) → Option AclRule
with_src line action proto none = none
with_src line action proto (some (src, rest)) =
    let port = parse_port rest in
    with_dst line action proto src port (parse_endpoint (skip_port port rest))

abbrev with_action : ℤ → Option (Text × List Text) → Option AclRule
with_action line none = none
with_action line (some (action, rest)) =
    let (proto, rest') = proto_of rest in with_src line action proto (parse_endpoint rest')

unfoldable pub parse_acl_command : Text → Option AclRule
unfolding parse_endpoint parse_port
parse_acl_command command =
    let text = strip command in
    if is_empty text
    then none
    else with_action (line_or (or_line (search_line false text) (leading_seq text)))
        (from_action (map lower (words (sub_line false 0 text))))

abbrev pub insert_rule : AclRule → List AclRule → List AclRule
insert_rule r [] = r ∷ []
insert_rule r (q ∷ qs) = if leb_ℤ r.line q.line then r ∷ q ∷ qs else q ∷ insert_rule r qs

-- `sorted(rules, key=lambda item: item.line)`, which is stable
abbrev pub sort_rules : List AclRule → List AclRule
sort_rules [] = []
sort_rules (r ∷ rs) = insert_rule r (sort_rules rs)

unfoldable pub first_match : List AclRule → Text → Text → ℕ → Text → Text × Option AclRule
first_match [] src dst port proto = (deny, none)
first_match (r ∷ rs) src dst port proto = elim (matches r src dst port proto) [
  | true ↦ (r.action, some r)
  | false ↦ first_match rs src dst port proto
]

unfoldable pub evaluate_flow : List AclRule → Text → Text → ℕ → Text → Text × Option AclRule
unfolding first_match
evaluate_flow rules = first_match (sort_rules rules)
