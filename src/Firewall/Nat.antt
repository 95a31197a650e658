-- ===== src/Firewall/Nat.antt =====
-- Translation rules, and whether one could touch a flow: apps/api/app/firewall/nat.py.
pub mod Silent
pub mod Tests
use zero_node.Prelude.{
  ℕ, zero, suc, ◌+◌, Bool, true, false, not, ◌&&◌, ◌||◌, Option, none, some, List, [], ◌∷◌, ◌++◌,
  length, is_empty, reverse, leb, ◌==◌, if◌then◌else◌,
}
use zero_node.Prelude.Text.{
  Text, codes, text_eq, one_of, is_space, lower, strip, strip_left, words, split_lines, starts_with,
  lookup_text,
}
use zero_node.Firewall.Ipv4.{Network, ip_address, in_network}
use zero_node.Firewall.Policy.{as_network, digits_of, head_is}
use zero_node.Firewall.Normalize.{token, keyword}
use zero_node.Firewall.ObjectGroup.{ObjectGroup, Expansion, Registry, expand_object}

pub record NatRule : Type 0 where
  pub raw : Text
  pub from_zone : Text
  pub to_zone : Text
  pub kind : Text
  pub identity : Bool
  pub operands : List Text

-- `applies` is the truth value of `translated`.
pub record NatAssessment : Type 0 where
  pub translated : List Text
  pub unresolved : List Text

abbrev stop_words : List Text
stop_words =
    codes "destination"
    ∷ codes "service"
    ∷ codes "description"
    ∷ codes "inactive"
    ∷ codes "unidirectional"
    ∷ codes "no-proxy-arp"
    ∷ []

abbrev operands_up_to : ℕ → List Text → List Text
operands_up_to zero ts = []
operands_up_to (suc n) [] = []
operands_up_to (suc n) (t ∷ ts) = elim (one_of stop_words (lower t)) [
  | true ↦ []
  | false ↦ t ∷ operands_up_to n ts
]

-- `_operands`, which breaks at the second
unfoldable pub operands_of : List Text → List Text
operands_of = operands_up_to 2

abbrev same_pair : List Text → Bool
same_pair (a ∷ b ∷ rest) = text_eq a b
same_pair _ = false

abbrev static : Text
static = codes "static"

-- The loop of `_rules_from_body`: the section is `destination` or not, and the number says how many
-- tokens the index has been moved past.
abbrev rules_from : Text → Text → Text → Bool → ℕ → List Text → List NatRule
rules_from raw from_zone to_zone destination k [] = []
rules_from raw from_zone to_zone destination (suc k) (t ∷ ts) =
    rules_from raw from_zone to_zone destination k ts
rules_from raw from_zone to_zone destination zero (t ∷ ts) =
    elim (text_eq (lower t) (codes "destination")) [
      | true ↦ rules_from raw from_zone to_zone true zero ts
      | false ↦
          elim (one_of (static ∷ codes "dynamic" ∷ []) (lower t)
            && not (is_empty (operands_of ts))) [
              | false ↦ rules_from raw from_zone to_zone destination zero ts
              | true ↦
                  record {
                    raw = strip raw;
                    from_zone = from_zone;
                    to_zone = to_zone;
                    kind = lower t;
                    identity = text_eq (lower t) static && same_pair (operands_of ts);
                    operands = if destination then reverse (operands_of ts) else operands_of ts;
                  }
                  ∷ rules_from raw from_zone to_zone destination (length (operands_of ts)) ts
            ]
    ]

unfoldable pub rules_from_body : Text → Text → Text → Text → List NatRule
unfolding operands_of
rules_from_body raw from_zone to_zone body =
    rules_from raw from_zone to_zone false zero (words body)

-- The groups of the two expressions.
pub record Header : Type 0 where
  pub from_zone : Text
  pub to_zone : Text
  pub body : Text

abbrev bind : {A B : Type 0} → Option A → (A → Option B) → Option B
bind none f = none
bind (some x) f = f x

-- `\s+`
abbrev spaces : Text → Option Text
spaces s = if head_is is_space s then some (strip_left s) else none

abbrev until_close : Text → Option (Text × Text)
until_close [] = none
until_close (c ∷ s) = elim (c == 41) [
  | true ↦ some ([], s)
  | false ↦ elim (until_close s) [ none ↦ none | some (inside, rest) ↦ some (c ∷ inside, rest) ]
]

abbrev not_empty : Text × Text → Option (Text × Text)
not_empty (inside, rest) = if is_empty inside then none else some (inside, rest)

-- `\(([^)]+)\)`
abbrev zone : Text → Option (Text × Text)
zone [] = none
zone (c ∷ s) = if c == 40 then bind (until_close s) not_empty else none

abbrev word_to : Text → Text → Option Text
word_to w s = bind (spaces s) (λ t. keyword (w ∷ []) (token t))

-- What `^\s*\d+\s+` leaves.
abbrev after_number : Text → Option Text
after_number s = let (ds, rest) = digits_of s in if is_empty ds then none else spaces rest

-- `NAT_LINE_RE`
abbrev nat_line : Text → Option Header
nat_line s = bind (bind (after_number (strip_left s)) zone) (λ (from_zone, s1).
    bind (bind (word_to (codes "to") s1) zone) (λ (to_zone, s2).
      bind (word_to (codes "source") s2) (λ body.
        some (record { from_zone = strip from_zone; to_zone = strip to_zone; body = body }))))

-- At the last comma that something stands behind.
abbrev last_comma : Text → Option (Text × Text)
last_comma [] = none
last_comma (c ∷ s) = elim (last_comma s) [
  | some (before, behind) ↦ some (c ∷ before, behind)
  | none ↦ if c == 44 && not (is_empty s) then some ([], s) else none
]

abbrev number_or : Text → Text
number_or s = elim (after_number s) [ none ↦ s | some rest ↦ rest ]

-- `CONFIG_NAT_RE`
abbrev config_nat : Text → Option Header
config_nat s = bind (bind (keyword (codes "nat" ∷ []) (token (strip_left s))) zone) (λ (zones, s1).
    bind (bind (last_comma zones) not_empty) (λ (from_zone, to_zone). bind (spaces s1) (λ s2.
      bind (keyword (codes "source" ∷ []) (token (number_or s2))) (λ body.
        some (record { from_zone = strip from_zone; to_zone = strip to_zone; body = body })))))

abbrev header_of : Text → Option Header
header_of s = elim (nat_line s) [ none ↦ config_nat s | some h ↦ some h ]

abbrev strip_right : Text → Text
strip_right s = reverse (strip_left (reverse s))

abbrev line_rules : Text → List NatRule
line_rules raw_line =
    let line = strip_right raw_line in
    if is_empty (strip line) || starts_with (lower (strip_left line)) (codes "translate_hits")
    then []
    else elim (header_of line) [
      | none ↦ []
      | some h ↦ rules_from_body line h.from_zone h.to_zone h.body
    ]

abbrev lines_rules : List Text → List NatRule
lines_rules [] = []
lines_rules (l ∷ ls) = line_rules l ++ lines_rules ls

unfoldable pub parse_show_nat : Text → List NatRule
unfolding rules_from_body
parse_show_nat output = lines_rules (split_lines output)

-- `_as_network`
abbrev nat_network : Text → Option Network
nat_network spec = as_network (strip spec)

abbrev covered : ℕ → List Text → Bool → Option Bool
covered target [] resolved_any = if resolved_any then some false else none
covered target (c ∷ cs) resolved_any = elim (nat_network c) [
  | none ↦ covered target cs resolved_any
  | some net ↦ elim (in_network target net) [ true ↦ some true | false ↦ covered target cs true ]
]

-- The candidates of an operand that is the name of an object; `none` is not resolvable.
abbrev candidates_of : Option Expansion → Option (List Text)
candidates_of none = none
candidates_of (some e) = if not e.complete && is_empty e.networks then none else some e.networks

abbrev candidates : Text → Registry → Option (List Text)
candidates operand objects = elim (lookup_text (lower operand) objects) [
  | none ↦ some (operand ∷ [])
  | some g ↦ candidates_of (expand_object operand objects)
]

abbrev covered_by : Option ℕ → Option (List Text) → Option Bool
covered_by target none = none
covered_by none (some cs) = none
covered_by (some a) (some cs) = covered a cs false

-- `_covers`: `some` if it can tell, `none` if the operand is not resolvable.
unfoldable pub covers : Text → Text → Registry → Option Bool
covers operand address objects =
    if one_of (codes "any" ∷ codes "any4" ∷ codes "any6" ∷ codes "interface" ∷ []) (lower operand)
    then some (not (text_eq (lower operand) (codes "interface")))
    else covered_by (ip_address address) (candidates operand objects)

-- How the loops over the operands and the addresses of a rule end.
pub data Touch : Type 0 where
  hit : Touch
  missed : Bool → Touch

abbrev touch_addresses : Registry → Text → List Text → Bool → Touch
touch_addresses objects operand [] unresolved = missed unresolved
touch_addresses objects operand (a ∷ rest) unresolved = elim (covers operand a objects) [
  | none ↦ touch_addresses objects operand rest true
  | some b ↦ elim b [ true ↦ hit | false ↦ touch_addresses objects operand rest unresolved ]
]

abbrev touch_operands : Registry → List Text → List Text → Bool → Touch
touch_operands objects [] addresses unresolved = missed unresolved
touch_operands objects (o ∷ rest) addresses unresolved =
    elim (touch_addresses objects o addresses unresolved) [
      | hit ↦ hit
      | missed u ↦ touch_operands objects rest addresses u
    ]

abbrev add_once : Text → List Text → List Text
add_once raw raws = if one_of raws raw then raws else raws ++ raw ∷ []

abbrev record_touch : Text → Touch → NatAssessment → NatAssessment
record_touch raw hit a = record a { translated = add_once raw a.translated }
record_touch raw (missed u) a = if u then record a { unresolved = add_once raw a.unresolved } else a

-- The body of the loop over the rules.
abbrev assess_rule : Registry → List Text → NatRule → NatAssessment → NatAssessment
assess_rule objects addresses rule a =
    if rule.identity
    then a
    else record_touch rule.raw (touch_operands objects rule.operands addresses false) a

abbrev assess_rules : Registry → List Text → List NatRule → NatAssessment → NatAssessment
assess_rules objects addresses [] a = a
assess_rules objects addresses (r ∷ rs) a =
    assess_rules objects addresses rs (assess_rule objects addresses r a)

unfoldable pub assess_flow : List NatRule → List Text → Registry → NatAssessment
unfolding covers
assess_flow rules addresses objects =
    assess_rules objects addresses rules (record { translated = []; unresolved = [] })
