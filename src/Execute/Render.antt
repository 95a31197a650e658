-- ===== src/Execute/Render.antt =====
-- The lines that a device is sent: apps/api/app/execute/render.py. The regular expressions are
-- written out as scans; a keyword ignores case, and `.` does not match a line feed.
pub mod Prefix
pub mod Tests
use zero_node.Prelude.{
  ℕ, zero, suc, ◌+◌, ◌-◌, ◌/◌, ◌%◌, ◌^◌, Bool, true, false, not, ◌&&◌, ◌||◌, Option, none, some,
  List, [], ◌∷◌, ◌++◌, length, is_empty, ltb, if◌then◌else◌,
}
use zero_node.Prelude.Int.{ℤ, pos, negsuc}
use zero_node.Prelude.Text.{
  Text, codes, text_eq, is_space, lower, strip, strip_left, starts_with, drop, decimal,
}
use zero_node.Firewall.Ipv4.{Network, ip_network, network_text}
use zero_node.Firewall.Policy.{
  AclRule, one_code, head_is, line_at, is_any, permit, parse_acl_command,
}
use zero_node.Execute.Base.{Action}

unfoldable pub int_text : ℤ → Text
unfolding decimal
int_text (pos n) = decimal n
int_text (negsuc n) = 45 ∷ decimal (suc n)

-- `\S+` at the start of a text, and what follows.
abbrev pub token_of : Text → Text × Text
token_of [] = ([], [])
token_of (c ∷ s) = let (t, rest) = token_of s in if is_space c then ([], c ∷ s) else (c ∷ t, rest)

-- A word and the blanks behind it, at the start of a text: what follows them.
abbrev pub keyword : Text → Text → Option Text
keyword word s =
    if starts_with (lower s) word && head_is is_space (drop (length word) s)
    then some (strip_left (drop (length word) s))
    else none

abbrev pub take : ℕ → Text → Text
take zero s = []
take (suc n) [] = []
take (suc n) (c ∷ s) = c ∷ take n s

pub record Acl : Type 0 where
  pub acl : Text
  pub body : Text

-- `(?P<acl>\S+)\s+(?P<body>.+)$`
abbrev acl_body : Text → Option Acl
acl_body s =
    let (name, after) = token_of s in
    let body = strip_left after in
    if not (is_empty name)
      && head_is is_space after
      && not (is_empty body)
      && not (one_code 10 body)
    then some (record { acl = name; body = body })
    else none

abbrev or_acl : Option Acl → Option Acl → Option Acl
or_acl none b = b
or_acl (some a) b = some a

abbrev then_acl : Option Text → Option Acl
then_acl none = none
then_acl (some s) = acl_body s

abbrev typed_acl : Text → Option Acl
typed_acl s =
    or_acl (then_acl (keyword (codes "extended") s)) (then_acl (keyword (codes "standard") s))

abbrev after_ip : Option Text → Option Text
after_ip none = none
after_ip (some s) = keyword (codes "access-list") s

abbrev ios_rest : Option Text → Option Acl
ios_rest none = none
ios_rest (some s) = typed_acl s

-- `IOS_ACL_RE.match`
abbrev pub ios_acl : Text → Option Acl
ios_acl text = ios_rest (after_ip (keyword (codes "ip") text))

abbrev eos_rest : Option Text → Option Acl
eos_rest none = none
eos_rest (some s) = or_acl (typed_acl s) (acl_body s)

-- `EOS_ACL_RE.match`
abbrev pub eos_acl : Text → Option Acl
eos_acl text = eos_rest (after_ip (keyword (codes "ip") text))

abbrev is_line : Text → Bool
is_line rest = elim (line_at rest) [ none ↦ false | some x ↦ true ]

abbrev asa_from : Text → Option ℤ → Option Text → Text
asa_from text none named = text
asa_from text (some position) none = text
asa_from text (some position) (some named) =
    let (name, after) = token_of named in
    let rest = strip_left after in
    if is_empty name || not (head_is is_space after) || one_code 10 rest || is_line rest
    then text
    else take (length text - length after) text
      ++ codes " line "
      ++ int_text position
      ++ codes " "
      ++ rest

unfoldable pub asa_command : Text → Option ℤ → Text
unfolding int_text
asa_command command position =
    asa_from (strip command) position (keyword (codes "access-list") (strip command))

abbrev numbered : Option ℤ → Text → Text
numbered none body = body
numbered (some position) body = int_text position ++ codes " " ++ body

abbrev ios_lines : Text → Option ℤ → Option Acl → List Text
ios_lines text position none = text ∷ []
ios_lines text position (some m) =
    (codes "ip access-list extended " ++ m.acl) ∷ numbered position (strip m.body) ∷ []

unfoldable pub ios_commands : Text → Option ℤ → List Text
unfolding int_text
ios_commands command position = ios_lines (strip command) position (ios_acl (strip command))

abbrev minus : Text → Text
minus s = codes "no " ++ s

abbrev eos_lines : Text → Option ℤ → Bool → Option Acl → List Text
eos_lines text position removal none = (if removal then minus text else text) ∷ []
eos_lines text none removal (some m) =
    (codes "ip access-list " ++ m.acl)
    ∷ (if removal then minus (strip m.body) else strip m.body)
    ∷ []
eos_lines text (some position) true (some m) =
    (codes "ip access-list " ++ m.acl) ∷ minus (int_text position) ∷ []
eos_lines text (some position) false (some m) =
    (codes "ip access-list " ++ m.acl) ∷ numbered (some position) (strip m.body) ∷ []

unfoldable pub eos_commands : Text → Option ℤ → Bool → List Text
unfolding int_text
eos_commands command position removal =
    eos_lines (strip command) position removal (eos_acl (strip command))

-- `none` is the `ValueError` of `ip_network`.
unfoldable pub srl_prefix : Text → Option Text
unfolding decimal
srl_prefix value =
    if is_any value
    then some (codes "0.0.0.0/0")
    else elim (ip_network (if one_code 47 value then value else value ++ codes "/32")) [
      | none ↦ none
      | some net ↦ some (network_text net)
    ]

abbrev srl_port : Text → Option ℕ → List Text
srl_port base none = []
srl_port base (some p) =
    (codes "set " ++ base ++ codes " match transport destination-port value " ++ decimal p) ∷ []

abbrev srl_set : Text → AclRule → Option Text → Option Text → Option (List Text)
srl_set base rule none dst = none
srl_set base rule (some src) none = none
srl_set base rule (some src) (some dst) = some (
    (codes "set " ++ base ++ codes " match ipv4 protocol " ++ rule.proto)
    ∷ (codes "set " ++ base ++ codes " match ipv4 source-ip prefix " ++ src)
    ∷ (codes "set " ++ base ++ codes " match ipv4 destination-ip prefix " ++ dst)
    ∷ (srl_port base rule.port
        ++ (codes "set "
            ++ base
            ++ codes " action "
            ++ (if text_eq rule.action permit then codes "accept" else codes "drop"))
          ∷ []))

abbrev srl_add : Text → Text → Option AclRule → Option (List Text)
srl_add text base none = some (text ∷ [])
srl_add text base (some rule) = srl_set base rule (srl_prefix rule.src) (srl_prefix rule.dst)

abbrev srl_lines : Text → Option ℤ → Bool → Option Acl → Option (List Text)
srl_lines text none removal m = some (text ∷ [])
srl_lines text (some position) removal none = some (text ∷ [])
srl_lines text (some position) removal (some m) =
    let base =
      codes "/ acl acl-filter " ++ m.acl ++ codes " type ipv4 entry " ++ int_text position in
    if removal
    then some ((codes "delete " ++ base) ∷ [])
    else srl_add text base (parse_acl_command text)

unfoldable pub srlinux_commands : Text → Option ℤ → Bool → Option (List Text)
unfolding int_text srl_prefix parse_acl_command
srlinux_commands command position removal =
    srl_lines (strip command) position removal (ios_acl (strip command))

abbrev ios_removal : List Text → List Text
ios_removal (a ∷ b ∷ rest) = a ∷ minus b ∷ []
ios_removal (a ∷ []) = minus a ∷ []
ios_removal [] = []

-- `none` is the `ValueError` that a bad address raises on SR Linux.
unfoldable pub device_commands : Text → Option ℤ → Text → Option (List Text)
unfolding asa_command ios_commands eos_commands srlinux_commands
device_commands command position platform =
    let text = strip command in
    let removal = starts_with (lower text) (codes "no ") in
    let body = if removal then strip (drop 3 text) else text in
    if is_empty text
    then some []
    else if text_eq platform (codes "nokia_srl")
    then srlinux_commands body position removal
    else if text_eq platform (codes "arista_eos")
    then some (eos_commands body position removal)
    else if text_eq platform (codes "cisco_ios")
    then some
        (if removal then ios_removal (ios_commands body position) else ios_commands body position)
    else some
        ((if removal then minus (asa_command body position) else asa_command body position) ∷ [])

unfoldable pub rendered_for : Action → Text → Bool → Option (List Text)
unfolding device_commands
rendered_for action platform rollback =
    device_commands (if rollback then action.rollback else action.command) action.position platform
