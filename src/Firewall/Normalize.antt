-- ===== src/Firewall/Normalize.antt =====
-- Vendor command wrappers around an access-control entry: apps/api/app/firewall/normalize.py.
use zero_node.Prelude.{
  not, ◌&&◌, Option, none, some, List, [], ◌∷◌, map, is_empty, ◌==◌, if◌then◌else◌,
}
use zero_node.Prelude.Text.{Text, codes, text_eq, one_of, is_space, lower, strip, strip_left}
use zero_node.Firewall.Policy.{AclRule, one_code, parse_acl_command}

abbrev pub cisco_ios : Text
cisco_ios = codes "cisco_ios"

abbrev pub arista_eos : Text
arista_eos = codes "arista_eos"

abbrev alias_or : Text → List (Text × Text) → Text
alias_or key [] = key
alias_or key ((name, vendor) ∷ rest) = if text_eq name key then vendor else alias_or key rest

-- `VENDOR_ALIASES`
abbrev vendor_aliases : List (Text × Text)
vendor_aliases =
    (codes "cisco", codes "cisco_asa")
    ∷ (codes "asa", codes "cisco_asa")
    ∷ (codes "ios", cisco_ios)
    ∷ (codes "eos", arista_eos)
    ∷ (codes "arista", arista_eos)
    ∷ (codes "srl", codes "nokia_srl")
    ∷ (codes "nokia", codes "nokia_srl")
    ∷ []

unfoldable pub normalise_vendor : Text → Text
normalise_vendor vendor =
    alias_or (map (λ c. if c == 45 then 95 else c) (lower (strip vendor))) vendor_aliases

-- `\S+` at the start of a text, and what follows it.
abbrev word_of : Text → Text × Text
word_of [] = ([], [])
word_of (c ∷ s) = let (w, rest) = word_of s in if is_space c then ([], c ∷ s) else (c ∷ w, rest)

-- `\S+\s+` at the start of a text: the word, and the text after the spaces.
abbrev pub token : Text → Option (Text × Text)
token s =
    let (w, rest) = word_of s in
    if not (is_empty w) && not (is_empty rest) then some (w, strip_left rest) else none

abbrev pub keyword : List Text → Option (Text × Text) → Option Text
keyword names none = none
keyword names (some (w, rest)) = if one_of names (lower w) then some rest else none

abbrev after_any : Option (Text × Text) → Option Text
after_any none = none
after_any (some (w, rest)) = some rest

-- The `body` group: `.+` at the end of a text, and no line break in it.
abbrev body_of : Option Text → Option Text
body_of none = none
body_of (some s) = if not (is_empty s) && not (one_code 10 s) then some s else none

abbrev bind : Option Text → (Text → Option Text) → Option Text
bind none f = none
bind (some s) f = f s

abbrev or_else : Option Text → Option Text → Option Text
or_else none q = q
or_else (some s) q = some s

abbrev after_access_list : Text → Option Text
after_access_list s =
    bind (keyword (codes "ip" ∷ []) (token s)) (λ t. keyword (codes "access-list" ∷ []) (token t))

abbrev kinds : List Text
kinds = codes "extended" ∷ codes "standard" ∷ []

abbrev named_body : Text → Option Text
named_body s = body_of (after_any (token s))

-- `IOS_ACL_RE.match`
abbrev ios_body : Text → Option Text
ios_body s = bind (bind (after_access_list s) (λ t. keyword kinds (token t))) named_body

-- `EOS_ACL_RE.match`: with the optional word if that gives a match, else without it.
abbrev eos_body : Text → Option Text
eos_body s =
    bind (after_access_list s)
      (λ t. or_else (bind (keyword kinds (token t)) named_body) (named_body t))

abbrev stripped_or : Option Text → Text → Text
stripped_or none text = text
stripped_or (some body) text = strip body

unfoldable pub acl_command_body : Text → Text → Text
unfolding normalise_vendor
acl_command_body vendor command =
    let text = strip command in
    let key = normalise_vendor vendor in
    if text_eq key cisco_ios
    then stripped_or (ios_body text) text
    else if text_eq key arista_eos
    then stripped_or (eos_body text) text
    else text

abbrev first_rule : Option AclRule → Option AclRule → Option AclRule
first_rule none q = q
first_rule (some r) q = some r

-- `none` is the `ValueError`.
unfoldable pub parse_vendor_acl : Text → Text → Option AclRule
unfolding acl_command_body parse_acl_command
parse_vendor_acl vendor command =
    first_rule (parse_acl_command (acl_command_body vendor command)) (parse_acl_command command)

unfoldable pub parse_proposed_acl : Text → Text → Option AclRule
unfolding parse_vendor_acl parse_acl_command
parse_proposed_acl command vendor =
    let text = strip command in
    if is_empty text
    then none
    else if is_empty vendor
    then parse_acl_command text
    else parse_vendor_acl vendor text
