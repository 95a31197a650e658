-- ===== src/Firewall/ObjectGroup/Show.antt =====
-- The readers of `show object-group` and `show running-config object`:
-- apps/api/app/firewall/objectgroup.py. The header expressions are anchored at both ends of a stripped
-- line and their parts are separated by blanks, so that they are tests of its words.
use zero_node.Prelude.{
  ℕ, zero, suc, ◌+◌, ◌-◌, Bool, true, false, not, ◌&&◌, ◌||◌, Option, none, some, List, [], ◌∷◌,
  ◌++◌, map, length, is_empty, ltb, if◌then◌else◌, reverse,
}
use zero_node.Prelude.Text.{
  Text, codes, text_eq, one_of, lower, strip, words, split_on, split_lines, is_number, number,
  starts_with, put_text, change_text,
}
use zero_node.Firewall.Ipv4.{Network, ip_address, network_text, summarize_address_range}
use zero_node.Firewall.Policy.{port_alias, is_quad}
use zero_node.Firewall.ObjectGroup.{ObjectGroup, Registry}

unfoldable pub port_value : Text → Option ℕ
unfolding port_alias
port_value token = if is_number token then some (number token) else port_alias token

abbrev max_port_range : ℕ
max_port_range = 64

abbrev count_from : ℕ → ℕ → List ℕ
count_from n zero = []
count_from n (suc k) = n ∷ count_from (n + 1) k

abbrev port_span : Option ℕ → Option ℕ → Option (List ℕ)
port_span none end = none
port_span (some start) none = none
port_span (some start) (some end) =
    if ltb end start || ltb max_port_range (end - start + 1)
    then none
    else some (count_from start (end - start + 1))

unfoldable pub expand_range : Text → Text → Option (List ℕ)
unfolding port_value
expand_range low high = port_span (port_value low) (port_value high)

-- `^\d+\.\d+\.\d+\.\d+(/\d+)?$`
abbrev quad_parts : List Text → Bool
quad_parts (a ∷ []) = is_quad a
quad_parts (a ∷ p ∷ []) = is_quad a && is_number p
quad_parts _ = false

abbrev bare_address : Text → Option Text
bare_address t = if quad_parts (split_on 47 t) then some t else none

unfoldable pub network_member : List Text → Option Text
network_member [] = none
network_member (t ∷ []) =
    if one_of (codes "any" ∷ codes "any4" ∷ []) t then some (codes "any") else bare_address t
network_member (t ∷ u ∷ rest) =
    if text_eq t (codes "host")
    then some u
    else if one_of (codes "any" ∷ codes "any4" ∷ []) t
    then some (codes "any")
    else if is_quad u
    then some (t ++ codes "/" ++ u)
    else bare_address t

abbrev unread : ObjectGroup → ObjectGroup
unread g = record g { complete = false }

abbrev add_network : Option Text → ObjectGroup → ObjectGroup
add_network none g = unread g
add_network (some n) g = record g { networks = g.networks ++ n ∷ [] }

abbrev add_networks : Option (List Text) → ObjectGroup → ObjectGroup
add_networks none g = unread g
add_networks (some ns) g = record g { networks = g.networks ++ ns }

abbrev add_port : Option ℕ → ObjectGroup → ObjectGroup
add_port none g = unread g
add_port (some p) g = record g { ports = g.ports ++ p ∷ [] }

abbrev add_ports : Option (List ℕ) → ObjectGroup → ObjectGroup
add_ports none g = unread g
add_ports (some ps) g = record g { ports = g.ports ++ ps }

-- What follows the first occurrence of a word.
abbrev after_word : Text → List Text → List Text
after_word w [] = []
after_word w (t ∷ ts) = elim (text_eq t w) [ true ↦ ts | false ↦ after_word w ts ]

abbrev port_of : List Text → Option ℕ
port_of [] = none
port_of (t ∷ ts) = port_value t

abbrev range_of : List Text → Option (List ℕ)
range_of (low ∷ high ∷ ts) = expand_range low high
range_of _ = none

-- `_absorb_service_object`
unfoldable pub absorb_service_object : List Text → ObjectGroup → ObjectGroup
absorb_service_object [] g = unread g
absorb_service_object (t ∷ ts) g = elim (text_eq t (codes "object")) [
  | true ↦ elim ts [ [] ↦ unread g | u ∷ us ↦ record g { object_refs = g.object_refs ++ u ∷ [] } ]
  | false ↦
      let named : ObjectGroup = record g { protocols = g.protocols ++ t ∷ [] } in
      if one_of (t ∷ ts) (codes "eq")
      then add_port (port_of (after_word (codes "eq") (t ∷ ts))) named
      else if one_of (t ∷ ts) (codes "range")
      then add_ports (range_of (after_word (codes "range") (t ∷ ts))) named
      else if is_empty ts
      then named
      else unread named
]

abbrev network_object : List Text → ObjectGroup → ObjectGroup
network_object (o ∷ ref ∷ rest) g =
    if text_eq o (codes "object")
    then record g { object_refs = g.object_refs ++ ref ∷ [] }
    else add_network (network_member (o ∷ ref ∷ rest)) g
network_object rest g = add_network (network_member rest) g

abbrev port_object : List Text → ObjectGroup → ObjectGroup
port_object (w ∷ a ∷ []) g = if text_eq w (codes "eq") then add_port (port_value a) g else unread g
port_object (w ∷ a ∷ b ∷ rest) g =
    if text_eq w (codes "eq")
    then add_port (port_value a) g
    else if text_eq w (codes "range")
    then add_ports (expand_range a b) g
    else unread g
port_object _ g = unread g

-- `keyword.endswith("-object")`
abbrev ends_object : Text → Bool
ends_object w = starts_with (reverse w) (reverse (codes "-object"))

abbrev first_word : List Text → List Text
first_word [] = []
first_word (t ∷ ts) = t ∷ []

-- The words of a line of a group, lower-cased.
unfoldable pub group_member : List Text → ObjectGroup → ObjectGroup
unfolding absorb_service_object
group_member [] g = g
group_member (w ∷ rest) g =
    if text_eq w (codes "group-object") && not (is_empty rest)
    then record g { members = g.members ++ first_word rest }
    else if text_eq w (codes "network-object")
    then network_object rest g
    else if text_eq w (codes "port-object")
    then port_object rest g
    else if text_eq w (codes "protocol-object") && not (is_empty rest)
    then record g { protocols = g.protocols ++ first_word rest }
    else if text_eq w (codes "service-object")
    then absorb_service_object rest g
    else if ends_object w
    then unread g
    else g

abbrev new_group : Text → Text → List Text → ObjectGroup
new_group name kind protocols = record {
  name = name;
  kind = lower kind;
  networks = [];
  ports = [];
  protocols = protocols;
  members = [];
  object_refs = [];
  complete = true;
}

-- `GROUP_HEADER_RE`
abbrev group_header : List Text → Option ObjectGroup
group_header (w ∷ kind ∷ name ∷ []) =
    if text_eq (lower w) (codes "object-group")
      && one_of (codes "network" ∷ codes "service" ∷ codes "protocol" ∷ codes "icmp-type" ∷ [])
          (lower kind)
    then some (new_group name kind [])
    else none
group_header (w ∷ kind ∷ name ∷ proto ∷ []) =
    if text_eq (lower w) (codes "object-group")
      && one_of (codes "network" ∷ codes "service" ∷ codes "protocol" ∷ codes "icmp-type" ∷ [])
          (lower kind)
      && one_of (codes "tcp" ∷ codes "udp" ∷ codes "tcp-udp" ∷ []) (lower proto)
    then some (new_group name kind (lower proto ∷ []))
    else none
group_header _ = none

-- `OBJECT_HEADER_RE`
abbrev object_header : List Text → Option ObjectGroup
object_header (w ∷ kind ∷ name ∷ []) =
    if text_eq (lower w) (codes "object")
      && one_of (codes "network" ∷ codes "service" ∷ []) (lower kind)
    then some (new_group name kind [])
    else none
object_header _ = none

-- The body of the loop of both readers. `current` is the group under the key.
abbrev read_line :
    (List Text → Option ObjectGroup)
    → (List Text → ObjectGroup → ObjectGroup)
    → Text
    → Registry × Option Text
    → Registry × Option Text
read_line header member raw (groups, current) =
    let line = strip raw in
    if is_empty line then (groups, current) else elim (header (words line)) [
      | some g ↦ (put_text (lower g.name) g groups, some (lower g.name))
      | none ↦ elim current [
        | none ↦ (groups, none)
        | some key ↦
            if starts_with (lower line) (codes "description")
            then (groups, some key)
            else (change_text key (member (words (lower line))) groups, some key)
      ]
    ]

abbrev read_lines :
    (List Text → Option ObjectGroup)
    → (List Text → ObjectGroup → ObjectGroup)
    → List Text
    → Registry × Option Text
    → Registry × Option Text
read_lines header member [] st = st
read_lines header member (l ∷ ls) st = read_lines header member ls (read_line header member l st)

unfoldable pub parse_show_object_groups : Text → Registry
unfolding group_member
parse_show_object_groups output =
    (read_lines group_header group_member (split_lines output) ([], none)).0

abbrev few : List Network → Option (List Text)
few networks = if ltb 16 (length networks) then none else some (map network_text networks)

abbrev summarised : Option (List Network) → Option (List Text)
summarised none = none
summarised (some networks) = few networks

-- `_summarise_range`
unfoldable pub summarise_range : Text → Text → Option (List Text)
summarise_range low high = elim (ip_address low) [
  | none ↦ none
  | some a ↦ elim (ip_address high) [
    | none ↦ none
    | some b ↦ summarised (summarize_address_range a b)
  ]
]

-- The words of a line of an object, lower-cased.
unfoldable pub object_member : List Text → ObjectGroup → ObjectGroup
unfolding absorb_service_object summarise_range
object_member [] g = g
object_member (w ∷ []) g =
    if text_eq w (codes "service") then absorb_service_object [] g else unread g
object_member (w ∷ a ∷ []) g =
    if text_eq w (codes "host")
    then record g { networks = g.networks ++ a ∷ [] }
    else if text_eq w (codes "service")
    then absorb_service_object (a ∷ []) g
    else unread g
object_member (w ∷ a ∷ b ∷ rest) g =
    if text_eq w (codes "host")
    then record g { networks = g.networks ++ a ∷ [] }
    else if text_eq w (codes "subnet")
    then record g { networks = g.networks ++ (a ++ codes "/" ++ b) ∷ [] }
    else if text_eq w (codes "range")
    then add_networks (summarise_range a b) g
    else if text_eq w (codes "service")
    then absorb_service_object (a ∷ b ∷ rest) g
    else unread g

unfoldable pub parse_show_objects : Text → Registry
unfolding object_member
parse_show_objects output =
    (read_lines object_header object_member (split_lines output) ([], none)).0
