-- ===== src/Ingress/Alertmanager.antt =====
-- Alertmanager webhooks: apps/api/app/ingress/alertmanager.py and models.py. A dict is its entries in
-- order. The parameters are the hexadecimal SHA-256 of a text, and that of the printed labels.
pub mod ThreadId
pub mod Tests
use zero_node.Prelude.{
  ℕ, zero, suc, ◌-◌, Bool, true, false, not, ◌&&◌, ◌||◌, Option, none, some, List, [], ◌∷◌, ◌++◌,
  map, is_empty, first, leb, ◌==◌, if◌then◌else◌,
}
use zero_node.Prelude.Text.{
  Text, codes, text_eq, one_of, is_digit, lower, strip, lookup_text, put_text,
}
use zero_node.Firewall.Policy.{head_is}

abbrev pub Labels : Type 0
Labels = List (Text × Text)

pub record AlertmanagerAlert : Type 0 where
  pub status : Text
  pub labels : Labels
  pub annotations : Labels
  pub fingerprint : Text

pub record AlertmanagerWebhookBody : Type 0 where
  pub status : Text
  pub group_labels : Labels
  pub common_labels : Labels
  pub common_annotations : Labels
  pub alerts : List AlertmanagerAlert

pub data Severity : Type 0 where
  low medium high critical : Severity

-- `action` is `ignore` or `open`; the metadata are left out.
pub record NormalizedIncidentTrigger : Type 0 where
  pub thread_id : Text
  pub description : Text
  pub severity : Severity
  pub site : Text
  pub external_id : Text
  pub ignored : Bool

abbrev pub is_alnum : ℕ → Bool
is_alnum c = is_digit c || ((leb 65 c && leb c 90) || (leb 97 c && leb c 122))

-- `-`, `.`, `_` and `:`
abbrev pub is_mark : ℕ → Bool
is_mark c = c == 45 || (c == 46 || (c == 95 || c == 58))

abbrev pub is_allowed : ℕ → Bool
is_allowed c = is_alnum c || is_mark c

abbrev pub clean : ℕ → ℕ
clean c = if is_allowed c then c else 45

abbrev pub marks_left : Text → Text
marks_left [] = []
marks_left (c ∷ s) = elim (is_mark c) [ true ↦ marks_left s | false ↦ c ∷ s ]

abbrev pub marks_right : Text → Text
marks_right [] = []
marks_right (c ∷ s) =
    let rest = marks_right s in if is_mark c && is_empty rest then [] else c ∷ rest

-- `s[:n]`
abbrev pub take_codes : ℕ → Text → Text
take_codes zero s = []
take_codes (suc n) [] = []
take_codes (suc n) (c ∷ s) = c ∷ take_codes n s

module _ (sha256 : Text → Text) where
  abbrev pub named_or : Text → Text → Text
  named_or cleaned value = if is_empty cleaned then take_codes 12 (sha256 value) else cleaned

  -- `_sanitize_thread_id`
  unfoldable pub sanitize_thread_id : Text → Text → Text
  sanitize_thread_id value prefix =
      let cleaned = named_or (marks_right (marks_left (map clean (strip value)))) value in
      take_codes 128 (if head_is is_alnum cleaned then cleaned else prefix ++ cleaned)

abbrev get_or : Text → Labels → Text
get_or key labels = elim (lookup_text key labels) [ none ↦ [] | some v ↦ v ]

-- `SEVERITY_MAP`
abbrev severity_named : Text → Option Severity
severity_named s =
    if one_of (codes "critical" ∷ codes "crit" ∷ codes "p1" ∷ []) s
    then some Severity.critical
    else if one_of (codes "high" ∷ codes "warning" ∷ codes "warn" ∷ codes "p2" ∷ []) s
    then some Severity.high
    else if one_of (codes "medium" ∷ codes "p3" ∷ []) s
    then some Severity.medium
    else if one_of (codes "low" ∷ codes "info" ∷ codes "p4" ∷ codes "p5" ∷ []) s
    then some Severity.low
    else none

abbrev first_severity : List Text → Labels → Severity
first_severity [] labels = Severity.high
first_severity (key ∷ keys) labels = elim (severity_named (lower (strip (get_or key labels)))) [
  | some s ↦ s
  | none ↦ first_severity keys labels
]

unfoldable pub severity_of : Labels → Severity
severity_of = first_severity (codes "severity" ∷ codes "priority" ∷ codes "alert_level" ∷ [])

abbrev first_site : List Text → Labels → Text → Text
first_site [] labels default_site = take_codes 128 default_site
first_site (key ∷ keys) labels default_site =
    let rest = first_site keys labels default_site in
    if is_empty (strip (get_or key labels))
    then rest
    else take_codes 128 (strip (get_or key labels))

unfoldable pub site_of : Labels → Text → Text
site_of =
    first_site (codes "site" ∷ codes "topology_site" ∷ codes "cluster" ∷ codes "location" ∷ [])

-- `{**a, **b}`
abbrev pub merged : Labels → Labels → Labels
merged a [] = a
merged a ((k, v) ∷ b) = merged (put_text k v a) b

abbrev text_or : Text → Text → Text
text_or a b = if is_empty a then b else a

abbrev key_below : Text → Text → Bool
key_below [] t = not (is_empty t)
key_below (c ∷ s) [] = false
key_below (c ∷ s) (d ∷ t) = if c == d then key_below s t else leb c d

abbrev insert_label : Text × Text → Labels → Labels
insert_label l [] = l ∷ []
insert_label l (m ∷ ms) =
    let rest = insert_label l ms in if key_below m.0 l.0 then m ∷ rest else l ∷ m ∷ ms

-- `sorted(labels.items())`, whose keys differ
abbrev sort_labels : Labels → Labels
sort_labels [] = []
sort_labels (l ∷ ls) = insert_label l (sort_labels ls)

abbrev label_bits : Labels → List Text
label_bits [] = []
label_bits ((k, v) ∷ ls) =
    let rest = label_bits ls in
    if one_of
      (codes "alertname"
        ∷ codes "instance"
        ∷ codes "job"
        ∷ codes "service"
        ∷ codes "namespace"
        ∷ [])
      k
    then (k ++ (codes "=" ++ v)) ∷ rest
    else rest

-- `sep.join(parts)`
abbrev join_texts : Text → List Text → Text
join_texts sep [] = []
join_texts sep (p ∷ []) = p
join_texts sep (p ∷ q ∷ ps) = p ++ (sep ++ join_texts sep (q ∷ ps))

abbrev not_blank : List Text → List Text
not_blank [] = []
not_blank (p ∷ ps) = let rest = not_blank ps in if is_empty p then rest else p ∷ rest

unfoldable pub description_of : AlertmanagerAlert → Labels → Text
description_of alert common =
    let summary = strip (
      text_or (get_or (codes "summary") alert.annotations) (
        text_or (get_or (codes "summary") common) (
          text_or (get_or (codes "alertname") alert.labels)
            (codes "Alertmanager notification")))) in
    let text = strip (
      text_or (get_or (codes "description") alert.annotations)
        (get_or (codes "description") common)) in
    let bits = label_bits (sort_labels alert.labels) in
    join_texts (codes "\n") (
      not_blank (
        summary
        ∷ (if text_eq text summary then [] else text)
        ∷ (if is_empty bits then [] else codes "Labels: " ++ join_texts (codes ", ") bits)
        ∷ []))

abbrev firing : Text
firing = codes "firing"

abbrev first_or : Option AlertmanagerAlert → AlertmanagerAlert → AlertmanagerAlert
first_or none a = a
first_or (some b) a = b

-- The alert that is read, if there is one.
abbrev pub read_alert : AlertmanagerWebhookBody → Option AlertmanagerAlert
read_alert body = elim body.alerts [
  | [] ↦
      if text_eq body.status (codes "resolved")
      then some
          (record { status = codes "resolved"; labels = []; annotations = []; fingerprint = [] })
      else none
  | a ∷ others ↦
      if text_eq body.status (codes "resolved")
      then some a
      else some (first_or (first (λ x. text_eq x.status firing) (a ∷ others)) a)
]

module _ (sha256 : Text → Text) (labels_digest : Labels → Text) where
  abbrev thread_of : Text → Text → Labels → Text
  thread_of prefix fingerprint labels =
      let ticket = text_or (get_or (codes "ticket_id") labels) (get_or (codes "incident") labels) in
      if is_empty ticket
      then prefix ++ (codes "-" ++ text_or fingerprint (take_codes 12 (labels_digest labels)))
      else ticket

  abbrev pub trigger :
      AlertmanagerWebhookBody
      → AlertmanagerAlert
      → Labels
      → Text
      → Text
      → Text
      → Bool
      → NormalizedIncidentTrigger
  trigger body alert labels thread_id prefix default_site ignored = record {
    thread_id = sanitize_thread_id sha256 thread_id prefix;
    description = description_of alert body.common_annotations;
    severity = severity_of labels;
    site = site_of labels default_site;
    external_id = alert.fingerprint;
    ignored = ignored;
  }

  -- The name of the thread before it is made safe, for a payload whose alerts are over, and for one
  -- that fires.
  abbrev pub resolved_thread : AlertmanagerWebhookBody → AlertmanagerAlert → Text → Text
  resolved_thread body alert prefix =
      let labels = merged body.common_labels alert.labels in
      let named = thread_of prefix alert.fingerprint labels in
      let ticket = text_or (get_or (codes "ticket_id") labels) (get_or (codes "incident") labels) in
      if is_empty ticket then sanitize_thread_id sha256 named prefix else named

  abbrev pub firing_thread : AlertmanagerWebhookBody → AlertmanagerAlert → Text → Text
  firing_thread body alert prefix =
      thread_of prefix alert.fingerprint
        (merged (merged body.common_labels body.group_labels) alert.labels)

  abbrev pub resolved_trigger :
      AlertmanagerWebhookBody → AlertmanagerAlert → Text → Text → NormalizedIncidentTrigger
  resolved_trigger body alert prefix default_site =
      trigger body alert (merged body.common_labels alert.labels)
        (resolved_thread body alert prefix) prefix default_site true

  abbrev pub firing_trigger :
      AlertmanagerWebhookBody → AlertmanagerAlert → Text → Text → NormalizedIncidentTrigger
  firing_trigger body alert prefix default_site =
      trigger body alert (merged (merged body.common_labels body.group_labels) alert.labels)
        (firing_thread body alert prefix) prefix default_site false

  -- `normalize_alertmanager`; `none` is the `ValueError`.
  unfoldable pub normalize_alertmanager :
      AlertmanagerWebhookBody → Text → Text → Option NormalizedIncidentTrigger
  unfolding sanitize_thread_id severity_of site_of description_of
  normalize_alertmanager body prefix default_site = elim (read_alert body) [
    | none ↦ none
    | some alert ↦
        if text_eq body.status (codes "resolved")
        then some (resolved_trigger body alert prefix default_site)
        else some (firing_trigger body alert prefix default_site)
  ]
