-- ===== src/Ingress/Alertmanager/ThreadId.antt =====
-- The name of the thread that an alert opens:
-- apps/api/app/ingress/alertmanager.py.
use zero_node.Prelude.{
  ℕ, zero, suc, ◌≤◌, ◌≡◌, refl, sym, ap, transport, ◌∙◌, Bool, true, false, not, ◌&&◌, some, [],
  ◌∷◌, map, length, is_empty, Bool-cases, Option-cases, inl, inr, arith,
}
use zero_node.Prelude.Text.{Text, codes, text_eq, strip}
use zero_node.Firewall.Policy.{head_is}
use zero_node.Ingress.Alertmanager.{
  AlertmanagerWebhookBody, NormalizedIncidentTrigger, Labels, is_alnum, is_mark, is_allowed, clean,
  marks_left, marks_right, take_codes, named_or, sanitize_thread_id, read_alert, resolved_trigger,
  firing_trigger, resolved_thread, firing_thread, normalize_alertmanager,
}

abbrev pub all_allowed : Text → Bool
all_allowed [] = true
all_allowed (c ∷ s) = is_allowed c && all_allowed s

abbrev pub all_alnum : Text → Bool
all_alnum [] = true
all_alnum (c ∷ s) = is_alnum c && all_alnum s

-- A letter or a digit, then letters, digits and marks, 128 at most.
pub record IsThreadId (s : Text) : Type 0 where
  pub starts : head_is is_alnum s ≡ true
  pub characters : all_allowed s ≡ true
  pub short : length s ≤ 128

clean_allowed : (s : Text) → all_allowed (map clean s) ≡ true
clean_allowed [] = refl
clean_allowed (c ∷ s) = ground (arith, clean_allowed s)

left_allowed : (s : Text) → all_allowed s ≡ true → all_allowed (marks_left s) ≡ true
left_allowed [] h = refl
left_allowed (c ∷ s) h = ground (arith, left_allowed s, h)

right_allowed : (s : Text) → all_allowed s ≡ true → all_allowed (marks_right s) ≡ true
right_allowed [] h = refl
right_allowed (c ∷ s) h = ground (arith, right_allowed s, h)

abbrev unmarked : Text → Bool
unmarked [] = true
unmarked (c ∷ s) = not (is_mark c)

left_unmarked : (s : Text) → unmarked (marks_left s) ≡ true
left_unmarked [] = refl
left_unmarked (c ∷ s) = ground (arith, left_unmarked s)

right_unmarked : (s : Text) → unmarked s ≡ true → unmarked (marks_right s) ≡ true
right_unmarked [] h = refl
right_unmarked (c ∷ s) h = ground (arith, h)

starts_alnum :
    (s : Text)
    → all_allowed s ≡ true
    → unmarked s ≡ true
    → is_empty s ≡ false
    → head_is is_alnum s ≡ true
starts_alnum [] a u e = absurd (ground arith)
starts_alnum (c ∷ s) a u e = ground (arith, a, u)

alnum_allowed : (s : Text) → all_alnum s ≡ true → all_allowed s ≡ true
alnum_allowed [] h = refl
alnum_allowed (c ∷ s) h = ground (arith, alnum_allowed s, h)

take_allowed : (n : ℕ) (s : Text) → all_allowed s ≡ true → all_allowed (take_codes n s) ≡ true
take_allowed zero s h = refl
take_allowed (suc n) [] h = refl
take_allowed (suc n) (c ∷ s) h = ground (arith, take_allowed n s, h)

take_short : (n : ℕ) (s : Text) → length (take_codes n s) ≤ n
take_short zero s = omega arith
take_short (suc n) [] = omega arith
take_short (suc n) (c ∷ s) = ground (arith, take_short n s)

take_starts :
    (n : ℕ) (s : Text) → head_is is_alnum s ≡ true → head_is is_alnum (take_codes (suc n) s) ≡ true
take_starts n [] h = h
take_starts n (c ∷ s) h = h

-- What is relied on of the digest: it is a text of letters and digits, and not empty.
pub record IsDigest (sha256 : Text → Text) : Type 0 where
  pub alnum : (s : Text) → all_alnum (sha256 s) ≡ true
  pub some_digit : (s : Text) → is_empty (sha256 s) ≡ false

digest_starts : (s : Text) → all_alnum s ≡ true → is_empty s ≡ false → head_is is_alnum s ≡ true
digest_starts [] a e = absurd (ground arith)
digest_starts (c ∷ s) a e = ground (arith, a)

named-both :
    (sha256 : Text → Text) (cleaned value : Text)
    → IsDigest sha256
    → all_allowed cleaned ≡ true
    → unmarked cleaned ≡ true
    → (head_is is_alnum (named_or sha256 cleaned value) ≡ true)
      × (all_allowed (named_or sha256 cleaned value) ≡ true)
named-both sha256 cleaned value d a u = elim (Bool-cases (is_empty cleaned)) [
  | inl blank ↦
      rw (blank, named_or)
        (
          take_starts 11 (sha256 value)
              (digest_starts (sha256 value) (d.alnum value) (d.some_digit value)),
          take_allowed 12 (sha256 value) (alnum_allowed (sha256 value) (d.alnum value)),
        )
  | inr named ↦ rw (named, named_or) (starts_alnum cleaned a u named, a)
]

pub sanitize_thread_id-IsThreadId :
    (sha256 : Text → Text) (value prefix : Text)
    → IsDigest sha256
    → IsThreadId (sanitize_thread_id sha256 value prefix)
unfolding sanitize_thread_id
sanitize_thread_id-IsThreadId sha256 value prefix d =
    let left = marks_left (map clean (strip value)) in
    let (starts, allowed) =
      named-both sha256 (marks_right left) value d
        (right_allowed left (left_allowed (map clean (strip value)) (clean_allowed (strip value))))
        (right_unmarked left (left_unmarked (map clean (strip value)))) in
    rw (starts, sanitize_thread_id)
      (record {
        starts = take_starts 127 (named_or sha256 (marks_right left) value) starts;
        characters = take_allowed 128 (named_or sha256 (marks_right left) value) allowed;
        short = take_short 128 (named_or sha256 (marks_right left) value);
      })

same_thread :
    (x t : NormalizedIncidentTrigger)
    → some x ≡ some t
    → IsThreadId x.thread_id
    → IsThreadId t.thread_id
same_thread x t e h =
    let is : x ≡ t = ground arith in transport (ap (λ y. IsThreadId y.thread_id) is) h

-- Whatever the payload holds, if a digest is a text of letters and digits and not empty, a thread that
-- is opened or ignored for it has an id of 1 to 128 letters, digits and marks that starts with a letter
-- or a digit.
pub normalize-IsThreadId :
    (sha256 : Text → Text) (labels_digest : Labels → Text) (body : AlertmanagerWebhookBody)
    (prefix default_site : Text) (t : NormalizedIncidentTrigger)
    → IsDigest sha256
    → normalize_alertmanager sha256 labels_digest body prefix default_site ≡ some t
    → IsThreadId t.thread_id
unfolding normalize_alertmanager
normalize-IsThreadId sha256 labels_digest body prefix default_site t d e =
    elim (Option-cases (read_alert body)) [
      | inl none_read ↦ absurd (ground arith)
      | inr (alert, got) ↦ elim (Bool-cases (text_eq body.status (codes "resolved"))) [
        | inl over ↦
            let is : normalize_alertmanager sha256 labels_digest body prefix default_site
                ≡ some (resolved_trigger sha256 labels_digest body alert prefix default_site) =
              rw (got, normalize_alertmanager) (rw over refl) in
            same_thread (resolved_trigger sha256 labels_digest body alert prefix default_site) t
              (sym is ∙ e)
              (sanitize_thread_id-IsThreadId sha256
                (resolved_thread sha256 labels_digest body alert prefix) prefix d)
        | inr fires ↦
            let is : normalize_alertmanager sha256 labels_digest body prefix default_site
                ≡ some (firing_trigger sha256 labels_digest body alert prefix default_site) =
              rw (got, normalize_alertmanager) (rw fires refl) in
            same_thread (firing_trigger sha256 labels_digest body alert prefix default_site) t
              (sym is ∙ e)
              (sanitize_thread_id-IsThreadId sha256
                (firing_thread sha256 labels_digest body alert prefix) prefix d)
      ]
    ]
