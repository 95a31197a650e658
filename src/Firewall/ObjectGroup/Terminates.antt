-- ===== src/Firewall/ObjectGroup/Terminates.antt =====
-- The termination of the expansion of groups: apps/api/app/firewall/objectgroup.py.
use zero_node.Prelude.{
  ℕ, zero, suc, ◌+◌, ◌≤◌, ◌<◌, ◌≡◌, refl, sym, ap, ◌∙◌, true, false, some, List, [], ◌∷◌, ◌++◌, map,
  length, length-append, Bool-cases, Option-cases, inl, inr, arith, if◌then◌else◌,
}
use zero_node.Prelude.Text.{
  Text, codes, lower, text_eq, text_eq_refl, text_eq→eq, one_of, one_of-append, lookup_text,
}
use zero_node.Firewall.ObjectGroup.{
  ObjectGroup, Expansion, Which, Registry, key_of, entry_of, absorb, own, incomplete, Expanded,
  expand_all, expand, result_of, expand_group, expand_object,
}

abbrev unseen : List Text → List Text → ℕ
unseen seen [] = 0
unseen seen (k ∷ ks) = (if one_of seen k then 0 else 1) + unseen seen ks

abbrev Grows : List Text → List Text → Type 0
Grows s t = (x : Text) → one_of s x ≡ true → one_of t x ≡ true

unseen-Grows : (s t ks : List Text) → Grows s t → unseen t ks ≤ unseen s ks
unseen-Grows s t [] g = omega arith
unseen-Grows s t (k ∷ ks) g = ground (arith, g k, unseen-Grows s t ks g)

seen_more : (k : Text) (seen : List Text) → Grows seen (k ∷ seen)
seen_more k seen x e = ground (arith, e)

unseen_less :
    (k : Text) (seen ks : List Text)
    → one_of seen k ≡ false
    → one_of ks k ≡ true
    → unseen (k ∷ seen) ks < unseen seen ks
unseen_less k seen [] new e = cc
unseen_less k seen (j ∷ ks) new e = elim (Bool-cases (text_eq k j)) [
  | inl this ↦
      let is = text_eq→eq k j this in
      let old : one_of seen j ≡ false = ap (one_of seen) (sym is) ∙ new in
      let now : text_eq j k ≡ true = ap (λ i. text_eq i k) (sym is) ∙ text_eq_refl k in
      ground (arith, old, now, unseen-Grows seen (k ∷ seen) ks (seen_more k seen))
  | inr other ↦ ground (arith, unseen_less k seen ks new (ground (arith, e)), seen_more k seen j)
]

abbrev tagged : Text → Registry → List Text
tagged tag d = map (λ e. tag ++ e.0) d

abbrev keys : Registry → Registry → List Text
keys groups objects = tagged (codes "group:") groups ++ tagged (codes "object:") objects

length-tagged : (tag : Text) (d : Registry) → length (tagged tag d) ≡ length d
length-tagged tag [] = refl
length-tagged tag (e ∷ d) = ground (arith, length-tagged tag d)

found_tagged :
    (tag k : Text) (d : Registry) (e : ObjectGroup)
    → lookup_text k d ≡ some e
    → one_of (tagged tag d) (tag ++ k) ≡ true
found_tagged tag k [] e h = cc
found_tagged tag k ((j, v) ∷ d) e h = elim (Bool-cases (text_eq j k)) [
  | inl this ↦
      let is : text_eq (tag ++ k) (tag ++ j) ≡ true =
        ap (λ i. text_eq (tag ++ k) (tag ++ i)) (text_eq→eq j k this) ∙ text_eq_refl (tag ++ k) in
      ground (arith, is)
  | inr other ↦ ground (arith, found_tagged tag k d e (ground (arith, h)))
]

found_key :
    (groups objects : Registry) (which : Which) (name : Text) (e : ObjectGroup)
    → entry_of groups objects which name ≡ some e
    → one_of (keys groups objects) (key_of which name) ≡ true
found_key groups objects Which.group name e h =
    let k = key_of Which.group name in
    ground (
      arith,
      found_tagged (codes "group:") (lower name) groups e h,
      one_of-append k (tagged (codes "group:") groups) (tagged (codes "object:") objects),
    )
found_key groups objects Which.object name e h =
    let k = key_of Which.object name in
    ground (
      arith,
      found_tagged (codes "object:") (lower name) objects e h,
      one_of-append k (tagged (codes "group:") groups) (tagged (codes "object:") objects),
    )

unseen-le-length : (seen ks : List Text) → unseen seen ks ≤ length ks
unseen-le-length seen [] = omega arith
unseen-le-length seen (k ∷ ks) = ground (arith, unseen-le-length seen ks)

abbrev Returns : List Text → Expanded → Type 0
Returns seen x = (p : Expansion × List Text) × (x ≡ some p) × Grows seen p.1

expand_all-Returns :
    (visit : Text → List Text → Expanded) (ks : List Text) (n : ℕ)
    → ((m : Text) (s : List Text) → unseen s ks < n → Returns s (visit m s))
    → (ms : List Text) (r : Expansion) (s : List Text) → unseen s ks < n
    → Returns s (expand_all visit ms r s)
expand_all-Returns visit ks n ok [] r s lt = ((r, s), refl, λ x e. e)
expand_all-Returns visit ks n ok (m ∷ ms) r s lt =
    let ((nested, t), e, g) = ok m s lt in
    let less = unseen-Grows s t ks g in
    let (p, e', g') =
      expand_all-Returns visit ks n ok ms (absorb r nested) t (omega (arith, less, lt)) in
    (p, rw (e, expand_all) e', λ x h. g' x (g x h))

expand-Returns :
    (groups objects : Registry) (n : ℕ) (which : Which) (name : Text) (seen : List Text)
    → unseen seen (keys groups objects) < n
    → Returns seen (expand n groups objects which name seen)
unfolding expand
expand-Returns groups objects zero which name seen lt = absurd (omega (arith, lt))
expand-Returns groups objects (suc n) which name seen lt =
    elim (Bool-cases (one_of seen (key_of which name))) [
      | inl again ↦ ((incomplete, seen), rw (again, expand) refl, λ x e. e)
      | inr new ↦ elim (Option-cases (entry_of groups objects which name)) [
        | inl missing ↦ (
          (incomplete, key_of which name ∷ seen),
          rw (new, expand) (rw missing refl),
          seen_more (key_of which name) seen,
        )
        | inr (e, found) ↦
            let k = key_of which name in
            let ks = keys groups objects in
            let less = unseen_less k seen ks new (found_key groups objects which name e found) in
            let ((r, s), e1, g1) =
              expand_all-Returns (λ m s. expand n groups objects Which.group m s) ks n
                (λ m s. expand-Returns groups objects n Which.group m s) e.members (own e)
                (k ∷ seen) (omega (arith, less, lt)) in
            let more = unseen-Grows (k ∷ seen) s ks g1 in
            let (p, e2, g2) =
              expand_all-Returns (λ m s. expand n groups objects Which.object m s) ks n
                (λ m s. expand-Returns groups objects n Which.object m s) e.object_refs r s
                (omega (arith, less, lt, more)) in
            (
              p,
              rw (new, expand) (rw (found, expand) (rw (e1, expand) e2)),
              λ x h. g2 x (g1 x (seen_more k seen x h)),
            )
      ]
    ]

-- Every group expands to a result, whatever names whatever in the two registries, cycles included: the
-- depth that `expand_group` allows is never passed.
pub expand_group_terminates :
    (name : Text) (groups objects : Registry)
    → (r : Expansion) × (expand_group name groups objects ≡ some r)
unfolding expand_group expand
expand_group_terminates name groups objects =
    let bound : length (keys groups objects) ≡ length groups + length objects =
      length-append (tagged (codes "group:") groups) (tagged (codes "object:") objects)
      ∙ ground
          (arith, length-tagged (codes "group:") groups, length-tagged (codes "object:") objects) in
    let (p, e, g) =
      expand-Returns groups objects (length groups + length objects + 1) Which.group name []
        (omega (arith, unseen-le-length [] (keys groups objects), bound)) in
    (p.0, ap result_of e)

-- So does every object.
pub expand_object_terminates :
    (name : Text) (objects : Registry) → (r : Expansion) × (expand_object name objects ≡ some r)
unfolding expand_object expand
expand_object_terminates name objects =
    let (p, e, g) = expand-Returns [] objects (length objects + 1) Which.object name [] (
      omega
        (arith, unseen-le-length [] (keys [] objects), length-tagged (codes "object:") objects)) in
    (p.0, ap result_of e)
