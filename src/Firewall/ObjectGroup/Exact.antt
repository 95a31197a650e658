-- ===== src/Firewall/ObjectGroup/Exact.antt =====
-- What the expansion of a group contains:
-- apps/api/app/firewall/objectgroup.py.
use zero_node.Prelude.{
  ℕ, zero, suc, ◌+◌, ◌≡◌, refl, sym, ap, transport, ◌∙◌, Bool, true, ◌||◌, none, some, List, [],
  ◌∷◌, ◌++◌, length, Bool-cases, Option-cases, ◌⊎◌, inl, inr, ◌↔◌, arith, ◌==◌, exists,
}
use zero_node.Prelude.Text.{Text, text_eq, text_eq_refl, text_eq→eq, one_of, one_of-append}
use zero_node.Firewall.ObjectGroup.{
  ObjectGroup, Expansion, Which, Registry, key_of, entry_of, absorb, own, incomplete, Expanded,
  expand_all, expand, result_of, expand_group,
}

module _ (groups objects : Registry) where
  -- The entries that a name stands for: its own, and those of the groups and the objects that it names.
  pub data Reach : Which → Text → ObjectGroup → Type 0 where
    here :
        {which : Which} {name : Text} {e : ObjectGroup}
        → entry_of groups objects which name ≡ some e
        → Reach which name e
    by_member :
        {which : Which} {name m : Text} {e f : ObjectGroup}
        → entry_of groups objects which name ≡ some e
        → one_of e.members m ≡ true
        → Reach Which.group m f
        → Reach which name f
    by_ref :
        {which : Which} {name m : Text} {e f : ObjectGroup}
        → entry_of groups objects which name ≡ some e
        → one_of e.object_refs m ≡ true
        → Reach Which.object m f
        → Reach which name f

abbrev has_port : List ℕ → ℕ → Bool
has_port ps p = exists (λ q. q == p) ps

has_port-append : (p : ℕ) (s t : List ℕ) → has_port (s ++ t) p ≡ (has_port s p || has_port t p)
has_port-append p [] t = refl
has_port-append p (q ∷ s) t = ground (arith, has_port-append p s t)

-- Whatever the first holds, the second holds.
pub record Includes (q r : Expansion) : Type 0 where
  pub networks_in : (x : Text) → one_of q.networks x ≡ true → one_of r.networks x ≡ true
  pub ports_in : (p : ℕ) → has_port q.ports p ≡ true → has_port r.ports p ≡ true
  pub protocols_in : (x : Text) → one_of q.protocols x ≡ true → one_of r.protocols x ≡ true

Includes-refl : (r : Expansion) → Includes r r
Includes-refl r = record { networks_in = λ x e. e; ports_in = λ p e. e; protocols_in = λ x e. e }

Includes-trans : (q r s : Expansion) → Includes q r → Includes r s → Includes q s
Includes-trans q r s a b = record {
  networks_in = λ x e. b.networks_in x (a.networks_in x e);
  ports_in = λ p e. b.ports_in p (a.ports_in p e);
  protocols_in = λ x e. b.protocols_in x (a.protocols_in x e);
}

absorb_left : (r q : Expansion) → Includes r (absorb r q)
absorb_left r q = record {
  networks_in = λ x e. ground (arith, one_of-append x r.networks q.networks);
  ports_in = λ p e. ground (arith, has_port-append p r.ports q.ports);
  protocols_in = λ x e. ground (arith, one_of-append x r.protocols q.protocols);
}

absorb_right : (r q : Expansion) → Includes q (absorb r q)
absorb_right r q = record {
  networks_in = λ x e. ground (arith, one_of-append x r.networks q.networks);
  ports_in = λ p e. ground (arith, has_port-append p r.ports q.ports);
  protocols_in = λ x e. ground (arith, one_of-append x r.protocols q.protocols);
}

-- What is known of a list that was visited with a complete result: what was held before is held, and
-- so is a complete result of each visit.
abbrev Visited : (Text → List Text → Expanded) → List Text → Expansion → Expansion → Type 0
Visited visit ms r q =
    (r.complete ≡ true)
    × Includes r q
    × ((m : Text)
        → one_of ms m ≡ true
        → (s : List Text) × (p : Expansion × List Text) × (visit m s ≡ some p)
          × (p.0.complete ≡ true)
          × Includes p.0 q)

expand_all-Visited :
    (visit : Text → List Text → Expanded) (ms : List Text) (r : Expansion) (s : List Text)
    (p : Expansion × List Text)
    → expand_all visit ms r s ≡ some p
    → p.0.complete ≡ true
    → Visited visit ms r p.0
expand_all-Visited visit [] r s p e c =
    let is : r ≡ p.0 = ground arith in
    transport (ap (λ q. Visited visit [] r q) is)
      (ap (λ q. q.complete) is ∙ c, Includes-refl r, λ m h. absurd (ground arith))
expand_all-Visited visit (m ∷ ms) r s p e c = elim (Option-cases (visit m s)) [
  | inl out ↦ absurd (ground arith)
  | inr ((q, t), got) ↦
      let (both, held, each) =
        expand_all-Visited visit ms (absorb r q) t p (sym (rw (got, expand_all) refl) ∙ e) c in
      let rest = Includes-trans q (absorb r q) p.0 (absorb_right r q) held in
      (
        ground arith,
        Includes-trans r (absorb r q) p.0 (absorb_left r q) held,
        λ k h. elim (Bool-cases (text_eq k m)) [
          | inl this ↦
              (s, (q, t), ap (λ i. visit i s) (text_eq→eq k m this) ∙ got, ground arith, rest)
          | inr other ↦ each k (ground arith)
        ],
      )
]

expand_all_from :
    (visit : Text → List Text → Expanded) (ms : List Text) (r : Expansion) (s : List Text)
    (p : Expansion × List Text) (x : Text)
    → expand_all visit ms r s ≡ some p
    → one_of p.0.networks x ≡ true
    → (one_of r.networks x ≡ true)
      ⊎ ((m : Text) × (t : List Text) × (q : Expansion × List Text) × (one_of ms m ≡ true)
          × (visit m t ≡ some q)
          × (one_of q.0.networks x ≡ true))
expand_all_from visit [] r s p x e h =
    let is : r ≡ p.0 = ground arith in inl (ap (λ q. one_of q.networks x) is ∙ h)
expand_all_from visit (m ∷ ms) r s p x e h = elim (Option-cases (visit m s)) [
  | inl out ↦ absurd (ground arith)
  | inr ((q, t), got) ↦
      elim (expand_all_from visit ms (absorb r q) t p x (sym (rw (got, expand_all) refl) ∙ e) h) [
        | inl mixed ↦ elim (Bool-cases (one_of r.networks x)) [
          | inl old ↦ inl old
          | inr new ↦ inr (
            m,
            s,
            (q, t),
            ground (arith, text_eq_refl m),
            got,
            ground (arith, one_of-append x r.networks q.networks),
          )
        ]
        | inr (k, u, o, among, sees, has) ↦ inr (k, u, o, ground arith, sees, has)
      ]
]

module _ (groups objects : Registry) where
  -- What a call that is not cut short has computed.
  abbrev Ran : ℕ → Which → Text → List Text → Expansion × List Text → Type 0
  Ran n which name seen p =
      (e : ObjectGroup) × (r : Expansion) × (t : List Text) × (entry_of groups objects which name
        ≡ some e)
      × (expand_all (λ m s. expand n groups objects Which.group m s) e.members (own e)
            (key_of which name ∷ seen)
          ≡ some (r, t))
      × (expand_all (λ m s. expand n groups objects Which.object m s) e.object_refs r t ≡ some p)

  expand-Ran :
      (n : ℕ) (which : Which) (name : Text) (seen : List Text) (p : Expansion × List Text)
      → expand (suc n) groups objects which name seen ≡ some p
      → (p.0 ≡ incomplete) ⊎ Ran n which name seen p
  unfolding expand
  expand-Ran n which name seen p h = elim (Bool-cases (one_of seen (key_of which name))) [
    | inl again ↦ inl (ground arith)
    | inr new ↦ elim (Option-cases (entry_of groups objects which name)) [
      | inl missing ↦ inl (ground arith)
      | inr (e, found) ↦
          elim (Option-cases (
            expand_all (λ m s. expand n groups objects Which.group m s) e.members (own e)
              (key_of which name ∷ seen))) [
                | inl out ↦
                    let cut : expand (suc n) groups objects which name seen ≡ none =
                      rw (new, expand) (rw (found, expand) (rw (out, expand) refl)) in
                    absurd (ground (arith, cut, h))
                | inr ((r, t), got) ↦ inr (
                  e,
                  r,
                  t,
                  found,
                  got,
                  sym (rw (new, expand) (rw (found, expand) (rw (got, expand) refl))) ∙ h,
                )
              ]
    ]
  ]

  -- What an entry holds, the expansion holds, and the entry was read in full.
  pub Within : ObjectGroup → Expansion → Type 0
  Within f q = (f.complete ≡ true) × Includes (own f) q

  abbrev Deeper : ℕ → Type 0
  Deeper n =
      (which : Which) (name : Text) (seen : List Text) (p : Expansion × List Text) (f : ObjectGroup)
      → expand n groups objects which name seen ≡ some p
      → p.0.complete ≡ true
      → Reach groups objects which name f
      → Within f p.0

  Within-grows : (f : ObjectGroup) (q r : Expansion) → Includes q r → Within f q → Within f r
  unfolding Within
  Within-grows f q r i (c, j) = (c, Includes-trans (own f) q r j i)

  Ran-Within :
      (n : ℕ) (which : Which) (name : Text) (seen : List Text) (p : Expansion × List Text)
      (f : ObjectGroup)
      → Deeper n
      → Ran n which name seen p
      → p.0.complete ≡ true
      → Reach groups objects which name f
      → Within f p.0
  unfolding Within
  Ran-Within n which name seen p f deeper (e, r, t, found, got, got') c reach =
      let (c', held, each_ref) =
        expand_all-Visited (λ m s. expand n groups objects Which.object m s) e.object_refs r t p
          got' c in
      let (c'', held', each_member) =
        expand_all-Visited (λ m s. expand n groups objects Which.group m s) e.members (own e)
          (key_of which name ∷ seen) (r, t) got c' in
      go e found
        (λ is. (
          ap (λ x. x.complete) (sym is) ∙ c'',
          transport (ap (λ x. Includes (own x) p.0) is) (Includes-trans (own e) r p.0 held' held),
        ))
        (λ m o sub.
          let (s, q, sees, cq, inc) = each_member m o in
          Within-grows f q.0 p.0 (Includes-trans q.0 r p.0 inc held)
            (deeper Which.group m s q f sees cq sub))
        (λ m o sub.
          let (s, q, sees, cq, inc) = each_ref m o in
          Within-grows f q.0 p.0 inc (deeper Which.object m s q f sees cq sub))
        reach
    where
      go :
          (e : ObjectGroup)
          → entry_of groups objects which name ≡ some e
          → (e ≡ f → Within f p.0)
          → ((m : Text)
              → one_of e.members m ≡ true
              → Reach groups objects Which.group m f
              → Within f p.0)
          → ((m : Text)
              → one_of e.object_refs m ≡ true
              → Reach groups objects Which.object m f
              → Within f p.0)
          → Reach groups objects which name f
          → Within f p.0
      go e found a b b' (here found') = a (ground arith)
      go e found a b b' (by_member {m = m} {e = e'} found' o sub) =
          let is : e' ≡ e = ground arith in b m (ap (λ x. one_of x.members m) (sym is) ∙ o) sub
      go e found a b b' (by_ref {m = m} {e = e'} found' o sub) =
          let is : e' ≡ e = ground arith in b' m (ap (λ x. one_of x.object_refs m) (sym is) ∙ o) sub

  expand-Within :
      (n : ℕ) (which : Which) (name : Text) (seen : List Text) (p : Expansion × List Text)
      (f : ObjectGroup)
      → expand n groups objects which name seen ≡ some p
      → p.0.complete ≡ true
      → Reach groups objects which name f
      → Within f p.0
  unfolding Within expand
  expand-Within zero which name seen p f h c reach = absurd (ground arith)
  expand-Within (suc n) which name seen p f h c reach = elim (expand-Ran n which name seen p h) [
    | inl cut ↦ absurd (ground (arith, ap (λ q. q.complete) cut))
    | inr ran ↦ Ran-Within n which name seen p f (expand-Within n) ran c reach
  ]

  -- A network of an expansion, complete or not, stands in an entry that the name leads to.
  expand-Reach :
      (n : ℕ) (which : Which) (name : Text) (seen : List Text) (p : Expansion × List Text)
      (x : Text)
      → expand n groups objects which name seen ≡ some p
      → one_of p.0.networks x ≡ true
      → (f : ObjectGroup) × Reach groups objects which name f × (one_of f.networks x ≡ true)
  unfolding expand
  expand-Reach zero which name seen p x h o = absurd (ground arith)
  expand-Reach (suc n) which name seen p x h o = elim (expand-Ran n which name seen p h) [
    | inl cut ↦ absurd (ground (arith, ap (λ q. one_of q.networks x) cut))
    | inr (e, r, t, found, got, got') ↦
        elim (expand_all_from (λ m s. expand n groups objects Which.object m s) e.object_refs r t p
          x got' o) [
            | inr (m, s, q, among, sees, has) ↦
                let (f, reach, own) = expand-Reach n Which.object m s q x sees has in
                (f, by_ref found among reach, own)
            | inl before ↦
                elim (expand_all_from (λ m s. expand n groups objects Which.group m s) e.members
                  (own e) (key_of which name ∷ seen) (r, t) x got before) [
                    | inl mine ↦ (e, here found, mine)
                    | inr (m, s, q, among, sees, has) ↦
                        let (f, reach, own) = expand-Reach n Which.group m s q x sees has in
                        (f, by_member found among reach, own)
                  ]
          ]
  ]

result_some :
    (x : Expanded) (r : Expansion)
    → result_of x ≡ some r
    → (p : Expansion × List Text) × (x ≡ some p) × (p.0 ≡ r)
result_some none r e = cc
result_some (some p) r e = (p, refl, ground arith)

-- An expansion that is reported as complete is the whole of the group: a network is in it exactly if
-- it stands in an entry that the group leads to, through groups and objects at any depth; and every
-- such entry was read in full.
pub expand_group_exact :
    (name : Text) (groups objects : Registry) (r : Expansion)
    → expand_group name groups objects ≡ some r
    → r.complete ≡ true
    → ((x : Text)
        → (one_of r.networks x ≡ true) ↔ (
            (f : ObjectGroup) × Reach groups objects Which.group name f
            × (one_of f.networks x ≡ true)))
      × ((f : ObjectGroup)
          → Reach groups objects Which.group name f
          → (f.complete ≡ true) × Includes (own f) r)
unfolding expand_group Within
expand_group_exact name groups objects r h c =
    let n = length groups + length objects + 1 in
    let (p, e, is) = result_some (expand n groups objects Which.group name []) r h in
    let within : (f : ObjectGroup)
        → Reach groups objects Which.group name f
        → (f.complete ≡ true) × Includes (own f) r =
      λ f reach. transport (ap (λ q. (f.complete ≡ true) × Includes (own f) q) is) (
        expand-Within groups objects n Which.group name [] p f e (ap (λ q. q.complete) is ∙ c)
          reach) in
    (
      λ x. (
        λ o.
            expand-Reach groups objects n Which.group name [] p x e
              (ap (λ q. one_of q.networks x) is ∙ o),
        λ (f, reach, o). (within f reach).1.networks_in x o,
      ),
      within,
    )
