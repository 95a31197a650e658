-- ===== src/Execute/Idempotent/Replay.antt =====
-- Two calls with the same operation key: `apply_once` of apps/api/app/execute/idempotent.py.
use zero_node.Prelude.{
  String, ◌≡◌, refl, sym, ap, ◌∙◌, Bool, false, none, some, List, [], ◌∷◌, map, Option-cases, inl,
  inr, arith, str_eq, lookup, insert, lookup-insert, eq_iff,
}
use zero_node.Prelude.Text.{Text}
use zero_node.Execute.Base.{Action, Flow, ExecutionStep, ExecutionResult, ExecutionDict, as_dict}
use zero_node.Execute.Device.{Devices, Site, Outcome, finished, raised}
use zero_node.Execute.Idempotent.{
  ExecutionCache, replayed, is_refused, keep_result, apply_skipping, apply_once,
}

map-steps :
    (ss : List ExecutionStep)
    → map (λ s. record { command = s.command; output = s.output; error = s.error }) ss ≡ ss
map-steps [] = refl
map-steps (s ∷ ss) = ap (λ t. s ∷ t) (map-steps ss)

-- A stored result is the result.
replayed-as_dict : (r : ExecutionResult) → replayed (as_dict r) ≡ r
unfolding replayed as_dict
replayed-as_dict r = rw (map-steps r.steps) (rw (map-steps r.steps) refl)

module _ (d : Devices) (platform : Text) (cache : ExecutionCache) where
  open d use {World}
  open cache use {Store, find, keep}

  finds :
      (auto : Bool) (devices : List Text) (actions : List Action) (flows : List Flow) (key : String)
      (s : Site World) (c : Store) (found : ExecutionDict)
      → str_eq key "" ≡ false
      → find key c ≡ some found
      → apply_once d platform cache auto devices actions flows key s c
        ≡ (finished (replayed found), s, c)
  unfolding apply_once
  finds auto devices actions flows key s c found named e = rw (named, e, apply_once) refl

  misses :
      (auto : Bool) (devices : List Text) (actions : List Action) (flows : List Flow) (key : String)
      (s : Site World) (c : Store)
      → str_eq key "" ≡ false
      → find key c ≡ none
      → apply_once d platform cache auto devices actions flows key s c
        ≡ keep_result d platform cache key
            (apply_skipping d platform auto devices actions flows s)
            c
  unfolding apply_once
  misses auto devices actions flows key s c named e = rw (named, e, apply_once) refl

  keep_result-keeps :
      (key : String) (x : Outcome × Site World) (s' : Site World) (c c' : Store)
      (r : ExecutionResult)
      → str_eq key "" ≡ false
      → is_refused r.state ≡ false
      → keep_result d platform cache key x c ≡ (finished r, s', c')
      → c' ≡ keep key (as_dict r) c
  keep_result-keeps key (raised, s) s' c c' r named kept e = cc
  keep_result-keeps key (finished q, s) s' c c' r named kept e =
      let same : q ≡ r = cc (ap (λ x. x.0) e) in
      let left = ap (λ x. x.2) e in sym left ∙ rw (same, named, kept) refl

  -- A result that is neither a refusal nor an exception, given under a key that is not empty, is given
  -- again for that key: by every later call that finds the cache as it was left, whatever the call's
  -- actions, flows and enabled devices; and that call leaves the devices, the sessions, the trace of
  -- events and the cache as they are.
  pub apply_once_again :
      (auto : Bool) (devices : List Text) (actions : List Action) (flows : List Flow) (key : String)
      (s s' : Site World) (c c' : Store) (r : ExecutionResult)
      → str_eq key "" ≡ false
      → apply_once d platform cache auto devices actions flows key s c ≡ (finished r, s', c')
      → is_refused r.state ≡ false
      → (auto' : Bool) (devices' : List Text) (actions' : List Action) (flows' : List Flow)
        (later : Site World)
      → apply_once d platform cache auto' devices' actions' flows' key later c'
        ≡ (finished r, later, c')
  apply_once_again auto devices actions flows key s s' c c' r named e kept auto' devices' actions'
        flows' later =
      elim (Option-cases (find key c)) [
        | inl new ↦
            let run = apply_skipping d platform auto devices actions flows s in
            let put =
              keep_result-keeps key run s' c c' r named kept
                (sym (misses auto devices actions flows key s c named new) ∙ e) in
            let found = ap (find key) put ∙ cache.find-keep key (as_dict r) c new in
            finds auto' devices' actions' flows' key later c' (as_dict r) named found
            ∙ ap (λ q. (finished q, later, c')) (replayed-as_dict r)
        | inr (found, old) ↦
            let same = sym (finds auto devices actions flows key s c found named old) ∙ e in
            let is : replayed found ≡ r = cc (ap (λ x. x.0) same) in
            let left : c ≡ c' = ap (λ x. x.2) same in
            finds auto' devices' actions' flows' key later c' found named
              (ap (find key) (sym left) ∙ old)
            ∙ ap (λ q. (finished q, later, c')) is
      ]

pub local-find-keep :
    (key : String) (r : ExecutionDict) (s : List (String × ExecutionDict))
    → lookup key s ≡ none
    → lookup key (insert key r s) ≡ some r
local-find-keep key r s e = ground (arith, lookup-insert key key r s, eq_iff key key)

-- The process-local dict that the service puts behind `lookup` and `store`.
abbrev pub local_cache : ExecutionCache
local_cache = record {
  Store = List (String × ExecutionDict);
  find = lookup;
  keep = insert;
  find-keep = local-find-keep;
}
