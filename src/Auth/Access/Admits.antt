-- ===== src/Auth/Access/Admits.antt =====
-- Who is admitted to an action: apps/api/app/auth/deps.py.
use zero_node.Prelude.{
  ◌≤◌, ◌≡◌, ◌≢◌, ◌↔◌, refl, sym, ap, transport, ◌∙◌, Bool, true, false, not, ◌&&◌, ◌||◌, Option,
  some, is_empty, ◌⊎◌, inl, inr, Bool-cases, Option-cases, arith,
}
use zero_node.Prelude.Text.{Text, text_eq, text_eq→eq, text_eq_refl}
use zero_node.Auth.Access.{
  Role, rank, can, Principal, service, user_kind, anonymous_kind, service_principal, Claims, Access,
  granted, unauthorised, forbidden, decode_token, Request, AppState, bearer, is_unsafe, by_bearer,
  by_cookie, check_csrf, current_principal, authorise, is_service, and_then, require_role,
  can_approve,
}

-- Where a principal comes from, if authentication is on.
pub record IsCookie (decode : Text → Text → Option Claims) (state : AppState) (request : Request)
    (p : Principal) : Type 0 where
  pub session : decode_token decode request.session_cookie state.jwt_secret ≡ some p
  pub same_site :
      is_unsafe request.method ≡ true → (request.csrf_header ≡ p.csrf) × (is_empty p.csrf ≡ false)

abbrev pub Proven : (Text → Text → Option Claims) → AppState → Request → Principal → Type 0
Proven decode state request p =
    ((p ≡ service_principal)
      × (bearer request.authorization ≡ some state.service_token)
      × (is_empty state.service_token ≡ false))
    ⊎ (((token : Text) × (bearer request.authorization ≡ some token)
          × (decode_token decode token state.jwt_secret ≡ some p))
        ⊎ IsCookie decode state request p)

pub record Admitted (decode : Text → Text → Option Claims) (required : Role) (human_only mfa : Bool)
    (state : AppState) (request : Request) (p : Principal) : Type 0 where
  pub proven : Proven decode state request p
  pub rank_le : rank required ≤ rank p.role
  pub human : human_only ≡ true → p.kind ≢ service
  pub factor : mfa ≡ true → state.mfa_required ≡ true → p.kind ≡ user_kind → p.mfa ≡ true

Access-cases :
    (x : Access) → ((p : Principal) × (x ≡ granted p)) ⊎ ((q : Principal) → x ≢ granted q)
Access-cases (granted p) = inl (p, refl)
Access-cases (unauthorised d) = inr (λ q e. cc e)
Access-cases (forbidden d) = inr (λ q e. cc e)

csrf-checked :
    (request : Request) (p q : Principal)
    → check_csrf request p ≡ granted q
    → (p ≡ q)
      × (is_unsafe request.method ≡ true
          → (request.csrf_header ≡ p.csrf) × (is_empty p.csrf ≡ false))
unfolding check_csrf
csrf-checked request p q e = elim (Bool-cases (is_unsafe request.method)) [
  | inr safe ↦ (ground arith, λ h. absurd (ground arith))
  | inl unsafe ↦ elim (Bool-cases (is_empty p.csrf)) [
    | inl old ↦ absurd (ground arith)
    | inr bound ↦ elim (Bool-cases (text_eq request.csrf_header p.csrf)) [
      | inr wrong ↦ absurd (ground arith)
      | inl right ↦ (ground arith, λ h. (text_eq→eq request.csrf_header p.csrf right, bound))
    ]
  ]
]

bearer-Proven :
    (decode : Text → Text → Option Claims) (state : AppState) (request : Request) (token : Text)
    (p : Principal)
    → bearer request.authorization ≡ some token
    → by_bearer decode state token ≡ granted p
    → Proven decode state request p
bearer-Proven decode state request token p b e =
    elim (Bool-cases (not (is_empty state.service_token) && text_eq token state.service_token)) [
      | inl machine ↦
          let is = text_eq→eq token state.service_token (ground arith) in
          inl (ground arith, b ∙ ap some is, ground arith)
      | inr person ↦ elim (Option-cases (decode_token decode token state.jwt_secret)) [
        | inl bad ↦ absurd (ground arith)
        | inr (q, good) ↦ inr (inl (token, b, good ∙ ap some (ground arith)))
      ]
    ]

cookie-Proven :
    (decode : Text → Text → Option Claims) (state : AppState) (request : Request) (p : Principal)
    → by_cookie decode state request ≡ granted p
    → Proven decode state request p
cookie-Proven decode state request p e = elim (Bool-cases (is_empty request.session_cookie)) [
  | inl none_sent ↦ absurd (ground arith)
  | inr sent ↦ elim (Option-cases (decode_token decode request.session_cookie state.jwt_secret)) [
    | inl bad ↦ absurd (ground arith)
    | inr (q, good) ↦
        let (is, same) = csrf-checked request q p (ground arith) in
        inr (
          inr (
            transport (ap (IsCookie decode state request) is)
              (record { session = good; same_site = same })))
  ]
]

current-Proven :
    (decode : Text → Text → Option Claims) (state : AppState) (request : Request) (p : Principal)
    → state.auth_enabled ≡ true
    → current_principal decode state request ≡ granted p
    → Proven decode state request p
unfolding current_principal
current-Proven decode state request p on e = elim (Option-cases (bearer request.authorization)) [
  | inl no_header ↦
      cookie-Proven decode state request p
        (sym (rw (on, current_principal) (rw no_header refl)) ∙ e)
  | inr (token, b) ↦
      bearer-Proven decode state request token p b
        (sym (rw (on, current_principal) (rw b refl)) ∙ e)
]

then-granted :
    (x : Access) (f : Principal → Access) (p : Principal)
    → and_then x f ≡ granted p
    → (q : Principal) × (x ≡ granted q) × (f q ≡ granted p)
then-granted (granted q) f p e = (q, refl, e)
then-granted (unauthorised d) f p e = absurd (ground arith)
then-granted (forbidden d) f p e = absurd (ground arith)

authorise-granted :
    (required : Role) (human_only mfa mfa_required : Bool) (q p : Principal)
    → authorise required human_only mfa mfa_required q ≡ granted p
    → (q ≡ p)
      × (can q.role required ≡ true)
      × (human_only ≡ true → is_service q ≡ false)
      × (mfa ≡ true → mfa_required ≡ true → text_eq q.kind user_kind ≡ true → q.mfa ≡ true)
unfolding authorise
authorise-granted required human_only mfa mfa_required q p e =
    elim (Bool-cases (can q.role required)) [
      | inr low ↦ absurd (ground arith)
      | inl high ↦ elim (Bool-cases (human_only && is_service q)) [
        | inl machine ↦ absurd (ground arith)
        | inr person ↦
            elim (Bool-cases (mfa && (text_eq q.kind user_kind && (mfa_required && not q.mfa)))) [
              | inl missing ↦ absurd (ground arith)
              | inr fine ↦ (ground arith, high, λ h. ground arith, λ h k l. ground arith)
            ]
      ]
    ]

-- With authentication on, a principal that an action is granted to has proven who it is, by the service
-- token, by a bearer token that decodes, or by a session cookie that decodes, and a request with a
-- cookie that writes has sent back the value that the session is bound to. Its role is high enough, it
-- is no machine if the action is for people, and a user has a second factor if one is asked for.
pub require_role-Admitted :
    (decode : Text → Text → Option Claims) (required : Role) (human_only mfa : Bool)
    (state : AppState) (request : Request) (p : Principal)
    → state.auth_enabled ≡ true
    → require_role decode required human_only mfa state request ≡ granted p
    → Admitted decode required human_only mfa state request p
unfolding require_role authorise
require_role-Admitted decode required human_only mfa state request p on e =
    let (q, known, passed) =
      then-granted (current_principal decode state request)
        (authorise required human_only mfa state.mfa_required) p e in
    let (is, high, person, factored) =
      authorise-granted required human_only mfa state.mfa_required q p passed in
    transport (ap (Admitted decode required human_only mfa state request) is) (record {
      proven = current-Proven decode state request q on known;
      rank_le = ground (arith, high);
      human = λ h k.
          absurd (ground (arith, person h, ap (λ t. text_eq t service) k, text_eq_refl service));
      factor = λ h m k. factored h m (ap (λ t. text_eq t user_kind) k ∙ text_eq_refl user_kind);
    })

authorise-shape :
    (mfa_required : Bool) (p : Principal) (u m : Bool)
    → text_eq p.kind user_kind ≡ u
    → text_eq p.kind service ≡ m
    → (authorise Role.approver true true mfa_required p ≡ granted p)
      ↔ ((can p.role Role.approver && (not m && not (u && (mfa_required && not p.mfa)))) ≡ true)
unfolding authorise
authorise-shape mfa_required p u m eu em = elim (Bool-cases (can p.role Role.approver)) [
  | inr low ↦ (λ e. absurd (ground arith), λ e. absurd (ground arith))
  | inl high ↦ elim (Bool-cases m) [
    | inl machine ↦ (λ e. absurd (ground arith), λ e. absurd (ground arith))
    | inr person ↦ elim (Bool-cases (u && (mfa_required && not p.mfa))) [
      | inl missing ↦ (λ e. absurd (ground arith), λ e. absurd (ground arith))
      | inr fine ↦ (λ e. ground arith, λ e. ground arith)
    ]
  ]
]

known_kind_iff :
    (mfa_required : Bool) (p : Principal) (u m a : Bool)
    → text_eq p.kind user_kind ≡ u
    → text_eq p.kind service ≡ m
    → text_eq p.kind anonymous_kind ≡ a
    → (a || m) ≡ not u
    → (can_approve mfa_required p ≡ true)
      ↔ (authorise Role.approver true true mfa_required p ≡ granted p)
unfolding can_approve
known_kind_iff mfa_required p u m a eu em ea one =
    let (to, from) = authorise-shape mfa_required p u m eu em in
    (λ e. from (ground (arith, eu, em, ea, one, e)), λ e. ground (arith, eu, em, ea, one, to e))

-- What `me` says of the second factor and the role is what the approval asks for: a user, a machine or
-- the anonymous principal is told that it can approve exactly if the approval lets it through.
pub can_approve_iff :
    (mfa_required : Bool) (p : Principal)
    → (p.kind ≡ user_kind) ⊎ ((p.kind ≡ service) ⊎ (p.kind ≡ anonymous_kind))
    → (can_approve mfa_required p ≡ true)
      ↔ (authorise Role.approver true true mfa_required p ≡ granted p)
unfolding can_approve authorise
can_approve_iff mfa_required p kind = elim kind [
  | inl user ↦
      known_kind_iff mfa_required p true false false (ap (λ k. text_eq k user_kind) user)
        (ap (λ k. text_eq k service) user) (ap (λ k. text_eq k anonymous_kind) user) refl
  | inr other ↦ elim other [
    | inl machine ↦
        known_kind_iff mfa_required p false true false (ap (λ k. text_eq k user_kind) machine)
          (ap (λ k. text_eq k service) machine) (ap (λ k. text_eq k anonymous_kind) machine) refl
    | inr nobody ↦
        known_kind_iff mfa_required p false false true (ap (λ k. text_eq k user_kind) nobody)
          (ap (λ k. text_eq k service) nobody) (ap (λ k. text_eq k anonymous_kind) nobody) refl
  ]
]
