-- ===== src/Auth/Access.antt =====
-- The principal of a request, and what it may do: apps/api/app/auth/models.py, tokens.py and deps.py,
-- and `me` of routers/auth.py. The parameter `decode` is `jwt.decode` with the algorithm and the issuer
-- fixed; `none` is a `PyJWTError`.
pub mod Admits
pub mod Tests
use zero_node.Prelude.{
  ℕ, ◌+◌, ◌-◌, Bool, true, false, not, ◌&&◌, ◌||◌, Option, none, some, List, [], ◌∷◌, map, is_empty,
  leb, ◌==◌, if◌then◌else◌,
}
use zero_node.Prelude.Text.{Text, codes, text_eq, one_of, lower, strip}

pub data Role : Type 0 where
  viewer operator approver admin : Role

-- `_RANKS`
abbrev pub rank : Role → ℕ
rank Role.viewer = 0
rank Role.operator = 1
rank Role.approver = 2
rank Role.admin = 3

-- `role.can(required)`
abbrev pub can : Role → Role → Bool
can role required = leb (rank required) (rank role)

pub record Principal : Type 0 where
  pub subject : Text
  pub role : Role
  pub kind : Text
  pub mfa : Bool
  pub csrf : Text

abbrev pub service : Text
service = codes "service"

abbrev pub user_kind : Text
user_kind = codes "user"

abbrev pub anonymous_kind : Text
anonymous_kind = codes "anonymous"

abbrev pub is_service : Principal → Bool
is_service p = text_eq p.kind service

abbrev pub anonymous : Principal
anonymous = record {
  subject = codes "auth-disabled";
  role = Role.admin;
  kind = anonymous_kind;
  mfa = false;
  csrf = [];
}

abbrev pub service_principal : Principal
service_principal = record {
  subject = codes "service-token";
  role = Role.operator;
  kind = service;
  mfa = false;
  csrf = [];
}

-- The payload of a token, with the keys that it may lack.
pub record Claims : Type 0 where
  pub role : Option Text
  pub sub : Option Text
  pub kind : Option Text
  pub mfa : Option Bool
  pub csrf : Option Text

pub data Detail : Type 0 where
  not_authenticated invalid_token session_predates bad_csrf role_too_low machine_credential
        second_factor :
      Detail

-- A principal, or an `HTTPException` of 401 or 403.
pub data Access : Type 0 where
  granted : Principal → Access
  unauthorised : Detail → Access
  forbidden : Detail → Access

-- `Role(value)`
abbrev role_named : Text → Option Role
role_named name =
    if text_eq name (codes "viewer")
    then some Role.viewer
    else if text_eq name (codes "operator")
    then some Role.operator
    else if text_eq name (codes "approver")
    then some Role.approver
    else if text_eq name (codes "admin")
    then some Role.admin
    else none

abbrev text_or : Option Text → Text → Text
text_or none default = default
text_or (some t) default = t

abbrev true_in : Option Bool → Bool
true_in none = false
true_in (some b) = b

abbrev role_in : Option Text → Option Role
role_in none = none
role_in (some name) = role_named name

abbrev principal_of : Claims → Option Role → Option Principal
principal_of c none = none
principal_of c (some role) =
    if is_empty (text_or c.sub [])
    then none
    else some (record {
      subject = text_or c.sub [];
      role = role;
      kind = text_or c.kind user_kind;
      mfa = true_in c.mfa;
      csrf = text_or c.csrf [];
    })

-- `decode_token`; `none` is a `TokenError`.
unfoldable pub decode_token : (Text → Text → Option Claims) → Text → Text → Option Principal
decode_token decode token secret = elim (decode token secret) [
  | none ↦ none
  | some c ↦ principal_of c (role_in c.role)
]

pub record Request : Type 0 where
  pub authorization : Text
  pub session_cookie : Text
  pub csrf_header : Text
  pub method : Text

pub record AppState : Type 0 where
  pub auth_enabled : Bool
  pub service_token : Text
  pub jwt_secret : Text
  pub mfa_required : Bool

-- `header.partition(" ")`, without the separator
abbrev partition : Text → Text × Text
partition [] = ([], [])
partition (c ∷ s) =
    let (scheme, rest) = partition s in if c == 32 then ([], s) else (c ∷ scheme, rest)

-- `_bearer`
unfoldable pub bearer : Text → Option Text
bearer header =
    let (scheme, token) = partition header in
    if not (text_eq (lower scheme) (codes "bearer")) || is_empty (strip token)
    then none
    else some (strip token)

abbrev upper_code : ℕ → ℕ
upper_code c = if leb 97 c && leb c 122 then c - 32 else c

-- `request.method.upper() in UNSAFE_METHODS`
unfoldable pub is_unsafe : Text → Bool
is_unsafe method =
    one_of (codes "POST" ∷ codes "PUT" ∷ codes "PATCH" ∷ codes "DELETE" ∷ [])
      (map upper_code method)

abbrev decoded : Option Principal → Access
decoded none = unauthorised invalid_token
decoded (some p) = granted p

unfoldable pub check_csrf : Request → Principal → Access
unfolding is_unsafe
check_csrf request p =
    if not (is_unsafe request.method)
    then granted p
    else if is_empty p.csrf
    then forbidden session_predates
    else if is_empty request.csrf_header || not (text_eq request.csrf_header p.csrf)
    then forbidden bad_csrf
    else granted p

abbrev pub by_bearer : (Text → Text → Option Claims) → AppState → Text → Access
by_bearer decode state token =
    if not (is_empty state.service_token) && text_eq token state.service_token
    then granted service_principal
    else decoded (decode_token decode token state.jwt_secret)

abbrev pub by_cookie : (Text → Text → Option Claims) → AppState → Request → Access
by_cookie decode state request =
    if is_empty request.session_cookie
    then unauthorised not_authenticated
    else elim (decode_token decode request.session_cookie state.jwt_secret) [
      | none ↦ unauthorised invalid_token
      | some p ↦ check_csrf request p
    ]

unfoldable pub current_principal : (Text → Text → Option Claims) → AppState → Request → Access
unfolding decode_token bearer check_csrf
current_principal decode state request =
    if not state.auth_enabled then granted anonymous else elim (bearer request.authorization) [
      | some token ↦ by_bearer decode state token
      | none ↦ by_cookie decode state request
    ]

-- The checks of `require_role` on a principal.
unfoldable pub authorise : Role → Bool → Bool → Bool → Principal → Access
authorise required human_only mfa mfa_required p =
    if not (can p.role required)
    then forbidden role_too_low
    else if human_only && is_service p
    then forbidden machine_credential
    else if mfa && (text_eq p.kind user_kind && (mfa_required && not p.mfa))
    then forbidden second_factor
    else granted p

abbrev pub and_then : Access → (Principal → Access) → Access
and_then (granted p) f = f p
and_then (unauthorised d) f = unauthorised d
and_then (forbidden d) f = forbidden d

unfoldable pub require_role :
    (Text → Text → Option Claims) → Role → Bool → Bool → AppState → Request → Access
unfolding current_principal authorise
require_role decode required human_only mfa state request =
    and_then (current_principal decode state request)
      (authorise required human_only mfa state.mfa_required)

-- `can_approve` of `me`
unfoldable pub can_approve : Bool → Principal → Bool
can_approve mfa_required p =
    can p.role Role.approver
    && (not (text_eq p.kind service)
        && (p.mfa || (not mfa_required || text_eq p.kind anonymous_kind)))
