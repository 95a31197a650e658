-- ===== src/Auth/Login.antt =====
-- Accounts and signing in: apps/api/app/auth/store.py and routers/auth.py. The table of users is a dict
-- by address, in autocommit. `verify_password` (Argon2) and `hotp` are parameters. Times are numbers of
-- seconds.
pub mod Sound
pub mod Tests
use zero_node.Prelude.{
  ℕ, ◌+◌, ◌*◌, String, Bool, true, false, not, ◌&&◌, ◌||◌, Option, none, some, List, [], ◌∷◌, ◌++◌,
  is_empty, ltb, leb, if◌then◌else◌,
}
use zero_node.Prelude.Text.{Text, lower, text_eq, lookup_text, put_text, change_text}
use zero_node.Auth.RateLimit.{SlidingWindow, Verdict, allowed, refused, no_first_hit, check}
use zero_node.Auth.Access.{Role, Principal, user_kind}
use zero_node.Auth.Totp.{verify}

pub record User : Type 0 where
  pub email : Text
  pub password_hash : Text
  pub role : Role
  pub active : Bool
  pub totp_secret : Text
  pub totp_enabled : Bool
  pub failed_attempts : ℕ
  pub locked_until : Option ℕ

abbrev pub Users : Type 0
Users = List (Text × User)

-- The statements of auth/store.py.
abbrev pub get_user : Text → Users → Option User
get_user email = lookup_text (lower email)

abbrev pub count_failure : ℕ → ℕ → ℕ → User → User
count_failure now threshold lock_minutes u = record u {
  failed_attempts = u.failed_attempts + 1;
  locked_until =
      if leb threshold (u.failed_attempts + 1)
      then some (now + 60 * lock_minutes)
      else u.locked_until;
}

abbrev pub register_failure : ℕ → Text → ℕ → ℕ → Users → Users
register_failure now email threshold lock_minutes =
    change_text (lower email) (count_failure now threshold lock_minutes)

abbrev pub cleared : User → User
cleared u = record u { failed_attempts = 0; locked_until = none }

abbrev pub clear_failures : Text → Users → Users
clear_failures email = change_text (lower email) cleared

abbrev pub set_totp_secret : Text → Text → Users → Users
set_totp_secret email secret =
    change_text (lower email) (λ u. record u { totp_secret = secret; totp_enabled = false })

abbrev pub set_totp_enabled : Text → Bool → Users → Users
set_totp_enabled email enabled =
    change_text (lower email) (λ u. record u {
      totp_enabled = enabled;
      totp_secret = if enabled then u.totp_secret else [];
    })

abbrev new_user : Text → Text → Role → User
new_user email password_hash role = record {
  email = lower email;
  password_hash = password_hash;
  role = role;
  active = true;
  totp_secret = [];
  totp_enabled = false;
  failed_attempts = 0;
  locked_until = none;
}

unfoldable pub create_if_absent : Text → Text → Role → Users → Users × Bool
create_if_absent email password_hash role users = elim (get_user email users) [
  | some u ↦ (users, false)
  | none ↦ (put_text (lower email) (new_user email password_hash role) users, true)
]

-- `_throttle`: the seconds to wait, if a key is over its limit; `crashed` is an `IndexError`.
pub data Throttle : Type 0 where
  passed : Throttle
  wait : ℕ → Throttle
  crashed : Throttle

abbrev throttle : List String → ℕ → SlidingWindow → SlidingWindow × Throttle
throttle [] moment limiter = (limiter, passed)
throttle (key ∷ keys) moment limiter = elim (check key moment limiter).1 [
  | allowed ↦ throttle keys moment (check key moment limiter).0
  | refused n ↦ ((check key moment limiter).0, wait n)
  | no_first_hit ↦ ((check key moment limiter).0, crashed)
]

pub record LoginBody : Type 0 where
  pub email : Text
  pub password : Text
  pub totp_code : Text

pub record Settings : Type 0 where
  pub login_lock_threshold : ℕ
  pub login_lock_minutes : ℕ

-- A session of a principal, or an `HTTPException`; `server_error` is any other exception.
pub data Answer : Type 0 where
  session : Principal → Answer
  too_many_attempts : ℕ → Answer
  locked_out invalid_credentials mfa_required enrol_first bad_code no_factor not_a_person done
        server_error :
      Answer

-- `_locked`
abbrev pub is_locked : ℕ → User → Bool
is_locked now u = elim u.locked_until [ none ↦ false | some until ↦ ltb now until ]

abbrev pub principal_of : User → Text → Principal
principal_of u csrf = record {
  subject = u.email;
  role = u.role;
  kind = user_kind;
  mfa = u.totp_enabled;
  csrf = csrf;
}

module _ (verify_password : Text → Text → Bool) (hotp : Text → ℕ → Text) where
  abbrev signed_in : LoginBody → Text → User → Users → Users × Answer
  signed_in body csrf u users = (clear_failures body.email users, session (principal_of u csrf))

  abbrev failed : Settings → ℕ → LoginBody → Users → Users × Answer
  failed settings now body users = (
    register_failure now body.email settings.login_lock_threshold settings.login_lock_minutes users,
    invalid_credentials,
  )

  abbrev second_factor : Settings → ℕ → LoginBody → Text → User → Users → Users × Answer
  second_factor settings now body csrf u users =
      if not u.totp_enabled
      then signed_in body csrf u users
      else if is_empty body.totp_code
      then (users, mfa_required)
      else elim (verify hotp u.totp_secret body.totp_code now 1) [
        | none ↦ (users, server_error)
        | some b ↦ elim b [
          | true ↦ signed_in body csrf u users
          | false ↦ failed settings now body users
        ]
      ]

  abbrev known_user : Settings → ℕ → LoginBody → Text → User → Users → Users × Answer
  known_user settings now body csrf u users =
      if is_locked now u
      then (users, locked_out)
      else if not (verify_password u.password_hash body.password) || not u.active
      then failed settings now body users
      else second_factor settings now body csrf u users

  -- `login`, behind the limiter; `csrf` is the new random value that the session is bound to.
  unfoldable pub authenticate : Settings → ℕ → LoginBody → Text → Users → Users × Answer
  unfolding verify
  authenticate settings now body csrf users = elim (get_user body.email users) [
    | none ↦ (users, invalid_credentials)
    | some u ↦ known_user settings now body csrf u users
  ]

  -- `login`: the keys are those of the client's address and of the account.
  unfoldable pub login :
      Settings
      → ℕ
      → List String
      → LoginBody
      → Text
      → SlidingWindow × Users
      → SlidingWindow × Users × Answer
  unfolding authenticate check
  login settings now keys body csrf (limiter, users) =
      let (limiter', outcome) = throttle keys now limiter in
      elim outcome [
        | wait n ↦ (limiter', users, too_many_attempts n)
        | crashed ↦ (limiter', users, server_error)
        | passed ↦
            let (users', answer) = authenticate settings now body csrf users in
            (limiter', users', answer)
      ]

  -- `enrol_mfa`; `secret` is the new random secret.
  unfoldable pub enrol_mfa : Principal → Text → Users → Users × Answer
  enrol_mfa p secret users =
      if not (text_eq p.kind user_kind)
      then (users, not_a_person)
      else (set_totp_secret p.subject secret users, done)

  abbrev with_code : Text → ℕ → Text → (Users → Users) → Users → Users × Answer
  with_code secret now code f users = elim (verify hotp secret code now 1) [
    | none ↦ (users, server_error)
    | some b ↦ elim b [ true ↦ (f users, done) | false ↦ (users, bad_code) ]
  ]

  unfoldable pub activate_mfa : ℕ → Principal → Text → Users → Users × Answer
  unfolding verify
  activate_mfa now p code users = elim (get_user p.subject users) [
    | none ↦ (users, enrol_first)
    | some u ↦
        if is_empty u.totp_secret
        then (users, enrol_first)
        else with_code u.totp_secret now code (set_totp_enabled p.subject true) users
  ]

  unfoldable pub disable_mfa : ℕ → Principal → Text → Users → Users × Answer
  unfolding verify
  disable_mfa now p code users = elim (get_user p.subject users) [
    | none ↦ (users, no_factor)
    | some u ↦
        if not u.totp_enabled
        then (users, no_factor)
        else with_code u.totp_secret now code (set_totp_enabled p.subject false) users
  ]
