-- ===== src/Auth/Login/Tests.antt =====
-- An account with a second factor.
use zero_node.Prelude.{
  ℕ, ◌≡◌, refl, Bool, true, false, none, some, [], ◌∷◌, arith, ◌==◌, if◌then◌else◌,
}
use zero_node.Prelude.Text.{Text, codes, text_eq}
use zero_node.Auth.Access.{Role}
use zero_node.Auth.Totp.{verify}
use zero_node.Auth.Login.{
  User, Users, LoginBody, Settings, locked_out, get_user, authenticate, enrol_mfa, principal_of,
}
use zero_node.Auth.Login.Sound.{IsEarned, authenticate-IsEarned, failure_locks, enrol_drops_factor}

abbrev verify_password : Text → Text → Bool
verify_password = text_eq

abbrev hotp : Text → ℕ → Text
hotp secret counter = if counter == 2 then codes "111222" else codes "000000"

abbrev ann : User
ann = record {
  email = codes "ann@x";
  password_hash = codes "pw";
  role = Role.approver;
  active = true;
  totp_secret = codes "KEY";
  totp_enabled = true;
  failed_attempts = 4;
  locked_until = none;
}

abbrev users : Users
users = (codes "ann@x", ann) ∷ []

abbrev right : LoginBody
right = record { email = codes "Ann@x"; password = codes "pw"; totp_code = codes "111 222" }

abbrev wrong : LoginBody
wrong = record right { password = codes "guess" }

abbrev settings : Settings
settings = record { login_lock_threshold = 5; login_lock_minutes = 15 }

authenticate-IsEarned_example :
    (u : User) × (get_user right.email users ≡ some u)
    × IsEarned verify_password hotp 70 right
        (codes "c9")
        u
        (authenticate verify_password hotp settings 70 right (codes "c9") users).0
        (principal_of ann (codes "c9"))
unfolding authenticate verify
authenticate-IsEarned_example =
    authenticate-IsEarned verify_password hotp settings 70 right (codes "c9") users
      (principal_of ann (codes "c9")) refl

failure_locks_example :
    authenticate verify_password hotp settings 100 right
      (codes "c2")
      (authenticate verify_password hotp settings 70 wrong (codes "c1") users).0
    ≡ ((authenticate verify_password hotp settings 70 wrong (codes "c1") users).0, locked_out)
failure_locks_example =
    failure_locks verify_password hotp settings 70 100 wrong right (codes "c1") (codes "c2") users
      ann refl refl refl (omega arith) refl (omega arith)

enrol_drops_factor_example :
    (after : User) × (get_user
        (codes "ann@x")
        (enrol_mfa verify_password hotp (principal_of ann (codes "c9")) (codes "NEW") users).0
      ≡ some after)
    × (after.totp_enabled ≡ false)
enrol_drops_factor_example =
    enrol_drops_factor verify_password hotp (principal_of ann (codes "c9")) (codes "NEW") users ann
      refl refl
