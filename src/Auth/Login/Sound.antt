-- ===== src/Auth/Login/Sound.antt =====
-- Sessions and locked accounts: apps/api/app/routers/auth.py.
use zero_node.Prelude.{
  ℕ, ◌+◌, ◌*◌, ◌≤◌, ◌<◌, ◌≡◌, refl, sym, ap, transport, ◌∙◌, Bool, true, false, not, ◌||◌, some,
  List, [], ◌∷◌, is_empty, map_option, Bool-cases, Option-cases, inl, inr, arith,
}
use zero_node.Prelude.Text.{Text, lower, text_eq, lookup_text, change_text}
use zero_node.Auth.Access.{Principal, user_kind}
use zero_node.Auth.Totp.{verify}
use zero_node.Auth.Login.{
  User, Users, get_user, count_failure, cleared, clear_failures, LoginBody, Settings, session,
  locked_out, is_locked, principal_of, authenticate, known_user, second_factor, signed_in, failed,
  enrol_mfa,
}

lookup-change :
    {V : Type 0} (k : Text) (f : V → V) (d : List (Text × V))
    → lookup_text k (change_text k f d) ≡ map_option f (lookup_text k d)
lookup-change k f [] = refl
lookup-change k f ((j, w) ∷ d) = ground (arith, lookup-change k f d)

-- The account after a write to it.
written :
    (email : Text) (f : User → User) (users : Users) (u : User)
    → get_user email users ≡ some u
    → get_user email (change_text (lower email) f users) ≡ some (f u)
written email f users u e = lookup-change (lower email) f users ∙ ap (map_option f) e

module _ (verify_password : Text → Text → Bool) (hotp : Text → ℕ → Text) where
  -- What a session says of the account, the attempt and the account afterwards.
  pub record IsEarned (now : ℕ) (body : LoginBody) (csrf : Text) (u : User) (users' : Users)
      (p : Principal) : Type 0 where
    pub unlocked : is_locked now u ≡ false
    pub password : verify_password u.password_hash body.password ≡ true
    pub active : u.active ≡ true
    pub code : u.totp_enabled ≡ true → verify hotp u.totp_secret body.totp_code now 1 ≡ some true
    pub for_user : p ≡ principal_of u csrf
    pub cleared_after : get_user body.email users' ≡ some (cleared u)

  sessions_of :
      (body : LoginBody) (csrf : Text) (u : User) (users : Users) (b : Bool)
      → u.totp_enabled ≡ b
      → signed_in verify_password hotp body csrf u users
        ≡ (clear_failures body.email users, session (record (principal_of u csrf) { mfa = b }))
  sessions_of body csrf u users b e =
      ap
        (λ m. (clear_failures body.email users, session (record (principal_of u csrf) { mfa = m })))
        e

  second_factor-session :
      (settings : Settings) (now : ℕ) (body : LoginBody) (csrf : Text) (u : User) (users : Users)
      (p : Principal)
      → (second_factor verify_password hotp settings now body csrf u users).1 ≡ session p
      → (u.totp_enabled ≡ true → verify hotp u.totp_secret body.totp_code now 1 ≡ some true)
        × (second_factor verify_password hotp settings now body csrf u users
            ≡ signed_in verify_password hotp body csrf u users)
  second_factor-session settings now body csrf u users p e = elim (Bool-cases u.totp_enabled) [
    | inr off ↦ (λ h. absurd (ground arith), rw (off, second_factor) refl)
    | inl on ↦ elim (Bool-cases (is_empty body.totp_code)) [
      | inl no_code ↦ absurd (ground arith)
      | inr code ↦ elim (Option-cases (verify hotp u.totp_secret body.totp_code now 1)) [
        | inl broken ↦ absurd (ground arith)
        | inr (b, checked) ↦ elim (Bool-cases b) [
          | inr wrong ↦ absurd (ground arith)
          | inl right ↦ (
            λ h. checked ∙ ap some right,
            rw (on, second_factor)
                (rw code
                  (rw (checked, second_factor) (rw right (sessions_of body csrf u users true on)))),
          )
        ]
      ]
    ]
  ]

  known_user-session :
      (settings : Settings) (now : ℕ) (body : LoginBody) (csrf : Text) (u : User) (users : Users)
      (p : Principal)
      → get_user body.email users ≡ some u
      → (known_user verify_password hotp settings now body csrf u users).1 ≡ session p
      → IsEarned now body csrf u
          (known_user verify_password hotp settings now body csrf u users).0
          p
  known_user-session settings now body csrf u users p found e =
      elim (Bool-cases (is_locked now u)) [
        | inl shut ↦ absurd (ground arith)
        | inr unlocked ↦
            elim (Bool-cases
              (not (verify_password u.password_hash body.password) || not u.active)) [
                | inl bad ↦ absurd (ground arith)
                | inr good ↦
                    let is : known_user verify_password hotp settings now body csrf u users
                        ≡ second_factor verify_password hotp settings now body csrf u users =
                      rw (unlocked, known_user) (rw good refl) in
                    let (code, done') =
                      second_factor-session settings now body csrf u users p
                        (sym (ap (λ x. x.1) is) ∙ e) in
                    let whole = is ∙ done' in
                    record {
                      unlocked = unlocked;
                      password = ground arith;
                      active = ground arith;
                      code = code;
                      for_user = ground (arith, sym (ap (λ x. x.1) whole) ∙ e);
                      cleared_after =
                          ap (λ x. get_user body.email x.0) whole
                          ∙ written body.email cleared users u found;
                    }
              ]
      ]

  -- A session is given only for an account that exists, is active and not locked, with its password,
  -- and with a code that its secret gives if the second factor is on. The session is that account's,
  -- says whether a second factor was used, and the failures of the account are forgotten.
  pub authenticate-IsEarned :
      (settings : Settings) (now : ℕ) (body : LoginBody) (csrf : Text) (users : Users)
      (p : Principal)
      → (authenticate verify_password hotp settings now body csrf users).1 ≡ session p
      → (u : User) × (get_user body.email users ≡ some u)
        × IsEarned now body csrf u
            (authenticate verify_password hotp settings now body csrf users).0
            p
  unfolding authenticate
  authenticate-IsEarned settings now body csrf users p e =
      elim (Option-cases (get_user body.email users)) [
        | inl unknown ↦ absurd (ground arith)
        | inr (u, found) ↦
            let is : authenticate verify_password hotp settings now body csrf users
                ≡ known_user verify_password hotp settings now body csrf u users =
              rw (found, authenticate) refl in
            (
              u,
              found,
              transport (ap (λ x. IsEarned now body csrf u x.0 p) (sym is)) (
                  known_user-session settings now body csrf u users p found
                    (sym (ap (λ x. x.1) is) ∙ e)),
            )
      ]

  wrong_password :
      (settings : Settings) (now : ℕ) (body : LoginBody) (csrf : Text) (users : Users) (u : User)
      → get_user body.email users ≡ some u
      → is_locked now u ≡ false
      → verify_password u.password_hash body.password ≡ false
      → authenticate verify_password hotp settings now body csrf users
        ≡ failed verify_password hotp settings now body users
  unfolding authenticate
  wrong_password settings now body csrf users u found unlocked wrong =
      rw (found, authenticate) (rw unlocked (rw wrong refl))

  still_locked :
      (settings : Settings) (now : ℕ) (body : LoginBody) (csrf : Text) (users : Users) (u : User)
      → get_user body.email users ≡ some u
      → is_locked now u ≡ true
      → authenticate verify_password hotp settings now body csrf users ≡ (users, locked_out)
  unfolding authenticate
  still_locked settings now body csrf users u found shut = rw (found, authenticate) (rw shut refl)

  -- A wrong password on an account that is not locked and has failed so often that this attempt reaches
  -- the threshold locks the account: until the lock has run out, every attempt on it is refused, also
  -- with the right password and code, and leaves the accounts as they are.
  pub failure_locks :
      (settings : Settings) (now later : ℕ) (body again : LoginBody) (csrf csrf' : Text)
      (users : Users) (u : User)
      → get_user body.email users ≡ some u
      → is_locked now u ≡ false
      → verify_password u.password_hash body.password ≡ false
      → settings.login_lock_threshold ≤ u.failed_attempts + 1
      → lower again.email ≡ lower body.email
      → later < now + 60 * settings.login_lock_minutes
      → let after = (authenticate verify_password hotp settings now body csrf users).0 in
        authenticate verify_password hotp settings later again csrf' after ≡ (after, locked_out)
  failure_locks settings now later body again csrf csrf' users u found unlocked wrong reached same
        before =
      let locking = count_failure now settings.login_lock_threshold settings.login_lock_minutes in
      let shut : is_locked later (locking u) ≡ true = ground (arith, reached, before) in
      let stored = written body.email locking users u found in
      rw (wrong_password settings now body csrf users u found unlocked wrong) (
        still_locked settings later again csrf' (change_text (lower body.email) locking users)
          (locking u)
          (ap (λ k. lookup_text k (change_text (lower body.email) locking users)) same ∙ stored)
          shut)

  -- When a user asks to enrol, the second factor of the account is off afterwards, whether it was on or
  -- not and whatever the new secret is.
  pub enrol_drops_factor :
      (p : Principal) (secret : Text) (users : Users) (u : User)
      → p.kind ≡ user_kind
      → get_user p.subject users ≡ some u
      → (after : User) × (get_user p.subject (enrol_mfa verify_password hotp p secret users).0
          ≡ some after)
        × (after.totp_enabled ≡ false)
  unfolding enrol_mfa
  enrol_drops_factor p secret users u person found =
      let is : text_eq p.kind user_kind ≡ true = ap (λ k. text_eq k user_kind) person in
      (
        record u { totp_secret = secret; totp_enabled = false },
        rw (is, enrol_mfa)
            (written p.subject (λ v. record v { totp_secret = secret; totp_enabled = false }) users
              u found),
        refl,
      )
