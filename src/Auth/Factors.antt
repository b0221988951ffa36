-- ===== src/Auth/Factors.antt =====
-- What a login asks for (apps/api/src/modules/auth/auth-service.ts).
use automatizacion_wh.Common.{
  ℕ, ◌≡◌, refl, sym, ap, subst, ◌⊎◌, inl, inr, Bool, true, false, not, ◌&&◌, ◌||◌, Option, none,
  some, Text, text_eq_iff, Unicode, Result, Error, ok, err, ok-injective, failure, ==_iff,
  if◌then◌else◌, is_some, Bool-cases, Option-cases, select_one-Mem, Memᴰ, arith,
}
use automatizacion_wh.Auth.Roles.{normalize_username}
use automatizacion_wh.Auth.Store.{
  AdminUser, MfaSecret, Store, is_user, is_username, find_user_by_username, find_user_by_id,
  find_mfa_secret, find_unused_recovery_code, public_user, login_succeeded, recorded,
  create_session,
}
use automatizacion_wh.Auth.Session.{
  Crypto, SessionTimes, Reply, ◌>>>◌, IssuedSession, issue_session, stored, expiry,
}
use automatizacion_wh.Auth.Login.{
  LoginResult, session_opened, mfa_required, matching_user, named_user, let_in, with_secret,
  with_owner_of_token, refused_code, authenticate_credentials, is_enabled, login_user, login,
  check_second_factor, complete_mfa_login,
}

-- The row of that name and the password that let a user in without a second factor.
abbrev pub Earned : Unicode → Crypto → Store → Text → Text → AdminUser → Type 0
Earned u crypto store username password user =
    (normalize_username u username ≡ ok user.username)
    × Memᴰ user store.users
    × (crypto.verify_password password user.password_hash ≡ true)
    × (user.active ≡ true)
    × (is_enabled (find_mfa_secret store user.id) ≡ false)

matching :
    (crypto : Crypto) (password : Text) (o : Option AdminUser) {user : AdminUser}
    → matching_user crypto password o ≡ some user
    → (o ≡ some user)
      × (crypto.verify_password password user.password_hash ≡ true)
      × (user.active ≡ true)
matching crypto password none e = cc
matching crypto password (some found) {user} e =
    let (same, both) =
      one_test (crypto.verify_password password found.password_hash && found.active) e in
    let (right, active) = both_true _ _ both in
    (
      ap some same,
      subst (λ x. crypto.verify_password password x.password_hash ≡ true) same right,
      subst (λ x. x.active ≡ true) same active,
    )
  where
    one_test :
        (b : Bool) → (if b then some found else none) ≡ some user → (found ≡ user) × (b ≡ true)
    one_test true e = (cc (e), refl)
    one_test false e = absurd (cc)

    both_true : (a b : Bool) → (a && b) ≡ true → (a ≡ true) × (b ≡ true)
    both_true a b e = ground arith

named-Mem :
    (store : Store) (r : Result Text) {user : AdminUser}
    → named_user store r ≡ some user
    → (r ≡ ok user.username) × Memᴰ user store.users
unfolding find_user_by_username
named-Mem store (err e) h = cc
named-Mem store (ok username) {user} h =
    let (there, named) = select_one-Mem (is_username username) store.users h in
    (ap ok (sym ((text_eq_iff user.username username).0 named)), there)

opened_session :
    (issued : IssuedSession) {session : IssuedSession}
    → ok (session_opened issued) ≡ ok (session_opened session)
    → issued ≡ session
opened_session issued e = cc (ok-injective e)

-- The session that a reply opens is the one that was issued.
issued_session :
    (store store' : Store) (issued : IssuedSession) (r : Result Store) (f : Store → Store)
    {session : IssuedSession}
    → (stored store issued r >>> λ s x. (f s, ok (session_opened x)))
      ≡ (store', ok (session_opened session))
    → issued ≡ session
issued_session store store' issued (err e) f h = absurd (cc (ap (λ p. p.1) h))
issued_session store store' issued (ok s) f h = opened_session issued (ap (λ p. p.1) h)

sent_on :
    (b : Bool) (store store' : Store) (token : Text) (at : ℕ) {session : IssuedSession}
    → ◌≡◌ {A = Reply LoginResult}
        (if b
          then (store, ok (mfa_required token at))
          else (store, err (failure "mfa_encryption_required")))
        (store', ok (session_opened session))
    → ⊥
sent_on true store store' token at h = cc (ok-injective (ap (λ p. p.1) h))
sent_on false store store' token at h = cc (ap (λ p. p.1) h)

login_user-Earned :
    (crypto : Crypto) (times : SessionTimes) (now new_id : ℕ) (token : Text) (store store' : Store)
    (user : AdminUser) {session : IssuedSession}
    → login_user crypto times now new_id token store user ≡ (store', ok (session_opened session))
    → (is_enabled (find_mfa_secret store user.id) ≡ false) × (session.user ≡ public_user user)
unfolding login_user issue_session
login_user-Earned crypto times now new_id token store store' user {session} e =
    let issued : IssuedSession = record {
      user = public_user user;
      token = token;
      expires_at = expiry times now;
    } in
    let created =
      create_session store new_id user.id (crypto.hash_session_token token) (expiry times now)
        now in
    let recording = λ (s : Store). recorded s login_succeeded (some user.id) none in
    elim (Bool-cases (is_enabled (find_mfa_secret store user.id))) [
      | inl enabled ↦ absurd (
          sent_on (crypto.mfa_crypto && crypto.mfa_signing_key) store store' _ _ {session = session}
            (rw (enabled, login_user) at e))
      | inr plain ↦
          let same : issued ≡ session =
            issued_session store store' issued created recording {session = session}
              (rw (plain, login_user) at e) in
          (plain, sym (ap (λ s. s.user) same))
    ]

let_in-Earned :
    (crypto : Crypto) (times : SessionTimes) (now new_id : ℕ) (token : Text) (store store' : Store)
    (o : Option AdminUser) {session : IssuedSession}
    → let_in crypto times now new_id token store o ≡ (store', ok (session_opened session))
    → (user : AdminUser) × (o ≡ some user)
      × (is_enabled (find_mfa_secret store user.id) ≡ false)
      × (session.user ≡ public_user user)
let_in-Earned crypto times now new_id token store store' none e = absurd (cc (ap (λ p. p.1) e))
let_in-Earned crypto times now new_id token store store' (some user) {session} e =
    let (plain, same) =
      login_user-Earned crypto times now new_id token store store' user {session = session} e in
    (user, refl, plain, same)

-- A login opens a session only for an active user of the store whose name is the normalised one that
-- was given, who has that password and no second factor enabled; and the session is that user's.
pub login-Earned :
    (u : Unicode) (crypto : Crypto) (times : SessionTimes) (now new_id : ℕ) (token : Text)
    (store store' : Store) (username password : Text) {session : IssuedSession}
    → login u crypto times now new_id token store username password
      ≡ (store', ok (session_opened session))
    → (user : AdminUser) × Earned u crypto store username password user
      × (session.user ≡ public_user user)
unfolding login authenticate_credentials
login-Earned u crypto times now new_id token store store' username password {session} e =
    let (user, there, plain, same) =
      let_in-Earned crypto times now new_id token store store'
        (authenticate_credentials u crypto store username password) {session = session} e in
    let (named, right, active) =
      matching crypto password (named_user store (normalize_username u username)) {user = user}
        there in
    let (name, found) = named-Mem store (normalize_username u username) {user = user} named in
    (user, (name, found, right, active, plain), same)

-- The code of the moment for the user's secret, or a recovery code that was not used.
abbrev pub FactorGiven : Crypto → ℕ → Store → ℕ → Text → Type 0
FactorGiven crypto now store user_id code =
    (m : MfaSecret) × (secret : Text) × (find_mfa_secret store user_id ≡ some m)
    × (m.enabled ≡ true)
    × (crypto.decrypt m.encrypted_secret ≡ some secret)
    × ((crypto.verify_totp secret code now ≡ true)
        ⊎ (is_some (find_unused_recovery_code store user_id (crypto.hash_recovery_code code))
            ≡ true))

factor_cases :
    (valid recovery : Bool)
    → (not valid && not recovery) ≡ false
    → (valid ≡ true) ⊎ (recovery ≡ true)
factor_cases true recovery e = inl refl
factor_cases false true e = inr refl
factor_cases false false e = absurd (cc)

no_session :
    (store store' : Store) (e : Error) {session : IssuedSession}
    → ◌≡◌ {A = Reply IssuedSession} (store, err e) (store', ok session)
    → ⊥
no_session store store' e h = cc (ap (λ p. p.1) h)

check-FactorGiven :
    (crypto : Crypto) (times : SessionTimes) (now new_id : ℕ) (token : Text) (store store' : Store)
    (user : AdminUser) (code secret : Text) {session : IssuedSession}
    → check_second_factor crypto times now new_id token store user code secret
      ≡ (store', ok session)
    → (crypto.verify_totp secret code now ≡ true)
      ⊎ (is_some (find_unused_recovery_code store user.id (crypto.hash_recovery_code code)) ≡ true)
unfolding check_second_factor
check-FactorGiven crypto times now new_id token store store' user code secret {session} e =
    let valid = crypto.verify_totp secret code now in
    let recovery =
      is_some (find_unused_recovery_code store user.id (crypto.hash_recovery_code code)) in
    elim (Bool-cases (not valid && not recovery)) [
      | inl neither ↦ absurd (
          no_session _ store' (failure "invalid_mfa_code") {session = session}
            (rw (neither, check_second_factor) at e))
      | inr either ↦ factor_cases valid recovery either
    ]

secret-FactorGiven :
    (crypto : Crypto) (times : SessionTimes) (now new_id : ℕ) (token : Text) (store store' : Store)
    (user : AdminUser) (code : Text) (o : Option MfaSecret) {session : IssuedSession}
    → find_mfa_secret store user.id ≡ o
    → with_secret crypto times now new_id token store user code o ≡ (store', ok session)
    → FactorGiven crypto now store user.id code
secret-FactorGiven crypto times now new_id token store store' user code none {session} f e =
    absurd (no_session store store' (failure "mfa_not_configured") {session = session} e)
secret-FactorGiven crypto times now new_id token store store' user code (some m) {session} f e =
    elim (Bool-cases m.enabled) [
      | inr off ↦ absurd (
          no_session store store' (failure "mfa_not_configured") {session = session}
            (rw (off, with_secret) at e))
      | inl on ↦ elim (Option-cases (crypto.decrypt m.encrypted_secret)) [
        | inl unreadable ↦ absurd (
            no_session store store' (failure "decrypt") {session = session}
              (rw (on, unreadable, with_secret) at e))
        | inr (secret, read) ↦ (
          m,
          secret,
          f,
          on,
          read,
          check-FactorGiven crypto times now new_id token store store' user code secret
              {session = session} (rw (on, read, with_secret) at e),
        )
      ]
    ]

owner-FactorGiven :
    (crypto : Crypto) (times : SessionTimes) (now new_id : ℕ) (token : Text) (store store' : Store)
    (user_id : ℕ) (code : Text) (o : Option AdminUser) {session : IssuedSession}
    → find_user_by_id store user_id ≡ o
    → with_owner_of_token crypto times now new_id token store user_id code o ≡ (store', ok session)
    → (user : AdminUser) × (o ≡ some user)
      × (user.active ≡ true)
      × FactorGiven crypto now store user_id code
unfolding find_user_by_id
owner-FactorGiven crypto times now new_id token store store' user_id code none {session} f e =
    absurd (no_session _ store' (failure "invalid_mfa_code") {session = session} e)
owner-FactorGiven crypto times now new_id token store store' user_id code (some user) {session} f
      e =
    let own : user.id ≡ user_id =
      (==_iff user.id user_id).0 (select_one-Mem (is_user user_id) store.users f).1 in
    elim (Bool-cases user.active) [
      | inr inactive ↦ absurd (
          no_session _ store' (failure "invalid_mfa_code") {session = session}
            (rw (inactive, with_owner_of_token) at e))
      | inl active ↦ (
        user,
        refl,
        active,
        subst (λ n. FactorGiven crypto now store n code) own
            (secret-FactorGiven crypto times now new_id token store store' user code
              (find_mfa_secret store user_id) {session = session} (ap (find_mfa_secret store) own)
              (with_active user.active active e)),
      )
    ]
  where
    with_active :
        (active : Bool)
        → active ≡ true
        → (if not active
            then refused_code store (some user_id)
            else with_secret crypto times now new_id token store user code
                (find_mfa_secret store user_id))
          ≡ (store', ok session)
        → with_secret crypto times now new_id token store user code (find_mfa_secret store user_id)
          ≡ (store', ok session)
    with_active true h e = e
    with_active false h e = absurd (cc)

-- The second step of a login opens a session only with a login token that is valid for a user, who is
-- there and active and has the second factor enabled, and with the code of the moment for its secret or
-- a recovery code of that user that was not used before.
pub complete_mfa_login-FactorGiven :
    (crypto : Crypto) (times : SessionTimes) (now new_id : ℕ) (token : Text) (store store' : Store)
    (mfa_token code : Text) {session : IssuedSession}
    → complete_mfa_login crypto times now new_id token store mfa_token code ≡ (store', ok session)
    → (user_id : ℕ) × (user : AdminUser) × (crypto.verify_mfa_token mfa_token now ≡ some user_id)
      × (find_user_by_id store user_id ≡ some user)
      × (user.active ≡ true)
      × FactorGiven crypto now store user_id code
unfolding complete_mfa_login
complete_mfa_login-FactorGiven crypto times now new_id token store store' mfa_token code {session}
      e =
    elim (Bool-cases (not crypto.mfa_crypto || not crypto.mfa_signing_key)) [
      | inl unready ↦ absurd (
          no_session store store' (failure "mfa_encryption_required") {session = session}
            (rw (unready, complete_mfa_login) at e))
      | inr ready ↦ elim (Option-cases (crypto.verify_mfa_token mfa_token now)) [
        | inl invalid ↦ absurd (
            no_session _ store' (failure "invalid_mfa_code") {session = session}
              (rw (ready, invalid, complete_mfa_login) at e))
        | inr (user_id, valid) ↦
            let (user, there, active, given) =
              owner-FactorGiven crypto times now new_id token store store' user_id code
                (find_user_by_id store user_id) {session = session} refl
                (rw (ready, valid, complete_mfa_login) at e) in
            (user_id, user, valid, there, active, given)
      ]
    ]
