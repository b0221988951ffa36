-- ===== src/Auth/Login.antt =====
-- `login` and `completeMfaLogin` of apps/api/src/modules/auth/auth-service.ts.
use automatizacion_wh.Common.{
  ℕ, ◌+◌, ◌*◌, Bool, false, not, ◌&&◌, ◌||◌, Option, none, some, Text, Unicode, Result, ok, err,
  failure, if◌then◌else◌, is_some,
}
use automatizacion_wh.Auth.Roles.{normalize_username}
use automatizacion_wh.Auth.Store.{
  AdminUser, MfaSecret, RecoveryCode, login_succeeded, login_failed, mfa_verify_succeeded,
  mfa_verify_failed, Store, find_user_by_username, find_user_by_id, find_mfa_secret,
  find_unused_recovery_code, mark_recovery_code_used, recorded, public_user,
}
use automatizacion_wh.Auth.Session.{
  Crypto, SessionTimes, Reply, ◌>>>◌, IssuedSession, issue_session,
}

pub data LoginResult : Type 0 where
  session_opened : IssuedSession → LoginResult
  mfa_required : Text → ℕ → LoginResult

-- A missing user is compared with the dummy hash, and refused whatever comes out.
abbrev pub matching_user : Crypto → Text → Option AdminUser → Option AdminUser
matching_user crypto password none = none
matching_user crypto password (some user) =
    if crypto.verify_password password user.password_hash && user.active then some user else none

abbrev pub named_user : Store → Result Text → Option AdminUser
named_user store (err e) = none
named_user store (ok username) = find_user_by_username store username

-- `none` is the InvalidCredentialsError of all its branches.
unfoldable pub authenticate_credentials : Unicode → Crypto → Store → Text → Text → Option AdminUser
unfolding normalize_username find_user_by_username
authenticate_credentials u crypto store username password =
    matching_user crypto password (named_user store (normalize_username u username))

abbrev pub is_enabled : Option MfaSecret → Bool
is_enabled none = false
is_enabled (some m) = m.enabled

-- The lifetime of a login token.
abbrev mfa_login_ttl_ms : ℕ
mfa_login_ttl_ms = 5 * 60 * 1000

-- The login of a user whose password is right.
unfoldable pub login_user :
    Crypto → SessionTimes → ℕ → ℕ → Text → Store → AdminUser → Reply LoginResult
unfolding find_mfa_secret issue_session
login_user crypto times now new_id token store user =
    if is_enabled (find_mfa_secret store user.id)
    then (if crypto.mfa_crypto && crypto.mfa_signing_key
        then (store, ok (mfa_required (crypto.mfa_token user.id now) (now + mfa_login_ttl_ms)))
        else (store, err (failure "mfa_encryption_required")))
    else issue_session crypto times now new_id token store (public_user user) >>> λ store' session.
        (recorded store' login_succeeded (some user.id) none, ok (session_opened session))

abbrev pub let_in :
    Crypto → SessionTimes → ℕ → ℕ → Text → Store → Option AdminUser → Reply LoginResult
let_in crypto times now new_id token store none =
    (recorded store login_failed none none, err (failure "invalid_credentials"))
let_in crypto times now new_id token store (some user) =
    login_user crypto times now new_id token store user

unfoldable pub login :
    Unicode → Crypto → SessionTimes → ℕ → ℕ → Text → Store → Text → Text → Reply LoginResult
unfolding authenticate_credentials login_user
login u crypto times now new_id token store username password =
    let_in crypto times now new_id token store
      (authenticate_credentials u crypto store username password)

abbrev spent_code : Store → Option RecoveryCode → ℕ → Store
spent_code store none now = store
spent_code store (some code) now = mark_recovery_code_used store code.id now

abbrev pub refused_code : Store → Option ℕ → Reply IssuedSession
refused_code store actor_id =
    (recorded store mfa_verify_failed actor_id none, err (failure "invalid_mfa_code"))

-- What follows the decrypted secret: a valid code of the moment or an unused recovery code, which is
-- used up wherever there is one.
unfoldable pub check_second_factor :
    Crypto → SessionTimes → ℕ → ℕ → Text → Store → AdminUser → Text → Text → Reply IssuedSession
unfolding find_unused_recovery_code mark_recovery_code_used issue_session
check_second_factor crypto times now new_id token store user code secret =
    let recovery = find_unused_recovery_code store user.id (crypto.hash_recovery_code code) in
    if not (crypto.verify_totp secret code now) && not (is_some recovery)
    then refused_code store (some user.id)
    else issue_session crypto times now new_id token (spent_code store recovery now)
        (public_user user)
      >>> λ store' session. (recorded store' mfa_verify_succeeded (some user.id) none, ok session)

abbrev pub with_secret :
    Crypto
    → SessionTimes
    → ℕ
    → ℕ
    → Text
    → Store
    → AdminUser
    → Text
    → Option MfaSecret
    → Reply IssuedSession
with_secret crypto times now new_id token store user code none =
    (store, err (failure "mfa_not_configured"))
with_secret crypto times now new_id token store user code (some m) =
    if not m.enabled
    then (store, err (failure "mfa_not_configured"))
    else elim (crypto.decrypt m.encrypted_secret) [
      | none ↦ (store, err (failure "decrypt"))
      | some secret ↦ check_second_factor crypto times now new_id token store user code secret
    ]

abbrev pub with_owner_of_token :
    Crypto → SessionTimes → ℕ → ℕ → Text → Store → ℕ → Text → Option AdminUser → Reply IssuedSession
with_owner_of_token crypto times now new_id token store user_id code none =
    refused_code store (some user_id)
with_owner_of_token crypto times now new_id token store user_id code (some user) =
    if not user.active
    then refused_code store (some user_id)
    else with_secret crypto times now new_id token store user code (find_mfa_secret store user_id)

unfoldable pub complete_mfa_login :
    Crypto → SessionTimes → ℕ → ℕ → Text → Store → Text → Text → Reply IssuedSession
unfolding find_user_by_id check_second_factor
complete_mfa_login crypto times now new_id token store mfa_token code =
    if not crypto.mfa_crypto || not crypto.mfa_signing_key
    then (store, err (failure "mfa_encryption_required"))
    else elim (crypto.verify_mfa_token mfa_token now) [
      | none ↦ refused_code store none
      | some user_id ↦
          with_owner_of_token crypto times now new_id token store user_id code
            (find_user_by_id store user_id)
    ]
