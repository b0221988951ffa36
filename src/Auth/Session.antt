-- ===== src/Auth/Session.antt =====
-- The methods of apps/api/src/modules/auth/auth-service.ts on sessions. A method reads the clock once
-- here. The hash functions, scrypt and the cipher of node:crypto are parameters (Crypto), and with them
-- the codes of totp.ts and the tokens of mfa-login-token.ts that are made of them.
use automatizacion_wh.Common.{
  ℕ, ◌+◌, ◌*◌, Bool, Option, none, some, List, [], ◌∷◌, Text, Result, ok, err, failure, leb, ◌==◌,
  if◌then◌else◌, is_some, select_one, select_all,
}
use automatizacion_wh.Auth.Roles.{AdminUserPublic}
use automatizacion_wh.Auth.Store.{
  AdminUser, AdminSession, session_revoked, session_revoked_others, Store, is_session,
  revoke_other_sessions_for_user, revoke_session, list_active_sessions, touch_session_last_seen,
  create_session, find_valid_session, recorded, public_user,
}

-- `verify_totp secret code now`; `mfa_token` and `verify_mfa_token` sign the user's id with a time.
-- `mfa_crypto` and `mfa_signing_key` say that these are configured.
pub record Crypto : Type 0 where
  pub hash_session_token : Text → Text
  pub hash_recovery_code : Text → Text
  pub derive_password_hash : Text → Text
  pub verify_password : Text → Text → Bool
  pub dummy_password_hash : Text
  pub mfa_crypto : Bool
  pub mfa_signing_key : Bool
  pub encrypt : Text → Text
  pub decrypt : Text → Option Text
  pub verify_totp : Text → Text → ℕ → Bool
  pub mfa_token : ℕ → ℕ → Text
  pub verify_mfa_token : Text → ℕ → Option ℕ

pub record SessionTimes : Type 0 where
  pub session_idle_ttl_ms : ℕ
  pub session_last_seen_throttle_ms : ℕ
  pub absolute_session_ttl_ms : ℕ

-- The tables after a call, with what it returns or throws.
abbrev pub Reply {ℓ} : Type ℓ → Type ℓ
Reply A = Store × Result A

infixl 5 ◌>>>◌
abbrev pub ◌>>>◌ {κ ℓ} : {A : Type κ} {B : Type ℓ} → Reply A → (Store → A → Reply B) → Reply B
(store, err e) >>> next = (store, err e)
(store, ok a) >>> next = next store a

-- A write that may throw.
abbrev pub written {ℓ} : {A : Type ℓ} → Store → Result (Store × A) → Reply A
written store (ok (store', a)) = (store', ok a)
written store (err e) = (store, err e)

unfoldable pub session_duration_ms : ℕ
session_duration_ms = 12 * 60 * 60 * 1000

-- `session_expires_at` and the other lifetime of the options.
unfoldable pub expiry : SessionTimes → ℕ → ℕ
unfolding session_duration_ms
expiry times now =
    if times.absolute_session_ttl_ms == session_duration_ms
    then now + session_duration_ms
    else now + times.absolute_session_ttl_ms

pub record IssuedSession : Type 0 where
  pub user : AdminUserPublic
  pub token : Text
  pub expires_at : ℕ

abbrev pub stored : {A : Type 0} → Store → A → Result Store → Reply A
stored store a (ok store') = (store', ok a)
stored store a (err e) = (store, err e)

unfoldable pub issue_session :
    Crypto → SessionTimes → ℕ → ℕ → Text → Store → AdminUserPublic → Reply IssuedSession
unfolding expiry create_session
issue_session crypto times now new_id token store user =
    stored store (record { user = user; token = token; expires_at = expiry times now })
      (create_session store new_id user.id (crypto.hash_session_token token) (expiry times now) now)

-- `now - lastSeenAt <= sessionIdleTtlMs`.
unfoldable pub is_within_idle_window : SessionTimes → AdminSession → ℕ → Bool
is_within_idle_window times s now = leb now (s.last_seen_at + times.session_idle_ttl_ms)

-- The row that is found, if its user is active and it is not idle.
unfoldable pub usable_session :
    SessionTimes → ℕ → Option (AdminSession × AdminUser) → Option (AdminSession × AdminUser)
unfolding is_within_idle_window
usable_session times now none = none
usable_session times now (some (s, user)) =
    if user.active
    then (if is_within_idle_window times s now then some (s, user) else none)
    else none

unfoldable pub find_session :
    Crypto → SessionTimes → ℕ → Store → Option Text → Option (AdminSession × AdminUser)
unfolding usable_session find_valid_session
find_session crypto times now store none = none
find_session crypto times now store (some []) = none
find_session crypto times now store (some (c ∷ token)) =
    usable_session times now (find_valid_session store (crypto.hash_session_token (c ∷ token)) now)

-- The time of the last use is written where it is old.
unfoldable pub touched : SessionTimes → ℕ → Store → Option (AdminSession × AdminUser) → Store
unfolding touch_session_last_seen
touched times now store none = store
touched times now store (some (s, user)) =
    if leb (s.last_seen_at + times.session_last_seen_throttle_ms) now
    then touch_session_last_seen store s.id now
    else store

abbrev pub authenticated : Option (AdminSession × AdminUser) → Result (AdminSession × AdminUser)
authenticated none = err (failure "authentication_required")
authenticated (some found) = ok found

-- `resolveSession`; nothing found is an error for its callers.
unfoldable pub resolve_session :
    Crypto → SessionTimes → ℕ → Store → Option Text → Reply (AdminSession × AdminUser)
unfolding find_session touched
resolve_session crypto times now store token =
    let found = find_session crypto times now store token in
    (touched times now store found, authenticated found)

unfoldable pub get_session : Crypto → SessionTimes → ℕ → Store → Option Text → Reply AdminUserPublic
unfolding resolve_session
get_session crypto times now store token =
    resolve_session crypto times now store token >>> λ store' found.
    (store', ok (public_user found.1))

pub record PublicSessionInfo : Type 0 where
  pub id : ℕ
  pub created_at : ℕ
  pub expires_at : ℕ
  pub last_seen_at : ℕ
  pub current : Bool

abbrev session_info : ℕ → AdminSession → PublicSessionInfo
session_info current_id s = record {
  id = s.id;
  created_at = s.created_at;
  expires_at = s.expires_at;
  last_seen_at = s.last_seen_at;
  current = s.id == current_id;
}

abbrev infos : ℕ → List AdminSession → List PublicSessionInfo
infos current_id [] = []
infos current_id (s ∷ ss) = session_info current_id s ∷ infos current_id ss

unfoldable pub list_sessions :
    Crypto → SessionTimes → ℕ → Store → Option Text → Reply (List PublicSessionInfo)
unfolding resolve_session list_active_sessions is_within_idle_window
list_sessions crypto times now store token =
    resolve_session crypto times now store token >>> λ store' found. (
      store',
      ok (
          infos found.0.id (
            select_all (λ s. is_within_idle_window times s now)
              (list_active_sessions store' found.1.id now))),
    )

unfoldable pub revoke_session_by_id :
    Crypto → SessionTimes → ℕ → Store → Option Text → ℕ → Reply (Unit {0})
unfolding resolve_session list_active_sessions revoke_session
revoke_session_by_id crypto times now store token session_id =
    resolve_session crypto times now store token >>> λ store' found.
    if is_some (select_one (is_session session_id) (list_active_sessions store' found.1.id now))
    then (
      recorded (revoke_session store' session_id now) session_revoked (some found.1.id)
          (some session_id),
      ok tt,
    )
    else (store', err (failure "authentication_required"))

unfoldable pub revoke_other_sessions :
    Crypto → SessionTimes → ℕ → Store → Option Text → Reply (Unit {0})
unfolding resolve_session revoke_other_sessions_for_user
revoke_other_sessions crypto times now store token =
    resolve_session crypto times now store token >>> λ store' found. (
      recorded (revoke_other_sessions_for_user store' found.1.id found.0.id now)
          session_revoked_others (some found.1.id) none,
      ok tt,
    )

abbrev ended : ℕ → Store → Option (AdminSession × AdminUser) → Store
ended now store none = store
ended now store (some (s, user)) = revoke_session store s.id now

unfoldable pub logout : Crypto → ℕ → Store → Option Text → Store
unfolding revoke_session find_valid_session
logout crypto now store none = store
logout crypto now store (some []) = store
logout crypto now store (some (c ∷ token)) =
    ended now store (find_valid_session store (crypto.hash_session_token (c ∷ token)) now)
