-- ===== src/Auth/Mfa.antt =====
-- The methods of apps/api/src/modules/auth/auth-service.ts that set up and take away the second factor.
use automatizacion_wh.Common.{
  ℕ, Bool, true, false, not, Option, none, some, List, [], ◌∷◌, Text, Result, ok, failure, or_throw,
  guard, ◌>>=◌,
}
use automatizacion_wh.Auth.Store.{
  AdminSession, AdminUser, MfaSecret, mfa_enabled, mfa_disabled, Store, find_user_by_id,
  revoke_all_sessions_for_user, revoke_other_sessions_for_user, find_mfa_secret, upsert_mfa_secret,
  set_mfa_enabled, delete_mfa_for_user, replace_mfa_recovery_codes, recorded,
}
use automatizacion_wh.Auth.Session.{Crypto, SessionTimes, find_session}
use automatizacion_wh.Auth.Login.{is_enabled}

pub record MfaStatus : Type 0 where
  pub enabled : Bool
  pub pending_setup : Bool

abbrev status_of : Option MfaSecret → MfaStatus
status_of none = record { enabled = false; pending_setup = false }
status_of (some m) = record { enabled = m.enabled; pending_setup = not m.enabled }

unfoldable pub get_mfa_status : Store → ℕ → MfaStatus
unfolding find_mfa_secret
get_mfa_status store user_id = status_of (find_mfa_secret store user_id)

-- The secret is random; the result is the secret and the user's name, of which the URI is made.
unfoldable pub begin_mfa_enrollment : Crypto → Text → Store → ℕ → Result (Store × (Text × Text))
unfolding find_user_by_id find_mfa_secret upsert_mfa_secret
begin_mfa_enrollment crypto secret store user_id = do
  user ← or_throw (find_user_by_id store user_id) (failure "user_not_found")
  fresh ← guard (not (is_enabled (find_mfa_secret store user_id))) (failure "mfa_already_enabled")
  ready ← guard crypto.mfa_crypto (failure "mfa_encryption_required")
  store' ← upsert_mfa_secret store user_id (crypto.encrypt secret) false
  ok (store', (secret, user.username))

abbrev hashed : Crypto → List (ℕ × Text) → List (ℕ × Text)
hashed crypto [] = []
hashed crypto (keyed ∷ rest) = (keyed.0, crypto.hash_recovery_code keyed.1) ∷ hashed crypto rest

-- `recovery_codes` are the eight random codes with the keys of their rows.
unfoldable pub confirm_mfa_enrollment :
    Crypto → ℕ → List (ℕ × Text) → Store → ℕ → Text → Result Store
unfolding find_mfa_secret set_mfa_enabled replace_mfa_recovery_codes
confirm_mfa_enrollment crypto now recovery_codes store user_id code = do
  ready ← guard crypto.mfa_crypto (failure "mfa_encryption_required")
  m ← or_throw (find_mfa_secret store user_id) (failure "mfa_not_configured")
  secret ← or_throw (crypto.decrypt m.encrypted_secret) (failure "decrypt")
  valid ← guard (crypto.verify_totp secret code now) (failure "invalid_mfa_code")
  ok (
      recorded
        (replace_mfa_recovery_codes (set_mfa_enabled store user_id true) user_id
          (hashed crypto recovery_codes))
        mfa_enabled (some user_id) none)

-- The session of who asks is kept where it is valid.
abbrev revoked_but : Store → ℕ → ℕ → Option (AdminSession × AdminUser) → Store
revoked_but store user_id now none = revoke_all_sessions_for_user store user_id now
revoked_but store user_id now (some (s, user)) =
    revoke_other_sessions_for_user store user_id s.id now

unfoldable pub disable_mfa :
    Crypto → SessionTimes → ℕ → Store → ℕ → Text → Option Text → Result Store
unfolding find_user_by_id find_session delete_mfa_for_user revoke_all_sessions_for_user
    revoke_other_sessions_for_user
disable_mfa crypto times now store user_id password current_token = do
  user ← or_throw (find_user_by_id store user_id) (failure "user_not_found")
  matches ←
      guard (crypto.verify_password password user.password_hash) (failure "invalid_credentials")
  let store₁ = delete_mfa_for_user store user_id
  let store₂ = revoked_but store₁ user_id now (find_session crypto times now store₁ current_token)
  ok (recorded store₂ mfa_disabled (some user_id) none)
