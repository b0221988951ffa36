-- ===== src/Auth/Store.antt =====
-- apps/api/src/modules/auth/postgres-admin-auth-repository.ts. The times of updates are left out, and
-- `mapRole` knows the two roles of the column's check.
use automatizacion_wh.Common.{
  ℕ, Bool, true, not, ◌&&◌, ◌||◌, Option, none, some, List, [], ◌∷◌, ◌++◌, Text, Result, ok, err,
  failure, ◌>>=◌, ltb, leb, ◌==◌, if◌then◌else◌, is_some, text_eq, length, select_one, select_all,
  update_where, exists_row,
}
use automatizacion_wh.Auth.Roles.{AdminRole, AdminUserPublic}

pub record AdminUser : Type 0 where
  pub id : ℕ
  pub username : Text
  pub password_hash : Text
  pub role : AdminRole
  pub active : Bool

pub record AdminSession : Type 0 where
  pub id : ℕ
  pub user_id : ℕ
  pub token_hash : Text
  pub created_at : ℕ
  pub expires_at : ℕ
  pub last_seen_at : ℕ
  pub revoked_at : Option ℕ

pub record MfaSecret : Type 0 where
  pub user_id : ℕ
  pub encrypted_secret : Text
  pub enabled : Bool

pub record RecoveryCode : Type 0 where
  pub id : ℕ
  pub user_id : ℕ
  pub code_hash : Text
  pub used_at : Option ℕ

pub data AuditAction : Type 0 where
  login_succeeded login_failed mfa_verify_succeeded mfa_verify_failed mfa_enabled : AuditAction
  mfa_disabled session_revoked session_revoked_others role_changed user_created : AuditAction
  user_deactivated : AuditAction

-- An event of the audit, with its actor and its target.
pub record AuditEvent : Type 0 where
  pub action : AuditAction
  pub actor_id : Option ℕ
  pub target_id : Option ℕ

pub record Store : Type 0 where
  pub users : List AdminUser
  pub sessions : List AdminSession
  pub mfa_secrets : List MfaSecret
  pub recovery_codes : List RecoveryCode
  pub audit : List AuditEvent

abbrev pub is_user : ℕ → AdminUser → Bool
is_user id u = u.id == id

abbrev pub is_username : Text → AdminUser → Bool
is_username username u = text_eq u.username username

abbrev pub is_session : ℕ → AdminSession → Bool
is_session id s = s.id == id

abbrev pub is_unrevoked : AdminSession → Bool
is_unrevoked s = not (is_some s.revoked_at)

abbrev pub is_live_of : ℕ → AdminSession → Bool
is_live_of user_id s = s.user_id == user_id && is_unrevoked s

unfoldable pub find_user_by_username : Store → Text → Option AdminUser
find_user_by_username store username = select_one (is_username username) store.users

unfoldable pub find_user_by_id : Store → ℕ → Option AdminUser
find_user_by_id store id = select_one (is_user id) store.users

-- A unique violation, of the username or of the random key, is a conflict.
unfoldable pub insert_user : Store → ℕ → Text → Text → AdminRole → Result (Store × AdminUser)
insert_user store new_id username password_hash role =
    if exists_row (is_username username) store.users || exists_row (is_user new_id) store.users
    then err (failure "username_conflict")
    else let user : AdminUser = record {
      id = new_id;
      username = username;
      password_hash = password_hash;
      role = role;
      active = true;
    } in
      ok (record store { users = user ∷ store.users }, user)

-- An update of a user that returns the row.
abbrev pub write_user : Store → ℕ → (AdminUser → AdminUser) → Result (Store × AdminUser)
write_user store user_id f = elim (select_one (is_user user_id) store.users) [
  | none ↦ err (failure "user_not_found")
  | some user ↦ ok (record store { users = update_where (is_user user_id) f store.users }, f user)
]

unfoldable pub write_user_role : Store → ℕ → AdminRole → Result (Store × AdminUser)
write_user_role store user_id role = write_user store user_id (λ u. record u { role = role })

unfoldable pub set_user_active : Store → ℕ → Bool → Result (Store × AdminUser)
set_user_active store user_id active = write_user store user_id (λ u. record u { active = active })

unfoldable pub revoke_sessions : Store → (AdminSession → Bool) → ℕ → Store
revoke_sessions store test at = record store {
  sessions = update_where test (λ s. record s { revoked_at = some at }) store.sessions;
}

unfoldable pub revoke_all_sessions_for_user : Store → ℕ → ℕ → Store
unfolding revoke_sessions
revoke_all_sessions_for_user store user_id at = revoke_sessions store (is_live_of user_id) at

unfoldable pub revoke_other_sessions_for_user : Store → ℕ → ℕ → ℕ → Store
unfolding revoke_sessions
revoke_other_sessions_for_user store user_id kept_id at =
    revoke_sessions store (λ s. is_live_of user_id s && not (is_session kept_id s)) at

unfoldable pub revoke_session : Store → ℕ → ℕ → Store
unfolding revoke_sessions
revoke_session store id at = revoke_sessions store (λ s. is_session id s && is_unrevoked s) at

unfoldable pub list_active_sessions : Store → ℕ → ℕ → List AdminSession
list_active_sessions store user_id now =
    select_all (λ s. is_live_of user_id s && ltb now s.expires_at) store.sessions

unfoldable pub touch_session_last_seen : Store → ℕ → ℕ → Store
touch_session_last_seen store id at = record store {
  sessions = update_where (is_session id) (λ s. record s { last_seen_at = at }) store.sessions;
}

-- One transaction.
unfoldable pub update_password_and_revoke_sessions : Store → ℕ → Text → ℕ → Result Store
unfolding revoke_all_sessions_for_user
update_password_and_revoke_sessions store user_id password_hash at =
    write_user store user_id (λ u. record u { password_hash = password_hash }) >>= λ (store', user).
    ok (revoke_all_sessions_for_user store' user_id at)

-- The unique constraints refuse a random key or a token that is taken.
unfoldable pub create_session : Store → ℕ → ℕ → Text → ℕ → ℕ → Result Store
create_session store new_id user_id token_hash expires_at now =
    if exists_row (λ s. is_session new_id s || text_eq s.token_hash token_hash) store.sessions
    then err (failure "admin_sessions_unique")
    else ok (record store {
      sessions =
          record {
            id = new_id;
            user_id = user_id;
            token_hash = token_hash;
            created_at = now;
            expires_at = expires_at;
            last_seen_at = now;
            revoked_at = none;
          }
          ∷ store.sessions;
    })

abbrev pub is_valid_session : Store → Text → ℕ → AdminSession → Bool
is_valid_session store token_hash now s =
    text_eq s.token_hash token_hash
    && is_unrevoked s
    && ltb now s.expires_at
    && exists_row (is_user s.user_id) store.users

-- The row and the one that it is joined with.
abbrev pub with_user : Store → AdminSession → Option (AdminSession × AdminUser)
with_user store s = elim (select_one (is_user s.user_id) store.users) [
  | none ↦ none
  | some user ↦ some (s, user)
]

unfoldable pub find_valid_session : Store → Text → ℕ → Option (AdminSession × AdminUser)
find_valid_session store token_hash now =
    elim (select_one (is_valid_session store token_hash now) store.sessions) [
      | none ↦ none
      | some s ↦ with_user store s
    ]

-- The result is the number of the rows that are deleted.
unfoldable pub purge_expired_sessions : Store → ℕ → Store × ℕ
purge_expired_sessions store now = (
  record store { sessions = select_all (λ s. ltb now s.expires_at) store.sessions },
  length (select_all (λ s. leb s.expires_at now) store.sessions),
)

abbrev pub is_secret_of : ℕ → MfaSecret → Bool
is_secret_of user_id m = m.user_id == user_id

unfoldable pub find_mfa_secret : Store → ℕ → Option MfaSecret
find_mfa_secret store user_id = select_one (is_secret_of user_id) store.mfa_secrets

-- The update of a row that is there asks that it is not enabled.
unfoldable pub upsert_mfa_secret : Store → ℕ → Text → Bool → Result Store
upsert_mfa_secret store user_id encrypted_secret enabled =
    elim (select_one (is_secret_of user_id) store.mfa_secrets) [
      | none ↦ ok (record store {
        mfa_secrets =
            record { user_id = user_id; encrypted_secret = encrypted_secret; enabled = enabled }
            ∷ store.mfa_secrets;
      })
      | some old ↦
          if old.enabled
          then err (failure "mfa_already_enabled")
          else ok (record store {
            mfa_secrets =
                update_where (is_secret_of user_id)
                  (λ m. record m { encrypted_secret = encrypted_secret; enabled = enabled })
                  store.mfa_secrets;
          })
    ]

unfoldable pub set_mfa_enabled : Store → ℕ → Bool → Store
set_mfa_enabled store user_id enabled = record store {
  mfa_secrets =
      update_where (is_secret_of user_id) (λ m. record m { enabled = enabled }) store.mfa_secrets;
}

unfoldable pub delete_mfa_for_user : Store → ℕ → Store
delete_mfa_for_user store user_id = record store {
  recovery_codes = select_all (λ c. not (c.user_id == user_id)) store.recovery_codes;
  mfa_secrets = select_all (λ m. not (is_secret_of user_id m)) store.mfa_secrets;
}

-- A new row for each code, with its random key. The unique index on the hashes does not bite: the
-- codes are random.
abbrev recovery_rows : ℕ → List (ℕ × Text) → List RecoveryCode
recovery_rows user_id [] = []
recovery_rows user_id (keyed ∷ rest) =
    record { id = keyed.0; user_id = user_id; code_hash = keyed.1; used_at = none }
    ∷ recovery_rows user_id rest

unfoldable pub replace_mfa_recovery_codes : Store → ℕ → List (ℕ × Text) → Store
replace_mfa_recovery_codes store user_id keyed = record store {
  recovery_codes =
      recovery_rows user_id keyed
      ++ select_all (λ c. not (c.user_id == user_id)) store.recovery_codes;
}

abbrev pub is_unused_code : ℕ → Text → RecoveryCode → Bool
is_unused_code user_id code_hash c =
    c.user_id == user_id && text_eq c.code_hash code_hash && not (is_some c.used_at)

unfoldable pub find_unused_recovery_code : Store → ℕ → Text → Option RecoveryCode
find_unused_recovery_code store user_id code_hash =
    select_one (is_unused_code user_id code_hash) store.recovery_codes

unfoldable pub mark_recovery_code_used : Store → ℕ → ℕ → Store
mark_recovery_code_used store id at = record store {
  recovery_codes =
      update_where (λ c. c.id == id) (λ c. record c { used_at = some at }) store.recovery_codes;
}

abbrev pub recorded : Store → AuditAction → Option ℕ → Option ℕ → Store
recorded store action actor_id target_id = record store {
  audit = record { action = action; actor_id = actor_id; target_id = target_id } ∷ store.audit;
}

abbrev pub public_user : AdminUser → AdminUserPublic
public_user user = record { id = user.id; username = user.username; role = user.role }
