-- ===== src/Auth/Users.antt =====
-- The methods of apps/api/src/modules/auth/auth-service.ts on users.
use automatizacion_wh.Common.{
  ℕ, Bool, true, false, not, ◌&&◌, Option, none, some, Text, Unicode, Result, ok, err, failure,
  or_throw, guard, ◌>>=◌, ◌>>◌, ◌==◌, if◌then◌else◌, text_eq,
}
use automatizacion_wh.Auth.Roles.{
  AdminRole, owner, operator, AdminUserPublic, security_manage, require_capability,
  normalize_username, validate_password,
}
use automatizacion_wh.Auth.Store.{
  AdminUser, role_changed, user_created, user_deactivated, Store, find_user_by_username,
  find_user_by_id, insert_user, write_user_role, set_user_active, revoke_all_sessions_for_user,
  update_password_and_revoke_sessions, recorded, public_user,
}
use automatizacion_wh.Auth.Session.{Crypto, Reply, ◌>>>◌, written}

abbrev assert_password_confirmation : Text → Text → Result (Unit {0})
assert_password_confirmation password confirmation =
    guard (text_eq password confirmation) (failure "password_mismatch")

-- `hashPassword`.
unfoldable pub hash_password : Crypto → Text → Result Text
unfolding validate_password
hash_password crypto password =
    validate_password password >>= λ validated. ok (crypto.derive_password_hash validated)

unfoldable pub create_user :
    Unicode → Crypto → ℕ → Store → Text → Text → Text → AdminRole → Result (Store × AdminUser)
unfolding normalize_username hash_password insert_user
create_user u crypto new_id store username password confirmation role = do
  normalized ← normalize_username u username
  confirmed ← assert_password_confirmation password confirmation
  password_hash ← hash_password crypto password
  insert_user store new_id normalized password_hash role

abbrev checked_user : Crypto → Text → Option AdminUser → Result (Unit {0})
checked_user crypto password none = err (failure "authentication_required")
checked_user crypto password (some user) =
    if not user.active
    then err (failure "authentication_required")
    else guard (crypto.verify_password password user.password_hash) (failure "invalid_credentials")

unfoldable pub verify_current_password : Crypto → Store → ℕ → Text → Result (Unit {0})
unfolding find_user_by_id
verify_current_password crypto store user_id password =
    checked_user crypto password (find_user_by_id store user_id)

-- The right to manage users, and the password of who asks.
unfoldable pub confirm_manager : Crypto → Store → AdminUserPublic → Text → Result (Unit {0})
unfolding require_capability verify_current_password
confirm_manager crypto store actor password =
    require_capability actor security_manage
    >> verify_current_password crypto store actor.id password

unfoldable pub create_managed_user :
    Unicode
    → Crypto
    → ℕ
    → Store
    → AdminUserPublic
    → Text
    → Text
    → Text
    → AdminRole
    → Text
    → Reply AdminUserPublic
unfolding confirm_manager create_user
create_managed_user u crypto new_id store actor username password confirmation role current =
    written store (
      confirm_manager crypto store actor current
      >> create_user u crypto new_id store username password confirmation role)
    >>> λ store' user.
        (recorded store' user_created (some actor.id) (some user.id), ok (public_user user))

abbrev pub is_owner : AdminRole → Bool
is_owner owner = true
is_owner operator = false

-- The checks and the write of `updateUserRole`: an owner does not take the role from herself.
unfoldable pub checked_role_write :
    Crypto → Store → AdminUserPublic → ℕ → AdminRole → Text → Result (Store × AdminUser)
unfolding confirm_manager write_user_role
checked_role_write crypto store actor user_id role current =
    confirm_manager crypto store actor current
    >> (guard (not (actor.id == user_id && not (is_owner role))) (failure "authorization_denied")
        >> write_user_role store user_id role)

-- Those of `deactivateUser`: nobody deactivates herself.
unfoldable pub checked_deactivation :
    Crypto → Store → AdminUserPublic → ℕ → Text → Result (Store × AdminUser)
unfolding confirm_manager set_user_active
checked_deactivation crypto store actor user_id current =
    confirm_manager crypto store actor current
    >> (guard (not (actor.id == user_id)) (failure "authorization_denied")
        >> set_user_active store user_id false)

unfoldable pub update_user_role :
    Crypto → ℕ → Store → AdminUserPublic → ℕ → AdminRole → Text → Reply AdminUserPublic
unfolding checked_role_write revoke_all_sessions_for_user
update_user_role crypto now store actor user_id role current =
    written store (checked_role_write crypto store actor user_id role current) >>> λ store' user. (
      recorded (revoke_all_sessions_for_user store' user_id now) role_changed (some actor.id)
          (some user.id),
      ok (public_user user),
    )

unfoldable pub deactivate_user :
    Crypto → ℕ → Store → AdminUserPublic → ℕ → Text → Reply AdminUserPublic
unfolding checked_deactivation revoke_all_sessions_for_user
deactivate_user crypto now store actor user_id current =
    written store (checked_deactivation crypto store actor user_id current) >>> λ store' user. (
      recorded (revoke_all_sessions_for_user store' user_id now) user_deactivated (some actor.id)
          (some user.id),
      ok (public_user user),
    )

unfoldable pub reset_password : Unicode → Crypto → ℕ → Store → Text → Text → Text → Result Store
unfolding normalize_username find_user_by_username hash_password update_password_and_revoke_sessions
reset_password u crypto now store username password confirmation = do
  normalized ← normalize_username u username
  confirmed ← assert_password_confirmation password confirmation
  user ← or_throw (find_user_by_username store normalized) (failure "user_not_found")
  password_hash ← hash_password crypto password
  update_password_and_revoke_sessions store user.id password_hash now
