-- ===== src/Auth/Refusals.antt =====
-- What an operator is refused (apps/api/src/modules/auth/authorize.ts and auth-service.ts).
use automatizacion_wh.Common.{ℕ, ◌≡◌, refl, Text, Unicode, err, failure}
use automatizacion_wh.Auth.Roles.{
  AdminRole, operator, AdminUserPublic, role_has, has_capability, require_capability,
  operator_capabilities,
}
use automatizacion_wh.Auth.Store.{Store}
use automatizacion_wh.Auth.Session.{Crypto}
use automatizacion_wh.Auth.Users.{
  confirm_manager, checked_role_write, checked_deactivation, update_user_role, deactivate_user,
  create_managed_user,
}
use automatizacion_wh.Auth.Manage.{UserChange, to_role, deactivation, manage}

operator_unconfirmed :
    (crypto : Crypto) (store : Store) (actor : AdminUserPublic) (password : Text)
    → actor.role ≡ operator
    → confirm_manager crypto store actor password ≡ err (failure "authorization_denied")
unfolding confirm_manager require_capability has_capability role_has operator_capabilities
operator_unconfirmed crypto store actor password e = rw e refl

manage_refused :
    (crypto : Crypto) (now : ℕ) (store : Store) (actor : AdminUserPublic) (password : Text)
    (change : UserChange)
    → actor.role ≡ operator
    → manage crypto now store actor password change ≡ (store, err (failure "authorization_denied"))
unfolding manage update_user_role deactivate_user checked_role_write checked_deactivation
manage_refused crypto now store actor password (to_role user_id role) e =
    rw (operator_unconfirmed crypto store actor password e) refl
manage_refused crypto now store actor password (deactivation user_id) e =
    rw (operator_unconfirmed crypto store actor password e) refl

-- An operator manages no users: with any password, each of the three changes, a new user, a role and a
-- deactivation, is answered with the error of a missing right, and writes nothing, no audit event either.
pub operator_refused :
    (u : Unicode) (crypto : Crypto) (now new_id : ℕ) (store : Store) (actor : AdminUserPublic)
    (password username new_password confirmation : Text) (role : AdminRole) (change : UserChange)
    → actor.role ≡ operator
    → (manage crypto now store actor password change
        ≡ (store, err (failure "authorization_denied")))
      × (create_managed_user u crypto new_id store actor username new_password confirmation role
            password
          ≡ (store, err (failure "authorization_denied")))
unfolding create_managed_user
operator_refused u crypto now new_id store actor password username new_password confirmation role
      change e =
    (
      manage_refused crypto now store actor password change e,
      rw (operator_unconfirmed crypto store actor password e) refl,
    )
