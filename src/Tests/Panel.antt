-- ===== src/Tests/Panel.antt =====
-- The users of the panel of the tests.
use automatizacion_wh.Common.{
  ℕ, ◌≤◌, ◌≡◌, ◌≢◌, refl, true, none, some, [], ◌∷◌, Text, codes, ascii, ok, err, failure, length,
  text_eq, select_one, update_where, exists_row, trim, trim_start, is_space, All, arith,
}
use automatizacion_wh.Auth.Roles.{
  owner, operator, require_capability, has_capability, role_has, owner_capabilities,
  operator_capabilities, matches_username, check_username, normalize_username,
}
use automatizacion_wh.Auth.Store.{
  AdminUser, AdminSession, Store, find_user_by_username, find_user_by_id, find_valid_session,
  find_mfa_secret, find_unused_recovery_code, mark_recovery_code_used, create_session,
  touch_session_last_seen, set_user_active, revoke_all_sessions_for_user, revoke_sessions,
  public_user,
}
use automatizacion_wh.Auth.Session.{
  Crypto, SessionTimes, session_duration_ms, IssuedSession, expiry, is_within_idle_window,
  usable_session, find_session, touched, resolve_session, get_session, issue_session,
}
use automatizacion_wh.Auth.Users.{
  verify_current_password, confirm_manager, checked_deactivation, deactivate_user,
  create_managed_user,
}
use automatizacion_wh.Auth.Login.{
  session_opened, authenticate_credentials, login_user, login, check_second_factor,
  complete_mfa_login,
}
use automatizacion_wh.Auth.Sessions.{LetsIn, get_session-LetsIn}
use automatizacion_wh.Auth.Manage.{
  deactivation, manage, manage_closes_sessions, IsOwner, manage-IsOwner_kept,
}
use automatizacion_wh.Auth.Factors.{
  Earned, login-Earned, FactorGiven, complete_mfa_login-FactorGiven,
}
use automatizacion_wh.Auth.Refusals.{operator_refused}
use automatizacion_wh.Auth.Usernames.{Allowed, KeepsNames, normalize_username_twice}

-- Hashes that do nothing, and a code that is the secret itself.
abbrev plain_crypto : Crypto
plain_crypto = record {
  hash_session_token = λ t. t;
  hash_recovery_code = λ t. t;
  derive_password_hash = λ t. t;
  verify_password = text_eq;
  dummy_password_hash = codes "-";
  mfa_crypto = true;
  mfa_signing_key = true;
  encrypt = λ t. t;
  decrypt = λ t. some t;
  verify_totp = λ secret code now. text_eq secret code;
  mfa_token = λ user_id now. codes "token";
  verify_mfa_token = λ token now. some 2;
}

abbrev hours : SessionTimes
hours = record {
  session_idle_ttl_ms = 3600000;
  session_last_seen_throttle_ms = 300000;
  absolute_session_ttl_ms = 43200000;
}

abbrev camila : AdminUser
camila = record {
  id = 1;
  username = codes "camila";
  password_hash = codes "secreta";
  role = owner;
  active = true;
}

abbrev ana : AdminUser
ana = record camila { id = 2; username = codes "ana"; role = operator }

abbrev session_of : ℕ → Text → AdminSession
session_of user_id token = record {
  id = user_id;
  user_id = user_id;
  token_hash = token;
  created_at = 1000;
  expires_at = 43201000;
  last_seen_at = 1000;
  revoked_at = none;
}

abbrev panel : Store
panel = record {
  users = camila ∷ ana ∷ [];
  sessions = session_of 1 (codes "c") ∷ session_of 2 (codes "a") ∷ [];
  mfa_secrets = record { user_id = 2; encrypted_secret = codes "123456"; enabled = true } ∷ [];
  recovery_codes = [];
  audit = [];
}

camila_enters :
    get_session plain_crypto hours 2000 panel (some (codes "c")) ≡ (panel, ok (public_user camila))
unfolding get_session resolve_session find_session find_valid_session usable_session
    is_within_idle_window touched touch_session_last_seen select_one exists_row text_eq
camila_enters = refl

get_session-LetsIn_example :
    (found : AdminSession × AdminUser) × (t : Text) × (some (codes "c") ≡ some t)
    × LetsIn plain_crypto hours 2000 panel t found
    × (public_user camila ≡ public_user found.1)
get_session-LetsIn_example =
    get_session-LetsIn plain_crypto hours 2000 panel panel (some (codes "c")) camila_enters

abbrev without_ana : Store
without_ana =
    (manage plain_crypto 3000 panel (public_user camila) (codes "secreta") (deactivation 2)).0

ana_goes :
    manage plain_crypto 3000 panel (public_user camila) (codes "secreta") (deactivation 2)
    ≡ (without_ana, ok (record { id = 2; username = codes "ana"; role = operator }))
unfolding manage deactivate_user checked_deactivation confirm_manager require_capability
    has_capability role_has owner_capabilities operator_capabilities verify_current_password
    find_user_by_id set_user_active revoke_all_sessions_for_user revoke_sessions select_one
    update_where text_eq
ana_goes = refl

camila_stays_in : get_session plain_crypto hours 4000 without_ana (some (codes "c")) ≡ (
  (get_session plain_crypto hours 4000 without_ana (some (codes "c"))).0,
  ok (public_user camila),
)
unfolding manage deactivate_user checked_deactivation confirm_manager require_capability
    has_capability role_has owner_capabilities operator_capabilities verify_current_password
    find_user_by_id set_user_active revoke_all_sessions_for_user revoke_sessions update_where
    get_session resolve_session find_session find_valid_session usable_session is_within_idle_window
    touched touch_session_last_seen select_one exists_row text_eq
camila_stays_in = refl

manage_closes_sessions_example : (public_user camila).id ≢ 2
manage_closes_sessions_example =
    manage_closes_sessions plain_crypto hours 3000 4000 panel without_ana
      (get_session plain_crypto hours 4000 without_ana (some (codes "c"))).0 (public_user camila)
      (codes "secreta") (deactivation 2) (some (codes "c")) ana_goes camila_stays_in

camila-IsOwner : IsOwner panel 1
unfolding find_user_by_id select_one
camila-IsOwner = (camila, refl, refl, refl)

manage-IsOwner_kept_example : IsOwner without_ana 1
manage-IsOwner_kept_example =
    manage-IsOwner_kept plain_crypto 3000 panel without_ana (public_user camila) (codes "secreta")
      (deactivation 2) camila-IsOwner ana_goes

abbrev new_session : IssuedSession
new_session = record { user = public_user camila; token = codes "n"; expires_at = 43205000 }

abbrev after_login : Store
after_login =
    (login ascii plain_crypto hours 5000 9 (codes "n") panel (codes "Camila") (codes "secreta")).0

camila_logs_in :
    login ascii plain_crypto hours 5000 9 (codes "n") panel (codes "Camila") (codes "secreta")
    ≡ (after_login, ok (session_opened new_session))
unfolding login authenticate_credentials normalize_username check_username matches_username trim
    trim_start is_space find_user_by_username login_user find_mfa_secret issue_session
    create_session expiry session_duration_ms select_one exists_row text_eq
camila_logs_in = refl

login-Earned_example :
    (user : AdminUser) × Earned ascii plain_crypto panel (codes "Camila") (codes "secreta") user
    × (public_user camila ≡ public_user user)
login-Earned_example =
    login-Earned ascii plain_crypto hours 5000 9 (codes "n") panel after_login (codes "Camila")
      (codes "secreta") camila_logs_in

abbrev ana_session : IssuedSession
ana_session = record { user = public_user ana; token = codes "n"; expires_at = 43205000 }

abbrev after_code : Store
after_code =
    (complete_mfa_login plain_crypto hours 5000 9 (codes "n") panel (codes "token")
      (codes "123456")).0

ana_gives_code :
    complete_mfa_login plain_crypto hours 5000 9 (codes "n") panel (codes "token") (codes "123456")
    ≡ (after_code, ok ana_session)
unfolding complete_mfa_login find_user_by_id find_mfa_secret check_second_factor
    find_unused_recovery_code mark_recovery_code_used issue_session create_session expiry
    session_duration_ms select_one exists_row text_eq
ana_gives_code = refl

complete_mfa_login-FactorGiven_example :
    (user_id : ℕ) × (user : AdminUser) × (some 2 ≡ some user_id)
    × (find_user_by_id panel user_id ≡ some user)
    × (user.active ≡ true)
    × FactorGiven plain_crypto 5000 panel user_id (codes "123456")
complete_mfa_login-FactorGiven_example =
    complete_mfa_login-FactorGiven plain_crypto hours 5000 9 (codes "n") panel after_code
      (codes "token") (codes "123456") ana_gives_code

operator_refused_example :
    (manage plain_crypto 3000 panel (public_user ana) (codes "secreta") (deactivation 1)
      ≡ (panel, err (failure "authorization_denied")))
    × (create_managed_user ascii plain_crypto 7 panel
          (public_user ana)
          (codes "eva")
          (codes "una clave larga")
          (codes "una clave larga")
          operator
          (codes "secreta")
        ≡ (panel, err (failure "authorization_denied")))
operator_refused_example =
    operator_refused ascii plain_crypto 3000 7 panel (public_user ana) (codes "secreta")
      (codes "eva") (codes "una clave larga") (codes "una clave larga") operator (deactivation 1)
      refl

named : normalize_username ascii (codes " Camila.R ") ≡ ok (codes "camila.r")
unfolding normalize_username check_username matches_username trim trim_start is_space
named = refl

ascii-KeepsNames : KeepsNames ascii
ascii-KeepsNames [] allowed = refl
ascii-KeepsNames (c ∷ s) allowed = ground (arith, ascii-KeepsNames s allowed.1)

normalize_username_twice_example :
    (3 ≤ length (codes "camila.r"))
    × (length (codes "camila.r") ≤ 64)
    × All Allowed (codes "camila.r")
    × (normalize_username ascii (codes "camila.r") ≡ ok (codes "camila.r"))
normalize_username_twice_example =
    normalize_username_twice ascii (codes " Camila.R ") (codes "camila.r") ascii-KeepsNames named
