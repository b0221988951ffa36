-- ===== src/Auth/Manage.antt =====
-- The changes that an owner makes to the users (`updateUserRole` and `deactivateUser` of
-- apps/api/src/modules/auth/auth-service.ts), and what they keep.
use automatizacion_wh.Common.{
  ℕ, ◌≡◌, ◌≢◌, refl, sym, ap, subst, ◌∙◌, inl, inr, Bool, true, false, not, ◌&&◌, Option, some,
  List, [], ◌∷◌, Text, Result, ok, err, failure, ◌>>◌, guard, guard-eq-ok, ◌==◌, ==_iff, Bool-cases,
  Option-cases, select_one, select_one-update_where, ok-injective, update_where, arith,
}
use automatizacion_wh.Auth.Roles.{AdminRole, owner, AdminUserPublic}
use automatizacion_wh.Auth.Store.{
  AdminUser, AuditAction, role_changed, user_deactivated, Store, is_user, find_user_by_id,
  write_user, write_user_role, set_user_active, revoke_sessions, revoke_all_sessions_for_user,
  recorded, public_user,
}
use automatizacion_wh.Auth.Session.{Crypto, SessionTimes, Reply, ◌>>>◌, written, get_session}
use automatizacion_wh.Auth.Users.{
  checked_role_write, checked_deactivation, confirm_manager, update_user_role, deactivate_user,
  is_owner,
}
use automatizacion_wh.Auth.Sessions.{ClosedOut, revoke_all-ClosedOut, ClosedOut-refused}

pub data UserChange : Type 0 where
  to_role : ℕ → AdminRole → UserChange
  deactivation : ℕ → UserChange

abbrev pub target_of : UserChange → ℕ
target_of (to_role user_id role) = user_id
target_of (deactivation user_id) = user_id

unfoldable pub manage :
    Crypto → ℕ → Store → AdminUserPublic → Text → UserChange → Reply AdminUserPublic
unfolding update_user_role deactivate_user
manage crypto now store actor password (to_role user_id role) =
    update_user_role crypto now store actor user_id role password
manage crypto now store actor password (deactivation user_id) =
    deactivate_user crypto now store actor user_id password

-- The tables that a change leaves: those of its write, with the sessions revoked.
changed :
    (store : Store) (r : Result (Store × AdminUser)) (user_id now : ℕ) (action : AuditAction)
    (actor_id : ℕ) {store' : Store} {u : AdminUserPublic}
    → (written store r >>> λ s user. (
      recorded (revoke_all_sessions_for_user s user_id now) action (some actor_id) (some user.id),
      ok (public_user user),
    ))
      ≡ (store', ok u)
    → (s : Store) × (user : AdminUser) × (r ≡ ok (s, user))
      × (store'.users ≡ (revoke_all_sessions_for_user s user_id now).users)
      × (store'.sessions ≡ (revoke_all_sessions_for_user s user_id now).sessions)
changed store (err e) user_id now action actor_id h = absurd (cc)
changed store (ok (s, user)) user_id now action actor_id h =
    (s, user, refl, ap (λ p. p.0.users) (sym h), ap (λ p. p.0.sessions) (sym h))

manage-ClosedOut :
    (crypto : Crypto) (now : ℕ) (store store' : Store) (actor : AdminUserPublic) (password : Text)
    (change : UserChange) {u : AdminUserPublic}
    → manage crypto now store actor password change ≡ (store', ok u)
    → ClosedOut (target_of change) store'.sessions
unfolding manage update_user_role deactivate_user
manage-ClosedOut crypto now store store' actor password (to_role user_id role) {u} e =
    let (s, user, wrote, users, sessions) =
      changed store (checked_role_write crypto store actor user_id role password) user_id now
        role_changed actor.id {u = u} e in
    subst (ClosedOut user_id) (sym sessions) (revoke_all-ClosedOut s user_id now)
manage-ClosedOut crypto now store store' actor password (deactivation user_id) {u} e =
    let (s, user, wrote, users, sessions) =
      changed store (checked_deactivation crypto store actor user_id password) user_id now
        user_deactivated actor.id {u = u} e in
    subst (ClosedOut user_id) (sym sessions) (revoke_all-ClosedOut s user_id now)

-- A user whose role is changed, or who is deactivated, is out at once: after the change no token lets in
-- as that user, whatever the clock, until there is a new login.
pub manage_closes_sessions :
    (crypto : Crypto) (times : SessionTimes) (now later : ℕ) (store store' store'' : Store)
    (actor : AdminUserPublic) (password : Text) (change : UserChange) (token : Option Text)
    {u v : AdminUserPublic}
    → manage crypto now store actor password change ≡ (store', ok u)
    → get_session crypto times later store' token ≡ (store'', ok v)
    → v.id ≢ target_of change
manage_closes_sessions crypto times now later store store' store'' actor password change token e f =
    ClosedOut-refused crypto times later store' store'' token (target_of change)
      (manage-ClosedOut crypto now store store' actor password change e) f

-- The user is there, active and an owner.
abbrev pub IsOwner : Store → ℕ → Type 0
IsOwner store id =
    (me : AdminUser) × (find_user_by_id store id ≡ some me) × (me.active ≡ true) × (me.role ≡ owner)

select_one-other :
    (id other : ℕ) (f : AdminUser → AdminUser) (users : List AdminUser)
    → ((user : AdminUser) → (f user).id ≡ user.id)
    → (id == other) ≡ false
    → select_one (is_user id) (update_where (is_user other) f users) ≡ select_one (is_user id) users
unfolding select_one update_where
select_one-other id other f [] same apart = refl
select_one-other id other f (user ∷ users) same apart =
    ground (arith, same user, select_one-other id other f users same apart)

select_one-same :
    (id : ℕ) (f : AdminUser → AdminUser) (users : List AdminUser) {me : AdminUser}
    → ((user : AdminUser) → (f user).id ≡ user.id)
    → select_one (is_user id) users ≡ some me
    → select_one (is_user id) (update_where (is_user id) f users) ≡ some (f me)
select_one-same id f users {me} same there =
    select_one-update_where (is_user id) f users {a = me}
      (λ user hit. ap (λ n. n == id) (same user) ∙ hit) there

-- The checks that went before a write.
written_users :
    (check next : Result (Unit {0})) (r : Result (Store × AdminUser)) {s : Store} {user : AdminUser}
    → (check >> (next >> r)) ≡ ok (s, user)
    → (next ≡ ok tt) × (r ≡ ok (s, user))
written_users (err e) next r h = absurd (cc)
written_users (ok u) (err e) r h = absurd (cc)
written_users (ok u) (ok v) r h = (refl, h)

-- A successful write of one user, as its rows.
write-users :
    (store : Store) (id : ℕ) (f : AdminUser → AdminUser) {s : Store} {user : AdminUser}
    → write_user store id f ≡ ok (s, user)
    → s.users ≡ update_where (is_user id) f store.users
write-users store id f e = elim (Option-cases (select_one (is_user id) store.users)) [
  | inl missing ↦ absurd (cc (rw (missing, write_user) at e))
  | inr (user, there) ↦ ap (λ p. p.0.users) (sym (ok-injective (rw (there, write_user) at e)))
]

own_role :
    (self : Bool) (role : AdminRole)
    → self ≡ true
    → not (self && not (is_owner role)) ≡ true
    → role ≡ owner
own_role self role e h = ground arith

manage-IsOwner :
    (store store' s : Store) (id now user_id : ℕ)
    → store'.users ≡ (revoke_all_sessions_for_user s user_id now).users
    → (me : AdminUser) → select_one (is_user id) s.users ≡ some me
    → me.active ≡ true
    → me.role ≡ owner
    → IsOwner store' id
unfolding revoke_all_sessions_for_user revoke_sessions find_user_by_id
manage-IsOwner store store' s id now user_id users me there active role =
    (me, ap (select_one (is_user id)) users ∙ there, active, role)

-- An owner who changes the users stays one: after she has changed a role or deactivated a user, she is
-- still there, active and an owner. So the panel is never left without an owner by such a change.
pub manage-IsOwner_kept :
    (crypto : Crypto) (now : ℕ) (store store' : Store) (actor : AdminUserPublic) (password : Text)
    (change : UserChange) {u : AdminUserPublic}
    → IsOwner store actor.id
    → manage crypto now store actor password change ≡ (store', ok u)
    → IsOwner store' actor.id
unfolding manage update_user_role deactivate_user checked_role_write checked_deactivation
    write_user_role set_user_active find_user_by_id
manage-IsOwner_kept crypto now store store' actor password (to_role user_id role) {u}
      (me, there, active, is_owner_now) e =
    let r = checked_role_write crypto store actor user_id role password in
    let (s, user, wrote, users, sessions) =
      changed store r user_id now role_changed actor.id {u = u} e in
    let (allowed, write) =
      written_users (confirm_manager crypto store actor password)
        (guard (not (actor.id == user_id && not (is_owner role))) (failure "authorization_denied"))
        (write_user_role store user_id role) {s = s} {user = user} wrote in
    let rows =
      write-users store user_id (λ x. record x { role = role }) {s = s} {user = user} write in
    elim (Bool-cases (actor.id == user_id)) [
      | inl self ↦
          let f = λ (x : AdminUser). record x { role = role } in
          manage-IsOwner store store' s actor.id now user_id users (record me { role = role })
            (ap (select_one (is_user actor.id)) rows
              ∙ subst
                  (λ n.
                    select_one (is_user actor.id) (update_where (is_user n) f store.users)
                    ≡ some (f me))
                  ((==_iff actor.id user_id).0 self)
                  (select_one-same actor.id f store.users (λ x. refl) there))
            active (own_role (actor.id == user_id) role self (guard-eq-ok _ _ allowed))
      | inr apart ↦
          manage-IsOwner store store' s actor.id now user_id users me
            (ap (select_one (is_user actor.id)) rows
              ∙ select_one-other actor.id user_id _ store.users (λ x. refl) apart
              ∙ there)
            active is_owner_now
    ]
manage-IsOwner_kept crypto now store store' actor password (deactivation user_id) {u}
      (me, there, active, is_owner_now) e =
    let r = checked_deactivation crypto store actor user_id password in
    let (s, user, wrote, users, sessions) =
      changed store r user_id now user_deactivated actor.id {u = u} e in
    let (allowed, write) =
      written_users (confirm_manager crypto store actor password)
        (guard (not (actor.id == user_id)) (failure "authorization_denied"))
        (set_user_active store user_id false) {s = s} {user = user} wrote in
    let rows =
      write-users store user_id (λ x. record x { active = false }) {s = s} {user = user} write in
    let apart : (actor.id == user_id) ≡ false = ground (arith, guard-eq-ok _ _ allowed) in
    manage-IsOwner store store' s actor.id now user_id users me
      (ap (select_one (is_user actor.id)) rows
        ∙ select_one-other actor.id user_id _ store.users (λ x. refl) apart
        ∙ there)
      active is_owner_now
