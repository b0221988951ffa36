-- ===== src/Auth/Sessions.antt =====
-- Whom a session lets in, and when it ends (apps/api/src/modules/auth/auth-service.ts).
use automatizacion_wh.Common.{
  ℕ, ◌≡◌, ◌≢◌, refl, sym, ap, subst, ◌∙◌, inl, inr, Bool, true, false, Option, none, some, List, [],
  ◌∷◌, Text, ok, ◌==◌, ==_iff, if◌then◌else◌, Bool-cases, Option-cases, select_one, select_one-Mem,
  update_where, All, Memᴰ, arith,
}
use automatizacion_wh.Auth.Roles.{AdminUserPublic}
use automatizacion_wh.Auth.Store.{
  AdminUser, AdminSession, Store, is_user, is_unrevoked, is_live_of, is_valid_session, with_user,
  find_valid_session, revoke_sessions, revoke_all_sessions_for_user, public_user,
}
use automatizacion_wh.Auth.Session.{
  Crypto, SessionTimes, is_within_idle_window, usable_session, find_session, touched,
  resolve_session, get_session, authenticated, ◌>>>◌,
}

some_injective {ℓ} : {A : Type ℓ} {a b : A} → some a ≡ some b → a ≡ b
some_injective e = cc

-- The session is a row with that hash, neither revoked nor over, and the user is its user's row.
abbrev Vouched : Store → Text → ℕ → AdminSession × AdminUser → Type 0
Vouched store token_hash now found =
    Memᴰ found.0 store.sessions
    × (is_valid_session store token_hash now found.0 ≡ true)
    × (select_one (is_user found.0.user_id) store.users ≡ some found.1)

joined-Vouched :
    (store : Store) (token_hash : Text) (now : ℕ) (s : AdminSession)
    {found : AdminSession × AdminUser}
    → Memᴰ s store.sessions
    → is_valid_session store token_hash now s ≡ true
    → with_user store s ≡ some found
    → Vouched store token_hash now found
joined-Vouched store token_hash now s member valid e =
    elim (Option-cases (select_one (is_user s.user_id) store.users)) [
      | inl missing ↦ absurd (cc (rw (missing, with_user) at e))
      | inr (user, there) ↦
          subst (Vouched store token_hash now) (some_injective (rw (there, with_user) at e))
            (member, valid, there)
    ]

find_valid_session-Vouched :
    (store : Store) (token_hash : Text) (now : ℕ) {found : AdminSession × AdminUser}
    → find_valid_session store token_hash now ≡ some found
    → Vouched store token_hash now found
unfolding find_valid_session
find_valid_session-Vouched store token_hash now {found} e =
    elim (Option-cases (select_one (is_valid_session store token_hash now) store.sessions)) [
      | inl missing ↦ absurd (cc (rw (missing, find_valid_session) at e))
      | inr (s, there) ↦
          let (member, valid) =
            select_one-Mem (is_valid_session store token_hash now) store.sessions there in
          joined-Vouched store token_hash now s {found = found} member valid
            (rw (there, find_valid_session) at e)
    ]

both_tests {ℓ} :
    {A : Type ℓ} (a b : Bool) {x y : A}
    → (if a then (if b then some x else none) else none) ≡ some y
    → (x ≡ y) × (a ≡ true) × (b ≡ true)
both_tests true true e = (some_injective e, refl, refl)
both_tests true false e = absurd (cc)
both_tests false b e = absurd (cc)

usable :
    (times : SessionTimes) (now : ℕ) (o : Option (AdminSession × AdminUser))
    {found : AdminSession × AdminUser}
    → usable_session times now o ≡ some found
    → (o ≡ some found) × (found.1.active ≡ true) × (is_within_idle_window times found.0 now ≡ true)
unfolding usable_session
usable times now none e = cc
usable times now (some (s, user)) {found} e =
    let (same, active, used) = both_tests user.active (is_within_idle_window times s now) e in
    (
      ap some same,
      subst (λ f. f.1.active ≡ true) same active,
      subst (λ f. is_within_idle_window times f.0 now ≡ true) same used,
    )

-- A session that lets its user in.
abbrev pub LetsIn : Crypto → SessionTimes → ℕ → Store → Text → AdminSession × AdminUser → Type 0
LetsIn crypto times now store token found =
    Vouched store (crypto.hash_session_token token) now found
    × (found.1.active ≡ true)
    × (is_within_idle_window times found.0 now ≡ true)

find_session-LetsIn :
    (crypto : Crypto) (times : SessionTimes) (now : ℕ) (store : Store) (token : Option Text)
    {found : AdminSession × AdminUser}
    → find_session crypto times now store token ≡ some found
    → (t : Text) × (token ≡ some t) × LetsIn crypto times now store t found
unfolding find_session
find_session-LetsIn crypto times now store none e = cc
find_session-LetsIn crypto times now store (some []) e = cc
find_session-LetsIn crypto times now store (some (c ∷ t)) {found} e =
    let h = crypto.hash_session_token (c ∷ t) in
    let (there, active, used) =
      usable times now (find_valid_session store h now) {found = found} e in
    (c ∷ t, refl, (find_valid_session-Vouched store h now {found = found} there, active, used))

reply_ok :
    (store store' : Store) (o : Option (AdminSession × AdminUser)) {u : AdminUserPublic}
    → ((store, authenticated o) >>> λ s found. (s, ok (public_user found.1))) ≡ (store', ok u)
    → (found : AdminSession × AdminUser) × (o ≡ some found) × (u ≡ public_user found.1)
reply_ok store store' none e = absurd (cc)
reply_ok store store' (some found) e = (found, refl, cc (e))

-- A request with a session token is let in as a user only if a row of the sessions has the token's hash,
-- is not revoked, is not over and was used within the idle time, and the row's user is there and active;
-- the user that the request gets has the name and the role of that row.
pub get_session-LetsIn :
    (crypto : Crypto) (times : SessionTimes) (now : ℕ) (store store' : Store) (token : Option Text)
    {u : AdminUserPublic}
    → get_session crypto times now store token ≡ (store', ok u)
    → (found : AdminSession × AdminUser) × (t : Text) × (token ≡ some t)
      × LetsIn crypto times now store t found
      × (u ≡ public_user found.1)
unfolding get_session resolve_session
get_session-LetsIn crypto times now store store' token {u} e =
    let o = find_session crypto times now store token in
    let (found, there, same) = reply_ok (touched times now store o) store' o {u = u} e in
    let (t, given, lets) = find_session-LetsIn crypto times now store token {found = found} there in
    (found, t, given, lets, same)

-- All sessions of a user are revoked.
abbrev pub ClosedOut : ℕ → List AdminSession → Type 0
ClosedOut user_id ss = All (λ s. (s.user_id == user_id) ≡ true → is_unrevoked s ≡ false) ss

revoked-ClosedOut :
    (user_id at : ℕ) (ss : List AdminSession)
    → ClosedOut user_id
        (update_where (is_live_of user_id) (λ s. record s { revoked_at = some at }) ss)
unfolding update_where
revoked-ClosedOut user_id at [] = tt
revoked-ClosedOut user_id at (s ∷ ss) = elim (Bool-cases (is_live_of user_id s)) [
  | inl live ↦ rw live ((λ e. refl), revoked-ClosedOut user_id at ss)
  | inr dead ↦ rw dead ((λ e. ground arith), revoked-ClosedOut user_id at ss)
]

pub revoke_all-ClosedOut :
    (store : Store) (user_id at : ℕ)
    → ClosedOut user_id (revoke_all_sessions_for_user store user_id at).sessions
unfolding revoke_all_sessions_for_user revoke_sessions
revoke_all-ClosedOut store user_id at = revoked-ClosedOut user_id at store.sessions

All-found {κ} :
    (P : AdminSession → Type κ) (ss : List AdminSession) {s : AdminSession}
    → Memᴰ s ss
    → All P ss
    → P s
All-found P [] m h = elim m [ ]
All-found P (r ∷ ss) (Memᴰ.head e) h = subst P (sym e) h.0
All-found P (r ∷ ss) (Memᴰ.tail m) h = All-found P ss m h.1

valid-unrevoked :
    (store : Store) (token_hash : Text) (now : ℕ) (s : AdminSession)
    → is_valid_session store token_hash now s ≡ true
    → is_unrevoked s ≡ true
valid-unrevoked store token_hash now s e = ground arith

clash : {b : Bool} → b ≡ false → b ≡ true → ⊥
clash h e = cc

-- With all sessions of a user revoked, no token lets in as that user.
pub ClosedOut-refused :
    (crypto : Crypto) (times : SessionTimes) (now : ℕ) (store store' : Store) (token : Option Text)
    (user_id : ℕ) {u : AdminUserPublic}
    → ClosedOut user_id store.sessions
    → get_session crypto times now store token ≡ (store', ok u)
    → u.id ≢ user_id
ClosedOut-refused crypto times now store store' token user_id closed e of_user =
    let (found, t, given, lets, same) = get_session-LetsIn crypto times now store store' token e in
    let (member, valid, there) = lets.0 in
    let own : (found.1.id == found.0.user_id) ≡ true =
      (select_one-Mem (is_user found.0.user_id) store.users there).1 in
    let named : found.0.user_id ≡ user_id =
      sym ((==_iff found.1.id found.0.user_id).0 own) ∙ sym (ap (λ p. p.id) same) ∙ of_user in
    clash (All-found _ store.sessions member closed ((==_iff found.0.user_id user_id).1 named))
      (valid-unrevoked store (crypto.hash_session_token t) now found.0 valid)
