-- ===== src/Auth/Usernames.antt =====
-- The names of the users (`normalizeUsername` of apps/api/src/modules/auth/username.ts).
use automatizacion_wh.Common.{
  Plain, trim-Plain, ℕ, Bool, ◌≤◌, ◌≡◌, refl, ap, ◌∙◌, true, false, ◌&&◌, ◌⊎◌, Text, [], ◌∷◌,
  Unicode, trim, is_space, ok, All, length, arith,
}
use automatizacion_wh.Auth.Roles.{
  is_username_unit, matches_username, check_username, normalize_username,
}

-- A lower-case letter, a digit, a point, a hyphen or an underscore.
abbrev pub Allowed : ℕ → Type 0
Allowed c = ((97 ≤ c) × (c ≤ 122)) ⊎ ((48 ≤ c) × (c ≤ 57)) ⊎ (c ≡ 46) ⊎ (c ≡ 45) ⊎ (c ≡ 95)

-- The case mapping leaves names in small letters alone.
abbrev pub KeepsNames : Unicode → Type 0
KeepsNames u = (s : Text) → All Allowed s → u.to_lower_case s ≡ s

unit-Allowed : (c : ℕ) → is_username_unit c ≡ true → Allowed c
unit-Allowed c e = ground arith

Allowed-unit : (c : ℕ) → Allowed c → is_username_unit c ≡ true
Allowed-unit c h = ground arith

Allowed-plain : (c : ℕ) → Allowed c → is_space c ≡ false
unfolding is_space
Allowed-plain c h = ground arith

matches-Allowed : (s : Text) → matches_username s ≡ true → All Allowed s
unfolding matches_username
matches-Allowed [] e = tt
matches-Allowed (c ∷ s) e =
    let (first, rest) = both_true _ _ e in (unit-Allowed c first, matches-Allowed s rest)
  where
    both_true : (a b : Bool) → (a && b) ≡ true → (a ≡ true) × (b ≡ true)
    both_true a b e = ground arith

Allowed-matches : (s : Text) → All Allowed s → matches_username s ≡ true
unfolding matches_username
Allowed-matches [] h = refl
Allowed-matches (c ∷ s) h = rw (Allowed-unit c h.0, Allowed-matches s h.1) refl

Allowed-Plain : (s : Text) → All Allowed s → Plain s
Allowed-Plain [] h = tt
Allowed-Plain (c ∷ s) h = (Allowed-plain c h.0, Allowed-Plain s h.1)

checked :
    (normalized : Text) {name : Text}
    → check_username normalized ≡ ok name
    → (3 ≤ length name) × (length name ≤ 64) × (matches_username name ≡ true)
unfolding check_username
checked normalized e = ground arith

check_matching :
    (name : Text)
    → 3 ≤ length name
    → length name ≤ 64
    → matches_username name ≡ true
    → check_username name ≡ ok name
unfolding check_username
check_matching name low high matches = ground arith

-- A name of 3 to 64 small letters, digits, points, hyphens and underscores is accepted as it is, where
-- the case mapping leaves such names alone.
normalize-Allowed :
    (u : Unicode) (name : Text)
    → KeepsNames u
    → 3 ≤ length name
    → length name ≤ 64
    → All Allowed name
    → normalize_username u name ≡ ok name
unfolding normalize_username
normalize-Allowed u name keeps low high allowed =
    ap check_username
      (ap u.to_lower_case (trim-Plain name (Allowed-Plain name allowed)) ∙ keeps name allowed)
    ∙ check_matching name low high (Allowed-matches name allowed)

-- What a name is normalised to has 3 to 64 characters, each of them a small letter from a to z, a digit, a
-- point, a hyphen or an underscore; and, where the case mapping leaves such names alone, it is normalised
-- to itself.
pub normalize_username_twice :
    (u : Unicode) (value name : Text)
    → KeepsNames u
    → normalize_username u value ≡ ok name
    → (3 ≤ length name)
      × (length name ≤ 64)
      × All Allowed name
      × (normalize_username u name ≡ ok name)
unfolding normalize_username
normalize_username_twice u value name keeps e =
    let (low, high, matches) = checked (u.to_lower_case (trim value)) {name = name} e in
    let allowed = matches-Allowed name matches in
    (low, high, allowed, normalize-Allowed u name keeps low high allowed)
