-- ===== src/Auth/Roles.antt =====
-- apps/api/src/modules/auth/capabilities.ts, authorize.ts, username.ts, and `validatePassword` of
-- password.ts.
use automatizacion_wh.Common.{
  ℕ, Bool, true, false, ◌&&◌, ◌||◌, Option, none, some, [], ◌∷◌, Text, Unicode, trim, Result, ok,
  err, failure, guard, leb, ltb, ◌==◌, if◌then◌else◌, length,
}

pub data AdminRole : Type 0 where
  owner operator : AdminRole

pub data Capability : Type 0 where
  catalog_operate orders_operate conversations_operate shipping_operate : Capability
  shipping_manage inventory_operate alerts_operate integrations_manage : Capability
  audit_read security_manage : Capability

unfoldable pub operator_capabilities : Capability → Bool
operator_capabilities catalog_operate = true
operator_capabilities orders_operate = true
operator_capabilities conversations_operate = true
operator_capabilities shipping_operate = true
operator_capabilities inventory_operate = true
operator_capabilities alerts_operate = true
operator_capabilities _ = false

abbrev owner_only : Capability → Bool
owner_only shipping_manage = true
owner_only integrations_manage = true
owner_only audit_read = true
owner_only security_manage = true
owner_only _ = false

unfoldable pub owner_capabilities : Capability → Bool
unfolding operator_capabilities
owner_capabilities c = operator_capabilities c || owner_only c

pub record AdminUserPublic : Type 0 where
  pub id : ℕ
  pub username : Text
  pub role : AdminRole

unfoldable pub role_has : AdminRole → Capability → Bool
unfolding owner_capabilities operator_capabilities
role_has owner c = owner_capabilities c
role_has operator c = operator_capabilities c

unfoldable pub has_capability : Option AdminUserPublic → Capability → Bool
unfolding role_has
has_capability none c = false
has_capability (some user) c = role_has user.role c

unfoldable pub require_capability : AdminUserPublic → Capability → Result (Unit {0})
unfolding has_capability
require_capability user c = guard (has_capability (some user) c) (failure "authorization_denied")

-- The regular expression class `[a-z0-9._-]`.
abbrev pub is_username_unit : ℕ → Bool
is_username_unit c =
    (leb 97 c && leb c 122) || (leb 48 c && leb c 57) || c == 46 || c == 95 || c == 45

unfoldable pub matches_username : Text → Bool
matches_username [] = true
matches_username (c ∷ s) = is_username_unit c && matches_username s

unfoldable pub check_username : Text → Result Text
unfolding matches_username
check_username normalized =
    if ltb (length normalized) 3 || ltb 64 (length normalized)
    then err (failure "invalid_username")
    else if matches_username normalized
    then ok normalized
    else err (failure "invalid_username")

unfoldable pub normalize_username : Unicode → Text → Result Text
unfolding check_username
normalize_username u value = check_username (u.to_lower_case (trim value))

unfoldable pub validate_password : Text → Result Text
validate_password password =
    if ltb (length password) 12 || ltb 128 (length password)
    then err (failure "invalid_password")
    else ok password
