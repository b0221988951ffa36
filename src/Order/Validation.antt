-- ===== src/Order/Validation.antt =====
-- apps/api/src/modules/orders/order-validation.ts, and parseShoeSize of
-- apps/api/src/modules/catalog/catalog-validation.ts.
use automatizacion_wh.Common.{
  ℕ, ◌*◌, ◌/◌, ◌%◌, Bool, true, false, not, ◌&&◌, ◌||◌, Option, none, some, [], ◌∷◌, Text, trim,
  is_digit, ltb, ◌==◌, if◌then◌else◌, length, select_all, Result, ok, err, order_validation,
  catalog_validation,
}

-- `value.trim().replace(/\D/g, '')`.
abbrev pub digits_of : Text → Text
digits_of s = select_all is_digit (trim s)

-- `digits.startsWith('57') ? digits.slice(2) : digits`.
unfoldable pub national_number : Text → Text
national_number (a ∷ b ∷ s) = if a == 53 && b == 55 then s else a ∷ b ∷ s
national_number s = s

abbrev all_digits : Text → Bool
all_digits [] = true
all_digits (c ∷ s) = is_digit c && all_digits s

-- `/^3\d{9}$/.test(text)`.
unfoldable pub is_mobile : Text → Bool
is_mobile [] = false
is_mobile (c ∷ s) = c == 51 && length s == 9 && all_digits s

unfoldable pub normalize_colombian_phone : Text → Result Text
unfolding national_number is_mobile
normalize_colombian_phone value =
    let national = national_number (digits_of value) in
    if is_mobile national
    then ok (43 ∷ 53 ∷ 55 ∷ national)
    else err (order_validation "invalid_phone")

-- A number that is no integer is `none`.
unfoldable pub validate_order_quantity : Option ℕ → Result ℕ
validate_order_quantity none = err (order_validation "invalid_quantity")
validate_order_quantity (some n) =
    if ltb n 1 || ltb 10 n then err (order_validation "invalid_quantity") else ok n

-- The argument is the size in hundredths, `none` if it is no finite number; the result is in tenths.
-- A size that needs more decimals is refused as one that is not a whole or half size is.
unfoldable pub parse_shoe_size : Option ℕ → Result ℕ
parse_shoe_size none = err (catalog_validation "invalid_size")
parse_shoe_size (some v) =
    if ltb v 100 || ltb 9950 v
    then err (catalog_validation "invalid_size")
    else if not (v % 50 == 0)
    then err (catalog_validation "invalid_size")
    else ok (v / 10)

-- A size as the table holds it, in tenths.
abbrev pub stored_size : ℕ → Result ℕ
stored_size size = parse_shoe_size (some (size * 10))
