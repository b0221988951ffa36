-- ===== src/Conversation/Messages.antt =====
-- `normalizeMessage` and `parseSize` of apps/api/src/modules/conversations/conversation-state.ts, and
-- the regular expressions of `advanceConversation`.
use automatizacion_wh.Common.{
  ℕ, ◌+◌, ◌-◌, ◌*◌, ◌/◌, ◌%◌, Bool, true, false, ◌&&◌, ◌||◌, Option, none, some, [], ◌∷◌, Text,
  codes, Unicode, leb, ltb, ◌==◌, if◌then◌else◌, length, text_eq, trim, is_space, is_digit,
  select_all,
}

-- `text.replace(/[\u0300-\u036f]/g, '')`.
unfoldable pub without_marks : Text → Text
without_marks [] = []
without_marks (c ∷ s) = if leb 768 c && leb c 879 then without_marks s else c ∷ without_marks s

unfoldable pub normalize_message : Unicode → Text → Text
unfolding without_marks
normalize_message u message = without_marks (u.nfd (u.to_lower_case (trim message)))

-- The text after the spaces at its start.
unfoldable pub skip_spaces : Text → Text
skip_spaces [] = []
skip_spaces (c ∷ s) = if is_space c then skip_spaces s else c ∷ s

-- What follows `talla` and one space at least, or the text itself.
unfoldable pub without_talla : Text → Text
unfolding skip_spaces
without_talla (t ∷ a ∷ l ∷ m ∷ b ∷ c ∷ s) =
    if text_eq (t ∷ a ∷ l ∷ m ∷ b ∷ []) (codes "talla") && is_space c
    then skip_spaces s
    else t ∷ a ∷ l ∷ m ∷ b ∷ c ∷ s
without_talla s = s

-- `text.replace(',', '.')`: the first comma only.
unfoldable pub comma_to_point : Text → Text
comma_to_point [] = []
comma_to_point (c ∷ s) = if c == 44 then 46 ∷ s else c ∷ comma_to_point s

-- `Number(text)` of a text of the form `\d{1,2}(?:\.5)?`, in halves; nothing for another text.
unfoldable pub halves_of : Text → Option ℕ
halves_of (a ∷ []) = if is_digit a then some (2 * (a - 48)) else none
halves_of (a ∷ b ∷ []) =
    if is_digit a && is_digit b then some (2 * (10 * (a - 48) + (b - 48))) else none
halves_of (a ∷ p ∷ h ∷ []) =
    if is_digit a && p == 46 && h == 53 then some (2 * (a - 48) + 1) else none
halves_of (a ∷ b ∷ p ∷ h ∷ []) =
    if is_digit a && is_digit b && p == 46 && h == 53
    then some (2 * (10 * (a - 48) + (b - 48)) + 1)
    else none
halves_of _ = none

-- The decimal digits of a number below 100.
unfoldable pub small_number : ℕ → Text
small_number n = if ltb n 10 then (48 + n) ∷ [] else (48 + n / 10) ∷ (48 + n % 10) ∷ []

abbrev half_digit : ℕ → ℕ
half_digit halves = if halves % 2 == 1 then 53 else 48

abbrev then_digits : Text → Text → Text
then_digits [] t = t
then_digits (c ∷ s) t = c ∷ then_digits s t

-- `value.toFixed(1)`.
unfoldable pub to_fixed : ℕ → Text
unfolding small_number
to_fixed halves = then_digits (small_number (halves / 2)) (46 ∷ half_digit halves ∷ [])

unfoldable pub size_in_range : Option ℕ → Option Text
unfolding to_fixed
size_in_range none = none
size_in_range (some halves) =
    if ltb halves 2 || ltb 199 halves then none else some (to_fixed halves)

unfoldable pub parse_size : Unicode → Text → Option Text
unfolding halves_of size_in_range without_talla comma_to_point
parse_size u message =
    size_in_range (halves_of (comma_to_point (without_talla (u.to_lower_case (trim message)))))

-- `value.replace(/\D/g, '')`.
unfoldable pub phone_digits : Text → Text
phone_digits value = select_all is_digit value

abbrev only_digits : Text → Bool
only_digits [] = true
only_digits (c ∷ s) = is_digit c && only_digits s

-- `/^3\d{9}$/`.
abbrev is_national : Text → Bool
is_national [] = false
is_national (c ∷ s) = c == 51 && length s == 9 && only_digits s

abbrev is_prefixed : Text → Bool
is_prefixed (a ∷ b ∷ s) = a == 53 && b == 55 && is_national s
is_prefixed _ = false

-- `/^(?:57)?3\d{9}$/`.
unfoldable pub is_colombian_mobile : Text → Bool
is_colombian_mobile digits = is_prefixed digits || is_national digits
