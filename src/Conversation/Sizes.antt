-- ===== src/Conversation/Sizes.antt =====
-- What `parseSize` of apps/api/src/modules/conversations/conversation-state.ts accepts.
use automatizacion_wh.Common.{
  Plain, trim-Plain, ℕ, ◌+◌, ◌/◌, ◌%◌, ◌≤◌, ◌≡◌, refl, ap, ◌⊎◌, inl, ◌∙◌, true, false, Option, none,
  some, [], ◌∷◌, Text, Unicode, leb, ltb, ◌==◌, if◌then◌else◌, trim, is_space, All, arith,
}
use automatizacion_wh.Conversation.Messages.{
  to_fixed, size_in_range, halves_of, without_talla, comma_to_point, parse_size,
}

-- A size as a customer writes it: the half only where there is one.
abbrev pub written : ℕ → Text
written h =
    if ltb h 20
    then (if h % 2 == 1 then (48 + h / 2) ∷ 46 ∷ 53 ∷ [] else (48 + h / 2) ∷ [])
    else if h % 2 == 1
    then (48 + h / 2 / 10) ∷ (48 + h / 2 % 10) ∷ 46 ∷ 53 ∷ []
    else (48 + h / 2 / 10) ∷ (48 + h / 2 % 10) ∷ []

halves_of-written : (h : ℕ) → h ≤ 199 → halves_of (written h) ≡ some h
unfolding halves_of
halves_of-written h small = ground arith

digit_plain : (c : ℕ) → 46 ≤ c → c ≤ 57 → is_space c ≡ false
unfolding is_space
digit_plain c low high = ground arith

written-Plain : (h : ℕ) → h ≤ 199 → Plain (written h)
written-Plain h small = ground (
  arith,
  digit_plain (48 + h / 2),
  digit_plain (48 + h / 2 / 10),
  digit_plain (48 + h / 2 % 10),
  digit_plain 46,
  digit_plain 53,
)

without_talla-written : (h : ℕ) → without_talla (written h) ≡ written h
unfolding without_talla
without_talla-written h = ground arith

comma_to_point-written : (h : ℕ) → h ≤ 199 → comma_to_point (written h) ≡ written h
unfolding comma_to_point
comma_to_point-written h small = ground arith

-- A case mapping leaves digits and points alone.
abbrev pub KeepsDigits : Unicode → Type 0
KeepsDigits u = (s : Text) → All (λ c. leb c 57 ≡ true) s → u.to_lower_case s ≡ s

written-low : (h : ℕ) → h ≤ 199 → All (λ c. leb c 57 ≡ true) (written h)
written-low h small = ground arith

-- Every size from 1 to 99.5 that is written with its half only where there is one is read as itself,
-- printed with one decimal, whatever the case mapping does to letters.
pub parse_size-written :
    (u : Unicode) (h : ℕ)
    → KeepsDigits u
    → 2 ≤ h
    → h ≤ 199
    → parse_size u (written h) ≡ some (to_fixed h)
unfolding parse_size size_in_range
parse_size-written u h keeps low high =
    let read : halves_of (comma_to_point (without_talla (u.to_lower_case (trim (written h)))))
        ≡ some h =
      rw
        (
          trim-Plain (written h) (written-Plain h high),
          keeps (written h) (written-low h high),
          without_talla-written h,
          comma_to_point-written h high,
        )
        (halves_of-written h high) in
    ap size_in_range read ∙ ground arith

abbrev tenths : ℕ → ℕ
tenths h = if h % 2 == 1 then 53 else 48

-- A number of halves with its one decimal, digit by digit.
abbrev pub fixed : ℕ → Text
fixed h =
    if ltb h 20
    then (48 + h / 2) ∷ 46 ∷ tenths h ∷ []
    else (48 + h / 2 / 10) ∷ (48 + h / 2 % 10) ∷ 46 ∷ tenths h ∷ []

to_fixed-fixed : (h : ℕ) → h ≤ 199 → to_fixed h ≡ fixed h
unfolding to_fixed
to_fixed-fixed h small = ground arith

-- The text is a size as a customer writes it, or one with a zero before it.
abbrev pub Spells : Text → ℕ → Type 0
Spells t h = (t ≡ written h) ⊎ (t ≡ 48 ∷ written h)

one_digit : (a h : ℕ) → halves_of (a ∷ []) ≡ some h → a ∷ [] ≡ written h
unfolding halves_of
one_digit a h e = ground arith

half_of_digit : (a p d h : ℕ) → halves_of (a ∷ p ∷ d ∷ []) ≡ some h → a ∷ p ∷ d ∷ [] ≡ written h
unfolding halves_of
half_of_digit a p d h e = ground arith

two_digits : (a b h : ℕ) → halves_of (a ∷ b ∷ []) ≡ some h → Spells (a ∷ b ∷ []) h
unfolding halves_of
two_digits a b h e = ground arith

half_of_digits :
    (a b p d h : ℕ) → halves_of (a ∷ b ∷ p ∷ d ∷ []) ≡ some h → Spells (a ∷ b ∷ p ∷ d ∷ []) h
unfolding halves_of
half_of_digits a b p d h e = ground arith

halves_of-Spells : (t : Text) (h : ℕ) → halves_of t ≡ some h → Spells t h
unfolding halves_of
halves_of-Spells [] h e = cc
halves_of-Spells (a ∷ []) h e = inl (one_digit a h e)
halves_of-Spells (a ∷ b ∷ []) h e = two_digits a b h e
halves_of-Spells (a ∷ p ∷ d ∷ []) h e = inl (half_of_digit a p d h e)
halves_of-Spells (a ∷ b ∷ p ∷ d ∷ []) h e = half_of_digits a b p d h e
halves_of-Spells (a ∷ b ∷ p ∷ d ∷ f ∷ t) h e = cc

in_range_number :
    (o : Option ℕ) {s : Text}
    → size_in_range o ≡ some s
    → (h : ℕ) × (o ≡ some h) × (2 ≤ h) × (h ≤ 199) × (s ≡ to_fixed h)
unfolding size_in_range
in_range_number none e = cc
in_range_number (some h) e = (h, refl, ground arith, ground arith, ground arith)

-- Only sizes are read from a message: the message without the word `talla`, in small letters and with a
-- point for its comma, spells a number of halves from 1 to 99.5, with its half only where there is one,
-- and one zero before it at most. What is read is that number with its one decimal, digit by digit.
pub parse_size_only :
    (u : Unicode) (message : Text) {s : Text}
    → parse_size u message ≡ some s
    → (h : ℕ) × (2 ≤ h)
      × (h ≤ 199)
      × (s ≡ fixed h)
      × Spells (comma_to_point (without_talla (u.to_lower_case (trim message)))) h
unfolding parse_size
parse_size_only u message {s} e =
    let (h, read, low, high, printed) =
      in_range_number (halves_of (comma_to_point (without_talla (u.to_lower_case (trim message)))))
        e in
    (h, low, high, printed ∙ to_fixed-fixed h high, halves_of-Spells _ h read)
