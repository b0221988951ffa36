-- ===== src/Common/Texts.antt =====
-- Text as the list of its UTF-16 code units, with the operations of JavaScript strings that the
-- program uses. Case mappings and canonical decomposition come from the Unicode tables of the
-- JavaScript engine: they are parameters.
use Prim.Native.Nat.{ℕ, ◌+◌, ◌-◌}
use Prim.Native.Char.{code}
use Prim.Native.String.{String}
use mathlib.Core.Path.{◌≡◌}
use mathlib.Core.Logic.{◌↔◌}
use mathlib.Core.Bool.{Bool, true, false, ◌&&◌, ◌||◌}
use mathlib.Core.Option.{Option, none, some}
use mathlib.Core.List.{List, [], ◌∷◌, reverse}
use native.Mathlib.Omega.{arith}
use automatizacion_wh.Common.Tests.{leb, ◌==◌, if◌then◌else◌}

abbrev pub Text : Type 0
Text = List ℕ

-- A literal of the program.
abbrev pub codes : String → Text
codes String.[] = []
codes (String.◌∷◌ c s) = code c ∷ codes s

unfoldable pub text_eq : Text → Text → Bool
text_eq [] [] = true
text_eq (a ∷ s) (b ∷ t) = a == b && text_eq s t
text_eq _ _ = false

pub text_eq_iff : (s t : Text) → (text_eq s t ≡ true) ↔ (s ≡ t)
unfolding text_eq
text_eq_iff [] [] = ground arith
text_eq_iff [] (b ∷ t) = ground arith
text_eq_iff (a ∷ s) [] = ground arith
text_eq_iff (a ∷ s) (b ∷ t) = ground (arith, text_eq_iff s t)

-- `list.includes(text)`.
unfoldable pub includes : List Text → Text → Bool
includes [] t = false
includes (s ∷ l) t = text_eq s t || includes l t

-- ECMAScript white space and line terminators.
unfoldable pub is_space : ℕ → Bool
is_space c =
    (leb 9 c && leb c 13)
    || c == 32
    || c == 160
    || c == 5760
    || (leb 8192 c && leb c 8202)
    || c == 8232
    || c == 8233
    || c == 8239
    || c == 8287
    || c == 12288
    || c == 65279

unfoldable pub trim_start : Text → Text
trim_start [] = []
trim_start (c ∷ s) = if is_space c then trim_start s else c ∷ s

-- `text.trim()`.
unfoldable pub trim : Text → Text
unfolding trim_start is_space
trim s = reverse (trim_start (reverse (trim_start s)))

-- `text.replace(/\s+/g, ' ')`: a run of spaces becomes one. The flag says that one was just written.
collapse_from : Bool → Text → Text
collapse_from after [] = []
collapse_from after (c ∷ s) =
    let rest = collapse_from (is_space c) s in
    if is_space c then (if after then rest else 32 ∷ rest) else c ∷ rest

unfoldable pub collapse_spaces : Text → Text
unfolding collapse_from is_space
collapse_spaces s = collapse_from false s

abbrev present : Text → Option Text
present [] = none
present (c ∷ t) = some (c ∷ t)

-- `value.trim()`, and null if nothing is left.
unfoldable pub non_blank : Text → Option Text
non_blank s = present (trim s)

-- `a === b` of two nullable texts.
unfoldable pub same_text : Option Text → Option Text → Bool
same_text none none = true
same_text (some s) (some t) = text_eq s t
same_text _ _ = false

-- The regular expression class `\d`.
abbrev pub is_digit : ℕ → Bool
is_digit c = leb 48 c && leb c 57

pub record Unicode : Type 0 where
  pub to_lower_case : Text → Text
  pub to_upper_case : Text → Text
  pub nfd : Text → Text
  pub nfkc : Text → Text

abbrev upper_unit : ℕ → ℕ
upper_unit c = if leb 97 c && leb c 122 then c - 32 else c

abbrev lower_unit : ℕ → ℕ
lower_unit c = if leb 65 c && leb c 90 then c + 32 else c

abbrev map_units : (ℕ → ℕ) → Text → Text
map_units f [] = []
map_units f (c ∷ s) = f c ∷ map_units f s

-- The tables restricted to ASCII, for the tests.
abbrev pub ascii : Unicode
ascii = record {
  to_lower_case = map_units lower_unit;
  to_upper_case = map_units upper_unit;
  nfd = λ s. s;
  nfkc = λ s. s;
}
