-- ===== src/Common/Trims.antt =====
-- Texts without spaces, which `trim` leaves alone.
use mathlib.Core.Path.{◌≡◌, refl, ap, ◌∙◌}
use mathlib.Core.Bool.{false}
use mathlib.Core.List.{[], ◌∷◌, reverse, reverse_aux, reverse-reverse}
use automatizacion_wh.Common.Tables.{All}
use automatizacion_wh.Common.Texts.{Text, is_space, trim, trim_start}

abbrev pub Plain : Text → Type 0
Plain s = All (λ c. is_space c ≡ false) s

trim_start-Plain : (s : Text) → Plain s → trim_start s ≡ s
unfolding trim_start
trim_start-Plain [] h = refl
trim_start-Plain (c ∷ s) h = rw h.0 refl

reverse_aux-Plain : (s t : Text) → Plain s → Plain t → Plain (reverse_aux s t)
reverse_aux-Plain [] t h k = k
reverse_aux-Plain (c ∷ s) t h k = reverse_aux-Plain s (c ∷ t) h.1 (h.0, k)

pub trim-Plain : (s : Text) → Plain s → trim s ≡ s
unfolding trim
trim-Plain s h =
    ap (λ t. reverse (trim_start (reverse t))) (trim_start-Plain s h)
    ∙ ap reverse (trim_start-Plain (reverse s) (reverse_aux-Plain s [] h tt))
    ∙ reverse-reverse s
