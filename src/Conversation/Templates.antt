-- ===== src/Conversation/Templates.antt =====
-- What `renderFlowMessage` of apps/api/src/modules/conversations/configured-flow.ts does to a text.
use automatizacion_wh.Common.{
  ℕ, ◌+◌, ◌-◌, ◌≡◌, refl, sym, ap, ◌∙◌, true, false, none, some, [], ◌∷◌, ◌++◌, Text, length, ◌==◌,
  is_space, or_else, All, arith,
}
use automatizacion_wh.Conversation.Messages.{skip_spaces}
use automatizacion_wh.Conversation.Flow.{
  Variables, is_word, word_of, after_braces, closed_word, match_variable, render_from,
  render_flow_message,
}

abbrev pub Braceless : Text → Type 0
Braceless s = All (λ c. (c == 123) ≡ false) s

abbrev pub IsWord : Text → Type 0
IsWord s = All (λ c. is_word c ≡ true) s

word_not_space : (c : ℕ) → is_word c ≡ true → is_space c ≡ false
unfolding is_space
word_not_space c e = ground arith

unmatched : (c : ℕ) (s : Text) → (c == 123) ≡ false → match_variable (c ∷ s) ≡ none
unfolding match_variable
unmatched c [] e = refl
unmatched c (d ∷ s) e = ground arith

render_copied :
    (variables : Variables) (c : ℕ) (s : Text)
    → match_variable (c ∷ s) ≡ none
    → render_from variables 0 (c ∷ s) ≡ c ∷ render_from variables 0 s
unfolding render_from
render_copied variables c s e = rw (e, render_from) refl

render_matched :
    (variables : Variables) (c : ℕ) (s : Text) {key after : Text}
    → match_variable (c ∷ s) ≡ some (key, after)
    → render_from variables 0 (c ∷ s)
      ≡ or_else (variables key) [] ++ render_from variables (length s - length after) s
unfolding render_from
render_matched variables c s e = rw (e, render_from) refl

-- A text before the first brace is copied.
render-Braceless :
    (variables : Variables) (before s : Text)
    → Braceless before
    → render_from variables 0 (before ++ s) ≡ before ++ render_from variables 0 s
render-Braceless variables [] s h = refl
render-Braceless variables (c ∷ before) s h =
    render_copied variables c (before ++ s) (unmatched c (before ++ s) h.0)
    ∙ ap (λ t. c ∷ t) (render-Braceless variables before s h.1)

-- What a match has taken is passed over.
render-taken :
    (variables : Variables) (taken s : Text)
    → render_from variables (length taken) (taken ++ s) ≡ render_from variables 0 s
unfolding render_from
render-taken variables [] s = refl
render-taken variables (c ∷ taken) s = render-taken variables taken s

length-append : (s t : Text) → length (s ++ t) ≡ length s + length t
length-append [] t = omega arith
length-append (c ∷ s) t = omega (arith, length-append s t)

-- The closing braces and what follows.
abbrev closing : Text → Text
closing s = 125 ∷ 125 ∷ s

word_of-key : (key s : Text) → IsWord key → word_of (key ++ closing s) ≡ (key, closing s)
unfolding word_of
word_of-key [] s h = refl
word_of-key (c ∷ key) s h = rw (word_of-key key s h.1, h.0) refl

closed_word-key : (c : ℕ) (key s : Text) → closed_word (c ∷ key, closing s) ≡ some (c ∷ key, s)
unfolding closed_word after_braces skip_spaces is_space
closed_word-key c key s = refl

match_variable-key :
    (c : ℕ) (key s : Text)
    → IsWord (c ∷ key)
    → match_variable (123 ∷ 123 ∷ c ∷ key ++ closing s) ≡ some (c ∷ key, s)
unfolding match_variable skip_spaces
match_variable-key c key s h =
    rw (word_not_space c h.0) (ap closed_word (word_of-key (c ∷ key) s h) ∙ closed_word-key c key s)

append_assoc : (s t v : Text) → (s ++ t) ++ v ≡ s ++ (t ++ v)
append_assoc [] t v = refl
append_assoc (c ∷ s) t v = ap (λ r. c ∷ r) (append_assoc s t v)

after_match :
    (variables : Variables) (c : ℕ) (key after : Text)
    → render_from variables
        (length (123 ∷ c ∷ key ++ closing after) - length after)
        (123 ∷ c ∷ key ++ closing after)
      ≡ render_from variables 0 after
after_match variables c key after =
    let taken = 123 ∷ c ∷ key ++ closing [] in
    let split : taken ++ after ≡ 123 ∷ c ∷ key ++ closing after =
      ap (λ t. 123 ∷ c ∷ t) (append_assoc key (closing []) after) in
    let count : length (123 ∷ c ∷ key ++ closing after) - length after ≡ length taken =
      omega (arith, ap length split, length-append taken after) in
    ap (λ n. render_from variables n (123 ∷ c ∷ key ++ closing after)) count
    ∙ ap (render_from variables (length taken)) (sym split)
    ∙ render-taken variables taken after

-- A variable between double braces is replaced by its value, or by nothing where it has none; the text
-- before it, which has no opening brace, is copied, and the text after it is rendered in its turn.
pub render_flow_message-variable :
    (variables : Variables) (before after : Text) (c : ℕ) (key : Text)
    → Braceless before
    → IsWord (c ∷ key)
    → render_flow_message variables (before ++ (123 ∷ 123 ∷ c ∷ key ++ closing after))
      ≡ before ++ (or_else (variables (c ∷ key)) [] ++ render_flow_message variables after)
unfolding render_flow_message
render_flow_message-variable variables before after c key plain word =
    render-Braceless variables before (123 ∷ 123 ∷ c ∷ key ++ closing after) plain
    ∙ ap (λ t. before ++ t)
        (render_matched variables 123 (123 ∷ c ∷ key ++ closing after)
            (match_variable-key c key after word)
          ∙ ap (λ t. or_else (variables (c ∷ key)) [] ++ t) (after_match variables c key after))
