-- ===== src/Conversation/Commands.antt =====
-- The commands of a flow without issues (apps/api/src/modules/conversations/flow-definition.ts and
-- configured-flow.ts).
use automatizacion_wh.Common.{
  ◌≡◌, refl, sym, ap, subst, true, false, some, List, [], ◌∷◌, ◌++◌, Text, Unicode, text_eq,
  text_eq_iff, includes, select_one, Memᴰ, arith,
}
use automatizacion_wh.Conversation.Messages.{normalize_message}
use automatizacion_wh.Conversation.Flow.{FlowCommand, BotFlowDefinition, canonical, understood}
use automatizacion_wh.Conversation.Checks.{
  FlowIssue, command_values, distinct, command_issues, validate_bot_flow,
}

text_eq_sym : (s t : Text) → text_eq s t ≡ false → text_eq t s ≡ false
text_eq_sym s t e = ground (arith, text_eq_iff s t, text_eq_iff t s)

-- A listed command has none of the values that the list does not include.
listed :
    (u : Unicode) (cs : List FlowCommand) (t : Text) {c : FlowCommand}
    → Memᴰ c cs
    → includes (command_values u cs) t ≡ false
    → text_eq (normalize_message u c.value) t ≡ false
unfolding includes
listed u [] t m e = elim m [ ]
listed u (d ∷ cs) t (Memᴰ.head same) e =
    subst (λ x. text_eq (normalize_message u x.value) t ≡ false) (sym same) (ground arith)
listed u (d ∷ cs) t (Memᴰ.tail m) e = listed u cs t m (ground arith)

found_command :
    (u : Unicode) (cs : List FlowCommand) {c : FlowCommand}
    → Memᴰ c cs
    → distinct (command_values u cs) ≡ true
    → select_one (λ d. text_eq (normalize_message u d.value) (normalize_message u c.value)) cs
      ≡ some c
unfolding select_one distinct
found_command u [] m e = elim m [ ]
found_command u (d ∷ cs) {c} (Memᴰ.head same) e =
    let own : text_eq (normalize_message u d.value) (normalize_message u c.value) ≡ true =
      (text_eq_iff _ _).1 (ap (λ x. normalize_message u x.value) (sym same)) in
    rw own (ap some (sym same))
found_command u (d ∷ cs) {c} (Memᴰ.tail m) e =
    let other : text_eq (normalize_message u c.value) (normalize_message u d.value) ≡ false =
      listed u cs (normalize_message u d.value) m (ground arith) in
    rw (text_eq_sym _ _ other) (found_command u cs m (ground arith))

no_issues : (xs ys : List FlowIssue) → xs ++ ys ≡ [] → (xs ≡ []) × (ys ≡ [])
no_issues [] ys e = (refl, e)
no_issues (x ∷ xs) ys e = absurd (cc)

commands-distinct :
    (u : Unicode) (flow : BotFlowDefinition)
    → command_issues u flow ≡ []
    → distinct (command_values u flow.commands) ≡ true
unfolding command_issues
commands-distinct u flow e = ground arith

-- In a flow without issues every command of the owner is understood as the one that it stands for, in
-- whatever order the commands are kept: none hides another.
pub valid_flow_understands :
    (u : Unicode) (flow : BotFlowDefinition) {c : FlowCommand}
    → validate_bot_flow u flow ≡ []
    → Memᴰ c flow.commands
    → understood u flow c.value ≡ canonical c.key
unfolding validate_bot_flow understood
valid_flow_understands u flow {c} valid m =
    let rest = (no_issues _ _ valid).1 in
    let commands = (no_issues (command_issues u flow) _ rest).0 in
    rw (found_command u flow.commands m (commands-distinct u flow commands)) refl
