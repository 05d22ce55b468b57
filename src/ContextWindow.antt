-- ===== src/ContextWindow.antt =====
-- `ContextWindowManager` (providers/context-window.ts).
pub mod Shape
mod Tests
use memphis_v.Base.{
  ℕ, suc, ◌+◌, ◌-◌, ◌*◌, ◌/◌, max, Text, Bool, true, false, not, List, [], ◌∷◌, ◌++◌, reverse,
  length, select, map, sum, ltb, ◌==◌, if◌then◌else◌,
}
use memphis_v.AskSession.{AskSessionRole, user, assistant, system}

pub record ConversationTurn : Type 0 where
  pub role : AskSessionRole
  pub content : Text
  pub timestamp : ℕ
  pub token_count : ℕ

abbrev pub is_system : ConversationTurn → Bool
is_system t = elim t.role [ system ↦ true | _ ↦ false ]

-- `Math.max(1, this.maxSize - this.reservedTokens)`
abbrev pub available_tokens : ℕ → ℕ
available_tokens max_size = max 1 (max_size - 1000)

-- The loop over the system turns: those that are taken.
unfoldable pub take_system : ℕ → ℕ → List ConversationTurn → List ConversationTurn
take_system available current [] = []
take_system available current (t ∷ ts) =
    let rest = take_system available (current + t.token_count) ts in
    if ltb available (current + t.token_count) then [] else t ∷ rest

abbrev pub tokens : List ConversationTurn → ℕ
tokens turns = sum (map (λ t. t.token_count) turns)

-- The loop over the other turns, from the last one on; each that is taken goes in front.
unfoldable pub take_turns :
    ℕ → ℕ → List ConversationTurn → List ConversationTurn → List ConversationTurn
take_turns available current selected [] = selected
take_turns available current selected (t ∷ ts) =
    let rest = take_turns available (current + t.token_count) (t ∷ selected) ts in
    if ltb available (current + t.token_count)
    then if length selected == 0 then t ∷ selected else selected
    else rest

unfoldable pub build_context : ℕ → List ConversationTurn → List ConversationTurn
build_context max_size turns =
    let available = available_tokens max_size in
    let chosen = take_system available 0 (select is_system turns) in
    take_turns available (tokens chosen) chosen (reverse (select (λ t. not (is_system t)) turns))

-- `Math.round((totalTokens / this.maxSize) * 100)`, of a positive size, computed exactly
unfoldable pub get_context_usage : ℕ → List ConversationTurn → ℕ
get_context_usage max_size turns = (200 * tokens turns + max_size) / (2 * max_size)
