-- ===== src/ContextWindow/Tests.antt =====
-- The context of a small conversation.
use memphis_v.Base.{ℕ, ◌≡◌, refl, not, codes, List, [], ◌∷◌, ◌++◌, select}
use memphis_v.AskSession.{AskSessionRole, user, assistant, system}
use memphis_v.ContextWindow.{
  ConversationTurn, is_system, available_tokens, build_context, take_system, take_turns,
  get_context_usage,
}
use memphis_v.ContextWindow.Shape.{Fits, context_shape}

abbrev turn : AskSessionRole → ℕ → ConversationTurn
turn role n = record { role = role; content = codes "hi"; timestamp = 0; token_count = n }

abbrev talk : List ConversationTurn
talk = turn system 20 ∷ turn user 90 ∷ turn assistant 40 ∷ turn user 30 ∷ []

context_shape_example :
    (earlier recent systems rest : List ConversationTurn) × (select (λ t. not (is_system t)) talk
      ≡ earlier ++ recent)
    × (select is_system talk ≡ systems ++ rest)
    × (build_context 1100 talk ≡ recent ++ systems)
    × Fits (available_tokens 1100) (build_context 1100 talk)
context_shape_example = context_shape 1100 talk

-- the instructions of the system come last
system_last : build_context 1100 talk ≡ turn assistant 40 ∷ turn user 30 ∷ turn system 20 ∷ []
unfolding build_context take_system take_turns
system_last = refl

usage_of_talk : get_context_usage 1000 talk ≡ 18
unfolding get_context_usage
usage_of_talk = refl
