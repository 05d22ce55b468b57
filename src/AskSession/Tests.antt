-- ===== src/AskSession/Tests.antt =====
-- Selections of a small session.
use memphis_v.Base.{ℕ, ◌≤◌, ◌≡◌, ◌⊎◌, max, refl, codes, List, [], ◌∷◌, ◌++◌, length}
use memphis_v.AskSession.{AskSessionTurn, user, select_context_turns, token_sum, pick}
use memphis_v.AskSession.Selection.{selection_is_recent}

abbrev turn : ℕ → AskSessionTurn
turn n = record { timestamp = codes "t"; role = user; content = codes "hi"; tokens = n }

abbrev session : List AskSessionTurn
session = turn 50 ∷ turn 40 ∷ turn 30 ∷ turn 20 ∷ []

selection_is_recent_example :
    ((earlier : List AskSessionTurn) × (session ≡ earlier ++ select_context_turns session 3 60))
    × (length (select_context_turns session 3 60) ≤ max 1 3)
    × ((length (select_context_turns session 3 60) ≤ 1)
        ⊎ (token_sum (select_context_turns session 3 60) ≤ 60))
selection_is_recent_example = selection_is_recent session 3 60

two_turns : select_context_turns session 3 60 ≡ turn 30 ∷ turn 20 ∷ []
unfolding select_context_turns pick
two_turns = refl
