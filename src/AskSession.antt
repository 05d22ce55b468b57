-- ===== src/AskSession.antt =====
-- The part of an ask session that goes into the next prompt (core/ask-session-store.ts).
pub mod Selection
mod Tests
use memphis_v.Base.{
  ℕ, suc, ◌+◌, ◌-◌, ◌*◌, ◌/◌, max, Text, Bool, true, false, ◌&&◌, List, [], ◌∷◌, reverse, length,
  drop, map, sum, ltb, leb, if◌then◌else◌,
}

pub data AskSessionRole : Type 0 where
  user assistant system : AskSessionRole

pub record AskSessionTurn : Type 0 where
  pub timestamp : Text
  pub role : AskSessionRole
  pub content : Text
  pub tokens : ℕ

unfoldable pub estimate_tokens : Text → ℕ
estimate_tokens content = max 1 ((length content + 3) / 4)

-- The loop of `selectContextTurns`, from the last turn on: whether a turn was picked, and the tokens
-- of those that were.
unfoldable pub pick : ℕ → Bool → ℕ → List AskSessionTurn → List AskSessionTurn
pick max_tokens picked tokens [] = []
pick max_tokens picked tokens (t ∷ ts) =
    let rest = pick max_tokens true (tokens + t.tokens) ts in
    if picked && ltb max_tokens (tokens + t.tokens) then [] else t ∷ rest

-- `turns.slice(-n)`, for a positive `n`
abbrev pub last_turns : ℕ → List AskSessionTurn → List AskSessionTurn
last_turns n turns = drop (length turns - n) turns

unfoldable pub select_context_turns : List AskSessionTurn → ℕ → ℕ → List AskSessionTurn
select_context_turns turns max_turns max_tokens =
    reverse (pick max_tokens false 0 (reverse (last_turns (max 1 max_turns) turns)))

abbrev pub token_sum : List AskSessionTurn → ℕ
token_sum turns = sum (map (λ t. t.tokens) turns)

pub record Stats : Type 0 where
  pub turns : ℕ
  pub tokens : ℕ
  pub context_turns : ℕ
  pub context_tokens : ℕ
  pub context_token_limit : ℕ
  pub warning : Bool

-- `askSessionStats`, with the two limits that it reads of the environment
unfoldable pub ask_session_stats : List AskSessionTurn → ℕ → ℕ → Stats
ask_session_stats turns max_turns max_tokens =
    let context = select_context_turns turns max_turns max_tokens in
    record {
      turns = length turns;
      tokens = token_sum turns;
      context_turns = length context;
      context_tokens = token_sum context;
      context_token_limit = max_tokens;
      warning = leb (max_tokens * 8 / 10) (token_sum context);
    }
