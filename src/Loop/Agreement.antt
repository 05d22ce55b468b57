-- ===== src/Loop/Agreement.antt =====
-- Where the three implementations of a loop step agree.
use memphis_v.Base.{
  ℕ, ◌+◌, ◌≤◌, ◌<◌, ◌≡◌, ◌≢◌, refl, Text, ◌||◌, Option, none, some, [], ◌∷◌, is_some, arith,
  if◌then◌else◌,
}
use memphis_v.Base.Int.{pos}
use memphis_v.Loop.{
  LoopState, Limits, LoopAction, tool_call, wait, error, complete, halted, or_default,
  apply_fallback_loop_step, apply_loop_step_ts, engine_apply, u32_max, is_truthy, should_halt,
}

-- 2 ^ 53, up to which a JavaScript number counts one by one
abbrev pub safe_max : ℕ
safe_max = 9007199254740992

-- a wait that is not negative, and is added exactly
abbrev pub IsWaitable : LoopAction → ℕ → Type 0
IsWaitable (wait d) used = (n : ℕ) × (d ≡ pos n) × (used + n ≤ safe_max)
IsWaitable action used = Unit

halted_alike : (s : LoopState) → s.halt_reason ≢ some [] → halted s ≡ should_halt s
halted_alike s n = go s.halt_reason n
  where
    go : (o : Option Text) → o ≢ some [] → (s.completed || is_truthy o) ≡ (s.completed || is_some o)
    go none n = refl
    go (some []) n = absurd (n refl)
    go (some (c ∷ t)) n = refl

-- The TypeScript fallback of the MCP tool mirrors the Rust engine: on counters below the largest
-- `u32`, a wait that is not negative and adds up to at most 2 ^ 53, and a halt reason that is not the
-- empty text, both take the same step, halted or not, under any limits.
pub ts-engine :
    (s : LoopState) (action : LoopAction) (limits : Option Limits) (used : ℕ)
    → s.steps < u32_max
    → s.tool_calls < u32_max
    → s.errors < u32_max
    → s.wait_ms ≡ pos used
    → IsWaitable action used
    → s.halt_reason ≢ some []
    → apply_loop_step_ts s action limits ≡ engine_apply s action (or_default limits)
unfolding apply_loop_step_ts engine_apply
ts-engine s (tool_call t) limits used a b c d w n =
    let same = halted_alike s n in ground (arith, same)
ts-engine s (wait z) limits used a b c d w n = let same = halted_alike s n in ground (arith, same)
ts-engine s (error r m) limits used a b c d w n =
    let same = halted_alike s n in ground (arith, same)
ts-engine s (complete m) limits used a b c d w n =
    let same = halted_alike s n in ground (arith, same)

-- The fallback of the task executor takes the same step while the loop is not halted and a wait is
-- not negative and adds up to at most 2 ^ 53; on a halted loop it refuses as the other does, but
-- counts a step that the other does not.
pub fallback-ts :
    (s : LoopState) (action : LoopAction) (limits : Limits) (used : ℕ)
    → s.wait_ms ≡ pos used
    → IsWaitable action used
    → apply_fallback_loop_step s action limits ≡ (
        if halted s
        then record (apply_loop_step_ts s action (some limits)) {
          state = record s { steps = s.steps + 1 };
        }
        else apply_loop_step_ts s action (some limits))
unfolding apply_loop_step_ts apply_fallback_loop_step
fallback-ts s (tool_call t) limits used d w = ground arith
fallback-ts s (wait z) limits used d w = ground arith
fallback-ts s (error r m) limits used d w = ground arith
fallback-ts s (complete m) limits used d w = ground arith
