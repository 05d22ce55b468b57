-- ===== src/Loop.antt =====
-- The bounded loop of an agent: one step of it in its three implementations,
-- modules/orchestration/task-executor.ts, mcp/tools/loop-step.ts and the engine of
-- crates/memphis-core/src/loop_engine.rs that both fall back from. Durations are whole milliseconds.
pub mod Bounds
pub mod Agreement
pub mod Executor
mod Tests
use memphis_v.Base.{
  ℕ, suc, ◌+◌, Text, Bool, true, false, Option, none, some, List, [], ◌∷◌, ◌||◌, min, ltb,
  if◌then◌else◌, is_some, codes,
}
use memphis_v.Base.Int.{ℤ, pos, negsuc, pos_part, ◌+ℤ◌, ltb_ℤ}

pub data Reason : Type 0 where
  loop_already_halted max_steps_exceeded max_tool_calls_exceeded max_wait_exceeded : Reason
  max_errors_exceeded non_recoverable_error : Reason

-- `SoulLoopState`
pub record LoopState : Type 0 where
  pub steps : ℕ
  pub tool_calls : ℕ
  pub wait_ms : ℤ
  pub errors : ℕ
  pub completed : Bool
  pub halt_reason : Option Text

-- `SoulLoopLimits`
pub record Limits : Type 0 where
  pub max_steps : ℕ
  pub max_tool_calls : ℕ
  pub max_wait_ms : ℕ
  pub max_errors : ℕ

-- `SoulLoopAction`
pub data LoopAction : Type 0 where
  tool_call : Text → LoopAction
  wait : ℤ → LoopAction
  error : Bool → Text → LoopAction
  complete : Text → LoopAction

-- `SoulLoopStepResult`
pub record StepResult : Type 0 where
  pub applied : Bool
  pub reason : Option Reason
  pub state : LoopState

abbrev pub default_limits : Limits
default_limits = record {
  max_steps = 32;
  max_tool_calls = 16;
  max_wait_ms = 120000;
  max_errors = 4;
}

abbrev pub default_state : LoopState
default_state = record {
  steps = 0;
  tool_calls = 0;
  wait_ms = pos 0;
  errors = 0;
  completed = false;
  halt_reason = none;
}

-- the text of a reason, which is also what a state keeps
abbrev pub reason_text : Reason → Text
reason_text loop_already_halted = codes "loop_already_halted"
reason_text max_steps_exceeded = codes "max_steps_exceeded"
reason_text max_tool_calls_exceeded = codes "max_tool_calls_exceeded"
reason_text max_wait_exceeded = codes "max_wait_exceeded"
reason_text max_errors_exceeded = codes "max_errors_exceeded"
reason_text non_recoverable_error = codes "non_recoverable_error"

-- `Boolean(text)`, of a text that may be missing
abbrev pub is_truthy : Option Text → Bool
is_truthy none = false
is_truthy (some []) = false
is_truthy (some (c ∷ s)) = true

-- `completed || halt_reason`, by the truth value of the text
abbrev pub halted : LoopState → Bool
halted s = s.completed || is_truthy s.halt_reason

abbrev applies : LoopState → StepResult
applies s = record { applied = true; reason = none; state = s }

abbrev halts : Reason → LoopState → StepResult
halts r s = record {
  applied = false;
  reason = some r;
  state = record s { halt_reason = some (reason_text r) };
}

abbrev refuses : LoopState → StepResult
refuses s = record { applied = false; reason = some loop_already_halted; state = s }

-- task-executor.ts, the branches on the action's type; `Math.max(0, Math.trunc(d))` of a whole `d`
abbrev fallback_action : LoopAction → Limits → LoopState → StepResult
fallback_action (tool_call tool) limits s =
    let next = record s { tool_calls = s.tool_calls + 1 } in
    if ltb limits.max_tool_calls next.tool_calls
    then halts max_tool_calls_exceeded next
    else applies next
fallback_action (wait d) limits s =
    let next = record s { wait_ms = s.wait_ms +ℤ pos (pos_part d) } in
    if ltb_ℤ (pos limits.max_wait_ms) next.wait_ms
    then halts max_wait_exceeded next
    else applies next
fallback_action (error recoverable message) limits s =
    let next = record s { errors = s.errors + 1 } in
    if ltb limits.max_errors next.errors
    then halts max_errors_exceeded next
    else if recoverable
    then applies next
    else applies
        (record next { completed = true; halt_reason = some (reason_text non_recoverable_error) })
fallback_action (complete summary) limits s = applies (record s { completed = true })

-- task-executor.ts
unfoldable pub apply_fallback_loop_step : LoopState → LoopAction → Limits → StepResult
apply_fallback_loop_step state action limits =
    let next = record state { steps = state.steps + 1 } in
    if halted next
    then refuses next
    else if ltb limits.max_steps next.steps
    then halts max_steps_exceeded next
    else fallback_action action limits next

-- loop-step.ts, the branches on the action's type
abbrev ts_action : LoopAction → Limits → LoopState → StepResult
ts_action (tool_call tool) lim s =
    let next = record s { tool_calls = s.tool_calls + 1 } in
    if ltb lim.max_tool_calls next.tool_calls
    then halts max_tool_calls_exceeded next
    else applies next
ts_action (wait d) lim s =
    let next = record s { wait_ms = s.wait_ms +ℤ d } in
    if ltb_ℤ (pos lim.max_wait_ms) next.wait_ms then halts max_wait_exceeded next else applies next
ts_action (error recoverable message) lim s =
    let next = record s { errors = s.errors + 1 } in
    if ltb lim.max_errors next.errors
    then halts max_errors_exceeded next
    else if recoverable
    then applies next
    else applies
        (record next { completed = true; halt_reason = some (reason_text non_recoverable_error) })
ts_action (complete summary) lim s = applies (record s { completed = true })

abbrev pub or_default : Option Limits → Limits
or_default none = default_limits
or_default (some limits) = limits

-- loop-step.ts
unfoldable pub apply_loop_step_ts : LoopState → LoopAction → Option Limits → StepResult
apply_loop_step_ts state action limits =
    let lim = or_default limits in
    let next = record state { steps = state.steps + 1 } in
    if halted state
    then refuses state
    else if ltb lim.max_steps next.steps
    then halts max_steps_exceeded next
    else ts_action action lim next

-- loop_engine.rs: `u32` and `u64` counters that saturate
abbrev pub u32_max : ℕ
u32_max = 4294967295

abbrev pub u64_max : ℕ
u64_max = 18446744073709551615

-- `should_halt`: any text halts, also the empty one
abbrev pub should_halt : LoopState → Bool
should_halt s = s.completed || is_some s.halt_reason

abbrev engine_action : LoopAction → Limits → LoopState → StepResult
engine_action (tool_call tool) limits s =
    let next = record s { tool_calls = min u32_max (s.tool_calls + 1) } in
    if ltb limits.max_tool_calls next.tool_calls
    then halts max_tool_calls_exceeded next
    else applies next
engine_action (wait d) limits s =
    let next = record s { wait_ms = pos (min u64_max (pos_part s.wait_ms + pos_part d)) } in
    if ltb limits.max_wait_ms (pos_part next.wait_ms)
    then halts max_wait_exceeded next
    else applies next
engine_action (error recoverable message) limits s =
    let next = record s { errors = min u32_max (s.errors + 1) } in
    if ltb limits.max_errors next.errors
    then halts max_errors_exceeded next
    else if recoverable
    then applies next
    else applies
        (record next { completed = true; halt_reason = some (reason_text non_recoverable_error) })
engine_action (complete summary) limits s = applies (record s { completed = true })

unfoldable pub engine_apply : LoopState → LoopAction → Limits → StepResult
engine_apply state action limits =
    let next = record state { steps = min u32_max (state.steps + 1) } in
    if should_halt state
    then refuses state
    else if ltb limits.max_steps next.steps
    then halts max_steps_exceeded next
    else engine_action action limits next
