-- ===== src/Loop/Bounds.antt =====
-- What a loop may do in all, under the step of the task executor.
use memphis_v.Base.{
  ℕ, ◌+◌, ◌-◌, ◌≤◌, ◌<◌, ◌≡◌, ◌⊎◌, refl, true, false, List, [], ◌∷◌, arith, if◌then◌else◌,
  Bool-cases, inl, inr, length,
}
use memphis_v.Base.Int.{pos_part, neg_part}
use memphis_v.Loop.{
  LoopState, Limits, LoopAction, tool_call, wait, error, complete, halted, default_state,
  apply_fallback_loop_step,
}

-- the state after a list of actions, each given to the step whatever became of the last
pub final : Limits → LoopState → List LoopAction → LoopState
final lim s [] = s
final lim s (a ∷ acts) = final lim (apply_fallback_loop_step s a lim).state acts

-- the sum of a weight over the actions that the step applies
pub applied_weight : (LoopAction → ℕ) → Limits → LoopState → List LoopAction → ℕ
applied_weight w lim s [] = 0
applied_weight w lim s (a ∷ acts) =
    let r = apply_fallback_loop_step s a lim in
    let rest = applied_weight w lim r.state acts in if r.applied then w a + rest else rest

abbrev pub each : LoopAction → ℕ
each a = 1

abbrev pub calls : LoopAction → ℕ
calls (tool_call t) = 1
calls _ = 0

abbrev pub waits : LoopAction → ℕ
waits (wait d) = pos_part d
waits _ = 0

abbrev pub failures : LoopAction → ℕ
failures (error r m) = 1
failures _ = 0

-- A step that is not applied leaves the loop halted.
not_applied :
    (s : LoopState) (a : LoopAction) (lim : Limits)
    → (apply_fallback_loop_step s a lim).applied ≡ false
    → halted (apply_fallback_loop_step s a lim).state ≡ true
unfolding apply_fallback_loop_step
not_applied s (tool_call t) lim h = ground arith
not_applied s (wait d) lim h = ground arith
not_applied s (error r m) lim h = ground arith
not_applied s (complete m) lim h = ground arith

halted_step :
    (s : LoopState) (a : LoopAction) (lim : Limits)
    → halted s ≡ true
    → ((apply_fallback_loop_step s a lim).applied ≡ false)
      × (halted (apply_fallback_loop_step s a lim).state ≡ true)
unfolding apply_fallback_loop_step
halted_step s (tool_call t) lim h = ground arith
halted_step s (wait d) lim h = ground arith
halted_step s (error r m) lim h = ground arith
halted_step s (complete m) lim h = ground arith

-- Nothing is applied to a halted loop, ever.
halted_run :
    (w : LoopAction → ℕ) (lim : Limits) (s : LoopState) (acts : List LoopAction)
    → halted s ≡ true
    → (applied_weight w lim s acts ≡ 0) × (halted (final lim s acts) ≡ true)
unfolding applied_weight final
halted_run w lim s [] h = (refl, h)
halted_run w lim s (a ∷ acts) h =
    ground
      (arith, halted_step s a lim h, halted_run w lim (apply_fallback_loop_step s a lim).state acts)

module _ (lim : Limits) (s : LoopState) where
  spends_each :
      (a : LoopAction)
      → (apply_fallback_loop_step s a lim).applied ≡ true
      → ((apply_fallback_loop_step s a lim).state.steps ≡ s.steps + 1)
        × ((apply_fallback_loop_step s a lim).state.steps ≤ lim.max_steps)
  unfolding apply_fallback_loop_step
  spends_each (tool_call t) h = ground arith
  spends_each (wait d) h = ground arith
  spends_each (error r m) h = ground arith
  spends_each (complete m) h = ground arith

  spends_calls :
      (a : LoopAction)
      → (apply_fallback_loop_step s a lim).applied ≡ true
      → s.tool_calls ≤ lim.max_tool_calls
      → ((apply_fallback_loop_step s a lim).state.tool_calls ≡ s.tool_calls + calls a)
        × ((apply_fallback_loop_step s a lim).state.tool_calls ≤ lim.max_tool_calls)
  unfolding apply_fallback_loop_step
  spends_calls (tool_call t) h b = ground arith
  spends_calls (wait d) h b = ground arith
  spends_calls (error r m) h b = ground arith
  spends_calls (complete m) h b = ground arith

  spends_waits :
      (a : LoopAction)
      → (apply_fallback_loop_step s a lim).applied ≡ true
      → pos_part s.wait_ms ≤ lim.max_wait_ms
      → neg_part s.wait_ms ≡ 0
      → (pos_part (apply_fallback_loop_step s a lim).state.wait_ms ≡ pos_part s.wait_ms + waits a)
        × (pos_part (apply_fallback_loop_step s a lim).state.wait_ms ≤ lim.max_wait_ms)
        × (neg_part (apply_fallback_loop_step s a lim).state.wait_ms ≡ 0)
  unfolding apply_fallback_loop_step
  spends_waits (tool_call t) h b z = ground arith
  spends_waits (wait d) h b z = ground arith
  spends_waits (error r m) h b z = ground arith
  spends_waits (complete m) h b z = ground arith

  spends_failures :
      (a : LoopAction)
      → (apply_fallback_loop_step s a lim).applied ≡ true
      → s.errors ≤ lim.max_errors
      → ((apply_fallback_loop_step s a lim).state.errors ≡ s.errors + failures a)
        × ((apply_fallback_loop_step s a lim).state.errors ≤ lim.max_errors)
  unfolding apply_fallback_loop_step
  spends_failures (tool_call t) h b = ground arith
  spends_failures (wait d) h b = ground arith
  spends_failures (error r m) h b = ground arith
  spends_failures (complete m) h b = ground arith

module _ (P : LoopState → Type 0) (w : LoopAction → ℕ) (lim : Limits) (m : LoopState → ℕ)
    (bound : ℕ)
    (spends : (s : LoopState) (a : LoopAction)
      → (apply_fallback_loop_step s a lim).applied ≡ true
      → P s
      → P (apply_fallback_loop_step s a lim).state
        × (m (apply_fallback_loop_step s a lim).state ≡ m s + w a)
        × (m (apply_fallback_loop_step s a lim).state ≤ bound)) where
  -- A counter that each applied action raises by its weight, and that never passes a bound, bounds
  -- the sum.
  weight_bound :
      (s : LoopState) (acts : List LoopAction) → P s → applied_weight w lim s acts ≤ bound - m s
  unfolding applied_weight
  weight_bound s [] p = omega arith
  weight_bound s (a ∷ acts) p = elim (Bool-cases (apply_fallback_loop_step s a lim).applied) [
    | inl done ↦
        let (p', raised, bounded) = spends s a done p in
        ground (arith, weight_bound (apply_fallback_loop_step s a lim).state acts p')
    | inr refused ↦ ground (
      arith,
      halted_run w lim (apply_fallback_loop_step s a lim).state acts (not_applied s a lim refused),
    )
  ]

-- Whatever actions a loop is given, and in whatever order, the ones that are applied stay within the
-- limits: in number, in tool calls, in the sum of the waits and in errors.
pub run_within_limits :
    (lim : Limits) (acts : List LoopAction)
    → (applied_weight each lim default_state acts ≤ lim.max_steps)
      × (applied_weight calls lim default_state acts ≤ lim.max_tool_calls)
      × (applied_weight waits lim default_state acts ≤ lim.max_wait_ms)
      × (applied_weight failures lim default_state acts ≤ lim.max_errors)
run_within_limits lim acts = (
  omega (
    arith,
    weight_bound (λ s. Unit {0}) each lim (λ s. s.steps) lim.max_steps
        (λ s a h p. (tt, (spends_each lim s a h).0, (spends_each lim s a h).1)) default_state acts
        tt,
  ),
  omega (
    arith,
    weight_bound (λ s. s.tool_calls ≤ lim.max_tool_calls) calls lim (λ s. s.tool_calls)
        lim.max_tool_calls
        (λ s a h p. (
          (spends_calls lim s a h p).1,
          (spends_calls lim s a h p).0,
          (spends_calls lim s a h p).1,
        ))
        default_state acts (omega arith),
  ),
  omega (
    arith,
    weight_bound (λ s. (pos_part s.wait_ms ≤ lim.max_wait_ms) × (neg_part s.wait_ms ≡ 0)) waits lim
        (λ s. pos_part s.wait_ms) lim.max_wait_ms
        (λ s a h p.
          let (raised, bounded, nonneg) = spends_waits lim s a h p.0 p.1 in
          ((bounded, nonneg), raised, bounded))
        default_state acts (omega arith, refl),
  ),
  omega (
    arith,
    weight_bound (λ s. s.errors ≤ lim.max_errors) failures lim (λ s. s.errors) lim.max_errors
        (λ s a h p. (
          (spends_failures lim s a h p).1,
          (spends_failures lim s a h p).0,
          (spends_failures lim s a h p).1,
        ))
        default_state acts (omega arith),
  ),
)

-- either every action was applied, or the loop is halted
all_or_halted :
    (lim : Limits) (s : LoopState) (acts : List LoopAction)
    → (halted (final lim s acts) ≡ true) ⊎ (applied_weight each lim s acts ≡ length acts)
unfolding final applied_weight
all_or_halted lim s [] = inr refl
all_or_halted lim s (a ∷ acts) = elim (Bool-cases (apply_fallback_loop_step s a lim).applied) [
  | inl done ↦ elim (all_or_halted lim (apply_fallback_loop_step s a lim).state acts) [
    | inl stopped ↦ inl stopped
    | inr all_applied ↦ inr (ground arith)
  ]
  | inr refused ↦
      inl
        (halted_run each lim (apply_fallback_loop_step s a lim).state acts
          (not_applied s a lim refused)).1
]

-- The loop ends: after more actions than `max_steps`, whatever they are, it is halted, and whatever
-- comes then is not applied.
pub run_halts :
    (lim : Limits) (acts more : List LoopAction) (w : LoopAction → ℕ)
    → lim.max_steps < length acts
    → (halted (final lim default_state acts) ≡ true)
      × (applied_weight w lim (final lim default_state acts) more ≡ 0)
run_halts lim acts more w h =
    let stopped : halted (final lim default_state acts) ≡ true =
      elim (all_or_halted lim default_state acts) [
        | inl e ↦ e
        | inr e ↦ absurd (omega (arith, (run_within_limits lim acts).0))
      ] in
    (stopped, (halted_run w lim (final lim default_state acts) more stopped).0)
