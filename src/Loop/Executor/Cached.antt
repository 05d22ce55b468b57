-- ===== src/Loop/Executor/Cached.antt =====
-- The steps of a run, and a run that is answered from the chain
-- (modules/orchestration/task-executor.ts).
use memphis_v.Base.{
  Text, codes, ◌≡◌, refl, Bool, true, false, Option, none, some, List, ◌∷◌, take, arith, ◌⊎◌, inl,
  inr, Result, ok, Option-cases,
}
use memphis_v.Loop.{
  LoopState, LoopAction, tool_call, complete, default_limits, default_state,
  apply_fallback_loop_step, engine_apply,
}
use memphis_v.Loop.Executor.{
  Deps, State, Block, Envelope, Payload, Correlation, GenerateResult, Request, tool_result,
  task_event, find_cached, tool_call_of, dedupes, provider_tool, with_call, base_correlation,
  attempt, obtain, rescue, guarded, run_task, emit, apply_loop_step, or_else, created, tool_called,
  tool_result_reused, completed,
}

-- What the executor relies on: `appendBlock` puts the block behind those that are there, so that a
-- replay reads it first, and the native engine takes the step of `LoopState::apply`, or throws.
pub record DepsLaws (d : Deps) : Type 0 where
  pub appended :
      (b : Block) (c c' : Deps.Chain d)
      → Deps.append d b c ≡ some c'
      → Deps.blocks d c' ≡ b ∷ Deps.blocks d c
  pub engine_applies :
      (l : LoopState) (a : LoopAction)
      → (Deps.engine d l a default_limits ≡ none)
        ⊎ (Deps.engine d l a default_limits ≡ some (engine_apply l a default_limits))

-- a payload that a replay passes over
abbrev is_result : Payload → Bool
is_result (tool_result r) = true
is_result _ = false

passed_over :
    (run call : Text) (e : Envelope) (bs : List Block)
    → is_result e.payload ≡ false
    → find_cached run call (task_event e ∷ bs) ≡ find_cached run call bs
unfolding find_cached
passed_over run call e bs h = ground arith

abbrev pub after_call : LoopState
after_call = record default_state { steps = 1; tool_calls = 1 }

pub first_step :
    (tool : Text)
    → apply_fallback_loop_step default_state (tool_call tool) default_limits
      ≡ record { applied = true; reason = none; state = after_call }
unfolding apply_fallback_loop_step
first_step tool = refl

-- On the states of a run the engine and the fallback take the same step.
abbrev pub Agrees : LoopAction → LoopState → Type 0
Agrees a l = engine_apply l a default_limits ≡ apply_fallback_loop_step l a default_limits

pub first-Agrees : (tool : Text) (l : LoopState) → l ≡ default_state → Agrees (tool_call tool) l
unfolding apply_fallback_loop_step engine_apply
first-Agrees tool l e = rw e refl

pub second-Agrees : (summary : Text) (l : LoopState) → l ≡ after_call → Agrees (complete summary) l
unfolding apply_fallback_loop_step engine_apply
second-Agrees summary l e = rw e refl

pub second_step :
    (summary : Text) (l : LoopState)
    → l ≡ after_call
    → (apply_fallback_loop_step l (complete summary) default_limits).applied ≡ true
unfolding apply_fallback_loop_step
second_step summary l e = rw e refl

module _ (d : Deps) (laws : DepsLaws d) where
  open d use {Chain, append, blocks, engine, fresh, clock, skip_chain}

  abbrev pub cached : Text → State d → Option GenerateResult
  cached run s = find_cached run (tool_call_of run) (blocks s.chain)

  -- Logging what is no result leaves what a replay finds, and the rest of the state.
  pub emit_lem :
      (run : Text) (c : Correlation) (p : Payload) (s : State d)
      → is_result p ≡ false
      → (s' : State d) × (emit d c p s ≡ (ok tt, s'))
        × (cached run s' ≡ cached run s)
        × (s'.loop_state ≡ s.loop_state)
        × (s'.provider_calls ≡ s.provider_calls)
  unfolding emit
  emit_lem run c p s h =
      let s' = (emit d c p s).1 in
      let e : Envelope = record {
        event_id = fresh s.draws;
        timestamp = clock s.draws;
        correlation = c;
        payload = p;
      } in
      let facts = passed_over run (tool_call_of run) e (blocks s.chain) h in
      let read = λ (c' : Chain) (added : append (task_event e) s.chain ≡ some c').
        laws.appended (task_event e) s.chain c' added in
      (
        s',
        ground arith,
        elim (Option-cases (append (task_event e) s.chain)) [
          | inl failed ↦ ground arith
          | inr (c', added) ↦ ground (arith, facts, read c' added)
        ],
        ground arith,
        ground arith,
      )

  pub step_lem :
      (a : LoopAction) (s : State d)
      → Agrees a s.loop_state
      → (s' : State d) × (apply_loop_step d a s
          ≡ (ok (apply_fallback_loop_step s.loop_state a default_limits), s'))
        × (s'.loop_state ≡ (apply_fallback_loop_step s.loop_state a default_limits).state)
        × (s'.chain ≡ s.chain)
        × (s'.provider_calls ≡ s.provider_calls)
  unfolding apply_loop_step
  step_lem a s agrees =
      let s' = (apply_loop_step d a s).1 in
      (
        s',
        ground (arith, agrees, laws.engine_applies s.loop_state a),
        ground (arith, agrees, laws.engine_applies s.loop_state a),
        ground (arith, agrees, laws.engine_applies s.loop_state a),
        ground (arith, agrees, laws.engine_applies s.loop_state a),
      )

  -- With a result at hand the body returns it, and calls no provider.
  attempt_cached :
      (c : Correlation) (run source : Text) (dedupe : Bool) (provider : Result Text GenerateResult)
      (r : GenerateResult) (s : State d)
      → s.loop_state ≡ after_call
      → (s' : State d) × (guarded d c (tool_call_of run) source dedupe provider (some r) s
          ≡ (ok r, s'))
        × (cached run s' ≡ cached run s)
        × (s'.provider_calls ≡ s.provider_calls)
  unfolding guarded attempt obtain rescue
  attempt_cached c run source dedupe provider r s fresh_loop =
      let (s1, e1, l1, c1, p1) =
        step_lem (complete (take 120 r.output)) s (second-Agrees _ s.loop_state fresh_loop) in
      let (s2, e2, k2, l2, p2) =
        emit_lem run c (completed source r.provider_used r.model_used dedupe) s1 refl in
      let done = second_step (take 120 r.output) s.loop_state fresh_loop in
      (s2, ground (arith, e1, e2, done), ground (arith, k2, c1), ground (arith, p1, p2))

  pub run_cached :
      (req : Request) (task run : Text) (provider : Result Text GenerateResult) (r : GenerateResult)
      (s : State d)
      → dedupes req ≡ true
      → cached run s ≡ some r
      → (s' : State d) × (run_task d req task run provider s ≡ (ok r, s'))
        × (cached run s' ≡ some r)
        × (s'.provider_calls ≡ s.provider_calls)
  unfolding run_task
  run_cached req task run provider r s on known =
      let c = base_correlation d req task run in
      let source = or_else req.source (codes "orchestration.generate") in
      let s0 : State d = record s { loop_state = default_state } in
      let (s1, e1, k1, l1, p1) = emit_lem run c (created source req.input_digest true) s0 refl in
      let (s2, e2, l2, c2, p2) =
        step_lem (tool_call provider_tool) s1 (first-Agrees _ s1.loop_state l1) in
      let (s3, e3, k3, l3, p3) =
        emit_lem run (with_call d c (tool_call_of run)) (tool_called req.input_digest) s2 refl in
      let (s4, e4, k4, l4, p4) =
        emit_lem run (with_call d c (tool_call_of run)) (tool_result_reused r.provider_used) s3
          refl in
      let (s5, e5, k5, p5) =
        attempt_cached c run source true provider r s4
          (ground (arith, first_step provider_tool, l1, l2, l3, l4)) in
      let applied : (apply_fallback_loop_step s1.loop_state (tool_call provider_tool)
            default_limits).applied
          ≡ true =
        ground (arith, first_step provider_tool, l1) in
      let found3 : cached run s3 ≡ some r = ground (arith, k1, c2, k3, known) in
      (
        s5,
        rw on (rw e1 (rw e2 (rw applied (rw e3 (rw found3 (rw e4 e5)))))),
        ground (arith, k4, k5, found3),
        ground (arith, p1, p2, p3, p4, p5),
      )
