-- ===== src/Loop/Executor.antt =====
-- `TaskExecutor` of modules/orchestration/task-executor.ts: one provider call under the loop, logged
-- on a chain, and reused on a replay.
pub mod Cached
pub mod Replay
use memphis_v.Base.{
  ℕ, suc, ◌+◌, Text, codes, text_eq, Bool, true, false, not, Option, none, some, List, [], ◌∷◌,
  ◌++◌, ◌&&◌, take, if◌then◌else◌, Result, ok, err, Exec, ◌>>=◌, ◌>>◌, pure, throw, gets, modify,
}
use memphis_v.Loop.{
  LoopState, LoopAction, Limits, StepResult, Reason, reason_text, tool_call, complete, error,
  default_limits, default_state, apply_fallback_loop_step, is_truthy,
}

pub data ProviderName : Type 0 where
  shared_llm decentralized_llm local_fallback ollama : ProviderName

-- `GenerateResult`; `usage` and `trace` are passed through as the texts of their JSON.
pub record GenerateResult : Type 0 where
  pub id : Text
  pub provider_used : ProviderName
  pub model_used : Option Text
  pub output : Text
  pub usage : Option Text
  pub timing_ms : ℕ
  pub trace : Option Text

-- `TaskEventCorrelation`
pub record Correlation : Type 0 where
  pub task_id : Text
  pub run_id : Text
  pub agent_id : Text
  pub tool_call_id : Option Text

pub data Phase : Type 0 where
  at_tool_call at_complete : Phase

-- What `execute` throws.
pub data Error : Type 0 where
  loop_rejected : Phase → Option Reason → Error
  provider_failed : Text → Error

abbrev phase_text : Phase → Text
phase_text at_tool_call = codes "tool_call"
phase_text at_complete = codes "complete"

-- `reason ?? 'unknown'`
abbrev or_unknown : Option Reason → Text
or_unknown none = codes "unknown"
or_unknown (some r) = reason_text r

-- the text of an error
unfoldable message : Error → Text
message (loop_rejected phase reason) =
    codes "task loop rejected " ++ (phase_text phase ++ (codes ": " ++ or_unknown reason))
message (provider_failed m) = m

-- The events of a task, with their payloads. The constructors go by the event names behind `task.`.
pub data Payload : Type 0 where
  created : Text → Text → Bool → Payload
  loop_step_rejected : Phase → Option Reason → Payload
  tool_called : Text → Payload
  tool_result_reused : ProviderName → Payload
  tool_result : GenerateResult → Payload
  completed : Text → ProviderName → Option Text → Bool → Payload
  failed : Text → LoopState → Payload

-- `TaskEventEnvelope`
pub record Envelope : Type 0 where
  pub event_id : Text
  pub timestamp : ℕ
  pub correlation : Correlation
  pub payload : Payload

-- What a file of the chain holds, as a replay reads it.
pub data Block : Type 0 where
  unreadable other : Block
  task_event : Envelope → Block

-- `TaskExecutionRequest`; the digest of the input is computed outside.
pub record Request : Type 0 where
  pub input_digest : Text
  pub task_id : Option Text
  pub run_id : Option Text
  pub source : Option Text
  pub agent_id : Option Text
  pub enable_replay_dedupe : Option Bool

-- What the executor is given: the chain (`appendBlock` may throw, and a replay lists the blocks by
-- falling file name), the native loop engine (`none` where it throws or is not there), the ids, the
-- clock, and the flag that switches the chain off.
pub record Deps : Type 1 where
  pub Chain : Type 0
  pub append : Block → Chain → Option Chain
  pub blocks : Chain → List Block
  pub engine : LoopState → LoopAction → Limits → Option StepResult
  pub fresh : ℕ → Text
  pub clock : ℕ → ℕ
  pub skip_chain : Bool

abbrev or_else {ℓ} : {A : Type ℓ} → Option A → A → A
or_else none d = d
or_else (some a) d = a

unfoldable pub dedupes : Request → Bool
dedupes req = or_else req.enable_replay_dedupe (is_truthy req.run_id)

unfoldable pub provider_tool : Text
provider_tool = codes "provider.generate"

unfoldable pub tool_call_of : Text → Text
tool_call_of run_id = codes "tool:" ++ (provider_tool ++ (codes ":" ++ run_id))

-- `asGenerateResult` on the JSON of a result: of the fields that it tests, the type leaves the id open.
unfoldable pub as_generate_result : GenerateResult → Option GenerateResult
as_generate_result r = elim r.id [ [] ↦ none | _ ↦ some r ]

abbrev same_id : Option Text → Text → Bool
same_id none id = false
same_id (some x) id = text_eq x id

cached_in : Text → Text → Block → Option GenerateResult
unfolding as_generate_result
cached_in run_id call_id unreadable = none
cached_in run_id call_id other = none
cached_in run_id call_id (task_event e) = elim e.payload [
  | tool_result r ↦
      if text_eq e.correlation.run_id run_id && same_id e.correlation.tool_call_id call_id
      then as_generate_result r
      else none
  | _ ↦ none
]

-- the loop of `findCachedResult`
unfoldable pub find_cached : Text → Text → List Block → Option GenerateResult
unfolding cached_in
find_cached run_id call_id [] = none
find_cached run_id call_id (b ∷ bs) =
    let rest = find_cached run_id call_id bs in
    elim (cached_in run_id call_id b) [ some r ↦ some r | none ↦ rest ]

module _ (d : Deps) where
  open d use {Chain, append, blocks, engine, fresh, clock, skip_chain}

  -- The executor's fields and local variables: the chain, whether the engine is still used, the ids
  -- drawn, the loop's state, and the calls of the provider made.
  pub record State : Type 0 where
    pub chain : Chain
    pub engine_up : Bool
    pub draws : ℕ
    pub loop_state : LoopState
    pub provider_calls : ℕ

  abbrev M : Type 0 → Type 0
  M A = Exec State Error A

  -- `idFactory()`
  draw : M Text
  draw s = (ok (fresh s.draws), record s { draws = s.draws + 1 })

  abbrev given_or_drawn : Option Text → Text → M Text
  given_or_drawn none prefix = do id ← draw; pure (prefix ++ id)
  given_or_drawn (some id) prefix = pure id

  abbrev kept : Chain → Option Chain → Chain
  kept c none = c
  kept c (some c') = c'

  -- a failed append is put on the audit log and forgotten
  logged : Correlation → Payload → State → State
  logged correlation payload s =
      let envelope : Envelope = record {
        event_id = fresh s.draws;
        timestamp = clock s.draws;
        correlation = correlation;
        payload = payload;
      } in
      record s { chain = kept s.chain (append (task_event envelope) s.chain); draws = s.draws + 1 }

  pub emit : Correlation → Payload → M (Unit {0})
  unfolding logged
  emit correlation payload = modify (λ s. if skip_chain then s else logged correlation payload s)

  -- A native engine that throws is not asked again.
  abbrev stepped : LoopState → LoopAction → Option StepResult → State → StepResult × State
  stepped l a none s = (apply_fallback_loop_step l a default_limits, record s { engine_up = false })
  stepped l a (some r) s = (r, s)

  abbrev loop_step : LoopAction → State → StepResult × State
  loop_step a s =
      if s.engine_up
      then stepped s.loop_state a (engine s.loop_state a default_limits) s
      else (apply_fallback_loop_step s.loop_state a default_limits, s)

  abbrev stored : StepResult × State → Result Error StepResult × State
  stored (r, s) = (ok r, record s { loop_state = r.state })

  -- `applyLoopStep`, and the assignment of the state that it returns
  pub apply_loop_step : LoopAction → M StepResult
  apply_loop_step a s = stored (loop_step a s)

  provider_call : Result Text GenerateResult → M GenerateResult
  provider_call (ok r) s = (ok r, record s { provider_calls = s.provider_calls + 1 })
  provider_call (err m) s =
      (err (provider_failed m), record s { provider_calls = s.provider_calls + 1 })

  abbrev pub with_call : Correlation → Text → Correlation
  with_call c id = record c { tool_call_id = some id }

  reuse : Correlation → Text → Option GenerateResult → M (Unit {0})
  reuse c call_id none = pure tt
  reuse c call_id (some r) = emit (with_call c call_id) (tool_result_reused r.provider_used)

  pub obtain :
      Correlation → Text → Result Text GenerateResult → Option GenerateResult → M GenerateResult
  obtain c call_id provider (some r) = pure r
  obtain c call_id provider none = do
    r ← provider_call provider
    emit (with_call c call_id) (tool_result r)
    pure r

  reject : Correlation → Phase → Option Reason → M GenerateResult
  reject c phase reason = do
    emit c (loop_step_rejected phase reason)
    throw (loop_rejected phase reason)

  -- the body of the `try`
  pub attempt :
      Correlation
      → Text
      → Text
      → Bool
      → Result Text GenerateResult
      → Option GenerateResult
      → M GenerateResult
  attempt c call_id source dedupe provider cached = do
    r ← obtain c call_id provider cached
    step ← apply_loop_step (complete (take 120 r.output))
    if not step.applied
        then reject c at_complete step.reason
        else do emit c (completed source r.provider_used r.model_used dedupe); pure r

  -- its `catch`
  pub rescue :
      Correlation → Result Error GenerateResult × State → Result Error GenerateResult × State
  rescue c (ok r, s) = (ok r, s)
  rescue c (err e, s) =
      (do
        step ← apply_loop_step (error false (message e))
        emit c (failed (message e) step.state)
        throw e)
        s

  abbrev look_up : Bool → Text → Text → M (Option GenerateResult)
  look_up false run_id call_id = pure none
  look_up true run_id call_id = gets (λ s. find_cached run_id call_id (blocks s.chain))

  start : M (Unit {0})
  start = modify (λ s. record s { loop_state = default_state })

  pub guarded :
      Correlation
      → Text
      → Text
      → Bool
      → Result Text GenerateResult
      → Option GenerateResult
      → M GenerateResult
  guarded c call_id source dedupe provider cached s =
      rescue c (attempt c call_id source dedupe provider cached s)

  abbrev base_correlation : Request → Text → Text → Correlation
  base_correlation req task_id run_id = record {
    task_id = task_id;
    run_id = run_id;
    agent_id = or_else req.agent_id (codes "orchestrator");
    tool_call_id = none;
  }

  -- `execute` from its two ids on
  pub run_task : Request → Text → Text → Result Text GenerateResult → M GenerateResult
  unfolding reuse start
  run_task req task_id run_id provider = do
    let c = base_correlation req task_id run_id
    let source = or_else req.source (codes "orchestration.generate")
    let call_id = tool_call_of run_id
    let dedupe = dedupes req
    start
    emit c (created source req.input_digest dedupe)
    step ← apply_loop_step (tool_call provider_tool)
    if not step.applied then reject c at_tool_call step.reason else do
      emit (with_call c call_id) (tool_called req.input_digest)
      cached ← look_up dedupe run_id call_id
      reuse c call_id cached
      guarded c call_id source dedupe provider cached

  pub execute : Request → Result Text GenerateResult → M GenerateResult
  unfolding draw
  execute req provider = do
    task_id ← given_or_drawn req.task_id (codes "task_")
    run_id ← given_or_drawn req.run_id (codes "run_")
    run_task req task_id run_id provider
