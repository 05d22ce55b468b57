-- ===== src/Loop/Tests.antt =====
-- Runs of the loop steps and of the task executor.
use memphis_v.Base.{
  ◌+◌, ◌≤◌, ◌≡◌, ◌≢◌, ◌⊎◌, refl, sym, ap, codes, true, false, Option, none, some, List, [], ◌∷◌,
  ◌++◌, ok, err, arith,
}
use memphis_v.Base.Int.{pos}
use memphis_v.Loop.{
  LoopState, Limits, LoopAction, tool_call, wait, halted, default_limits, default_state,
  apply_fallback_loop_step, apply_loop_step_ts, engine_apply,
}
use memphis_v.Loop.Agreement.{ts-engine, fallback-ts}
use memphis_v.Loop.Bounds.{
  final, applied_weight, each, calls, waits, failures, run_within_limits, run_halts,
}
use memphis_v.Loop.Executor.{
  Deps, State, Block, GenerateResult, Request, local_fallback, execute, find_cached, tool_call_of,
  dedupes,
}
use memphis_v.Loop.Executor.Cached.{DepsLaws}
use memphis_v.Loop.Executor.Replay.{replay_once}
use memphis_v.Base.{inr}

ts-engine_example :
    apply_loop_step_ts default_state (wait (pos 250)) none
    ≡ engine_apply default_state (wait (pos 250)) default_limits
ts-engine_example =
    ts-engine default_state (wait (pos 250)) none 0 (omega arith) (omega arith) (omega arith) refl
      (250, refl, omega arith) (λ e. absurd (cc))

abbrev stopped : LoopState
stopped = record default_state { steps = 3; completed = true }

fallback-ts_example :
    apply_fallback_loop_step stopped (tool_call (codes "ls")) default_limits
    ≡ record (apply_loop_step_ts stopped (tool_call (codes "ls")) (some default_limits)) {
      state = record stopped { steps = 4 };
    }
fallback-ts_example = fallback-ts stopped (tool_call (codes "ls")) default_limits 0 refl tt

abbrev narrow : Limits
narrow = record { max_steps = 2; max_tool_calls = 1; max_wait_ms = 100; max_errors = 1 }

abbrev busy : List LoopAction
busy = tool_call (codes "ls") ∷ wait (pos 60) ∷ wait (pos 60) ∷ []

run_within_limits_example :
    (applied_weight each narrow default_state busy ≤ 2)
    × (applied_weight calls narrow default_state busy ≤ 1)
    × (applied_weight waits narrow default_state busy ≤ 100)
    × (applied_weight failures narrow default_state busy ≤ 1)
run_within_limits_example = run_within_limits narrow busy

run_halts_example :
    (halted (final narrow default_state busy) ≡ true)
    × (applied_weight each narrow (final narrow default_state busy) busy ≡ 0)
run_halts_example = run_halts narrow busy busy each (omega arith)

abbrev deps : Deps
deps = record {
  Chain = List Block;
  append = λ b c. some (b ∷ c);
  blocks = λ c. c;
  engine = λ l a lim. some (engine_apply l a lim);
  fresh = λ n. codes "id" ++ n ∷ [];
  clock = λ n. n;
  skip_chain = false;
}

abbrev or_empty : Option (List Block) → List Block
or_empty none = []
or_empty (some c) = c

deps-DepsLaws : DepsLaws deps
deps-DepsLaws = record {
  appended = λ b c c' e. sym (ap or_empty e);
  engine_applies = λ l a. inr refl;
}

abbrev answer : GenerateResult
answer = record {
  id = codes "gen1";
  provider_used = local_fallback;
  model_used = none;
  output = codes "done";
  usage = none;
  timing_ms = 12;
  trace = none;
}

abbrev request : Request
request = record {
  input_digest = codes "d1";
  task_id = none;
  run_id = some (codes "run7");
  source = none;
  agent_id = none;
  enable_replay_dedupe = none;
}

abbrev idle : State deps
idle = record {
  chain = [];
  engine_up = true;
  draws = 0;
  loop_state = default_state;
  provider_calls = 0;
}

request-dedupes : dedupes request ≡ true
unfolding dedupes
request-dedupes = refl

gen1_named : answer.id ≢ []
gen1_named e = ground arith

replay_once_example :
    (kept : GenerateResult) × (s' s'' : State deps) × (execute deps request (ok answer) idle
      ≡ (ok kept, s'))
    × (execute deps request (err (codes "down")) s' ≡ (ok kept, s''))
    × (((find_cached (codes "run7") (tool_call_of (codes "run7")) [] ≡ some kept)
          × (s'.provider_calls ≡ 0))
        ⊎ ((kept ≡ answer) × (s'.provider_calls ≡ 0 + 1)))
    × (s''.provider_calls ≡ s'.provider_calls)
replay_once_example =
    replay_once deps deps-DepsLaws refl (λ b c. (b ∷ c, refl)) request request (codes "run7") answer
      (err (codes "down")) idle refl refl request-dedupes request-dedupes gen1_named
