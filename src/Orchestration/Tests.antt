-- ===== src/Orchestration/Tests.antt =====
-- Runs of the orchestration service with a provider that is down and one that answers.
use memphis_v.Base.{
  ◌+◌, ◌≤◌, ◌<◌, ◌≡◌, refl, codes, true, false, none, some, [], ◌∷◌, length, Result, ok, err,
}
use memphis_v.Loop.Executor.{ProviderName, GenerateResult, ollama, local_fallback}
use memphis_v.Orchestration
use memphis_v.Orchestration.{
  Env, State, Strategy, by_default, generate, app_error, provider_timeout, resolve_provider,
  try_generate, pick_auto_provider,
}
use memphis_v.Orchestration.Policy.{has_provider, same_provider, is_in_cooldown, until}
use memphis_v.Orchestration.Each.{attempts_at}
use memphis_v.Orchestration.Attempts.{generate_bounded}
use memphis_v.Orchestration.Outcome.{Delivered, generate_delivers, cooldown_bypassed}

abbrev answer : GenerateResult
answer = record {
  id = codes "gen1";
  provider_used = local_fallback;
  model_used = none;
  output = codes "done";
  usage = none;
  timing_ms = 12;
  trace = none;
}

abbrev replies : ProviderName → Result Orchestration.Failure GenerateResult
replies local_fallback = ok answer
replies _ = err (app_error provider_timeout (codes "timeout"))

abbrev env : Env
env = record {
  providers = ollama ∷ local_fallback ∷ [];
  default_provider = ollama;
  fallback_provider = some local_fallback;
  max_retries = 2;
  cooldown_ms = 30000;
  safe_mode = false;
  answer = λ n p. replies p;
  clock = λ n. n;
  jitter = λ n. 0;
}

abbrev idle : State
idle = record { cooldowns = []; stats = []; calls = 0; ticks = 0; slept = []; trace = [] }

generate_bounded_example :
    ((q : ProviderName) → attempts_at q (generate env none by_default idle).1.trace ≤ 3)
    × ((generate env none by_default idle).1.calls ≤ 6)
    × (0 + length (generate env none by_default idle).1.trace
        ≡ (generate env none by_default idle).1.calls)
generate_bounded_example = generate_bounded env none by_default idle refl

-- three attempts at the provider that is down, and one at the fallback
four_calls :
    ((generate env none by_default idle).0 ≡ ok answer)
    × ((generate env none by_default idle).1.calls ≡ 4)
unfolding generate resolve_provider has_provider same_provider pick_auto_provider is_in_cooldown
    until try_generate
four_calls = (refl, refl)

generate_delivers_example : Delivered env answer (generate env none by_default idle).1
generate_delivers_example = generate_delivers env none by_default idle answer refl four_calls.0

abbrev cooling : State
cooling = record idle { cooldowns = (local_fallback, 30000) ∷ [] }

fallback_configured : has_provider local_fallback env.providers ≡ true
unfolding has_provider same_provider
fallback_configured = refl

fallback_cooling : is_in_cooldown local_fallback 0 cooling.cooldowns ≡ true
unfolding is_in_cooldown until same_provider
fallback_cooling = refl

cooldown_bypassed_example : 0 < (generate env (some local_fallback) by_default cooling).1.calls
cooldown_bypassed_example =
    cooldown_bypassed env local_fallback by_default cooling refl refl fallback_configured
      fallback_cooling
