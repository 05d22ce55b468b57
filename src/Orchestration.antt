-- ===== src/Orchestration.antt =====
-- `OrchestrationService` and `ProviderPolicy` (modules/orchestration): the choice of a provider, the
-- retries and the fallback. Each reading of the clock is the next one that `Env.clock` gives.
pub mod Policy
pub mod Each
pub mod Attempts
pub mod Outcome
mod Tests
use memphis_v.Base.{
  ℕ, zero, suc, ◌+◌, ◌-◌, ◌*◌, ◌/◌, ◌^◌, min, Text, codes, Bool, true, false, not, ◌||◌, Option,
  none, some, List, [], ◌∷◌, ◌++◌, ltb, ◌==◌, if◌then◌else◌, Result, ok, err,
}
use memphis_v.Loop.Executor.{
  ProviderName, shared_llm, decentralized_llm, local_fallback, ollama, GenerateResult,
}
use memphis_v.Orchestration.Policy.{
  Cooldowns, same_provider, has_provider, provider_text, is_in_cooldown, mark_failure, mark_success,
}

pub data ErrorCode : Type 0 where
  validation_error provider_unavailable provider_timeout provider_rate_limit overload config_error :
      ErrorCode
  internal_error missing_env missing_ollama invalid_api_key network_error permission_denied :
      ErrorCode

-- What can be thrown: an `AppError`, another `Error`, or a value that is no `Error`.
pub data Failure : Type 0 where
  app_error : ErrorCode → Text → Failure
  plain_error thrown_value : Text → Failure

abbrev retryable_code : ErrorCode → Bool
retryable_code provider_timeout = true
retryable_code provider_unavailable = true
retryable_code provider_rate_limit = true
retryable_code _ = false

abbrev pub is_retryable : Failure → Bool
is_retryable (app_error code message) = retryable_code code
is_retryable _ = false

abbrev code_of : Failure → ErrorCode
code_of (app_error code message) = code
code_of _ = internal_error

abbrev message_of : Failure → Text
message_of (app_error code message) = message
message_of (plain_error message) = message
message_of (thrown_value text) = text

-- what is thrown after the last attempt
abbrev pub rethrown : Failure → Failure
rethrown (thrown_value text) = app_error internal_error (codes "Unknown generate error")
rethrown f = f

pub data Strategy : Type 0 where
  by_default latency_aware : Strategy

pub record Attempt : Type 0 where
  pub attempt : ℕ
  pub provider : ProviderName
  pub via_fallback : Bool
  pub latency_ms : ℕ
  pub error : Option (ErrorCode × Text)

-- the counters of `metrics` for a provider that `snapshot` reads
pub record Stat : Type 0 where
  pub provider : ProviderName
  pub total_latency_ms : ℕ
  pub calls : ℕ

-- The configuration, what the providers answer to their calls in order, the clock and the random
-- part of the waits.
pub record Env : Type 0 where
  pub providers : List ProviderName
  pub default_provider : ProviderName
  pub fallback_provider : Option ProviderName
  pub max_retries : ℕ
  pub cooldown_ms : ℕ
  pub safe_mode : Bool
  pub answer : ℕ → ProviderName → Result Failure GenerateResult
  pub clock : ℕ → ℕ
  pub jitter : ℕ → ℕ

-- `calls` counts the calls of providers, `ticks` the readings of the clock; `trace` is the list that
-- `generate` makes.
pub record State : Type 0 where
  pub cooldowns : Cooldowns
  pub stats : List Stat
  pub calls : ℕ
  pub ticks : ℕ
  pub slept : List ℕ
  pub trace : List Attempt

unfoldable pub record_call : ProviderName → ℕ → List Stat → List Stat
record_call p latency [] = record { provider = p; total_latency_ms = latency; calls = 1 } ∷ []
record_call p latency (x ∷ xs) =
    let rest = record_call p latency xs in
    if same_provider x.provider p
    then record x { total_latency_ms = x.total_latency_ms + latency; calls = suc x.calls } ∷ xs
    else x ∷ rest

-- `Math.round(totalLatencyMs / calls)`, and the largest safe integer for a provider without calls
unfoldable pub avg_latency_ms : ProviderName → List Stat → ℕ
avg_latency_ms p [] = 9007199254740991
avg_latency_ms p (x ∷ xs) =
    let rest = avg_latency_ms p xs in
    if same_provider x.provider p then (2 * x.total_latency_ms + x.calls) / (2 * x.calls) else rest

unfoldable pub available : Env → List ProviderName → State → List ProviderName × State
available w [] s = ([], s)
available w (p ∷ ps) s =
    let more = available w ps (record s { ticks = suc s.ticks }) in
    if is_in_cooldown p (w.clock s.ticks) s.cooldowns then more else (p ∷ more.0, more.1)

-- the first of the list after a stable sort by the average latency
abbrev pub fastest : List Stat → ProviderName → List ProviderName → ProviderName
fastest stats p [] = p
fastest stats p (q ∷ qs) =
    fastest stats (if ltb (avg_latency_ms q stats) (avg_latency_ms p stats) then q else p) qs

abbrev pub chosen : Env → List ProviderName × State → ProviderName × State
chosen w ([], s) = (w.default_provider, s)
chosen w (p ∷ ps, s) = (fastest s.stats p ps, s)

unfoldable pub pick_auto_provider : Env → Strategy → State → ProviderName × State
pick_auto_provider w by_default s = (w.default_provider, s)
pick_auto_provider w latency_aware s = chosen w (available w w.providers s)

abbrev pub requested_or_auto : Env → Option ProviderName → Strategy → State → ProviderName × State
requested_or_auto w (some p) strategy s = (p, s)
requested_or_auto w none strategy s = pick_auto_provider w strategy s

abbrev pub admit : Env → ProviderName × State → Result Failure ProviderName × State
admit w (p, s) =
    if not (has_provider p w.providers)
    then (
      err (app_error provider_unavailable (codes "Provider not configured: " ++ provider_text p)),
      s,
    )
    else if is_in_cooldown p (w.clock s.ticks) s.cooldowns
    then (
      err (app_error provider_unavailable (codes "Provider in cooldown: " ++ provider_text p)),
      record s { ticks = suc (suc s.ticks) },
    )
    else (ok p, record s { ticks = suc s.ticks })

unfoldable pub resolve_provider :
    Env → Option ProviderName → Strategy → State → Result Failure ProviderName × State
resolve_provider w requested strategy s = admit w (requested_or_auto w requested strategy s)

abbrev latency : Env → State → ℕ
latency w s = w.clock (suc s.ticks) - w.clock s.ticks

abbrev pub succeeded : Env → ProviderName → Bool → ℕ → State → State
succeeded w p via k s = record s {
  cooldowns = mark_success p s.cooldowns;
  stats = record_call p (latency w s) s.stats;
  calls = suc s.calls;
  ticks = suc (suc s.ticks);
  trace =
      s.trace
      ++ record {
        attempt = suc k;
        provider = p;
        via_fallback = via;
        latency_ms = latency w s;
        error = none;
      }
        ∷ [];
}

abbrev pub failed : Env → ProviderName → Bool → ℕ → Failure → State → State
failed w p via k f s = record s {
  cooldowns = mark_failure w.cooldown_ms p (w.clock (suc (suc s.ticks))) s.cooldowns;
  stats = record_call p (latency w s) s.stats;
  calls = suc s.calls;
  ticks = suc (suc (suc s.ticks));
  trace =
      s.trace
      ++ record {
        attempt = suc k;
        provider = p;
        via_fallback = via;
        latency_ms = latency w s;
        error = some (code_of f, message_of f);
      }
        ∷ [];
}

abbrev pub backoff_ms : Env → ℕ → State → ℕ
backoff_ms w k s = min (300 * 2 ^ k + w.jitter s.calls) 2000

abbrev pub slept_for : ℕ → State → State
slept_for ms s = record s { slept = s.slept ++ ms ∷ [] }

-- The loop of `tryGenerateWithRetry` at attempt `k`; `left` is `maxRetries - k`.
unfoldable pub try_generate :
    Env → ProviderName → Bool → ℕ → ℕ → State → Result Failure GenerateResult × State
try_generate w p via zero k s = elim (w.answer s.calls p) [
  | ok out ↦ (ok out, succeeded w p via k s)
  | err f ↦ (err (rethrown f), failed w p via k f s)
]
try_generate w p via (suc left) k s = elim (w.answer s.calls p) [
  | ok out ↦ (ok out, succeeded w p via k s)
  | err f ↦ elim (is_retryable f) [
    | false ↦ (err (rethrown f), failed w p via k f s)
    | true ↦
        try_generate w p via left (suc k)
          (slept_for (backoff_ms w k (failed w p via k f s)) (failed w p via k f s))
  ]
]

abbrev pub is_primary : Option ProviderName → ProviderName → Bool
is_primary none p = false
is_primary (some q) p = same_provider p q

-- the `catch` block of `generate`
abbrev pub fall_back :
    Env
    → Option ProviderName
    → Failure
    → Option ProviderName
    → State
    → Result Failure GenerateResult × State
fall_back w primary f none s = (err f, s)
fall_back w primary f (some p) s =
    if not (has_provider p w.providers)
    then (err f, s)
    else if is_primary primary p
    then (err f, s)
    else try_generate w p true w.max_retries 0 s

abbrev pub caught :
    Env
    → Option ProviderName
    → Result Failure GenerateResult × State
    → Result Failure GenerateResult × State
caught w primary (ok out, s) = (ok out, s)
caught w primary (err f, s) = fall_back w primary f w.fallback_provider s

abbrev pub with_primary :
    Env → Result Failure ProviderName × State → Result Failure GenerateResult × State
with_primary w (err f, s) = fall_back w none f w.fallback_provider s
with_primary w (ok p, s) = caught w (some p) (try_generate w p false w.max_retries 0 s)

-- `generate`: what it returns, and the state with the trace that it attaches
unfoldable pub generate :
    Env → Option ProviderName → Strategy → State → Result Failure GenerateResult × State
generate w requested strategy s =
    if w.safe_mode
    then (
      err (app_error permission_denied (codes "forbidden in safe mode: generation is disabled")),
      s,
    )
    else with_primary w (resolve_provider w requested strategy (record s { trace = [] }))
