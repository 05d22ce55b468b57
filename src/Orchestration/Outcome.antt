-- ===== src/Orchestration/Outcome.antt =====
-- What `generate` returns and leaves behind (modules/orchestration/service.ts).
use memphis_v.Base.{
  ℕ, zero, suc, ◌<◌, ◌≡◌, inl, inr, refl, ◌∙◌, Bool, true, false, Option, none, some, List, [], ◌∷◌,
  ◌++◌, Result, ok, err, Result-cases, Bool-cases, arith,
}
use memphis_v.Loop.Executor.{ProviderName, GenerateResult}
use memphis_v.Orchestration.Policy.{
  same_provider_refl, has_provider, is_in_cooldown, mark_success, until-mark_success,
}
use memphis_v.Orchestration.{
  Env, State, Attempt, Failure, Strategy, is_retryable, succeeded, failed, slept_for, backoff_ms,
  try_generate, fall_back, caught, with_primary, generate, resolve_provider, admit, is_primary,
  requested_or_auto,
}
use memphis_v.Orchestration.Attempts.{try_generate-Made, generate-on}

-- A configured provider gave the result in the last call, which is the last attempt of the trace and
-- was no failure, and the provider is not in cooldown at any time.
pub record Delivered (w : Env) (out : GenerateResult) (s : State) : Type 0 where
  pub provider : ProviderName
  pub configured : has_provider provider w.providers ≡ true
  pub answered : (n : ℕ) × (suc n ≡ s.calls) × (w.answer n provider ≡ ok out)
  pub last_attempt :
      (earlier : List Attempt) × (a : Attempt) × (s.trace ≡ earlier ++ a ∷ [])
      × (a.provider ≡ provider)
      × (a.error ≡ none)
  pub ready : (now : ℕ) → is_in_cooldown provider now s.cooldowns ≡ false

never_cooling :
    (p : ProviderName) (now : ℕ) (s : State)
    → is_in_cooldown p now (mark_success p s.cooldowns) ≡ false
unfolding is_in_cooldown
never_cooling p now s = ground (arith, until-mark_success p p s.cooldowns, same_provider_refl p)

succeeded-Delivered :
    (w : Env) (p : ProviderName) (via : Bool) (k : ℕ) (s : State) (out : GenerateResult)
    → has_provider p w.providers ≡ true
    → w.answer s.calls p ≡ ok out
    → Delivered w out (succeeded w p via k s)
succeeded-Delivered w p via k s out there e = record {
  provider = p;
  configured = there;
  answered = (s.calls, refl, e);
  last_attempt = (s.trace, _, refl, refl, refl);
  ready = λ now. never_cooling p now s;
}

try_generate-Delivered :
    (w : Env) (p : ProviderName) (via : Bool) (left k : ℕ) (s : State) (out : GenerateResult)
    → has_provider p w.providers ≡ true
    → (try_generate w p via left k s).0 ≡ ok out
    → Delivered w out (try_generate w p via left k s).1
unfolding try_generate
try_generate-Delivered w p via zero k s out there = elim (Result-cases (w.answer s.calls p)) [
  | inl (out', e) ↦ rw (e, try_generate) (λ h. succeeded-Delivered w p via k s out there (e ∙ h))
  | inr (f, e) ↦ rw (e, try_generate) (λ h. absurd (ground arith))
]
try_generate-Delivered w p via (suc left) k s out there = elim (Result-cases (w.answer s.calls p)) [
  | inl (out', e) ↦ rw (e, try_generate) (λ h. succeeded-Delivered w p via k s out there (e ∙ h))
  | inr (f, e) ↦ elim (Bool-cases (is_retryable f)) [
    | inl again ↦
        let s' = slept_for (backoff_ms w k (failed w p via k f s)) (failed w p via k f s) in
        rw (e, again, try_generate) (try_generate-Delivered w p via left (suc k) s' out there)
    | inr over ↦ rw (e, over, try_generate) (λ h. absurd (ground arith))
  ]
]

fall_back-Delivered :
    (w : Env) (primary : Option ProviderName) (f : Failure) (o : Option ProviderName) (s : State)
    (out : GenerateResult)
    → (fall_back w primary f o s).0 ≡ ok out
    → Delivered w out (fall_back w primary f o s).1
fall_back-Delivered w primary f none s out = λ h. absurd (ground arith)
fall_back-Delivered w primary f (some p) s out = elim (Bool-cases (has_provider p w.providers)) [
  | inl there ↦ elim (Bool-cases (is_primary primary p)) [
    | inl same ↦ rw there (rw same (λ h. absurd (ground arith)))
    | inr other ↦ rw there (rw other (try_generate-Delivered w p true w.max_retries 0 s out there))
  ]
  | inr absent ↦ rw absent (λ h. absurd (ground arith))
]

caught-Delivered :
    (w : Env) (p : ProviderName) (x : Result Failure GenerateResult × State) (out : GenerateResult)
    → (x.0 ≡ ok out → Delivered w out x.1)
    → (caught w (some p) x).0 ≡ ok out
    → Delivered w out (caught w (some p) x).1
caught-Delivered w p (ok out', s) out k h = k h
caught-Delivered w p (err f, s) out k h =
    fall_back-Delivered w (some p) f w.fallback_provider s out h

admit-configured :
    (w : Env) (x : ProviderName × State) (p : ProviderName)
    → (admit w x).0 ≡ ok p
    → has_provider p w.providers ≡ true
admit-configured w (q, s) p = ground arith

with_primary-Delivered :
    (w : Env) (x : Result Failure ProviderName × State) (out : GenerateResult)
    → ((p : ProviderName) → x.0 ≡ ok p → has_provider p w.providers ≡ true)
    → (with_primary w x).0 ≡ ok out
    → Delivered w out (with_primary w x).1
with_primary-Delivered w (err f, s) out there h =
    fall_back-Delivered w none f w.fallback_provider s out h
with_primary-Delivered w (ok p, s) out there h =
    caught-Delivered w p (try_generate w p false w.max_retries 0 s) out
      (try_generate-Delivered w p false w.max_retries 0 s out (there p refl)) h

-- If `generate` returns a result outside safe mode, a configured provider gave it in the last call
-- that was made; that call is the last attempt of the trace and is no failure there, and its
-- provider is not in cooldown afterwards.
pub generate_delivers :
    (w : Env) (requested : Option ProviderName) (strategy : Strategy) (s : State)
    (out : GenerateResult)
    → w.safe_mode ≡ false
    → (generate w requested strategy s).0 ≡ ok out
    → Delivered w out (generate w requested strategy s).1
unfolding resolve_provider
generate_delivers w requested strategy s out on = rw (generate-on w requested strategy s on) (
    with_primary-Delivered w (resolve_provider w requested strategy (record s { trace = [] })) out
      (admit-configured w (requested_or_auto w requested strategy (record s { trace = [] }))))

-- The cooldown does not hold for the fallback: outside safe mode, a request for a configured
-- provider that is in cooldown and is itself the fallback calls it all the same.
pub cooldown_bypassed :
    (w : Env) (p : ProviderName) (strategy : Strategy) (s : State)
    → w.safe_mode ≡ false
    → w.fallback_provider ≡ some p
    → has_provider p w.providers ≡ true
    → is_in_cooldown p (w.clock s.ticks) s.cooldowns ≡ true
    → s.calls < (generate w (some p) strategy s).1.calls
unfolding resolve_provider try_generate
cooldown_bypassed w p strategy s on fallback there cooling =
    let s' : State = record s { trace = []; ticks = suc (suc s.ticks) } in
    let m = try_generate-Made w p true w.max_retries 0 s' in
    rw (generate-on w (some p) strategy s on) (
      rw (there, resolve_provider)
        (rw (cooling, resolve_provider) (rw fallback (rw there (omega (arith, m.at_least))))))
