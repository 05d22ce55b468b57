-- ===== src/Orchestration/Each.antt =====
-- How often each provider is tried (modules/orchestration/service.ts).
use memphis_v.Base.{
  ℕ, zero, suc, ◌+◌, ◌≤◌, ◌≡◌, inl, inr, refl, Bool, true, false, Option, none, some, List, [], ◌∷◌,
  ◌++◌, Result, ok, err, count_if, Result-cases, Bool-cases, if◌then◌else◌, arith,
}
use memphis_v.Base.Lists.{count_if-append}
use memphis_v.Loop.Executor.{ProviderName, GenerateResult}
use memphis_v.Orchestration.Policy.{
  has_provider, same_provider, same_provider-eq, same_provider_refl,
}
use memphis_v.Orchestration.{
  Env, State, Attempt, Failure, is_retryable, succeeded, failed, slept_for, backoff_ms,
  try_generate, fall_back, caught, with_primary, is_primary,
}

-- The attempts at one provider on a trace.
abbrev pub attempts_at : ProviderName → List Attempt → ℕ
attempts_at q trace = count_if (λ a. same_provider a.provider q) trace

-- The attempts at `q` that calls of `p` can add.
abbrev share : ProviderName → ProviderName → ℕ → ℕ
share p q n = if same_provider p q then n else 0

one_more :
    (p q : ProviderName) (before after : State) (a : Attempt)
    → a.provider ≡ p
    → after.trace ≡ before.trace ++ a ∷ []
    → attempts_at q after.trace ≡ attempts_at q before.trace + share p q 1
one_more p q before after a by grown =
    rw (grown, count_if-append (λ x. same_provider x.provider q) before.trace (a ∷ []), by)
      (ground arith)

try_generate-share :
    (w : Env) (p q : ProviderName) (via : Bool) (left k : ℕ) (s : State)
    → attempts_at q (try_generate w p via left k s).1.trace
      ≤ attempts_at q s.trace + share p q (suc left)
unfolding try_generate
try_generate-share w p q via zero k s = elim (Result-cases (w.answer s.calls p)) [
  | inl (out, e) ↦
      let n = one_more p q s (succeeded w p via k s) _ refl refl in
      rw (e, try_generate) (ground (arith, n))
  | inr (f, e) ↦
      let n = one_more p q s (failed w p via k f s) _ refl refl in
      rw (e, try_generate) (ground (arith, n))
]
try_generate-share w p q via (suc left) k s = elim (Result-cases (w.answer s.calls p)) [
  | inl (out, e) ↦
      let n = one_more p q s (succeeded w p via k s) _ refl refl in
      rw (e, try_generate) (ground (arith, n))
  | inr (f, e) ↦
      let n = one_more p q s (failed w p via k f s) _ refl refl in
      elim (Bool-cases (is_retryable f)) [
        | inl again ↦
            let s' = slept_for (backoff_ms w k (failed w p via k f s)) (failed w p via k f s) in
            let more = try_generate-share w p q via left (suc k) s' in
            rw (e, again, try_generate) (ground (arith, n, more))
        | inr over ↦ rw (e, over, try_generate) (ground (arith, n))
      ]
]

-- The fallback adds nothing for the primary provider, and its own attempts for one other.
fall_back-share :
    (w : Env) (q : ProviderName) (primary : Option ProviderName) (f : Failure)
    (o : Option ProviderName) (s : State)
    → attempts_at q (fall_back w primary f o s).1.trace
      ≤ attempts_at q s.trace + (if is_primary primary q then 0 else suc w.max_retries)
fall_back-share w q primary f none s = ground arith
fall_back-share w q primary f (some p) s = elim (Bool-cases (has_provider p w.providers)) [
  | inr absent ↦ rw absent (ground arith)
  | inl there ↦ elim (Bool-cases (is_primary primary p)) [
    | inl same ↦ rw there (rw same (ground arith))
    | inr other ↦
        let tried = try_generate-share w p q true w.max_retries 0 s in
        rw there (
          rw other (elim (Bool-cases (same_provider p q)) [
            | inr apart ↦ ground (arith, tried, apart)
            | inl at ↦
                let e : is_primary primary q ≡ false = rw (same_provider-eq p q at) at (other) in
                ground (arith, tried, at, e)
          ]))
  ]
]

caught-share :
    (w : Env) (p q : ProviderName) (x : Result Failure GenerateResult × State)
    → attempts_at q x.1.trace ≤ share p q (suc w.max_retries)
    → attempts_at q (caught w (some p) x).1.trace ≤ suc w.max_retries
caught-share w p q (ok out, s) h = ground (arith, h)
caught-share w p q (err f, s) h =
    let n = fall_back-share w q (some p) f w.fallback_provider s in
    elim (Bool-cases (same_provider p q)) [
      | inr apart ↦ ground (arith, n, h, apart)
      | inl at ↦
          let e : p ≡ q = same_provider-eq p q at in
          let back : same_provider q p ≡ true = rw e (same_provider_refl q) in
          ground (arith, n, h, at, back)
    ]

-- Outside safe mode no provider is tried more often than once and `maxRetries` times again, also if
-- it is the fallback.
pub with_primary-share :
    (w : Env) (q : ProviderName) (x : Result Failure ProviderName × State)
    → attempts_at q x.1.trace ≡ 0
    → attempts_at q (with_primary w x).1.trace ≤ suc w.max_retries
with_primary-share w q (err f, s) h =
    let n = fall_back-share w q none f w.fallback_provider s in ground (arith, n, h)
with_primary-share w q (ok p, s) h =
    let tried = try_generate-share w p q false w.max_retries 0 s in
    caught-share w p q (try_generate w p false w.max_retries 0 s) (ground (arith, tried, h))
