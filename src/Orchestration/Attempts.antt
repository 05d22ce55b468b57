-- ===== src/Orchestration/Attempts.antt =====
-- The attempts that `tryGenerateWithRetry` and `generate` make (modules/orchestration/service.ts).
use memphis_v.Base.{
  ℕ, zero, suc, ◌+◌, ◌*◌, ◌≤◌, ◌≡◌, inl, inr, refl, ap, ◌∙◌, Bool, true, false, Option, none, some,
  List, [], ◌∷◌, ◌++◌, length, Result, ok, err, Result-cases, Bool-cases, arith,
}
use memphis_v.Base.Lists.{length-append}
use memphis_v.Loop.Executor.{ProviderName, GenerateResult}
use memphis_v.Orchestration.Each.{attempts_at, with_primary-share}
use memphis_v.Orchestration.Policy.{has_provider, is_in_cooldown}
use memphis_v.Orchestration.{
  Env, State, Attempt, Failure, Strategy, is_retryable, succeeded, failed, slept_for, backoff_ms,
  try_generate, fall_back, caught, with_primary, generate, resolve_provider, admit, is_primary,
  available, chosen, pick_auto_provider, requested_or_auto,
}

-- Between `least` and `most` calls of providers were made, and each of them left one attempt on the
-- trace.
pub record Made (least most : ℕ) (before after : State) : Type 0 where
  pub at_least : before.calls + least ≤ after.calls
  pub at_most : after.calls ≤ before.calls + most
  pub traced : length after.trace + before.calls ≡ length before.trace + after.calls

once :
    (before after : State) (a : Attempt) (more : ℕ)
    → after.calls ≡ suc before.calls
    → after.trace ≡ before.trace ++ a ∷ []
    → Made 1 (suc more) before after
once before after a more one grown = record {
  at_least = omega (arith, one);
  at_most = omega (arith, one);
  traced = omega (arith, one, ap length grown, length-append before.trace (a ∷ []));
}

then_more :
    (before mid after : State) (a : Attempt) (n : ℕ)
    → mid.calls ≡ suc before.calls
    → mid.trace ≡ before.trace ++ a ∷ []
    → Made 1 n mid after
    → Made 1 (suc n) before after
then_more before mid after a n one grown m = record {
  at_least = omega (arith, one, m.at_least);
  at_most = omega (arith, one, m.at_most);
  traced = omega (arith, one, m.traced, ap length grown, length-append before.trace (a ∷ []));
}

pub try_generate-Made :
    (w : Env) (p : ProviderName) (via : Bool) (left k : ℕ) (s : State)
    → Made 1 (suc left) s (try_generate w p via left k s).1
unfolding try_generate
try_generate-Made w p via zero k s = elim (Result-cases (w.answer s.calls p)) [
  | inl (out, e) ↦ rw (e, try_generate) (once s (succeeded w p via k s) _ 0 refl refl)
  | inr (f, e) ↦ rw (e, try_generate) (once s (failed w p via k f s) _ 0 refl refl)
]
try_generate-Made w p via (suc left) k s = elim (Result-cases (w.answer s.calls p)) [
  | inl (out, e) ↦ rw (e, try_generate) (once s (succeeded w p via k s) _ (suc left) refl refl)
  | inr (f, e) ↦ elim (Bool-cases (is_retryable f)) [
    | inl again ↦
        let s' = slept_for (backoff_ms w k (failed w p via k f s)) (failed w p via k f s) in
        rw (e, again, try_generate)
          (then_more s s' (try_generate w p via left (suc k) s').1 _ (suc left) refl refl
            (try_generate-Made w p via left (suc k) s'))
    | inr over ↦ rw (e, over, try_generate) (once s (failed w p via k f s) _ (suc left) refl refl)
  ]
]

quiet :
    (before after : State)
    → after.calls ≡ before.calls
    → after.trace ≡ before.trace
    → Made 0 0 before after
quiet before after calls trace = record {
  at_least = omega (arith, calls);
  at_most = omega (arith, calls);
  traced = omega (arith, calls, ap length trace);
}

after_that : (a b c d : ℕ) (s t u : State) → Made a b s t → Made c d t u → Made (a + c) (b + d) s u
after_that a b c d s t u m n = record {
  at_least = omega (arith, m.at_least, n.at_least);
  at_most = omega (arith, m.at_most, n.at_most);
  traced = omega (arith, m.traced, n.traced);
}

wider : (a b c : ℕ) (s t : State) → b ≤ c → Made a b s t → Made 0 c s t
wider a b c s t le m = record {
  at_least = omega (arith, m.at_least);
  at_most = omega (arith, m.at_most, le);
  traced = m.traced;
}

available-quiet :
    (w : Env) (ps : List ProviderName) (s : State)
    → ((available w ps s).1.calls ≡ s.calls) × ((available w ps s).1.trace ≡ s.trace)
unfolding available
available-quiet w [] s = (refl, refl)
available-quiet w (p ∷ ps) s = elim (Bool-cases (is_in_cooldown p (w.clock s.ticks) s.cooldowns)) [
  | inl cooling ↦ rw (cooling, available) (available-quiet w ps (record s { ticks = suc s.ticks }))
  | inr ready ↦ rw (ready, available) (available-quiet w ps (record s { ticks = suc s.ticks }))
]

chosen-state : (w : Env) (x : List ProviderName × State) → (chosen w x).1 ≡ x.1
chosen-state w ([], s) = refl
chosen-state w (p ∷ ps, s) = refl

pick-quiet :
    (w : Env) (requested : Option ProviderName) (strategy : Strategy) (s : State)
    → ((requested_or_auto w requested strategy s).1.calls ≡ s.calls)
      × ((requested_or_auto w requested strategy s).1.trace ≡ s.trace)
unfolding pick_auto_provider
pick-quiet w (some p) strategy s = (refl, refl)
pick-quiet w none Strategy.by_default s = (refl, refl)
pick-quiet w none Strategy.latency_aware s = (
  ap (λ t. t.calls) (chosen-state w (available w w.providers s))
      ∙ (available-quiet w w.providers s).0,
  ap (λ t. t.trace) (chosen-state w (available w w.providers s))
      ∙ (available-quiet w w.providers s).1,
)

admit-quiet :
    (w : Env) (x : ProviderName × State)
    → ((admit w x).1.calls ≡ x.1.calls) × ((admit w x).1.trace ≡ x.1.trace)
admit-quiet w (p, s) = elim (Bool-cases (has_provider p w.providers)) [
  | inl there ↦ elim (Bool-cases (is_in_cooldown p (w.clock s.ticks) s.cooldowns)) [
    | inl cooling ↦ rw there (rw cooling (refl, refl))
    | inr ready ↦ rw there (rw ready (refl, refl))
  ]
  | inr absent ↦ rw absent (refl, refl)
]

resolve-trace :
    (w : Env) (requested : Option ProviderName) (strategy : Strategy) (s : State)
    → (resolve_provider w requested strategy s).1.trace ≡ s.trace
unfolding resolve_provider
resolve-trace w requested strategy s =
    let picked = requested_or_auto w requested strategy s in
    (admit-quiet w picked).1 ∙ (pick-quiet w requested strategy s).1

resolve-Made :
    (w : Env) (requested : Option ProviderName) (strategy : Strategy) (s : State)
    → Made 0 0 s (resolve_provider w requested strategy s).1
unfolding resolve_provider
resolve-Made w requested strategy s =
    let picked = requested_or_auto w requested strategy s in
    quiet s (admit w picked).1 ((admit-quiet w picked).0 ∙ (pick-quiet w requested strategy s).0)
      ((admit-quiet w picked).1 ∙ (pick-quiet w requested strategy s).1)

fall_back-Made :
    (w : Env) (primary : Option ProviderName) (f : Failure) (o : Option ProviderName) (s : State)
    → Made 0 (suc w.max_retries) s (fall_back w primary f o s).1
fall_back-Made w primary f none s =
    wider 0 0 (suc w.max_retries) s s (omega arith) (quiet s s refl refl)
fall_back-Made w primary f (some p) s =
    let still = wider 0 0 (suc w.max_retries) s s (omega arith) (quiet s s refl refl) in
    elim (Bool-cases (has_provider p w.providers)) [
      | inl there ↦ elim (Bool-cases (is_primary primary p)) [
        | inl same ↦ rw there (rw same still)
        | inr other ↦ rw there (
            rw other (
              wider 1 (suc w.max_retries) (suc w.max_retries) s
                (try_generate w p true w.max_retries 0 s).1 (omega arith)
                (try_generate-Made w p true w.max_retries 0 s)))
      ]
      | inr absent ↦ rw absent still
    ]

caught-Made :
    (w : Env) (p : ProviderName) (n : ℕ) (before : State)
    (x : Result Failure GenerateResult × State)
    → Made 0 n before x.1
    → Made 0 (n + suc w.max_retries) before (caught w (some p) x).1
caught-Made w p n before (ok out, s) m = wider 0 n (n + suc w.max_retries) before s (omega arith) m
caught-Made w p n before (err f, s) m =
    after_that 0 n 0 (suc w.max_retries) before s (fall_back w (some p) f w.fallback_provider s).1 m
      (fall_back-Made w (some p) f w.fallback_provider s)

with_primary-Made :
    (w : Env) (before : State) (x : Result Failure ProviderName × State)
    → Made 0 0 before x.1
    → Made 0 (suc w.max_retries + suc w.max_retries) before (with_primary w x).1
with_primary-Made w before (err f, s) m =
    wider 0 (0 + suc w.max_retries) (suc w.max_retries + suc w.max_retries) before
      (fall_back w none f w.fallback_provider s).1 (omega arith)
      (after_that 0 0 0 (suc w.max_retries) before s (fall_back w none f w.fallback_provider s).1 m
        (fall_back-Made w none f w.fallback_provider s))
with_primary-Made w before (ok p, s) m =
    let tried = try_generate w p false w.max_retries 0 s in
    caught-Made w p (suc w.max_retries) before tried (
      wider (0 + 1) (0 + suc w.max_retries) (suc w.max_retries) before tried.1 (omega arith) (
        after_that 0 0 1 (suc w.max_retries) before s tried.1 m
          (try_generate-Made w p false w.max_retries 0 s)))

pub generate-on :
    (w : Env) (requested : Option ProviderName) (strategy : Strategy) (s : State)
    → w.safe_mode ≡ false
    → generate w requested strategy s
      ≡ with_primary w (resolve_provider w requested strategy (record s { trace = [] }))
unfolding generate
generate-on w requested strategy s on = ground (arith, on)

-- Outside safe mode, `generate` ends, whatever the providers answer, after at most `maxRetries` + 1
-- attempts at each provider, also at one that is both primary and fallback, and at most twice as many
-- calls in all; its trace has one attempt for each call made.
pub generate_bounded :
    (w : Env) (requested : Option ProviderName) (strategy : Strategy) (s : State)
    → w.safe_mode ≡ false
    → ((q : ProviderName)
        → attempts_at q (generate w requested strategy s).1.trace ≤ w.max_retries + 1)
      × ((generate w requested strategy s).1.calls ≤ s.calls + 2 * (w.max_retries + 1))
      × (s.calls + length (generate w requested strategy s).1.trace
          ≡ (generate w requested strategy s).1.calls)
generate_bounded w requested strategy s on =
    let s0 : State = record s { trace = [] } in
    let resolved = resolve_provider w requested strategy s0 in
    let made = with_primary-Made w s0 resolved (resolve-Made w requested strategy s0) in
    rw (generate-on w requested strategy s on) (
      λ q.
          let each =
            with_primary-share w q resolved
              (ap (attempts_at q) (resolve-trace w requested strategy s0)) in
          ground (arith, each),
      omega (arith, made.at_most),
      omega (arith, made.traced),
    )
