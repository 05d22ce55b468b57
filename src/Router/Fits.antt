-- ===== src/Router/Fits.antt =====
-- What `DynamicRouter.route` picks (providers/dynamic-router.ts).
use memphis_v.Base.{
  ℕ, ◌≡◌, refl, ◌⊎◌, inl, inr, Bool, true, false, some, List, [], ◌∷◌, ◌++◌, select, leb,
  Bool-cases, arith,
}
use mathlib.Core.List.{Memᴰ}
use memphis_v.Router.Matrix.{Model, Provider, Requirements, some_model, wide_enough}
use memphis_v.Base.Lists.{select-Mem, Mem-select}
use memphis_v.Router.Best.{best_from-Mem, best_from-best}
use memphis_v.Router.{
  Priority, latency, cost, quality, RoutingContext, Routing, meets_requirements, fits,
  pick_largest_context_model, pick_model, or_all, select_best_model, is_better, pick_best_provider,
  fallback_route, route_to, routing_of, route_among,
}

some_model-Mem :
    (test : Model → Bool) (ms : List Model)
    → some_model test ms ≡ true
    → (m : Model) × Memᴰ m ms × (test m ≡ true)
unfolding some_model
some_model-Mem test [] h = ground arith
some_model-Mem test (m ∷ ms) h = elim (Bool-cases (test m)) [
  | inl e ↦ (m, Memᴰ.head refl, e)
  | inr e ↦ let s = some_model-Mem test ms (rw e at (h)) in (s.0, Memᴰ.tail s.1, s.2)
]

Mem-some_model :
    (test : Model → Bool) (ms : List Model) (m : Model)
    → Memᴰ m ms
    → test m ≡ true
    → some_model test ms ≡ true
unfolding some_model
Mem-some_model test [] m t e = elim t [ ]
Mem-some_model test (n ∷ ms) m (Memᴰ.head h) e = let q : test n ≡ true = rw h at (e) in rw q refl
Mem-some_model test (n ∷ ms) m (Memᴰ.tail t) e = ground (arith, Mem-some_model test ms m t e)

-- One model has at least what each of the others has.
pub record Leads (m : Model) (ms : List Model) : Type 0 where
  pub is_there : Memᴰ m ms
  pub has_context : (n : Model) → Memᴰ n ms → leb n.context_window m.context_window ≡ true
  pub has_vision : (n : Model) → Memᴰ n ms → n.supports_vision ≡ true → m.supports_vision ≡ true
  pub has_function_calling :
      (n : Model)
      → Memᴰ n ms
      → n.supports_function_calling ≡ true
      → m.supports_function_calling ≡ true

module _ (p : Provider) (m : Model) (r : Requirements) (l : Leads m p.models) where
  leading_width : some_model (wide_enough r) p.models ≡ true → wide_enough r m ≡ true
  leading_width h =
      let (n, t, e) = some_model-Mem (wide_enough r) p.models h in
      let wide = l.has_context n t in ground arith

  leading_vision : some_model (λ n. n.supports_vision) p.models ≡ true → m.supports_vision ≡ true
  leading_vision h =
      let (n, t, e) = some_model-Mem (λ n. n.supports_vision) p.models h in l.has_vision n t e

  leading_calling :
      some_model (λ n. n.supports_function_calling) p.models ≡ true
      → m.supports_function_calling ≡ true
  leading_calling h =
      let (n, t, e) = some_model-Mem (λ n. n.supports_function_calling) p.models h in
      l.has_function_calling n t e

  -- A model fits if its provider meets the requirements and it leads the provider's models.
  leading-fits : meets_requirements p r ≡ true → fits r m ≡ true
  unfolding meets_requirements fits
  leading-fits h =
      let w = leading_width in
      let v = leading_vision in let c = leading_calling in ground (arith, w, v, c)

-- A provider meets the requirements that one of its models fits.
fitting-meets :
    (p : Provider) (m : Model) (r : Requirements)
    → Memᴰ m p.models
    → fits r m ≡ true
    → meets_requirements p r ≡ true
unfolding meets_requirements fits
fitting-meets p m r t h =
    let w = Mem-some_model (wide_enough r) p.models m t in
    let v = Mem-some_model (λ n. n.supports_vision) p.models m t in
    let f = Mem-some_model (λ n. n.supports_function_calling) p.models m t in
    ground (arith, w, v, f)

is_better-asym : (c : Priority) (p q : Provider) → is_better c p q ≡ true → is_better c q p ≡ false
is_better-asym latency p q h = ground arith
is_better-asym cost p q h = ground arith
is_better-asym quality p q h = ground arith

is_better-weak :
    (c : Priority) (p q s : Provider)
    → is_better c p q ≡ false
    → is_better c q s ≡ false
    → is_better c p s ≡ false
is_better-weak latency p q s h k = ground arith
is_better-weak cost p q s h k = ground arith
is_better-weak quality p q s h k = ground arith

pick_model-Mem :
    (c : Priority) (m : Model) (ms : List Model)
    → (n : Model) × (pick_model c (m ∷ ms) ≡ some n) × Memᴰ n (m ∷ ms)
unfolding pick_largest_context_model
pick_model-Mem latency m ms = (m, refl, Memᴰ.head refl)
pick_model-Mem cost m ms = (m, refl, Memᴰ.head refl)
pick_model-Mem quality m ms = (_, refl, best_from-Mem _ m ms)

-- A provider that has a model that fits gives a model that fits.
select_best_model-fits :
    (p : Provider) (c : RoutingContext) (m : Model)
    → Memᴰ m p.models
    → fits c.requirements m ≡ true
    → (n : Model) × (select_best_model p c ≡ some n)
      × Memᴰ n p.models
      × (fits c.requirements n ≡ true)
unfolding select_best_model
select_best_model-fits p c m t e =
    go (select (fits c.requirements) p.models) refl
      (Mem-select (fits c.requirements) p.models m t e)
  where
    go :
        (l : List Model)
        → select (fits c.requirements) p.models ≡ l
        → Memᴰ m l
        → (n : Model) × (pick_model c.priority
              (or_all (select (fits c.requirements) p.models) p.models)
            ≡ some n)
          × Memᴰ n p.models
          × (fits c.requirements n ≡ true)
    go [] q none_there = elim none_there [ ]
    go (x ∷ xs) q there =
        let picked = pick_model-Mem c.priority x xs in
        let chosen : Memᴰ picked.0 (select (fits c.requirements) p.models) = rw q picked.2 in
        let s = select-Mem (fits c.requirements) p.models picked.0 chosen in
        (picked.0, rw q picked.1, s.0, s.1)

-- All providers have a model that leads the others.
abbrev pub HasLeader : List Provider → Type 0
HasLeader providers = (p : Provider) → Memᴰ p providers → (m : Model) × Leads m p.models

module _ (providers : List Provider) (c : RoutingContext) where
  -- None of the models fits.
  abbrev pub NoneFits : Type 0
  NoneFits =
      (p : Provider) (m : Model)
      → Memᴰ p providers
      → Memᴰ m p.models
      → fits c.requirements m ≡ false

  -- A model that fits, of a provider that none with such a model is better than.
  pub record Picked (p : Provider) (m : Model) : Type 0 where
    pub provider_there : Memᴰ p providers
    pub model_there : Memᴰ m p.models
    pub model_fits : fits c.requirements m ≡ true
    pub is_best :
        (q : Provider) (n : Model)
        → Memᴰ q providers
        → Memᴰ n q.models
        → fits c.requirements n ≡ true
        → is_better c.priority q p ≡ false

  abbrev candidates : List Provider
  candidates = select (λ p. meets_requirements p c.requirements) providers

  candidate :
      (p : Provider) (m : Model)
      → Memᴰ p providers
      → Memᴰ m p.models
      → fits c.requirements m ≡ true
      → Memᴰ p candidates
  candidate p m t u e =
      Mem-select (λ p. meets_requirements p c.requirements) providers p t
        (fitting-meets p m c.requirements u e)

  pub route_among-picks :
      (now : ℕ) (routings : List Routing)
      → HasLeader providers
      → (ps : List Provider) → candidates ≡ ps
      → ((route_among ps c now routings ≡ some (fallback_route, routings)) × NoneFits)
        ⊎ ((p : Provider) × (m : Model) × Picked p m
            × (route_among ps c now routings
                ≡ some (route_to p m c.priority, routings ++ (routing_of p m c now ∷ []))))
  route_among-picks now routings leaders [] q = inl (
    refl,
    λ p m t u. elim (Bool-cases (fits c.requirements m)) [
      | inl e ↦ elim (rw q at (candidate p m t u e)) [ ]
      | inr e ↦ e
    ],
  )
  route_among-picks now routings leaders (x ∷ xs) q =
      let p = pick_best_provider c.priority x xs in
      let chosen : Memᴰ p candidates = rw q (best_from-Mem (is_better c.priority) x xs) in
      let (there, meets) =
        select-Mem (λ p. meets_requirements p c.requirements) providers p chosen in
      let (lead, leads) = leaders p there in
      let (m, e, u, f) =
        select_best_model-fits p c lead leads.is_there
          (leading-fits p lead c.requirements leads meets) in
      inr (
        p,
        m,
        record {
          provider_there = there;
          model_there = u;
          model_fits = f;
          is_best = λ other n t v g.
              best_from-best (is_better c.priority) (is_better-asym c.priority)
                (is_better-weak c.priority) x xs other (rw q at (candidate other n t v g));
        },
        rw e refl,
      )
