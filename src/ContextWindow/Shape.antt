-- ===== src/ContextWindow/Shape.antt =====
-- What `buildContext` selects, and in which order (providers/context-window.ts).
use memphis_v.Base.{
  ℕ, ◌+◌, ◌≤◌, ◌≡◌, ◌⊎◌, refl, ap, sym, ◌∙◌, not, ◌==◌, List, [], ◌∷◌, ◌++◌, reverse, length,
  select, ltb, ltb-false, arith, inl, inr, Bool-cases,
}
use mathlib.Core.List.{reverse-append, reverse-reverse}
use memphis_v.Base.Lists.{append_assoc}
use memphis_v.ContextWindow.{
  ConversationTurn, is_system, available_tokens, take_system, tokens, take_turns, build_context,
}

-- The taken system turns are the first ones, and fit.
system_prefix :
    (available current : ℕ) (ts : List ConversationTurn)
    → (rest : List ConversationTurn) × (ts ≡ take_system available current ts ++ rest)
      × ((current ≤ available) → current + tokens (take_system available current ts) ≤ available)
unfolding take_system
system_prefix available current [] = ([], refl, λ h. omega (arith, h))
system_prefix available current (t ∷ ts) =
    elim (Bool-cases (ltb available (current + t.token_count))) [
      | inl e ↦ (t ∷ ts, rw e refl, rw e (λ h. omega (arith, h)))
      | inr e ↦
          let (rest, front, fits) = system_prefix available (current + t.token_count) ts in
          (
            rest,
            rw e (ap (λ l. t ∷ l) front),
            rw e (λ h. omega (arith, fits (ltb-false available (current + t.token_count) e))),
          )
    ]

-- Within the tokens, or one turn alone.
abbrev pub Fits : ℕ → List ConversationTurn → Type 0
Fits available turns = (tokens turns ≤ available) ⊎ (length turns ≡ 1)

moved_front :
    (t : ConversationTurn) (taken selected : List ConversationTurn)
    → reverse taken ++ t ∷ selected ≡ reverse (t ∷ taken) ++ selected
moved_front t taken selected = sym (
    ap (λ l. l ++ selected) (reverse-append (t ∷ []) taken)
    ∙ append_assoc (reverse taken) (t ∷ []) selected)

-- From the turns in reverse order the first ones are put in front, back in their order.
turns_suffix :
    (available current : ℕ) (selected ts : List ConversationTurn)
    → current ≡ tokens selected
    → current ≤ available
    → (taken rest : List ConversationTurn) × (ts ≡ taken ++ rest)
      × (take_turns available current selected ts ≡ reverse taken ++ selected)
      × Fits available (take_turns available current selected ts)
unfolding take_turns
turns_suffix available current selected [] e h = ([], [], refl, refl, inl (omega (arith, e, h)))
turns_suffix available current selected (t ∷ ts) e h =
    elim (Bool-cases (ltb available (current + t.token_count))) [
      | inl f ↦ elim (Bool-cases (length selected == 0)) [
        | inl z ↦ (t ∷ [], ts, refl, rw (f, z) refl, rw (f, z) (inr (ground (arith, z))))
        | inr z ↦ ([], t ∷ ts, refl, rw (f, z) refl, rw (f, z) (inl (omega (arith, e, h))))
      ]
      | inr f ↦
          let (taken, rest, split, result, fits) =
            turns_suffix available (current + t.token_count) (t ∷ selected) ts (omega (arith, e))
              (ltb-false available (current + t.token_count) f) in
          (
            t ∷ taken,
            rest,
            ap (λ l. t ∷ l) split,
            rw f (result ∙ moved_front t taken selected),
            rw f fits,
          )
    ]

-- `buildContext` returns the last conversation turns, in their order, and behind them the first
-- system turns. Their tokens are within maxSize less the 1000 that are reserved, and at least 1, or
-- it is one turn alone.
pub context_shape :
    (max_size : ℕ) (turns : List ConversationTurn)
    → (earlier recent systems rest : List ConversationTurn) × (select (λ t. not (is_system t)) turns
        ≡ earlier ++ recent)
      × (select is_system turns ≡ systems ++ rest)
      × (build_context max_size turns ≡ recent ++ systems)
      × Fits (available_tokens max_size) (build_context max_size turns)
unfolding build_context
context_shape max_size turns =
    let available = available_tokens max_size in
    let others = select (λ t. not (is_system t)) turns in
    let chosen = take_system available 0 (select is_system turns) in
    let (rest, front, small) = system_prefix available 0 (select is_system turns) in
    let (taken, left, split, result, fits) =
      turns_suffix available (tokens chosen) chosen (reverse others) refl
        (omega (arith, small (omega arith))) in
    (
      reverse left,
      reverse taken,
      chosen,
      rest,
      sym (reverse-reverse others) ∙ (ap reverse split ∙ reverse-append taken left),
      front,
      result,
      fits,
    )
