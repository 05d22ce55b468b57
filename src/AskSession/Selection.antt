-- ===== src/AskSession/Selection.antt =====
-- What `selectContextTurns` picks (core/ask-session-store.ts).
use mathlib.Core.List.{reverse-append, reverse-reverse, reverse-cons}
use memphis_v.Base.{
  ℕ, ◌+◌, ◌-◌, ◌≤◌, ◌≡◌, ◌⊎◌, inl, inr, refl, sym, ap, ◌∙◌, max, Bool, true, false, ◌&&◌, List, [],
  ◌∷◌, ◌++◌, reverse, length, take, drop, ltb, ltb-false, Bool-cases, arith,
}
use memphis_v.Base.Lists.{length-append, length-drop, take-drop, append_assoc}
use memphis_v.AskSession.{AskSessionTurn, pick, select_context_turns, token_sum}

length-reverse : {A : Type 0} (xs : List A) → length (reverse xs) ≡ length xs
length-reverse [] = refl
length-reverse (x ∷ xs) =
    omega
      (arith, ap length (reverse-cons x xs), length-append (reverse xs) (x ∷ []), length-reverse xs)

token_sum-append :
    (xs ys : List AskSessionTurn) → token_sum (xs ++ ys) ≡ token_sum xs + token_sum ys
token_sum-append [] ys = omega arith
token_sum-append (x ∷ xs) ys = omega (arith, token_sum-append xs ys)

token_sum-reverse : (xs : List AskSessionTurn) → token_sum (reverse xs) ≡ token_sum xs
token_sum-reverse [] = refl
token_sum-reverse (x ∷ xs) = omega (
  arith,
  ap token_sum (reverse-cons x xs),
  token_sum-append (reverse xs) (x ∷ []),
  token_sum-reverse xs,
)

pick-prefix :
    (m : ℕ) (picked : Bool) (used : ℕ) (ts : List AskSessionTurn)
    → (rest : List AskSessionTurn) × (ts ≡ pick m picked used ts ++ rest)
unfolding pick
pick-prefix m picked used [] = ([], refl)
pick-prefix m picked used (t ∷ ts) = elim (Bool-cases (picked && ltb m (used + t.tokens))) [
  | inl stop ↦ (t ∷ ts, rw (stop, pick) refl)
  | inr go ↦
      let (rest, e) = pick-prefix m true (used + t.tokens) ts in
      (rest, rw (go, pick) (ap (λ l. t ∷ l) e))
]

picked-tokens :
    (m used : ℕ) (ts : List AskSessionTurn)
    → (pick m true used ts ≡ []) ⊎ (used + token_sum (pick m true used ts) ≤ m)
unfolding pick
picked-tokens m used [] = inl refl
picked-tokens m used (t ∷ ts) = elim (Bool-cases (ltb m (used + t.tokens))) [
  | inl stop ↦ inl (ground (arith, stop))
  | inr go ↦ inr (elim (picked-tokens m (used + t.tokens) ts) [
    | inl empty ↦
        rw (go, pick) (omega (arith, ap token_sum empty, ltb-false m (used + t.tokens) go))
    | inr fits ↦ rw (go, pick) (omega (arith, fits))
  ])
]

first-tokens :
    (m : ℕ) (ts : List AskSessionTurn)
    → (length (pick m false 0 ts) ≤ 1) ⊎ (token_sum (pick m false 0 ts) ≤ m)
unfolding pick
first-tokens m [] = inl (omega arith)
first-tokens m (t ∷ ts) = elim (picked-tokens m (0 + t.tokens) ts) [
  | inl empty ↦ inl (omega (arith, ap length empty))
  | inr fits ↦ inr (omega (arith, fits))
]

-- What is selected is the end of the session, in its order: at most the asked number of turns, one
-- where none or less is asked for, and within the token limit unless it is one single turn.
pub selection_is_recent :
    (turns : List AskSessionTurn) (max_turns max_tokens : ℕ)
    → ((earlier : List AskSessionTurn) × (turns
          ≡ earlier ++ select_context_turns turns max_turns max_tokens))
      × (length (select_context_turns turns max_turns max_tokens) ≤ max 1 max_turns)
      × ((length (select_context_turns turns max_turns max_tokens) ≤ 1)
          ⊎ (token_sum (select_context_turns turns max_turns max_tokens) ≤ max_tokens))
unfolding select_context_turns
selection_is_recent turns max_turns max_tokens =
    let n = length turns - max 1 max_turns in
    let recent = drop n turns in
    let picked = pick max_tokens false 0 (reverse recent) in
    let (rest, e) = pick-prefix max_tokens false 0 (reverse recent) in
    let split : recent ≡ reverse rest ++ reverse picked =
      sym (reverse-reverse recent) ∙ (ap reverse e ∙ reverse-append picked rest) in
    (
      (
        take n turns ++ reverse rest,
        sym (take-drop n turns)
            ∙ (ap (λ l. take n turns ++ l) split
                ∙ sym (append_assoc (take n turns) (reverse rest) (reverse picked))),
      ),
      omega (
        arith,
        length-drop n turns,
        ap length split,
        length-append (reverse rest) (reverse picked),
      ),
      elim (first-tokens max_tokens (reverse recent)) [
        | inl one ↦ inl (omega (arith, one, length-reverse picked))
        | inr fits ↦ inr (omega (arith, fits, token_sum-reverse picked))
      ],
    )
