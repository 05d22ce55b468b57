-- ===== src/Router/Ranking.antt =====
-- `CapabilityMatrix.findBestProvider` (providers/capability-matrix.ts).
use memphis_v.Base.{
  ℕ, ◌≤◌, ◌≡◌, refl, ◌⊎◌, inl, inr, none, some, List, [], ◌∷◌, ltb, Bool-cases, Option-cases, arith,
}
use mathlib.Core.List.{Memᴰ}
use memphis_v.Router.Matrix.{
  Provider, Wishes, score, insert_scored, ranking, top, find_best_provider,
}

-- The first score is the highest.
abbrev Heads : List (Provider × ℕ) → Type 0
Heads [] = Unit {0}
Heads (x ∷ xs) = (y : Provider × ℕ) → Memᴰ y (x ∷ xs) → y.1 ≤ x.1

insert-Mem :
    (x y : Provider × ℕ) (l : List (Provider × ℕ)) → Memᴰ y (insert_scored x l) → Memᴰ y (x ∷ l)
insert-Mem x y [] t = t
insert-Mem x y (z ∷ l) t = elim (Bool-cases (ltb x.1 z.1)) [
  | inl e ↦ elim (rw e at (t)) [
    | Memᴰ.head h ↦ Memᴰ.tail (Memᴰ.head h)
    | Memᴰ.tail u ↦ elim (insert-Mem x y l u) [
      | Memᴰ.head h ↦ Memᴰ.head h
      | Memᴰ.tail v ↦ Memᴰ.tail (Memᴰ.tail v)
    ]
  ]
  | inr e ↦ rw e at (t)
]

Mem-insert :
    (x y : Provider × ℕ) (l : List (Provider × ℕ)) → Memᴰ y (x ∷ l) → Memᴰ y (insert_scored x l)
Mem-insert x y [] t = t
Mem-insert x y (z ∷ l) t = elim (Bool-cases (ltb x.1 z.1)) [
  | inl e ↦ rw e (elim t [
    | Memᴰ.head h ↦ Memᴰ.tail (Mem-insert x y l (Memᴰ.head h))
    | Memᴰ.tail (Memᴰ.head h) ↦ Memᴰ.head h
    | Memᴰ.tail (Memᴰ.tail u) ↦ Memᴰ.tail (Mem-insert x y l (Memᴰ.tail u))
  ])
  | inr e ↦ rw e t
]

insert-Heads : (x : Provider × ℕ) (l : List (Provider × ℕ)) → Heads l → Heads (insert_scored x l)
insert-Heads x [] h = λ y t. elim t [ Memᴰ.head e ↦ rw e (omega arith) | Memᴰ.tail u ↦ elim u [ ] ]
insert-Heads x (z ∷ l) h = elim (Bool-cases (ltb x.1 z.1)) [
  | inl e ↦ rw e (λ y t. elim t [
    | Memᴰ.head q ↦ h y (Memᴰ.head q)
    | Memᴰ.tail u ↦ elim (insert-Mem x y l u) [
      | Memᴰ.head q ↦ rw q (ground arith)
      | Memᴰ.tail v ↦ h y (Memᴰ.tail v)
    ]
  ])
  | inr e ↦ rw e (λ y t. elim t [
    | Memᴰ.head q ↦ rw q (omega arith)
    | Memᴰ.tail u ↦ let below = h y u in ground arith
  ])
]

ranking-Heads : (w : Wishes) (ps : List Provider) → Heads (ranking w ps)
unfolding ranking
ranking-Heads w [] = tt
ranking-Heads w (p ∷ ps) = elim (Option-cases (score w p)) [
  | inl e ↦ rw e (ranking-Heads w ps)
  | inr (s, e) ↦ rw e (insert-Heads (p, s) (ranking w ps) (ranking-Heads w ps))
]

-- What stands in the ranking, and only that: the providers that have a score.
ranking-Mem :
    (w : Wishes) (ps : List Provider) (q : Provider × ℕ)
    → Memᴰ q (ranking w ps)
    → Memᴰ (q.0) ps × (score w (q.0) ≡ some (q.1))
unfolding ranking
ranking-Mem w [] q t = elim t [ ]
ranking-Mem w (p ∷ ps) q t = elim (Option-cases (score w p)) [
  | inl e ↦ let (u, f) = ranking-Mem w ps q (rw e at (t)) in (Memᴰ.tail u, f)
  | inr (s, e) ↦ elim (insert-Mem (p, s) q (ranking w ps) (rw e at (t))) [
    | Memᴰ.head h ↦ rw h (Memᴰ.head refl, e)
    | Memᴰ.tail u ↦ let (v, f) = ranking-Mem w ps q u in (Memᴰ.tail v, f)
  ]
]

Mem-ranking :
    (w : Wishes) (ps : List Provider) (q : Provider) (s : ℕ)
    → Memᴰ q ps
    → score w q ≡ some s
    → Memᴰ (q, s) (ranking w ps)
unfolding ranking
Mem-ranking w [] q s t f = elim t [ ]
Mem-ranking w (p ∷ ps) q s (Memᴰ.head h) f =
    let e : score w p ≡ some s = rw h at (f) in
    rw (e, h) (Mem-insert (p, s) (p, s) (ranking w ps) (Memᴰ.head refl))
Mem-ranking w (p ∷ ps) q s (Memᴰ.tail t) f = elim (Option-cases (score w p)) [
  | inl e ↦ rw e (Mem-ranking w ps q s t f)
  | inr (r, e) ↦
      rw e (Mem-insert (p, r) (q, s) (ranking w ps) (Memᴰ.tail (Mem-ranking w ps q s t f)))
]

-- `findBestProvider` returns a provider that meets the requirements and whose score none that meets
-- them exceeds, or nothing if none meets them.
pub find_best_provider-best :
    (w : Wishes) (ps : List Provider)
    → ((find_best_provider w ps ≡ none) × ((q : Provider) → Memᴰ q ps → score w q ≡ none))
      ⊎ ((p : Provider) × (s : ℕ) × (find_best_provider w ps ≡ some p)
          × Memᴰ p ps
          × (score w p ≡ some s)
          × ((q : Provider) (r : ℕ) → Memᴰ q ps → score w q ≡ some r → r ≤ s))
unfolding find_best_provider
find_best_provider-best w ps = go (ranking w ps) refl
  where
    go :
        (l : List (Provider × ℕ))
        → ranking w ps ≡ l
        → ((top l ≡ none) × ((q : Provider) → Memᴰ q ps → score w q ≡ none))
          ⊎ ((p : Provider) × (s : ℕ) × (top l ≡ some p)
              × Memᴰ p ps
              × (score w p ≡ some s)
              × ((q : Provider) (r : ℕ) → Memᴰ q ps → score w q ≡ some r → r ≤ s))
    go [] e = inl (
      refl,
      λ q t. elim (Option-cases (score w q)) [
        | inl f ↦ f
        | inr (s, f) ↦ elim (rw e at (Mem-ranking w ps q s t f)) [ ]
      ],
    )
    go ((p, s) ∷ l) e =
        let there : Memᴰ (p, s) (ranking w ps) = rw e (Memᴰ.head refl) in
        let (t, f) = ranking-Mem w ps (p, s) there in
        let heads : Heads ((p, s) ∷ l) = rw e at (ranking-Heads w ps) in
        inr (p, s, refl, t, f, λ q r u g. heads (q, r) (rw e at (Mem-ranking w ps q r u g)))
