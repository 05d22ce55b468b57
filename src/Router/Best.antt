-- ===== src/Router/Best.antt =====
-- The loop that keeps the best so far, which `DynamicRouter` writes four times
-- (providers/dynamic-router.ts).
use memphis_v.Base.{
  Bool, true, false, List, [], ◌∷◌, ◌≡◌, refl, inl, inr, if◌then◌else◌, Bool-cases,
}
use mathlib.Core.List.{Memᴰ}

module _ {A : Type 0} where
  -- From the best so far on, each later one takes its place if it is better.
  unfoldable pub best_from : (A → A → Bool) → A → List A → A
  best_from better best [] = best
  best_from better best (x ∷ xs) = best_from better (if better x best then x else best) xs

  skip : {x b c : A} {l : List A} → Memᴰ x (b ∷ l) → Memᴰ x (b ∷ c ∷ l)
  skip (Memᴰ.head h) = Memᴰ.head h
  skip (Memᴰ.tail t) = Memᴰ.tail (Memᴰ.tail t)

  pub best_from-Mem :
      (better : A → A → Bool) (best : A) (xs : List A) → Memᴰ (best_from better best xs) (best ∷ xs)
  unfolding best_from
  best_from-Mem better best [] = Memᴰ.head refl
  best_from-Mem better best (x ∷ xs) = elim (Bool-cases (better x best)) [
    | inl e ↦ rw e (Memᴰ.tail (best_from-Mem better x xs))
    | inr e ↦ rw e (skip (best_from-Mem better best xs))
  ]

  -- Of a strict weak order none is better than the one that is left.
  pub best_from-best :
      (better : A → A → Bool)
      → ((x y : A) → better x y ≡ true → better y x ≡ false)
      → ((x y z : A) → better x y ≡ false → better y z ≡ false → better x z ≡ false)
      → (best : A) (xs : List A) (y : A) → Memᴰ y (best ∷ xs)
      → better y (best_from better best xs) ≡ false
  unfolding best_from
  best_from-best better asym weak best [] y (Memᴰ.head e) =
      rw e (elim (Bool-cases (better best best)) [ inl t ↦ asym best best t | inr f ↦ f ])
  best_from-best better asym weak best [] y (Memᴰ.tail t) = elim t [ ]
  best_from-best better asym weak best (x ∷ xs) y m = elim (Bool-cases (better x best)) [
    | inl e ↦ rw e (elim m [
      | Memᴰ.head h ↦ rw h (
          weak best x (best_from better x xs) (asym x best e)
            (best_from-best better asym weak x xs x (Memᴰ.head refl)))
      | Memᴰ.tail t ↦ best_from-best better asym weak x xs y t
    ])
    | inr e ↦ rw e (elim m [
      | Memᴰ.head h ↦ best_from-best better asym weak best xs y (Memᴰ.head h)
      | Memᴰ.tail (Memᴰ.head h) ↦ rw h (
          weak x best (best_from better best xs) e
            (best_from-best better asym weak best xs best (Memᴰ.head refl)))
      | Memᴰ.tail (Memᴰ.tail t) ↦ best_from-best better asym weak best xs y (Memᴰ.tail t)
    ])
  ]
