-- ===== src/Cache/Oldest.antt =====
-- The loop of `evictOldest` in the query cache and in the file cache (cache/query-cache.ts and
-- cache/file-cache.ts).
use memphis_v.Base.{
  ℕ, ◌≡◌, ◌⊎◌, refl, Text, true, false, ◌==◌, Option, none, some, [], ◌∷◌, length, ltb, arith, inl,
  inr, Bool-cases, if◌then◌else◌,
}
use memphis_v.Base.Maps.{Map, get, has}
use memphis_v.Base.Texts.{text_eq, text_eq_refl}

module _ {E : Type 0} (time : E → ℕ) where
  -- The key with the earliest time, the first of several.
  unfoldable pub oldest_from : Option (Text × ℕ) → Map E → Option Text
  oldest_from none [] = none
  oldest_from (some (k, t)) [] = some k
  oldest_from none ((k, e) ∷ m) = oldest_from (some (k, time e)) m
  oldest_from (some (q, t)) ((k, e) ∷ m) =
      oldest_from (if ltb (time e) t then some (k, time e) else some (q, t)) m

pub has_there :
    {E : Type 0} (q k : Text) (e : E) (m : Map (E))
    → (k ≡ q) ⊎ (has k m ≡ true)
    → has k ((q, e) ∷ m) ≡ true
unfolding get
has_there q k e m (inl h) = rw (h, text_eq_refl q) refl
has_there q k e m (inr h) = elim (Bool-cases (text_eq q k)) [ inl f ↦ rw f refl | inr f ↦ rw f h ]

weaken :
    {E : Type 0} (q k r : Text) (e : E) (m : Map (E))
    → (k ≡ r) ⊎ (has k m ≡ true)
    → (k ≡ r) ⊎ (has k ((q, e) ∷ m) ≡ true)
weaken q k r e m (inl h) = inl h
weaken q k r e m (inr h) = inr (has_there q k e m (inr h))

no_name : false ≡ true → ⊥
no_name h = cc

pub nameless :
    {E : Type 0} (k : Text) (m : Map (E))
    → get [] m ≡ none
    → has k m ≡ true
    → (length k == 0) ≡ true
    → ⊥
nameless [] m n h z = no_name (rw n at (h))
nameless (c ∷ k) m n h z = absurd (ground (arith, z))

module _ {E : Type 0} (time : E → ℕ) where
  pub oldest_is_key :
      (m : Map (E)) (q : Text) (t : ℕ)
      → (k : Text) × (oldest_from time (some (q, t)) m ≡ some k) × ((k ≡ q) ⊎ (has k m ≡ true))
  unfolding oldest_from
  oldest_is_key [] q t = (q, refl, inl refl)
  oldest_is_key ((r, e) ∷ m) q t = elim (Bool-cases (ltb (time e) t)) [
    | inl f ↦
        let (k, found, from) = oldest_is_key m r (time e) in
        (k, rw (f, oldest_from) found, inr (has_there r k e m from))
    | inr f ↦
        let (k, found, from) = oldest_is_key m q t in
        (k, rw (f, oldest_from) found, weaken r k q e m from)
  ]
