-- ===== src/Cache/Chain/Kept.antt =====
-- What a `ChainCache` finds after a `set` (infra/cache/chain-cache.ts).
use memphis_v.Base.{
  ℕ, ◌<◌, ◌≡◌, refl, ap, ◌∙◌, Text, false, ◌==◌, none, some, [], ◌∷◌, length, ltb, ltb→lt, arith,
  inl, inr, Bool-cases,
}
use memphis_v.Base.Maps.{Map, get, has, set, get-set, get-delete}
use memphis_v.Base.Texts.{text_eq, text_eq_refl}
use memphis_v.Cache.Chain.{
  Printer, ChainCache, make_key, lookup, cleared, written, drop_oldest, trimmed, store,
}
use memphis_v.Cache.Chain.Sound.{get_of_has}
use memphis_v.Cache.Chain.Valid.{IsValid}

module _ {V : Type 0} where
  drop_other :
      (q : Text) (w : V) (rest : Map V) (k : Text) (v : V) (c : ChainCache V)
      → text_eq q k ≡ false
      → get k c.blocks ≡ some v
      → get k (drop_oldest ((q, w) ∷ rest) c).blocks ≡ some v
  drop_other q w rest k v c apart found = elim (Bool-cases (length q == 0)) [
    | inl e ↦ rw e found
    | inr e ↦ rw e (get-delete k q c.blocks ∙ rw apart found)
  ]

  -- Making room keeps the key that was written last, where there is another one.
  kept_last :
      (k : Text) (v : V) (m n : Map V) (c : ChainCache V)
      → get k m ≡ none
      → n ≡ set k v m
      → c.blocks ≡ n
      → 1 < length n
      → get k (drop_oldest n c).blocks ≡ some v
  unfolding set get
  kept_last k v [] n c h e b long = absurd (omega (arith, long, ap length e))
  kept_last k v ((q, w) ∷ m) n c h e b long = elim (Bool-cases (text_eq q k)) [
    | inl own ↦ absurd (ground (arith, h, own))
    | inr apart ↦
        let front : n ≡ (q, w) ∷ set k v m = e ∙ rw apart refl in
        let found : get k c.blocks ≡ some v =
          ap (get k) (b ∙ e) ∙ (get-set k k v ((q, w) ∷ m) ∙ rw (text_eq_refl k) refl) in
        rw front (drop_other q w (set k v m) k v c apart found)
  ]

  -- What the `cleared` cache is, and that its key is gone.
  cleared_gone : (k : Text) (c : ChainCache V) → get k (cleared k c).blocks ≡ none
  cleared_gone k c = elim (Bool-cases (has k c.blocks)) [
    | inl h ↦ rw h (get-delete k k c.blocks ∙ rw (text_eq_refl k) refl)
    | inr h ↦ rw h (get_of_has k c.blocks h)
  ]

  cleared_max : (k : Text) (c : ChainCache V) → (cleared k c).max_blocks ≡ c.max_blocks
  cleared_max k c = elim (Bool-cases (has k c.blocks)) [ inl h ↦ rw h refl | inr h ↦ rw h refl ]

  stored_found :
      (p : Printer V) (k : Text) (v : V) (c : ChainCache V)
      → IsValid c
      → get k (store p k v c).blocks ≡ some v
  unfolding store trimmed
  stored_found p k v c h =
      let w = written p k v (cleared k c) in
      let found : get k w.blocks ≡ some v =
        get-set k k v (cleared k c).blocks ∙ rw (text_eq_refl k) refl in
      elim (Bool-cases (ltb w.max_blocks (length w.blocks))) [
        | inr e ↦ rw e found
        | inl e ↦ rw e (
            kept_last k v (cleared k c).blocks w.blocks w (cleared_gone k c) refl refl
              (omega (arith, ltb→lt w.max_blocks (length w.blocks) e, h.positive, cleared_max k c)))
      ]

  lookup-hit :
      (k : Text) (v : V) (c : ChainCache V) → get k c.blocks ≡ some v → (lookup k c).0 ≡ some v
  unfolding lookup
  lookup-hit k v c e = rw (e, lookup) refl

  -- `get` after `set` finds the value that was set, however full the cache is.
  pub get_after_set :
      (p : Printer V) (chain : Text) (index : ℕ) (value : V) (c : ChainCache V)
      → IsValid c
      → (lookup (make_key chain index) (store p (make_key chain index) value c)).0 ≡ some value
  get_after_set p chain index value c h =
      lookup-hit (make_key chain index) value _ (stored_found p (make_key chain index) value c h)
