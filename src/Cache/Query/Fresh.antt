-- ===== src/Cache/Query/Fresh.antt =====
-- What a `QueryCache` returns, and how large it can grow (cache/query-cache.ts).
use memphis_v.Base.{
  ℕ, suc, ◌+◌, ◌≤◌, ◌<◌, ◌≡◌, refl, ap, sym, ◌∙◌, Text, true, false, ◌==◌, none, some, [], ◌∷◌,
  length, leb, leb→le, leb-false, arith, inl, inr, Bool-cases, Option-cases, if◌then◌else◌,
}
use memphis_v.Base.Maps.{
  Map, get, has, set, delete, Distinct, get-set, get-delete, length-set, length-delete,
  set-Distinct, delete-Distinct,
}
use memphis_v.Base.Texts.{filled_apart, text_eq_refl}
use memphis_v.Cache.Oldest.{oldest_from, oldest_is_key, has_there, nameless}
use memphis_v.Cache.Query.{Entry, QueryCache, is_expired, lookup, evict_oldest, with_room, store}

module _ {T : Type 0} where
  -- A cache that is not empty loses one of its entries, unless its oldest key is empty.
  evicted :
      (c : QueryCache T)
      → get [] c.entries ≡ none
      → 0 < length c.entries
      → (k : Text) × (has k c.entries ≡ true) × ((evict_oldest c).entries ≡ delete k c.entries)
  unfolding evict_oldest oldest_from
  evicted c named full = first c.entries refl
    where
      first :
          (m : Map (Entry T))
          → c.entries ≡ m
          → (k : Text) × (has k c.entries ≡ true) × ((evict_oldest c).entries ≡ delete k c.entries)
      first [] e = absurd (omega (arith, full, ap length e))
      first ((q, x) ∷ m) e =
          let (k, found, from) = oldest_is_key (λ e. e.timestamp) m q x.timestamp in
          let there : has k c.entries ≡ true = ap (has k) e ∙ has_there q k x m from in
          let oldest : oldest_from (λ e. e.timestamp) none c.entries ≡ some k =
            ap (oldest_from (λ e. e.timestamp) none) e ∙ found in
          (
            k,
            there,
            elim (Bool-cases (length k == 0)) [
              | inl z ↦ absurd (nameless k c.entries named there z)
              | inr z ↦ rw (oldest, z, evict_oldest) refl
            ],
          )

set-bounded :
    {T : Type 0} (k : Text) (e : Entry T) (m : Map (Entry T)) → length (set k e m) ≤ suc (length m)
set-bounded k e m = ground (arith, length-set k e m)

deleted-length :
    {T : Type 0} (k : Text) (m : Map (Entry T))
    → Distinct m
    → has k m ≡ true
    → suc (length (delete k m)) ≡ length m
deleted-length k m d h = sym (rw h at (length-delete k m d))

module _ {T : Type 0} where
  room-max_age : (c : QueryCache T) → (with_room c).max_age ≡ c.max_age
  unfolding evict_oldest
  room-max_age c = elim (Bool-cases (leb c.max_size (length c.entries))) [
    | inr f ↦ rw f refl
    | inl f ↦ elim (Option-cases (oldest_from (λ e. e.timestamp) none c.entries)) [
      | inl o ↦ rw (f, o, evict_oldest) refl
      | inr (k, o) ↦ elim (Bool-cases (length k == 0)) [
        | inl z ↦ rw (f, o, z, evict_oldest) refl
        | inr z ↦ rw (f, o, z, evict_oldest) refl
      ]
    ]
  ]

  roomy :
      (c : QueryCache T)
      → 1 ≤ c.max_size
      → length c.entries ≤ c.max_size
      → get [] c.entries ≡ none
      → Distinct c.entries
      → (length (with_room c).entries < c.max_size)
        × Distinct (with_room c).entries
        × (get [] (with_room c).entries ≡ none)
  roomy c positive small named d = elim (Bool-cases (leb c.max_size (length c.entries))) [
    | inr f ↦ rw f (leb-false c.max_size (length c.entries) f, d, named)
    | inl f ↦
        let at_max = leb→le c.max_size (length c.entries) f in
        let (k, there, gone) = evicted c named (omega (arith, positive, at_max)) in
        rw (f, gone)
          (
            omega (arith, small, deleted-length k c.entries d there),
            delete-Distinct k c.entries d,
            ground (arith, get-delete [] k c.entries, named),
          )
  ]

  -- `set` on a cache within its limit, which is at least 1, keeps it within the limit, as long as no
  -- query is the empty text.
  pub query_store_bounded :
      (now : ℕ) (query : Text) (result : T) (c : QueryCache T)
      → 1 ≤ c.max_size
      → length c.entries ≤ c.max_size
      → get [] c.entries ≡ none
      → Distinct c.entries
      → (length query == 0) ≡ false
      → (length (store now query result c).entries ≤ c.max_size)
        × (get [] (store now query result c).entries ≡ none)
        × Distinct (store now query result c).entries
  unfolding store
  query_store_bounded now query result c positive small named d filled =
      let (room, distinct, unnamed) = roomy c positive small named d in
      let e : Entry T = record { content = result; timestamp = now; hits = 0 } in
      (
        omega (arith, room, set-bounded query e (with_room c).entries),
        rw (get-set [] query e (with_room c).entries, filled_apart query filled) unnamed,
        set-Distinct query e (with_room c).entries distinct,
      )

  stored :
      (now : ℕ) (query : Text) (result : T) (c : QueryCache T)
      → get query (store now query result c).entries
        ≡ some (record { content = result; timestamp = now; hits = 0 })
  unfolding store
  stored now query result c =
      get-set query query _ (with_room c).entries ∙ rw (text_eq_refl query) refl

  store-max_age :
      (now : ℕ) (query : Text) (result : T) (c : QueryCache T)
      → (store now query result c).max_age ≡ c.max_age
  unfolding store
  store-max_age now query result c = room-max_age c

  -- `get` after `set` returns the result that was set until maxAge has passed, and nothing later.
  pub fresh_until :
      (now later : ℕ) (query : Text) (result : T) (c : QueryCache T)
      → (lookup later query (store now query result c)).0
        ≡ (if leb later (now + c.max_age) then some result else none)
  unfolding lookup
  fresh_until now later query result c =
      let e : Entry T = record { content = result; timestamp = now; hits = 0 } in
      let found : get query (store now query result c).entries ≡ some e =
        stored now query result c in
      let kept : (store now query result c).max_age ≡ c.max_age =
        store-max_age now query result c in
      elim (Bool-cases (leb later (now + c.max_age))) [
        | inl f ↦
            let live : is_expired later (store now query result c) e ≡ false =
              ground (arith, kept, f) in
            rw (found, live, f, lookup) refl
        | inr f ↦
            let dead : is_expired later (store now query result c) e ≡ true =
              ground (arith, kept, f) in
            rw (found, dead, f, lookup) refl
      ]
