-- ===== src/Cache/FileCache/Evict.antt =====
-- The kept size of a `FileCache` when entries are evicted (cache/file-cache.ts).
use memphis_v.Base.{
  ℕ, suc, ◌+◌, ◌<◌, ◌≡◌, refl, ap, sym, ◌∙◌, Text, true, ◌==◌, Option, none, some, [], ◌∷◌, length,
  map, sum, arith, inl, inr, Bool-cases, Option-cases,
}
use memphis_v.Base.Maps.{
  Map, get, has, set, delete, Distinct, get-delete, delete-Distinct, length-delete,
}
use memphis_v.Base.Texts.{text_eq, text_eq_iff}
use memphis_v.Cache.Oldest.{oldest_from, oldest_is_key, has_there, nameless}
use memphis_v.Cache.FileCache.{Entry, FileCache, evict, evict_oldest}
use memphis_v.Base.Maps.{delete_absent}

-- The sizes of all entries.
abbrev pub total_size : Map Entry → ℕ
total_size m = sum (map (λ e. e.1.size) m)

abbrev pub size_of : Option Entry → ℕ
size_of none = 0
size_of (some e) = e.size

pub total_size-set :
    (k : Text) (e : Entry) (m : Map Entry)
    → total_size (set k e m) + size_of (get k m) ≡ total_size m + e.size
unfolding set get
total_size-set k e [] = omega arith
total_size-set k e ((q, x) ∷ m) = ground (arith, total_size-set k e m)

total_size-delete :
    (k : Text) (m : Map Entry)
    → Distinct m
    → total_size (delete k m) + size_of (get k m) ≡ total_size m
unfolding delete get
total_size-delete k [] d = omega arith
total_size-delete k ((q, x) ∷ m) d = elim (Bool-cases (text_eq q k)) [
  | inl e ↦
      let same : q ≡ k = (text_eq_iff q k).0 e in
      rw (e, delete_absent k m (rw same at (d.0))) (omega arith)
  | inr e ↦ rw e (omega (arith, total_size-delete k m d.1))
]

-- The kept size is the sum of the sizes, no path stands twice and none is empty.
pub record IsExact (c : FileCache) : Type 0 where
  pub exact : c.current_size ≡ total_size c.entries
  pub distinct : Distinct c.entries
  pub named : get [] c.entries ≡ none

pub evict-IsExact : (path : Text) (c : FileCache) → IsExact c → IsExact (evict path c)
unfolding evict
evict-IsExact path c h = elim (Option-cases (get path c.entries)) [
  | inl o ↦ rw (o, evict) h
  | inr (e, o) ↦
      let size = total_size-delete path c.entries h.distinct in
      rw (o, evict)
        (record {
          exact = omega (arith, h.exact, rw o at (size));
          distinct = delete-Distinct path c.entries h.distinct;
          named = ground (arith, get-delete [] path c.entries, h.named);
        })
]

-- An eviction from a cache that holds entries takes one away and leaves the limit and what was absent.
pub record Smaller (c d : FileCache) : Type 0 where
  pub exact : IsExact d
  pub fewer : suc (length d.entries) ≡ length c.entries
  pub limit : d.max_size ≡ c.max_size
  pub absent : (k : Text) → get k c.entries ≡ none → get k d.entries ≡ none

evict-Smaller :
    (k : Text) (c : FileCache) → IsExact c → has k c.entries ≡ true → Smaller c (evict k c)
unfolding evict
evict-Smaller k c h there = elim (Option-cases (get k c.entries)) [
  | inl o ↦ absurd (ground (arith, o, there))
  | inr (e, o) ↦
      let exact = evict-IsExact k c h in
      let shorter = length-delete k c.entries h.distinct in
      rw (o, evict)
        (record {
          exact = rw (o, evict) at (exact);
          fewer = sym (rw there at (shorter));
          limit = refl;
          absent = λ q n. ground (arith, get-delete q k c.entries, n);
        })
]

pub evict_oldest-Smaller :
    (c : FileCache) → IsExact c → 0 < length c.entries → Smaller c (evict_oldest c)
unfolding evict_oldest oldest_from
evict_oldest-Smaller c h full = first c.entries refl
  where
    first : (m : Map Entry) → c.entries ≡ m → Smaller c (evict_oldest c)
    first [] e = absurd (omega (arith, full, ap length e))
    first ((q, x) ∷ m) e =
        let (k, found, from) = oldest_is_key (λ y. y.mtime) m q x.mtime in
        let there : has k c.entries ≡ true = ap (has k) e ∙ has_there q k x m from in
        let oldest : oldest_from (λ y. y.mtime) none c.entries ≡ some k =
          ap (oldest_from (λ y. y.mtime) none) e ∙ found in
        elim (Bool-cases (length k == 0)) [
          | inl z ↦ absurd (nameless k c.entries h.named there z)
          | inr z ↦ rw (oldest, z, evict_oldest) (evict-Smaller k c h there)
        ]
