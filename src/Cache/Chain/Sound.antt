-- ===== src/Cache/Chain/Sound.antt =====
-- The two maps and the estimate of a `ChainCache` through each step (infra/cache/chain-cache.ts).
use memphis_v.Base.{
  ℕ, suc, ◌≤◌, ◌<◌, ◌≡◌, refl, ap, sym, ◌∙◌, Text, true, false, ◌==◌, none, some, [], ◌∷◌, ◌++◌,
  codes, length, ltb, ltb→lt, ltb-false, arith, inl, inr, Bool-cases, Option-cases, if◌then◌else◌,
}
use memphis_v.Base.Lists.{length-append}
use memphis_v.Base.Maps.{
  Map, get, has, delete, Distinct, get-set, get-delete, set-Distinct, delete-Distinct, length-set,
  length-delete, has-set, has-delete, or_zero, total, total-set, total-delete, total-ge,
}
use memphis_v.Base.Texts.{filled_apart, text_eq, text_eq_refl}
use memphis_v.Chain.Names.{to_string}
use memphis_v.Cache.Chain.{
  Printer, ChainCache, estimate_block_bytes, make_key, without, cleared, written, drop_oldest,
  trimmed,
}

-- Both maps have the same keys, none of them empty, and the estimate is the sum of the sizes.
pub record IsSound {V : Type 0} (c : ChainCache V) : Type 0 where
  pub distinct : Distinct c.blocks
  pub distinct_sizes : Distinct c.block_sizes
  pub same : (k : Text) → has k c.blocks ≡ has k c.block_sizes
  pub named : get [] c.blocks ≡ none
  pub exact : c.estimated_bytes ≡ total c.block_sizes

pub empty_of : (k : Text) → (length k == 0) ≡ true → k ≡ []
empty_of [] h = refl
empty_of (c ∷ k) h = absurd (ground (arith, h))

some_has : true ≡ false → ⊥
some_has h = cc

unnamed : {V : Type 0} (k : Text) (v : V) (m : Map V) → k ≡ [] → get [] ((k, v) ∷ m) ≡ none → ⊥
unfolding get text_eq
unnamed k v m e h = absurd (ground (arith, e, h))

pub get_of_has : {V : Type 0} (k : Text) (m : Map V) → has k m ≡ false → get k m ≡ none
get_of_has k m h = elim (Option-cases (get k m)) [
  | inl e ↦ e
  | inr (v, e) ↦ absurd (some_has (rw e at (h)))
]

first_key : {V : Type 0} (k : Text) (v : V) (m : Map V) → get k ((k, v) ∷ m) ≡ some v
unfolding get
first_key k v m = rw (text_eq_refl k) refl

pub make_key-filled : (chain : Text) (index : ℕ) → (length (make_key chain index) == 0) ≡ false
make_key-filled chain index =
    let n = length-append chain (codes ":" ++ to_string index) in ground (arith, n)

pub delete-le :
    {V : Type 0} (k : Text) (m : Map V)
    → length m ≡ (if has k m then suc (length (delete k m)) else length (delete k m))
    → length (delete k m) ≤ length m
delete-le k m h = ground (arith, h)

module _ {V : Type 0} where
  pub without-IsSound : (k : Text) (c : ChainCache V) → IsSound c → IsSound (without k c)
  without-IsSound k c s = record {
    distinct = delete-Distinct k c.blocks s.distinct;
    distinct_sizes = delete-Distinct k c.block_sizes s.distinct_sizes;
    same = λ q. rw (has-delete q k c.blocks, has-delete q k c.block_sizes, s.same q) refl;
    named = ground (arith, get-delete [] k c.blocks, s.named);
    exact = omega (arith, s.exact, total-delete k c.block_sizes s.distinct_sizes);
  }

  -- The two maps and the estimate after `set` wrote, before it makes room.
  pub written-IsSound :
      (p : Printer V) (k : Text) (v : V) (c : ChainCache V)
      → (length k == 0) ≡ false
      → IsSound c
      → IsSound (written p k v (cleared k c))
  written-IsSound p k v c filled s = elim (Bool-cases (has k c.blocks)) [
    | inl h ↦ rw h (record {
      distinct = set-Distinct k v _ (delete-Distinct k c.blocks s.distinct);
      distinct_sizes = set-Distinct k _ c.block_sizes s.distinct_sizes;
      same = λ q.
          rw
            (
              has-set q k v (delete k c.blocks),
              has-delete q k c.blocks,
              has-set q k (estimate_block_bytes p k v) c.block_sizes,
              s.same q,
            )
            (ground arith);
      named =
          rw
            (
              get-set [] k v (delete k c.blocks),
              filled_apart k filled,
              get-delete [] k c.blocks,
              filled_apart k filled,
            )
            s.named;
      exact = omega (
        arith,
        s.exact,
        total-set k (estimate_block_bytes p k v) c.block_sizes,
        total-ge k c.block_sizes,
      );
    })
    | inr h ↦ rw h (record {
      distinct = set-Distinct k v c.blocks s.distinct;
      distinct_sizes = set-Distinct k _ c.block_sizes s.distinct_sizes;
      same = λ q.
          rw
            (
              has-set q k v c.blocks,
              has-set q k (estimate_block_bytes p k v) c.block_sizes,
              s.same q,
            )
            refl;
      named = rw (get-set [] k v c.blocks, filled_apart k filled) s.named;
      exact =
          let absent = get_of_has k c.block_sizes (sym (s.same k) ∙ h) in
          omega (
            arith,
            s.exact,
            total-set k (estimate_block_bytes p k v) c.block_sizes,
            ap or_zero absent,
          );
    })
  ]

  drop-IsSound : (m : Map V) (c : ChainCache V) → IsSound c → IsSound (drop_oldest m c)
  drop-IsSound [] c s = s
  drop-IsSound ((k, v) ∷ m) c s = elim (Bool-cases (length k == 0)) [
    | inl e ↦ rw e s
    | inr e ↦ rw e (without-IsSound k c s)
  ]

  drop-bounded :
      (m : Map V) (c : ChainCache V)
      → c.blocks ≡ m
      → IsSound c
      → length c.blocks ≤ suc c.max_blocks
      → c.max_blocks < length c.blocks
      → (length (drop_oldest m c).blocks ≤ c.max_blocks)
        × ((drop_oldest m c).max_blocks ≡ c.max_blocks)
  drop-bounded [] c at s h full = absurd (omega (arith, full, ap length at))
  drop-bounded ((k, v) ∷ m) c at s h full = elim (Bool-cases (length k == 0)) [
    | inl e ↦ absurd (unnamed k v m (empty_of k e) (rw at at (s.named)))
    | inr e ↦
        let there : has k c.blocks ≡ true = ap (has k) at ∙ rw (first_key k v m) refl in
        rw e (omega (arith, h, rw there at (length-delete k c.blocks s.distinct)), refl)
  ]

  pub trimmed-IsSound : (c : ChainCache V) → IsSound c → IsSound (trimmed c)
  unfolding trimmed
  trimmed-IsSound c s = elim (Bool-cases (ltb c.max_blocks (length c.blocks))) [
    | inr e ↦ rw e s
    | inl e ↦ rw e (drop-IsSound c.blocks c s)
  ]

  -- At most one block too many is one that fits.
  pub trimmed-bounded :
      (c : ChainCache V)
      → IsSound c
      → length c.blocks ≤ suc c.max_blocks
      → (length (trimmed c).blocks ≤ c.max_blocks) × ((trimmed c).max_blocks ≡ c.max_blocks)
  unfolding trimmed
  trimmed-bounded c s h = elim (Bool-cases (ltb c.max_blocks (length c.blocks))) [
    | inr e ↦ rw e (ltb-false c.max_blocks (length c.blocks) e, refl)
    | inl e ↦ rw e (drop-bounded c.blocks c refl s h (ltb→lt c.max_blocks (length c.blocks) e))
  ]

  pub written-length :
      (p : Printer V) (k : Text) (v : V) (c : ChainCache V)
      → IsSound c
      → (length (written p k v (cleared k c)).blocks ≤ suc (length c.blocks))
        × ((written p k v (cleared k c)).max_blocks ≡ c.max_blocks)
  written-length p k v c s = elim (Bool-cases (has k c.blocks)) [
    | inl h ↦
        let gone : has k (delete k c.blocks) ≡ false =
          has-delete k k c.blocks ∙ rw (text_eq_refl k) refl in
        rw h (
          omega (
            arith,
            rw gone at (length-set k v (delete k c.blocks)),
            rw h at (length-delete k c.blocks s.distinct),
          ),
          refl,
        )
    | inr h ↦ rw h (omega (arith, rw h at (length-set k v c.blocks)), refl)
  ]
