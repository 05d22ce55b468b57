-- ===== src/Cache/Chain/Valid.antt =====
-- What every call on a `ChainCache` keeps (infra/cache/chain-cache.ts).
use memphis_v.Base.{
  ℕ, suc, ◌≤◌, ◌≡◌, refl, ap, sym, ◌∙◌, Text, true, false, ◌==◌, Option, none, some, List, [], ◌∷◌,
  ◌++◌, codes, length, ltb, arith, inl, inr, Bool-cases, Option-cases,
}
use memphis_v.Base.Maps.{
  Map, get, has, set, delete, Distinct, get-set, get-delete, set-Distinct, delete-Distinct,
  length-set, length-delete, has-set, has-delete,
}
use memphis_v.Base.Texts.{text_eq, text_eq_iff, text_eq_refl}
use memphis_v.Cache.Chain.{
  Printer, ChainCache, make_key, new_cache, lookup, without, cleared, written, store, keys_from,
  without_all, invalidate_chain, invalidate, clear, Op, get_block, set_block, drop_chain,
  drop_block, drop_all, perform, run,
}
use memphis_v.Cache.Chain.Sound.{
  IsSound, make_key-filled, delete-le, without-IsSound, written-IsSound, written-length,
  trimmed-IsSound, trimmed-bounded,
}

pub record IsValid {V : Type 0} (c : ChainCache V) : Type 0 where
  pub positive : 1 ≤ c.max_blocks
  pub bounded : length c.blocks ≤ c.max_blocks
  pub sound : IsSound c

module _ {V : Type 0} where
  -- A block that is deleted and set again, at the end.
  module _ (k : Text) (v : V) (m : Map V) where
    moved_length : Distinct m → has k m ≡ true → length (set k v (delete k m)) ≡ length m
    moved_length d h =
        let gone : has k (delete k m) ≡ false = has-delete k k m ∙ rw (text_eq_refl k) refl in
        rw gone at (length-set k v (delete k m)) ∙ sym (rw h at (length-delete k m d))

    moved_named : get k m ≡ some v → get [] m ≡ none → get [] (set k v (delete k m)) ≡ none
    moved_named e n =
        ground (arith, get-set [] k v (delete k m), get-delete [] k m, text_eq_iff k [], e, n)

  moved_has :
      (q k : Text) (v : V) (m : Map V) → has k m ≡ true → has q (set k v (delete k m)) ≡ has q m
  moved_has q k v m h = elim (Bool-cases (text_eq k q)) [
    | inl e ↦
        let same : k ≡ q = (text_eq_iff k q).0 e in
        rw (has-set q k v (delete k m), e) (sym (ap (λ x. has x m) (sym same) ∙ h))
    | inr e ↦ rw (has-set q k v (delete k m), e, has-delete q k m, e) refl
  ]

  pub store-IsValid :
      (p : Printer V) (k : Text) (v : V) (c : ChainCache V)
      → (length k == 0) ≡ false
      → IsValid c
      → IsValid (store p k v c)
  unfolding store
  store-IsValid p k v c filled h =
      let sound = written-IsSound p k v c filled h.sound in
      let (longer, kept) = written-length p k v c h.sound in
      let fits : length (written p k v (cleared k c)).blocks
          ≤ suc (written p k v (cleared k c)).max_blocks =
        omega (arith, longer, kept, h.bounded) in
      let (low, same) = trimmed-bounded (written p k v (cleared k c)) sound fits in
      record {
        positive = omega (arith, same, kept, h.positive);
        bounded = omega (arith, low, same);
        sound = trimmed-IsSound _ sound;
      }

  lookup-IsValid : (k : Text) (c : ChainCache V) → IsValid c → IsValid (lookup k c).1
  unfolding lookup
  lookup-IsValid k c h = elim (Option-cases (get k c.blocks)) [
    | inl e ↦
        rw (e, lookup)
          (record {
            positive = h.positive;
            bounded = h.bounded;
            sound = record {
              distinct = h.sound.distinct;
              distinct_sizes = h.sound.distinct_sizes;
              same = h.sound.same;
              named = h.sound.named;
              exact = h.sound.exact;
            };
          })
    | inr (v, e) ↦
        rw (e, lookup)
          (record {
            positive = h.positive;
            bounded = rw (moved_length k v c.blocks h.sound.distinct (rw e refl)) h.bounded;
            sound = record {
              distinct = set-Distinct k v _ (delete-Distinct k c.blocks h.sound.distinct);
              distinct_sizes = h.sound.distinct_sizes;
              same = λ q. moved_has q k v c.blocks (rw e refl) ∙ h.sound.same q;
              named = moved_named k v c.blocks e h.sound.named;
              exact = h.sound.exact;
            };
          })
  ]

  without-IsValid : (k : Text) (c : ChainCache V) → IsValid c → IsValid (without k c)
  without-IsValid k c h = record {
    positive = h.positive;
    bounded =
        omega (arith, h.bounded, delete-le k c.blocks (length-delete k c.blocks h.sound.distinct));
    sound = without-IsSound k c h.sound;
  }

  without_all-IsValid : (ks : List Text) (c : ChainCache V) → IsValid c → IsValid (without_all ks c)
  without_all-IsValid [] c h = h
  without_all-IsValid (k ∷ ks) c h = without_all-IsValid ks (without k c) (without-IsValid k c h)

  -- The counters do not matter.
  recounted : (n : ℕ) (c : ChainCache V) → IsValid c → IsValid (record c { invalidations = n })
  recounted n c h = record {
    positive = h.positive;
    bounded = h.bounded;
    sound = record {
      distinct = h.sound.distinct;
      distinct_sizes = h.sound.distinct_sizes;
      same = h.sound.same;
      named = h.sound.named;
      exact = h.sound.exact;
    };
  }

  invalidate_chain-IsValid :
      (chain : Text) (c : ChainCache V) → IsValid c → IsValid (invalidate_chain chain c).1
  unfolding invalidate_chain
  invalidate_chain-IsValid chain c h =
      let keys = keys_from (chain ++ codes ":") c.blocks in
      let valid = without_all-IsValid keys c h in
      elim (Bool-cases (ltb 0 (length keys))) [
        | inl e ↦ rw e (recounted _ _ valid)
        | inr e ↦ rw e valid
      ]

  invalidate-IsValid : (k : Text) (c : ChainCache V) → IsValid c → IsValid (invalidate k c).1
  unfolding invalidate
  invalidate-IsValid k c h = elim (Bool-cases (has k c.blocks)) [
    | inl e ↦ rw e (recounted _ _ (without-IsValid k c h))
    | inr e ↦ rw e h
  ]

  clear-IsValid : (c : ChainCache V) → IsValid c → IsValid (clear c)
  unfolding clear get
  clear-IsValid c h = elim (Bool-cases (ltb 0 (length c.blocks))) [
    | inr e ↦ rw e h
    | inl e ↦ rw e (record {
      positive = h.positive;
      bounded = omega arith;
      sound = record {
        distinct = tt;
        distinct_sizes = tt;
        same = λ k. refl;
        named = refl;
        exact = refl;
      };
    })
  ]

  perform-IsValid :
      (p : Printer V) (op : Op V) (c : ChainCache V) → IsValid c → IsValid (perform p op c)
  unfolding perform
  perform-IsValid p (get_block chain index) c h = lookup-IsValid (make_key chain index) c h
  perform-IsValid p (set_block chain index value) c h =
      store-IsValid p (make_key chain index) value c (make_key-filled chain index) h
  perform-IsValid p (drop_chain chain) c h = invalidate_chain-IsValid chain c h
  perform-IsValid p (drop_block chain index) c h = invalidate-IsValid (make_key chain index) c h
  perform-IsValid p drop_all c h = clear-IsValid c h

  run_from-IsValid :
      (p : Printer V) (ops : List (Op V)) (c : ChainCache V) → IsValid c → IsValid (run p ops c)
  run_from-IsValid p [] c h = h
  run_from-IsValid p (op ∷ ops) c h =
      run_from-IsValid p ops (perform p op c) (perform-IsValid p op c h)

  -- After any calls on a new chain cache it holds at most maxBlocks blocks, and at least one is allowed;
  -- no key stands twice, the sizes are kept for the keys of the blocks and no others, and
  -- estimatedBytes is the sum of those sizes.
  pub cache_run-IsValid :
      (p : Printer V) (max_blocks : Option ℕ) (ops : List (Op V))
      → IsValid (run p ops (new_cache max_blocks))
  unfolding new_cache get
  cache_run-IsValid p max_blocks ops = run_from-IsValid p ops (new_cache max_blocks) (record {
    positive = omega arith;
    bounded = omega arith;
    sound = record {
      distinct = tt;
      distinct_sizes = tt;
      same = λ k. refl;
      named = refl;
      exact = refl;
    };
  })
