-- ===== src/Sync/Resolve/Order.antt =====
-- The chain that `resolveChainConflicts` returns: sorted, and each key once
-- (sync/conflict-resolver.ts).
use memphis_v.Base.{
  ◌≡◌, refl, ap, ◌∙◌, Text, true, false, Option, none, some, List, [], ◌∷◌, arith, inl, inr,
  Bool-cases,
}
use memphis_v.Base.Maps.{Map, get, values, Distinct, set-Distinct}
use memphis_v.Base.Texts.{text_eq, text_eq_iff}
use memphis_v.Sync.Diff.{Platform, Block, block_key, keyed}
use memphis_v.Sync.Diff.Classes.{with_key, Keyed, set-Keyed, add_all-Keyed, add_all-Distinct}
use memphis_v.Sync.Resolve.{
  Strategy, replaces, merged_with, merge_all, merged, comes_before, insert_block, sort_blocks,
  resolve_chain_conflicts,
}
use memphis_v.Sync.Resolve.Winners.{latest, winner, get-merged}

-- No block comes strictly before the one in front of it.
pub data IsSorted (p : Platform) : List Block → Type 0 where
  none_left : IsSorted p []
  one : (a : Block) → IsSorted p (a ∷ [])
  more :
      (a b : Block) (bs : List Block)
      → comes_before p b a ≡ false
      → IsSorted p (b ∷ bs)
      → IsSorted p (a ∷ b ∷ bs)

before_asym : (p : Platform) (a b : Block) → comes_before p a b ≡ true → comes_before p b a ≡ false
unfolding comes_before
before_asym p a b h = ground (arith, h)

insert-IsSorted :
    (p : Platform) (a : Block) (bs : List Block) → IsSorted p bs → IsSorted p (insert_block p a bs)
unfolding insert_block
insert-IsSorted p a [] s = one a
insert-IsSorted p a (b ∷ []) s = elim (Bool-cases (comes_before p b a)) [
  | inl e ↦ rw e (more b a [] (before_asym p b a e) (one a))
  | inr e ↦ rw e (more a b [] e s)
]
insert-IsSorted p a (b ∷ c ∷ bs) (more x y z h s) = elim (Bool-cases (comes_before p b a)) [
  | inr e ↦ rw e (more a b (c ∷ bs) e (more b c bs h s))
  | inl e ↦ elim (Bool-cases (comes_before p c a)) [
    | inl f ↦ rw (e, f) (more b c _ h (rw f at (insert-IsSorted p a (c ∷ bs) s)))
    | inr f ↦ rw (e, f) (more b a (c ∷ bs) (before_asym p b a e) (more a c bs f s))
  ]
]

sort-IsSorted : (p : Platform) (bs : List Block) → IsSorted p (sort_blocks p bs)
unfolding sort_blocks
sort-IsSorted p [] = none_left
sort-IsSorted p (b ∷ bs) = insert-IsSorted p b (sort_blocks p bs) (sort-IsSorted p bs)

-- Inserting a block shows among the blocks with its key and nowhere else.
insert_other :
    (p : Platform) (k : Text) (a : Block) (bs : List Block)
    → text_eq (block_key p a) k ≡ false
    → with_key p k (insert_block p a bs) ≡ with_key p k bs
unfolding insert_block
insert_other p k a [] h = rw h refl
insert_other p k a (b ∷ bs) h = elim (Bool-cases (comes_before p b a)) [
  | inr e ↦ rw (e, h) refl
  | inl e ↦ rw (e, insert_other p k a bs h) refl
]

filled : {a : Block} {bs : List Block} → a ∷ bs ≡ [] → ⊥
filled h = cc

insert_alone :
    (p : Platform) (k : Text) (a : Block) (bs : List Block)
    → text_eq (block_key p a) k ≡ true
    → with_key p k bs ≡ []
    → with_key p k (insert_block p a bs) ≡ a ∷ []
unfolding insert_block
insert_alone p k a [] h n = rw h refl
insert_alone p k a (b ∷ bs) h n = elim (Bool-cases (text_eq (block_key p b) k)) [
  | inl own ↦ absurd (filled (rw own at (n)))
  | inr apart ↦
      let rest : with_key p k bs ≡ [] = rw apart at (n) in
      elim (Bool-cases (comes_before p b a)) [
        | inr e ↦ rw (e, h, apart, rest) refl
        | inl e ↦ rw (e, apart) (insert_alone p k a bs h rest)
      ]
]

abbrev pub to_list : Option Block → List Block
to_list none = []
to_list (some b) = b ∷ []

sorted-key :
    (p : Platform) (k : Text) (m : Map Block)
    → Keyed p m
    → Distinct m
    → with_key p k (sort_blocks p (values m)) ≡ to_list (get k m)
unfolding sort_blocks get
sorted-key p k [] h d = refl
sorted-key p k ((q, b) ∷ m) h d = elim (Bool-cases (text_eq q k)) [
  | inl e ↦
      let same : q ≡ k = (text_eq_iff q k).0 e in
      let own : text_eq (block_key p b) k ≡ true = (text_eq_iff (block_key p b) k).1 (h.0 ∙ same) in
      let rest = sorted-key p k m h.1 d.1 ∙ ap to_list (rw same at (d.0)) in
      rw e (insert_alone p k b (sort_blocks p (values m)) own rest)
  | inr e ↦
      let apart : text_eq (block_key p b) k ≡ false = rw h.0 e in
      rw e (insert_other p k b (sort_blocks p (values m)) apart ∙ sorted-key p k m h.1 d.1)
]

merged_with-Keyed :
    (p : Platform) (s : Strategy) (b : Block) (o : Option Block) (m : Map Block)
    → Keyed p m
    → Distinct m
    → Keyed p (merged_with p s b o m) × Distinct (merged_with p s b o m)
merged_with-Keyed p s b none m h d = (set-Keyed p b m h, set-Distinct (block_key p b) b m d)
merged_with-Keyed p s b (some c) m h d = elim (Bool-cases (replaces p s b c)) [
  | inl r ↦ rw r (set-Keyed p b m h, set-Distinct (block_key p b) b m d)
  | inr r ↦ rw r (h, d)
]

merge_all-Keyed :
    (p : Platform) (s : Strategy) (bs : List Block) (m : Map Block)
    → Keyed p m
    → Distinct m
    → Keyed p (merge_all p s bs m) × Distinct (merge_all p s bs m)
unfolding merge_all
merge_all-Keyed p s [] m h d = (h, d)
merge_all-Keyed p s (b ∷ bs) m h d =
    let (keyed_on, distinct) = merged_with-Keyed p s b (get (block_key p b) m) m h d in
    merge_all-Keyed p s bs _ keyed_on distinct

-- `resolveChainConflicts` returns a list in the order of index and time that holds for every key what
-- the blocks with that key make of it: of the local ones the last, and then each remote one in turn,
-- which stays or takes its place by the strategy; nothing for a key that neither side has.
pub resolve_holds :
    (p : Platform) (s : Strategy) (local remote : List Block)
    → IsSorted p (resolve_chain_conflicts p s local remote)
      × ((k : Text)
          → with_key p k (resolve_chain_conflicts p s local remote)
            ≡ to_list (winner p s (with_key p k remote) (latest (with_key p k local) none)))
unfolding resolve_chain_conflicts merged
resolve_holds p s local remote =
    let (keyed_on, distinct) =
      merge_all-Keyed p s remote (keyed p local) (add_all-Keyed p local [] tt)
        (add_all-Distinct p local [] tt) in
    (
      sort-IsSorted p _,
      λ k.
          sorted-key p k (merged p s local remote) keyed_on distinct
          ∙ ap to_list (get-merged p s local remote k),
    )
