-- ===== src/Sync/Resolve/Winners.antt =====
-- Which block of a key the merged chain holds (sync/conflict-resolver.ts).
use memphis_v.Base.{
  ◌≡◌, ◌⊎◌, refl, ap, sym, ◌∙◌, Text, true, false, Option, none, some, List, [], ◌∷◌, arith, inl,
  inr, Bool-cases, Option-cases, if◌then◌else◌,
}
use memphis_v.Base.Int.{ltb_ℤ, ◌≤ℤ◌}
use memphis_v.Base.Maps.{Map, get, set, get-set}
use memphis_v.Base.Texts.{text_eq, text_eq_iff}
use memphis_v.Sync.Diff.{Platform, Block, block_key, add_all, keyed}
use memphis_v.Sync.Diff.Classes.{with_key}
use memphis_v.Sync.Resolve.{
  Strategy, last_write_wins, block_timestamp, replaces, merged_with, merge_all, merged,
}

-- The last block of a list, or what there was.
abbrev pub latest : List Block → Option Block → Option Block
latest [] o = o
latest (b ∷ bs) o = latest bs (some b)

-- A block against the one that is there, if any, and the blocks of a list one after another.
abbrev pub contest : Platform → Strategy → Block → Option Block → Block
contest p s b none = b
contest p s b (some c) = if replaces p s b c then b else c

abbrev pub winner : Platform → Strategy → List Block → Option Block → Option Block
winner p s [] o = o
winner p s (b ∷ bs) o = winner p s bs (some (contest p s b o))

get-add_all :
    (p : Platform) (bs : List Block) (m : Map Block) (k : Text)
    → get k (add_all p bs m) ≡ latest (with_key p k bs) (get k m)
unfolding add_all
get-add_all p [] m k = refl
get-add_all p (b ∷ bs) m k =
    get-add_all p bs (set (block_key p b) b m) k ∙ (elim (Bool-cases (text_eq (block_key p b) k)) [
      | inl e ↦ rw e (ap (latest (with_key p k bs)) (get-set k (block_key p b) b m ∙ rw e refl))
      | inr e ↦ rw e (ap (latest (with_key p k bs)) (get-set k (block_key p b) b m ∙ rw e refl))
    ])

module _ (p : Platform) (s : Strategy) (b : Block) (m : Map Block) (k : Text) where
  get-merged_own :
      text_eq (block_key p b) k ≡ true
      → get k (merged_with p s b (get (block_key p b) m) m) ≡ some (contest p s b (get k m))
  get-merged_own e =
      let same : block_key p b ≡ k = (text_eq_iff (block_key p b) k).0 e in
      let put : get k (set (block_key p b) b m) ≡ some b =
        get-set k (block_key p b) b m ∙ rw e refl in
      elim (Option-cases (get (block_key p b) m)) [
        | inl o ↦ let at : get k m ≡ none = rw same at (o) in rw (o, at) put
        | inr (c, o) ↦
            let at : get k m ≡ some c = rw same at (o) in
            elim (Bool-cases (replaces p s b c)) [
              | inl r ↦ rw (o, at, r) put
              | inr r ↦ rw (o, at, r) at
            ]
      ]

  get-merged_other :
      text_eq (block_key p b) k ≡ false
      → get k (merged_with p s b (get (block_key p b) m) m) ≡ get k m
  get-merged_other e =
      let kept : get k (set (block_key p b) b m) ≡ get k m =
        get-set k (block_key p b) b m ∙ rw e refl in
      elim (Option-cases (get (block_key p b) m)) [
        | inl o ↦ rw o kept
        | inr (c, o) ↦ elim (Bool-cases (replaces p s b c)) [
          | inl r ↦ rw (o, r) kept
          | inr r ↦ rw (o, r) refl
        ]
      ]

get-merge_all :
    (p : Platform) (s : Strategy) (bs : List Block) (m : Map Block) (k : Text)
    → get k (merge_all p s bs m) ≡ winner p s (with_key p k bs) (get k m)
unfolding merge_all
get-merge_all p s [] m k = refl
get-merge_all p s (b ∷ bs) m k =
    get-merge_all p s bs (merged_with p s b (get (block_key p b) m) m) k
    ∙ (elim (Bool-cases (text_eq (block_key p b) k)) [
      | inl e ↦ rw e (ap (winner p s (with_key p k bs)) (get-merged_own p s b m k e))
      | inr e ↦ rw e (ap (winner p s (with_key p k bs)) (get-merged_other p s b m k e))
    ])

-- The merged map holds under a key what the blocks with that key make of it.
pub get-merged :
    (p : Platform) (s : Strategy) (local remote : List Block) (k : Text)
    → get k (merged p s local remote)
      ≡ winner p s (with_key p k remote) (latest (with_key p k local) none)
unfolding merged get
get-merged p s local remote k =
    get-merge_all p s remote (keyed p local) k
    ∙ ap (winner p s (with_key p k remote)) (get-add_all p local [] k)

-- As new as every block of a list.
abbrev pub Newest : Platform → Block → List Block → Type 0
Newest p r [] = Unit {0}
Newest p r (b ∷ bs) = (block_timestamp p b ≤ℤ block_timestamp p r) × Newest p r bs

abbrev pub NotOlder : Platform → Block → Option Block → Type 0
NotOlder p r none = Unit {0}
NotOlder p r (some c) = block_timestamp p c ≤ℤ block_timestamp p r

abbrev pub In : Block → List Block → Type 0
In r [] = ⊥
In r (b ∷ bs) = (r ≡ b) ⊎ In r bs

contest_newer :
    (p : Platform) (b : Block) (o : Option Block)
    → (block_timestamp p b ≤ℤ block_timestamp p (contest p last_write_wins b o))
      × NotOlder p (contest p last_write_wins b o) o
      × ((contest p last_write_wins b o ≡ b) ⊎ (o ≡ some (contest p last_write_wins b o)))
unfolding replaces
contest_newer p b none = (omega arith, tt, inl refl)
contest_newer p b (some c) = elim (Bool-cases (ltb_ℤ (block_timestamp p b) (block_timestamp p c))) [
  | inl e ↦ rw e (ground (arith, e), omega arith, inr refl)
  | inr e ↦ rw e (omega arith, ground (arith, e), inl refl)
]

NotOlder-trans :
    (p : Platform) (w r : Block) (o : Option Block)
    → NotOlder p w o
    → block_timestamp p w ≤ℤ block_timestamp p r
    → NotOlder p r o
NotOlder-trans p w r none h k = tt
NotOlder-trans p w r (some c) h k = omega (arith, h, k)

origin :
    (b : Block) (bs : List Block) (o : Option Block) (w r : Block)
    → In r bs ⊎ ◌≡◌ {A = Option Block} (some w) (some r)
    → (w ≡ b) ⊎ (o ≡ some w)
    → ((r ≡ b) ⊎ In r bs) ⊎ (o ≡ some r)
origin b bs o w r (inl i) h = inl (inr i)
origin b bs o w r (inr e) (inl h) = inl (inl (cc))
origin b bs o w r (inr e) (inr h) = inr (cc)

winner-Newest :
    (p : Platform) (bs : List Block) (o : Option Block) (r : Block)
    → winner p last_write_wins bs o ≡ some r
    → Newest p r bs × NotOlder p r o × (In r bs ⊎ (o ≡ some r))
winner-Newest p [] none r h = absurd (cc)
winner-Newest p [] (some c) r h = let same : c ≡ r = cc in (tt, rw same (omega arith), inr h)
winner-Newest p (b ∷ bs) o r h =
    let (all, older, from) = winner-Newest p bs (some (contest p last_write_wins b o)) r h in
    let (first, second, which) = contest_newer p b o in
    (
      (omega (arith, first, older), all),
      NotOlder-trans p _ r o second older,
      origin b bs o _ r from which,
    )

-- Under last-write-wins the block that the merged map holds under a key is one of the blocks with
-- that key, and no block with the key on the remote side, nor the last one on the local side, has a
-- later time.
pub Newest-wins :
    (p : Platform) (local remote : List Block) (k : Text) (r : Block)
    → get k (merged p last_write_wins local remote) ≡ some r
    → Newest p r (with_key p k remote)
      × NotOlder p r (latest (with_key p k local) none)
      × (In r (with_key p k remote) ⊎ (latest (with_key p k local) none ≡ some r))
Newest-wins p local remote k r h =
    winner-Newest p (with_key p k remote) (latest (with_key p k local) none) r
      (sym (get-merged p last_write_wins local remote k) ∙ h)
