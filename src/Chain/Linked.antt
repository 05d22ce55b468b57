-- ===== src/Chain/Linked.antt =====
-- The chains that `readAndValidateChainBlocks` accepts (infra/storage/chain-adapter.ts).
use memphis_v.Base.{
  ℕ, suc, true, ==_iff, ◌+◌, ◌≡◌, refl, sym, ◌∙◌, ap, Text, Option, none, some, List, [], ◌∷◌, ◌++◌,
  map, ◌↔◌, ◌⊎◌, inl, inr, ok, arith, length,
}
use native.Mathlib.Nat.{add-zero}
use memphis_v.Base.Texts.{text_eq_iff}
use memphis_v.Base.Fallible.{bind-ok, ok_inj}
use memphis_v.Chain.Json.{Platform, Number, natural, other}
use memphis_v.Chain.Block.{
  Block, genesis_prev_hash, hash_block, legacy_hash, validate_block_hash, check_link, validate_from,
  number_eq, follows, starts_chain,
}

-- The stored hash is that of the block, or the older one of its data alone.
abbrev pub IsSealed : Platform → Block → Type 0
IsSealed p b = (b.hash ≡ hash_block p b) ⊎ (b.hash ≡ legacy_hash p b)

-- Where a block can stand: first, or after a block.
abbrev pub Follows : Option Block → Block → Type 0
Follows none b = (b.index ≡ natural 1) × ((b.prev_hash ≡ []) ⊎ (b.prev_hash ≡ genesis_prev_hash))
Follows (some a) b =
    (k : ℕ) × (a.index ≡ natural k) × (b.index ≡ natural (k + 1)) × (b.prev_hash ≡ a.hash)

-- Every block is sealed and stands where it can.
abbrev pub LinkedFrom : Platform → Option Block → List Block → Type 0
LinkedFrom p before [] = Unit {0}
LinkedFrom p before (b ∷ bs) = IsSealed p b × Follows before b × LinkedFrom p (some b) bs

-- The index of the block before is positive, as it is in a chain from its first block on.
abbrev pub Positive : Option Block → Type 0
Positive none = Unit {0}
Positive (some a) = (k : ℕ) × (a.index ≡ natural (suc k))

natural_inj : (n k : ℕ) → natural n ≡ natural k → n ≡ k
natural_inj n k h = cc

Number-cases : (n : Number) → ((k : ℕ) × (n ≡ natural k)) ⊎ ((s : Text) × (n ≡ other s))
Number-cases (natural k) = inl (k, refl)
Number-cases (other s) = inr (s, refl)

number_eq_iff : (n : Number) (k : ℕ) → (number_eq n k ≡ true) ↔ (n ≡ natural k)
number_eq_iff (natural n) k =
    (λ h. ap natural ((==_iff n k).0 h), λ h. (==_iff n k).1 (natural_inj n k h))
number_eq_iff (other s) k = (λ h. absurd (cc), λ h. absurd (cc))

starts_chain_iff :
    (b : Block) → (starts_chain b ≡ true) ↔ ((b.prev_hash ≡ []) ⊎ (b.prev_hash ≡ genesis_prev_hash))
starts_chain_iff b =
    ground (arith, text_eq_iff b.prev_hash [], text_eq_iff b.prev_hash genesis_prev_hash)

hash-IsSealed :
    (p : Platform) (file : Text) (b : Block) → validate_block_hash p file b ≡ ok tt → IsSealed p b
unfolding validate_block_hash
hash-IsSealed p file b h =
    ground (arith, text_eq_iff b.hash (hash_block p b), text_eq_iff b.hash (legacy_hash p b))

sealed_passes :
    (p : Platform) (file : Text) (b : Block)
    → IsSealed p b
    → (number_eq b.index 1 ≡ true → starts_chain b ≡ true)
    → validate_block_hash p file b ≡ ok tt
unfolding validate_block_hash
sealed_passes p file b seal first =
    ground (arith, text_eq_iff b.hash (hash_block p b), text_eq_iff b.hash (legacy_hash p b))

follows_tt :
    (p : Platform) (a : Block) (file : Text) (b : Block)
    → check_link p (some a) file b ≡ ok tt
    → (follows b.index a.index ≡ true) × (b.prev_hash ≡ a.hash)
unfolding check_link
follows_tt p a file b h = ground (arith, text_eq_iff b.prev_hash a.hash)

follows_natural :
    (n m : Number) → follows n m ≡ true → (k : ℕ) × (m ≡ natural k) × (n ≡ natural (k + 1))
follows_natural n (natural k) h = (k, refl, (number_eq_iff n (k + 1)).0 h)
follows_natural n (other s) h = absurd (cc)

link-Follows :
    (p : Platform) (before : Option Block) (file : Text) (b : Block)
    → check_link p before file b ≡ ok tt
    → Follows before b
unfolding check_link
link-Follows p none file b h = ground (arith, number_eq_iff b.index 1, starts_chain_iff b)
link-Follows p (some a) file b h =
    let (on, q) = follows_tt p a file b h in
    let (k, at, next) = follows_natural b.index a.index on in (k, at, next, q)

Follows-link :
    (p : Platform) (before : Option Block) (file : Text) (b : Block)
    → Follows before b
    → check_link p before file b ≡ ok tt
unfolding check_link
Follows-link p none file b h = ground (arith, number_eq_iff b.index 1, starts_chain_iff b)
Follows-link p (some a) file b (k, e, i, q) =
    rw (e, (number_eq_iff b.index (k + 1)).1 i, (text_eq_iff b.prev_hash a.hash).1 q) refl

-- A block that follows another one is not the first, so the guard on a first block lets it pass.
first_starts :
    (before : Option Block) (b : Block)
    → Positive before
    → Follows before b
    → number_eq b.index 1 ≡ true
    → starts_chain b ≡ true
first_starts none b pos h e = (starts_chain_iff b).1 h.1
first_starts (some a) b (j, at) (k, e, i, q) one =
    let same : natural k ≡ natural (suc j) = cc in
    let first : natural (k + 1) ≡ natural 1 = sym i ∙ (number_eq_iff b.index 1).0 one in
    absurd (omega (arith, natural_inj k (suc j) same, natural_inj (k + 1) 1 first))

Follows-Positive :
    (before : Option Block) (b : Block) → Positive before → Follows before b → Positive (some b)
Follows-Positive none b pos h = (0, h.0)
Follows-Positive (some a) b pos (k, e, i, q) = (k, i ∙ ap natural (omega arith))

accepted_Linked :
    (p : Platform) (before : Option Block) (files : List (Text × Block)) (bs : List Block)
    → validate_from p before files ≡ ok bs
    → (map (λ e. e.1) files ≡ bs) × LinkedFrom p before bs
unfolding validate_from
accepted_Linked p before [] [] h = (refl, tt)
accepted_Linked p before [] (b ∷ bs) h = absurd (cc)
accepted_Linked p before ((file, b) ∷ rest) bs h =
    let (u, sealed, h1) = bind-ok _ _ bs h in
    let (v, stands, h2) = bind-ok _ _ bs h1 in
    let (cs, onward, h3) = bind-ok _ _ bs h2 in
    let (same, links) = accepted_Linked p (some b) rest cs onward in
    let e : b ∷ cs ≡ bs = ok_inj h3 in
    rw (← e) (
      ap (λ l. b ∷ l) same,
      (hash-IsSealed p file b sealed, link-Follows p before file b stands, links),
    )

Linked_accepted :
    (p : Platform) (before : Option Block) (files : List (Text × Block))
    → Positive before
    → LinkedFrom p before (map (λ e. e.1) files)
    → validate_from p before files ≡ ok (map (λ e. e.1) files)
unfolding validate_from
Linked_accepted p before [] pos h = refl
Linked_accepted p before ((file, b) ∷ rest) pos (seal, stands, links) =
    rw
      (
        sealed_passes p file b seal (first_starts before b pos stands),
        Follows-link p before file b stands,
        Linked_accepted p (some b) rest (Follows-Positive before b pos stands) links,
      )
      refl

-- `readAndValidateChainBlocks` accepts the blocks it loaded exactly when the first has index 1 and no
-- predecessor's hash, each later one has the next index and the hash of the one before, and each
-- stored hash is that of the block or the older one of its data; it returns them as they are.
pub validate_accepts :
    (p : Platform) (files : List (Text × Block)) (bs : List Block)
    → (validate_from p none files ≡ ok bs) ↔ ((map (λ e. e.1) files ≡ bs) × LinkedFrom p none bs)
validate_accepts p files bs = (
  accepted_Linked p none files bs,
  λ h. rw (← h.0) (Linked_accepted p none files tt (rw h.0 h.1)),
)

-- The last block, or the one before if there is none.
abbrev pub after : Option Block → List Block → Option Block
after before [] = before
after before (b ∷ bs) = after (some b) bs

pub LinkedFrom-snoc :
    (p : Platform) (before : Option Block) (bs : List Block) (b : Block)
    → LinkedFrom p before bs
    → IsSealed p b
    → Follows (after before bs) b
    → LinkedFrom p before (bs ++ b ∷ [])
LinkedFrom-snoc p before [] b links seal stands = (seal, stands, tt)
LinkedFrom-snoc p before (x ∷ bs) b links seal stands =
    (links.0, links.1, LinkedFrom-snoc p (some x) bs b links.2 seal stands)

-- The index of a block, 0 before the first one.
abbrev pub IndexIs : Option Block → ℕ → Type 0
IndexIs none k = k ≡ 0
IndexIs (some a) k = a.index ≡ natural k

Follows-index :
    (before : Option Block) (k : ℕ) (b : Block)
    → IndexIs before k
    → Follows before b
    → IndexIs (some b) (suc k)
Follows-index none k b at h = h.0 ∙ ap natural (omega (arith, at))
Follows-index (some a) k b at (j, e, i, q) =
    i ∙ ap natural (omega (arith, natural_inj j k (sym e ∙ at)))

-- The last block of a linked chain has the length of the chain for its index.
pub last_index :
    (p : Platform) (before : Option Block) (k : ℕ) (bs : List Block)
    → IndexIs before k
    → LinkedFrom p before bs
    → IndexIs (after before bs) (k + length bs)
last_index p before k [] at_k links = rw (add-zero k) at_k
last_index p before k (b ∷ bs) at_k links =
    let e : suc k + length bs ≡ k + suc (length bs) = omega arith in
    rw (← e) (last_index p (some b) (suc k) bs (Follows-index before k b at_k links.1) links.2)
