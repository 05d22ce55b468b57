-- ===== src/Chain/Tamper.antt =====
-- What the hash of the last block says of a whole chain (infra/storage/chain-adapter.ts).
use memphis_v.Base.{
  ℕ, suc, ◌≡◌, refl, sym, ap, ◌∙◌, Text, Option, none, some, List, [], ◌∷◌, ◌++◌, inr, codes,
  length, arith,
}
use native.Mathlib.Nat.{zero-add}
use memphis_v.Base.Texts.{text_eq}
use memphis_v.Chain.Json.{
  Platform, Number, natural, Json, number, string, object, Members, no_members, sort_value, field,
}
use memphis_v.Chain.Json.Canonical.{Distinct, sorted_field, field-sort}
use memphis_v.Chain.Block.{Block, unhashed, hash_block, legacy_hash}
use memphis_v.Chain.Directory.{last}
use memphis_v.Chain.Append.{last_hash}
use memphis_v.Chain.Linked.{LinkedFrom, after, IndexIs, last_index}

-- No two contents have one digest: SHA-256 gives different texts different digests, and the
-- canonical prints of blocks that differ are different.
abbrev pub NoCollision : Platform → Type 0
NoCollision p =
    (b c : Block)
    → hash_block p b ≡ hash_block p c
    → sort_value p (object (unhashed b)) ≡ sort_value p (object (unhashed c))

-- Equal in every field, the data up to the order of its keys.
pub record Alike (p : Platform) (b c : Block) : Type 0 where
  pub index : b.index ≡ c.index
  pub timestamp : b.timestamp ≡ c.timestamp
  pub chain : b.chain ≡ c.chain
  pub payload : sort_value p (object b.payload) ≡ sort_value p (object c.payload)
  pub prev_hash : b.prev_hash ≡ c.prev_hash
  pub hash : b.hash ≡ c.hash

abbrev pub AllAlike : Platform → List Block → List Block → Type 0
AllAlike p [] [] = Unit {0}
AllAlike p (b ∷ bs) (c ∷ cs) = Alike p b c × AllAlike p bs cs
AllAlike p _ _ = ⊥

-- Every hash is the one that covers the whole block.
abbrev pub AllHashed : Platform → List Block → Type 0
AllHashed p [] = Unit {0}
AllHashed p (b ∷ bs) = (b.hash ≡ hash_block p b) × AllHashed p bs

number_inj : {m n : Number} → ◌≡◌ {A = Option Json} (some (number m)) (some (number n)) → m ≡ n
number_inj h = cc

string_inj : {s t : Text} → ◌≡◌ {A = Option Json} (some (string s)) (some (string t)) → s ≡ t
string_inj h = cc

some_inj : {v w : Json} → ◌≡◌ {A = Option Json} (some v) (some w) → v ≡ w
some_inj h = cc

unhashed-Distinct : (b : Block) → Distinct (unhashed b)
unfolding field text_eq
unhashed-Distinct b = (refl, (refl, (refl, (refl, (refl, tt)))))

abbrev entries_of : Json → Members
entries_of (object ms) = ms
entries_of _ = no_members

sorted_eq :
    (p : Platform) (b c : Block) (key : Text)
    → sort_value p (object (unhashed b)) ≡ sort_value p (object (unhashed c))
    → sorted_field p (field key (unhashed b)) ≡ sorted_field p (field key (unhashed c))
unfolding sort_value
sorted_eq p b c key h =
    sym (field-sort p key (unhashed b) (unhashed-Distinct b))
    ∙ (ap (λ v. field key (entries_of v)) h ∙ field-sort p key (unhashed c) (unhashed-Distinct c))

module _ (p : Platform) (apart : NoCollision p) where
  -- Blocks with the same whole hash are alike.
  hashed-Alike :
      (b c : Block)
      → b.hash ≡ hash_block p b
      → c.hash ≡ hash_block p c
      → b.hash ≡ c.hash
      → Alike p b c
  unfolding field text_eq sort_value
  hashed-Alike b c hb hc e =
      let same = apart b c (sym hb ∙ (e ∙ hc)) in
      let index = sorted_eq p b c (codes "index") same in
      let time = sorted_eq p b c (codes "timestamp") same in
      let name = sorted_eq p b c (codes "chain") same in
      let content = sorted_eq p b c (codes "data") same in
      let prev = sorted_eq p b c (codes "prev_hash") same in
      record {
        index = number_inj index;
        timestamp = string_inj time;
        chain = string_inj name;
        payload = some_inj content;
        prev_hash = string_inj prev;
        hash = e;
      }

  alike_from :
      (x y : Option Block) (b : Block) (bs : List Block) (c : Block) (cs : List Block)
      → LinkedFrom p x (b ∷ bs)
      → LinkedFrom p y (c ∷ cs)
      → AllHashed p (b ∷ bs)
      → AllHashed p (c ∷ cs)
      → length bs ≡ length cs
      → last_hash (after (some b) bs) ≡ last_hash (after (some c) cs)
      → AllAlike p (b ∷ bs) (c ∷ cs)
  alike_from x y b [] c [] lb lc hb hc n e = (hashed-Alike b c hb.0 hc.0 e, tt)
  alike_from x y b [] c (d ∷ cs) lb lc hb hc n e = absurd (omega (arith, n))
  alike_from x y b (d ∷ bs) c [] lb lc hb hc n e = absurd (omega (arith, n))
  alike_from x y b (d ∷ bs) c (f ∷ cs) lb lc hb hc n e =
      let rest = alike_from (some b) (some c) d bs f cs lb.2 lc.2 hb.1 hc.1 (omega (arith, n)) e in
      let (j, at_b, i, prev_b) = lb.2.1 in
      let (k, at_c, m, prev_c) = lc.2.1 in
      let heads = Alike.prev_hash rest.0 in
      (hashed-Alike b c hb.0 hc.0 (sym prev_b ∙ (heads ∙ prev_c)), rest)

last-after : (b : Block) (bs : List Block) → last (b ∷ bs) ≡ after (some b) bs
last-after b [] = refl
last-after b (c ∷ bs) = last-after c bs

-- The length of a linked chain stands in its last block.
last_length :
    (p : Platform) (b : Block) (bs : List Block)
    → LinkedFrom p none (b ∷ bs)
    → IndexIs (after (some b) bs) (suc (length bs))
last_length p b bs links =
    rw (zero-add (suc (length bs))) at (last_index p none 0 (b ∷ bs) refl links)

after_hashed :
    (p : Platform) (b : Block) (bs : List Block)
    → AllHashed p (b ∷ bs)
    → (u : Block) × (after (some b) bs ≡ some u) × (u.hash ≡ hash_block p u)
after_hashed p b [] h = (b, refl, h.0)
after_hashed p b (c ∷ bs) h = after_hashed p c bs h.1

natural_inj : {m n : ℕ} → natural m ≡ natural n → m ≡ n
natural_inj h = cc

-- Two chains that pass the integrity check and whose last blocks have the same hash are the same
-- chain, block by block, up to the order of keys in the data. It is assumed that no two contents have
-- one digest and that each block carries the hash of the whole block, not the older one of its data.
pub head_fixes_history :
    (p : Platform) (b c : Block) (bs cs : List Block)
    → NoCollision p
    → LinkedFrom p none (b ∷ bs)
    → LinkedFrom p none (c ∷ cs)
    → AllHashed p (b ∷ bs)
    → AllHashed p (c ∷ cs)
    → last_hash (last (b ∷ bs)) ≡ last_hash (last (c ∷ cs))
    → AllAlike p (b ∷ bs) (c ∷ cs)
head_fixes_history p b c bs cs apart lb lc hb hc e =
    let ends : last_hash (after (some b) bs) ≡ last_hash (after (some c) cs) =
      ap last_hash (sym (last-after b bs)) ∙ (e ∙ ap last_hash (last-after c cs)) in
    let (u, at_u, hu) = after_hashed p b bs hb in
    let (v, at_v, hv) = after_hashed p c cs hc in
    let alike = hashed-Alike p apart u v hu hv (rw (at_u, at_v) at (ends)) in
    let n : u.index ≡ natural (suc (length bs)) = rw at_u at (last_length p b bs lb) in
    let m : v.index ≡ natural (suc (length cs)) = rw at_v at (last_length p c cs lc) in
    let same : suc (length bs) ≡ suc (length cs) = natural_inj (sym n ∙ (Alike.index alike ∙ m)) in
    alike_from p apart none none b bs c cs lb lc hb hc (omega (arith, same)) ends

-- What the check does not see of a block.
abbrev pub rewritten : Text → Text → Block → Block
rewritten timestamp chain b = record b { timestamp = timestamp; chain = chain }

onward :
    (p : Platform) (b : Block) (t c : Text) (bs : List Block)
    → LinkedFrom p (some b) bs
    → LinkedFrom p (some (rewritten t c b)) bs
onward p b t c [] links = tt
onward p b t c (d ∷ bs) links = links

-- In a chain that passes the integrity check, a block that carries the older hash of its data alone
-- can be given any other time and chain name, and the chain still passes.
pub legacy_rewritten :
    (p : Platform) (before : Option Block) (front : List Block) (b : Block) (bs : List Block)
    (t c : Text)
    → b.hash ≡ legacy_hash p b
    → LinkedFrom p before (front ++ b ∷ bs)
    → LinkedFrom p before (front ++ rewritten t c b ∷ bs)
unfolding legacy_hash
legacy_rewritten p none [] b bs t c old links = (inr old, links.1, onward p b t c bs links.2)
legacy_rewritten p (some a) [] b bs t c old links = (inr old, links.1, onward p b t c bs links.2)
legacy_rewritten p before (a ∷ front) b bs t c old links =
    (links.0, links.1, legacy_rewritten p (some a) front b bs t c old links.2)
