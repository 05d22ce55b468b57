-- ===== src/Chain/Append/Extends.antt =====
-- What an append does to the chain that the directory holds (infra/storage/chain-adapter.ts).
use memphis_v.Base.{
  ℕ, suc, ◌≡◌, refl, ap, ◌∙◌, true, false, ◌==◌, Text, Option, none, some, List, [], ◌∷◌, ◌++◌,
  length, arith, inl, inr, ok, err, Result-cases,
}
use native.Mathlib.Nat.{zero-add}
use mathlib.Core.List.{map-append}
use memphis_v.Base.Texts.{text_eq}
use memphis_v.Base.Fallible.{bind-ok, map_result-snoc}
use memphis_v.Base.Int.{pos}
use memphis_v.Approval.Identity.{trim}
use memphis_v.Chain.Json.{Platform, Json, natural, field}
use memphis_v.Chain.Block.{Block, Error, hash_block, validate_from, to_chain_block}
use memphis_v.Chain.Linked.{
  IsSealed, Follows, LinkedFrom, LinkedFrom-snoc, after, IndexIs, last_index, validate_accepts,
}
use memphis_v.Chain.Names.{block_file}
use memphis_v.Chain.Directory.{
  File, Directory, indexed, sort_entries, ascending, last, remove, prune, parse_json_object,
  read_block_file, read_chain,
}
use memphis_v.Chain.Directory.Prune.{prune-read}
use memphis_v.Chain.Append.{
  Call, Disk, works, write_fails, rename_fails, next_index, last_hash, next_block, block_json,
  tmp_name, put_file, write_block, append_block,
}
use memphis_v.Chain.Append.Listing.{
  Below, Below-suc, indexed-tmp, indexed-untmp, indexed-put_next, sort_last,
}

-- `JSON.parse` gives back what `JSON.stringify` printed, which is no empty text.
pub record IsJson (p : Platform) (v : Json) : Type 0 where
  pub parsed : p.json_parse (trim (p.json_pretty v)) ≡ some v
  pub filled : (length (trim (p.json_pretty v)) == 0) ≡ false

-- A block that was printed into a file is read back.
read-print :
    (p : Platform) (b : Block) (name : Text)
    → IsJson p (block_json b)
    → (i : ℕ)
    → read_block_file p
        (record { name = name; content = p.json_pretty (block_json b); is_file = true }, pos i)
      ≡ ok (name, b)
unfolding read_block_file parse_json_object to_chain_block field text_eq
read-print p b name json i = rw (json.filled, json.parsed) refl

last-after : (b : Block) (bs : List Block) → last (b ∷ bs) ≡ after (some b) bs
last-after b [] = refl
last-after b (c ∷ bs) = last-after c bs

last_after : (bs : List Block) → last bs ≡ after none bs
last_after [] = refl
last_after (b ∷ bs) = last-after b bs

next_index_lem : (before : Option Block) (k : ℕ) → IndexIs before k → next_index before ≡ suc k
next_index_lem none k h = omega (arith, h)
next_index_lem (some a) k h = rw h (omega arith)

next_block-IsSealed :
    (p : Platform) (c : Call) (before : Option Block) → IsSealed p (next_block p c before)
unfolding next_block hash_block
next_block-IsSealed p c before = inl refl

next_block-Follows :
    (p : Platform) (c : Call) (before : Option Block) (k : ℕ)
    → IndexIs before k
    → Follows before (next_block p c before)
unfolding next_block
next_block-Follows p c none k h = (refl, inr refl)
next_block-Follows p c (some a) k h = (k, h, rw h refl, refl)

-- The chain with one more file behind the others.
module _ (p : Platform) (es : Directory) (bs : List Block) (b : Block) (f : File)
    (reads : read_chain p es ≡ ok bs) (links : LinkedFrom p none (bs ++ b ∷ []))
    (block : (i : ℕ) → read_block_file p (f, pos i) ≡ ok (f.name, b)) where
  read_chain-snoc :
      (n : ℕ) (d : Directory)
      → sort_entries ascending (indexed d) ≡ sort_entries ascending (indexed es) ++ (f, pos n) ∷ []
      → read_chain p d ≡ ok (bs ++ b ∷ [])
  unfolding read_chain
  read_chain-snoc n d sorted =
      let (files, loaded, valid) = bind-ok _ (validate_from p none) bs reads in
      let same = ((validate_accepts p files bs).0 valid).0 in
      rw
        (
          sorted,
          map_result-snoc (read_block_file p) _ (f, pos n) files (f.name, b) loaded (block n),
        )
        ((validate_accepts p (files ++ (f.name, b) ∷ []) (bs ++ b ∷ [])).1
          (map-append (λ e. e.1) files ((f.name, b) ∷ []) ∙ ap (λ l. l ++ b ∷ []) same, links))

pub listed_alike :
    (p : Platform) (d e : Directory) → indexed d ≡ indexed e → read_chain p d ≡ read_chain p e
unfolding read_chain
listed_alike p d e h = rw h refl

-- A write that fails changes no listed file.
pub failed_write-indexed :
    (p : Platform) (c : Call) (disk : Disk) (b : Block) (n : ℕ) (d : Directory) (e : Error)
    → (write_block p c disk b n d).0 ≡ err e
    → indexed (write_block p c disk b n d).1 ≡ indexed d
unfolding write_block
failed_write-indexed p c works b n d e h = absurd (cc)
failed_write-indexed p c (write_fails none) b n d e h = refl
failed_write-indexed p c (write_fails (some part)) b n d e h = indexed-tmp c (block_file n) part d
failed_write-indexed p c (rename_fails true) b n d e h =
    indexed-untmp c (block_file n) _ ∙ indexed-tmp c (block_file n) _ d
failed_write-indexed p c (rename_fails false) b n d e h = indexed-tmp c (block_file n) _ d

failed_write_keeps :
    (p : Platform) (c : Call) (disk : Disk) (b : Block) (n : ℕ) (d : Directory) (e : Error)
    → (write_block p c disk b n d).0 ≡ err e
    → read_chain p (write_block p c disk b n d).1 ≡ read_chain p d
failed_write_keeps p c disk b n d e h = listed_alike p _ d (failed_write-indexed p c disk b n d e h)

-- An append on a chain whose blocks are read, with no listed name above the last index.
module _ (p : Platform) (c : Call) (d : Directory) (bs : List Block)
    (reads : read_chain p (prune d) ≡ ok bs) (low : Below (length bs) (indexed (prune d)))
    (json : IsJson p (block_json (next_block p c (last bs)))) where
  new_block : Block
  new_block = next_block p c (last bs)

  chain_index : IndexIs (last bs) (length bs)
  unfolding read_chain
  chain_index =
      let (files, loaded, valid) = bind-ok _ (validate_from p none) bs reads in
      let links = ((validate_accepts p files bs).0 valid).1 in
      rw (last_after bs) (rw (zero-add (length bs)) at (last_index p none 0 bs refl links))

  grown_links : LinkedFrom p none (bs ++ new_block ∷ [])
  unfolding read_chain new_block
  grown_links =
      let (files, loaded, valid) = bind-ok _ (validate_from p none) bs reads in
      LinkedFrom-snoc p none bs new_block ((validate_accepts p files bs).0 valid).1
        (next_block-IsSealed p c (last bs))
        (rw (← last_after bs) (next_block-Follows p c (last bs) (length bs) chain_index))

  appended : append_block p c works d ≡ write_block p c works new_block (suc (length bs)) (prune d)
  unfolding append_block new_block
  appended = rw (reads, next_index_lem (last bs) (length bs) chain_index) refl

  -- the file of the new block
  new_file : File
  unfolding new_block
  new_file = record {
    name = block_file (suc (length bs));
    content = p.json_pretty (block_json (next_block p c (last bs)));
    is_file = true;
  }

  appended_listing :
      indexed (append_block p c works d).1 ≡ (new_file, pos (suc (length bs))) ∷ indexed (prune d)
  unfolding write_block new_file new_block
  appended_listing =
      let text = p.json_pretty (block_json (next_block p c (last bs))) in
      let file = block_file (suc (length bs)) in
      let before = remove (tmp_name c file) (put_file (tmp_name c file) text (prune d)) in
      let same : indexed before ≡ indexed (prune d) =
        indexed-untmp c file _ ∙ indexed-tmp c file text (prune d) in
      ap (λ r. indexed r.1) appended
      ∙ (indexed-put_next (length bs) text before (rw same low)
          ∙ ap (λ es. (new_file, pos (suc (length bs))) ∷ es) same)

  -- `appendBlock` on a chain that is read returns a block with the next index and the hash of the last
  -- block, and the chain that is read afterwards is the old one with that block behind. The names of
  -- the files keep within the length of the chain. The JSON of the new block is assumed to be read
  -- back as it was printed, and the file system to do what it is asked.
  pub append_extends :
      ((append_block p c works d).0 ≡ ok (next_block p c (last bs)))
      × (read_chain p (append_block p c works d).1 ≡ ok (bs ++ next_block p c (last bs) ∷ []))
      × ((next_block p c (last bs)).index ≡ natural (suc (length bs)))
      × ((next_block p c (last bs)).prev_hash ≡ last_hash (last bs))
      × Below (suc (length bs)) (indexed (append_block p c works d).1)
  unfolding write_block new_block new_file next_block
  append_extends = (
    ap (λ r. r.0) appended,
    read_chain-snoc p (prune d) bs new_block new_file reads grown_links
        (read-print p new_block (block_file (suc (length bs))) json) (suc (length bs)) _
        (ap (sort_entries ascending) appended_listing ∙ sort_last (length bs) new_file _ low),
    ap natural (next_index_lem (last bs) (length bs) chain_index),
    refl,
    rw appended_listing (omega arith, Below-suc (length bs) _ low),
  )

failed_on_pruned :
    (p : Platform) (c : Call) (disk : Disk) (d : Directory) (e : Error)
    → (append_block p c disk d).0 ≡ err e
    → read_chain p (append_block p c disk d).1 ≡ read_chain p (prune d)
unfolding append_block
failed_on_pruned p c disk d e h = elim (Result-cases (read_chain p (prune d))) [
  | inr (x, r) ↦ rw r r
  | inl (bs, r) ↦ rw r (
      failed_write_keeps p c disk (next_block p c (last bs)) (next_index (last bs)) (prune d) e
        (rw r at (h))
      ∙ r)
]

-- `appendBlock` that throws, whatever the file system did, leaves a chain that was readable as it was:
-- a reader finds the same blocks before and after. A part of a temporary file may be left, but no
-- reader looks at it. A chain that was not readable is left as pruning leaves it.
pub failed_append_keeps :
    (p : Platform) (c : Call) (disk : Disk) (d : Directory) (e : Error)
    → (append_block p c disk d).0 ≡ err e
    → ((bs : List Block)
        → read_chain p d ≡ ok bs
        → read_chain p (append_block p c disk d).1 ≡ ok bs)
      × (read_chain p (append_block p c disk d).1 ≡ read_chain p (prune d))
failed_append_keeps p c disk d e h =
    let pruned = failed_on_pruned p c disk d e h in
    (λ bs reads. pruned ∙ (ap (read_chain p) (prune-read p d bs reads) ∙ reads), pruned)
