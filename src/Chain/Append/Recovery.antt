-- ===== src/Chain/Append/Recovery.antt =====
-- Appends one after another, and after a crash that left an empty file
-- (infra/storage/chain-adapter.ts).
use memphis_v.Base.{
  ℕ, suc, ◌≡◌, refl, sym, ap, ◌∙◌, Text, true, false, List, [], ◌∷◌, ◌++◌, length, map, arith, inl,
  inr, Bool-cases, ok,
}
use mathlib.Core.List.{append-nil}
use memphis_v.Base.Lists.{append_assoc, length-append}
use memphis_v.Base.Int.{pos}
use memphis_v.Base.Texts.{text_eq, text_eq_refl}
use memphis_v.Chain.Json.{Platform}
use memphis_v.Chain.Block.{Block}
use memphis_v.Chain.Names.{block_file}
use memphis_v.Chain.Directory.{
  File, Directory, Entry, indexed, insert_entry, sort_entries, descending, last, remove, prune_from,
  prune, read_chain,
}
use memphis_v.Chain.Directory.Prune.{prune-read, prune_from-read}
use memphis_v.Base.{none, some, err}
use memphis_v.Base.Fallible.{bind-ok}
use memphis_v.Chain.Block.{Error, write_failed, rename_failed, validate_from}
use memphis_v.Chain.Linked.{LinkedFrom, validate_accepts}
use memphis_v.Chain.Append.{
  Call, Disk, works, write_fails, rename_fails, next_index, next_block, block_json, put_file,
  write_block, append_block,
}
use memphis_v.Chain.Append.Listing.{Below, Below-insert, indexed-put_next, indexed-remove_next}
use memphis_v.Chain.Append.Extends.{IsJson, append_extends, listed_alike, failed_write-indexed}

-- The directory holds a chain, and no name has an index above its length.
pub record Holds (p : Platform) (d : Directory) (bs : List Block) : Type 0 where
  pub reads : read_chain p d ≡ ok bs
  pub low : Below (length bs) (indexed d)

-- Several calls in a row, each with what the file system does.
abbrev pub append_all : Platform → List (Call × Disk) → Directory → Directory
append_all p [] d = d
append_all p ((c, disk) ∷ cs) d = append_all p cs (append_block p c disk d).1

-- The calls on which the file system works.
abbrev pub working : List (Call × Disk) → List Call
working [] = []
working ((c, works) ∷ cs) = c ∷ working cs
working ((c, write_fails part) ∷ cs) = working cs
working ((c, rename_fails unlinked) ∷ cs) = working cs

-- The blocks that calls make behind a chain.
abbrev pub new_blocks : Platform → List Call → List Block → List Block
new_blocks p [] bs = []
new_blocks p (c ∷ cs) bs =
    next_block p c (last bs) ∷ new_blocks p cs (bs ++ next_block p c (last bs) ∷ [])

-- The JSON of every new block is read back as it was printed.
abbrev pub Printable : Platform → List Block → Type 0
Printable p [] = Unit {0}
Printable p (b ∷ bs) = IsJson p (block_json b) × Printable p bs

pub append-Holds :
    (p : Platform) (c : Call) (d : Directory) (bs : List Block)
    → Holds p d bs
    → IsJson p (block_json (next_block p c (last bs)))
    → Holds p (append_block p c works d).1 (bs ++ next_block p c (last bs) ∷ [])
append-Holds p c d bs h json =
    let same = prune-read p d bs h.reads in
    let (done, grown, at, linked, low) =
      append_extends p c d bs (rw same h.reads) (rw same h.low) json in
    let longer : suc (length bs) ≡ length (bs ++ next_block p c (last bs) ∷ []) =
      omega (arith, length-append bs (next_block p c (last bs) ∷ [])) in
    record { reads = grown; low = rw (← longer) low }

-- What a call returns and leaves on a chain that is read.
appended_to :
    (p : Platform) (c : Call) (disk : Disk) (d : Directory) (bs : List Block)
    → read_chain p d ≡ ok bs
    → append_block p c disk d
      ≡ write_block p c disk (next_block p c (last bs)) (next_index (last bs)) d
unfolding append_block
appended_to p c disk d bs reads = let same = prune-read p d bs reads in rw (same, reads) refl

failed-Holds :
    (p : Platform) (c : Call) (disk : Disk) (d : Directory) (bs : List Block) (e : Error)
    → (write_block p c disk (next_block p c (last bs)) (next_index (last bs)) d).0 ≡ err e
    → Holds p d bs
    → Holds p (append_block p c disk d).1 bs
failed-Holds p c disk d bs e failed h =
    let kept =
      failed_write-indexed p c disk (next_block p c (last bs)) (next_index (last bs)) d e failed in
    rw (appended_to p c disk d bs h.reads)
      (record { reads = listed_alike p _ d kept ∙ h.reads; low = rw kept h.low })

read-Linked :
    (p : Platform) (d : Directory) (bs : List Block) → read_chain p d ≡ ok bs → LinkedFrom p none bs
unfolding read_chain
read-Linked p d bs reads =
    let (files, loaded, valid) = bind-ok _ (validate_from p none) bs reads in
    ((validate_accepts p files bs).0 valid).1

all-Holds :
    (p : Platform) (cs : List (Call × Disk)) (d : Directory) (bs : List Block)
    → Holds p d bs
    → Printable p (new_blocks p (working cs) bs)
    → Holds p (append_all p cs d) (bs ++ new_blocks p (working cs) bs)
unfolding write_block
all-Holds p [] d bs h json = rw (append-nil bs) h
all-Holds p ((c, works) ∷ cs) d bs h json =
    let b = next_block p c (last bs) in
    let held =
      all-Holds p cs (append_block p c works d).1 (bs ++ b ∷ []) (append-Holds p c d bs h json.0)
        json.1 in
    rw (← append_assoc bs (b ∷ []) (new_blocks p (working cs) (bs ++ b ∷ []))) held
all-Holds p ((c, write_fails none) ∷ cs) d bs h json =
    all-Holds p cs _ bs (failed-Holds p c (write_fails none) d bs write_failed refl h) json
all-Holds p ((c, write_fails (some part)) ∷ cs) d bs h json =
    all-Holds p cs _ bs (failed-Holds p c (write_fails (some part)) d bs write_failed refl h) json
all-Holds p ((c, rename_fails unlinked) ∷ cs) d bs h json =
    all-Holds p cs _ bs (failed-Holds p c (rename_fails unlinked) d bs rename_failed refl h) json

new_blocks-payload :
    (p : Platform) (cs : List Call) (bs : List Block)
    → map (λ b. b.payload) (new_blocks p cs bs) ≡ map (λ c. c.payload) cs
unfolding next_block
new_blocks-payload p [] bs = refl
new_blocks-payload p (c ∷ cs) bs =
    ap (λ l. c.payload ∷ l) (new_blocks-payload p cs (bs ++ next_block p c (last bs) ∷ []))

-- Appends one after another to a directory whose chain is read and in which no block file has an index
-- above the number of blocks, as in an empty one. Whatever writes and renames fail, the chain is read
-- afterwards: the old blocks as they were, and behind them one block with the data of each call on
-- which the file system worked, in the order of the calls, each block linked to the one before; and
-- still no file has a higher index. The JSON of the new blocks is assumed to be read back as it was
-- printed.
pub append_all_reads :
    (p : Platform) (cs : List (Call × Disk)) (d : Directory) (bs : List Block)
    → Holds p d bs
    → Printable p (new_blocks p (working cs) bs)
    → Holds p (append_all p cs d) (bs ++ new_blocks p (working cs) bs)
      × (map (λ b. b.payload) (new_blocks p (working cs) bs) ≡ map (λ c. c.payload) (working cs))
      × LinkedFrom p none (bs ++ new_blocks p (working cs) bs)
append_all_reads p cs d bs h json =
    let held = all-Holds p cs d bs h json in
    (held, new_blocks-payload p (working cs) bs, read-Linked p _ _ held.reads)

abbrev empty_file : ℕ → File
empty_file n = record { name = block_file n; content = []; is_file = true }

-- The entry with the highest index comes first.
insert_first :
    (n : ℕ) (f : File) (es : List Entry)
    → Below n es
    → insert_entry descending (f, pos (suc n)) es ≡ (f, pos (suc n)) ∷ es
unfolding insert_entry
insert_first n f [] h = refl
insert_first n f (e ∷ es) h =
    let lower : descending e.1 (pos (suc n)) ≡ false = ground (arith, h.0) in rw lower refl

Below-descending : (n : ℕ) (es : List Entry) → Below n es → Below n (sort_entries descending es)
unfolding sort_entries
Below-descending n [] h = tt
Below-descending n (e ∷ es) h = Below-insert descending n e _ h.0 (Below-descending n es h.1)

not_kept : {f : File} → [] ≡ f ∷ [] → ⊥
not_kept h = cc

remove_twice : (name : Text) (d : Directory) → remove name (remove name d) ≡ remove name d
unfolding remove
remove_twice name [] = refl
remove_twice name (f ∷ d) = elim (Bool-cases (text_eq f.name name)) [
  | inl e ↦ rw e (remove_twice name d)
  | inr e ↦ rw e (rw (e, remove_twice name d) refl)
]

module _ (p : Platform) (d : Directory) (bs : List Block) (h : Holds p d bs) where
  -- Pruning by the entries with the empty file removes that file and nothing else.
  pruned_first :
      (e : Directory)
      → prune_from
          (sort_entries descending (indexed (put_file (block_file (suc (length bs))) [] d)))
          e
        ≡ remove (block_file (suc (length bs))) e
  unfolding prune_from sort_entries
  pruned_first e =
      let n = length bs in
      let sorted =
        ap (sort_entries descending) (indexed-put_next n [] d h.low)
        ∙ insert_first n (empty_file (suc n)) _ (Below-descending n (indexed d) h.low) in
      rw sorted (prune_from-read p d (remove (block_file (suc n)) e) bs h.reads)

  gone :
      indexed (remove (block_file (suc (length bs))) (put_file (block_file (suc (length bs))) [] d))
      ≡ indexed d
  unfolding remove
  gone =
      let name = block_file (suc (length bs)) in
      rw (text_eq_refl name)
        (ap indexed (remove_twice name d) ∙ indexed-remove_next (length bs) d h.low)

  remove_alone : remove (block_file (suc (length bs))) (empty_file (suc (length bs)) ∷ []) ≡ []
  unfolding remove
  remove_alone = rw (text_eq_refl (block_file (suc (length bs)))) refl

-- In a directory whose chain is read and in which no block file has an index above the number of
-- blocks, an empty file under the name of the next block, as a crash can leave it, makes the chain
-- unreadable; pruning removes it, and the chain is read as before.
pub prune_recovers :
    (p : Platform) (d : Directory) (bs : List Block)
    → Holds p d bs
    → (¬ (
        (cs : List Block) × (read_chain p (put_file (block_file (suc (length bs))) [] d) ≡ ok cs)))
      × (read_chain p (prune (put_file (block_file (suc (length bs))) [] d)) ≡ ok bs)
unfolding prune
prune_recovers p d bs h =
    let left = put_file (block_file (suc (length bs))) [] d in
    (
      λ (cs, read).
          let alone = empty_file (suc (length bs)) ∷ [] in
          not_kept (
            sym (remove_alone p d bs h)
            ∙ (sym (pruned_first p d bs h alone) ∙ prune_from-read p left alone cs read)),
      listed_alike p _ d (ap indexed (pruned_first p d bs h left) ∙ gone p d bs h) ∙ h.reads,
    )
