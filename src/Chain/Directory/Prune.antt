-- ===== src/Chain/Directory/Prune.antt =====
-- What `pruneTrailingEmptyBlockFiles` removes, and `verifyChainIntegrity`
-- (infra/storage/chain-adapter.ts).
use memphis_v.Base.{
  ◌≡◌, refl, Text, Bool, true, false, ◌==◌, none, List, [], ◌∷◌, length, arith, inl, inr,
  Bool-cases, Result, ok, err,
}
use memphis_v.Base.Fallible.{bind-ok, map_result}
use memphis_v.Base.Int.{ℤ}
use memphis_v.Approval.Identity.{trim, trim_start}
use memphis_v.Chain.Json.{Platform}
use memphis_v.Chain.Block.{Block, Error, invalid_json, validate_from}
use memphis_v.Chain.Directory.{
  File, Directory, Entry, indexed, insert_entry, sort_entries, ascending, descending,
  read_block_file, parse_json_object, read_chain, prune_from, prune,
}

-- Every entry's file is read as a block.
abbrev AllLoad : Platform → List Entry → Type 0
AllLoad p [] = Unit {0}
AllLoad p (e ∷ es) = ((b : Text × Block) × (read_block_file p e ≡ ok b)) × AllLoad p es

load-insert :
    (p : Platform) (before : ℤ → ℤ → Bool) (e : Entry) (es : List Entry)
    → ((b : Text × Block) × (read_block_file p e ≡ ok b))
    → AllLoad p es
    → AllLoad p (insert_entry before e es)
unfolding insert_entry
load-insert p before e [] h k = (h, tt)
load-insert p before e (x ∷ es) h k = elim (Bool-cases (before x.1 e.1)) [
  | inl q ↦ rw q (k.0, load-insert p before e es h k.1)
  | inr q ↦ rw q (h, k)
]

insert-load :
    (p : Platform) (before : ℤ → ℤ → Bool) (e : Entry) (es : List Entry)
    → AllLoad p (insert_entry before e es)
    → ((b : Text × Block) × (read_block_file p e ≡ ok b)) × AllLoad p es
unfolding insert_entry
insert-load p before e [] h = h
insert-load p before e (x ∷ es) h = elim (Bool-cases (before x.1 e.1)) [
  | inl q ↦
      let h' : AllLoad p (x ∷ insert_entry before e es) = rw q at (h) in
      let (first, rest) = insert-load p before e es h'.1 in (first, (h'.0, rest))
  | inr q ↦ rw q at (h)
]

sort-load :
    (p : Platform) (before after : ℤ → ℤ → Bool) (es : List Entry)
    → AllLoad p (sort_entries before es)
    → AllLoad p (sort_entries after es)
unfolding sort_entries
sort-load p before after [] h = tt
sort-load p before after (e ∷ es) h =
    let (first, rest) = insert-load p before e (sort_entries before es) h in
    load-insert p after e (sort_entries after es) first (sort-load p before after es rest)

loaded_all :
    (p : Platform) (es : List Entry) (bs : List (Text × Block))
    → map_result (read_block_file p) es ≡ ok bs
    → AllLoad p es
loaded_all p [] bs h = tt
loaded_all p (e ∷ es) bs h =
    let (b, first, h1) = bind-ok (read_block_file p e) _ bs h in
    let (cs, rest, h2) = bind-ok (map_result (read_block_file p) es) _ bs h1 in
    ((b, first), loaded_all p es cs rest)

empty_text : (s : Text) → (length s == 0) ≡ true → s ≡ []
empty_text [] h = refl
empty_text (c ∷ s) h = absurd (ground (arith))

empty_unread : (p : Platform) (file : Text) → parse_json_object p file [] ≡ err (invalid_json file)
unfolding parse_json_object trim trim_start
empty_unread p file = refl

unread_err :
    {x : Error} {b : Text × Block} → ◌≡◌ {A = Result Error (Text × Block)} (err x) (ok b) → ⊥
unread_err h = cc

-- The file of a block is a regular one that is not empty.
loaded_filled :
    (p : Platform) (f : File) (i : ℤ) (b : Text × Block)
    → read_block_file p (f, i) ≡ ok b
    → (f.is_file ≡ true) × ((length f.content == 0) ≡ false)
unfolding read_block_file
loaded_filled p f i b h = elim (Bool-cases f.is_file) [
  | inr e ↦ absurd (ground (arith, h, e))
  | inl e ↦ elim (Bool-cases (length f.content == 0)) [
    | inr q ↦ (e, q)
    | inl q ↦
        let bare = empty_text f.content q in
        absurd (unread_err (rw (e, bare, empty_unread p f.name) at (h)))
  ]
]

prune_from-loaded :
    (p : Platform) (es : List Entry) (d : Directory) → AllLoad p es → prune_from es d ≡ d
unfolding prune_from
prune_from-loaded p [] d h = refl
prune_from-loaded p ((f, i) ∷ es) d h =
    let (regular, filled) = loaded_filled p f i h.0.0 h.0.1 in rw (regular, filled) refl

-- the entries of a chain that is read, in descending order, and what pruning by them does
pub prune_from-read :
    (p : Platform) (d e : Directory) (bs : List Block)
    → read_chain p d ≡ ok bs
    → prune_from (sort_entries descending (indexed d)) e ≡ e
unfolding read_chain
prune_from-read p d e bs h =
    let (files, loaded, valid) = bind-ok _ (validate_from p none) bs h in
    prune_from-loaded p _ e
      (sort-load p ascending descending (indexed d) (loaded_all p _ files loaded))

-- A directory whose chain is read is pruned of nothing.
pub prune-read :
    (p : Platform) (d : Directory) (bs : List Block) → read_chain p d ≡ ok bs → prune d ≡ d
unfolding prune
prune-read p d bs h = prune_from-read p d d bs h
