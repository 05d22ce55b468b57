-- ===== src/Chain/Directory.antt =====
-- A chain's directory of files, and how its blocks are listed, read and pruned
-- (infra/storage/chain-adapter.ts).
pub mod Prune
use memphis_v.Base.{
  ℕ, zero, suc, ◌+◌, ◌-◌, Text, Bool, true, false, not, Option, none, some, List, [], ◌∷◌, reverse,
  length, select, ◌==◌, if◌then◌else◌, Result, ok, err, codes,
}
use memphis_v.Base.Int.{ℤ, ltb_ℤ}
use memphis_v.Base.Texts.{text_eq}
use memphis_v.Base.Fallible.{◌>>=◌, map_result}
use memphis_v.Approval.Identity.{trim}
use memphis_v.Chain.Json.{Platform, Json}
use memphis_v.Chain.Block.{Block, Error, invalid_json, unreadable, to_chain_block, validate_from}
use memphis_v.Chain.Names.{ends_with, file_index}

-- `is_file` is false for what is no regular file, such as a directory.
pub record File : Type 0 where
  pub name : Text
  pub content : Text
  pub is_file : Bool

abbrev pub Directory : Type 0
Directory = List File

abbrev pub is_json : Text → Bool
is_json name = ends_with (codes ".json") name

abbrev pub Entry : Type 0
Entry = File × ℤ

abbrev keep_finite : File → Option ℤ → List Entry → List Entry
keep_finite f none es = es
keep_finite f (some i) es = (f, i) ∷ es

-- the files of blocks, each with the index in its name
unfoldable pub indexed : Directory → List Entry
indexed [] = []
indexed (f ∷ d) =
    let rest = indexed d in if is_json f.name then keep_finite f (file_index f.name) rest else rest

-- one round of a stable sort, by whether an index comes before another
unfoldable pub insert_entry : (ℤ → ℤ → Bool) → Entry → List Entry → List Entry
insert_entry before e [] = e ∷ []
insert_entry before e (x ∷ es) =
    let rest = insert_entry before e es in if before x.1 e.1 then x ∷ rest else e ∷ x ∷ es

unfoldable pub sort_entries : (ℤ → ℤ → Bool) → List Entry → List Entry
unfolding insert_entry
sort_entries before [] = []
sort_entries before (e ∷ es) = insert_entry before e (sort_entries before es)

abbrev pub ascending : ℤ → ℤ → Bool
ascending i j = ltb_ℤ i j

abbrev pub descending : ℤ → ℤ → Bool
descending i j = ltb_ℤ j i

-- The loop of `extractJsonObjects`: how many objects are open, the text since the outermost one
-- opened, latest character first, and the flags for strings.
unfoldable pub extract_from : Platform → ℕ → Text → Bool → Bool → Text → List Json
extract_from p depth chunk in_string escaped [] = []
extract_from p depth chunk in_string escaped (c ∷ s) =
    let seen = if depth == 0 then chunk else c ∷ chunk in
    let plain = extract_from p depth seen true false s in
    let escape = extract_from p depth seen true true s in
    let outside = extract_from p depth seen false false s in
    let opened = extract_from p (suc depth) (c ∷ chunk) false false s in
    let closed = extract_from p (depth - 1) (c ∷ chunk) false false s in
    let finished = extract_from p 0 [] false false s in
    if in_string
    then if escaped
      then plain
      else if c == b'\\'
      then escape
      else if c == b'"'
      then outside
      else plain
    else if c == b'"'
    then plain
    else if c == b'{'
    then opened
    else if c == b'}'
    then if depth == 0
      then outside
      else if depth == 1
      then elim (p.json_parse (reverse (c ∷ chunk))) [ none ↦ finished | some v ↦ v ∷ finished ]
      else closed
    else outside

abbrev pub last {ℓ} : {A : Type ℓ} → List A → Option A
last [] = none
last (x ∷ []) = some x
last (x ∷ y ∷ l) = last (y ∷ l)

abbrev recovered : Text → Option Json → Result Error Json
recovered file none = err (invalid_json file)
recovered file (some v) = ok v

abbrev parsed : Platform → Text → Text → Option Json → Result Error Json
parsed p file raw (some v) = ok v
parsed p file raw none = recovered file (last (extract_from p 0 [] false false raw))

-- `parseJsonObject`
unfoldable pub parse_json_object : Platform → Text → Text → Result Error Json
parse_json_object p file raw =
    if length (trim raw) == 0
    then err (invalid_json file)
    else parsed p file raw (p.json_parse (trim raw))

-- `readBlockFile`, with the name of the file
unfoldable pub read_block_file : Platform → Entry → Result Error (Text × Block)
read_block_file p (f, i) =
    if f.is_file
    then (parse_json_object p f.name f.content >>= λ v.
        to_chain_block f.name v >>= λ b. ok (f.name, b))
    else err (unreadable f.name)

-- `readAndValidateChainBlocks`
unfoldable pub read_chain : Platform → Directory → Result Error (List Block)
read_chain p d = map_result (read_block_file p) (sort_entries ascending (indexed d)) >>= λ files.
    validate_from p none files

-- the entries but those of a name
unfoldable pub remove : Text → Directory → Directory
remove name d = select (λ f. not (text_eq f.name name)) d

-- The loop of `pruneTrailingEmptyBlockFiles`, from the highest index on.
unfoldable pub prune_from : List Entry → Directory → Directory
unfolding remove
prune_from [] d = d
prune_from ((f, i) ∷ es) d =
    let skipped = prune_from es d in
    let pruned = prune_from es (remove f.name d) in
    if f.is_file then if length f.content == 0 then pruned else d else skipped

-- `pruneTrailingEmptyBlockFiles`
unfoldable pub prune : Directory → Directory
unfolding prune_from
prune d = prune_from (sort_entries descending (indexed d)) d
