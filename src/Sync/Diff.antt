-- ===== src/Sync/Diff.antt =====
-- The blocks that two copies of a chain have apart (sync/chain-diff.ts).
pub mod Classes
use memphis_v.Base.{
  ℕ, zero, suc, ◌+◌, Text, Bool, true, false, not, Option, none, some, List, [], ◌∷◌, ◌++◌, codes,
  map, if◌then◌else◌,
}
use memphis_v.Base.Int.{ℤ}
use memphis_v.Base.Maps.{Map, get, has, set}
use memphis_v.Base.Texts.{text_eq}
use memphis_v.Chain.Json.{
  Json, null, boolean, number, string, array, object, Items, no_items, item, Members, no_members,
  member,
}

-- A block as it may come from another agent: every field may be missing.
pub record Block : Type 0 where
  pub index : Option ℤ
  pub timestamp : Option Text
  pub hash : Option Text
  pub chain : Option Text
  pub payload : Option Json

-- What the JavaScript engine gives: `JSON.stringify` of a value that is no array and no object, of a
-- text and of a number, `String` of a number, the sign of `localeCompare`, and `Date.parse`, which is
-- none where the answer is not finite.
pub record Platform : Type 0 where
  pub json_leaf : Json → Text
  pub json_text : Text → Text
  pub number_text : ℤ → Text
  pub locale_before : Text → Text → Bool
  pub date_parse : Text → Option ℤ

abbrev pub Printed : Type 0
Printed = List (Text × Text)

-- One round of the stable sort of the entries by key.
unfoldable pub insert_printed : Platform → Text × Text → Printed → Printed
insert_printed p e [] = e ∷ []
insert_printed p e (x ∷ es) =
    let rest = insert_printed p e es in if p.locale_before x.0 e.0 then x ∷ rest else e ∷ x ∷ es

unfoldable pub sort_printed : Platform → Printed → Printed
unfolding insert_printed
sort_printed p [] = []
sort_printed p (e ∷ es) = insert_printed p e (sort_printed p es)

-- `texts.join(',')`
abbrev pub join : List Text → Text
join [] = []
join (s ∷ []) = s
join (s ∷ t ∷ l) = s ++ (codes "," ++ join (t ∷ l))

abbrev pub braces : Platform → Printed → Text
braces p es =
    codes "{"
    ++ (join (map (λ e. p.json_text e.0 ++ (codes ":" ++ e.1)) (sort_printed p es)) ++ codes "}")

unfoldable mutual
  -- `stableStringify`
  pub stable_stringify : Platform → Json → Text
  stable_stringify p (array xs) = codes "[" ++ (join (print_items p xs) ++ codes "]")
  stable_stringify p (object ms) = braces p (print_members p ms)
  stable_stringify p null = p.json_leaf null
  stable_stringify p (boolean b) = p.json_leaf (boolean b)
  stable_stringify p (number n) = p.json_leaf (number n)
  stable_stringify p (string s) = p.json_leaf (string s)

  pub print_items : Platform → Items → List Text
  print_items p no_items = []
  print_items p (item v xs) = stable_stringify p v ∷ print_items p xs

  pub print_members : Platform → Members → Printed
  print_members p no_members = []
  print_members p (member k v ms) = (k, stable_stringify p v) ∷ print_members p ms

-- `a ?? b`
abbrev pub or_else {ℓ} : {A : Type ℓ} → Option A → A → A
or_else none b = b
or_else (some a) b = a

-- `block.data ?? {}`
abbrev payload_of : Option Json → Json
payload_of none = object no_members
payload_of (some v) = elim v [ null ↦ object no_members | other ↦ other ]

abbrev payload_text : Platform → Block → Text
payload_text p b = stable_stringify p (payload_of b.payload)

abbrev by_index : Platform → Block → Option ℤ → Text
by_index p b (some i) = codes "idx:" ++ p.number_text i
by_index p b none =
    codes "ts:" ++ (or_else b.timestamp (codes "unknown") ++ (codes ":" ++ payload_text p b))

abbrev by_hash : Platform → Block → Option Text → Text
by_hash p b none = by_index p b b.index
by_hash p b (some []) = by_index p b b.index
by_hash p b (some (c ∷ s)) = codes "hash:" ++ (c ∷ s)

unfoldable pub block_key : Platform → Block → Text
block_key p b = by_hash p b b.hash

-- The template prints a field that is missing as `undefined`.
abbrev printed_text : Platform → Option Text → Text
printed_text p none = codes "undefined"
printed_text p (some s) = p.json_text s

abbrev printed_number : Platform → Option ℤ → Text
printed_number p none = codes "undefined"
printed_number p (some i) = p.number_text i

unfoldable pub block_fingerprint : Platform → Block → Text
block_fingerprint p b = braces p (
    (codes "index", printed_number p b.index)
    ∷ (codes "timestamp", printed_text p b.timestamp)
    ∷ (codes "hash", printed_text p b.hash)
    ∷ (codes "chain", printed_text p b.chain)
    ∷ (codes "data", payload_text p b)
    ∷ [])

-- `for (const b of blocks) m.set(blockKey(b), b)`
unfoldable pub add_all : Platform → List Block → Map Block → Map Block
add_all p [] m = m
add_all p (b ∷ bs) m = add_all p bs (set (block_key p b) b m)

-- `new Map(blocks.map((b) => [blockKey(b), b]))`
abbrev pub keyed : Platform → List Block → Map Block
keyed p bs = add_all p bs []

pub record Conflict : Type 0 where
  pub key : Text
  pub local : Block
  pub remote : Block

pub record Diff : Type 0 where
  pub local_only : List Block
  pub remote_only : List Block
  pub conflicts : List Conflict

abbrev only_here : Block → Option Block → List Block → List Block
only_here b none rest = b ∷ rest
only_here b (some c) rest = rest

-- The first loop: the blocks without a partner,
unfoldable pub unpaired : Map Block → Map Block → List Block
unpaired [] other = []
unpaired ((k, b) ∷ m) other = only_here b (get k other) (unpaired m other)

abbrev differing : Platform → Text → Block → Option Block → List Conflict → List Conflict
differing p k b none rest = rest
differing p k b (some c) rest =
    if text_eq (block_fingerprint p b) (block_fingerprint p c)
    then rest
    else record { key = k; local = b; remote = c } ∷ rest

-- and those whose partner has another fingerprint.
unfoldable pub clashing : Platform → Map Block → Map Block → List Conflict
clashing p [] other = []
clashing p ((k, b) ∷ m) other = differing p k b (get k other) (clashing p m other)

unfoldable pub detect_chain_diff : Platform → List Block → List Block → Diff
detect_chain_diff p local remote = record {
  local_only = unpaired (keyed p local) (keyed p remote);
  remote_only = unpaired (keyed p remote) (keyed p local);
  conflicts = clashing p (keyed p local) (keyed p remote);
}
