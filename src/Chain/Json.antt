-- ===== src/Chain/Json.antt =====
-- JSON values, their canonical print and the recovery of objects from a damaged text
-- (infra/storage/chain-adapter.ts).
pub mod Canonical
use memphis_v.Base.{ℕ, Text, Bool, Option, none, some, if◌then◌else◌}
use memphis_v.Base.Texts.{text_eq}

-- `other` is a number that is no natural number, by its print.
pub data Number : Type 0 where
  natural : ℕ → Number
  other : Text → Number

mutual
  pub data Json : Type 0 where
    null : Json
    boolean : Bool → Json
    number : Number → Json
    string : Text → Json
    array : Items → Json
    object : Members → Json

  pub data Items : Type 0 where
    no_items : Items
    item : Json → Items → Items

  -- the entries of an object, in the order of `Object.entries`
  pub data Members : Type 0 where
    no_members : Members
    member : Text → Json → Members → Members

-- What the JavaScript engine and node:crypto give. `json_print` is `JSON.stringify(v)`, and
-- `json_pretty` is `JSON.stringify(v, null, 2)`; `locale_before a b` is `a.localeCompare(b) < 0`.
pub record Platform : Type 0 where
  pub json_print : Json → Text
  pub json_pretty : Json → Text
  pub json_parse : Text → Option Json
  pub locale_before : Text → Text → Bool
  pub sha256_hex : Text → Text

-- One round of the stable sort by key: an entry stands before the entries that compare equal.
unfoldable pub insert_member : Platform → Text → Json → Members → Members
insert_member p k v no_members = member k v no_members
insert_member p k v (member q w ms) =
    let rest = insert_member p k v ms in
    if p.locale_before q k then member q w rest else member k v (member q w ms)

unfoldable mutual
  unfolding insert_member

  -- `sortValue`
  pub sort_value : Platform → Json → Json
  sort_value p (array xs) = array (sort_items p xs)
  sort_value p (object ms) = object (sort_members p ms)
  sort_value p null = null
  sort_value p (boolean b) = boolean b
  sort_value p (number n) = number n
  sort_value p (string s) = string s

  pub sort_items : Platform → Items → Items
  sort_items p no_items = no_items
  sort_items p (item v xs) = item (sort_value p v) (sort_items p xs)

  pub sort_members : Platform → Members → Members
  sort_members p no_members = no_members
  sort_members p (member k v ms) = insert_member p k (sort_value p v) (sort_members p ms)

abbrev pub stable_stringify : Platform → Json → Text
stable_stringify p v = p.json_print (sort_value p v)

-- `o[key]`, of an object's entries
unfoldable pub field : Text → Members → Option Json
field key no_members = none
field key (member k v ms) = if text_eq k key then some v else field key ms
