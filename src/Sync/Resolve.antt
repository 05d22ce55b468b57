-- ===== src/Sync/Resolve.antt =====
-- One chain from two copies (sync/conflict-resolver.ts), and `SyncManager.pull` (sync/sync-manager.ts).
pub mod Winners
pub mod Order
use memphis_v.Base.{
  ℕ, zero, suc, ◌+◌, Text, Bool, true, false, not, ◌&&◌, ◌||◌, Option, none, some, List, [], ◌∷◌,
  length, map, if◌then◌else◌, Result, ok, err,
}
use memphis_v.Base.Int.{ℤ, pos, ltb_ℤ}
use memphis_v.Base.Maps.{Map, get, set, values}
use memphis_v.Sync.Diff.{
  Platform, Block, block_key, add_all, keyed, or_else, Diff, detect_chain_diff,
}

pub data Strategy : Type 0 where
  last_write_wins prefer_local prefer_remote : Strategy

abbrev parsed_time : Platform → Option Text → ℤ
parsed_time p none = pos 0
parsed_time p (some []) = pos 0
parsed_time p (some (c ∷ s)) = or_else (p.date_parse (c ∷ s)) (pos 0)

unfoldable pub block_timestamp : Platform → Block → ℤ
block_timestamp p b = parsed_time p b.timestamp

-- `a <= b`
abbrev pub leb_ℤ : ℤ → ℤ → Bool
leb_ℤ a b = not (ltb_ℤ b a)

-- Whether a remote block takes the place of the one that is there.
unfoldable pub replaces : Platform → Strategy → Block → Block → Bool
replaces p prefer_local remote current = false
replaces p prefer_remote remote current = true
replaces p last_write_wins remote current =
    leb_ℤ (block_timestamp p current) (block_timestamp p remote)

abbrev pub merged_with : Platform → Strategy → Block → Option Block → Map Block → Map Block
merged_with p s b none m = set (block_key p b) b m
merged_with p s b (some c) m = if replaces p s b c then set (block_key p b) b m else m

-- The loop over the remote blocks.
unfoldable pub merge_all : Platform → Strategy → List Block → Map Block → Map Block
merge_all p s [] m = m
merge_all p s (b ∷ bs) m = merge_all p s bs (merged_with p s b (get (block_key p b) m) m)

unfoldable pub merged : Platform → Strategy → List Block → List Block → Map Block
merged p s local remote = merge_all p s remote (keyed p local)

-- `Number.MAX_SAFE_INTEGER` stands for an index that is missing.
abbrev pub sort_index : Block → ℤ
sort_index b = or_else b.index (pos 9007199254740991)

-- The comparison of the sort: whether `b` comes strictly before `a`.
unfoldable pub comes_before : Platform → Block → Block → Bool
comes_before p b a =
    ltb_ℤ (sort_index b) (sort_index a)
    || (not (ltb_ℤ (sort_index a) (sort_index b))
        && ltb_ℤ (block_timestamp p b) (block_timestamp p a))

-- One round of the stable sort.
unfoldable pub insert_block : Platform → Block → List Block → List Block
insert_block p a [] = a ∷ []
insert_block p a (b ∷ bs) =
    let rest = insert_block p a bs in if comes_before p b a then b ∷ rest else a ∷ b ∷ bs

unfoldable pub sort_blocks : Platform → List Block → List Block
unfolding insert_block
sort_blocks p [] = []
sort_blocks p (b ∷ bs) = insert_block p b (sort_blocks p bs)

unfoldable pub resolve_chain_conflicts : Platform → Strategy → List Block → List Block → List Block
resolve_chain_conflicts p s local remote = sort_blocks p (values (merged p s local remote))
