-- ===== src/Cache/FileCache.antt =====
-- `FileCache` (cache/file-cache.ts). A read is two steps, since it waits for the file system between
-- the look into the cache and the entry that it writes: other reads may come in between.
pub mod Evict
pub mod Size
pub mod Runs
use memphis_v.Base.{
  ℕ, zero, suc, ◌+◌, ◌-◌, Text, Bool, true, false, not, Option, none, some, List, [], ◌∷◌, length,
  ltb, ◌==◌, ◌&&◌, if◌then◌else◌,
}
use memphis_v.Base.Maps.{Map, get, set, delete}
use memphis_v.Cache.Oldest.{oldest_from}

pub record Entry : Type 0 where
  pub content : Text
  pub mtime : ℕ
  pub size : ℕ

pub record FileCache : Type 0 where
  pub entries : Map Entry
  pub max_size : ℕ
  pub current_size : ℕ

-- `evict`
unfoldable pub evict : Text → FileCache → FileCache
evict path c = elim (get path c.entries) [
  | none ↦ c
  | some e ↦ record c { current_size = c.current_size - e.size; entries = delete path c.entries }
]

-- `evictOldest`, whose guard asks for a path that is not empty
unfoldable pub evict_oldest : FileCache → FileCache
evict_oldest c = elim (oldest_from (λ e. e.mtime) none c.entries) [
  | none ↦ c
  | some k ↦ if length k == 0 then c else evict k c
]

-- The `while` of `read`, none if it does not end within the fuel.
unfoldable pub make_room : ℕ → ℕ → FileCache → Option FileCache
make_room zero size c = none
make_room (suc fuel) size c =
    let rest = make_room fuel size (evict_oldest c) in
    if ltb c.max_size (c.current_size + size) && ltb 0 (length c.entries) then rest else some c

-- `read` up to the wait for the file: a hit, if the file has still the time of its entry.
unfoldable pub start_read : Text → ℕ → FileCache → Option Text × FileCache
start_read path mtime c = elim (get path c.entries) [
  | none ↦ (none, c)
  | some e ↦ if mtime == e.mtime then (some e.content, c) else (none, evict path c)
]

abbrev pub entered : Text → Entry → FileCache → FileCache
entered path e c = record c {
  entries = set path e c.entries;
  current_size = c.current_size + e.size;
}

abbrev finished : Text → Entry → Option FileCache → Option FileCache
finished path e none = none
finished path e (some c) = some (entered path e c)

-- The rest of `read`, with what the file system gave. Each round of the loop takes an entry away, so
-- one more than their number is fuel enough.
unfoldable pub finish_read : Text → Entry → FileCache → Option FileCache
finish_read path e c = finished path e (make_room (suc (length c.entries)) e.size c)

abbrev pub after_start : Text → Entry → Option Text × FileCache → Option (Text × FileCache)
after_start path e (some content, c) = some (content, c)
after_start path e (none, c) = elim (finish_read path e c) [
  | none ↦ none
  | some d ↦ some (e.content, d)
]

-- A read that nothing comes between: the file has the entry's text, time and size.
unfoldable pub read : Text → Entry → FileCache → Option (Text × FileCache)
read path file c = after_start path file (start_read path file.mtime c)

unfoldable pub clear : FileCache → FileCache
clear c = record c { entries = []; current_size = 0 }

abbrev pub evict_matching : (Text → Bool) → Map Entry → FileCache → FileCache
evict_matching test [] c = c
evict_matching test ((k, e) ∷ m) c =
    let rest = evict_matching test m (if test k then evict k c else c) in rest

-- `invalidatePattern`, the pattern as a test of paths
unfoldable pub invalidate_pattern : (Text → Bool) → FileCache → FileCache
invalidate_pattern test c = evict_matching test c.entries c
