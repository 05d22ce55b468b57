-- ===== src/Cache/FileCache/Runs.antt =====
-- A `FileCache` from its construction on, with reads that do not overlap (cache/file-cache.ts).
use memphis_v.Base.{
  ℕ, ◌≤◌, ◌≡◌, ◌⊎◌, refl, Text, Bool, false, ◌==◌, Option, none, some, List, [], ◌∷◌, length,
  if◌then◌else◌, inl, inr, Bool-cases, Option-cases, arith,
}
use memphis_v.Base.Maps.{Map, get, delete}
use memphis_v.Cache.FileCache.{
  Entry, FileCache, evict, evict_matching, read, clear, invalidate_pattern,
}
use memphis_v.Cache.FileCache.Evict.{IsExact, evict-IsExact}
use memphis_v.Cache.FileCache.Size.{Fits, read_keeps_size}

abbrev pub new_cache : ℕ → FileCache
new_cache max_size = record { entries = []; max_size = max_size; current_size = 0 }

-- The public calls; a read has what the file system gives.
pub data Op : Type 0 where
  read_file : Text → Entry → Op
  drop_file : Text → Op
  drop_matching : (Text → Bool) → Op
  clear_all : Op

abbrev pub left_by : Option (Text × FileCache) → Option FileCache
left_by none = none
left_by (some (content, c)) = some c

abbrev pub perform : Op → FileCache → Option FileCache
perform (read_file path file) c = left_by (read path file c)
perform (drop_file path) c = some (evict path c)
perform (drop_matching test) c = some (invalidate_pattern test c)
perform clear_all c = some (clear c)

-- None if a call does not end.
abbrev pub run : List Op → FileCache → Option FileCache
run [] c = some c
run (op ∷ ops) c = elim (perform op c) [ none ↦ none | some d ↦ run ops d ]

-- No read is of the empty path, which names no file.
abbrev pub Named : List Op → Type 0
Named [] = Unit {0}
Named (read_file path file ∷ ops) = ((length path == 0) ≡ false) × Named ops
Named (drop_file path ∷ ops) = Named ops
Named (drop_matching test ∷ ops) = Named ops
Named (clear_all ∷ ops) = Named ops

abbrev IsSound : FileCache → Type 0
IsSound c = IsExact c × Fits c

delete-le : (k : Text) (m : Map Entry) → length (delete k m) ≤ length m
unfolding delete
delete-le k [] = omega arith
delete-le k ((q, e) ∷ m) = ground (arith, delete-le k m)

evict-Fits : (path : Text) (c : FileCache) → Fits c → Fits (evict path c)
unfolding evict
evict-Fits path c h = elim (Option-cases (get path c.entries)) [
  | inl o ↦ rw (o, evict) h
  | inr (e, o) ↦
      let shorter = delete-le path c.entries in rw (o, evict) (ground (arith, shorter, h))
]

evict-IsSound : (path : Text) (c : FileCache) → IsSound c → IsSound (evict path c)
evict-IsSound path c h = (evict-IsExact path c h.0, evict-Fits path c h.1)

matching-IsSound :
    (test : Text → Bool) (m : Map Entry) (c : FileCache)
    → IsSound c
    → IsSound (evict_matching test m c)
matching-IsSound test [] c h = h
matching-IsSound test ((k, e) ∷ m) c h =
    matching-IsSound test m (if test k then evict k c else c)
      (elim (Bool-cases (test k)) [ inl t ↦ rw t (evict-IsSound k c h) | inr t ↦ rw t h ])

new_cache-IsSound : (max_size : ℕ) → IsSound (new_cache max_size)
unfolding get
new_cache-IsSound max_size =
    (record { exact = refl; distinct = tt; named = refl }, inr (omega arith))

clear-IsSound : (c : FileCache) → IsSound (clear c)
unfolding clear get
clear-IsSound c = (record { exact = refl; distinct = tt; named = refl }, inr (omega arith))

run-IsSound :
    (ops : List Op) (c : FileCache)
    → Named ops
    → IsSound c
    → (d : FileCache) × (run ops c ≡ some d) × IsSound d
unfolding invalidate_pattern
run-IsSound [] c n h = (c, refl, h)
run-IsSound (read_file path file ∷ ops) c n h =
    let (content, d, ended, exact, fits, text) = read_keeps_size path file c h.0 h.1 n.0 in
    let (e, done, sound) = run-IsSound ops d n.1 (exact, fits) in (e, rw (ended, run) done, sound)
run-IsSound (drop_file path ∷ ops) c n h = run-IsSound ops (evict path c) n (evict-IsSound path c h)
run-IsSound (drop_matching test ∷ ops) c n h =
    run-IsSound ops (invalidate_pattern test c) n (matching-IsSound test c.entries c h)
run-IsSound (clear_all ∷ ops) c n h = run-IsSound ops (clear c) n (clear-IsSound c)

-- Calls one after another on a new cache, no two reads of which overlap and none is of the empty path,
-- all end, and so does a read after them. That read returns the text of the file, or that of an entry
-- with the file's time; afterwards the kept size is the sum of the sizes of the entries, and the cache
-- is within its limit or holds one file alone.
pub reads_keep_size :
    (max_size : ℕ) (ops : List Op) (path : Text) (file : Entry)
    → Named ops
    → (length path == 0) ≡ false
    → (c : FileCache) × (content : Text) × (d : FileCache) × (run ops (new_cache max_size) ≡ some c)
      × (read path file c ≡ some (content, d))
      × IsExact d
      × Fits d
      × ((content ≡ file.content)
          ⊎ ((e : Entry) × (get path c.entries ≡ some e)
              × (e.mtime ≡ file.mtime)
              × (content ≡ e.content)))
reads_keep_size max_size ops path file n filled =
    let (c, done, (exact, fits)) =
      run-IsSound ops (new_cache max_size) n (new_cache-IsSound max_size) in
    let (content, d, ended, exact', fits', text) = read_keeps_size path file c exact fits filled in
    (c, content, d, done, ended, exact', fits', text)
