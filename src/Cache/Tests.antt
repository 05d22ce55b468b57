-- ===== src/Cache/Tests.antt =====
-- Small caches and pools, and the theorems about them.
use memphis_v.Base.{
  ℕ, ◌+◌, ◌≤◌, ◌≡◌, ◌⊎◌, refl, Text, codes, none, some, List, [], ◌∷◌, length, leb, arith, inl,
  if◌then◌else◌,
}
use memphis_v.Base.Maps.{get, Distinct}
use memphis_v.Base.Texts.{text_eq}
use memphis_v.Cache.Chain
use memphis_v.Cache.Chain.{Printer, make_key, Op, set_block, get_block, drop_chain, new_cache}
use memphis_v.Cache.Chain.Valid
use memphis_v.Cache.Chain.Valid.{cache_run-IsValid}
use memphis_v.Cache.Chain.Kept.{get_after_set}
use memphis_v.Cache.Query
use memphis_v.Cache.Query.{QueryCache, store}
use memphis_v.Cache.Query.Fresh.{query_store_bounded, fresh_until}
use memphis_v.Cache.FileCache.{FileCache, Entry, read, finish_read}
use memphis_v.Cache.FileCache.Evict.{IsExact, total_size}
use memphis_v.Cache.FileCache.Runs
use memphis_v.Cache.FileCache.Runs.{read_file, drop_file, reads_keep_size}
use memphis_v.Cache.FileCache.Size.{Fits, read_keeps_size, overlapping_reads_drift}
use memphis_v.Cache.Buffers.{bucket_for, sort_sizes, new_pool}
use memphis_v.Cache.Buffers.Buckets.{first_fit, bucket_for-first_fit}
use memphis_v.Cache.Buffers.Pooled
use memphis_v.Cache.Buffers.Pooled.{take_buffer, give_back, pool_run-IsValid}

abbrev printer : Printer Text
printer = record { json_length = length }

abbrev calls : List (Op Text)
calls =
    set_block (codes "a") 1 (codes "x")
    ∷ set_block (codes "a") 2 (codes "yy")
    ∷ get_block (codes "a") 1
    ∷ drop_chain (codes "a")
    ∷ []

cache_run-IsValid_example : Valid.IsValid (Chain.run printer calls (new_cache (some 1)))
cache_run-IsValid_example = cache_run-IsValid printer (some 1) calls

get_after_set_example :
    (Chain.lookup (make_key (codes "a") 2) (
      Chain.store printer
        (make_key (codes "a") 2)
        (codes "yy")
        (Chain.run printer calls (new_cache (some 1))))).0
    ≡ some (codes "yy")
get_after_set_example =
    get_after_set printer (codes "a") 2 (codes "yy") (Chain.run printer calls (new_cache (some 1)))
      cache_run-IsValid_example

abbrev full : QueryCache ℕ
full = record {
  max_age = 60;
  max_size = 1;
  entries = (codes "q", record { content = 7; timestamp = 0; hits = 0 }) ∷ [];
}

query_store_bounded_example :
    (length (QueryCache.entries (store 5 (codes "r") 9 full)) ≤ 1)
    × (get [] (QueryCache.entries (store 5 (codes "r") 9 full)) ≡ none)
    × Distinct (QueryCache.entries (store 5 (codes "r") 9 full))
unfolding get text_eq
query_store_bounded_example =
    query_store_bounded 5 (codes "r") 9 full (omega arith) (omega arith) refl (refl, tt) refl

fresh_until_example :
    (Query.lookup 40 (codes "r") (store 5 (codes "r") 9 full)).0
    ≡ (if leb 40 (5 + full.max_age) then some 9 else none)
fresh_until_example = fresh_until 5 40 (codes "r") 9 full

abbrev file : Entry
file = record { content = codes "text"; mtime = 3; size = 4 }

abbrev no_files : FileCache
no_files = record { entries = []; max_size = 100; current_size = 0 }

no_files-IsExact : IsExact no_files
unfolding get
no_files-IsExact = record { exact = refl; distinct = tt; named = refl }

read_keeps_size_example :
    (content : Text) × (d : FileCache) × (read (codes "f") file no_files ≡ some (content, d))
    × IsExact d
    × Fits d
    × ((content ≡ file.content)
        ⊎ ((e : Entry) × (get (codes "f") no_files.entries ≡ some e)
            × (e.mtime ≡ file.mtime)
            × (content ≡ e.content)))
read_keeps_size_example =
    read_keeps_size (codes "f") file no_files no_files-IsExact (inl (omega arith)) refl

-- a file that is read, changes, and is read again
abbrev file_calls : List Runs.Op
file_calls = read_file (codes "f") file ∷ read_file (codes "g") file ∷ drop_file (codes "g") ∷ []

abbrev changed : Entry
changed = record file { content = codes "later"; mtime = 9; size = 5 }

reads_keep_size_example :
    (c : FileCache) × (content : Text) × (d : FileCache) × (Runs.run file_calls (Runs.new_cache 100)
      ≡ some c)
    × (read (codes "f") changed c ≡ some (content, d))
    × IsExact d
    × Fits d
    × ((content ≡ changed.content)
        ⊎ ((e : Entry) × (get (codes "f") c.entries ≡ some e)
            × (e.mtime ≡ changed.mtime)
            × (content ≡ e.content)))
reads_keep_size_example = reads_keep_size 100 file_calls (codes "f") changed (refl, (refl, tt)) refl

overlapping_reads_drift_example :
    (d : FileCache) × (e : FileCache) × (finish_read (codes "f") file no_files ≡ some d)
    × (finish_read (codes "f") file d ≡ some e)
    × (e.current_size ≡ total_size e.entries + 4)
unfolding get
overlapping_reads_drift_example =
    overlapping_reads_drift (codes "f") file no_files no_files-IsExact refl refl (omega arith)

bucket_for-first_fit_example :
    bucket_for (sort_sizes (512 ∷ 256 ∷ 1024 ∷ [])) 300
    ≡ first_fit (sort_sizes (512 ∷ 256 ∷ 1024 ∷ [])) 300
bucket_for-first_fit_example = bucket_for-first_fit (512 ∷ 256 ∷ 1024 ∷ []) 300 (omega arith)

pool_run-IsValid_example :
    Pooled.IsValid (
      Pooled.run (take_buffer 300 ∷ give_back 512 ∷ take_buffer 300 ∷ []) (new_pool none none none))
pool_run-IsValid_example =
    pool_run-IsValid none none none (take_buffer 300 ∷ give_back 512 ∷ take_buffer 300 ∷ [])
