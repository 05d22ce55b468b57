-- ===== src/Cache/Buffers.antt =====
-- `BufferPool` (infra/memory/buffer-pool.ts). A buffer is its length in bytes.
pub mod Buckets
pub mod Pooled
use memphis_v.Base.{
  ℕ, zero, suc, ◌+◌, ◌-◌, ◌*◌, ◌/◌, max, Bool, true, false, not, ◌&&◌, Option, none, some, List, [],
  ◌∷◌, length, get_elem?, select, ltb, leb, ◌==◌, if◌then◌else◌, map, sum,
}

-- The free buffers of a size: how many there are.
abbrev pub Buckets : Type 0
Buckets = List (ℕ × ℕ)

pub record BufferPool : Type 0 where
  pub max_bytes : ℕ
  pub bucket_sizes : List ℕ
  pub max_buffers_per_bucket : ℕ
  pub buckets : Buckets
  pub used_bytes : ℕ
  pub pooled_bytes : ℕ
  pub alloc_count : ℕ
  pub reuse_count : ℕ
  pub release_count : ℕ
  pub misses : ℕ

abbrev pub given {ℓ} : {A : Type ℓ} → Option A → A → A
given none a = a
given (some b) a = b

unfoldable pub insert_size : ℕ → List ℕ → List ℕ
insert_size n [] = n ∷ []
insert_size n (m ∷ ms) = let rest = insert_size n ms in if ltb m n then m ∷ rest else n ∷ m ∷ ms

unfoldable pub sort_sizes : List ℕ → List ℕ
unfolding insert_size
sort_sizes [] = []
sort_sizes (n ∷ ns) = insert_size n (sort_sizes ns)

abbrev default_sizes : List ℕ
default_sizes = 256 ∷ 512 ∷ 1024 ∷ 4096 ∷ 16384 ∷ 65536 ∷ 262144 ∷ []

unfoldable pub new_pool : Option ℕ → Option (List ℕ) → Option ℕ → BufferPool
new_pool max_bytes sizes per_bucket = record {
  max_bytes = max 1024 (given max_bytes (4 * 1024 * 1024));
  bucket_sizes = sort_sizes (select (λ n. ltb 0 n) (given sizes default_sizes));
  max_buffers_per_bucket = max 1 (given per_bucket 64);
  buckets = [];
  used_bytes = 0;
  pooled_bytes = 0;
  alloc_count = 0;
  reuse_count = 0;
  release_count = 0;
  misses = 0;
}

-- The binary search of `bucketFor` on the sizes from `lo` up to and without `past`; `best` is the best
-- one so far, 0 for none. The fuel bounds the number of rounds.
unfoldable pub search : ℕ → List ℕ → ℕ → ℕ → ℕ → ℕ → ℕ
search zero sizes size lo past best = best
search (suc fuel) sizes size lo past best =
    let mid = (lo + (past - 1)) / 2 in
    let candidate = given (get_elem? sizes mid) 0 in
    let below = search fuel sizes size lo mid candidate in
    let above = search fuel sizes size (mid + 1) past best in
    if ltb lo past then (if leb size candidate then below else above) else best

unfoldable pub bucket_for : List ℕ → ℕ → ℕ
bucket_for sizes size =
    let best = search (suc (length sizes)) sizes size 0 (length sizes) 0 in
    if ltb 0 best then best else size

-- The free buffers of a size.
unfoldable pub free_of : ℕ → Buckets → ℕ
free_of n [] = 0
free_of n ((m, k) ∷ bs) = if m == n then k else free_of n bs

unfoldable pub put_free : ℕ → ℕ → Buckets → Buckets
put_free n k [] = (n, k) ∷ []
put_free n k ((m, j) ∷ bs) =
    let rest = put_free n k bs in if m == n then (m, k) ∷ bs else (m, j) ∷ rest

-- The buffer is the one that is taken back, or a new one of the bucket's size.
unfoldable pub acquire : ℕ → BufferPool → ℕ × BufferPool
acquire size c =
    let bucket = bucket_for c.bucket_sizes (max 1 size) in
    let free = free_of bucket c.buckets in
    if ltb 0 free
    then (
      bucket,
      record c {
        buckets = put_free bucket (free - 1) c.buckets;
        pooled_bytes = c.pooled_bytes - bucket;
        used_bytes = c.used_bytes + bucket;
        reuse_count = c.reuse_count + 1;
      },
    )
    else (bucket, record c { alloc_count = c.alloc_count + 1; used_bytes = c.used_bytes + bucket })

-- The inner loop of `trim`: as many buffers of a size as bring the bytes down to the target.
abbrev trim_bucket : ℕ → ℕ → ℕ → ℕ → ℕ × ℕ
trim_bucket target n zero pooled = (0, pooled)
trim_bucket target n (suc k) pooled =
    let rest = trim_bucket target n k (pooled - n) in
    if ltb target pooled then rest else (suc k, pooled)

-- `trim`, with the buckets in descending order of their size; an empty one is deleted
unfoldable pub trim_from : ℕ → Buckets → ℕ → Buckets × ℕ
trim_from target [] pooled = ([], pooled)
trim_from target ((n, k) ∷ bs) pooled =
    let left = trim_bucket target n k pooled in
    let rest = trim_from target bs left.1 in
    if leb pooled target
    then ((n, k) ∷ bs, pooled)
    else if left.0 == 0
    then rest
    else ((n, left.0) ∷ rest.0, rest.1)

unfoldable pub insert_bucket : ℕ × ℕ → Buckets → Buckets
insert_bucket b [] = b ∷ []
insert_bucket b (x ∷ bs) =
    let rest = insert_bucket b bs in if ltb b.0 x.0 then x ∷ rest else b ∷ x ∷ bs

unfoldable pub sort_buckets : Buckets → Buckets
unfolding insert_bucket
sort_buckets [] = []
sort_buckets (b ∷ bs) = insert_bucket b (sort_buckets bs)

unfoldable pub trim : ℕ → BufferPool → BufferPool
trim target c =
    let trimmed = trim_from target (sort_buckets c.buckets) c.pooled_bytes in
    if leb c.pooled_bytes target
    then c
    else record c { buckets = trimmed.0; pooled_bytes = trimmed.1 }

abbrev counted : ℕ → BufferPool → BufferPool
counted bucket c = record c {
  release_count = c.release_count + 1;
  used_bytes = c.used_bytes - bucket;
}

abbrev missed : BufferPool → BufferPool
missed c = record c { misses = c.misses + 1 }

abbrev overfull : BufferPool → BufferPool
overfull c = if ltb c.max_bytes c.pooled_bytes then trim (c.max_bytes * 3 / 4) c else c

-- The buffer is zeroed in its first bytes, which its length does not show.
unfoldable pub release : ℕ → BufferPool → BufferPool
release bucket before =
    let c = counted bucket before in
    let free = free_of bucket c.buckets in
    if ltb c.max_bytes (c.pooled_bytes + bucket)
    then missed c
    else if leb c.max_buffers_per_bucket free
    then missed (record c { buckets = put_free bucket free c.buckets })
    else overfull (record c {
      buckets = put_free bucket (free + 1) c.buckets;
      pooled_bytes = c.pooled_bytes + bucket;
    })
