-- ===== src/Cache/Buffers/Pooled.antt =====
-- What a `BufferPool` keeps (infra/memory/buffer-pool.ts).
use memphis_v.Base.{
  ℕ, ◌+◌, ◌-◌, ◌*◌, ◌≤◌, ◌≡◌, refl, ap, ◌∙◌, max, ◌==◌, ==_iff, Option, List, [], ◌∷◌, ltb, leb,
  ltb→lt, ltb-false, arith, inl, inr, Bool-cases,
}
use memphis_v.Cache.Buffers.{
  Buckets, BufferPool, new_pool, free_of, put_free, bucket_for, acquire, release,
}

-- The bytes of all free buffers.
abbrev pub bytes_of : Buckets → ℕ
bytes_of [] = 0
bytes_of ((n, k) ∷ bs) = n * k + bytes_of bs

times_next : (n k : ℕ) → n * (k + 1) ≡ n * k + n
times_next n k = omega arith

bytes_of-put :
    (n k : ℕ) (bs : Buckets) → bytes_of (put_free n k bs) + n * free_of n bs ≡ bytes_of bs + n * k
unfolding put_free free_of
bytes_of-put n k [] = omega arith
bytes_of-put n k ((m, j) ∷ bs) = elim (Bool-cases (m == n)) [
  | inl e ↦ let same : m ≡ n = (==_iff m n).0 e in rw (e, same) (omega arith)
  | inr e ↦ rw e (omega (arith, bytes_of-put n k bs))
]

-- The buckets of a size hold no more than the limit, and neither do the bytes of all.
pub record IsValid (c : BufferPool) : Type 0 where
  pub exact : c.pooled_bytes ≡ bytes_of c.buckets
  pub bounded : c.pooled_bytes ≤ c.max_bytes

new_pool-IsValid :
    (max_bytes : Option ℕ) (sizes : Option (List ℕ)) (per_bucket : Option ℕ)
    → IsValid (new_pool max_bytes sizes per_bucket)
unfolding new_pool
new_pool-IsValid max_bytes sizes per_bucket = record { exact = refl; bounded = omega arith }

acquire-IsValid : (size : ℕ) (c : BufferPool) → IsValid c → IsValid (acquire size c).1
unfolding acquire
acquire-IsValid size c h = elim (Bool-cases (ltb 0 (free_of bucket c.buckets))) [
  | inr e ↦ rw e (record { exact = h.exact; bounded = h.bounded })
  | inl e ↦
      let free = free_of bucket c.buckets in
      let some_free : free ≡ free - 1 + 1 = omega (arith, ltb→lt 0 free e) in
      let put = bytes_of-put bucket (free - 1) c.buckets in
      let product : bucket * free ≡ bucket * (free - 1) + bucket =
        ap (λ (k : ℕ). bucket * k) some_free ∙ times_next bucket (free - 1) in
      rw e (record {
        exact = omega (arith, h.exact, put, product);
        bounded = omega (arith, h.bounded);
      })
]
  where
    bucket : ℕ
    bucket = bucket_for c.bucket_sizes (max 1 size)

release-IsValid : (bucket : ℕ) (c : BufferPool) → IsValid c → IsValid (release bucket c)
unfolding release
release-IsValid bucket c h = elim (Bool-cases (ltb c.max_bytes (c.pooled_bytes + bucket))) [
  | inl e ↦ rw e (record { exact = h.exact; bounded = h.bounded })
  | inr e ↦ elim (Bool-cases (leb c.max_buffers_per_bucket (free_of bucket c.buckets))) [
    | inl f ↦
        let put = bytes_of-put bucket (free_of bucket c.buckets) c.buckets in
        rw (e, f) (record { exact = omega (arith, h.exact, put); bounded = h.bounded })
    | inr f ↦
        let free = free_of bucket c.buckets in
        let put = bytes_of-put bucket (free + 1) c.buckets in
        let product : bucket * (free + 1) ≡ bucket * free + bucket = times_next bucket free in
        let small = ltb-false c.max_bytes (c.pooled_bytes + bucket) e in
        rw (e, f) (record { exact = omega (arith, h.exact, put, product); bounded = small })
  ]
]

-- The public calls: the buffers that are handed out are the caller's, who may give any back.
pub data Op : Type 0 where
  take_buffer give_back : ℕ → Op

abbrev pub perform : Op → BufferPool → BufferPool
perform (take_buffer size) c = (acquire size c).1
perform (give_back size) c = release size c

abbrev pub run : List Op → BufferPool → BufferPool
run [] c = c
run (op ∷ ops) c = run ops (perform op c)

run_from-IsValid : (ops : List Op) (c : BufferPool) → IsValid c → IsValid (run ops c)
run_from-IsValid [] c h = h
run_from-IsValid (take_buffer size ∷ ops) c h = run_from-IsValid ops _ (acquire-IsValid size c h)
run_from-IsValid (give_back size ∷ ops) c h = run_from-IsValid ops _ (release-IsValid size c h)

-- However buffers are acquired from a new pool and released to it, pooledBytes is the sum of the
-- lengths of the free buffers, and stays within maxBytes.
pub pool_run-IsValid :
    (max_bytes : Option ℕ) (sizes : Option (List ℕ)) (per_bucket : Option ℕ) (ops : List Op)
    → IsValid (run ops (new_pool max_bytes sizes per_bucket))
pool_run-IsValid max_bytes sizes per_bucket ops =
    run_from-IsValid ops _ (new_pool-IsValid max_bytes sizes per_bucket)
