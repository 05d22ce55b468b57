-- ===== src/RateLimit.antt =====
-- `RateLimiter` (infra/http/rate-limit.ts): a number of requests in a window that the first of them
-- opens, for each key.
mod Tests
use memphis_v.Base.{
  ℕ, suc, ◌+◌, ◌-◌, ◌≤◌, ◌<◌, ◌≡◌, refl, Text, text_eq, text_eq_iff, text_eq_refl, ◌⊎◌, ◌∙◌, Bool,
  true, false, Option, none, some, List, [], ◌∷◌, ltb, leb, if◌then◌else◌, Result, ok, err, arith,
  Option-cases, Bool-cases, inl, inr,
}

pub record Bucket : Type 0 where
  pub key : Text
  pub count : ℕ
  pub reset_at : ℕ

-- the map of a limiter, in the order of insertion
abbrev pub Buckets : Type 0
Buckets = List Bucket

unfoldable pub get : Text → Buckets → Option Bucket
get key [] = none
get key (b ∷ bs) = let rest = get key bs in if text_eq b.key key then some b else rest

unfoldable pub set : Bucket → Buckets → Buckets
set a [] = a ∷ []
set a (b ∷ bs) = let rest = set a bs in if text_eq b.key a.key then a ∷ bs else b ∷ rest

pub record Limiter : Type 0 where
  pub max_requests : ℕ
  pub window_ms : ℕ

-- What is thrown says after how many milliseconds the key is free again.
pub data RateLimited : Type 0 where
  retry_after_ms : ℕ → RateLimited

abbrev pub opened : Limiter → Text → ℕ → Buckets → Result RateLimited (Unit {0}) × Buckets
opened l key now bs =
    (ok tt, set (record { key = key; count = 1; reset_at = now + l.window_ms }) bs)

abbrev pub check_bucket :
    Limiter → Text → ℕ → Buckets → Option Bucket → Result RateLimited (Unit {0}) × Buckets
check_bucket l key now bs none = opened l key now bs
check_bucket l key now bs (some b) =
    if leb b.reset_at now
    then opened l key now bs
    else if leb l.max_requests b.count
    then (err (retry_after_ms (b.reset_at - now)), bs)
    else (ok tt, set (record b { count = suc b.count }) bs)

unfoldable pub check : Limiter → Text → ℕ → Buckets → Result RateLimited (Unit {0}) × Buckets
check l key now bs = check_bucket l key now bs (get key bs)

-- the requests of a key, among requests of all keys in order, that are let through
abbrev pub admits : {A : Type 0} → Result RateLimited A → ℕ
admits (ok a) = 1
admits (err e) = 0

unfoldable pub admitted : Limiter → Text → List (Text × ℕ) → Buckets → ℕ
admitted l key [] bs = 0
admitted l key (c ∷ cs) bs =
    let r = check l c.0 c.1 bs in
    let rest = admitted l key cs r.1 in if text_eq c.0 key then admits r.0 + rest else rest

unfoldable pub AllBefore : ℕ → List (Text × ℕ) → Type 0
AllBefore t [] = Unit {0}
AllBefore t (c ∷ cs) = (c.1 < t) × AllBefore t cs

get-set :
    (key : Text) (a : Bucket) (bs : Buckets)
    → get key (set a bs) ≡ (if text_eq a.key key then some a else get key bs)
unfolding get set
get-set key a [] = refl
get-set key a (b ∷ bs) =
    ground (
      arith,
      get-set key a bs,
      text_eq_iff b.key a.key,
      text_eq_iff b.key key,
      text_eq_iff a.key key,
    )

get-key : (key : Text) (bs : Buckets) (b : Bucket) → get key bs ≡ some b → b.key ≡ key
unfolding get
get-key key [] b h = absurd (ground arith)
get-key key (c ∷ bs) b h = ground (arith, get-key key bs b, text_eq_iff c.key key)

-- a request of another key leaves the bucket
check-other :
    (l : Limiter) (other key : Text) (now : ℕ) (bs : Buckets)
    → text_eq other key ≡ false
    → get key (check l other now bs).1 ≡ get key bs
unfolding check
check-other l other key now bs ne = elim (Option-cases (get other bs)) [
  | inl absent ↦ ground (
    arith,
    absent,
    ne,
    get-set key (record { key = other; count = 1; reset_at = now + l.window_ms }) bs,
  )
  | inr (b, found) ↦ ground (
    arith,
    found,
    ne,
    get-key other bs b found,
    get-set key (record { key = other; count = 1; reset_at = now + l.window_ms }) bs,
    get-set key (record b { count = suc b.count }) bs,
  )
]

-- a request while the bucket stands
check-same :
    (l : Limiter) (key : Text) (now : ℕ) (bs : Buckets) (b : Bucket)
    → get key bs ≡ some b
    → now < b.reset_at
    → ((admits (check l key now bs).0 ≡ 0) × (get key (check l key now bs).1 ≡ some b))
      ⊎ ((admits (check l key now bs).0 ≡ 1)
          × (b.count < l.max_requests)
          × (get key (check l key now bs).1 ≡ some (record b { count = suc b.count })))
unfolding check
check-same l key now bs b found early = elim (Bool-cases (leb l.max_requests b.count)) [
  | inl full ↦ inl (ground (arith, found, full, early), ground (arith, found, full, early))
  | inr room ↦
      let counted = get-set key (record b { count = suc b.count }) bs in
      let named = get-key key bs b found in
      inr (
        ground (arith, found, room, early),
        ground (arith, room),
        ground (arith, found, room, early, counted, named, text_eq_refl key),
      )
]

check-named :
    (l : Limiter) (name key : Text) (now : ℕ) (bs : Buckets) (b : Bucket)
    → name ≡ key
    → get key bs ≡ some b
    → now < b.reset_at
    → ((admits (check l name now bs).0 ≡ 0) × (get key (check l name now bs).1 ≡ some b))
      ⊎ ((admits (check l name now bs).0 ≡ 1)
          × (b.count < l.max_requests)
          × (get key (check l name now bs).1 ≡ some (record b { count = suc b.count })))
check-named l name key now bs b e found early = rw e (check-same l key now bs b found early)

-- As long as its bucket stands, a key is let through for no more requests than the limit leaves of
-- those that were counted, however many requests of it and of other keys come.
pub window_bound :
    (l : Limiter) (key : Text) (calls : List (Text × ℕ)) (bs : Buckets) (b : Bucket)
    → get key bs ≡ some b
    → AllBefore b.reset_at calls
    → admitted l key calls bs ≤ l.max_requests - b.count
unfolding admitted AllBefore
window_bound l key [] bs b found early = omega arith
window_bound l key (c ∷ cs) bs b found early = elim (Bool-cases (text_eq c.0 key)) [
  | inl same ↦
      let next = (check l c.0 c.1 bs).1 in
      rw same (elim (check-named l c.0 key c.1 bs b ((text_eq_iff c.0 key).0 same) found early.0) [
        | inl (none_more, stands) ↦
            omega (arith, none_more, window_bound l key cs next b stands early.1)
        | inr (one, room, stands) ↦ omega (
          arith,
          one,
          room,
          window_bound l key cs next (record b { count = suc b.count }) stands early.1,
        )
      ])
  | inr other ↦
      let next = (check l c.0 c.1 bs).1 in
      rw other (window_bound l key cs next b (check-other l c.0 key c.1 bs other ∙ found) early.1)
]
