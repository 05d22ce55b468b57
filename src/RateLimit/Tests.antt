-- ===== src/RateLimit/Tests.antt =====
-- A run of the rate limiter.
use memphis_v.Base.{ℕ, ◌≤◌, ◌≡◌, refl, Text, codes, some, List, [], ◌∷◌, arith}
use memphis_v.Base.Texts.{text_eq}
use memphis_v.RateLimit.{Limiter, Bucket, get, admitted, AllBefore, window_bound}

abbrev limiter : Limiter
limiter = record { max_requests = 3; window_ms = 1000 }

abbrev standing : Bucket
standing = record { key = codes "ip1"; count = 2; reset_at = 1500 }

abbrev requests : List (Text × ℕ)
requests = (codes "ip1", 700) ∷ (codes "ip2", 800) ∷ (codes "ip1", 900) ∷ (codes "ip1", 1400) ∷ []

standing_found : get (codes "ip1") (standing ∷ []) ≡ some standing
unfolding get text_eq
standing_found = refl

requests-AllBefore : AllBefore 1500 requests
unfolding AllBefore
requests-AllBefore = (omega arith, (omega arith, (omega arith, (omega arith, tt))))

window_bound_example : admitted limiter (codes "ip1") requests (standing ∷ []) ≤ 1
window_bound_example =
    window_bound limiter (codes "ip1") requests (standing ∷ []) standing standing_found
      requests-AllBefore
