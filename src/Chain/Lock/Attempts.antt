-- ===== src/Chain/Lock/Attempts.antt =====
-- The attempts of `withAppendLock` (infra/storage/chain-adapter.ts).
use memphis_v.Base.{
  ℕ, zero, suc, ◌+◌, ◌<◌, ◌≤◌, ◌≡◌, ◌↔◌, refl, Bool, true, false, Option, some, arith, inl, inr,
  Bool-cases,
}
use native.Mathlib.Decide.{ℕ_discrete}
use memphis_v.Chain.Lock.{max_attempts, acquire_from, acquire}

-- The first attempt from `from` on that finds no lock file, among the first `limit`.
abbrev IsFirst : ℕ → ℕ → (ℕ → Bool) → ℕ → Type 0
IsFirst start limit exists_at n =
    (start ≤ n)
    × (n < limit)
    × (exists_at n ≡ false)
    × ((k : ℕ) → start ≤ k → k < n → exists_at k ≡ true)

some_inj : (a b : ℕ) → ◌≡◌ {A = Option ℕ} (some a) (some b) → a ≡ b
some_inj a b h = cc

acquired-IsFirst :
    (tries start : ℕ) (exists_at : ℕ → Bool) (n : ℕ)
    → acquire_from tries start exists_at ≡ some n
    → IsFirst start (start + tries) exists_at n
unfolding acquire_from
acquired-IsFirst zero start f n h = absurd (cc)
acquired-IsFirst (suc tries) start f n h = elim (Bool-cases (f start)) [
  | inr e ↦
      let at : start ≡ n = some_inj start n (rw e at (h)) in
      rw (← at) (omega arith, omega arith, e, λ k a b. absurd (omega arith))
  | inl e ↦
      let (low, high, free, busy) = acquired-IsFirst tries (suc start) f n (rw e at (h)) in
      (
        omega arith,
        omega arith,
        free,
        λ k a b. elim (ℕ_discrete start k) [ yes q ↦ rw (← q) e | no q ↦ busy k (omega arith) b ],
      )
]

first_acquired :
    (tries start : ℕ) (exists_at : ℕ → Bool) (n : ℕ)
    → IsFirst start (start + tries) exists_at n
    → acquire_from tries start exists_at ≡ some n
unfolding acquire_from
first_acquired zero start f n (low, high, free, busy) = absurd (omega arith)
first_acquired (suc tries) start f n (low, high, free, busy) = elim (ℕ_discrete start n) [
  | yes q ↦ rw (q, free) refl
  | no q ↦ rw (busy start (omega arith) (omega arith)) (
      first_acquired tries (suc start) f n
        (omega arith, omega arith, free, λ k a b. busy k (omega arith) b))
]

-- `withAppendLock` gets the lock exactly when one of its 200 attempts finds no lock file, and then at
-- the first attempt that does.
pub acquire_iff :
    (exists_at : ℕ → Bool) (n : ℕ)
    → (acquire exists_at ≡ some n)
      ↔ ((n < max_attempts) × (exists_at n ≡ false) × ((k : ℕ) → k < n → exists_at k ≡ true))
unfolding acquire
acquire_iff exists_at n = (
  λ h.
      let (low, high, free, busy) = acquired-IsFirst max_attempts 0 exists_at n h in
      (high, free, λ k b. busy k (omega arith) b),
  λ (high, free, busy).
      first_acquired max_attempts 0 exists_at n (omega arith, high, free, λ k a b. busy k b),
)
