-- ===== src/Chain/Lock/Abandoned.antt =====
-- A process that crashed inside the lock of a chain (infra/storage/chain-adapter.ts).
use memphis_v.Base.{
  ltb, ltb→lt, ltb-false, ℕ, suc, ◌+◌, ◌≤◌, ◌≡◌, ◌⊎◌, refl, false, ◌==◌, if◌then◌else◌, some,
  ==_iff, err, arith, inl, inr, Bool-cases,
}
use memphis_v.Chain.Json.{Platform}
use memphis_v.Chain.Block.{lock_timeout}
use memphis_v.Chain.Directory.{Directory}
use memphis_v.Chain.Append.{Call}
use memphis_v.Chain.Lock.{
  Phase, trying, left, crashed, is_critical, max_attempts, System, moved, Step, open_lock, wait,
  give_up, read, write, unlock, crash, Reach, here, next,
}
use memphis_v.Chain.Lock.Exclusion.{IsValid, start, start-IsValid, Reach-IsValid}

-- A process that crashed inside the lock leaves the lock file behind.
abbrev pub IsAbandoned : ℕ → System → Type 0
IsAbandoned i s = (s.phase i ≡ crashed) × (s.lock ≡ some i)

Step-IsAbandoned :
    {p : Platform} {call : ℕ → Call} {s t : System} (i : ℕ)
    → Step p call s t
    → IsValid p s
    → IsAbandoned i s
    → IsAbandoned i t
Step-IsAbandoned i (open_lock j n e q free) v h = absurd (ground (arith))
Step-IsAbandoned i (wait j n k e q held) v h = ground (arith, ==_iff j i)
Step-IsAbandoned i (give_up j n e q) v h = ground (arith, ==_iff j i)
Step-IsAbandoned i (read j e) v h = ground (arith, ==_iff j i)
Step-IsAbandoned i (write j before disk e) v h = ground (arith, ==_iff j i)
Step-IsAbandoned i (unlock j r e) v h = absurd (ground (arith, ==_iff j i, v.owns j))
Step-IsAbandoned i (crash j) v h = ground (arith, ==_iff j i)

Reach-IsAbandoned :
    {p : Platform} {call : ℕ → Call} {s t : System} (i : ℕ)
    → Reach p call s t
    → IsValid p s
    → IsAbandoned i s
    → IsAbandoned i t
Reach-IsAbandoned i here v h = h
Reach-IsAbandoned i (next r st) v h =
    Step-IsAbandoned i st (Reach-IsValid v r) (Reach-IsAbandoned i r v h)

-- The process that a step moves, and how often one is moved.
abbrev pub mover : {p : Platform} {call : ℕ → Call} {s t : System} → Step p call s t → ℕ
mover (open_lock i n e q free) = i
mover (wait i n k e q held) = i
mover (give_up i n e q) = i
mover (read i e) = i
mover (write i before disk e) = i
mover (unlock i r e) = i
mover (crash i) = i

abbrev pub turns : {p : Platform} {call : ℕ → Call} {s t : System} → ℕ → Reach p call s t → ℕ
turns j here = 0
turns j (next r st) = let before = turns j r in if mover st == j then suc before else before

-- Where a process stands that waited for the lock before its `n`-th attempt, some turns later.
abbrev Waits : ℕ → ℕ → Phase → Type 0
Waits n moves x =
    ((x ≡ trying (n + moves)) × ((n + moves ≤ n) ⊎ (n + moves ≤ max_attempts)))
    ⊎ ((x ≡ left (err lock_timeout)) ⊎ (x ≡ crashed))

Step-Waits :
    {p : Platform} {call : ℕ → Call} {s t : System} (i j n moves : ℕ)
    → (st : Step p call s t) → IsAbandoned i s
    → Waits n moves (s.phase j)
    → Waits n (if mover st == j then suc moves else moves) (t.phase j)
Step-Waits i j n moves (open_lock k m e q free) h w = absurd (ground (arith))
Step-Waits i j n moves (wait k m o e q held) h w = ground (arith, ==_iff k j)
Step-Waits i j n moves (give_up k m e q) h w = ground (arith, ==_iff k j)
Step-Waits i j n moves (read k e) h w = ground (arith, ==_iff k j)
Step-Waits i j n moves (write k before disk e) h w = ground (arith, ==_iff k j)
Step-Waits i j n moves (unlock k r e) h w = ground (arith, ==_iff k j)
Step-Waits i j n moves (crash k) h w = ground (arith, ==_iff k j)

Reach-Waits :
    {p : Platform} {call : ℕ → Call} {s t : System} (i j n : ℕ)
    → (later : Reach p call s t) → IsValid p s
    → IsAbandoned i s
    → s.phase j ≡ trying n
    → Waits n (turns j later) (t.phase j)
Reach-Waits i j n here v h e = ground (arith, e)
Reach-Waits i j n (next r st) v h e =
    Step-Waits i j n (turns j r) st (Reach-IsAbandoned i r v h) (Reach-Waits i j n r v h e)

-- A step of a process to its next attempt, or out with the timeout.
abbrev pub CanTry : (p : Platform) (call : ℕ → Call) → System → ℕ → ℕ → Type 0
CanTry p call t j m =
    (u : System) × (st : Step p call t u) × (mover st ≡ j)
    × ((u.phase j ≡ trying (suc m)) ⊎ (u.phase j ≡ left (err lock_timeout)))

can_try :
    (p : Platform) (call : ℕ → Call) (t : System) (i j m : ℕ)
    → IsAbandoned i t
    → t.phase j ≡ trying m
    → CanTry p call t j m
can_try p call t i j m h e = elim (Bool-cases (ltb m max_attempts)) [
  | inl low ↦ (
    moved t j (trying (suc m)),
    wait j m i e (ltb→lt m max_attempts low) h.1,
    refl,
    inl (ground (arith, ==_iff j j)),
  )
  | inr high ↦ (
    moved t j (left (err lock_timeout)),
    give_up j m e (ltb-false m max_attempts high),
    refl,
    inr (ground (arith, ==_iff j j)),
  )
]

-- Once a process has crashed inside the lock, no process is inside the lock in any later state, and a
-- process that was waiting for the lock at the crash, or had not begun, times out: it still waits only
-- if it was moved at most 200 times since, and then it can be moved, to its next attempt or out with
-- the timeout; otherwise it is out with the timeout, unless it has crashed itself.
pub crash_blocks_chain :
    {p : Platform} {call : ℕ → Call} {d : Directory} {s t : System} (i j n : ℕ)
    → Reach p call (start d) s
    → IsAbandoned i s
    → (later : Reach p call s t) → s.phase j ≡ trying n
    → ((k : ℕ) → is_critical (t.phase k) ≡ false)
      × (((t.phase j ≡ trying (n + turns j later))
            × (turns j later ≤ max_attempts)
            × CanTry p call t j (n + turns j later))
          ⊎ ((t.phase j ≡ left (err lock_timeout)) ⊎ (t.phase j ≡ crashed)))
crash_blocks_chain {p} {call} {d} {t = t} i j n r h later waits =
    let v = Reach-IsValid (start-IsValid p d) r in
    let w = Reach-IsValid v later in
    let (dead, held) = Reach-IsAbandoned i later v h in
    (
      λ k. elim (Bool-cases (is_critical (t.phase k))) [
        | inr e ↦ e
        | inl e ↦ absurd (ground (arith, w.owns k e))
      ],
      elim (Reach-Waits i j n later v h waits) [
        | inl (stands, few) ↦ inl (
          stands,
          ground (arith, few),
          can_try p call t i j (n + turns j later) (dead, held) stands,
        )
        | inr out ↦ inr out
      ],
    )
