-- ===== src/Chain/Lock/Exclusion.antt =====
-- At most one process is inside the lock of a chain (infra/storage/chain-adapter.ts).
use memphis_v.Base.{
  ℕ, ◌≡◌, refl, true, false, Option, none, some, ==_iff, ok, Result-cases, List, arith, inl, inr,
}
use memphis_v.Chain.Json.{Platform}
use memphis_v.Chain.Block.{Block}
use memphis_v.Chain.Directory.{Directory, last, prune, read_chain}
use memphis_v.Chain.Append.{Call}
use memphis_v.Chain.Lock.{
  Phase, trying, ready, is_critical, System, moved, Step, open_lock, wait, give_up, read, write,
  unlock, crash, Reach, here, next,
}

-- A process inside the lock made the lock file that is there, and what it read last is still the last
-- block of the chain.
pub record IsValid (p : Platform) (s : System) : Type 0 where
  pub owns : (i : ℕ) → is_critical (s.phase i) ≡ true → s.lock ≡ some i
  pub current :
      (i : ℕ) (before : Option Block)
      → s.phase i ≡ ready before
      → (bs : List Block) × (read_chain p s.directory ≡ ok bs) × (last bs ≡ before)

-- A process that goes where it is not inside the lock changes nothing for the others.
outside :
    (p : Platform) (s : System) (i : ℕ) (x : Phase)
    → is_critical x ≡ false
    → IsValid p s
    → IsValid p (moved s i x)
outside p s i x out v = record {
  owns = λ j c. ground (arith, ==_iff i j, v.owns j);
  current = λ j b c. ground (arith, ==_iff i j, v.current j b);
}

Step-IsValid :
    {p : Platform} {call : ℕ → Call} {s t : System} → Step p call s t → IsValid p s → IsValid p t
Step-IsValid (open_lock i n e q free) v = record {
  owns = λ j c. ground (arith, ==_iff i j, v.owns j);
  current = λ j b c. ground (arith, ==_iff i j, v.current j b);
}
Step-IsValid (wait i n k e q held) v = outside _ _ i _ refl v
Step-IsValid (give_up i n e q) v = outside _ _ i _ refl v
Step-IsValid {p} {s = s} (read i e) v = record {
  owns = λ j c. ground (arith, ==_iff i j, v.owns j, v.owns i);
  current = λ j b c. elim (Result-cases (read_chain p (prune s.directory))) [
    | inl (bs, r) ↦ ground (arith, ==_iff i j, v.owns j, v.owns i)
    | inr (x, r) ↦ ground (arith, ==_iff i j, v.owns j, v.owns i)
  ];
}
Step-IsValid (write i before disk e) v = record {
  owns = λ j c. ground (arith, ==_iff i j, v.owns j, v.owns i);
  current = λ j b c. ground (arith, ==_iff i j, v.owns j, v.owns i);
}
Step-IsValid (unlock i r e) v = record {
  owns = λ j c. ground (arith, ==_iff i j, v.owns j, v.owns i);
  current = λ j b c. ground (arith, ==_iff i j, v.owns j, v.owns i, v.current j b);
}
Step-IsValid (crash i) v = outside _ _ i _ refl v

pub Reach-IsValid :
    {p : Platform} {call : ℕ → Call} {s t : System} → IsValid p s → Reach p call s t → IsValid p t
Reach-IsValid v here = v
Reach-IsValid v (next r st) = Step-IsValid st (Reach-IsValid v r)

-- Nobody has tried yet, and there is no lock file.
abbrev pub start : Directory → System
start d = record { lock = none; directory = d; phase = λ i. trying 0 }

pub start-IsValid : (p : Platform) (d : Directory) → IsValid p (start d)
start-IsValid p d = record { owns = λ j c. absurd (cc); current = λ j b c. absurd (cc) }

-- However processes append to one chain, fail, time out and crash, two of them are never inside the
-- lock together, and the block before which a process is about to write is the last block of the
-- chain that the directory holds at that moment: no append is built on a chain that has moved on.
pub lock_is_exclusive :
    {p : Platform} {call : ℕ → Call} {d : Directory} {s : System}
    → Reach p call (start d) s
    → ((i j : ℕ) → is_critical (s.phase i) ≡ true → is_critical (s.phase j) ≡ true → i ≡ j)
      × ((i : ℕ) (before : Option Block)
          → s.phase i ≡ ready before
          → (bs : List Block) × (read_chain p s.directory ≡ ok bs) × (last bs ≡ before))
lock_is_exclusive {p} {d = d} r =
    let v = Reach-IsValid (start-IsValid p d) r in
    (λ i j ci cj. ground (arith, v.owns i ci, v.owns j cj), v.current)
