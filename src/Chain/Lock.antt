-- ===== src/Chain/Lock.antt =====
-- Processes that append to one chain under its lock file (`withAppendLock` and `appendBlock` of
-- infra/storage/chain-adapter.ts).
pub mod Exclusion
pub mod Abandoned
pub mod Attempts
use memphis_v.Base.{
  ℕ, zero, suc, ◌+◌, ◌<◌, ◌≤◌, ◌≡◌, Bool, true, false, Option, none, some, ◌==◌, if◌then◌else◌,
  Result, ok, err, List,
}
use memphis_v.Chain.Json.{Platform}
use memphis_v.Chain.Block.{Block, Error, lock_timeout}
use memphis_v.Chain.Directory.{Directory, last, prune, read_chain}
use memphis_v.Chain.Append.{Call, Disk, next_index, next_block, write_block}

abbrev pub max_attempts : ℕ
max_attempts = 200

-- The loop of `withAppendLock` from an attempt on, by whether the lock file is there at each attempt:
-- the attempt that creates it, or none. The fuel is the number of attempts left.
unfoldable pub acquire_from : ℕ → ℕ → (ℕ → Bool) → Option ℕ
acquire_from zero attempt exists_at = none
acquire_from (suc tries) attempt exists_at =
    let retried = acquire_from tries (suc attempt) exists_at in
    if exists_at attempt then retried else some attempt

unfoldable pub acquire : (ℕ → Bool) → Option ℕ
acquire exists_at = acquire_from max_attempts 0 exists_at

-- Where a process stands: before an attempt, with the lock, with the last block that it read, before
-- the removal of the lock, or out of `withAppendLock` by its result or by a crash.
pub data Phase : Type 0 where
  trying : ℕ → Phase
  locked : Phase
  ready : Option Block → Phase
  leaving : Result Error Block → Phase
  left : Result Error Block → Phase
  crashed : Phase

-- Inside the lock.
abbrev pub is_critical : Phase → Bool
is_critical locked = true
is_critical (ready before) = true
is_critical (leaving r) = true
is_critical _ = false

-- Who created the lock file that is there, the directory, and the processes.
pub record System : Type 0 where
  pub lock : Option ℕ
  pub directory : Directory
  pub phase : ℕ → Phase

abbrev pub update : (ℕ → Phase) → ℕ → Phase → ℕ → Phase
update f i x j = if i == j then x else f j

abbrev pub moved : System → ℕ → Phase → System
moved s i x = record s { phase = update s.phase i x }

abbrev after_read : Result Error (List Block) → Phase
after_read (ok bs) = ready (last bs)
after_read (err e) = leaving (err e)

-- One step of one process, each with its own call.
pub data Step (p : Platform) (call : ℕ → Call) (s : System) : System → Type 0 where
  open_lock :
      (i n : ℕ)
      → s.phase i ≡ trying n
      → n < max_attempts
      → s.lock ≡ none
      → Step p call s (record (moved s i locked) { lock = some i })
  wait :
      (i n j : ℕ)
      → s.phase i ≡ trying n
      → n < max_attempts
      → s.lock ≡ some j
      → Step p call s (moved s i (trying (suc n)))
  give_up :
      (i n : ℕ)
      → s.phase i ≡ trying n
      → max_attempts ≤ n
      → Step p call s (moved s i (left (err lock_timeout)))
  read :
      (i : ℕ)
      → s.phase i ≡ locked
      → Step p call s (record (moved s i (after_read (read_chain p (prune s.directory)))) {
        directory = prune s.directory;
      })
  write :
      (i : ℕ) (before : Option Block) (disk : Disk)
      → s.phase i ≡ ready before
      → Step p call s
          (record (moved s i (
            leaving
              (write_block p
                (call i)
                disk
                (next_block p (call i) before)
                (next_index before)
                s.directory).0)) {
                  directory =
                      (write_block p
                        (call i)
                        disk
                        (next_block p (call i) before)
                        (next_index before)
                        s.directory).1;
                })
  unlock :
      (i : ℕ) (r : Result Error Block)
      → s.phase i ≡ leaving r
      → Step p call s (record (moved s i (left r)) { lock = none })
  crash : (i : ℕ) → Step p call s (moved s i crashed)

pub data Reach (p : Platform) (call : ℕ → Call) (s : System) : System → Type 0 where
  here : Reach p call s s
  next : {t u : System} → Reach p call s t → Step p call t u → Reach p call s u
