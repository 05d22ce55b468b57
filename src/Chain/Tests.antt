-- ===== src/Chain/Tests.antt =====
-- A concrete platform, small chains, and the theorems about them.
mod Codec
use memphis_v.Base.{
  ℕ, zero, suc, ◌+◌, ◌<◌, ◌≡◌, ◌≢◌, ◌↔◌, ◌||◌, refl, sym, Bool, true, false, ◌==◌, ltb, Text, codes,
  Option, none, some, List, [], ◌∷◌, ◌++◌, map, length, arith, inl, inr, Result, ok, err,
}
use memphis_v.Base.Texts.{text_eq}
use memphis_v.Approval.Identity.{trim, trim_start, is_space}
use memphis_v.Chain.Json.{Platform, Json, natural, string, Members, no_members, member}
use memphis_v.Chain.Block.{Block, Error, write_failed, hash_block, legacy_hash, validate_from}
use memphis_v.Chain.Linked.{LinkedFrom, validate_accepts}
use memphis_v.Chain.Names.{
  Paths, includes, safe_chain_name, all_safe, starts_with, resolve_chain_dir, block_file,
}
use memphis_v.Chain.Names.Safety.{resolved_inside, symbolic_link_passes}
use memphis_v.Chain.Directory.{
  Directory, indexed, sort_entries, last, prune, prune_from, read_chain,
}
use memphis_v.Chain.Directory.Prune.{prune-read}
use memphis_v.Chain.Append.{
  Call, Disk, works, write_fails, rename_fails, last_hash, next_block, write_block, append_block,
  put_file,
}
use memphis_v.Chain.Append.Listing.{Below}
use memphis_v.Chain.Append.Extends.{append_extends, failed_append_keeps}
use memphis_v.Chain.Append.Recovery.{
  Holds, append_all, working, new_blocks, append-Holds, append_all_reads, prune_recovers,
}
use memphis_v.Chain.Lock.{
  max_attempts, acquire, left, Phase, trying, locked, ready, crashed, is_critical, System, moved,
  open_lock, wait, crash, Step, Reach, here, next,
}
use memphis_v.Base.{◌≤◌, ◌⊎◌}
use memphis_v.Chain.Block.{lock_timeout}
use memphis_v.Chain.Lock.Abandoned.{turns, CanTry, crash_blocks_chain}
use memphis_v.Chain.Lock.Exclusion.{start, lock_is_exclusive}
use memphis_v.Chain.Lock.Attempts.{acquire_iff}
use memphis_v.Chain.Tamper.{AllAlike, head_fixes_history, legacy_rewritten, rewritten}
use memphis_v.Chain.Verify.{
  Files, Report, AllRead, selected_chains, verify_chain_integrity, verify_from, chain_blocks,
  verify_counts,
}
use memphis_v.Chain.Tests.Codec.{platform, platform-IsJson, platform-NoCollision}

abbrev call : Text → Text → Call
call time key = record {
  chain = codes "journal";
  payload = member key (string (codes "hello")) no_members;
  timestamp = time;
  pid = 4242;
  now_ms = 1700000000000;
}

-- the second of three calls fails at its rename
abbrev calls : List (Call × Disk)
calls =
    (call (codes "t1") (codes "note"), works)
    ∷ (call (codes "t2") (codes "lost"), rename_fails false)
    ∷ (call (codes "t3") (codes "tag"), works)
    ∷ []

empty_Holds : Holds platform [] []
unfolding read_chain indexed sort_entries validate_from
empty_Holds = record { reads = refl; low = tt }

append_all_reads_example :
    Holds platform (append_all platform calls []) (new_blocks platform (working calls) [])
    × (map (λ b. b.payload) (new_blocks platform (working calls) [])
        ≡ map (λ c. c.payload) (working calls))
    × LinkedFrom platform none (new_blocks platform (working calls) [])
append_all_reads_example =
    append_all_reads platform calls [] [] empty_Holds (platform-IsJson _, (platform-IsJson _, tt))

abbrev first_block : Block
first_block = next_block platform (call (codes "t1") (codes "note")) none

abbrev one_block : Directory
one_block = (append_block platform (call (codes "t1") (codes "note")) works []).1

one_Holds : Holds platform one_block (first_block ∷ [])
one_Holds = append-Holds platform _ [] [] empty_Holds (platform-IsJson _)

one_read : read_chain platform (prune one_block) ≡ ok (first_block ∷ [])
one_read = rw (prune-read platform one_block _ (Holds.reads one_Holds)) (Holds.reads one_Holds)

abbrev second_call : Call
second_call = call (codes "t2") (codes "tag")

abbrev second_block : Block
second_block = next_block platform second_call (some first_block)

append_extends_example :
    ((append_block platform second_call works one_block).0 ≡ ok second_block)
    × (read_chain platform (append_block platform second_call works one_block).1
        ≡ ok (first_block ∷ second_block ∷ []))
    × (second_block.index ≡ natural 2)
    × (second_block.prev_hash ≡ first_block.hash)
    × Below 2 (indexed (append_block platform second_call works one_block).1)
append_extends_example =
    append_extends platform second_call one_block (first_block ∷ []) one_read
      (rw (prune-read platform one_block _ (Holds.reads one_Holds)) (Holds.low one_Holds))
      (platform-IsJson _)

failed_on_one :
    (append_block platform second_call (write_fails (some (codes "{"))) one_block).0
    ≡ err write_failed
unfolding append_block write_block
failed_on_one = rw one_read refl

failed_append_keeps_example :
    ((bs : List Block)
      → read_chain platform one_block ≡ ok bs
      → read_chain platform
          (append_block platform second_call (write_fails (some (codes "{"))) one_block).1
        ≡ ok bs)
    × (read_chain platform
          (append_block platform second_call (write_fails (some (codes "{"))) one_block).1
        ≡ read_chain platform (prune one_block))
failed_append_keeps_example =
    failed_append_keeps platform second_call (write_fails (some (codes "{"))) one_block write_failed
      failed_on_one

prune_recovers_example :
    (¬ ((cs : List Block) × (read_chain platform (put_file (block_file 2) [] one_block) ≡ ok cs)))
    × (read_chain platform (prune (put_file (block_file 2) [] one_block)) ≡ ok (first_block ∷ []))
prune_recovers_example = prune_recovers platform one_block (first_block ∷ []) one_Holds

abbrev named_blocks : List (Text × Block)
named_blocks = (codes "000001.json", first_block) ∷ (codes "000002.json", second_block) ∷ []

validate_accepts_example :
    (validate_from platform none named_blocks ≡ ok (first_block ∷ second_block ∷ [])) ↔ (
      (map (λ e. e.1) named_blocks ≡ first_block ∷ second_block ∷ [])
      × LinkedFrom platform none (first_block ∷ second_block ∷ []))
validate_accepts_example = validate_accepts platform named_blocks (first_block ∷ second_block ∷ [])

two_Linked : LinkedFrom platform none (first_block ∷ second_block ∷ [])
unfolding next_block hash_block
two_Linked = (inl refl, (refl, inr refl), (inl refl, (1, refl, refl, refl), tt))

head_fixes_history_example :
    AllAlike platform (first_block ∷ second_block ∷ []) (first_block ∷ second_block ∷ [])
unfolding next_block hash_block
head_fixes_history_example =
    head_fixes_history platform first_block first_block (second_block ∷ []) (second_block ∷ [])
      platform-NoCollision two_Linked two_Linked (refl, (refl, tt)) (refl, (refl, tt)) refl

-- a block with the older hash of its data
abbrev old_block : Block
old_block = record first_block { hash = legacy_hash platform first_block }

old_Linked : LinkedFrom platform none (old_block ∷ [])
unfolding next_block legacy_hash
old_Linked = ((inr refl), (refl, inr refl), tt)

legacy_rewritten_example :
    LinkedFrom platform none (rewritten (codes "t9") (codes "ledger") old_block ∷ [])
unfolding next_block legacy_hash
legacy_rewritten_example =
    legacy_rewritten platform none [] old_block [] (codes "t9") (codes "ledger") refl old_Linked

-- process 1 has the lock and process 2 waits
abbrev contended : System
contended = moved (record (moved (start one_block) 1 locked) { lock = some 1 }) 2 (trying 1)

abbrev everyone : ℕ → Call
everyone i = second_call

holder_and_waiter : Reach platform everyone (start one_block) contended
holder_and_waiter =
    next (next here (open_lock 1 0 refl (omega arith) refl)) (wait 2 0 1 refl (omega arith) refl)

lock_is_exclusive_example :
    ((i j : ℕ)
      → is_critical (contended.phase i) ≡ true
      → is_critical (contended.phase j) ≡ true
      → i ≡ j)
    × ((i : ℕ) (before : Option Block)
        → contended.phase i ≡ ready before
        → (bs : List Block) × (read_chain platform one_block ≡ ok bs) × (last bs ≡ before))
lock_is_exclusive_example = lock_is_exclusive holder_and_waiter

abbrev abandoned : System
abandoned = moved (record (moved (start one_block) 1 locked) { lock = some 1 }) 1 crashed

abbrev waited : System
waited = moved abandoned 2 (trying 1)

abandoned_reached : Reach platform everyone (start one_block) abandoned
abandoned_reached = next (next here (open_lock 1 0 refl (omega arith) refl)) (crash 1)

abbrev one_wait : Reach platform everyone abandoned waited
one_wait = next here (wait 2 0 1 refl (omega arith) refl)

crash_blocks_chain_example :
    ((k : ℕ) → is_critical (waited.phase k) ≡ false)
    × (((waited.phase 2 ≡ trying (0 + turns 2 one_wait))
          × (turns 2 one_wait ≤ max_attempts)
          × CanTry platform everyone waited 2 (0 + turns 2 one_wait))
        ⊎ ((waited.phase 2 ≡ left (err lock_timeout)) ⊎ (waited.phase 2 ≡ crashed)))
crash_blocks_chain_example = crash_blocks_chain 1 2 0 abandoned_reached (refl, refl) one_wait refl

abbrev freed_at_three : ℕ → Bool
freed_at_three k = ltb k 3

acquire_iff_example : (acquire freed_at_three ≡ some 3) ↔ (
    (3 < max_attempts) × (freed_at_three 3 ≡ false) × ((k : ℕ) → k < 3 → freed_at_three k ≡ true))
acquire_iff_example = acquire_iff freed_at_three 3

abbrev paths : Paths
paths = record {
  resolve = λ a b. a ++ (codes "/" ++ b);
  sep = codes "/";
  chains_root = codes "/c";
  is_symbolic_link = λ t. true;
}

resolved_inside_example : (resolve_chain_dir paths (codes " log ") ≡ ok (codes "/c/log")) ↔ (
    (codes "/c/log" ≡ paths.resolve paths.chains_root (trim (codes " log ")))
    × (safe_chain_name (trim (codes " log ")) ≡ true)
    × (includes (0 ∷ []) (codes " log ") ≡ false)
    × ((text_eq (codes "/c/log") paths.chains_root
          || starts_with (paths.chains_root ++ paths.sep) (codes "/c/log"))
        ≡ true))
resolved_inside_example = resolved_inside paths (codes " log ") (codes "/c/log")

log_resolved : resolve_chain_dir paths (codes " log ") ≡ ok (codes "/c/log")
unfolding resolve_chain_dir includes starts_with safe_chain_name all_safe text_eq trim trim_start
    is_space
log_resolved = refl

symbolic_link_passes_example :
    resolve_chain_dir paths (codes "log")
    ≡ resolve_chain_dir (record paths { is_symbolic_link = λ path. false }) (codes "log")
symbolic_link_passes_example = symbolic_link_passes paths (codes "log")

abbrev files : Files
files path = some one_block

abbrev report : Report
report = record { chains_checked = 1; block_count = 1; chain = some (codes " log ") }

log_verified : verify_chain_integrity platform paths files (some (codes " log ")) [] ≡ ok report
unfolding verify_chain_integrity verify_from chain_blocks
log_verified = rw (log_resolved, Holds.reads one_Holds) refl

verify_counts_example :
    AllRead platform paths files (codes " log " ∷ []) 1 × (report.chains_checked ≡ 1)
verify_counts_example =
    verify_counts platform paths files (some (codes " log ")) [] report log_verified
