-- ===== src/Queue/Wal/Append.antt =====
-- `TaskQueueWal.enqueue` followed by `recoverAndRead` (infra/storage/task-queue-wal.ts).
use memphis_v.Base.{
  ◌+◌, ◌^◌, ◌<◌, ◌≡◌, ◌≢◌, sym, ap, refl, ◌∙◌, Bool, true, false, List, [], ◌∷◌, ◌++◌, length, leb,
  if◌then◌else◌, Bool-cases, arith, inl, inr, ◌⊎◌, ok, err,
}
use memphis_v.Base.Lists.{length-append, append_assoc}
use memphis_v.Queue.Wal.{
  Bytes, encode_record, WalRecord, Wal, WalError, rotate_if_needed, appended, enqueue,
  recover_and_read,
}
use memphis_v.Queue.Wal.Format.{
  encode_all, records_from, Sized, append_nil, recover_after_crash, length-encode_record,
}

pub encode_all-append :
    (ps : List Bytes) (p : Bytes) → encode_all (ps ++ p ∷ []) ≡ encode_all ps ++ encode_record p
unfolding encode_all
encode_all-append [] p = append_nil (encode_record p)
encode_all-append (q ∷ ps) p =
    ap (λ l. encode_record q ++ l) (encode_all-append ps p)
    ∙ sym (append_assoc (encode_record q) (encode_all ps) (encode_record p))

pub Sized-append :
    (ps : List Bytes) (p : Bytes) → Sized ps → length p < 2 ^ 32 → Sized (ps ++ p ∷ [])
unfolding Sized
Sized-append [] p sized small = (small, tt)
Sized-append (q ∷ ps) p sized small = (sized.0, Sized-append ps p sized.1 small)

-- The records of the active file once `p` was appended after `ps`.
unfoldable pub kept : Wal → List Bytes → Bytes → List Bytes
kept w ps p =
    if leb (length w.active + (length p + 8)) w.max_wal_bytes then ps ++ p ∷ [] else p ∷ []

after_enqueue :
    (ps : List Bytes) (p : Bytes) (w : Wal)
    → w.active ≡ encode_all ps
    → w.fault_inject ≡ false
    → (enqueue true p w).1.active ≡ encode_all (kept w ps p)
unfolding enqueue appended rotate_if_needed kept encode_all
after_enqueue ps p w here quiet =
    ground (arith, length-encode_record p, encode_all-append ps p, append_nil (encode_record p))

pub recover_whole :
    (ps : List Bytes) (w : Wal)
    → Sized ps
    → w.active ≡ encode_all ps
    → (recover_and_read true w).0 ≡ ok (records_from 0 ps)
recover_whole ps w sized here =
    ap (λ r. r.0)
      (recover_after_crash ps [] 0 w sized (omega arith) (omega arith)
        (here ∙ sym (append_nil (encode_all ps))))

Sized-kept :
    (ps : List Bytes) (p : Bytes) (w : Wal) → Sized ps → length p < 2 ^ 32 → Sized (kept w ps p)
unfolding kept Sized
Sized-kept ps p w sized small =
    elim (Bool-cases (leb (length w.active + (length p + 8)) w.max_wal_bytes)) [
      | inl fits ↦ rw fits (Sized-append ps p sized small)
      | inr full ↦ rw full (Sized-append [] p tt small)
    ]

-- After a locked `enqueue` of payload `p` on a file of whole records `ps`, all payloads below 2^32
-- bytes, with no fault injected, `recoverAndRead` returns `ps` and then `p` when the file stays
-- within `maxWalBytes`; otherwise the file was rotated and it returns `p` only.
pub enqueue_then_recover :
    (ps : List Bytes) (p : Bytes) (w : Wal)
    → Sized ps
    → length p < 2 ^ 32
    → w.active ≡ encode_all ps
    → w.fault_inject ≡ false
    → (recover_and_read true (enqueue true p w).1).0
      ≡ ok (
          records_from 0 (
            if leb (length w.active + (length p + 8)) w.max_wal_bytes
            then ps ++ p ∷ []
            else p ∷ []))
unfolding kept
enqueue_then_recover ps p w sized small here quiet =
    recover_whole (kept w ps p) (enqueue true p w).1 (Sized-kept ps p w sized small)
      (after_enqueue ps p w here quiet)

nonempty : (xs : List Bytes) (y : Bytes) → xs ++ y ∷ [] ≢ []
nonempty xs y h = ground (arith, ap length h, length-append xs (y ∷ []))

-- An `enqueue` that left the active file where it was wrote one whole record at its end, or failed
-- and wrote nothing.
pub enqueue_effect :
    (free : Bool) (p : Bytes) (w : Wal)
    → (enqueue free p w).1.archives ≡ []
    → ((r : WalRecord) × (((enqueue free p w).0 ≡ ok r)
          × ((enqueue free p w).1.active ≡ w.active ++ encode_record p)))
      ⊎ ((e : WalError) × (((enqueue free p w).0 ≡ err e)
            × ((enqueue free p w).1.active ≡ w.active)))
unfolding enqueue appended rotate_if_needed
enqueue_effect false p w still = inr (WalError.lock_timeout, (refl, refl))
enqueue_effect true p w still =
    elim (Bool-cases (leb (length w.active + length (encode_record p)) w.max_wal_bytes)) [
      | inl fits ↦ inl (
        record { payload = p; offset = length w.active; size = length (encode_record p) },
        (ground (arith, fits), ground (arith, fits)),
      )
      | inr full ↦ elim (Bool-cases w.fault_inject) [
        | inl fault ↦
            inr (WalError.rename_fault, (ground (arith, full, fault), ground (arith, full, fault)))
        | inr quiet ↦ absurd (nonempty w.archives w.active (ground (arith, full, quiet, still)))
      ]
    ]

pub archives_stay :
    (free : Bool) (p : Bytes) (w : Wal) → (enqueue free p w).1.archives ≡ [] → w.archives ≡ []
unfolding enqueue appended rotate_if_needed
archives_stay false p w still = still
archives_stay true p w still =
    elim (Bool-cases (leb (length w.active + length (encode_record p)) w.max_wal_bytes)) [
      | inl fits ↦ ground (arith, fits, still)
      | inr full ↦ elim (Bool-cases w.fault_inject) [
        | inl fault ↦ ground (arith, full, fault, still)
        | inr quiet ↦ absurd (nonempty w.archives w.active (ground (arith, full, quiet, still)))
      ]
    ]

-- With the lock and without a fault, an `enqueue` returns, whether it rotated the log or not.
pub enqueue_works :
    (p : Bytes) (w : Wal)
    → w.fault_inject ≡ false
    → (r : WalRecord) × (((enqueue true p w).0 ≡ ok r)
        × ((enqueue true p w).1.fault_inject ≡ false))
unfolding enqueue appended rotate_if_needed
enqueue_works p w quiet =
    elim (Bool-cases (leb (length w.active + length (encode_record p)) w.max_wal_bytes)) [
      | inl fits ↦ rw fits (
        record { payload = p; offset = length w.active; size = length (encode_record p) },
        (refl, quiet),
      )
      | inr full ↦ rw full (
          rw quiet
            (record { payload = p; offset = 0; size = length (encode_record p) }, (refl, refl)))
    ]
