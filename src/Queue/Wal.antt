-- ===== src/Queue/Wal.antt =====
-- The record format and the file of `TaskQueueWal` (infra/storage/task-queue-wal.ts).
pub mod Format
pub mod Fuel
pub mod Append
use memphis_v.Base.{
  ℕ, zero, suc, ◌+◌, ◌*◌, ◌/◌, ◌%◌, ◌^◌, Bool, true, false, not, Option, none, some, List, [], ◌∷◌,
  ◌++◌, length, take, drop, ltb, leb, ◌==◌, if◌then◌else◌, Result, ok, err, Exec,
}
use memphis_v.Queue.Crc.{crc32c}

abbrev pub Bytes : Type 0
Bytes = List ℕ

-- `writeUInt32BE`
unfoldable pub write_be32 : ℕ → Bytes
write_be32 n = (n / 2 ^ 24 % 256) ∷ (n / 2 ^ 16 % 256) ∷ (n / 2 ^ 8 % 256) ∷ (n % 256) ∷ []

-- `readUInt32BE` at the start of the bytes that are left
unfoldable pub read_be32 : Bytes → ℕ
read_be32 (a ∷ b ∷ c ∷ d ∷ rest) = a * 2 ^ 24 + b * 2 ^ 16 + c * 2 ^ 8 + d
read_be32 _ = 0

unfoldable pub encode_record : Bytes → Bytes
encode_record payload = write_be32 (length payload) ++ (payload ++ write_be32 (crc32c payload))

pub record WalRecord : Type 0 where
  pub payload : Bytes
  pub offset : ℕ
  pub size : ℕ

-- The loop of `parseRecords`, on the bytes from `offset` on, with a bound for its rounds.
unfoldable pub parse_from : ℕ → ℕ → Bytes → List WalRecord × ℕ
parse_from zero offset rest = ([], offset)
parse_from (suc fuel) offset rest =
    let n = read_be32 rest in
    let payload = take n (drop 4 rest) in
    let more = parse_from fuel (offset + (n + 8)) (drop (n + 8) rest) in
    if ltb (length rest) 8
    then ([], offset)
    else if ltb (length rest) (n + 8)
    then ([], offset)
    else if read_be32 (drop n (drop 4 rest)) == crc32c payload
    then (record { payload = payload; offset = offset; size = n + 8 } ∷ more.0, more.1)
    else ([], offset)

-- Each round takes 8 bytes at least.
unfoldable pub parse_records : Bytes → List WalRecord × ℕ
parse_records buffer = parse_from (suc (length buffer)) 0 buffer

pub data WalError : Type 0 where
  lock_timeout rename_fault : WalError

-- The active file, the archives that rotations left, the limit, and whether the fault injection is set.
pub record Wal : Type 0 where
  pub active : Bytes
  pub archives : List Bytes
  pub max_wal_bytes : ℕ
  pub fault_inject : Bool

abbrev pub empty_wal : ℕ → Bool → Wal
empty_wal max_bytes fault = record {
  active = [];
  archives = [];
  max_wal_bytes = max_bytes;
  fault_inject = fault;
}

abbrev pub M : Type 0 → Type 0
M A = Exec Wal WalError A

unfoldable pub rotate_if_needed : ℕ → M (Unit {0})
rotate_if_needed next_bytes w =
    if leb (length w.active + next_bytes) w.max_wal_bytes
    then (ok tt, w)
    else if w.fault_inject
    then (err rename_fault, w)
    else (ok tt, record w { active = []; archives = w.archives ++ w.active ∷ [] })

unfoldable appended :
    Bytes → Bytes → Result WalError (Unit {0}) × Wal → Result WalError WalRecord × Wal
appended payload encoded (err e, w) = (err e, w)
appended payload encoded (ok _, w) = (
  ok (record { payload = payload; offset = length w.active; size = length encoded }),
  record w { active = w.active ++ encoded },
)

-- `enqueue`; `free` says whether the lock file was got before the timeout
unfoldable pub enqueue : Bool → Bytes → M WalRecord
unfolding appended
enqueue false payload w = (err lock_timeout, w)
enqueue true payload w =
    appended payload (encode_record payload) (rotate_if_needed (length (encode_record payload)) w)

-- `recoverAndRead`: what stands behind the last whole record is cut off
unfoldable pub recover_and_read : Bool → M (List WalRecord)
recover_and_read false w = (err lock_timeout, w)
recover_and_read true w =
    let parsed = parse_records w.active in
    (
      ok parsed.0,
      if ltb parsed.1 (length w.active) then record w { active = take parsed.1 w.active } else w,
    )
