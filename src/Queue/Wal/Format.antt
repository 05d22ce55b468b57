-- ===== src/Queue/Wal/Format.antt =====
-- Records of `TaskQueueWal` (infra/storage/task-queue-wal.ts) written one after another and parsed
-- back.
use memphis_v.Base.{
  ℕ, zero, suc, ◌+◌, ◌^◌, ◌≤◌, ◌<◌, ◌≡◌, sym, ap, refl, ◌∙◌, true, List, [], ◌∷◌, ◌++◌, length,
  take, drop, ltb, ltb-false, if◌then◌else◌, Bool-cases, arith, inl, inr, ok,
}
use memphis_v.Base.Lists.{length-append, take-append, drop-append, length-take, append_assoc}
use memphis_v.Queue.Crc.{crc32c, crc32c-lt}
use memphis_v.Queue.Wal.{
  Bytes, write_be32, read_be32, encode_record, WalRecord, parse_from, parse_records, Wal,
  recover_and_read,
}

pub read-write : (n : ℕ) (rest : Bytes) → n < 2 ^ 32 → read_be32 (write_be32 n ++ rest) ≡ n
unfolding read_be32 write_be32
read-write n rest h = omega arith

pub length-encode_record : (p : Bytes) → length (encode_record p) ≡ length p + 8
unfolding encode_record write_be32
length-encode_record p = omega (arith, length-append p (write_be32 (crc32c p)))

-- What `parse_from` reads at the start of a whole record.
module _ (p rest : Bytes) (small : length p < 2 ^ 32) where
  record_length : read_be32 (encode_record p ++ rest) ≡ length p
  unfolding encode_record write_be32 read_be32
  record_length = omega (arith, small)

  record_body : drop 4 (encode_record p ++ rest) ≡ p ++ (write_be32 (crc32c p) ++ rest)
  unfolding encode_record write_be32
  record_body = append_assoc p (write_be32 (crc32c p)) rest

  record_payload : take (length p) (drop 4 (encode_record p ++ rest)) ≡ p
  record_payload = ap (take (length p)) record_body ∙ take-append p (write_be32 (crc32c p) ++ rest)

  record_crc : read_be32 (drop (length p) (drop 4 (encode_record p ++ rest))) ≡ crc32c p
  record_crc =
      ap (λ l. read_be32 (drop (length p) l)) record_body
      ∙ (ap read_be32 (drop-append p (write_be32 (crc32c p) ++ rest))
          ∙ read-write (crc32c p) rest (crc32c-lt p))

  record_rest : drop (length p + 8) (encode_record p ++ rest) ≡ rest
  record_rest =
      ap (λ n. drop n (encode_record p ++ rest)) (sym (length-encode_record p))
      ∙ drop-append (encode_record p) rest

-- The record that stands at `offset` with payload `p`.
abbrev pub record_at : ℕ → Bytes → WalRecord
record_at offset p = record { payload = p; offset = offset; size = length p + 8 }

pub parse_from-encode :
    (fuel offset : ℕ) (p rest : Bytes)
    → length p < 2 ^ 32
    → parse_from (suc fuel) offset (encode_record p ++ rest) ≡ (
      record_at offset p ∷ (parse_from fuel (offset + (length p + 8)) rest).0,
      (parse_from fuel (offset + (length p + 8)) rest).1,
    )
unfolding parse_from
parse_from-encode fuel offset p rest small = rw (record_length p rest small) (
    rw (record_payload p rest small) (
      rw (record_crc p rest small) (
        rw (record_rest p rest small)
          (ground (arith, length-append (encode_record p) rest, length-encode_record p)))))

pub torn_header :
    (p : Bytes) (k : ℕ)
    → length p < 2 ^ 32
    → 8 ≤ k
    → read_be32 (take k (encode_record p)) ≡ length p
unfolding read_be32 encode_record write_be32
torn_header p (suc (suc (suc (suc k)))) small h = omega (arith, small)
torn_header p (suc (suc (suc zero))) small h = omega arith
torn_header p (suc (suc zero)) small h = omega arith
torn_header p (suc zero) small h = omega arith
torn_header p zero small h = omega arith

-- A record whose last bytes were not written is not read, and ends the reading.
pub parse_from-torn :
    (fuel offset : ℕ) (p : Bytes) (k : ℕ)
    → length p < 2 ^ 32
    → k < length p + 8
    → parse_from (suc fuel) offset (take k (encode_record p)) ≡ ([], offset)
unfolding parse_from
parse_from-torn fuel offset p k small torn = elim (Bool-cases (ltb k 8)) [
  | inl short ↦
      ground (
        arith,
        short,
        length-take k (encode_record p) (omega (arith, torn, length-encode_record p)),
      )
  | inr long ↦ rw (torn_header p k small (omega (arith, ltb-false k 8 long))) (
      ground (arith, length-take k (encode_record p) (omega (arith, torn, length-encode_record p))))
]

-- The file after a run of whole appends.
unfoldable pub encode_all : List Bytes → Bytes
encode_all [] = []
encode_all (p ∷ ps) = encode_record p ++ encode_all ps

unfoldable pub records_from : ℕ → List Bytes → List WalRecord
records_from offset [] = []
records_from offset (p ∷ ps) = record_at offset p ∷ records_from (offset + (length p + 8)) ps

-- The length of each payload fits the four bytes that hold it.
unfoldable pub Sized : List Bytes → Type 0
Sized [] = Unit {0}
Sized (p ∷ ps) = (length p < 2 ^ 32) × Sized ps

parse_from-encode_all :
    (ps : List Bytes) (fuel offset : ℕ) (q : Bytes) (k : ℕ)
    → Sized ps
    → length q < 2 ^ 32
    → k < length q + 8
    → length ps ≤ fuel
    → parse_from (suc fuel) offset (encode_all ps ++ take k (encode_record q))
      ≡ (records_from offset ps, offset + length (encode_all ps))
unfolding encode_all records_from Sized
parse_from-encode_all [] fuel offset q k sized small torn enough =
    rw (parse_from-torn fuel offset q k small torn) (ground arith)
parse_from-encode_all (p ∷ ps) (suc fuel) offset q k sized small torn enough =
    rw (append_assoc (encode_record p) (encode_all ps) (take k (encode_record q))) (
      rw (parse_from-encode (suc fuel) offset p (encode_all ps ++ take k (encode_record q)) sized.0)
        (rw
          (parse_from-encode_all ps fuel (offset + (length p + 8)) q k sized.1 small torn
            (omega (arith, enough)))
          (ground
            (arith, length-append (encode_record p) (encode_all ps), length-encode_record p))))
parse_from-encode_all (p ∷ ps) zero offset q k sized small torn enough = ground (arith, enough)

length-encode_all : (ps : List Bytes) → length ps ≤ length (encode_all ps)
unfolding encode_all
length-encode_all [] = omega arith
length-encode_all (p ∷ ps) = omega (
  arith,
  length-append (encode_record p) (encode_all ps),
  length-encode_record p,
  length-encode_all ps,
)

zero_add : (n : ℕ) → 0 + n ≡ n
zero_add n = omega arith

pub append_nil : (xs : Bytes) → xs ++ [] ≡ xs
append_nil [] = refl
append_nil (x ∷ xs) = ap (λ l. x ∷ l) (append_nil xs)

cut :
    (xs ys : Bytes) (w : Wal)
    → (if ltb (length xs) (length (xs ++ ys))
        then record w { active = take (length xs) (xs ++ ys) }
        else record w { active = xs ++ ys })
      ≡ record w { active = xs }
cut xs [] w = ground (arith, append_nil xs)
cut xs (y ∷ ys) w = ground (arith, length-append xs (y ∷ ys), take-append xs (y ∷ ys))

-- After whole records and any proper beginning of one more, all with payloads below 2^32 bytes, which
-- a crash in the last append can leave, `recoverAndRead` returns
-- exactly the whole records with their offsets, in order, and leaves a file of exactly these records.
pub recover_after_crash :
    (ps : List Bytes) (q : Bytes) (k : ℕ) (w : Wal)
    → Sized ps
    → length q < 2 ^ 32
    → k < length q + 8
    → w.active ≡ encode_all ps ++ take k (encode_record q)
    → recover_and_read true w ≡ (ok (records_from 0 ps), record w { active = encode_all ps })
unfolding recover_and_read parse_records
recover_after_crash ps q k w sized small torn here = rw here (
    rw
      (parse_from-encode_all ps (length (encode_all ps ++ take k (encode_record q))) 0 q k sized
        small torn
        (omega
          (arith, length-encode_all ps, length-append (encode_all ps) (take k (encode_record q)))))
      (rw (zero_add (length (encode_all ps)))
        (ap (λ v. (ok (records_from 0 ps), v)) (cut (encode_all ps) (take k (encode_record q)) w))))
