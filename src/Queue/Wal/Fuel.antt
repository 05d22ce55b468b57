-- ===== src/Queue/Wal/Fuel.antt =====
-- The fuel of `parseRecords` (infra/storage/task-queue-wal.ts).
use memphis_v.Base.{
  ℕ, zero, suc, ◌+◌, ◌<◌, ◌≡◌, length, drop, ltb, ltb-false, Bool-cases, inl, inr, arith,
}
use memphis_v.Base.Lists.{length-drop}
use memphis_v.Queue.Wal.{Bytes, read_be32, parse_from}

-- On any bytes, damaged or not, the loop of `parseRecords` ends within a round for each byte: more
-- fuel than there are bytes makes no difference to the records that are read and to the number of
-- valid bytes.
pub parse_fuel :
    (fuel more offset : ℕ) (rest : Bytes)
    → length rest < fuel
    → length rest < more
    → parse_from fuel offset rest ≡ parse_from more offset rest
unfolding parse_from
parse_fuel zero more offset rest h k = absurd (omega (arith, h))
parse_fuel (suc fuel) zero offset rest h k = absurd (omega (arith, k))
parse_fuel (suc fuel) (suc more) offset rest h k =
    let n = read_be32 rest in
    elim (Bool-cases (ltb (length rest) 8)) [
      | inl short ↦ ground (arith, short)
      | inr long ↦ ground (
        arith,
        long,
        parse_fuel fuel more (offset + (n + 8)) (drop (n + 8) rest)
            (omega (arith, h, length-drop (n + 8) rest, ltb-false (length rest) 8 long))
            (omega (arith, k, length-drop (n + 8) rest, ltb-false (length rest) 8 long)),
      )
    ]
