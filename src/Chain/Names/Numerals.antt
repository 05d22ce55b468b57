-- ===== src/Chain/Names/Numerals.antt =====
-- The name of a block file gives back its index (infra/storage/chain-adapter.ts).
use memphis_v.Base.{
  ℕ, zero, suc, ◌+◌, ◌-◌, ◌*◌, ◌/◌, ◌%◌, ◌≤◌, ◌<◌, ◌≡◌, refl, sym, Text, some, [], ◌∷◌, ◌++◌,
  length, reverse, ==_iff, codes, arith, ltb, leb, true, false, ◌==◌, ltb→lt, ltb-false, Bool-cases,
  inl, inr, ap, ◌∙◌,
}
use mathlib.Core.List.{append-nil, reverse-append}
use memphis_v.Base.Lists.{append_assoc, length-append}
use memphis_v.Base.Int.{pos}
use memphis_v.Chain.Block.{zeros}
use memphis_v.Chain.Names.{
  starts_with, without_json, is_digit, parse_int, parse_digits, decimal, to_string, pad_start,
  block_file, file_index, ends_with,
}
use memphis_v.Approval.Identity.{is_space, trim_start}

step_digit :
    (m d : ℕ) (rest : Text)
    → d < 10
    → parse_digits m ((b'0' + d) ∷ rest) ≡ parse_digits (10 * m + d) rest
unfolding parse_digits
step_digit m d rest h =
    let e : 10 * m + (b'0' + d - b'0') ≡ 10 * m + d = omega arith in
    let low : leb b'0' (b'0' + d) ≡ true = ground arith in
    let high : leb (b'0' + d) b'9' ≡ true = ground arith in rw (low, high, e) refl

parse_digits-decimal :
    (fuel n : ℕ) (rest : Text)
    → n < fuel
    → parse_digits 0 (decimal fuel n ++ rest) ≡ parse_digits n rest
unfolding decimal
parse_digits-decimal zero n rest h = absurd (omega arith)
parse_digits-decimal (suc fuel) n rest h = elim (Bool-cases (ltb n 10)) [
  | inl e ↦ rw e (step_digit 0 n rest (ltb→lt n 10 e) ∙ ap (λ k. parse_digits k rest) (omega arith))
  | inr e ↦
      rw (e, append_assoc (decimal fuel (n / 10)) ((b'0' + n % 10) ∷ []) rest)
        (parse_digits-decimal fuel (n / 10) ((b'0' + n % 10) ∷ rest)
            (omega (arith, ltb-false n 10 e))
          ∙ (step_digit (n / 10) (n % 10) rest (omega arith)
              ∙ ap (λ k. parse_digits k rest) (omega arith)))
]

parse_digits-zeros : (k : ℕ) (s : Text) → parse_digits 0 (zeros k ++ s) ≡ parse_digits 0 s
parse_digits-zeros zero s = refl
parse_digits-zeros (suc k) s = step_digit 0 0 (zeros k ++ s) (omega arith) ∙ parse_digits-zeros k s

-- Only digits.
abbrev Digits : Text → Type 0
Digits [] = Unit {0}
Digits (c ∷ s) = (b'0' ≤ c) × (c ≤ b'9') × Digits s

Digits-append : (s t : Text) → Digits s → Digits t → Digits (s ++ t)
Digits-append [] t h k = k
Digits-append (c ∷ s) t h k = (h.0, h.1, Digits-append s t h.2 k)

Digits-zeros : (k : ℕ) → Digits (zeros k)
Digits-zeros zero = tt
Digits-zeros (suc k) = (omega arith, omega arith, Digits-zeros k)

Digits-decimal : (fuel n : ℕ) → Digits (decimal fuel n)
unfolding decimal
Digits-decimal zero n = tt
Digits-decimal (suc fuel) n = elim (Bool-cases (ltb n 10)) [
  | inl e ↦ rw e (omega arith, omega (arith, ltb→lt n 10 e), tt)
  | inr e ↦ rw e (
      Digits-append (decimal fuel (n / 10)) ((b'0' + n % 10) ∷ []) (Digits-decimal fuel (n / 10))
        (omega arith, omega arith, tt))
]

without_json-Digits : (s : Text) → Digits s → without_json (s ++ codes ".json") ≡ s
unfolding without_json starts_with
without_json-Digits [] h = refl
without_json-Digits (c ∷ s) h =
    let e : (b'.' == c) ≡ false = ground (arith, h.0) in rw (e, without_json-Digits s h.2) refl

parse_int-Digits :
    (s : Text) → Digits s → (0 < length s) → parse_int s ≡ some (pos (parse_digits 0 s))
unfolding parse_int trim_start is_space
parse_int-Digits [] h k = absurd (omega arith)
parse_int-Digits (c ∷ s) h k =
    let space : is_space c ≡ false = ground (arith, h.0, h.1) in
    let digit : is_digit c ≡ true = ground (arith, h.0, h.1) in
    let m : (c == b'-') ≡ false = ground (arith, h.0) in
    let q : (c == b'+') ≡ false = ground (arith, h.0) in rw (space, m, q, digit) refl

length-decimal : (fuel n : ℕ) → 0 < fuel → 0 < length (decimal fuel n)
unfolding decimal
length-decimal zero n h = absurd (omega arith)
length-decimal (suc fuel) n h = elim (Bool-cases (ltb n 10)) [
  | inl e ↦ rw e (omega arith)
  | inr e ↦ rw e (omega (arith, length-append (decimal fuel (n / 10)) ((b'0' + n % 10) ∷ [])))
]

-- The name of the file of block `n` parses back to `n`, and is one that a reader of the directory
-- looks at.
pub file_index-block_file : (n : ℕ) → file_index (block_file n) ≡ some (pos n)
unfolding file_index parse_digits
file_index-block_file n =
    let digits =
      Digits-append _ _ (Digits-zeros (6 - length (to_string n))) (Digits-decimal (suc n) n) in
    let long : 0 < length (pad_start (to_string n)) = omega (
      arith,
      length-append (zeros (6 - length (to_string n))) (to_string n),
      length-decimal (suc n) n (omega arith),
    ) in
    rw (without_json-Digits (pad_start (to_string n)) digits) (
      parse_int-Digits _ digits long
      ∙ ap (λ k. some (pos k))
          (parse_digits-zeros (6 - length (to_string n)) (to_string n)
            ∙ (ap (parse_digits 0) (sym (append-nil (to_string n)))
                ∙ parse_digits-decimal (suc n) n [] (omega arith))))

starts_with-append : (t s : Text) → starts_with t (t ++ s) ≡ true
unfolding starts_with
starts_with-append [] s = refl
starts_with-append (c ∷ t) s = rw ((==_iff c c).1 refl, starts_with-append t s) refl

pub block_file-ends : (n : ℕ) → ends_with (codes ".json") (block_file n) ≡ true
unfolding ends_with
block_file-ends n =
    rw (reverse-append (pad_start (to_string n)) (codes ".json"))
      (starts_with-append (codes "nosj.") (reverse (pad_start (to_string n))))

-- the last digit
decimal_last :
    (n : ℕ) → (front : Text) × (d : ℕ) × (d < 10) × (to_string n ≡ front ++ (b'0' + d) ∷ [])
unfolding decimal
decimal_last n = elim (Bool-cases (ltb n 10)) [
  | inl e ↦ ([], n, ltb→lt n 10 e, rw e refl)
  | inr e ↦ (decimal n (n / 10), n % 10, omega arith, rw e refl)
]

-- A name that ends in a number is no name of a block.
pub ends_in_number : (s : Text) (n : ℕ) → ends_with (codes ".json") (s ++ to_string n) ≡ false
unfolding ends_with starts_with
ends_in_number s n =
    let (front, d, small, e) = decimal_last n in
    let other : (b'n' == (b'0' + d)) ≡ false = ground (arith, small) in
    rw
      (
        e,
        sym (append_assoc s front ((b'0' + d) ∷ [])),
        reverse-append (s ++ front) ((b'0' + d) ∷ []),
        other,
      )
      refl
