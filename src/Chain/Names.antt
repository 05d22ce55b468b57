-- ===== src/Chain/Names.antt =====
-- The names of chains and of their block files (infra/storage/chain-adapter.ts).
pub mod Numerals
pub mod Safety
use memphis_v.Base.{
  ℕ, zero, suc, ◌+◌, ◌-◌, ◌*◌, ◌/◌, ◌%◌, Text, Bool, true, false, not, ◌&&◌, ◌||◌, Option, none,
  some, List, [], ◌∷◌, ◌++◌, reverse, length, drop, ltb, leb, ◌==◌, codes, if◌then◌else◌, Result,
  ok, err,
}
use memphis_v.Base.Int.{ℤ, pos, negsuc}
use memphis_v.Base.Texts.{text_eq}
use memphis_v.Approval.Identity.{trim, trim_start}
use memphis_v.Chain.Block.{Error, zeros, invalid_chain_name}

-- `s.startsWith(t)`
unfoldable pub starts_with : Text → Text → Bool
starts_with [] s = true
starts_with (c ∷ t) [] = false
starts_with (c ∷ t) (d ∷ s) = (c == d) && starts_with t s

-- `s.endsWith(t)`
unfoldable pub ends_with : Text → Text → Bool
unfolding starts_with
ends_with t s = starts_with (reverse t) (reverse s)

-- `s.includes(t)`
unfoldable pub includes : Text → Text → Bool
includes t [] = starts_with t []
includes t (c ∷ s) = starts_with t (c ∷ s) || includes t s

-- `s.replace('.json', '')`: the first occurrence
unfoldable pub without_json : Text → Text
without_json [] = []
without_json (c ∷ s) =
    let rest = without_json s in
    if starts_with (codes ".json") (c ∷ s) then drop 5 (c ∷ s) else c ∷ rest

abbrev pub is_digit : ℕ → Bool
is_digit c = leb b'0' c && leb c b'9'

-- the digits at the start of a text, after those that make up `n`
unfoldable pub parse_digits : ℕ → Text → ℕ
parse_digits n [] = n
parse_digits n (c ∷ s) =
    let rest = parse_digits (10 * n + (c - b'0')) s in if is_digit c then rest else n

abbrev digits_value : Text → Option ℕ
digits_value [] = none
digits_value (c ∷ s) = if is_digit c then some (parse_digits 0 (c ∷ s)) else none

abbrev minus : ℕ → ℤ
minus zero = pos 0
minus (suc n) = negsuc n

abbrev negated : Option ℕ → Option ℤ
negated none = none
negated (some n) = some (minus n)

abbrev unsigned : Option ℕ → Option ℤ
unsigned none = none
unsigned (some n) = some (pos n)

abbrev signed : Text → Option ℤ
signed [] = none
signed (c ∷ s) =
    if c == b'-'
    then negated (digits_value s)
    else if c == b'+'
    then unsigned (digits_value s)
    else unsigned (digits_value (c ∷ s))

-- `Number.parseInt(s, 10)`, `none` for NaN
unfoldable pub parse_int : Text → Option ℤ
parse_int s = signed (trim_start s)

-- the index that the name of a block file stands for
unfoldable pub file_index : Text → Option ℤ
file_index file = parse_int (without_json file)

-- `String(n)`
unfoldable pub decimal : ℕ → ℕ → Text
decimal zero n = []
decimal (suc fuel) n =
    let front = decimal fuel (n / 10) in
    if ltb n 10 then (b'0' + n) ∷ [] else front ++ (b'0' + n % 10) ∷ []

abbrev pub to_string : ℕ → Text
to_string n = decimal (suc n) n

-- `s.padStart(6, '0')`
abbrev pub pad_start : Text → Text
pad_start s = zeros (6 - length s) ++ s

abbrev pub block_file : ℕ → Text
block_file n = pad_start (to_string n) ++ codes ".json"

-- What `resolveChainDir` is given: `path.resolve` and `path.sep`, the configured directory of the
-- chains, and whether `lstatSync` finds a symbolic link at a path.
pub record Paths : Type 0 where
  pub resolve : Text → Text → Text
  pub sep : Text
  pub chains_root : Text
  pub is_symbolic_link : Text → Bool

abbrev pub is_safe_char : ℕ → Bool
is_safe_char c =
    (leb b'A' c && leb c b'Z') || (leb b'a' c && leb c b'z') || is_digit c || c == b'_' || c == b'-'

unfoldable pub all_safe : Text → Bool
all_safe [] = true
all_safe (c ∷ s) = is_safe_char c && all_safe s

-- `SAFE_CHAIN_NAME`
unfoldable pub safe_chain_name : Text → Bool
safe_chain_name s = leb 1 (length s) && leb (length s) 64 && all_safe s

-- The `throw` for a symbolic link stands inside the `try` whose `catch` ignores every error.
abbrev pub checked_link : Bool → Text → Result Error Text
checked_link true target = ok target
checked_link false target = ok target

unfoldable pub resolve_chain_dir : Paths → Text → Result Error Text
resolve_chain_dir d name =
    let normalized = trim name in
    let target = d.resolve d.chains_root normalized in
    if length normalized == 0
    then err invalid_chain_name
    else if includes (0 ∷ []) name
    then err invalid_chain_name
    else if includes (codes "..") normalized
        || includes (codes "/") normalized
        || includes (codes "\\") normalized
    then err invalid_chain_name
    else if not (safe_chain_name normalized)
    then err invalid_chain_name
    else if not (text_eq target d.chains_root) && not (starts_with (d.chains_root ++ d.sep) target)
    then err invalid_chain_name
    else checked_link (d.is_symbolic_link target) target
