-- ===== src/Chain/Block.antt =====
-- One block: its shape, its hash, and the links that `readAndValidateChainBlocks` checks
-- (infra/storage/chain-adapter.ts).
use memphis_v.Base.{
  ℕ, zero, suc, ◌+◌, ◌==◌, false, Text, Bool, not, ◌&&◌, ◌||◌, Option, none, some, List, [], ◌∷◌,
  codes, if◌then◌else◌, Result, ok, err,
}
use memphis_v.Base.Texts.{text_eq}
use memphis_v.Base.Fallible.{◌>>=◌}
use memphis_v.Chain.Json.{
  Platform, Number, natural, other, Json, number, string, object, Members, no_members, member,
  field, stable_stringify,
}

pub record Block : Type 0 where
  pub index : Number
  pub timestamp : Text
  pub chain : Text
  pub payload : Members
  pub prev_hash : Text
  pub hash : Text

pub data Error : Type 0 where
  invalid_json invalid_shape hash_mismatch missing_genesis prev_hash_mismatch : Text → Error
  non_sequential unreadable : Text → Error
  invalid_chain_name lock_timeout no_directory write_failed rename_failed : Error

abbrev pub zeros : ℕ → Text
zeros zero = []
zeros (suc n) = b'0' ∷ zeros n

abbrev pub genesis_prev_hash : Text
genesis_prev_hash = zeros 64

abbrev pub unhashed : Block → Members
unhashed b = member (codes "index") (number b.index) (
    member (codes "timestamp") (string b.timestamp) (
      member (codes "chain") (string b.chain) (
        member (codes "data") (object b.payload)
          (member (codes "prev_hash") (string b.prev_hash) no_members))))

unfoldable pub hash_block : Platform → Block → Text
hash_block p b = p.sha256_hex (stable_stringify p (object (unhashed b)))

unfoldable pub legacy_hash : Platform → Block → Text
legacy_hash p b = p.sha256_hex (p.json_print (object b.payload))

-- `n === k`, of a number and a natural number
abbrev pub number_eq : Number → ℕ → Bool
number_eq (natural n) k = n == k
number_eq (other s) k = false

-- `n === m + 1`
abbrev pub follows : Number → Number → Bool
follows n (natural m) = number_eq n (m + 1)
follows n (other s) = false

abbrev pub starts_chain : Block → Bool
starts_chain b = text_eq b.prev_hash [] || text_eq b.prev_hash genesis_prev_hash

-- `validateBlockHash`
unfoldable pub validate_block_hash : Platform → Text → Block → Result Error (Unit {0})
validate_block_hash p file b =
    if not (text_eq b.hash (hash_block p b)) && not (text_eq b.hash (legacy_hash p b))
    then err (hash_mismatch file)
    else if number_eq b.index 1 && not (starts_chain b)
    then err (prev_hash_mismatch file)
    else ok tt

-- the body of the loop over the blocks, with the block before
unfoldable pub check_link : Platform → Option Block → Text → Block → Result Error (Unit {0})
check_link p none file b =
    if not (number_eq b.index 1)
    then err (missing_genesis file)
    else if not (starts_chain b)
    then err (prev_hash_mismatch file)
    else ok tt
check_link p (some a) file b =
    if not (follows b.index a.index)
    then err (non_sequential file)
    else if not (text_eq b.prev_hash a.hash)
    then err (prev_hash_mismatch file)
    else ok tt

-- the loop of `readAndValidateChainBlocks` over the blocks that were loaded, each with its file
unfoldable pub validate_from :
    Platform → Option Block → List (Text × Block) → Result Error (List Block)
validate_from p before [] = ok []
validate_from p before ((file, b) ∷ rest) =
    let tail = validate_from p (some b) rest in
    validate_block_hash p file b >>= λ _.
    check_link p before file b >>= λ _. tail >>= λ bs. ok (b ∷ bs)

-- `toChainBlock`, of the parsed text of a file
abbrev of_fields :
    Option Json → Option Json → Option Json → Option Json → Option Json → Option Json → Option Block
of_fields (some (number i)) (some (string t)) (some (string c)) (some (object d)) (some (string h))
      (some (string s)) =
    some (record { index = i; timestamp = t; chain = c; payload = d; prev_hash = h; hash = s })
of_fields _ _ _ _ _ _ = none

abbrev of_object : Json → Option Block
of_object (object ms) =
    of_fields (field (codes "index") ms) (field (codes "timestamp") ms) (field (codes "chain") ms)
      (field (codes "data") ms) (field (codes "prev_hash") ms) (field (codes "hash") ms)
of_object _ = none

unfoldable pub to_chain_block : Text → Json → Result Error Block
to_chain_block file v = elim (of_object v) [ none ↦ err (invalid_shape file) | some b ↦ ok b ]
