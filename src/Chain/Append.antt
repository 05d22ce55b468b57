-- ===== src/Chain/Append.antt =====
-- `appendBlock` on the TypeScript side, inside the lock (infra/storage/chain-adapter.ts).
pub mod Listing
pub mod Extends
pub mod Recovery
use memphis_v.Base.{
  ℕ, suc, ◌+◌, Text, Bool, true, false, Option, none, some, List, [], ◌∷◌, ◌++◌, if◌then◌else◌,
  Result, ok, err, codes,
}
use memphis_v.Chain.Json.{
  Platform, Number, natural, other, Json, number, string, object, Members, no_members, member,
}
use memphis_v.Chain.Block.{Block, Error, write_failed, rename_failed, genesis_prev_hash, hash_block}
use memphis_v.Chain.Names.{to_string, block_file}
use memphis_v.Chain.Directory.{File, Directory, last, remove, prune, read_chain}

-- `previousBlock ? previousBlock.index + 1 : 1`. The index of a block that was read is natural.
abbrev pub next_index : Option Block → ℕ
next_index none = 1
next_index (some b) = elim b.index [ natural n ↦ n + 1 | other s ↦ 0 ]

abbrev pub last_hash : Option Block → Text
last_hash none = genesis_prev_hash
last_hash (some b) = b.hash

-- What one call is given: the chain, the data, the time, and the suffix of the temporary file, which
-- is made of the process and the time.
pub record Call : Type 0 where
  pub chain : Text
  pub payload : Members
  pub timestamp : Text
  pub pid : ℕ
  pub now_ms : ℕ

-- How the file system answers: a write that fails may leave a file with a part of the text, and the removal of
-- the temporary file after a failed rename may itself fail.
pub data Disk : Type 0 where
  works : Disk
  write_fails : Option Text → Disk
  rename_fails : Bool → Disk

abbrev unsealed : Call → Option Block → Block
unsealed c before = record {
  index = natural (next_index before);
  timestamp = c.timestamp;
  chain = c.chain;
  payload = c.payload;
  prev_hash = last_hash before;
  hash = [];
}

-- the block that is appended after the last one
unfoldable pub next_block : Platform → Call → Option Block → Block
next_block p c before = record (unsealed c before) { hash = hash_block p (unsealed c before) }

abbrev pub block_json : Block → Json
block_json b = object (
    member (codes "index") (number b.index) (
      member (codes "timestamp") (string b.timestamp) (
        member (codes "chain") (string b.chain) (
          member (codes "data") (object b.payload) (
            member (codes "prev_hash") (string b.prev_hash)
              (member (codes "hash") (string b.hash) no_members))))))

abbrev pub tmp_name : Call → Text → Text
tmp_name c file = file ++ (codes ".tmp-" ++ (to_string c.pid ++ (codes "-" ++ to_string c.now_ms)))

abbrev pub put_file : Text → Text → Directory → Directory
put_file name content d = record { name = name; content = content; is_file = true } ∷ remove name d

-- The temporary file is written and renamed to the file of the block.
unfoldable pub write_block :
    Platform → Call → Disk → Block → ℕ → Directory → Result Error Block × Directory
write_block p c works b n d = (
  ok b,
  put_file (block_file n) (p.json_pretty (block_json b)) (
      remove (tmp_name c (block_file n))
        (put_file (tmp_name c (block_file n)) (p.json_pretty (block_json b)) d)),
)
write_block p c (write_fails none) b n d = (err write_failed, d)
write_block p c (write_fails (some part)) b n d =
    (err write_failed, put_file (tmp_name c (block_file n)) part d)
write_block p c (rename_fails unlinked) b n d =
    let tmp = tmp_name c (block_file n) in
    let written = put_file tmp (p.json_pretty (block_json b)) d in
    (err rename_failed, if unlinked then remove tmp written else written)

abbrev pub append_after :
    Platform → Call → Disk → Result Error (List Block) → Directory → Result Error Block × Directory
append_after p c disk (err e) d = (err e, d)
append_after p c disk (ok bs) d =
    write_block p c disk (next_block p c (last bs)) (next_index (last bs)) d

-- The block stands for its index, hash, chain and timestamp, which `appendBlock` returns.
unfoldable pub append_block : Platform → Call → Disk → Directory → Result Error Block × Directory
append_block p c disk d = append_after p c disk (read_chain p (prune d)) (prune d)
