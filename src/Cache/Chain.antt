-- ===== src/Cache/Chain.antt =====
-- `ChainCache` (infra/cache/chain-cache.ts).
pub mod Sound
pub mod Valid
pub mod Kept
use memphis_v.Base.{
  ℕ, zero, suc, ◌+◌, ◌-◌, ◌*◌, max, Text, Bool, true, false, Option, none, some, List, [], ◌∷◌,
  ◌++◌, codes, length, ltb, ◌==◌, if◌then◌else◌,
}
use memphis_v.Base.Maps.{Map, get, has, set, delete, or_zero}
use memphis_v.Chain.Names.{to_string, starts_with}

-- The lengths of what `JSON.stringify` makes of a value.
pub record Printer (V : Type 0) : Type 0 where
  pub json_length : V → ℕ

pub record ChainCache (V : Type 0) : Type 0 where
  pub max_blocks : ℕ
  pub blocks : Map V
  pub block_sizes : Map ℕ
  pub hits : ℕ
  pub misses : ℕ
  pub writes : ℕ
  pub invalidations : ℕ
  pub estimated_bytes : ℕ

abbrev pub make_key : Text → ℕ → Text
make_key chain index = chain ++ (codes ":" ++ to_string index)

abbrev pub given : Option ℕ → ℕ
given none = 512
given (some n) = n

module _ {V : Type 0} where
  unfoldable pub new_cache : Option ℕ → ChainCache V
  new_cache max_blocks = record {
    max_blocks = max 1 (given max_blocks);
    blocks = [];
    block_sizes = [];
    hits = 0;
    misses = 0;
    writes = 0;
    invalidations = 0;
    estimated_bytes = 0;
  }

  -- `estimateBlockBytes`
  abbrev pub estimate_block_bytes : Printer V → Text → V → ℕ
  estimate_block_bytes p key value = length key * 2 + p.json_length value * 2

  -- `get`, under a key
  unfoldable pub lookup : Text → ChainCache V → Option V × ChainCache V
  lookup key c = elim (get key c.blocks) [
    | none ↦ (none, record c { misses = c.misses + 1 })
    | some v ↦ (some v, record c { hits = c.hits + 1; blocks = set key v (delete key c.blocks) })
  ]

  -- Both maps without the key, and its bytes off the estimate, which does not go below 0.
  abbrev pub without : Text → ChainCache V → ChainCache V
  without key c = record c {
    blocks = delete key c.blocks;
    block_sizes = delete key c.block_sizes;
    estimated_bytes = c.estimated_bytes - or_zero (get key c.block_sizes);
  }

  -- The first `if` of `set`: the old size stays in its map until it is written over.
  abbrev pub cleared : Text → ChainCache V → ChainCache V
  cleared key c =
      if has key c.blocks
      then record c {
        blocks = delete key c.blocks;
        estimated_bytes = c.estimated_bytes - or_zero (get key c.block_sizes);
      }
      else c

  abbrev pub written : Printer V → Text → V → ChainCache V → ChainCache V
  written p key value c = record c {
    blocks = set key value c.blocks;
    block_sizes = set key (estimate_block_bytes p key value) c.block_sizes;
    estimated_bytes = c.estimated_bytes + estimate_block_bytes p key value;
    writes = c.writes + 1;
  }

  -- The second `if` of `set`: the first key in the order of insertion goes, unless it is empty.
  abbrev pub drop_oldest : Map V → ChainCache V → ChainCache V
  drop_oldest [] c = c
  drop_oldest ((k, v) ∷ m) c = if length k == 0 then c else without k c

  unfoldable pub trimmed : ChainCache V → ChainCache V
  trimmed c = if ltb c.max_blocks (length c.blocks) then drop_oldest c.blocks c else c

  -- `set`, under a key
  unfoldable pub store : Printer V → Text → V → ChainCache V → ChainCache V
  store p key value c = trimmed (written p key value (cleared key c))

  abbrev keys_from : Text → Map V → List Text
  keys_from prefix [] = []
  keys_from prefix ((k, v) ∷ m) =
      let rest = keys_from prefix m in if starts_with prefix k then k ∷ rest else rest

  abbrev without_all : List Text → ChainCache V → ChainCache V
  without_all [] c = c
  without_all (k ∷ ks) c = without_all ks (without k c)

  unfoldable pub invalidate_chain : Text → ChainCache V → ℕ × ChainCache V
  invalidate_chain chain c =
      let keys = keys_from (chain ++ codes ":") c.blocks in
      let rest = without_all keys c in
      (
        length keys,
        if ltb 0 (length keys) then record rest { invalidations = c.invalidations + 1 } else rest,
      )

  -- `invalidateBlock`, under a key
  unfoldable pub invalidate : Text → ChainCache V → Bool × ChainCache V
  invalidate key c =
      if has key c.blocks
      then (true, record (without key c) { invalidations = c.invalidations + 1 })
      else (false, c)

  unfoldable pub clear : ChainCache V → ChainCache V
  clear c =
      if ltb 0 (length c.blocks)
      then record c {
        blocks = [];
        block_sizes = [];
        estimated_bytes = 0;
        invalidations = c.invalidations + 1;
      }
      else c

-- The public calls.
pub data Op (V : Type 0) : Type 0 where
  get_block : Text → ℕ → Op V
  set_block : Text → ℕ → V → Op V
  drop_chain : Text → Op V
  drop_block : Text → ℕ → Op V
  drop_all : Op V

unfoldable pub perform : {V : Type 0} → Printer V → Op V → ChainCache V → ChainCache V
perform p (get_block chain index) c = (lookup (make_key chain index) c).1
perform p (set_block chain index value) c = store p (make_key chain index) value c
perform p (drop_chain chain) c = (invalidate_chain chain c).1
perform p (drop_block chain index) c = (invalidate (make_key chain index) c).1
perform p drop_all c = clear c

abbrev pub run : {V : Type 0} → Printer V → List (Op V) → ChainCache V → ChainCache V
run p [] c = c
run p (op ∷ ops) c = run p ops (perform p op c)
