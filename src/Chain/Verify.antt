-- ===== src/Chain/Verify.antt =====
-- `verifyChainIntegrity` and `getChainAdapterStatus` (infra/storage/chain-adapter.ts).
use memphis_v.Base.{
  ℕ, ◌+◌, ◌≡◌, refl, Text, Bool, false, ◌&&◌, Option, none, some, List, [], ◌∷◌, length, select,
  if◌then◌else◌, Result, ok, err, codes, arith,
}
use memphis_v.Base.Texts.{text_eq}
use memphis_v.Base.Fallible.{◌>>=◌, bind-ok, ok_inj}
use memphis_v.Chain.Json.{Platform}
use memphis_v.Chain.Block.{Block, Error, no_directory}
use memphis_v.Chain.Names.{Paths, safe_chain_name, resolve_chain_dir}
use memphis_v.Chain.Directory.{Directory, read_chain}

-- The directory that `readdir` finds at a path.
abbrev pub Files : Type 0
Files = Text → Option Directory

abbrev open_dir : Option Directory → Result Error Directory
open_dir none = err no_directory
open_dir (some d) = ok d

pub record Report : Type 0 where
  pub chains_checked : ℕ
  pub block_count : ℕ
  pub chain : Option Text

-- The blocks of one chain.
unfoldable pub chain_blocks : Platform → Paths → Files → Text → Result Error (List Block)
chain_blocks p paths files name =
    resolve_chain_dir paths name >>= λ target. open_dir (files target) >>= λ d. read_chain p d

-- The loop over the selected chains, with the two counts.
unfoldable pub verify_from :
    Platform → Paths → Files → Option Text → ℕ → ℕ → List Text → Result Error Report
verify_from p paths files given checked count [] =
    ok (record { chains_checked = checked; block_count = count; chain = given })
verify_from p paths files given checked count (name ∷ names) =
    chain_blocks p paths files name >>= λ bs.
    verify_from p paths files given (checked + 1) (count + length bs) names

-- `chainName ? [chainName] : ...`: the name that is given and not empty, or the safe names among
-- those in the root.
abbrev pub selected_chains : Option Text → List Text → List Text
selected_chains none listing = select safe_chain_name listing
selected_chains (some []) listing = select safe_chain_name listing
selected_chains (some (c ∷ s)) listing = (c ∷ s) ∷ []

unfoldable pub verify_chain_integrity :
    Platform → Paths → Files → Option Text → List Text → Result Error Report
verify_chain_integrity p paths files given listing =
    verify_from p paths files given 0 0 (selected_chains given listing)

-- Every chain is read; the total of their blocks.
abbrev pub AllRead : Platform → Paths → Files → List Text → ℕ → Type 0
AllRead p paths files [] total = total ≡ 0
AllRead p paths files (name ∷ names) total =
    (bs : List Block) × (chain_blocks p paths files name ≡ ok bs)
    × ((rest : ℕ) × (total ≡ length bs + rest) × AllRead p paths files names rest)

verify_from_counts :
    (p : Platform) (paths : Paths) (files : Files) (given : Option Text) (checked count : ℕ)
    (names : List Text) (r : Report)
    → verify_from p paths files given checked count names ≡ ok r
    → (total : ℕ) × AllRead p paths files names total
      × (r.block_count ≡ count + total)
      × (r.chains_checked ≡ checked + length names)
unfolding verify_from
verify_from_counts p paths files given checked count [] r h =
    let e = ok_inj h in (0, refl, rw (← e) (omega arith), rw (← e) (omega arith))
verify_from_counts p paths files given checked count (name ∷ names) r h =
    let (bs, read, h1) = bind-ok _ _ r h in
    let (total, all, blocks, chains) =
      verify_from_counts p paths files given (checked + 1) (count + length bs) names r h1 in
    (
      length bs + total,
      (bs, read, (total, refl, all)),
      omega (arith, blocks),
      omega (arith, chains),
    )

-- `verifyChainIntegrity` that returns has read every chain that it selected, and reports their number
-- and the total of their blocks.
pub verify_counts :
    (p : Platform) (paths : Paths) (files : Files) (given : Option Text) (listing : List Text)
    (r : Report)
    → verify_chain_integrity p paths files given listing ≡ ok r
    → AllRead p paths files (selected_chains given listing) r.block_count
      × (r.chains_checked ≡ length (selected_chains given listing))
unfolding verify_chain_integrity
verify_counts p paths files given listing r h =
    let (total, all, blocks, chains) =
      verify_from_counts p paths files given 0 0 (selected_chains given listing) r h in
    let same : total ≡ r.block_count = omega (arith, blocks) in
    (rw (← same) all, omega (arith, chains))

-- The functions that the native bridge may have.
pub record Bridge : Type 0 where
  pub has_append : Bool
  pub has_validate : Bool
  pub has_query : Bool

pub data Backend : Type 0 where
  ts_legacy rust_napi : Backend

pub record AdapterStatus : Type 0 where
  pub backend : Backend
  pub rust_enabled : Bool
  pub rust_bridge_loaded : Bool

abbrev has_core : Option Bridge → Bool
has_core none = false
has_core (some b) = b.has_append && b.has_validate && b.has_query

abbrev parse_bool : (Text → Text) → Option Text → Bool
parse_bool to_lower none = false
parse_bool to_lower (some v) = text_eq (to_lower v) (codes "true")

-- `getChainAdapterStatus`, by RUST_CHAIN_ENABLED and the bridge that can be loaded
unfoldable pub get_chain_adapter_status :
    (Text → Text) → Option Text → Option Bridge → AdapterStatus
get_chain_adapter_status to_lower enabled bridge =
    let rust_enabled = parse_bool to_lower enabled in
    record {
      backend = if rust_enabled && has_core bridge then rust_napi else ts_legacy;
      rust_enabled = rust_enabled;
      rust_bridge_loaded = rust_enabled && has_core bridge;
    }
