-- ===== src/Sync/Tests.antt =====
-- Two small copies of a chain, and the theorems about them.
use memphis_v.Base.{
  ℕ, ◌+◌, ◌≡◌, ◌⊎◌, refl, Text, true, false, Option, none, some, List, [], ◌∷◌, length, map, codes,
  ltb,
}
use memphis_v.Base.Int.{ℤ, pos}
use memphis_v.Base.Maps.{get, set}
use memphis_v.Base.Texts.{text_eq}
use memphis_v.Sync.Diff.{Platform, Block, block_key, add_all, keyed, detect_chain_diff}
use memphis_v.Sync.Diff.Classes.{with_key, conflicts_at, lone, clash, diff_classes}
use memphis_v.Sync.Resolve.{
  last_write_wins, block_timestamp, replaces, merge_all, merged, comes_before, insert_block,
  sort_blocks, resolve_chain_conflicts,
}
use memphis_v.Sync.Resolve.Winners.{Newest, NotOlder, In, latest, winner, Newest-wins}
use memphis_v.Sync.Resolve.Order.{IsSorted, to_list, resolve_holds}
use memphis_v.Sync.Manager.{Agent, online, unknown, push, push_all}
use memphis_v.Sync.Manager.Marks.{Distinct, marked, push_marks}

abbrev number_text : ℤ → Text
number_text (pos n) = n ∷ []
number_text _ = codes "-"

abbrev platform : Platform
platform = record {
  json_leaf = λ v. codes "x";
  json_text = λ s. s;
  number_text = number_text;
  locale_before = λ a b. ltb (length a) (length b);
  date_parse = λ s. some (pos (length s));
}

abbrev block : Text → ℕ → Text → Block
block hash index time = record {
  index = some (pos index);
  timestamp = some time;
  hash = some hash;
  chain = some (codes "journal");
  payload = none;
}

abbrev local : List Block
local = block (codes "h1") 2 (codes "t") ∷ block (codes "h2") 1 (codes "tt") ∷ []

abbrev remote : List Block
remote = block (codes "h1") 2 (codes "ttt") ∷ block (codes "h3") 0 (codes "t") ∷ []

diff_classes_example :
    (with_key platform (codes "hash:h1") (detect_chain_diff platform local remote).local_only
      ≡ lone
          (get (codes "hash:h1") (keyed platform local))
          (get (codes "hash:h1") (keyed platform remote)))
    × (with_key platform (codes "hash:h1") (detect_chain_diff platform local remote).remote_only
        ≡ lone
            (get (codes "hash:h1") (keyed platform remote))
            (get (codes "hash:h1") (keyed platform local)))
    × (conflicts_at (codes "hash:h1") (detect_chain_diff platform local remote).conflicts
        ≡ clash platform
            (codes "hash:h1")
            (get (codes "hash:h1") (keyed platform local))
            (get (codes "hash:h1") (keyed platform remote)))
diff_classes_example = diff_classes platform local remote (codes "hash:h1")

resolve_holds_example :
    IsSorted platform (resolve_chain_conflicts platform last_write_wins local remote)
    × ((k : Text)
        → with_key platform k (resolve_chain_conflicts platform last_write_wins local remote)
          ≡ to_list (
              winner platform last_write_wins
                (with_key platform k remote)
                (latest (with_key platform k local) none)))
resolve_holds_example = resolve_holds platform last_write_wins local remote

resolved :
    resolve_chain_conflicts platform last_write_wins local remote
    ≡ block (codes "h3") 0 (codes "t")
      ∷ block (codes "h2") 1 (codes "tt")
      ∷ block (codes "h1") 2 (codes "ttt")
      ∷ []
unfolding resolve_chain_conflicts merged merge_all add_all set get block_key text_eq replaces
    block_timestamp comes_before insert_block sort_blocks
resolved = refl

h1_merged :
    get (codes "hash:h1") (merged platform last_write_wins local remote)
    ≡ some (block (codes "h1") 2 (codes "ttt"))
unfolding merged merge_all add_all set get block_key text_eq replaces block_timestamp
h1_merged = refl

Newest-wins_example :
    Newest platform
      (block (codes "h1") 2 (codes "ttt"))
      (with_key platform (codes "hash:h1") remote)
    × NotOlder platform
        (block (codes "h1") 2 (codes "ttt"))
        (latest (with_key platform (codes "hash:h1") local) none)
    × (In (block (codes "h1") 2 (codes "ttt")) (with_key platform (codes "hash:h1") remote)
        ⊎ (latest (with_key platform (codes "hash:h1") local) none
            ≡ some (block (codes "h1") 2 (codes "ttt"))))
Newest-wins_example =
    Newest-wins platform local remote (codes "hash:h1") (block (codes "h1") 2 (codes "ttt"))
      h1_merged

abbrev agent : Text → Agent
agent did = record {
  did = did;
  name = none;
  endpoint = codes "ws://peer";
  capabilities = [];
  last_seen = codes "2024";
  status = unknown;
}

abbrev registry : List Agent
registry = agent (codes "did:a") ∷ agent (codes "did:b") ∷ []

abbrev only_a : Agent → Option Text
only_a a = elim (text_eq a.did (codes "did:a")) [ true ↦ none | false ↦ some (codes "timeout") ]

distinct : Distinct registry
unfolding text_eq memphis_v.Sync.Manager.get_agent
distinct = (refl, (refl, tt))

push_marks_example :
    ((push (codes "2025") only_a registry).1 ≡ map (marked only_a) registry)
    × ((push (codes "2025") only_a registry).0.pushed_to
          + length (push (codes "2025") only_a registry).0.failures
        ≡ 2)
push_marks_example = push_marks (codes "2025") only_a registry distinct
