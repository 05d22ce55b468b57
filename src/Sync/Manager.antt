-- ===== src/Sync/Manager.antt =====
-- The agents that are known and the exchange of chains with them (sync/agent-registry.ts and
-- sync/sync-manager.ts). The registry file and the chain file are kept more what was written last.
pub mod Marks
use memphis_v.Base.{
  ℕ, zero, suc, ◌+◌, Text, Bool, true, false, not, Option, none, some, List, [], ◌∷◌, ◌++◌, length,
  map, select, drop, codes, ◌==◌, if◌then◌else◌, Result, ok, err,
}
use memphis_v.Base.Texts.{text_eq}
use memphis_v.Approval.Identity.{trim, trim_start}
use memphis_v.Chain.Names.{starts_with}
use memphis_v.Sync.Diff.{Platform, Block, Diff, detect_chain_diff, or_else}
use memphis_v.Sync.Resolve.{Strategy, resolve_chain_conflicts}

pub data AgentStatus : Type 0 where
  online offline unknown : AgentStatus

pub record Agent : Type 0 where
  pub did : Text
  pub name : Option Text
  pub endpoint : Text
  pub capabilities : List Text
  pub last_seen : Text
  pub status : AgentStatus

-- `agents.find((agent) => agent.did === did)`
unfoldable pub get_agent : Text → List Agent → Option Agent
get_agent did [] = none
get_agent did (a ∷ more) = if text_eq a.did did then some a else get_agent did more

-- The agent replaces the first one with its identity, or is added.
unfoldable pub put_agent : Agent → List Agent → List Agent
put_agent next [] = next ∷ []
put_agent next (a ∷ more) =
    let rest = put_agent next more in if text_eq a.did next.did then next ∷ more else a ∷ rest

-- An agent whose `lastSeen` may be missing.
pub record NewAgent : Type 0 where
  pub agent : Agent
  pub seen : Option Text

unfoldable pub upsert : Text → NewAgent → List Agent → List Agent
upsert now new more = put_agent (record new.agent { last_seen = or_else new.seen now }) more

-- `s.split(c)`
abbrev put_char : ℕ → List Text → List Text
put_char d [] = (d ∷ []) ∷ []
put_char d (w ∷ ws) = (d ∷ w) ∷ ws

unfoldable pub split : ℕ → Text → List Text
split c [] = [] ∷ []
split c (d ∷ s) = let rest = split c s in if d == c then [] ∷ rest else put_char d rest

abbrev peer : Text → Text → List NewAgent
peer did endpoint =
    if length did == 0
    then []
    else if length endpoint == 0
    then []
    else if starts_with (codes "did:") did
    then record {
      agent = record {
        did = did;
        name = some (drop 4 did);
        endpoint = endpoint;
        capabilities = codes "sync.push" ∷ codes "sync.pull" ∷ codes "chain.diff" ∷ [];
        last_seen = [];
        status = unknown;
      };
      seen = none;
    }
      ∷ []
    else []

abbrev peer_of : List Text → List NewAgent
peer_of (did ∷ endpoint ∷ rest) = peer (trim did) (trim endpoint)
peer_of _ = []

abbrev peers_of : List Text → List NewAgent
peers_of [] = []
peers_of (entry ∷ entries) =
    let rest = peers_of entries in
    if length (trim entry) == 0 then rest else peer_of (split b'@' (trim entry)) ++ rest

-- `discoverFromEnv`, of MEMPHIS_SYNC_PEERS
unfoldable pub discover_from_env : Option Text → List NewAgent
discover_from_env none = []
discover_from_env (some peers) =
    if length (trim peers) == 0 then [] else peers_of (split b',' (trim peers))

abbrev upsert_all : Text → List NewAgent → List Agent → List Agent
upsert_all now [] more = more
upsert_all now (n ∷ ns) more = upsert_all now ns (upsert now n more)

unfoldable pub discover : Text → Option Text → List Agent → List Agent
discover now peers more = upsert_all now (discover_from_env peers) more

-- `{ ...agent, status }`
abbrev pub with_status : AgentStatus → Agent → NewAgent
with_status s a = record { agent = record a { status = s }; seen = some a.last_seen }

pub record Failure : Type 0 where
  pub did : Text
  pub error : Text

pub record PushReport : Type 0 where
  pub pushed_to : ℕ
  pub failures : List Failure

abbrev sent : Agent → Option Text → PushReport → PushReport
sent a none r = record r { pushed_to = r.pushed_to + 1 }
sent a (some e) r = record r { failures = record { did = a.did; error = e } ∷ r.failures }

abbrev status_after : Option Text → AgentStatus
status_after none = online
status_after (some e) = offline

-- The loop of `push`: the answer of an agent to the request is none, or the error.
unfoldable pub push_all :
    Text → (Agent → Option Text) → List Agent → List Agent → PushReport × List Agent
push_all now answer [] registry = (record { pushed_to = 0; failures = [] }, registry)
push_all now answer (a ∷ more) registry =
    let rest =
      push_all now answer more (upsert now (with_status (status_after (answer a)) a) registry) in
    (sent a (answer a) rest.0, rest.1)

unfoldable pub push : Text → (Agent → Option Text) → List Agent → PushReport × List Agent
push now answer registry = push_all now answer registry registry

pub data PullError : Type 0 where
  agent_not_found : Text → PullError
  transport_failed : Text → PullError

pub record PullReport : Type 0 where
  pub before : ℕ
  pub after : ℕ
  pub local_only : ℕ
  pub remote_only : ℕ
  pub conflicts : ℕ

-- The registry and the file of one chain.
pub record Node : Type 0 where
  pub registry : List Agent
  pub blocks : List Block

abbrev pulled :
    Platform → Text → Strategy → Agent → List Block → Node → Result PullError PullReport × Node
pulled p now s agent remote n =
    let diff = detect_chain_diff p n.blocks remote in
    let merged = resolve_chain_conflicts p s n.blocks remote in
    (
      ok (record {
        before = length n.blocks;
        after = length merged;
        local_only = length diff.local_only;
        remote_only = length diff.remote_only;
        conflicts = length diff.conflicts;
      }),
      record { registry = upsert now (with_status online agent) n.registry; blocks = merged },
    )

abbrev answered :
    Platform
    → Text
    → Strategy
    → Agent
    → Result Text (Option (List Block))
    → Node
    → Result PullError PullReport × Node
answered p now s agent (err e) n = (err (transport_failed e), n)
answered p now s agent (ok none) n = pulled p now s agent [] n
answered p now s agent (ok (some remote)) n = pulled p now s agent remote n

abbrev asked :
    Platform
    → Text
    → Strategy
    → Text
    → (Agent → Result Text (Option (List Block)))
    → Option Agent
    → Node
    → Result PullError PullReport × Node
asked p now s did ask none n = (err (agent_not_found did), n)
asked p now s did ask (some a) n = answered p now s a (ask a) n

-- `pull`, by the answer of the agent: an error, or its blocks if it sent any
unfoldable pub pull :
    Platform
    → Text
    → Strategy
    → Text
    → (Agent → Result Text (Option (List Block)))
    → Node
    → Result PullError PullReport × Node
pull p now s did ask n = asked p now s did ask (get_agent did n.registry) n
