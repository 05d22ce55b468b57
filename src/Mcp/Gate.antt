-- ===== src/Mcp/Gate.antt =====
-- `withApprovalGate` of mcp/server.ts: a tool under the policy `require-approval`.
use memphis_v.Base.{
  ℕ, ◌<◌, Text, text_eq, text_eq_iff, ◌≡◌, ◌≢◌, refl, Option, none, some, List, ◌∷◌, arith,
  if◌then◌else◌, update_where, Result, ok, err, Option-cases, inl, inr,
}
use memphis_v.Approval.Permission.{ToolPolicy, allow, deny, require_approval}
use memphis_v.Approval.ToolCall
use memphis_v.Approval.ToolCall.{
  Status, approved, used, Approval, Db, Error, create_request, get, mark_used, find_approved,
  with_id, moved,
}
use memphis_v.Approval.ToolCall.Runs.{Op, mark_used_op, perform, run, IsKeyed, get-id, get-update}
use memphis_v.Approval.ToolCall.Keys.{find_approved-get, run-IsKeyed, perform-IsKeyed}
use memphis_v.Approval.ToolCall.Safety.{closed-ne-approved}

-- The arguments of a call: what `JSON.stringify` prints of them, and the one that the gate reads.
pub record Args : Type 0 where
  pub json : Text
  pub approval_request_id : Option Text

-- The readings of the clock by the calls that the gate makes, and the id that a new request draws.
pub record Moment : Type 0 where
  pub find_ms : ℕ
  pub mark_ms : ℕ
  pub create_ms : ℕ
  pub request_id : Text

-- The handler runs on the arguments, or the result says what the call waits for.
pub data Outcome : Type 0 where
  executed : Args → Outcome
  waiting : Text → Status → Outcome

abbrev pub Reply : Type 0
Reply = Result Error Outcome × Db

-- a name that is not empty
abbrev pub present : Option Text → Option Text
present (some (c ∷ s)) = some (c ∷ s)
present _ = none

abbrev pub as_waiting : Result Error Approval × Db → Reply
as_waiting (ok r, db) = (ok (waiting r.request_id ToolCall.pending), db)
as_waiting (err e, db) = (err e, db)

-- `createRequest` with the default caller and time to live
open_request : Text → Args → Moment → Db → Reply
open_request tool args m db = as_waiting (
    create_request
      (record {
        tool_name = tool;
        arguments_json = args.json;
        caller_id = none;
        ttl_ms = none;
        now_ms = m.create_ms;
        request_id = m.request_id;
      })
      db)

existing : Text → Args → Moment → Option Approval → Db → Reply
unfolding open_request
existing tool args m (some r) db = (ok (waiting r.request_id r.state), db)
existing tool args m none db = open_request tool args m db

with_approved : Text → Args → Moment → Text → Option Approval → Db → Reply
unfolding existing
with_approved tool args m id none db = existing tool args m (get id db) db
with_approved tool args m id (some r) db =
    if text_eq r.tool_name tool
    then (ok (executed args), (mark_used id m.mark_ms db).1)
    else existing tool args m (get id db) db

with_id_given : Text → Args → Moment → Option Text → Db → Reply
unfolding with_approved open_request
with_id_given tool args m none db = open_request tool args m db
with_id_given tool args m (some id) db =
    with_approved tool args m id (find_approved id m.find_ms db) db

unfoldable pub gate : Text → ToolPolicy → Args → Moment → Db → Reply
unfolding with_id_given
gate tool allow args m db = (ok (executed args), db)
gate tool deny args m db = with_id_given tool args m (present args.approval_request_id) db
gate tool require_approval args m db =
    with_id_given tool args m (present args.approval_request_id) db

not_executed :
    (tool : Text) (args : Args) (m : Moment) (db : Db) (ran : Args) (db' : Db)
    → open_request tool args m db ≢ (ok (executed ran), db')
unfolding open_request
not_executed tool args m db ran db' h = ground arith

existing_waits :
    (tool : Text) (args : Args) (m : Moment) (o : Option Approval) (db : Db) (ran : Args) (db' : Db)
    → existing tool args m o db ≢ (ok (executed ran), db')
unfolding existing
existing_waits tool args m (some r) db ran db' h = cc
existing_waits tool args m none db ran db' h = not_executed tool args m db ran db' h

-- Under `require-approval` a call that names an approved request of this tool, in time, runs the
-- handler on its own arguments, whatever arguments the request was approved for, and marks the
-- request used.
pub gate_runs :
    (tool : Text) (args : Args) (m : Moment) (db : Db) (id : Text) (r : Approval)
    → present args.approval_request_id ≡ some id
    → find_approved id m.find_ms db ≡ some r
    → r.tool_name ≡ tool
    → gate tool require_approval args m db
      ≡ (ok (executed args), update_where (with_id id) (moved used m.mark_ms) db)
unfolding gate mark_used
gate_runs tool args m db id r named found same = ground (arith, text_eq_iff r.tool_name tool)

-- The other way round, on a table without two rows of one id: under `require-approval` the handler
-- runs only on the call's own arguments, and only if the call names a request of this tool that
-- stands in the table approved and in time; that request is used afterwards.
pub gate_needs :
    (tool : Text) (args : Args) (m : Moment) (db : Db) {ran : Args} {db' : Db}
    → IsKeyed db
    → gate tool require_approval args m db ≡ (ok (executed ran), db')
    → (id : Text) × (r : Approval) × (present args.approval_request_id ≡ some id)
      × (get id db ≡ some r)
      × (r.state ≡ approved)
      × (m.find_ms < r.expires_at_ms)
      × (r.tool_name ≡ tool)
      × (ran ≡ args)
      × (db' ≡ update_where (with_id id) (moved used m.mark_ms) db)
unfolding gate mark_used
gate_needs tool args m db {ran} {db'} k h = elim (Option-cases (present args.approval_request_id)) [
  | inl unnamed ↦ absurd (ground (arith, not_executed tool args m db ran db'))
  | inr (id, named) ↦ elim (Option-cases (find_approved id m.find_ms db)) [
    | inl none_approved ↦ absurd (ground (arith, existing_waits tool args m (get id db) db ran db'))
    | inr (r, found) ↦
        let (row, state, early) = find_approved-get id m.find_ms db r k found in
        let waits = existing_waits tool args m (get id db) db ran db' in
        (
          id,
          r,
          named,
          row,
          state,
          early,
          ground (arith, waits, text_eq_iff r.tool_name tool),
          ground (arith, waits),
          ground (arith, waits),
        )
  ]
]

-- One approval, one run, on a table without two rows of one id: after a call that ran its handler on
-- a request, and any calls of the repository in between, no call under `require-approval` that names
-- that request runs its handler, whatever its tool, its arguments and its time.
pub gate_once :
    (tool : Text) (args : Args) (m : Moment) (db : Db) {ran : Args} {db' : Db}
    → IsKeyed db
    → gate tool require_approval args m db ≡ (ok (executed ran), db')
    → (ops : List Op) (tool' : Text) (args' : Args) (m' : Moment) (ran' : Args) (db'' : Db)
    → present args'.approval_request_id ≡ present args.approval_request_id
    → gate tool' require_approval args' m' (run ops db') ≢ (ok (executed ran'), db'')
unfolding perform mark_used
gate_once tool args m db {ran} {db'} k h ops tool' args' m' ran' db'' same h' =
    let (id, r, named, found, _, _, _, _, after) = gate_needs tool args m db k h in
    let marked : IsKeyed db' = rw after (perform-IsKeyed (mark_used_op id m.mark_ms) db k) in
    let (id', q, named', found', state', _, _, _, _) =
      gate_needs tool' args' m' (run ops db') (run-IsKeyed ops db' marked) h' in
    let same_id : id' ≡ id = ground arith in
    let row : get id db' ≡ some (moved used m.mark_ms r) = ground (
      arith,
      after,
      get-update (with_id id) used m.mark_ms id db,
      get-id id db r found,
      text_eq_iff r.request_id id,
    ) in
    closed-ne-approved id db' (moved used m.mark_ms r) ops q row refl (rw same_id at found') state'
