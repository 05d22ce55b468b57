-- ===== src/Mcp/Tests.antt =====
-- Runs of the tool-call approvals, the tool permissions and the gate of the MCP server.
use memphis_v.Base.{
  ◌<◌, ◌≡◌, ◌≢◌, refl, Text, codes, true, false, none, some, List, [], ◌∷◌, ok, update_where, arith,
}
use memphis_v.Base.Texts.{text_eq}
use memphis_v.Approval.Permission.{
  allow, deny, require_approval, is_allowed, is_allowed_after, set, delete,
}
use memphis_v.Approval.ToolCall
use memphis_v.Approval.ToolCall.{
  Approval, Db, Creation, create_request, get, approve, mark_used, find_approved, with_id, moved,
  approved, pending, used,
}
use memphis_v.Approval.ToolCall.Runs.{
  Op, create_op, approve_op, mark_used_op, expire_op, perform, run, IsKeyed, state_of,
  perform-moves, ◌⟶◌,
}
use memphis_v.Approval.ToolCall.Safety.{closed_never_found, approve_at_deadline}
use memphis_v.Approval.ToolCall.Grants.{found_was_approved, any_approves}
use memphis_v.Mcp.Gate.{Args, Moment, executed, gate, gate_runs, gate_needs, gate_once, present}

abbrev row : ToolCall.Status → Approval
row state = record {
  request_id = codes "q1";
  tool_name = codes "exec";
  arguments_json = codes "{}";
  caller_id = codes "agent";
  state = state;
  expires_at_ms = 5000;
  created_at = 1000;
  updated_at = 1000;
}

abbrev table : ToolCall.Status → Db
table state = row state ∷ []

row_found : (state : ToolCall.Status) → get (codes "q1") (table state) ≡ some (row state)
unfolding get text_eq
row_found state = refl

table-IsKeyed : (state : ToolCall.Status) → IsKeyed (table state)
unfolding get
table-IsKeyed state = (refl, tt)

perform-moves_example :
    state_of (codes "q1") (table pending)
    ⟶ state_of (codes "q1") (perform (approve_op (codes "q1") 2000) (table pending))
perform-moves_example = perform-moves (approve_op (codes "q1") 2000) (codes "q1") (table pending)

abbrev attempts : List Op
attempts = approve_op (codes "q1") 2000 ∷ mark_used_op (codes "q1") 2500 ∷ expire_op 9000 ∷ []

closed_never_found_example : find_approved (codes "q1") 3000 (run attempts (table used)) ≡ none
closed_never_found_example =
    closed_never_found (codes "q1") (table used) (row used) attempts 3000 (table-IsKeyed used)
      (row_found used) refl

approve_at_deadline_example :
    (approve (codes "q1") 5000 (table pending) ≡ (
      ok (moved approved 5000 (row pending)),
      update_where (with_id (codes "q1")) (moved approved 5000) (table pending),
    ))
    × (find_approved (codes "q1") 5000 (approve (codes "q1") 5000 (table pending)).1 ≡ none)
approve_at_deadline_example =
    approve_at_deadline (codes "q1") (table pending) (row pending) 5000 (table-IsKeyed pending)
      (row_found pending) refl (omega arith)

abbrev asked : Creation
asked = record {
  tool_name = codes "exec";
  arguments_json = codes "{}";
  caller_id = none;
  ttl_ms = none;
  now_ms = 1000;
  request_id = codes "q1";
}

abbrev granted : List Op
granted = create_op asked ∷ approve_op (codes "q1") 2000 ∷ []

abbrev granted_row : Approval
granted_row = record (row approved) { expires_at_ms = 301000; updated_at = 2000 }

granted_found : find_approved (codes "q1") 3000 (run granted []) ≡ some granted_row
unfolding find_approved run perform create_request approve get text_eq ToolCall.transition
granted_found = refl

found_was_approved_example : (any_approves (codes "q1") 301000 granted ≡ true) × (3000 < 301000)
found_was_approved_example =
    found_was_approved (codes "q1") granted 3000 {r = granted_row} granted_found

is_allowed_after_example :
    (is_allowed (codes "exec") (set (codes "exec") deny 7 []) ≡ (false, deny))
    × (is_allowed (codes "exec") (delete (codes "exec") []).1 ≡ (true, allow))
unfolding text_eq
is_allowed_after_example = is_allowed_after (codes "exec") (codes "exec") deny 7 []

abbrev call_args : Args
call_args = record { json = codes "{}"; approval_request_id = some (codes "q1") }

abbrev moment : Moment
moment = record { find_ms = 3000; mark_ms = 3001; create_ms = 3002; request_id = codes "q2" }

approved_found : find_approved (codes "q1") 3000 (table approved) ≡ some (row approved)
unfolding find_approved text_eq
approved_found = refl

gate_runs_example : gate (codes "exec") require_approval call_args moment (table approved) ≡ (
  ok (executed call_args),
  update_where (with_id (codes "q1")) (moved used 3001) (table approved),
)
gate_runs_example =
    gate_runs (codes "exec") call_args moment (table approved) (codes "q1") (row approved) refl
      approved_found refl

abbrev spent : Db
spent = update_where (with_id (codes "q1")) (moved used 3001) (table approved)

gate_needs_example :
    (id : Text) × (r : Approval) × (present (some (codes "q1")) ≡ some id)
    × (get id (table approved) ≡ some r)
    × (r.state ≡ approved)
    × (3000 < r.expires_at_ms)
    × (r.tool_name ≡ codes "exec")
    × (call_args ≡ call_args)
    × (spent ≡ update_where (with_id id) (moved used 3001) (table approved))
gate_needs_example =
    gate_needs (codes "exec") call_args moment (table approved) {ran = call_args} {db' = spent}
      (table-IsKeyed approved) gate_runs_example

gate_once_example :
    gate (codes "exec") require_approval call_args moment (run attempts spent)
    ≢ (ok (executed call_args), spent)
gate_once_example =
    gate_once (codes "exec") call_args moment (table approved) {ran = call_args} {db' = spent}
      (table-IsKeyed approved) gate_runs_example attempts (codes "exec") call_args moment call_args
      spent refl
