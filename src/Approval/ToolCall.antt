-- ===== src/Approval/ToolCall.antt =====
-- `SqliteToolCallApprovalRepository`
-- (infra/storage/sqlite/repositories/tool-call-approval-repository.ts): one table, no transactions.
-- An ISO timestamp stands by its instant, and `arguments_json` is the text that `JSON.stringify` gave.
pub mod Runs
pub mod Keys
pub mod Safety
pub mod Grants
use memphis_v.Base.{
  ℕ, ◌+◌, ◌*◌, max, Text, codes, text_eq, Bool, true, false, not, Option, none, some, List, [], ◌∷◌,
  ◌++◌, ◌&&◌, ltb, if◌then◌else◌, is_some, count_if, select, update_where, Result, ok, err, Exec,
  ◌>>=◌, ◌>>◌, throw,
}

-- `ToolCallApprovalState`
pub data Status : Type 0 where
  pending approved denied expired used : Status

abbrev pub is_pending : Status → Bool
is_pending pending = true
is_pending _ = false

abbrev pub is_approved : Status → Bool
is_approved approved = true
is_approved _ = false

-- `ToolCallApproval`
pub record Approval : Type 0 where
  pub request_id : Text
  pub tool_name : Text
  pub arguments_json : Text
  pub caller_id : Text
  pub state : Status
  pub expires_at_ms : ℕ
  pub created_at : ℕ
  pub updated_at : ℕ

abbrev pub Db : Type 0
Db = List Approval

pub data Error : Type 0 where
  approval_not_found constraint has_expired : Error
  cannot_approve cannot_deny : Status → Error

abbrev pub M : Type 0 → Type 0
M A = Exec Db Error A

unfoldable pub get : Text → Db → Option Approval
get id [] = none
get id (r ∷ db) = if text_eq r.request_id id then some r else get id db

abbrev pub or_not_found : Option Approval → Result Error Approval
or_not_found none = err approval_not_found
or_not_found (some r) = ok r

unfoldable pub get_or_throw : Text → M Approval
get_or_throw id db = (or_not_found (get id db), db)

pub record Creation : Type 0 where
  pub tool_name : Text
  pub arguments_json : Text
  pub caller_id : Option Text
  pub ttl_ms : Option ℕ
  pub now_ms : ℕ
  pub request_id : Text

-- `value ?? fallback`
abbrev or_else {ℓ} : {A : Type ℓ} → Option A → A → A
or_else none d = d
or_else (some a) d = a

abbrev pub default_ttl_ms : ℕ
default_ttl_ms = 5 * 60 * 1000

abbrev pub created_row : Creation → Approval
created_row c = record {
  request_id = c.request_id;
  tool_name = c.tool_name;
  arguments_json = c.arguments_json;
  caller_id = or_else c.caller_id (codes "agent");
  state = pending;
  expires_at_ms = c.now_ms + max 1 (or_else c.ttl_ms default_ttl_ms);
  created_at = c.now_ms;
  updated_at = c.now_ms;
}

unfoldable pub create_request : Creation → M Approval
unfolding get_or_throw
create_request c db =
    if is_some (get c.request_id db)
    then (err constraint, db)
    else get_or_throw c.request_id (db ++ created_row c ∷ [])

abbrev pub with_id : Text → Approval → Bool
with_id id r = text_eq r.request_id id

abbrev pub moved : Status → ℕ → Approval → Approval
moved state now r = record r { state = state; updated_at = now }

-- `transition`: an UPDATE by the id alone
unfoldable pub transition : Text → Status → ℕ → M (Unit {0})
transition id state now db = (ok tt, update_where (with_id id) (moved state now) db)

abbrev pub approve_current : Text → ℕ → Approval → M Approval
approve_current id now current =
    if not (is_pending current.state)
    then throw (cannot_approve current.state)
    else if ltb current.expires_at_ms now
    then (transition id expired now >> throw has_expired)
    else (transition id approved now >> get_or_throw id)

unfoldable pub approve : Text → ℕ → M Approval
unfolding transition get_or_throw
approve id now = do current ← get_or_throw id; approve_current id now current

abbrev pub deny_current : Text → ℕ → Approval → M Approval
deny_current id now current =
    if not (is_pending current.state)
    then throw (cannot_deny current.state)
    else (transition id denied now >> get_or_throw id)

unfoldable pub deny : Text → ℕ → M Approval
unfolding transition get_or_throw
deny id now = do current ← get_or_throw id; deny_current id now current

unfoldable pub mark_used : Text → ℕ → M (Unit {0})
unfolding transition
mark_used id now = transition id used now

-- `WHERE request_id = ? AND state = 'approved' AND expires_at_ms > ?`
unfoldable pub find_approved : Text → ℕ → Db → Option Approval
find_approved id now [] = none
find_approved id now (r ∷ db) =
    if text_eq r.request_id id && is_approved r.state && ltb now r.expires_at_ms
    then some r
    else find_approved id now db

-- `WHERE state = 'pending' AND expires_at_ms < ?`
abbrev pub is_overdue : ℕ → Approval → Bool
is_overdue now r = is_pending r.state && ltb r.expires_at_ms now

-- one UPDATE; the result is the number of rows that it changed
unfoldable pub expire_pending : ℕ → M ℕ
expire_pending now db =
    (ok (count_if (is_overdue now) db), update_where (is_overdue now) (moved expired now) db)
