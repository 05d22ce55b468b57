-- ===== src/Approval/Dual.antt =====
-- The public methods of `SqliteDualApprovalRepository`
-- (infra/storage/sqlite/repositories/dual-approval-repository.ts). The ids that `randomUUID()` draws
-- are arguments, and so is the clock.
pub mod Invariant
pub mod Expiry
pub mod Runs
pub mod Outcomes
pub mod Trail
pub mod History
use memphis_v.Base.{
  ℕ, ◌+◌, ◌*◌, max, Text, codes, text_eq, Bool, true, false, not, Option, none, some, List, [], ◌∷◌,
  ◌++◌, ◌&&◌, ltb, ◌==◌, if◌then◌else◌, is_some, count_if, select, update_where, Result, ok, err,
  Exec, ◌>>=◌, ◌>>◌, pure, throw, transaction, modify, lift,
}
use memphis_v.Approval.Identity.{Platform, IdentityError, normalize_identity}
use memphis_v.Approval.Tables.{
  Action, Status, Transition, Request, Event, Db, is_pending, same_status, find,
}
use memphis_v.Approval.Writes.{
  Error, identity_empty, transition_already_applied, self_approval, constraint, M, Call, call_key,
  get_or_throw, insert_event, is_idempotent_replay, commit, expired_row, approved_row, canceled_row,
}

abbrev approve_current : Text → Call → Request → M Request
approve_current actor c current =
    let key = call_key Transition.approve actor c in
    if not (is_pending current.state)
    then throw transition_already_applied
    else if ltb current.expires_at_ms c.now_ms
    then commit key c current.state_version (expired_row c.now_ms) Status.expired
    else if text_eq current.initiator_id actor
    then throw self_approval
    else if not (current.state_version == c.expected_state_version)
    then throw transition_already_applied
    else commit key c c.expected_state_version (approved_row actor c.signature c.now_ms)
        Status.approved

-- the body of the transaction of `approve`
unfoldable pub approve_tx : Text → Call → M Request
unfolding is_idempotent_replay get_or_throw
approve_tx actor c = do
  replay ← is_idempotent_replay (call_key Transition.approve actor c)
  if replay
      then get_or_throw c.request_id
      else do current ← get_or_throw c.request_id; approve_current actor c current

abbrev cancel_current : Text → Call → Request → M Request
cancel_current actor c current =
    if not (is_pending current.state)
    then throw transition_already_applied
    else if not (current.state_version == c.expected_state_version)
    then throw transition_already_applied
    else commit (call_key Transition.cancel actor c) c c.expected_state_version
        (canceled_row c.signature c.now_ms) Status.canceled

-- the body of the transaction of `cancel`
unfoldable pub cancel_tx : Text → Call → M Request
unfolding is_idempotent_replay get_or_throw
cancel_tx actor c = do
  replay ← is_idempotent_replay (call_key Transition.cancel actor c)
  if replay
      then get_or_throw c.request_id
      else do current ← get_or_throw c.request_id; cancel_current actor c current

abbrev pub identity : Platform → Text → Result Error Text
identity p input = elim (normalize_identity p input) [
  | ok actor ↦ ok actor
  | err _ ↦ err identity_empty
]

unfoldable pub approve : Platform → Call → M Request
approve p c = do actor ← lift (identity p c.actor); transaction (approve_tx actor c)

unfoldable pub cancel : Platform → Call → M Request
cancel p c = do actor ← lift (identity p c.actor); transaction (cancel_tx actor c)

-- The input of `createRequest`, with the ids of the row and of its first event.
pub record Creation : Type 0 where
  pub action : Action
  pub initiator : Text
  pub ttl_ms : Option ℕ
  pub reason : Option Text
  pub signature : Option Text
  pub now_ms : ℕ
  pub request_id : Text
  pub event_id : Text

abbrev ttl_or_default : Option ℕ → ℕ
ttl_or_default none = 5 * 60 * 1000
ttl_or_default (some t) = t

abbrev pub created_row : Text → Creation → Request
created_row initiator c = record {
  request_id = c.request_id;
  action = c.action;
  state = Status.pending;
  initiator_id = initiator;
  approver_id = none;
  reason = c.reason;
  signature = c.signature;
  expires_at_ms = c.now_ms + max 1 (ttl_or_default c.ttl_ms);
  state_version = 0;
  created_at = c.now_ms;
  updated_at = c.now_ms;
}

abbrev pub created_event : Text → Creation → Event
created_event initiator c = record {
  event_id = c.event_id;
  request_id = c.request_id;
  from_state = none;
  to_state = Status.pending;
  actor_id = initiator;
  signature = c.signature;
  created_at = c.now_ms;
}

unfoldable pub insert_request : Request → M (Unit {0})
insert_request r db =
    if is_some (find r.request_id db.requests)
    then (err constraint, db)
    else (ok tt, record db { requests = db.requests ++ r ∷ [] })

-- No transaction stands round the two INSERTs.
abbrev pub create_as : Creation → Text → M Request
create_as c initiator = do
  insert_request (created_row initiator c)
  insert_event (created_event initiator c)
  get_or_throw c.request_id

unfoldable pub create_request : Platform → Creation → M Request
unfolding insert_request insert_event get_or_throw
create_request p c = do initiator ← lift (identity p c.initiator); create_as c initiator

-- `WHERE state='pending' AND expires_at_ms < ?`
abbrev pub is_overdue : ℕ → Request → Bool
is_overdue now r = is_pending r.state && ltb r.expires_at_ms now

-- `WHERE request_id=? AND state='pending'`
abbrev pub pending_with : Text → Request → Bool
pending_with id r = text_eq r.request_id id && is_pending r.state

abbrev pub system : Text
system = codes "system"

abbrev pub expiry_event : Text → ℕ → Text → Event
expiry_event event_id now id = record {
  event_id = event_id;
  request_id = id;
  from_state = some Status.pending;
  to_state = Status.expired;
  actor_id = system;
  signature = none;
  created_at = now;
}

-- The loop over the rows that were read; `fresh` lists the ids that `randomUUID()` draws.
unfoldable pub expire_rows : ℕ → (ℕ → Text) → List Request → ℕ → M ℕ
unfolding insert_event
expire_rows now fresh [] updated db = (ok updated, db)
expire_rows now fresh (row ∷ rows) updated db =
    let changed = count_if (pending_with row.request_id) db.requests in
    let db' = record db {
      requests = update_where (pending_with row.request_id) (expired_row now) db.requests;
    } in
    let skip = expire_rows now fresh rows updated db' in
    let rest = expire_rows now fresh rows (updated + 1) in
    if changed == 1
    then (insert_event (expiry_event (fresh updated) now row.request_id) >> rest) db'
    else skip

unfoldable pub expire_pending : (ℕ → Text) → ℕ → M ℕ
expire_pending fresh now db =
    transaction (expire_rows now fresh (select (is_overdue now) db.requests) 0) db

unfoldable pub get : Text → Db → Option Request
get id db = find id db.requests

pub record Totals : Type 0 where
  pub pending_total : ℕ
  pub approved_total : ℕ
  pub expired_total : ℕ
  pub canceled_total : ℕ

unfoldable pub count_by_state : Db → Totals
count_by_state db = record {
  pending_total = count_if (λ r. same_status r.state Status.pending) db.requests;
  approved_total = count_if (λ r. same_status r.state Status.approved) db.requests;
  expired_total = count_if (λ r. same_status r.state Status.expired) db.requests;
  canceled_total = count_if (λ r. same_status r.state Status.canceled) db.requests;
}
