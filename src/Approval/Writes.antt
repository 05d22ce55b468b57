-- ===== src/Approval/Writes.antt =====
-- The private methods and the SQL statements that the transitions of `SqliteDualApprovalRepository`
-- (infra/storage/sqlite/repositories/dual-approval-repository.ts) share. A request id and an event
-- id are arguments, for the `randomUUID()` that the code draws; so is the clock.
use memphis_v.Base.{
  ℕ, ◌+◌, Text, text_eq, Bool, true, false, not, Option, none, some, [], ◌∷◌, ◌++◌, ◌&&◌, ◌==◌,
  if◌then◌else◌, is_some, count_if, update_where, Result, ok, err, Exec, ◌>>=◌, ◌>>◌,
}
use memphis_v.Approval.Tables.{
  Status, Transition, Request, Event, Reservation, Db, is_pending, same_transition, find,
  find_reservation, find_event,
}

-- The messages of the errors that the methods throw; `constraint` is a primary key violated.
pub data Error : Type 0 where
  request_not_found transition_already_applied self_approval approval_id_used constraint : Error
  identity_empty : Error

abbrev pub M : Type 0 → Type 0
M A = Exec Db Error A

pub record Key : Type 0 where
  pub approval_request_id : Text
  pub request_id : Text
  pub action : Transition
  pub actor_id : Text

abbrev pub or_not_found : Option Request → Result Error Request
or_not_found none = err request_not_found
or_not_found (some r) = ok r

unfoldable pub get_or_throw : Text → M Request
get_or_throw id db = (or_not_found (find id db.requests), db)

unfoldable pub insert_event : Event → M (Unit {0})
insert_event e db =
    if is_some (find_event e.event_id db.events)
    then (err constraint, db)
    else (ok tt, record db { events = db.events ++ e ∷ [] })

-- the columns of an existing row against those of the call
abbrev pub same_call : Reservation → Key → Bool
same_call row key =
    text_eq row.request_id key.request_id
    && same_transition row.action key.action
    && text_eq row.actor_id key.actor_id

abbrev pub replayed : Option Reservation → Key → Result Error Bool
replayed none key = ok false
replayed (some row) key = if same_call row key then ok true else err approval_id_used

unfoldable pub is_idempotent_replay : Key → M Bool
is_idempotent_replay key db =
    (replayed (find_reservation key.approval_request_id db.reservations) key, db)

abbrev pub reservation : Key → ℕ → Reservation
reservation key now = record {
  approval_request_id = key.approval_request_id;
  request_id = key.request_id;
  action = key.action;
  actor_id = key.actor_id;
  created_at = now;
}

-- `INSERT ... ON CONFLICT DO NOTHING`, and the check of the row that was in the way
unfoldable pub reserve_idempotency : Key → ℕ → M Bool
reserve_idempotency key now db = elim (find_reservation key.approval_request_id db.reservations) [
  | none ↦ (ok true, record db { reservations = db.reservations ++ reservation key now ∷ [] })
  | some row ↦ (if same_call row key then ok false else err approval_id_used, db)
]

-- `WHERE request_id=? AND state='pending' AND state_version=?`
abbrev pub pending_at : Text → ℕ → Request → Bool
pending_at id version r =
    text_eq r.request_id id && is_pending r.state && (r.state_version == version)

-- an UPDATE that throws unless it changed one row
unfoldable pub update_one : Text → ℕ → (Request → Request) → M (Unit {0})
update_one id version f db =
    let db' = record db { requests = update_where (pending_at id version) f db.requests } in
    if count_if (pending_at id version) db.requests == 1
    then (ok tt, db')
    else (err transition_already_applied, db')

abbrev pub expired_row : ℕ → Request → Request
expired_row now r = record r {
  state = Status.expired;
  state_version = r.state_version + 1;
  updated_at = now;
}

abbrev pub approved_row : Text → Option Text → ℕ → Request → Request
approved_row actor signature now r = record r {
  state = Status.approved;
  approver_id = some actor;
  signature = signature;
  state_version = r.state_version + 1;
  updated_at = now;
}

abbrev pub canceled_row : Option Text → ℕ → Request → Request
canceled_row signature now r = record r {
  state = Status.canceled;
  signature = signature;
  state_version = r.state_version + 1;
  updated_at = now;
}

-- The input of `approve` and of `cancel`; `actor` is `approverId` or `actorId`.
pub record Call : Type 0 where
  pub approval_request_id : Text
  pub request_id : Text
  pub actor : Text
  pub expected_state_version : ℕ
  pub signature : Option Text
  pub now_ms : ℕ
  pub event_id : Text

abbrev pub call_key : Transition → Text → Call → Key
call_key action actor c = record {
  approval_request_id = c.approval_request_id;
  request_id = c.request_id;
  action = action;
  actor_id = actor;
}

abbrev pub call_event : Text → Status → Call → Event
call_event actor to c = record {
  event_id = c.event_id;
  request_id = c.request_id;
  from_state = some Status.pending;
  to_state = to;
  actor_id = actor;
  signature = c.signature;
  created_at = c.now_ms;
}

-- From the reservation of the call's id on: the same in each of the three transitions, but for the
-- row that it writes, the version that it asks for, and the state that it logs.
unfoldable pub commit : Key → Call → ℕ → (Request → Request) → Status → M Request
unfolding reserve_idempotency get_or_throw update_one insert_event
commit key c version f to = do
  reserved ← reserve_idempotency key c.now_ms
  if not reserved then get_or_throw c.request_id else do
    update_one c.request_id version f
    insert_event (call_event key.actor_id to c)
    get_or_throw c.request_id
