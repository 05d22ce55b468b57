-- ===== src/Approval/Tables.antt =====
-- The three tables of infra/storage/sqlite/repositories/dual-approval-repository.ts, with the
-- schema of infra/storage/sqlite/client.ts. An ISO timestamp stands by its instant in milliseconds.
use memphis_v.Base.{
  ℕ, Text, text_eq, Bool, true, false, Option, none, some, List, [], ◌∷◌, if◌then◌else◌,
}

pub data Action : Type 0 where
  freeze unfreeze : Action

-- `DualApprovalState`
pub data Status : Type 0 where
  pending approved expired canceled : Status

-- `DualApprovalTransitionAction`
pub data Transition : Type 0 where
  approve cancel : Transition

pub record Request : Type 0 where
  pub request_id : Text
  pub action : Action
  pub state : Status
  pub initiator_id : Text
  pub approver_id : Option Text
  pub reason : Option Text
  pub signature : Option Text
  pub expires_at_ms : ℕ
  pub state_version : ℕ
  pub created_at : ℕ
  pub updated_at : ℕ

pub record Event : Type 0 where
  pub event_id : Text
  pub request_id : Text
  pub from_state : Option Status
  pub to_state : Status
  pub actor_id : Text
  pub signature : Option Text
  pub created_at : ℕ

pub record Reservation : Type 0 where
  pub approval_request_id : Text
  pub request_id : Text
  pub action : Transition
  pub actor_id : Text
  pub created_at : ℕ

pub record Db : Type 0 where
  pub requests : List Request
  pub events : List Event
  pub reservations : List Reservation

abbrev pub empty : Db
empty = record { requests = []; events = []; reservations = [] }

abbrev pub is_pending : Status → Bool
is_pending pending = true
is_pending _ = false

abbrev pub same_status : Status → Status → Bool
same_status pending pending = true
same_status approved approved = true
same_status expired expired = true
same_status canceled canceled = true
same_status _ _ = false

abbrev pub same_transition : Transition → Transition → Bool
same_transition approve approve = true
same_transition cancel cancel = true
same_transition _ _ = false

-- `SELECT ... WHERE request_id = ?`
unfoldable pub find : Text → List Request → Option Request
find id [] = none
find id (r ∷ rs) = if text_eq r.request_id id then some r else find id rs

-- `SELECT ... WHERE approval_request_id = ?`
unfoldable pub find_reservation : Text → List Reservation → Option Reservation
find_reservation id [] = none
find_reservation id (r ∷ rs) =
    if text_eq r.approval_request_id id then some r else find_reservation id rs

-- the primary key of `dual_approval_events`
unfoldable pub find_event : Text → List Event → Option Event
find_event id [] = none
find_event id (e ∷ es) = if text_eq e.event_id id then some e else find_event id es
