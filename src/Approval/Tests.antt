-- ===== src/Approval/Tests.antt =====
-- Runs of the two approval repositories on small databases.
use memphis_v.Base.{
  ℕ, ◌≤◌, ◌≡◌, ◌≢◌, refl, Text, codes, true, none, some, List, [], ◌∷◌, ◌++◌, ok, ap,
}
use memphis_v.Base.Texts.{text_eq}
use memphis_v.Approval.Identity.{Platform, normalize_identity, trim, is_space, is_uuid}
use memphis_v.Approval.Tables
use memphis_v.Approval.Tables.{
  Action, Request, Db, empty, find, find_reservation, find_event, is_pending,
}
use memphis_v.Approval.Writes.{
  Call, approved_row, canceled_row, expired_row, insert_event, call_key,
}
use memphis_v.Approval.Dual.{
  approve, cancel, create_request, expire_pending, Creation, identity, insert_request, created_row,
  created_event,
}
use memphis_v.Approval.Dual.Invariant.{IsValid}
use memphis_v.Approval.Dual.Runs
use memphis_v.Approval.Dual.Runs.{
  run, perform, run-IsValid, closed_is_final, create_op, approve_op, cancel_op, expire_op,
}
use memphis_v.Approval.Dual.Outcomes.{
  approve_outcome, cancel_outcome, two_person_rule, approve_again, after_transition,
}
use memphis_v.Approval.Dual.Expiry.{IsFresh, expire_pending-update}
use memphis_v.Approval.Dual.Trail.{LoggedAt}
use memphis_v.Approval.Dual.History.{run-LoggedAt}

abbrev platform : Platform
platform = record { to_lower_case = λ s. s; sha256_hex = λ s. codes "sha256:" ++ s }

abbrev alice : Text
alice = codes "sha256:alice"

abbrev bob : Text
bob = codes "sha256:bob"

abbrev proposal : Creation
proposal = record {
  action = Action.freeze;
  initiator = codes "alice";
  ttl_ms = none;
  reason = none;
  signature = none;
  now_ms = 1000;
  request_id = codes "r1";
  event_id = codes "e1";
}

abbrev by_bob : Call
by_bob = record {
  approval_request_id = codes "a1";
  request_id = codes "r1";
  actor = codes "bob";
  expected_state_version = 0;
  signature = none;
  now_ms = 2000;
  event_id = codes "e2";
}

abbrev open_row : Request
open_row = created_row alice proposal

abbrev open_db : Db
open_db = record {
  requests = open_row ∷ [];
  events = created_event alice proposal ∷ [];
  reservations = [];
}

bob_known : identity platform (codes "bob") ≡ ok bob
unfolding normalize_identity trim is_space is_uuid
bob_known = refl

r1_found : find (codes "r1") open_db.requests ≡ some open_row
unfolding find text_eq
r1_found = refl

open_db-run : run platform (create_op proposal ∷ []) empty ≡ open_db
unfolding run perform create_request normalize_identity trim is_space is_uuid insert_request
    insert_event find text_eq find_event
open_db-run = refl

open_db-IsValid : IsValid open_db
open_db-IsValid = rw (← open_db-run) (run-IsValid platform (create_op proposal ∷ []))

abbrev after_bob : Db
after_bob =
    after_transition (call_key Tables.approve bob by_bob) by_bob 0 (approved_row bob none 2000)
      Tables.approved open_db

abbrev approved_r1 : Request
approved_r1 = approved_row bob none 2000 open_row

e2_unused : find_event (codes "e2") open_db.events ≡ none
unfolding find_event text_eq
e2_unused = refl

approve_outcome_example : approve platform by_bob open_db ≡ (ok approved_r1, after_bob)
unfolding text_eq find_reservation
approve_outcome_example =
    approve_outcome platform by_bob open_db bob open_row bob_known refl r1_found open_db-IsValid
      e2_unused

cancel_outcome_example : cancel platform by_bob open_db ≡ (
  ok (canceled_row none 2000 open_row),
  after_transition
      (call_key Tables.cancel bob by_bob)
      by_bob
      0
      (canceled_row none 2000)
      Tables.canceled
      open_db,
)
unfolding text_eq find_reservation
cancel_outcome_example =
    cancel_outcome platform by_bob open_db bob open_row bob_known refl r1_found open_db-IsValid
      e2_unused

two_person_rule_example :
    (r : Request) × (find (codes "r1") open_db.requests ≡ some r)
    × (is_pending r.state ≡ true)
    × (2000 ≤ r.expires_at_ms)
    × (r.initiator_id ≢ bob)
    × (r.state_version ≡ 0)
unfolding find_reservation
two_person_rule_example =
    two_person_rule platform by_bob open_db bob bob_known {q = approved_r1} {db' = after_bob} refl
      approve_outcome_example refl

abbrev a1_row : Tables.Reservation
a1_row = record {
  approval_request_id = codes "a1";
  request_id = codes "r1";
  action = Tables.approve;
  actor_id = bob;
  created_at = 2000;
}

a1_reserved : find_reservation (codes "a1") after_bob.reservations ≡ some a1_row
unfolding find_reservation text_eq
a1_reserved = refl

approve_again_example : approve platform by_bob after_bob ≡ (ok approved_r1, after_bob)
unfolding text_eq find
approve_again_example =
    approve_again platform by_bob after_bob bob bob_known {row = a1_row} a1_reserved

e1_unused : find_event (codes "e1") [] ≡ none
unfolding find_event
e1_unused = refl

abbrev lone_calls : List Runs.Op
lone_calls = create_op proposal ∷ approve_op by_bob ∷ cancel_op by_bob ∷ []

run-IsValid_example : IsValid (run platform lone_calls empty)
run-IsValid_example = run-IsValid platform lone_calls

approved_found : find (codes "r1") after_bob.requests ≡ some approved_r1
unfolding find text_eq
approved_found = refl

closed_is_final_example :
    find (codes "r1") (run platform lone_calls after_bob).requests ≡ some approved_r1
closed_is_final_example =
    closed_is_final (codes "r1") approved_r1 refl platform lone_calls after_bob approved_found

run-LoggedAt_example :
    LoggedAt
      (codes "r1")
      (run platform lone_calls empty).requests
      (run platform lone_calls empty).events
run-LoggedAt_example = run-LoggedAt platform lone_calls (codes "r1") (e1_unused, (tt, (tt, tt)))

abbrev drawn : ℕ → Text
drawn n = codes "x" ++ n ∷ []

drawn_unused : (i : ℕ) → find_event (drawn i) open_db.events ≡ none
unfolding find_event text_eq
drawn_unused i = refl

second_code : (i j : ℕ) → drawn i ≡ drawn j → i ≡ j
second_code i j e = ap (λ l. elim l [ _ ∷ c ∷ _ ↦ c | _ ↦ 0 ]) e

drawn-IsFresh : IsFresh drawn open_db.events 0
drawn-IsFresh = record { unused = λ i le. drawn_unused i; injective = λ i j e. second_code i j e }

expire_pending-update_example :
    (db' : Db) × (expire_pending drawn 10000000 open_db ≡ (ok 1, db'))
    × (db'.requests ≡ expired_row 10000000 open_row ∷ [])
expire_pending-update_example =
    expire_pending-update drawn 10000000 open_db open_db-IsValid drawn-IsFresh
