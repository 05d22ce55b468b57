-- ===== src/Approval/Dual/Outcomes.antt =====
-- What `approve` and `cancel` return and write, on every branch.
use memphis_v.Base.{
  ℕ, ◌≤◌, Text, text_eq, text_eq_iff, ◌≡◌, ◌≢◌, refl, true, Option, none, some, [], ◌∷◌, ◌++◌,
  arith, if◌then◌else◌, ◌==◌, leb, update_where, ok, err, Option-cases, Bool-cases, ◌&&◌, inl, inr,
  ◌⊎◌,
}
use memphis_v.Approval.Identity.{Platform}
use memphis_v.Approval.Tables.{
  Status, Transition, Request, Reservation, Db, is_pending, find, find_reservation, find_event,
}
use memphis_v.Approval.Rows.{IsKeyed, find-update, find-id, count-found}
use memphis_v.Approval.Writes.{
  Error, transition_already_applied, self_approval, approval_id_used, Key, Call, call_key,
  call_event, reservation, or_not_found, same_call, commit, pending_at, expired_row, approved_row,
  canceled_row,
}
use memphis_v.Approval.Dual.{identity, approve_tx, cancel_tx, approve, cancel}
use memphis_v.Approval.Dual.Invariant.{IsValid, by_pending}

-- the database after a transition, with its event and its reservation
abbrev pub after_transition : Key → Call → ℕ → (Request → Request) → Status → Db → Db
after_transition key c version f to db = record db {
  requests = update_where (pending_at c.request_id version) f db.requests;
  events = db.events ++ call_event key.actor_id to c ∷ [];
  reservations = db.reservations ++ reservation key c.now_ms ∷ [];
}

-- A transition of a pending row with the right version, under unused ids, is written and logged.
commit_lem :
    (key : Key) (c : Call) (version : ℕ) (f : Request → Request) (to : Status) (db : Db)
    (r : Request)
    → ((q : Request) → (f q).request_id ≡ q.request_id)
    → IsKeyed db.requests
    → find_reservation key.approval_request_id db.reservations ≡ none
    → find c.request_id db.requests ≡ some r
    → is_pending r.state ≡ true
    → r.state_version ≡ version
    → find_event c.event_id db.events ≡ none
    → commit key c version f to db ≡ (ok (f r), after_transition key c version f to db)
unfolding commit
commit_lem key c version f to db r same keyed unreserved found pending at unused =
    let p = pending_at c.request_id version in
    let hit : p r ≡ true =
      ground
        (arith, find-id c.request_id db.requests r found, text_eq_iff r.request_id c.request_id) in
    ground (
      arith,
      hit,
      count-found c.request_id p (by_pending c.request_id version) db.requests r keyed found,
      find-update p f same c.request_id db.requests,
    )

-- The row that a transition returns is the present one or the new one.
commit_row :
    (key : Key) (c : Call) (version : ℕ) (f : Request → Request) (to : Status) (db : Db)
    (r : Request)
    → ((q : Request) → (f q).request_id ≡ q.request_id)
    → find_reservation key.approval_request_id db.reservations ≡ none
    → find c.request_id db.requests ≡ some r
    → (q : Request) (db' : Db) → commit key c version f to db ≡ (ok q, db')
    → (q ≡ r) ⊎ (q ≡ f r)
unfolding commit
commit_row key c version f to db r same unreserved found q db' h =
    ground (arith, find-update (pending_at c.request_id version) f same c.request_id db.requests)

-- the error of an `approve` whose id is not yet reserved, if it has one
abbrev pub approve_refusal : Text → Call → Request → Option Error
approve_refusal actor c r =
    if is_pending r.state
    then if leb c.now_ms r.expires_at_ms
      then if text_eq r.initiator_id actor
        then some self_approval
        else if r.state_version == c.expected_state_version
        then none
        else some transition_already_applied
      else none
    else some transition_already_applied

-- the write that it makes otherwise: the new state, and the row
abbrev pub approve_target : Text → Call → Request → Status × (Request → Request)
approve_target actor c r =
    if leb c.now_ms r.expires_at_ms
    then (Status.approved, approved_row actor c.signature c.now_ms)
    else (Status.expired, expired_row c.now_ms)

module _ (p : Platform) (c : Call) (db : Db) (actor : Text) (r : Request)
    (known : identity p c.actor ≡ ok actor)
    (unreserved : find_reservation c.approval_request_id db.reservations ≡ none)
    (found : find c.request_id db.requests ≡ some r) where
  -- An `approve` by a known identity, under ids not used before, of a request that is there in a valid
  -- database, on every branch. It is refused,
  -- with the database unchanged, if the request is no longer pending; or, in time, if the initiator
  -- asks or the version is not the expected one. Otherwise it returns the new row and has written
  -- that row, one event and the reservation of its id: approved in the name of the second person in
  -- time, and expired after the deadline, whoever asks and whatever version is expected.
  pub approve_outcome :
      IsValid db
      → find_event c.event_id db.events ≡ none
      → approve p c db ≡ elim (approve_refusal actor c r) [
        | some e ↦ (err e, db)
        | none ↦ (
          ok ((approve_target actor c r).1 r),
          after_transition
              (call_key Transition.approve actor c)
              c
              r.state_version
              (approve_target actor c r).1
              (approve_target actor c r).0
              db,
        )
      ]
  unfolding approve approve_tx
  approve_outcome v unused = elim (Bool-cases (is_pending r.state)) [
    | inl pending ↦ elim (Bool-cases (leb c.now_ms r.expires_at_ms)) [
      | inl timely ↦ elim (Bool-cases (r.state_version == c.expected_state_version)) [
        | inl at ↦
            let e : r.state_version ≡ c.expected_state_version = ground arith in
            ground (
              arith,
              text_eq_iff r.initiator_id actor,
              commit_lem (call_key Transition.approve actor c) c r.state_version
                  (approved_row actor c.signature c.now_ms) Status.approved db r (λ q. refl) v.keyed
                  unreserved found pending refl unused,
            )
        | inr off ↦ ground arith
      ]
      | inr late ↦ ground (
        arith,
        commit_lem (call_key Transition.approve actor c) c r.state_version (expired_row c.now_ms)
            Status.expired db r (λ q. refl) v.keyed unreserved found pending refl unused,
      )
    ]
    | inr closed ↦ ground arith
  ]

  -- A `cancel` by a known identity, under ids not used before, of a request that is there in a valid
  -- database: it is refused, with the database
  -- unchanged, unless the request is pending at the expected version; then anybody may cancel it, at
  -- any time.
  pub cancel_outcome :
      IsValid db
      → find_event c.event_id db.events ≡ none
      → cancel p c db ≡ (
          if pending_at c.request_id c.expected_state_version r
          then (
            ok (canceled_row c.signature c.now_ms r),
            after_transition
                (call_key Transition.cancel actor c)
                c
                c.expected_state_version
                (canceled_row c.signature c.now_ms)
                Status.canceled
                db,
          )
          else (err transition_already_applied, db))
  unfolding cancel cancel_tx
  cancel_outcome v unused =
      elim (Bool-cases (is_pending r.state && (r.state_version == c.expected_state_version))) [
        | inl good ↦ ground (
          arith,
          find-id c.request_id db.requests r found,
          text_eq_iff r.request_id c.request_id,
          commit_lem (call_key Transition.cancel actor c) c c.expected_state_version
              (canceled_row c.signature c.now_ms) Status.canceled db r (λ q. refl) v.keyed
              unreserved found (ground arith) (ground arith) unused,
        )
        | inr bad ↦ ground arith
      ]

module _ (p : Platform) (c : Call) (db : Db) (actor : Text)
    (known : identity p c.actor ≡ ok actor) where
  -- A call whose id is reserved changes nothing. If the reservation is of the same request, transition
  -- and actor, it returns the present row of the request; if not, it is refused.
  pub approve_again :
      {row : Reservation}
      → find_reservation c.approval_request_id db.reservations ≡ some row
      → approve p c db ≡ (
        if same_call row (call_key Transition.approve actor c)
            then or_not_found (find c.request_id db.requests)
            else err approval_id_used,
        db,
      )
  unfolding approve approve_tx
  approve_again {row} reserved = ground arith

  -- The two-person rule, with no condition on the database: if an `approve` whose id is not yet
  -- reserved returns an approved row, then the request stood there pending, the call came in time and
  -- at its version, and the caller is not its initiator.
  pub two_person_rule :
      {q : Request} {db' : Db}
      → find_reservation c.approval_request_id db.reservations ≡ none
      → approve p c db ≡ (ok q, db')
      → q.state ≡ Status.approved
      → (r : Request) × (find c.request_id db.requests ≡ some r)
        × (is_pending r.state ≡ true)
        × (c.now_ms ≤ r.expires_at_ms)
        × (r.initiator_id ≢ actor)
        × (r.state_version ≡ c.expected_state_version)
  unfolding approve approve_tx
  two_person_rule {q} {db'} unreserved returned approved =
      elim (Option-cases (find c.request_id db.requests)) [
        | inl absent ↦ absurd (ground arith)
        | inr (r, found) ↦
            let late =
              commit_row (call_key Transition.approve actor c) c r.state_version
                (expired_row c.now_ms) Status.expired db r (λ x. refl) unreserved found in
            (
              r,
              found,
              ground (arith, late q db'),
              ground (arith, late q db'),
              ground (arith, late q db', text_eq_iff r.initiator_id actor),
              ground (arith, late q db'),
            )
      ]
