-- ===== src/Approval/Dual/Runs.antt =====
-- Any sequence of calls of the dual-approval repository, failing or not.
use memphis_v.Base.{
  ℕ, ◌+◌, Text, ◌≡◌, refl, Bool, false, some, List, [], ◌∷◌, ◌++◌, arith, select, update_where, ok,
  err, Option-cases, inl, inr, lift, transaction, ◌>>=◌,
}
use memphis_v.Approval.Identity.{Platform}
use memphis_v.Approval.Tables.{Status, Transition, Request, Event, Db, empty, is_pending, find}
use memphis_v.Approval.Rows.{All-update_where, find-update, find-append_old}
use memphis_v.Approval.Writes.{
  M, Key, Call, call_key, commit, pending_at, expired_row, approved_row, canceled_row,
}
use memphis_v.Approval.Dual.{
  Creation, create_as, identity, approve_tx, cancel_tx, approve, cancel, create_request,
  created_row, insert_request, expire_rows, expire_pending, pending_with, is_overdue, expiry_event,
}
use memphis_v.Approval.Dual.Invariant.{
  IsValid, RowValid, empty-IsValid, with_requests, commit_requests, approve_tx-IsValid,
  cancel_tx-IsValid, create_request-IsValid,
}

pub data Op : Type 0 where
  create_op : Creation → Op
  approve_op : Call → Op
  cancel_op : Call → Op
  expire_op : (ℕ → Text) → ℕ → Op

-- A caller sees an error and goes on: what is left of a call is the database.
unfoldable pub perform : Platform → Op → Db → Db
perform p (create_op c) db = (create_request p c db).1
perform p (approve_op c) db = (approve p c db).1
perform p (cancel_op c) db = (cancel p c db).1
perform p (expire_op fresh now) db = (expire_pending fresh now db).1

unfoldable pub run : Platform → List Op → Db → Db
run p [] db = db
run p (op ∷ ops) db = run p ops (perform p op db)

module _ (P : Db → Type 0) {A : Type 0} (m : M A) (db : Db) where
  pub transaction-keeps : P db → P (m db).1 → P (transaction m db).1
  transaction-keeps h k = ground arith

-- What one write of the loop keeps, and what does not depend on the events, the loop keeps.
module _ (P : Db → Type 0) (now : ℕ)
    (write : (id : Text) (db : Db)
      → P db
      → P (record db { requests = update_where (pending_with id) (expired_row now) db.requests }))
    (log : (es : List Event) (db : Db) → P db → P (record db { events = es })) where
  expire_rows-keeps :
      (fresh : ℕ → Text) (rows : List Request) (n : ℕ) (db : Db)
      → P db
      → P (expire_rows now fresh rows n db).1
  unfolding expire_rows
  expire_rows-keeps fresh [] n db h = h
  expire_rows-keeps fresh (row ∷ rows) n db h =
      let requests = update_where (pending_with row.request_id) (expired_row now) db.requests in
      let skipped : Db = record db { requests = requests } in
      let events = db.events ++ expiry_event (fresh n) now row.request_id ∷ [] in
      let logged : Db = record skipped { events = events } in
      let written = write row.request_id db h in
      ground (
        arith,
        written,
        expire_rows-keeps fresh rows n skipped written,
        expire_rows-keeps fresh rows (n + 1) logged (log events skipped written),
      )

  expire_pending-keeps : (fresh : ℕ → Text) (db : Db) → P db → P (expire_pending fresh now db).1
  unfolding expire_pending
  expire_pending-keeps fresh db h =
      transaction-keeps P (expire_rows now fresh (select (is_overdue now) db.requests) 0) db h
        (expire_rows-keeps fresh (select (is_overdue now) db.requests) 0 db h)

-- What the bodies of the two transactions keep, the methods keep.
module _ (P : Db → Type 0) (p : Platform) (c : Call) (db : Db) (h : P db) where
  approve-keeps : ((actor : Text) → P (approve_tx actor c db).1) → P (approve p c db).1
  unfolding approve
  approve-keeps body =
      elim (identity p c.actor)
        as (λ x. P ((lift x >>= λ actor. transaction (approve_tx actor c)) db).1) [
          | ok actor ↦ transaction-keeps P (approve_tx actor c) db h (body actor)
          | err e ↦ h
        ]

  cancel-keeps : ((actor : Text) → P (cancel_tx actor c db).1) → P (cancel p c db).1
  unfolding cancel
  cancel-keeps body =
      elim (identity p c.actor)
        as (λ x. P ((lift x >>= λ actor. transaction (cancel_tx actor c)) db).1) [
          | ok actor ↦ transaction-keeps P (cancel_tx actor c) db h (body actor)
          | err e ↦ h
        ]

write-IsValid :
    (now : ℕ) (id : Text) (db : Db)
    → IsValid db
    → IsValid
        (record db { requests = update_where (pending_with id) (expired_row now) db.requests })
write-IsValid now id db v =
    with_requests db (expired_row now) (pending_with id) (λ r. refl)
      (All-update_where RowValid (pending_with id) (expired_row now) db.requests
        (λ r p h. ground arith) v.rows)
      v (record db { requests = update_where (pending_with id) (expired_row now) db.requests }) refl

pub perform-IsValid : (p : Platform) (op : Op) (db : Db) → IsValid db → IsValid (perform p op db)
unfolding perform
perform-IsValid p (create_op c) db v = create_request-IsValid db v p c
perform-IsValid p (approve_op c) db v =
    approve-keeps IsValid p c db v (λ actor. approve_tx-IsValid db v actor c)
perform-IsValid p (cancel_op c) db v =
    cancel-keeps IsValid p c db v (λ actor. cancel_tx-IsValid db v actor c)
perform-IsValid p (expire_op fresh now) db v =
    expire_pending-keeps IsValid now (write-IsValid now)
      (λ es db' v'. record { keyed = v'.keyed; rows = v'.rows }) fresh db v

run-keeps-IsValid : (p : Platform) (ops : List Op) (db : Db) → IsValid db → IsValid (run p ops db)
unfolding run
run-keeps-IsValid p [] db v = v
run-keeps-IsValid p (op ∷ ops) db v =
    run-keeps-IsValid p ops (perform p op db) (perform-IsValid p op db v)

-- From an empty database, after any calls with any inputs and at any times, no two requests have one
-- id; no request is approved by its initiator; a request has an approver exactly if it is approved;
-- and its version is 0 while it is pending and 1 afterwards.
pub run-IsValid : (p : Platform) (ops : List Op) → IsValid (run p ops empty)
run-IsValid p ops = run-keeps-IsValid p ops empty empty-IsValid

module _ (id : Text) (r : Request) (closed : is_pending r.state ≡ false) where
  abbrev Holds : Db → Type 0
  Holds db = find id db.requests ≡ some r

  update-Holds :
      (p : Request → Bool) (f : Request → Request) (rs : List Request)
      → ((q : Request) → (f q).request_id ≡ q.request_id)
      → p r ≡ false
      → find id rs ≡ some r
      → find id (update_where p f rs) ≡ some r
  update-Holds p f rs same miss h = ground (arith, find-update p f same id rs)

  commit-Holds :
      (key : Key) (c : Call) (version : ℕ) (f : Request → Request) (to : Status) (db : Db)
      → ((q : Request) → (f q).request_id ≡ q.request_id)
      → Holds db
      → Holds (commit key c version f to db).1
  commit-Holds key c version f to db same h = elim (commit_requests key c version f to db) [
    | inl e ↦ rw e h
    | inr e ↦
        rw e (update-Holds (pending_at c.request_id version) f db.requests same (ground arith) h)
  ]

  approve_tx-Holds :
      (actor : Text) (c : Call) (db : Db) → Holds db → Holds (approve_tx actor c db).1
  unfolding approve_tx
  approve_tx-Holds actor c db h = elim (Option-cases (find c.request_id db.requests)) [
    | inl absent ↦ ground arith
    | inr (q, found) ↦
        let key = call_key Transition.approve actor c in
        ground (
          arith,
          commit-Holds key c q.state_version (expired_row c.now_ms) Status.expired db (λ x. refl) h,
          commit-Holds key c c.expected_state_version (approved_row actor c.signature c.now_ms)
              Status.approved db (λ x. refl) h,
        )
  ]

  cancel_tx-Holds : (actor : Text) (c : Call) (db : Db) → Holds db → Holds (cancel_tx actor c db).1
  unfolding cancel_tx
  cancel_tx-Holds actor c db h = elim (Option-cases (find c.request_id db.requests)) [
    | inl absent ↦ ground arith
    | inr (q, found) ↦ ground (
      arith,
      commit-Holds (call_key Transition.cancel actor c) c c.expected_state_version
          (canceled_row c.signature c.now_ms) Status.canceled db (λ x. refl) h,
    )
  ]

  create_request-Holds :
      (p : Platform) (c : Creation) (db : Db) → Holds db → Holds (create_request p c db).1
  unfolding create_request insert_request
  create_request-Holds p c db h =
      elim (identity p c.initiator) as (λ x. Holds ((lift x >>= create_as c) db).1) [
        | ok initiator ↦
            ground (arith, find-append_old id db.requests (created_row initiator c) r h)
        | err e ↦ h
      ]

  perform-Holds : (p : Platform) (op : Op) (db : Db) → Holds db → Holds (perform p op db)
  unfolding perform
  perform-Holds p (create_op c) db h = create_request-Holds p c db h
  perform-Holds p (approve_op c) db h =
      approve-keeps Holds p c db h (λ actor. approve_tx-Holds actor c db h)
  perform-Holds p (cancel_op c) db h =
      cancel-keeps Holds p c db h (λ actor. cancel_tx-Holds actor c db h)
  perform-Holds p (expire_op fresh now) db h =
      expire_pending-keeps Holds now
        (λ other db' h'.
          update-Holds (pending_with other) (expired_row now) db'.requests (λ q. refl)
            (ground arith) h')
        (λ es db' h'. h') fresh db h

  -- A request that is approved, expired or canceled is final: after any further calls, of any kind
  -- and at any times, the row of its id is the same row, in every column.
  pub closed_is_final :
      (p : Platform) (ops : List Op) (db : Db)
      → find id db.requests ≡ some r
      → find id (run p ops db).requests ≡ some r
  unfolding run
  closed_is_final p [] db h = h
  closed_is_final p (op ∷ ops) db h =
      closed_is_final p ops (perform p op db) (perform-Holds p op db h)
