-- ===== src/Approval/Dual/History.antt =====
-- The event log of the repository after any calls.
use memphis_v.Base.{
  ℕ, ◌+◌, Text, text_eq_iff, ◌≡◌, refl, true, false, none, List, [], ◌∷◌, ◌++◌, arith, ◌==◌,
  count_if, select, update_where, ok, Option-cases, Bool-cases, inl, inr,
}
use memphis_v.Approval.Identity.{Platform}
use memphis_v.Approval.Tables.{Request, Db, empty, find, find_event}
use memphis_v.Approval.Rows.{
  IsKeyed, IsKeyed-update, find-update, find-id, count-found, count-absent,
}
use memphis_v.Approval.Writes.{expired_row}
use memphis_v.Approval.Dual.{expire_rows, expire_pending, pending_with, is_overdue, expiry_event}
use memphis_v.Approval.Dual.Invariant.{IsValid, empty-IsValid}
use memphis_v.Approval.Dual.Runs.{
  Op, create_op, approve_op, cancel_op, expire_op, perform, run, perform-IsValid,
}
use memphis_v.Approval.Dual.Trail.{
  LoggedAt, Logged, step-LoggedAt, transaction-commits, approve-Logged, cancel-Logged,
  create_request-Logged,
}

by_id : (id : Text) (r : Request) → pending_with id r ≡ true → r.request_id ≡ id
by_id id r h = ground (arith, text_eq_iff r.request_id id)

-- An UPDATE that changes no row leaves every lookup as it was.
update_missed :
    (now : ℕ) (rid id : Text) (rs : List Request)
    → IsKeyed rs
    → (count_if (pending_with rid) rs == 1) ≡ false
    → find id (update_where (pending_with rid) (expired_row now) rs) ≡ find id rs
update_missed now rid id rs k none_hit = elim (Option-cases (find id rs)) [
  | inl absent ↦ ground (arith, find-update (pending_with rid) (expired_row now) (λ r. refl) id rs)
  | inr (r, found) ↦ ground (
    arith,
    find-update (pending_with rid) (expired_row now) (λ r. refl) id rs,
    find-id id rs r found,
    text_eq_iff r.request_id rid,
    count-found rid (pending_with rid) (by_id rid) rs r k,
  )
]

module _ (id : Text) (now : ℕ) (fresh : ℕ → Text) (row : Request) (n : ℕ) (db : Db)
    (k : IsKeyed db.requests) (l : Logged id db) where
  abbrev requests : List Request
  requests = update_where (pending_with row.request_id) (expired_row now) db.requests

  missed-Logged :
      (count_if (pending_with row.request_id) db.requests == 1) ≡ false
      → LoggedAt id requests db.events
  missed-Logged miss =
      let e = update_missed now row.request_id id db.requests k miss in
      record { counted = rw e l.counted; agrees = rw e l.agrees }

  hit-Logged :
      (count_if (pending_with row.request_id) db.requests == 1) ≡ true
      → LoggedAt id requests (db.events ++ expiry_event (fresh n) now row.request_id ∷ [])
  hit-Logged hit = elim (Option-cases (find row.request_id db.requests)) [
    | inl absent ↦ absurd (
        ground (
          arith,
          count-absent row.request_id (pending_with row.request_id) (by_id row.request_id)
              db.requests absent,
        ))
    | inr (r, found) ↦
        step-LoggedAt id row.request_id (pending_with row.request_id) (expired_row now)
          (expiry_event (fresh n) now row.request_id) db.requests db.events r (by_id row.request_id)
          (λ q. refl) found
          (ground (
            arith,
            count-found row.request_id (pending_with row.request_id) (by_id row.request_id)
                db.requests r k found,
          ))
          refl refl refl l
  ]

expire_rows-Logged :
    (id : Text) (now : ℕ) (fresh : ℕ → Text) (rows : List Request) (n : ℕ) (db : Db)
    → IsKeyed db.requests
    → Logged id db
    → (m : ℕ) (db' : Db) → expire_rows now fresh rows n db ≡ (ok m, db')
    → Logged id db'
unfolding expire_rows
expire_rows-Logged id now fresh [] n db k l m db' h = let e : db' ≡ db = ground arith in rw e l
expire_rows-Logged id now fresh (row ∷ rows) n db k l m db' h =
    let keyed =
      IsKeyed-update (pending_with row.request_id) (expired_row now) (λ r. refl) db.requests k in
    let skipped : Db = record db { requests = requests id now fresh row n db k l } in
    let logged : Db = record skipped {
      events = db.events ++ expiry_event (fresh n) now row.request_id ∷ [];
    } in
    elim (Bool-cases (count_if (pending_with row.request_id) db.requests == 1)) [
      | inl hit ↦
          expire_rows-Logged id now fresh rows (n + 1) logged keyed
            (hit-Logged id now fresh row n db k l hit) m db' (ground arith)
      | inr miss ↦
          expire_rows-Logged id now fresh rows n skipped keyed
            (missed-Logged id now fresh row n db k l miss) m db' (ground arith)
    ]

-- A request's first event is under an id that no event has; the other events are written in
-- transactions, where a clash rolls the call back.
abbrev pub FirstEventIsNew : Op → Db → Type 0
FirstEventIsNew (create_op c) db = find_event c.event_id db.events ≡ none
FirstEventIsNew op db = Unit

abbrev pub FirstEventsAreNew : Platform → List Op → Db → Type 0
FirstEventsAreNew p [] db = Unit
FirstEventsAreNew p (op ∷ ops) db =
    FirstEventIsNew op db × FirstEventsAreNew p ops (perform p op db)

perform-Logged :
    (id : Text) (p : Platform) (op : Op) (db : Db)
    → IsValid db
    → FirstEventIsNew op db
    → Logged id db
    → Logged id (perform p op db)
unfolding perform expire_pending
perform-Logged id p (create_op c) db v f l = create_request-Logged id db v l p c f
perform-Logged id p (approve_op c) db v f l = approve-Logged id db v l p c
perform-Logged id p (cancel_op c) db v f l = cancel-Logged id db v l p c
perform-Logged id p (expire_op fresh now) db v f l =
    transaction-commits (Logged id) (expire_rows now fresh (select (is_overdue now) db.requests) 0)
      db l (expire_rows-Logged id now fresh (select (is_overdue now) db.requests) 0 db v.keyed l)

run-keeps-Logged :
    (id : Text) (p : Platform) (ops : List Op) (db : Db)
    → IsValid db
    → FirstEventsAreNew p ops db
    → Logged id db
    → Logged id (run p ops db)
unfolding run
run-keeps-Logged id p [] db v f l = l
run-keeps-Logged id p (op ∷ ops) db v f l =
    run-keeps-Logged id p ops (perform p op db) (perform-IsValid p op db v) f.1
      (perform-Logged id p op db v f.0 l)

-- From an empty database, after any calls, failing or not, in which the first event of each request has
-- an id that no event has: a request has one event more than its version says, an id with no request
-- has no event, and the state of a request is the one that its last event says.
pub run-LoggedAt :
    (p : Platform) (ops : List Op) (id : Text)
    → FirstEventsAreNew p ops empty
    → LoggedAt id (run p ops empty).requests (run p ops empty).events
unfolding find
run-LoggedAt p ops id f =
    run-keeps-Logged id p ops empty empty-IsValid f (record { counted = refl; agrees = refl })
