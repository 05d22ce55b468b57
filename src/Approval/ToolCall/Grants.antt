-- ===== src/Approval/ToolCall/Grants.antt =====
-- Where an approved tool call comes from.
use memphis_v.Base.{
  ℕ, ◌<◌, Text, text_eq, text_eq_iff, ◌≡◌, refl, Bool, true, false, some, List, [], ◌∷◌, arith,
  if◌then◌else◌, ◌&&◌, ltb, leb, update_where, Option-cases, Bool-cases, inl, inr, ◌⊎◌, ◌||◌,
}
use memphis_v.Approval.ToolCall.{
  Status, approved, denied, expired, used, is_pending, is_approved, Approval, Db, Creation, get,
  create_request, created_row, with_id, moved, approve, deny, mark_used, find_approved,
  expire_pending, is_overdue,
}
use memphis_v.Approval.ToolCall.Runs.{
  Op, create_op, approve_op, deny_op, mark_used_op, expire_op, perform, run, get-id, get-update,
  get-append, approve-db, approve-absent, deny-db, deny-absent,
}
use memphis_v.Approval.ToolCall.Keys.{run-IsKeyed, find_approved-get}

-- an `approve` of the request, no later than the deadline
abbrev pub approves : Text → ℕ → Op → Bool
approves id deadline (approve_op rid now) = text_eq rid id && leb now deadline
approves id deadline op = false

abbrev pub any_approves : Text → ℕ → List Op → Bool
any_approves id deadline [] = false
any_approves id deadline (op ∷ ops) = approves id deadline op || any_approves id deadline ops

-- an approved row of the request, with the deadline
abbrev Stands : Text → ℕ → Db → Type 0
Stands id deadline db =
    (r : Approval) × (get id db ≡ some r) × (r.state ≡ approved) × (r.expires_at_ms ≡ deadline)

updated-Stands :
    (p : Approval → Bool) (s : Status) (now : ℕ) (id : Text) (deadline : ℕ) (db : Db)
    → is_approved s ≡ false
    → Stands id deadline (update_where p (moved s now) db)
    → Stands id deadline db
updated-Stands p s now id deadline db other (r, found, state, expires) =
    elim (Option-cases (get id db)) [
      | inl absent ↦ absurd (ground (arith, get-update p s now id db))
      | inr (q, found') ↦ (
        q,
        found',
        ground (arith, get-update p s now id db),
        ground (arith, get-update p s now id db),
      )
    ]

created-Stands :
    (c : Creation) (id : Text) (deadline : ℕ) (db : Db)
    → Stands id deadline (create_request c db).1
    → Stands id deadline db
unfolding create_request
created-Stands c id deadline db (r, found, state, expires) = elim (Option-cases (get id db)) [
  | inl absent ↦ absurd (ground (arith, get-append id db (created_row c)))
  | inr (q, found') ↦ (
    q,
    found',
    ground (arith, get-append id db (created_row c)),
    ground (arith, get-append id db (created_row c)),
  )
]

denied-Stands :
    (rid : Text) (now : ℕ) (id : Text) (deadline : ℕ) (db : Db)
    → Stands id deadline (deny rid now db).1
    → Stands id deadline db
denied-Stands rid now id deadline db h = elim (Option-cases (get rid db)) [
  | inl absent ↦ rw (deny-absent rid now db absent) at h
  | inr (q, found) ↦ denied_if (is_pending q.state) (rw (deny-db rid now db q found) at h)
]
  where
    denied_if :
        (b : Bool)
        → Stands id deadline (if b then update_where (with_id rid) (moved denied now) db else db)
        → Stands id deadline db
    denied_if true h' = updated-Stands (with_id rid) denied now id deadline db refl h'
    denied_if false h' = h'

approved-Stands :
    (rid : Text) (now : ℕ) (id : Text) (deadline : ℕ) (db : Db)
    → Stands id deadline (approve rid now db).1
    → Stands id deadline db ⊎ (approves id deadline (approve_op rid now) ≡ true)
approved-Stands rid now id deadline db (r, found, state, expires) =
    elim (Option-cases (get rid db)) [
      | inl absent ↦ inl (rw (approve-absent rid now db absent) at (pack found))
      | inr (q, read) ↦ elim (Option-cases (get id db)) [
        | inl absent ↦ absurd (
            ground (
              arith,
              approve-db rid now db q read,
              get-update (with_id rid) (if ltb q.expires_at_ms now then expired else approved) now
                  id db,
            ))
        | inr (x, here) ↦ elim (Bool-cases (is_approved x.state)) [
          | inl old ↦ inl (
            x,
            here,
            ground arith,
            ground (
              arith,
              approve-db rid now db q read,
              get-update (with_id rid) (if ltb q.expires_at_ms now then expired else approved) now
                  id db,
            ),
          )
          | inr new ↦ inr (
              ground (
                arith,
                approve-db rid now db q read,
                get-update (with_id rid) (if ltb q.expires_at_ms now then expired else approved) now
                    id db,
                get-id id db x here,
                get-id rid db q read,
                text_eq_iff x.request_id rid,
                text_eq_iff rid id,
              ))
        ]
      ]
    ]
  where
    pack : get id (approve rid now db).1 ≡ some r → Stands id deadline (approve rid now db).1
    pack f = (r, f, state, expires)

perform-Stands :
    (op : Op) (id : Text) (deadline : ℕ) (db : Db)
    → Stands id deadline (perform op db)
    → Stands id deadline db ⊎ (approves id deadline op ≡ true)
unfolding perform mark_used expire_pending
perform-Stands (create_op c) id deadline db h = inl (created-Stands c id deadline db h)
perform-Stands (approve_op rid now) id deadline db h = approved-Stands rid now id deadline db h
perform-Stands (deny_op rid now) id deadline db h = inl (denied-Stands rid now id deadline db h)
perform-Stands (mark_used_op rid now) id deadline db h =
    inl (updated-Stands (with_id rid) used now id deadline db refl h)
perform-Stands (expire_op now) id deadline db h =
    inl (updated-Stands (is_overdue now) expired now id deadline db refl h)

run-Stands :
    (ops : List Op) (id : Text) (deadline : ℕ) (db : Db)
    → Stands id deadline (run ops db)
    → Stands id deadline db ⊎ (any_approves id deadline ops ≡ true)
unfolding run
run-Stands [] id deadline db h = inl h
run-Stands (op ∷ ops) id deadline db h = elim (run-Stands ops id deadline (perform op db) h) [
  | inl before ↦ elim (perform-Stands op id deadline db before) [
    | inl old ↦ inl old
    | inr now ↦ inr (ground arith)
  ]
  | inr later ↦ inr (ground arith)
]

-- From an empty table, whatever the calls: if `findApproved` finds a request, then one of the calls was
-- an `approve` of it no later than its deadline, and the deadline is still to come.
pub found_was_approved :
    (id : Text) (ops : List Op) (now : ℕ) {r : Approval}
    → find_approved id now (run ops []) ≡ some r
    → (any_approves id r.expires_at_ms ops ≡ true) × (now < r.expires_at_ms)
unfolding get
found_was_approved id ops now {r} h =
    let (found, state, early) = find_approved-get id now (run ops []) r (run-IsKeyed ops [] tt) h in
    elim (run-Stands ops id r.expires_at_ms [] (r, found, state, refl)) [
      | inl (q, none_yet, _, _) ↦ cc
      | inr asked ↦ (asked, early)
    ]
