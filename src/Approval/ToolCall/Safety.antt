-- ===== src/Approval/ToolCall/Safety.antt =====
-- When a tool call may run on an approval: `findApproved` over any sequence of calls.
use memphis_v.Base.{
  ℕ, ◌≤◌, Text, text_eq_iff, ◌≡◌, ◌≢◌, refl, Bool, true, false, Option, none, some, List, [], ◌∷◌,
  arith, update_where, ok, Option-cases, inl, inr,
}
use memphis_v.Approval.ToolCall.{
  Status, pending, approved, Approval, Db, get, with_id, moved, approve, find_approved,
}
use memphis_v.Approval.ToolCall.Runs.{
  Op, approve_op, perform, run, IsKeyed, get-id, get-update, state_of, perform-moves, ◌⟶◌, stay,
  open_new, grant, refuse, lapse, spend,
}
use memphis_v.Approval.ToolCall.Keys.{run-IsKeyed, perform-IsKeyed, find_approved-get}

-- used, denied and expired
abbrev pub is_closed : Status → Bool
is_closed pending = false
is_closed approved = false
is_closed _ = true

closed_state : Option Status → Bool
closed_state none = false
closed_state (some s) = is_closed s

closed_after : {s t : Option Status} → s ⟶ t → closed_state s ≡ true → closed_state t ≡ true
unfolding closed_state
closed_after stay h = h
closed_after open_new h = cc
closed_after grant h = cc
closed_after refuse h = cc
closed_after lapse h = cc
closed_after spend h = refl

run-closed :
    (ops : List Op) (id : Text) (db : Db)
    → closed_state (state_of id db) ≡ true
    → closed_state (state_of id (run ops db)) ≡ true
unfolding run
run-closed [] id db h = h
run-closed (op ∷ ops) id db h =
    run-closed ops id (perform op db) (closed_after (perform-moves op id db) h)

pub closed-ne-approved :
    (id : Text) (db : Db) (r : Approval) (ops : List Op) (q : Approval)
    → get id db ≡ some r
    → is_closed r.state ≡ true
    → get id (run ops db) ≡ some q
    → q.state ≢ approved
unfolding closed_state
closed-ne-approved id db r ops q found closed after e =
    ground (arith, run-closed ops id db (rw found closed))

-- An approval is good for one tool call: on a table without two rows of one id, once a request is
-- used, denied or expired, no sequence of calls brings it back, and `findApproved` finds it at no
-- time.
pub closed_never_found :
    (id : Text) (db : Db) (r : Approval) (ops : List Op) (now : ℕ)
    → IsKeyed db
    → get id db ≡ some r
    → is_closed r.state ≡ true
    → find_approved id now (run ops db) ≡ none
unfolding closed_state
closed_never_found id db r ops now k found closed =
    elim (Option-cases (find_approved id now (run ops db))) [
      | inl e ↦ e
      | inr (q, e) ↦ absurd (
          ground (
            arith,
            run-closed ops id db (rw found closed),
            find_approved-get id now (run ops db) q (run-IsKeyed ops db k) e,
          ))
    ]

accepted :
    (id : Text) (now : ℕ) (db : Db) (r : Approval)
    → get id db ≡ some r
    → r.state ≡ pending
    → now ≤ r.expires_at_ms
    → approve id now db
      ≡ (ok (moved approved now r), update_where (with_id id) (moved approved now) db)
unfolding approve
accepted id now db r found p le = ground (
  arith,
  get-update (with_id id) approved now id db,
  get-id id db r found,
  text_eq_iff r.request_id id,
)

-- An approval at the very deadline is accepted and of no use: for a pending request of a table
-- without two rows of one id, `approve` returns an approved row that
-- `findApproved` does not find, at that instant or later.
pub approve_at_deadline :
    (id : Text) (db : Db) (r : Approval) (later : ℕ)
    → IsKeyed db
    → get id db ≡ some r
    → r.state ≡ pending
    → r.expires_at_ms ≤ later
    → (approve id r.expires_at_ms db ≡ (
      ok (moved approved r.expires_at_ms r),
      update_where (with_id id) (moved approved r.expires_at_ms) db,
    ))
      × (find_approved id later (approve id r.expires_at_ms db).1 ≡ none)
unfolding perform
approve_at_deadline id db r later k found p le =
    let granted : approve id r.expires_at_ms db ≡ (
      ok (moved approved r.expires_at_ms r),
      update_where (with_id id) (moved approved r.expires_at_ms) db,
    ) =
      accepted id r.expires_at_ms db r found p (omega arith) in
    (
      granted,
      elim (Option-cases (find_approved id later (approve id r.expires_at_ms db).1)) [
        | inl e ↦ e
        | inr (q, e) ↦ absurd (
            ground (
              arith,
              granted,
              get-update (with_id id) approved r.expires_at_ms id db,
              find_approved-get id later (approve id r.expires_at_ms db).1 q
                  (perform-IsKeyed (approve_op id r.expires_at_ms) db k) e,
            ))
      ],
    )
