-- ===== src/Approval/ToolCall/Keys.antt =====
-- The primary key of the table of tool-call approvals, and what `findApproved` reads under it.
use memphis_v.Base.{
  ℕ, ◌<◌, Text, text_eq_iff, ◌≡◌, refl, Bool, true, false, none, some, List, [], ◌∷◌, ◌++◌, arith,
  if◌then◌else◌, update_where, Option-cases, inl, inr,
}
use memphis_v.Approval.ToolCall.{
  Status, approved, expired, used, is_pending, Approval, Db, Creation, get, create_request,
  created_row, with_id, moved, mark_used, find_approved, expire_pending, is_overdue,
}
use memphis_v.Approval.ToolCall.Runs.{
  Op, create_op, approve_op, deny_op, mark_used_op, expire_op, perform, run, IsKeyed, get-update,
  get-append, approve-db, approve-absent, deny-db, deny-absent,
}

IsKeyed-update :
    (p : Approval → Bool) (s : Status) (now : ℕ) (db : Db)
    → IsKeyed db
    → IsKeyed (update_where p (moved s now) db)
IsKeyed-update p s now [] k = tt
IsKeyed-update p s now (r ∷ db) k =
    (ground (arith, get-update p s now r.request_id db), IsKeyed-update p s now db k.1)

IsKeyed-append :
    (db : Db) (r : Approval) → get r.request_id db ≡ none → IsKeyed db → IsKeyed (db ++ r ∷ [])
unfolding get
IsKeyed-append [] r absent k = (refl, tt)
IsKeyed-append (q ∷ db) r absent k = (
  ground (
    arith,
    get-append q.request_id db r,
    text_eq_iff q.request_id r.request_id,
    text_eq_iff r.request_id q.request_id,
  ),
  IsKeyed-append db r (ground arith) k.1,
)

IsKeyed-if : (b : Bool) (db db' : Db) → IsKeyed db → IsKeyed db' → IsKeyed (if b then db' else db)
IsKeyed-if true db db' k k' = k'
IsKeyed-if false db db' k k' = k

create-IsKeyed : (c : Creation) (db : Db) → IsKeyed db → IsKeyed (create_request c db).1
unfolding create_request
create-IsKeyed c db k = elim (Option-cases (get c.request_id db)) [
  | inl absent ↦ rw absent (IsKeyed-append db (created_row c) absent k)
  | inr (r, found) ↦ rw found k
]

pub perform-IsKeyed : (op : Op) (db : Db) → IsKeyed db → IsKeyed (perform op db)
unfolding perform mark_used expire_pending
perform-IsKeyed (create_op c) db k = create-IsKeyed c db k
perform-IsKeyed (approve_op id now) db k = elim (Option-cases (get id db)) [
  | inl absent ↦ rw (approve-absent id now db absent) k
  | inr (r, found) ↦
      rw (approve-db id now db r found)
        (IsKeyed-if (is_pending r.state) db _ k (IsKeyed-update (with_id id) _ now db k))
]
perform-IsKeyed (deny_op id now) db k = elim (Option-cases (get id db)) [
  | inl absent ↦ rw (deny-absent id now db absent) k
  | inr (r, found) ↦
      rw (deny-db id now db r found)
        (IsKeyed-if (is_pending r.state) db _ k (IsKeyed-update (with_id id) _ now db k))
]
perform-IsKeyed (mark_used_op id now) db k = IsKeyed-update (with_id id) used now db k
perform-IsKeyed (expire_op now) db k = IsKeyed-update (is_overdue now) expired now db k

-- Under the primary key, what `findApproved` finds is the row of the id, approved and in time.
pub find_approved-get :
    (id : Text) (now : ℕ) (db : Db) (r : Approval)
    → IsKeyed db
    → find_approved id now db ≡ some r
    → (get id db ≡ some r) × (r.state ≡ approved) × (now < r.expires_at_ms)
unfolding find_approved get
find_approved-get id now [] r k h = cc
find_approved-get id now (q ∷ db) r k h =
    ground (arith, find_approved-get id now db r, text_eq_iff q.request_id id)

pub run-IsKeyed : (ops : List Op) (db : Db) → IsKeyed db → IsKeyed (run ops db)
unfolding run
run-IsKeyed [] db k = k
run-IsKeyed (op ∷ ops) db k = run-IsKeyed ops (perform op db) (perform-IsKeyed op db k)
