-- ===== src/Approval/ToolCall/Runs.antt =====
-- Any sequence of calls of the repository of tool-call approvals.
use memphis_v.Base.{
  ℕ, Text, text_eq, text_eq_iff, ◌≡◌, refl, Bool, true, false, Option, none, some, List, [], ◌∷◌,
  ◌++◌, arith, if◌then◌else◌, ltb, update_where, Option-cases, Bool-cases, inl, inr,
}
use mathlib.Core.Option
use memphis_v.Approval.ToolCall.{
  Status, pending, approved, denied, expired, used, is_pending, Approval, Db, Creation, get,
  create_request, created_row, with_id, moved, approve, deny, mark_used, expire_pending, is_overdue,
}

pub data Op : Type 0 where
  create_op : Creation → Op
  approve_op : Text → ℕ → Op
  deny_op : Text → ℕ → Op
  mark_used_op : Text → ℕ → Op
  expire_op : ℕ → Op

unfoldable pub perform : Op → Db → Db
perform (create_op c) db = (create_request c db).1
perform (approve_op id now) db = (approve id now db).1
perform (deny_op id now) db = (deny id now db).1
perform (mark_used_op id now) db = (mark_used id now db).1
perform (expire_op now) db = (expire_pending now db).1

unfoldable pub run : List Op → Db → Db
run [] db = db
run (op ∷ ops) db = run ops (perform op db)

abbrev pub IsKeyed : Db → Type 0
IsKeyed [] = Unit
IsKeyed (r ∷ rs) = (get r.request_id rs ≡ none) × IsKeyed rs

pub get-id : (id : Text) (db : Db) (r : Approval) → get id db ≡ some r → r.request_id ≡ id
unfolding get
get-id id [] r h = cc
get-id id (q ∷ db) r h = ground (arith, get-id id db r, text_eq_iff q.request_id id)

pub get-update :
    (p : Approval → Bool) (s : Status) (now : ℕ) (id : Text) (db : Db)
    → get id (update_where p (moved s now) db)
      ≡ Option.map (λ r. if p r then moved s now r else r) (get id db)
unfolding get
get-update p s now id [] = refl
get-update p s now id (r ∷ db) = ground (arith, get-update p s now id db)

pub get-append :
    (id : Text) (db : Db) (r : Approval)
    → get id (db ++ r ∷ []) ≡ elim (get id db) [
      | some q ↦ some q
      | none ↦ if text_eq r.request_id id then some r else none
    ]
unfolding get
get-append id [] r = refl
get-append id (q ∷ db) r = ground (arith, get-append id db r)

-- The moves of one request between two states: what any call may do to it.
infix 40 ◌⟶◌
pub data ◌⟶◌ : Option Status → Option Status → Type 0 where
  stay : {s : Option Status} → s ⟶ s
  open_new : none ⟶ some pending
  grant : some pending ⟶ some approved
  refuse : some pending ⟶ some denied
  lapse : some pending ⟶ some expired
  spend : {s : Status} → some s ⟶ some used

abbrev pub state_of : Text → Db → Option Status
state_of id db = Option.map (λ r. r.state) (get id db)

ruleset moves = (stay, open_new, grant, refuse, lapse, spend)

pick-move :
    (p : Approval → Bool) (s : Status) (now : ℕ) (r : Approval)
    → (p r ≡ true → some r.state ⟶ some s)
    → some r.state ⟶ some (if p r then moved s now r else r).state
pick-move p s now r k = elim (Bool-cases (p r)) [
  | inl hit ↦ rw hit (k hit)
  | inr miss ↦ rw miss stay
]

-- An UPDATE moves the rows that it selects, and no other.
update-move :
    (p : Approval → Bool) (s : Status) (now : ℕ) (id : Text) (db : Db)
    → ((r : Approval) → get id db ≡ some r → p r ≡ true → some r.state ⟶ some s)
    → state_of id db ⟶ state_of id (update_where p (moved s now) db)
update-move p s now id db k = elim (Option-cases (get id db)) [
  | inl absent ↦ rw (get-update p s now id db) (rw absent stay)
  | inr (r, found) ↦ rw (get-update p s now id db) (rw found (pick-move p s now r (k r found)))
]

-- the database after a call on a row that it has found
pub approve-absent :
    (rid : Text) (now : ℕ) (db : Db) → get rid db ≡ none → (approve rid now db).1 ≡ db
unfolding approve
approve-absent rid now db absent = ground arith

pub approve-db :
    (rid : Text) (now : ℕ) (db : Db) (r : Approval)
    → get rid db ≡ some r
    → (approve rid now db).1 ≡ (
        if is_pending r.state
        then update_where
            (with_id rid)
            (moved (if ltb r.expires_at_ms now then expired else approved) now)
            db
        else db)
unfolding approve
approve-db rid now db r found = ground arith

pub deny-absent : (rid : Text) (now : ℕ) (db : Db) → get rid db ≡ none → (deny rid now db).1 ≡ db
unfolding deny
deny-absent rid now db absent = ground arith

pub deny-db :
    (rid : Text) (now : ℕ) (db : Db) (r : Approval)
    → get rid db ≡ some r
    → (deny rid now db).1
      ≡ (if is_pending r.state then update_where (with_id rid) (moved denied now) db else db)
unfolding deny
deny-db rid now db r found = ground arith

decide :
    (s : Status) (late : Bool)
    → is_pending s ≡ true
    → some s ⟶ some (if late then expired else approved)
decide pending true h = lapse
decide pending false h = grant
decide approved late h = cc
decide _ late h = cc

deny_move : (s : Status) → is_pending s ≡ true → some s ⟶ some denied
deny_move pending h = refuse
deny_move approved h = cc
deny_move _ h = cc

lapse_move : (s : Status) → is_pending s ≡ true → some s ⟶ some expired
lapse_move pending h = lapse
lapse_move approved h = cc
lapse_move _ h = cc

module _ (id : Text) (db : Db) where
  -- a transition of the row `current`, that the code has read
  current-move :
      (rid : Text) (s : Status) (now : ℕ) (current : Approval)
      → get rid db ≡ some current
      → (some current.state ⟶ some s)
      → state_of id db ⟶ state_of id (update_where (with_id rid) (moved s now) db)
  current-move rid s now current found k = update-move (with_id rid) s now id db (λ r found' hit.
      let same : rid ≡ id = ground (arith, text_eq_iff r.request_id rid, get-id id db r found') in
      let e : current ≡ r = ground (arith, found, found', same) in rw (← e) k)

  -- a write under a test of the row that was read
  tested-move :
      (rid : Text) (s : Status) (now : ℕ) (r : Approval) (b : Bool)
      → get rid db ≡ some r
      → (b ≡ true → some r.state ⟶ some s)
      → state_of id db ⟶ state_of id (if b then update_where (with_id rid) (moved s now) db else db)
  tested-move rid s now r true found k = current-move rid s now r found (k refl)
  tested-move rid s now r false found k = stay

  approve-move : (rid : Text) (now : ℕ) → state_of id db ⟶ state_of id (approve rid now db).1
  approve-move rid now = elim (Option-cases (get rid db)) [
    | inl absent ↦ rw (approve-absent rid now db absent) stay
    | inr (r, found) ↦ rw (approve-db rid now db r found) (
        tested-move rid (if ltb r.expires_at_ms now then expired else approved) now r
          (is_pending r.state) found (decide r.state (ltb r.expires_at_ms now)))
  ]

  deny-move : (rid : Text) (now : ℕ) → state_of id db ⟶ state_of id (deny rid now db).1
  deny-move rid now = elim (Option-cases (get rid db)) [
    | inl absent ↦ rw (deny-absent rid now db absent) stay
    | inr (r, found) ↦
        rw (deny-db rid now db r found)
          (tested-move rid denied now r (is_pending r.state) found (deny_move r.state))
  ]

  append-move : (r : Approval) → r.state ≡ pending → state_of id db ⟶ state_of id (db ++ r ∷ [])
  append-move r new = elim (Option-cases (get id db)) [
    | inl absent ↦ elim (Bool-cases (text_eq r.request_id id)) [
      | inl here ↦ rw (get-append id db r) (rw (absent, here, new) open_new)
      | inr there ↦ rw (get-append id db r) (rw (absent, there) stay)
    ]
    | inr (q, found) ↦ rw (get-append id db r) (rw found stay)
  ]

  create-move : (c : Creation) → state_of id db ⟶ state_of id (create_request c db).1
  unfolding create_request
  create-move c = elim (Option-cases (get c.request_id db)) [
    | inl absent ↦ rw absent (append-move (created_row c) refl)
    | inr (r, found) ↦ rw found stay
  ]

-- Every call moves every request along the diagram: from pending to approved, denied or expired, from
-- any state to used, from no request to a pending one, or not at all.
pub perform-moves : (op : Op) (id : Text) (db : Db) → state_of id db ⟶ state_of id (perform op db)
unfolding perform mark_used expire_pending
perform-moves (create_op c) id db = create-move id db c
perform-moves (approve_op rid now) id db = approve-move id db rid now
perform-moves (deny_op rid now) id db = deny-move id db rid now
perform-moves (mark_used_op rid now) id db =
    update-move (with_id rid) used now id db (λ r found hit. spend)
perform-moves (expire_op now) id db =
    update-move (is_overdue now) expired now id db
      (λ r found hit. lapse_move r.state (ground arith))
