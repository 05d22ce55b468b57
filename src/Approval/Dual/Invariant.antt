-- ===== src/Approval/Dual/Invariant.antt =====
-- What holds of the table of requests between two calls of the repository.
use memphis_v.Base.{
  ℕ, Text, text_eq, text_eq_iff, ◌≡◌, refl, Bool, true, false, none, some, List, [], ◌∷◌, arith,
  if◌then◌else◌, is_some, update_where, ok, err, Bool-cases, Option-cases, lift, inl, inr, ◌⊎◌,
  ◌>>=◌,
}
use memphis_v.Approval.Identity.{Platform}
use memphis_v.Approval.Tables.{
  Status, Transition, Request, Db, empty, is_pending, same_status, find,
}
use memphis_v.Approval.Rows.{
  IsKeyed, All, All-append_one, All-update_found, IsKeyed-update, IsKeyed-append_one,
}
use memphis_v.Approval.Writes.{
  Key, Call, call_key, commit, pending_at, expired_row, approved_row, canceled_row,
}
use memphis_v.Approval.Dual.{
  Creation, create_as, identity, approve_tx, cancel_tx, create_request, insert_request, created_row,
}

-- the CHECK of the schema: `approver_id IS NULL OR initiator_id <> approver_id`, negated
abbrev pub self_approved : Request → Bool
self_approved r = elim r.approver_id [ none ↦ false | some a ↦ text_eq r.initiator_id a ]

pub record RowValid (r : Request) : Type 0 where
  pub separated : self_approved r ≡ false
  pub approved_by : is_some r.approver_id ≡ same_status r.state Status.approved
  pub versioned : r.state_version ≡ (if is_pending r.state then 0 else 1)

pub record IsValid (db : Db) : Type 0 where
  pub keyed : IsKeyed db.requests
  pub rows : All RowValid db.requests

pub empty-IsValid : IsValid empty
empty-IsValid = record { keyed = tt; rows = tt }

-- A write to the requests that keeps the ids and the rows' invariant.
pub with_requests :
    (db : Db) (f : Request → Request) (p : Request → Bool)
    → ((r : Request) → (f r).request_id ≡ r.request_id)
    → All RowValid (update_where p f db.requests)
    → IsValid db
    → (db' : Db) → db'.requests ≡ update_where p f db.requests
    → IsValid db'
with_requests db f p same rows v db' e = record {
  keyed = rw e (IsKeyed-update p f same db.requests v.keyed);
  rows = rw e rows;
}

pub commit_requests :
    (key : Key) (c : Call) (version : ℕ) (f : Request → Request) (to : Status) (db : Db)
    → ((commit key c version f to db).1.requests ≡ db.requests)
      ⊎ ((commit key c version f to db).1.requests
          ≡ update_where (pending_at c.request_id version) f db.requests)
unfolding commit
commit_requests key c version f to db = ground arith

pub by_pending :
    (id : Text) (version : ℕ) (r : Request) → pending_at id version r ≡ true → r.request_id ≡ id
by_pending id version r h = ground (arith, text_eq_iff r.request_id id)

-- A transition of the row that the lookup gave keeps the invariant, whatever it returns.
commit-IsValid :
    (key : Key) (c : Call) (version : ℕ) (f : Request → Request) (to : Status) (db : Db)
    (r : Request)
    → ((q : Request) → (f q).request_id ≡ q.request_id)
    → find c.request_id db.requests ≡ some r
    → (pending_at c.request_id version r ≡ true → RowValid (f r))
    → IsValid db
    → IsValid (commit key c version f to db).1
commit-IsValid key c version f to db r same found keep v =
    elim (commit_requests key c version f to db) [
      | inl e ↦ record { keyed = rw e v.keyed; rows = rw e v.rows }
      | inr e ↦
          with_requests db f (pending_at c.request_id version) same
            (All-update_found c.request_id (pending_at c.request_id version)
              (by_pending c.request_id version) f RowValid db.requests r v.keyed found keep v.rows)
            v _ e
    ]

found_row :
    (id : Text) (rs : List Request) (r : Request)
    → All RowValid rs
    → find id rs ≡ some r
    → RowValid r
unfolding find
found_row id [] r a h = cc
found_row id (q ∷ rs) r a h = elim (Bool-cases (text_eq q.request_id id)) [
  | inl same ↦ let e : q ≡ r = ground arith in rw (← e) a.0
  | inr other ↦ found_row id rs r a.1 (ground arith)
]

module _ (db : Db) (v : IsValid db) where
  expired_commit :
      (key : Key) (c : Call) (r : Request)
      → find c.request_id db.requests ≡ some r
      → IsValid (commit key c r.state_version (expired_row c.now_ms) Status.expired db).1
  expired_commit key c r found =
      let valid = found_row c.request_id db.requests r v.rows found in
      commit-IsValid key c r.state_version (expired_row c.now_ms) Status.expired db r (λ q. refl)
        found (λ at. ground (arith, valid)) v

  approved_commit :
      (key : Key) (c : Call) (actor : Text) (r : Request)
      → find c.request_id db.requests ≡ some r
      → text_eq r.initiator_id actor ≡ false
      → IsValid
          (commit key c c.expected_state_version
            (approved_row actor c.signature c.now_ms)
            Status.approved
            db).1
  approved_commit key c actor r found other =
      let valid = found_row c.request_id db.requests r v.rows found in
      commit-IsValid key c c.expected_state_version (approved_row actor c.signature c.now_ms)
        Status.approved db r (λ q. refl) found (λ at. ground (arith, valid)) v

  canceled_commit :
      (key : Key) (c : Call) (r : Request)
      → find c.request_id db.requests ≡ some r
      → IsValid
          (commit key c c.expected_state_version
            (canceled_row c.signature c.now_ms)
            Status.canceled
            db).1
  canceled_commit key c r found =
      let valid = found_row c.request_id db.requests r v.rows found in
      commit-IsValid key c c.expected_state_version (canceled_row c.signature c.now_ms)
        Status.canceled db r (λ q. refl) found (λ at. ground (arith, valid)) v

  pub approve_tx-IsValid : (actor : Text) (c : Call) → IsValid (approve_tx actor c db).1
  unfolding approve_tx
  approve_tx-IsValid actor c = elim (Option-cases (find c.request_id db.requests)) [
    | inl absent ↦ ground arith
    | inr (r, found) ↦ ground (
      arith,
      expired_commit (call_key Transition.approve actor c) c r found,
      approved_commit (call_key Transition.approve actor c) c actor r found,
    )
  ]

  pub cancel_tx-IsValid : (actor : Text) (c : Call) → IsValid (cancel_tx actor c db).1
  unfolding cancel_tx
  cancel_tx-IsValid actor c = elim (Option-cases (find c.request_id db.requests)) [
    | inl absent ↦ ground arith
    | inr (r, found) ↦
        ground (arith, canceled_commit (call_key Transition.cancel actor c) c r found)
  ]

  created : (r : Request) → RowValid r → IsValid (insert_request r db).1
  unfolding insert_request
  created r h = elim (Option-cases (find r.request_id db.requests)) [
    | inl absent ↦ rw absent (record {
      keyed = IsKeyed-append_one db.requests r absent v.keyed;
      rows = All-append_one RowValid db.requests r v.rows h;
    })
    | inr (q, found) ↦ rw found v
  ]

  pub create_request-IsValid : (p : Platform) (c : Creation) → IsValid (create_request p c db).1
  unfolding create_request
  create_request-IsValid p c =
      elim (identity p c.initiator) as (λ x. IsValid ((lift x >>= create_as c) db).1) [
        | ok initiator ↦ ground (arith, created (created_row initiator c))
        | err e ↦ v
      ]
