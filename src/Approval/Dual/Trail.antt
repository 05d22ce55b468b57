-- ===== src/Approval/Dual/Trail.antt =====
-- The events of a request as its history.
use memphis_v.Base.{
  ℕ, ◌+◌, Text, text_eq, text_eq_iff, ◌≡◌, refl, Bool, true, false, Option, none, some, List, [],
  ◌∷◌, ◌++◌, arith, if◌then◌else◌, count_if, update_where, ok, err, Option-cases, Bool-cases,
  Result-cases, inl, inr, lift, ◌⊎◌, transaction, ◌>>=◌,
}
use memphis_v.Base.Lists.{count_if-append}
use mathlib.Core.Option
use memphis_v.Approval.Identity.{Platform}
use memphis_v.Approval.Tables.{Status, Transition, Request, Event, Db, find, find_event}
use memphis_v.Approval.Rows.{
  IsKeyed, find-update, find-id, find-append_one, find-append_old, count-found,
}
use memphis_v.Approval.Writes.{
  M, Key, Call, call_key, call_event, commit, pending_at, expired_row, approved_row, canceled_row,
}
use memphis_v.Approval.Dual.{
  Creation, create_as, identity, approve_tx, cancel_tx, approve, cancel, create_request,
  created_row, created_event, insert_request,
}
use memphis_v.Approval.Dual.Invariant.{IsValid, by_pending}

abbrev pub of_request : Text → Event → Bool
of_request id e = text_eq e.request_id id

-- the state that the last event of a request says
abbrev pub last_state : Text → Option Status → List Event → Option Status
last_state id s [] = s
last_state id s (e ∷ es) = last_state id (if of_request id e then some e.to_state else s) es

abbrev pub transitions : Option Request → ℕ
transitions none = 0
transitions (some r) = r.state_version + 1

-- As many events as the version says, and the last one says the state.
pub record LoggedAt (id : Text) (requests : List Request) (events : List Event) : Type 0 where
  pub counted : count_if (of_request id) events ≡ transitions (find id requests)
  pub agrees : last_state id none events ≡ Option.map (λ r. r.state) (find id requests)

last_state-append :
    (id : Text) (s : Option Status) (es : List Event) (e : Event)
    → last_state id s (es ++ e ∷ [])
      ≡ (if of_request id e then some e.to_state else last_state id s es)
last_state-append id s [] e = refl
last_state-append id s (x ∷ es) e =
    last_state-append id (if of_request id x then some x.to_state else s) es e

module _ (id rid : Text) (p : Request → Bool) (f : Request → Request) (e : Event)
    (requests : List Request) (events : List Event) (r : Request)
    (by_id : (q : Request) → p q ≡ true → q.request_id ≡ rid)
    (same : (q : Request) → (f q).request_id ≡ q.request_id) where
  -- One row is written and the event of that write appended.
  pub step-LoggedAt :
      find rid requests ≡ some r
      → p r ≡ true
      → e.request_id ≡ rid
      → some e.to_state ≡ some (f r).state
      → (f r).state_version ≡ r.state_version + 1
      → LoggedAt id requests events
      → LoggedAt id (update_where p f requests) (events ++ e ∷ [])
  step-LoggedAt found hit names says next l =
      let e1 = find-update p f same id requests in
      let e2 = count_if-append (of_request id) events (e ∷ []) in
      let e3 = last_state-append id none events e in
      elim (Bool-cases (text_eq rid id)) [
        | inl here ↦ record {
          counted = ground (arith, text_eq_iff rid id, l.counted, e1, e2);
          agrees = ground (arith, text_eq_iff rid id, l.agrees, e1, e3);
        }
        | inr there ↦ elim (Option-cases (find id requests)) [
          | inl absent ↦ record {
            counted = ground (arith, l.counted, e1, e2);
            agrees = ground (arith, l.agrees, e1, e3);
          }
          | inr (q, other) ↦
              let miss : p q ≡ false =
                ground (arith, by_id q, find-id id requests q other, text_eq_iff rid id) in
              record {
                counted = ground (arith, l.counted, e1, e2);
                agrees = ground (arith, l.agrees, e1, e3);
              }
        ]
      ]

abbrev pub Logged : Text → Db → Type 0
Logged id db = LoggedAt id db.requests db.events

-- What a transition that returns has done: nothing, or its write to the row and its event.
commit_effect :
    (key : Key) (c : Call) (version : ℕ) (f : Request → Request) (to : Status) (db : Db)
    (r : Request)
    → IsKeyed db.requests
    → find c.request_id db.requests ≡ some r
    → (q : Request) (db' : Db) → commit key c version f to db ≡ (ok q, db')
    → ((db'.requests ≡ db.requests) × (db'.events ≡ db.events))
      ⊎ ((pending_at c.request_id version r ≡ true)
          × (db'.requests ≡ update_where (pending_at c.request_id version) f db.requests)
          × (db'.events ≡ db.events ++ call_event key.actor_id to c ∷ []))
unfolding commit
commit_effect key c version f to db r keyed found q db' h = ground (
  arith,
  count-found c.request_id (pending_at c.request_id version) (by_pending c.request_id version)
      db.requests r keyed found,
)

commit-Logged :
    (id : Text) (key : Key) (c : Call) (version : ℕ) (f : Request → Request) (to : Status) (db : Db)
    (r : Request)
    → ((q : Request) → (f q).request_id ≡ q.request_id)
    → some to ≡ some (f r).state
    → (f r).state_version ≡ r.state_version + 1
    → IsKeyed db.requests
    → find c.request_id db.requests ≡ some r
    → Logged id db
    → (q : Request) (db' : Db) → commit key c version f to db ≡ (ok q, db')
    → Logged id db'
commit-Logged id key c version f to db r same says next keyed found l q db' h =
    elim (commit_effect key c version f to db r keyed found q db' h) [
      | inl (e, e') ↦ record {
        counted = ground (arith, l.counted);
        agrees = ground (arith, l.agrees);
      }
      | inr (hit, e, e') ↦
          let l' =
            step-LoggedAt id c.request_id (pending_at c.request_id version) f
              (call_event key.actor_id to c) db.requests db.events r
              (by_pending c.request_id version) same found hit refl says next l in
          record { counted = ground (arith, l'.counted); agrees = ground (arith, l'.agrees) }
    ]

module _ (P : Db → Type 0) {A : Type 0} (m : M A) (db : Db) where
  pub transaction-commits :
      P db → ((a : A) (db' : Db) → m db ≡ (ok a, db') → P db') → P (transaction m db).1
  transaction-commits h keep = elim (Result-cases (m db).0) [
    | inl (a, e) ↦
        let done : m db ≡ (ok a, (m db).1) = ground arith in ground (arith, keep a (m db).1 done)
    | inr (x, e) ↦ ground arith
  ]

-- What a body that returns has run.
approve_tx-cases :
    (actor : Text) (c : Call) (db : Db) (q : Request) (db' : Db)
    → approve_tx actor c db ≡ (ok q, db')
    → (db' ≡ db)
      ⊎ ((r : Request) × (find c.request_id db.requests ≡ some r)
          × ((commit
                  (call_key Transition.approve actor c)
                  c
                  r.state_version
                  (expired_row c.now_ms)
                  Status.expired
                  db
                ≡ (ok q, db'))
              ⊎ (commit
                    (call_key Transition.approve actor c)
                    c
                    c.expected_state_version
                    (approved_row actor c.signature c.now_ms)
                    Status.approved
                    db
                  ≡ (ok q, db'))
              ⊎ (db' ≡ db)))
unfolding approve_tx
approve_tx-cases actor c db q db' h = elim (Option-cases (find c.request_id db.requests)) [
  | inl absent ↦ inl (ground arith)
  | inr (r, found) ↦ inr (r, found, ground arith)
]

cancel_tx-cases :
    (actor : Text) (c : Call) (db : Db) (q : Request) (db' : Db)
    → cancel_tx actor c db ≡ (ok q, db')
    → (db' ≡ db)
      ⊎ ((r : Request) × (find c.request_id db.requests ≡ some r)
          × ((commit
                  (call_key Transition.cancel actor c)
                  c
                  c.expected_state_version
                  (canceled_row c.signature c.now_ms)
                  Status.canceled
                  db
                ≡ (ok q, db'))
              ⊎ (db' ≡ db)))
unfolding cancel_tx
cancel_tx-cases actor c db q db' h = elim (Option-cases (find c.request_id db.requests)) [
  | inl absent ↦ inl (ground arith)
  | inr (r, found) ↦ inr (r, found, ground arith)
]

module _ (id : Text) (db : Db) (v : IsValid db) (l : Logged id db) where
  unchanged : (db' : Db) → db' ≡ db → Logged id db'
  unchanged db' e = rw e l

  approve_tx-Logged :
      (actor : Text) (c : Call) (q : Request) (db' : Db)
      → approve_tx actor c db ≡ (ok q, db')
      → Logged id db'
  approve_tx-Logged actor c q db' h =
      let key = call_key Transition.approve actor c in
      elim (approve_tx-cases actor c db q db' h) [
        | inl e ↦ unchanged db' e
        | inr (r, found, inl e) ↦
            commit-Logged id key c r.state_version (expired_row c.now_ms) Status.expired db r
              (λ x. refl) refl refl v.keyed found l q db' e
        | inr (r, found, inr (inl e)) ↦
            commit-Logged id key c c.expected_state_version
              (approved_row actor c.signature c.now_ms) Status.approved db r (λ x. refl) refl refl
              v.keyed found l q db' e
        | inr (r, found, inr (inr e)) ↦ unchanged db' e
      ]

  cancel_tx-Logged :
      (actor : Text) (c : Call) (q : Request) (db' : Db)
      → cancel_tx actor c db ≡ (ok q, db')
      → Logged id db'
  cancel_tx-Logged actor c q db' h = elim (cancel_tx-cases actor c db q db' h) [
    | inl e ↦ unchanged db' e
    | inr (r, found, inl e) ↦
        commit-Logged id (call_key Transition.cancel actor c) c c.expected_state_version
          (canceled_row c.signature c.now_ms) Status.canceled db r (λ x. refl) refl refl v.keyed
          found l q db' e
    | inr (r, found, inr e) ↦ unchanged db' e
  ]

  pub approve-Logged : (p : Platform) (c : Call) → Logged id (approve p c db).1
  unfolding approve
  approve-Logged p c =
      elim (identity p c.actor)
        as (λ x. Logged id ((lift x >>= λ actor. transaction (approve_tx actor c)) db).1) [
          | ok actor ↦
              transaction-commits (Logged id) (approve_tx actor c) db l (approve_tx-Logged actor c)
          | err e ↦ l
        ]

  pub cancel-Logged : (p : Platform) (c : Call) → Logged id (cancel p c db).1
  unfolding cancel
  cancel-Logged p c =
      elim (identity p c.actor)
        as (λ x. Logged id ((lift x >>= λ actor. transaction (cancel_tx actor c)) db).1) [
          | ok actor ↦
              transaction-commits (Logged id) (cancel_tx actor c) db l (cancel_tx-Logged actor c)
          | err e ↦ l
        ]

  created-LoggedAt :
      (initiator : Text) (c : Creation)
      → find c.request_id db.requests ≡ none
      → LoggedAt id
          (db.requests ++ created_row initiator c ∷ [])
          (db.events ++ created_event initiator c ∷ [])
  created-LoggedAt initiator c absent =
      let e2 = count_if-append (of_request id) db.events (created_event initiator c ∷ []) in
      let e3 = last_state-append id none db.events (created_event initiator c) in
      elim (Option-cases (find id db.requests)) [
        | inl new ↦
            let e1 = find-append_one id db.requests (created_row initiator c) new in
            record {
              counted = ground (arith, l.counted, e1, e2);
              agrees = ground (arith, l.agrees, e1, e3);
            }
        | inr (r, old) ↦
            let e1 = find-append_old id db.requests (created_row initiator c) r old in
            let other : text_eq c.request_id id ≡ false =
              ground (arith, text_eq_iff c.request_id id) in
            record {
              counted = ground (arith, l.counted, e1, e2, other);
              agrees = ground (arith, l.agrees, e1, e3, other);
            }
      ]

  pub create_request-Logged :
      (p : Platform) (c : Creation)
      → find_event c.event_id db.events ≡ none
      → Logged id (create_request p c db).1
  unfolding create_request insert_request
  create_request-Logged p c unused =
      elim (identity p c.initiator) as (λ x. Logged id ((lift x >>= create_as c) db).1) [
        | ok initiator ↦ elim (Option-cases (find c.request_id db.requests)) [
          | inl absent ↦ rw (absent, unused) (created-LoggedAt initiator c absent)
          | inr (r, old) ↦ rw old l
        ]
        | err e ↦ l
      ]
