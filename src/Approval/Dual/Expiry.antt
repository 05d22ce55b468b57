-- ===== src/Approval/Dual/Expiry.antt =====
-- `expirePending`: its loop over the rows that were read, against one UPDATE of the table.
use memphis_v.Base.{
  ℕ, ◌+◌, ◌≤◌, Text, text_eq, text_eq_iff, text_eq_refl, ◌≡◌, ◌≢◌, refl, ◌∙◌, sym, Bool, true,
  false, none, some, List, [], ◌∷◌, ◌++◌, ◌&&◌, ◌||◌, arith, count_if, select, update_where, ok,
  length,
}
use memphis_v.Approval.Tables.{Request, Event, Db, is_pending, find, find_event}
use memphis_v.Approval.Rows.{IsKeyed, All, IsKeyed-update, find-update, count-found}
use memphis_v.Approval.Writes.{expired_row}
use memphis_v.Approval.Dual.{expire_rows, expire_pending, pending_with, is_overdue, expiry_event}
use memphis_v.Approval.Dual.Invariant.{IsValid}

has_id : Text → List Request → Bool
has_id id [] = false
has_id id (r ∷ rs) = text_eq r.request_id id || has_id id rs

-- the rows that a loop over `rows` expires
abbrev pend_in : List Request → Request → Bool
pend_in rows q = is_pending q.state && has_id q.request_id rows

two_updates :
    (now : ℕ) (row : Request) (rows rs : List Request)
    → update_where
        (pend_in rows)
        (expired_row now)
        (update_where (pending_with row.request_id) (expired_row now) rs)
      ≡ update_where (pend_in (row ∷ rows)) (expired_row now) rs
unfolding has_id
two_updates now row rows [] = refl
two_updates now row rows (q ∷ rs) = ground (
  arith,
  two_updates now row rows rs,
  text_eq_iff q.request_id row.request_id,
  text_eq_iff row.request_id q.request_id,
)

update_none : (f : Request → Request) (rs : List Request) → update_where (pend_in []) f rs ≡ rs
unfolding has_id
update_none f [] = refl
update_none f (q ∷ rs) = ground (arith, update_none f rs)

expire_rows_requests :
    (now : ℕ) (fresh : ℕ → Text) (rows : List Request) (n : ℕ) (db : Db) (k : ℕ) (db' : Db)
    → expire_rows now fresh rows n db ≡ (ok k, db')
    → db'.requests ≡ update_where (pend_in rows) (expired_row now) db.requests
unfolding expire_rows
expire_rows_requests now fresh [] n db k db' h =
    ground (arith, update_none (expired_row now) db.requests)
expire_rows_requests now fresh (row ∷ rows) n db k db' h =
    let requests = update_where (pending_with row.request_id) (expired_row now) db.requests in
    let skipped : Db = record db { requests = requests } in
    let event = expiry_event (fresh n) now row.request_id in
    let logged : Db = record skipped { events = db.events ++ event ∷ [] } in
    ground (
      arith,
      two_updates now row rows db.requests,
      expire_rows_requests now fresh rows n skipped k db',
      expire_rows_requests now fresh rows (n + 1) logged k db',
    )

has_id-select :
    (p : Request → Bool) (id : Text) (rs : List Request)
    → IsKeyed rs
    → has_id id (select p rs) ≡ elim (find id rs) [ none ↦ false | some r ↦ p r ]
unfolding has_id find
has_id-select p id [] k = refl
has_id-select p id (r ∷ rs) k = ground (arith, has_id-select p id rs, text_eq_iff r.request_id id)

All-map :
    (P Q : Request → Type 0) (rs : List Request) → ((r : Request) → P r → Q r) → All P rs → All Q rs
All-map P Q [] f h = tt
All-map P Q (r ∷ rs) f h = (f r h.0, All-map P Q rs f h.1)

update-congr :
    (p q : Request → Bool) (f : Request → Request) (rs : List Request)
    → All (λ r. p r ≡ q r) rs
    → update_where p f rs ≡ update_where q f rs
update-congr p q f [] h = refl
update-congr p q f (r ∷ rs) h = ground (arith, update-congr p q f rs)

All-find : (rs : List Request) → IsKeyed rs → All (λ r. find r.request_id rs ≡ some r) rs
unfolding find
All-find [] k = tt
All-find (q ∷ rs) k = (
  ground (arith, text_eq_refl q.request_id),
  All-map (λ r. find r.request_id rs ≡ some r) (λ r. find r.request_id (q ∷ rs) ≡ some r) rs
      (λ r h. ground (arith, text_eq_iff q.request_id r.request_id)) (All-find rs k.1),
)

-- the rows that the query read are those that it would read now
overdue_pend :
    (now : ℕ) (rs : List Request)
    → IsKeyed rs
    → All (λ r. pend_in (select (is_overdue now) rs) r ≡ is_overdue now r) rs
overdue_pend now rs k =
    All-map (λ r. find r.request_id rs ≡ some r)
      (λ r. pend_in (select (is_overdue now) rs) r ≡ is_overdue now r) rs
      (λ r h. ground (arith, has_id-select (is_overdue now) r.request_id rs k)) (All-find rs k)

requests_after :
    (fresh : ℕ → Text) (now : ℕ) (db : Db) (k : ℕ) (db' : Db)
    → IsKeyed db.requests
    → expire_rows now fresh (select (is_overdue now) db.requests) 0 db ≡ (ok k, db')
    → db'.requests ≡ update_where (is_overdue now) (expired_row now) db.requests
requests_after fresh now db k db' keyed h =
    let rows = select (is_overdue now) db.requests in
    expire_rows_requests now fresh rows 0 db k db' h
    ∙ update-congr (pend_in rows) (is_overdue now) (expired_row now) db.requests
        (overdue_pend now db.requests keyed)

-- The rows of the work list stand in the table, still pending.
abbrev Listed : List Request → Request → Type 0
Listed rs r = (find r.request_id rs ≡ some r) × (is_pending r.state ≡ true)

Listed-next :
    (now : ℕ) (row : Request) (rows rs : List Request)
    → find row.request_id rows ≡ none
    → All (Listed rs) rows
    → All (Listed (update_where (pending_with row.request_id) (expired_row now) rs)) rows
unfolding find
Listed-next now row [] rs absent h = tt
Listed-next now row (q ∷ rows) rs absent h = (
  (
    ground (
      arith,
      find-update (pending_with row.request_id) (expired_row now) (λ r. refl) q.request_id rs,
      text_eq_iff q.request_id row.request_id,
    ),
    h.0.1,
  ),
  Listed-next now row rows rs (ground arith) h.1,
)

by_id : (id : Text) (r : Request) → pending_with id r ≡ true → r.request_id ≡ id
by_id id r h = ground (arith, text_eq_iff r.request_id id)

absent_event :
    (id : Text) (e : Event) (es : List Event)
    → find_event id es ≡ none
    → e.event_id ≢ id
    → find_event id (es ++ e ∷ []) ≡ none
unfolding find_event
absent_event id e [] h ne = ground (arith, text_eq_iff e.event_id id)
absent_event id e (x ∷ es) h ne = ground (arith, absent_event id e es)

-- Ids that no event has, each drawn once.
pub record IsFresh (fresh : ℕ → Text) (es : List Event) (n : ℕ) : Type 0 where
  pub unused : (i : ℕ) → n ≤ i → find_event (fresh i) es ≡ none
  pub injective : (i j : ℕ) → fresh i ≡ fresh j → i ≡ j

IsFresh-next :
    (fresh : ℕ → Text) (es : List Event) (n : ℕ) (e : Event)
    → e.event_id ≡ fresh n
    → IsFresh fresh es n
    → IsFresh fresh (es ++ e ∷ []) (n + 1)
IsFresh-next fresh es n e same f = record {
  unused = λ i le.
      absent_event (fresh i) e es (f.unused i (omega arith))
        (λ p. absurd (omega (arith, f.injective n i (sym same ∙ p))));
  injective = f.injective;
}

expire_rows_returns :
    (now : ℕ) (fresh : ℕ → Text) (rows : List Request) (n : ℕ) (db : Db)
    → IsKeyed db.requests
    → IsKeyed rows
    → All (Listed db.requests) rows
    → IsFresh fresh db.events n
    → (db' : Db) × (expire_rows now fresh rows n db ≡ (ok (n + length rows), db'))
unfolding expire_rows
expire_rows_returns now fresh [] n db k kr listed f = (db, ground arith)
expire_rows_returns now fresh (row ∷ rows) n db k kr listed f =
    let requests = update_where (pending_with row.request_id) (expired_row now) db.requests in
    let event = expiry_event (fresh n) now row.request_id in
    let logged : Db = record db { requests = requests; events = db.events ++ event ∷ [] } in
    let (db', rest) =
      expire_rows_returns now fresh rows (n + 1) logged
        (IsKeyed-update (pending_with row.request_id) (expired_row now) (λ r. refl) db.requests k)
        kr.1 (Listed-next now row rows db.requests kr.0 listed.1)
        (IsFresh-next fresh db.events n event refl f) in
    let one : count_if (pending_with row.request_id) db.requests ≡ 1 = ground (
      arith,
      count-found row.request_id (pending_with row.request_id) (by_id row.request_id) db.requests
          row k listed.0.0,
      text_eq_refl row.request_id,
    ) in
    (db', ground (arith, one, rest, f.unused n (omega arith)))

select-Listed :
    (now : ℕ) (all rs : List Request)
    → All (λ r. find r.request_id all ≡ some r) rs
    → All (Listed all) (select (is_overdue now) rs)
select-Listed now all [] h = tt
select-Listed now all (r ∷ rs) h = ground (arith, select-Listed now all rs h.1)

select-absent :
    (p : Request → Bool) (id : Text) (rs : List Request)
    → find id rs ≡ none
    → find id (select p rs) ≡ none
unfolding find
select-absent p id [] h = refl
select-absent p id (r ∷ rs) h = ground (arith, select-absent p id rs)

select-IsKeyed : (p : Request → Bool) (rs : List Request) → IsKeyed rs → IsKeyed (select p rs)
select-IsKeyed p [] k = tt
select-IsKeyed p (r ∷ rs) k = ground (arith, select-IsKeyed p rs, select-absent p r.request_id rs)

length-select : (p : Request → Bool) (rs : List Request) → length (select p rs) ≡ count_if p rs
length-select p [] = refl
length-select p (r ∷ rs) = ground (arith, length-select p rs)

-- On a table that has its primary key, and given unused event ids, `expirePending` returns the
-- number of the pending rows whose deadline lies before `now`, and has written what one UPDATE of
-- all of these would: they are expired, with one more version and the new time, and every other
-- row is as it was.
pub expire_pending-update :
    (fresh : ℕ → Text) (now : ℕ) (db : Db)
    → IsValid db
    → IsFresh fresh db.events 0
    → (db' : Db) × (expire_pending fresh now db ≡ (ok (count_if (is_overdue now) db.requests), db'))
      × (db'.requests ≡ update_where (is_overdue now) (expired_row now) db.requests)
unfolding expire_pending
expire_pending-update fresh now db v f =
    let rows = select (is_overdue now) db.requests in
    let (db', returned) =
      expire_rows_returns now fresh rows 0 db v.keyed
        (select-IsKeyed (is_overdue now) db.requests v.keyed)
        (select-Listed now db.requests db.requests (All-find db.requests v.keyed)) f in
    (
      db',
      ground (arith, returned, length-select (is_overdue now) db.requests),
      requests_after fresh now db (0 + length rows) db' v.keyed returned,
    )
