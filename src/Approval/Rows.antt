-- ===== src/Approval/Rows.antt =====
-- The table of requests under its statements: what a lookup finds after an insert or an update, and
-- the primary key.
use memphis_v.Base.{
  Text, text_eq, text_eq_iff, ◌≡◌, ◌≢◌, refl, Bool, true, none, some, List, [], ◌∷◌, ◌++◌, arith,
  if◌then◌else◌, count_if, update_where, Bool-cases, inl, inr,
}
use mathlib.Core.Option
use memphis_v.Approval.Tables.{Request, find}

-- No two rows have the same `request_id`.
abbrev pub IsKeyed : List Request → Type 0
IsKeyed [] = Unit
IsKeyed (r ∷ rs) = (find r.request_id rs ≡ none) × IsKeyed rs

abbrev pub All {ℓ} : {A : Type 0} → (A → Type ℓ) → List A → Type ℓ
All P [] = Unit
All P (x ∷ xs) = P x × All P xs

module _ {A : Type 0} (P : A → Type 0) where
  pub All-append_one : (xs : List A) (a : A) → All P xs → P a → All P (xs ++ a ∷ [])
  All-append_one [] a h p = (p, tt)
  All-append_one (x ∷ xs) a h p = (h.0, All-append_one xs a h.1 p)

  pub All-update_where :
      (p : A → Bool) (f : A → A) (xs : List A)
      → ((a : A) → p a ≡ true → P a → P (f a))
      → All P xs
      → All P (update_where p f xs)
  All-update_where p f [] keep h = tt
  All-update_where p f (x ∷ xs) keep h = (ground (arith, keep x), All-update_where p f xs keep h.1)

-- a change to a row where the test holds, and none elsewhere
abbrev pub change : (Request → Bool) → (Request → Request) → Request → Request
change p f r = if p r then f r else r

pub find-append_one :
    (id : Text) (rs : List Request) (r : Request)
    → find id rs ≡ none
    → find id (rs ++ r ∷ []) ≡ (if text_eq r.request_id id then some r else none)
unfolding find
find-append_one id [] r h = refl
find-append_one id (s ∷ rs) r h = ground (arith, find-append_one id rs r)

pub find-append_old :
    (id : Text) (rs : List Request) (r s : Request)
    → find id rs ≡ some s
    → find id (rs ++ r ∷ []) ≡ some s
unfolding find
find-append_old id [] r s h = cc
find-append_old id (q ∷ rs) r s h = ground (arith, find-append_old id rs r s)

pub find-id :
    (id : Text) (rs : List Request) (r : Request) → find id rs ≡ some r → r.request_id ≡ id
unfolding find
find-id id [] r h = cc
find-id id (q ∷ rs) r h = ground (arith, find-id id rs r, text_eq_iff q.request_id id)

module _ (p : Request → Bool) (f : Request → Request)
    (same : (r : Request) → (f r).request_id ≡ r.request_id) where
  pub find-update :
      (id : Text) (rs : List Request)
      → find id (update_where p f rs) ≡ Option.map (change p f) (find id rs)
  unfolding find
  find-update id [] = refl
  find-update id (r ∷ rs) = ground (arith, find-update id rs, same r)

  pub IsKeyed-update : (rs : List Request) → IsKeyed rs → IsKeyed (update_where p f rs)
  unfolding find
  IsKeyed-update [] h = tt
  IsKeyed-update (r ∷ rs) h =
      (ground (arith, find-update r.request_id rs, same r), IsKeyed-update rs h.1)

find_absent-append :
    (id : Text) (rs : List Request) (r : Request)
    → find id rs ≡ none
    → r.request_id ≢ id
    → find id (rs ++ r ∷ []) ≡ none
find_absent-append id rs r h ne =
    ground (arith, find-append_one id rs r h, text_eq_iff r.request_id id)

find_other :
    (q : Request) (rs : List Request) (id : Text)
    → find id (q ∷ rs) ≡ none
    → (id ≢ q.request_id) × (find id rs ≡ none)
unfolding find
find_other q rs id h = (λ e. ground (arith, text_eq_iff q.request_id id), ground arith)

pub IsKeyed-append_one :
    (rs : List Request) (r : Request)
    → find r.request_id rs ≡ none
    → IsKeyed rs
    → IsKeyed (rs ++ r ∷ [])
unfolding find
IsKeyed-append_one [] r absent h = (refl, tt)
IsKeyed-append_one (q ∷ rs) r absent h =
    let (other, absent') = find_other q rs r.request_id absent in
    (find_absent-append q.request_id rs r h.0 other, IsKeyed-append_one rs r absent' h.1)

-- Under the primary key a test that asks for one id selects one row at most.
module _ (id : Text) (p : Request → Bool)
    (by_id : (r : Request) → p r ≡ true → r.request_id ≡ id) where
  pub count-absent : (rs : List Request) → find id rs ≡ none → count_if p rs ≡ 0
  unfolding find
  count-absent [] h = refl
  count-absent (r ∷ rs) h = ground (arith, count-absent rs, by_id r, text_eq_iff r.request_id id)

  pub count-found :
      (rs : List Request) (r : Request)
      → IsKeyed rs
      → find id rs ≡ some r
      → count_if p rs ≡ (if p r then 1 else 0)
  unfolding find
  count-found [] r k h = cc
  count-found (q ∷ rs) r k h =
      ground (arith, count-found rs r, count-absent rs, by_id q, text_eq_iff q.request_id id)

  module _ (f : Request → Request) where
    update_absent : (rs : List Request) → find id rs ≡ none → update_where p f rs ≡ rs
    unfolding find
    update_absent [] h = refl
    update_absent (r ∷ rs) h =
        ground (arith, update_absent rs, by_id r, text_eq_iff r.request_id id)

    -- The one row that such an update writes is the row that a lookup of the id gives.
    pub All-update_found :
        (P : Request → Type 0) (rs : List Request) (r : Request)
        → IsKeyed rs
        → find id rs ≡ some r
        → (p r ≡ true → P (f r))
        → All P rs
        → All P (update_where p f rs)
    unfolding find
    All-update_found P [] r k h keep a = tt
    All-update_found P (q ∷ rs) r k h keep a = elim (Bool-cases (text_eq q.request_id id)) [
      | inl same ↦
          let e : q ≡ r = ground arith in
          (
            ground (arith, keep, e),
            rw (update_absent rs (ground (arith, text_eq_iff q.request_id id))) a.1,
          )
      | inr other ↦ (
        ground (arith, by_id q, text_eq_iff q.request_id id),
        All-update_found P rs r k.1 (ground arith) keep a.1,
      )
    ]
