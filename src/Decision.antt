-- ===== src/Decision.antt =====
-- The life of a decision record (core/decision-lifecycle.ts).
mod Tests
use memphis_v.Base.{
  ℕ, suc, ◌+◌, ◌-◌, ◌≤◌, ◌<◌, ◌≡◌, refl, Text, Bool, true, false, Option, none, some, List, [], ◌∷◌,
  ◌==◌, if◌then◌else◌, Result, ok, err, arith, Bool-cases, inl, inr, ◌⊎◌,
}

pub data DecisionStatus : Type 0 where
  proposed accepted implemented verified superseded rejected : DecisionStatus

-- `confidence` is the text of the number; `schemaVersion` is always 1.
pub record DecisionRecord : Type 0 where
  pub id : Text
  pub title : Text
  pub context : Option Text
  pub options : List Text
  pub chosen : Option Text
  pub confidence : Text
  pub status : DecisionStatus
  pub created_at : Text
  pub updated_at : Text
  pub refs : Option (List Text)

-- the argument of `createDecision`
pub record Params : Type 0 where
  pub id : Text
  pub title : Text
  pub options : Option (List Text)
  pub chosen : Option Text
  pub context : Option Text
  pub confidence : Option Text
  pub refs : Option (List Text)
  pub now_iso : Option Text

abbrev or_else : {A : Type 0} → Option A → A → A
or_else none a = a
or_else (some b) a = b

-- `default_confidence` is the text of 0.7, and `now` what the clock says
unfoldable pub create_decision : Params → Text → Text → DecisionRecord
create_decision p default_confidence now = record {
  id = p.id;
  title = p.title;
  context = p.context;
  options = or_else p.options [];
  chosen = p.chosen;
  confidence = or_else p.confidence default_confidence;
  status = proposed;
  created_at = or_else p.now_iso now;
  updated_at = or_else p.now_iso now;
  refs = p.refs;
}

-- the table `ALLOWED`
unfoldable pub allowed : DecisionStatus → List DecisionStatus
allowed proposed = accepted ∷ rejected ∷ superseded ∷ []
allowed accepted = implemented ∷ superseded ∷ []
allowed implemented = verified ∷ superseded ∷ []
allowed verified = superseded ∷ []
allowed superseded = []
allowed rejected = []

abbrev status_index : DecisionStatus → ℕ
status_index proposed = 0
status_index accepted = 1
status_index implemented = 2
status_index verified = 3
status_index superseded = 4
status_index rejected = 5

unfoldable pub includes : List DecisionStatus → DecisionStatus → Bool
includes [] to = false
includes (s ∷ ss) to =
    let rest = includes ss to in if status_index s == status_index to then true else rest

pub data InvalidTransition : Type 0 where
  invalid_transition : DecisionStatus → DecisionStatus → InvalidTransition

unfoldable pub transition_decision :
    DecisionRecord → DecisionStatus → Text → Result InvalidTransition DecisionRecord
transition_decision r to now =
    if includes (allowed r.status) to
    then ok (record r { status = to; updated_at = now })
    else err (invalid_transition r.status to)

-- Transitions asked for one after another; one that is refused leaves the record.
unfoldable pub after : DecisionRecord → Result InvalidTransition DecisionRecord → DecisionRecord
after r (ok r') = r'
after r (err e) = r

unfoldable pub applied : Result InvalidTransition DecisionRecord → ℕ
applied (ok r) = 1
applied (err e) = 0

unfoldable pub replay : DecisionRecord → List (DecisionStatus × Text) → DecisionRecord
replay r [] = r
replay r (c ∷ cs) = replay (after r (transition_decision r c.0 c.1)) cs

unfoldable pub applied_in : DecisionRecord → List (DecisionStatus × Text) → ℕ
applied_in r [] = 0
applied_in r (c ∷ cs) =
    applied (transition_decision r c.0 c.1)
    + applied_in (after r (transition_decision r c.0 c.1)) cs

-- the longest way that is left to a final status
abbrev ways_left : DecisionStatus → ℕ
ways_left proposed = 4
ways_left accepted = 3
ways_left implemented = 2
ways_left verified = 1
ways_left superseded = 0
ways_left rejected = 0

allowed_lower :
    (s to : DecisionStatus) → includes (allowed s) to ≡ true → ways_left to < ways_left s
unfolding allowed includes
allowed_lower proposed to h = ground arith
allowed_lower accepted to h = ground arith
allowed_lower implemented to h = ground arith
allowed_lower verified to h = ground arith
allowed_lower superseded to h = ground arith
allowed_lower rejected to h = ground arith

refused :
    (r : DecisionRecord) (to : DecisionStatus) (now : Text)
    → (r.status ≡ superseded) ⊎ (r.status ≡ rejected)
    → after r (transition_decision r to now) ≡ r
unfolding transition_decision after allowed includes
refused r to now (inl e) = ground (arith, e)
refused r to now (inr e) = ground (arith, e)

step_down :
    (r : DecisionRecord) (to : DecisionStatus) (now : Text)
    → applied (transition_decision r to now)
        + ways_left (after r (transition_decision r to now)).status
      ≤ ways_left r.status
unfolding transition_decision after applied
step_down r to now = elim (Bool-cases (includes (allowed r.status) to)) [
  | inl good ↦ rw (good, transition_decision) (omega (arith, allowed_lower r.status to good))
  | inr bad ↦ rw (bad, transition_decision) (omega arith)
]

applied_in-bound :
    (r : DecisionRecord) (calls : List (DecisionStatus × Text))
    → applied_in r calls ≤ ways_left r.status
unfolding applied_in
applied_in-bound r [] = omega arith
applied_in-bound r (c ∷ cs) =
    omega
      (arith, step_down r c.0 c.1, applied_in-bound (after r (transition_decision r c.0 c.1)) cs)

-- However many transitions are asked for, in whatever order, at most four of a new decision are
-- made.
pub lifecycle_ends :
    (p : Params) (default_confidence now : Text) (calls : List (DecisionStatus × Text))
    → applied_in (create_decision p default_confidence now) calls ≤ 4
unfolding create_decision
lifecycle_ends p default_confidence now calls =
    applied_in-bound (create_decision p default_confidence now) calls

-- A decision that is superseded or rejected stays as it is, whatever transitions are asked for.
pub end_is_final :
    (r : DecisionRecord) (calls : List (DecisionStatus × Text))
    → (r.status ≡ superseded) ⊎ (r.status ≡ rejected)
    → replay r calls ≡ r
unfolding replay
end_is_final r [] closed = refl
end_is_final r (c ∷ cs) closed = rw (refused r c.0 c.1 closed) (end_is_final r cs closed)
