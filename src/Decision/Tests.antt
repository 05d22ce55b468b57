-- ===== src/Decision/Tests.antt =====
-- Runs of decisions.
use memphis_v.Base.{◌≤◌, ◌≡◌, refl, Text, codes, none, List, [], ◌∷◌, inr}
use memphis_v.Decision.{
  DecisionStatus, DecisionRecord, Params, proposed, accepted, rejected, implemented, verified,
  superseded, create_decision, applied_in, replay, lifecycle_ends, end_is_final,
}

abbrev params : Params
params = record {
  id = codes "d1";
  title = codes "use SQLite";
  options = none;
  chosen = none;
  context = none;
  confidence = none;
  refs = none;
  now_iso = none;
}

abbrev calls : List (DecisionStatus × Text)
calls =
    (verified, codes "t1")
    ∷ (accepted, codes "t2")
    ∷ (implemented, codes "t3")
    ∷ (proposed, codes "t4")
    ∷ (superseded, codes "t5")
    ∷ (rejected, codes "t6")
    ∷ []

lifecycle_ends_example : applied_in (create_decision params (codes "0.7") (codes "t0")) calls ≤ 4
lifecycle_ends_example = lifecycle_ends params (codes "0.7") (codes "t0") calls

abbrev dropped : DecisionRecord
dropped = record (create_decision params (codes "0.7") (codes "t0")) { status = rejected }

end_is_final_example : replay dropped calls ≡ dropped
end_is_final_example = end_is_final dropped calls (inr refl)
