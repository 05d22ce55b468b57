-- ===== src/Chain/Json/Canonical.antt =====
-- Sorting the entries of an object by key keeps every field (infra/storage/chain-adapter.ts).
use memphis_v.Base.{
  ◌≡◌, refl, Text, Option, none, some, if◌then◌else◌, arith, inl, inr, Bool-cases, ◌∙◌, ap,
}
use memphis_v.Base.Texts.{text_eq, text_eq_iff}
use memphis_v.Chain.Json.{
  Platform, Json, Members, no_members, member, insert_member, sort_value, sort_members, field,
}

field-insert :
    (p : Platform) (key k : Text) (v : Json) (ms : Members)
    → field k ms ≡ none
    → field key (insert_member p k v ms) ≡ (if text_eq k key then some v else field key ms)
unfolding field insert_member
field-insert p key k v no_members h = refl
field-insert p key k v (member q w ms) h = elim (Bool-cases (text_eq q k)) [
  | inl e ↦ absurd (ground (arith, h, e))
  | inr e ↦ elim (Bool-cases (p.locale_before q k)) [
    | inr b ↦ rw b refl
    | inl b ↦
        rw (b, field-insert p key k v ms (rw e at (h)))
          (ground (arith, text_eq_iff k key, text_eq_iff q key, text_eq_iff q k, e))
  ]
]

-- No key stands twice.
abbrev pub Distinct : Members → Type 0
Distinct no_members = Unit {0}
Distinct (member k v ms) = (field k ms ≡ none) × Distinct ms

abbrev pub sorted_field : Platform → Option Json → Option Json
sorted_field p none = none
sorted_field p (some v) = some (sort_value p v)

pub field-sort :
    (p : Platform) (key : Text) (ms : Members)
    → Distinct ms
    → field key (sort_members p ms) ≡ sorted_field p (field key ms)
unfolding field sort_members
field-sort p key no_members h = refl
field-sort p key (member k v ms) h =
    let absent : field k (sort_members p ms) ≡ none =
      field-sort p k ms h.1 ∙ ap (sorted_field p) h.0 in
    field-insert p key k (sort_value p v) (sort_members p ms) absent
    ∙ (elim (Bool-cases (text_eq k key)) [
      | inl e ↦ rw e refl
      | inr e ↦ rw e (field-sort p key ms h.1)
    ])
