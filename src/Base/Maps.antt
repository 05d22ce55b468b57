-- ===== src/Base/Maps.antt =====
-- A JavaScript `Map` from texts, as its entries in the order of insertion.
use Prim.Native.Nat.{ℕ, suc, ◌+◌, ◌≤◌}
use mathlib.Core.Path.{◌≡◌, refl}
use mathlib.Core.Logic.{inl, inr}
use mathlib.Core.Bool.{Bool, true, false}
use mathlib.Core.Option.{Option, none, some}
use mathlib.Core.List.{List, [], ◌∷◌, map}
use native.Mathlib.Omega.{arith}
use memphis_v.Base.Tests.{if◌then◌else◌, is_some, Bool-cases}
use memphis_v.Base.Lists.{length, sum}
use memphis_v.Base.Texts.{Text, text_eq, text_eq_iff}

abbrev pub Map : Type 0 → Type 0
Map V = List (Text × V)

module _ {V : Type 0} where
  unfoldable pub get : Text → Map V → Option V
  get k [] = none
  get k ((q, v) ∷ m) = if text_eq q k then some v else get k m

  abbrev pub has : Text → Map V → Bool
  has k m = is_some (get k m)

  -- a key that is there keeps its place
  unfoldable pub set : Text → V → Map V → Map V
  set k v [] = (k, v) ∷ []
  set k v ((q, w) ∷ m) = let rest = set k v m in if text_eq q k then (q, v) ∷ m else (q, w) ∷ rest

  unfoldable pub delete : Text → Map V → Map V
  delete k [] = []
  delete k ((q, w) ∷ m) = let rest = delete k m in if text_eq q k then rest else (q, w) ∷ rest

  abbrev pub values : Map V → List V
  values m = map (λ e. e.1) m

  -- No key stands twice.
  abbrev pub Distinct : Map V → Type 0
  Distinct [] = Unit {0}
  Distinct ((k, v) ∷ m) = (get k m ≡ none) × Distinct m

  pub get-set :
      (q k : Text) (v : V) (m : Map V)
      → get q (set k v m) ≡ (if text_eq k q then some v else get q m)
  unfolding get set
  get-set q k v [] = refl
  get-set q k v ((r, w) ∷ m) =
      ground (arith, get-set q k v m, text_eq_iff r k, text_eq_iff r q, text_eq_iff k q)

  pub get-delete :
      (q k : Text) (m : Map V) → get q (delete k m) ≡ (if text_eq k q then none else get q m)
  unfolding get delete
  get-delete q k [] = ground arith
  get-delete q k ((r, w) ∷ m) =
      ground (arith, get-delete q k m, text_eq_iff r k, text_eq_iff r q, text_eq_iff k q)

  pub set-Distinct : (k : Text) (v : V) (m : Map V) → Distinct m → Distinct (set k v m)
  unfolding set get
  set-Distinct k v [] d = (refl, tt)
  set-Distinct k v ((q, w) ∷ m) d = elim (Bool-cases (text_eq q k)) [
    | inl e ↦ rw e d
    | inr e ↦ rw e (
      ground (arith, get-set q k v m, text_eq_iff q k, text_eq_iff k q, d.0),
      set-Distinct k v m d.1,
    )
  ]

  pub delete-Distinct : (k : Text) (m : Map V) → Distinct m → Distinct (delete k m)
  unfolding delete
  delete-Distinct k [] d = tt
  delete-Distinct k ((q, w) ∷ m) d = elim (Bool-cases (text_eq q k)) [
    | inl e ↦ rw e (delete-Distinct k m d.1)
    | inr e ↦ rw e (ground (arith, get-delete q k m, d.0), delete-Distinct k m d.1)
  ]

  pub length-set :
      (k : Text) (v : V) (m : Map V)
      → length (set k v m) ≡ (if has k m then length m else suc (length m))
  unfolding set get
  length-set k v [] = refl
  length-set k v ((q, w) ∷ m) = ground (arith, length-set k v m)

  pub delete_absent : (k : Text) (m : Map V) → get k m ≡ none → delete k m ≡ m
  unfolding delete get
  delete_absent k [] h = refl
  delete_absent k ((q, w) ∷ m) h = elim (Bool-cases (text_eq q k)) [
    | inl e ↦ absurd (ground (arith, h, e))
    | inr e ↦ rw (e, delete_absent k m (rw e at (h))) refl
  ]

  pub length-delete :
      (k : Text) (m : Map V)
      → Distinct m
      → length m ≡ (if has k m then suc (length (delete k m)) else length (delete k m))
  unfolding delete get
  length-delete k [] d = refl
  length-delete k ((q, w) ∷ m) d = elim (Bool-cases (text_eq q k)) [
    | inl e ↦
        let same : q ≡ k = (text_eq_iff q k).0 e in
        rw (e, delete_absent k m (rw same at (d.0))) refl
    | inr e ↦ rw e (ground (arith, length-delete k m d.1))
  ]

  pub has-set :
      (q k : Text) (v : V) (m : Map V) → has q (set k v m) ≡ (if text_eq k q then true else has q m)
  has-set q k v m = elim (Bool-cases (text_eq k q)) [
    | inl e ↦ rw (get-set q k v m, e) refl
    | inr e ↦ rw (get-set q k v m, e) refl
  ]

  pub has-delete :
      (q k : Text) (m : Map V) → has q (delete k m) ≡ (if text_eq k q then false else has q m)
  has-delete q k m = elim (Bool-cases (text_eq k q)) [
    | inl e ↦ rw (get-delete q k m, e) refl
    | inr e ↦ rw (get-delete q k m, e) refl
  ]

abbrev pub or_zero : Option ℕ → ℕ
or_zero none = 0
or_zero (some n) = n

-- The sum of the numbers in a map, when one is written or deleted.
abbrev pub total : Map ℕ → ℕ
total m = sum (values m)

pub total-set : (k : Text) (n : ℕ) (m : Map ℕ) → total (set k n m) + or_zero (get k m) ≡ total m + n
unfolding set get
total-set k n [] = omega arith
total-set k n ((q, w) ∷ m) = ground (arith, total-set k n m)

pub total-delete :
    (k : Text) (m : Map ℕ) → Distinct m → total (delete k m) + or_zero (get k m) ≡ total m
unfolding delete get
total-delete k [] d = omega arith
total-delete k ((q, w) ∷ m) d = elim (Bool-cases (text_eq q k)) [
  | inl e ↦
      let same : q ≡ k = (text_eq_iff q k).0 e in
      rw (e, delete_absent k m (rw same at (d.0))) (omega arith)
  | inr e ↦ rw e (omega (arith, total-delete k m d.1))
]

pub total-ge : (k : Text) (m : Map ℕ) → or_zero (get k m) ≤ total m
unfolding get
total-ge k [] = omega arith
total-ge k ((q, w) ∷ m) = ground (arith, total-ge k m)
