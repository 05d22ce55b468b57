-- ===== src/Base/Fallible.antt =====
-- Calls that return a value or throw, with no state: the next call runs when the one before returned.
use memphis_v.Base.State.{Result, ok, err}
use mathlib.Core.Path.{◌≡◌, refl, ap}
use mathlib.Core.List.{List, [], ◌∷◌, ◌++◌}

module _ {ℓ} {E A B : Type ℓ} where
  infixl 10 ◌>>=◌
  abbrev pub ◌>>=◌ : Result E A → (A → Result E B) → Result E B
  ok a >>= f = f a
  err e >>= f = err e

module _ {ℓ} {E : Type ℓ} where
  -- `for (const x of xs) f(x)`, up to the first throw
  abbrev pub map_result : {A B : Type ℓ} → (A → Result E B) → List A → Result E (List B)
  map_result f [] = ok []
  map_result f (x ∷ xs) = let rest = map_result f xs in f x >>= λ b. rest >>= λ bs. ok (b ∷ bs)

pub bind-ok {ℓ} :
    {E A B : Type ℓ} (r : Result E A) (f : A → Result E B) (b : B)
    → (r >>= f) ≡ ok b
    → (a : A) × (r ≡ ok a) × (f a ≡ ok b)
bind-ok (ok a) f b h = (a, refl, h)
bind-ok (err e) f b h = absurd (cc)

pub ok_inj {ℓ} : {E A : Type ℓ} {a b : A} → ◌≡◌ {A = Result E A} (ok a) (ok b) → a ≡ b
ok_inj h = cc

pub map_result-snoc {ℓ} :
    {E A B : Type ℓ} (f : A → Result E B) (xs : List A) (x : A) (ys : List B) (y : B)
    → map_result f xs ≡ ok ys
    → f x ≡ ok y
    → map_result f (xs ++ x ∷ []) ≡ ok (ys ++ y ∷ [])
map_result-snoc f [] x ys y h e = let none_before : [] ≡ ys = ok_inj h in rw (e, ← none_before) refl
map_result-snoc f (a ∷ xs) x ys y h e =
    let (b, first, h1) = bind-ok (f a) _ ys h in
    let (bs, rest, h2) = bind-ok (map_result f xs) _ ys h1 in
    let same : b ∷ bs ≡ ys = ok_inj h2 in
    rw (first, map_result-snoc f xs x bs y rest e) (ap (λ l. ok (l ++ y ∷ [])) same)
