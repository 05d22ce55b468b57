-- ===== src/Cache/Buffers/Buckets.antt =====
-- `bucketFor` returns the smallest bucket that is large enough (infra/memory/buffer-pool.ts).
use memphis_v.Base.{
  ℕ, zero, suc, ◌+◌, ◌-◌, ◌/◌, ◌≤◌, ◌<◌, ◌≡◌, refl, sym, ◌∙◌, true, false, List, [], ◌∷◌, length,
  get_elem?, ltb, leb, ltb→lt, leb→le, leb-false, ltb-false, arith, inl, inr, Bool-cases,
  if◌then◌else◌,
}
use memphis_v.Cache.Buffers.{given, search, bucket_for, sort_sizes, insert_size}

abbrev nth : List ℕ → ℕ → ℕ
nth [] i = 0
nth (x ∷ l) zero = x
nth (x ∷ l) (suc i) = nth l i

nth_lem : (l : List ℕ) (i : ℕ) → given (get_elem? l i) 0 ≡ nth l i
nth_lem [] i = refl
nth_lem (x ∷ l) zero = refl
nth_lem (x ∷ l) (suc i) = nth_lem l i

-- Ascending.
abbrev AllGe : ℕ → List ℕ → Type 0
AllGe x [] = Unit {0}
AllGe x (y ∷ l) = (x ≤ y) × AllGe x l

abbrev pub Ascending : List ℕ → Type 0
Ascending [] = Unit {0}
Ascending (x ∷ l) = AllGe x l × Ascending l

all_ge : (x : ℕ) (l : List ℕ) → AllGe x l → (i : ℕ) → i < length l → x ≤ nth l i
all_ge x [] h i b = absurd (omega (arith, b))
all_ge x (y ∷ l) h zero b = h.0
all_ge x (y ∷ l) h (suc i) b = all_ge x l h.1 i (omega (arith, b))

AllGe-trans : (x y : ℕ) (l : List ℕ) → x ≤ y → AllGe y l → AllGe x l
AllGe-trans x y [] h k = tt
AllGe-trans x y (z ∷ l) h k = (omega (arith, h, k.0), AllGe-trans x y l h k.1)

AllGe-insert : (x n : ℕ) (l : List ℕ) → x ≤ n → AllGe x l → AllGe x (insert_size n l)
unfolding insert_size
AllGe-insert x n [] h k = (h, tt)
AllGe-insert x n (y ∷ l) h k = elim (Bool-cases (ltb y n)) [
  | inl e ↦ rw e (k.0, AllGe-insert x n l h k.1)
  | inr e ↦ rw e (h, k)
]

insert-Ascending : (n : ℕ) (l : List ℕ) → Ascending l → Ascending (insert_size n l)
unfolding insert_size
insert-Ascending n [] a = (tt, tt)
insert-Ascending n (y ∷ l) a = elim (Bool-cases (ltb y n)) [
  | inl e ↦ rw e (AllGe-insert y n l (omega (arith, ltb→lt y n e)) a.0, insert-Ascending n l a.1)
  | inr e ↦ let low = ltb-false y n e in rw e ((low, AllGe-trans n y l low a.0), a)
]

sort-Ascending : (l : List ℕ) → Ascending (sort_sizes l)
unfolding sort_sizes
sort-Ascending [] = tt
sort-Ascending (n ∷ l) = insert-Ascending n (sort_sizes l) (sort-Ascending l)

-- The first size that is large enough, or the size itself.
abbrev pub first_fit : List ℕ → ℕ → ℕ
first_fit [] size = size
first_fit (x ∷ l) size = if leb size x then x else first_fit l size

nth_mono : (l : List ℕ) (i j : ℕ) → Ascending l → i ≤ j → j < length l → nth l i ≤ nth l j
nth_mono [] i j a h b = absurd (omega (arith, b))
nth_mono (x ∷ l) zero zero a h b = omega arith
nth_mono (x ∷ l) zero (suc j) a h b = all_ge x l a.0 j (omega (arith, b))
nth_mono (x ∷ l) (suc i) zero a h b = absurd (omega (arith, h))
nth_mono (x ∷ l) (suc i) (suc j) a h b = nth_mono l i j a.1 (omega (arith, h)) (omega (arith, b))

-- All sizes before `p` are too small, and those from `p` on are large enough.
record Split (l : List ℕ) (size p : ℕ) : Type 0 where
  inside : p ≤ length l
  small : (i : ℕ) → i < p → nth l i < size
  large : (i : ℕ) → p ≤ i → i < length l → size ≤ nth l i

first_fit-Split :
    (l : List ℕ) (size p : ℕ)
    → Split l size p
    → first_fit l size ≡ (if ltb p (length l) then nth l p else size)
first_fit-Split [] size zero s = refl
first_fit-Split [] size (suc p) s = ground arith
first_fit-Split (x ∷ l) size zero s =
    let fits = s.large 0 (omega arith) (omega arith) in
    let yes_fits : leb size x ≡ true = ground (arith, fits) in
    let there : ltb 0 (suc (length l)) ≡ true = ground arith in rw (yes_fits, there) refl
first_fit-Split (x ∷ l) size (suc p) s =
    let low = s.small 0 (omega arith) in
    let no_fit : leb size x ≡ false = ground (arith, low) in
    let rest = first_fit-Split l size p (record {
      inside = omega (arith, s.inside);
      small = λ i h. s.small (suc i) (omega (arith, h));
      large = λ i h b. s.large (suc i) (omega (arith, h)) (omega (arith, b));
    }) in
    let same : ltb (suc p) (suc (length l)) ≡ ltb p (length l) = ground arith in
    rw (no_fit, same) rest

best_at : List ℕ → ℕ → ℕ
best_at l p = if ltb p (length l) then nth l p else 0

-- The search ends at the split, from any stretch that holds it.
search-Split :
    (fuel : ℕ) (l : List ℕ) (size lo past : ℕ)
    → Ascending l
    → lo ≤ past
    → past ≤ length l
    → past - lo < fuel
    → ((i : ℕ) → i < lo → nth l i < size)
    → ((i : ℕ) → past ≤ i → i < length l → size ≤ nth l i)
    → (p : ℕ) × Split l size p × (search fuel l size lo past (best_at l past) ≡ best_at l p)
unfolding search best_at
search-Split zero l size lo past a h b f s g = absurd (omega (arith, f))
search-Split (suc fuel) l size lo past a h b f s g = elim (Bool-cases (ltb lo past)) [
  | inr e ↦
      let same : lo ≡ past = omega (arith, h, ltb-false lo past e) in
      (
        past,
        record { inside = b; small = λ i k. s i (omega (arith, same, k)); large = g },
        rw e refl,
      )
  | inl e ↦
      let open_stretch = ltb→lt lo past e in
      let mid = (lo + (past - 1)) / 2 in
      let inside : mid < past = omega (arith, open_stretch) in
      let above : lo ≤ mid = omega (arith, open_stretch) in
      elim (Bool-cases (leb size (nth l mid))) [
        | inl c ↦
            let large = leb→le size (nth l mid) c in
            let there : ltb mid (length l) ≡ true = ground (arith, inside, b) in
            let (p, split, found) =
              search-Split fuel l size lo mid a above (omega (arith, inside, b))
                (omega (arith, f, inside, above)) s
                (λ i k q. omega (arith, large, nth_mono l mid i a k q)) in
            (p, split, rw (e, nth_lem l mid, c) (rw there at (found)))
        | inr c ↦
            let small = leb-false size (nth l mid) c in
            let (p, split, found) =
              search-Split fuel l size (mid + 1) past a (omega (arith, inside)) b
                (omega (arith, f, above, inside))
                (λ i k.
                  omega (
                    arith,
                    small,
                    nth_mono l i mid a (omega (arith, k)) (omega (arith, inside, b)),
                  ))
                g in
            (p, split, rw (e, nth_lem l mid, c) found)
      ]
]

nothing_past : (l : List ℕ) → best_at l (length l) ≡ 0
unfolding best_at
nothing_past l = ground arith

bucket-Split :
    (l : List ℕ) (size p : ℕ)
    → 1 ≤ size
    → Split l size p
    → (if ltb 0 (best_at l p) then best_at l p else size)
      ≡ (if ltb p (length l) then nth l p else size)
unfolding best_at
bucket-Split l size p positive s = elim (Bool-cases (ltb p (length l))) [
  | inr e ↦ rw e refl
  | inl e ↦
      let large = s.large p (omega arith) (ltb→lt p (length l) e) in
      let found : ltb 0 (nth l p) ≡ true = ground (arith, large, positive) in rw (e, found) refl
]

-- The binary search of `bucketFor` ends and returns, of the sizes that the pool was constructed with,
-- the smallest that holds the request, and the request itself where none does.
pub bucket_for-first_fit :
    (sizes : List ℕ) (size : ℕ)
    → 1 ≤ size
    → bucket_for (sort_sizes sizes) size ≡ first_fit (sort_sizes sizes) size
unfolding bucket_for
bucket_for-first_fit sizes size positive =
    let l = sort_sizes sizes in
    let (p, split, found) =
      search-Split (suc (length l)) l size 0 (length l) (sort-Ascending sizes) (omega arith)
        (omega arith) (omega arith) (λ i h. absurd (omega (arith, h)))
        (λ i h b. absurd (omega (arith, h, b))) in
    let result : search (suc (length l)) l size 0 (length l) 0 ≡ best_at l p =
      rw (nothing_past l) at (found) in
    rw result (bucket-Split l size p positive split ∙ sym (first_fit-Split l size p split))
