-- ===== src/Chain/Append/Listing.antt =====
-- What a new file changes in the listing of a chain's blocks (infra/storage/chain-adapter.ts).
use memphis_v.Base.{
  ℕ, suc, ◌≡◌, refl, sym, ap, ◌∙◌, Text, Bool, true, false, some, List, [], ◌∷◌, ◌++◌, codes, arith,
  inl, inr, Bool-cases, Option-cases,
}
use memphis_v.Base.Int.{ℤ, pos, ◌≤ℤ◌}
use memphis_v.Base.Lists.{append_assoc}
use memphis_v.Base.Texts.{text_eq, text_eq_iff}
use memphis_v.Chain.Names.{to_string, block_file, file_index}
use memphis_v.Chain.Names.Numerals.{file_index-block_file, block_file-ends, ends_in_number}
use memphis_v.Chain.Directory.{
  File, Directory, Entry, is_json, indexed, insert_entry, sort_entries, ascending, remove,
}
use memphis_v.Chain.Append.{Call, tmp_name, put_file}

indexed-remove : (t : Text) (d : Directory) → is_json t ≡ false → indexed (remove t d) ≡ indexed d
unfolding indexed remove
indexed-remove t [] h = refl
indexed-remove t (f ∷ d) h = elim (Bool-cases (text_eq f.name t)) [
  | inl e ↦
      let other : is_json f.name ≡ false = ap is_json ((text_eq_iff f.name t).0 e) ∙ h in
      rw (e, other) (indexed-remove t d h)
  | inr e ↦ rw (e, indexed-remove t d h) refl
]

tmp_not_json : (c : Call) (file : Text) → is_json (tmp_name c file) ≡ false
tmp_not_json c file =
    ap is_json (
      sym (
        append_assoc file (codes ".tmp-" ++ (to_string c.pid ++ codes "-")) (to_string c.now_ms)
        ∙ ap (λ s. file ++ (codes ".tmp-" ++ s))
            (append_assoc (to_string c.pid) (codes "-") (to_string c.now_ms))))
    ∙ ends_in_number (file ++ (codes ".tmp-" ++ (to_string c.pid ++ codes "-"))) c.now_ms

-- A temporary file is not listed, neither while it is there nor when it is gone.
pub indexed-tmp :
    (c : Call) (file content : Text) (d : Directory)
    → indexed (put_file (tmp_name c file) content d) ≡ indexed d
unfolding indexed
indexed-tmp c file content d =
    rw (tmp_not_json c file) (indexed-remove (tmp_name c file) d (tmp_not_json c file))

pub indexed-untmp :
    (c : Call) (file : Text) (d : Directory) → indexed (remove (tmp_name c file) d) ≡ indexed d
indexed-untmp c file d = indexed-remove (tmp_name c file) d (tmp_not_json c file)

-- No listed name has an index above `n`.
abbrev pub Below : ℕ → List Entry → Type 0
Below n [] = Unit {0}
Below n (e ∷ es) = (e.1 ≤ℤ pos n) × Below n es

listed :
    (f : File) (d : Directory) (i : ℤ)
    → is_json f.name ≡ true
    → file_index f.name ≡ some i
    → indexed (f ∷ d) ≡ (f, i) ∷ indexed d
unfolding indexed
listed f d i j q = rw (j, q) refl

Below-tail : (n : ℕ) (f : File) (d : Directory) → Below n (indexed (f ∷ d)) → Below n (indexed d)
unfolding indexed
Below-tail n f d h = elim (Bool-cases (is_json f.name)) [
  | inr j ↦ rw j at (h)
  | inl j ↦ elim (Option-cases (file_index f.name)) [
    | inl q ↦ rw (j, q) at (h)
    | inr (i, q) ↦ (rw (j, q) at (h)).1
  ]
]

Below-head :
    (n : ℕ) (f : File) (d : Directory) (i : ℤ)
    → is_json f.name ≡ true
    → file_index f.name ≡ some i
    → Below n (indexed (f ∷ d))
    → i ≤ℤ pos n
Below-head n f d i j q h = (rw (listed f d i j q) at (h)).0

pub Below-suc : (n : ℕ) (es : List Entry) → Below n es → Below (suc n) es
Below-suc n [] h = tt
Below-suc n (e ∷ es) h = (omega (arith, h.0), Below-suc n es h.1)

-- The file of the next block is new.
pub indexed-remove_next :
    (n : ℕ) (d : Directory)
    → Below n (indexed d)
    → indexed (remove (block_file (suc n)) d) ≡ indexed d
unfolding indexed remove
indexed-remove_next n [] h = refl
indexed-remove_next n (f ∷ d) h = elim (Bool-cases (text_eq f.name (block_file (suc n)))) [
  | inl e ↦
      let same : f.name ≡ block_file (suc n) = (text_eq_iff f.name (block_file (suc n))).0 e in
      absurd (
        omega (
          arith,
          Below-head n f d (pos (suc n)) (ap is_json same ∙ block_file-ends (suc n))
              (ap file_index same ∙ file_index-block_file (suc n)) h,
        ))
  | inr e ↦ rw (e, indexed-remove_next n d (Below-tail n f d h)) refl
]

pub indexed-put_next :
    (n : ℕ) (content : Text) (d : Directory)
    → Below n (indexed d)
    → indexed (put_file (block_file (suc n)) content d)
      ≡ (record { name = block_file (suc n); content = content; is_file = true }, pos (suc n))
        ∷ indexed d
indexed-put_next n content d h =
    listed _ _ _ (block_file-ends (suc n)) (file_index-block_file (suc n))
    ∙ ap
        (λ es.
          (record { name = block_file (suc n); content = content; is_file = true }, pos (suc n))
          ∷ es)
        (indexed-remove_next n d h)

-- An entry with a higher index than all others is sorted to the end.
insert_last :
    (n : ℕ) (f : File) (es : List Entry)
    → Below n es
    → insert_entry ascending (f, pos (suc n)) es ≡ es ++ (f, pos (suc n)) ∷ []
unfolding insert_entry
insert_last n f [] h = refl
insert_last n f (e ∷ es) h =
    let first : ascending e.1 (pos (suc n)) ≡ true = ground (arith, h.0) in
    rw (first, insert_last n f es h.1) refl

pub Below-insert :
    (before : ℤ → ℤ → Bool) (n : ℕ) (e : Entry) (es : List Entry)
    → e.1 ≤ℤ pos n
    → Below n es
    → Below n (insert_entry before e es)
unfolding insert_entry
Below-insert before n e [] h k = (h, tt)
Below-insert before n e (x ∷ es) h k = elim (Bool-cases (before x.1 e.1)) [
  | inl q ↦ rw q (k.0, Below-insert before n e es h k.1)
  | inr q ↦ rw q (h, k)
]

Below-sort : (n : ℕ) (es : List Entry) → Below n es → Below n (sort_entries ascending es)
unfolding sort_entries
Below-sort n [] h = tt
Below-sort n (e ∷ es) h =
    Below-insert ascending n e (sort_entries ascending es) h.0 (Below-sort n es h.1)

pub sort_last :
    (n : ℕ) (f : File) (es : List Entry)
    → Below n es
    → sort_entries ascending ((f, pos (suc n)) ∷ es)
      ≡ sort_entries ascending es ++ (f, pos (suc n)) ∷ []
unfolding sort_entries
sort_last n f es h = insert_last n f (sort_entries ascending es) (Below-sort n es h)
