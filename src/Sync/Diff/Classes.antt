-- ===== src/Sync/Diff/Classes.antt =====
-- Every key of the two copies falls into its class (sync/chain-diff.ts).
use memphis_v.Base.{
  ◌≡◌, refl, ap, sym, ◌∙◌, Text, true, false, Option, none, some, List, [], ◌∷◌, select, inl, inr,
  Bool-cases, Option-cases, if◌then◌else◌,
}
use memphis_v.Base.Maps.{Map, get, set, Distinct, set-Distinct}
use memphis_v.Base.Texts.{text_eq, text_eq_iff, text_eq_refl}
use memphis_v.Sync.Diff.{
  Platform, Block, block_key, block_fingerprint, add_all, keyed, Conflict, unpaired, clashing,
  detect_chain_diff,
}

-- Each block stands under its own key.
abbrev pub Keyed : Platform → Map Block → Type 0
Keyed p [] = Unit {0}
Keyed p ((k, b) ∷ m) = (block_key p b ≡ k) × Keyed p m

pub set-Keyed :
    (p : Platform) (b : Block) (m : Map Block) → Keyed p m → Keyed p (set (block_key p b) b m)
unfolding set
set-Keyed p b [] h = (refl, tt)
set-Keyed p b ((q, c) ∷ m) h = elim (Bool-cases (text_eq q (block_key p b))) [
  | inl e ↦ rw e (sym ((text_eq_iff q (block_key p b)).0 e), h.1)
  | inr e ↦ rw e (h.0, set-Keyed p b m h.1)
]

pub add_all-Keyed :
    (p : Platform) (bs : List Block) (m : Map Block) → Keyed p m → Keyed p (add_all p bs m)
unfolding add_all
add_all-Keyed p [] m h = h
add_all-Keyed p (b ∷ bs) m h = add_all-Keyed p bs _ (set-Keyed p b m h)

pub add_all-Distinct :
    (p : Platform) (bs : List Block) (m : Map Block) → Distinct m → Distinct (add_all p bs m)
unfolding add_all
add_all-Distinct p [] m h = h
add_all-Distinct p (b ∷ bs) m h = add_all-Distinct p bs _ (set-Distinct (block_key p b) b m h)

-- The blocks of a list with a key.
abbrev pub with_key : Platform → Text → List Block → List Block
with_key p k bs = select (λ b. text_eq (block_key p b) k) bs

abbrev pub conflicts_at : Text → List Conflict → List Conflict
conflicts_at k cs = select (λ c. text_eq c.key k) cs

-- What the diff should hold of a key, by the block of each side.
abbrev pub lone : Option Block → Option Block → List Block
lone (some b) none = b ∷ []
lone _ _ = []

abbrev pub clash : Platform → Text → Option Block → Option Block → List Conflict
clash p k (some b) (some c) =
    if text_eq (block_fingerprint p b) (block_fingerprint p c)
    then []
    else record { key = k; local = b; remote = c } ∷ []
clash p k _ _ = []

lone-none : (o : Option Block) → lone none o ≡ []
lone-none none = refl
lone-none (some b) = refl

module _ (p : Platform) (k : Text) (other : Map Block) where
  unpaired-key :
      (m : Map Block)
      → Keyed p m
      → Distinct m
      → with_key p k (unpaired m other) ≡ lone (get k m) (get k other)
  unfolding unpaired get
  unpaired-key [] h d = sym (lone-none (get k other))
  unpaired-key ((q, b) ∷ m) h d = elim (Bool-cases (text_eq q k)) [
    | inl e ↦
        let same : q ≡ k = (text_eq_iff q k).0 e in
        let own : text_eq (block_key p b) k ≡ true =
          (text_eq_iff (block_key p b) k).1 (h.0 ∙ same) in
        let rest : with_key p k (unpaired m other) ≡ [] =
          unpaired-key m h.1 d.1
          ∙ (ap (λ o. lone o (get k other)) (rw same at (d.0)) ∙ lone-none (get k other)) in
        elim (Option-cases (get k other)) [
          | inl o ↦ rw (e, same, o, own, rest) refl
          | inr (c, o) ↦ rw (e, same, o) rest
        ]
    | inr e ↦
        let apart : text_eq (block_key p b) k ≡ false = rw h.0 e in
        elim (Option-cases (get q other)) [
          | inl o ↦ rw (e, o, apart) (unpaired-key m h.1 d.1)
          | inr (c, o) ↦ rw (e, o) (unpaired-key m h.1 d.1)
        ]
  ]

clash-none : (p : Platform) (k : Text) (o : Option Block) → clash p k none o ≡ []
clash-none p k none = refl
clash-none p k (some b) = refl

module _ (p : Platform) (k : Text) (other : Map Block) where
  clashing-key :
      (m : Map Block)
      → Distinct m
      → conflicts_at k (clashing p m other) ≡ clash p k (get k m) (get k other)
  unfolding clashing get
  clashing-key [] d = sym (clash-none p k (get k other))
  clashing-key ((q, b) ∷ m) d = elim (Bool-cases (text_eq q k)) [
    | inl e ↦
        let same : q ≡ k = (text_eq_iff q k).0 e in
        let rest : conflicts_at k (clashing p m other) ≡ [] =
          clashing-key m d.1
          ∙ (ap (λ o. clash p k o (get k other)) (rw same at (d.0))
              ∙ clash-none p k (get k other)) in
        elim (Option-cases (get k other)) [
          | inl o ↦ rw (e, same, o) rest
          | inr (c, o) ↦
              elim (Bool-cases (text_eq (block_fingerprint p b) (block_fingerprint p c))) [
                | inl f ↦ rw (e, same, o, f) rest
                | inr f ↦ rw (e, same, o, f, text_eq_refl k, rest) refl
              ]
        ]
    | inr e ↦ elim (Option-cases (get q other)) [
      | inl o ↦ rw (e, o) (clashing-key m d.1)
      | inr (c, o) ↦ elim (Bool-cases (text_eq (block_fingerprint p b) (block_fingerprint p c))) [
        | inl f ↦ rw (e, o, f) (clashing-key m d.1)
        | inr f ↦ rw (e, o, f, e) (clashing-key m d.1)
      ]
    ]
  ]

-- `detectChainDiff` lists a block under a key exactly as the two maps of the sides say: under
-- localOnly or remoteOnly if only that side has the key, under conflicts if both have it with
-- different fingerprints, and nowhere if both have it with the same; and never twice.
pub diff_classes :
    (p : Platform) (local remote : List Block) (k : Text)
    → (with_key p k (detect_chain_diff p local remote).local_only
        ≡ lone (get k (keyed p local)) (get k (keyed p remote)))
      × (with_key p k (detect_chain_diff p local remote).remote_only
          ≡ lone (get k (keyed p remote)) (get k (keyed p local)))
      × (conflicts_at k (detect_chain_diff p local remote).conflicts
          ≡ clash p k (get k (keyed p local)) (get k (keyed p remote)))
unfolding detect_chain_diff
diff_classes p local remote k = (
  unpaired-key p k (keyed p remote) (keyed p local) (add_all-Keyed p local [] tt)
      (add_all-Distinct p local [] tt),
  unpaired-key p k (keyed p local) (keyed p remote) (add_all-Keyed p remote [] tt)
      (add_all-Distinct p remote [] tt),
  clashing-key p k (keyed p remote) (keyed p local) (add_all-Distinct p local [] tt),
)
