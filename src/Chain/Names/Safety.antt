-- ===== src/Chain/Names/Safety.antt =====
-- Which directories `resolveChainDir` returns (infra/storage/chain-adapter.ts).
use memphis_v.Base.{
  ℕ, ◌≡◌, ◌↔◌, refl, Text, Bool, true, false, ◌&&◌, ◌||◌, [], ◌∷◌, ◌++◌, length, ◌==◌, codes, ok,
  arith, inl, inr, Bool-cases, ==_iff,
}
use memphis_v.Base.Texts.{text_eq}
use memphis_v.Approval.Identity.{trim}
use memphis_v.Chain.Names.{
  Paths, includes, starts_with, safe_chain_name, all_safe, resolve_chain_dir, is_safe_char,
  checked_link,
}

both_true : (a b : Bool) → (a && b) ≡ true → (a ≡ true) × (b ≡ true)
both_true a b h = ground (arith, h)

-- A text of safe characters includes nothing that starts with another one.
module _ (c : ℕ) (t : Text) (unsafe : is_safe_char c ≡ false) where
  not_included : (s : Text) → all_safe s ≡ true → includes (c ∷ t) s ≡ false
  unfolding includes starts_with all_safe
  not_included [] h = refl
  not_included (d ∷ s) h =
      let (safe, rest) = both_true (is_safe_char d) (all_safe s) h in
      let other : (c == d) ≡ false = elim (Bool-cases (c == d)) [
        | inl e ↦
            let same : c ≡ d = (==_iff c d).0 e in
            let clash : is_safe_char d ≡ false = rw same at (unsafe) in cc
        | inr e ↦ e
      ] in
      rw (other, not_included s rest) refl

-- What the earlier guards ask of a safe name.
module _ (s : Text) (safe : safe_chain_name s ≡ true) where
  chars_safe : all_safe s ≡ true
  unfolding safe_chain_name
  chars_safe = ground (arith, safe)

  not_empty : (length s == 0) ≡ false
  unfolding safe_chain_name
  not_empty = ground (arith, safe)

  no_dots : includes (codes "..") s ≡ false
  no_dots = not_included b'.' (b'.' ∷ []) refl s chars_safe

  no_slash : includes (codes "/") s ≡ false
  no_slash = not_included b'/' [] refl s chars_safe

  no_backslash : includes (codes "\\") s ≡ false
  no_backslash = not_included b'\\' [] refl s chars_safe

passes_link : (b : Bool) (target : Text) → checked_link b target ≡ ok target
passes_link true target = refl
passes_link false target = refl

resolved_safe :
    (d : Paths) (name target : Text)
    → resolve_chain_dir d name ≡ ok target
    → (target ≡ d.resolve d.chains_root (trim name))
      × (safe_chain_name (trim name) ≡ true)
      × (includes (0 ∷ []) name ≡ false)
      × ((text_eq target d.chains_root || starts_with (d.chains_root ++ d.sep) target) ≡ true)
unfolding resolve_chain_dir
resolved_safe d name target h = ground (
  arith,
  h,
  passes_link (d.is_symbolic_link (d.resolve d.chains_root (trim name)))
      (d.resolve d.chains_root (trim name)),
)

safe_resolved :
    (d : Paths) (name target : Text)
    → (target ≡ d.resolve d.chains_root (trim name))
      × (safe_chain_name (trim name) ≡ true)
      × (includes (0 ∷ []) name ≡ false)
      × ((text_eq target d.chains_root || starts_with (d.chains_root ++ d.sep) target) ≡ true)
    → resolve_chain_dir d name ≡ ok target
unfolding resolve_chain_dir
safe_resolved d name target (e, safe, nul, inside) =
    let target_inside = rw e at (inside) in
    ground (
      arith,
      e,
      safe,
      nul,
      target_inside,
      not_empty (trim name) safe,
      no_dots (trim name) safe,
      no_slash (trim name) safe,
      no_backslash (trim name) safe,
      passes_link (d.is_symbolic_link (d.resolve d.chains_root (trim name)))
          (d.resolve d.chains_root (trim name)),
    )

-- `resolveChainDir` returns a directory exactly for a name that, trimmed, is 1 to 64 letters, digits,
-- underscores and dashes, has no NUL character before trimming, and that `path.resolve` keeps at or
-- below the configured root; it returns that path.
pub resolved_inside :
    (d : Paths) (name target : Text)
    → (resolve_chain_dir d name ≡ ok target) ↔ (
        (target ≡ d.resolve d.chains_root (trim name))
        × (safe_chain_name (trim name) ≡ true)
        × (includes (0 ∷ []) name ≡ false)
        × ((text_eq target d.chains_root || starts_with (d.chains_root ++ d.sep) target) ≡ true))
resolved_inside d name target = (resolved_safe d name target, safe_resolved d name target)

-- A symbolic link does not change the answer.
pub symbolic_link_passes :
    (d : Paths) (name : Text)
    → resolve_chain_dir d name
      ≡ resolve_chain_dir (record d { is_symbolic_link = λ path. false }) name
unfolding resolve_chain_dir
symbolic_link_passes d name =
    rw (passes_link (d.is_symbolic_link (d.resolve d.chains_root (trim name))) _) refl
