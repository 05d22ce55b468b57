-- ===== src/LazyVault/Tests.antt =====
-- A small `VaultLazyLoader` (infra/storage/vault-lazy-loader.ts).
use memphis_v.Base.{◌≡◌, refl, Text, codes, none, some, List, [], ◌∷◌, length, arith}
use memphis_v.Base.Texts.{text_eq}
use memphis_v.Base.Maps.{get}
use memphis_v.LazyVault.{
  Deps, Loader, new_loader, pending, item, put_item, get_item, delete_item, Op, remove, start_get,
  finish_get, fetch, run,
}
use memphis_v.LazyVault.Refines.{spec_run, loader_refines_map}
use memphis_v.LazyVault.Overlap.{deleted_comes_back}

-- An item is its text and one more character in front.
abbrev deps : Deps Text Text
deps = record {
  decrypt = λ e. elim e [ [] ↦ none | c ∷ s ↦ some s ];
  encrypted_size = length;
  decrypted_size = length;
  max_decrypted_cache = some 1;
}

abbrev calls : List (Op Text)
calls =
    put_item (codes "a") (codes "xone")
    ∷ get_item (codes "a")
    ∷ put_item (codes "b") (codes "xtwo")
    ∷ get_item (codes "b")
    ∷ delete_item (codes "a")
    ∷ get_item (codes "a")
    ∷ []

loader_refines_map_example : run deps calls new_loader ≡ spec_run deps calls []
loader_refines_map_example = loader_refines_map deps calls

abbrev stored : Loader Text Text
stored = record new_loader { encrypted = (codes "a", codes "xone") ∷ [] }

deleted_comes_back_example :
    ((start_get deps (codes "a") stored).0 ≡ pending (codes "xone"))
    × ((fetch deps
          (codes "a")
          (finish_get deps
            (codes "a")
            (codes "xone")
            (remove (codes "a") (start_get deps (codes "a") stored).1).1).1).0
        ≡ item (some (codes "one")))
unfolding get text_eq
deleted_comes_back_example =
    deleted_comes_back deps (codes "a") (codes "xone") (codes "one") stored refl refl refl
      (omega arith)
