-- ===== src/LazyVault.antt =====
-- `VaultLazyLoader` (infra/storage/vault-lazy-loader.ts): encrypted items by id, and a bounded cache of the
-- decrypted ones.
pub mod Refines
pub mod Overlap
mod Tests
use memphis_v.Base.{
  ℕ, suc, ◌+◌, ◌-◌, max, Text, Bool, true, false, Option, none, some, List, [], ◌∷◌, length, ltb,
  if◌then◌else◌,
}
use memphis_v.Base.Maps.{Map, get, has, set, delete, or_zero}

-- The decryption, which may throw, and `roughSize` of the two kinds of items.
pub record Deps (E D : Type 0) : Type 0 where
  pub decrypt : E → Option D
  pub encrypted_size : E → ℕ
  pub decrypted_size : D → ℕ
  pub max_decrypted_cache : Option ℕ

-- `Math.max(1, options.maxDecryptedCache ?? 100)`
abbrev pub cache_limit : Option ℕ → ℕ
cache_limit none = 100
cache_limit (some n) = max 1 n

pub record Loader (E D : Type 0) : Type 0 where
  pub encrypted : Map E
  pub encrypted_sizes : Map ℕ
  pub decrypted_cache : Map D
  pub decrypted_sizes : Map ℕ
  pub decrypt_ops : ℕ
  pub cache_hits : ℕ
  pub cache_misses : ℕ
  pub estimated_encrypted_bytes : ℕ
  pub estimated_decrypted_bytes : ℕ

abbrev pub new_loader : {E D : Type 0} → Loader E D
new_loader = record {
  encrypted = [];
  encrypted_sizes = [];
  decrypted_cache = [];
  decrypted_sizes = [];
  decrypt_ops = 0;
  cache_hits = 0;
  cache_misses = 0;
  estimated_encrypted_bytes = 0;
  estimated_decrypted_bytes = 0;
}

-- How a `get` starts: with the answer, or with an item to decrypt.
pub data Started (E D : Type 0) : Type 0 where
  answered : Option D → Started E D
  pending : E → Started E D

-- What a call answers.
pub data Answer (D : Type 0) : Type 0 where
  done : Answer D
  deleted : Bool → Answer D
  item : Option D → Answer D
  thrown : Answer D

pub data Op (E : Type 0) : Type 0 where
  put_item : Text → E → Op E
  get_item : Text → Op E
  delete_item : Text → Op E

module _ {E D : Type 0} where
  -- the entry that `touchCache` finds is taken out
  abbrev pub taken_out : Text → Option ℕ → Loader E D → Loader E D
  taken_out id none s = s
  taken_out id (some n) s = record s {
    decrypted_cache = delete id s.decrypted_cache;
    decrypted_sizes = delete id s.decrypted_sizes;
    estimated_decrypted_bytes = s.estimated_decrypted_bytes - n;
  }

  abbrev pub put_in : Deps E D → Text → D → Loader E D → Loader E D
  put_in d id v s = record s {
    decrypted_cache = set id v s.decrypted_cache;
    decrypted_sizes = set id (d.decrypted_size v) s.decrypted_sizes;
    estimated_decrypted_bytes = s.estimated_decrypted_bytes + d.decrypted_size v;
  }

  -- The oldest key is the first one; an empty id passes for none.
  abbrev pub drop_oldest : Map D → Loader E D → Loader E D
  drop_oldest [] s = s
  drop_oldest (([], v) ∷ m) s = s
  drop_oldest ((c ∷ id, v) ∷ m) s = record s {
    decrypted_cache = delete (c ∷ id) s.decrypted_cache;
    decrypted_sizes = delete (c ∷ id) s.decrypted_sizes;
    estimated_decrypted_bytes =
        s.estimated_decrypted_bytes - or_zero (get (c ∷ id) s.decrypted_sizes);
  }

  abbrev pub with_limit : Deps E D → Loader E D → Loader E D
  with_limit d s =
      if ltb (cache_limit d.max_decrypted_cache) (length s.decrypted_cache)
      then drop_oldest s.decrypted_cache s
      else s

  unfoldable pub touch_cache : Deps E D → Text → D → Loader E D → Loader E D
  touch_cache d id v s = with_limit d (put_in d id v (taken_out id (get id s.decrypted_sizes) s))

  -- What `put` and `delete` do to the decrypted side.
  abbrev pub forgotten : Text → Option ℕ → Loader E D → Loader E D
  forgotten id none s = record s { decrypted_cache = delete id s.decrypted_cache }
  forgotten id (some n) s = record s {
    decrypted_cache = delete id s.decrypted_cache;
    decrypted_sizes = delete id s.decrypted_sizes;
    estimated_decrypted_bytes = s.estimated_decrypted_bytes - n;
  }

  unfoldable pub put : Deps E D → Text → E → Loader E D → Loader E D
  put d id e s = forgotten id (get id s.decrypted_sizes) (record s {
    encrypted = set id e s.encrypted;
    encrypted_sizes = set id (d.encrypted_size e) s.encrypted_sizes;
    estimated_encrypted_bytes =
        (s.estimated_encrypted_bytes - or_zero (get id s.encrypted_sizes)) + d.encrypted_size e;
  })

  -- `delete`; a size that is not there is not taken off
  unfoldable pub remove : Text → Loader E D → Bool × Loader E D
  remove id s = (
    has id s.encrypted,
    forgotten id (get id s.decrypted_sizes) (record s {
      encrypted = delete id s.encrypted;
      encrypted_sizes = delete id s.encrypted_sizes;
      estimated_encrypted_bytes = s.estimated_encrypted_bytes - or_zero (get id s.encrypted_sizes);
    }),
  )

  abbrev pub missed : Option E → Loader E D → Started E D × Loader E D
  missed none s = (answered none, s)
  missed (some e) s = (pending e, s)

  abbrev pub looked_up : Deps E D → Text → Option D → Loader E D → Started E D × Loader E D
  looked_up d id (some v) s =
      (answered (some v), touch_cache d id v (record s { cache_hits = s.cache_hits + 1 }))
  looked_up d id none s =
      missed (get id s.encrypted) (record s { cache_misses = s.cache_misses + 1 })

  -- `get` up to the `await`
  unfoldable pub start_get : Deps E D → Text → Loader E D → Started E D × Loader E D
  start_get d id s = looked_up d id (get id s.decrypted_cache) s

  abbrev pub decrypted : Deps E D → Text → Option D → Loader E D → Answer D × Loader E D
  decrypted d id none s = (thrown, s)
  decrypted d id (some v) s =
      (item (some v), touch_cache d id v (record s { decrypt_ops = s.decrypt_ops + 1 }))

  -- `get` behind the `await`, with the item that it decrypts
  unfoldable pub finish_get : Deps E D → Text → E → Loader E D → Answer D × Loader E D
  finish_get d id e s = decrypted d id (d.decrypt e) s

  abbrev pub get_after : Deps E D → Text → Started E D × Loader E D → Answer D × Loader E D
  get_after d id (answered v, s) = (item v, s)
  get_after d id (pending e, s) = finish_get d id e s

  -- `get` that nothing comes between
  unfoldable pub fetch : Deps E D → Text → Loader E D → Answer D × Loader E D
  fetch d id s = get_after d id (start_get d id s)

  unfoldable pub perform : Deps E D → Op E → Loader E D → Answer D × Loader E D
  perform d (put_item id e) s = (done, put d id e s)
  perform d (get_item id) s = fetch d id s
  perform d (delete_item id) s = let r = remove id s in (deleted r.0, r.1)

  unfoldable pub run : Deps E D → List (Op E) → Loader E D → List (Answer D)
  run d [] s = []
  run d (o ∷ os) s = let r = perform d o s in r.0 ∷ run d os r.1
