-- ===== src/LazyVault/Overlap.antt =====
-- A `delete` of a `VaultLazyLoader` while a `get` decrypts (infra/storage/vault-lazy-loader.ts).
use memphis_v.Base.{
  ℕ, suc, ◌≡◌, ◌≤◌, ◌<◌, refl, Text, false, Option, none, some, [], ◌∷◌, ◌+◌, length, ltb,
  text_eq_refl, arith,
}
use memphis_v.Base.Maps.{Map, get, set, delete, get-set, length-set}
use memphis_v.LazyVault.{
  Deps, Loader, cache_limit, pending, item, taken_out, put_in, touch_cache, forgotten, remove,
  start_get, finish_get, fetch,
}

length-delete_le : {V : Type 0} (k : Text) (m : Map V) → length (delete k m) ≤ length m
unfolding delete
length-delete_le k [] = omega arith
length-delete_le k ((q, w) ∷ m) = ground (arith, length-delete_le k m)

length-set_le : {V : Type 0} (k : Text) (v : V) (m : Map V) → length (set k v m) ≤ suc (length m)
length-set_le k v m = ground (arith, length-set k v m)

get-set_same : {V : Type 0} (k : Text) (v : V) (m : Map V) → get k (set k v m) ≡ some v
get-set_same k v m = rw (get-set k k v m, text_eq_refl k) refl

module _ {E D : Type 0} (d : Deps E D) (id : Text) where
  taken_out-length :
      (o : Option ℕ) (s : Loader E D)
      → length (taken_out id o s).decrypted_cache ≤ length s.decrypted_cache
  taken_out-length none s = omega arith
  taken_out-length (some n) s = length-delete_le id s.decrypted_cache

  -- Where the cache has room, what is touched stands in it.
  touch-get :
      (v : D) (s : Loader E D)
      → length s.decrypted_cache < cache_limit d.max_decrypted_cache
      → get id (touch_cache d id v s).decrypted_cache ≡ some v
  unfolding touch_cache
  touch-get v s room =
      let t = taken_out id (get id s.decrypted_sizes) s in
      let shorter = taken_out-length (get id s.decrypted_sizes) s in
      let longer = length-set_le id v t.decrypted_cache in
      let full : ltb (cache_limit d.max_decrypted_cache) (length (put_in d id v t).decrypted_cache)
          ≡ false =
        ground (arith, room, shorter, longer) in
      rw full (get-set_same id v t.decrypted_cache)

  forgotten-cache :
      (o : Option ℕ) (s : Loader E D)
      → (forgotten id o s).decrypted_cache ≡ delete id s.decrypted_cache
  forgotten-cache none s = refl
  forgotten-cache (some n) s = refl

  finish-get :
      (x : E) (v : D) (s : Loader E D)
      → d.decrypt x ≡ some v
      → length s.decrypted_cache < cache_limit d.max_decrypted_cache
      → get id (finish_get d id x s).1.decrypted_cache ≡ some v
  unfolding finish_get
  finish-get x v s e room = rw e (touch-get v (record s { decrypt_ops = s.decrypt_ops + 1 }) room)

  remove-length :
      (s : Loader E D) → length (remove id s).1.decrypted_cache ≤ length s.decrypted_cache
  unfolding remove
  remove-length s =
      rw (forgotten-cache (get id s.decrypted_sizes) _) (length-delete_le id s.decrypted_cache)

  fetch-cached :
      (v : D) (s : Loader E D)
      → get id s.decrypted_cache ≡ some v
      → (fetch d id s).0 ≡ item (some v)
  unfolding fetch start_get
  fetch-cached v s e = rw e refl

  -- An item is deleted between the start of a `get` that has to decrypt it and its end: if the cache has
  -- room, a later `get` still returns the decrypted item.
  pub deleted_comes_back :
      (x : E) (v : D) (s : Loader E D)
      → get id s.decrypted_cache ≡ none
      → get id s.encrypted ≡ some x
      → d.decrypt x ≡ some v
      → length s.decrypted_cache < cache_limit d.max_decrypted_cache
      → ((start_get d id s).0 ≡ pending x)
        × ((fetch d id (finish_get d id x (remove id (start_get d id s).1).1).1).0 ≡ item (some v))
  unfolding start_get
  deleted_comes_back x v s cold stored opens room =
      let s1 = record s { cache_misses = s.cache_misses + 1 } in
      let less = remove-length s1 in
      let spare : length (remove id s1).1.decrypted_cache < cache_limit d.max_decrypted_cache =
        ground (arith, less, room) in
      rw (cold, stored) (refl, fetch-cached v _ (finish-get x v (remove id s1).1 opens spare))
