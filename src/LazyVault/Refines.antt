-- ===== src/LazyVault/Refines.antt =====
-- What a `VaultLazyLoader` promises (infra/storage/vault-lazy-loader.ts): a map of encrypted items, each decrypted
-- whenever it is asked for.
use memphis_v.Base.{
  ℕ, ◌≡◌, refl, sym, ◌∙◌, ap, inl, inr, Text, Option, none, some, List, [], ◌∷◌, ◌+◌, length, ltb,
  Bool-cases, Option-cases, text_eq, text_eq_iff, arith,
}
use memphis_v.Base.Maps.{Map, get, has, set, delete, get-set, get-delete}
use memphis_v.LazyVault.{
  Deps, Loader, cache_limit, new_loader, Answer, done, deleted, item, thrown, Op, put_item,
  get_item, delete_item, taken_out, put_in, drop_oldest, with_limit, touch_cache, forgotten, put,
  remove, missed, start_get, finish_get, get_after, fetch, perform, run,
}

module _ {E D : Type 0} (d : Deps E D) where
  -- The specification: the item under an id is decrypted at every call.
  abbrev pub opened : Option E → Option D
  opened none = none
  opened (some e) = d.decrypt e

  abbrev pub answer_of : Option E → Answer D
  answer_of none = item none
  answer_of (some e) = elim (d.decrypt e) [ none ↦ thrown | some v ↦ item (some v) ]

  abbrev pub spec_step : Op E → Map E → Answer D × Map E
  spec_step (put_item id e) m = (done, set id e m)
  spec_step (get_item id) m = (answer_of (get id m), m)
  spec_step (delete_item id) m = (deleted (has id m), delete id m)

  abbrev pub spec_run : List (Op E) → Map E → List (Answer D)
  spec_run [] m = []
  spec_run (o ∷ os) m = let r = spec_step o m in r.0 ∷ spec_run os r.1

  -- What the cache holds under an id is the decryption of what is stored under it.
  abbrev Coherent : Map E → Map D → Type 0
  Coherent m c = (q : Text) (w : D) → get q c ≡ some w → opened (get q m) ≡ some w

  delete-Coherent : (id : Text) (m : Map E) (c : Map D) → Coherent m c → Coherent m (delete id c)
  delete-Coherent id m c h q w e = elim (Bool-cases (text_eq id q)) [
    | inl t ↦ let at = get-delete q id c in absurd (ground (arith, at, t, e))
    | inr t ↦ h q w (let at = get-delete q id c in ground (arith, at, t, e))
  ]

  set-Coherent :
      (id : Text) (v : D) (m : Map E) (c : Map D)
      → opened (get id m) ≡ some v
      → Coherent m c
      → Coherent m (set id v c)
  set-Coherent id v m c o h q w e = elim (Bool-cases (text_eq id q)) [
    | inl t ↦
        let same : id ≡ q = (text_eq_iff id q).0 t in
        let at : some v ≡ some w = sym (rw (get-set q id v c, t) refl) ∙ e in rw (← same) (o ∙ at)
    | inr t ↦ h q w (let at = get-set q id v c in ground (arith, at, t, e))
  ]

  put-Coherent :
      (id : Text) (e : E) (m : Map E) (c : Map D)
      → Coherent m c
      → Coherent (set id e m) (delete id c)
  put-Coherent id x m c h q w e = elim (Bool-cases (text_eq id q)) [
    | inl t ↦ let at = get-delete q id c in absurd (ground (arith, at, t, e))
    | inr t ↦
        let kept : get q c ≡ some w = let at = get-delete q id c in ground (arith, at, t, e) in
        rw (get-set q id x m, t) (h q w kept)
  ]

  remove-Coherent :
      (id : Text) (m : Map E) (c : Map D) → Coherent m c → Coherent (delete id m) (delete id c)
  remove-Coherent id m c h q w e = elim (Bool-cases (text_eq id q)) [
    | inl t ↦ let at = get-delete q id c in absurd (ground (arith, at, t, e))
    | inr t ↦
        let kept : get q c ≡ some w = let at = get-delete q id c in ground (arith, at, t, e) in
        rw (get-delete q id m, t) (h q w kept)
  ]

  -- A loader holds a map and a cache that agrees with it.
  abbrev Holds : Map E → Loader E D → Type 0
  Holds m s = (s.encrypted ≡ m) × Coherent m s.decrypted_cache

  taken_out-Holds :
      (id : Text) (o : Option ℕ) (m : Map E) (s : Loader E D)
      → Holds m s
      → Holds m (taken_out id o s)
  taken_out-Holds id none m s h = h
  taken_out-Holds id (some n) m s h = (h.0, delete-Coherent id m s.decrypted_cache h.1)

  drop_oldest-Holds :
      (c : Map D) (m : Map E) (s : Loader E D) → Holds m s → Holds m (drop_oldest c s)
  drop_oldest-Holds [] m s h = h
  drop_oldest-Holds (([], v) ∷ c) m s h = h
  drop_oldest-Holds ((x ∷ id, v) ∷ c) m s h =
      (h.0, delete-Coherent (x ∷ id) m s.decrypted_cache h.1)

  with_limit-Holds : (m : Map E) (s : Loader E D) → Holds m s → Holds m (with_limit d s)
  with_limit-Holds m s h =
      elim (Bool-cases (ltb (cache_limit d.max_decrypted_cache) (length s.decrypted_cache))) [
        | inl e ↦ rw e (drop_oldest-Holds s.decrypted_cache m s h)
        | inr e ↦ rw e h
      ]

  touch-Holds :
      (id : Text) (v : D) (m : Map E) (s : Loader E D)
      → opened (get id m) ≡ some v
      → Holds m s
      → Holds m (touch_cache d id v s)
  unfolding touch_cache
  touch-Holds id v m s o h =
      let t = taken_out id (get id s.decrypted_sizes) s in
      let k = taken_out-Holds id (get id s.decrypted_sizes) m s h in
      with_limit-Holds m (put_in d id v t) (k.0, set-Coherent id v m t.decrypted_cache o k.1)

  forgotten-Holds :
      (id : Text) (o : Option ℕ) (m : Map E) (s : Loader E D)
      → s.encrypted ≡ m
      → Coherent m (delete id s.decrypted_cache)
      → Holds m (forgotten id o s)
  forgotten-Holds id none m s e h = (e, h)
  forgotten-Holds id (some n) m s e h = (e, h)

  found : (o : Option E) (v : D) → opened o ≡ some v → item (some v) ≡ answer_of o
  found none v e = absurd (ground (arith, e))
  found (some x) v e = rw (e, answer_of) refl

  finish-Holds :
      (id : Text) (x : E) (m : Map E) (s : Loader E D)
      → get id m ≡ some x
      → Holds m s
      → ((finish_get d id x s).0 ≡ answer_of (some x)) × Holds m (finish_get d id x s).1
  unfolding finish_get
  finish-Holds id x m s g h = elim (Option-cases (d.decrypt x)) [
    | inl e ↦ rw (e, answer_of) (refl, h)
    | inr (v, e) ↦
        let o : opened (get id m) ≡ some v = rw g e in
        rw (e, answer_of)
          (refl, touch-Holds id v m (record s { decrypt_ops = s.decrypt_ops + 1 }) o h)
  ]

  missed-Holds :
      (id : Text) (o : Option E) (m : Map E) (s : Loader E D)
      → get id m ≡ o
      → Holds m s
      → ((get_after d id (missed o s)).0 ≡ answer_of o) × Holds m (get_after d id (missed o s)).1
  missed-Holds id none m s g h = (refl, h)
  missed-Holds id (some x) m s g h = finish-Holds id x m s g h

  -- Each call answers as the specification does and keeps the two together.
  fetch-Holds :
      (id : Text) (m : Map E) (s : Loader E D)
      → Holds m s
      → ((fetch d id s).0 ≡ answer_of (get id m)) × Holds m (fetch d id s).1
  unfolding fetch start_get
  fetch-Holds id m s h = elim (Option-cases (get id s.decrypted_cache)) [
    | inr (v, e) ↦
        let o = h.1 id v e in
        rw e (
          found (get id m) v o,
          touch-Holds id v m (record s { cache_hits = s.cache_hits + 1 }) o h,
        )
    | inl e ↦
        let same : get id s.encrypted ≡ get id m = ap (get id) h.0 in
        rw (e, same)
          (missed-Holds id (get id m) m (record s { cache_misses = s.cache_misses + 1 }) refl h)
  ]

  perform-Holds :
      (o : Op E) (m : Map E) (s : Loader E D)
      → Holds m s
      → ((perform d o s).0 ≡ (spec_step o m).0) × Holds (spec_step o m).1 (perform d o s).1
  unfolding perform put remove
  perform-Holds (put_item id x) m s h = (
    refl,
    forgotten-Holds id (get id s.decrypted_sizes) (set id x m) _ (ap (set id x) h.0)
        (put-Coherent id x m s.decrypted_cache h.1),
  )
  perform-Holds (get_item id) m s h = fetch-Holds id m s h
  perform-Holds (delete_item id) m s h = (
    ap (λ n. deleted (has id n)) h.0,
    forgotten-Holds id (get id s.decrypted_sizes) (delete id m) _ (ap (delete id) h.0)
        (remove-Coherent id m s.decrypted_cache h.1),
  )

  run-spec :
      (os : List (Op E)) (m : Map E) (s : Loader E D) → Holds m s → run d os s ≡ spec_run os m
  unfolding run
  run-spec [] m s h = refl
  run-spec (o ∷ os) m s h =
      let (a, k) = perform-Holds o m s h in
      rw (a, run-spec os (spec_step o m).1 (perform d o s).1 k) refl

  -- Whatever is put, deleted and asked for, one call after the other, a new loader answers as a map of
  -- the encrypted items would that decrypts an item each time it is asked for: the cache, its limit and
  -- its evictions do not show. It is assumed that the decryption is a function of the item.
  pub loader_refines_map : (os : List (Op E)) → run d os new_loader ≡ spec_run os []
  unfolding get
  loader_refines_map os = run-spec os [] new_loader (refl, λ q w e. absurd (ground (arith, e)))
