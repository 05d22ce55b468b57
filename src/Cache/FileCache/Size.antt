-- ===== src/Cache/FileCache/Size.antt =====
-- The size that a `FileCache` keeps of its entries, through a read (cache/file-cache.ts).
use memphis_v.Base.{
  ℕ, zero, suc, ◌+◌, ◌≤◌, ◌<◌, ◌≡◌, ◌⊎◌, refl, ap, sym, ◌∙◌, Text, false, ◌==◌, none, some, [],
  length, ==_iff, ltb, ltb→lt, ltb-false, arith, inl, inr, Bool-cases, Option-cases,
}
use memphis_v.Base.Maps.{Map, get, set, get-set, get-delete, set-Distinct, length-set}
use memphis_v.Base.Texts.{text_eq_refl}
use memphis_v.Cache.FileCache.{
  Entry, FileCache, evict, evict_oldest, make_room, start_read, entered, after_start, finish_read,
  read,
}
use memphis_v.Base.Texts.{filled_apart}
use memphis_v.Cache.FileCache.Evict.{
  total_size, size_of, total_size-set, IsExact, evict-IsExact, evict_oldest-Smaller,
}

-- Within the limit, or with one file alone.
abbrev pub Fits : FileCache → Type 0
Fits c = (c.current_size ≤ c.max_size) ⊎ (length c.entries ≤ 1)

record Room (size : ℕ) (c d : FileCache) : Type 0 where
  exact : IsExact d
  fits : (d.current_size + size ≤ d.max_size) ⊎ (length d.entries ≡ 0)
  limit : d.max_size ≡ c.max_size
  absent : (k : Text) → get k c.entries ≡ none → get k d.entries ≡ none

-- With more fuel than entries the loop ends with room for the file, or with no entry left.
make_room-ends :
    (fuel size : ℕ) (c : FileCache)
    → IsExact c
    → length c.entries < fuel
    → (d : FileCache) × (make_room fuel size c ≡ some d) × Room size c d
unfolding make_room
make_room-ends zero size c h f = absurd (omega (arith, f))
make_room-ends (suc fuel) size c h f = elim (Bool-cases (ltb c.max_size (c.current_size + size))) [
  | inr e ↦ (
    c,
    rw e refl,
    record {
      exact = h;
      fits = inl (ltb-false c.max_size (c.current_size + size) e);
      limit = refl;
      absent = λ k n. n;
    },
  )
  | inl e ↦ elim (Bool-cases (ltb 0 (length c.entries))) [
    | inr z ↦ (
      c,
      rw (e, z) refl,
      record {
        exact = h;
        fits = inr (omega (arith, ltb-false 0 (length c.entries) z));
        limit = refl;
        absent = λ k n. n;
      },
    )
    | inl z ↦
        let less = evict_oldest-Smaller c h (ltb→lt 0 (length c.entries) z) in
        let (d, ended, room) =
          make_room-ends fuel size (evict_oldest c) less.exact (omega (arith, f, less.fewer)) in
        (
          d,
          rw (e, z) ended,
          record {
            exact = room.exact;
            fits = room.fits;
            limit = room.limit ∙ less.limit;
            absent = λ k n. room.absent k (less.absent k n);
          },
        )
  ]
]

set-le : (k : Text) (e : Entry) (m : Map Entry) → length (set k e m) ≤ suc (length m)
set-le k e m = ground (arith, length-set k e m)

fits_after :
    (path : Text) (e : Entry) (d : FileCache)
    → (d.current_size + e.size ≤ d.max_size) ⊎ (length d.entries ≡ 0)
    → Fits (entered path e d)
fits_after path e d (inl h) = inl h
fits_after path e d (inr z) = inr (omega (arith, z, set-le path e d.entries))

-- The end of a read of a file that is not in the cache.
finish-IsExact :
    (path : Text) (e : Entry) (c : FileCache)
    → IsExact c
    → get path c.entries ≡ none
    → (length path == 0) ≡ false
    → (d : FileCache) × (finish_read path e c ≡ some d)
      × IsExact d
      × Fits d
      × (get path d.entries ≡ some e)
unfolding finish_read
finish-IsExact path e c h n filled =
    let (d, ended, room) = make_room-ends (suc (length c.entries)) e.size c h (omega arith) in
    let gone = room.absent path n in
    let size = total_size-set path e d.entries in
    (
      entered path e d,
      rw ended refl,
      record {
        exact = omega (arith, room.exact.exact, size, ap size_of gone);
        distinct = set-Distinct path e d.entries room.exact.distinct;
        named = rw (get-set [] path e d.entries, filled_apart path filled) room.exact.named;
      },
      fits_after path e d room.fits,
      get-set path path e d.entries ∙ rw (text_eq_refl path) refl,
    )

missed :
    (path : Text) (file : Entry) (c : FileCache)
    → IsExact c
    → (length path == 0) ≡ false
    → get path c.entries ≡ none
    → (d : FileCache) × (after_start path file (none, c) ≡ some (file.content, d))
      × IsExact d
      × Fits d
missed path file c h filled n =
    let (d, ended, exact, fits, held) = finish-IsExact path file c h n filled in
    (d, rw (ended, after_start) refl, exact, fits)

evict_absent : (path : Text) (c : FileCache) → get path (evict path c).entries ≡ none
unfolding evict
evict_absent path c = elim (Option-cases (get path c.entries)) [
  | inl o ↦ rw (o, evict) o
  | inr (e, o) ↦ rw (o, evict) (get-delete path path c.entries ∙ rw (text_eq_refl path) refl)
]

-- A read that no other read comes between, of a cache whose kept size is exact and which is within its
-- limit or holds one file alone, always ends, if its path is not empty. It returns the text of the
-- file, or that of an entry with the file's time, and leaves such a cache.
pub read_keeps_size :
    (path : Text) (file : Entry) (c : FileCache)
    → IsExact c
    → Fits c
    → (length path == 0) ≡ false
    → (content : Text) × (d : FileCache) × (read path file c ≡ some (content, d))
      × IsExact d
      × Fits d
      × ((content ≡ file.content)
          ⊎ ((e : Entry) × (get path c.entries ≡ some e)
              × (e.mtime ≡ file.mtime)
              × (content ≡ e.content)))
unfolding read start_read
read_keeps_size path file c h fits filled = elim (Option-cases (get path c.entries)) [
  | inl o ↦
      let (d, ended, exact, room) = missed path file c h filled o in
      (file.content, d, rw (o, start_read) ended, exact, room, inl refl)
  | inr (e, o) ↦ elim (Bool-cases (file.mtime == e.mtime)) [
    | inl t ↦ (
      e.content,
      c,
      rw (o, t, start_read) refl,
      h,
      fits,
      inr (e, o, sym ((==_iff file.mtime e.mtime).0 t), refl),
    )
    | inr t ↦
        let (d, ended, exact, room) =
          missed path file (evict path c) (evict-IsExact path c h) filled (evict_absent path c) in
        (file.content, d, rw (o, t, start_read) ended, exact, room, inl refl)
  ]
]

-- Two reads of one file that is not in the cache, the second of which started before the first wrote
-- its entry: where both fit, the kept size counts the file twice.
pub overlapping_reads_drift :
    (path : Text) (file : Entry) (c : FileCache)
    → IsExact c
    → (length path == 0) ≡ false
    → get path c.entries ≡ none
    → c.current_size + file.size + file.size ≤ c.max_size
    → (d : FileCache) × (e : FileCache) × (finish_read path file c ≡ some d)
      × (finish_read path file d ≡ some e)
      × (e.current_size ≡ total_size e.entries + file.size)
unfolding finish_read make_room
overlapping_reads_drift path file c h filled n small =
    let fits : ltb c.max_size (c.current_size + file.size) ≡ false = ground (arith, small) in
    let again : ltb c.max_size (c.current_size + file.size + file.size) ≡ false =
      ground (arith, small) in
    let d = entered path file c in
    let held : get path d.entries ≡ some file =
      get-set path path file c.entries ∙ rw (text_eq_refl path) refl in
    (
      d,
      entered path file d,
      rw fits refl,
      rw again refl,
      omega (
        arith,
        h.exact,
        total_size-set path file c.entries,
        ap size_of n,
        total_size-set path file d.entries,
        ap size_of held,
      ),
    )
