-- ===== src/Cache/Query.antt =====
-- `QueryCache` (cache/query-cache.ts).
pub mod Fresh
use memphis_v.Base.{
  ℕ, suc, ◌+◌, ◌-◌, Text, Bool, true, false, not, Option, none, some, List, [], ◌∷◌, length, ltb,
  leb, ◌==◌, if◌then◌else◌, select, sum, map,
}
use memphis_v.Base.Maps.{Map, get, set, delete}
use memphis_v.Cache.Oldest.{oldest_from}

pub record Entry (T : Type 0) : Type 0 where
  pub content : T
  pub timestamp : ℕ
  pub hits : ℕ

pub record QueryCache (T : Type 0) : Type 0 where
  pub max_age : ℕ
  pub max_size : ℕ
  pub entries : Map (Entry T)

module _ {T : Type 0} where
  -- `Date.now() - entry.timestamp > this.maxAge`, of a clock that does not go back
  abbrev pub is_expired : ℕ → QueryCache T → Entry T → Bool
  is_expired now c e = ltb (e.timestamp + c.max_age) now

  unfoldable pub lookup : ℕ → Text → QueryCache T → Option T × QueryCache T
  lookup now query c = elim (get query c.entries) [
    | none ↦ (none, c)
    | some e ↦
        if is_expired now c e then (none, record c { entries = delete query c.entries }) else (
          some e.content,
          record c { entries = set query (record e { hits = e.hits + 1 }) c.entries },
        )
  ]

  -- The guard `if (oldest)` asks for a key that is not empty.
  unfoldable pub evict_oldest : QueryCache T → QueryCache T
  evict_oldest c = elim (oldest_from (λ e. e.timestamp) none c.entries) [
    | none ↦ c
    | some k ↦ if length k == 0 then c else record c { entries = delete k c.entries }
  ]

  abbrev pub with_room : QueryCache T → QueryCache T
  with_room c = if leb c.max_size (length c.entries) then evict_oldest c else c

  unfoldable pub store : ℕ → Text → T → QueryCache T → QueryCache T
  store now query result c =
      let room = with_room c in
      record room {
        entries = set query (record { content = result; timestamp = now; hits = 0 }) room.entries;
      }

  -- `has`
  unfoldable pub is_cached : ℕ → Text → QueryCache T → Bool × QueryCache T
  is_cached now query c = elim (get query c.entries) [
    | none ↦ (false, c)
    | some e ↦
        if is_expired now c e
        then (false, record c { entries = delete query c.entries })
        else (true, c)
  ]

  unfoldable pub prune : ℕ → QueryCache T → ℕ × QueryCache T
  prune now c =
      let fresh = select (λ e. not (is_expired now c e.1)) c.entries in
      (length c.entries - length fresh, record c { entries = fresh })

  unfoldable pub clear : QueryCache T → QueryCache T
  clear c = record c { entries = [] }

  -- `stats`: the size, and the two sums that it divides by the size
  unfoldable pub stats : ℕ → QueryCache T → ℕ × ℕ × ℕ
  stats now c = (
    length c.entries,
    sum (map (λ e. e.1.hits) c.entries),
    sum (map (λ e. now - e.1.timestamp) c.entries),
  )
