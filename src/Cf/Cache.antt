-- ===== src/Cf/Cache.antt =====
-- platform/cf/cache.go: guidCache. A reading of the clock is an argument; what is under the mutex is one
-- function.
use muto.Prelude.{String, ◌<>◌, ◌==◌, eq_iff, Option, none, some, [], ◌≡◌, arith, if◌then◌else◌}
use muto.Prelude.Int.{ℤ, ◌+ℤ◌, ltb_ℤ}
use muto.Prelude.Dict.{Dict, lookup, insert, lookup-insert}

pub record CacheEntry : Type 0 where
  pub guid : String
  pub expiry : ℤ

pub record GuidCache : Type 0 where
  pub entries : Dict CacheEntry
  pub ttl : ℤ

abbrev pub new_guid_cache : ℤ → GuidCache
new_guid_cache ttl = record { entries = []; ttl = ttl }

abbrev pub unexpired : ℤ → CacheEntry → Option String
unexpired now e = if ltb_ℤ e.expiry now then none else some e.guid

unfoldable pub get : GuidCache → ℤ → String → Option String
get c now key = elim (lookup key c.entries) [ none ↦ none | some e ↦ unexpired now e ]

unfoldable pub set : GuidCache → ℤ → String → String → GuidCache
set c now key guid = record c {
  entries = insert key (record { guid = guid; expiry = now +ℤ c.ttl }) c.entries;
}

abbrev pub org_cache_key : String → String
org_cache_key name = "org:" <> name

abbrev pub space_cache_key : String → String → String
space_cache_key org_guid name = "space:" <> (org_guid <> (":" <> name))

-- After a write at one time, a read at any time gives, for the key that was written, the value until
-- the time to live has passed and nothing from then on, and for every other key what it gave before.
pub get-set :
    (c : GuidCache) (written now : ℤ) (key guid j : String)
    → get (set c written key guid) now j ≡ (
        if key == j
        then (if ltb_ℤ (written +ℤ c.ttl) now then none else some guid)
        else get c now j)
unfolding get set
get-set c written now key guid j = ground (
  arith,
  eq_iff key j,
  lookup-insert key j (record { guid = guid; expiry = written +ℤ c.ttl }) c.entries,
)
