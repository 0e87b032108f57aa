-- ===== src/Util/RequestCache/Laws.antt =====
-- What the cache answers after a response was stored, and after a cleanup.
use aevum.Prelude.{
  ℕ, ◌+◌, ◌*◌, ◌≤◌, ◌<◌, ◌≡◌, refl, true, [], ◌∷◌, none, some, Str, Map, lookup, insert,
  lookup-insert, str_eq, str_eq_iff, if◌then◌else◌, arith,
}
use aevum.Util.RequestCache.{
  CacheEntry, RequestCache, is_fresh, get_cached_response, cache_response, drop_expired,
  cleanup_expired,
}

-- A response is returned for its own hash while it is fresh by the clock, and no longer; what the
-- cache answers for another hash is as before.
pub get-cache_response :
    (c : RequestCache) (stored now : ℕ) (h g response : Str)
    → (get_cached_response now g (cache_response stored h response c)).0 ≡ (
        if str_eq h g
        then if is_fresh c.cache_window_ms now stored then some response else none
        else (get_cached_response now g c).0)
unfolding get_cached_response cache_response
get-cache_response c stored now h g response =
    ground (arith, lookup-insert h g (record { response = response; timestamp = stored }) c.cache)

-- Where the clock was not set back, a response is fresh exactly while fewer whole milliseconds
-- than the window have passed.
pub is_fresh-lt :
    (window now stored : ℕ)
    → stored ≤ now
    → now < stored + window * 1000000
    → is_fresh window now stored ≡ true
unfolding is_fresh
is_fresh-lt window now stored h k = ground (arith, h, k)

-- Each key of the table stands once.
abbrev pub IsTable : Map CacheEntry → Type 0
IsTable [] = Unit {0}
IsTable ((k, entry) ∷ rest) = (lookup k rest ≡ none) × IsTable rest

drop_expired-lookup :
    (window now : ℕ) (m : Map CacheEntry) (k : Str)
    → IsTable m
    → lookup k (drop_expired window now m) ≡ (elim (lookup k m) [
      | none ↦ none
      | some entry ↦ if is_fresh window now entry.timestamp then some entry else none
    ])
unfolding drop_expired lookup
drop_expired-lookup window now [] k t = refl
drop_expired-lookup window now ((j, entry) ∷ rest) k t =
    ground (arith, drop_expired-lookup window now rest k t.1, str_eq_iff j k, t.0)

-- A cleanup of a cache whose keys stand once is not seen: at the same time the cache answers
-- every request as it did before.
pub get-cleanup_expired :
    (c : RequestCache) (now : ℕ) (h : Str)
    → IsTable c.cache
    → (get_cached_response now h (cleanup_expired now c)).0 ≡ (get_cached_response now h c).0
unfolding get_cached_response cleanup_expired
get-cleanup_expired c now h t =
    ground (arith, drop_expired-lookup c.cache_window_ms now c.cache h t)

insert-IsTable :
    (m : Map CacheEntry) (k : Str) (entry : CacheEntry) → IsTable m → IsTable (insert k entry m)
unfolding insert lookup
insert-IsTable [] k entry t = (refl, tt)
insert-IsTable ((j, old) ∷ rest) k entry t = ground (
  arith,
  insert-IsTable rest k entry t.1,
  lookup-insert k j entry rest,
  str_eq_iff k j,
  str_eq_iff j k,
  t.0,
  t.1,
)

-- Storing a response keeps the table's keys apart.
pub cache_response-IsTable :
    (c : RequestCache) (now : ℕ) (h response : Str)
    → IsTable c.cache
    → IsTable (cache_response now h response c).cache
unfolding cache_response
cache_response-IsTable c now h response t = insert-IsTable c.cache h _ t
