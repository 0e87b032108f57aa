-- ===== src/Util/RequestCache.antt =====
-- util/deduplication/request_cache.hpp: the answers to recent requests. The system clock is an
-- argument, in nanoseconds since its epoch.
pub mod Laws
use aevum.Prelude.{
  ℕ, ◌+◌, ◌-◌, ◌/◌, Bool, true, false, not, [], ◌∷◌, List, Option, none, some, Str, Map, lookup,
  insert, erase, ltb, leb, if◌then◌else◌,
}

pub record CacheEntry : Type 0 where
  pub response : Str
  pub timestamp : ℕ

pub record RequestCache : Type 0 where
  pub cache : Map CacheEntry
  pub cache_window_ms : ℕ

-- elapsed.count() < cache_window_ms_, where `elapsed` is rounded to milliseconds towards zero and
-- is negative when the clock was set back.
unfoldable pub is_fresh : ℕ → ℕ → ℕ → Bool
is_fresh window now timestamp =
    if leb timestamp now
    then ltb ((now - timestamp) / 1000000) window
    else ltb 0 ((timestamp - now) / 1000000 + window)

unfoldable pub get_cached_response : ℕ → Str → RequestCache → Option Str × RequestCache
get_cached_response now request_hash c = elim (lookup request_hash c.cache) [
  | none ↦ (none, c)
  | some entry ↦
      if is_fresh c.cache_window_ms now entry.timestamp
      then (some entry.response, c)
      else (none, record c { cache = erase request_hash c.cache })
]

unfoldable pub cache_response : ℕ → Str → Str → RequestCache → RequestCache
cache_response now request_hash response c = record c {
  cache = insert request_hash (record { response = response; timestamp = now }) c.cache;
}

pub drop_expired : ℕ → ℕ → Map CacheEntry → Map CacheEntry
drop_expired window now [] = []
drop_expired window now ((k, entry) ∷ rest) =
    let others = drop_expired window now rest in
    if is_fresh window now entry.timestamp then (k, entry) ∷ others else others

pub cleanup_expired : ℕ → RequestCache → RequestCache
unfolding drop_expired
cleanup_expired now c = record c { cache = drop_expired c.cache_window_ms now c.cache }
