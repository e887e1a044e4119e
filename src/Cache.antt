-- ===== src/Cache.antt =====
-- src/modules/cache/cache.service.ts: the cache in front of the database. An error of Redis is
-- logged and swallowed, so that a service falls back on the database.
pub mod Laws
use task_scheduling_platform.Base.{ℕ, Option, none, some, List, [], ◌∷◌, is_empty, not}
use task_scheduling_platform.Platform.Io.{
  World, Io, Key, Cached, Store, pure, reads, writes, catching, when, ◌>>=◌, ◌>>◌,
}
use task_scheduling_platform.Platform.Drivers.{Platform}

abbrev pub put_cache : Store → World → World
put_cache c w = record w { cache = c }

module _ (p : Platform) where
  unfoldable pub get : Key → Io (Option Cached)
  get key = catching (reads (λ w. p.redis.get key w.cache)) (λ _. pure none)

  unfoldable pub set : Key → Cached → ℕ → Io (Unit {0})
  set key value ttl =
      catching (writes (λ w. p.redis.setex key ttl value w.cache) put_cache) (λ _. pure tt)

  unfoldable pub del : Key → Io (Unit {0})
  del key = catching (writes (λ w. p.redis.del (key ∷ []) w.cache) put_cache) (λ _. pure tt)

  -- The loop over the batches of the stream.
  del_batches : List (List Key) → Io (Unit {0})
  del_batches [] = pure tt
  del_batches (ks ∷ batches) =
      when (not (is_empty ks)) (writes (λ w. p.redis.del ks w.cache) put_cache)
      >> del_batches batches

  unfoldable pub del_pattern : Key → Io (Unit {0})
  unfolding del_batches
  del_pattern pattern =
      catching (reads (λ w. p.redis.scan pattern w.cache) >>= del_batches) (λ _. pure tt)
