-- ===== src/Yjs/Presence/Cached.antt =====
-- What yjs/yjs-ws-awareness.service.ts caches is what it reads, and no failure of Redis gets out of it.
use aideep_backend.Common.{String, ◌≡◌, refl, false, some, [], ◌==◌}
use aideep_backend.Infra.Action.{returned}
use aideep_backend.Infra.Platform.{Platform}
use aideep_backend.Infra.Redis.{ex}
use aideep_backend.Infra.Redis.Keys.{redis_key, yjs_ws_awareness}
use aideep_backend.Infra.Redis.Lookups.{get_set_same}
use aideep_backend.Infra.World.{World, redis_get, redis_set}
use aideep_backend.Ws.Sockets.{Wire}
use aideep_backend.Yjs.Documents.{Documents}
use aideep_backend.Yjs.Presence.{ws_awareness_ttl_sec, cache_awareness, get_cached_awareness}

module _ (P : Platform) {Y : Documents} (W : Wire Y) (workspace_id : String) (bytes : W.Bytes)
    (w : World P) (answers : w.outages ≡ []) where
  abbrev pub cached : World P
  cached = record w {
    redis =
        P.redis.set w.redis (redis_key yjs_ws_awareness workspace_id) (W.to_base64 bytes)
          (ex ws_awareness_ttl_sec);
  }

  pub cache_awareness-returned : cache_awareness P W workspace_id bytes w ≡ (returned tt, cached)
  unfolding cache_awareness redis_set
  cache_awareness-returned = rw answers refl

  -- While Redis answers, the presence that was cached is the presence that is read, unless it is empty.
  pub get_cached_awareness-cached :
      (W.to_base64 bytes == "") ≡ false
      → get_cached_awareness P W workspace_id cached ≡ (returned (some bytes), cached)
  unfolding get_cached_awareness redis_get
  get_cached_awareness-cached full = rw answers (
      rw
        (
          get_set_same P.redis w.redis (redis_key yjs_ws_awareness workspace_id) (W.to_base64 bytes)
              (ex ws_awareness_ttl_sec),
          full,
          W.of_base64_to_base64 bytes,
        )
        refl)
