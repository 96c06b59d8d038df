-- ===== src/Yjs/Presence.antt =====
-- yjs/yjs-ws-awareness.service.ts: the presence of a workspace's members, kept in Redis for those who
-- come later. A call of Redis that is rejected is logged, and counts as nothing cached.
pub mod Cached
use aideep_backend.Common.{ℕ, String, Option, none, some}
use aideep_backend.Infra.Action.{Outcome, returned, thrown, pure, ◌>>=◌}
use aideep_backend.Infra.Platform.{Platform}
use aideep_backend.Infra.Redis.{ex}
use aideep_backend.Infra.Redis.Keys.{redis_key, yjs_ws_awareness}
use aideep_backend.Infra.Text.{truthy}
use aideep_backend.Infra.World.{World, Handler, redis_get, redis_set, redis_del}
use aideep_backend.Ws.Sockets.{Wire}
use aideep_backend.Yjs.Documents.{Documents}

abbrev pub ws_awareness_ttl_sec : ℕ
ws_awareness_ttl_sec = 30

-- `catch (err) { this.logger.error(…); return fallback }`
abbrev pub or_else {ℓ} : {A : Type ℓ} → A → Outcome A → A
or_else fallback (returned a) = a
or_else fallback (thrown e) = fallback

module _ (P : Platform) where
  abbrev pub or_logged : {A : Type 0} → A → Handler P A → Handler P A
  or_logged fallback call w = (returned (or_else fallback (call w).0), (call w).1)

  module _ {Y : Documents} (W : Wire Y) where
    unfoldable pub cache_awareness : String → W.Bytes → Handler P (Unit {0})
    cache_awareness workspace_id bytes = or_logged tt (
        redis_set P (redis_key yjs_ws_awareness workspace_id) (W.to_base64 bytes)
          (ex ws_awareness_ttl_sec))

    -- `if (!data) return null`
    abbrev pub bytes_of : Option String → Option W.Bytes
    bytes_of none = none
    bytes_of (some t) = some (W.of_base64 t)

    unfoldable pub get_cached_awareness : String → Handler P (Option W.Bytes)
    get_cached_awareness workspace_id = or_logged none (do
      found ← redis_get P (redis_key yjs_ws_awareness workspace_id)
      pure (bytes_of (truthy found)))

  unfoldable pub delete_awareness : String → Handler P (Unit {0})
  delete_awareness workspace_id =
      or_logged tt (redis_del P (redis_key yjs_ws_awareness workspace_id))
