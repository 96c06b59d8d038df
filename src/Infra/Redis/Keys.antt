-- ===== src/Infra/Redis/Keys.antt =====
-- `REDIS_KEYS` of redis/redis.keys.ts.
use Prim.Native.String.{◌++◌}
use text.Mathlib.TextLemmas.{append_cancel_left}
use aideep_backend.Common.{String, ◌≡◌, refl, append-ne-append}

pub data RedisKey : Type 0 where
  auth_code verified block refresh_token blacklist workspace_sync invite_workspace yjs_doc
        yjs_ws_awareness :
      RedisKey

abbrev pub prefix_of : RedisKey → String
prefix_of auth_code = "auth:"
prefix_of verified = "verified:"
prefix_of block = "block:"
prefix_of refresh_token = "refreshToken:"
prefix_of blacklist = "blacklist:"
prefix_of workspace_sync = "workspace:sync:"
prefix_of invite_workspace = "inviteCode:"
prefix_of yjs_doc = "yjs:doc:"
prefix_of yjs_ws_awareness = "yjs:ws:awareness:"

-- `REDIS_KEYS.AUTH_CODE(email)` and so on
abbrev pub redis_key : RedisKey → String → String
redis_key k id = prefix_of k ++ id

-- Keys of two kinds never coincide, and keys of one kind coincide only for the same id, whatever the ids are.
pub redis_key_injective :
    (k j : RedisKey) (a b : String) → redis_key k a ≡ redis_key j b → (k ≡ j) × (a ≡ b)
redis_key_injective auth_code auth_code a b h = (refl, append_cancel_left "auth:" a b h)
redis_key_injective verified verified a b h = (refl, append_cancel_left "verified:" a b h)
redis_key_injective block block a b h = (refl, append_cancel_left "block:" a b h)
redis_key_injective refresh_token refresh_token a b h =
    (refl, append_cancel_left "refreshToken:" a b h)
redis_key_injective blacklist blacklist a b h = (refl, append_cancel_left "blacklist:" a b h)
redis_key_injective workspace_sync workspace_sync a b h =
    (refl, append_cancel_left "workspace:sync:" a b h)
redis_key_injective invite_workspace invite_workspace a b h =
    (refl, append_cancel_left "inviteCode:" a b h)
redis_key_injective yjs_doc yjs_doc a b h = (refl, append_cancel_left "yjs:doc:" a b h)
redis_key_injective yjs_ws_awareness yjs_ws_awareness a b h =
    (refl, append_cancel_left "yjs:ws:awareness:" a b h)
redis_key_injective k j a b h = absurd (append-ne-append (prefix_of k) (prefix_of j) a b refl h)
