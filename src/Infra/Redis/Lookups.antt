-- ===== src/Infra/Redis/Lookups.antt =====
-- What a key of redis/redis.keys.ts holds behind a `set` or `del` of the same key or of another kind.
use aideep_backend.Common.{
  String, ◌≡◌, ◌≢◌, ◌∙◌, false, none, some, ◌==◌, eq_refl, eq-cases, inl, inr,
}
use aideep_backend.Infra.Redis.{Redis, Expiry}
use aideep_backend.Infra.Redis.Keys.{RedisKey, redis_key, redis_key_injective}

pub redis_key-differ :
    (k j : RedisKey) (a b : String) → k ≢ j → (redis_key k a == redis_key j b) ≡ false
redis_key-differ k j a b differ = elim (eq-cases (redis_key k a) (redis_key j b)) [
  | inl (_, e) ↦ absurd (differ (redis_key_injective k j a b e).0)
  | inr (f, _) ↦ f
]

module _ (R : Redis) (s : R.Store) where
  pub get_set_same : (k v : String) (e : Expiry) → R.get (R.set s k v e) k ≡ some v
  get_set_same k v e = R.get_set s k v e k ∙ rw (eq_refl k)

  pub get_del_same : (k : String) → R.get (R.del s k) k ≡ none
  get_del_same k = R.get_del s k k ∙ rw (eq_refl k)

  pub get_set_other :
      (k j : RedisKey) (a b v : String) (e : Expiry)
      → k ≢ j
      → R.get (R.set s (redis_key k a) v e) (redis_key j b) ≡ R.get s (redis_key j b)
  get_set_other k j a b v e differ =
      R.get_set s (redis_key k a) v e (redis_key j b) ∙ rw (redis_key-differ k j a b differ)

  pub get_del_other :
      (k j : RedisKey) (a b : String)
      → k ≢ j
      → R.get (R.del s (redis_key k a)) (redis_key j b) ≡ R.get s (redis_key j b)
  get_del_other k j a b differ =
      R.get_del s (redis_key k a) (redis_key j b) ∙ rw (redis_key-differ k j a b differ)
