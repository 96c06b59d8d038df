-- ===== src/Infra/Redis.antt =====
-- The Redis client of redis/redis.service.ts as the code uses it, and the keys of
-- redis/redis.keys.ts.
pub mod Keys
pub mod Lookups
use aideep_backend.Common.{ℕ, String, ◌≡◌, Option, none, some, ◌==◌, if◌then◌else◌}

-- the options of `set`: none, `{ EX: seconds }`, `{ KEEPTTL: true }`
pub data Expiry : Type 0 where
  never keep_ttl : Expiry
  ex : ℕ → Expiry

pub record Redis : Type 1 where
  pub Store : Type 0
  pub get : Store → String → Option String
  pub set : Store → String → String → Expiry → Store
  pub del : Store → String → Store
  pub get_set :
      (s : Store) (k v : String) (e : Expiry) (j : String)
      → get (set s k v e) j ≡ (if k == j then some v else get s j)
  pub get_del : (s : Store) (k j : String) → get (del s k) j ≡ (if k == j then none else get s j)
