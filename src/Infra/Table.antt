-- ===== src/Infra/Table.antt =====
-- One table of the database, as the repositories use it through the Prisma client: the operations
-- with their documented behaviour. The rows have an order of their own (say, of insertion), and
-- no query promises to return them in that order.
pub mod Created
use aideep_backend.Common.{
  ◌≡◌, ◌↔◌, Bool, true, false, not, Option, none, some, List, [], ◌∷◌, ◌++◌, map, Memᴰ, any, keep,
  IsKeyed, String, if◌then◌else◌,
}

-- `Holds i r` says that the row `r` stores the values `i` that `create` was given.
pub record Table (Input Row : Type 0) (Holds : Input → Row → Type 0) : Type 1 where
  pub Store : Type 0
  pub rows : Store → List Row
  -- `findFirst`, `findUnique`
  pub find_first : Store → (Row → Bool) → Option Row
  -- `findMany`
  pub find_many : Store → (Row → Bool) → List Row
  pub create : Store → Input → Row × Store
  -- `update` of one row by its key: `none` is the exception P2025
  pub update : Store → (Row → Bool) → (Row → Row) → Option Store
  pub update_many : Store → (Row → Bool) → (Row → Row) → Store
  -- `delete` of one row by its key: `none` is the exception P2025
  pub delete : Store → (Row → Bool) → Option Store
  pub delete_many : Store → (Row → Bool) → Store
  -- a transaction that began at the first store, reached the second and is rolled back
  pub roll_back : Store → Store → Store
  pub roll_back_start : (before after : Store) → roll_back before after ≡ before
  pub find_first_none :
      (s : Store) (p : Row → Bool) → find_first s p ≡ none → any p (rows s) ≡ false
  pub find_first_some :
      (s : Store) (p : Row → Bool) (r : Row)
      → find_first s p ≡ some r
      → Memᴰ r (rows s) × (p r ≡ true)
  pub find_many_mem :
      (s : Store) (p : Row → Bool) (r : Row)
      → Memᴰ r (find_many s p) ↔ (Memᴰ r (rows s) × (p r ≡ true))
  -- rows with different keys are found with different keys: no row twice
  pub find_many_once :
      (s : Store) (p : Row → Bool) (key : Row → String)
      → IsKeyed key (rows s)
      → IsKeyed key (find_many s p)
  pub create_holds : (s : Store) (i : Input) → Holds i (create s i).0
  pub create_rows : (s : Store) (i : Input) → rows (create s i).1 ≡ rows s ++ (create s i).0 ∷ []
  pub update_many_rows :
      (s : Store) (p : Row → Bool) (f : Row → Row)
      → rows (update_many s p f) ≡ map (λ r. if p r then f r else r) (rows s)
  pub update_one :
      (s : Store) (p : Row → Bool) (f : Row → Row)
      → update s p f ≡ (if any p (rows s) then some (update_many s p f) else none)
  pub delete_many_rows :
      (s : Store) (p : Row → Bool) → rows (delete_many s p) ≡ keep (λ r. not (p r)) (rows s)
  pub delete_one :
      (s : Store) (p : Row → Bool)
      → delete s p ≡ (if any p (rows s) then some (delete_many s p) else none)
