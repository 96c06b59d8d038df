-- ===== src/Infra/World.antt =====
-- The state that a request handler reads and writes, and what each external call does to it.
use Prim.Native.Nat.{◌/◌}
use aideep_backend.Common.{ℕ, String, Bool, true, false, Option, List, [], ◌∷◌, ◌++◌, ◌+◌, ◌*◌}
use aideep_backend.Infra.Exception.{rejected, uncommitted}
use aideep_backend.Infra.Action.{Outcome, returned, thrown, Action}
use aideep_backend.Infra.Platform.{Platform}
use aideep_backend.Infra.Redis.{Expiry}
use aideep_backend.Ws.Event.{WsEvent}

-- `mailOptions`: the receiver and the text
pub record Mail : Type 0 where
  pub to : String
  pub text : String

pub record World (P : Platform) : Type 0 where
  pub nodes : P.nodes.Store
  pub edges : P.edges.Store
  pub members : P.members.Store
  pub workspaces : P.workspaces.Store
  pub users : P.users.Store
  pub redis : P.redis.Store
  -- whether each of the next calls of Redis and each of the next commits of a transaction is
  -- rejected, in the order of the calls; behind the list's end all are answered
  pub outages : List Bool
  -- `Date.now()`
  pub now : ℕ
  -- what `Math.random()` gives each next time, in units of 2^-53, whose multiples it returns;
  -- behind the list's end it gives 0
  pub draws : List ℕ
  -- what `transporter.sendMail` was called with
  pub mails : List Mail
  -- what `wsGateway.broadcast` was called with, the first call first
  pub sent : List (WsEvent P.Num)
  -- `transactionStorage.getStore()` is set
  pub in_transaction : Bool

abbrev pub Handler : Platform → Type 0 → Type 0
Handler P A = Action (World P) A

module _ (P : Platform) where
  abbrev pub attempt : {A : Type 0} → List Bool → Handler P A → Handler P A
  attempt [] call w = call w
  attempt (true ∷ outages) call w = (thrown rejected, record w { outages = outages })
  attempt (false ∷ outages) call w = call (record w { outages = outages })

  -- one call of the Redis client
  abbrev pub redis_call : {A : Type 0} → Handler P A → Handler P A
  redis_call call w = attempt w.outages call w

  unfoldable pub redis_get : String → Handler P (Option String)
  redis_get key = redis_call (λ w. (returned (P.redis.get w.redis key), w))

  unfoldable pub redis_set : String → String → Expiry → Handler P (Unit {0})
  redis_set key value expiry =
      redis_call (λ w. (returned tt, record w { redis = P.redis.set w.redis key value expiry }))

  unfoldable pub redis_del : String → Handler P (Unit {0})
  redis_del key = redis_call (λ w. (returned tt, record w { redis = P.redis.del w.redis key }))

  -- `this.wsGateway.broadcast(event)`
  unfoldable pub broadcast : WsEvent P.Num → Handler P (Unit {0})
  broadcast event w = (returned tt, record w { sent = w.sent ++ event ∷ [] })

  abbrev pub roll_back : World P → World P → World P
  roll_back before after = record after {
    nodes = P.nodes.roll_back before.nodes after.nodes;
    edges = P.edges.roll_back before.edges after.edges;
    members = P.members.roll_back before.members after.members;
    workspaces = P.workspaces.roll_back before.workspaces after.workspaces;
    users = P.users.roll_back before.users after.users;
  }

  -- `$transaction` commits behind a method that returned; a commit that fails, or comes when the
  -- transaction has timed out, rolls the tables back and throws
  abbrev pub commit : {A : Type 0} → List Bool → World P → A → World P → Outcome A × World P
  commit [] before a after = (returned a, record after { in_transaction = false })
  commit (false ∷ outages) before a after =
      (returned a, record after { in_transaction = false; outages = outages })
  commit (true ∷ outages) before a after = (
    thrown uncommitted,
    record (roll_back before after) { in_transaction = false; outages = outages },
  )

  abbrev pub settle : {A : Type 0} → World P → Outcome A → World P → Outcome A × World P
  settle before (returned a) after = commit after.outages before a after
  settle before (thrown e) after =
      (thrown e, record (roll_back before after) { in_transaction = false })

  abbrev pub joined : {A : Type 0} → Bool → Handler P A → Handler P A
  joined true fn w = fn w
  joined false fn w = let r = fn (record w { in_transaction = true }) in settle w r.0 r.1

  -- `runInTransaction` of prisma/prisma.service.ts, and so a method under `@Transactional()`: it
  -- joins the transaction that is running, or opens one, which an exception rolls back
  unfoldable pub run_in_transaction : {A : Type 0} → Handler P A → Handler P A
  run_in_transaction fn w = joined w.in_transaction fn w

  abbrev pub next_random : List ℕ → ℕ
  next_random [] = 0
  next_random (n ∷ draws) = n

  -- `Math.floor(100000 + Math.random() * 900000)`, without the rounding of the product to a double
  unfoldable pub next_draw : List ℕ → ℕ
  next_draw draws = 100000 + next_random draws * 900000 / 9007199254740992

  abbrev pub later_draws : List ℕ → List ℕ
  later_draws [] = []
  later_draws (n ∷ draws) = draws

  -- `Math.floor(100000 + Math.random() * 900000)`
  unfoldable pub draw_code : Handler P ℕ
  draw_code w = (returned (next_draw w.draws), record w { draws = later_draws w.draws })

  unfoldable pub send_mail : Mail → Handler P (Unit {0})
  send_mail mail w = (returned tt, record w { mails = w.mails ++ mail ∷ [] })
