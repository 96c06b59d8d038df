-- ===== src/Infra/Transactions.antt =====
-- prisma/transaction.storage.ts and prisma/transactional.decorator.ts: methods under `@Transactional()` find
-- the runner that prisma/prisma.service.ts registers when the module starts. The
-- services' methods use that runner, `run_in_transaction`, at once.
use aideep_backend.Common.{
  refl, ◌≡◌, ◌∙◌, ap, sym, true, false, Option, none, some, Bool-cases, inl, inr,
}
use aideep_backend.Infra.Action.{Outcome, returned, thrown, resume, ◌>>=◌}
use aideep_backend.Infra.Exception.{plain_error}
use aideep_backend.Infra.Failure.{SameData, run_in_transaction-thrown}
use aideep_backend.Infra.Platform.{Platform}
use aideep_backend.Infra.World.{World, Handler, run_in_transaction, joined}

module _ (P : Platform) where
  -- `Runner`
  pub record Runner : Type 1 where
    pub run : {A : Type 0} → Handler P A → Handler P A

  -- `_runner`, which is null until the module starts
  abbrev pub set_transaction_runner : Runner → Option Runner → Option Runner
  set_transaction_runner runner _ = some runner

  -- `runInTransaction` of the storage
  abbrev pub run_with : {A : Type 0} → Option Runner → Handler P A → Handler P A
  run_with none fn w = (thrown (plain_error "PrismaService가 아직 초기화되지 않았습니다."), w)
  run_with (some runner) fn w = runner.run fn w

  -- `onModuleInit`, less the connection of the client
  unfoldable pub on_module_init : Option Runner → Option Runner
  on_module_init registered =
      set_transaction_runner (record { run = λ fn. run_in_transaction P fn }) registered

  -- the method that `@Transactional()` puts in place of the original
  unfoldable pub transactional :
      {A B : Type 0} → Option Runner → (A → Handler P B) → A → Handler P B
  transactional registered original args = run_with registered (original args)

  -- a method under `@Transactional()` that another one calls runs in the transaction of that
  pub transactional-joins :
      {A B : Type 0} (registered : Option Runner) (original : A → Handler P B) (args : A)
      (w : World P)
      → w.in_transaction ≡ true
      → transactional (on_module_init registered) original args w ≡ original args w
  unfolding transactional on_module_init run_in_transaction
  transactional-joins registered original args w running =
      ap (λ b. joined P b (original args) w) running

  -- a transaction that another one opens is the outer one
  nested_once :
      {B C : Type 0} (fn : Handler P B) (rest : B → Handler P C) (w : World P)
      → run_in_transaction P (run_in_transaction P fn >>= rest) w
        ≡ run_in_transaction P (fn >>= rest) w
  unfolding run_in_transaction
  nested_once fn rest w = elim (Bool-cases w.in_transaction) [
    | inl t ↦
        ap (λ b. joined P b (run_in_transaction P fn >>= rest) w) t
        ∙ ap (λ b. resume (joined P b fn w).0 rest (joined P b fn w).1) t
        ∙ sym (ap (λ b. joined P b (fn >>= rest) w) t)
    | inr f ↦
        ap (λ b. joined P b (run_in_transaction P fn >>= rest) w) f
        ∙ sym (ap (λ b. joined P b (fn >>= rest) w) f)
  ]

  -- the state whose tables are to be left: that before, where the method throws
  abbrev pub tables_behind : {A : Type 0} → Outcome A → World P → World P → World P
  tables_behind (returned a) before after = after
  tables_behind (thrown e) before after = before

  all_or_nothing :
      {A : Type 0} (fn : Handler P A) (w : World P) (r : Outcome A × World P)
      → w.in_transaction ≡ false
      → run_in_transaction P fn w ≡ r
      → SameData P r.1 (tables_behind r.0 w r.1)
  all_or_nothing fn w (returned a, t) out h = record {
    nodes = refl;
    edges = refl;
    members = refl;
    workspaces = refl;
    users = refl;
  }
  all_or_nothing fn w (thrown e, t) out h = run_in_transaction-thrown P fn w out h

  -- A method under `@Transactional()` that calls another one, and then goes on with its result, outside of other transactions and behind the start of the module, is one transaction: it does all that it would do if the inner method were not under `@Transactional()`, and where it throws, be it in the inner method, behind it although the inner method had returned, or at the one commit in the end, all tables are as they were before.
  pub transactional-nested :
      {A B C : Type 0} (registered : Option Runner) (inner : A → Handler P B)
      (rest : B → Handler P C) (args : A) (w : World P)
      → w.in_transaction ≡ false
      → let runner = on_module_init registered in
        let r = transactional runner (λ a. transactional runner inner a >>= rest) args w in
        (r ≡ transactional runner (λ a. inner a >>= rest) args w)
        × SameData P r.1 (tables_behind r.0 w r.1)
  unfolding transactional on_module_init
  transactional-nested registered inner rest args w out = (
    nested_once (inner args) rest w,
    all_or_nothing (run_in_transaction P (inner args) >>= rest) w _ out refl,
  )
