-- ===== src/Database.antt =====
-- Package internal/database: a transaction around a function.
pub mod Atomic
use fincart.Prelude.{suc}
use fincart.Prelude.Tests.{if◌then◌else◌}
use fincart.Store.Schema.{Db}
use fincart.Store.Monad.{Result, ok, err, driver, rollback_failed, Env, Session, M}

-- What ROLLBACK leaves, and the server after a lost connection: the tables as they were, and the sequences as they are: PostgreSQL never takes an id back.
unfoldable pub restore : Db → Db → Db
restore before after = record before {
  product_seq = after.product_seq;
  order_seq = after.order_seq;
  item_seq = after.item_seq;
  user_seq = after.user_seq;
  token_seq = after.token_seq;
}

-- The end of a transaction that began at the tables `before`: COMMIT, or ROLLBACK after an error. The
-- error of a COMMIT does not tell whether the database has carried it out.
unfoldable pub finish : {A : Type 0} → Env → Db → Result A → Session → Result A × Session
finish env before (ok a) s =
    if env.fault s.calls
    then (
      err driver,
      record s {
        db = if env.carried_out s.calls then s.db else restore before s.db;
        calls = suc s.calls;
      },
    )
    else (ok a, record s { calls = suc s.calls })
finish env before (err e) s =
    let undone = record s { db = restore before s.db; calls = suc s.calls } in
    if env.fault s.calls then (err (rollback_failed e), undone) else (err e, undone)

-- `Manager.WithinTransaction`. The source's function returns its value through a variable that is
-- read only if there was no error; here it returns the value.
unfoldable pub within_transaction : {A : Type 0} → Env → M A → M A
unfolding finish
within_transaction env body s =
    let begun = record s { calls = suc s.calls } in
    let (r, s') = body begun in
    if env.fault s.calls then (err driver, begun) else finish env s.db r s'
