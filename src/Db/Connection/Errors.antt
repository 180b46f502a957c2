-- ===== src/Db/Connection/Errors.antt =====
-- Which exceptions leave the methods of a connection, and on which link a query runs.
use cyclone_httpserver.Common.{◌≡◌, refl, some, false, List, Bool, ◌≢◌}
use cyclone_httpserver.Common.Bytes.{Text}
use cyclone_httpserver.Db.Connection.{
  Outcome, returns, throws, sql_exception, db_exception, other_exception, Driver, DbConnection,
  catch, handle, to_db_exception, to_false, swallow, construct, is_valid, reconnect, ping, cleanup,
  execute_query, execute_update, Param, M, and_then, run_on,
}

-- No `SQLException` is thrown.
abbrev pub IsCaught : {A S : Type 0} → Outcome A × S → Type 0
IsCaught r = (what : Text) → r.0 ≢ throws (sql_exception what)

IsCaught-db : {A S : Type 0} (r : Outcome A × S) → IsCaught (handle r to_db_exception)
IsCaught-db (returns a, s) what = cc
IsCaught-db (throws (sql_exception e), s) what = cc
IsCaught-db (throws (db_exception e), s) what = cc
IsCaught-db (throws (other_exception e), s) what = cc

IsCaught-false : {S : Type 0} (r : Outcome Bool × S) → IsCaught (handle r to_false)
IsCaught-false (returns a, s) what = cc
IsCaught-false (throws (sql_exception e), s) what = cc
IsCaught-false (throws (db_exception e), s) what = cc
IsCaught-false (throws (other_exception e), s) what = cc

caught_all : {S : Type 0} (r : Outcome (Unit {0}) × S) → (handle r swallow).0 ≡ returns tt
caught_all (returns tt, s) = refl
caught_all (throws e, s) = refl

caught_then :
    {A B S : Type 0} (r : Outcome A × S) (f : A → M S B)
    → IsCaught r
    → handle (and_then r f) to_db_exception ≡ and_then r (λ a. catch (f a) to_db_exception)
caught_then (returns a, s) f h = refl
caught_then (throws (sql_exception e), s) f h = absurd (h e refl)
caught_then (throws (db_exception e), s) f h = refl
caught_then (throws (other_exception e), s) f h = refl

module _ {W Link Stmt Rows : Type 0} (sql : Driver W Link Stmt Rows) where
  reconnect-IsCaught : (d : DbConnection W Link) → IsCaught (reconnect sql d)
  unfolding reconnect
  reconnect-IsCaught d = IsCaught-db _

  -- Whatever the connector throws in any call: no `SQLException` leaves the constructor, `isValid`,
  -- `reconnect`, `ping`, `executeQuery` or `executeUpdate`, and `cleanup` always returns.
  pub methods-IsCaught :
      (d : DbConnection W Link) (query : Text) (args : List Param)
      → IsCaught (construct sql d)
        × IsCaught (is_valid sql d)
        × IsCaught (reconnect sql d)
        × IsCaught (ping sql d)
        × IsCaught (execute_query sql query args d)
        × IsCaught (execute_update sql query args d)
        × ((cleanup sql d).0 ≡ returns tt)
  unfolding construct is_valid reconnect ping execute_query execute_update cleanup
  methods-IsCaught d query args = (
    IsCaught-db _,
    IsCaught-false _,
    IsCaught-db _,
    IsCaught-false _,
    IsCaught-db _,
    IsCaught-db _,
    caught_all _,
  )

  -- On a link that says it does not work any more, a query is the reconnection and then the query on
  -- the link that this gave; what the reconnection throws is thrown as it is, and nothing is run.
  pub execute_query-reconnect :
      (d : DbConnection W Link) (l : Link) (w : W) (query : Text) (args : List Param)
      → sql.link_valid l d.world ≡ (returns false, w)
      → execute_query sql query args (record d { link = some l })
        ≡ and_then
            (reconnect sql (record d { link = some l; world = w }))
            (λ _. catch (run_on sql sql.fetch query args) to_db_exception)
  unfolding execute_query
  execute_query-reconnect d l w query args stale = rw stale (
      caught_then (reconnect sql (record d { link = some l; world = w }))
        (λ _. run_on sql sql.fetch query args)
        (reconnect-IsCaught (record d { link = some l; world = w })))
