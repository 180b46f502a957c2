-- ===== src/Db/Connection.antt =====
-- HttpServer/include/DbConnection.hpp and HttpServer/src/DbConnection.cpp: one connection to MySQL.
-- The connector is a parameter: each of its calls changes the world `W` and returns or throws.
use cyclone_httpserver.Common.{
  Bool, true, false, Option, none, some, if◌then◌else◌, not, ℕ, List, [], ◌∷◌, ◌+◌,
}
use cyclone_httpserver.Common.Bytes.{Text, codes}
use cyclone_httpserver.Common.Decimal.{ℤ}
pub mod Errors

-- The classes of exceptions: `sql::SQLException`, `DbException`, any other `std::exception`.
pub data Exn : Type 0 where
  sql_exception : Text → Exn
  db_exception : Text → Exn
  other_exception : Text → Exn

pub data Outcome (A : Type 0) : Type 0 where
  returns : A → Outcome A
  throws : Exn → Outcome A

abbrev pub M : Type 0 → Type 0 → Type 0
M S A = S → Outcome A × S

abbrev pub and_then : {S A B : Type 0} → Outcome A × S → (A → M S B) → Outcome B × S
and_then (returns a, s) f = f a s
and_then (throws e, s) f = (throws e, s)

infixl 5 ◌>>=◌ ◌>>◌
abbrev pub ◌>>=◌ : {S A B : Type 0} → M S A → (A → M S B) → M S B
◌>>=◌ m f s = and_then (m s) f

abbrev pub ◌>>◌ : {S B : Type 0} → M S (Unit {0}) → M S B → M S B
m >> k = m >>= λ _. k

abbrev pub pure : {S A : Type 0} → A → M S A
pure a s = (returns a, s)

abbrev pub throw : {S A : Type 0} → Exn → M S A
throw e s = (throws e, s)

abbrev pub handle : {S A : Type 0} → Outcome A × S → (Exn → M S A) → Outcome A × S
handle (returns a, s) h = (returns a, s)
handle (throws e, s) h = h e s

-- `try { m } catch { h }`, where `h` throws again what the handler's class does not cover.
abbrev pub catch : {S A : Type 0} → M S A → (Exn → M S A) → M S A
catch m h s = handle (m s) h

-- The calls of the connector that the code makes.
pub record Driver (W Link Stmt Rows : Type 0) : Type 0 where
  pub connect : Text → Text → Text → M W (Option Link)
  pub set_schema : Link → Text → M W (Unit {0})
  pub set_client_option : Link → Text → Text → M W (Unit {0})
  pub create_statement : Link → M W Stmt
  pub execute : Stmt → Text → M W (Unit {0})
  pub close : Link → M W (Unit {0})
  pub link_valid : Link → M W Bool
  pub prepare_statement : Link → Text → M W Stmt
  pub set_string : Stmt → ℕ → Text → M W (Unit {0})
  pub set_int : Stmt → ℕ → ℤ → M W (Unit {0})
  pub set_boolean : Stmt → ℕ → Bool → M W (Unit {0})
  pub fetch : Stmt → M W Rows
  pub update : Stmt → M W ℤ
  pub get_auto_commit : Link → M W Bool
  pub rollback : Link → M W (Unit {0})
  pub set_auto_commit : Link → Bool → M W (Unit {0})

-- The argument of a query, by the overload of `setParam` that takes it.
pub data Param : Type 0 where
  text_param : Text → Param
  int_param : ℤ → Param
  bool_param : Bool → Param

-- The object: `conn_` is null or a link; beside it the world.
pub record DbConnection (W Link : Type 0) : Type 0 where
  pub link : Option Link
  pub host : Text
  pub user : Text
  pub password : Text
  pub database : Text
  pub world : W

abbrev pub merge :
    {W Link A : Type 0} → DbConnection W Link → Outcome A × W → Outcome A × DbConnection W Link
merge d (r, w) = (r, record d { world = w })

-- A call of the connector, seen from a method of the object.
abbrev pub drive : {W Link A : Type 0} → M W A → M (DbConnection W Link) A
drive m d = merge d (m d.world)

abbrev pub get_link : {W Link : Type 0} → M (DbConnection W Link) (Option Link)
get_link d = (returns d.link, d)

abbrev pub set_link : {W Link : Type 0} → Option Link → M (DbConnection W Link) (Unit {0})
set_link l d = (returns tt, record d { link = l })

-- `catch (const sql::SQLException& e) { throw DbException(e.what()); }`
abbrev pub to_db_exception : {S A : Type 0} → Exn → M S A
to_db_exception (sql_exception what) = throw (db_exception what)
to_db_exception e = throw e

-- `catch (const sql::SQLException&) { return false; }`
abbrev pub to_false : {S : Type 0} → Exn → M S Bool
to_false (sql_exception what) = pure false
to_false e = throw e

-- `catch (...)`, and `catch (const std::exception&)`: nothing is thrown again.
abbrev pub swallow : {S : Type 0} → Exn → M S (Unit {0})
swallow e = pure tt

module _ {W Link Stmt Rows : Type 0} (sql : Driver W Link Stmt Rows) where
  abbrev Method : Type 0 → Type 0
  Method A = M (DbConnection W Link) A

  set_names : Link → Method (Unit {0})
  set_names l = do
    stmt ← drive (sql.create_statement l)
    drive (sql.execute stmt (codes "SET NAMES utf8mb4"))

  configure_new : Text → Option Link → Method (Unit {0})
  unfolding set_names
  configure_new database none = pure tt
  configure_new database (some l) = do
    drive (sql.set_schema l database)
    drive (sql.set_client_option l (codes "OPT_RECONNECT") (codes "true"))
    drive (sql.set_client_option l (codes "OPT_CONNECT_TIMEOUT") (codes "10"))
    drive (sql.set_client_option l (codes "multi_statements") (codes "false"))
    set_names l

  connect_link : Method (Option Link)
  connect_link d = (do l ← drive (sql.connect d.host d.user d.password); set_link l; pure l) d

  -- The constructor, on an object whose `conn_` is null.
  pub construct : Method (Unit {0})
  unfolding configure_new connect_link
  construct d = catch (connect_link >>= configure_new d.database) to_db_exception d

  probe : Option Link → Method Bool
  probe none = pure false
  probe (some l) = do
    stmt ← drive (sql.create_statement l)
    drive (sql.execute stmt (codes "SELECT 1"))
    pure true

  pub is_valid : Method Bool
  unfolding probe
  is_valid = catch (get_link >>= probe) to_false

  close_link : Option Link → Method (Unit {0})
  close_link none = pure tt
  close_link (some l) = catch (drive (sql.close l)) swallow

  configure_again : Text → Option Link → Method (Unit {0})
  unfolding set_names
  configure_again database none = pure tt
  configure_again database (some l) = do
    drive (sql.set_schema l database)
    drive (sql.set_client_option l (codes "OPT_CONNECT_TIMEOUT") (codes "10"))
    drive (sql.set_client_option l (codes "multi_statements") (codes "false"))
    set_names l

  connect_again : Method (Option Link)
  unfolding close_link connect_link
  connect_again = do old ← get_link; close_link old; connect_link

  pub reconnect : Method (Unit {0})
  unfolding configure_again connect_again
  reconnect d = catch (connect_again >>= configure_again d.database) to_db_exception d

  -- `conn_ && conn_->isValid()`
  link_works : Option Link → Method Bool
  link_works none = pure false
  link_works (some l) = drive (sql.link_valid l)

  pub ping : Method Bool
  unfolding link_works
  ping = catch (get_link >>= link_works) to_false

  end_transaction : Link → Bool → Method (Unit {0})
  end_transaction l true = pure tt
  end_transaction l false = do drive (sql.rollback l); drive (sql.set_auto_commit l true)

  clean_link : Option Link → Method (Unit {0})
  unfolding end_transaction
  clean_link none = pure tt
  clean_link (some l) = drive (sql.get_auto_commit l) >>= end_transaction l

  pub cleanup : Method (Unit {0})
  unfolding clean_link
  cleanup = catch (get_link >>= clean_link) swallow

  set_param : Stmt → ℕ → Param → Method (Unit {0})
  set_param stmt index (text_param value) = drive (sql.set_string stmt index value)
  set_param stmt index (int_param value) = drive (sql.set_int stmt index value)
  set_param stmt index (bool_param value) = drive (sql.set_boolean stmt index value)

  bind_params : Stmt → ℕ → List Param → Method (Unit {0})
  unfolding set_param
  bind_params stmt index [] = pure tt
  bind_params stmt index (value ∷ args) = do
    set_param stmt index value
    bind_params stmt (index + 1) args

  reconnect_unless : Bool → Method (Unit {0})
  reconnect_unless works = if works then pure tt else reconnect

  -- `conn_->prepareStatement(sql)`: a null `conn_` is dereferenced, which `none` stands for.
  prepare : Text → Option Link → Method (Option Stmt)
  prepare query none = pure none
  prepare query (some l) = do stmt ← drive (sql.prepare_statement l query); pure (some stmt)

  bind_and_run : {R : Type 0} → (Stmt → M W R) → List Param → Option Stmt → Method (Option R)
  bind_and_run run args none = pure none
  bind_and_run run args (some stmt) = do
    bind_params stmt 1 args
    rows ← drive (run stmt)
    pure (some rows)

  pub run_on : {R : Type 0} → (Stmt → M W R) → Text → List Param → Method (Option R)
  unfolding prepare bind_and_run
  run_on run query args = do l ← get_link; stmt ← prepare query l; bind_and_run run args stmt

  -- What `executeQuery` and `executeUpdate` share.
  checked : {R : Type 0} → (Stmt → M W R) → Text → List Param → Method (Option R)
  unfolding reconnect_unless link_works
  checked run query args = do
    l ← get_link
    works ← link_works l
    reconnect_unless works
    run_on run query args

  pub execute_query : Text → List Param → Method (Option Rows)
  unfolding checked
  execute_query query args = catch (checked sql.fetch query args) to_db_exception

  pub execute_update : Text → List Param → Method (Option ℤ)
  unfolding checked
  execute_update query args = catch (checked sql.update query args) to_db_exception
