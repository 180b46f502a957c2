-- ===== src/Db/Tests.antt =====
-- A connector that counts its connections, and a run of two threads over a pool of one connection.
use cyclone_httpserver.Common.{
  ℕ, ◌+◌, ◌≡◌, ◌≢◌, ◌⊎◌, refl, [], ◌∷◌, true, false, some, none, get_elem?, length, arith, ltb,
  ◌==◌,
}
use cyclone_httpserver.Common.Bytes.{codes}
use cyclone_httpserver.Common.Decimal.{pos}
use cyclone_httpserver.Db.Connection.{Driver, DbConnection, returns, sql_exception, pure, throw}
use cyclone_httpserver.Db.Pool.{
  System, start_pool, call, take, block, pass, Reach, begin, later, new_pool, init, init_loop,
  take_connection, take_from, idle, asking, waiting, using, Pc,
}
use cyclone_httpserver.Db.Pool.Counts.{count, has}
use cyclone_httpserver.Db.Pool.Safety.{Reach-exclusive, Reach-wakes, init-init}

-- The world is the number of connections made; a link is its number, and works if it is the last.
abbrev counting : Driver ℕ ℕ ℕ ℕ
counting = record {
  connect = λ host user password w. (returns (some (w + 1)), w + 1);
  set_schema = λ l name. pure tt;
  set_client_option = λ l name value. pure tt;
  create_statement = λ l. pure l;
  execute = λ stmt query. pure tt;
  close = λ l. throw (sql_exception (codes "gone"));
  link_valid = λ l w. (returns (l == w), w);
  prepare_statement = λ l query. pure l;
  set_string = λ stmt index value. pure tt;
  set_int = λ stmt index value. pure tt;
  set_boolean = λ stmt index value. pure tt;
  fetch = λ stmt. pure stmt;
  update = λ stmt. pure (pos stmt);
  get_auto_commit = λ l. pure false;
  rollback = λ l. throw (sql_exception (codes "gone"));
  set_auto_commit = λ l on. pure tt;
}

abbrev unlinked : DbConnection ℕ ℕ
unlinked = record {
  link = none;
  host = codes "h";
  user = codes "u";
  password = codes "p";
  database = codes "d";
  world = 5;
}

-- Two threads and a pool of one connection: thread 0 uses it and thread 1 waits for it.
abbrev two_idle : System
two_idle = record { pool = new_pool; threads = idle ∷ idle ∷ []; to_check = [] }

abbrev one_taken : System
one_taken = record {
  pool = record { connections = []; initialized = true; made = 1 };
  threads = using 0 ∷ waiting ∷ [];
  to_check = [];
}

start : Reach 1 two_idle
start = begin (refl, λ f z. omega arith, refl)

one_taken_reached : Reach 1 one_taken
unfolding init init_loop take_connection take_from
one_taken_reached =
    later
      (later
        (later (later (later (later start (start_pool (λ n. true))) (call 0 refl)) (call 1 refl))
          (take 0 0 refl refl))
        (pass 0 0 refl))
      (block 1 refl refl)

Reach-exclusive_example : ◌≡◌ {A = ℕ} 0 0 × (count 0 one_taken.pool.connections ≡ 0)
Reach-exclusive_example =
    Reach-exclusive one_taken_reached 0 0 0 (using 0) (using 0) refl refl refl refl

Reach-wakes_example :
    ((j : ℕ) × (get_elem? one_taken.threads j ≡ some asking) × (one_taken.pool.connections ≢ []))
    ⊎ ((j : ℕ) × (c : ℕ) × (p : Pc) × (get_elem? one_taken.threads j ≡ some p) × (has c p ≡ 1))
Reach-wakes_example = Reach-wakes one_taken_reached (omega arith) 1 refl

-- The third creation fails at the first `init` of a pool of four.
init-init_example :
    (length (init (λ n. ltb n 2) 4 new_pool).connections ≡ 2)
    × ((init (λ n. ltb n 2) 4 new_pool).initialized ≡ false)
    × (length (init (λ n. true) 4 (init (λ n. ltb n 2) 4 new_pool)).connections ≡ 6)
    × ((init (λ n. true) 4 (init (λ n. ltb n 2) 4 new_pool)).initialized ≡ true)
init-init_example =
    init-init (λ n. ltb n 2) (λ n. true) 2 4 (omega arith) (λ i h. ground arith) refl (λ i. refl)
