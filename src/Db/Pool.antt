-- ===== src/Db/Pool.antt =====
-- HttpServer/include/DbConnectionPool.hpp and HttpServer/src/DbConnectionPool.cpp: the pool, shared by
-- threads. A connection is named by the order of its creation. Each part of the code that holds
-- `mutex_` is one step, and so is each check of a connection outside the lock.
use cyclone_httpserver.Common.{
  ℕ, zero, suc, ◌+◌, ◌≡◌, Bool, true, false, List, [], ◌∷◌, ◌++◌, Option, some, none, get_elem?,
  set, if◌then◌else◌,
}
pub mod Counts
pub mod Init
pub mod Invariant
pub mod Safety

pub record DbConnectionPool : Type 0 where
  pub connections : List ℕ
  pub initialized : Bool
  pub made : ℕ

abbrev pub new_pool : DbConnectionPool
new_pool = record { connections = []; initialized = false; made = 0 }

-- The loop of `init` over the connections to make, of which the n-th can be made if `works n`.
unfoldable pub init_loop : (ℕ → Bool) → ℕ → DbConnectionPool → DbConnectionPool × Bool
init_loop works zero p = (p, true)
init_loop works (suc n) p =
    let rest =
      init_loop works n
        (record p { connections = p.connections ++ p.made ∷ []; made = p.made + 1 }) in
    if works p.made then rest else (p, false)

abbrev pub set_initialized : DbConnectionPool × Bool → DbConnectionPool
set_initialized (p, done) = if done then record p { initialized = true } else p

-- `init`; where a creation throws, the exception leaves it before the flag is set.
unfoldable pub init : (ℕ → Bool) → ℕ → DbConnectionPool → DbConnectionPool
unfolding init_loop
init works pool_size p = if p.initialized then p else set_initialized (init_loop works pool_size p)

-- What `getConnection` does under the lock, once it has it: take the front, wait or throw.
pub data Taken : Type 0 where
  took : ℕ → DbConnectionPool → Taken
  waits : Taken
  refused : Taken

unfoldable pub take_from : List ℕ → DbConnectionPool → Taken
take_from [] p = if p.initialized then waits else refused
take_from (c ∷ cs) p = took c (record p { connections = cs })

unfoldable pub take_connection : DbConnectionPool → Taken
unfolding take_from
take_connection p = take_from p.connections p

-- The deleter of the pointer handed out, and the handler of a failed check.
pub give_back : ℕ → DbConnectionPool → DbConnectionPool
give_back c p = record p { connections = p.connections ++ c ∷ [] }

-- Where a thread stands: outside the pool, about to look at the queue, inside `cv_.wait`, checking a
-- connection that it took, or using it.
pub data Pc : Type 0 where
  idle : Pc
  asking : Pc
  waiting : Pc
  checking : ℕ → Pc
  using : ℕ → Pc

-- `to_check` is the copy of the queue that the health check works through.
pub record System : Type 0 where
  pub pool : DbConnectionPool
  pub threads : List Pc
  pub to_check : List ℕ

abbrev pub is_waiting : Pc → ℕ
is_waiting waiting = 1
is_waiting _ = 0

abbrev pub total : (Pc → ℕ) → List Pc → ℕ
total f [] = 0
total f (p ∷ ps) = f p + total f ps

-- `cv_.notify_one()`: one of the waiting threads goes on, if there is one.
pub data Notified (ps : List Pc) : List Pc → Type 0 where
  nobody : total is_waiting ps ≡ 0 → Notified ps ps
  somebody : (j : ℕ) → get_elem? ps j ≡ some waiting → Notified ps (set ps j asking)

pub data Step (pool_size : ℕ) (s : System) : System → Type 0 where
  start_pool :
      (works : ℕ → Bool) → Step pool_size s (record s { pool = init works pool_size s.pool })
  call :
      (i : ℕ)
      → get_elem? s.threads i ≡ some idle
      → Step pool_size s (record s { threads = set s.threads i asking })
  take :
      (i c : ℕ) {p : DbConnectionPool}
      → get_elem? s.threads i ≡ some asking
      → take_connection s.pool ≡ took c p
      → Step pool_size s (record s { pool = p; threads = set s.threads i (checking c) })
  block :
      (i : ℕ)
      → get_elem? s.threads i ≡ some asking
      → take_connection s.pool ≡ waits
      → Step pool_size s (record s { threads = set s.threads i waiting })
  refuse :
      (i : ℕ)
      → get_elem? s.threads i ≡ some asking
      → take_connection s.pool ≡ refused
      → Step pool_size s (record s { threads = set s.threads i idle })
  -- `cv_.wait` may return with no notification.
  wake :
      (i : ℕ)
      → get_elem? s.threads i ≡ some waiting
      → Step pool_size s (record s { threads = set s.threads i asking })
  -- The connection answers, or is opened again.
  pass :
      (i c : ℕ)
      → get_elem? s.threads i ≡ some (checking c)
      → Step pool_size s (record s { threads = set s.threads i (using c) })
  -- The check throws: the connection goes back, and the exception goes to the caller.
  fail :
      (i c : ℕ) {ps : List Pc}
      → get_elem? s.threads i ≡ some (checking c)
      → Notified (set s.threads i idle) ps
      → Step pool_size s (record s { pool = give_back c s.pool; threads = ps })
  release :
      (i c : ℕ) {ps : List Pc}
      → get_elem? s.threads i ≡ some (using c)
      → Notified (set s.threads i idle) ps
      → Step pool_size s (record s { pool = give_back c s.pool; threads = ps })
  -- The health check copies the queue, and then checks the copies outside the lock.
  copy : s.to_check ≡ [] → Step pool_size s (record s { to_check = s.pool.connections })
  checked :
      (c : ℕ) {cs : List ℕ} → s.to_check ≡ c ∷ cs → Step pool_size s (record s { to_check = cs })

-- Every thread outside an empty pool.
abbrev pub IsStart : System → Type 0
IsStart s =
    (s.pool ≡ new_pool) × ((f : Pc → ℕ) → f idle ≡ 0 → total f s.threads ≡ 0) × (s.to_check ≡ [])

pub data Reach (pool_size : ℕ) : System → Type 0 where
  begin : {s : System} → IsStart s → Reach pool_size s
  later : {s t : System} → Reach pool_size s → Step pool_size s t → Reach pool_size t
