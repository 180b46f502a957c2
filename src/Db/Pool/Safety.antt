-- ===== src/Db/Pool/Safety.antt =====
-- What the pool guarantees to its threads, in every reachable state.
use cyclone_httpserver.Common.{
  ℕ, zero, suc, ◌+◌, ◌≤◌, ◌<◌, ◌≡◌, ◌≢◌, ◌⊎◌, inl, inr, refl, List, [], ◌∷◌, ◌++◌, Bool, true,
  false, some, get_elem?, length, length-append, arith, Bool-cases,
}
use native.Mathlib.Decide.{ℕ_discrete}
use cyclone_httpserver.Db.Pool.{
  Pc, asking, waiting, checking, using, System, Reach, total, is_waiting, DbConnectionPool,
  new_pool, init_loop, init,
}
use cyclone_httpserver.Db.Pool.Counts.{count, has, is_asking, total_found, total_two, total_at}
use cyclone_httpserver.Db.Pool.Init.{Inv}
use cyclone_httpserver.Db.Pool.Invariant.{Reach-Inv}

-- No two threads have the same connection, and none has one that is in the queue, however the calls
-- of `getConnection`, the returns, the failed checks and the calls of `init` interleave.
pub Reach-exclusive :
    {n : ℕ} {s : System}
    → Reach n s
    → (c i j : ℕ) (p q : Pc) → get_elem? s.threads i ≡ some p
    → get_elem? s.threads j ≡ some q
    → has c p ≡ 1
    → has c q ≡ 1
    → (i ≡ j) × (count c s.pool.connections ≡ 0)
Reach-exclusive {n} {s} r c i j p q hi hj pi qj = elim (ℕ_discrete i j) [
  | yes e ↦ (e, ground (arith, (Reach-Inv r).once c, total_at (has c) s.threads i p hi))
  | no e ↦
      absurd (ground (arith, (Reach-Inv r).once c, total_two (has c) s.threads i j p q hi hj e))
]

List-cases : (xs : List ℕ) → (xs ≡ []) ⊎ ((c : ℕ) × (cs : List ℕ) × (xs ≡ c ∷ cs))
List-cases [] = inl refl
List-cases (x ∷ xs) = inr (x, xs, refl)

has_one : (c : ℕ) (p : Pc) → has c p ≢ 0 → has c p ≡ 1
has_one c (checking d) h = ground arith
has_one c (using d) h = ground arith
has_one c Pc.idle h = absurd (h refl)
has_one c asking h = absurd (h refl)
has_one c waiting h = absurd (h refl)

is_asking_only : (p : Pc) → is_asking p ≢ 0 → p ≡ asking
is_asking_only asking h = refl
is_asking_only Pc.idle h = absurd (h refl)
is_asking_only waiting h = absurd (h refl)
is_asking_only (checking c) h = absurd (h refl)
is_asking_only (using c) h = absurd (h refl)

-- No lost wake-up and no deadlock, for a pool of at least one connection: in a reachable state in which
-- a thread waits, either the queue has a connection and another thread is about to look at it,
-- or some thread has a connection, which it gives back.
pub Reach-wakes :
    {n : ℕ} {s : System}
    → Reach n s
    → 0 < n
    → (i : ℕ) → get_elem? s.threads i ≡ some waiting
    → ((j : ℕ) × (get_elem? s.threads j ≡ some asking) × (s.pool.connections ≢ []))
      ⊎ ((j : ℕ) × (c : ℕ) × (p : Pc) × (get_elem? s.threads j ≡ some p) × (has c p ≡ 1))
Reach-wakes {n} {s} r pos i h = elim (List-cases s.pool.connections) [
  | inl empty ↦
      let (j, p, e, m) = total_found (has 0) s.threads (ground (arith, empty, v.once 0, filled)) in
      inr (j, 0, p, e, has_one 0 p m)
  | inr (c, cs, full) ↦
      let (j, p, e, m) =
        total_found is_asking s.threads (ground (arith, full, v.served, waits_one)) in
      inl (j, rw (← is_asking_only p m) e, rw full (λ z. cc))
]
  where
    v : Inv n s
    v = Reach-Inv r

    waits_one : 1 ≤ total is_waiting s.threads
    waits_one = total_at is_waiting s.threads i waiting h

    filled : 0 < s.pool.made
    filled = elim (Bool-cases s.pool.initialized) [
      | inl e ↦ omega (arith, v.filled e)
      | inr e ↦ absurd (omega (arith, v.calm e, waits_one))
    ]

-- The n-th creation is `made` in the pool when it is tried.
init_loop_stops :
    (works : ℕ → Bool) (j n : ℕ) (p : DbConnectionPool)
    → p.made ≤ j
    → j < p.made + n
    → ((i : ℕ) → i < j → works i ≡ true)
    → works j ≡ false
    → (length (init_loop works n p).0.connections + p.made ≡ length p.connections + j)
      × ((init_loop works n p).1 ≡ false)
      × ((init_loop works n p).0.initialized ≡ p.initialized)
unfolding init_loop
init_loop_stops works j zero p le lt good bad = absurd (omega arith)
init_loop_stops works j (suc n) p le lt good bad = elim (Bool-cases (works p.made)) [
  | inl e ↦
      let next : p.made < j = elim (ℕ_discrete p.made j) [
        | yes z ↦ let e' : works j ≡ true = rw (← z) e in cc
        | no z ↦ omega arith
      ] in
      let q : DbConnectionPool = record p {
        connections = p.connections ++ p.made ∷ [];
        made = p.made + 1;
      } in
      rw e (
        ground (
          arith,
          init_loop_stops works j n q (omega arith) (omega arith) good bad,
          length-append p.connections (p.made ∷ []),
        ))
  | inr e ↦
      let here : p.made ≡ j = elim (ℕ_discrete p.made j) [
        | yes z ↦ z
        | no z ↦ let e' : works p.made ≡ true = good p.made (omega arith) in cc
      ] in
      rw e (omega arith, refl, refl)
]

init_loop_fills :
    (works : ℕ → Bool) (n : ℕ) (p : DbConnectionPool)
    → ((i : ℕ) → works i ≡ true)
    → (length (init_loop works n p).0.connections ≡ length p.connections + n)
      × ((init_loop works n p).1 ≡ true)
unfolding init_loop
init_loop_fills works zero p all = (omega arith, refl)
init_loop_fills works (suc n) p all =
    let q : DbConnectionPool = record p {
      connections = p.connections ++ p.made ∷ [];
      made = p.made + 1;
    } in
    rw (all p.made)
      (ground (arith, init_loop_fills works n q all, length-append p.connections (p.made ∷ [])))

init_fills :
    (works : ℕ → Bool) (n : ℕ) (p : DbConnectionPool)
    → ((i : ℕ) → works i ≡ true)
    → p.initialized ≡ false
    → (length (init works n p).connections ≡ length p.connections + n)
      × ((init works n p).initialized ≡ true)
unfolding init
init_fills works n p all e = rw e (ground (arith, init_loop_fills works n p all))

init_stops :
    (works : ℕ → Bool) (k n : ℕ)
    → k < n
    → ((i : ℕ) → i < k → works i ≡ true)
    → works k ≡ false
    → (length (init works n new_pool).connections ≡ k)
      × ((init works n new_pool).initialized ≡ false)
unfolding init
init_stops works k n lt good bad =
    ground (arith, init_loop_stops works k n new_pool (omega arith) (omega arith) good bad)

-- `init` again after one that failed at its connection k: the k connections of the first stay in the
-- queue, and the pool ends with k more than its size.
pub init-init :
    (works later : ℕ → Bool) (k n : ℕ)
    → k < n
    → ((i : ℕ) → i < k → works i ≡ true)
    → works k ≡ false
    → ((i : ℕ) → later i ≡ true)
    → (length (init works n new_pool).connections ≡ k)
      × ((init works n new_pool).initialized ≡ false)
      × (length (init later n (init works n new_pool)).connections ≡ k + n)
      × ((init later n (init works n new_pool)).initialized ≡ true)
init-init works later k n lt good bad all =
    let (left, flag) = init_stops works k n lt good bad in
    let (full, done) = init_fills later n (init works n new_pool) all flag in
    (left, flag, omega arith, done)
