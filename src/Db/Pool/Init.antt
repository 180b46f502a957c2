-- ===== src/Db/Pool/Init.antt =====
-- The invariant of the pool, where it begins, and that `init` keeps it.
use cyclone_httpserver.Common.{
  ℕ, zero, suc, ◌+◌, ◌≤◌, ◌≡◌, ◌⊎◌, inl, inr, refl, [], ◌∷◌, ◌++◌, Bool, true, false, length, arith,
  if◌then◌else◌, ltb, Bool-cases,
}
use cyclone_httpserver.Db.Pool.{
  DbConnectionPool, init_loop, init, System, is_waiting, total, IsStart,
}
use cyclone_httpserver.Db.Pool.Counts.{count, count-append, is_asking, has}

pub record Inv (pool_size : ℕ) (s : System) : Type 0 where
  -- Each connection made is in one place, the queue or one thread; others are nowhere.
  pub once :
      (c : ℕ)
      → count c s.pool.connections + total (has c) s.threads ≡ (if ltb c s.pool.made then 1 else 0)
  -- Before `init` has succeeded nobody waits.
  pub calm : s.pool.initialized ≡ false → total is_waiting s.threads ≡ 0
  -- No wake-up is lost.
  pub served :
      (total is_waiting s.threads ≡ 0) ⊎ (length s.pool.connections ≤ total is_asking s.threads)
  pub filled : s.pool.initialized ≡ true → pool_size ≤ s.pool.made

pub IsStart-Inv : {n : ℕ} {s : System} → IsStart s → Inv n s
IsStart-Inv (e, none_at, c) = record {
  once = λ c. ground (arith, none_at (has c));
  calm = λ _. none_at is_waiting refl;
  served = inl (none_at is_waiting refl);
  filled = λ h. ground arith;
}

pub init_loop-once :
    (works : ℕ → Bool) (n c : ℕ) (p : DbConnectionPool)
    → (count c (init_loop works n p).0.connections + (if ltb c p.made then 1 else 0)
        ≡ count c p.connections + (if ltb c (init_loop works n p).0.made then 1 else 0))
      × (p.made ≤ (init_loop works n p).0.made)
unfolding init_loop
init_loop-once works zero c p = (refl, omega arith)
init_loop-once works (suc n) c p = elim (Bool-cases (works p.made)) [
  | inl e ↦ rw e (
      ground (
        arith,
        count-append c p.connections (p.made ∷ []),
        init_loop-once works n c
            (record p { connections = p.connections ++ p.made ∷ []; made = p.made + 1 }),
      ))
  | inr e ↦ rw e (refl, omega arith)
]

pub init_loop-filled :
    (works : ℕ → Bool) (n : ℕ) (p : DbConnectionPool)
    → ((init_loop works n p).1 ≡ true → p.made + n ≤ (init_loop works n p).0.made)
      × ((init_loop works n p).0.initialized ≡ p.initialized)
unfolding init_loop
init_loop-filled works zero p = (λ _. omega arith, refl)
init_loop-filled works (suc n) p = elim (Bool-cases (works p.made)) [
  | inl e ↦ rw e (
      ground (
        arith,
        init_loop-filled works n
            (record p { connections = p.connections ++ p.made ∷ []; made = p.made + 1 }),
      ))
  | inr e ↦ rw e (λ h. cc, refl)
]

module _ (n : ℕ) (works : ℕ → Bool) (p : DbConnectionPool) where
  pub init-once :
      (c held : ℕ)
      → count c p.connections + held ≡ (if ltb c p.made then 1 else 0)
      → count c (init works n p).connections + held ≡ (if ltb c (init works n p).made then 1 else 0)
  unfolding init
  init-once c held h = elim (Bool-cases p.initialized) [
    | inl e ↦ rw e h
    | inr e ↦ rw e (ground (arith, init_loop-once works n c p))
  ]

  pub init-filled :
      (p.initialized ≡ true → n ≤ p.made)
      → (init works n p).initialized ≡ true
      → n ≤ (init works n p).made
  unfolding init
  init-filled h t = ground (arith, init_loop-filled works n p)

  pub init_initialized : (init works n p).initialized ≡ false → p.initialized ≡ false
  unfolding init
  init_initialized h = ground (arith, init_loop-filled works n p)

  -- Once the flag is set, `init` does nothing.
  pub init_again : p.initialized ≡ true → init works n p ≡ p
  unfolding init
  init_again e = rw e
