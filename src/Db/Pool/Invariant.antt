-- ===== src/Db/Pool/Invariant.antt =====
-- What holds in every reachable state of the pool and its threads.
use cyclone_httpserver.Db.Pool.Init.{
  Inv, IsStart-Inv, init-once, init_initialized, init_again, init-filled,
}
use cyclone_httpserver.Common.{
  ℕ, ◌+◌, ◌≤◌, ◌≡◌, inl, inr, refl, List, [], ◌∷◌, true, false, some, get_elem?, set, length-append,
  arith, if◌then◌else◌, Bool-cases, ◌==◌,
}
use cyclone_httpserver.Db.Pool.{
  DbConnectionPool, took, waits, refused, take_connection, give_back, Pc, idle, asking, waiting,
  checking, System, is_waiting, total, Notified, Step, start_pool, call, take, block, refuse, wake,
  pass, fail, release, copy, checked, Reach, begin, later,
}
use cyclone_httpserver.Db.Pool.Counts.{
  count-append, is_asking, has, total-set, Notified-has, Notified-served, Notified-calm,
}

-- What the look at the queue tells.
took_front :
    {c : ℕ} {p q : DbConnectionPool}
    → take_connection p ≡ took c q
    → (p.connections ≡ c ∷ q.connections) × (q.made ≡ p.made) × (q.initialized ≡ p.initialized)
unfolding take_connection
took_front {p} e = ground arith

waits_empty :
    (p : DbConnectionPool)
    → take_connection p ≡ waits
    → (p.connections ≡ []) × (p.initialized ≡ true)
unfolding take_connection
waits_empty p e = ground arith

refused_empty :
    (p : DbConnectionPool)
    → take_connection p ≡ refused
    → (p.connections ≡ []) × (p.initialized ≡ false)
unfolding take_connection
refused_empty p e = ground arith

module _ {n : ℕ} {s : System} (v : Inv n s) (i : ℕ) where
  -- Thread `i` goes from `p` to `q`, in or out of the places that are counted.
  record Moved (p q : Pc) : Type 0 where
    keeps :
        (c : ℕ) → total (has c) (set s.threads i q) + has c p ≡ total (has c) s.threads + has c q
    waiters :
        total is_waiting (set s.threads i q) + is_waiting p
        ≡ total is_waiting s.threads + is_waiting q
    askers :
        total is_asking (set s.threads i q) + is_asking p ≡ total is_asking s.threads + is_asking q

  moved : (p q : Pc) → get_elem? s.threads i ≡ some p → Moved p q
  moved p q e = record {
    keeps = λ c. total-set (has c) s.threads i p q e;
    waiters = total-set is_waiting s.threads i p q e;
    askers = total-set is_asking s.threads i p q e;
  }

  -- A thread comes to look at the queue, or goes from a check to the use.
  stays :
      (p q : Pc)
      → Moved p q
      → ((c : ℕ) → has c q ≡ has c p)
      → is_waiting q ≤ is_waiting p
      → is_asking p ≤ is_asking q
      → Inv n (record s { threads = set s.threads i q })
  stays p q m same w a = record {
    once = λ c. omega (arith, v.once c, m.keeps c, same c);
    calm = λ h. ground (arith, v.calm h, m.waiters);
    served = ground (arith, v.served, m.waiters, m.askers);
    filled = v.filled;
  }

  takes :
      (c : ℕ) (p : DbConnectionPool)
      → Moved asking (checking c)
      → take_connection s.pool ≡ took c p
      → Inv n (record s { pool = p; threads = set s.threads i (checking c) })
  takes c p m e =
      let (front, made, flag) = took_front e in
      record {
        once = λ d. ground (arith, front, made, v.once d, m.keeps d);
        calm = λ h. ground (arith, flag, v.calm, m.waiters);
        served = ground (arith, front, v.served, m.waiters, m.askers);
        filled = ground (arith, v.filled);
      }

  blocks :
      Moved asking waiting
      → take_connection s.pool ≡ waits
      → Inv n (record s { threads = set s.threads i waiting })
  blocks m e =
      let (empty, flag) = waits_empty s.pool e in
      record {
        once = λ d. omega (arith, v.once d, m.keeps d);
        calm = λ h. cc;
        served = inr (rw empty (omega arith));
        filled = v.filled;
      }

  refuses :
      Moved asking idle
      → take_connection s.pool ≡ refused
      → Inv n (record s { threads = set s.threads i idle })
  refuses m e =
      let (empty, flag) = refused_empty s.pool e in
      record {
        once = λ d. omega (arith, v.once d, m.keeps d);
        calm = λ h. omega (arith, v.calm h, m.waiters);
        served = inr (rw empty (omega arith));
        filled = v.filled;
      }

  returns_it :
      (c : ℕ) (p : Pc) {ps : List Pc}
      → Moved p idle
      → ((d : ℕ) → has d p ≡ (if c == d then 1 else 0))
      → is_waiting p ≡ 0
      → is_asking p ≡ 0
      → Notified (set s.threads i idle) ps
      → Inv n (record s { pool = give_back c s.pool; threads = ps })
  unfolding give_back
  returns_it c p m own w a note = record {
    once = λ d. omega (
      arith,
      v.once d,
      m.keeps d,
      own d,
      Notified-has d note,
      count-append d s.pool.connections (c ∷ []),
    );
    calm = λ h. Notified-calm note (omega (arith, v.calm h, m.waiters));
    served = ground (
      arith,
      v.served,
      m.waiters,
      m.askers,
      Notified-served note,
      Notified-calm note,
      length-append s.pool.connections (c ∷ []),
    );
    filled = v.filled;
  }

pub Step-Inv : {n : ℕ} {s t : System} → Step n s t → Inv n s → Inv n t
Step-Inv {n} {s} (start_pool works) v = record {
  once = λ c. init-once n works s.pool c _ (v.once c);
  calm = λ h. v.calm (init_initialized n works s.pool h);
  served = elim (Bool-cases s.pool.initialized) [
    | inl e ↦ rw (init_again n works s.pool e) v.served
    | inr e ↦ inl (v.calm e)
  ];
  filled = init-filled n works s.pool v.filled;
}
Step-Inv (call i e) v = stays v i _ _ (moved v i _ _ e) (λ c. refl) (omega arith) (omega arith)
Step-Inv (wake i e) v = stays v i _ _ (moved v i _ _ e) (λ c. refl) (omega arith) (omega arith)
Step-Inv (pass i c e) v = stays v i _ _ (moved v i _ _ e) (λ d. refl) (omega arith) (omega arith)
Step-Inv (take i c {p} e t) v = takes v i c p (moved v i _ _ e) t
Step-Inv (block i e t) v = blocks v i (moved v i _ _ e) t
Step-Inv (refuse i e t) v = refuses v i (moved v i _ _ e) t
Step-Inv (fail i c e note) v = returns_it v i c _ (moved v i _ _ e) (λ d. refl) refl refl note
Step-Inv (release i c e note) v = returns_it v i c _ (moved v i _ _ e) (λ d. refl) refl refl note
Step-Inv (copy e) v = record { once = v.once; calm = v.calm; served = v.served; filled = v.filled }
Step-Inv (checked c e) v = record {
  once = v.once;
  calm = v.calm;
  served = v.served;
  filled = v.filled;
}

pub Reach-Inv : {n : ℕ} {s : System} → Reach n s → Inv n s
Reach-Inv (begin e) = IsStart-Inv e
Reach-Inv (later r st) = Step-Inv st (Reach-Inv r)
