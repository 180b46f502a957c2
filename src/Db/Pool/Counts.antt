-- ===== src/Db/Pool/Counts.antt =====
-- Counting the threads in a given place, and the copies of a connection in the queue.
use cyclone_httpserver.Common.{
  ℕ, zero, suc, ◌+◌, ◌≡◌, ◌≢◌, ◌⊎◌, inl, inr, refl, List, [], ◌∷◌, ◌++◌, some, get_elem?, set,
  arith, if◌then◌else◌, ◌==◌, ap, ◌≤◌,
}
use native.Mathlib.Decide.{ℕ_discrete}
use cyclone_httpserver.Db.Pool.{
  Pc, asking, waiting, checking, using, total, is_waiting, Notified, nobody, somebody,
}

abbrev pub count : ℕ → List ℕ → ℕ
count c [] = 0
count c (x ∷ xs) = (if x == c then 1 else 0) + count c xs

pub count-append : (c : ℕ) (xs ys : List ℕ) → count c (xs ++ ys) ≡ count c xs + count c ys
count-append c [] ys = omega arith
count-append c (x ∷ xs) ys = omega (arith, count-append c xs ys)

abbrev pub is_asking : Pc → ℕ
is_asking asking = 1
is_asking _ = 0

-- A thread that has connection `c`.
abbrev pub has : ℕ → Pc → ℕ
has c (checking d) = if d == c then 1 else 0
has c (using d) = if d == c then 1 else 0
has c _ = 0

pub total-set :
    (f : Pc → ℕ) (ps : List Pc) (i : ℕ) (p q : Pc)
    → get_elem? ps i ≡ some p
    → total f (set ps i q) + f p ≡ total f ps + f q
total-set f [] i p q h = cc
total-set f (r ∷ ps) zero p q h = let e : f r ≡ f p = ground arith in omega arith
total-set f (r ∷ ps) (suc i) p q h = omega (arith, total-set f ps i p q h)

pub total_found :
    (f : Pc → ℕ) (ps : List Pc)
    → total f ps ≢ 0
    → (i : ℕ) × (p : Pc) × (get_elem? ps i ≡ some p) × (f p ≢ 0)
total_found f [] h = absurd (h refl)
total_found f (p ∷ ps) h = elim (ℕ_discrete (f p) 0) [
  | yes z ↦ let (i, q, e, n) = total_found f ps (omega arith) in (suc i, q, e, n)
  | no n ↦ (0, p, refl, n)
]

-- A place that a thread has is counted.
pub total_at :
    (f : Pc → ℕ) (ps : List Pc) (i : ℕ) (p : Pc) → get_elem? ps i ≡ some p → f p ≤ total f ps
total_at f [] i p h = cc
total_at f (r ∷ ps) zero p h = let e : f r ≡ f p = ground arith in omega arith
total_at f (r ∷ ps) (suc i) p h = omega (arith, total_at f ps i p h)

-- Two threads in a place are counted twice.
pub total_two :
    (f : Pc → ℕ) (ps : List Pc) (i j : ℕ) (p q : Pc)
    → get_elem? ps i ≡ some p
    → get_elem? ps j ≡ some q
    → i ≢ j
    → f p + f q ≤ total f ps
total_two f [] i j p q h k n = cc
total_two f (r ∷ ps) zero zero p q h k n = absurd (n refl)
total_two f (r ∷ ps) zero (suc j) p q h k n =
    let e : f r ≡ f p = ground arith in omega (arith, total_at f ps j q k)
total_two f (r ∷ ps) (suc i) zero p q h k n =
    let e : f r ≡ f q = ground arith in omega (arith, total_at f ps i p h)
total_two f (r ∷ ps) (suc i) (suc j) p q h k n =
    omega (arith, total_two f ps i j p q h k (λ e. n (ap suc e)))

-- A notification moves no connection.
pub Notified-has : {ps qs : List Pc} (c : ℕ) → Notified ps qs → total (has c) qs ≡ total (has c) ps
Notified-has c (nobody e) = refl
Notified-has {ps} c (somebody j e) = omega (arith, total-set (has c) ps j waiting asking e)

-- After it, nobody waits or one thread more is about to look.
pub Notified-served :
    {ps qs : List Pc}
    → Notified ps qs
    → (total is_waiting qs ≡ 0) ⊎ (total is_asking qs ≡ suc (total is_asking ps))
Notified-served (nobody e) = inl e
Notified-served {ps} (somebody j e) = inr (omega (arith, total-set is_asking ps j waiting asking e))

pub Notified-calm :
    {ps qs : List Pc} → Notified ps qs → total is_waiting ps ≡ 0 → total is_waiting qs ≡ 0
Notified-calm (nobody e) h = h
Notified-calm {ps} (somebody j e) h = omega (arith, total-set is_waiting ps j waiting asking e)
