-- ===== src/LruCache/Links.antt =====
-- The doubly linked list of the nodes.
use cyclone_httpserver.Common.{ℕ, ◌≡◌, ◌≢◌, sym, some, List, [], ◌∷◌, ◌++◌, All, arith}
use cyclone_httpserver.LruCache.{Heap, unlink, link, remove_node, insert_node}

-- The nodes between `p` and `q`, linked both ways.
abbrev pub Seg : {V : Type 0} → Heap V → ℕ → List ℕ → ℕ → Type 0
Seg h p [] q = ((h p).next ≡ some q) × ((h q).prev ≡ some p)
Seg h p (x ∷ xs) q = ((h p).next ≡ some x) × ((h x).prev ≡ some p) × Seg h x xs q

abbrev pub last : ℕ → List ℕ → ℕ
last p [] = p
last p (x ∷ xs) = last x xs

abbrev pub first : List ℕ → ℕ → ℕ
first [] q = q
first (y ∷ ys) q = y

-- A node does not stand in a list.
abbrev pub Misses : ℕ → List ℕ → Type 0
Misses p = All (λ x. p ≢ x)

-- No node stands twice in the list.
abbrev pub Distinct : List ℕ → Type 0
Distinct [] = Unit
Distinct (x ∷ xs) = Misses x xs × Distinct xs

Misses-left : (p : ℕ) (xs ys : List ℕ) → Misses p (xs ++ ys) → Misses p xs
Misses-left p [] ys m = tt
Misses-left p (x ∷ xs) ys m = (m.0, Misses-left p xs ys m.1)

Misses-right : (p : ℕ) (xs ys : List ℕ) → Misses p (xs ++ ys) → Misses p ys
Misses-right p [] ys m = m
Misses-right p (x ∷ xs) ys m = Misses-right p xs ys m.1

last-ne : (p x : ℕ) (xs ys : List ℕ) → Misses p (x ∷ (xs ++ ys)) → p ≢ last x xs
last-ne p x [] ys m = m.0
last-ne p x (y ∷ xs) ys m = last-ne p y xs ys m.1

first-ne : (p : ℕ) (ys : List ℕ) (q : ℕ) → Misses p (ys ++ q ∷ []) → p ≢ first ys q
first-ne p [] q m = m.0
first-ne p (y ∷ ys) q m = m.0

module _ {V : Type 0} where
  Seg-prev :
      (h : Heap V) (p : ℕ) (xs : List ℕ) (q : ℕ) → Seg h p xs q → (h q).prev ≡ some (last p xs)
  Seg-prev h p [] q s = s.1
  Seg-prev h p (x ∷ xs) q s = Seg-prev h x xs q s.2

  -- Nodes that stand apart keep their links.
  unlink-apart :
      (a n b : ℕ) (h : Heap V) (p : ℕ) (xs : List ℕ) (q : ℕ)
      → Misses a (p ∷ xs)
      → Misses n (p ∷ xs)
      → Misses b (xs ++ q ∷ [])
      → Seg h p xs q
      → Seg (unlink a n b h) p xs q
  unlink-apart a n b h p [] q ma mn mb s = ground arith
  unlink-apart a n b h p (x ∷ xs) q ma mn mb s =
      (ground arith, ground arith, unlink-apart a n b h x xs q ma.1 mn.1 mb.1 s.2)

  unlink-front :
      (h : Heap V) (p n : ℕ) (ys : List ℕ) (q : ℕ)
      → Distinct (p ∷ n ∷ (ys ++ q ∷ []))
      → Seg h p (n ∷ ys) q
      → Seg (unlink p n (first ys q) h) p ys q
  unlink-front h p n [] q d s = ground arith
  unlink-front h p n (y ∷ ys) q d s = (
    ground arith,
    ground arith,
    unlink-apart p n y h y ys q (Misses-left p (y ∷ ys) (q ∷ []) d.0.1)
        (Misses-left n (y ∷ ys) (q ∷ []) d.1.0) d.1.1.0 s.2.2,
  )

  -- Taking a node out of the middle.
  pub unlink-Seg :
      (h : Heap V) (p : ℕ) (xs : List ℕ) (n : ℕ) (ys : List ℕ) (q : ℕ)
      → Distinct (p ∷ (xs ++ n ∷ (ys ++ q ∷ [])))
      → Seg h p (xs ++ n ∷ ys) q
      → Seg (unlink (last p xs) n (first ys q) h) p (xs ++ ys) q
  unlink-Seg h p [] n ys q d s = unlink-front h p n ys q d s
  unlink-Seg h p (x ∷ xs) n ys q d s =
      let a = last-ne p x xs (n ∷ (ys ++ q ∷ [])) d.0 in
      let b = (Misses-right p (x ∷ xs) (n ∷ (ys ++ q ∷ [])) d.0).0 in
      let c = first-ne x ys q (Misses-right x xs (n ∷ (ys ++ q ∷ [])) d.1.0).1 in
      (ground (arith, s.0), ground (arith, s.1), unlink-Seg h x xs n ys q d.1 s.2)

  -- Putting a new one in front of the tail.
  pub link-Seg :
      (h : Heap V) (p : ℕ) (xs : List ℕ) (n : ℕ)
      → Distinct (p ∷ (xs ++ n ∷ 1 ∷ []))
      → Seg h p xs 1
      → Seg (link (last p xs) n h) p (xs ++ n ∷ []) 1
  link-Seg h p [] n d s = ground arith
  link-Seg h p (x ∷ xs) n d s =
      let a = last-ne p x xs (n ∷ 1 ∷ []) d.0 in
      let b = (Misses-right p (x ∷ xs) (n ∷ 1 ∷ []) d.0).0 in
      let c = Misses-right x xs (n ∷ 1 ∷ []) d.1.0 in
      (ground (arith, s.0), ground (arith, s.1, c), link-Seg h x xs n d.1 s.2)

  -- What a node in the middle is linked to.
  middle :
      (h : Heap V) (p : ℕ) (xs : List ℕ) (n : ℕ) (ys : List ℕ) (q : ℕ)
      → Seg h p (xs ++ n ∷ ys) q
      → ((h n).prev ≡ some (last p xs)) × ((h n).next ≡ some (first ys q))
  middle h p [] n [] q s = (s.1, s.2.0)
  middle h p [] n (y ∷ ys) q s = (s.1, s.2.0)
  middle h p (x ∷ xs) n ys q s = middle h x xs n ys q s.2

  pub remove_node-Seg :
      (h : Heap V) (p : ℕ) (xs : List ℕ) (n : ℕ) (ys : List ℕ) (q : ℕ)
      → Distinct (p ∷ (xs ++ n ∷ (ys ++ q ∷ [])))
      → Seg h p (xs ++ n ∷ ys) q
      → Seg (remove_node n h) p (xs ++ ys) q
  unfolding remove_node
  remove_node-Seg h p xs n ys q d s =
      let (a, b) = middle h p xs n ys q s in
      rw (a, remove_node) (rw (b, remove_node) (unlink-Seg h p xs n ys q d s))

  pub insert_node-Seg :
      (h : Heap V) (p : ℕ) (xs : List ℕ) (n : ℕ)
      → Distinct (p ∷ (xs ++ n ∷ 1 ∷ []))
      → Seg h p xs 1
      → Seg (insert_node n h) p (xs ++ n ∷ []) 1
  unfolding insert_node
  insert_node-Seg h p xs n d s = rw (Seg-prev h p xs 1 s, insert_node) (link-Seg h p xs n d s)

  -- The links hold no keys or values.
  pub remove_node-data :
      (n : ℕ) (h : Heap V) (z : ℕ)
      → ((remove_node n h z).key ≡ (h z).key) × ((remove_node n h z).value ≡ (h z).value)
  unfolding remove_node
  remove_node-data n h z = ground arith

  pub insert_node-data :
      (n : ℕ) (h : Heap V) (z : ℕ)
      → ((insert_node n h z).key ≡ (h z).key) × ((insert_node n h z).value ≡ (h z).value)
  unfolding insert_node
  insert_node-data n h z = ground arith

-- A node that moves to the end of a list without repetition.
Misses-move :
    (p : ℕ) (xs : List ℕ) (n : ℕ) (ys : List ℕ)
    → Misses p (xs ++ n ∷ (ys ++ 1 ∷ []))
    → Misses p ((xs ++ ys) ++ n ∷ 1 ∷ [])
Misses-move p [] n [] m = m
Misses-move p [] n (y ∷ ys) m = (m.1.0, Misses-move p [] n ys (m.0, m.1.1))
Misses-move p (x ∷ xs) n ys m = (m.0, Misses-move p xs n ys m.1)

pub Distinct-move :
    (xs : List ℕ) (n : ℕ) (ys : List ℕ)
    → Distinct (xs ++ n ∷ (ys ++ 1 ∷ []))
    → Distinct ((xs ++ ys) ++ n ∷ 1 ∷ [])
Distinct-move [] n [] d = d
Distinct-move [] n (y ∷ ys) d =
    (Misses-move y [] n ys (λ e. d.0.0 (sym e), d.1.0), Distinct-move [] n ys (d.0.1, d.1.1))
Distinct-move (x ∷ xs) n ys d = (Misses-move x xs n ys d.0, Distinct-move xs n ys d.1)

Misses-drop :
    (p : ℕ) (xs : List ℕ) (n : ℕ) (ys : List ℕ) → Misses p (xs ++ n ∷ ys) → Misses p (xs ++ ys)
Misses-drop p [] n ys m = m.1
Misses-drop p (x ∷ xs) n ys m = (m.0, Misses-drop p xs n ys m.1)

pub Distinct-drop :
    (xs : List ℕ) (n : ℕ) (ys : List ℕ) → Distinct (xs ++ n ∷ ys) → Distinct (xs ++ ys)
Distinct-drop [] n ys d = d.1
Distinct-drop (x ∷ xs) n ys d = (Misses-drop x xs n ys d.0, Distinct-drop xs n ys d.1)
