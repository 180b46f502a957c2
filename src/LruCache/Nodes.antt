-- ===== src/LruCache/Nodes.antt =====
-- The nodes of a list, by their keys.
use cyclone_httpserver.Common.{
  ℕ, ◌≡◌, refl, ap, ◌∙◌, Option, none, some, List, [], ◌∷◌, ◌++◌, if◌then◌else◌, arith, Bool-cases,
  inl, inr,
}
use mathlib.Core.Path.{subst}
use cyclone_httpserver.Common.Bytes.{Text, text_eq, text_eq_iff}
use cyclone_httpserver.Common.Dict.{Dict, lookup, erase}
use cyclone_httpserver.LruCache.{Heap}

module _ {V : Type 0} where
  abbrev pub entries : Heap V → List ℕ → Dict V
  entries h [] = []
  entries h (x ∷ xs) = ((h x).key, (h x).value) ∷ entries h xs

  -- The first node of the list with a key.
  abbrev pub node_of : Heap V → Text → List ℕ → Option ℕ
  node_of h k [] = none
  node_of h k (x ∷ xs) = if text_eq (h x).key k then some x else node_of h k xs

  -- No two nodes of the list have the same key.
  abbrev pub KeysDiffer : Heap V → List ℕ → Type 0
  KeysDiffer h [] = Unit
  KeysDiffer h (x ∷ xs) = (node_of h (h x).key xs ≡ none) × KeysDiffer h xs

  -- The map finds a node exactly where the entries have the key.
  pub lookup-entries :
      (h : Heap V) (k : Text) (xs : List ℕ)
      → lookup k (entries h xs) ≡ elim (node_of h k xs) [ none ↦ none | some n ↦ some (h n).value ]
  lookup-entries h k [] = refl
  lookup-entries h k (x ∷ xs) = ground (arith, lookup-entries h k xs)

  -- A node that is found stands in the list, and is the only one with its key.
  pub record IsAt (h : Heap V) (k : Text) (xs : List ℕ) (n : ℕ) : Type 0 where
    pub before : List ℕ
    pub behind : List ℕ
    pub parts : xs ≡ before ++ n ∷ behind
    pub key_of : (h n).key ≡ k
    pub not_before : node_of h k before ≡ none
    pub not_behind : node_of h k behind ≡ none

  pub node_of-IsAt :
      (h : Heap V) (k : Text) (xs : List ℕ) (n : ℕ)
      → KeysDiffer h xs
      → node_of h k xs ≡ some n
      → IsAt h k xs n
  node_of-IsAt h k [] n u e = absurd (ground arith)
  node_of-IsAt h k (x ∷ xs) n u e = elim (Bool-cases (text_eq (h x).key k)) [
    | inl t ↦
        let key : (h x).key ≡ k = (text_eq_iff (h x).key k).0 t in
        let here : x ≡ n = ground (arith, e, t) in
        subst (IsAt h k (x ∷ xs)) here (record {
          before = [];
          behind = xs;
          parts = refl;
          key_of = key;
          not_before = refl;
          not_behind = subst (λ j. node_of h j xs ≡ none) key u.0;
        })
    | inr t ↦
        let at = node_of-IsAt h k xs n u.1 (ground (arith, e, t)) in
        record {
          before = x ∷ at.before;
          behind = at.behind;
          parts = ap (◌∷◌ x) at.parts;
          key_of = at.key_of;
          not_before = rw t at.not_before;
          not_behind = at.not_behind;
        }
  ]

  pub node_of-append :
      (h : Heap V) (k : Text) (xs ys : List ℕ)
      → node_of h k (xs ++ ys) ≡ elim (node_of h k xs) [ none ↦ node_of h k ys | some x ↦ some x ]
  node_of-append h k [] ys = refl
  node_of-append h k (x ∷ xs) ys = ground (arith, node_of-append h k xs ys)

  abbrev pub SameKeys : Heap V → Heap V → Type 0
  SameKeys h' h = (z : ℕ) → (h' z).key ≡ (h z).key

  pub node_of-same :
      (h' h : Heap V) (k : Text) (xs : List ℕ) → SameKeys h' h → node_of h' k xs ≡ node_of h k xs
  node_of-same h' h k [] d = refl
  node_of-same h' h k (x ∷ xs) d = rw (d x, node_of-same h' h k xs d) refl

  pub entries-same :
      (h' h : Heap V) (xs : List ℕ)
      → SameKeys h' h
      → ((z : ℕ) → (h' z).value ≡ (h z).value)
      → entries h' xs ≡ entries h xs
  entries-same h' h [] d v = refl
  entries-same h' h (x ∷ xs) d v = rw (d x, v x, entries-same h' h xs d v) refl

  pub keys-same : (h' h : Heap V) (xs : List ℕ) → SameKeys h' h → KeysDiffer h xs → KeysDiffer h' xs
  keys-same h' h [] d u = tt
  keys-same h' h (x ∷ xs) d u =
      (node_of-same h' h (h' x).key xs d ∙ rw (d x) u.0, keys-same h' h xs d u.1)

  -- A node moves to the end.
  pub node_of-move :
      (h : Heap V) (k : Text) (xs : List ℕ) (n : ℕ) (ys : List ℕ)
      → node_of h (h n).key xs ≡ none
      → node_of h (h n).key ys ≡ none
      → node_of h k ((xs ++ ys) ++ n ∷ []) ≡ node_of h k (xs ++ n ∷ ys)
  node_of-move h k xs n ys a b = elim (Bool-cases (text_eq (h n).key k)) [
    | inl t ↦
        let key : (h n).key ≡ k = (text_eq_iff (h n).key k).0 t in
        let a' : node_of h k xs ≡ none = subst (λ j. node_of h j xs ≡ none) key a in
        let b' : node_of h k ys ≡ none = subst (λ j. node_of h j ys ≡ none) key b in
        ground (
          arith,
          node_of-append h k (xs ++ ys) (n ∷ []),
          node_of-append h k xs ys,
          node_of-append h k xs (n ∷ ys),
          a',
          b',
          t,
        )
    | inr t ↦ ground (
      arith,
      node_of-append h k (xs ++ ys) (n ∷ []),
      node_of-append h k xs ys,
      node_of-append h k xs (n ∷ ys),
      t,
    )
  ]

  pub keys-move :
      (h : Heap V) (xs : List ℕ) (n : ℕ) (ys : List ℕ)
      → KeysDiffer h (xs ++ n ∷ ys)
      → node_of h (h n).key xs ≡ none
      → node_of h (h n).key ys ≡ none
      → KeysDiffer h ((xs ++ ys) ++ n ∷ [])
  keys-move h [] n [] u a b = u
  keys-move h [] n (y ∷ ys) u a b =
      let b' : node_of h (h n).key ys ≡ none = ground (arith, b) in
      (
        ground (
          arith,
          node_of-append h (h y).key ys (n ∷ []),
          u.1.0,
          b,
          text_eq_iff (h y).key (h n).key,
          text_eq_iff (h n).key (h y).key,
        ),
        keys-move h [] n ys (b', u.1.1) refl b',
      )
  keys-move h (x ∷ xs) n ys u a b =
      let a' : node_of h (h n).key xs ≡ none = ground (arith, a) in
      (node_of-move h (h x).key xs n ys a' b ∙ u.0, keys-move h xs n ys u.1 a' b)

  pub entries-append :
      (h : Heap V) (xs ys : List ℕ) → entries h (xs ++ ys) ≡ entries h xs ++ entries h ys
  entries-append h [] ys = refl
  entries-append h (x ∷ xs) ys = ap (◌∷◌ ((h x).key, (h x).value)) (entries-append h xs ys)

  pub erase-entries-none :
      (h : Heap V) (k : Text) (xs : List ℕ)
      → node_of h k xs ≡ none
      → erase k (entries h xs) ≡ entries h xs
  erase-entries-none h k [] e = refl
  erase-entries-none h k (x ∷ xs) e = ground (arith, erase-entries-none h k xs)

  pub erase-entries :
      (h : Heap V) (k : Text) (xs : List ℕ) (n : ℕ) (ys : List ℕ)
      → (h n).key ≡ k
      → node_of h k xs ≡ none
      → node_of h k ys ≡ none
      → erase k (entries h (xs ++ n ∷ ys)) ≡ entries h (xs ++ ys)
  erase-entries h k [] n ys e a b =
      ground (arith, erase-entries-none h k ys, text_eq_iff (h n).key k)
  erase-entries h k (x ∷ xs) n ys e a b = ground (arith, erase-entries h k xs n ys e)

  -- The nodes without one of them.
  pub node_of-drop :
      (h : Heap V) (k : Text) (xs : List ℕ) (n : ℕ) (ys : List ℕ)
      → node_of h (h n).key xs ≡ none
      → node_of h (h n).key ys ≡ none
      → node_of h k (xs ++ ys) ≡ (if text_eq (h n).key k then none else node_of h k (xs ++ n ∷ ys))
  node_of-drop h k xs n ys a b = elim (Bool-cases (text_eq (h n).key k)) [
    | inl t ↦
        let key : (h n).key ≡ k = (text_eq_iff (h n).key k).0 t in
        let a' : node_of h k xs ≡ none = subst (λ j. node_of h j xs ≡ none) key a in
        let b' : node_of h k ys ≡ none = subst (λ j. node_of h j ys ≡ none) key b in
        ground (arith, node_of-append h k xs ys, a', b', t)
    | inr t ↦ ground (arith, node_of-append h k xs ys, node_of-append h k xs (n ∷ ys), t)
  ]

  pub keys-drop :
      (h : Heap V) (xs : List ℕ) (n : ℕ) (ys : List ℕ)
      → KeysDiffer h (xs ++ n ∷ ys)
      → KeysDiffer h (xs ++ ys)
  keys-drop h [] n ys u = u.1
  keys-drop h (x ∷ xs) n ys u = (
    ground (arith, node_of-append h (h x).key xs ys, node_of-append h (h x).key xs (n ∷ ys), u.0),
    keys-drop h xs n ys u.1,
  )

  pub keys-add :
      (h : Heap V) (xs : List ℕ) (n : ℕ)
      → KeysDiffer h xs
      → node_of h (h n).key xs ≡ none
      → KeysDiffer h (xs ++ n ∷ [])
  keys-add h [] n u a = (refl, tt)
  keys-add h (x ∷ xs) n u a = (
    ground (
      arith,
      node_of-append h (h x).key xs (n ∷ []),
      u.0,
      a,
      text_eq_iff (h x).key (h n).key,
      text_eq_iff (h n).key (h x).key,
    ),
    keys-add h xs n u.1 (ground (arith, a)),
  )
