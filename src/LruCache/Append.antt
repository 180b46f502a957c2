-- ===== src/LruCache/Append.antt =====
-- A new entry.
use cyclone_httpserver.Common.{
  length-append, ℕ, ◌+◌, ◌<◌, ◌≡◌, ◌≢◌, refl, sym, ap, ◌∙◌, none, List, [], ◌∷◌, ◌++◌, All,
  if◌then◌else◌, ◌==◌, arith,
}
use mathlib.Core.Path.{subst}
use cyclone_httpserver.Common.Bytes.{Text, text_eq_iff}
use cyclone_httpserver.Common.Dict.{lookup, lookup-assign}
use cyclone_httpserver.Common.Dict.Size.{length-assign, assign-IsKeyed}
use cyclone_httpserver.LruCache.{append_node, insert_node, LruNode, Heap, KLruCache}
use cyclone_httpserver.LruCache.Links.{Seg, Distinct, insert_node-Seg, insert_node-data, Misses}
use mathlib.Core.List.{append_assoc}
use cyclone_httpserver.LruCache.Nodes.{
  node_of-append, node_of-same, keys-same, entries-append, entries-same, keys-add, entries, node_of,
  KeysDiffer, SameKeys,
}
use cyclone_httpserver.LruCache.Model.{Holds}

Distinct-insert :
    (xs : List ℕ) (n : ℕ)
    → Misses n (xs ++ 1 ∷ [])
    → Distinct (xs ++ 1 ∷ [])
    → Distinct (xs ++ n ∷ 1 ∷ [])
Distinct-insert [] n m d = (m, d)
Distinct-insert (x ∷ xs) n m d = (go xs d.0, Distinct-insert xs n m.1 d.1)
  where
    go : (ys : List ℕ) → Misses x (ys ++ 1 ∷ []) → Misses x (ys ++ n ∷ 1 ∷ [])
    go [] k = (λ e. m.0 (sym e), k)
    go (y ∷ ys) k = (k.0, go ys k.1)

below-Misses : (n : ℕ) (xs : List ℕ) → All (λ x. x < n) xs → Misses n xs
below-Misses n [] a = tt
below-Misses n (x ∷ xs) a = (omega (arith, a.0), below-Misses n xs a.1)

below-suc : (n : ℕ) (xs : List ℕ) → All (λ x. x < n) xs → All (λ x. x < n + 1) (xs ++ n ∷ [])
below-suc n [] a = (omega arith, tt)
below-suc n (x ∷ xs) a = (omega (arith, a.0), below-suc n xs a.1)

Misses-snoc : (n : ℕ) (xs : List ℕ) (q : ℕ) → Misses n xs → n ≢ q → Misses n (xs ++ q ∷ [])
Misses-snoc n [] q m e = (e, tt)
Misses-snoc n (x ∷ xs) q m e = (m.0, Misses-snoc n xs q m.1 e)

module _ {V : Type 0} where
  -- A node that stands nowhere is written.
  abbrev write : ℕ → LruNode V → Heap V → Heap V
  write p node h = λ q. if p == q then node else h q

  write-Seg :
      (n : ℕ) (node : LruNode V) (h : Heap V) (p : ℕ) (xs : List ℕ) (q : ℕ)
      → Misses n (p ∷ (xs ++ q ∷ []))
      → Seg h p xs q
      → Seg (write n node h) p xs q
  write-Seg n node h p [] q m s = ground arith
  write-Seg n node h p (x ∷ xs) q m s =
      (ground arith, ground arith, write-Seg n node h x xs q m.1 s.2)

  write-entries :
      (n : ℕ) (node : LruNode V) (h : Heap V) (xs : List ℕ)
      → Misses n xs
      → entries (write n node h) xs ≡ entries h xs
  write-entries n node h [] m = refl
  write-entries n node h (x ∷ xs) m = ground (arith, write-entries n node h xs m.1)

  write-node_of :
      (n : ℕ) (node : LruNode V) (h : Heap V) (k : Text) (xs : List ℕ)
      → Misses n xs
      → node_of (write n node h) k xs ≡ node_of h k xs
  write-node_of n node h k [] m = refl
  write-node_of n node h k (x ∷ xs) m = ground (arith, write-node_of n node h k xs m.1)

  write-keys :
      (n : ℕ) (node : LruNode V) (h : Heap V) (xs : List ℕ)
      → Misses n xs
      → KeysDiffer h xs
      → KeysDiffer (write n node h) xs
  write-keys n node h [] m u = tt
  write-keys n node h (x ∷ xs) m u = (
    write-node_of n node h ((write n node h) x).key xs m.1 ∙ ground (arith, u.0),
    write-keys n node h xs m.1 u.1,
  )

  -- A new entry goes to the end.
  pub append-Holds :
      (key : Text) (value : V) (c : KLruCache V) (xs : List ℕ)
      → Holds c xs
      → lookup key c.node_map ≡ none
      → Holds (append_node key value c) (xs ++ c.fresh ∷ [])
        × (entries (append_node key value c).heap (xs ++ c.fresh ∷ [])
            ≡ entries c.heap xs ++ (key, value) ∷ [])
  unfolding append_node
  append-Holds key value c xs holds e =
      let n = c.fresh in
      let node : LruNode V = record { key = key; value = value; prev = none; next = none } in
      let h = write n node c.heap in
      let m = below-Misses n xs holds.used.1 in
      let m1 : n ≢ 1 = omega (arith, holds.used.0) in
      let m0 : n ≢ 0 = omega (arith, holds.used.0) in
      let d = Distinct-insert (0 ∷ xs) n (m0, Misses-snoc n xs 1 m m1) holds.distinct in
      let k : SameKeys (insert_node n h) h = λ z. (insert_node-data n h z).0 in
      let at_n : (h n).key ≡ key = ground arith in
      let at_value : (h n).value ≡ value = ground arith in
      let new : node_of h (h n).key xs ≡ none =
        subst (λ j. node_of h j xs ≡ none) (sym at_n)
          (write-node_of n node c.heap key xs m ∙ sym (holds.mapped key) ∙ e) in
      (
        record {
          links =
              insert_node-Seg h 0 xs n d
                (write-Seg n node c.heap 0 xs 1 (m0, Misses-snoc n xs 1 m m1) holds.links);
          distinct = subst (λ l. Distinct (0 ∷ l)) (sym (append_assoc xs (n ∷ []) (1 ∷ []))) d;
          used = (omega (arith, holds.used.0), below-suc n xs holds.used.1);
          mapped = λ q.
              lookup-assign key q n c.node_map
              ∙ ground (
                arith,
                holds.mapped q,
                holds.mapped key,
                e,
                write-node_of n node c.heap q xs m,
                node_of-append h q xs (n ∷ []),
                at_n,
                text_eq_iff key q,
              )
              ∙ sym (node_of-same (insert_node n h) h q (xs ++ n ∷ []) k);
          keys =
              keys-same (insert_node n h) h (xs ++ n ∷ []) k
                (keys-add h xs n (write-keys n node c.heap xs m holds.keys) new);
          map_keyed = assign-IsKeyed key n c.node_map holds.map_keyed;
          sized =
              omega
                (arith, length-assign key n c.node_map e, holds.sized, length-append xs (n ∷ []));
        },
        entries-same (insert_node n h) h (xs ++ n ∷ []) k (λ z. (insert_node-data n h z).1)
            ∙ entries-append h xs (n ∷ [])
            ∙ ap (λ l. l ++ ((h n).key, (h n).value) ∷ []) (write-entries n node c.heap xs m)
            ∙ rw (at_n, at_value) refl,
      )
