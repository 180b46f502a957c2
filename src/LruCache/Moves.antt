-- ===== src/LruCache/Moves.antt =====
-- A node that is used moves to the end.
use cyclone_httpserver.Common.{
  length-append, ℕ, ◌<◌, ◌≡◌, refl, sym, ap, ◌∙◌, Option, none, some, List, [], ◌∷◌, ◌++◌, All,
  arith, Option-cases, inl, inr,
}
use mathlib.Core.Path.{subst}
use cyclone_httpserver.Common.Bytes.{Text}
use cyclone_httpserver.Common.Dict.{Dict, lookup, erase}
use cyclone_httpserver.LruCache.{move_to_most_recent, remove_node, Heap, KLruCache, get}
use cyclone_httpserver.LruCache.Links.{
  Seg, Distinct, Distinct-move, remove_node-Seg, insert_node-Seg, remove_node-data,
  insert_node-data,
}
use mathlib.Core.List.{append_assoc}
use cyclone_httpserver.LruCache.Nodes.{
  node_of-same, node_of-move, keys-move, keys-same, erase-entries, entries-append, entries-same,
  entries, node_of, IsAt, node_of-IsAt, lookup-entries, SameKeys,
}
use cyclone_httpserver.LruCache.Model.{get_entry, Holds}

All-move :
    (P : ℕ → Type 0) (xs : List ℕ) (n : ℕ) (ys : List ℕ)
    → All P (xs ++ n ∷ ys)
    → All P ((xs ++ ys) ++ n ∷ [])
All-move P [] n [] a = a
All-move P [] n (y ∷ ys) a = (a.1.0, All-move P [] n ys (a.0, a.1.1))
All-move P (x ∷ xs) n ys a = (a.0, All-move P xs n ys a.1)

module _ {V : Type 0} where
  pub move-data :
      (n : ℕ) (h : Heap V) (z : ℕ)
      → ((move_to_most_recent n h z).key ≡ (h z).key)
        × ((move_to_most_recent n h z).value ≡ (h z).value)
  unfolding move_to_most_recent
  move-data n h z =
      let a = remove_node-data n h z in
      let b = insert_node-data n (remove_node n h) z in (b.0 ∙ a.0, b.1 ∙ a.1)

  move-Seg :
      (h : Heap V) (xs : List ℕ) (n : ℕ) (ys : List ℕ)
      → Distinct (0 ∷ (xs ++ n ∷ (ys ++ 1 ∷ [])))
      → Seg h 0 (xs ++ n ∷ ys) 1
      → Seg (move_to_most_recent n h) 0 ((xs ++ ys) ++ n ∷ []) 1
  unfolding move_to_most_recent
  move-Seg h xs n ys d s =
      insert_node-Seg (remove_node n h) 0 (xs ++ ys) n (Distinct-move (0 ∷ xs) n ys d)
        (remove_node-Seg h 0 xs n ys 1 d s)

  -- Another heap with the same links.
  pub Seg-same :
      (h' h : Heap V) (p : ℕ) (xs : List ℕ) (q : ℕ)
      → ((z : ℕ) → ((h' z).next ≡ (h z).next) × ((h' z).prev ≡ (h z).prev))
      → Seg h p xs q
      → Seg h' p xs q
  Seg-same h' h p [] q d s = ((d p).0 ∙ s.0, (d q).1 ∙ s.1)
  Seg-same h' h p (x ∷ xs) q d s = ((d p).0 ∙ s.0, (d x).1 ∙ s.1, Seg-same h' h x xs q d s.2)

  -- A node of the cache is used, perhaps with a new value.
  pub moved-Holds :
      (c : KLruCache V) (h : Heap V) (xs : List ℕ) (n : ℕ) (ys : List ℕ)
      → Holds c (xs ++ n ∷ ys)
      → SameKeys h c.heap
      → ((z : ℕ) → ((h z).next ≡ (c.heap z).next) × ((h z).prev ≡ (c.heap z).prev))
      → node_of c.heap (c.heap n).key xs ≡ none
      → node_of c.heap (c.heap n).key ys ≡ none
      → Holds (record c { heap = move_to_most_recent n h }) ((xs ++ ys) ++ n ∷ [])
  moved-Holds c h xs n ys holds keys_same links_same a b =
      let d : Distinct (0 ∷ (xs ++ n ∷ (ys ++ 1 ∷ []))) =
        subst (λ l. Distinct (0 ∷ l)) (append_assoc xs (n ∷ ys) (1 ∷ [])) holds.distinct in
      let k : SameKeys (move_to_most_recent n h) c.heap = λ z. (move-data n h z).0 ∙ keys_same z in
      record {
        links = move-Seg h xs n ys d (Seg-same h c.heap 0 (xs ++ n ∷ ys) 1 links_same holds.links);
        distinct =
            subst (λ l. Distinct (0 ∷ l)) (sym (append_assoc (xs ++ ys) (n ∷ []) (1 ∷ [])))
              (Distinct-move (0 ∷ xs) n ys d);
        used = (holds.used.0, All-move (λ x. x < c.fresh) xs n ys holds.used.1);
        mapped = λ q.
            holds.mapped q
            ∙ sym (
                node_of-same (move_to_most_recent n h) c.heap q ((xs ++ ys) ++ n ∷ []) k
                ∙ node_of-move c.heap q xs n ys a b);
        keys =
            keys-same (move_to_most_recent n h) c.heap ((xs ++ ys) ++ n ∷ []) k
              (keys-move c.heap xs n ys holds.keys a b);
        map_keyed = holds.map_keyed;
        sized =
            holds.sized
            ∙ omega (
              arith,
              length-append xs (n ∷ ys),
              length-append (xs ++ ys) (n ∷ []),
              length-append xs ys,
            );
      }

  -- The entries after a node has moved to the end.
  pub moved-entries :
      (h : Heap V) (key : Text) (xs : List ℕ) (n : ℕ) (ys : List ℕ)
      → (h n).key ≡ key
      → node_of h key xs ≡ none
      → node_of h key ys ≡ none
      → erase key (entries h (xs ++ n ∷ ys)) ++ (key, (h n).value) ∷ []
        ≡ entries (move_to_most_recent n h) ((xs ++ ys) ++ n ∷ [])
  moved-entries h key xs n ys e a b =
      ap (λ l. l ++ (key, (h n).value) ∷ []) (erase-entries h key xs n ys e a b)
      ∙ ap (λ k. entries h (xs ++ ys) ++ (k, (h n).value) ∷ []) (sym e)
      ∙ sym (entries-append h (xs ++ ys) (n ∷ []))
      ∙ sym (
          entries-same (move_to_most_recent n h) h ((xs ++ ys) ++ n ∷ []) (λ z. (move-data n h z).0)
            (λ z. (move-data n h z).1))

  get_entry-none : (k : Text) (l : Dict V) → lookup k l ≡ none → get_entry k l ≡ (l, none)
  get_entry-none k l e = rw (e, get_entry) refl

  get_entry-some :
      (k : Text) (l : Dict V) (v : V)
      → lookup k l ≡ some v
      → get_entry k l ≡ (erase k l ++ (k, v) ∷ [], some v)
  get_entry-some k l v e = rw (e, get_entry) refl

  -- The entry that a node of the list holds.
  unfoldable pub value_at : Heap V → Option ℕ → Option V
  value_at h none = none
  value_at h (some n) = some (h n).value

  pub lookup-value_at :
      (c : KLruCache V) (xs : List ℕ) (key : Text) (o : Option ℕ)
      → Holds c xs
      → lookup key c.node_map ≡ o
      → lookup key (entries c.heap xs) ≡ value_at c.heap o
  unfolding value_at
  lookup-value_at c xs key none holds e =
      lookup-entries c.heap key xs ∙ rw (sym (holds.mapped key) ∙ e) refl
  lookup-value_at c xs key (some n) holds e =
      lookup-entries c.heap key xs ∙ rw (sym (holds.mapped key) ∙ e) refl

  get_hit :
      (key : Text) (c : KLruCache V) (xs : List ℕ) (n : ℕ)
      → Holds c xs
      → IsAt c.heap key xs n
      → lookup key (entries c.heap xs) ≡ some (c.heap n).value
      → (ys : List ℕ) × Holds (record c { heap = move_to_most_recent n c.heap }) ys
        × (get_entry key (entries c.heap xs) ≡ (
          entries (move_to_most_recent n c.heap) ys,
          some (move_to_most_recent n c.heap n).value,
        ))
  get_hit key c xs n holds at l =
      let a = subst (λ k. node_of c.heap k at.before ≡ none) (sym at.key_of) at.not_before in
      let b = subst (λ k. node_of c.heap k at.behind ≡ none) (sym at.key_of) at.not_behind in
      (
        (at.before ++ at.behind) ++ n ∷ [],
        moved-Holds c c.heap at.before n at.behind (subst (Holds c) at.parts holds) (λ z. refl)
            (λ z. (refl, refl)) a b,
        get_entry-some key (entries c.heap xs) (c.heap n).value l
            ∙ ap (λ m. (m, some (c.heap n).value))
                (ap (λ ns. erase key (entries c.heap ns) ++ (key, (c.heap n).value) ∷ []) at.parts
                  ∙ moved-entries c.heap key at.before n at.behind at.key_of at.not_before
                      at.not_behind)
            ∙ ap
                (λ v. (
                  entries (move_to_most_recent n c.heap) ((at.before ++ at.behind) ++ n ∷ []),
                  some v,
                ))
                (sym (move-data n c.heap n).1),
      )

  -- get on a cache that nodes hold: nodes hold the cache afterwards, and its entries and the answer are
  -- what the list of the entries says: a key that is found has its entry moved to the end.
  pub get-get_entry :
      (key : Text) (c : KLruCache V) (xs : List ℕ)
      → Holds c xs
      → (ys : List ℕ) × Holds (get key c).0 ys
        × (get_entry key (entries c.heap xs) ≡ (entries (get key c).0.heap ys, (get key c).1))
  unfolding get value_at
  get-get_entry key c xs holds = elim (Option-cases (lookup key c.node_map)) [
    | inl e ↦ (
      xs,
      rw (e, get) holds,
      rw (e, get) (get_entry-none key (entries c.heap xs) (lookup-value_at c xs key none holds e)),
    )
    | inr (n, e) ↦
        rw (e, get)
          (get_hit key c xs n holds
            (node_of-IsAt c.heap key xs n holds.keys (sym (holds.mapped key) ∙ e))
            (lookup-value_at c xs key (some n) holds e))
  ]
