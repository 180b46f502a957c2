-- ===== src/LruCache/Put.antt =====
-- put, on the list of the entries.
use cyclone_httpserver.Common.{
  ℕ, ◌≡◌, ◌≢◌, refl, sym, ap, ◌∙◌, true, false, none, some, List, [], ◌∷◌, ◌++◌, length, drop,
  if◌then◌else◌, ◌==◌, leb, arith, Option-cases, Bool-cases, inl, inr,
}
use mathlib.Core.Path.{subst}
use cyclone_httpserver.Common.Bytes.{Text, text_eq, text_eq_refl}
use cyclone_httpserver.Common.Dict.{Dict, lookup, erase, lookup-erase}
use cyclone_httpserver.LruCache.{
  move_to_most_recent, set_value, update_existing_node, add_new_node, evict_least_recent,
  move_to_most_recent, Heap, KLruCache, room, put,
}
use cyclone_httpserver.LruCache.Nodes.{
  node_of-append, erase-entries, entries-append, entries-same, entries, node_of, node_of-IsAt,
  SameKeys,
}
use cyclone_httpserver.LruCache.Model.{put_entry, Holds}
use cyclone_httpserver.LruCache.Edits.{evict-Holds}
use cyclone_httpserver.LruCache.Moves.{value_at, lookup-value_at, moved-Holds, move-data}
use cyclone_httpserver.LruCache.Append.{append-Holds}

module _ {V : Type 0} where
  -- The entry of a node gets a new value and moves to the end.
  value-entries :
      (n : ℕ) (v : V) (h : Heap V) (xs : List ℕ)
      → node_of h (h n).key xs ≡ none
      → entries (set_value n v h) xs ≡ entries h xs
  value-entries n v h [] e = refl
  value-entries n v h (x ∷ xs) e =
      let f : text_eq (h x).key (h n).key ≡ false = ground (arith, e) in
      let rest : node_of h (h n).key xs ≡ none = ground (arith, e) in
      let apart : n ≢ x = λ q. ground (arith, f, text_eq_refl (h n).key, ap (λ z. (h z).key) q) in
      ground (arith, apart, value-entries n v h xs rest)

  update-Holds :
      (key : Text) (v : V) (c : KLruCache V) (n : ℕ) (xs ys : List ℕ)
      → Holds c (xs ++ n ∷ ys)
      → (c.heap n).key ≡ key
      → node_of c.heap (c.heap n).key xs ≡ none
      → node_of c.heap (c.heap n).key ys ≡ none
      → Holds (record c { heap = update_existing_node n v c.heap }) ((xs ++ ys) ++ n ∷ [])
        × (erase key (entries c.heap (xs ++ n ∷ ys)) ++ (key, v) ∷ []
            ≡ entries (update_existing_node n v c.heap) ((xs ++ ys) ++ n ∷ []))
  unfolding update_existing_node
  update-Holds key v c n xs ys holds e a b =
      let h = set_value n v c.heap in
      let k : SameKeys h c.heap = λ z. ground arith in
      let at_n : (h n).key ≡ key = ground (arith, e) in
      let at_value : (h n).value ≡ v = ground arith in
      let none' : node_of c.heap (c.heap n).key (xs ++ ys) ≡ none =
        node_of-append c.heap (c.heap n).key xs ys ∙ rw a b in
      (
        moved-Holds c h xs n ys holds k (λ z. (ground arith, ground arith)) a b,
        ap (λ l. l ++ (key, v) ∷ [])
              (erase-entries c.heap key xs n ys e (subst (λ j. node_of c.heap j xs ≡ none) e a)
                  (subst (λ j. node_of c.heap j ys ≡ none) e b)
                ∙ sym (value-entries n v c.heap (xs ++ ys) none'))
            ∙ ap (λ p. entries h (xs ++ ys) ++ p ∷ [])
                (ap (λ k. (k, v)) (sym at_n) ∙ ap (λ u. ((h n).key, u)) (sym at_value))
            ∙ sym (entries-append h (xs ++ ys) (n ∷ []))
            ∙ sym (
                entries-same (move_to_most_recent n h) h ((xs ++ ys) ++ n ∷ [])
                  (λ z. (move-data n h z).0) (λ z. (move-data n h z).1)),
      )

  put_entry-zero :
      (size : ℕ) (k : Text) (v : V) (l : Dict V) → (size == 0) ≡ true → put_entry size k v l ≡ l
  put_entry-zero size k v l s = rw (s, put_entry) refl

  put_entry-some :
      (size : ℕ) (k : Text) (v old : V) (l : Dict V)
      → (size == 0) ≡ false
      → lookup k l ≡ some old
      → put_entry size k v l ≡ erase k l ++ (k, v) ∷ []
  put_entry-some size k v old l s e = rw (s, put_entry) (rw (e, put_entry) refl)

  put_entry-none :
      (size : ℕ) (k : Text) (v : V) (l : Dict V)
      → (size == 0) ≡ false
      → lookup k l ≡ none
      → put_entry size k v l ≡ (if leb size (length l) then drop 1 l else l) ++ (k, v) ∷ []
  put_entry-none size k v l s e = rw (s, put_entry) (rw (e, put_entry) refl)

  length-entries : (h : Heap V) (xs : List ℕ) → length (entries h xs) ≡ length xs
  length-entries h [] = refl
  length-entries h (x ∷ xs) = omega (arith, length-entries h xs)

  evict-lookup :
      (c : KLruCache V) (key : Text)
      → lookup key c.node_map ≡ none
      → lookup key (evict_least_recent c).node_map ≡ none
  unfolding evict_least_recent
  evict-lookup c key e = elim (Option-cases (c.heap 0).next) [
    | inl n ↦ rw (n, evict_least_recent) e
    | inr (p, n) ↦
        rw (n, evict_least_recent) (lookup-erase (c.heap p).key key c.node_map ∙ ground (arith, e))
  ]

  -- What a new entry is put behind.
  abbrev kept : ℕ → Dict V → Dict V
  kept size l = if leb size (length l) then drop 1 l else l

  add-free :
      (key : Text) (v : V) (c : KLruCache V) (xs : List ℕ)
      → Holds c xs
      → lookup key c.node_map ≡ none
      → leb (room c.capacity) (length c.node_map) ≡ false
      → (ys : List ℕ) × Holds (add_new_node key v c) ys
        × (kept (room c.capacity) (entries c.heap xs) ++ (key, v) ∷ []
            ≡ entries (add_new_node key v c).heap ys)
  unfolding add_new_node
  add-free key v c xs holds e free =
      let t : leb (room c.capacity) (length (entries c.heap xs)) ≡ false =
        rw (length-entries c.heap xs ∙ sym holds.sized) free in
      let (a, b) = append-Holds key v c xs holds e in
      (xs ++ c.fresh ∷ [], rw (free, add_new_node) a, rw (free, add_new_node) (rw t (sym b)))

  add-full :
      (key : Text) (v : V) (c : KLruCache V) (xs : List ℕ)
      → Holds c xs
      → (room c.capacity == 0) ≡ false
      → lookup key c.node_map ≡ none
      → leb (room c.capacity) (length c.node_map) ≡ true
      → (ys : List ℕ) × Holds (add_new_node key v c) ys
        × (kept (room c.capacity) (entries c.heap xs) ++ (key, v) ∷ []
            ≡ entries (add_new_node key v c).heap ys)
  unfolding add_new_node
  add-full key v c [] holds s e full = absurd (ground (arith, holds.sized))
  add-full key v c (x ∷ xs) holds s e full =
      let t : leb (room c.capacity) (length (entries c.heap (x ∷ xs))) ≡ true =
        rw (length-entries c.heap (x ∷ xs) ∙ sym holds.sized) full in
      let (left, same) = evict-Holds c x xs holds in
      let (a, b) = append-Holds key v (evict_least_recent c) xs left (evict-lookup c key e) in
      (
        xs ++ (evict_least_recent c).fresh ∷ [],
        rw (full, add_new_node) a,
        rw (full, add_new_node) (rw t (sym (b ∙ ap (λ l. l ++ (key, v) ∷ []) same))),
      )

  add-Holds :
      (key : Text) (v : V) (c : KLruCache V) (xs : List ℕ)
      → Holds c xs
      → (room c.capacity == 0) ≡ false
      → lookup key c.node_map ≡ none
      → (ys : List ℕ) × Holds (add_new_node key v c) ys
        × (kept (room c.capacity) (entries c.heap xs) ++ (key, v) ∷ []
            ≡ entries (add_new_node key v c).heap ys)
  add-Holds key v c xs holds s e = elim (Bool-cases (leb (room c.capacity) (length c.node_map))) [
    | inl full ↦ add-full key v c xs holds s e full
    | inr free ↦ add-free key v c xs holds e free
  ]

  -- The branches of put.
  put-zero :
      (key : Text) (v : V) (c : KLruCache V) → (room c.capacity == 0) ≡ true → put key v c ≡ c
  unfolding put
  put-zero key v c s = rw (s, put) refl

  put-old :
      (key : Text) (v : V) (c : KLruCache V) (n : ℕ)
      → (room c.capacity == 0) ≡ false
      → lookup key c.node_map ≡ some n
      → put key v c ≡ record c { heap = update_existing_node n v c.heap }
  unfolding put
  put-old key v c n s e = rw (s, put) (rw (e, put) refl)

  put-new :
      (key : Text) (v : V) (c : KLruCache V)
      → (room c.capacity == 0) ≡ false
      → lookup key c.node_map ≡ none
      → put key v c ≡ add_new_node key v c
  unfolding put
  put-new key v c s e = rw (s, put) (rw (e, put) refl)

  -- Nodes hold the cache, and its entries are those of a list.
  abbrev pub Becomes : KLruCache V → Dict V → Type 0
  Becomes d l = (ys : List ℕ) × Holds d ys × (l ≡ entries d.heap ys)

  put-Becomes-old :
      (key : Text) (v : V) (c : KLruCache V) (xs : List ℕ) (n : ℕ)
      → Holds c xs
      → lookup key c.node_map ≡ some n
      → Becomes
          (record c { heap = update_existing_node n v c.heap })
          (erase key (entries c.heap xs) ++ (key, v) ∷ [])
  put-Becomes-old key v c xs n holds e =
      let at = node_of-IsAt c.heap key xs n holds.keys (sym (holds.mapped key) ∙ e) in
      let a = subst (λ k. node_of c.heap k at.before ≡ none) (sym at.key_of) at.not_before in
      let b = subst (λ k. node_of c.heap k at.behind ≡ none) (sym at.key_of) at.not_behind in
      let (m, q) =
        update-Holds key v c n at.before at.behind (subst (Holds c) at.parts holds) at.key_of a b in
      (
        (at.before ++ at.behind) ++ n ∷ [],
        m,
        ap (λ ns. erase key (entries c.heap ns) ++ (key, v) ∷ []) at.parts ∙ q,
      )

  -- put on a cache that nodes hold: nodes hold the cache afterwards, and its entries are what the list
  -- of the entries says. With a capacity of 0 or less nothing changes; a key that is found has its
  -- entry moved to the end with the new value; a new key goes to the end, and if the cache is full
  -- the first entry, the least recently used, leaves it.
  pub put-put_entry :
      (key : Text) (v : V) (c : KLruCache V) (xs : List ℕ)
      → Holds c xs
      → (ys : List ℕ) × Holds (put key v c) ys
        × (put_entry (room c.capacity) key v (entries c.heap xs) ≡ entries (put key v c).heap ys)
  unfolding value_at
  put-put_entry key v c xs holds =
      let l = entries c.heap xs in
      let by = λ (d : KLruCache V). Becomes d (put_entry (room c.capacity) key v l) in
      elim (Bool-cases (room c.capacity == 0)) [
        | inl s ↦
            subst by (sym (put-zero key v c s))
              (xs, holds, put_entry-zero (room c.capacity) key v l s)
        | inr s ↦ elim (Option-cases (lookup key c.node_map)) [
          | inl e ↦
              let (ys, a, b) = add-Holds key v c xs holds s e in
              subst by (sym (put-new key v c s e)) (
                ys,
                a,
                put_entry-none (room c.capacity) key v l s (lookup-value_at c xs key none holds e)
                    ∙ b,
              )
          | inr (n, e) ↦
              let (ys, a, b) = put-Becomes-old key v c xs n holds e in
              subst by (sym (put-old key v c n s e)) (
                ys,
                a,
                put_entry-some (room c.capacity) key v (c.heap n).value l s
                      (lookup-value_at c xs key (some n) holds e)
                    ∙ b,
              )
        ]
      ]
