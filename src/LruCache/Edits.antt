-- ===== src/LruCache/Edits.antt =====
-- Nodes that leave the list and nodes that are new.
use cyclone_httpserver.Common.{
  length-append, ℕ, ◌<◌, ◌≡◌, refl, sym, ap, ◌∙◌, none, some, List, [], ◌∷◌, ◌++◌, All, arith,
  Option-cases, inl, inr,
}
use mathlib.Core.Path.{subst}
use cyclone_httpserver.Common.Bytes.{Text, text_eq_refl}
use cyclone_httpserver.Common.Dict.{lookup, erase, lookup-erase}
use cyclone_httpserver.Common.Dict.Size.{length-erase, erase-IsKeyed}
use cyclone_httpserver.LruCache.{evict_least_recent, remove_node, Heap, KLruCache, remove}
use cyclone_httpserver.LruCache.Links.{Distinct, Distinct-drop, remove_node-Seg, remove_node-data}
use mathlib.Core.List.{append_assoc}
use cyclone_httpserver.LruCache.Nodes.{
  erase-entries-none, node_of-same, keys-same, erase-entries, entries-same, node_of-drop, keys-drop,
  entries, node_of, node_of-IsAt, SameKeys,
}
use cyclone_httpserver.LruCache.Model.{Holds}

All-drop :
    (P : ℕ → Type 0) (xs : List ℕ) (n : ℕ) (ys : List ℕ) → All P (xs ++ n ∷ ys) → All P (xs ++ ys)
All-drop P [] n ys a = a.1
All-drop P (x ∷ xs) n ys a = (a.0, All-drop P xs n ys a.1)

module _ {V : Type 0} where
  -- A node leaves the list, and its key the map.
  pub removed-Holds :
      (key : Text) (c : KLruCache V) (xs : List ℕ) (n : ℕ) (ys : List ℕ)
      → Holds c (xs ++ n ∷ ys)
      → (c.heap n).key ≡ key
      → lookup key c.node_map ≡ some n
      → node_of c.heap (c.heap n).key xs ≡ none
      → node_of c.heap (c.heap n).key ys ≡ none
      → Holds (record c { heap = remove_node n c.heap; node_map = erase key c.node_map }) (xs ++ ys)
  removed-Holds key c xs n ys holds e found a b =
      let d : Distinct (0 ∷ (xs ++ n ∷ (ys ++ 1 ∷ []))) =
        subst (λ l. Distinct (0 ∷ l)) (append_assoc xs (n ∷ ys) (1 ∷ [])) holds.distinct in
      let k : SameKeys (remove_node n c.heap) c.heap = λ z. (remove_node-data n c.heap z).0 in
      record {
        links = remove_node-Seg c.heap 0 xs n ys 1 d holds.links;
        distinct =
            subst (λ l. Distinct (0 ∷ l)) (sym (append_assoc xs ys (1 ∷ [])))
              (Distinct-drop (0 ∷ xs) n (ys ++ 1 ∷ []) d);
        used = (holds.used.0, All-drop (λ x. x < c.fresh) xs n ys holds.used.1);
        mapped = λ q.
            lookup-erase key q c.node_map
            ∙ rw (holds.mapped q, sym e)
                (sym (
                  node_of-same (remove_node n c.heap) c.heap q (xs ++ ys) k
                  ∙ node_of-drop c.heap q xs n ys a b));
        keys =
            keys-same (remove_node n c.heap) c.heap (xs ++ ys) k
              (keys-drop c.heap xs n ys holds.keys);
        map_keyed = erase-IsKeyed key c.node_map holds.map_keyed;
        sized = omega (
          arith,
          length-erase key n c.node_map holds.map_keyed found,
          holds.sized,
          length-append xs (n ∷ ys),
          length-append xs ys,
        );
      }

  removed-entries :
      (h : Heap V) (key : Text) (xs : List ℕ) (n : ℕ) (ys : List ℕ)
      → (h n).key ≡ key
      → node_of h key xs ≡ none
      → node_of h key ys ≡ none
      → erase key (entries h (xs ++ n ∷ ys)) ≡ entries (remove_node n h) (xs ++ ys)
  removed-entries h key xs n ys e a b =
      erase-entries h key xs n ys e a b
      ∙ sym (
          entries-same (remove_node n h) h (xs ++ ys) (λ z. (remove_node-data n h z).0)
            (λ z. (remove_node-data n h z).1))

  lookup-none-erase :
      (c : KLruCache V) (xs : List ℕ) (key : Text)
      → Holds c xs
      → lookup key c.node_map ≡ none
      → erase key (entries c.heap xs) ≡ entries c.heap xs
  lookup-none-erase c xs key holds e = erase-entries-none c.heap key xs (sym (holds.mapped key) ∙ e)

  -- remove on a cache that nodes hold: nodes hold the cache afterwards, and its entries are those before
  -- without the key.
  pub remove-erase :
      (key : Text) (c : KLruCache V) (xs : List ℕ)
      → Holds c xs
      → (ys : List ℕ) × Holds (remove key c) ys
        × (erase key (entries c.heap xs) ≡ entries (remove key c).heap ys)
  unfolding remove
  remove-erase key c xs holds = elim (Option-cases (lookup key c.node_map)) [
    | inl e ↦ (xs, rw (e, remove) holds, rw (e, remove) (lookup-none-erase c xs key holds e))
    | inr (n, e) ↦
        let at = node_of-IsAt c.heap key xs n holds.keys (sym (holds.mapped key) ∙ e) in
        let a = subst (λ k. node_of c.heap k at.before ≡ none) (sym at.key_of) at.not_before in
        let b = subst (λ k. node_of c.heap k at.behind ≡ none) (sym at.key_of) at.not_behind in
        rw (e, remove)
          (
            at.before ++ at.behind,
            removed-Holds key c at.before n at.behind (subst (Holds c) at.parts holds) at.key_of e a
                b,
            ap (λ ns. erase key (entries c.heap ns)) at.parts
                ∙ removed-entries c.heap key at.before n at.behind at.key_of at.not_before
                    at.not_behind,
          )
  ]

  -- The node behind the head leaves.
  pub evict-Holds :
      (c : KLruCache V) (x : ℕ) (xs : List ℕ)
      → Holds c (x ∷ xs)
      → Holds (evict_least_recent c) xs
        × (entries (evict_least_recent c).heap xs ≡ entries c.heap xs)
  unfolding evict_least_recent
  evict-Holds c x xs holds =
      let key = (c.heap x).key in
      let found : lookup key c.node_map ≡ some x =
        holds.mapped key ∙ ground (arith, text_eq_refl key) in
      rw (holds.links.0, evict_least_recent)
        (
          removed-Holds key c [] x xs holds refl found refl holds.keys.0,
          entries-same (remove_node x c.heap) c.heap xs (λ z. (remove_node-data x c.heap z).0)
              (λ z. (remove_node-data x c.heap z).1),
        )
