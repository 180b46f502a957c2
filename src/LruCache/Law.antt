-- ===== src/LruCache/Law.antt =====
-- What is put is found.
use cyclone_httpserver.Common.{
  Bool-cases, Option-cases, ap, arith, drop, false, inl, inr, leb, length, none, refl, some, sym, ℕ,
  ◌++◌, ◌==◌, ◌≡◌, ◌∙◌, ◌∷◌, List, [],
}
use cyclone_httpserver.Common.Bytes.{Text, text_eq_refl}
use cyclone_httpserver.Common.Dict.{Dict, erase, lookup, lookup-erase}
use cyclone_httpserver.LruCache.{KLruCache, get, put, room}
use cyclone_httpserver.LruCache.Model.{Holds, get_entry, put_entry}
use cyclone_httpserver.LruCache.Moves.{get-get_entry}
use cyclone_httpserver.LruCache.Nodes.{entries}
use cyclone_httpserver.LruCache.Put.{put-put_entry}

module _ {V : Type 0} where
  lookup-snoc :
      (k : Text) (v : V) (l : Dict V) → lookup k l ≡ none → lookup k (l ++ (k, v) ∷ []) ≡ some v
  lookup-snoc k v [] e = ground (arith, text_eq_refl k)
  lookup-snoc k v ((j, w) ∷ l) e = ground (arith, lookup-snoc k v l)

  lookup-drop : (k : Text) (l : Dict V) → lookup k l ≡ none → lookup k (drop 1 l) ≡ none
  lookup-drop k [] e = refl
  lookup-drop k ((j, w) ∷ l) e = ground (arith, e)

  lookup-put_entry :
      (size : ℕ) (k : Text) (v : V) (l : Dict V)
      → (size == 0) ≡ false
      → lookup k (put_entry size k v l) ≡ some v
  lookup-put_entry size k v l s = elim (Option-cases (lookup k l)) [
    | inr (old, e) ↦
        rw (s, put_entry)
          (rw (e, put_entry)
            (lookup-snoc k v (erase k l) (lookup-erase k k l ∙ ground (arith, text_eq_refl k))))
    | inl e ↦
        rw (s, put_entry)
          (rw (e, put_entry)
            (elim (Bool-cases (leb size (length l))) [
              | inl full ↦ rw full (lookup-snoc k v (drop 1 l) (lookup-drop k l e))
              | inr free ↦ rw free (lookup-snoc k v l e)
            ]))
  ]

  get_entry-lookup :
      (k : Text) (l : Dict V) (v : V) → lookup k l ≡ some v → (get_entry k l).1 ≡ some v
  get_entry-lookup k l v e = rw (e, get_entry) refl

  -- In a cache that nodes hold, of a positive capacity, what is put under a key is what get finds
  -- under it.
  pub get-put :
      (key : Text) (v : V) (c : KLruCache V) (xs : List ℕ)
      → Holds c xs
      → (room c.capacity == 0) ≡ false
      → (get key (put key v c)).1 ≡ some v
  get-put key v c xs h s =
      let (ys, a, b) = put-put_entry key v c xs h in
      let (zs, d, e) = get-get_entry key (put key v c) ys a in
      sym (ap (λ x. x.1) e)
      ∙ rw (sym b) (
          get_entry-lookup key (put_entry (room c.capacity) key v (entries c.heap xs)) v
            (lookup-put_entry (room c.capacity) key v (entries c.heap xs) s))
