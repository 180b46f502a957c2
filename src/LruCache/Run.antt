-- ===== src/LruCache/Run.antt =====
-- A cache through any calls.
use cyclone_httpserver.Common.{
  ℕ, ◌+◌, ◌≤◌, ◌≡◌, ◌∙◌, sym, ap, refl, Option, some, List, [], ◌∷◌, length, length-append, drop,
  length-drop, arith, Option-cases, Bool-cases, inl, inr, ◌==◌, leb,
}
use cyclone_httpserver.Common.Bytes.{Text}
use cyclone_httpserver.Common.Decimal.{ℤ}
use cyclone_httpserver.Common.Dict.{Dict, lookup, erase}
use cyclone_httpserver.LruCache.{KLruCache, room, new_cache, put, get, remove}
use cyclone_httpserver.LruCache.Edits.{remove-erase}
use cyclone_httpserver.LruCache.Model.{get_entry, put_entry, Holds, new_cache-Holds}
use cyclone_httpserver.LruCache.Moves.{get-get_entry}
use cyclone_httpserver.LruCache.Nodes.{entries}
use cyclone_httpserver.LruCache.Put.{put-put_entry}

pub data Call (V : Type 0) : Type 0 where
  put_call : Text → V → Call V
  get_call remove_call : Text → Call V

module _ {V : Type 0} where
  -- The answers of the gets, in their order.
  unfoldable pub run : List (Call V) → KLruCache V → KLruCache V × List (Option V)
  run [] c = (c, [])
  run (put_call k v ∷ cs) c = run cs (put k v c)
  run (remove_call k ∷ cs) c = run cs (remove k c)
  run (get_call k ∷ cs) c =
      let (c', answer) = get k c in let (c'', answers) = run cs c' in (c'', answer ∷ answers)

  -- The same calls on a list of entries.
  unfoldable pub run_entries : ℕ → List (Call V) → Dict V → Dict V × List (Option V)
  run_entries size [] l = (l, [])
  run_entries size (put_call k v ∷ cs) l = run_entries size cs (put_entry size k v l)
  run_entries size (remove_call k ∷ cs) l = run_entries size cs (erase k l)
  run_entries size (get_call k ∷ cs) l =
      let (l', answer) = get_entry k l in
      let (l'', answers) = run_entries size cs l' in (l'', answer ∷ answers)

  -- No call changes the capacity.
  put-capacity : (k : Text) (v : V) (c : KLruCache V) → (put k v c).capacity ≡ c.capacity
  unfolding put cyclone_httpserver.LruCache.add_new_node cyclone_httpserver.LruCache.append_node
      cyclone_httpserver.LruCache.evict_least_recent
  put-capacity k v c = ground arith

  pub get-capacity : (k : Text) (c : KLruCache V) → (get k c).0.capacity ≡ c.capacity
  unfolding get
  get-capacity k c = ground arith

  remove-capacity : (k : Text) (c : KLruCache V) → (remove k c).capacity ≡ c.capacity
  unfolding remove
  remove-capacity k c = ground arith

  run_held :
      (cs : List (Call V)) (c : KLruCache V) (xs : List ℕ)
      → Holds c xs
      → (run cs c).1 ≡ (run_entries (room c.capacity) cs (entries c.heap xs)).1
  unfolding run run_entries
  run_held [] c xs h = refl
  run_held (put_call k v ∷ cs) c xs h =
      let (ys, a, b) = put-put_entry k v c xs h in
      run_held cs (put k v c) ys a ∙ rw (put-capacity k v c, sym b) refl
  run_held (remove_call k ∷ cs) c xs h =
      let (ys, a, b) = remove-erase k c xs h in
      run_held cs (remove k c) ys a ∙ rw (remove-capacity k c, sym b) refl
  run_held (get_call k ∷ cs) c xs h =
      let (ys, a, b) = get-get_entry k c xs h in
      ap (◌∷◌ (get k c).1)
        (run_held cs (get k c).0 ys a ∙ rw (get-capacity k c, sym (ap (λ x. x.0) b)) refl)
      ∙ ap (λ x. x ∷ (run_entries (room c.capacity) cs (get_entry k (entries c.heap xs)).0).1)
          (sym (ap (λ x. x.1) b))

  erase-le : (k : Text) (l : Dict V) → length (erase k l) ≤ length l
  erase-le k [] = omega arith
  erase-le k ((j, v) ∷ l) = ground (arith, erase-le k l)

  erase-lt :
      (k : Text) (l : Dict V) (v : V) → lookup k l ≡ some v → length (erase k l) + 1 ≤ length l
  erase-lt k [] v e = ground arith
  erase-lt k ((j, w) ∷ l) v e = ground (arith, erase-le k l, erase-lt k l v)

  get_entry-le : (k : Text) (l : Dict V) (n : ℕ) → length l ≤ n → length (get_entry k l).0 ≤ n
  get_entry-le k l n h = elim (Option-cases (lookup k l)) [
    | inl e ↦ rw (e, get_entry) h
    | inr (v, e) ↦
        rw (e, get_entry) (omega (arith, length-append (erase k l) ((k, v) ∷ []), erase-lt k l v e))
  ]

  put_entry-le :
      (size : ℕ) (k : Text) (v : V) (l : Dict V)
      → length l ≤ size
      → length (put_entry size k v l) ≤ size
  put_entry-le size k v l h = elim (Bool-cases (size == 0)) [
    | inl s ↦ rw (s, put_entry) h
    | inr s ↦ elim (Option-cases (lookup k l)) [
      | inr (old, e) ↦
          rw (s, put_entry)
            (rw (e, put_entry)
              (omega (arith, length-append (erase k l) ((k, v) ∷ []), erase-lt k l old e)))
      | inl e ↦
          rw (s, put_entry)
            (rw (e, put_entry)
              (elim (Bool-cases (leb size (length l))) [
                | inl full ↦
                    rw full
                      (ground (arith, s, length-append (drop 1 l) ((k, v) ∷ []), length-drop 1 l))
                | inr free ↦ rw free (ground (arith, free, length-append l ((k, v) ∷ [])))
              ]))
    ]
  ]

  run_entries-le :
      (size : ℕ) (cs : List (Call V)) (l : Dict V)
      → length l ≤ size
      → length (run_entries size cs l).0 ≤ size
  unfolding run_entries
  run_entries-le size [] l h = h
  run_entries-le size (put_call k v ∷ cs) l h =
      run_entries-le size cs (put_entry size k v l) (put_entry-le size k v l h)
  run_entries-le size (remove_call k ∷ cs) l h =
      run_entries-le size cs (erase k l) (omega (arith, erase-le k l))
  run_entries-le size (get_call k ∷ cs) l h =
      run_entries-le size cs (get_entry k l).0 (get_entry-le k l size h)

  -- A new cache answers the gets among any calls of put, get and remove as the list of entries does,
  -- the least recently used first, which never holds more entries than the capacity.
  pub run-run_entries :
      (v : V) (capacity : ℤ) (cs : List (Call V))
      → ((run cs (new_cache v capacity)).1
          ≡ (run_entries (room (new_cache v capacity).capacity) cs []).1)
        × (length (run_entries (room (new_cache v capacity).capacity) cs []).0
            ≤ room (new_cache v capacity).capacity)
  run-run_entries v capacity cs = (
    run_held cs (new_cache v capacity) [] (new_cache-Holds v capacity),
    run_entries-le (room (new_cache v capacity).capacity) cs [] (omega arith),
  )
