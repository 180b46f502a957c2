-- ===== src/LruCache/LruK.antt =====
-- HttpServer/include/KLruCache.hpp: KLruKCache, which takes a key into its main cache at the k-th
-- access. Its two caches and its map of values are parts of it, not shared; `k_` is an `int` that is
-- compared as a `size_t`.
use cyclone_httpserver.Common.{
  ℕ, ◌+◌, false, ◌≡◌, ◌⊎◌, ap, ◌∙◌, refl, none, some, List, if◌then◌else◌, ◌==◌, leb, inl, inr,
  Option-cases, Bool-cases,
}
use cyclone_httpserver.Common.Bytes.{Text, text_eq_refl}
use cyclone_httpserver.Common.Decimal.{ℤ, to_u64}
use cyclone_httpserver.Common.Dict.{Dict, lookup, assign, erase, get_or, lookup-assign}
use cyclone_httpserver.LruCache
use cyclone_httpserver.LruCache.{KLruCache, room}
use cyclone_httpserver.LruCache.Law.{get-put}
use cyclone_httpserver.LruCache.Model.{Holds}
use cyclone_httpserver.LruCache.Moves.{get-get_entry}
use cyclone_httpserver.LruCache.Run.{get-capacity}

pub record KLruKCache (V : Type 0) : Type 0 where
  -- The base class.
  pub main : KLruCache V
  pub history_list : KLruCache ℕ
  pub history_value_map : Dict V
  pub k : ℤ

-- The accesses of the key with this one, and the history that counts it.
unfoldable pub count_access : Text → KLruCache ℕ → KLruCache ℕ × ℕ
count_access key history =
    let (h, old) = LruCache.get key history in let n = get_or old 0 + 1 in (LruCache.put key n h, n)

module _ {V : Type 0} where
  -- A value comes from the history into the main cache.
  abbrev pub admit : Text → V → KLruKCache V → KLruKCache V
  admit key v c = record c {
    main = LruCache.put key v c.main;
    history_list = LruCache.remove key c.history_list;
    history_value_map = erase key c.history_value_map;
  }

  -- `get`; the last argument is the value that `Value{}` gives.
  unfoldable pub get : Text → KLruKCache V → V → KLruKCache V × V
  get key c unset =
      let (main, hit) = LruCache.get key c.main in
      let (history, n) = count_access key c.history_list in
      let c' : KLruKCache V = record c { main = main; history_list = history } in
      elim hit [
        | some v ↦ (c', v)
        | none ↦
            if leb (to_u64 c.k) n
            then (elim (lookup key c.history_value_map) [
              | some v ↦ (admit key v c', v)
              | none ↦ (c', unset)
            ])
            else (c', unset)
      ]

  -- The part of `put` for a key that is not in the main cache.
  unfoldable pub put_history : Text → V → KLruKCache V → KLruKCache V
  put_history key v c =
      let (history, n) = count_access key c.history_list in
      let c' : KLruKCache V = record c {
        history_list = history;
        history_value_map = assign key v c.history_value_map;
      } in
      if leb (to_u64 c.k) n then admit key v c' else c'

  unfoldable pub put : Text → V → KLruKCache V → KLruKCache V
  put key v c =
      let (main, hit) = LruCache.get key c.main in
      elim hit [
        | some old ↦ record c { main = LruCache.put key v main }
        | none ↦ put_history key v (record c { main = main })
      ]

  -- The main cache finds the value that was put, or the map of values keeps it.
  abbrev pub Kept : Text → V → KLruKCache V → KLruKCache V → Type 0
  Kept key v c c' =
      ((LruCache.get key c'.main).1 ≡ some v)
      ⊎ ((lookup key c'.history_value_map ≡ some v)
          × (leb (to_u64 c.k) (count_access key c.history_list).1 ≡ false))

  put_history-Kept :
      (key : Text) (v : V) (c : KLruKCache V)
      → (LruCache.get key (LruCache.put key v c.main)).1 ≡ some v
      → Kept key v c (put_history key v c)
  unfolding put_history
  put_history-Kept key v c h =
      elim (Bool-cases (leb (to_u64 c.k) (count_access key c.history_list).1)) [
        | inl a ↦ rw (a, put_history) (inl h)
        | inr a ↦
            rw (a, put_history)
              (inr (lookup-assign key key v c.history_value_map ∙ rw (text_eq_refl key) refl, refl))
      ]

  -- Where nodes hold the main cache and its capacity is positive: a value that is put is found in the
  -- main cache afterwards, or it stands in the map of values, and the history counts less than k accesses
  -- of its key with this one.
  pub put-Kept :
      (key : Text) (v : V) (c : KLruKCache V) (xs : List ℕ)
      → Holds c.main xs
      → (room c.main.capacity == 0) ≡ false
      → Kept key v c (put key v c)
  unfolding put
  put-Kept key v c xs h s =
      let (ys, a, _) = get-get_entry key c.main xs h in
      let found =
        get-put key v (LruCache.get key c.main).0 ys a
          (ap (λ n. room n == 0) (get-capacity key c.main) ∙ s) in
      elim (Option-cases (LruCache.get key c.main).1) [
        | inr (old, e) ↦ rw (e, put) (inl found)
        | inl e ↦
            rw (e, put)
              (put_history-Kept key v (record c { main = (LruCache.get key c.main).0 }) found)
      ]
