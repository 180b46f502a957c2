-- ===== src/LruCache/Model.antt =====
-- The cache as a list of its entries, the least recently used first, and the nodes that hold it.
use cyclone_httpserver.Common.{
  ℕ, ◌<◌, ◌≡◌, refl, Option, none, some, List, [], ◌∷◌, ◌++◌, All, length, drop, if◌then◌else◌,
  ◌==◌, leb, arith,
}
use cyclone_httpserver.Common.Bytes.{Text}
use cyclone_httpserver.Common.Decimal.{ℤ}
use cyclone_httpserver.Common.Dict.{Dict, lookup, erase}
use cyclone_httpserver.Common.Dict.Size.{IsKeyed}
use cyclone_httpserver.LruCache.{KLruCache, new_cache}
use cyclone_httpserver.LruCache.Links.{Seg, Distinct}
use cyclone_httpserver.LruCache.Nodes.{node_of, KeysDiffer}

module _ {V : Type 0} where
  -- What a cache promises, on the list of its entries.
  abbrev pub get_entry : Text → Dict V → Dict V × Option V
  get_entry k l = elim (lookup k l) [
    | some v ↦ (erase k l ++ (k, v) ∷ [], some v)
    | none ↦ (l, none)
  ]

  abbrev pub put_entry : ℕ → Text → V → Dict V → Dict V
  put_entry size k v l = if size == 0 then l else elim (lookup k l) [
    | some old ↦ erase k l ++ (k, v) ∷ []
    | none ↦ (if leb size (length l) then drop 1 l else l) ++ (k, v) ∷ []
  ]

  -- The nodes `xs`, in their order, hold the cache.
  pub record Holds (c : KLruCache V) (xs : List ℕ) : Type 0 where
    pub links : Seg c.heap 0 xs 1
    pub distinct : Distinct (0 ∷ (xs ++ 1 ∷ []))
    pub used : All (λ x. x < c.fresh) (1 ∷ xs)
    pub mapped : (k : Text) → lookup k c.node_map ≡ node_of c.heap k xs
    pub keys : KeysDiffer c.heap xs
    pub map_keyed : IsKeyed c.node_map
    pub sized : length c.node_map ≡ length xs

  pub new_cache-Holds : (v : V) (capacity : ℤ) → Holds (new_cache v capacity) []
  unfolding new_cache
  new_cache-Holds v capacity = record {
    links = ground arith;
    distinct = ground arith;
    used = ground arith;
    mapped = λ k. refl;
    keys = tt;
    map_keyed = tt;
    sized = refl;
  }
