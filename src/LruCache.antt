-- ===== src/LruCache.antt =====
-- HttpServer/include/KLruCache.hpp: KLruCache, whose keys are strings in the code that uses it. Its
-- nodes are shared by pointers, so they stand on a heap: 0 is the head, 1 the tail. A weak pointer
-- that is set refers to a node that lives, since the map or the list holds it.
pub mod Links
pub mod Nodes
pub mod Model
pub mod Moves
pub mod Edits
pub mod Append
pub mod Put
pub mod Law
pub mod Run
pub mod LruK
pub mod Tests
use cyclone_httpserver.Common.{
  ℕ, ◌+◌, Option, none, some, List, [], ◌∷◌, length, if◌then◌else◌, ◌==◌, leb,
}
use cyclone_httpserver.Common.Bytes.{Text}
use cyclone_httpserver.Common.Decimal.{ℤ, pos, negsuc}
use cyclone_httpserver.Common.Dict.{Dict, lookup, assign, erase}

pub record LruNode (V : Type 0) : Type 0 where
  pub key : Text
  pub value : V
  pub prev : Option ℕ
  pub next : Option ℕ

abbrev pub Heap : Type 0 → Type 0
Heap V = ℕ → LruNode V

pub record KLruCache (V : Type 0) : Type 0 where
  pub capacity : ℤ
  pub heap : Heap V
  -- No node from here on is in use.
  pub fresh : ℕ
  pub node_map : Dict ℕ

-- The capacity as a number of nodes; none where it is not positive.
abbrev pub room : ℤ → ℕ
room (pos n) = n
room (negsuc n) = 0

module _ {V : Type 0} where
  abbrev pub set_next : ℕ → Option ℕ → Heap V → Heap V
  set_next p n h = λ q. if p == q then record (h q) { next = n } else h q

  abbrev pub set_prev : ℕ → Option ℕ → Heap V → Heap V
  set_prev p n h = λ q. if p == q then record (h q) { prev = n } else h q

  abbrev pub set_value : ℕ → V → Heap V → Heap V
  set_value p v h = λ q. if p == q then record (h q) { value = v } else h q

  -- The constructor and `initializeList`.
  unfoldable pub new_cache : V → ℤ → KLruCache V
  new_cache v capacity = record {
    capacity = capacity;
    heap =
        set_prev 1 (some 0)
          (set_next 0 (some 1) (λ p. record { key = []; value = v; prev = none; next = none }));
    fresh = 2;
    node_map = [];
  }

  -- A node between two others is taken out.
  abbrev pub unlink : ℕ → ℕ → ℕ → Heap V → Heap V
  unlink a p b h = set_next p none (set_prev b (some a) (set_next a (some b) h))

  unfoldable pub remove_node : ℕ → Heap V → Heap V
  remove_node p h = elim (h p).prev [
    | none ↦ h
    | some a ↦ elim (h p).next [ none ↦ h | some b ↦ unlink a p b h ]
  ]

  -- A node is put between the one before the tail and the tail.
  abbrev pub link : ℕ → ℕ → Heap V → Heap V
  link a p h =
      set_prev 1 (some p) (set_next a (some p) (set_prev p (some a) (set_next p (some 1) h)))

  -- `insertNode`; the tail always has a node before it.
  unfoldable pub insert_node : ℕ → Heap V → Heap V
  insert_node p h = elim (h 1).prev [ none ↦ h | some a ↦ link a p h ]

  unfoldable pub move_to_most_recent : ℕ → Heap V → Heap V
  move_to_most_recent p h = insert_node p (remove_node p h)

  unfoldable pub update_existing_node : ℕ → V → Heap V → Heap V
  update_existing_node p v h = move_to_most_recent p (set_value p v h)

  -- `evictLeastRecent`; the head always has a node behind it.
  unfoldable pub evict_least_recent : KLruCache V → KLruCache V
  evict_least_recent c = elim (c.heap 0).next [
    | none ↦ c
    | some p ↦ record c { heap = remove_node p c.heap; node_map = erase (c.heap p).key c.node_map }
  ]

  -- A node that is made, inserted and put into the map.
  unfoldable pub append_node : Text → V → KLruCache V → KLruCache V
  append_node key value c =
      let node : LruNode V = record { key = key; value = value; prev = none; next = none } in
      record c {
        heap = insert_node c.fresh (λ q. if c.fresh == q then node else c.heap q);
        fresh = c.fresh + 1;
        node_map = assign key c.fresh c.node_map;
      }

  unfoldable pub add_new_node : Text → V → KLruCache V → KLruCache V
  add_new_node key value c =
      append_node key value
        (if leb (room c.capacity) (length c.node_map) then evict_least_recent c else c)

  unfoldable pub put : Text → V → KLruCache V → KLruCache V
  put key value c = if room c.capacity == 0 then c else elim (lookup key c.node_map) [
    | some p ↦ record c { heap = update_existing_node p value c.heap }
    | none ↦ add_new_node key value c
  ]

  -- `get`, with the value where it returns true.
  unfoldable pub get : Text → KLruCache V → KLruCache V × Option V
  get key c = elim (lookup key c.node_map) [
    | some p ↦ (
      record c { heap = move_to_most_recent p c.heap },
      some (move_to_most_recent p c.heap p).value,
    )
    | none ↦ (c, none)
  ]

  unfoldable pub remove : Text → KLruCache V → KLruCache V
  remove key c = elim (lookup key c.node_map) [
    | some p ↦ record c { heap = remove_node p c.heap; node_map = erase key c.node_map }
    | none ↦ c
  ]
