-- ===== src/MemoryPool.antt =====
-- HttpServer/include/MemoryPool/Common.h, ThreadCache.h and HttpServer/src/MemoryPool/ThreadCache.cpp: the
-- size classes and the cache of a thread. A free list is the list of the blocks that its links
-- lead to, which nobody else writes while they are free. A count is a `size_t` and wraps round at
-- 2 ^ 64. The central cache is a parameter.
pub mod Sizes
pub mod Counts
pub mod PageCache
pub mod CentralCache
pub mod Tests
use cyclone_httpserver.Common.{
  ℕ, ◌+◌, ◌-◌, ◌*◌, ◌/◌, ◌%◌, ◌^◌, List, [], ◌∷◌, length, take, drop, if◌then◌else◌, ◌==◌, leb, ltb,
  Bool,
}

abbrev pub alignment : ℕ
alignment = 8

abbrev pub max_bytes : ℕ
max_bytes = 262_144

-- FREE_LIST_SIZE.
abbrev pub free_list_size : ℕ
free_list_size = 32_768

abbrev pub word : ℕ
word = 2 ^ 64

-- `roundUp`: the mask clears the three low bits.
unfoldable pub round_up : ℕ → ℕ
round_up bytes = (bytes + 7) % word / 8 * 8

-- `std::max(bytes, ALIGNMENT)`.
abbrev pub at_least : ℕ → ℕ → ℕ
at_least low n = if ltb n low then low else n

unfoldable pub get_index : ℕ → ℕ
get_index bytes = (at_least 8 bytes + 7) % word / 8 - 1

-- The central cache: `fetchRange` gives the blocks of a chain, none for a null pointer, and
-- `returnRange` takes a chain with its bytes and its index.
pub record CentralApi : Type 1 where
  pub State : Type 0
  pub fetch_range : ℕ → State → State × List ℕ
  pub return_range : List ℕ → ℕ → ℕ → State → State

pub record ThreadCache : Type 0 where
  pub free_list : ℕ → List ℕ
  -- `freeListSize_`.
  pub counts : ℕ → ℕ

-- The constructor.
abbrev pub new_thread_cache : ThreadCache
new_thread_cache = record { free_list = λ i. []; counts = λ i. 0 }

abbrev pub set_at : {A : Type 0} → ℕ → A → (ℕ → A) → ℕ → A
set_at i a f = λ j. if i == j then a else f j

-- What `allocate` returns: memory of `malloc`, a block, or a null pointer.
pub data Allocated : Type 0 where
  from_system block : ℕ → Allocated
  null : Allocated

-- A quarter of the count stays, one block at least.
abbrev pub keep_num : ℕ → ℕ
keep_num batch = at_least 1 (batch / 4)

unfoldable pub should_return_to_central_cache : ℕ → ThreadCache → Bool
should_return_to_central_cache index t = ltb 256 (t.counts index)

module _ (central : CentralApi) where
  open central use {State, fetch_range, return_range}

  unfoldable pub fetch_from_central_cache :
      ℕ → ThreadCache → State → (ThreadCache × State) × Allocated
  fetch_from_central_cache index t s =
      let (s', chain) = fetch_range index s in
      elim chain [
        | [] ↦ ((t, s'), null)
        | start ∷ rest ↦ (
          (
            record {
              free_list = set_at index rest t.free_list;
              counts = set_at index ((t.counts index + length (start ∷ rest)) % word) t.counts;
            },
            s',
          ),
          block start,
        )
      ]

  -- The part of `allocate` for the sizes of a class.
  unfoldable pub allocate_class : ℕ → ThreadCache → State → (ThreadCache × State) × Allocated
  allocate_class index t s =
      let t' : ThreadCache = record t {
        counts = set_at index ((t.counts index + (word - 1)) % word) t.counts;
      } in
      elim (t.free_list index) [
        | b ∷ bs ↦ ((record t' { free_list = set_at index bs t.free_list }, s), block b)
        | [] ↦ fetch_from_central_cache index t' s
      ]

  unfoldable pub allocate : ℕ → ThreadCache → State → (ThreadCache × State) × Allocated
  allocate size t s =
      let size' = if size == 0 then alignment else size in
      if ltb max_bytes size'
      then ((t, s), from_system size')
      else allocate_class (get_index size') t s

  unfoldable pub return_to_central_cache : List ℕ → ℕ → ThreadCache → State → ThreadCache × State
  return_to_central_cache start size t s =
      let index = get_index size in
      let batch = t.counts index in
      let keep = keep_num batch in
      if leb batch 1
      then (t, s)
      else if ltb (length start) keep
      then (t, s)
      else (let t' : ThreadCache = record {
        free_list = set_at index (take keep start) t.free_list;
        counts = set_at index keep t.counts;
      } in
          elim (drop keep start) [
            | [] ↦ (t', s)
            | b ∷ bs ↦ (t', return_range (b ∷ bs) ((batch - keep) * round_up size % word) index s)
          ])

  -- `deallocate`; memory of `malloc` goes back by `free`.
  unfoldable pub deallocate : ℕ → ℕ → ThreadCache → State → ThreadCache × State
  deallocate ptr size t s =
      let index = get_index size in
      let t' : ThreadCache = record {
        free_list = set_at index (ptr ∷ t.free_list index) t.free_list;
        counts = set_at index ((t.counts index + 1) % word) t.counts;
      } in
      if ltb max_bytes size
      then (t, s)
      else if should_return_to_central_cache index t'
      then return_to_central_cache (t'.free_list index) size t' s
      else (t', s)
