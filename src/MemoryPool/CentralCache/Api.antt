-- ===== src/MemoryPool/CentralCache/Api.antt =====
-- The central cache as the one that the caches of the threads use.
use cyclone_httpserver.Common.{
  ℕ, ◌+◌, ◌*◌, ◌≡◌, ◌≤◌, ◌<◌, refl, ap, ◌∙◌, sym, false, Option, none, some, List, [], ◌∷◌, All,
  arith, inl, inr, ltb, ◌==◌, ◌⊎◌, Bool, if◌then◌else◌, Bool-cases,
}
use mathlib.Core.Path.{subst}
use cyclone_httpserver.MemoryPool.{
  CentralApi, ThreadCache, block, max_bytes, get_index, allocate, allocate_class,
  fetch_from_central_cache, round_up,
}
use cyclone_httpserver.MemoryPool.Sizes.{get_index-round_up}
use cyclone_httpserver.MemoryPool.PageCache.{page_size}
use cyclone_httpserver.MemoryPool.CentralCache.{
  CentralCache, Fetched, fetched, nothing, undefined, fetch_range, return_range, pages_for,
  allocate_span, given, uncleared, spanned,
}
use cyclone_httpserver.MemoryPool.CentralCache.Blocks.{Within, Spaced, fetch_range-Within}

-- What the system tells in a state: the memory that `mmap` gives, whether the first word of a block is null,
-- the time, and the order of the counts.
pub record System : Type 0 where
  pub mapped : CentralCache → Option ℕ
  pub is_cleared : CentralCache → ℕ → Bool
  pub now : CentralCache → ℕ
  pub arrange : List (ℕ × ℕ) → List (ℕ × ℕ)

-- `none` is the state after undefined behaviour: the walk of `fetchFromCentralCache` also follows
-- a first word that was never written. Else `fetchRange` gives a chain of one block.
abbrev pub as_chain : (CentralCache → ℕ → Bool) → Fetched → Option CentralCache × List ℕ
as_chain is_cleared (fetched b c) = (some c, b ∷ [])
as_chain is_cleared (uncleared b c) = if is_cleared c b then (some c, b ∷ []) else (none, [])
as_chain is_cleared (nothing c) = (some c, [])
as_chain is_cleared undefined = (none, [])

abbrev pub fetch_by : System → ℕ → Option CentralCache → Option CentralCache × List ℕ
fetch_by sys index none = (none, [])
fetch_by sys index (some c) = as_chain sys.is_cleared (fetch_range index (sys.mapped c) c)

abbrev pub return_by : System → List ℕ → ℕ → ℕ → Option CentralCache → Option CentralCache
return_by sys chain bytes index none = none
return_by sys chain bytes index (some c) = return_range sys.arrange chain bytes index (sys.now c) c

abbrev pub central_cache : System → CentralApi
central_cache sys = record {
  State = Option CentralCache;
  fetch_range = fetch_by sys;
  return_range = return_by sys;
}

Fetched-cases :
    (r : Fetched)
    → (((b : ℕ) × (c : CentralCache) × (r ≡ fetched b c))
        ⊎ ((b : ℕ) × (c : CentralCache) × (r ≡ uncleared b c)))
      ⊎ (((c : CentralCache) × (r ≡ nothing c)) ⊎ (r ≡ undefined))
Fetched-cases (fetched b c) = inl (inl (b, c, refl))
Fetched-cases (uncleared b c) = inl (inr (b, c, refl))
Fetched-cases (nothing c) = inr (inl (c, refl))
Fetched-cases undefined = inr (inr refl)

-- What holds of blocks of a size holds of smaller blocks at the same places.
Within-le :
    (low high size size' : ℕ) (bs : List ℕ)
    → size' ≤ size
    → All (Within low high size) bs
    → All (Within low high size') bs
Within-le low high size size' [] le h = tt
Within-le low high size size' (b ∷ bs) le h =
    ((h.0.0, omega arith), Within-le low high size size' bs le h.1)

module _ (sys : System) where
  -- A block that a thread gets from the central cache is one that `fetchRange` gave.
  fetch_from_central_cache-block :
      (index b : ℕ) (t t' : ThreadCache) (c : CentralCache) (s' : Option CentralCache)
      → fetch_from_central_cache (central_cache sys) index t (some c) ≡ ((t', s'), block b)
      → (c' : CentralCache) × (given (fetch_range index (sys.mapped c) c) ≡ some (b, c'))
        × (s' ≡ some c')
  unfolding fetch_from_central_cache
  fetch_from_central_cache-block index b t t' c s' h =
      elim (Fetched-cases (fetch_range index (sys.mapped c) c)) [
        | inl (inl (b', c', e)) ↦
            let b_eq : b' ≡ b = cc (rw (e, fetch_from_central_cache) at h) in
            let s_eq : some c' ≡ s' = cc (rw (e, fetch_from_central_cache) at h) in
            (c', ap given e ∙ ap (λ x. some (x, c')) b_eq, sym s_eq)
        | inl (inr (b', c', e)) ↦ elim (Bool-cases (sys.is_cleared c' b')) [
          | inl null_word ↦
              let b_eq : b' ≡ b = cc (rw (e, null_word, fetch_from_central_cache) at h) in
              let s_eq : some c' ≡ s' = cc (rw (e, null_word, fetch_from_central_cache) at h) in
              (c', ap given e ∙ ap (λ x. some (x, c')) b_eq, sym s_eq)
          | inr other ↦ absurd (cc (rw (e, other, fetch_from_central_cache) at h))
        ]
        | inr (inl (c', e)) ↦ absurd (cc (rw (e, fetch_from_central_cache) at h))
        | inr (inr e) ↦ absurd (cc (rw (e, fetch_from_central_cache) at h))
      ]

  -- A size of a class is allocated in its class.
  allocate_small :
      (size : ℕ) (t : ThreadCache) (s : Option CentralCache)
      → 0 < size
      → size ≤ max_bytes
      → allocate (central_cache sys) size t s
        ≡ allocate_class (central_cache sys) (get_index size) t s
  unfolding allocate
  allocate_small size t s pos small =
      let not_zero : (size == 0) ≡ false = ground arith in
      let not_large : ltb max_bytes size ≡ false = ground arith in
      rw (not_zero, allocate) (rw not_large refl)

  -- `allocate` of a size up to the largest class, where neither the thread nor the central cache has a free block of
  -- its class and a block is returned: the block is the first address of a span that `allocateSpan` gave for
  -- the number of pages that the central cache uses; it and the blocks that stay free in the
  -- central cache hold the size each, lie one behind the other and inside these pages.
  pub allocate-Within :
      (size b : ℕ) (t t' : ThreadCache) (c : CentralCache) (s' : Option CentralCache)
      → 0 < size
      → size ≤ max_bytes
      → t.free_list (get_index size) ≡ []
      → c.free_list (get_index size) ≡ []
      → allocate (central_cache sys) size t (some c) ≡ ((t', s'), block b)
      → (c' : CentralCache) × (s' ≡ some c')
        × (allocate_span (pages_for (round_up size)) (sys.mapped c) c.page_cache
            ≡ spanned b c'.page_cache)
        × All
            (Within b (b + pages_for (round_up size) * page_size) size)
            (b ∷ c'.free_list (get_index size))
        × Spaced b (round_up size) (b ∷ c'.free_list (get_index size))
        × (size ≤ round_up size)
  unfolding allocate_class
  allocate-Within size b t t' c s' pos small no_blocks none_free h =
      let index : ℕ = get_index size in
      let (_, whole, fits, _) = get_index-round_up size pos small in
      let (c', e, s_eq) =
        fetch_from_central_cache-block index b _ t' c s' (
          rw (no_blocks, allocate_class) at (sym (allocate_small size t (some c) pos small) ∙ h)) in
      let (span, within, spaced, _) = fetch_range-Within index b (sys.mapped c) c c' none_free e in
      (
        c',
        s_eq,
        subst
            (λ n. allocate_span (pages_for n) (sys.mapped c) c.page_cache ≡ spanned b c'.page_cache)
            whole span,
        Within-le b _ (round_up size) size (b ∷ c'.free_list index) fits (
            subst (λ n. All (Within b (b + pages_for n * page_size) n) (b ∷ c'.free_list index))
              whole within),
        subst (λ n. Spaced b n (b ∷ c'.free_list index)) whole spaced,
        fits,
      )
