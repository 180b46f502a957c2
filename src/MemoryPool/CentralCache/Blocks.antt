-- ===== src/MemoryPool/CentralCache/Blocks.antt =====
-- The blocks that a span is cut into, and the way of a block out and back.
use cyclone_httpserver.Common.{
  ℕ, zero, suc, ◌+◌, ◌-◌, ◌*◌, ◌/◌, ◌%◌, ◌≡◌, ◌≤◌, ◌<◌, refl, ap, ◌∙◌, sym, true, false, Option,
  some, List, [], ◌∷◌, ◌++◌, leb, ltb, ◌==◌, take, All, arith, Bool-cases, inl, inr, length, Bool,
  if◌then◌else◌,
}
use mathlib.Core.Path.{subst}
use native.Mathlib.Nat.{le-div_iff_mul-le, div-mul-le_self}
use cyclone_httpserver.MemoryPool.{free_list_size, word, at_least}
use cyclone_httpserver.MemoryPool.PageCache.{
  page_size, PageCache, Spanned, spanned, no_memory, null_read, allocate_span,
}
use cyclone_httpserver.MemoryPool.CentralCache.{
  CentralCache, block_size, pages_for, blocks_from, split_span, fetched, nothing, Tracked, tracked,
  untracked, behind_array, count_taken, use_span, fetch_block, fetch_range, fetch_from_page_cache,
  put_back, return_range, should_perform_delayed_return, given, uncleared,
}

-- The block of a size from an address lies between two bounds.
abbrev pub Within : ℕ → ℕ → ℕ → ℕ → Type 0
Within low high size b = (low ≤ b) × (b + size ≤ high)

blocks_from-Within :
    (n start size low high : ℕ)
    → low ≤ start
    → start + n * size ≤ high
    → All (Within low high size) (blocks_from n start size)
unfolding blocks_from
blocks_from-Within zero start size low high lo hi = tt
blocks_from-Within (suc n) start size low high lo hi =
    let step : suc n * size ≡ size + n * size = grind arith in
    (
      (lo, omega arith),
      blocks_from-Within n (start + size) size low high (omega arith) (omega arith),
    )

-- The blocks of a class follow one another: each begins where the one before it ends.
abbrev pub Spaced : ℕ → ℕ → List ℕ → Type 0
Spaced start size [] = Unit
Spaced start size (b ∷ bs) = (b ≡ start) × Spaced (start + size) size bs

blocks_from-Spaced : (n start size : ℕ) → Spaced start size (blocks_from n start size)
unfolding blocks_from
blocks_from-Spaced zero start size = tt
blocks_from-Spaced (suc n) start size = (refl, blocks_from-Spaced n (start + size) size)

-- A span of a class has room for its blocks, one at least.
size-le-pages_for : (size : ℕ) → size ≤ pages_for size * page_size
size-le-pages_for size = ground arith

blocks_fit :
    (size : ℕ)
    → 0 < size
    → (1 ≤ pages_for size * page_size / size)
      × (pages_for size * page_size / size * size ≤ pages_for size * page_size)
blocks_fit size pos = (
  (le-div_iff_mul-le pos).1
      (let e : 1 * size ≡ size = omega arith in rw e (size-le-pages_for size)),
  div-mul-le_self _ size,
)

pub ==-self : (n : ℕ) → (n == n) ≡ true
==-self n = ground arith

length-blocks_from : (n a size : ℕ) → length (blocks_from n a size) ≡ n
unfolding blocks_from
length-blocks_from zero a size = refl
length-blocks_from (suc n) a size = ap suc (length-blocks_from n (a + size) size)

-- The free list of a class after a span was cut for it.
split_span-blocks_from :
    (index start pages size : ℕ) (c : CentralCache)
    → c.free_list index ≡ []
    → 1 ≤ pages * page_size / size
    → (split_span index start pages size c).free_list index
      ≡ blocks_from (pages * page_size / size - 1) (start + size) size
unfolding split_span blocks_from
split_span-blocks_from index start pages size c e one =
    elim (Bool-cases (ltb 1 (pages * page_size / size))) [
      | inl more ↦ rw more (rw (==-self index) refl)
      | inr less ↦
          let z : pages * page_size / size ≡ 1 = ground arith in
          let z' : pages * page_size / size - 1 ≡ 0 = omega arith in rw less (rw z' e)
    ]

-- What `fetch_range` says of the blocks, for a count of blocks that fit.
blocks_lem :
    (start size room n : ℕ)
    → 1 ≤ n
    → n * size ≤ room
    → All (Within start (start + room) size) (start ∷ blocks_from (n - 1) (start + size) size)
      × Spaced start size (start ∷ blocks_from (n - 1) (start + size) size)
      × (suc (length (blocks_from (n - 1) (start + size) size)) ≡ n)
unfolding blocks_from
blocks_lem start size room zero one fits = absurd (omega arith)
blocks_lem start size room (suc n) one fits =
    let e : suc n - 1 ≡ n = omega arith in
    rw e (
      blocks_from-Within (suc n) start size start (start + room) (omega arith) (omega arith),
      blocks_from-Spaced (suc n) start size,
      ap suc (length-blocks_from n (start + size) size),
    )

given_if :
    (test : Bool) (b : ℕ) (c : CentralCache)
    → given (if test then fetched b c else uncleared b c) ≡ some (b, c)
given_if true b c = refl
given_if false b c = refl

-- Where a block of a new span comes from.
use_span-given :
    (index size b : ℕ) (r : Spanned) (c c' : CentralCache)
    → given (use_span index size r c) ≡ some (b, c')
    → (pages : PageCache) × (r ≡ spanned b pages)
      × (c' ≡ split_span index b (pages_for size) size (record c { page_cache = pages }))
use_span-given index size b (spanned start pages) c c' h =
    let made : CentralCache =
      split_span index start (pages_for size) size (record c { page_cache = pages }) in
    let z : ◌≡◌ {A = Option (ℕ × CentralCache)} (some (start, made)) (some (b, c')) =
      sym (given_if (ltb 1 (pages_for size * page_size / size)) start made) ∙ h in
    let e : start ≡ b = cc in (pages, ap (λ a. spanned a pages) e, rw (← e) (cc))
use_span-given index size b no_memory c c' h = cc
use_span-given index size b null_read c c' h = cc

split_span-page_cache :
    (index start pages size : ℕ) (c : CentralCache)
    → (split_span index start pages size c).page_cache ≡ c.page_cache
unfolding split_span
split_span-page_cache index start pages size c = ground arith

-- A class without free blocks gets a span: the block handed out and the blocks of the new free list are the whole
-- number of blocks of their size that the span has room for, one behind the other from its first address, and
-- all inside the span.
pub fetch_range-Within :
    (index b : ℕ) (mapped : Option ℕ) (c c' : CentralCache)
    → c.free_list index ≡ []
    → given (fetch_range index mapped c) ≡ some (b, c')
    → (allocate_span (pages_for (block_size index)) mapped c.page_cache ≡ spanned b c'.page_cache)
      × All
          (Within b (b + pages_for (block_size index) * page_size) (block_size index))
          (b ∷ c'.free_list index)
      × Spaced b (block_size index) (b ∷ c'.free_list index)
      × (suc (length (c'.free_list index))
          ≡ pages_for (block_size index) * page_size / block_size index)
unfolding fetch_range fetch_from_page_cache
fetch_range-Within index b mapped c c' e h = elim (Bool-cases (leb free_list_size index)) [
  | inl large ↦ absurd (cc (rw (large, fetch_range) at h))
  | inr small ↦
      let size : ℕ = block_size index in
      let (pages, r, z) =
        use_span-given index size b (allocate_span (pages_for size) mapped c.page_cache) c c'
          (rw (e, small, fetch_range) at h) in
      let (one, fits) = blocks_fit size (omega arith) in
      let l : c'.free_list index
          ≡ blocks_from (pages_for size * page_size / size - 1) (b + size) size =
        ap (λ t. t.free_list index) z
        ∙ split_span-blocks_from index b (pages_for size) size (record c { page_cache = pages }) e
            one in
      let (within, spaced, whole) =
        blocks_lem b size (pages_for size * page_size) (pages_for size * page_size / size) one
          fits in
      (
        r
            ∙ ap (spanned b) (
                sym (
                  ap (λ t. t.page_cache) z
                  ∙ split_span-page_cache index b (pages_for size) size
                      (record c { page_cache = pages }))),
        subst (λ m. All (Within b (b + pages_for size * page_size) size) (b ∷ m)) (sym l) within,
        subst (λ m. Spaced b size (b ∷ m)) (sym l) spaced,
        ap (λ m. suc (length m)) l ∙ whole,
      )
]

fetched_state : {b b' : ℕ} {c c' : CentralCache} → fetched b c ≡ fetched b' c' → c ≡ c'
fetched_state h = cc

count_taken-fetched :
    (b b' : ℕ) (r : Tracked) (c c' : CentralCache)
    → count_taken b r c ≡ fetched b' c'
    → c'.free_list ≡ c.free_list
count_taken-fetched b b' (tracked i) c c' h =
    let e : _ = fetched_state h in ap (λ t. t.free_list) (sym e)
count_taken-fetched b b' untracked c c' h =
    let e : c ≡ c' = fetched_state h in ap (λ t. t.free_list) (sym e)
count_taken-fetched b b' behind_array c c' h = cc

take_block : (n b : ℕ) → take (at_least 1 n) (b ∷ []) ≡ b ∷ []
take_block zero b = refl
take_block (suc n) b = elim (Bool-cases (ltb (suc n) 1)) [
  | inl e ↦ rw e refl
  | inr e ↦ rw e (take_rest n)
]
  where
    take_rest : (m : ℕ) → b ∷ take m [] ≡ b ∷ []
    take_rest zero = refl
    take_rest (suc m) = refl

-- A block that is fetched and then returned alone, without a delayed return, leaves the free list as it
-- was when there was one.
pub return_range-fetch_range :
    (arrange : List (ℕ × ℕ) → List (ℕ × ℕ)) (index b now : ℕ) (next : List ℕ) (mapped : Option ℕ)
    (c c' : CentralCache)
    → c.free_list index ≡ b ∷ next
    → fetch_range index mapped c ≡ fetched b c'
    → should_perform_delayed_return index ((c'.delay_counts index + 1) % word) now c' ≡ false
    → (c'' : CentralCache) × (return_range arrange (b ∷ []) (block_size index) index now c'
        ≡ some c'')
      × (c''.free_list index ≡ b ∷ next)
      × (c'.free_list index ≡ next)
unfolding fetch_range return_range should_perform_delayed_return
return_range-fetch_range arrange index b now next mapped c c' e h calm =
    elim (Bool-cases (leb free_list_size index)) [
      | inl large ↦ let z : nothing c ≡ fetched b c' = rw (large, fetch_range) at h in cc
      | inr small ↦
          let z : fetch_block index mapped (b ∷ next) c ≡ fetched b c' =
            rw (e, small, fetch_range) at h in
          let l : c'.free_list index ≡ next =
            ap (λ f. f index) (count_taken-fetched b b _ _ c' z) ∙ rw (==-self index) refl in
          let t : should_perform_delayed_return index
                ((put_back (b ∷ []) (block_size index) index c').delay_counts index) now
                (put_back (b ∷ []) (block_size index) index c')
              ≡ false =
            rw (==-self index) calm in
          (
            put_back (b ∷ []) (block_size index) index c',
            rw (small, return_range) (rw t refl),
            rw (==-self index) (
                ap (λ m. m ++ c'.free_list index)
                  (take_block (block_size index / block_size index) b)
                ∙ ap (λ m. b ∷ m) l),
            l,
          )
    ]
