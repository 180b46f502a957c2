-- ===== src/MemoryPool/CentralCache/Early.antt =====
-- The delayed return of spans to the page cache.
use cyclone_httpserver.Common.{
  ℕ, suc, ◌+◌, ◌≡◌, ◌<◌, refl, ap, ◌∙◌, true, false, some, List, [], ◌∷◌, if◌then◌else◌, ◌==◌, All,
  arith, Bool-cases, inl, inr, length, get_elem?,
}
use native.Mathlib.Nat.{mod-eq_of_lt}
use cyclone_httpserver.MemoryPool.{set_at, word}
use cyclone_httpserver.MemoryPool.PageCache.{find, deallocate_span}
use cyclone_httpserver.MemoryPool.PageCache.Pages.{IsOrdered, covers, holds}
use cyclone_httpserver.MemoryPool.PageCache.Covers.{deallocate_span-covers}
use cyclone_httpserver.MemoryPool.CentralCache.Blocks.{==-self}
use cyclone_httpserver.MemoryPool.CentralCache.{
  CentralCache, SpanTracker, in_span, outside, strip, return_span, add_free, change_tracker,
  update_span_free_count, tracked, get_span_tracker, count_loop, update_loop,
  perform_delayed_return,
}

-- Once a block has gone, the walk keeps exactly the blocks outside of the span.
strip-outside : (t : SpanTracker) (bs : List ℕ) → strip true t bs ≡ outside t bs
unfolding strip outside
strip-outside t [] = refl
strip-outside t (b ∷ bs) = elim (Bool-cases (in_span b t)) [
  | inl e ↦ rw e (strip-outside t bs)
  | inr e ↦ rw e refl
]

strip_first :
    (t : SpanTracker) (b : ℕ) (bs : List ℕ)
    → strip false t (b ∷ bs) ≡ (if in_span b t then outside t (b ∷ bs) else [])
unfolding strip outside
strip_first t b bs = elim (Bool-cases (in_span b t)) [
  | inl e ↦ rw e (strip-outside t bs)
  | inr e ↦ rw e refl
]

-- The count of a tracker that becomes whole gives its span back.
return_span_whole :
    (t : SpanTracker) (index : ℕ) (c : CentralCache)
    → t.free_count ≡ t.block_count
    → return_span t index c ≡ record c {
      free_list = set_at index (strip false t (c.free_list index)) c.free_list;
      page_cache = deallocate_span t.span_addr t.num_pages c.page_cache;
    }
unfolding return_span
return_span_whole t index c e =
    let z : (t.free_count == t.block_count) ≡ true = ground arith in rw z refl

outside-add_free :
    (n : ℕ) (t : SpanTracker) (bs : List ℕ) → outside (add_free n t) bs ≡ outside t bs
unfolding outside
outside-add_free n t [] = refl
outside-add_free n t (b ∷ bs) = ap (λ l. if in_span b t then l else b ∷ l) (outside-add_free n t bs)

module _ (i n index : ℕ) (c : CentralCache) (t : SpanTracker)
    (tracks : get_elem? c.trackers i ≡ some t) (small : t.free_count + n < word)
    (whole : t.free_count + n ≡ t.block_count) where
  updated : update_span_free_count i n index c ≡ record c {
    trackers = change_tracker i (add_free n) c.trackers;
    free_list = set_at index (strip false (add_free n t) (c.free_list index)) c.free_list;
    page_cache = deallocate_span t.span_addr t.num_pages c.page_cache;
  }
  unfolding update_span_free_count
  updated =
      rw (tracks, update_span_free_count)
        (return_span_whole (add_free n t) index
          (record c { trackers = change_tracker i (add_free n) c.trackers })
          (mod-eq_of_lt small ∙ whole))

  -- A span whose count of free blocks becomes its count of blocks goes back to the page cache, and the free list of the
  -- class keeps the blocks of other spans if its first block is of this span; if that is of
  -- another span, the free list is empty afterwards, and the blocks in it are lost.
  pub update_span_free_count-strip :
      (b : ℕ) (bs : List ℕ)
      → c.free_list index ≡ b ∷ bs
      → ((update_span_free_count i n index c).free_list index
          ≡ (if in_span b t then outside t (b ∷ bs) else []))
        × ((update_span_free_count i n index c).page_cache
            ≡ deallocate_span t.span_addr t.num_pages c.page_cache)
  update_span_free_count-strip b bs e = (
    ap (λ d. d.free_list index) updated
        ∙ ap (λ x. if x then strip false (add_free n t) (c.free_list index) else c.free_list index)
            (==-self index)
        ∙ ap (strip false (add_free n t)) e
        ∙ strip_first (add_free n t) b bs
        ∙ ap (λ l. if in_span b t then l else []) (outside-add_free n t (b ∷ bs)),
    ap (λ d. d.page_cache) updated,
  )

-- All blocks counted for one tracker.
count_loop-tracked :
    (c : CentralCache) (i k : ℕ) (bs : List ℕ)
    → All (λ b. get_span_tracker b c ≡ tracked i) bs
    → count_loop c bs ((i, k) ∷ []) ≡ some ((i, k + length bs) ∷ [])
unfolding count_loop
count_loop-tracked c i k [] h = let e : k + 0 ≡ k = omega arith in rw e refl
count_loop-tracked c i k (b ∷ bs) h =
    let e : k + suc (length bs) ≡ k + 1 + length bs = omega arith in
    rw (h.0, count_loop, ==-self i, e) (count_loop-tracked c i (k + 1) bs h.1)

-- A list of blocks of one tracker, counted from nothing.
count_loop-one :
    (c : CentralCache) (i b : ℕ) (bs : List ℕ)
    → All (λ a. get_span_tracker a c ≡ tracked i) (b ∷ bs)
    → count_loop c (b ∷ bs) [] ≡ some ((i, suc (length bs)) ∷ [])
unfolding count_loop
count_loop-one c i b bs h =
    let e : 1 + length bs ≡ suc (length bs) = omega arith in
    rw (h.0, count_loop) (count_loop-tracked c i 1 bs h.1 ∙ ap (λ n. some ((i, n) ∷ [])) e)

-- The state in which the delayed return counts.
abbrev begun : ℕ → ℕ → CentralCache → CentralCache
begun index now c = record c {
  delay_counts = set_at index 0 c.delay_counts;
  last_return_times = set_at index now c.last_return_times;
}

begun_tracked :
    (index now i : ℕ) (c : CentralCache) (bs : List ℕ)
    → All (λ a. get_span_tracker a c ≡ tracked i) bs
    → All (λ a. get_span_tracker a (begun index now c) ≡ tracked i) bs
unfolding get_span_tracker
begun_tracked index now i c bs h = h

-- The delayed return counts the free blocks of a span a second time. Where the count of a tracker is
-- right, the n blocks in the free list of the class are all of its span, and n more blocks of
-- the span are in use, the whole span, with the blocks in use, is free in the page cache afterwards.
pub perform_delayed_return-early :
    (arrange : List (ℕ × ℕ) → List (ℕ × ℕ)) (i index now b x : ℕ) (bs : List ℕ) (c : CentralCache)
    (t : SpanTracker)
    → arrange ((i, suc (length bs)) ∷ []) ≡ (i, suc (length bs)) ∷ []
    → c.free_list index ≡ b ∷ bs
    → All (λ a. get_span_tracker a c ≡ tracked i) (b ∷ bs)
    → get_elem? c.trackers i ≡ some t
    → t.free_count ≡ suc (length bs)
    → t.block_count ≡ suc (length bs) + suc (length bs)
    → t.block_count < word
    → IsOrdered 0 c.page_cache.free_spans
    → find t.span_addr c.page_cache.span_map ≡ some t.num_pages
    → (c' : CentralCache) × (perform_delayed_return arrange index now c ≡ some c')
      × (covers x c'.page_cache.free_spans
          ≡ covers x c.page_cache.free_spans + holds x t.span_addr t.num_pages)
unfolding perform_delayed_return update_loop
perform_delayed_return-early arrange i index now b x bs c t same front mine tracks count blocks
      small ordered known =
    let c1 : CentralCache = begun index now c in
    let n : ℕ = suc (length bs) in
    let counted : count_loop c1 (c.free_list index) [] ≡ some ((i, n) ∷ []) =
      ap (λ l. count_loop c1 l []) front
      ∙ count_loop-one c1 i b bs (begun_tracked index now i c (b ∷ bs) mine) in
    let (ordered', covered) =
      deallocate_span-covers x t.span_addr t.num_pages c.page_cache ordered known in
    (
      update_span_free_count i n index c1,
      rw (counted, perform_delayed_return, same) refl,
      ap (λ d. covers x d.page_cache.free_spans)
            (updated i n index c1 t tracks (omega arith) (omega arith))
          ∙ covered,
    )
