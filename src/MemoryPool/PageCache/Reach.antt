-- ===== src/MemoryPool/PageCache/Reach.antt =====
-- The page cache over a sequence of calls, with the spans that are in use.
use cyclone_httpserver.Common.{
  ℕ, refl, All, ◌+◌, ◌≡◌, ◌≤◌, ◌⊎◌, inl, inr, ap, Option, some, [], ◌∷◌, ◌++◌, arith, false,
}
use cyclone_httpserver.MemoryPool.PageCache.{
  PageCache, find, spanned, allocate_span, deallocate_span,
}
use cyclone_httpserver.MemoryPool.PageCache.Pages.{holds, covers, IsOrdered}
use cyclone_httpserver.MemoryPool.PageCache.Linked.{
  IsLinkedOnce, allocate_span-IsLinkedOnce, deallocate_span-IsLinkedOnce, recorded_size,
}
use cyclone_httpserver.MemoryPool.PageCache.Recorded.{
  Spans, used_covers, Recorded, takes-Recorded, gives-Recorded, Recorded-split,
}
use cyclone_httpserver.MemoryPool.PageCache.Covers.{allocate_span-covers, deallocate_span-covers}

abbrev pub new_page_cache : PageCache
new_page_cache = record { free_spans = []; span_map = []; linked_twice = false }

-- `mmap` gives memory that is not mapped yet.
abbrev pub Unmapped : ℕ → Option ℕ → PageCache → Spans → Type 0
Unmapped n mapped s us =
    (a x : ℕ) → mapped ≡ some a → holds x a n ≡ 1 → covers x s.free_spans + used_covers x us ≡ 0

-- A cache and the spans in use: none at first; one more behind an `allocateSpan`, of one page at
-- least, that returns it; and one less behind a `deallocateSpan` of it with its number of pages.
pub data Reach : PageCache → Spans → Type 0 where
  begins : Reach new_page_cache []
  takes :
      {s s' : PageCache} {us : Spans} (n a : ℕ) (mapped : Option ℕ)
      → 1 ≤ n
      → Reach s us
      → Unmapped n mapped s us
      → allocate_span n mapped s ≡ spanned a s'
      → Reach s' ((a, n) ∷ us)
  gives :
      {s : PageCache} (a n : ℕ) (us vs : Spans)
      → Reach s (us ++ (a, n) ∷ vs)
      → Reach (deallocate_span a n s) (us ++ vs)

used_covers-append :
    (x : ℕ) (us vs : Spans) → used_covers x (us ++ vs) ≡ used_covers x us + used_covers x vs
used_covers-append x [] vs = omega arith
used_covers-append x ((a, n) ∷ us) vs = omega (arith, used_covers-append x us vs)

holds-cases : (x a n : ℕ) → (holds x a n ≡ 1) ⊎ (holds x a n ≡ 0)
holds-cases x a n = ground arith

-- What is kept: the keys are in order, no Span object was linked twice, spanMap_ has
-- the sizes of the spans in use, and an address is in one span at most.
record IsKept (s : PageCache) (us : Spans) : Type 0 where
  ordered : IsOrdered 0 s.free_spans
  links : IsLinkedOnce s
  recorded : Recorded s us
  once : (x : ℕ) → covers x s.free_spans + used_covers x us ≤ 1

takes-IsKept :
    (n a : ℕ) (mapped : Option ℕ) (s s' : PageCache) (us : Spans)
    → 1 ≤ n
    → IsKept s us
    → Unmapped n mapped s us
    → allocate_span n mapped s ≡ spanned a s'
    → IsKept s' ((a, n) ∷ us)
takes-IsKept n a mapped s s' us le k unmapped e =
    let after : (x : ℕ) → _ = λ x. allocate_span-covers x n mapped s s' a k.ordered e in
    let once : (x : ℕ) → covers x s'.free_spans + (holds x a n + used_covers x us) ≤ 1 = λ x.
      let (_, _, moved_or_new) = after x in
      elim moved_or_new [
        | inl moved ↦ omega (arith, moved, k.once x)
        | inr (_, given, same) ↦
            let z : covers x s'.free_spans ≡ covers x s.free_spans = ap (covers x) same in
            elim (holds-cases x a n) [
              | inl in_it ↦ omega (arith, in_it, unmapped a x given in_it, z)
              | inr not_in ↦ omega (arith, not_in, k.once x, z)
            ]
      ] in
    let held : holds a a n ≡ 1 = ground (arith, le) in
    record {
      ordered = (after 0).0;
      links = allocate_span-IsLinkedOnce n mapped s s' a le k.links e;
      recorded =
          let (_, found, _) = after 0 in
          (
            (le, found),
            takes-Recorded n mapped s s' a us e (omega (arith, held, once a)) k.recorded,
          );
      once = once;
    }

gives-IsKept :
    (a n : ℕ) (s : PageCache) (us vs : Spans)
    → IsKept s (us ++ (a, n) ∷ vs)
    → IsKept (deallocate_span a n s) (us ++ vs)
gives-IsKept a n s us vs k =
    let (e, others) = Recorded-split s us a n vs k.recorded in
    let held : holds a a n ≡ 1 = ground (arith, recorded_size a n s k.links e) in
    let split : (x : ℕ)
        → used_covers x (us ++ (a, n) ∷ vs) ≡ used_covers x (us ++ vs) + holds x a n =
      λ x. omega (arith, used_covers-append x us ((a, n) ∷ vs), used_covers-append x us vs) in
    record {
      ordered = (deallocate_span-covers 0 a n s k.ordered e).0;
      links = deallocate_span-IsLinkedOnce a n s e (omega (arith, held, k.once a, split a)) k.links;
      recorded =
          gives-Recorded a n s (us ++ vs) e k.links (omega (arith, held, k.once a, split a))
            (λ x. omega (arith, k.once x, split x)) others;
      once = λ x. omega (arith, (deallocate_span-covers x a n s k.ordered e).1, k.once x, split x);
    }

Reach-IsKept : {s : PageCache} {us : Spans} → Reach s us → IsKept s us
Reach-IsKept begins = record {
  ordered = tt;
  links = record { keys = tt; sizes = tt; once = refl };
  recorded = tt;
  once = λ x. omega arith;
}
Reach-IsKept (takes n a mapped le r unmapped e) =
    takes-IsKept n a mapped _ _ _ le (Reach-IsKept r) unmapped e
Reach-IsKept (gives a n us vs r) = gives-IsKept a n _ us vs (Reach-IsKept r)

-- In every state that the page cache reaches from its start, by calls of allocateSpan for one page at least, for
-- which mmap gives memory that is not mapped yet, and calls of deallocateSpan for a span in use with
-- its number of pages, no address is in two spans: not in two that are in use, not in two that are
-- free, and not in one that is in use and one that is free; no Span object was put into a list while
-- it was in one; and spanMap_ has the number of pages of every span in use.
pub Reach-once :
    (s : PageCache) (us : Spans)
    → Reach s us
    → ((x : ℕ) → covers x s.free_spans + used_covers x us ≤ 1)
      × (s.linked_twice ≡ false)
      × All (λ (a, n). (1 ≤ n) × (find a s.span_map ≡ some n)) us
Reach-once s us r = let k : IsKept s us = Reach-IsKept r in (k.once, k.links.once, k.recorded)
