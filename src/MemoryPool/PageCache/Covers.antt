-- ===== src/MemoryPool/PageCache/Covers.antt =====
-- Which addresses are free before and behind the calls of the page cache.
use cyclone_httpserver.MemoryPool.PageCache.Pages.{
  holds, list_covers, covers, IsOrdered, set_entry-IsOrdered, erase_entry-IsOrdered,
  covers-set_entry, covers-erase_entry, holds_split, unlink_covers,
}
use cyclone_httpserver.Common.{
  ℕ, ◌+◌, ◌-◌, ◌*◌, ◌≡◌, ◌≤◌, ◌⊎◌, ap, refl, Bool, true, false, Option, none, some, List, [], ◌∷◌,
  if◌then◌else◌, leb, ltb, arith, Bool-cases, Option-cases, inl, inr, ◌∙◌,
}
use cyclone_httpserver.MemoryPool.PageCache.{
  page_size, Entries, PageCache, entry, set_entry, lower_bound, find, record_span, forget_span,
  spanned, take_first, give_rest, take_span, new_span, allocate_span, unlink, push_span, merge_span,
  free_span, deallocate_span,
}

pub lower_bound-entry :
    (n k : ℕ) (spans : List ℕ) (es : Entries)
    → lower_bound n es ≡ some (k, spans)
    → (n ≤ k) × (entry k es ≡ spans)
lower_bound-entry n k spans [] h = cc
lower_bound-entry n k spans ((j, m) ∷ es) h = elim (Bool-cases (leb n j)) [
  | inl e ↦
      let z : ◌≡◌ {A = Option (ℕ × List ℕ)} (some (j, m)) (some (k, spans)) = rw e at h in
      ground arith
  | inr e ↦
      let z : lower_bound n es ≡ some (k, spans) = rw e at h in
      let (le, f) = lower_bound-entry n k spans es z in ground arith
]

find-record_span : (a n : ℕ) (ss : List (ℕ × ℕ)) → find a (record_span a n ss) ≡ some n
find-record_span a n [] = ground arith
find-record_span a n ((b, m) ∷ ss) = ground (arith, find-record_span a n ss)

pub new_span_spanned :
    (n : ℕ) (mapped : Option ℕ) (s s' : PageCache) (a : ℕ)
    → new_span n mapped s ≡ spanned a s'
    → (mapped ≡ some a) × (s' ≡ record s { span_map = record_span a n s.span_map })
unfolding new_span
new_span_spanned n none s s' a h = cc
new_span_spanned n (some b) s s' a h = let e : b ≡ a = cc in (ap some e, rw (← e) (cc))

pub take_span_spanned :
    (n k : ℕ) (spans : List ℕ) (s s' : PageCache) (a : ℕ)
    → take_span n k spans s ≡ spanned a s'
    → (rest : List ℕ) × (spans ≡ a ∷ rest)
      × (s' ≡ record {
        free_spans = give_rest a n k (take_first k rest s.free_spans);
        span_map = record_span a n s.span_map;
        linked_twice = s.linked_twice;
      })
unfolding take_span
take_span_spanned n k [] s s' a h = cc
take_span_spanned n k (b ∷ rest) s s' a h =
    let e : b ≡ a = cc in (rest, ap (λ c. c ∷ rest) e, rw (← e) (cc))

module _ (x : ℕ) where
  take_first-covers :
      (k a : ℕ) (rest : List ℕ) (es : Entries)
      → IsOrdered 0 es
      → entry k es ≡ a ∷ rest
      → (covers x (take_first k rest es) + holds x a k ≡ covers x es)
        × IsOrdered 0 (take_first k rest es)
  unfolding take_first
  take_first-covers k a [] es h e = (
    let z : list_covers x k (entry k es) ≡ holds x a k + 0 = ap (list_covers x k) e in
        omega (arith, covers-erase_entry x k es),
    erase_entry-IsOrdered k 0 es h,
  )
  take_first-covers k a (b ∷ rest) es h e = (
    let z : list_covers x k (entry k es) ≡ list_covers x k (a ∷ b ∷ rest) =
          ap (list_covers x k) e in
        omega (arith, covers-set_entry x k 0 (b ∷ rest) es h),
    set_entry-IsOrdered k 0 (b ∷ rest) es h (omega arith),
  )

  give_rest-covers :
      (a n k : ℕ) (es : Entries)
      → n ≤ k
      → IsOrdered 0 es
      → (covers x (give_rest a n k es) + holds x a n ≡ covers x es + holds x a k)
        × IsOrdered 0 (give_rest a n k es)
  unfolding give_rest
  give_rest-covers a n k es le h = elim (Bool-cases (ltb n k)) [
    | inl e ↦ rw e (
      omega (
        arith,
        covers-set_entry x (k - n) 0 ((a + n * page_size) ∷ entry (k - n) es) es h,
        holds_split x a n k le,
      ),
      set_entry-IsOrdered (k - n) 0 _ es h (omega arith),
    )
    | inr e ↦ let z : n ≡ k = ground arith in rw e (rw z refl, h)
  ]

  -- The free spans hold an address of the memory that `allocateSpan` hands out once less than before, and any
  -- other address as often as before; if no span is large enough, it is the memory that the
  -- system gives, and the free spans stay as they are.
  pub allocate_span-covers :
      (n : ℕ) (mapped : Option ℕ) (s s' : PageCache) (a : ℕ)
      → IsOrdered 0 s.free_spans
      → allocate_span n mapped s ≡ spanned a s'
      → IsOrdered 0 s'.free_spans
        × (find a s'.span_map ≡ some n)
        × ((covers x s.free_spans ≡ covers x s'.free_spans + holds x a n)
            ⊎ ((lower_bound n s.free_spans ≡ none)
                × (mapped ≡ some a)
                × (s'.free_spans ≡ s.free_spans)))
  unfolding allocate_span
  allocate_span-covers n mapped s s' a h e = elim (Option-cases (lower_bound n s.free_spans)) [
    | inl none_fits ↦
        let (m, z) = new_span_spanned n mapped s s' a (rw (none_fits, allocate_span) at e) in
        (
          rw z h,
          rw z (find-record_span a n s.span_map),
          inr (none_fits, m, ap (λ t. t.free_spans) z),
        )
    | inr ((k, spans), fits) ↦
        let (rest, front, z) = take_span_spanned n k spans s s' a (rw (fits, allocate_span) at e) in
        let (le, at_k) = lower_bound-entry n k spans s.free_spans fits in
        let (taken, h') = take_first-covers k a rest s.free_spans h (at_k ∙ front) in
        let (given, h'') = give_rest-covers a n k (take_first k rest s.free_spans) le h' in
        (rw z h'', rw z (find-record_span a n s.span_map), inl (rw z (omega arith)))
  ]

  push_span-covers :
      (a n : ℕ) (s : PageCache)
      → IsOrdered 0 s.free_spans
      → IsOrdered 0 (push_span a n s).free_spans
        × (covers x (push_span a n s).free_spans ≡ covers x s.free_spans + holds x a n)
  unfolding push_span
  push_span-covers a n s h = (
    set_entry-IsOrdered n 0 _ s.free_spans h (omega arith),
    omega (arith, covers-set_entry x n 0 (a ∷ entry n s.free_spans) s.free_spans h),
  )

  merge_span-covers :
      (a n b m : ℕ) (walked : List ℕ × Bool) (s : PageCache)
      → IsOrdered 0 s.free_spans
      → b ≡ a + n * page_size
      → list_covers x m (entry m s.free_spans)
        ≡ list_covers x m walked.0 + (if walked.1 then holds x b m else 0)
      → IsOrdered 0 (merge_span a n b m walked s).free_spans
        × (covers x (merge_span a n b m walked s).free_spans ≡ covers x s.free_spans + holds x a n)
  unfolding merge_span
  merge_span-covers a n b m (rest, true) s h at_end split =
      let o : IsOrdered 0 (set_entry m rest s.free_spans) =
        set_entry-IsOrdered m 0 rest s.free_spans h (omega arith) in
      let (o', c) =
        push_span-covers a (n + m)
          (record s {
            free_spans = set_entry m rest s.free_spans;
            span_map = forget_span b (record_span a (n + m) s.span_map);
          })
          o in
      (o', ground (arith, covers-set_entry x m 0 rest s.free_spans h, holds_split x a n (n + m)))
  merge_span-covers a n b m (rest, false) s h at_end split =
      let o : IsOrdered 0 (set_entry m rest s.free_spans) =
        set_entry-IsOrdered m 0 rest s.free_spans h (omega arith) in
      let (o', c) =
        push_span-covers a n (record s { free_spans = set_entry m rest s.free_spans }) o in
      (o', omega (arith, covers-set_entry x m 0 rest s.free_spans h))

  free_span-covers :
      (a n b : ℕ) (behind : Option ℕ) (s : PageCache)
      → IsOrdered 0 s.free_spans
      → b ≡ a + n * page_size
      → IsOrdered 0 (free_span a n b behind s).free_spans
        × (covers x (free_span a n b behind s).free_spans ≡ covers x s.free_spans + holds x a n)
  unfolding free_span
  free_span-covers a n b none s h at_end = push_span-covers a n s h
  free_span-covers a n b (some m) s h at_end =
      merge_span-covers a n b m (unlink b (entry m s.free_spans)) s h at_end
        (unlink_covers x b m (entry m s.free_spans))

  -- A span that is given back with its own size is free after it, as is all that was free before, merged with the
  -- span behind it or not, and nothing else.
  pub deallocate_span-covers :
      (a n : ℕ) (s : PageCache)
      → IsOrdered 0 s.free_spans
      → find a s.span_map ≡ some n
      → IsOrdered 0 (deallocate_span a n s).free_spans
        × (covers x (deallocate_span a n s).free_spans ≡ covers x s.free_spans + holds x a n)
  unfolding deallocate_span
  deallocate_span-covers a n s h e =
      rw (e, deallocate_span)
        (free_span-covers a n (a + n * page_size) (find (a + n * page_size) s.span_map) s h refl)
