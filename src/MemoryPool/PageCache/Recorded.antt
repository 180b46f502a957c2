-- ===== src/MemoryPool/PageCache/Recorded.antt =====
-- The sizes that `spanMap_` has for the spans in use.
use cyclone_httpserver.Common.{
  ℕ, ◌+◌, ◌*◌, ◌≡◌, ◌≢◌, ◌≤◌, refl, ap, ◌∙◌, Bool, true, false, Option, none, some, List, [], ◌∷◌,
  ◌++◌, All, arith, Option-cases, inl, inr,
}
use cyclone_httpserver.MemoryPool.PageCache.{
  page_size, PageCache, entry, find, record_span, forget_span, is_in, is_linked, spanned,
  allocate_span, unlink, lower_bound, push_span, merge_span, free_span, deallocate_span,
}
use cyclone_httpserver.MemoryPool.PageCache.Pages.{holds, covers}
use cyclone_httpserver.MemoryPool.PageCache.Covers.{new_span_spanned, take_span_spanned}
use cyclone_httpserver.MemoryPool.PageCache.Linked.{IsLinkedOnce, is_linked-uncovered, is_in-entry}

-- Addresses and numbers of pages.
abbrev pub Spans : Type 0
Spans = List (ℕ × ℕ)

-- The number of spans that hold an address.
abbrev pub used_covers : ℕ → Spans → ℕ
used_covers x [] = 0
used_covers x ((a, n) ∷ us) = holds x a n + used_covers x us

-- Each span has a page at least, and is recorded with its size.
abbrev pub Recorded : PageCache → Spans → Type 0
Recorded s us = All (λ (a, n). (1 ≤ n) × (find a s.span_map ≡ some n)) us

find-record_span_other :
    (a b n : ℕ) (ss : List (ℕ × ℕ)) → a ≢ b → find a (record_span b n ss) ≡ find a ss
find-record_span_other a b n [] h = ground arith
find-record_span_other a b n ((c, m) ∷ ss) h = ground (arith, find-record_span_other a b n ss h)

find-forget_span_other :
    (a b : ℕ) (ss : List (ℕ × ℕ)) → a ≢ b → find a (forget_span b ss) ≡ find a ss
find-forget_span_other a b [] h = refl
find-forget_span_other a b ((c, m) ∷ ss) h = ground (arith, find-forget_span_other a b ss h)

is_in-unlinked : (b : ℕ) (spans : List ℕ) → (unlink b spans).1 ≡ true → is_in b spans ≡ true
unfolding unlink
is_in-unlinked b [] h = cc
is_in-unlinked b (c ∷ spans) h = ground (arith, is_in-unlinked b spans)

allocate_span-span_map :
    (n : ℕ) (mapped : Option ℕ) (s s' : PageCache) (a : ℕ)
    → allocate_span n mapped s ≡ spanned a s'
    → s'.span_map ≡ record_span a n s.span_map
unfolding allocate_span
allocate_span-span_map n mapped s s' a e = elim (Option-cases (lower_bound n s.free_spans)) [
  | inl none_fits ↦
      let (_, z) = new_span_spanned n mapped s s' a (rw (none_fits, allocate_span) at e) in
      ap (λ t. t.span_map) z
  | inr ((k, spans), fits) ↦
      let (rest, _, z) = take_span_spanned n k spans s s' a (rw (fits, allocate_span) at e) in
      ap (λ t. t.span_map) z
]

merge_span-find :
    (x a n b m : ℕ) (walked : List ℕ × Bool) (s : PageCache)
    → x ≢ a
    → (walked.1 ≡ true → x ≢ b)
    → find x (merge_span a n b m walked s).span_map ≡ find x s.span_map
unfolding merge_span push_span
merge_span-find x a n b m (rest, true) s h k =
    find-forget_span_other x b _ (k refl) ∙ find-record_span_other x a (n + m) s.span_map h
merge_span-find x a n b m (rest, false) s h k = refl

free_span-find :
    (x a n b : ℕ) (behind : Option ℕ) (s : PageCache)
    → x ≢ a
    → is_linked x s.free_spans ≡ false
    → find x (free_span a n b behind s).span_map ≡ find x s.span_map
unfolding free_span push_span
free_span-find x a n b none s h free = refl
free_span-find x a n b (some m) s h free =
    merge_span-find x a n b m (unlink b (entry m s.free_spans)) s h (λ found same.
      let out : is_in x (entry m s.free_spans) ≡ false = is_in-entry x m s.free_spans free in
      let into : is_in b (entry m s.free_spans) ≡ true =
        is_in-unlinked b (entry m s.free_spans) found in
      cc)

-- Giving back a span changes the record of no other span that is nowhere free.
deallocate_span-find :
    (x a n : ℕ) (s : PageCache)
    → find a s.span_map ≡ some n
    → x ≢ a
    → covers x s.free_spans ≡ 0
    → IsLinkedOnce s
    → find x (deallocate_span a n s).span_map ≡ find x s.span_map
unfolding deallocate_span
deallocate_span-find x a n s e h nowhere l =
    rw (e, deallocate_span)
      (free_span-find x a n (a + n * page_size) _ s h
        (is_linked-uncovered x 1 s.free_spans (omega arith) l.keys nowhere))

holds_start : (x a n : ℕ) → 1 ≤ n → holds x a n ≡ 0 → a ≢ x
holds_start x a n le h e = ground arith

pub takes-Recorded :
    (n : ℕ) (mapped : Option ℕ) (s s' : PageCache) (a : ℕ) (us : Spans)
    → allocate_span n mapped s ≡ spanned a s'
    → used_covers a us ≡ 0
    → Recorded s us
    → Recorded s' us
takes-Recorded n mapped s s' a [] e h r = tt
takes-Recorded n mapped s s' a ((b, m) ∷ us) e h r = (
  (
    r.0.0,
    ap (find b) (allocate_span-span_map n mapped s s' a e)
        ∙ find-record_span_other b a n s.span_map (holds_start a b m r.0.0 (omega (arith, h)))
        ∙ r.0.1,
  ),
  takes-Recorded n mapped s s' a us e (omega (arith, h)) r.1,
)

pub gives-Recorded :
    (a n : ℕ) (s : PageCache) (us : Spans)
    → find a s.span_map ≡ some n
    → IsLinkedOnce s
    → used_covers a us ≡ 0
    → ((x : ℕ) → covers x s.free_spans + used_covers x us ≤ 1)
    → Recorded s us
    → Recorded (deallocate_span a n s) us
gives-Recorded a n s [] e l h once r = tt
gives-Recorded a n s ((b, m) ∷ us) e l h once r =
    let held : holds b b m ≡ 1 = ground (arith, r.0.0) in
    (
      (
        r.0.0,
        deallocate_span-find b a n s e (holds_start a b m r.0.0 (omega (arith, h)))
              (omega (arith, held, once b)) l
            ∙ r.0.1,
      ),
      gives-Recorded a n s us e l (omega (arith, h)) (λ x. omega (arith, once x)) r.1,
    )

pub Recorded-split :
    (s : PageCache) (us : Spans) (a n : ℕ) (vs : Spans)
    → Recorded s (us ++ (a, n) ∷ vs)
    → (find a s.span_map ≡ some n) × Recorded s (us ++ vs)
Recorded-split s [] a n vs r = (r.0.1, r.1)
Recorded-split s (u ∷ us) a n vs r =
    let (e, rest) = Recorded-split s us a n vs r.1 in (e, (r.0, rest))
