-- ===== src/MemoryPool/PageCache/Linked.antt =====
-- Span objects that are in one list at most.
use cyclone_httpserver.Common.{
  ℕ, suc, ◌+◌, ◌*◌, ◌-◌, ◌≡◌, ◌≤◌, refl, sym, Bool, true, false, Option, none, some, List, [], ◌∷◌,
  All, ◌==◌, ltb, arith, Bool-cases, Option-cases, inl, inr,
}
use mathlib.Core.Path.{subst}
use cyclone_httpserver.MemoryPool.PageCache.{
  page_size, Entries, PageCache, entry, set_entry, lower_bound, find, record_span, forget_span,
  is_in, is_linked, spanned, take_first, give_rest, allocate_span, unlink, push_span, merge_span,
  free_span, deallocate_span,
}
use cyclone_httpserver.MemoryPool.PageCache.Pages.{
  list_covers, covers, IsOrdered, set_entry-IsOrdered, erase_entry-IsOrdered,
}
use cyclone_httpserver.MemoryPool.PageCache.Covers.{
  lower_bound-entry, new_span_spanned, take_span_spanned,
}

-- Every span, free or recorded, has a page at least, and no Span object was linked twice.
pub record IsLinkedOnce (s : PageCache) : Type 0 where
  pub keys : IsOrdered 1 s.free_spans
  pub sizes : All (λ (b, m). 1 ≤ m) s.span_map
  pub once : s.linked_twice ≡ false

record_span-sizes :
    (a n : ℕ) (ss : List (ℕ × ℕ))
    → 1 ≤ n
    → All (λ (b, m). 1 ≤ m) ss
    → All (λ (b, m). 1 ≤ m) (record_span a n ss)
record_span-sizes a n [] le h = (le, tt)
record_span-sizes a n ((b, m) ∷ ss) le h = elim (Bool-cases (b == a)) [
  | inl e ↦ rw e (le, h.1)
  | inr e ↦ rw e (h.0, record_span-sizes a n ss le h.1)
]

forget_span-sizes :
    (a : ℕ) (ss : List (ℕ × ℕ))
    → All (λ (b, m). 1 ≤ m) ss
    → All (λ (b, m). 1 ≤ m) (forget_span a ss)
forget_span-sizes a [] h = tt
forget_span-sizes a ((b, m) ∷ ss) h = elim (Bool-cases (b == a)) [
  | inl e ↦ rw e h.1
  | inr e ↦ rw e (h.0, forget_span-sizes a ss h.1)
]

find-sizes : (a n : ℕ) (ss : List (ℕ × ℕ)) → All (λ (b, m). 1 ≤ m) ss → find a ss ≡ some n → 1 ≤ n
find-sizes a n [] h e = cc
find-sizes a n ((b, m) ∷ ss) h e = elim (Bool-cases (b == a)) [
  | inl k ↦
      let z : ◌≡◌ {A = Option ℕ} (some m) (some n) = rw k at e in
      let same : m ≡ n = cc in omega (arith, same, h.0)
  | inr k ↦ let z : find a ss ≡ some n = rw k at e in find-sizes a n ss h.1 z
]

is_in-uncovered :
    (a n : ℕ) (spans : List ℕ) → 1 ≤ n → list_covers a n spans ≡ 0 → is_in a spans ≡ false
is_in-uncovered a n [] le h = refl
is_in-uncovered a n (b ∷ spans) le h = ground (arith, is_in-uncovered a n spans le)

-- The address of a span that is nowhere free is in no list.
pub is_linked-uncovered :
    (a lo : ℕ) (es : Entries) → 1 ≤ lo → IsOrdered lo es → covers a es ≡ 0 → is_linked a es ≡ false
is_linked-uncovered a lo [] le h e = refl
is_linked-uncovered a lo ((n, spans) ∷ es) le h e =
    let here : is_in a spans ≡ false = is_in-uncovered a n spans (omega arith) (omega arith) in
    let there : is_linked a es ≡ false =
      is_linked-uncovered a (suc n) es (omega arith) h.1 (omega arith) in
    rw (here, there) refl

pub is_in-entry : (a k : ℕ) (es : Entries) → is_linked a es ≡ false → is_in a (entry k es) ≡ false
is_in-entry a k [] h = refl
is_in-entry a k ((n, spans) ∷ es) h = ground (arith, is_in-entry a k es)

is_in-unlink :
    (a b : ℕ) (spans : List ℕ) → is_in a spans ≡ false → is_in a (unlink b spans).0 ≡ false
unfolding unlink
is_in-unlink a b [] h = refl
is_in-unlink a b (c ∷ spans) h = ground (arith, is_in-unlink a b spans)

is_linked-set_entry :
    (a k : ℕ) (l : List ℕ) (es : Entries)
    → is_linked a es ≡ false
    → is_in a l ≡ false
    → is_linked a (set_entry k l es) ≡ false
is_linked-set_entry a k l [] h e = rw e refl
is_linked-set_entry a k l ((n, spans) ∷ es) h e = ground (arith, is_linked-set_entry a k l es)

take_first-keys :
    (k : ℕ) (rest : List ℕ) (es : Entries)
    → 1 ≤ k
    → IsOrdered 1 es
    → IsOrdered 1 (take_first k rest es)
unfolding take_first
take_first-keys k [] es le h = erase_entry-IsOrdered k 1 es h
take_first-keys k (b ∷ rest) es le h = set_entry-IsOrdered k 1 (b ∷ rest) es h le

give_rest-keys : (a n k : ℕ) (es : Entries) → IsOrdered 1 es → IsOrdered 1 (give_rest a n k es)
unfolding give_rest
give_rest-keys a n k es h = elim (Bool-cases (ltb n k)) [
  | inl e ↦ rw e (set_entry-IsOrdered (k - n) 1 _ es h (ground arith))
  | inr e ↦ rw e h
]

pub allocate_span-IsLinkedOnce :
    (n : ℕ) (mapped : Option ℕ) (s s' : PageCache) (a : ℕ)
    → 1 ≤ n
    → IsLinkedOnce s
    → allocate_span n mapped s ≡ spanned a s'
    → IsLinkedOnce s'
unfolding allocate_span
allocate_span-IsLinkedOnce n mapped s s' a le h e =
    let sizes : All (λ (b, m). 1 ≤ m) (record_span a n s.span_map) =
      record_span-sizes a n s.span_map le h.sizes in
    elim (Option-cases (lower_bound n s.free_spans)) [
      | inl none_fits ↦
          let (_, z) = new_span_spanned n mapped s s' a (rw (none_fits, allocate_span) at e) in
          subst IsLinkedOnce (sym z) (record { keys = h.keys; sizes = sizes; once = h.once })
      | inr ((k, spans), fits) ↦
          let (rest, _, z) = take_span_spanned n k spans s s' a (rw (fits, allocate_span) at e) in
          let (more, _) = lower_bound-entry n k spans s.free_spans fits in
          subst IsLinkedOnce (sym z) (record {
            keys =
                give_rest-keys a n k (take_first k rest s.free_spans)
                  (take_first-keys k rest s.free_spans (omega arith) h.keys);
            sizes = sizes;
            once = h.once;
          })
    ]

push_span-IsLinkedOnce :
    (a n : ℕ) (s : PageCache)
    → 1 ≤ n
    → is_linked a s.free_spans ≡ false
    → IsLinkedOnce s
    → IsLinkedOnce (push_span a n s)
unfolding push_span
push_span-IsLinkedOnce a n s le free h = record {
  keys = set_entry-IsOrdered n 1 _ s.free_spans h.keys le;
  sizes = h.sizes;
  once = rw (h.once, free) refl;
}

merge_span-IsLinkedOnce :
    (a n b m : ℕ) (walked : List ℕ × Bool) (s : PageCache)
    → 1 ≤ n
    → 1 ≤ m
    → is_in a walked.0 ≡ false
    → is_linked a s.free_spans ≡ false
    → IsLinkedOnce s
    → IsLinkedOnce (merge_span a n b m walked s)
unfolding merge_span
merge_span-IsLinkedOnce a n b m (rest, true) s one one_behind apart free h =
    push_span-IsLinkedOnce a (n + m) _ (omega arith)
      (is_linked-set_entry a m rest s.free_spans free apart)
      (record {
        keys = set_entry-IsOrdered m 1 rest s.free_spans h.keys one_behind;
        sizes =
            forget_span-sizes b (record_span a (n + m) s.span_map)
              (record_span-sizes a (n + m) s.span_map (omega arith) h.sizes);
        once = h.once;
      })
merge_span-IsLinkedOnce a n b m (rest, false) s one one_behind apart free h =
    push_span-IsLinkedOnce a n _ one (is_linked-set_entry a m rest s.free_spans free apart)
      (record {
        keys = set_entry-IsOrdered m 1 rest s.free_spans h.keys one_behind;
        sizes = h.sizes;
        once = h.once;
      })

free_span-IsLinkedOnce :
    (a n b : ℕ) (behind : Option ℕ) (s : PageCache)
    → 1 ≤ n
    → find b s.span_map ≡ behind
    → is_linked a s.free_spans ≡ false
    → IsLinkedOnce s
    → IsLinkedOnce (free_span a n b behind s)
unfolding free_span
free_span-IsLinkedOnce a n b none s one e free h = push_span-IsLinkedOnce a n s one free h
free_span-IsLinkedOnce a n b (some m) s one e free h =
    merge_span-IsLinkedOnce a n b m (unlink b (entry m s.free_spans)) s one
      (find-sizes b m s.span_map h.sizes e)
      (is_in-unlink a b (entry m s.free_spans) (is_in-entry a m s.free_spans free)) free h

-- A span that is nowhere free is linked once when it is given back.
pub deallocate_span-IsLinkedOnce :
    (a n : ℕ) (s : PageCache)
    → find a s.span_map ≡ some n
    → covers a s.free_spans ≡ 0
    → IsLinkedOnce s
    → IsLinkedOnce (deallocate_span a n s)
unfolding deallocate_span
deallocate_span-IsLinkedOnce a n s e nowhere h =
    rw (e, deallocate_span)
      (free_span-IsLinkedOnce a n (a + n * page_size) _ s (find-sizes a n s.span_map h.sizes e) refl
        (is_linked-uncovered a 1 s.free_spans (omega arith) h.keys nowhere) h)

pub recorded_size : (a n : ℕ) (s : PageCache) → IsLinkedOnce s → find a s.span_map ≡ some n → 1 ≤ n
recorded_size a n s h e = find-sizes a n s.span_map h.sizes e
