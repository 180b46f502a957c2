-- ===== src/MemoryPool/PageCache.antt =====
-- HttpServer/include/MemoryPool/PageCache.h and HttpServer/src/MemoryPool/PageCache.cpp: spans of pages. A
-- Span object is named by the address of its first page. A list of free spans of one size is the
-- list of those addresses; the empty list is a null pointer, which `freeSpans_` may hold as well.
-- Each function holds the mutex throughout.
use cyclone_httpserver.Common.{
  ℕ, ◌+◌, ◌-◌, ◌*◌, ◌≡◌, ◌≤◌, Bool, true, false, Option, none, some, List, [], ◌∷◌, ◌++◌,
  if◌then◌else◌, ◌||◌, ◌==◌, leb, ltb,
}
pub mod Pages
pub mod Covers
pub mod Linked
pub mod Recorded
pub mod Reach
pub mod Null

-- PAGE_SIZE.
abbrev pub page_size : ℕ
page_size = 4096

abbrev pub Entries : Type 0
Entries = List (ℕ × List ℕ)

-- `freeSpans_` by number of pages, in order, and `spanMap_` with the number of pages of each span. `linked_twice`
-- tells whether a Span object was put into a list while it was in one: its one link then makes
-- a cycle or joins two lists, and `free_spans` says nothing of the memory any more.
pub record PageCache : Type 0 where
  pub free_spans : Entries
  pub span_map : List (ℕ × ℕ)
  pub linked_twice : Bool

abbrev pub is_in : ℕ → List ℕ → Bool
is_in a [] = false
is_in a (b ∷ bs) = b == a || is_in a bs

-- Whether a Span object is in a list of free spans.
abbrev pub is_linked : ℕ → Entries → Bool
is_linked a [] = false
is_linked a ((n, spans) ∷ es) = is_in a spans || is_linked a es

-- The calls of `std::map` on `freeSpans_`: `freeSpans_[k]` gives a null pointer for a new key.
abbrev pub entry : ℕ → Entries → List ℕ
entry k [] = []
entry k ((j, l) ∷ es) = if j == k then l else entry k es

abbrev pub set_entry : ℕ → List ℕ → Entries → Entries
set_entry k l [] = (k, l) ∷ []
set_entry k l ((j, m) ∷ es) =
    if j == k
    then (k, l) ∷ es
    else if ltb k j
    then (k, l) ∷ (j, m) ∷ es
    else (j, m) ∷ set_entry k l es

abbrev pub erase_entry : ℕ → Entries → Entries
erase_entry k [] = []
erase_entry k ((j, m) ∷ es) = if j == k then es else (j, m) ∷ erase_entry k es

-- The first entry whose key is not less.
abbrev pub lower_bound : ℕ → Entries → Option (ℕ × List ℕ)
lower_bound k [] = none
lower_bound k ((j, m) ∷ es) = if leb k j then some (j, m) else lower_bound k es

-- The calls on `spanMap_`.
abbrev pub find : ℕ → List (ℕ × ℕ) → Option ℕ
find a [] = none
find a ((b, n) ∷ ss) = if b == a then some n else find a ss

abbrev pub record_span : ℕ → ℕ → List (ℕ × ℕ) → List (ℕ × ℕ)
record_span a n [] = (a, n) ∷ []
record_span a n ((b, m) ∷ ss) = if b == a then (a, n) ∷ ss else (b, m) ∷ record_span a n ss

abbrev pub forget_span : ℕ → List (ℕ × ℕ) → List (ℕ × ℕ)
forget_span a [] = []
forget_span a ((b, m) ∷ ss) = if b == a then ss else (b, m) ∷ forget_span a ss

-- How `allocateSpan` ends: with an address, a null pointer, or the read of a field through a null pointer.
pub data Spanned : Type 0 where
  spanned : ℕ → PageCache → Spanned
  no_memory : Spanned
  null_read : Spanned

-- The list that is left of an entry without its first span: an entry does not stay empty here.
unfoldable pub take_first : ℕ → List ℕ → Entries → Entries
take_first k [] es = erase_entry k es
take_first k (b ∷ rest) es = set_entry k (b ∷ rest) es

-- What is more than the pages wanted goes back as a span of its own.
unfoldable pub give_rest : ℕ → ℕ → ℕ → Entries → Entries
give_rest a n k es =
    if ltb n k then set_entry (k - n) ((a + n * page_size) ∷ entry (k - n) es) es else es

unfoldable pub take_span : ℕ → ℕ → List ℕ → PageCache → Spanned
take_span n k [] s = null_read
take_span n k (a ∷ rest) s = spanned a (record {
  free_spans = give_rest a n k (take_first k rest s.free_spans);
  span_map = record_span a n s.span_map;
  linked_twice = s.linked_twice;
})

-- `systemAlloc` is the parameter: the address that `mmap` gives, or none.
unfoldable pub new_span : ℕ → Option ℕ → PageCache → Spanned
new_span n none s = no_memory
new_span n (some a) s = spanned a (record s { span_map = record_span a n s.span_map })

unfoldable pub allocate_span : ℕ → Option ℕ → PageCache → Spanned
allocate_span n mapped s = elim (lower_bound n s.free_spans) [
  | none ↦ new_span n mapped s
  | some (k, spans) ↦ take_span n k spans s
]

-- The walk over a list of spans that takes one out, and whether it was there.
unfoldable pub unlink : ℕ → List ℕ → List ℕ × Bool
unlink a [] = ([], false)
unlink a (b ∷ bs) =
    let (rest, found) = unlink a bs in if b == a then (bs, true) else (b ∷ rest, found)

-- The span goes to the head of the list of its size.
unfoldable pub push_span : ℕ → ℕ → PageCache → PageCache
push_span a n s = record s {
  free_spans = set_entry n (a ∷ entry n s.free_spans) s.free_spans;
  linked_twice = s.linked_twice || is_linked a s.free_spans;
}

-- The merge with the span behind, of `m` pages, if that is in its list of free spans.
unfoldable pub merge_span : ℕ → ℕ → ℕ → ℕ → List ℕ × Bool → PageCache → PageCache
merge_span a n b m (rest, found) s =
    let es : Entries = set_entry m rest s.free_spans in
    if found
    then push_span a (n + m)
        (record s { free_spans = es; span_map = forget_span b (record_span a (n + m) s.span_map) })
    else push_span a n (record s { free_spans = es })

unfoldable pub free_span : ℕ → ℕ → ℕ → Option ℕ → PageCache → PageCache
free_span a n b none s = push_span a n s
free_span a n b (some m) s = merge_span a n b m (unlink b (entry m s.free_spans)) s

unfoldable pub deallocate_span : ℕ → ℕ → PageCache → PageCache
deallocate_span a n s = elim (find a s.span_map) [
  | none ↦ s
  | some own ↦ free_span a own (a + n * page_size) (find (a + n * page_size) s.span_map) s
]
