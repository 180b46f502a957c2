-- ===== src/MemoryPool/CentralCache.antt =====
-- HttpServer/include/MemoryPool/CentralCache.h and HttpServer/src/MemoryPool/CentralCache.cpp: the free
-- lists that the threads share, and the spans that their blocks come from. A free list is the list of
-- the blocks that its links lead to. A call holds the lock of its size class; calls for different
-- classes are taken one after the other. What `mmap` gives and what the clock tells are arguments.
use cyclone_httpserver.Common.{
  ℕ, zero, suc, ◌+◌, ◌-◌, ◌*◌, ◌/◌, ◌%◌, ◌≡◌, Bool, true, false, ◌&&◌, ◌||◌, Option, none, some,
  List, [], ◌∷◌, ◌++◌, if◌then◌else◌, ◌==◌, leb, ltb, length, take, get_elem?, set,
}
use cyclone_httpserver.MemoryPool.{free_list_size, word, set_at, at_least}
use cyclone_httpserver.MemoryPool.PageCache.{
  page_size, PageCache, Spanned, spanned, no_memory, null_read, allocate_span, deallocate_span,
}
pub mod Blocks
pub mod Early
pub mod Api
mod Tests

-- SPAN_PAGES, MAX_DELAY_COUNT, and DELAY_INTERVAL in nanoseconds.
abbrev pub span_pages : ℕ
span_pages = 8

abbrev pub max_delay_count : ℕ
max_delay_count = 48

abbrev pub delay_interval : ℕ
delay_interval = 1_000_000_000

-- The size of the array `spanTrackers_`.
abbrev pub max_trackers : ℕ
max_trackers = 1024

pub record SpanTracker : Type 0 where
  pub span_addr : ℕ
  pub num_pages : ℕ
  pub block_count : ℕ
  pub free_count : ℕ

-- `trackers` is the part of the array that is in use; `span_count` goes on when the array is full.
pub record CentralCache : Type 0 where
  pub free_list : ℕ → List ℕ
  pub trackers : List SpanTracker
  pub span_count : ℕ
  pub delay_counts : ℕ → ℕ
  pub last_return_times : ℕ → ℕ
  pub page_cache : PageCache

-- The constructor, at a time.
abbrev pub new_central_cache : ℕ → CentralCache
new_central_cache now = record {
  free_list = λ i. [];
  trackers = [];
  span_count = 0;
  delay_counts = λ i. 0;
  last_return_times = λ i. now;
  page_cache = record { free_spans = []; span_map = []; linked_twice = false };
}

abbrev pub block_size : ℕ → ℕ
block_size index = (index + 1) * 8

-- The pages of a span for blocks of a size, in `fetchFromPageCache` and again in `fetchRange`.
abbrev pub pages_for : ℕ → ℕ
pages_for size =
    if leb size (span_pages * page_size) then span_pages else (size + page_size - 1) / page_size

unfoldable pub fetch_from_page_cache : ℕ → Option ℕ → CentralCache → Spanned
fetch_from_page_cache size mapped c = allocate_span (pages_for size) mapped c.page_cache

-- Whether an address lies in the span of a tracker.
abbrev pub in_span : ℕ → SpanTracker → Bool
in_span b t = leb t.span_addr b && ltb b (t.span_addr + t.num_pages * page_size)

-- The loop of `getSpanTracker` over the trackers in use, from number `i` on.
unfoldable pub tracker_loop : ℕ → ℕ → List SpanTracker → Option ℕ
tracker_loop b i [] = none
tracker_loop b i (t ∷ ts) = if in_span b t then some i else tracker_loop b (i + 1) ts

-- A tracker, none, or a read behind the end of the array.
pub data Tracked : Type 0 where
  tracked : ℕ → Tracked
  untracked : Tracked
  behind_array : Tracked

abbrev pub tracked_or : Option ℕ → Tracked → Tracked
tracked_or none r = r
tracked_or (some i) r = tracked i

unfoldable pub get_span_tracker : ℕ → CentralCache → Tracked
get_span_tracker b c =
    tracked_or (tracker_loop b 0 c.trackers)
      (if ltb max_trackers c.span_count then behind_array else untracked)

-- The blocks of a span from one on.
unfoldable pub blocks_from : ℕ → ℕ → ℕ → List ℕ
blocks_from zero start size = []
blocks_from (suc n) start size = start ∷ blocks_from n (start + size) size

-- The span of a new tracker, in which one block is in use.
abbrev pub new_tracker : ℕ → ℕ → ℕ → SpanTracker
new_tracker start pages blocks = record {
  span_addr = start;
  num_pages = pages;
  block_count = blocks;
  free_count = blocks - 1;
}

-- The rest of the blocks becomes the free list, and the span is tracked if the array has room.
unfoldable pub split_span : ℕ → ℕ → ℕ → ℕ → CentralCache → CentralCache
split_span index start pages size c =
    let blocks : ℕ = pages * page_size / size in
    if ltb 1 blocks
    then record c {
      free_list = set_at index (blocks_from (blocks - 1) (start + size) size) c.free_list;
      trackers =
          if ltb c.span_count max_trackers
          then c.trackers ++ new_tracker start pages blocks ∷ []
          else c.trackers;
      span_count = c.span_count + 1;
    }
    else c

-- How `fetchRange` ends: with a block whose first word is null, with a block whose first word is what
-- the memory holds, with a null pointer, or in undefined behaviour.
pub data Fetched : Type 0 where
  fetched : ℕ → CentralCache → Fetched
  uncleared : ℕ → CentralCache → Fetched
  nothing : CentralCache → Fetched
  undefined : Fetched

-- The first word of a span of one block is not written.
abbrev pub use_span : ℕ → ℕ → Spanned → CentralCache → Fetched
use_span index size (spanned start pages) c =
    let c' : CentralCache =
      split_span index start (pages_for size) size (record c { page_cache = pages }) in
    if ltb 1 (pages_for size * page_size / size) then fetched start c' else uncleared start c'
use_span index size no_memory c = nothing c
use_span index size null_read c = undefined

-- The block of a call that gives one, and the state.
abbrev pub given : Fetched → Option (ℕ × CentralCache)
given (fetched b c) = some (b, c)
given (uncleared b c) = some (b, c)
given (nothing c) = none
given undefined = none

abbrev pub one_less : SpanTracker → SpanTracker
one_less t = record t { free_count = (t.free_count + word - 1) % word }

abbrev pub change_tracker : ℕ → (SpanTracker → SpanTracker) → List SpanTracker → List SpanTracker
change_tracker i f [] = []
change_tracker zero f (t ∷ ts) = f t ∷ ts
change_tracker (suc i) f (t ∷ ts) = t ∷ change_tracker i f ts

-- `tracker->freeCount.fetch_sub(1)`, if the block is tracked.
abbrev pub count_taken : ℕ → Tracked → CentralCache → Fetched
count_taken b (tracked i) c =
    fetched b (record c { trackers = change_tracker i one_less c.trackers })
count_taken b untracked c = fetched b c
count_taken b behind_array c = undefined

abbrev pub fetch_block : ℕ → Option ℕ → List ℕ → CentralCache → Fetched
fetch_block index mapped [] c =
    use_span index (block_size index) (fetch_from_page_cache (block_size index) mapped c) c
fetch_block index mapped (b ∷ next) c =
    let c' : CentralCache = record c { free_list = set_at index next c.free_list } in
    count_taken b (get_span_tracker b c') c'

unfoldable pub fetch_range : ℕ → Option ℕ → CentralCache → Fetched
fetch_range index mapped c =
    if leb free_list_size index then nothing c else fetch_block index mapped (c.free_list index) c

-- The blocks that are in no span of the tracker; the walk of `updateSpanFreeCount` behind a block that stays.
unfoldable pub outside : SpanTracker → List ℕ → List ℕ
outside t [] = []
outside t (b ∷ bs) = if in_span b t then outside t bs else b ∷ outside t bs

-- The same walk while no block has stayed, and what `newHead` leads to at its end. `moved` tells whether
-- `newHead` was set; only a block that goes sets it.
unfoldable pub strip : Bool → SpanTracker → List ℕ → List ℕ
strip moved t [] = []
strip moved t (b ∷ bs) =
    let gone : List ℕ = strip true t bs in
    if in_span b t then gone else if moved then b ∷ outside t bs else []

-- The end of `updateSpanFreeCount`, with the tracker as it is stored.
unfoldable pub return_span : SpanTracker → ℕ → CentralCache → CentralCache
return_span t index c =
    if t.free_count == t.block_count
    then record c {
      free_list = set_at index (strip false t (c.free_list index)) c.free_list;
      page_cache = deallocate_span t.span_addr t.num_pages c.page_cache;
    }
    else c

abbrev pub add_free : ℕ → SpanTracker → SpanTracker
add_free n t = record t { free_count = (t.free_count + n) % word }

abbrev pub update_tracker : Option SpanTracker → ℕ → ℕ → ℕ → CentralCache → CentralCache
update_tracker none i n index c = c
update_tracker (some t) i n index c =
    return_span (add_free n t) index
      (record c { trackers = change_tracker i (add_free n) c.trackers })

-- `updateSpanFreeCount` of tracker `i`.
unfoldable pub update_span_free_count : ℕ → ℕ → ℕ → CentralCache → CentralCache
update_span_free_count i n index c = update_tracker (get_elem? c.trackers i) i n index c

-- `spanFreeCounts[tracker]++`.
abbrev pub count_up : ℕ → List (ℕ × ℕ) → List (ℕ × ℕ)
count_up i [] = (i, 1) ∷ []
count_up i ((j, n) ∷ counts) = if j == i then (j, n + 1) ∷ counts else (j, n) ∷ count_up i counts

abbrev pub count_block : Tracked → List (ℕ × ℕ) → Option (List (ℕ × ℕ))
count_block (tracked i) counts = some (count_up i counts)
count_block untracked counts = some counts
count_block behind_array counts = none

abbrev pub counted_or : {A B : Type 0} → Option A → (A → Option B) → Option B
counted_or none f = none
counted_or (some a) f = f a

-- The loop that counts the free blocks of each span; `none` for undefined behaviour.
unfoldable pub count_loop : CentralCache → List ℕ → List (ℕ × ℕ) → Option (List (ℕ × ℕ))
count_loop c [] counts = some counts
count_loop c (b ∷ bs) counts =
    counted_or (count_block (get_span_tracker b c) counts) (count_loop c bs)

unfoldable pub update_loop : ℕ → List (ℕ × ℕ) → CentralCache → CentralCache
update_loop index [] c = c
update_loop index ((i, n) ∷ counts) c =
    update_loop index counts (update_span_free_count i n index c)

-- `arrange` is the order in which the `std::unordered_map` of the counts is gone through.
unfoldable pub perform_delayed_return :
    (List (ℕ × ℕ) → List (ℕ × ℕ)) → ℕ → ℕ → CentralCache → Option CentralCache
perform_delayed_return arrange index now c =
    let c' : CentralCache = record c {
      delay_counts = set_at index 0 c.delay_counts;
      last_return_times = set_at index now c.last_return_times;
    } in
    counted_or (count_loop c' (c'.free_list index) [])
      (λ counts. some (update_loop index (arrange counts) c'))

unfoldable pub should_perform_delayed_return : ℕ → ℕ → ℕ → CentralCache → Bool
should_perform_delayed_return index current_count current_time c =
    leb max_delay_count current_count
    || leb delay_interval (current_time - c.last_return_times index)

-- The chain in front of the free list, as far as its blocks are counted by `size`.
abbrev pub put_back : List ℕ → ℕ → ℕ → CentralCache → CentralCache
put_back chain size index c = record c {
  free_list =
      set_at index (take (at_least 1 (size / block_size index)) chain ++ c.free_list index)
        c.free_list;
  delay_counts = set_at index ((c.delay_counts index + 1) % word) c.delay_counts;
}

abbrev pub return_chain :
    (List (ℕ × ℕ) → List (ℕ × ℕ)) → List ℕ → ℕ → ℕ → ℕ → CentralCache → Option CentralCache
return_chain arrange [] size index now c = some c
return_chain arrange (b ∷ chain) size index now c =
    let c' : CentralCache = put_back (b ∷ chain) size index c in
    if should_perform_delayed_return index (c'.delay_counts index) now c'
    then perform_delayed_return arrange index now c'
    else some c'

-- `returnRange` of a chain, which is empty for a null pointer.
unfoldable pub return_range :
    (List (ℕ × ℕ) → List (ℕ × ℕ)) → List ℕ → ℕ → ℕ → ℕ → CentralCache → Option CentralCache
return_range arrange chain size index now c =
    if leb free_list_size index then some c else return_chain arrange chain size index now c
