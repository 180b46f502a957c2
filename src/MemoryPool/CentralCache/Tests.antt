-- ===== src/MemoryPool/CentralCache/Tests.antt =====
-- Spans of a page cache, and a central cache with a span of eight blocks of a page each.
use cyclone_httpserver.Common.{
  ◌+◌, ◌-◌, ◌*◌, ◌≡◌, ◌≤◌, refl, none, some, [], ◌∷◌, All, arith, if◌then◌else◌, ◌==◌, true, false,
  ℕ,
}
use cyclone_httpserver.MemoryPool.{
  ThreadCache, new_thread_cache, block, get_index, round_up, allocate, allocate_class,
  fetch_from_central_cache, set_at, word,
}
use cyclone_httpserver.MemoryPool.PageCache.{
  page_size, PageCache, spanned, null_read, allocate_span, take_span, new_span, take_first,
  give_rest, deallocate_span, free_span, push_span, find,
}
use cyclone_httpserver.MemoryPool.PageCache.Pages.{IsOrdered, covers, holds}
use cyclone_httpserver.MemoryPool.PageCache.Covers.{deallocate_span-covers}
use cyclone_httpserver.MemoryPool.PageCache.Recorded.{used_covers}
use cyclone_httpserver.MemoryPool.PageCache.Reach.{
  Reach, begins, takes, gives, new_page_cache, Reach-once,
}
use mathlib.Core.Path.{subst}
use cyclone_httpserver.MemoryPool.PageCache.Null.{allocate_span-deallocate_span}
use cyclone_httpserver.MemoryPool.CentralCache.{
  CentralCache, SpanTracker, new_central_cache, pages_for, split_span, fetched, fetch_range,
  fetch_from_page_cache, tracker_loop, get_span_tracker, perform_delayed_return,
}
use cyclone_httpserver.MemoryPool.CentralCache.Blocks.{Within, Spaced}
use cyclone_httpserver.MemoryPool.CentralCache.Early.{perform_delayed_return-early}
use cyclone_httpserver.MemoryPool.CentralCache.Api.{System, central_cache, allocate-Within}

-- Sixteen free pages.
abbrev sixteen : PageCache
sixteen = record { free_spans = (16, 65_536 ∷ []) ∷ []; span_map = []; linked_twice = false }

abbrev halved : PageCache
halved = record {
  free_spans = (8, 98_304 ∷ []) ∷ [];
  span_map = (65_536, 8) ∷ [];
  linked_twice = false;
}

halved_lem : allocate_span 8 none sixteen ≡ spanned 65_536 halved
unfolding allocate_span take_span take_first give_rest
halved_lem = refl

-- Sixteen pages of the system, given back, and eight of them in use again.
abbrev given_back : PageCache
given_back = record sixteen { span_map = (65_536, 16) ∷ [] }

first_lem :
    allocate_span 16 (some 65_536) new_page_cache
    ≡ spanned 65_536
        (record { free_spans = []; span_map = (65_536, 16) ∷ []; linked_twice = false })
unfolding allocate_span new_span
first_lem = refl

back_lem :
    deallocate_span 65_536 16
      (record { free_spans = []; span_map = (65_536, 16) ∷ []; linked_twice = false })
    ≡ given_back
unfolding deallocate_span free_span push_span
back_lem = refl

again_lem : allocate_span 8 none given_back ≡ spanned 65_536 halved
unfolding allocate_span take_span take_first give_rest
again_lem = refl

given_back-Reach : Reach given_back []
given_back-Reach =
    subst (λ s. Reach s []) back_lem
      (gives 65_536 16 [] []
        (takes 16 65_536 (some 65_536) (omega arith) begins (λ a x e h. refl) first_lem))

Reach-once_example :
    ((x : ℕ) → covers x halved.free_spans + used_covers x ((65_536, 8) ∷ []) ≤ 1)
    × (halved.linked_twice ≡ false)
    × All (λ (a, n). (1 ≤ n) × (find a halved.span_map ≡ some n)) ((65_536, 8) ∷ [])
Reach-once_example =
    Reach-once halved ((65_536, 8) ∷ [])
      (takes 8 65_536 none (omega arith) given_back-Reach (λ a x e h. cc) again_lem)

deallocate_span-covers_example :
    IsOrdered 0 (deallocate_span 65_536 8 halved).free_spans
    × (covers 70_000 (deallocate_span 65_536 8 halved).free_spans
        ≡ covers 70_000 halved.free_spans + holds 70_000 65_536 8)
deallocate_span-covers_example = deallocate_span-covers 70_000 65_536 8 halved (omega arith) refl

-- Eight pages and ten pages behind them, both in use.
abbrev neighbours : PageCache
neighbours = record {
  free_spans = [];
  span_map = (65_536, 8) ∷ (98_304, 10) ∷ [];
  linked_twice = false;
}

allocate_span-deallocate_span_example :
    allocate_span 10 none (deallocate_span 65_536 8 neighbours) ≡ null_read
allocate_span-deallocate_span_example =
    allocate_span-deallocate_span 65_536 8 8 10 none neighbours tt refl refl refl (λ e. cc)

-- Blocks of a page, in class 511.
abbrev fresh : CentralCache
fresh = new_central_cache 0

abbrev mapped_pages : PageCache
mapped_pages = record { free_spans = []; span_map = (65_536, 8) ∷ []; linked_twice = false }

abbrev split : CentralCache
split = split_span 511 65_536 8 4096 (record fresh { page_cache = mapped_pages })

split_lem : fetch_range 511 (some 65_536) fresh ≡ fetched 65_536 split
unfolding fetch_range fetch_from_page_cache allocate_span new_span
split_lem = refl

-- A span of two blocks, of which one is free and counted.
abbrev half_free : SpanTracker
half_free = record { span_addr = 65_536; num_pages = 8; block_count = 2; free_count = 1 }

abbrev half : CentralCache
half = record fresh {
  free_list = λ i. if 2047 == i then 81_920 ∷ [] else [];
  trackers = half_free ∷ [];
  span_count = 1;
  page_cache = mapped_pages;
}

perform_delayed_return-early_example :
    (c : CentralCache) × (perform_delayed_return (λ l. l) 2047 9 half ≡ some c)
    × (covers 65_536 c.page_cache.free_spans
        ≡ covers 65_536 half.page_cache.free_spans + holds 65_536 65_536 8)
unfolding get_span_tracker tracker_loop
perform_delayed_return-early_example =
    perform_delayed_return-early (λ l. l) 0 2047 9 81_920 65_536 [] half half_free refl refl
      (refl, tt) refl refl refl (omega arith) tt refl

-- The first free block is of another span.
abbrev mixed : CentralCache
mixed = record half { free_list = λ i. if 2047 == i then 900_000 ∷ 81_920 ∷ [] else [] }

abbrev system : System
system = record {
  mapped = λ c. some 65_536;
  is_cleared = λ c b. true;
  now = λ c. 0;
  arrange = λ l. l;
}

abbrev thread : ThreadCache
thread =
    (fetch_from_central_cache (central_cache system) 511
      (record new_thread_cache { counts = set_at 511 (word - 1) new_thread_cache.counts })
      (some fresh)).0.0

thread_lem :
    allocate (central_cache system) 4090 new_thread_cache (some fresh)
    ≡ ((thread, some split), block 65_536)
unfolding allocate allocate_class get_index fetch_range fetch_from_page_cache allocate_span new_span
    fetch_from_central_cache
thread_lem = refl

allocate-Within_example :
    (c : CentralCache) × (some split ≡ some c)
    × (allocate_span (pages_for (round_up 4090)) (some 65_536) fresh.page_cache
        ≡ spanned 65_536 c.page_cache)
    × All
        (Within 65_536 (65_536 + pages_for (round_up 4090) * page_size) 4090)
        (65_536 ∷ c.free_list (get_index 4090))
    × Spaced 65_536 (round_up 4090) (65_536 ∷ c.free_list (get_index 4090))
    × (4090 ≤ round_up 4090)
allocate-Within_example =
    allocate-Within system 4090 65_536 new_thread_cache thread fresh (some split) (omega arith)
      (omega arith) refl refl thread_lem
