-- ===== src/MemoryPool/Tests.antt =====
-- A central cache that gives two blocks, and one that gives none.
use cyclone_httpserver.Common.{ℕ, ◌+◌, ◌-◌, ◌≡◌, refl, [], ◌∷◌, arith}
use cyclone_httpserver.MemoryPool.{
  CentralApi, new_thread_cache, word, get_index, allocate, allocate_class, fetch_from_central_cache,
  deallocate, null,
}
use cyclone_httpserver.MemoryPool.Counts.{Counted, allocate_class-Left, deallocate-Counted}

abbrev pairs : CentralApi
pairs = record {
  State = ℕ;
  fetch_range = λ index s. (s + 16, (s + 8) ∷ (s + 16) ∷ []);
  return_range = λ chain bytes index s. s;
}

abbrev broke : CentralApi
broke = record {
  State = ℕ;
  fetch_range = λ index s. (s, []);
  return_range = λ chain bytes index s. s;
}

new-Counted : Counted new_thread_cache
new-Counted i = refl

allocate_class-Left_example :
    ((allocate_class broke 1 new_thread_cache 0).1 ≡ null)
    × ((allocate_class broke 1 new_thread_cache 0).0.0.free_list 1 ≡ [])
    × ((allocate_class broke 1 new_thread_cache 0).0.0.counts 1 ≡ word - 1)
allocate_class-Left_example =
    allocate_class-Left broke 1 new_thread_cache 0 new-Counted (omega arith) (omega arith)

deallocate-Counted_example : Counted (deallocate pairs 8 13 new_thread_cache 0).0
deallocate-Counted_example =
    deallocate-Counted pairs 8 13 new_thread_cache 0 new-Counted (omega arith)

-- A null pointer, and a count that has wrapped round.
allocate_null_test :
    ((allocate broke 13 new_thread_cache 0).1 ≡ null)
    × ((allocate broke 13 new_thread_cache 0).0.0.counts 1 ≡ word - 1)
unfolding allocate allocate_class fetch_from_central_cache get_index
allocate_null_test = (refl, refl)
