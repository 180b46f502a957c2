-- ===== src/MemoryPool/Sizes.antt =====
-- The size classes.
use cyclone_httpserver.Common.{ℕ, ◌+◌, ◌*◌, ◌≤◌, ◌<◌, ◌≡◌, arith}
use cyclone_httpserver.MemoryPool.{get_index, round_up, max_bytes, free_list_size}

-- For every size from 1 to MAX_BYTES, the index is within the free lists, the blocks of its class,
-- of (index + 1) * ALIGNMENT bytes, are as large as roundUp says, and hold the size with less
-- than ALIGNMENT bytes to spare.
pub get_index-round_up :
    (bytes : ℕ)
    → 1 ≤ bytes
    → bytes ≤ max_bytes
    → (get_index bytes < free_list_size)
      × ((get_index bytes + 1) * 8 ≡ round_up bytes)
      × (bytes ≤ round_up bytes)
      × (round_up bytes < bytes + 8)
unfolding get_index round_up
get_index-round_up bytes h k = (ground arith, ground arith, ground arith, ground arith)
