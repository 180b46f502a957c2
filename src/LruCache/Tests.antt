-- ===== src/LruCache/Tests.antt =====
-- A cache of two entries, and its list.
use cyclone_httpserver.Common.{ℕ, length, ◌≤◌, ◌≡◌, refl, List, [], ◌∷◌, some, none}
use cyclone_httpserver.Common.Bytes.{codes}
use cyclone_httpserver.Common.Decimal.{pos}
use cyclone_httpserver.LruCache.{
  KLruCache, room, new_cache, put, get, remove, add_new_node, append_node, insert_node,
  evict_least_recent, remove_node, update_existing_node, move_to_most_recent,
}
use cyclone_httpserver.LruCache.Model.{put_entry, new_cache-Holds}
use cyclone_httpserver.LruCache.Nodes.{entries}
use cyclone_httpserver.LruCache.Put.{Becomes, put-put_entry}
use cyclone_httpserver.LruCache.LruK
use cyclone_httpserver.LruCache.LruK.{KLruKCache, Kept, put-Kept, count_access, put_history}
use cyclone_httpserver.LruCache.Run.{
  Call, put_call, get_call, remove_call, run, run_entries, run-run_entries,
}

abbrev new : KLruCache ℕ
new = new_cache 0 (pos 2)

-- The cache with one entry, and the nodes that hold it.
abbrev one : KLruCache ℕ
one = put (codes "a") 1 new

one-Becomes : Becomes one (put_entry (room new.capacity) (codes "a") 1 (entries new.heap []))
one-Becomes = put-put_entry (codes "a") 1 new [] (new_cache-Holds 0 (pos 2))

-- The entry that was not used since leaves the full cache.
evict_test :
    (let c = (get (codes "a") (put (codes "b") 2 one)).0 in
      let d = put (codes "c") 3 c in
      ((get (codes "a") d).1 ≡ some 1) × ((get (codes "b") d).1 ≡ none))
unfolding put get new_cache add_new_node append_node insert_node evict_least_recent remove_node
    update_existing_node move_to_most_recent
evict_test = (refl, refl)

abbrev calls : List (Call ℕ)
calls =
    put_call (codes "a") 1
    ∷ put_call (codes "b") 2
    ∷ get_call (codes "a")
    ∷ put_call (codes "c") 3
    ∷ get_call (codes "b")
    ∷ remove_call (codes "c")
    ∷ get_call (codes "a")
    ∷ []

run-run_entries_example :
    ((run calls new).1 ≡ (run_entries 2 calls []).1) × (length (run_entries 2 calls []).0 ≤ 2)
unfolding new_cache
run-run_entries_example = run-run_entries 0 (pos 2) calls

run_test : (run_entries 2 calls []).1 ≡ some 1 ∷ none ∷ some 1 ∷ []
unfolding run_entries
run_test = refl

abbrev twice : KLruKCache ℕ
twice = record { main = new; history_list = new_cache 0 (pos 4); history_value_map = []; k = pos 2 }

-- The second access takes the value in.
admit_test : (LruK.get (codes "a") (LruK.put (codes "a") 1 twice) 0).1 ≡ 1
unfolding new_cache put get remove add_new_node append_node insert_node evict_least_recent
    remove_node update_existing_node move_to_most_recent LruK.put LruK.get put_history count_access
admit_test = refl
