-- ===== src/MemoryPool/PageCache/Null.antt =====
-- The null pointer that `freeSpans_[k]` leaves behind.
use cyclone_httpserver.Common.{
  ℕ, suc, ◌+◌, ◌*◌, ◌≡◌, ◌≢◌, refl, false, Option, some, List, [], ◌∷◌, ◌==◌, leb, ltb, arith,
  Bool-cases, inl, inr,
}
use cyclone_httpserver.MemoryPool.PageCache.{
  page_size, Entries, PageCache, entry, set_entry, lower_bound, find, null_read, take_span,
  allocate_span, unlink, push_span, merge_span, free_span, deallocate_span,
}
use cyclone_httpserver.MemoryPool.PageCache.Pages.{IsOrdered, set_entry-IsOrdered}

lower_bound-set_entry :
    (k lo : ℕ) (l : List ℕ) (es : Entries)
    → IsOrdered lo es
    → lower_bound k (set_entry k l es) ≡ some (k, l)
lower_bound-set_entry k lo l [] h = ground arith
lower_bound-set_entry k lo l ((j, m) ∷ es) h = elim (Bool-cases (j == k)) [
  | inl e ↦ rw e (ground arith)
  | inr e ↦ elim (Bool-cases (ltb k j)) [
    | inl f ↦ rw (e, f) (ground arith)
    | inr f ↦
        let g : leb k j ≡ false = ground arith in
        rw (e, f) (rw g (lower_bound-set_entry k (suc j) l es h.1))
  ]
]

lower_bound-set_entry_other :
    (k i lo : ℕ) (l spans : List ℕ) (es : Entries)
    → IsOrdered lo es
    → i ≢ k
    → lower_bound k es ≡ some (k, spans)
    → lower_bound k (set_entry i l es) ≡ some (k, spans)
lower_bound-set_entry_other k i lo l spans [] h n e = cc
lower_bound-set_entry_other k i lo l spans ((j, m) ∷ es) h n e = elim (Bool-cases (leb k j)) [
  | inl at_j ↦
      let z : ◌≡◌ {A = Option (ℕ × List ℕ)} (some (j, m)) (some (k, spans)) = rw at_j at e in
      let here : j ≡ k = ground arith in
      let there : m ≡ spans = ground arith in rw (here, there) (ground arith)
  | inr past ↦
      let z : lower_bound k es ≡ some (k, spans) = rw past at e in
      elim (Bool-cases (j == i)) [
        | inl f ↦ let g : leb k i ≡ false = ground arith in rw f (rw g z)
        | inr f ↦ elim (Bool-cases (ltb i j)) [
          | inl g ↦ let k_i : leb k i ≡ false = ground arith in rw (f, g) (rw k_i (rw past z))
          | inr g ↦ rw (f, g) (rw past (lower_bound-set_entry_other k i (suc j) l spans es h.1 n z))
        ]
      ]
]

-- A span is given back while the span behind it, of another size, is in use, and no span of that size is free:
-- then the next `allocateSpan` for that size reads through a null pointer.
pub allocate_span-deallocate_span :
    (a n own m : ℕ) (mapped : Option ℕ) (s : PageCache)
    → IsOrdered 0 s.free_spans
    → find a s.span_map ≡ some own
    → find (a + n * page_size) s.span_map ≡ some m
    → entry m s.free_spans ≡ []
    → own ≢ m
    → allocate_span m mapped (deallocate_span a n s) ≡ null_read
unfolding allocate_span deallocate_span free_span unlink merge_span push_span take_span
allocate_span-deallocate_span a n own m mapped s h mine behind none_free other =
    let es : Entries = set_entry m [] s.free_spans in
    let found : lower_bound m (set_entry own (a ∷ entry own es) es) ≡ some (m, []) =
      lower_bound-set_entry_other m own 0 (a ∷ entry own es) [] es
        (set_entry-IsOrdered m 0 [] s.free_spans h (omega arith)) other
        (lower_bound-set_entry m 0 [] s.free_spans h) in
    rw (mine, deallocate_span, behind, free_span, none_free, unlink)
      (rw (found, allocate_span) refl)
