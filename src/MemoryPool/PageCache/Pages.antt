-- ===== src/MemoryPool/PageCache/Pages.antt =====
-- The pages that a map of free spans covers, and what the calls on such a map do to them.
use cyclone_httpserver.Common.{
  ℕ, suc, ◌+◌, ◌-◌, ◌*◌, ◌≡◌, ◌≤◌, ◌<◌, refl, ◌&&◌, List, [], ◌∷◌, if◌then◌else◌, ◌==◌, leb, ltb,
  arith, Bool-cases, inl, inr,
}
use cyclone_httpserver.MemoryPool.PageCache.{
  page_size, Entries, entry, set_entry, erase_entry, unlink,
}

-- Whether a span of `n` pages from `a` holds an address, as a count.
abbrev pub holds : ℕ → ℕ → ℕ → ℕ
holds x a n = if leb a x && ltb x (a + n * page_size) then 1 else 0

abbrev pub list_covers : ℕ → ℕ → List ℕ → ℕ
list_covers x n [] = 0
list_covers x n (a ∷ spans) = holds x a n + list_covers x n spans

-- The number of free spans that hold an address.
abbrev pub covers : ℕ → Entries → ℕ
covers x [] = 0
covers x ((n, spans) ∷ es) = list_covers x n spans + covers x es

-- The keys are in order and from `lo` on.
abbrev pub IsOrdered : ℕ → Entries → Type 0
IsOrdered lo [] = Unit
IsOrdered lo ((j, m) ∷ es) = (lo ≤ j) × IsOrdered (suc j) es

pub entry_below : (k lo : ℕ) (es : Entries) → IsOrdered lo es → k < lo → entry k es ≡ []
entry_below k lo [] h lt = refl
entry_below k lo ((j, m) ∷ es) h lt = ground (arith, entry_below k (suc j) es)

pub IsOrdered-from : (lo lo' : ℕ) (es : Entries) → IsOrdered lo es → lo' ≤ lo → IsOrdered lo' es
IsOrdered-from lo lo' [] h le = tt
IsOrdered-from lo lo' ((j, m) ∷ es) h le = (omega arith, h.1)

pub set_entry-IsOrdered :
    (k lo : ℕ) (l : List ℕ) (es : Entries)
    → IsOrdered lo es
    → lo ≤ k
    → IsOrdered lo (set_entry k l es)
set_entry-IsOrdered k lo l [] h le = (le, tt)
set_entry-IsOrdered k lo l ((j, m) ∷ es) h le = elim (Bool-cases (j == k)) [
  | inl e ↦ rw e (le, ground (arith, IsOrdered-from (suc j) (suc k) es h.1))
  | inr e ↦ elim (Bool-cases (ltb k j)) [
    | inl f ↦ rw (e, f) (le, (ground arith, h.1))
    | inr f ↦ rw (e, f) (h.0, set_entry-IsOrdered k (suc j) l es h.1 (ground arith))
  ]
]

pub erase_entry-IsOrdered :
    (k lo : ℕ) (es : Entries) → IsOrdered lo es → IsOrdered lo (erase_entry k es)
erase_entry-IsOrdered k lo [] h = tt
erase_entry-IsOrdered k lo ((j, m) ∷ es) h = elim (Bool-cases (j == k)) [
  | inl e ↦ rw e (IsOrdered-from (suc j) lo es h.1 (omega arith))
  | inr e ↦ rw e (h.0, erase_entry-IsOrdered k (suc j) es h.1)
]

module _ (x : ℕ) where
  pub covers-set_entry :
      (k lo : ℕ) (l : List ℕ) (es : Entries)
      → IsOrdered lo es
      → covers x (set_entry k l es) + list_covers x k (entry k es) ≡ covers x es + list_covers x k l
  covers-set_entry k lo l [] h = omega arith
  covers-set_entry k lo l ((j, m) ∷ es) h = elim (Bool-cases (j == k)) [
    | inl e ↦ let z : j ≡ k = ground arith in rw e (rw z (omega arith))
    | inr e ↦ elim (Bool-cases (ltb k j)) [
      | inl f ↦
          let z : entry k es ≡ [] = entry_below k (suc j) es h.1 (ground arith) in
          rw (e, f) (rw z (omega arith))
      | inr f ↦ rw (e, f) (omega (arith, covers-set_entry k (suc j) l es h.1))
    ]
  ]

  pub covers-erase_entry :
      (k : ℕ) (es : Entries)
      → covers x (erase_entry k es) + list_covers x k (entry k es) ≡ covers x es
  covers-erase_entry k [] = omega arith
  covers-erase_entry k ((j, m) ∷ es) = elim (Bool-cases (j == k)) [
    | inl e ↦ let z : j ≡ k = ground arith in rw e (rw z (omega arith))
    | inr e ↦ rw e (omega (arith, covers-erase_entry k es))
  ]

  pub holds_split :
      (a n k : ℕ) → n ≤ k → holds x a k ≡ holds x a n + holds x (a + n * page_size) (k - n)
  holds_split a n k le = ground arith

  pub unlink_covers :
      (a n : ℕ) (spans : List ℕ)
      → list_covers x n spans
        ≡ list_covers x n (unlink a spans).0 + (if (unlink a spans).1 then holds x a n else 0)
  unfolding unlink
  unlink_covers a n [] = refl
  unlink_covers a n (b ∷ bs) = elim (Bool-cases (b == a)) [
    | inl e ↦ let z : b ≡ a = ground arith in rw e (rw z (omega arith))
    | inr e ↦ rw e (omega (arith, unlink_covers a n bs))
  ]
