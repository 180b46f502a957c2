-- ===== src/MemoryPool/Counts.antt =====
-- The counts of the thread cache and the lengths of its lists.
use cyclone_httpserver.Common.{
  ℕ, ◌+◌, ◌-◌, ◌%◌, ◌≤◌, ◌<◌, ◌≡◌, inl, inr, refl, ap, sym, List, [], ◌∷◌, length, take, drop, ◌==◌,
  leb, ltb, arith, Bool-cases, suc, zero, ◌*◌,
}
use cyclone_httpserver.MemoryPool.{
  word, max_bytes, get_index, round_up, CentralApi, ThreadCache, set_at, Allocated, block, null,
  keep_num, fetch_from_central_cache, allocate_class, return_to_central_cache,
  should_return_to_central_cache, deallocate,
}

-- Every count is the length of its list.
abbrev pub Counted : ThreadCache → Type 0
Counted t = (i : ℕ) → t.counts i ≡ length (t.free_list i)

set_at-Counted :
    (t : ThreadCache) (index n : ℕ) (blocks : List ℕ)
    → Counted t
    → n ≡ length blocks
    → Counted
        (record { free_list = set_at index blocks t.free_list; counts = set_at index n t.counts })
set_at-Counted t index n blocks h e i = elim (Bool-cases (index == i)) [
  | inl k ↦ rw k e
  | inr k ↦ rw k (h i)
]

take-length : (n : ℕ) (l : List ℕ) → n ≤ length l → length (take n l) ≡ n
take-length zero l h = refl
take-length (suc n) [] h = absurd (omega arith)
take-length (suc n) (x ∷ l) h = omega (arith, take-length n l (omega arith))

module _ (central : CentralApi) where
  open central use {State, fetch_range, return_range}

  -- What a call of allocate leaves, by the list and the chain that it finds.
  abbrev pub Left : ℕ → List ℕ → List ℕ → (ThreadCache × State) × Allocated → Type 0
  Left index [] [] r = (r.1 ≡ null) × (r.0.0.free_list index ≡ []) × (r.0.0.counts index ≡ word - 1)
  Left index [] (b ∷ bs) r = (r.1 ≡ block b) × Counted r.0.0
  Left index (b ∷ bs) chain r = (r.1 ≡ block b) × Counted r.0.0

  allocate_listed :
      (index b : ℕ) (bs : List ℕ) (t : ThreadCache) (s : State)
      → Counted t
      → t.free_list index ≡ b ∷ bs
      → length (t.free_list index) < word
      → Left index (b ∷ bs) (fetch_range index s).1 (allocate_class central index t s)
  unfolding allocate_class
  allocate_listed index b bs t s h e l =
      let n : (t.counts index + (word - 1)) % word ≡ length bs =
        omega (arith, h index, ap length e, l) in
      rw (e, allocate_class) (refl, set_at-Counted t index _ bs h n)

  allocate_fetched :
      (index : ℕ) (t : ThreadCache) (s : State)
      → Counted t
      → t.free_list index ≡ []
      → length (fetch_range index s).1 < word
      → Left index [] (fetch_range index s).1 (allocate_class central index t s)
  unfolding allocate_class fetch_from_central_cache
  allocate_fetched index t s h e l = rw (e, allocate_class) (go (fetch_range index s).1 l)
    where
      t' : ThreadCache
      t' = record t { counts = set_at index ((t.counts index + (word - 1)) % word) t.counts }

      wrapped : t'.counts index ≡ word - 1
      wrapped = ground (arith, h index, ap length e)

      go :
          (chain : List ℕ)
          → length chain < word
          → Left index [] chain (elim chain [
            | [] ↦ ((t', (fetch_range index s).0), null)
            | start ∷ rest ↦ (
              (
                record {
                  free_list = set_at index rest t'.free_list;
                  counts =
                      set_at index ((t'.counts index + length (start ∷ rest)) % word) t'.counts;
                },
                (fetch_range index s).0,
              ),
              block start,
            )
          ])
      go [] k = (refl, e, wrapped)
      go (b ∷ bs) k = (
        refl,
        λ i. elim (Bool-cases (index == i)) [
          | inl q ↦ rw q (omega (arith, wrapped, k))
          | inr q ↦ rw q (h i)
        ],
      )

  -- Where every count is the length of its list, and the list and the chain that the central cache
  -- would give are shorter than 2 ^ 64 blocks: a call of allocate for a size class returns the first block
  -- of the list, or of the chain if the list is empty, and leaves every count the length of its list; if
  -- the list and the chain are empty, it returns a null pointer and leaves the list of the class empty
  -- and its count at 2 ^ 64 - 1.
  pub allocate_class-Left :
      (index : ℕ) (t : ThreadCache) (s : State)
      → Counted t
      → length (t.free_list index) < word
      → length (fetch_range index s).1 < word
      → Left index (t.free_list index) (fetch_range index s).1 (allocate_class central index t s)
  allocate_class-Left index t s h l k = go (t.free_list index) refl
    where
      go :
          (blocks : List ℕ)
          → t.free_list index ≡ blocks
          → Left index blocks (fetch_range index s).1 (allocate_class central index t s)
      go [] e = allocate_fetched index t s h e k
      go (b ∷ bs) e = allocate_listed index b bs t s h e l

  -- Whether or not there is a rest to return.
  either :
      (rest : List ℕ) (t : ThreadCache) (index keep : ℕ) (kept : List ℕ)
      → Counted (record {
        free_list = set_at index kept t.free_list;
        counts = set_at index keep t.counts;
      })
      → (s : State) (next : List ℕ → State)
      → Counted
          (elim rest as (λ x. ThreadCache × State) [
            | [] ↦ (
              record {
                free_list = set_at index kept t.free_list;
                counts = set_at index keep t.counts;
              },
              s,
            )
            | b ∷ bs ↦ (
              record {
                free_list = set_at index kept t.free_list;
                counts = set_at index keep t.counts;
              },
              next (b ∷ bs),
            )
          ]).0
  either [] t index keep kept h s next = h
  either (b ∷ bs) t index keep kept h s next = h

  return-Counted :
      (size : ℕ) (t : ThreadCache) (s : State)
      → Counted t
      → length (t.free_list (get_index size)) < word
      → Counted (return_to_central_cache central (t.free_list (get_index size)) size t s).0
  unfolding return_to_central_cache
  return-Counted size t s h l =
      let index = get_index size in
      let keep = keep_num (t.counts index) in
      elim (Bool-cases (leb (t.counts index) 1)) [
        | inl a ↦ rw (a, return_to_central_cache) h
        | inr a ↦ elim (Bool-cases (ltb (length (t.free_list index)) keep)) [
          | inl b ↦ rw (a, return_to_central_cache) (rw (b, return_to_central_cache) h)
          | inr b ↦
              rw (a, return_to_central_cache)
                (rw (b, return_to_central_cache)
                  (either (drop keep (t.free_list index)) t index keep
                    (take keep (t.free_list index))
                    (set_at-Counted t index keep (take keep (t.free_list index)) h
                      (sym (take-length keep (t.free_list index) (ground (arith, b)))))
                    s
                    (λ c. return_range c ((t.counts index - keep) * round_up size % word) index s)))
        ]
      ]

  -- Where every count is the length of its list, deallocate of a list that is shorter than 2 ^ 64 - 1
  -- blocks, and of memory of malloc, leaves every count the length of its list.
  pub deallocate-Counted :
      (ptr size : ℕ) (t : ThreadCache) (s : State)
      → Counted t
      → length (t.free_list (get_index size)) + 1 < word
      → Counted (deallocate central ptr size t s).0
  unfolding deallocate
  deallocate-Counted ptr size t s h l =
      let index = get_index size in
      let t' : ThreadCache = record {
        free_list = set_at index (ptr ∷ t.free_list index) t.free_list;
        counts = set_at index ((t.counts index + 1) % word) t.counts;
      } in
      let c : Counted t' =
        set_at-Counted t index ((t.counts index + 1) % word) (ptr ∷ t.free_list index) h
          (omega (arith, h index, l)) in
      let k : length (t'.free_list index) < word = ground (arith, l) in
      elim (Bool-cases (ltb max_bytes size)) [
        | inl a ↦ rw (a, deallocate) h
        | inr a ↦ elim (Bool-cases (should_return_to_central_cache index t')) [
          | inl b ↦ rw (a, deallocate) (rw (b, deallocate) (return-Counted size t' s c k))
          | inr b ↦ rw (a, deallocate) (rw (b, deallocate) c)
        ]
      ]
