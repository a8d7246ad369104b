-- ===== src/Kmalloc/Sizes.antt =====
-- The block sizes of kern/vm/kmalloc.c.
use toy_os.Common.{
  ℕ, zero, suc, ◌+◌, ◌*◌, ◌/◌, ◌≤◌, ◌<◌, ◌≡◌, refl, ap, length, ◌∙◌, inl, inr, true, List, [], ◌∷◌,
  done, arith, Bool-cases, leb,
}
use toy_os.Coremap.{page_size}
use toy_os.Kmalloc.{nsizes, at, sizes, size_of, largest_subpage_size, blocktype_from, blocktype}

-- Each size divides the page, with at least two blocks.
pub size_of-divides :
    (b : ℕ)
    → b < nsizes
    → (16 ≤ size_of b)
      × (2 ≤ page_size / size_of b)
      × (page_size / size_of b * size_of b ≡ page_size)
unfolding size_of
size_of-divides zero h = (omega arith, omega arith, refl)
size_of-divides (suc zero) h = (omega arith, omega arith, refl)
size_of-divides (suc (suc zero)) h = (omega arith, omega arith, refl)
size_of-divides (suc (suc (suc zero))) h = (omega arith, omega arith, refl)
size_of-divides (suc (suc (suc (suc zero)))) h = (omega arith, omega arith, refl)
size_of-divides (suc (suc (suc (suc (suc zero))))) h = (omega arith, omega arith, refl)
size_of-divides (suc (suc (suc (suc (suc (suc zero)))))) h = (omega arith, omega arith, refl)
size_of-divides (suc (suc (suc (suc (suc (suc (suc zero))))))) h = (omega arith, omega arith, refl)
size_of-divides (suc (suc (suc (suc (suc (suc (suc (suc n)))))))) h = absurd (omega arith)

at_below :
    (x : ℕ) (xs : List ℕ) (k sz : ℕ)
    → x < sz
    → ((c : ℕ) → c < k → at xs c < sz)
    → (c : ℕ) → c < suc k
    → at (x ∷ xs) c < sz
at_below x xs k sz first rest zero h = first
at_below x xs k sz first rest (suc c) h = rest c (omega arith)

blocktype_from-at :
    (xs : List ℕ) (i sz j : ℕ)
    → j < length xs
    → sz ≤ at xs j
    → (k : ℕ) × (blocktype_from xs i sz ≡ done (i + k))
      × (k < length xs)
      × (sz ≤ at xs k)
      × ((c : ℕ) → c < k → at xs c < sz)
unfolding blocktype_from
blocktype_from-at [] i sz j lt le = absurd (omega arith)
blocktype_from-at (x ∷ xs) i sz zero lt le =
    let fits : leb sz x ≡ true = ground arith in
    (0, rw fits (ap done (omega arith)), omega arith, le, λ c h. absurd (omega arith))
blocktype_from-at (x ∷ xs) i sz (suc j) lt le =
    let (k, e, kl, ke, below) = blocktype_from-at xs (i + 1) sz j (omega arith) le in
    elim (Bool-cases (leb sz x)) [
      | inl fits ↦ (
        0,
        rw fits (ap done (omega arith)),
        omega arith,
        ground arith,
        λ c h. absurd (omega arith),
      )
      | inr small ↦ (
        suc k,
        rw (small, e) (ap done (omega arith)),
        omega arith,
        ke,
        at_below x xs k sz (ground arith) below,
      )
    ]

-- `blocktype` finds the smallest size that is large enough.
pub blocktype-size_of :
    (sz : ℕ)
    → sz ≤ largest_subpage_size
    → (b : ℕ) × (blocktype sz ≡ done b)
      × (b < nsizes)
      × (sz ≤ size_of b)
      × ((c : ℕ) → c < b → size_of c < sz)
unfolding blocktype size_of
blocktype-size_of sz h =
    let (k, e, lt, le, below) = blocktype_from-at sizes 0 sz 7 (omega arith) h in
    (k, e ∙ ap done (omega arith), lt, le, below)
