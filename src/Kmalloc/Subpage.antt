-- ===== src/Kmalloc/Subpage.antt =====
-- `subpage_kmalloc` and `kmalloc` of kern/vm/kmalloc.c: how they end.
use toy_os.Common.{
  ℕ, ◌+◌, ◌/◌, ◌≤◌, ◌<◌, ◌≡◌, refl, sym, subst, ap, ◌∙◌, ◌⊎◌, inl, inr, true, false, Option, none,
  some, List, [], ◌∷◌, Kernel, done, arith, Bool-cases, Option-cases, ltb, ◌==◌, update, elem,
  length, elem-cons, ==_self, update_self,
}
use toy_os.Coremap.{page_size, Frames, alloc_kpages}
use toy_os.Coremap.Kpages.{alloc_kpages-Keeps, alloc_kpages-cases, free_kpages-alloc_kpages}
use toy_os.Kmalloc.{
  nsizes, npagerefs, largest_subpage_size, size_of, PageRef, Kheap, allocpageref, clear_bit_from,
  find_page, kmalloc_on, new_page, subpage_kmalloc,
}
use toy_os.Kmalloc.Sizes.{size_of-divides, blocktype-size_of}
use toy_os.Kmalloc.Pages.{IsValid, Busy}
use toy_os.Kmalloc.Fresh.{
  clear_bit_from-some, fresh_list-cons, fresh_page, with_page, with_page-IsValid, with_page-kept,
  with_page-only,
}
use toy_os.Kmalloc.Alloc.{Allocates, take_block-Allocates}

-- How an allocation of `sz` bytes as a block ends: NULL, with nothing changed, or a block of a page
-- that is large enough.
pub data Allocs (sz : ℕ) (h : Kheap) (r : Kernel (Option ℕ × Kheap)) : Type 0 where
  no_memory : r ≡ done (none, h) → Allocs sz h r
  block :
      (pr o : ℕ) (t : Kheap)
      → r ≡ done (some ((t.pagerefs pr).pageaddr + o), t)
      → sz ≤ size_of (t.pagerefs pr).blktype
      → Allocates h t pr o
      → Allocs sz h r

-- An allocation in the heap with a new page is one in the heap of before.
Allocates-with_page :
    {h u t : Kheap} {pr o : ℕ}
    → ((r x : ℕ)
        → Busy h r x
        → Busy u r x
          × ((u.pagerefs r).pageaddr ≡ (h.pagerefs r).pageaddr)
          × ((u.pagerefs r).blktype ≡ (h.pagerefs r).blktype))
    → ((r x : ℕ) → Busy u r x → Busy h r x)
    → Allocates u t pr o
    → Allocates h t pr o
Allocates-with_page kept only a = record {
  busy = a.busy;
  was_idle = λ b. a.was_idle (kept _ _ b).0;
  kept = λ r x b.
      let (b1, addr1, type1) = kept r x b in
      let (b2, addr2, type2) = a.kept r x b1 in (b2, addr2 ∙ addr1, type2 ∙ type1);
  only = λ r x b. elim (a.only r x b) [ inl old ↦ inl (only r x old) | inr new ↦ inr new ];
  valid = a.valid;
}

allocpageref-some :
    (h : Kheap) (pr : ℕ)
    → clear_bit_from npagerefs 0 h.inuse ≡ some pr
    → allocpageref h ≡ (some pr, record h { inuse = update h.inuse pr true })
unfolding allocpageref
allocpageref-some h pr e = rw (allocpageref, e)

allocpageref-none :
    (h : Kheap) → clear_bit_from npagerefs 0 h.inuse ≡ none → allocpageref h ≡ (none, h)
unfolding allocpageref
allocpageref-none h e = rw (allocpageref, e)

new_page-Allocs :
    (sz blk : ℕ) (h : Kheap)
    → IsValid h
    → blk < nsizes
    → sz ≤ size_of blk
    → Allocs sz h (new_page blk h)
unfolding new_page
new_page-Allocs sz blk h v known fits =
    let f = (alloc_kpages 1 h.frames).1 in
    let addr = (alloc_kpages 1 h.frames).0 in
    elim (alloc_kpages-cases h.frames v.frames_valid) [
      | inl (failed, same) ↦
          no_memory (rw failed (ap (λ (g : Frames). done (none, record h { frames = g })) same))
      | inr (ok, new) ↦
          let there : (addr == 0) ≡ false = ground arith in
          elim (Option-cases (clear_bit_from npagerefs 0 h.inuse)) [
            | inl full ↦ no_memory (
                rw (there, allocpageref-none (record h { frames = f }) full)
                  (ap (λ (g : Frames). done (none, record h { frames = g }))
                    (free_kpages-alloc_kpages 1 h.frames (omega arith) v.frames_valid ok)))
            | inr (pr, clear) ↦
                let (small, free) = clear_bit_from-some npagerefs 0 h.inuse clear in
                let made = allocpageref-some (record h { frames = f }) pr clear in
                let keeps = alloc_kpages-Keeps 1 h.frames (omega arith) v.frames_valid in
                let (big, two, whole) = size_of-divides blk known in
                let (o, rest, e) =
                  fresh_list-cons (page_size / size_of blk) (size_of blk) (omega arith) in
                let u = with_page h f pr addr blk in
                let valid =
                  with_page-IsValid h f pr addr blk v known keeps (omega arith) free new in
                let own : u.pagerefs pr ≡ fresh_page addr blk =
                  update_self h.pagerefs pr (fresh_page addr blk) in
                let (t, run, a, type) =
                  take_block-Allocates pr o rest u valid (rw (==_self pr))
                    (ap (λ (p : PageRef). p.freelist) own ∙ e) in
                block pr o t (rw (there, made, made, run))
                  (subst (λ b. sz ≤ size_of b) (sym (type ∙ ap (λ (p : PageRef). p.blktype) own))
                    fits)
                  (Allocates-with_page
                    (with_page-kept h f pr addr blk v known keeps (omega arith) free new)
                    (with_page-only h f pr addr blk v known keeps (omega arith) free new) a)
          ]
    ]

-- The loop finds a page of its list with a free block, or there is none.
find_page-cases :
    (blk : ℕ) (h : Kheap) (prs : List ℕ)
    → ((r : ℕ) → elem r prs ≡ true → (h.pagerefs r).blktype ≡ blk)
    → (find_page blk h prs ≡ done none)
      ⊎ ((pr : ℕ) × (find_page blk h prs ≡ done (some pr))
          × (elem pr prs ≡ true)
          × (0 < (h.pagerefs pr).nfree))
unfolding find_page
find_page-cases blk h [] size = inl refl
find_page-cases blk h (p ∷ prs) size =
    let typed = size p (rw (==_self p)) in
    let same : ((h.pagerefs p).blktype == blk) ≡ true = ground arith in
    elim (Bool-cases (ltb 0 (h.pagerefs p).nfree)) [
      | inl free ↦ inr (p, rw (same, free), rw (==_self p), ground arith)
      | inr full ↦ elim (find_page-cases blk h prs (λ r m. size r (elem-cons r p prs m))) [
        | inl e ↦ inl (rw (same, full, e))
        | inr (pr, e, m, free) ↦ inr (pr, rw (same, full, e), elem-cons pr p prs m, free)
      ]
    ]

free_cons : (xs : List ℕ) → 0 < length xs → (o : ℕ) × (rest : List ℕ) × (xs ≡ o ∷ rest)
free_cons [] h = absurd (omega arith)
free_cons (x ∷ xs) h = (x, xs, refl)

kmalloc_on-Allocs :
    (sz blk pr : ℕ) (h : Kheap)
    → IsValid h
    → sz ≤ size_of blk
    → elem pr (h.sizebases blk) ≡ true
    → 0 < (h.pagerefs pr).nfree
    → Allocs sz h (kmalloc_on blk h (some pr))
unfolding kmalloc_on
kmalloc_on-Allocs sz blk pr h v fits m free =
    let (listed, sized) = v.sized blk pr m in
    let (o, rest, e) =
      free_cons (h.pagerefs pr).freelist (omega (arith, (v.pages pr listed).counted, free)) in
    let (t, run, a, type) = take_block-Allocates pr o rest h v listed e in
    block pr o t (rw run) (subst (λ b. sz ≤ size_of b) (sym (type ∙ sized)) fits) a

-- `subpage_kmalloc` of a size that fits into a block fails no KASSERT. It gives NULL and changes
-- nothing, or a block that is large enough and was not in use; every block that was in use still is,
-- where it was, no other block is in use, and the heap stays well formed.
pub subpage_kmalloc-Allocs :
    (sz : ℕ) (h : Kheap)
    → IsValid h
    → sz ≤ largest_subpage_size
    → Allocs sz h (subpage_kmalloc sz h)
unfolding subpage_kmalloc kmalloc_on
subpage_kmalloc-Allocs sz h v small =
    let (blk, e, known, fits, least) = blocktype-size_of sz small in
    elim (find_page-cases blk h (h.sizebases blk) (λ r m. (v.sized blk r m).1)) [
      | inl nothing ↦ rw (e, nothing) (new_page-Allocs sz blk h v known fits)
      | inr (pr, found, m, free) ↦ rw (e, found) (kmalloc_on-Allocs sz blk pr h v fits m free)
    ]
