-- ===== src/Kmalloc.antt =====
-- kern/vm/kmalloc.c: kernel memory, in whole pages or as blocks of a page. A `struct pageref` is its
-- index in `pagerefs`; the lists that start at `sizebases` and `allbase` are lists of such indices,
-- and the list that is threaded through the free blocks of a page is the list of their offsets, so
-- that `freelist_offset` is its first element, or INVALID_OFFSET if it is empty. What the blocks
-- hold is not modelled.
pub mod Sizes
pub mod Pages
pub mod Fresh
pub mod Alloc
pub mod Subpage
pub mod Give
pub mod Free
pub mod Roundtrip
mod Tests
use toy_os.Common.{
  ℕ, zero, suc, ◌+◌, ◌-◌, ◌*◌, ◌/◌, ◌%◌, ◌^◌, Bool, true, false, not, ◌&&◌, Option, none, some,
  List, [], ◌∷◌, Kernel, done, panic, kassert, ◌>>=◌, ◌>>◌, ltb, leb, ◌==◌, if◌then◌else◌, update,
  elem, erase,
}
use toy_os.Coremap.{page_size, u32, Frames, alloc_kpages, free_kpages}

-- `sizes`
abbrev pub nsizes : ℕ
nsizes = 8

abbrev pub sizes : List ℕ
sizes = 16 ∷ 32 ∷ 64 ∷ 128 ∷ 256 ∷ 512 ∷ 1024 ∷ 2048 ∷ []

abbrev pub largest_subpage_size : ℕ
largest_subpage_size = 2048

abbrev pub at : List ℕ → ℕ → ℕ
at [] i = 0
at (x ∷ xs) zero = x
at (x ∷ xs) (suc i) = at xs i

-- `sizes[blktype]`
unfoldable pub size_of : ℕ → ℕ
size_of blktype = at sizes blktype

-- `blocktype`, from the index `i` on.
unfoldable pub blocktype_from : List ℕ → ℕ → ℕ → Kernel ℕ
blocktype_from [] i sz = panic
blocktype_from (x ∷ xs) i sz =
    let rest = blocktype_from xs (i + 1) sz in if leb sz x then done i else rest

unfoldable pub blocktype : ℕ → Kernel ℕ
unfolding blocktype_from
blocktype sz = blocktype_from sizes 0 sz

-- `struct pageref`
pub record PageRef : Type 0 where
  pub pageaddr : ℕ
  pub blktype : ℕ
  pub freelist : List ℕ
  pub nfree : ℕ

abbrev pub npagerefs : ℕ
npagerefs = 256

-- The static variables; `inuse` are the bits of `pagerefs_inuse`.
pub record Kheap : Type 0 where
  pub frames : Frames
  pub inuse : ℕ → Bool
  pub pagerefs : ℕ → PageRef
  pub sizebases : ℕ → List ℕ
  pub allbase : List ℕ

-- `allocpageref`: the first bit that is clear, of `rounds` bits from `i` on.
unfoldable pub clear_bit_from : ℕ → ℕ → (ℕ → Bool) → Option ℕ
clear_bit_from zero i inuse = none
clear_bit_from (suc rounds) i inuse =
    let rest = clear_bit_from rounds (i + 1) inuse in if inuse i then rest else some i

unfoldable pub allocpageref : Kheap → Option ℕ × Kheap
unfolding clear_bit_from
allocpageref h = elim (clear_bit_from npagerefs 0 h.inuse) [
  | none ↦ (none, h)
  | some p ↦ (some p, record h { inuse = update h.inuse p true })
]

-- `freepageref`
unfoldable pub freepageref : ℕ → Kheap → Kernel Kheap
freepageref p h =
    kassert (ltb p npagerefs)
    >> (kassert (h.inuse p) >> done (record h { inuse = update h.inuse p false }))

-- `remove_lists`
unfoldable pub remove_lists : ℕ → ℕ → Kheap → Kernel Kheap
remove_lists pr blk h =
    kassert (ltb blk nsizes)
    >> done (record h {
      sizebases = update h.sizebases blk (erase pr (h.sizebases blk));
      allbase = erase pr h.allbase;
    })

-- `subpage_kmalloc` from `doalloc` on, on the page's record: the block's offset.
unfoldable pub pop_block : PageRef → List ℕ → Kernel (ℕ × PageRef)
pop_block p [] = panic
pop_block p (offset ∷ []) =
    kassert (ltb offset page_size)
    >> (kassert (p.nfree - 1 == 0)
        >> done (offset, record p { freelist = []; nfree = p.nfree - 1 }))
pop_block p (offset ∷ next ∷ rest) =
    kassert (ltb offset page_size)
    >> (kassert (ltb 0 (p.nfree - 1))
        >> (kassert (ltb next page_size)
            >> done (offset, record p { freelist = next ∷ rest; nfree = p.nfree - 1 })))

unfoldable pub take_block : ℕ → Kheap → Kernel (ℕ × Kheap)
take_block pr h = pop_block (h.pagerefs pr) (h.pagerefs pr).freelist >>= λ r.
    done ((h.pagerefs pr).pageaddr + r.0, record h { pagerefs = update h.pagerefs pr r.1 })

-- The loop of `subpage_kmalloc`: the first page of the size that has a free block.
unfoldable pub find_page : ℕ → Kheap → List ℕ → Kernel (Option ℕ)
find_page blk h [] = done none
find_page blk h (pr ∷ prs) =
    let rest = find_page blk h prs in
    kassert ((h.pagerefs pr).blktype == blk)
    >> (if ltb 0 (h.pagerefs pr).nfree then done (some pr) else rest)

-- The free list of a new page: the last of `n` blocks first.
unfoldable pub fresh_list : ℕ → ℕ → List ℕ
fresh_list zero size = []
fresh_list (suc n) size = n * size ∷ fresh_list n size

-- `subpage_kmalloc` where no page of the size has a free block.
unfoldable pub new_page : ℕ → Kheap → Kernel (Option ℕ × Kheap)
new_page blk h =
    let (prpage, frames) = alloc_kpages 1 h.frames in
    let (made, t) = allocpageref (record h { frames = frames }) in
    if prpage == 0 then done (none, record h { frames = frames }) else elim made [
      | none ↦ done (none, record h { frames = free_kpages prpage frames })
      | some pr ↦
          let n = page_size / size_of blk in
          let p : PageRef = record {
            pageaddr = prpage;
            blktype = blk;
            freelist = fresh_list n (size_of blk);
            nfree = n;
          } in
          let u : Kheap = record t {
            pagerefs = update t.pagerefs pr p;
            sizebases = update t.sizebases blk (pr ∷ t.sizebases blk);
            allbase = pr ∷ t.allbase;
          } in
          take_block pr u >>= λ r. done (some r.0, r.1)
    ]

-- `subpage_kmalloc`, with the page that the loop has found.
unfoldable pub kmalloc_on : ℕ → Kheap → Option ℕ → Kernel (Option ℕ × Kheap)
kmalloc_on blk h none = new_page blk h
kmalloc_on blk h (some pr) = take_block pr h >>= λ r. done (some r.0, r.1)

-- `subpage_kmalloc`; `none` is NULL.
unfoldable pub subpage_kmalloc : ℕ → Kheap → Kernel (Option ℕ × Kheap)
subpage_kmalloc sz h =
    blocktype sz >>= λ blk. find_page blk h (h.sizebases blk) >>= kmalloc_on blk h

-- `kmalloc`
unfoldable pub kmalloc : ℕ → Kheap → Kernel (Option ℕ × Kheap)
kmalloc sz h =
    let npages = u32 (sz + page_size - 1) / page_size in
    let (address, frames) = alloc_kpages npages h.frames in
    if leb largest_subpage_size sz
    then done (if address == 0 then none else some address, record h { frames = frames })
    else subpage_kmalloc sz h

-- The loop of `subpage_kfree`: the page that the address lies in.
unfoldable pub page_of : ℕ → Kheap → List ℕ → Kernel (Option ℕ)
page_of ptr h [] = done none
page_of ptr h (pr ∷ prs) =
    let rest = page_of ptr h prs in
    let p = h.pagerefs pr in
    kassert (ltb p.blktype nsizes)
    >> (if leb p.pageaddr ptr && ltb ptr (p.pageaddr + page_size) then done (some pr) else rest)

-- `subpage_kfree` for a pointer into the page of `pr`.
unfoldable pub give_block : ℕ → ℕ → Kheap → Kernel Kheap
give_block pr ptr h =
    let p = h.pagerefs pr in
    let offset = ptr - p.pageaddr in
    let n = page_size / size_of p.blktype in
    let q : PageRef = record p { freelist = offset ∷ p.freelist; nfree = p.nfree + 1 } in
    let t : Kheap = record h { pagerefs = update h.pagerefs pr q } in
    if offset % size_of p.blktype == 0
    then (kassert (leb (p.nfree + 1) n)
        >> (if p.nfree + 1 == n
            then (remove_lists pr p.blktype t >>= λ u. freepageref pr u >>= λ w.
                done (record w { frames = free_kpages p.pageaddr w.frames }))
            else done t))
    else panic

-- `subpage_kfree`: whether the pointer was into one of the pages.
unfoldable pub subpage_kfree : ℕ → Kheap → Kernel (Bool × Kheap)
subpage_kfree ptr h = page_of ptr h h.allbase >>= λ found. elim found [
  | none ↦ done (false, h)
  | some pr ↦ (give_block pr ptr h >>= λ t. done (true, t))
]

-- `kfree`; NULL is 0.
unfoldable pub kfree : ℕ → Kheap → Kernel Kheap
kfree ptr h =
    if ptr == 0
    then done h
    else (subpage_kfree ptr h >>= λ r.
        if r.0
        then done r.1
        else (kassert (ptr % page_size == 0)
            >> done (record (r.1) { frames = free_kpages ptr r.1.frames })))
