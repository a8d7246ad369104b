-- ===== src/Kmalloc/Roundtrip.antt =====
-- `kmalloc` and `kfree` of kern/vm/kmalloc.c, one after the other.
use toy_os.Common.{
  refl, ◌*◌, ℕ, ◌+◌, ◌-◌, ◌/◌, ◌^◌, ◌≤◌, ◌<◌, ◌≡◌, ◌≢◌, sym, subst, ◌↔◌, ◌∙◌, ◌⊎◌, inl, inr, false,
  Option, none, some, Kernel, done, arith, Bool-cases, leb, ◌==◌, if◌then◌else◌, ℕ_discrete,
}
use toy_os.Coremap.Granted.{IsFull, alloc_kpages-Grants}
use toy_os.Coremap.{kseg0, page_size, u32, Frames, alloc_kpages}
use toy_os.Coremap.Blocks
use toy_os.Coremap.Kpages.{Grants, Keeps, alloc_kpages-Keeps}
use toy_os.Kmalloc.{largest_subpage_size, Kheap, subpage_kmalloc, kmalloc, kfree}
use toy_os.Kmalloc.Pages.{IsValid, IsValid-Keeps, Busy}
use toy_os.Kmalloc.Alloc.{Allocates}
use toy_os.Kmalloc.Subpage.{Allocs, no_memory, block, subpage_kmalloc-Allocs}
use toy_os.Kmalloc.Free.{Frees, kfree-Frees}

-- The pages of an allocation of `sz` bytes: the fewest that hold them, in a block of frames that
-- were free, or NULL where there is no run of as many free frames.
pub data GivesPages (sz : ℕ) (s : Frames) (address : Option ℕ) (t : Frames) : Type 0 where
  no_pages :
      (npages : ℕ)
      → sz ≤ npages * page_size
      → npages * page_size < sz + page_size
      → IsFull npages s
      → address ≡ none
      → t ≡ s
      → GivesPages sz s address t
  whole_pages :
      (npages pa : ℕ)
      → sz ≤ npages * page_size
      → npages * page_size < sz + page_size
      → address ≡ some (pa + kseg0)
      → Grants npages s pa t
      → GivesPages sz s address t

-- How `kmalloc` ends: as a block, or in whole pages beside those of the heap.
pub data Mallocs (sz : ℕ) (h : Kheap) (r : Kernel (Option ℕ × Kheap)) : Type 0 where
  as_block : sz < largest_subpage_size → Allocs sz h r → Mallocs sz h r
  as_pages :
      (address : Option ℕ) (frames : Frames)
      → largest_subpage_size ≤ sz
      → r ≡ done (address, record h { frames = frames })
      → GivesPages sz h.frames address frames
      → Keeps h.frames frames
      → IsValid (record h { frames = frames })
      → Mallocs sz h r

given-GivesPages :
    (sz : ℕ) (s : Frames)
    → sz < 2 ^ 31
    → 0 < sz
    → Blocks.IsValid s
    → (let given = alloc_kpages (u32 (sz + page_size - 1) / page_size) s in
        GivesPages sz s (if given.0 == 0 then none else some given.0) given.1)
given-GivesPages sz s small some_bytes v =
    let n = u32 (sz + page_size - 1) / page_size in
    let holds : sz ≤ n * page_size = omega arith in
    let fewest : n * page_size < sz + page_size = omega arith in
    elim (alloc_kpages-Grants n s (omega arith) v) [
      | inl (e, full) ↦ rw e (no_pages n holds fewest full refl refl)
      | inr (pa, t, e, g) ↦
          let nonzero : (pa + kseg0 == 0) ≡ false = ground arith in
          rw (e, nonzero) (whole_pages n pa holds fewest refl g)
    ]

-- `kmalloc` of less than 2^31 bytes fails no KASSERT. Below 2048 bytes it gives NULL and changes
-- nothing, or a block that is large enough and was not in use, and no other block changes; from
-- 2048 bytes on it takes the fewest whole pages that hold them, in frames that were free and lie in
-- a row, or gives NULL where there is no such run; the blocks and every page that was in use are
-- kept.
pub kmalloc-Mallocs : (sz : ℕ) (h : Kheap) → IsValid h → sz < 2 ^ 31 → Mallocs sz h (kmalloc sz h)
unfolding kmalloc
kmalloc-Mallocs sz h v small = elim (Bool-cases (leb largest_subpage_size sz)) [
  | inl large ↦
      let keeps =
        alloc_kpages-Keeps (u32 (sz + page_size - 1) / page_size) h.frames (ground arith)
          v.frames_valid in
      let given = alloc_kpages (u32 (sz + page_size - 1) / page_size) h.frames in
      as_pages (if given.0 == 0 then none else some given.0) given.1 (ground arith) (rw large)
        (given-GivesPages sz h.frames small (ground arith) v.frames_valid) keeps
        (IsValid-Keeps h _ v keeps)
  | inr block_size ↦
      as_block (ground arith) (rw block_size (subpage_kmalloc-Allocs sz h v (ground arith)))
]

-- A block in use is not one that is not.
apart : (r x : ℕ) (h : Kheap) (pr o : ℕ) → ¬ Busy h pr o → Busy h r x → (r ≢ pr) ⊎ (x ≢ o)
apart r x h pr o idle b = elim (ℕ_discrete r pr) [
  | no other ↦ inl other
  | yes page ↦ inr (λ block. idle (subst (λ k. Busy h k o) page (subst (λ k. Busy h r k) block b)))
]

kmalloc-subpage_kmalloc :
    (sz : ℕ) (h : Kheap) → sz < largest_subpage_size → kmalloc sz h ≡ subpage_kmalloc sz h
unfolding kmalloc
kmalloc-subpage_kmalloc sz h small =
    let block_size : leb largest_subpage_size sz ≡ false = ground arith in rw block_size

-- What `kfree` of a block that has just been given leaves in use.
undone :
    {h s u : Kheap} {pr o : ℕ}
    → Allocates h s pr o
    → Frees s u pr o
    → (r x : ℕ) → Busy h r x ↔ Busy u r x
undone {h} {s} {u} {pr} {o} a f r x = (
  λ c. (f.kept r x (a.kept r x c).0 (apart r x h pr o a.was_idle c)).0,
  λ c. elim (a.only r x (f.only r x c)) [
    | inl old ↦ old
    | inr (e1, e2) ↦ absurd (f.idle (subst (λ k. Busy u k o) e1 (subst (λ k. Busy u r k) e2 c)))
  ],
)

abbrev Outcome : Type 0
Outcome = Kernel (Option ℕ × Kheap)

no_block : {b : ℕ} {s t : Kheap} → ◌≢◌ {A = Outcome} (done (none, s)) (done (some b, t))
no_block e = cc

given_block :
    {a b : ℕ} {s t : Kheap}
    → ◌≡◌ {A = Outcome} (done (some a, s)) (done (some b, t))
    → (a ≡ b) × (s ≡ t)
given_block e = (cc, cc)

-- A block that `kmalloc` has given, `kfree` takes back with no failed KASSERT: the blocks in use are
-- then those of before.
pub kfree-kmalloc :
    (sz ptr : ℕ) (h t : Kheap)
    → IsValid h
    → sz < largest_subpage_size
    → kmalloc sz h ≡ done (some ptr, t)
    → (u : Kheap) × (kfree ptr t ≡ done u) × IsValid u × ((r x : ℕ) → Busy h r x ↔ Busy u r x)
kfree-kmalloc sz ptr h t v small e =
    let run = sym (kmalloc-subpage_kmalloc sz h small) ∙ e in
    elim (subpage_kmalloc-Allocs sz h v (omega arith)) [
      | no_memory failed ↦ absurd (no_block (sym failed ∙ run))
      | block pr o s ends fits a ↦
          let (at, same) = given_block (sym ends ∙ run) in
          let (u, freed, f) = kfree-Frees s pr o a.valid a.busy.0 a.busy.1 in
          (
            u,
            subst (λ k. kfree ptr k ≡ done u) same (subst (λ k. kfree k s ≡ done u) at freed),
            f.valid,
            undone a f,
          )
    ]
