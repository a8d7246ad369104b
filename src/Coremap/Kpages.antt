-- ===== src/Coremap/Kpages.antt =====
-- `alloc_kpages` and `free_kpages` of kern/arch/mips/vm/dumbvm.c, once the core map is up: blocks
-- of frames handed out and taken back.
use toy_os.Common.{
  ℕ, ◌+◌, ◌-◌, ◌^◌, ◌≤◌, ◌<◌, ◌≡◌, ◌≢◌, refl, ◌⊎◌, inl, inr, Bool-cases, fun_ext, ◌∙◌, arith, ◌==◌,
  fill, fill_lem, ap,
}
use toy_os.Coremap.{
  kseg0, u32, Entry, free_entry, Frames, take_run, coremap_alloc, coremap_dealloc, getppages,
  alloc_kpages, free_kpages,
}
use toy_os.Coremap.Scan.{AllFree}
use toy_os.Coremap.Blocks.{
  IsValid, frame_addr, IsBlock, Allocated, exhausted, taken, coremap_alloc-Allocated, Apart,
  take_run_lem, take_run-IsValid, take_run-IsBlock, take_run-Apart, coremap_dealloc-block,
  coremap_dealloc-IsValid, coremap_dealloc-IsBlock,
}

-- What a successful allocation of `n` frames has done: the block at `pa` was free, is clear of the
-- core map's own pages and within RAM, is now a block, and every block of before is apart from it
-- and still there.
pub record Grants (n : ℕ) (s : Frames) (pa : ℕ) (t : Frames) : Type 0 where
  pub start : ℕ
  pub address : pa ≡ frame_addr s start
  pub above_own : s.num_of_coremap_pages ≤ start
  pub within : start + n ≤ s.num_of_pages
  pub was_free : AllFree s.coremap start (start + n)
  pub block : IsBlock t.coremap start n
  pub others : (b m : ℕ) → IsBlock s.coremap b m → Apart start n b m × IsBlock t.coremap b m
  pub valid : IsValid t
  pub restored : coremap_dealloc pa t ≡ s

fill-take_run :
    (n start : ℕ) (s : Frames)
    → 0 < n
    → IsValid s
    → start + n ≤ s.num_of_pages
    → AllFree s.coremap start (start + n)
    → fill n start free_entry (take_run n start s.coremap) ≡ s.coremap
fill-take_run n start s pos v hi free = fun_ext λ k.
    fill_lem n start free_entry (take_run n start s.coremap) k
    ∙ ground (arith, take_run_lem n start s.coremap k pos, free k, v.clean k)

Allocated-Grants :
    {n : ℕ} {s : Frames} {r : ℕ × Frames}
    → 0 < n
    → IsValid s
    → Allocated n s r
    → r.0 ≢ 0
    → Grants n s r.0 r.1
Allocated-Grants pos v (exhausted none_left) ne = absurd (omega arith)
Allocated-Grants {n} {s} pos v (taken start lo hi free first) ne =
    let t : Frames = record s { coremap = take_run n start s.coremap } in
    let valid : IsValid t = take_run-IsValid n start s v pos hi lo in
    let block : IsBlock t.coremap start n = take_run-IsBlock n start s v pos in
    record {
      start = start;
      address = refl;
      above_own = lo;
      within = hi;
      was_free = free;
      block = block;
      others = λ b m other. take_run-Apart n start s v pos b m free other;
      valid = valid;
      restored =
          coremap_dealloc-block start n t valid hi block
          ∙ ap (λ (cm : ℕ → Entry). record s { coremap = cm })
              (fill-take_run n start s pos v hi free);
    }

-- A nonzero answer of `coremap_alloc` grants a block, and `coremap_dealloc` of it gives the old
-- state back.
pub coremap_alloc-Grants :
    (n : ℕ) (s : Frames)
    → 0 < n
    → IsValid s
    → (coremap_alloc n s).0 ≢ 0
    → Grants n s (coremap_alloc n s).0 (coremap_alloc n s).1
coremap_alloc-Grants n s pos v ne = Allocated-Grants pos v (coremap_alloc-Allocated n s pos v) ne

pub getppages-booted : (n : ℕ) (s : Frames) → IsValid s → getppages n s ≡ coremap_alloc n s
unfolding getppages
getppages-booted n s v = ground (arith, v.booted)

-- The kernel address of a granted block leads back to its physical address.
kseg0_back :
    {n : ℕ} {s t : Frames} {pa : ℕ}
    → IsValid s
    → Grants n s pa t
    → u32 (u32 (pa + kseg0) + 2 ^ 32 - kseg0) ≡ pa
kseg0_back v g = omega (arith, v.fits, g.address, g.within)

-- Pages that `alloc_kpages` hands out, `free_kpages` takes back: the state is the one of before.
pub free_kpages-alloc_kpages :
    (n : ℕ) (s : Frames)
    → 0 < n
    → IsValid s
    → (alloc_kpages n s).0 ≢ 0
    → free_kpages (alloc_kpages n s).0 (alloc_kpages n s).1 ≡ s
unfolding alloc_kpages free_kpages
free_kpages-alloc_kpages n s pos v ne = elim (Bool-cases ((coremap_alloc n s).0 == 0)) [
  | inl failed ↦ absurd (ne (rw (alloc_kpages, getppages-booted n s v, failed)))
  | inr granted ↦
      let g : Grants n s (coremap_alloc n s).0 (coremap_alloc n s).1 =
        coremap_alloc-Grants n s pos v (ground arith) in
      rw (free_kpages, alloc_kpages, getppages-booted n s v, granted, kseg0_back v g) g.restored
]

-- The core map stays valid and keeps its blocks.
pub record Keeps (s t : Frames) : Type 0 where
  pub valid : IsValid t
  pub blocks : (b m : ℕ) → IsBlock s.coremap b m → IsBlock t.coremap b m
  pub same_base : t.firstaddr ≡ s.firstaddr
  pub same_own : t.num_of_coremap_pages ≡ s.num_of_coremap_pages
  pub same_pages : t.num_of_pages ≡ s.num_of_pages

pub Keeps-refl : (s : Frames) → IsValid s → Keeps s s
Keeps-refl s v = record {
  valid = v;
  blocks = λ b m h. h;
  same_base = refl;
  same_own = refl;
  same_pages = refl;
}

pub Keeps-trans : {s t u : Frames} → Keeps s t → Keeps t u → Keeps s u
Keeps-trans k l = record {
  valid = l.valid;
  blocks = λ b m h. l.blocks b m (k.blocks b m h);
  same_base = l.same_base ∙ k.same_base;
  same_own = l.same_own ∙ k.same_own;
  same_pages = l.same_pages ∙ k.same_pages;
}

Allocated-Keeps :
    {n : ℕ} {s : Frames} {r : ℕ × Frames} → 0 < n → IsValid s → Allocated n s r → Keeps s r.1
Allocated-Keeps {n} {s} pos v (exhausted none_left) = Keeps-refl s v
Allocated-Keeps {n} {s} pos v (taken start lo hi free first) = record {
  valid = take_run-IsValid n start s v pos hi lo;
  blocks = λ b m h. (take_run-Apart n start s v pos b m free h).1;
  same_base = refl;
  same_own = refl;
  same_pages = refl;
}

-- Pages for the kernel or for a process, or none: either way every block of before is kept.
pub getppages-Keeps : (n : ℕ) (s : Frames) → 0 < n → IsValid s → Keeps s (getppages n s).1
getppages-Keeps n s pos v =
    rw (getppages-booted n s v) (Allocated-Keeps pos v (coremap_alloc-Allocated n s pos v))

pub alloc_kpages-Keeps : (n : ℕ) (s : Frames) → 0 < n → IsValid s → Keeps s (alloc_kpages n s).1
unfolding alloc_kpages
alloc_kpages-Keeps n s pos v = elim (Bool-cases ((getppages n s).0 == 0)) [
  | inl failed ↦ rw (alloc_kpages, failed) (getppages-Keeps n s pos v)
  | inr granted ↦ rw (alloc_kpages, granted) (getppages-Keeps n s pos v)
]

-- A failed allocation changes nothing.
coremap_alloc-zero :
    (n : ℕ) (s : Frames) (r : ℕ × Frames) → IsValid s → Allocated n s r → r.0 ≡ 0 → r.1 ≡ s
coremap_alloc-zero n s r v (exhausted none_left) e = refl
coremap_alloc-zero n s r v (taken start lo hi free first) e =
    absurd (omega (arith, v.above_zero, e))

-- The address of a page that `alloc_kpages` hands out is that of a new block of one frame.
pub record NewPage (s : Frames) (addr : ℕ) (t : Frames) : Type 0 where
  pub frame : ℕ
  pub address : addr ≡ frame_addr s frame + kseg0
  pub above_own : s.num_of_coremap_pages ≤ frame
  pub within : frame + 1 ≤ s.num_of_pages
  pub block : IsBlock t.coremap frame 1
  pub others : (b m : ℕ) → IsBlock s.coremap b m → Apart frame 1 b m

pub alloc_kpages-cases :
    (s : Frames)
    → IsValid s
    → (((alloc_kpages 1 s).0 ≡ 0) × ((alloc_kpages 1 s).1 ≡ s))
      ⊎ (((alloc_kpages 1 s).0 ≢ 0) × NewPage s (alloc_kpages 1 s).0 (alloc_kpages 1 s).1)
unfolding alloc_kpages
alloc_kpages-cases s v = elim (Bool-cases ((coremap_alloc 1 s).0 == 0)) [
  | inl failed ↦ inl (
    rw (alloc_kpages, getppages-booted 1 s v, failed),
    rw (alloc_kpages, getppages-booted 1 s v, failed)
        (coremap_alloc-zero 1 s (coremap_alloc 1 s) v (coremap_alloc-Allocated 1 s (omega arith) v)
          (ground arith)),
  )
  | inr granted ↦
      let g = coremap_alloc-Grants 1 s (omega arith) v (ground arith) in
      let addr : u32 ((coremap_alloc 1 s).0 + kseg0) ≡ frame_addr s g.start + kseg0 =
        omega (arith, v.fits, g.address, g.within) in
      inr (
        rw (alloc_kpages, getppages-booted 1 s v, granted) (λ e. omega (arith, addr, e)),
        rw (alloc_kpages, getppages-booted 1 s v, granted)
            (record {
              frame = g.start;
              address = addr;
              above_own = g.above_own;
              within = g.within;
              block = g.block;
              others = λ b m h. (g.others b m h).0;
            }),
      )
]

-- What freeing the block of one frame has done: the other blocks are kept.
pub record Releases (s : Frames) (frame : ℕ) (t : Frames) : Type 0 where
  pub valid : IsValid t
  pub blocks : (b m : ℕ) → IsBlock s.coremap b m → Apart frame 1 b m → IsBlock t.coremap b m
  pub same_base : t.firstaddr ≡ s.firstaddr
  pub same_own : t.num_of_coremap_pages ≡ s.num_of_coremap_pages
  pub same_pages : t.num_of_pages ≡ s.num_of_pages

pub free_kpages-Releases :
    (s : Frames) (frame : ℕ)
    → IsValid s
    → s.num_of_coremap_pages ≤ frame
    → frame + 1 ≤ s.num_of_pages
    → IsBlock s.coremap frame 1
    → Releases s frame (free_kpages (frame_addr s frame + kseg0) s)
unfolding free_kpages coremap_dealloc
free_kpages-Releases s frame v lo hi block =
    let back : u32 (frame_addr s frame + kseg0 + 2 ^ 32 - kseg0) ≡ frame_addr s frame =
      omega (arith, v.fits) in
    rw back (record {
      valid = coremap_dealloc-IsValid frame 1 s v lo hi block;
      blocks = λ b m other apart. (coremap_dealloc-IsBlock frame 1 b m s v hi block other apart).1;
      same_base = refl;
      same_own = refl;
      same_pages = refl;
    })
