-- ===== src/Kmalloc/Tests.antt =====
-- Runs of the kernel heap's theorems on a heap with no page yet, on a machine of four free frames.
use toy_os.Common.{
  ◌+◌, ℕ, ◌≡◌, refl, sym, ap, ◌∙◌, inl, inr, ◌∷◌, elem, Bool-cases, ◌==◌, distinct_cons, ◌↔◌, true,
  false, [], Kernel, done, panic, Option, arith, ltb, if◌then◌else◌, distinct_nil,
}
use toy_os.Coremap.{free_entry, used_entry, Frames, alloc_kpages, getppages, coremap_alloc}
use toy_os.Coremap.Blocks
use toy_os.Kmalloc.{
  size_of, blocktype, PageRef, Kheap, subpage_kmalloc, find_page, kmalloc_on, new_page,
  allocpageref, take_block, pop_block, fresh_list, kmalloc, kfree,
}
use toy_os.Kmalloc.Pages.{IsPage, IsValid, Busy}
use toy_os.Kmalloc.Free.{Frees, kfree-Frees}
use toy_os.Kmalloc.Roundtrip.{Mallocs, kmalloc-Mallocs, kfree-kmalloc}

abbrev frames : Frames
frames = record {
  firstpaddr = 0;
  lastpaddr = 0;
  vm_bootstrap_flag = true;
  num_of_coremap_pages = 1;
  num_of_pages = 4;
  firstaddr = 0x2000;
  lastaddr = 0x6000;
  coremap = λ i. if ltb i 1 then used_entry 1 else free_entry;
}

frames-IsValid : Blocks.IsValid frames
frames-IsValid = record {
  booted = refl;
  own_le = omega arith;
  fits = omega arith;
  above_zero = omega arith;
  own_used = λ k h. ground arith;
  clean = λ k h e. ground arith;
}

abbrev no_page : PageRef
no_page = record { pageaddr = 0; blktype = 0; freelist = []; nfree = 0 }

abbrev heap : Kheap
heap = record {
  frames = frames;
  inuse = λ i. false;
  pagerefs = λ i. no_page;
  sizebases = λ i. [];
  allbase = [];
}

heap-IsValid : IsValid heap
heap-IsValid = record {
  frames_valid = frames-IsValid;
  pages = λ r m. cc;
  framed = λ r m. cc;
  marked = λ r m. cc;
  all_distinct = distinct_nil;
  size_distinct = λ b. distinct_nil;
  sized = λ b r m. cc;
  apart = λ r s m n e. cc;
}

-- The heap after a call.
abbrev kmalloc_state : Kernel (Option ℕ × Kheap) → Kheap
kmalloc_state panic = heap
kmalloc_state (done r) = r.1

kmalloc-Mallocs_example : Mallocs 5000 heap (kmalloc 5000 heap)
kmalloc-Mallocs_example = kmalloc-Mallocs 5000 heap heap-IsValid (omega arith)

kfree-kmalloc_example :
    (u : Kheap) × (kfree 0x80003ff0 (kmalloc_state (kmalloc 10 heap)) ≡ done u)
    × IsValid u
    × ((r x : ℕ) → Busy heap r x ↔ Busy u r x)
unfolding kmalloc subpage_kmalloc blocktype find_page kmalloc_on new_page alloc_kpages getppages
    coremap_alloc allocpageref take_block pop_block fresh_list size_of
kfree-kmalloc_example =
    kfree-kmalloc 10 0x80003ff0 heap (kmalloc_state (kmalloc 10 heap)) heap-IsValid (omega arith)
      refl

-- Frame 1 is a page of two blocks, of which the second is in use.
abbrev halves : PageRef
halves = record { pageaddr = 0x8000_3000; blktype = 7; freelist = 0 ∷ []; nfree = 1 }

abbrev used_heap : Kheap
used_heap = record {
  frames = record frames { coremap = λ i. if ltb i 2 then used_entry 1 else free_entry };
  inuse = λ i. i == 0;
  pagerefs = λ i. halves;
  sizebases = λ i. if i == 7 then 0 ∷ [] else [];
  allbase = 0 ∷ [];
}

only_zero : (r : ℕ) → elem r (0 ∷ []) ≡ true → r ≡ 0
only_zero r m = ground arith

sized_page : (b r : ℕ) → elem r (used_heap.sizebases b) ≡ true → (elem r (0 ∷ []) ≡ true) × (7 ≡ b)
sized_page b r m = elim (Bool-cases (b == 7)) [
  | inl e ↦ (rw e at m, ground arith)
  | inr e ↦ let there : elem r [] ≡ true = rw e at m in cc
]

halves-IsPage : IsPage halves
unfolding size_of
halves-IsPage = record {
  known = omega arith;
  offsets = λ o m. (0, only_zero o m, omega arith);
  distinct = distinct_cons refl distinct_nil;
  counted = refl;
}

used_heap-IsValid : IsValid used_heap
used_heap-IsValid = record {
  frames_valid = record {
    booted = refl;
    own_le = omega arith;
    fits = omega arith;
    above_zero = omega arith;
    own_used = λ k h. ground arith;
    clean = λ k h e. ground arith;
  };
  pages = λ r m. halves-IsPage;
  framed = λ r m. record {
    frame = 1;
    address = refl;
    above_own = omega arith;
    within = omega arith;
    block = record { nonempty = omega arith; head = refl; rest = λ k lo hi. absurd (omega arith) };
  };
  marked = λ r m. (omega (arith, only_zero r m), ap (λ k. k == 0) (only_zero r m));
  all_distinct = distinct_cons refl distinct_nil;
  size_distinct = λ b. elim (Bool-cases (b == 7)) [
    | inl e ↦ rw e (distinct_cons refl distinct_nil)
    | inr e ↦ rw e distinct_nil
  ];
  sized = sized_page;
  apart = λ r s m n e. only_zero r m ∙ sym (only_zero s n);
}

kfree-Frees_example :
    (t : Kheap) × (kfree (0x8000_3000 + 2048) used_heap ≡ done t) × Frees used_heap t 0 2048
unfolding size_of
kfree-Frees_example =
    kfree-Frees used_heap 0 2048 used_heap-IsValid refl ((1, refl, omega arith), refl)
