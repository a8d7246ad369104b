-- ===== src/Kmalloc/Pages.antt =====
-- When the pages of kern/vm/kmalloc.c are well formed, and which of their blocks are in use.
use native.Mathlib.Nat.{mul-lt-mul_of_pos_right}
use toy_os.Common.{
  ℕ, zero, suc, ◌+◌, ◌*◌, ◌/◌, ◌≤◌, ◌<◌, ◌≡◌, ◌≢◌, sym, subst, ap, ◌∙◌, inl, inr, true, false, not,
  ◌&&◌, List, [], ◌∷◌, arith, Bool-cases, ◌==◌, update, elem, erase, length, Distinct, elem-erase,
  erase-Distinct, ==_self, update_self, update_ne, ℕ_discrete,
}
use toy_os.Coremap.{page_size, kseg0, Frames}
use toy_os.Coremap.Blocks.{frame_addr, IsBlock}
use toy_os.Coremap.Blocks
use toy_os.Coremap.Kpages.{Keeps}
use toy_os.Kmalloc.{nsizes, size_of, npagerefs, PageRef, Kheap}
use toy_os.Kmalloc.Sizes.{size_of-divides}

-- `o` is the offset of one of `n` blocks of a size.
abbrev pub IsOffset : ℕ → ℕ → ℕ → Type 0
IsOffset size n o = (q : ℕ) × (o ≡ q * size) × (q < n)

length-erase : (x : ℕ) (ys : List ℕ) → length ys ≤ suc (length (erase x ys))
unfolding erase
length-erase x [] = omega arith
length-erase x (z ∷ zs) = elim (Bool-cases (x == z)) [
  | inl e ↦ rw e (omega arith)
  | inr e ↦ let ih = length-erase x zs in rw e (omega arith)
]

IsOffset-below :
    (size n o : ℕ) (xs : List ℕ)
    → Distinct xs
    → ((x : ℕ) → elem x xs ≡ true → IsOffset size (suc n) x)
    → elem o (erase (n * size) xs) ≡ true
    → IsOffset size n o
IsOffset-below size n o xs d h m =
    let there : (elem o xs && not (o == n * size)) ≡ true =
      sym (elem-erase (n * size) o xs d) ∙ m in
    let (q, e, lt) = h o (ground (arith, there)) in
    let other : o ≢ n * size = ground (arith, there) in
    let below : q ≢ n = λ same. other (e ∙ ap (λ k. k * size) same) in (q, e, omega arith)

-- As many distinct offsets as there are blocks, at most.
pub length-Distinct :
    (size n : ℕ) (xs : List ℕ)
    → Distinct xs
    → ((o : ℕ) → elem o xs ≡ true → IsOffset size n o)
    → length xs ≤ n
length-Distinct size zero [] d h = omega arith
length-Distinct size zero (x ∷ xs) d h =
    let (q, e, lt) = h x (rw (==_self x)) in absurd (omega arith)
length-Distinct size (suc n) xs d h =
    let ih =
      length-Distinct size n (erase (n * size) xs) (erase-Distinct (n * size) xs d)
        (λ o m. IsOffset-below size n o xs d h m) in
    let le = length-erase (n * size) xs in omega arith

-- The page of an address: a block of one frame.
pub record PageFrame (s : Frames) (addr : ℕ) : Type 0 where
  pub frame : ℕ
  pub address : addr ≡ frame_addr s frame + kseg0
  pub above_own : s.num_of_coremap_pages ≤ frame
  pub within : frame + 1 ≤ s.num_of_pages
  pub block : IsBlock s.coremap frame 1

pub PageFrame-Keeps : {s t : Frames} {addr : ℕ} → Keeps s t → PageFrame s addr → PageFrame t addr
PageFrame-Keeps {s} {t} {addr} k p = record {
  frame = p.frame;
  address = subst (λ base. addr ≡ base + p.frame * page_size + kseg0) (sym k.same_base) p.address;
  above_own = omega (arith, k.same_own, p.above_own);
  within = omega (arith, k.same_pages, p.within);
  block = k.blocks p.frame 1 p.block;
}

-- A page whose free list is in order.
pub record IsPage (p : PageRef) : Type 0 where
  pub known : p.blktype < nsizes
  pub offsets :
      (o : ℕ)
      → elem o p.freelist ≡ true
      → IsOffset (size_of p.blktype) (page_size / size_of p.blktype) o
  pub distinct : Distinct p.freelist
  pub counted : p.nfree ≡ length p.freelist

-- The kernel heap between two calls.
pub record IsValid (h : Kheap) : Type 0 where
  pub frames_valid : Blocks.IsValid h.frames
  pub pages : (r : ℕ) → elem r h.allbase ≡ true → IsPage (h.pagerefs r)
  pub framed : (r : ℕ) → elem r h.allbase ≡ true → PageFrame h.frames (h.pagerefs r).pageaddr
  pub marked : (r : ℕ) → elem r h.allbase ≡ true → (r < npagerefs) × (h.inuse r ≡ true)
  pub all_distinct : Distinct h.allbase
  pub size_distinct : (b : ℕ) → Distinct (h.sizebases b)
  pub sized :
      (b r : ℕ)
      → elem r (h.sizebases b) ≡ true
      → (elem r h.allbase ≡ true) × ((h.pagerefs r).blktype ≡ b)
  pub apart :
      (r s : ℕ)
      → elem r h.allbase ≡ true
      → elem s h.allbase ≡ true
      → (h.pagerefs r).pageaddr ≡ (h.pagerefs s).pageaddr
      → r ≡ s

-- The block at an offset of a page is in use.
abbrev pub InUse : PageRef → ℕ → Type 0
InUse p o =
    IsOffset (size_of p.blktype) (page_size / size_of p.blktype) o × (elem o p.freelist ≡ false)

abbrev pub Busy : Kheap → ℕ → ℕ → Type 0
Busy h r o = (elem r h.allbase ≡ true) × InUse (h.pagerefs r) o

-- New frames that keep the blocks keep the heap.
pub IsValid-Keeps :
    (h : Kheap) (t : Frames) → IsValid h → Keeps h.frames t → IsValid (record h { frames = t })
IsValid-Keeps h t v k = record {
  frames_valid = k.valid;
  pages = v.pages;
  framed = λ r m. PageFrame-Keeps k (v.framed r m);
  marked = v.marked;
  all_distinct = v.all_distinct;
  size_distinct = v.size_distinct;
  sized = v.sized;
  apart = v.apart;
}

-- A property of an array after a write.
pub update-elim {ℓ κ} :
    {A : Type ℓ} (P : A → Type κ) (f : ℕ → A) (i j : ℕ) (a : A)
    → (i ≡ j → P a)
    → (i ≢ j → P (f j))
    → P (update f i a j)
update-elim P f i j a hit miss = elim (ℕ_discrete i j) [
  | yes same ↦ subst P (sym (subst (λ k. update f i a k ≡ a) same (update_self f i a))) (hit same)
  | no other ↦ subst P (sym (update_ne f i j a other)) (miss other)
]

-- A free block's offset lies in the page.
pub IsOffset-page_size :
    (b o : ℕ) → b < nsizes → IsOffset (size_of b) (page_size / size_of b) o → o < page_size
IsOffset-page_size b o known (q, e, lt) =
    let (big, two, whole) = size_of-divides b known in
    let below : q * size_of b < page_size / size_of b * size_of b =
      mul-lt-mul_of_pos_right lt (omega arith) in
    omega (arith, below, whole, e)
