-- ===== src/Kmalloc/Give.antt =====
-- The page of a block of kern/vm/kmalloc.c that is given back, and its free list.
use toy_os.Common.{
  ℕ, ◌+◌, ◌/◌, ◌≤◌, ◌<◌, ◌≡◌, ◌≢◌, subst, ap, ◌⊎◌, inl, inr, true, false, ◌&&◌, some, List, [], ◌∷◌,
  done, arith, Bool-cases, ltb, leb, ◌==◌, elem, distinct_cons, elem-cons, ==_self, ==_ne, dec_lt,
}
use toy_os.Coremap.{page_size}
use toy_os.Kmalloc.{nsizes, size_of, PageRef, Kheap, page_of}
use toy_os.Kmalloc.Pages.{IsOffset, IsPage, IsValid, InUse, length-Distinct}

-- The page of an address is the one that it lies in.
pub page_of-finds :
    (h : Kheap) (pr o : ℕ) (prs : List ℕ)
    → IsValid h
    → elem pr h.allbase ≡ true
    → o < page_size
    → ((r : ℕ) → elem r prs ≡ true → elem r h.allbase ≡ true)
    → elem pr prs ≡ true
    → page_of ((h.pagerefs pr).pageaddr + o) h prs ≡ done (some pr)
unfolding page_of
page_of-finds h pr o [] v m small sub there = cc
page_of-finds h pr o (r ∷ prs) v m small sub there =
    let listed = sub r (rw (==_self r)) in
    let known : ltb (h.pagerefs r).blktype nsizes ≡ true =
      ground (arith, (v.pages r listed).known) in
    let f = v.framed pr m in
    let g = v.framed r listed in
    let ptr = (h.pagerefs pr).pageaddr + o in
    elim (Bool-cases
      (leb (h.pagerefs r).pageaddr ptr && ltb ptr ((h.pagerefs r).pageaddr + page_size))) [
        | inl inside ↦
            let lo : (h.pagerefs r).pageaddr ≤ ptr = ground arith in
            let hi : ptr < (h.pagerefs r).pageaddr + page_size = ground arith in
            let same : r ≡ pr = v.apart r pr listed m (omega (arith, f.address, g.address)) in
            rw (known, inside) (ap (λ k. done (some k)) same)
        | inr outside ↦
            let other : pr ≢ r = λ e.
              let at = ap (λ k. (h.pagerefs k).pageaddr) e in
              let lo : leb (h.pagerefs r).pageaddr ptr ≡ true = ground arith in
              let hi : ltb ptr ((h.pagerefs r).pageaddr + page_size) ≡ true = ground arith in cc in
            let off : (pr == r) ≡ false = ==_ne pr r other in
            rw (known, outside)
              (page_of-finds h pr o prs v m small (λ k n. sub k (elem-cons k r prs n))
                (rw off at there))
      ]

pub IsPage-give :
    (p : PageRef) (o : ℕ)
    → IsPage p
    → InUse p o
    → IsPage (record p { freelist = o ∷ p.freelist; nfree = p.nfree + 1 })
IsPage-give p o page (at, used) = record {
  known = page.known;
  offsets = λ x m. elim (Bool-cases (x == o)) [
    | inl e ↦ subst (IsOffset (size_of p.blktype) (page_size / size_of p.blktype)) (ground arith) at
    | inr e ↦ page.offsets x (rw e at m)
  ];
  distinct = distinct_cons used page.distinct;
  counted = omega (arith, page.counted);
}

-- A page with a block in use beside `o` is not free as a whole once `o` is.
pub InUse-two :
    (p : PageRef) (o x : ℕ)
    → IsPage p
    → InUse p o
    → InUse p x
    → x ≢ o
    → p.nfree + 1 ≢ page_size / size_of p.blktype
InUse-two p o x page b1 b2 other full =
    let one_more = IsPage-give p o page b1 in
    let new : elem x (o ∷ p.freelist) ≡ false =
      (let off : (x == o) ≡ false = ==_ne x o other in rw (off, b2.1)) in
    let both =
      IsPage-give (record p { freelist = o ∷ p.freelist; nfree = p.nfree + 1 }) x one_more
        (b2.0, new) in
    let le =
      length-Distinct (size_of p.blktype) (page_size / size_of p.blktype) (x ∷ o ∷ p.freelist)
        both.distinct both.offsets in
    omega (arith, le, page.counted)

pub zero_test : (n : ℕ) → n ≡ 0 → (n == 0) ≡ true
zero_test n e = ground arith

pub frames_apart : (a b : ℕ) → a ≢ b → (a + 1 ≤ b) ⊎ (b + 1 ≤ a)
frames_apart a b h = elim (dec_lt a b) [ yes lt ↦ inl (omega arith) | no ge ↦ inr (omega arith) ]

pub elem_here : (o : ℕ) (xs : List ℕ) → elem o (o ∷ xs) ≡ true
elem_here o xs = rw (==_self o)
