-- ===== src/Kmalloc/Fresh.antt =====
-- A new page of kern/vm/kmalloc.c: all its blocks are free, and nothing else changes.
use native.Mathlib.Nat.{eq_of_mul-eq-mul_right}
use toy_os.Common.{
  ℕ, zero, suc, ◌+◌, ◌*◌, ◌/◌, ◌<◌, ◌≡◌, ◌≢◌, refl, sym, subst, ap, ◌∙◌, ◌⊎◌, inl, inr, Bool, true,
  false, some, List, ◌∷◌, arith, Bool-cases, ◌==◌, update, elem, length, Distinct, distinct_nil,
  distinct_cons, elem-cons, ==_self, ℕ_discrete, update_self, update_ne,
}
use toy_os.Coremap.{page_size, kseg0, Frames}
use toy_os.Coremap.Kpages.{Keeps, NewPage}
use toy_os.Kmalloc.{nsizes, size_of, npagerefs, PageRef, Kheap, fresh_list, clear_bit_from}
use toy_os.Kmalloc.Sizes.{size_of-divides}
use toy_os.Kmalloc.Pages.{
  IsOffset, PageFrame, PageFrame-Keeps, IsPage, IsValid, Busy, InUse, update-elim,
}

pub clear_bit_from-some :
    (rounds i : ℕ) (inuse : ℕ → Bool) {k : ℕ}
    → clear_bit_from rounds i inuse ≡ some k
    → (k < i + rounds) × (inuse k ≡ false)
unfolding clear_bit_from
clear_bit_from-some zero i inuse e = cc
clear_bit_from-some (suc rounds) i inuse {k} e =
    ground (arith, clear_bit_from-some rounds (i + 1) inuse {k = k})

-- The blocks of a new page, from the last one on.
fresh_list-elem : (n size o : ℕ) → elem o (fresh_list n size) ≡ true → IsOffset size n o
unfolding fresh_list
fresh_list-elem zero size o m = cc
fresh_list-elem (suc n) size o m = elim (Bool-cases (o == n * size)) [
  | inl e ↦ (n, ground arith, omega arith)
  | inr e ↦ let (q, f, lt) = fresh_list-elem n size o (rw e at m) in (q, f, omega arith)
]

elem-fresh_list : (n size o : ℕ) → IsOffset size n o → elem o (fresh_list n size) ≡ true
unfolding fresh_list
elem-fresh_list zero size o (q, e, lt) = absurd (omega arith)
elem-fresh_list (suc n) size o (q, e, lt) = elim (ℕ_discrete q n) [
  | yes last ↦
      let at : (o == n * size) ≡ true =
        subst (λ k. (k == n * size) ≡ true) (sym (e ∙ ap (λ k. k * size) last))
          (==_self (n * size)) in
      rw at
  | no earlier ↦
      elem-cons o (n * size) (fresh_list n size) (elem-fresh_list n size o (q, e, omega arith))
]

fresh_list-Distinct : (n size : ℕ) → 0 < size → Distinct (fresh_list n size)
unfolding fresh_list
fresh_list-Distinct zero size pos = distinct_nil
fresh_list-Distinct (suc n) size pos =
    distinct_cons
      (elim (Bool-cases (elem (n * size) (fresh_list n size))) [
        | inr out ↦ out
        | inl there ↦
            let (q, e, lt) = fresh_list-elem n size (n * size) there in
            absurd (omega (arith, eq_of_mul-eq-mul_right size pos n q e))
      ])
      (fresh_list-Distinct n size pos)

length-fresh_list : (n size : ℕ) → length (fresh_list n size) ≡ n
unfolding fresh_list
length-fresh_list zero size = refl
length-fresh_list (suc n) size = ap suc (length-fresh_list n size)

pub fresh_list-cons :
    (n size : ℕ) → 0 < n → (o : ℕ) × (rest : List ℕ) × (fresh_list n size ≡ o ∷ rest)
unfolding fresh_list
fresh_list-cons zero size pos = absurd (omega arith)
fresh_list-cons (suc n) size pos = (n * size, fresh_list n size, refl)

-- The record of a new page.
abbrev pub fresh_page : ℕ → ℕ → PageRef
fresh_page addr blk = record {
  pageaddr = addr;
  blktype = blk;
  freelist = fresh_list (page_size / size_of blk) (size_of blk);
  nfree = page_size / size_of blk;
}

fresh_page-IsPage : (addr blk : ℕ) → blk < nsizes → IsPage (fresh_page addr blk)
fresh_page-IsPage addr blk known =
    let (big, two, whole) = size_of-divides blk known in
    record {
      known = known;
      offsets = λ o m. fresh_list-elem (page_size / size_of blk) (size_of blk) o m;
      distinct = fresh_list-Distinct (page_size / size_of blk) (size_of blk) (omega arith);
      counted = sym (length-fresh_list (page_size / size_of blk) (size_of blk));
    }

fresh_page-idle : (addr blk o : ℕ) → ¬ InUse (fresh_page addr blk) o
fresh_page-idle addr blk o (at, used) =
    cc (used, elem-fresh_list (page_size / size_of blk) (size_of blk) o at)

-- The heap with a new page in it.
abbrev pub with_page : Kheap → Frames → ℕ → ℕ → ℕ → Kheap
with_page h frames pr addr blk = record {
  frames = frames;
  inuse = update h.inuse pr true;
  pagerefs = update h.pagerefs pr (fresh_page addr blk);
  sizebases = update h.sizebases blk (pr ∷ h.sizebases blk);
  allbase = pr ∷ h.allbase;
}

elem-cons_ne : (r p : ℕ) (l : List ℕ) → elem r (p ∷ l) ≡ true → p ≢ r → elem r l ≡ true
elem-cons_ne r p l m other = let off : (r == p) ≡ false = ground arith in rw off at m

module _ (h : Kheap) (frames : Frames) (pr addr blk : ℕ) (v : IsValid h) (known : blk < nsizes)
    (keeps : Keeps h.frames frames) (small : pr < npagerefs) (clear : h.inuse pr ≡ false)
    (new : NewPage h.frames addr frames) where
  not_listed : elem pr h.allbase ≡ false
  not_listed = elim (Bool-cases (elem pr h.allbase)) [
    | inr out ↦ out
    | inl there ↦ cc ((v.marked pr there).1, clear)
  ]

  listed_ne : (r : ℕ) → elem r h.allbase ≡ true → pr ≢ r
  listed_ne r m same = cc (not_listed, m, same)

  new_addr : (r : ℕ) → elem r h.allbase ≡ true → addr ≢ (h.pagerefs r).pageaddr
  new_addr r m e =
      let f = v.framed r m in omega (arith, e, f.address, new.address, new.others f.frame 1 f.block)

  new_frame : PageFrame frames addr
  new_frame = record {
    frame = new.frame;
    address =
        subst (λ base. addr ≡ base + new.frame * page_size + kseg0) (sym keeps.same_base)
          new.address;
    above_own = omega (arith, keeps.same_own, new.above_own);
    within = omega (arith, keeps.same_pages, new.within);
    block = new.block;
  }

  not_sized : (b : ℕ) → elem pr (h.sizebases b) ≡ false
  not_sized b = elim (Bool-cases (elem pr (h.sizebases b))) [
    | inr out ↦ out
    | inl there ↦ cc ((v.sized b pr there).0, not_listed)
  ]

  own_page : (r : ℕ) → pr ≡ r → (with_page h frames pr addr blk).pagerefs r ≡ fresh_page addr blk
  own_page r same =
      subst (λ k. update h.pagerefs pr (fresh_page addr blk) k ≡ fresh_page addr blk) same
        (update_self h.pagerefs pr (fresh_page addr blk))

  old_page : (r : ℕ) → pr ≢ r → (with_page h frames pr addr blk).pagerefs r ≡ h.pagerefs r
  old_page r other = update_ne h.pagerefs pr r (fresh_page addr blk) other

  -- The list of a size holds what it held, and the new page if it is its size.
  sizebase_cases :
      (b r : ℕ)
      → elem r ((with_page h frames pr addr blk).sizebases b) ≡ true
      → (elem r (h.sizebases b) ≡ true) ⊎ ((pr ≡ r) × (blk ≡ b))
  sizebase_cases b r m = elim (ℕ_discrete blk b) [
    | no other ↦
        inl
          (sym (ap (λ l. elem r l) (update_ne h.sizebases blk b (pr ∷ h.sizebases blk) other)) ∙ m)
    | yes same ↦
        let here : elem r (pr ∷ h.sizebases blk) ≡ true =
          sym (ap (λ l. elem r l) (update_self h.sizebases blk (pr ∷ h.sizebases blk)))
          ∙ subst (λ k. elem r ((with_page h frames pr addr blk).sizebases k) ≡ true) (sym same)
              m in
        elim (ℕ_discrete pr r) [
          | yes at ↦ inr (at, same)
          | no off ↦ inl (
              subst (λ k. elem r (h.sizebases k) ≡ true) same
                (elem-cons_ne r pr (h.sizebases blk) here off))
        ]
  ]

  with_page-sized :
      (b r : ℕ)
      → elem r ((with_page h frames pr addr blk).sizebases b) ≡ true
      → (elem r (pr ∷ h.allbase) ≡ true)
        × (((with_page h frames pr addr blk).pagerefs r).blktype ≡ b)
  with_page-sized b r m = elim (sizebase_cases b r m) [
    | inr (at, same) ↦ (
      subst (λ k. elem k (pr ∷ h.allbase) ≡ true) at (rw (==_self pr)),
      ap (λ (p : PageRef). p.blktype) (own_page r at) ∙ same,
    )
    | inl there ↦
        let (listed, size) = v.sized b r there in
        (
          elem-cons r pr h.allbase listed,
          ap (λ (p : PageRef). p.blktype) (old_page r (listed_ne r listed)) ∙ size,
        )
  ]

  with_page-apart :
      (r s : ℕ)
      → elem r (pr ∷ h.allbase) ≡ true
      → elem s (pr ∷ h.allbase) ≡ true
      → ((with_page h frames pr addr blk).pagerefs r).pageaddr
        ≡ ((with_page h frames pr addr blk).pagerefs s).pageaddr
      → r ≡ s
  with_page-apart r s m n e = elim (ℕ_discrete pr r) [
    | yes r_new ↦ elim (ℕ_discrete pr s) [
      | yes s_new ↦ sym r_new ∙ s_new
      | no s_old ↦ absurd (
          new_addr s (elem-cons_ne s pr h.allbase n s_old) (
            sym (ap (λ (p : PageRef). p.pageaddr) (own_page r r_new))
            ∙ (e ∙ ap (λ (p : PageRef). p.pageaddr) (old_page s s_old))))
    ]
    | no r_old ↦ elim (ℕ_discrete pr s) [
      | yes s_new ↦ absurd (
          new_addr r (elem-cons_ne r pr h.allbase m r_old) (
            sym (ap (λ (p : PageRef). p.pageaddr) (own_page s s_new))
            ∙ (sym e ∙ ap (λ (p : PageRef). p.pageaddr) (old_page r r_old))))
      | no s_old ↦
          v.apart r s (elem-cons_ne r pr h.allbase m r_old) (elem-cons_ne s pr h.allbase n s_old) (
            sym (ap (λ (p : PageRef). p.pageaddr) (old_page r r_old))
            ∙ (e ∙ ap (λ (p : PageRef). p.pageaddr) (old_page s s_old)))
    ]
  ]

  pub with_page-IsValid : IsValid (with_page h frames pr addr blk)
  with_page-IsValid = record {
    frames_valid = keeps.valid;
    pages = λ r m.
        update-elim IsPage h.pagerefs pr r _ (λ _. fresh_page-IsPage addr blk known)
          (λ other. v.pages r (elem-cons_ne r pr h.allbase m other));
    framed = λ r m.
        update-elim (λ p. PageFrame frames p.pageaddr) h.pagerefs pr r _ (λ _. new_frame)
          (λ other. PageFrame-Keeps keeps (v.framed r (elem-cons_ne r pr h.allbase m other)));
    marked = λ r m. elim (ℕ_discrete pr r) [
      | yes same ↦ (
        omega arith,
        subst (λ k. update h.inuse pr true k ≡ true) same (update_self h.inuse pr true),
      )
      | no other ↦
          let old = v.marked r (elem-cons_ne r pr h.allbase m other) in
          (old.0, update_ne h.inuse pr r true other ∙ old.1)
    ];
    all_distinct = distinct_cons not_listed v.all_distinct;
    size_distinct = λ b.
        update-elim Distinct h.sizebases blk b _
          (λ _. distinct_cons (not_sized blk) (v.size_distinct blk)) (λ _. v.size_distinct b);
    sized = with_page-sized;
    apart = with_page-apart;
  }

  -- The blocks in use are those of before.
  pub with_page-kept :
      (r x : ℕ)
      → Busy h r x
      → Busy (with_page h frames pr addr blk) r x
        × (((with_page h frames pr addr blk).pagerefs r).pageaddr ≡ (h.pagerefs r).pageaddr)
        × (((with_page h frames pr addr blk).pagerefs r).blktype ≡ (h.pagerefs r).blktype)
  with_page-kept r x (m, used) =
      let same = old_page r (listed_ne r m) in
      (
        (elem-cons r pr h.allbase m, subst (λ p. InUse p x) (sym same) used),
        ap (λ (p : PageRef). p.pageaddr) same,
        ap (λ (p : PageRef). p.blktype) same,
      )

  pub with_page-only : (r x : ℕ) → Busy (with_page h frames pr addr blk) r x → Busy h r x
  with_page-only r x (m, used) = elim (ℕ_discrete pr r) [
    | yes new_one ↦
        absurd (fresh_page-idle addr blk x (subst (λ p. InUse p x) (own_page r new_one) used))
    | no other ↦
        (elem-cons_ne r pr h.allbase m other, subst (λ p. InUse p x) (old_page r other) used)
  ]
