-- ===== src/Kmalloc/Alloc.antt =====
-- `subpage_kmalloc` and `kmalloc` of kern/vm/kmalloc.c: a block that was free.
use toy_os.Common.{
  ℕ, ◌+◌, ◌-◌, ◌≡◌, refl, sym, subst, ap, ◌∙◌, ◌⊎◌, inl, inr, true, false, List, [], ◌∷◌, Kernel,
  done, ◌>>=◌, arith, Bool-cases, ltb, ◌==◌, update, elem, length, Distinct, Distinct-head,
  Distinct-tail, elem-cons, elem-cons_false, ℕ_discrete, update_ne, ==_self, update_self,
}
use toy_os.Coremap.{page_size}
use toy_os.Kmalloc.{PageRef, Kheap, pop_block, take_block}
use toy_os.Kmalloc.Pages.{PageFrame, IsPage, IsValid, Busy, InUse, update-elim, IsOffset-page_size}

-- What an allocation has done: the block is in use and was not, and no other block has changed.
pub record Allocates (h t : Kheap) (pr o : ℕ) : Type 0 where
  pub busy : Busy t pr o
  pub was_idle : ¬ Busy h pr o
  pub kept :
      (r x : ℕ)
      → Busy h r x
      → Busy t r x
        × ((t.pagerefs r).pageaddr ≡ (h.pagerefs r).pageaddr)
        × ((t.pagerefs r).blktype ≡ (h.pagerefs r).blktype)
  pub only : (r x : ℕ) → Busy t r x → Busy h r x ⊎ ((r ≡ pr) × (x ≡ o))
  pub valid : IsValid t

-- A page's record written anew, with its address and block size.
module _ (h : Kheap) (pr : ℕ) (q : PageRef) (v : IsValid h) where
  module _ (same_addr : q.pageaddr ≡ (h.pagerefs pr).pageaddr)
      (same_type : q.blktype ≡ (h.pagerefs pr).blktype) where
    pub update-pageaddr : (r : ℕ) → (update h.pagerefs pr q r).pageaddr ≡ (h.pagerefs r).pageaddr
    update-pageaddr r =
        update-elim (λ p. p.pageaddr ≡ (h.pagerefs r).pageaddr) h.pagerefs pr r q
          (λ e. same_addr ∙ ap (λ k. (h.pagerefs k).pageaddr) e) (λ _. refl)

    pub update-blktype : (r : ℕ) → (update h.pagerefs pr q r).blktype ≡ (h.pagerefs r).blktype
    update-blktype r =
        update-elim (λ p. p.blktype ≡ (h.pagerefs r).blktype) h.pagerefs pr r q
          (λ e. same_type ∙ ap (λ k. (h.pagerefs k).blktype) e) (λ _. refl)

    pub IsValid-update : IsPage q → IsValid (record h { pagerefs = update h.pagerefs pr q })
    IsValid-update page = record {
      frames_valid = v.frames_valid;
      pages = λ r m. update-elim IsPage h.pagerefs pr r q (λ _. page) (λ _. v.pages r m);
      framed = λ r m. subst (PageFrame h.frames) (sym (update-pageaddr r)) (v.framed r m);
      marked = v.marked;
      all_distinct = v.all_distinct;
      size_distinct = v.size_distinct;
      sized = λ b r m. ((v.sized b r m).0, update-blktype r ∙ (v.sized b r m).1);
      apart = λ r s m n e. v.apart r s m n (sym (update-pageaddr r) ∙ (e ∙ update-pageaddr s));
    }

IsPage-take :
    (p : PageRef) (o : ℕ) (rest : List ℕ)
    → p.freelist ≡ o ∷ rest
    → IsPage p
    → IsPage (record p { freelist = rest; nfree = p.nfree - 1 }) × (elem o rest ≡ false)
IsPage-take p o rest e page =
    let d : Distinct (o ∷ rest) = subst Distinct e page.distinct in
    let counted = page.counted ∙ ap length e in
    (
      record {
        known = page.known;
        offsets = λ x m. page.offsets x (ap (λ l. elem x l) e ∙ elem-cons x o rest m);
        distinct = Distinct-tail d;
        counted = omega (arith, counted);
      },
      Distinct-head d,
    )

-- A free block of a page is taken with no failed KASSERT.
pop_block-cons :
    (p : PageRef) (o : ℕ) (rest : List ℕ)
    → p.freelist ≡ o ∷ rest
    → IsPage p
    → pop_block p (o ∷ rest) ≡ done (o, record p { freelist = rest; nfree = p.nfree - 1 })
unfolding pop_block
pop_block-cons p o [] e page =
    let counted = page.counted ∙ ap length e in
    let small =
      IsOffset-page_size p.blktype o page.known
        (page.offsets o (ap (λ l. elem o l) e ∙ rw (==_self o))) in
    let ok1 : ltb o page_size ≡ true = ground arith in
    let ok2 : (p.nfree - 1 == 0) ≡ true = ground arith in rw (ok1, ok2)
pop_block-cons p o (next ∷ rest) e page =
    let counted = page.counted ∙ ap length e in
    let small =
      IsOffset-page_size p.blktype o page.known
        (page.offsets o (ap (λ l. elem o l) e ∙ rw (==_self o))) in
    let small2 = IsOffset-page_size p.blktype next page.known (
      page.offsets next
        (ap (λ l. elem next l) e ∙ elem-cons next o (next ∷ rest) (rw (==_self next)))) in
    let ok1 : ltb o page_size ≡ true = ground arith in
    let ok2 : ltb 0 (p.nfree - 1) ≡ true = ground arith in
    let ok3 : ltb next page_size ≡ true = ground arith in rw (ok1, ok2, ok3)

elem_here : (o : ℕ) (xs : List ℕ) → elem o (o ∷ xs) ≡ true
elem_here o xs = rw (==_self o)

InUse-take :
    (p : PageRef) (o x : ℕ) (rest : List ℕ)
    → p.freelist ≡ o ∷ rest
    → InUse p x
    → InUse (record p { freelist = rest; nfree = p.nfree - 1 }) x
InUse-take p o x rest e (at, used) =
    (at, elem-cons_false x o rest (sym (ap (λ l. elem x l) e) ∙ used))

-- Taking a free block of a page of the heap.
pub take_block-Allocates :
    (pr o : ℕ) (rest : List ℕ) (h : Kheap)
    → IsValid h
    → elem pr h.allbase ≡ true
    → (h.pagerefs pr).freelist ≡ o ∷ rest
    → (t : Kheap) × (take_block pr h ≡ done ((t.pagerefs pr).pageaddr + o, t))
      × Allocates h t pr o
      × ((t.pagerefs pr).blktype ≡ (h.pagerefs pr).blktype)
unfolding take_block
take_block-Allocates pr o rest h v m e =
    let page = v.pages pr m in
    let p = h.pagerefs pr in
    let q : PageRef = record p { freelist = rest; nfree = p.nfree - 1 } in
    let t : Kheap = record h { pagerefs = update h.pagerefs pr q } in
    let (page', gone) = IsPage-take p o rest e page in
    let own : t.pagerefs pr ≡ q = update_self h.pagerefs pr q in
    let offset = page.offsets o (ap (λ l. elem o l) e ∙ rw (==_self o)) in
    let given : ℕ × PageRef → Kernel (ℕ × Kheap) =
      λ r. done (p.pageaddr + r.0, record h { pagerefs = update h.pagerefs pr r.1 }) in
    (
      t,
      ap (λ l. pop_block p l >>= given) e
          ∙ (ap (λ k. k >>= given) (pop_block-cons p o rest e page)
              ∙ ap (λ a. done (a + o, t)) (sym (update-pageaddr h pr q v refl refl pr))),
      record {
        busy = (m, subst (λ k. InUse k o) (sym own) (offset, gone));
        was_idle = λ b. cc (b.1.1, ap (λ l. elem o l) e ∙ elem_here o rest);
        kept = λ r x b. (
          (
            b.0,
            update-elim (λ k. InUse k x) h.pagerefs pr r q
                (λ same.
                  InUse-take p o x rest e (subst (λ k. InUse (h.pagerefs k) x) (sym same) b.1))
                (λ _. b.1),
          ),
          update-pageaddr h pr q v refl refl r,
          update-blktype h pr q v refl refl r,
        );
        only = λ r x b. elim (ℕ_discrete pr r) [
          | no other ↦ inl (b.0, subst (λ k. InUse k x) (update_ne h.pagerefs pr r q other) b.1)
          | yes same ↦
              let there : InUse q x =
                subst (λ k. InUse k x) own (subst (λ k. InUse (t.pagerefs k) x) (sym same) b.1) in
              elim (Bool-cases (x == o)) [
                | inl at ↦ inr (sym same, ground arith)
                | inr off ↦ inl (
                  b.0,
                  subst (λ k. InUse (h.pagerefs k) x) same
                      (there.0, ap (λ l. elem x l) e ∙ (rw (off, there.1))),
                )
              ]
        ];
        valid = IsValid-update h pr q v refl refl page';
      },
      update-blktype h pr q v refl refl pr,
    )
