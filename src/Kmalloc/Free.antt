-- ===== src/Kmalloc/Free.antt =====
-- `subpage_kfree` and `kfree` of kern/vm/kmalloc.c on a block that is in use.
use native.Mathlib.Nat.{mul-mod_left}
use toy_os.Common.{
  ℕ, ◌+◌, ◌-◌, ◌*◌, ◌/◌, ◌%◌, ◌≡◌, ◌≢◌, refl, sym, subst, ap, ◌∙◌, ◌⊎◌, inl, inr, true, false, not,
  ◌&&◌, ◌∷◌, done, arith, Bool-cases, ltb, leb, ◌==◌, update, elem, erase, Distinct,
  elem-cons_false, elem-erase, erase-Distinct, ==_ne, update_self, update_ne, ℕ_discrete,
}
use toy_os.Coremap.{page_size, kseg0, free_kpages}
use toy_os.Coremap.Blocks.{frame_addr}
use toy_os.Coremap.Kpages.{Releases, free_kpages-Releases}
use toy_os.Kmalloc.{
  nsizes, npagerefs, size_of, PageRef, Kheap, freepageref, remove_lists, give_block, subpage_kfree,
  kfree,
}
use toy_os.Kmalloc.Pages.{
  IsOffset-page_size, PageFrame, IsPage, IsValid, Busy, InUse, update-elim, length-Distinct,
}
use toy_os.Kmalloc.Alloc.{IsValid-update, update-pageaddr, update-blktype}
use toy_os.Kmalloc.Give.{page_of-finds, IsPage-give, InUse-two, zero_test, frames_apart, elem_here}

-- What freeing the block at `o` of the page `pr` has done.
pub record Frees (h t : Kheap) (pr o : ℕ) : Type 0 where
  pub idle : ¬ Busy t pr o
  pub kept :
      (r x : ℕ)
      → Busy h r x
      → ((r ≢ pr) ⊎ (x ≢ o))
      → Busy t r x
        × ((t.pagerefs r).pageaddr ≡ (h.pagerefs r).pageaddr)
        × ((t.pagerefs r).blktype ≡ (h.pagerefs r).blktype)
  pub only : (r x : ℕ) → Busy t r x → Busy h r x
  pub valid : IsValid t

module _ (h : Kheap) (pr o : ℕ) (v : IsValid h) (m : elem pr h.allbase ≡ true)
    (b : InUse (h.pagerefs pr) o) where
  given_page : PageRef
  given_page = record (h.pagerefs pr) {
    freelist = o ∷ (h.pagerefs pr).freelist;
    nfree = (h.pagerefs pr).nfree + 1;
  }

  still_used :
      (r x : ℕ) → InUse (h.pagerefs r) x → ((r ≢ pr) ⊎ (x ≢ o)) → pr ≡ r → InUse given_page x
  unfolding given_page
  still_used r x used apart same =
      let here : InUse (h.pagerefs pr) x = subst (λ k. InUse (h.pagerefs k) x) (sym same) used in
      let other : x ≢ o = elim apart [ inl off ↦ absurd (off (sym same)) | inr off ↦ off ] in
      let off : (x == o) ≡ false = ==_ne x o other in (here.0, rw (off, here.1))

  given : Kheap
  given = record h { pagerefs = update h.pagerefs pr given_page }

  given-Frees : Frees h given pr o
  unfolding given given_page
  given-Frees =
      let p = h.pagerefs pr in
      let q = given_page in
      let own : update h.pagerefs pr q pr ≡ q = update_self h.pagerefs pr q in
      let page' : IsPage q = IsPage-give p o (v.pages pr m) b in
      record {
        idle = λ c. cc ((subst (λ k. InUse k o) own c.1).1, elem_here o p.freelist);
        kept = λ r x c apart. (
          (
            c.0,
            update-elim (λ k. InUse k x) h.pagerefs pr r q (λ same. still_used r x c.1 apart same)
                (λ _. c.1),
          ),
          update-pageaddr h pr q v refl refl r,
          update-blktype h pr q v refl refl r,
        );
        only = λ r x c. elim (ℕ_discrete pr r) [
          | no other ↦ (c.0, subst (λ k. InUse k x) (update_ne h.pagerefs pr r q other) c.1)
          | yes same ↦
              let there : InUse q x =
                subst (λ k. InUse k x) own
                  (subst (λ k. InUse (given.pagerefs k) x) (sym same) c.1) in
              (
                c.0,
                subst (λ k. InUse (h.pagerefs k) x) same
                    (there.0, elem-cons_false x o p.freelist there.1),
              )
        ];
        valid = IsValid-update h pr q v refl refl page';
      }

  released : Kheap
  released = record {
    frames = free_kpages (h.pagerefs pr).pageaddr h.frames;
    inuse = update h.inuse pr false;
    pagerefs = update h.pagerefs pr given_page;
    sizebases =
        update h.sizebases (h.pagerefs pr).blktype (erase pr (h.sizebases (h.pagerefs pr).blktype));
    allbase = erase pr h.allbase;
  }

  left : (r : ℕ) → elem r (erase pr h.allbase) ≡ true → (elem r h.allbase ≡ true) × (pr ≢ r)
  left r n =
      let both : (elem r h.allbase && not (r == pr)) ≡ true =
        sym (elem-erase pr r h.allbase v.all_distinct) ∙ n in
      (ground arith, λ e. ground arith)

  stays : (r : ℕ) → elem r h.allbase ≡ true → pr ≢ r → elem r (erase pr h.allbase) ≡ true
  stays r n other =
      let off : (r == pr) ≡ false = ground arith in
      elem-erase pr r h.allbase v.all_distinct ∙ rw (n, off)

  old_page : (r : ℕ) → pr ≢ r → update h.pagerefs pr given_page r ≡ h.pagerefs r
  old_page r other = update_ne h.pagerefs pr r given_page other

  freed : Releases h.frames (v.framed pr m).frame (free_kpages (h.pagerefs pr).pageaddr h.frames)
  freed =
      let f = v.framed pr m in
      subst (λ a. Releases h.frames f.frame (free_kpages a h.frames)) (sym f.address)
        (free_kpages-Releases h.frames f.frame v.frames_valid f.above_own f.within f.block)

  released-framed :
      (r : ℕ)
      → elem r h.allbase ≡ true
      → pr ≢ r
      → PageFrame (free_kpages (h.pagerefs pr).pageaddr h.frames) (h.pagerefs r).pageaddr
  released-framed r n other =
      let f = v.framed pr m in
      let g = v.framed r n in
      let t = free_kpages (h.pagerefs pr).pageaddr h.frames in
      let far : f.frame ≢ g.frame = λ e. other (
        v.apart pr r m n
          (f.address ∙ (ap (λ k. frame_addr h.frames k + kseg0) e ∙ sym g.address))) in
      record {
        frame = g.frame;
        address =
            subst (λ base. (h.pagerefs r).pageaddr ≡ base + g.frame * page_size + kseg0)
              (sym freed.same_base) g.address;
        above_own = omega (arith, freed.same_own, g.above_own);
        within = omega (arith, freed.same_pages, g.within);
        block = freed.blocks g.frame 1 g.block (frames_apart f.frame g.frame far);
      }

  sizebases_left :
      (k r : ℕ) → elem r (released.sizebases k) ≡ true → (elem r (h.sizebases k) ≡ true) × (pr ≢ r)
  unfolding released
  sizebases_left k r n =
      let blk = (h.pagerefs pr).blktype in
      let erased = erase pr (h.sizebases blk) in
      elim (ℕ_discrete blk k) [
        | no d ↦
            let old : elem r (h.sizebases k) ≡ true =
              sym (ap (λ l. elem r l) (update_ne h.sizebases blk k erased d)) ∙ n in
            (old, λ e. d (subst (λ z. (h.pagerefs z).blktype ≡ k) (sym e) (v.sized k r old).1))
        | yes same ↦
            let at : elem r erased ≡ true =
              sym (ap (λ l. elem r l) (update_self h.sizebases blk erased))
              ∙ subst (λ z. elem r (update h.sizebases blk erased z) ≡ true) (sym same) n in
            let both : (elem r (h.sizebases blk) && not (r == pr)) ≡ true =
              sym (elem-erase pr r (h.sizebases blk) (v.size_distinct blk)) ∙ at in
            let there : elem r (h.sizebases blk) ≡ true = ground arith in
            (subst (λ z. elem r (h.sizebases z) ≡ true) same there, λ e. ground arith)
      ]

  released-IsValid : IsValid released
  unfolding released
  released-IsValid = record {
    frames_valid = freed.valid;
    pages =
        λ r n. let (old, other) = left r n in subst IsPage (sym (old_page r other)) (v.pages r old);
    framed = λ r n.
        let (old, other) = left r n in
        subst
          (λ (p : PageRef). PageFrame (free_kpages (h.pagerefs pr).pageaddr h.frames) p.pageaddr)
          (sym (old_page r other)) (released-framed r old other);
    marked = λ r n.
        let (old, other) = left r n in
        let (small, used) = v.marked r old in (small, update_ne h.inuse pr r false other ∙ used);
    all_distinct = erase-Distinct pr h.allbase v.all_distinct;
    size_distinct = λ k.
        update-elim Distinct h.sizebases (h.pagerefs pr).blktype k _
          (λ _. erase-Distinct pr (h.sizebases (h.pagerefs pr).blktype) (v.size_distinct _))
          (λ _. v.size_distinct k);
    sized = λ k r n.
        let (old, other) = sizebases_left k r n in
        let (listed, size) = v.sized k r old in
        (stays r listed other, ap (λ (p : PageRef). p.blktype) (old_page r other) ∙ size);
    apart = λ r s n1 n2 e.
        let (old1, other1) = left r n1 in
        let (old2, other2) = left s n2 in
        v.apart r s old1 old2 (
          sym (ap (λ (p : PageRef). p.pageaddr) (old_page r other1))
          ∙ (e ∙ ap (λ (p : PageRef). p.pageaddr) (old_page s other2)));
  }

  released-Frees :
      (h.pagerefs pr).nfree + 1 ≡ page_size / size_of (h.pagerefs pr).blktype
      → Frees h released pr o
  unfolding released
  released-Frees full = record {
    idle = λ c. (left pr c.0).1 refl;
    kept = λ r x c apart.
        let other : pr ≢ r = λ same. elim apart [
          | inl off ↦ off (sym same)
          | inr off ↦
              InUse-two (h.pagerefs pr) o x (v.pages pr m) b
                (subst (λ k. InUse (h.pagerefs k) x) (sym same) c.1) off full
        ] in
        (
          (stays r c.0 other, subst (λ k. InUse k x) (sym (old_page r other)) c.1),
          ap (λ (p : PageRef). p.pageaddr) (old_page r other),
          ap (λ (p : PageRef). p.blktype) (old_page r other),
        );
    only = λ r x c.
        let (old, other) = left r c.0 in (old, subst (λ k. InUse k x) (old_page r other) c.1);
    valid = released-IsValid;
  }

  give_block-Frees :
      (t : Kheap) × (give_block pr ((h.pagerefs pr).pageaddr + o) h ≡ done t) × Frees h t pr o
  unfolding give_block remove_lists freepageref given released given_page
  give_block-Frees =
      let p = h.pagerefs pr in
      let page = v.pages pr m in
      let back : p.pageaddr + o - p.pageaddr ≡ o = omega arith in
      let (q, e, lt) = b.0 in
      let whole : (o % size_of p.blktype == 0) ≡ true =
        subst (λ k. (k % size_of p.blktype == 0) ≡ true) (sym e)
          (zero_test _ (mul-mod_left q (size_of p.blktype))) in
      let one_more = IsPage-give p o page b in
      let le =
        length-Distinct (size_of p.blktype) (page_size / size_of p.blktype) (o ∷ p.freelist)
          one_more.distinct one_more.offsets in
      let fits : leb (p.nfree + 1) (page_size / size_of p.blktype) ≡ true =
        ground (arith, le, page.counted) in
      let known : ltb p.blktype nsizes ≡ true = ground (arith, page.known) in
      let small : ltb pr npagerefs ≡ true = ground (arith, (v.marked pr m).0) in
      elim (Bool-cases (p.nfree + 1 == page_size / size_of p.blktype)) [
        | inl full ↦ (
          released,
          rw (back, whole, fits, full, known, small, (v.marked pr m).1),
          released-Frees (ground arith),
        )
        | inr partly ↦ (given, rw (back, whole, fits, partly), given-Frees)
      ]

  -- `kfree` of a block that is in use fails no KASSERT and frees that block alone; the page goes
  -- back to the core map when it was its last block in use; the heap stays well formed.
  pub kfree-Frees : (t : Kheap) × (kfree ((h.pagerefs pr).pageaddr + o) h ≡ done t) × Frees h t pr o
  unfolding kfree subpage_kfree
  kfree-Frees =
      let f = v.framed pr m in
      let there : ((h.pagerefs pr).pageaddr + o == 0) ≡ false = ground (arith, f.address) in
      let small = IsOffset-page_size (h.pagerefs pr).blktype o (v.pages pr m).known b.0 in
      let found = page_of-finds h pr o h.allbase v m small (λ r n. n) m in
      let (t, run, frees) = give_block-Frees in (t, rw (there, found, run), frees)
