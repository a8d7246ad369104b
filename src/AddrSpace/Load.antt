-- ===== src/AddrSpace/Load.antt =====
-- `as_prepare_load` of kern/arch/mips/vm/dumbvm.c: the page tables and the frames in them.
use toy_os.Common.{
  ℕ, ◌^◌, ◌<◌, ◌≡◌, ◌≢◌, refl, sym, ◌∙◌, inl, inr, true, false, Kernel, done, arith, ◌==◌, ==_ne,
}
use toy_os.Coremap.{Frames}
use toy_os.Coremap.Blocks.{IsValid}
use toy_os.Coremap.Kpages.{Keeps, Keeps-refl, Keeps-trans}
use toy_os.Coremap.Granted.{IsFull}
use toy_os.AddrSpace.{AddrSpace, Vm, enomem, entry_addr, stackpages, map_all, as_prepare_load}
use toy_os.AddrSpace.MapPages.{IsInUse, fills, no_frame, map_pages-MapsPages}
use toy_os.AddrSpace.Tables.{
  NoTable, NewTable, pagetable_alloc-NewTable, IsMapped, Fills-IsMapped, IsMapped-Keeps,
  IsMapped-Fills, IsMapped-apart, same_entry,
}

-- The segments' addresses and sizes.
pub record SameSegments (as1 new : AddrSpace) : Type 0 where
  pub vbase1 : new.as_vbase1 ≡ as1.as_vbase1
  pub npages1 : new.as_npages1 ≡ as1.as_npages1
  pub vbase2 : new.as_vbase2 ≡ as1.as_vbase2
  pub npages2 : new.as_npages2 ≡ as1.as_npages2

-- No frame is named by an entry of both tables.
abbrev pub IsApart : Vm → ℕ → ℕ → ℕ → ℕ → Type 0
IsApart u table npages table2 npages2 =
    (i j : ℕ) → i < npages → j < npages2 → u.mem (entry_addr table i) ≢ u.mem (entry_addr table2 j)

-- All pages of the segments and the stack have frames of their own that were free and hold zeros.
pub record HasPages (s u : Vm) (new : AddrSpace) : Type 0 where
  pub text : IsMapped s u new.page_pbase1 new.as_npages1
  pub data_pages : IsMapped s u new.page_pbase2 new.as_npages2
  pub stack : IsMapped s u new.page_stackpbase stackpages
  pub text_data : IsApart u new.page_pbase1 new.as_npages1 new.page_pbase2 new.as_npages2
  pub text_stack : IsApart u new.page_pbase1 new.as_npages1 new.page_stackpbase stackpages
  pub data_stack : IsApart u new.page_pbase2 new.as_npages2 new.page_stackpbase stackpages
  pub keeps : Keeps s.frames u.frames

-- How the three loops end.
data MapsAll (new : AddrSpace) (s : Vm) (r : ℕ × Vm) : Type 0 where
  full : (t : Vm) → r ≡ (enomem, t) → IsFull 1 t.frames → Keeps s.frames t.frames → MapsAll new s r
  all_mapped : (u : Vm) → r ≡ (0, u) → HasPages s u new → MapsAll new s r

-- The entries of a page table are in frames in use.
abbrev InUse : Frames → ℕ → ℕ → Type 0
InUse s table npages = (j : ℕ) → j < npages → IsInUse s (entry_addr table j)

IsInUse-Keeps :
    {s t : Frames} {a : ℕ}
    → Keeps s t
    → ((f : ℕ) → (t.coremap f).used ≡ 0 → (s.coremap f).used ≡ 0)
    → IsInUse s a
    → IsInUse t a
IsInUse-Keeps k fewer u = record {
  outside = λ f free lo.
      let base = k.same_base in
      let o = u.outside f (fewer f free) (omega (arith, base, lo)) in omega (arith, base, o);
}

abbrev Differ : ℕ → ℕ → ℕ → ℕ → Type 0
Differ table npages table2 npages2 =
    (i j : ℕ) → i < npages → j < npages2 → entry_addr table i ≢ entry_addr table2 j

map_all-MapsAll :
    (new : AddrSpace) (s : Vm)
    → IsValid s.frames
    → InUse s.frames new.page_pbase1 new.as_npages1
    → InUse s.frames new.page_pbase2 new.as_npages2
    → InUse s.frames new.page_stackpbase stackpages
    → Differ new.page_pbase1 new.as_npages1 new.page_pbase2 new.as_npages2
    → Differ new.page_pbase1 new.as_npages1 new.page_stackpbase stackpages
    → Differ new.page_pbase2 new.as_npages2 new.page_stackpbase stackpages
    → MapsAll new s (map_all new s)
unfolding map_all
map_all-MapsAll new s v in1 in2 in3 d12 d13 d23 =
    let p1 = new.page_pbase1 in
    let p2 = new.page_pbase2 in
    let p3 = new.page_stackpbase in
    let n1 = new.as_npages1 in
    let n2 = new.as_npages2 in
    elim (map_pages-MapsPages n1 0 p1 s v (λ j lo hi. in1 j (omega arith))) [
      | no_frame t e none_left k ↦ full t (rw e) none_left k
      | fills u1 e1 x1 ↦
          let k1 = x1.keeps in
          let up1 = λ (a : ℕ) (h : IsInUse s.frames a). IsInUse-Keeps k1 x1.fewer_free h in
          elim (map_pages-MapsPages n2 0 p2 u1 k1.valid
            (λ j lo hi. up1 (entry_addr p2 j) (in2 j (omega arith)))) [
              | no_frame t e none_left k ↦ full t (rw (e1, e)) none_left (Keeps-trans k1 k)
              | fills u2 e2 x2 ↦
                  let k2 = Keeps-trans k1 x2.keeps in
                  let fewer : (f : ℕ)
                      → (u2.frames.coremap f).used ≡ 0
                      → (s.frames.coremap f).used ≡ 0 =
                    λ f free. x1.fewer_free f (x2.fewer_free f free) in
                  let up2 = λ (a : ℕ) (h : IsInUse s.frames a). IsInUse-Keeps k2 fewer h in
                  let in1' : InUse u1.frames p1 n1 = λ j lt. up1 (entry_addr p1 j) (in1 j lt) in
                  let in2' : InUse u1.frames p2 n2 = λ j lt. up1 (entry_addr p2 j) (in2 j lt) in
                  let in1'' : InUse u2.frames p1 n1 = λ j lt. up2 (entry_addr p1 j) (in1 j lt) in
                  let in2'' : InUse u2.frames p2 n2 = λ j lt. up2 (entry_addr p2 j) (in2 j lt) in
                  elim (map_pages-MapsPages stackpages 0 p3 u2 k2.valid
                    (λ j lo hi. up2 (entry_addr p3 j) (in3 j (omega arith)))) [
                      | no_frame t e none_left k ↦
                          full t (rw (e1, e2, e)) none_left (Keeps-trans k2 k)
                      | fills u3 e3 x3 ↦
                          let m1 = Fills-IsMapped x1 in
                          let m12 = IsMapped-Fills s u1 u2 p1 p2 n1 n2 k1 x2 in1' in2 d12 m1 in
                          let m2 = IsMapped-Keeps k1 x1.fewer_free (Fills-IsMapped x2) in
                          let apart12 = IsMapped-apart s u1 u2 p1 p2 n1 n2 k1 x2 in1' in2 d12 m1 in
                          let kept1 = same_entry s u2 u3 p1 p3 n1 stackpages k2 x3 in1'' in3 d13 in
                          let kept2 = same_entry s u2 u3 p2 p3 n2 stackpages k2 x3 in2'' in3 d23 in
                          all_mapped u3 (rw (e1, e2, e3)) (record {
                            text =
                                IsMapped-Fills s u2 u3 p1 p3 n1 stackpages k2 x3 in1'' in3 d13 m12;
                            data_pages =
                                IsMapped-Fills s u2 u3 p2 p3 n2 stackpages k2 x3 in2'' in3 d23 m2;
                            stack = IsMapped-Keeps k2 fewer (Fills-IsMapped x3);
                            text_data = λ i j li lj e.
                                apart12 i j li lj (sym (kept1 i li) ∙ (e ∙ kept2 j lj));
                            text_stack =
                                IsMapped-apart s u2 u3 p1 p3 n1 stackpages k2 x3 in1'' in3 d13 m12;
                            data_stack =
                                IsMapped-apart s u2 u3 p2 p3 n2 stackpages k2 x3 in2'' in3 d23 m2;
                            keeps = Keeps-trans k2 x3.keeps;
                          })
                    ]
            ]
    ]

HasPages-Keeps :
    {s t u : Vm} {new : AddrSpace}
    → Keeps s.frames t.frames
    → ((f : ℕ) → (t.frames.coremap f).used ≡ 0 → (s.frames.coremap f).used ≡ 0)
    → HasPages t u new
    → HasPages s u new
HasPages-Keeps k fewer h = record {
  text = IsMapped-Keeps k fewer h.text;
  data_pages = IsMapped-Keeps k fewer h.data_pages;
  stack = IsMapped-Keeps k fewer h.stack;
  text_data = h.text_data;
  text_stack = h.text_stack;
  data_stack = h.data_stack;
  keeps = Keeps-trans k h.keeps;
}

-- Two tables, of which the second is in frames that were free when the first was there.
tables-Differ :
    {s t : Frames} {table2 npages npages2 : ℕ} (table : ℕ)
    → InUse s table npages
    → NewTable s table2 npages2 t
    → Differ table npages table2 npages2
tables-Differ table in_use new i j li lj e =
    let (f, free, lo, hi) = new.was_free j lj in
    let o = (in_use i li).outside f free (omega (arith, e, lo)) in omega (arith, e, o, hi)

later-InUse :
    {s t : Frames} {table2 npages npages2 : ℕ} (table : ℕ)
    → InUse s table npages
    → NewTable s table2 npages2 t
    → InUse t table npages
later-InUse table in_use new j lt = IsInUse-Keeps new.keeps new.fewer_free (in_use j lt)

-- Why there is no memory for the pages of an address space.
pub data NoMemory (as1 : AddrSpace) (s : Frames) : Type 0 where
  no_text_table : NoTable as1.as_npages1 s → NoMemory as1 s
  no_data_table : NoTable as1.as_npages2 s → NoMemory as1 s
  no_stack_table : NoTable stackpages s → NoMemory as1 s
  no_page : IsFull 1 s → NoMemory as1 s

-- How `as_prepare_load` ends.
pub data Loads (as1 : AddrSpace) (s : Vm) (r : Kernel (ℕ × AddrSpace × Vm)) : Type 0 where
  loaded :
      (new : AddrSpace) (t : Vm)
      → r ≡ done (0, new, t)
      → new.page_pbase1 ≢ 0
      → new.page_pbase2 ≢ 0
      → new.page_stackpbase ≢ 0
      → SameSegments as1 new
      → HasPages s t new
      → Loads as1 s r
  no_memory :
      (new : AddrSpace) (t : Vm)
      → r ≡ done (enomem, new, t)
      → NoMemory as1 t.frames
      → SameSegments as1 new
      → Keeps s.frames t.frames
      → Loads as1 s r

-- `as_prepare_load` of an address space without page tables and of a sensible size fails no
-- KASSERT. It gives 0, and each page of the segments and the stack has in its page table a frame of
-- its own, which was free and holds zeros; or ENOMEM where no run of free frames holds one of the
-- tables, or no frame is left for a page. It keeps the segments, a valid core map, and every block
-- of frames that was in use before.
pub as_prepare_load-Loads :
    (as1 : AddrSpace) (s : Vm)
    → IsValid s.frames
    → as1.page_pbase1 ≡ 0
    → as1.page_pbase2 ≡ 0
    → as1.page_stackpbase ≡ 0
    → 0 < as1.as_npages1
    → as1.as_npages1 < 2 ^ 20
    → 0 < as1.as_npages2
    → as1.as_npages2 < 2 ^ 20
    → Loads as1 s (as_prepare_load as1 s)
unfolding as_prepare_load
as_prepare_load-Loads as1 s v z1 z2 z3 pos1 small1 pos2 small2 =
    let b1 : (as1.page_pbase1 == 0) ≡ true = ground arith in
    let b2 : (as1.page_pbase2 == 0) ≡ true = ground arith in
    let b3 : (as1.page_stackpbase == 0) ≡ true = ground arith in
    let same : (a b c : ℕ)
        → SameSegments as1 (record as1 { page_pbase1 = a; page_pbase2 = b; page_stackpbase = c }) =
      λ a b c. record { vbase1 = refl; npages1 = refl; vbase2 = refl; npages2 = refl } in
    elim (pagetable_alloc-NewTable as1.as_npages1 s.frames pos1 (omega arith) v) [
      | inl (e, none_left) ↦
          no_memory (record as1 { page_pbase1 = 0 }) s (rw (b1, b2, b3, e))
            (no_text_table none_left) (same _ _ _) (Keeps-refl s.frames v)
      | inr (t1, f1, e1, new1) ↦
          let g1 : (t1 == 0) ≡ false = ==_ne t1 0 new1.nonzero in
          elim (pagetable_alloc-NewTable as1.as_npages2 f1 pos2 (omega arith) new1.keeps.valid) [
            | inl (e, none_left) ↦
                no_memory (record as1 { page_pbase1 = t1; page_pbase2 = 0 })
                  (record s { frames = f1 }) (rw (b1, b2, b3, e1, g1, e)) (no_data_table none_left)
                  (same _ _ _) new1.keeps
            | inr (t2, f2, e2, new2) ↦
                let g2 : (t2 == 0) ≡ false = ==_ne t2 0 new2.nonzero in
                let k2 = Keeps-trans new1.keeps new2.keeps in
                elim (pagetable_alloc-NewTable stackpages f2 (omega arith) (omega arith)
                  new2.keeps.valid) [
                    | inl (e, none_left) ↦
                        no_memory
                          (record as1 { page_pbase1 = t1; page_pbase2 = t2; page_stackpbase = 0 })
                          (record s { frames = f2 }) (rw (b1, b2, b3, e1, g1, e2, g2, e))
                          (no_stack_table none_left) (same _ _ _) k2
                    | inr (t3, f3, e3, new3) ↦
                        let g3 : (t3 == 0) ≡ false = ==_ne t3 0 new3.nonzero in
                        let k3 = Keeps-trans k2 new3.keeps in
                        let with3 : AddrSpace = record as1 {
                          page_pbase1 = t1;
                          page_pbase2 = t2;
                          page_stackpbase = t3;
                        } in
                        let s3 : Vm = record s { frames = f3 } in
                        let in1 = later-InUse t1 new1.in_use new2 in
                        elim (map_all-MapsAll with3 s3 k3.valid (later-InUse t1 in1 new3)
                          (later-InUse t2 new2.in_use new3) new3.in_use
                          (tables-Differ t1 new1.in_use new2) (tables-Differ t1 in1 new3)
                          (tables-Differ t2 new2.in_use new3)) [
                            | full t e none_left k ↦
                                no_memory with3 t (rw (b1, b2, b3, e1, g1, e2, g2, e3, g3, e))
                                  (no_page none_left) (same _ _ _) (Keeps-trans k3 k)
                            | all_mapped u e pages ↦
                                loaded with3 u (rw (b1, b2, b3, e1, g1, e2, g2, e3, g3, e))
                                  new1.nonzero new2.nonzero new3.nonzero (same _ _ _)
                                  (HasPages-Keeps k3
                                    (λ f free.
                                      new1.fewer_free f
                                        (new2.fewer_free f (new3.fewer_free f free)))
                                    pages)
                          ]
                  ]
          ]
    ]
