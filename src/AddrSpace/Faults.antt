-- ===== src/AddrSpace/Faults.antt =====
-- `vm_fault` of kern/arch/mips/vm/dumbvm.c: what a page fault does to the TLB.
use toy_os.Common.{
  ℕ, zero, suc, ◌+◌, ◌-◌, ◌*◌, ◌/◌, ◌%◌, ◌≤◌, ◌<◌, ◌≡◌, ◌≢◌, refl, ◌⊎◌, inl, inr, Bool, true, false,
  not, ◌&&◌, Option, none, some, Kernel, done, arith, Bool-cases, Option-cases, ltb, leb, ◌==◌,
  update,
}
use toy_os.Coremap.{page_size, u32}
use toy_os.AddrSpace.{
  AddrSpace, Vm, entry_addr, stackpages, userstack, efault, num_tlb, TlbEntry, is_valid_entry,
  is_dirty_entry, free_entry_of, lookup_page, is_set_up, FaultEnd, returns, tlb_entry, fault_page,
  vm_fault,
}

free_entry_of-some :
    (rounds i : ℕ) (tlb : ℕ → TlbEntry) {k : ℕ}
    → free_entry_of rounds i tlb ≡ some k
    → (k < i + rounds) × (is_valid_entry (tlb k) ≡ false)
unfolding free_entry_of
free_entry_of-some zero i tlb e = cc
free_entry_of-some (suc rounds) i tlb {k} e =
    ground (arith, free_entry_of-some rounds (i + 1) tlb {k = k})

free_entry_of-none :
    (rounds i : ℕ) (tlb : ℕ → TlbEntry) (k : ℕ)
    → free_entry_of rounds i tlb ≡ none
    → i ≤ k
    → k < i + rounds
    → is_valid_entry (tlb k) ≡ true
unfolding free_entry_of
free_entry_of-none zero i tlb k e lo hi = absurd (omega arith)
free_entry_of-none (suc rounds) i tlb k e lo hi =
    ground (arith, free_entry_of-none rounds (i + 1) tlb k)

-- The slot that `vm_fault` writes: an entry that is not valid, or `tlb_random`'s where all are.
abbrev pub IsSlot : ℕ → (ℕ → TlbEntry) → ℕ → Type 0
IsSlot victim tlb slot =
    (slot < num_tlb)
    × ((is_valid_entry (tlb slot) ≡ false)
        ⊎ ((slot ≡ victim) × ((k : ℕ) → k < num_tlb → is_valid_entry (tlb k) ≡ true)))

-- What the hardware reads in the new entry: the page, the frame, and whether it may be written.
abbrev pub Maps : TlbEntry → ℕ → ℕ → Bool → Type 0
Maps e fault paddr writable =
    (e.ehi ≡ fault)
    × (e.elo / page_size ≡ paddr / page_size)
    × (is_valid_entry e ≡ true)
    × (is_dirty_entry e ≡ writable)

tlb_entry-Maps :
    (readonly : Bool) (fault paddr : ℕ)
    → paddr % page_size ≡ 0
    → Maps (tlb_entry readonly fault paddr) fault paddr (not readonly)
tlb_entry-Maps true fault paddr e = (refl, omega arith, ground arith, ground arith)
tlb_entry-Maps false fault paddr e = (refl, omega arith, ground arith, ground arith)

-- A fault in a page that is mapped writes one entry of the TLB, in a free slot if there is one. The
-- entry maps the page to its frame, and may be written unless the page is text of a loaded program.
pub fault_page-Maps :
    (victim : ℕ) (loaded : Bool) (fault : ℕ) (tlb : ℕ → TlbEntry) (is_text : Bool) (paddr : ℕ)
    → victim < num_tlb
    → paddr % page_size ≡ 0
    → (slot : ℕ) × (e : TlbEntry) × (fault_page victim loaded fault tlb (some (is_text, paddr))
        ≡ done (returns 0, update tlb slot e))
      × IsSlot victim tlb slot
      × Maps e fault paddr (not (is_text && loaded))
unfolding fault_page
fault_page-Maps victim loaded fault tlb is_text paddr hv aligned =
    let whole : (paddr % page_size == 0) ≡ true = ground arith in
    elim (Option-cases (free_entry_of num_tlb 0 tlb)) [
      | inl full ↦ (
        victim,
        tlb_entry (is_text && loaded) fault paddr,
        rw (whole, full),
        (hv, inr (refl, λ k h. free_entry_of-none num_tlb 0 tlb k full (omega arith) h)),
        tlb_entry-Maps (is_text && loaded) fault paddr aligned,
      )
      | inr (k, free) ↦ (
        k,
        tlb_entry (is_text && loaded) fault paddr,
        rw (whole, free),
        (
          omega (arith, (free_entry_of-some num_tlb 0 tlb free).0),
          inl (free_entry_of-some num_tlb 0 tlb free).1,
        ),
        tlb_entry-Maps (is_text && loaded) fault paddr aligned,
      )
    ]

fault_page-none :
    (victim : ℕ) (loaded : Bool) (fault : ℕ) (tlb : ℕ → TlbEntry)
    → fault_page victim loaded fault tlb none ≡ done (returns efault, tlb)
unfolding fault_page
fault_page-none victim loaded fault tlb = refl

-- A loaded address space in user memory: set up, with page-aligned frames in its page tables.
pub record IsLoaded (as1 : AddrSpace) (mem : ℕ → ℕ) : Type 0 where
  pub set_up : is_set_up as1 ≡ true
  pub fits1 : as1.as_vbase1 + as1.as_npages1 * page_size ≤ userstack
  pub fits2 : as1.as_vbase2 + as1.as_npages2 * page_size ≤ userstack
  pub aligned1 : (k : ℕ) → k < as1.as_npages1 → mem (entry_addr as1.page_pbase1 k) % page_size ≡ 0
  pub aligned2 : (k : ℕ) → k < as1.as_npages2 → mem (entry_addr as1.page_pbase2 k) % page_size ≡ 0
  pub aligned3 : (k : ℕ) → k < stackpages → mem (entry_addr as1.page_stackpbase k) % page_size ≡ 0

-- The pages of an address space, each with whether it is text and with its frame.
pub data PageOf (as1 : AddrSpace) (mem : ℕ → ℕ) (page : ℕ) (is_text : Bool) (paddr : ℕ)
    : Type 0 where
  text_page :
      (k : ℕ)
      → k < as1.as_npages1
      → page ≡ as1.as_vbase1 + k * page_size
      → is_text ≡ true
      → paddr ≡ mem (entry_addr as1.page_pbase1 k)
      → PageOf as1 mem page is_text paddr
  data_page :
      (k : ℕ)
      → k < as1.as_npages2
      → page ≡ as1.as_vbase2 + k * page_size
      → is_text ≡ false
      → paddr ≡ mem (entry_addr as1.page_pbase2 k)
      → PageOf as1 mem page is_text paddr
  stack_page :
      (k : ℕ)
      → k < stackpages
      → page ≡ userstack - stackpages * page_size + k * page_size
      → is_text ≡ false
      → paddr ≡ mem (entry_addr as1.page_stackpbase k)
      → PageOf as1 mem page is_text paddr

-- A page of a segment of `n` pages at `base` has an index in its page table.
abbrev in_segment : ℕ → ℕ → ℕ → Bool
in_segment base n page = leb base page && ltb page (u32 (base + n * page_size))

in_segment-index :
    (base n page : ℕ)
    → base % page_size ≡ 0
    → page % page_size ≡ 0
    → base + n * page_size ≤ userstack
    → in_segment base n page ≡ true
    → ((page - base) / page_size < n) × (page ≡ base + (page - base) / page_size * page_size)
in_segment-index base n page aligned whole fits h =
    let lo : base ≤ page = ground arith in
    let hi : page < base + n * page_size = ground arith in (omega arith, omega arith)

not_in_segment :
    (base n page k : ℕ)
    → base + n * page_size ≤ userstack
    → in_segment base n page ≡ false
    → k < n
    → page ≢ base + k * page_size
not_in_segment base n page k fits h lt e =
    let lo : leb base page ≡ true = ground arith in
    let hi : ltb page (u32 (base + n * page_size)) ≡ true = ground arith in ground arith

set_up-aligned :
    (as1 : AddrSpace)
    → is_set_up as1 ≡ true
    → (as1.as_vbase1 % page_size ≡ 0) × (as1.as_vbase2 % page_size ≡ 0)
set_up-aligned as1 h = ground arith

abbrev stackbase : ℕ
stackbase = userstack - stackpages * page_size

-- What the segments' tests find.
abbrev Lookup : AddrSpace → (ℕ → ℕ) → ℕ → Option (Bool × ℕ) → Type 0
Lookup as1 mem page r =
    ((is_text : Bool) × (paddr : ℕ) × (r ≡ some (is_text, paddr))
      × PageOf as1 mem page is_text paddr
      × (paddr % page_size ≡ 0))
    ⊎ ((r ≡ none) × ((is_text : Bool) (paddr : ℕ) → ¬ PageOf as1 mem page is_text paddr))

no_page :
    (as1 : AddrSpace) (mem : ℕ → ℕ) (page : ℕ)
    → IsLoaded as1 mem
    → in_segment as1.as_vbase1 as1.as_npages1 page ≡ false
    → in_segment as1.as_vbase2 as1.as_npages2 page ≡ false
    → (leb stackbase page && ltb page userstack) ≡ false
    → (is_text : Bool) (paddr : ℕ) → ¬ PageOf as1 mem page is_text paddr
no_page as1 mem page l n1 n2 n3 is_text paddr (text_page k lt e _ _) =
    not_in_segment as1.as_vbase1 as1.as_npages1 page k l.fits1 n1 lt e
no_page as1 mem page l n1 n2 n3 is_text paddr (data_page k lt e _ _) =
    not_in_segment as1.as_vbase2 as1.as_npages2 page k l.fits2 n2 lt e
no_page as1 mem page l n1 n2 n3 is_text paddr (stack_page k lt e _ _) = ground arith

lookup_page-PageOf :
    (as1 : AddrSpace) (mem : ℕ → ℕ) (page : ℕ)
    → page % page_size ≡ 0
    → IsLoaded as1 mem
    → Lookup as1 mem page (lookup_page as1 mem page)
lookup_page-PageOf as1 mem page whole l =
    let (a1, a2) = set_up-aligned as1 l.set_up in
    elim (Bool-cases (in_segment as1.as_vbase1 as1.as_npages1 page)) [
      | inl text ↦
          let (lt, e) = in_segment-index as1.as_vbase1 as1.as_npages1 page a1 whole l.fits1 text in
          inl (true, _, rw text, text_page _ lt e refl refl, l.aligned1 _ lt)
      | inr not_text ↦ elim (Bool-cases (in_segment as1.as_vbase2 as1.as_npages2 page)) [
        | inl stored ↦
            let (lt, e) =
              in_segment-index as1.as_vbase2 as1.as_npages2 page a2 whole l.fits2 stored in
            inl (false, _, rw (not_text, stored), data_page _ lt e refl refl, l.aligned2 _ lt)
        | inr not_data ↦ elim (Bool-cases (leb stackbase page && ltb page userstack)) [
          | inl stack ↦
              let (lt, e) =
                in_segment-index stackbase stackpages page refl whole (omega arith)
                  (ground arith) in
              inl (
                false,
                _,
                rw (not_text, not_data, stack),
                stack_page _ lt e refl refl,
                l.aligned3 _ lt,
              )
          | inr not_stack ↦ inr (
            rw (not_text, not_data, not_stack),
            no_page as1 mem page l not_text not_data not_stack,
          )
        ]
      ]
    ]

-- How `vm_fault` for a read or a write ends in a process with a loaded address space: the page is
-- one of its pages and is mapped in one slot of the TLB, or it is not and the fault is EFAULT.
pub data Faulted (victim : ℕ) (loaded : Bool) (as1 : AddrSpace) (mem : ℕ → ℕ) (page : ℕ)
    (tlb : ℕ → TlbEntry) (r : Kernel (FaultEnd × (ℕ → TlbEntry))) : Type 0 where
  mapped :
      (is_text : Bool) (paddr slot : ℕ) (e : TlbEntry)
      → PageOf as1 mem page is_text paddr
      → IsSlot victim tlb slot
      → Maps e page paddr (not (is_text && loaded))
      → r ≡ done (returns 0, update tlb slot e)
      → Faulted victim loaded as1 mem page tlb r
  bad_address :
      ((is_text : Bool) (paddr : ℕ) → ¬ PageOf as1 mem page is_text paddr)
      → r ≡ done (returns efault, tlb)
      → Faulted victim loaded as1 mem page tlb r

-- A read or write fault maps the page to its frame, writable unless it is text of a loaded program,
-- in a free slot of the TLB if there is one and else in `tlb_random`'s; no other slot changes. A
-- fault outside the address space is EFAULT and changes nothing. No KASSERT fails.
pub vm_fault-Faulted :
    (victim : ℕ) (loaded : Bool) (as1 : AddrSpace) (s : Vm) (faulttype faultaddress : ℕ)
    (tlb : ℕ → TlbEntry)
    → victim < num_tlb
    → faulttype < 2
    → IsLoaded as1 s.mem
    → Faulted victim loaded as1 s.mem
        (faultaddress - faultaddress % page_size)
        tlb
        (vm_fault victim (some (loaded, some as1)) s faulttype faultaddress tlb)
unfolding vm_fault
vm_fault-Faulted victim loaded as1 s faulttype addr tlb hv read_write l =
    let page = addr - addr % page_size in
    let whole : page % page_size ≡ 0 = omega arith in
    let readonly : (faulttype == 2) ≡ false = ground arith in
    let known : ltb 2 faulttype ≡ false = ground arith in
    elim (lookup_page-PageOf as1 s.mem page whole l) [
      | inl (is_text, paddr, found, at, aligned) ↦
          let (slot, e, ends, free, maps) =
            fault_page-Maps victim loaded page tlb is_text paddr hv aligned in
          mapped is_text paddr slot e at free maps (rw (readonly, known, l.set_up, found, ends))
      | inr (missing, absent) ↦
          bad_address absent
            (rw (readonly, known, l.set_up, missing, fault_page-none victim loaded page tlb))
    ]
