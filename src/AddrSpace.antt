-- ===== src/AddrSpace.antt =====
-- kern/arch/mips/vm/dumbvm.c: address spaces and page faults. The configuration is ASST3 (OPT_A3).
-- A page table is an array of words in the kernel's memory, at the address that the address space
-- holds; NULL is 0. Masks of aligned words are written as sums and remainders.
pub mod Regions
pub mod Faults
pub mod MapPages
pub mod Tables
pub mod Load
mod Tests
use toy_os.Common.{
  ℕ, zero, suc, ◌+◌, ◌-◌, ◌*◌, ◌/◌, ◌%◌, ◌^◌, Bool, true, false, not, ◌&&◌, Option, none, some,
  Kernel, done, panic, kassert, ◌>>=◌, ◌>>◌, ltb, leb, ◌==◌, if◌then◌else◌, update,
}
use toy_os.Coremap.{page_size, kseg0, u32, round_up, Frames, getppages, alloc_kpages, free_kpages}

-- kern/include/kern/errno.h
abbrev pub eunimp : ℕ
eunimp = 2

abbrev pub enomem : ℕ
enomem = 3

abbrev pub efault : ℕ
efault = 6

abbrev pub einval : ℕ
einval = 8

abbrev pub stackpages : ℕ
stackpages = 12

abbrev pub userstack : ℕ
userstack = kseg0

-- `struct addrspace`
pub record AddrSpace : Type 0 where
  pub as_vbase1 : ℕ
  pub page_pbase1 : ℕ
  pub as_npages1 : ℕ
  pub as_vbase2 : ℕ
  pub page_pbase2 : ℕ
  pub as_npages2 : ℕ
  pub page_stackpbase : ℕ

-- The frames, and the words of kernel memory by their kernel virtual address.
pub record Vm : Type 0 where
  pub frames : Frames
  pub mem : ℕ → ℕ

-- `table[i].paddr`; an entry is a word of four bytes.
abbrev pub entry_addr : ℕ → ℕ → ℕ
entry_addr table i = table + i * 4

-- `as_create`, where the memory for it is there.
unfoldable pub as_create : AddrSpace
as_create = record {
  as_vbase1 = 0;
  page_pbase1 = 0;
  as_npages1 = 0;
  as_vbase2 = 0;
  page_pbase2 = 0;
  as_npages2 = 0;
  page_stackpbase = 0;
}

-- `as_define_region`, with the errno that it returns.
unfoldable pub as_define_region : ℕ → ℕ → AddrSpace → ℕ × AddrSpace
as_define_region vaddr sz as1 =
    let size = u32 (sz + vaddr % page_size) in
    let base = vaddr - vaddr % page_size in
    let up = u32 (size + page_size - 1) in
    let npages = (up - up % page_size) / page_size in
    if as1.as_vbase1 == 0
    then (0, record as1 { as_vbase1 = base; as_npages1 = npages })
    else (if as1.as_vbase2 == 0
        then (0, record as1 { as_vbase2 = base; as_npages2 = npages })
        else (eunimp, as1))

-- `as_define_stack`: the initial stack pointer.
unfoldable pub as_define_stack : AddrSpace → Kernel ℕ
as_define_stack as1 = kassert (not (as1.page_stackpbase == 0)) >> done userstack

-- `pagetable_alloc`
unfoldable pub pagetable_alloc : ℕ → Frames → ℕ × Frames
pagetable_alloc npages s = alloc_kpages (round_up (u32 (npages * 4)) page_size / page_size) s

-- `as_zero_region` of one page
abbrev pub zero_page : ℕ → (ℕ → ℕ) → ℕ → ℕ
zero_page paddr mem a =
    if leb (paddr + kseg0) a && ltb a (paddr + kseg0 + page_size) then 0 else mem a

-- `memmove` of one page, from `src` to `dst`
abbrev pub copy_page : ℕ → ℕ → (ℕ → ℕ) → ℕ → ℕ
copy_page dst src mem a =
    if leb (dst + kseg0) a && ltb a (dst + kseg0 + page_size) then mem (a - dst + src) else mem a

-- A loop of `as_prepare_load` over one page table, `rounds` entries from `i` on.
unfoldable pub map_pages : ℕ → ℕ → ℕ → Vm → ℕ × Vm
map_pages zero i table s = (0, s)
map_pages (suc rounds) i table s =
    let (pa, frames) = getppages 1 s.frames in
    let stored = update s.mem (entry_addr table i) pa in
    let rest =
      map_pages rounds (i + 1) table (record { frames = frames; mem = zero_page pa stored }) in
    if pa == 0 then (enomem, record { frames = frames; mem = stored }) else rest

-- The loops of `as_prepare_load`, one after the other.
unfoldable pub map_all : AddrSpace → Vm → ℕ × Vm
unfolding map_pages
map_all as1 s =
    let (e1, s1) = map_pages as1.as_npages1 0 as1.page_pbase1 s in
    let (e2, s2) = map_pages as1.as_npages2 0 as1.page_pbase2 s1 in
    if e1 == 0
    then (if e2 == 0 then map_pages stackpages 0 as1.page_stackpbase s2 else (e2, s2))
    else (e1, s1)

-- `as_prepare_load`
unfoldable pub as_prepare_load : AddrSpace → Vm → Kernel (ℕ × AddrSpace × Vm)
unfolding pagetable_alloc map_all
as_prepare_load as1 s =
    let (t1, f1) = pagetable_alloc as1.as_npages1 s.frames in
    let (t2, f2) = pagetable_alloc as1.as_npages2 f1 in
    let (t3, f3) = pagetable_alloc stackpages f2 in
    let with1 : AddrSpace = record as1 { page_pbase1 = t1 } in
    let with2 : AddrSpace = record with1 { page_pbase2 = t2 } in
    let with3 : AddrSpace = record with2 { page_stackpbase = t3 } in
    let (e, t) = map_all with3 (record s { frames = f3 }) in
    kassert (as1.page_pbase1 == 0)
    >> (kassert (as1.page_pbase2 == 0)
        >> (kassert (as1.page_stackpbase == 0)
            >> (if t1 == 0
                then done (enomem, with1, record s { frames = f1 })
                else (if t2 == 0
                    then done (enomem, with2, record s { frames = f2 })
                    else (if t3 == 0
                        then done (enomem, with3, record s { frames = f3 })
                        else done (e, with3, t))))))

-- A loop of `as_destroy`: the frames of `rounds` entries from `i` on are freed.
unfoldable pub free_pages : ℕ → ℕ → ℕ → Vm → Vm
free_pages zero i table s = s
free_pages (suc rounds) i table s =
    free_pages rounds (i + 1) table
      (record s { frames = free_kpages (u32 (s.mem (entry_addr table i) + kseg0)) s.frames })

-- A loop of `as_destroy` over a page table that is NULL: the fault of the kernel panics.
abbrev follows_null : ℕ → ℕ → Bool
follows_null npages table = ltb 0 npages && table == 0

-- `as_destroy`
unfoldable pub as_destroy : AddrSpace → Vm → Kernel Vm
unfolding free_pages
as_destroy as1 s =
    let s1 = free_pages as1.as_npages1 0 as1.page_pbase1 s in
    let s2 = free_pages as1.as_npages2 0 as1.page_pbase2 s1 in
    let s3 = free_pages stackpages 0 as1.page_stackpbase s2 in
    if follows_null as1.as_npages1 as1.page_pbase1
    then panic
    else (if follows_null as1.as_npages2 as1.page_pbase2
        then panic
        else (if follows_null stackpages as1.page_stackpbase
            then panic
            else done (record s3 {
              frames =
                  free_kpages as1.page_stackpbase
                    (free_kpages as1.page_pbase2 (free_kpages as1.page_pbase1 s3.frames));
            })))

-- A loop of `as_copy`: the pages of `rounds` entries from `i` on are copied.
unfoldable pub copy_pages : ℕ → ℕ → ℕ → ℕ → Vm → Vm
copy_pages zero i new old s = s
copy_pages (suc rounds) i new old s =
    copy_pages rounds (i + 1) new old
      (record s { mem = copy_page (s.mem (entry_addr new i)) (s.mem (entry_addr old i)) s.mem })

-- The loops of `as_copy`, one after the other.
unfoldable pub copy_all : AddrSpace → AddrSpace → Vm → Vm
copy_all new old s = copy_pages stackpages 0 new.page_stackpbase old.page_stackpbase (
    copy_pages new.as_npages2 0 new.page_pbase2 old.page_pbase2
      (copy_pages new.as_npages1 0 new.page_pbase1 old.page_pbase1 s))

-- `as_copy`, with what `as_prepare_load` has given.
unfoldable pub copy_loaded : AddrSpace → ℕ × AddrSpace × Vm → Kernel (ℕ × Option AddrSpace × Vm)
copy_loaded old (e, new, t) =
    if e == 0
    then (kassert (not (new.page_pbase1 == 0))
        >> (kassert (not (new.page_pbase2 == 0))
            >> (kassert (not (new.page_stackpbase == 0))
                >> done (0, some new, copy_all new old t))))
    else (as_destroy new t >>= λ u. done (enomem, none, u))

-- `as_copy`; the flag says whether `as_create` has the memory.
unfoldable pub as_copy : Bool → AddrSpace → Vm → Kernel (ℕ × Option AddrSpace × Vm)
as_copy as_ok old s =
    let new : AddrSpace = record as_create {
      as_vbase1 = old.as_vbase1;
      as_npages1 = old.as_npages1;
      as_vbase2 = old.as_vbase2;
      as_npages2 = old.as_npages2;
    } in
    if as_ok then (as_prepare_load new s >>= copy_loaded old) else done (enomem, none, s)

-- kern/arch/mips/include/tlb.h
abbrev pub num_tlb : ℕ
num_tlb = 64

abbrev pub tlblo_dirty : ℕ
tlblo_dirty = 0x400

abbrev pub tlblo_valid : ℕ
tlblo_valid = 0x200

pub record TlbEntry : Type 0 where
  pub ehi : ℕ
  pub elo : ℕ

-- `elo & TLBLO_VALID` and `elo & TLBLO_DIRTY`
abbrev pub is_valid_entry : TlbEntry → Bool
is_valid_entry e = e.elo / tlblo_valid % 2 == 1

abbrev pub is_dirty_entry : TlbEntry → Bool
is_dirty_entry e = e.elo / tlblo_dirty % 2 == 1

-- `as_activate`: TLBHI_INVALID(i) is the address of the unmapped page 0x80000 + i.
unfoldable pub as_activate : Option AddrSpace → (ℕ → TlbEntry) → ℕ → TlbEntry
as_activate none tlb = tlb
as_activate (some as1) tlb =
    λ i. if ltb i num_tlb then record { ehi = (0x80000 + i) * page_size; elo = 0 } else tlb i

-- `as_complete_load`: the process's `loaded` flag, and the TLB.
unfoldable pub as_complete_load : Option AddrSpace → (ℕ → TlbEntry) → Bool × (ℕ → TlbEntry)
unfolding as_activate
as_complete_load current tlb = (true, as_activate current tlb)

-- The search of `vm_fault` for an entry that is not valid, `rounds` from `i` on.
unfoldable pub free_entry_of : ℕ → ℕ → (ℕ → TlbEntry) → Option ℕ
free_entry_of zero i tlb = none
free_entry_of (suc rounds) i tlb =
    let rest = free_entry_of rounds (i + 1) tlb in if is_valid_entry (tlb i) then rest else some i

-- The page of the fault, in its segment: whether it is text, and the physical address.
abbrev pub lookup_page : AddrSpace → (ℕ → ℕ) → ℕ → Option (Bool × ℕ)
lookup_page as1 mem fault =
    let vtop1 = u32 (as1.as_vbase1 + as1.as_npages1 * page_size) in
    let vtop2 = u32 (as1.as_vbase2 + as1.as_npages2 * page_size) in
    let stackbase = userstack - stackpages * page_size in
    let entry = λ (table base : ℕ). mem (entry_addr table ((fault - base) / page_size)) in
    if leb as1.as_vbase1 fault && ltb fault vtop1
    then some (true, entry as1.page_pbase1 as1.as_vbase1)
    else (if leb as1.as_vbase2 fault && ltb fault vtop2
        then some (false, entry as1.page_pbase2 as1.as_vbase2)
        else (if leb stackbase fault && ltb fault userstack
            then some (false, entry as1.page_stackpbase stackbase)
            else none))

-- The KASSERTs of `vm_fault` on the address space.
abbrev pub is_set_up : AddrSpace → Bool
is_set_up as1 =
    not (as1.as_vbase1 == 0)
    && (not (as1.page_pbase1 == 0)
        && (not (as1.as_npages1 == 0)
            && (not (as1.page_pbase2 == 0)
                && (not (as1.as_vbase2 == 0)
                    && (not (as1.as_npages2 == 0)
                        && (not (as1.page_stackpbase == 0)
                            && (as1.as_vbase1 % page_size == 0
                                && as1.as_vbase2 % page_size == 0)))))))

-- How `vm_fault` ends: it returns an errno, or the process exits.
pub data FaultEnd : Type 0 where
  returns : ℕ → FaultEnd
  exits : ℕ → FaultEnd

-- The writable entry of a page, and that of a text page once the program is loaded. The page
-- address is aligned, so the flags are added to it.
abbrev pub tlb_entry : Bool → ℕ → ℕ → TlbEntry
tlb_entry readonly fault paddr = record {
  ehi = fault;
  elo = if readonly then paddr + tlblo_valid else paddr + tlblo_dirty + tlblo_valid;
}

-- `vm_fault` from the lookup on; `victim` is the slot that `tlb_random` chooses.
unfoldable pub fault_page :
    ℕ → Bool → ℕ → (ℕ → TlbEntry) → Option (Bool × ℕ) → Kernel (FaultEnd × (ℕ → TlbEntry))
fault_page victim loaded fault tlb none = done (returns efault, tlb)
fault_page victim loaded fault tlb (some (is_text, paddr)) =
    let entry = tlb_entry (is_text && loaded) fault paddr in
    let slot : ℕ = elim (free_entry_of num_tlb 0 tlb) [ some i ↦ i | none ↦ victim ] in
    kassert (paddr % page_size == 0) >> done (returns 0, update tlb slot entry)

-- `vm_fault` in a process; `current` is its `loaded` flag and its address space, or `none`.
unfoldable pub vm_fault :
    ℕ
    → Option (Bool × Option AddrSpace)
    → Vm
    → ℕ
    → ℕ
    → (ℕ → TlbEntry)
    → Kernel (FaultEnd × (ℕ → TlbEntry))
vm_fault victim current s faulttype faultaddress tlb =
    if faulttype == 2
    then done (exits 1, tlb)
    else (if ltb 2 faulttype then done (returns einval, tlb) else elim current [
      | none ↦ done (returns efault, tlb)
      | some (loaded, none) ↦ done (returns efault, tlb)
      | some (loaded, some as1) ↦
          let fault = faultaddress - faultaddress % page_size in
          kassert (is_set_up as1)
          >> fault_page victim loaded fault tlb (lookup_page as1 s.mem fault)
    ])
