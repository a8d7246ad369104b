-- ===== src/Coremap.antt =====
-- kern/arch/mips/vm/dumbvm.c (the core map), kern/arch/mips/vm/ram.c, kern/include/coremap.h:
-- the physical page frames. Addresses and counts are 32-bit words, their sums taken mod 2^32;
-- the spinlocks make each routine one atomic step, so they leave no trace here.
pub mod Scan
pub mod Blocks
pub mod Boot
pub mod Kpages
pub mod Granted
pub mod NewFrame
mod Tests
use toy_os.Common.{
  ℕ, zero, suc, ◌+◌, ◌-◌, ◌*◌, ◌/◌, ◌%◌, ◌^◌, Bool, true, false, Option, none, some, ltb, ◌==◌,
  if◌then◌else◌, update, fill,
}

abbrev pub page_size : ℕ
page_size = 4096

abbrev pub kseg0 : ℕ
kseg0 = 0x8000_0000

abbrev pub u32 : ℕ → ℕ
u32 n = n % 2 ^ 32

-- `struct coremap_entry`
pub record Entry : Type 0 where
  pub used : ℕ
  pub count : ℕ

abbrev pub entry_size : ℕ
entry_size = 8

abbrev pub free_entry : Entry
free_entry = record { used = 0; count = 0 }

abbrev pub used_entry : ℕ → Entry
used_entry n = record { used = 1; count = n }

-- The static variables of ram.c and dumbvm.c.
pub record Frames : Type 0 where
  pub firstpaddr : ℕ
  pub lastpaddr : ℕ
  pub vm_bootstrap_flag : Bool
  pub num_of_coremap_pages : ℕ
  pub num_of_pages : ℕ
  pub firstaddr : ℕ
  pub lastaddr : ℕ
  pub coremap : ℕ → Entry

-- DIVROUNDUP and ROUNDUP of lib.h; ROUNDUP's argument `b` is a page size here.
abbrev pub div_round_up : ℕ → ℕ → ℕ
div_round_up a b = (a + b - 1) / b

abbrev pub round_up : ℕ → ℕ → ℕ
round_up a b = div_round_up a b * b

-- `ram_stealmem`: 0 for failure.
unfoldable pub ram_stealmem : ℕ → Frames → ℕ × Frames
ram_stealmem npages s =
    let size = u32 (npages * page_size) in
    if ltb s.lastpaddr (u32 (s.firstpaddr + size))
    then (0, s)
    else (s.firstpaddr, record s { firstpaddr = u32 (s.firstpaddr + size) })

-- `ram_getsize`
unfoldable pub ram_getsize : Frames → ℕ × ℕ × Frames
ram_getsize s = (s.firstpaddr, s.lastpaddr, record s { firstpaddr = 0; lastpaddr = 0 })

-- The loop of `vm_bootstrap`: the core map's own pages are taken, the others free.
boot_entry : ℕ → ℕ → Entry
boot_entry own i = if ltb i own then used_entry 1 else free_entry

boot_loop : ℕ → ℕ → ℕ → (ℕ → Entry) → ℕ → Entry
unfolding boot_entry
boot_loop zero own i cm = cm
boot_loop (suc rounds) own i cm = boot_loop rounds own (i + 1) (update cm i (boot_entry own i))

-- `vm_bootstrap`
unfoldable pub vm_bootstrap : Frames → Frames
unfolding ram_getsize boot_loop
vm_bootstrap s =
    let (lo, hi, t) = ram_getsize s in
    let pages = u32 (hi + 2 ^ 32 - lo) / page_size in
    let own = round_up (u32 (pages * entry_size)) page_size / page_size in
    record t {
      vm_bootstrap_flag = true;
      num_of_coremap_pages = own;
      num_of_pages = pages;
      firstaddr = lo;
      lastaddr = hi;
      coremap = boot_loop pages own 0 t.coremap;
    }

-- The search of `coremap_alloc`: `rounds` indices from `i` on are left, and the `run` indices
-- below `i` are free. The answer is the first index of the run that is found.
unfoldable pub scan : (ℕ → Entry) → ℕ → ℕ → ℕ → ℕ → Option ℕ
scan cm npages zero i run = none
scan cm npages (suc rounds) i run =
    let grown = scan cm npages rounds (i + 1) (run + 1) in
    let reset = scan cm npages rounds (i + 1) 0 in
    if (cm i).used == 0
    then (if run + 1 == npages then some (i + 1 - (run + 1)) else grown)
    else reset

-- The entries that `coremap_alloc` fills in for the run of `npages` frames at `start`.
unfoldable pub take_run : ℕ → ℕ → (ℕ → Entry) → ℕ → Entry
unfolding fill
take_run npages start cm =
    fill (npages - 1) (start + 1) (used_entry 1) (update cm start (used_entry npages))

-- The whole search: from the first frame above the core map's own pages to the last.
abbrev pub free_run : ℕ → Frames → Option ℕ
free_run npages s =
    scan s.coremap npages (s.num_of_pages - s.num_of_coremap_pages) s.num_of_coremap_pages 0

-- `coremap_alloc`: 0 for failure.
unfoldable pub coremap_alloc : ℕ → Frames → ℕ × Frames
unfolding scan take_run
coremap_alloc npages s = elim (free_run npages s) [
  | none ↦ (0, s)
  | some start ↦ (
    u32 (s.firstaddr + start * page_size),
    record s { coremap = take_run npages start s.coremap },
  )
]

-- `coremap_dealloc`
unfoldable pub coremap_dealloc : ℕ → Frames → Frames
unfolding fill
coremap_dealloc pa s =
    let start = u32 (pa + 2 ^ 32 - s.firstaddr) / page_size in
    let end = u32 (start + (s.coremap start).count) in
    record s { coremap = fill (end - start) start free_entry s.coremap }

-- `getppages`
unfoldable pub getppages : ℕ → Frames → ℕ × Frames
getppages npages s = if s.vm_bootstrap_flag then coremap_alloc npages s else ram_stealmem npages s

-- `alloc_kpages`: 0 for failure, and else a virtual address.
unfoldable pub alloc_kpages : ℕ → Frames → ℕ × Frames
alloc_kpages npages s =
    let (pa, t) = getppages npages s in if pa == 0 then (0, t) else (u32 (pa + kseg0), t)

-- `free_kpages`
unfoldable pub free_kpages : ℕ → Frames → Frames
free_kpages addr s = coremap_dealloc (u32 (addr + 2 ^ 32 - kseg0)) s
