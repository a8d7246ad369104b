-- ===== src/AddrSpace/Tests.antt =====
-- Runs of the theorems on address spaces.
use toy_os.Common.{
  ℕ_discrete, ap, ◌≢◌, ◌<◌, ◌≡◌, if◌then◌else◌, ◌==◌, ℕ, ◌-◌, ◌%◌, refl, true, some, arith,
}
use toy_os.AddrSpace.MapPages.{IsInUse, MapsPages, map_pages-MapsPages}
use toy_os.Coremap.{page_size, free_entry}
use toy_os.AddrSpace.{map_pages, entry_addr, AddrSpace, Vm, TlbEntry, vm_fault}
use toy_os.Coremap.{used_entry}
use toy_os.Coremap.Blocks.{IsValid}
use toy_os.AddrSpace.{as_prepare_load}
use toy_os.AddrSpace.Load.{Loads, as_prepare_load-Loads}
use toy_os.AddrSpace.Faults.{IsLoaded, Faulted, vm_fault-Faulted}

abbrev empty_tlb : ℕ → TlbEntry
empty_tlb i = record { ehi = 0; elo = 0 }

-- Text of two pages, data of one; every page in the frame at 0x5000.
abbrev program : AddrSpace
program = record {
  as_vbase1 = 0x40_0000;
  page_pbase1 = 0x8000_3000;
  as_npages1 = 2;
  as_vbase2 = 0x1000_0000;
  page_pbase2 = 0x8000_4000;
  as_npages2 = 1;
  page_stackpbase = 0x8000_6000;
}

abbrev machine : Vm
machine = record {
  frames = record {
    firstpaddr = 0;
    lastpaddr = 0;
    vm_bootstrap_flag = true;
    num_of_coremap_pages = 0;
    num_of_pages = 0;
    firstaddr = 0;
    lastaddr = 0;
    coremap = λ i. free_entry;
  };
  mem = λ a. 0x5000;
}

program-IsLoaded : IsLoaded program machine.mem
program-IsLoaded = record {
  set_up = refl;
  fits1 = omega arith;
  fits2 = omega arith;
  aligned1 = λ k h. refl;
  aligned2 = λ k h. refl;
  aligned3 = λ k h. refl;
}

vm_fault-Faulted_example :
    Faulted 5 true program machine.mem
      (0x40_1234 - 0x40_1234 % page_size)
      empty_tlb
      (vm_fault 5 (some (true, some program)) machine 0 0x40_1234 empty_tlb)
vm_fault-Faulted_example =
    vm_fault-Faulted 5 true program machine 0 0x40_1234 empty_tlb (omega arith) (omega arith)
      program-IsLoaded

-- A machine of 64 frames, of which the core map has one, and a program that is not loaded.
abbrev booted : Vm
booted = record machine {
  frames = record {
    firstpaddr = 0;
    lastpaddr = 0;
    vm_bootstrap_flag = true;
    num_of_coremap_pages = 1;
    num_of_pages = 64;
    firstaddr = 0x2000;
    lastaddr = 0x4_2000;
    coremap = λ i. if i == 0 then used_entry 1 else free_entry;
  };
}

booted-IsValid : IsValid booted.frames
booted-IsValid = record {
  booted = refl;
  own_le = omega arith;
  fits = omega arith;
  above_zero = omega arith;
  own_used = λ k h. ground arith;
  clean = λ k h e. ground arith;
}

abbrev unloaded : AddrSpace
unloaded = record program { page_pbase1 = 0; page_pbase2 = 0; page_stackpbase = 0 }

as_prepare_load-Loads_example : Loads unloaded booted (as_prepare_load unloaded booted)
as_prepare_load-Loads_example =
    as_prepare_load-Loads unloaded booted booted-IsValid refl refl refl (omega arith) (omega arith)
      (omega arith) (omega arith)

-- A table in the frame of the core map itself, which is in use.
low_table-IsInUse : (j : ℕ) → j < 2 → IsInUse booted.frames (entry_addr 0x8000_2000 j)
low_table-IsInUse j lt = record {
  outside = λ f free lo. elim (ℕ_discrete f 0) [
    | no above ↦ absurd (omega arith)
    | yes own ↦ absurd (own_frame f own free)
  ];
}
  where
    own_frame : (f : ℕ) → f ≡ 0 → (booted.frames.coremap f).used ≢ 0
    own_frame f own free =
        let used : (booted.frames.coremap f).used ≡ 1 =
          ap (λ k. (booted.frames.coremap k).used) own in
        omega (arith, used, free)

map_pages-MapsPages_example : MapsPages booted 0x8000_2000 0 2 (map_pages 2 0 0x8000_2000 booted)
map_pages-MapsPages_example =
    map_pages-MapsPages 2 0 0x8000_2000 booted booted-IsValid (λ j lo lt. low_table-IsInUse j lt)
