-- ===== src/Coremap/Tests.antt =====
-- Runs of the core map's theorems on a machine of four frames, of which the core map has one.
use toy_os.Common.{
  ℕ, ◌+◌, ◌*◌, ◌≤◌, ◌<◌, ◌≡◌, ◌≢◌, refl, inl, true, false, arith, ltb, if◌then◌else◌,
}
use toy_os.Coremap.{
  page_size, entry_size, free_entry, used_entry, Frames, vm_bootstrap, scan, coremap_alloc,
  coremap_dealloc, getppages, alloc_kpages, free_kpages,
}
use toy_os.Coremap.Scan.{AllFree}
use toy_os.Coremap.Blocks.{
  IsValid, frame_addr, IsBlock, Allocated, coremap_alloc-Allocated, coremap_dealloc-IsBlock,
}
use toy_os.Coremap.Boot.{IsBooting, vm_bootstrap-IsValid, vm_bootstrap-covers}
use toy_os.Coremap.Kpages.{Grants, coremap_alloc-Grants, free_kpages-alloc_kpages}

abbrev ram : Frames
ram = record {
  firstpaddr = 0x2000;
  lastpaddr = 0x6000;
  vm_bootstrap_flag = false;
  num_of_coremap_pages = 0;
  num_of_pages = 0;
  firstaddr = 0;
  lastaddr = 0;
  coremap = λ i. free_entry;
}

ram-IsBooting : IsBooting ram
ram-IsBooting = record { above_zero = omega arith; ordered = omega arith; capped = omega arith }

vm_bootstrap-IsValid_example : IsValid (vm_bootstrap ram)
vm_bootstrap-IsValid_example = vm_bootstrap-IsValid ram ram-IsBooting

vm_bootstrap-covers_example :
    let t = vm_bootstrap ram in
    (t.num_of_pages * entry_size ≤ t.num_of_coremap_pages * page_size)
    × (t.firstaddr ≡ ram.firstpaddr)
    × (t.firstaddr + t.num_of_pages * page_size ≤ ram.lastpaddr)
    × (ram.lastpaddr < t.firstaddr + (t.num_of_pages + 1) * page_size)
    × ((k : ℕ) → t.num_of_coremap_pages ≤ k → k < t.num_of_pages → (t.coremap k).used ≡ 0)
vm_bootstrap-covers_example = vm_bootstrap-covers ram ram-IsBooting

-- Frame 1 is a block, and frame 2; frame 3 is free.
abbrev busy : Frames
busy = record ram {
  vm_bootstrap_flag = true;
  num_of_coremap_pages = 1;
  num_of_pages = 4;
  firstaddr = 0x2000;
  lastaddr = 0x6000;
  coremap = λ i. if ltb i 3 then used_entry 1 else free_entry;
}

busy-IsValid : IsValid busy
busy-IsValid = record {
  booted = refl;
  own_le = omega arith;
  fits = omega arith;
  above_zero = omega arith;
  own_used = λ k h. ground arith;
  clean = λ k h e. ground arith;
}

block1 : IsBlock busy.coremap 1 1
block1 = record { nonempty = omega arith; head = refl; rest = λ k lo hi. absurd (omega arith) }

block2 : IsBlock busy.coremap 2 1
block2 = record { nonempty = omega arith; head = refl; rest = λ k lo hi. absurd (omega arith) }

coremap_alloc-Allocated_example : Allocated 1 busy (coremap_alloc 1 busy)
coremap_alloc-Allocated_example = coremap_alloc-Allocated 1 busy (omega arith) busy-IsValid

coremap_dealloc-IsBlock_example :
    AllFree (coremap_dealloc (frame_addr busy 1) busy).coremap 1 2
    × IsBlock (coremap_dealloc (frame_addr busy 1) busy).coremap 2 1
coremap_dealloc-IsBlock_example =
    coremap_dealloc-IsBlock 1 1 2 1 busy busy-IsValid (omega arith) block1 block2
      (inl (omega arith))

alloc_runs : (coremap_alloc 1 busy).0 ≢ 0
unfolding coremap_alloc scan
alloc_runs e = omega arith

coremap_alloc-Grants_example : Grants 1 busy (coremap_alloc 1 busy).0 (coremap_alloc 1 busy).1
coremap_alloc-Grants_example = coremap_alloc-Grants 1 busy (omega arith) busy-IsValid alloc_runs

kpages_runs : (alloc_kpages 1 busy).0 ≢ 0
unfolding alloc_kpages getppages coremap_alloc scan
kpages_runs e = omega arith

free_kpages-alloc_kpages_example :
    free_kpages (alloc_kpages 1 busy).0 (alloc_kpages 1 busy).1 ≡ busy
free_kpages-alloc_kpages_example =
    free_kpages-alloc_kpages 1 busy (omega arith) busy-IsValid kpages_runs
