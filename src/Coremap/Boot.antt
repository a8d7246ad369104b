-- ===== src/Coremap/Boot.antt =====
-- `vm_bootstrap` of kern/arch/mips/vm/dumbvm.c, and `ram_stealmem` before it
-- (kern/arch/mips/vm/ram.c).
use toy_os.Common.{
  ℕ, zero, suc, ◌+◌, ◌*◌, ◌^◌, ◌≤◌, ◌<◌, ◌≡◌, refl, ◌⊎◌, inl, inr, Bool-cases, ◌&&◌, arith, ltb,
  leb, if◌then◌else◌, update,
}
use toy_os.Coremap.{
  page_size, u32, Entry, entry_size, Frames, boot_entry, boot_loop, vm_bootstrap, ram_stealmem,
}
use toy_os.Coremap.Blocks.{IsValid}

boot_loop_lem :
    (rounds own i : ℕ) (cm : ℕ → Entry) (k : ℕ)
    → boot_loop rounds own i cm k
      ≡ (if leb i k && ltb k (i + rounds) then boot_entry own k else cm k)
unfolding boot_loop
boot_loop_lem zero own i cm k = ground arith
boot_loop_lem (suc rounds) own i cm k =
    ground (arith, boot_loop_lem rounds own (i + 1) (update cm i (boot_entry own i)) k)

-- The static variables before `vm_bootstrap`: RAM as `ram_bootstrap` leaves it (the core map
-- is not set up).
pub record IsBooting (s : Frames) : Type 0 where
  pub above_zero : 0 < s.firstpaddr
  pub ordered : s.firstpaddr ≤ s.lastpaddr
  pub capped : s.lastpaddr ≤ 508 * 1024 * 1024

-- `vm_bootstrap` leaves a valid core map.
pub vm_bootstrap-IsValid : (s : Frames) → IsBooting s → IsValid (vm_bootstrap s)
unfolding vm_bootstrap boot_entry
vm_bootstrap-IsValid s b = record {
  booted = refl;
  own_le = omega arith;
  fits = omega arith;
  above_zero = b.above_zero;
  own_used = λ k h. ground (
    arith,
    boot_loop_lem (vm_bootstrap s).num_of_pages (vm_bootstrap s).num_of_coremap_pages 0 s.coremap k,
  );
  clean = λ k lt h. ground (
    arith,
    boot_loop_lem (vm_bootstrap s).num_of_pages (vm_bootstrap s).num_of_coremap_pages 0 s.coremap k,
  );
}

-- The core map of `vm_bootstrap` covers the RAM's whole frames, its entries fit into the pages that
-- it keeps for itself, and every other frame is free.
pub vm_bootstrap-covers :
    (s : Frames)
    → IsBooting s
    → let t = vm_bootstrap s in
      (t.num_of_pages * entry_size ≤ t.num_of_coremap_pages * page_size)
      × (t.firstaddr ≡ s.firstpaddr)
      × (t.firstaddr + t.num_of_pages * page_size ≤ s.lastpaddr)
      × (s.lastpaddr < t.firstaddr + (t.num_of_pages + 1) * page_size)
      × ((k : ℕ) → t.num_of_coremap_pages ≤ k → k < t.num_of_pages → (t.coremap k).used ≡ 0)
unfolding vm_bootstrap boot_entry
vm_bootstrap-covers s b = (
  omega arith,
  refl,
  omega arith,
  omega arith,
  λ k lo hi. ground (
    arith,
    boot_loop_lem (vm_bootstrap s).num_of_pages (vm_bootstrap s).num_of_coremap_pages 0 s.coremap k,
  ),
)

-- Before `vm_bootstrap`, `ram_stealmem` hands out the lowest RAM that is left, or changes nothing;
-- what it has handed out lies below the RAM that `vm_bootstrap` goes on to manage.
pub ram_stealmem-below :
    (n : ℕ) (s : Frames)
    → IsBooting s
    → n * page_size < 2 ^ 31
    → let (pa, t) = ram_stealmem n s in
      ((pa ≡ 0) × (t ≡ s) × (s.lastpaddr < s.firstpaddr + n * page_size))
      ⊎ ((pa ≡ s.firstpaddr) × (pa + n * page_size ≡ (vm_bootstrap t).firstaddr) × IsBooting t)
unfolding ram_stealmem vm_bootstrap
ram_stealmem-below n s b small =
    elim (Bool-cases (ltb s.lastpaddr (u32 (s.firstpaddr + u32 (n * page_size))))) [
      | inl full ↦ rw full (inl (refl, refl, ground arith))
      | inr room ↦ rw room (inr (refl, ground arith, ground arith))
    ]
