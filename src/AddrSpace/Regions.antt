-- ===== src/AddrSpace/Regions.antt =====
-- `as_define_region` of kern/arch/mips/vm/dumbvm.c: the pages that a region gets.
use toy_os.Common.{
  ℕ, ◌+◌, ◌*◌, ◌%◌, ◌^◌, ◌≤◌, ◌<◌, ◌≡◌, ◌≢◌, refl, ◌⊎◌, inl, inr, arith, Bool-cases, ◌==◌,
}
use toy_os.Coremap.{page_size}
use toy_os.AddrSpace.{AddrSpace, eunimp, as_define_region}

-- The fewest whole pages that hold the bytes from `vaddr` up to `vaddr + sz`.
abbrev pub Covers : ℕ → ℕ → ℕ → ℕ → Type 0
Covers base npages vaddr sz =
    (base % page_size ≡ 0)
    × (base ≤ vaddr)
    × (vaddr < base + page_size)
    × (vaddr + sz ≤ base + npages * page_size)
    × (base + npages * page_size < vaddr + sz + page_size)

-- `as_define_region` gives its region to the text segment if that is not defined yet, else to the
-- data segment if that is not, and covers it by whole pages; a third region is refused with EUNIMP
-- and changes nothing. The segment that it does not define stays as it is.
pub as_define_region-Covers :
    (vaddr sz : ℕ) (s : AddrSpace)
    → 0 < sz
    → vaddr + sz ≤ 2 ^ 31
    → let (e, t) = as_define_region vaddr sz s in
      ((s.as_vbase1 ≡ 0)
        × (e ≡ 0)
        × Covers t.as_vbase1 t.as_npages1 vaddr sz
        × (t ≡ record s { as_vbase1 = t.as_vbase1; as_npages1 = t.as_npages1 }))
      ⊎ (((s.as_vbase1 ≢ 0)
            × (s.as_vbase2 ≡ 0)
            × (e ≡ 0)
            × Covers t.as_vbase2 t.as_npages2 vaddr sz
            × (t ≡ record s { as_vbase2 = t.as_vbase2; as_npages2 = t.as_npages2 }))
          ⊎ ((s.as_vbase1 ≢ 0) × (s.as_vbase2 ≢ 0) × (e ≡ eunimp) × (t ≡ s)))
unfolding as_define_region
as_define_region-Covers vaddr sz s pos fits = elim (Bool-cases (s.as_vbase1 == 0)) [
  | inl first ↦ rw first (inl (ground arith, refl, omega arith, refl))
  | inr used ↦ elim (Bool-cases (s.as_vbase2 == 0)) [
    | inl second ↦
        rw (used, second) (inr (inl (ground arith, ground arith, refl, omega arith, refl)))
    | inr full ↦ rw (used, full) (inr (inr (ground arith, ground arith, refl, refl)))
  ]
]
