-- ===== src/Coremap/Granted.antt =====
-- `getppages` and `alloc_kpages` of kern/arch/mips/vm/dumbvm.c, case by case: a new block of
-- frames, or no run of frames that is long enough.
use toy_os.Common.{false, ℕ, ◌+◌, ◌≤◌, ◌<◌, ◌≡◌, ◌≢◌, refl, ◌⊎◌, inl, inr, arith, ◌==◌, ==_ne}
use toy_os.Coremap.{kseg0, u32, Frames, getppages, alloc_kpages}
use toy_os.Coremap.Scan.{AllFree}
use toy_os.Coremap.Blocks.{IsValid, Allocated, exhausted, taken, coremap_alloc-Allocated}
use toy_os.Coremap.Kpages.{Grants, coremap_alloc-Grants, getppages-booted}

-- There are no `n` free frames in a row.
pub record IsFull (n : ℕ) (s : Frames) : Type 0 where
  pub no_run :
      (j : ℕ) → s.num_of_coremap_pages ≤ j → j + n ≤ s.num_of_pages → ¬ AllFree s.coremap j (j + n)

Allocated-cases :
    {n : ℕ} {s : Frames} {r : ℕ × Frames}
    → IsValid s
    → Allocated n s r
    → ((r ≡ (0, s)) × IsFull n s) ⊎ (r.0 ≢ 0)
Allocated-cases v (exhausted none_left) = inl (refl, record { no_run = none_left })
Allocated-cases v (taken start lo hi free first) = inr (λ e. omega (arith, v.above_zero, e))

pub getppages-cases :
    (n : ℕ) (s : Frames)
    → 0 < n
    → IsValid s
    → ((getppages n s ≡ (0, s)) × IsFull n s)
      ⊎ (((getppages n s).0 ≢ 0) × Grants n s (getppages n s).0 (getppages n s).1)
getppages-cases n s pos v =
    rw (getppages-booted n s v) (elim (Allocated-cases v (coremap_alloc-Allocated n s pos v)) [
      | inl full ↦ inl full
      | inr ne ↦ inr (ne, coremap_alloc-Grants n s pos v ne)
    ])

pub alloc_kpages-Grants :
    (n : ℕ) (s : Frames)
    → 0 < n
    → IsValid s
    → ((alloc_kpages n s ≡ (0, s)) × IsFull n s)
      ⊎ ((pa : ℕ) × (t : Frames) × (alloc_kpages n s ≡ (pa + kseg0, t)) × Grants n s pa t)
unfolding alloc_kpages
alloc_kpages-Grants n s pos v = elim (getppages-cases n s pos v) [
  | inl (e, full) ↦ inl (rw e, full)
  | inr (ne, g) ↦
      let granted : ((getppages n s).0 == 0) ≡ false = ==_ne _ 0 ne in
      let addr : u32 ((getppages n s).0 + kseg0) ≡ (getppages n s).0 + kseg0 =
        omega (arith, v.fits, g.address, g.within) in
      inr ((getppages n s).0, (getppages n s).1, rw (granted, addr), g)
]
