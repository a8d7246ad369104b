-- ===== src/Coremap/NewFrame.antt =====
-- One frame of `getppages` of kern/arch/mips/vm/dumbvm.c: which it is, and what becomes of the
-- others.
use toy_os.Common.{ℕ, ◌≤◌, ◌<◌, ◌≡◌, ◌≢◌, refl, ◌⊎◌, inl, inr, arith}
use toy_os.Coremap.{Frames, take_run, getppages}
use toy_os.Coremap.Blocks.{
  IsValid, frame_addr, IsBlock, IsBlock-used, Allocated, exhausted, taken, coremap_alloc-Allocated,
  take_run_lem, take_run-IsBlock,
}
use toy_os.Coremap.Kpages.{getppages-booted}
use toy_os.Coremap.Granted.{IsFull}

-- The frame at `pa`: it was free and is in use, and no other frame has become free.
pub record NewFrame (s : Frames) (pa : ℕ) (t : Frames) : Type 0 where
  pub frame : ℕ
  pub address : pa ≡ frame_addr s frame
  pub above_own : s.num_of_coremap_pages ≤ frame
  pub within : frame < s.num_of_pages
  pub was_free : (s.coremap frame).used ≡ 0
  pub now_used : (t.coremap frame).used ≡ 1
  pub block : IsBlock t.coremap frame 1
  pub fewer_free : (k : ℕ) → (t.coremap k).used ≡ 0 → (s.coremap k).used ≡ 0

Allocated-NewFrame :
    {s : Frames} {r : ℕ × Frames}
    → IsValid s
    → Allocated 1 s r
    → ((r ≡ (0, s)) × IsFull 1 s) ⊎ ((r.0 ≢ 0) × NewFrame s r.0 r.1)
Allocated-NewFrame v (exhausted none_left) = inl (refl, record { no_run = none_left })
Allocated-NewFrame {s} v (taken start lo hi free first) =
    let block : IsBlock (take_run 1 start s.coremap) start 1 =
      take_run-IsBlock 1 start s v (omega arith) in
    inr (
      λ e. omega (arith, v.above_zero, e),
      record {
        frame = start;
        address = refl;
        above_own = lo;
        within = omega arith;
        was_free = free start (omega arith) (omega arith);
        now_used = IsBlock-used block start (omega arith) (omega arith);
        block = block;
        fewer_free = λ k e.
            let one : 0 < 1 = omega arith in
            let was = free start (omega arith) (omega arith) in
            ground (arith, take_run_lem 1 start s.coremap k one, e, was);
      },
    )

pub getppages-NewFrame :
    (s : Frames)
    → IsValid s
    → ((getppages 1 s ≡ (0, s)) × IsFull 1 s)
      ⊎ (((getppages 1 s).0 ≢ 0) × NewFrame s (getppages 1 s).0 (getppages 1 s).1)
getppages-NewFrame s v =
    rw (getppages-booted 1 s v) (Allocated-NewFrame v (coremap_alloc-Allocated 1 s (omega arith) v))
