-- ===== src/Lhd.antt =====
-- kern/dev/lamebus/lhd.c: the driver of the LAMEbus hard disk. The card is an argument: it is given
-- a sector, a value of its status register and its buffer, and answers with the values of the
-- status register at the interrupts that follow, and the buffer. The two semaphores are their
-- counts; a P on 0, which no other thread ends, does not return and stands as `panic`. The
-- registers are words.
pub mod Card
pub mod Sector
mod Tests
use Prim.Native.Nat.{bit_and, bit_or}
use toy_os.Common.{
  ℕ, zero, suc, ◌+◌, ◌/◌, ◌%◌, ◌^◌, Bool, true, false, not, ◌&&◌, ◌||◌, List, [], ◌∷◌, Kernel, done,
  panic, ◌>>=◌, ltb, leb, ◌==◌, if◌then◌else◌,
}
use toy_os.Coremap.{u32}
use toy_os.Uio.{Uio, uiomove, is_read}
use toy_os.Sfs.{einval, eio}

-- kern/include/kern/errno.h
abbrev pub eagain : ℕ
eagain = 4

abbrev pub lhd_sectsize : ℕ
lhd_sectsize = 512

-- Status codes
abbrev pub lhd_idle : ℕ
lhd_idle = 0

abbrev pub lhd_working : ℕ
lhd_working = 1

abbrev pub lhd_ok : ℕ
lhd_ok = 4

abbrev pub lhd_invsect : ℕ
lhd_invsect = 12

abbrev pub lhd_media : ℕ
lhd_media = 20

abbrev pub lhd_iswrite : ℕ
lhd_iswrite = 2

abbrev pub lhd_statemask : ℕ
lhd_statemask = 0x1d

-- The card: the sector, the status register, the buffer and what the card holds.
abbrev pub LhdCard : Type 0 → Type 0
LhdCard H = ℕ → ℕ → (ℕ → ℕ) → H → List ℕ × (ℕ → ℕ) × H

-- `struct lhd_softc`
pub record LhdSoftc (H : Type 0) : Type 0 where
  pub lh_card : LhdCard H
  pub lh_hardware : H
  pub lh_buf : ℕ → ℕ
  pub lh_result : ℕ
  pub lh_clear : ℕ
  pub lh_done : ℕ
  pub d_blocks : ℕ

unfoldable pub lhd_code_to_errno : ℕ → ℕ
lhd_code_to_errno code =
    let state = bit_and code lhd_statemask in
    if state == lhd_ok
    then 0
    else (if state == lhd_invsect then einval else (if state == lhd_media then eio else eagain))

-- P and V, on the count of a semaphore.
unfoldable pub sem_p : ℕ → Kernel ℕ
sem_p zero = panic
sem_p (suc count) = done count

-- The errno, the uio, the memory and the device.
abbrev pub LhdIo : Type 0 → Type 0
LhdIo H = ℕ × Uio × (ℕ → ℕ) × LhdSoftc H

module _ {H : Type 0} where
  unfoldable pub lhd_iodone : ℕ → LhdSoftc H → LhdSoftc H
  lhd_iodone err lh = record lh { lh_result = err; lh_done = lh.lh_done + 1 }

  -- `lhd_irq` where the status register is `val`; clearing it is left to the card.
  unfoldable pub lhd_irq : ℕ → LhdSoftc H → LhdSoftc H
  lhd_irq val lh =
      let state = bit_and val lhd_statemask in
      if state == lhd_idle || state == lhd_working
      then lh
      else (if state == lhd_ok || state == lhd_invsect || state == lhd_media
          then lhd_iodone (lhd_code_to_errno val) lh
          else lh)

  -- The interrupts of an operation.
  unfoldable pub lhd_irqs : List ℕ → LhdSoftc H → LhdSoftc H
  lhd_irqs [] lh = lh
  lhd_irqs (val ∷ vals) lh = lhd_irqs vals (lhd_irq val lh)

  -- V(lh->lh_clear)
  unfoldable pub lhd_clear : LhdSoftc H → LhdSoftc H
  lhd_clear lh = record lh { lh_clear = lh.lh_clear + 1 }

  -- The operation is started, and waited for.
  unfoldable pub lhd_operate : ℕ → ℕ → LhdSoftc H → Kernel (LhdSoftc H)
  lhd_operate sector statval lh =
      let q = lh.lh_card sector statval lh.lh_buf lh.lh_hardware in
      let after = lhd_irqs q.0 (record lh { lh_buf = q.1; lh_hardware = q.2 }) in
      sem_p after.lh_done >>= λ count. done (record after { lh_done = count })

  -- A transfer between the uio and the buffer of the card, or none.
  unfoldable pub lhd_move : Bool → Uio → (ℕ → ℕ) → LhdSoftc H → Kernel (LhdIo H)
  lhd_move moves u mem lh =
      if moves
      then (uiomove 0 lhd_sectsize lh.lh_buf u mem >>= λ x.
          done (x.0, x.2, x.3, record lh { lh_buf = x.1 }))
      else done (0, u, mem, lh)

  -- The loop of `lhd_io`, from the operation on.
  unfoldable pub lhd_started : ℕ → ℕ → Uio → (ℕ → ℕ) → LhdSoftc H → Kernel (LhdIo H)
  lhd_started sector statval u mem lh = lhd_operate sector statval lh >>= λ after.
      if after.lh_result == 0
      then (lhd_move (is_read u.uio_rw) u mem after >>= λ x. done (x.0, x.1, x.2, lhd_clear x.3))
      else done (after.lh_result, u, mem, lhd_clear after)

  -- One round of the loop of `lhd_io`.
  unfoldable pub lhd_sector : ℕ → ℕ → Uio → (ℕ → ℕ) → LhdSoftc H → Kernel (LhdIo H)
  lhd_sector sector statval u mem lh = sem_p lh.lh_clear >>= λ count.
      (lhd_move (not (is_read u.uio_rw)) u mem (record lh { lh_clear = count }) >>= λ x.
      if x.0 == 0
      then lhd_started sector statval x.1 x.2 x.3
      else done (x.0, x.1, x.2, lhd_clear x.3))

  -- The loop of `lhd_io`: `rounds` sectors from `sector` on.
  unfoldable pub lhd_loop : ℕ → ℕ → ℕ → Uio → (ℕ → ℕ) → LhdSoftc H → Kernel (LhdIo H)
  lhd_loop zero sector statval u mem lh = done (0, u, mem, lh)
  lhd_loop (suc rounds) sector statval u mem lh = lhd_sector sector statval u mem lh >>= λ x.
      if x.0 == 0 then lhd_loop rounds (u32 (sector + 1)) statval x.1 x.2 x.3 else done x

  -- `lhd_io`
  unfoldable pub lhd_io : Uio → (ℕ → ℕ) → LhdSoftc H → Kernel (LhdIo H)
  lhd_io u mem lh =
      let sector = u32 (u.uio_offset / lhd_sectsize) in
      let sectoff = u.uio_offset % lhd_sectsize in
      let len = u.uio_resid / lhd_sectsize in
      let lenoff = u.uio_resid % lhd_sectsize in
      let statval = if is_read u.uio_rw then lhd_working else bit_or lhd_working lhd_iswrite in
      if not (sectoff == 0) || not (lenoff == 0)
      then done (einval, u, mem, lh)
      else (if ltb lh.d_blocks (u32 (sector + len))
          then done (einval, u, mem, lh)
          else lhd_loop len sector statval u mem lh)
