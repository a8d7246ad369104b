-- ===== src/Lhd/Card.antt =====
-- The interrupts of kern/dev/lamebus/lhd.c, and one transfer to or from the buffer of the card.
use toy_os.Common.{ℕ, ◌≡◌, ◌⊎◌, inl, inr, List, [], ◌∷◌}
use Prim.Native.Nat.{bit_and}
use toy_os.Sfs.{einval, eio}
use toy_os.Lhd.{
  lhd_statemask, lhd_idle, lhd_working, lhd_ok, lhd_invsect, lhd_media, LhdSoftc, lhd_code_to_errno,
  lhd_iodone, lhd_irq, lhd_irqs,
}

-- The status register at the interrupts of an operation: the card may be idle or at work at some,
-- then it has finished.
pub data Answers : List ℕ → ℕ → Type 0 where
  answers_ok : (val : ℕ) → bit_and val lhd_statemask ≡ lhd_ok → Answers (val ∷ []) 0
  answers_invsect : (val : ℕ) → bit_and val lhd_statemask ≡ lhd_invsect → Answers (val ∷ []) einval
  answers_media : (val : ℕ) → bit_and val lhd_statemask ≡ lhd_media → Answers (val ∷ []) eio
  at_work :
      (val : ℕ) (vals : List ℕ) (err : ℕ)
      → (bit_and val lhd_statemask ≡ lhd_idle) ⊎ (bit_and val lhd_statemask ≡ lhd_working)
      → Answers vals err
      → Answers (val ∷ vals) err

-- The handler posts the errno once.
pub lhd_irqs-Answers :
    {H : Type 0} {vals : List ℕ} {err : ℕ} (lh : LhdSoftc H)
    → Answers vals err
    → lhd_irqs vals lh ≡ lhd_iodone err lh
unfolding lhd_irqs lhd_irq lhd_code_to_errno
lhd_irqs-Answers lh (answers_ok val e) = rw e
lhd_irqs-Answers lh (answers_invsect val e) = rw e
lhd_irqs-Answers lh (answers_media val e) = rw e
lhd_irqs-Answers lh (at_work val vals err (inl e) rest) = rw e (lhd_irqs-Answers lh rest)
lhd_irqs-Answers lh (at_work val vals err (inr e) rest) = rw e (lhd_irqs-Answers lh rest)
