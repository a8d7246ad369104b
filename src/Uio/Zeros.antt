-- ===== src/Uio/Zeros.antt =====
-- `uiomovezeros` of kern/lib/uio.c.
use toy_os.Common.{
  ℕ, zero, suc, ◌+◌, ◌-◌, ◌≤◌, ◌<◌, ◌≡◌, ◌≢◌, refl, sym, subst, ◌∙◌, inl, inr, Kernel, done,
  kassert, ◌>>◌, arith, Bool-cases, ltb, ◌==◌, if◌then◌else◌,
}
use toy_os.Uio.{uio_read, uio_write, Uio, is_read, zeros_loop, uiomovezeros}
use toy_os.Uio.Moved.{
  CopyFails, CopyFails-Moved, IsUio, Moved, IsUio-Moved, Moved-none, Moved-trans,
}
use toy_os.Uio.Moves.{Moves, uiomove-Moves}

abbrev pub zeros : ℕ → ℕ
zeros i = 0

-- How `uiomovezeros` ends: with the errno of a copy to user space, or with zeros in the regions.
pub data Clears (n : ℕ) (u : Uio) (mem : ℕ → ℕ) (r : Kernel (ℕ × Uio × (ℕ → ℕ))) : Type 0 where
  failed :
      (err : ℕ) (u' : Uio) (mem' : ℕ → ℕ)
      → r ≡ done (err, u', mem')
      → err ≢ 0
      → u'.uio_rw ≡ u.uio_rw
      → (k : ℕ) → k < n
      → Moved 0 k zeros u mem zeros u' mem'
      → CopyFails u k err
      → Clears n u mem r
  cleared :
      (u' : Uio) (mem' : ℕ → ℕ)
      → r ≡ done (0, u', mem')
      → Moved 0 n zeros u mem zeros u' mem'
      → Clears n u mem r

no_write : (u : Uio) → u.uio_rw ≡ uio_read → u.uio_rw ≢ uio_write
no_write u r w = cc

-- The zeros are the same from any index on.
Moved-zeros :
    {p q n : ℕ} {mem buf' mem' : ℕ → ℕ} {u u' : Uio}
    → u.uio_rw ≡ uio_read
    → Moved p n zeros u mem buf' u' mem'
    → Moved q n zeros u mem zeros u' mem'
Moved-zeros {u = u} r m = record {
  same_rw = m.same_rw;
  same_seg = m.same_seg;
  same_space = m.same_space;
  offset = m.offset;
  resid = m.resid;
  cells = m.cells;
  totals = m.totals;
  reads_buffer = λ e i. refl;
  reads_memory = m.reads_memory;
  reads_kept = m.reads_kept;
  writes_memory = λ w. absurd (no_write u r w);
  writes_buffer = λ w. absurd (no_write u r w);
}

Clears-trans :
    {n m : ℕ} {mem mem1 : ℕ → ℕ} {u u1 : Uio} {r : Kernel (ℕ × Uio × (ℕ → ℕ))}
    → IsUio u
    → u.uio_rw ≡ uio_read
    → n + m ≤ u.uio_resid
    → Moved 0 n zeros u mem zeros u1 mem1
    → Clears m u1 mem1 r
    → Clears (n + m) u mem r
Clears-trans {n = n} i read enough a (failed err v w e bad same k lt m c) =
    failed err v w e bad (same ∙ a.same_rw) (n + k) (omega arith)
      (Moved-trans i (omega arith) a (Moved-zeros (a.same_rw ∙ read) m)) (CopyFails-Moved a c)
Clears-trans i read enough a (cleared v w e b) =
    cleared v w e (Moved-trans i enough a (Moved-zeros (a.same_rw ∙ read) b))

zeros_loop-Clears :
    (fuel n : ℕ) (u : Uio) (mem : ℕ → ℕ)
    → IsUio u
    → u.uio_rw ≡ uio_read
    → n ≤ u.uio_resid
    → n < fuel
    → Clears n u mem (zeros_loop fuel n u mem)
unfolding zeros_loop
zeros_loop-Clears zero n u mem i read enough lt = absurd (omega arith)
zeros_loop-Clears (suc fuel) n u mem i read enough lt =
    let amt = if ltb n 16 then n else 16 in
    let le : amt ≤ n = ground arith in
    elim (Bool-cases (n == 0)) [
      | inl none_left ↦
          let nothing : 0 ≡ n = ground arith in
          rw none_left (
            subst (λ k. Clears k u mem (done (0, u, mem))) nothing
              (cleared u mem refl
                (Moved-none 0 zeros mem u u refl refl refl refl refl (λ k. refl) refl)))
      | inr some_left ↦ elim (uiomove-Moves 0 amt zeros u mem i (omega arith)) [
        | Moves.failed zero b v w e bad same k lt m c ↦ absurd (bad refl)
        | Moves.failed (suc err) b v w e bad same k lt m c ↦
            failed (suc err) v w (rw (some_left, e)) bad same k (omega arith) (Moved-zeros read m) c
        | Moves.moved b v w e a ↦
            let whole : amt + (n - amt) ≡ n = omega arith in
            let res = a.resid in
            let some_bytes : 0 < amt = ground arith in
            rw (some_left, e)
              (subst (λ k. Clears k u mem (zeros_loop fuel (n - amt) v w)) whole
                (Clears-trans i read (omega arith) (Moved-zeros read a) (
                  zeros_loop-Clears fuel (n - amt) v w (IsUio-Moved i a) (a.same_rw ∙ read)
                    (omega arith) (omega arith))))
      ]
    ]

-- `uiomovezeros` of no more bytes than are left to move ends and fails no KASSERT on a read: it
-- answers the errno that a copy to user space has at one of them, with zeros before it, or fills
-- them with zeros.
pub uiomovezeros-Clears :
    (n : ℕ) (u : Uio) (mem : ℕ → ℕ)
    → IsUio u
    → u.uio_rw ≡ uio_read
    → n ≤ u.uio_resid
    → Clears n u mem (uiomovezeros n u mem)
unfolding uiomovezeros
uiomovezeros-Clears n u mem i read enough =
    subst (λ k. Clears n u mem (kassert (is_read k) >> zeros_loop (n + 1) n u mem)) (sym read)
      (zeros_loop-Clears (n + 1) n u mem i read enough (omega arith))
