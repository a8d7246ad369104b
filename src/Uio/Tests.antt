-- ===== src/Uio/Tests.antt =====
-- Runs of the theorems on uio: six bytes in two regions of kernel memory.
use toy_os.Common.{ℕ, ◌+◌, ◌<◌, ◌≡◌, refl, arith, [], ◌∷◌}
use toy_os.Uio.{UioRw, uio_read, uio_write, Uio, uio_sysspace, uiomove, uiomovezeros}
use toy_os.Uio.Moved.{cell, IsUio}
use toy_os.Uio.Moves.{Moves, uiomove-Moves}
use toy_os.Uio.Zeros.{Clears, uiomovezeros-Clears}

abbrev two_regions : UioRw → Uio
two_regions rw = record {
  uio_iov = record { iov_base = 100; iov_len = 2 } ∷ record { iov_base = 200; iov_len = 4 } ∷ [];
  uio_offset = 7;
  uio_resid = 6;
  uio_segflg = uio_sysspace;
  uio_rw = rw;
  uio_space = λ base size. 0;
}

two_regions-cell :
    (rw : UioRw) (j k : ℕ)
    → j < 6
    → k < 6
    → cell (two_regions rw).uio_iov j ≡ cell (two_regions rw).uio_iov k
    → j ≡ k
two_regions-cell rw j k lj lk e = ground arith

two_regions-IsUio : (rw : UioRw) → IsUio (two_regions rw)
two_regions-IsUio rw = record {
  fits = omega arith;
  small = omega arith;
  apart = two_regions-cell rw;
}

abbrev memory : ℕ → ℕ
memory a = a + 1

uiomove-Moves_example :
    Moves 3 5
      (λ i. i)
      (two_regions uio_write)
      memory
      (uiomove 3 5 (λ i. i) (two_regions uio_write) memory)
uiomove-Moves_example =
    uiomove-Moves 3 5 (λ i. i) (two_regions uio_write) memory (two_regions-IsUio uio_write)
      (omega arith)

uiomovezeros-Clears_example :
    Clears 6 (two_regions uio_read) memory (uiomovezeros 6 (two_regions uio_read) memory)
uiomovezeros-Clears_example =
    uiomovezeros-Clears 6 (two_regions uio_read) memory (two_regions-IsUio uio_read) refl
      (omega arith)
