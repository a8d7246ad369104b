-- ===== src/Uio.antt =====
-- kern/lib/uio.c, kern/include/uio.h: data moved between a kernel buffer and the regions of a
-- `struct uio`. Memory, kernel and user, is the function from an address to its byte; the kernel
-- buffer, which overlaps no region, is a function of its own, and `ptr` an index of it. `uio_space`
-- stands for the address space: the errno of copyin and copyout at an address, for a length. The
-- KASSERTs on it are left out. A size_t is a 32-bit word.
pub mod Moved
pub mod Moves
pub mod Zeros
mod Tests
use toy_os.Common.{
  ℕ, zero, suc, ◌+◌, ◌-◌, ◌%◌, ◌^◌, Bool, true, false, ◌&&◌, List, [], ◌∷◌, Kernel, done, panic,
  kassert, ◌>>=◌, ◌>>◌, ltb, leb, ◌==◌, if◌then◌else◌, length,
}

-- `enum uio_rw`
pub data UioRw : Type 0 where
  uio_read : UioRw
  uio_write : UioRw

-- `enum uio_seg`
pub data UioSeg : Type 0 where
  uio_userispace : UioSeg
  uio_userspace : UioSeg
  uio_sysspace : UioSeg

-- `struct iovec`
pub record Iovec : Type 0 where
  pub iov_base : ℕ
  pub iov_len : ℕ

-- `struct uio`; `uio_iov` are the regions from the current one on, `uio_iovcnt` of them.
pub record Uio : Type 0 where
  pub uio_iov : List Iovec
  pub uio_offset : ℕ
  pub uio_resid : ℕ
  pub uio_segflg : UioSeg
  pub uio_rw : UioRw
  pub uio_space : ℕ → ℕ → ℕ

-- `memmove` of `n` bytes, from `src` of one memory to `dst` of another.
abbrev pub memmove : ℕ → ℕ → ℕ → (ℕ → ℕ) → (ℕ → ℕ) → ℕ → ℕ
memmove dst src n from to a = if leb dst a && ltb a (dst + n) then from (src + (a - dst)) else to a

-- The subtraction of size_t.
abbrev pub sub32 : ℕ → ℕ → ℕ
sub32 a b = (a + 2 ^ 32 - b) % 2 ^ 32

-- What `uiomove` works on: the errno, the buffer, the uio and the memory.
abbrev pub Xfer : Type 0
Xfer = ℕ × (ℕ → ℕ) × Uio × (ℕ → ℕ)

-- The errno of the copy: the kernel's regions are always there.
unfoldable pub copy_error : Uio → ℕ → ℕ → ℕ
copy_error u base size = elim u.uio_segflg [
  | uio_sysspace ↦ 0
  | uio_userspace ↦ u.uio_space base size
  | uio_userispace ↦ u.uio_space base size
]

-- The buffer and the memory after `size` bytes have been copied.
unfoldable pub copy_buffer : UioRw → ℕ → ℕ → ℕ → (ℕ → ℕ) → (ℕ → ℕ) → ℕ → ℕ
copy_buffer uio_read ptr base size buf mem = buf
copy_buffer uio_write ptr base size buf mem = memmove ptr base size mem buf

unfoldable pub copy_memory : UioRw → ℕ → ℕ → ℕ → (ℕ → ℕ) → (ℕ → ℕ) → ℕ → ℕ
copy_memory uio_read ptr base size buf mem = memmove base ptr size buf mem
copy_memory uio_write ptr base size buf mem = mem

-- The uio after `size` bytes of its first region.
unfoldable pub advance : ℕ → Iovec → List Iovec → Uio → Uio
advance size iov rest u =
    let moved : Iovec = record { iov_base = iov.iov_base + size; iov_len = iov.iov_len - size } in
    record u {
      uio_iov = moved ∷ rest;
      uio_resid = sub32 u.uio_resid size;
      uio_offset = u.uio_offset + size;
    }

-- A round of the loop of `uiomove` ends it, or goes on with `ptr` and `n`.
pub data Round : Type 0 where
  ends : Kernel Xfer → Round
  goes_on : ℕ → ℕ → (ℕ → ℕ) → Uio → (ℕ → ℕ) → Round

unfoldable pub next_iov : List Iovec → ℕ → ℕ → (ℕ → ℕ) → Uio → (ℕ → ℕ) → Round
next_iov [] ptr n buf u mem = ends panic
next_iov (iov ∷ rest) ptr n buf u mem = goes_on ptr n buf (record u { uio_iov = iov ∷ rest }) mem

unfoldable pub copy_round : ℕ → Iovec → List Iovec → ℕ → ℕ → (ℕ → ℕ) → Uio → (ℕ → ℕ) → Round
copy_round size iov rest ptr n buf u mem =
    let err = copy_error u iov.iov_base size in
    if err == 0
    then goes_on (ptr + size) (n - size) (copy_buffer u.uio_rw ptr iov.iov_base size buf mem)
        (advance size iov rest u) (copy_memory u.uio_rw ptr iov.iov_base size buf mem)
    else ends (done (err, buf, u, mem))

unfoldable pub iov_round : List Iovec → ℕ → ℕ → (ℕ → ℕ) → Uio → (ℕ → ℕ) → Round
iov_round [] ptr n buf u mem = ends panic
iov_round (iov ∷ rest) ptr n buf u mem =
    let size = if ltb n iov.iov_len then n else iov.iov_len in
    if size == 0 then next_iov rest ptr n buf u mem else copy_round size iov rest ptr n buf u mem

unfoldable pub uiomove_round : ℕ → ℕ → (ℕ → ℕ) → Uio → (ℕ → ℕ) → Round
uiomove_round ptr n buf u mem =
    if ltb 0 n && ltb 0 u.uio_resid
    then iov_round u.uio_iov ptr n buf u mem
    else ends (done (0, buf, u, mem))

-- The loop of `uiomove`, on fuel.
unfoldable pub uiomove_loop : ℕ → ℕ → ℕ → (ℕ → ℕ) → Uio → (ℕ → ℕ) → Kernel Xfer
uiomove_loop zero ptr n buf u mem = panic
uiomove_loop (suc fuel) ptr n buf u mem = elim (uiomove_round ptr n buf u mem) [
  | ends r ↦ r
  | goes_on ptr' n' buf' u' mem' ↦ uiomove_loop fuel ptr' n' buf' u' mem'
]

-- `uiomove` of `n` bytes from or to the index `ptr` of the buffer: a round takes a byte at least, or
-- goes to the next region.
unfoldable pub uiomove : ℕ → ℕ → (ℕ → ℕ) → Uio → (ℕ → ℕ) → Kernel Xfer
uiomove ptr n buf u mem = uiomove_loop (n + length u.uio_iov + 1) ptr n buf u mem

-- The loop of `uiomovezeros`, on fuel: at most 16 bytes a round.
unfoldable pub zeros_loop : ℕ → ℕ → Uio → (ℕ → ℕ) → Kernel (ℕ × Uio × (ℕ → ℕ))
zeros_loop zero n u mem = panic
zeros_loop (suc fuel) n u mem =
    let amt = if ltb n 16 then n else 16 in
    if n == 0
    then done (0, u, mem)
    else (uiomove 0 amt (λ i. 0) u mem >>= λ r. elim r.0 [
      | zero ↦ zeros_loop fuel (n - amt) r.2 r.3
      | suc e ↦ done (suc e, r.2, r.3)
    ])

abbrev pub is_read : UioRw → Bool
is_read uio_read = true
is_read uio_write = false

-- `uiomovezeros`
unfoldable pub uiomovezeros : ℕ → Uio → (ℕ → ℕ) → Kernel (ℕ × Uio × (ℕ → ℕ))
uiomovezeros n u mem = kassert (is_read u.uio_rw) >> zeros_loop (n + 1) n u mem

-- `uio_kinit`
unfoldable pub uio_kinit : ℕ → ℕ → ℕ → UioRw → Uio
uio_kinit kbuf len pos rw = record {
  uio_iov = record { iov_base = kbuf; iov_len = len } ∷ [];
  uio_offset = pos;
  uio_resid = len;
  uio_segflg = uio_sysspace;
  uio_rw = rw;
  uio_space = λ base size. 0;
}
