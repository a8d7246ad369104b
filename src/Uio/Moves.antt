-- ===== src/Uio/Moves.antt =====
-- The loops of kern/lib/uio.c.
use toy_os.Common.{
  ℕ, zero, suc, ◌+◌, ◌-◌, ◌≤◌, ◌<◌, ◌≡◌, ◌≢◌, refl, sym, subst, ap, ap₂, ◌∙◌, inl, inr, true, false,
  ◌&&◌, List, [], ◌∷◌, Kernel, done, arith, Bool-cases, ltb, leb, ◌==◌, if◌then◌else◌, length,
  dec_lt,
}
use toy_os.Uio.{
  UioSeg, uio_sysspace, uio_userspace, uio_userispace, uio_read, uio_write, Iovec, Uio, Xfer,
  copy_error, copy_buffer, copy_memory, advance, Round, ends, goes_on, next_iov, copy_round,
  iov_round, uiomove_round, uiomove_loop, uiomove,
}
use toy_os.Uio.Moved.{
  CopyFails, CopyFails-Moved, cell, total, IsUio, Moved, IsUio-Moved, Moved-none, Moved-trans,
}

-- How `uiomove` ends: with the errno of a copy to or from user space, at the byte `k` and with those
-- before it moved, or with all bytes moved.
pub data Moves (ptr n : ℕ) (buf : ℕ → ℕ) (u : Uio) (mem : ℕ → ℕ) (r : Kernel Xfer) : Type 0 where
  failed :
      (err : ℕ) (buf' : ℕ → ℕ) (u' : Uio) (mem' : ℕ → ℕ)
      → r ≡ done (err, buf', u', mem')
      → err ≢ 0
      → u'.uio_rw ≡ u.uio_rw
      → (k : ℕ) → k < n
      → Moved ptr k buf u mem buf' u' mem'
      → CopyFails u k err
      → Moves ptr n buf u mem r
  moved :
      (buf' : ℕ → ℕ) (u' : Uio) (mem' : ℕ → ℕ)
      → r ≡ done (0, buf', u', mem')
      → Moved ptr n buf u mem buf' u' mem'
      → Moves ptr n buf u mem r

Moves-trans :
    {ptr n m : ℕ} {buf mem buf1 mem1 : ℕ → ℕ} {u u1 : Uio} {r : Kernel Xfer}
    → IsUio u
    → n + m ≤ u.uio_resid
    → Moved ptr n buf u mem buf1 u1 mem1
    → Moves (ptr + n) m buf1 u1 mem1 r
    → Moves ptr (n + m) buf u mem r
Moves-trans {n = n} i enough a (failed err b v w e bad rw k lt m c) =
    failed err b v w e bad (rw ∙ a.same_rw) (n + k) (omega arith) (Moved-trans i (omega arith) a m)
      (CopyFails-Moved a c)
Moves-trans i enough a (moved b v w e m) = moved b v w e (Moved-trans i enough a m)

module _ (size : ℕ) (iov : Iovec) (rest : List Iovec) (ptr : ℕ) (buf : ℕ → ℕ) (u : Uio)
    (mem : ℕ → ℕ) where
  module _ (at : u.uio_iov ≡ iov ∷ rest) (fits : size ≤ iov.iov_len) where
    first_cell : (k : ℕ) → k < size → cell u.uio_iov k ≡ iov.iov_base + k
    first_cell k lt = let inside : ltb k iov.iov_len ≡ true = ground arith in rw (at, inside)

    copy_read :
        u.uio_rw ≡ uio_read
        → (k : ℕ) → k < size
        → copy_memory u.uio_rw ptr iov.iov_base size buf mem (cell u.uio_iov k) ≡ buf (ptr + k)
    unfolding copy_memory
    copy_read e k lt =
        let inside : (leb iov.iov_base (iov.iov_base + k)
              && ltb (iov.iov_base + k) (iov.iov_base + size))
            ≡ true =
          ground arith in
        let back : iov.iov_base + k - iov.iov_base ≡ k = omega arith in
        ap (copy_memory u.uio_rw ptr iov.iov_base size buf mem) (first_cell k lt)
        ∙ rw (e, inside, back)

    copy_kept :
        u.uio_rw ≡ uio_read
        → (a : ℕ) → ((k : ℕ) → k < size → cell u.uio_iov k ≢ a)
        → copy_memory u.uio_rw ptr iov.iov_base size buf mem a ≡ mem a
    unfolding copy_memory
    copy_kept e a h = elim (Bool-cases (leb iov.iov_base a && ltb a (iov.iov_base + size))) [
      | inr out ↦ rw (e, out)
      | inl inside ↦
          let lo : iov.iov_base ≤ a = ground arith in
          let lt : a - iov.iov_base < size = ground arith in
          absurd (h (a - iov.iov_base) lt (first_cell (a - iov.iov_base) lt ∙ omega arith))
    ]

    copy_write :
        u.uio_rw ≡ uio_write
        → (i : ℕ)
        → copy_buffer u.uio_rw ptr iov.iov_base size buf mem i
          ≡ (if leb ptr i && ltb i (ptr + size) then mem (cell u.uio_iov (i - ptr)) else buf i)
    unfolding copy_buffer
    copy_write e i = elim (Bool-cases (leb ptr i && ltb i (ptr + size))) [
      | inr out ↦ rw (e, out)
      | inl inside ↦
          let lt : i - ptr < size = ground arith in
          rw (e, inside) (ap mem (sym (first_cell (i - ptr) lt)))
    ]

    advanced-Moved :
        IsUio u
        → size ≤ u.uio_resid
        → Moved ptr size buf u mem
            (copy_buffer u.uio_rw ptr iov.iov_base size buf mem)
            (advance size iov rest u)
            (copy_memory u.uio_rw ptr iov.iov_base size buf mem)
    unfolding advance copy_buffer copy_memory
    advanced-Moved i enough = record {
      same_rw = refl;
      same_seg = refl;
      same_space = refl;
      offset = refl;
      resid = (let s = i.small in omega arith);
      cells = λ k.
          (let here : (ltb k (iov.iov_len - size)) ≡ ltb (size + k) iov.iov_len = ground arith in
            let there : k - (iov.iov_len - size) ≡ size + k - iov.iov_len = omega arith in
            let add : iov.iov_base + size + k ≡ iov.iov_base + (size + k) = omega arith in
            rw (at, here, there, add));
      totals = (let t = ap total at in omega arith);
      reads_buffer = λ e j. rw e;
      reads_memory = copy_read;
      reads_kept = copy_kept;
      writes_memory = λ e a. rw e;
      writes_buffer = copy_write;
    }

-- How a round with bytes to move ends.
data Rounds (ptr n : ℕ) (buf : ℕ → ℕ) (u : Uio) (mem : ℕ → ℕ) (r : Round) : Type 0 where
  stops :
      (err : ℕ)
      → r ≡ ends (done (err, buf, u, mem))
      → err ≢ 0
      → CopyFails u 0 err
      → Rounds ptr n buf u mem r
  steps :
      (m : ℕ) (buf' : ℕ → ℕ) (u' : Uio) (mem' : ℕ → ℕ)
      → r ≡ goes_on (ptr + m) (n - m) buf' u' mem'
      → m ≤ n
      → n - m + length u'.uio_iov < n + length u.uio_iov
      → Moved ptr m buf u mem buf' u' mem'
      → Rounds ptr n buf u mem r

-- No copy within the kernel fails.
copy_error_lem :
    (u : Uio) (base size : ℕ) (seg : UioSeg)
    → u.uio_segflg ≡ seg
    → copy_error u base size ≢ 0
    → (u.uio_segflg ≢ uio_sysspace) × (u.uio_space base size ≡ copy_error u base size)
unfolding copy_error
copy_error_lem u base size uio_sysspace e bad = absurd (bad (rw e))
copy_error_lem u base size uio_userspace e bad = (λ z. user_data (sym e ∙ z), rw e)
  where
    user_data : uio_userspace ≢ uio_sysspace
    user_data z = cc
copy_error_lem u base size uio_userispace e bad = (λ z. user_code (sym e ∙ z), rw e)
  where
    user_code : uio_userispace ≢ uio_sysspace
    user_code z = cc

copy_round-Rounds :
    (size : ℕ) (iov : Iovec) (rest : List Iovec) (ptr n : ℕ) (buf : ℕ → ℕ) (u : Uio) (mem : ℕ → ℕ)
    → u.uio_iov ≡ iov ∷ rest
    → size ≤ iov.iov_len
    → 0 < size
    → size ≤ n
    → n ≤ u.uio_resid
    → IsUio u
    → Rounds ptr n buf u mem (copy_round size iov rest ptr n buf u mem)
unfolding copy_round advance copy_error
copy_round-Rounds size iov rest ptr n buf u mem at fits some_bytes le enough i =
    let err = copy_error u iov.iov_base size in
    elim (Bool-cases (err == 0)) [
      | inr bad ↦
          let wrong : err ≢ 0 = λ z. ground arith in
          let (segment, errno) = copy_error_lem u iov.iov_base size u.uio_segflg refl wrong in
          let long : ltb 0 iov.iov_len ≡ true = ground arith in
          let first : iov.iov_base + 0 ≡ iov.iov_base = omega arith in
          stops err (rw bad) wrong (record {
            segment = segment;
            size = size;
            some_bytes = some_bytes;
            errno = rw (at, long, first) errno;
          })
      | inl ok ↦
          steps size (copy_buffer u.uio_rw ptr iov.iov_base size buf mem) (advance size iov rest u)
            (copy_memory u.uio_rw ptr iov.iov_base size buf mem) (rw ok) le
            (let l = ap length at in omega arith)
            (advanced-Moved size iov rest ptr buf u mem at fits i (omega arith))
    ]

next_iov-Rounds :
    (iov : Iovec) (rest : List Iovec) (ptr n : ℕ) (buf : ℕ → ℕ) (u : Uio) (mem : ℕ → ℕ)
    → u.uio_iov ≡ iov ∷ rest
    → iov.iov_len ≡ 0
    → 0 < n
    → n ≤ u.uio_resid
    → IsUio u
    → Rounds ptr n buf u mem (next_iov rest ptr n buf u mem)
unfolding next_iov
next_iov-Rounds iov [] ptr n buf u mem at empty some_bytes enough i =
    let t = ap total at in let f = i.fits in absurd (omega arith)
next_iov-Rounds iov (v ∷ vs) ptr n buf u mem at empty some_bytes enough i =
    let u' : Uio = record u { uio_iov = v ∷ vs } in
    steps 0 buf u' mem
      (let p0 : ptr ≡ ptr + 0 = omega arith in
        let n0 : n ≡ n - 0 = omega arith in ap₂ (λ p k. goes_on p k buf u' mem) p0 n0)
      (omega arith) (let l = ap length at in omega arith)
      (Moved-none ptr buf mem u u' refl refl refl refl refl
        (λ k.
          (let off : ltb k iov.iov_len ≡ false = ground arith in
            let all : k - iov.iov_len ≡ k = omega arith in rw (at, off, all)))
        (let t = ap total at in omega arith))

iov_round-Rounds :
    (vs : List Iovec) (ptr n : ℕ) (buf : ℕ → ℕ) (u : Uio) (mem : ℕ → ℕ)
    → u.uio_iov ≡ vs
    → 0 < n
    → n ≤ u.uio_resid
    → IsUio u
    → Rounds ptr n buf u mem (iov_round vs ptr n buf u mem)
unfolding iov_round
iov_round-Rounds [] ptr n buf u mem at some_bytes enough i =
    let t = ap total at in let f = i.fits in absurd (omega arith)
iov_round-Rounds (iov ∷ rest) ptr n buf u mem at some_bytes enough i =
    let size = if ltb n iov.iov_len then n else iov.iov_len in
    let le : size ≤ n = ground arith in
    let fits : size ≤ iov.iov_len = ground arith in
    elim (Bool-cases (size == 0)) [
      | inl e ↦
          rw e (next_iov-Rounds iov rest ptr n buf u mem at (ground arith) some_bytes enough i)
      | inr e ↦
          rw e (copy_round-Rounds size iov rest ptr n buf u mem at fits (ground arith) le enough i)
    ]

uiomove_round-Rounds :
    (ptr n : ℕ) (buf : ℕ → ℕ) (u : Uio) (mem : ℕ → ℕ)
    → IsUio u
    → 0 < n
    → n ≤ u.uio_resid
    → Rounds ptr n buf u mem (uiomove_round ptr n buf u mem)
unfolding uiomove_round
uiomove_round-Rounds ptr n buf u mem i some_bytes enough =
    let go : (ltb 0 n && ltb 0 u.uio_resid) ≡ true = ground arith in
    rw go (iov_round-Rounds u.uio_iov ptr n buf u mem refl some_bytes enough i)

uiomove_loop-Moves :
    (fuel ptr n : ℕ) (buf : ℕ → ℕ) (u : Uio) (mem : ℕ → ℕ)
    → IsUio u
    → n ≤ u.uio_resid
    → n + length u.uio_iov < fuel
    → Moves ptr n buf u mem (uiomove_loop fuel ptr n buf u mem)
unfolding uiomove_loop uiomove_round
uiomove_loop-Moves zero ptr n buf u mem i enough lt = absurd (omega arith)
uiomove_loop-Moves (suc fuel) ptr n buf u mem i enough lt = elim (dec_lt 0 n) [
  | no none_left ↦
      let nothing : n ≡ 0 = omega arith in
      subst (λ k. Moves ptr k buf u mem (uiomove_loop (suc fuel) ptr k buf u mem)) (sym nothing)
        (moved buf u mem (uiomove_stop fuel ptr buf u mem)
          (Moved-none ptr buf mem u u refl refl refl refl refl (λ k. refl) refl))
  | yes some_bytes ↦ elim (uiomove_round-Rounds ptr n buf u mem i some_bytes enough) [
    | stops err e bad c ↦
        failed err buf u mem (rw (uiomove_loop, e)) bad refl 0 some_bytes
          (Moved-none ptr buf mem u u refl refl refl refl refl (λ k. refl) refl) c
    | steps m buf' u' mem' e le less first ↦
        let whole : m + (n - m) ≡ n = omega arith in
        let r = first.resid in
        subst (λ k. Moves ptr k buf u mem (uiomove_loop (suc fuel) ptr n buf u mem)) whole
          (Moves-trans i (omega arith) first (
            rw (uiomove_loop, e)
              (uiomove_loop-Moves fuel (ptr + m) (n - m) buf' u' mem' (IsUio-Moved i first)
                (omega arith) (omega arith))))
  ]
]
  where
    uiomove_stop :
        (fuel ptr : ℕ) (buf : ℕ → ℕ) (u : Uio) (mem : ℕ → ℕ)
        → uiomove_loop (suc fuel) ptr 0 buf u mem ≡ done (0, buf, u, mem)
    uiomove_stop fuel ptr buf u mem = refl

-- `uiomove` of no more bytes than are left to move ends, and does not panic. It answers the errno
-- that a copy to or from user space has at one of them, with those before it moved, or moves all of
-- them between the buffer and the regions, each byte to its place, and advances the uio past them.
pub uiomove-Moves :
    (ptr n : ℕ) (buf : ℕ → ℕ) (u : Uio) (mem : ℕ → ℕ)
    → IsUio u
    → n ≤ u.uio_resid
    → Moves ptr n buf u mem (uiomove ptr n buf u mem)
unfolding uiomove
uiomove-Moves ptr n buf u mem i enough =
    uiomove_loop-Moves (n + length u.uio_iov + 1) ptr n buf u mem i enough (omega arith)
