-- ===== src/Sfs/Tests/Ram.antt =====
-- A device in memory for runs of the file system's theorems: 16 blocks, which do not fail.
use toy_os.Common.{
  ℕ, zero, suc, ◌/◌, ◌%◌, ◌^◌, subst, sym, Kernel, panic, load_words, load_words_small, store_words,
  ◌<◌, ◌≡◌, ◌≢◌, refl, ◌⊎◌, inl, inr, Bool-cases, done, arith, if◌then◌else◌, update, update_self,
  update_ne, ap, ◌∙◌,
}
use toy_os.Uio.{UioRw, uio_read, uio_write, Uio, Xfer, uiomove, is_read}
use toy_os.Uio.Moved.{Moved}
use toy_os.Uio.Moves.{Moves, failed, moved, uiomove-Moves}
use toy_os.Uio.Zeros.{zeros}
use toy_os.Sfs.{einval, eio, sfs_blocksize, sfs_dbperidb, DeviceIo}
use toy_os.Sfs.Disk.{IsBlockUio, IsDevice}

abbrev pub Words : Type 0
Words = ℕ → ℕ → ℕ

-- EFAULT
abbrev efault : ℕ
efault = 6

-- The device moves a block by `uiomove`; a failing copy is EFAULT.
abbrev ram_read : Words → Kernel Xfer → Uio → (ℕ → ℕ) → ℕ × Uio × (ℕ → ℕ) × Words
ram_read d panic u mem = (efault, u, mem, d)
ram_read d (done (zero, buf, v, m)) u mem = (0, v, m, d)
ram_read d (done (suc e, buf, v, m)) u mem = (efault, u, mem, d)

abbrev ram_write : ℕ → Words → Kernel Xfer → Uio → (ℕ → ℕ) → ℕ × Uio × (ℕ → ℕ) × Words
ram_write b d panic u mem = (efault, u, mem, d)
ram_write b d (done (zero, buf, v, m)) u mem = (0, v, m, update d b (load_words buf))
ram_write b d (done (suc e, buf, v, m)) u mem = (efault, u, mem, d)

-- What the words of a block are.
abbrev pub words : Words → ℕ → ℕ → ℕ
words d b i = d b i % 2 ^ 32

unfoldable pub ram_io : DeviceIo Words
ram_io u mem d =
    let b = u.uio_offset / sfs_blocksize in
    if is_read u.uio_rw
    then ram_read d (uiomove 0 sfs_blocksize (store_words (words d b)) u mem) u mem
    else ram_write b d (uiomove 0 sfs_blocksize zeros u mem) u mem

ram_read_errno :
    (d : Words) (r : Kernel Xfer) (u : Uio) (mem : ℕ → ℕ)
    → ((ram_read d r u mem).0 ≡ 0) ⊎ ((ram_read d r u mem).0 ≡ efault)
ram_read_errno d panic u mem = inr refl
ram_read_errno d (done (zero, buf, v, m)) u mem = inl refl
ram_read_errno d (done (suc e, buf, v, m)) u mem = inr refl

ram_write_errno :
    (b : ℕ) (d : Words) (r : Kernel Xfer) (u : Uio) (mem : ℕ → ℕ)
    → ((ram_write b d r u mem).0 ≡ 0) ⊎ ((ram_write b d r u mem).0 ≡ efault)
ram_write_errno b d panic u mem = inr refl
ram_write_errno b d (done (zero, buf, v, m)) u mem = inl refl
ram_write_errno b d (done (suc e, buf, v, m)) u mem = inr refl

ram_read_keeps : (d : Words) (r : Kernel Xfer) (u : Uio) (mem : ℕ → ℕ) → (ram_read d r u mem).3 ≡ d
ram_read_keeps d panic u mem = refl
ram_read_keeps d (done (zero, buf, v, m)) u mem = refl
ram_read_keeps d (done (suc e, buf, v, m)) u mem = refl

ram_write_keeps :
    (b : ℕ) (d : Words) (r : Kernel Xfer) (u : Uio) (mem : ℕ → ℕ) (c i : ℕ)
    → b ≢ c
    → (ram_write b d r u mem).3 c i ≡ d c i
ram_write_keeps b d panic u mem c i other = refl
ram_write_keeps b d (done (zero, buf, v, m)) u mem c i other =
    ap (λ f. f i) (update_ne d b c (load_words buf) other)
ram_write_keeps b d (done (suc e, buf, v, m)) u mem c i other = refl

-- The two directions of the device.
ram_io_read :
    (u : Uio) (mem : ℕ → ℕ) (d : Words)
    → u.uio_rw ≡ uio_read
    → ram_io u mem d
      ≡ ram_read d
          (uiomove 0 sfs_blocksize (store_words (words d (u.uio_offset / sfs_blocksize))) u mem)
          u
          mem
unfolding ram_io
ram_io_read u mem d e = rw e

ram_io_write :
    (u : Uio) (mem : ℕ → ℕ) (d : Words)
    → u.uio_rw ≡ uio_write
    → ram_io u mem d
      ≡ ram_write (u.uio_offset / sfs_blocksize) d (uiomove 0 sfs_blocksize zeros u mem) u mem
unfolding ram_io
ram_io_write u mem d e = rw e

ram_io_errno :
    (u : Uio) (mem : ℕ → ℕ) (d : Words) → ((ram_io u mem d).0 ≡ 0) ⊎ ((ram_io u mem d).0 ≡ efault)
unfolding ram_io
ram_io_errno u mem d = elim (Bool-cases (is_read u.uio_rw)) [
  | inl e ↦ rw e (ram_read_errno d _ u mem)
  | inr e ↦ rw e (ram_write_errno _ d _ u mem)
]

no_errno : (u : Uio) (mem : ℕ → ℕ) (d : Words) (e : ℕ) → e ≢ 0 → e ≢ efault → (ram_io u mem d).0 ≢ e
no_errno u mem d e z f q = elim (ram_io_errno u mem d) [
  | inl ok ↦ z (sym q ∙ ok)
  | inr bad ↦ f (sym q ∙ bad)
]

ram_read-Moves :
    (d : Words) (buf : ℕ → ℕ) (u : Uio) (mem : ℕ → ℕ) (r : Kernel Xfer)
    → Moves 0 sfs_blocksize buf u mem r
    → ((ram_read d r u mem).1.uio_rw ≡ u.uio_rw)
      × ((ram_read d r u mem).0 ≡ 0
          → (out : ℕ → ℕ) × Moved 0 sfs_blocksize buf u mem out
              (ram_read d r u mem).1
              (ram_read d r u mem).2)
ram_read-Moves d buf u mem r (failed zero out v m e bad w j lj part c) = absurd (bad refl)
ram_read-Moves d buf u mem r (failed (suc n) out v m e bad w j lj part c) =
    subst
      (λ r.
        ((ram_read d r u mem).1.uio_rw ≡ u.uio_rw)
        × ((ram_read d r u mem).0 ≡ 0
            → (out : ℕ → ℕ) × Moved 0 sfs_blocksize buf u mem out (ram_read d r u mem).1
                (ram_read d r u mem).2))
      (sym e) (refl, λ z. absurd (omega arith))
ram_read-Moves d buf u mem r (moved out v m e k) =
    subst
      (λ r.
        ((ram_read d r u mem).1.uio_rw ≡ u.uio_rw)
        × ((ram_read d r u mem).0 ≡ 0
            → (out : ℕ → ℕ) × Moved 0 sfs_blocksize buf u mem out (ram_read d r u mem).1
                (ram_read d r u mem).2))
      (sym e) (k.same_rw, λ z. (out, k))

ram_write-Moves :
    (b : ℕ) (d : Words) (u : Uio) (mem : ℕ → ℕ) (r : Kernel Xfer)
    → Moves 0 sfs_blocksize zeros u mem r
    → ((ram_write b d r u mem).1.uio_rw ≡ u.uio_rw)
      × ((ram_write b d r u mem).0 ≡ 0
          → (out : ℕ → ℕ) × Moved 0 sfs_blocksize zeros u mem out
              (ram_write b d r u mem).1
              (ram_write b d r u mem).2
            × ((i : ℕ) → words (ram_write b d r u mem).3 b i ≡ load_words out i))
ram_write-Moves b d u mem r (failed zero out v m e bad w j lj part c) = absurd (bad refl)
ram_write-Moves b d u mem r (failed (suc n) out v m e bad w j lj part c) =
    subst
      (λ r.
        ((ram_write b d r u mem).1.uio_rw ≡ u.uio_rw)
        × ((ram_write b d r u mem).0 ≡ 0
            → (out : ℕ → ℕ) × Moved 0 sfs_blocksize zeros u mem out (ram_write b d r u mem).1
                (ram_write b d r u mem).2
              × ((i : ℕ) → words (ram_write b d r u mem).3 b i ≡ load_words out i)))
      (sym e) (refl, λ z. absurd (omega arith))
ram_write-Moves b d u mem r (moved out v m e k) =
    subst
      (λ r.
        ((ram_write b d r u mem).1.uio_rw ≡ u.uio_rw)
        × ((ram_write b d r u mem).0 ≡ 0
            → (out : ℕ → ℕ) × Moved 0 sfs_blocksize zeros u mem out (ram_write b d r u mem).1
                (ram_write b d r u mem).2
              × ((i : ℕ) → words (ram_write b d r u mem).3 b i ≡ load_words out i)))
      (sym e)
      (
        k.same_rw,
        λ z. (
          out,
          k,
          λ i.
              (let small = load_words_small out i in
                ap (λ f. f i % 2 ^ 32) (update_self d b (load_words out)) ∙ omega arith),
        ),
      )

pub ram_io-IsDevice : IsDevice ram_io 16 words
ram_io-IsDevice = record {
  word_small = λ d b i. omega arith;
  same_rw = λ b u mem d k. elim (rw_cases u.uio_rw) [
    | inl r ↦
        ap (λ q. q.1.uio_rw) (ram_io_read u mem d r)
        ∙ (ram_read-Moves d _ u mem _ (block_moves b u mem k _)).0
    | inr w ↦
        ap (λ q. q.1.uio_rw) (ram_io_write u mem d w)
        ∙ (ram_write-Moves _ d u mem _ (block_moves b u mem k _)).0
  ];
  valid_block = λ b u mem d k lt. no_errno u mem d einval (omega arith) (omega arith);
  unmoved = λ u mem d e. absurd (no_errno u mem d eio (omega arith) (omega arith) e);
  read_data = λ b u mem d k r e.
      (let at : u.uio_offset / sfs_blocksize ≡ b = block_at b u k in
        let run =
          ram_io_read u mem d r
          ∙ ap (λ c. ram_read d (uiomove 0 sfs_blocksize (store_words (words d c)) u mem) u mem)
              at in
        subst
          (λ q.
            q.0 ≡ 0
            → (buf : ℕ → ℕ) × Moved 0 sfs_blocksize (store_words (words d b)) u mem buf q.1 q.2)
          (sym run) (ram_read-Moves d (store_words (words d b)) u mem _ (block_moves b u mem k _)).1
          e);
  read_keeps = λ u mem d c i r.
      ap (λ q. q.3 c i % 2 ^ 32) (ram_io_read u mem d r)
      ∙ ap (λ f. f c i % 2 ^ 32) (ram_read_keeps d _ u mem);
  write_data = λ b u mem d k w e.
      (let at : u.uio_offset / sfs_blocksize ≡ b = block_at b u k in
        let run =
          ram_io_write u mem d w
          ∙ ap (λ c. ram_write c d (uiomove 0 sfs_blocksize zeros u mem) u mem) at in
        subst
          (λ q.
            q.0 ≡ 0
            → (buf : ℕ → ℕ) × Moved 0 sfs_blocksize zeros u mem buf q.1 q.2
              × ((i : ℕ) → i < sfs_dbperidb → words q.3 b i ≡ load_words buf i))
          (sym run)
          (λ z.
            (let (out, m, h) = (ram_write-Moves b d u mem _ (block_moves b u mem k _)).1 z in
              (out, m, λ i lt. h i)))
          e);
  write_keeps = λ b u mem d c i k w other.
      (let at : u.uio_offset / sfs_blocksize ≡ b = block_at b u k in
        ap (λ q. q.3 c i % 2 ^ 32) (ram_io_write u mem d w)
        ∙ ap (λ n. n % 2 ^ 32) (ram_write_keeps _ d _ u mem c i (λ z. other (sym at ∙ z))));
}
  where
    rw_cases : (r : UioRw) → (r ≡ uio_read) ⊎ (r ≡ uio_write)
    rw_cases uio_read = inl refl
    rw_cases uio_write = inr refl

    block_at : (b : ℕ) (u : Uio) → IsBlockUio b u → u.uio_offset / sfs_blocksize ≡ b
    block_at b u k = let o = k.block_offset in omega arith

    block_moves :
        (b : ℕ) (u : Uio) (mem : ℕ → ℕ)
        → IsBlockUio b u
        → (buf : ℕ → ℕ) → Moves 0 sfs_blocksize buf u mem (uiomove 0 sfs_blocksize buf u mem)
    block_moves b u mem k buf =
        uiomove-Moves 0 sfs_blocksize buf u mem k.whole (let r = k.block_resid in omega arith)
