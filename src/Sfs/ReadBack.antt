-- ===== src/Sfs/ReadBack.antt =====
-- `sfs_io` of kern/fs/sfs/sfs_vnode.c twice: a write, and a read of the same bytes.
use toy_os.Common.{
  ℕ, ◌+◌, ◌-◌, ◌≤◌, ◌<◌, ◌≡◌, ◌≢◌, refl, sym, subst, ap, ◌∙◌, true, false, ◌&&◌, done, arith, ltb,
  leb,
}
use toy_os.Sfs.FileMoves.{FileFault}
use toy_os.Uio.{uio_read, uio_write, Uio, is_read}
use toy_os.Uio.Moved.{cell, IsUio}
use toy_os.Sfs.{SfsFs, SfsVnode}
use toy_os.Sfs.FileIo.{FileIo, sfs_io}
use toy_os.Sfs.Transfer.{IsTransfer}
use toy_os.Sfs.Io.{io_length, Transfers, transferred, sfs_io-Transfers}

-- How a write and a read of the same bytes end: one of them with an errno, or with the bytes that
-- have been written in the regions of the read.
pub data ReadsBack {D : Type 0} (u v : Uio) (mem mem2 : ℕ → ℕ) (sv : SfsVnode) (s : SfsFs D)
    : Type 0 where
  write_fails :
      (q : FileIo D)
      → sfs_io u mem sv s ≡ done q
      → q.0 ≢ 0
      → FileFault u q.4 q.0
      → ReadsBack u v mem mem2 sv s
  read_fails :
      (q p : FileIo D)
      → sfs_io u mem sv s ≡ done q
      → q.0 ≡ 0
      → sfs_io v mem2 q.3 q.4 ≡ done p
      → p.0 ≢ 0
      → FileFault v p.4 p.0
      → ReadsBack u v mem mem2 sv s
  reads_back :
      (q p : FileIo D)
      → sfs_io u mem sv s ≡ done q
      → q.0 ≡ 0
      → sfs_io v mem2 q.3 q.4 ≡ done p
      → p.0 ≡ 0
      → ((k : ℕ) → k < u.uio_resid → p.2 (cell v.uio_iov k) ≡ mem (cell u.uio_iov k))
      → ReadsBack u v mem mem2 sv s

-- The bytes that `sfs_io` has written to a file of a mounted volume of 4 GB at most, on a device
-- that leaves the uio and its memory alone after an I/O error, `sfs_io` reads back, unless one of
-- the two answers ENOSPC on a full volume, EFBIG past the last block of a file, an errno of the
-- device or the errno of a copy; neither fails a KASSERT or panics.
pub sfs_io-ReadsBack :
    {D : Type 0} {word : D → ℕ → ℕ → ℕ} (u v : Uio) (mem mem2 : ℕ → ℕ) (sv : SfsVnode) (s : SfsFs D)
    → IsTransfer word u mem sv s
    → u.uio_rw ≡ uio_write
    → IsUio v
    → v.uio_rw ≡ uio_read
    → v.uio_offset ≡ u.uio_offset
    → v.uio_resid ≡ u.uio_resid
    → ReadsBack u v mem mem2 sv s
sfs_io-ReadsBack {word = word} u v mem mem2 sv s i write whole read same_offset same_resid =
    elim (sfs_io-Transfers u mem sv s i) [
      | Transfers.failed err u' mem' sv' t e bad l why ↦
          write_fails (err, u', mem', sv', t) e bad why
      | transferred u' mem' sv' t e x size m ↦
          let writes : is_read u.uio_rw ≡ false = ap is_read write in
          let reads : is_read v.uio_rw ≡ true = ap is_read read in
          let n : io_length u sv ≡ u.uio_resid = rw writes in
          let long : u.uio_offset + u.uio_resid ≤ sv'.sv_i.sfi_size =
            subst (λ z. u.uio_offset + u.uio_resid ≤ z) (sym size) (rw writes (ground arith)) in
          let n2 : io_length v sv' ≡ u.uio_resid = rw reads (ground arith) in
          let end = i.ends_small in
          let volume = i.volume_small in
          let blocks = x.same_nblocks in
          let j : IsTransfer word v mem2 sv' t = record {
            mounted = x.mounted;
            owns = x.owns;
            whole = whole;
            bytes = λ w. absurd (no_write (sym read ∙ w));
            ends_small = omega arith;
            volume_small = omega arith;
          } in
          elim (sfs_io-Transfers v mem2 sv' t j) [
            | Transfers.failed err v' mem2' sv2 t2 f bad l why ↦
                read_fails (0, u', mem', sv', t) (err, v', mem2', sv2, t2) e refl f bad why
            | transferred v' mem2' sv2 t2 f y size2 m2 ↦
                reads_back (0, u', mem', sv', t) (0, v', mem2', sv2, t2) e refl f refl
                  (λ k lk.
                    (let inside : (leb u.uio_offset (v.uio_offset + k)
                            && ltb (v.uio_offset + k) (u.uio_offset + io_length u sv))
                          ≡ true =
                        ground arith in
                      let at : v.uio_offset + k - u.uio_offset ≡ k = omega arith in
                      m2.reads_memory read k (omega (arith, n2, lk))
                      ∙ (m.writes_buffer write (v.uio_offset + k) ∙ rw (inside, at))))
          ]
    ]
  where
    no_write : uio_read ≢ uio_write
    no_write e = cc
