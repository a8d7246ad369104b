-- ===== src/Sfs/Directory/Slots.antt =====
-- `sfs_readdir` and `sfs_writedir` of kern/fs/sfs/sfs_vnode.c on the bytes of a directory.
use toy_os.Common.{
  ℕ, ◌+◌, ◌-◌, ◌*◌, ◌^◌, ◌≤◌, ◌<◌, ◌≡◌, ◌≢◌, refl, sym, ap, ◌∙◌, inl, inr, true, false, ◌&&◌,
  Kernel, done, arith, Bool-cases, ltb, leb, ◌==◌, if◌then◌else◌, ==_ne,
}
use toy_os.Sfs.FileMoves.{FileFault}
use toy_os.Uio.{UioRw, uio_read, uio_write, uio_kinit, is_read}
use toy_os.Uio.Moved.{cell}
use toy_os.Sfs.{sfs_blocksize, SfsFs, SfsVnode}
use toy_os.Sfs.Blocks.{IsMounted}
use toy_os.Sfs.Owns.{Owns}
use toy_os.Sfs.FileBytes.{fbyte, Serves, Leaves}
use toy_os.Sfs.Transfer.{IsTransfer}
use toy_os.Sfs.Io.{io_length, Transfers, transferred, sfs_io-Transfers}
use toy_os.Sfs.Directory.{sfs_dirsize, dir_uio, sfs_readdir, sfs_writedir}

-- A file of a mounted volume of 4 GB at most, with the slot below 4 GB.
pub record IsSlot {D : Type 0} (word : D → ℕ → ℕ → ℕ) (slot : ℕ) (sv : SfsVnode) (s : SfsFs D)
    : Type 0 where
  pub mounted : IsMounted word s
  pub owns : Owns word s sv
  pub slot_small : slot * sfs_dirsize + sfs_dirsize < 2 ^ 32
  pub volume_small : s.sp_nblocks * sfs_blocksize ≤ 2 ^ 32

-- How `sfs_readdir` ends.
pub data Readdirs {D : Type 0} (word : D → ℕ → ℕ → ℕ) (slot : ℕ) (sv : SfsVnode) (s : SfsFs D)
    (r : Kernel (ℕ × (ℕ → ℕ) × SfsVnode × SfsFs D)) : Type 0 where
  failed :
      (err : ℕ) (sd : ℕ → ℕ) (sv' : SfsVnode) (t : SfsFs D)
      → r ≡ done (err, sd, sv', t)
      → err ≢ 0
      → Leaves word s sv t
      → FileFault (dir_uio slot uio_read) t err
      → Readdirs word slot sv s r
  entry_read :
      (sd : ℕ → ℕ) (sv' : SfsVnode) (t : SfsFs D)
      → r ≡ done (0, sd, sv', t)
      → Serves word s sv t sv'
      → sv'.sv_i.sfi_size ≡ sv.sv_i.sfi_size
      → ((k : ℕ) → k < sfs_dirsize → sd k ≡ fbyte word s sv (slot * sfs_dirsize + k))
      → ((j : ℕ) → fbyte word t sv' j ≡ fbyte word s sv j)
      → Readdirs word slot sv s r

-- How `sfs_writedir` ends.
pub data Writedirs {D : Type 0} (word : D → ℕ → ℕ → ℕ) (slot : ℕ) (sd : ℕ → ℕ) (sv : SfsVnode)
    (s : SfsFs D) (r : Kernel (ℕ × SfsVnode × SfsFs D)) : Type 0 where
  failed :
      (err : ℕ) (sv' : SfsVnode) (t : SfsFs D)
      → r ≡ done (err, sv', t)
      → err ≢ 0
      → Leaves word s sv t
      → FileFault (dir_uio slot uio_write) t err
      → Writedirs word slot sd sv s r
  entry_written :
      (sv' : SfsVnode) (t : SfsFs D)
      → r ≡ done (0, sv', t)
      → Serves word s sv t sv'
      → sv'.sv_i.sfi_size ≡ (
          if ltb sv.sv_i.sfi_size (slot * sfs_dirsize + sfs_dirsize)
          then slot * sfs_dirsize + sfs_dirsize
          else sv.sv_i.sfi_size)
      → ((j : ℕ)
          → fbyte word t sv' j ≡ (
              if leb (slot * sfs_dirsize) j && ltb j (slot * sfs_dirsize + sfs_dirsize)
              then sd (j - slot * sfs_dirsize)
              else fbyte word s sv j))
      → Writedirs word slot sd sv s r

module _ {D : Type 0} {word : D → ℕ → ℕ → ℕ} (slot : ℕ) (sd : ℕ → ℕ) (sv : SfsVnode) (s : SfsFs D)
    (i : IsSlot word slot sv s) where
  dir_cell : (rw : UioRw) (k : ℕ) → k < sfs_dirsize → cell (dir_uio slot rw).uio_iov k ≡ k
  unfolding dir_uio uio_kinit
  dir_cell rw k lt = ground arith

  dir_offset : (rw : UioRw) → (dir_uio slot rw).uio_offset ≡ slot * sfs_dirsize
  unfolding dir_uio uio_kinit
  dir_offset rw = let small = i.slot_small in omega arith

  dir_resid : (rw : UioRw) → (dir_uio slot rw).uio_resid ≡ sfs_dirsize
  unfolding dir_uio uio_kinit
  dir_resid rw = refl

  dir_rw : (rw : UioRw) → (dir_uio slot rw).uio_rw ≡ rw
  unfolding dir_uio uio_kinit
  dir_rw rw = refl

  dir_uio-IsTransfer :
      (rw : UioRw)
      → (rw ≡ uio_write → (a : ℕ) → sd a < 256)
      → IsTransfer word (dir_uio slot rw) sd sv s
  unfolding dir_uio uio_kinit
  dir_uio-IsTransfer rw bytes = record {
    mounted = i.mounted;
    owns = i.owns;
    whole = record { fits = omega arith; small = omega arith; apart = λ j k lj lk e. ground arith };
    bytes = bytes;
    ends_small = (let small = i.slot_small in omega arith);
    volume_small = i.volume_small;
  }

  -- `sfs_readdir` of a slot of a directory does not panic: it answers an errno, or gives the bytes
  -- of the slot, and the directory is as it was.
  pub sfs_readdir-Readdirs :
      slot * sfs_dirsize + sfs_dirsize ≤ sv.sv_i.sfi_size
      → Readdirs word slot sv s (sfs_readdir slot sd sv s)
  unfolding sfs_readdir
  sfs_readdir-Readdirs inside =
      let u = dir_uio slot uio_read in
      let off = dir_offset uio_read in
      let res = dir_resid uio_read in
      let reads : is_read u.uio_rw ≡ true = ap is_read (dir_rw uio_read) in
      elim (sfs_io-Transfers u sd sv s (dir_uio-IsTransfer uio_read (λ w. absurd (no_write w)))) [
        | Transfers.failed err u' sd' sv' t e bad l why ↦
            let wrong : (err == 0) ≡ false = ==_ne err 0 bad in
            Readdirs.failed err sd' sv' t (rw (e, wrong)) bad l why
        | transferred u' sd' sv' t e x size m ↦
            let n : io_length u sv ≡ sfs_dirsize = rw reads (ground arith) in
            let left = m.resid in
            let whole : ltb 0 u'.uio_resid ≡ false =
              (let z : u'.uio_resid ≡ 0 = omega arith in ground arith) in
            entry_read sd' sv' t (rw (e, whole)) x (size ∙ rw reads)
              (λ k lk.
                ap sd' (sym (dir_cell uio_read k lk))
                ∙ (m.reads_memory (dir_rw uio_read) k (omega (arith, n, lk))
                    ∙ ap (λ o. fbyte word s sv (o + k)) off))
              (m.reads_buffer (dir_rw uio_read))
      ]
    where
      no_write : uio_read ≢ uio_write
      no_write e = cc

  -- `sfs_writedir` of a slot of a mounted volume of 4 GB at most, on a device that leaves the uio
  -- and its memory alone after an I/O error, does not panic: it answers ENOSPC on a full volume,
  -- EFBIG past the last block of a file or an errno of the device, or sets the bytes of the slot
  -- and no other, and the directory is longer if the slot is behind its end.
  pub sfs_writedir-Writedirs :
      ((a : ℕ) → sd a < 256) → Writedirs word slot sd sv s (sfs_writedir slot sd sv s)
  unfolding sfs_writedir
  sfs_writedir-Writedirs bytes =
      let u = dir_uio slot uio_write in
      let off = dir_offset uio_write in
      let res = dir_resid uio_write in
      let writes : is_read u.uio_rw ≡ false = ap is_read (dir_rw uio_write) in
      elim (sfs_io-Transfers u sd sv s (dir_uio-IsTransfer uio_write (λ w. bytes))) [
        | Transfers.failed err u' sd' sv' t e bad l why ↦
            let wrong : (err == 0) ≡ false = ==_ne err 0 bad in
            Writedirs.failed err sv' t (rw (e, wrong)) bad l why
        | transferred u' sd' sv' t e x size m ↦
            let n : io_length u sv ≡ sfs_dirsize = rw writes res in
            let left = m.resid in
            let whole : ltb 0 u'.uio_resid ≡ false =
              (let z : u'.uio_resid ≡ 0 = omega arith in ground arith) in
            entry_written sv' t (rw (e, whole)) x (size ∙ rw (writes, off, res)) (λ j.
              m.writes_buffer (dir_rw uio_write) j
              ∙ elim (Bool-cases
                  (leb (slot * sfs_dirsize) j && ltb j (slot * sfs_dirsize + sfs_dirsize))) [
                    | inl inside ↦
                        let range : (leb u.uio_offset j && ltb j (u.uio_offset + io_length u sv))
                            ≡ true =
                          ground arith in
                        let lt : j - u.uio_offset < sfs_dirsize =
                          (let h : j < slot * sfs_dirsize + sfs_dirsize = ground arith in
                            omega (arith, off, h)) in
                        rw (range, inside)
                          (ap sd (dir_cell uio_write (j - u.uio_offset) lt ∙ ap (λ o. j - o) off))
                    | inr out ↦
                        let range : (leb u.uio_offset j && ltb j (u.uio_offset + io_length u sv))
                            ≡ false =
                          ground arith in
                        rw (range, out)
                  ])
      ]
