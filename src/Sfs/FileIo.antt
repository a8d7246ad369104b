-- ===== src/Sfs/FileIo.antt =====
-- `sfs_partialio`, `sfs_blockio` and `sfs_io` of kern/fs/sfs/sfs_vnode.c. A uio_offset is an off_t
-- that is not negative; a size_t is a word of 32 bits. Addition and subtraction of off_t are ordered
-- so that no intermediate result is negative.
use toy_os.Common.{
  ℕ, zero, suc, ◌+◌, ◌-◌, ◌*◌, ◌/◌, ◌%◌, Bool, true, not, ◌&&◌, ◌||◌, Kernel, done, kassert, ◌>>=◌,
  ◌>>◌, ltb, leb, ◌==◌, if◌then◌else◌,
}
use toy_os.Coremap.{u32}
use toy_os.Uio.{UioRw, Uio, uiomove, uiomovezeros, is_read}
use toy_os.Sfs.{sfs_blocksize, SfsFs, SfsVnode, sfs_rblock, sfs_wblock, sfs_rwblock, sfs_bmap}

-- The errno, the uio, the memory, the vnode and the volume.
abbrev pub FileIo : Type 0 → Type 0
FileIo D = ℕ × Uio × (ℕ → ℕ) × SfsVnode × SfsFs D

-- A uio with another offset and residue.
abbrev pub reframed : ℕ → ℕ → Uio → Uio
reframed offset resid u = record u { uio_offset = offset; uio_resid = resid }

-- The vnode with the length of the file adjusted.
unfoldable pub longer : ℕ → SfsVnode → SfsVnode
longer size sv =
    let i = sv.sv_i in record sv { sv_i = record i { sfi_size = u32 size }; sv_dirty = true }

-- Whether a read goes past the end of the file, and what it asks for too much.
unfoldable pub reads_past : Uio → SfsVnode → Bool
reads_past u sv = is_read u.uio_rw && ltb sv.sv_i.sfi_size (u.uio_offset + u.uio_resid)

unfoldable pub extra_resid : Uio → SfsVnode → ℕ
unfolding reads_past
extra_resid u sv =
    let endpos = u.uio_offset + u.uio_resid in
    if reads_past u sv then u32 (endpos - sv.sv_i.sfi_size) else 0

module _ {D : Type 0} where
  -- The block in a buffer, or zeros where there is none.
  unfoldable pub partial_fill : ℕ → UioRw → SfsFs D → Kernel (ℕ × (ℕ → ℕ) × SfsFs D)
  partial_fill diskblock rw s =
      if diskblock == 0 then kassert (is_read rw) >> done (0, λ i. 0, s) else sfs_rblock diskblock s

  -- `sfs_partialio` behind `uiomove`.
  unfoldable pub partial_write :
      ℕ → (ℕ → ℕ) → Uio → (ℕ → ℕ) → SfsVnode → SfsFs D → Kernel (FileIo D)
  partial_write diskblock iobuf u mem sv s =
      if is_read u.uio_rw
      then done (0, u, mem, sv, s)
      else (sfs_wblock iobuf diskblock s >>= λ w. done (w.0, u, mem, sv, w.1))

  -- `sfs_partialio` behind `sfs_bmap`.
  unfoldable pub partial_block : ℕ → ℕ → ℕ → Uio → (ℕ → ℕ) → SfsVnode → SfsFs D → Kernel (FileIo D)
  partial_block diskblock skipstart len u mem sv s = partial_fill diskblock u.uio_rw s >>= λ r.
      if r.0 == 0
      then (uiomove skipstart len r.1 u mem >>= λ q.
          if q.0 == 0
          then partial_write diskblock q.1 q.2 q.3 sv r.2
          else done (q.0, q.2, q.3, sv, r.2))
      else done (r.0, u, mem, sv, r.2)

  -- `sfs_partialio`
  unfoldable pub sfs_partialio : ℕ → ℕ → Uio → (ℕ → ℕ) → SfsVnode → SfsFs D → Kernel (FileIo D)
  sfs_partialio skipstart len u mem sv s =
      let doalloc = not (is_read u.uio_rw) in
      let fileblock = u32 (u.uio_offset / sfs_blocksize) in
      kassert (leb (skipstart + len) sfs_blocksize)
      >> (sfs_bmap fileblock doalloc sv s >>= λ r.
          if r.0 == 0
          then partial_block r.1 skipstart len u mem r.2 r.3
          else done (r.0, u, mem, r.2, r.3))

  -- `sfs_blockio` behind `sfs_bmap`: the number of the block times its size is taken in 32 bits.
  unfoldable pub whole_block : ℕ → Uio → (ℕ → ℕ) → SfsVnode → SfsFs D → Kernel (FileIo D)
  whole_block diskblock u mem sv s =
      let diskoff = u32 (diskblock * sfs_blocksize) in
      if diskblock == 0
      then kassert (is_read u.uio_rw)
        >> (uiomovezeros sfs_blocksize u mem >>= λ z. done (z.0, z.1, z.2, sv, s))
      else kassert (leb sfs_blocksize u.uio_resid)
        >> (sfs_rwblock (reframed diskoff sfs_blocksize u) mem s >>= λ r. done (
          r.0,
          reframed (r.1.uio_offset + u.uio_offset - diskoff)
              (u32 (r.1.uio_resid + u.uio_resid - sfs_blocksize)) r.1,
          r.2,
          sv,
          r.3,
        ))

  -- `sfs_blockio`
  unfoldable pub sfs_blockio : Uio → (ℕ → ℕ) → SfsVnode → SfsFs D → Kernel (FileIo D)
  sfs_blockio u mem sv s =
      let doalloc = not (is_read u.uio_rw) in
      let fileblock = u32 (u.uio_offset / sfs_blocksize) in
      sfs_bmap fileblock doalloc sv s >>= λ r.
      if r.0 == 0 then whole_block r.1 u mem r.2 r.3 else done (r.0, u, mem, r.2, r.3)

  -- `goto out` after an errno.
  unfoldable pub unless_failed :
      FileIo D → (Uio → (ℕ → ℕ) → SfsVnode → SfsFs D → Kernel (FileIo D)) → Kernel (FileIo D)
  unless_failed r next = if r.0 == 0 then next r.1 r.2 r.3 r.4 else done r

  -- The leading partial block.
  unfoldable pub leading_part : Uio → (ℕ → ℕ) → SfsVnode → SfsFs D → Kernel (FileIo D)
  leading_part u mem sv s =
      let blkoff = u.uio_offset % sfs_blocksize in
      let rest = sfs_blocksize - blkoff in
      let len = if ltb u.uio_resid rest then u.uio_resid else rest in
      if blkoff == 0 then done (0, u, mem, sv, s) else sfs_partialio blkoff len u mem sv s

  -- The whole blocks, `nblocks` of them.
  unfoldable pub whole_blocks : ℕ → Uio → (ℕ → ℕ) → SfsVnode → SfsFs D → Kernel (FileIo D)
  whole_blocks zero u mem sv s = done (0, u, mem, sv, s)
  whole_blocks (suc nblocks) u mem sv s =
      sfs_blockio u mem sv s >>= λ r. unless_failed r (whole_blocks nblocks)

  -- The partial block at the end.
  unfoldable pub trailing_part : Uio → (ℕ → ℕ) → SfsVnode → SfsFs D → Kernel (FileIo D)
  trailing_part u mem sv s =
      kassert (ltb u.uio_resid sfs_blocksize)
      >> (if ltb 0 u.uio_resid
          then sfs_partialio 0 u.uio_resid u mem sv s
          else done (0, u, mem, sv, s))

  -- `sfs_io` behind the leading partial block.
  unfoldable pub aligned_part : Uio → (ℕ → ℕ) → SfsVnode → SfsFs D → Kernel (FileIo D)
  aligned_part u mem sv s =
      if u.uio_resid == 0
      then done (0, u, mem, sv, s)
      else kassert (u.uio_offset % sfs_blocksize == 0)
        >> (whole_blocks (u.uio_resid / sfs_blocksize) u mem sv s >>= λ r.
            unless_failed r trailing_part)

  -- `sfs_io` up to `out`.
  unfoldable pub io_parts : Uio → (ℕ → ℕ) → SfsVnode → SfsFs D → Kernel (FileIo D)
  io_parts u mem sv s = leading_part u mem sv s >>= λ r. unless_failed r aligned_part

  -- `out` of `sfs_io`.
  unfoldable pub io_out : ℕ → FileIo D → FileIo D
  io_out extraresid r =
      let u = r.1 in
      (
        r.0,
        record u { uio_resid = u32 (u.uio_resid + extraresid) },
        r.2,
        (if not (is_read u.uio_rw) && ltb (r.3).sv_i.sfi_size u.uio_offset
            then longer u.uio_offset r.3
            else r.3),
        r.4,
      )

  -- `sfs_io`
  unfoldable pub sfs_io : Uio → (ℕ → ℕ) → SfsVnode → SfsFs D → Kernel (FileIo D)
  sfs_io u mem sv s =
      let extraresid = extra_resid u sv in
      if is_read u.uio_rw && leb sv.sv_i.sfi_size u.uio_offset
      then done (0, u, mem, sv, s)
      else kassert (not (reads_past u sv) || ltb extraresid u.uio_resid)
        >> (io_parts (record u { uio_resid = u.uio_resid - extraresid }) mem sv s >>= λ q.
            done (io_out extraresid q))
