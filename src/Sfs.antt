-- ===== src/Sfs.antt =====
-- kern/fs/sfs/sfs_vnode.c and kern/fs/sfs/sfs_io.c: the blocks of the files of an SFS volume. The
-- routines run under vfs_biglock, so that each is one step; `kassert` of holding it is left out. A
-- result is an errno, 0 for success; a block number behind an error is not written by the source,
-- and is 0 here. A buffer is the function from an index to its byte, that of an indirect block from
-- the index of its 128 words. The routine `d_io` of the device is a field of the volume, as in the
-- source.
pub mod Disk
pub mod Blocks
pub mod Owns
pub mod Mapped
pub mod Bmap
pub mod Indirect
pub mod Drops
pub mod Truncate
pub mod Discard
pub mod Scanned
pub mod Erase
pub mod Truncated
pub mod FileIo
pub mod FileBytes
pub mod FileMoves
pub mod Partial
pub mod Whole
pub mod Transfer
pub mod Io
pub mod ReadBack
pub mod Directory
mod Tests
use toy_os.Common.{
  ℕ, zero, suc, ◌+◌, ◌-◌, ◌*◌, ◌/◌, ◌%◌, ◌^◌, Bool, true, false, not, ◌&&◌, Option, none, some,
  Kernel, done, panic, ◌>>=◌, ltb, leb, load_words, store_words, ◌==◌, if◌then◌else◌, update,
}
use toy_os.Coremap.{u32, div_round_up}
use toy_os.Uio.{UioRw, uio_read, uio_write, Uio, uio_kinit}
use toy_os.Bitmap.{Bitmap, bitmap_alloc, bitmap_unmark, bitmap_isset}

-- kern/include/kern/errno.h
abbrev pub einval : ℕ
einval = 8

abbrev pub eio : ℕ
eio = 32

abbrev pub enospc : ℕ
enospc = 36

abbrev pub efbig : ℕ
efbig = 38

-- kern/include/kern/sfs.h
abbrev pub sfs_blocksize : ℕ
sfs_blocksize = 512

abbrev pub sfs_ndirect : ℕ
sfs_ndirect = 15

abbrev pub sfs_dbperidb : ℕ
sfs_dbperidb = 128

-- `d_io`: the errno, the uio, the memory and the device after it.
abbrev pub DeviceIo : Type 0 → Type 0
DeviceIo D = Uio → (ℕ → ℕ) → D → ℕ × Uio × (ℕ → ℕ) × D

-- `struct sfs_fs`
pub record SfsFs (D : Type 0) : Type 0 where
  pub sp_nblocks : ℕ
  pub d_io : DeviceIo D
  pub sfs_device : D
  pub sfs_freemap : Bitmap
  pub sfs_freemapdirty : Bool

-- `struct sfs_inode`
pub record SfsInode : Type 0 where
  pub sfi_size : ℕ
  pub sfi_type : ℕ
  pub sfi_linkcount : ℕ
  pub sfi_direct : ℕ → ℕ
  pub sfi_indirect : ℕ

-- `struct sfs_vnode`
pub record SfsVnode : Type 0 where
  pub sv_i : SfsInode
  pub sv_ino : ℕ
  pub sv_dirty : Bool

-- The errno, the block, the vnode and the volume after `sfs_bmap`.
abbrev pub Bmap : Type 0 → Type 0
Bmap D = ℕ × ℕ × SfsVnode × SfsFs D

-- An entry of the inode is written, which makes the inode dirty.
unfoldable pub set_direct : ℕ → ℕ → SfsVnode → SfsVnode
set_direct fileblock block sv =
    let i = sv.sv_i in
    record sv {
      sv_i = record i { sfi_direct = update i.sfi_direct fileblock block };
      sv_dirty = true;
    }

unfoldable pub set_indirect : ℕ → SfsVnode → SfsVnode
set_indirect idblock sv =
    let i = sv.sv_i in record sv { sv_i = record i { sfi_indirect = idblock }; sv_dirty = true }

-- SFSUIO, for a buffer at 0
unfoldable pub sfsuio : ℕ → UioRw → Uio
unfolding uio_kinit
sfsuio block rw = uio_kinit 0 sfs_blocksize (block * sfs_blocksize) rw

module _ {D : Type 0} where
  -- `sfs_rwblock`, with `tries` retries left after an I/O error.
  unfoldable pub rwblock_from : ℕ → Uio → (ℕ → ℕ) → SfsFs D → Kernel (ℕ × Uio × (ℕ → ℕ) × SfsFs D)
  rwblock_from zero u mem s =
      let r = s.d_io u mem s.sfs_device in
      if r.0 == einval then panic else done (r.0, r.1, r.2, record s { sfs_device = r.3 })
  rwblock_from (suc tries) u mem s =
      let r = s.d_io u mem s.sfs_device in
      let again = rwblock_from tries r.1 r.2 (record s { sfs_device = r.3 }) in
      if r.0 == einval
      then panic
      else (if r.0 == eio then again else done (r.0, r.1, r.2, record s { sfs_device = r.3 }))

  unfoldable pub sfs_rwblock : Uio → (ℕ → ℕ) → SfsFs D → Kernel (ℕ × Uio × (ℕ → ℕ) × SfsFs D)
  sfs_rwblock u mem s = rwblock_from 10 u mem s

  -- `sfs_rblock`: the errno, what the buffer holds, and the volume. The buffer is a memory of its
  -- own.
  unfoldable pub sfs_rblock : ℕ → SfsFs D → Kernel (ℕ × (ℕ → ℕ) × SfsFs D)
  sfs_rblock block s = sfs_rwblock (sfsuio block uio_read) (λ i. 0) s >>= λ r. done (r.0, r.2, r.3)

  -- `sfs_wblock`
  unfoldable pub sfs_wblock : (ℕ → ℕ) → ℕ → SfsFs D → Kernel (ℕ × SfsFs D)
  sfs_wblock bytes block s = sfs_rwblock (sfsuio block uio_write) bytes s >>= λ r. done (r.0, r.3)

  -- `sfs_clearblock`
  unfoldable pub sfs_clearblock : ℕ → SfsFs D → Kernel (ℕ × SfsFs D)
  sfs_clearblock block s = sfs_wblock (λ i. 0) block s

  -- `sfs_balloc`, behind `bitmap_alloc`: the errno and the block.
  unfoldable pub balloc_found : SfsFs D → Option ℕ × Bitmap → Kernel (ℕ × ℕ × SfsFs D)
  balloc_found s (none, b) = done (enospc, 0, s)
  balloc_found s (some block, b) =
      let t : SfsFs D = record s { sfs_freemap = b; sfs_freemapdirty = true } in
      if leb s.sp_nblocks block
      then panic
      else sfs_clearblock block t >>= λ r. done (r.0, block, r.1)

  unfoldable pub sfs_balloc : SfsFs D → Kernel (ℕ × ℕ × SfsFs D)
  sfs_balloc s = bitmap_alloc s.sfs_freemap >>= balloc_found s

  -- `sfs_bfree`
  unfoldable pub sfs_bfree : ℕ → SfsFs D → Kernel (SfsFs D)
  sfs_bfree block s = bitmap_unmark block s.sfs_freemap >>= λ b.
      done (record s { sfs_freemap = b; sfs_freemapdirty = true })

  -- `sfs_bused`
  unfoldable pub sfs_bused : ℕ → SfsFs D → Kernel Bool
  sfs_bused block s =
      if leb s.sp_nblocks block then panic else done (bitmap_isset s.sfs_freemap block)

  -- The end of `sfs_bmap`, for a direct block and for one of the indirect block.
  unfoldable pub hand_back : ℕ → SfsVnode → SfsFs D → Kernel (Bmap D)
  hand_back block sv s =
      if block == 0
      then done (0, block, sv, s)
      else sfs_bused block s >>= λ used. if used then done (0, block, sv, s) else panic

  -- `sfs_bmap` for one of the direct blocks.
  unfoldable pub bmap_direct : ℕ → Bool → SfsVnode → SfsFs D → Kernel (Bmap D)
  bmap_direct fileblock doalloc sv s =
      let block = sv.sv_i.sfi_direct fileblock in
      if block == 0 && doalloc
      then (sfs_balloc s >>= λ r.
          if r.0 == 0
          then hand_back r.1 (set_direct fileblock r.1 sv) r.2
          else done (r.0, 0, sv, r.2))
      else hand_back block sv s

  -- `sfs_bmap` from the entry of the indirect block on.
  unfoldable pub bmap_entry : ℕ → ℕ → (ℕ → ℕ) → Bool → SfsVnode → SfsFs D → Kernel (Bmap D)
  bmap_entry idblock idoff idbuf doalloc sv s =
      if idbuf idoff == 0 && doalloc
      then (sfs_balloc s >>= λ r.
          if r.0 == 0
          then (sfs_wblock (store_words (update idbuf idoff r.1)) idblock r.2 >>= λ w.
              if w.0 == 0 then hand_back r.1 sv w.1 else done (w.0, 0, sv, w.1))
          else done (r.0, 0, sv, r.2))
      else hand_back (idbuf idoff) sv s

  -- `sfs_bmap` for the block `idoff` of the indirect block.
  unfoldable pub bmap_indirect : ℕ → Bool → SfsVnode → SfsFs D → Kernel (Bmap D)
  bmap_indirect idoff doalloc sv s =
      let idblock = sv.sv_i.sfi_indirect in
      if idblock == 0
      then (if doalloc
          then (sfs_balloc s >>= λ r.
              if r.0 == 0
              then bmap_entry r.1 idoff (λ i. 0) doalloc (set_indirect r.1 sv) r.2
              else done (r.0, 0, sv, r.2))
          else done (0, 0, sv, s))
      else (sfs_rblock idblock s >>= λ r.
          if r.0 == 0
          then bmap_entry idblock idoff (load_words r.1) doalloc sv r.2
          else done (r.0, 0, sv, r.2))

  -- `sfs_bmap`
  unfoldable pub sfs_bmap : ℕ → Bool → SfsVnode → SfsFs D → Kernel (Bmap D)
  sfs_bmap fileblock doalloc sv s =
      if ltb fileblock sfs_ndirect
      then bmap_direct fileblock doalloc sv s
      else (if ltb 0 ((fileblock - sfs_ndirect) / sfs_dbperidb)
          then done (efbig, 0, sv, s)
          else bmap_indirect ((fileblock - sfs_ndirect) % sfs_dbperidb) doalloc sv s)
