-- ===== src/Sfs/Truncate.antt =====
-- `sfs_truncate` of kern/fs/sfs/sfs_vnode.c. `len` is not negative.
use toy_os.Common.{
  ℕ, zero, suc, ◌+◌, ◌-◌, Bool, true, false, not, ◌&&◌, Kernel, done, ◌>>=◌, ltb, leb, ◌==◌,
  if◌then◌else◌, update, load_words, store_words,
}
use toy_os.Coremap.{u32, div_round_up}
use toy_os.Sfs.{
  sfs_blocksize, sfs_ndirect, sfs_dbperidb, SfsFs, SfsVnode, set_direct, set_indirect, sfs_rblock,
  sfs_wblock, sfs_bfree,
}

-- The buffer of the indirect block and the two flags of the loop over it.
pub record IdBlock : Type 0 where
  pub idbuf : ℕ → ℕ
  pub hasnonzero : Bool
  pub iddirty : Bool

unfoldable pub see_entry : ℕ → IdBlock → IdBlock
see_entry j c = if c.idbuf j == 0 then c else record c { hasnonzero = true }

-- The end of `sfs_truncate`.
unfoldable pub set_size : ℕ → SfsVnode → SfsVnode
set_size len sv =
    let i = sv.sv_i in record sv { sv_i = record i { sfi_size = u32 len }; sv_dirty = true }

module _ {D : Type 0} where
  -- One round of the loop over the direct blocks.
  unfoldable pub discard_direct : ℕ → ℕ → SfsVnode → SfsFs D → Kernel (SfsVnode × SfsFs D)
  discard_direct i blocklen sv s =
      let block = sv.sv_i.sfi_direct i in
      if leb blocklen i && not (block == 0)
      then (sfs_bfree block s >>= λ t. done (set_direct i 0 sv, t))
      else done (sv, s)

  -- The loop over the direct blocks, `rounds` of them from `i` on.
  unfoldable pub trunc_direct : ℕ → ℕ → ℕ → SfsVnode → SfsFs D → Kernel (SfsVnode × SfsFs D)
  trunc_direct zero i blocklen sv s = done (sv, s)
  trunc_direct (suc rounds) i blocklen sv s =
      discard_direct i blocklen sv s >>= λ r. trunc_direct rounds (i + 1) blocklen r.0 r.1

  -- One round of the loop over the indirect block.
  unfoldable pub discard_entry : ℕ → ℕ → IdBlock → SfsFs D → Kernel (IdBlock × SfsFs D)
  discard_entry j blocklen c s =
      if ltb blocklen (sfs_ndirect + j) && not (c.idbuf j == 0)
      then (sfs_bfree (c.idbuf j) s >>= λ t.
          done (see_entry j (record c { idbuf = update c.idbuf j 0; iddirty = true }), t))
      else done (see_entry j c, s)

  -- The loop over the indirect block, `rounds` entries from `j` on.
  unfoldable pub trunc_indirect : ℕ → ℕ → ℕ → IdBlock → SfsFs D → Kernel (IdBlock × SfsFs D)
  trunc_indirect zero j blocklen c s = done (c, s)
  trunc_indirect (suc rounds) j blocklen c s =
      discard_entry j blocklen c s >>= λ r. trunc_indirect rounds (j + 1) blocklen r.0 r.1

  -- `sfs_truncate` behind the loop over the indirect block.
  unfoldable pub trunc_write : ℕ → IdBlock → SfsVnode → SfsFs D → Kernel (ℕ × SfsVnode × SfsFs D)
  trunc_write len c sv s =
      let idblock = sv.sv_i.sfi_indirect in
      if c.hasnonzero
      then (if c.iddirty
          then (sfs_wblock (store_words c.idbuf) idblock s >>= λ w.
              if w.0 == 0 then done (0, set_size len sv, w.1) else done (w.0, sv, w.1))
          else done (0, set_size len sv, s))
      else sfs_bfree idblock s >>= λ t. done (0, set_size len (set_indirect 0 sv), t)

  -- `sfs_truncate` behind the loop over the direct blocks.
  unfoldable pub trunc_rest : ℕ → ℕ → SfsVnode → SfsFs D → Kernel (ℕ × SfsVnode × SfsFs D)
  trunc_rest len blocklen sv s =
      let idblock = sv.sv_i.sfi_indirect in
      if ltb blocklen (sfs_ndirect + sfs_dbperidb - 1) && not (idblock == 0)
      then (sfs_rblock idblock s >>= λ r.
          if r.0 == 0
          then (trunc_indirect sfs_dbperidb 0 blocklen
                (record { idbuf = load_words r.1; hasnonzero = false; iddirty = false }) r.2
              >>= λ q. trunc_write len q.0 sv q.1)
          else done (r.0, sv, r.2))
      else done (0, set_size len sv, s)

  -- `sfs_truncate`: the errno, the vnode and the volume.
  unfoldable pub sfs_truncate : ℕ → SfsVnode → SfsFs D → Kernel (ℕ × SfsVnode × SfsFs D)
  sfs_truncate len sv s =
      let blocklen = u32 (div_round_up len sfs_blocksize) in
      trunc_direct sfs_ndirect 0 blocklen sv s >>= λ r. trunc_rest len blocklen r.0 r.1
