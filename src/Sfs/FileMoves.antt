-- ===== src/Sfs/FileMoves.antt =====
-- Data moved between a file of kern/fs/sfs/sfs_vnode.c and the regions of a uio.
use toy_os.Common.{
  arith, ◌*◌, ℕ, ◌+◌, ◌-◌, ◌≤◌, ◌<◌, ◌≡◌, ◌≢◌, subst, fun_ext, ◌∙◌, false, ◌&&◌, Kernel, done,
  ◌>>=◌, ltb, leb, ◌==◌, if◌then◌else◌, ==_ne,
}
use toy_os.Sfs.Owns.{file_blocks}
use toy_os.Sfs.Blocks.{Refused}
use toy_os.Uio.{uio_read, uio_write, Uio}
use toy_os.Uio.Moved.{CopyFails, CopyFails-Moved, cell, IsUio, Moved, Moved-trans}
use toy_os.Sfs.{efbig, sfs_blocksize, SfsFs, SfsVnode}
use toy_os.Sfs.FileIo.{FileIo, reframed, unless_failed}
use toy_os.Sfs.FileBytes.{fbyte, Serves, Leaves, Serves-trans, Leaves-trans}

-- Why bytes of a file are not moved: the volume is full or the device has answered the errno; they
-- are past the last block that a file can have; or a copy to or from user space has failed.
pub data FileFault {D : Type 0} (u : Uio) (t : SfsFs D) (err : ℕ) : Type 0 where
  refused : Refused t err → FileFault u t err
  too_big :
      err ≡ efbig → file_blocks * sfs_blocksize ≤ u.uio_offset + u.uio_resid → FileFault u t err
  bad_copy : (k : ℕ) → k < u.uio_resid → CopyFails u k err → FileFault u t err

pub FileFault-Moved :
    {D : Type 0} {t : SfsFs D} {ptr n err : ℕ} {buf mem buf' mem' : ℕ → ℕ} {u u' : Uio}
    → Moved ptr n buf u mem buf' u' mem'
    → FileFault u' t err
    → FileFault u t err
FileFault-Moved m (refused r) = refused r
FileFault-Moved m (too_big e past) = let o = m.offset in let r = m.resid in too_big e (omega arith)
FileFault-Moved {n = n} m (bad_copy k lt c) =
    let r = m.resid in bad_copy (n + k) (omega arith) (CopyFails-Moved m c)

-- How an operation on `n` bytes of a file ends, at the offset of the uio: with an errno, or with the
-- bytes moved between the file and the regions. No block of another file has changed.
pub data FileMoves {D : Type 0} (word : D → ℕ → ℕ → ℕ) (n : ℕ) (u : Uio) (mem : ℕ → ℕ)
    (sv : SfsVnode) (s : SfsFs D) (r : Kernel (FileIo D)) : Type 0 where
  failed :
      (err : ℕ) (u' : Uio) (mem' : ℕ → ℕ) (sv' : SfsVnode) (t : SfsFs D)
      → r ≡ done (err, u', mem', sv', t)
      → err ≢ 0
      → u'.uio_rw ≡ u.uio_rw
      → Leaves word s sv t
      → FileFault u t err
      → FileMoves word n u mem sv s r
  moved :
      (u' : Uio) (mem' : ℕ → ℕ) (sv' : SfsVnode) (t : SfsFs D)
      → r ≡ done (0, u', mem', sv', t)
      → Serves word s sv t sv'
      → sv'.sv_i.sfi_size ≡ sv.sv_i.sfi_size
      → Moved u.uio_offset n (fbyte word s sv) u mem (fbyte word t sv') u' mem'
      → FileMoves word n u mem sv s r

no_write : (u : Uio) → u.uio_rw ≡ uio_read → u.uio_rw ≢ uio_write
no_write u r w = cc

-- What has been read of a buffer, as read of the file.
pub Moved-read :
    {p n : ℕ} {buf mem buf' mem' : ℕ → ℕ} {u u' : Uio} (f f' : ℕ → ℕ)
    → u.uio_rw ≡ uio_read
    → Moved p n buf u mem buf' u' mem'
    → ((k : ℕ) → k < n → buf (p + k) ≡ f (u.uio_offset + k))
    → ((j : ℕ) → f' j ≡ f j)
    → Moved u.uio_offset n f u mem f' u' mem'
Moved-read {u = u} f f' read m from same = record {
  same_rw = m.same_rw;
  same_seg = m.same_seg;
  same_space = m.same_space;
  offset = m.offset;
  resid = m.resid;
  cells = m.cells;
  totals = m.totals;
  reads_buffer = λ e i. same i;
  reads_memory = λ e k lt. m.reads_memory e k lt ∙ from k lt;
  reads_kept = m.reads_kept;
  writes_memory = λ e. absurd (no_write u read e);
  writes_buffer = λ e. absurd (no_write u read e);
}

-- What has been written to a buffer, as written to the file.
pub Moved-write :
    {p n : ℕ} {buf mem buf' mem' : ℕ → ℕ} {u u' : Uio} (f f' : ℕ → ℕ)
    → u.uio_rw ≡ uio_write
    → Moved p n buf u mem buf' u' mem'
    → ((j : ℕ)
        → f' j ≡ (
            if leb u.uio_offset j && ltb j (u.uio_offset + n)
            then mem (cell u.uio_iov (j - u.uio_offset))
            else f j))
    → Moved u.uio_offset n f u mem f' u' mem'
Moved-write {u = u} f f' write m to = record {
  same_rw = m.same_rw;
  same_seg = m.same_seg;
  same_space = m.same_space;
  offset = m.offset;
  resid = m.resid;
  cells = m.cells;
  totals = m.totals;
  reads_buffer = λ e. absurd (no_write u e write);
  reads_memory = λ e. absurd (no_write u e write);
  reads_kept = λ e. absurd (no_write u e write);
  writes_memory = m.writes_memory;
  writes_buffer = λ e. to;
}

-- Another offset and residue, as `sfs_blockio` sets and restores them.
pub Moved-reframed :
    {p n o r : ℕ} {buf mem buf' mem' : ℕ → ℕ} {u v : Uio} (o' r' : ℕ)
    → Moved p n buf (reframed o r u) mem buf' v mem'
    → o' ≡ u.uio_offset + n
    → r' + n ≡ u.uio_resid
    → Moved p n buf u mem buf' (reframed o' r' v) mem'
Moved-reframed o' r' m offset resid = record {
  same_rw = m.same_rw;
  same_seg = m.same_seg;
  same_space = m.same_space;
  offset = offset;
  resid = resid;
  cells = m.cells;
  totals = m.totals;
  reads_buffer = m.reads_buffer;
  reads_memory = m.reads_memory;
  reads_kept = m.reads_kept;
  writes_memory = m.writes_memory;
  writes_buffer = m.writes_buffer;
}

module _ {D : Type 0} {word : D → ℕ → ℕ → ℕ} where
  -- Behind a step that has changed no byte of the file.
  pub FileMoves-Serves :
      {n : ℕ} {u : Uio} {mem : ℕ → ℕ} {sv sv1 : SfsVnode} {s s1 : SfsFs D} {r : Kernel (FileIo D)}
      → Serves word s sv s1 sv1
      → sv1.sv_i.sfi_size ≡ sv.sv_i.sfi_size
      → ((j : ℕ) → fbyte word s1 sv1 j ≡ fbyte word s sv j)
      → FileMoves word n u mem sv1 s1 r
      → FileMoves word n u mem sv s r
  FileMoves-Serves x size same (failed err u' mem' sv' t e bad rw l why) =
      failed err u' mem' sv' t e bad rw (Leaves-trans x l) why
  FileMoves-Serves {n} {u} {mem} x size same (moved u' mem' sv' t e y z m) =
      moved u' mem' sv' t e (Serves-trans x y) (z ∙ size)
        (subst (λ f. Moved u.uio_offset n f u mem (fbyte word t sv') u' mem') (fun_ext same) m)

  -- One part of the transfer after the other.
  pub FileMoves-then :
      {n m : ℕ} {u : Uio} {mem : ℕ → ℕ} {sv : SfsVnode} {s : SfsFs D} {first : Kernel (FileIo D)}
      (next : Uio → (ℕ → ℕ) → SfsVnode → SfsFs D → Kernel (FileIo D))
      → IsUio u
      → n + m ≤ u.uio_resid
      → FileMoves word n u mem sv s first
      → ((u1 : Uio) (mem1 : ℕ → ℕ) (sv1 : SfsVnode) (s1 : SfsFs D)
          → Serves word s sv s1 sv1
          → Moved u.uio_offset n (fbyte word s sv) u mem (fbyte word s1 sv1) u1 mem1
          → FileMoves word m u1 mem1 sv1 s1 (next u1 mem1 sv1 s1))
      → FileMoves word (n + m) u mem sv s (first >>= λ r. unless_failed r next)
  unfolding unless_failed
  FileMoves-then next i enough (failed err u1 mem1 sv1 s1 e bad same l why) rest =
      let wrong : (err == 0) ≡ false = ==_ne err 0 bad in
      failed err u1 mem1 sv1 s1 (rw (e, wrong)) bad same l why
  FileMoves-then {n} {m} {u} {mem} {sv} {s} next i enough (moved u1 mem1 sv1 s1 e x z a) rest =
      rw e (elim (rest u1 mem1 sv1 s1 x a) [
        | failed err u2 mem2 sv2 s2 e2 bad same l why ↦
            failed err u2 mem2 sv2 s2 e2 bad (same ∙ a.same_rw) (Leaves-trans x l)
              (FileFault-Moved a why)
        | moved u2 mem2 sv2 s2 e2 y w b ↦ moved u2 mem2 sv2 s2 e2 (Serves-trans x y) (w ∙ z) (
            Moved-trans i enough a (
              subst (λ o. Moved o m (fbyte word s1 sv1) u1 mem1 (fbyte word s2 sv2) u2 mem2)
                a.offset b))
      ])
