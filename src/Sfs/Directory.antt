-- ===== src/Sfs/Directory.antt =====
-- The directories of kern/fs/sfs/sfs_vnode.c. An entry is its 64 bytes, at 0 of a memory of its own:
-- the number of the inode, 0 for a free slot, and the name. A slot is not negative.
pub mod Slots
pub mod Names
use toy_os.Common.{
  ℕ, zero, suc, ◌+◌, ◌*◌, ◌/◌, ◌%◌, Bool, true, false, not, Option, none, some, Kernel, done, panic,
  kassert, ◌>>=◌, ◌>>◌, ltb, ◌==◌, if◌then◌else◌, load_words, update,
}
use toy_os.Coremap.{u32}
use toy_os.Uio.{UioRw, uio_read, uio_write, Uio, uio_kinit}
use toy_os.Sfs.{SfsFs, SfsVnode}
use toy_os.Sfs.FileIo.{sfs_io}

-- kern/include/kern/errno.h
abbrev pub enoent : ℕ
enoent = 19

-- sizeof(struct sfs_dir)
abbrev pub sfs_dirsize : ℕ
sfs_dirsize = 64

abbrev pub sfs_type_dir : ℕ
sfs_type_dir = 2

-- `sfd_ino` of an entry.
abbrev pub sfd_ino : (ℕ → ℕ) → ℕ
sfd_ino sd = load_words sd 0

-- The uio of an entry.
unfoldable pub dir_uio : ℕ → UioRw → Uio
unfolding uio_kinit
dir_uio slot rw = uio_kinit 0 sfs_dirsize (u32 (slot * sfs_dirsize)) rw

unfoldable pub sfs_dir_nentries : SfsVnode → Kernel ℕ
sfs_dir_nentries sv =
    let size = sv.sv_i.sfi_size in
    kassert (sv.sv_i.sfi_type == sfs_type_dir)
    >> (if size % sfs_dirsize == 0 then done (size / sfs_dirsize) else panic)

-- `strcmp` of the name and that of an entry, which ends at its 60th character at the latest.
unfoldable pub same_string : ℕ → (ℕ → ℕ) → (ℕ → ℕ) → Bool
same_string zero a b = true
same_string (suc n) a b =
    let rest = same_string n (λ k. a (k + 1)) (λ k. b (k + 1)) in
    if a 0 == b 0 then (if a 0 == 0 then true else rest) else false

unfoldable pub is_named : (ℕ → ℕ) → (ℕ → ℕ) → Bool
is_named name sd = same_string 60 (λ k. update sd 63 0 (k + 4)) name

-- What `sfs_dir_findname` has found.
pub record Found : Type 0 where
  pub found : Bool
  pub ino : ℕ
  pub slot : ℕ
  pub emptyslot : Option ℕ

unfoldable pub see_slot : ℕ → (ℕ → ℕ) → (ℕ → ℕ) → Found → Kernel Found
see_slot i name sd f =
    if sfd_ino sd == 0
    then done (record f { emptyslot = some i })
    else (if is_named name sd
        then kassert (not f.found) >> done (record f { found = true; slot = i; ino = sfd_ino sd })
        else done f)

module _ {D : Type 0} where
  -- `sfs_readdir` to an entry that holds `sd`.
  unfoldable pub sfs_readdir :
      ℕ → (ℕ → ℕ) → SfsVnode → SfsFs D → Kernel (ℕ × (ℕ → ℕ) × SfsVnode × SfsFs D)
  sfs_readdir slot sd sv s = sfs_io (dir_uio slot uio_read) sd sv s >>= λ r.
      if r.0 == 0
      then (if ltb 0 (r.1).uio_resid then panic else done (0, r.2, r.3, r.4))
      else done (r.0, r.2, r.3, r.4)

  unfoldable pub sfs_writedir : ℕ → (ℕ → ℕ) → SfsVnode → SfsFs D → Kernel (ℕ × SfsVnode × SfsFs D)
  sfs_writedir slot sd sv s = sfs_io (dir_uio slot uio_write) sd sv s >>= λ r.
      if r.0 == 0
      then (if ltb 0 (r.1).uio_resid then panic else done (0, r.3, r.4))
      else done (r.0, r.3, r.4)

  -- `sfs_dir_unlink`
  unfoldable pub sfs_dir_unlink : ℕ → SfsVnode → SfsFs D → Kernel (ℕ × SfsVnode × SfsFs D)
  sfs_dir_unlink slot sv s = sfs_writedir slot (λ i. 0) sv s

  -- The loop of `sfs_dir_findname`, over `rounds` slots from `i` on.
  unfoldable pub findname_loop :
      ℕ
      → ℕ
      → (ℕ → ℕ)
      → Found
      → (ℕ → ℕ)
      → SfsVnode
      → SfsFs D
      → Kernel (ℕ × Found × SfsVnode × SfsFs D)
  findname_loop zero i name f sd sv s = done ((if f.found then 0 else enoent), f, sv, s)
  findname_loop (suc rounds) i name f sd sv s = sfs_readdir i sd sv s >>= λ r.
      if r.0 == 0
      then (see_slot i name r.1 f >>= λ g. findname_loop rounds (i + 1) name g r.1 r.2 r.3)
      else done (r.0, f, r.2, r.3)

  -- `sfs_dir_findname`; `sd` is what its entry holds at first.
  unfoldable pub sfs_dir_findname :
      (ℕ → ℕ) → (ℕ → ℕ) → SfsVnode → SfsFs D → Kernel (ℕ × Found × SfsVnode × SfsFs D)
  sfs_dir_findname name sd sv s = sfs_dir_nentries sv >>= λ nentries.
      findname_loop nentries 0 name (record { found = false; ino = 0; slot = 0; emptyslot = none })
        sd sv s
