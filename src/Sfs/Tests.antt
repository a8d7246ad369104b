-- ===== src/Sfs/Tests.antt =====
-- Runs of the file system's theorems: a volume of 16 blocks on a device that does not fail, with the
-- superblock, the root directory, the free map and the inode of a file of one block, in block 4.
mod Ram
use toy_os.Common.{
  word_byte, ◌*◌, ℕ, List, [], ◌∷◌, zero, suc, ◌/◌, ◌%◌, ◌^◌, subst, sym, Kernel, panic, load_words,
  load_words_small, store_words, ◌≤◌, ◌<◌, ◌≡◌, ◌≢◌, refl, ◌⊎◌, inl, inr, true, false, Bool-cases,
  done, arith, ◌==◌, if◌then◌else◌, update, update_self, update_ne, ap, ◌∙◌,
}
use toy_os.Bitmap.{bitmap_isset, bit_test}
use toy_os.Coremap.{u32, div_round_up}
use toy_os.Uio.{uio_sysspace, Iovec, UioRw, uio_read, uio_write, Uio, Xfer, uiomove, is_read}
use toy_os.Uio.Moved.{IsUio, Moved}
use toy_os.Uio.Moves.{Moves, failed, moved, uiomove-Moves}
use toy_os.Uio.Zeros.{zeros}
use toy_os.Sfs.{
  einval, efbig, eio, sfs_blocksize, sfs_dbperidb, DeviceIo, SfsFs, SfsVnode, sfs_bmap,
}
use toy_os.Sfs.Disk.{IsBlockUio, IsDevice}
use toy_os.Sfs.Blocks.{IsMounted-with_device, used, IsMounted}
use toy_os.Sfs.Owns.{file_blocks, entry, Owns}
use toy_os.Sfs.Mapped.{Bmaps}
use toy_os.Sfs.Truncate.{sfs_truncate}
use toy_os.Sfs.Erase.{Truncates}
use toy_os.Sfs.Truncated.{sfs_truncate-Truncates}
use toy_os.Sfs.Indirect.{sfs_bmap-Bmaps}
use toy_os.Sfs.Tests.Ram.{Words, words, ram_io, ram_io-IsDevice}
use toy_os.Sfs.FileIo.{sfs_io}
use toy_os.Sfs.Transfer.{IsTransfer}
use toy_os.Sfs.Io.{Transfers, sfs_io-Transfers}
use toy_os.Sfs.Directory.{
  sfd_ino, is_named, sfs_readdir, sfs_writedir, sfs_dir_findname, same_string,
}
use toy_os.Sfs.Directory.Slots.{IsSlot, Readdirs, Writedirs, sfs_writedir-Writedirs}
use toy_os.Sfs.Directory.Names.{is_entry, Finds, sfs_dir_findname-Finds}
use toy_os.Sfs.FileBytes.{fbyte}
use toy_os.Sfs.Disk.{with_device}
use toy_os.Sfs.ReadBack.{ReadsBack, sfs_io-ReadsBack}

abbrev volume : SfsFs Words
volume = record {
  sp_nblocks = 16;
  d_io = ram_io;
  sfs_device = λ b i. 0;
  sfs_freemap = record { nbits = 16; v = λ ix. if ix == 0 then 31 else 0 };
  sfs_freemapdirty = false;
}

abbrev file : SfsVnode
file = record {
  sv_i = record {
    sfi_size = 100;
    sfi_type = 1;
    sfi_linkcount = 1;
    sfi_direct = λ i. if i == 0 then 4 else 0;
    sfi_indirect = 0;
  };
  sv_ino = 3;
  sv_dirty = false;
}

volume-IsMounted : IsMounted words volume
unfolding bitmap_isset bit_test
volume-IsMounted = record {
  size = 16;
  device = ram_io-IsDevice;
  fits = omega arith;
  word_sized = omega arith;
  map_fits = omega arith;
  map_valid = record { bytes = λ ix. ground arith; over = λ i lo hi. absurd (omega arith) };
  over_used = λ b lo hi. absurd (omega arith);
  zero_used = refl;
}

entry_first : (i : ℕ) → entry words volume file i ≢ 0 → (i ≡ 0) × (entry words volume file i ≡ 4)
entry_first i h = elim (Bool-cases (i == 0)) [
  | inl e ↦ (ground arith, ground arith)
  | inr e ↦ absurd (h (ground arith))
]

four_used : used volume 4 ≡ true
unfolding bitmap_isset bit_test
four_used = refl

file-Owns : Owns words volume file
file-Owns = record {
  entries = λ i lt h. let (z, e) = entry_first i h in (omega arith, ap (used volume) e ∙ four_used);
  apart = λ i j li lj h e.
      let (z, four) = entry_first i h in
      let (y, also) = entry_first j (λ q. h (e ∙ q)) in omega arith;
  indirect = λ h. absurd (h refl);
  indirect_apart = λ i lt h. h;
}

sfs_bmap-Bmaps_example :
    ((file_blocks ≤ 1) × (sfs_bmap 1 true file volume ≡ done (efbig, 0, file, volume)))
    ⊎ ((1 < file_blocks) × Bmaps words volume file 1 true (sfs_bmap 1 true file volume))
sfs_bmap-Bmaps_example = sfs_bmap-Bmaps volume file true volume-IsMounted file-Owns 1

sfs_truncate-Truncates_example :
    Truncates words 0 (u32 (div_round_up 0 sfs_blocksize)) volume file (sfs_truncate 0 file volume)
sfs_truncate-Truncates_example = sfs_truncate-Truncates 0 file volume volume-IsMounted file-Owns

-- 600 bytes of kernel memory, for the file from its byte 500 on.
abbrev transfer : UioRw → Uio
transfer rw = record {
  uio_iov = record { iov_base = 1000; iov_len = 600 } ∷ [];
  uio_offset = 500;
  uio_resid = 600;
  uio_segflg = uio_sysspace;
  uio_rw = rw;
  uio_space = λ base size. 0;
}

transfer-IsUio : (rw : UioRw) → IsUio (transfer rw)
transfer-IsUio rw = record {
  fits = omega arith;
  small = omega arith;
  apart = λ j k lj lk e. ground arith;
}

abbrev memory : ℕ → ℕ
memory a = a % 256

transfer-IsTransfer : (rw : UioRw) → IsTransfer words (transfer rw) memory file volume
transfer-IsTransfer rw = record {
  mounted = volume-IsMounted;
  owns = file-Owns;
  whole = transfer-IsUio rw;
  bytes = λ w a. omega arith;
  ends_small = omega arith;
  volume_small = omega arith;
}

sfs_io-Transfers_example :
    Transfers words
      (transfer uio_write)
      memory
      file
      volume
      (sfs_io (transfer uio_write) memory file volume)
sfs_io-Transfers_example =
    sfs_io-Transfers (transfer uio_write) memory file volume (transfer-IsTransfer uio_write)

sfs_io-ReadsBack_example :
    ReadsBack (transfer uio_write) (transfer uio_read) memory (λ a. 0) file volume
sfs_io-ReadsBack_example =
    sfs_io-ReadsBack (transfer uio_write) (transfer uio_read) memory (λ a. 0) file volume
      (transfer-IsTransfer uio_write) refl (transfer-IsUio uio_read) refl refl refl

-- A directory of two slots in block 4: an entry "a" of the inode 7, and a free slot.
abbrev directory : SfsVnode
directory = let i = file.sv_i in record file { sv_i = record i { sfi_size = 128; sfi_type = 2 } }

abbrev directory_words : Words
directory_words b i =
    if b == 4 then (if i == 0 then 7 else (if i == 1 then 97 * 2 ^ 24 else 0)) else 0

abbrev home : SfsFs Words
home = with_device volume directory_words

home-IsMounted : IsMounted words home
home-IsMounted = IsMounted-with_device volume directory_words volume-IsMounted

directory-Owns : Owns words home directory
directory-Owns = file-Owns

abbrev letter_a : ℕ → ℕ
letter_a k = if k == 0 then 97 else 0

second_free : is_entry (fbyte words home directory) letter_a 1 ≡ false
unfolding load_words store_words word_byte
second_free = refl

sfs_dir_findname-Finds_example :
    Finds words 2
      (fbyte words home directory)
      letter_a
      directory
      home
      (sfs_dir_findname letter_a (λ k. 0) directory home)
sfs_dir_findname-Finds_example =
    sfs_dir_findname-Finds 2 (fbyte words home directory) letter_a
      (λ j k lt low is.
        (let one : k ≡ 1 = omega arith in
          ap (is_entry (fbyte words home directory) letter_a) one ∙ second_free))
      (λ k. 0) directory home refl home-IsMounted directory-Owns (omega arith) refl (omega arith)
      (λ j. refl)

sfs_writedir-Writedirs_example :
    Writedirs words 1 letter_a directory home (sfs_writedir 1 letter_a directory home)
sfs_writedir-Writedirs_example =
    sfs_writedir-Writedirs 1 letter_a directory home
      (record {
        mounted = home-IsMounted;
        owns = directory-Owns;
        slot_small = omega arith;
        volume_small = omega arith;
      })
      (λ a. ground arith)
