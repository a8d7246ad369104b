-- ===== src/Sfs/Disk.antt =====
-- kern/fs/sfs/sfs_io.c: one block is read or written, with retries.
use toy_os.Common.{
  ℕ, zero, suc, ◌+◌, ◌-◌, ◌*◌, ◌^◌, ◌<◌, ◌≡◌, ◌≢◌, refl, sym, subst, ap, fun_ext, ◌∙◌, inl, inr,
  true, false, Kernel, done, Bool-cases, ◌==◌, ltb, leb, ◌&&◌, arith, ==_ne, load_words,
  store_words, load_words-store_words,
}
use toy_os.Uio.{UioRw, uio_read, uio_write, Uio, uio_kinit}
use toy_os.Uio.Moved.{cell, IsUio, Moved}
use toy_os.Uio.Zeros.{zeros}
use toy_os.Sfs.{
  einval, eio, sfs_blocksize, sfs_dbperidb, DeviceIo, SfsFs, sfsuio, rwblock_from, sfs_rwblock,
  sfs_rblock, sfs_wblock,
}

-- A uio for a block.
pub record IsBlockUio (b : ℕ) (u : Uio) : Type 0 where
  pub whole : IsUio u
  pub block_offset : u.uio_offset ≡ b * sfs_blocksize
  pub block_resid : u.uio_resid ≡ sfs_blocksize

-- What the file system relies on of a device of `size` blocks: `word` are the words of its blocks.
-- A block that is there is no invalid argument. A device that answers 0 has moved the block by
-- `uiomove`, from what it holds or to it. After an I/O error the uio and its memory are as before,
-- so that the block can be tried again: `lhd_io` does so for reads and not for writes, which
-- advance the uio. No other block changes.
pub record IsDevice {D : Type 0} (d_io : DeviceIo D) (size : ℕ) (word : D → ℕ → ℕ → ℕ)
    : Type 0 where
  pub word_small : (d : D) (b i : ℕ) → word d b i < 2 ^ 32
  pub same_rw :
      (b : ℕ) (u : Uio) (mem : ℕ → ℕ) (d : D) → IsBlockUio b u → (d_io u mem d).1.uio_rw ≡ u.uio_rw
  pub valid_block :
      (b : ℕ) (u : Uio) (mem : ℕ → ℕ) (d : D)
      → IsBlockUio b u
      → b < size
      → (d_io u mem d).0 ≢ einval
  pub unmoved :
      (u : Uio) (mem : ℕ → ℕ) (d : D)
      → (d_io u mem d).0 ≡ eio
      → ((d_io u mem d).1 ≡ u) × ((d_io u mem d).2 ≡ mem)
  pub read_data :
      (b : ℕ) (u : Uio) (mem : ℕ → ℕ) (d : D)
      → IsBlockUio b u
      → u.uio_rw ≡ uio_read
      → (d_io u mem d).0 ≡ 0
      → (buf : ℕ → ℕ) × Moved 0 sfs_blocksize
          (store_words (word d b))
          u
          mem
          buf
          (d_io u mem d).1
          (d_io u mem d).2
  pub read_keeps :
      (u : Uio) (mem : ℕ → ℕ) (d : D) (c i : ℕ)
      → u.uio_rw ≡ uio_read
      → word (d_io u mem d).3 c i ≡ word d c i
  pub write_data :
      (b : ℕ) (u : Uio) (mem : ℕ → ℕ) (d : D)
      → IsBlockUio b u
      → u.uio_rw ≡ uio_write
      → (d_io u mem d).0 ≡ 0
      → (buf : ℕ → ℕ) × Moved 0 sfs_blocksize zeros u mem buf (d_io u mem d).1 (d_io u mem d).2
        × ((i : ℕ) → i < sfs_dbperidb → word (d_io u mem d).3 b i ≡ load_words buf i)
  pub write_keeps :
      (b : ℕ) (u : Uio) (mem : ℕ → ℕ) (d : D) (c i : ℕ)
      → IsBlockUio b u
      → u.uio_rw ≡ uio_write
      → b ≢ c
      → word (d_io u mem d).3 c i ≡ word d c i

-- The volume with a device that has changed.
abbrev pub with_device : {D : Type 0} → SfsFs D → D → SfsFs D
with_device s d = record s { sfs_device = d }

-- The device has answered the errno, and is as it left itself then.
pub record DeviceFailed {D : Type 0} (t : SfsFs D) (err : ℕ) : Type 0 where
  pub uio : Uio
  pub memory : ℕ → ℕ
  pub device : D
  pub errno : (t.d_io uio memory device).0 ≡ err
  pub left : (t.d_io uio memory device).3 ≡ t.sfs_device

-- What `sfs_rwblock` leaves.
abbrev pub BlockIo : Type 0 → Type 0
BlockIo D = ℕ × Uio × (ℕ → ℕ) × SfsFs D

-- A block has been read to the regions of a uio, or the errno says that it has not; the device holds
-- what it held.
pub record Reads {D : Type 0} (word : D → ℕ → ℕ → ℕ) (b : ℕ) (u : Uio) (mem : ℕ → ℕ) (s : SfsFs D)
    (r : Kernel (BlockIo D)) : Type 0 where
  pub err : ℕ
  pub uio : Uio
  pub memory : ℕ → ℕ
  pub device : D
  pub ends : r ≡ done (err, uio, memory, with_device s device)
  pub same_rw : uio.uio_rw ≡ u.uio_rw
  pub moves :
      err ≡ 0
      → (buf : ℕ → ℕ) × Moved 0 sfs_blocksize
          (store_words (word s.sfs_device b))
          u
          mem
          buf
          uio
          memory
  pub keeps : (c i : ℕ) → word device c i ≡ word s.sfs_device c i
  pub blame : DeviceFailed (with_device s device) err

-- A block has been written from the regions of a uio, or the errno says that it has not; the other
-- blocks hold what they held.
pub record Puts {D : Type 0} (word : D → ℕ → ℕ → ℕ) (b : ℕ) (u : Uio) (mem : ℕ → ℕ) (s : SfsFs D)
    (r : Kernel (BlockIo D)) : Type 0 where
  pub err : ℕ
  pub uio : Uio
  pub memory : ℕ → ℕ
  pub device : D
  pub ends : r ≡ done (err, uio, memory, with_device s device)
  pub same_rw : uio.uio_rw ≡ u.uio_rw
  pub moves :
      err ≡ 0
      → (buf : ℕ → ℕ) × Moved 0 sfs_blocksize zeros u mem buf uio memory
        × ((i : ℕ) → i < sfs_dbperidb → word device b i ≡ load_words buf i)
  pub keeps : (c i : ℕ) → b ≢ c → word device c i ≡ word s.sfs_device c i
  pub blame : DeviceFailed (with_device s device) err

once_blamed :
    {D : Type 0} (u : Uio) (mem : ℕ → ℕ) (s : SfsFs D)
    → DeviceFailed (with_device s (s.d_io u mem s.sfs_device).3) (s.d_io u mem s.sfs_device).0
once_blamed u mem s = record {
  uio = u;
  memory = mem;
  device = s.sfs_device;
  errno = refl;
  left = refl;
}

module _ {D : Type 0} {size : ℕ} {word : D → ℕ → ℕ → ℕ} where
  module _ (b : ℕ) (u : Uio) (mem : ℕ → ℕ) (block : IsBlockUio b u) (small : b < size) where
    module _ (read : u.uio_rw ≡ uio_read) where
      once_read :
          {r : Kernel (BlockIo D)} (s : SfsFs D)
          → IsDevice s.d_io size word
          → (let q = s.d_io u mem s.sfs_device in r ≡ done (q.0, q.1, q.2, with_device s q.3))
          → Reads word b u mem s r
      once_read s dev e = record {
        err = (s.d_io u mem s.sfs_device).0;
        uio = (s.d_io u mem s.sfs_device).1;
        memory = (s.d_io u mem s.sfs_device).2;
        device = (s.d_io u mem s.sfs_device).3;
        ends = e;
        same_rw = dev.same_rw b u mem s.sfs_device block;
        moves = dev.read_data b u mem s.sfs_device block read;
        keeps = λ c i. dev.read_keeps u mem s.sfs_device c i read;
        blame = once_blamed u mem s;
      }

      rwblock_from-Reads :
          (tries : ℕ) (s : SfsFs D)
          → IsDevice s.d_io size word
          → Reads word b u mem s (rwblock_from tries u mem s)
      unfolding rwblock_from
      rwblock_from-Reads zero s dev =
          let ok : ((s.d_io u mem s.sfs_device).0 == einval) ≡ false =
            ==_ne _ einval (dev.valid_block b u mem s.sfs_device block small) in
          once_read s dev (rw ok)
      rwblock_from-Reads (suc tries) s dev =
          let q = s.d_io u mem s.sfs_device in
          let ok : (q.0 == einval) ≡ false =
            ==_ne _ einval (dev.valid_block b u mem s.sfs_device block small) in
          elim (Bool-cases (q.0 == eio)) [
            | inr over ↦ once_read s dev (rw (ok, over))
            | inl retry ↦
                let (same_u, same_mem) = dev.unmoved u mem s.sfs_device (ground arith) in
                let again = rwblock_from-Reads tries (with_device s q.3) dev in
                let kept : (c i : ℕ) → word q.3 c i ≡ word s.sfs_device c i =
                  λ c i. dev.read_keeps u mem s.sfs_device c i read in
                record {
                  err = again.err;
                  uio = again.uio;
                  memory = again.memory;
                  device = again.device;
                  ends = rw (ok, retry, same_u, same_mem) again.ends;
                  same_rw = again.same_rw;
                  moves = λ e.
                      (let (buf, m) = again.moves e in
                        (
                          buf,
                          subst
                              (λ w.
                                Moved 0 sfs_blocksize (store_words w) u mem buf again.uio
                                  again.memory)
                              (fun_ext (λ i. kept b i)) m,
                        ));
                  keeps = λ c i. again.keeps c i ∙ kept c i;
                  blame = again.blame;
                }
          ]

    module _ (write : u.uio_rw ≡ uio_write) where
      once_written :
          {r : Kernel (BlockIo D)} (s : SfsFs D)
          → IsDevice s.d_io size word
          → (let q = s.d_io u mem s.sfs_device in r ≡ done (q.0, q.1, q.2, with_device s q.3))
          → Puts word b u mem s r
      once_written s dev e = record {
        err = (s.d_io u mem s.sfs_device).0;
        uio = (s.d_io u mem s.sfs_device).1;
        memory = (s.d_io u mem s.sfs_device).2;
        device = (s.d_io u mem s.sfs_device).3;
        ends = e;
        same_rw = dev.same_rw b u mem s.sfs_device block;
        moves = dev.write_data b u mem s.sfs_device block write;
        keeps = λ c i. dev.write_keeps b u mem s.sfs_device c i block write;
        blame = once_blamed u mem s;
      }

      rwblock_from-Puts :
          (tries : ℕ) (s : SfsFs D)
          → IsDevice s.d_io size word
          → Puts word b u mem s (rwblock_from tries u mem s)
      unfolding rwblock_from
      rwblock_from-Puts zero s dev =
          let ok : ((s.d_io u mem s.sfs_device).0 == einval) ≡ false =
            ==_ne _ einval (dev.valid_block b u mem s.sfs_device block small) in
          once_written s dev (rw ok)
      rwblock_from-Puts (suc tries) s dev =
          let q = s.d_io u mem s.sfs_device in
          let ok : (q.0 == einval) ≡ false =
            ==_ne _ einval (dev.valid_block b u mem s.sfs_device block small) in
          elim (Bool-cases (q.0 == eio)) [
            | inr over ↦ once_written s dev (rw (ok, over))
            | inl retry ↦
                let (same_u, same_mem) = dev.unmoved u mem s.sfs_device (ground arith) in
                let again = rwblock_from-Puts tries (with_device s q.3) dev in
                record {
                  err = again.err;
                  uio = again.uio;
                  memory = again.memory;
                  device = again.device;
                  ends = rw (ok, retry, same_u, same_mem) again.ends;
                  same_rw = again.same_rw;
                  moves = again.moves;
                  keeps = λ c i other.
                      again.keeps c i other
                      ∙ dev.write_keeps b u mem s.sfs_device c i block write other;
                  blame = again.blame;
                }
          ]

  -- `sfs_rwblock` of a block of the device fails no KASSERT and does not panic.
  pub sfs_rwblock-Reads :
      (b : ℕ) (u : Uio) (mem : ℕ → ℕ) (s : SfsFs D)
      → IsDevice s.d_io size word
      → IsBlockUio b u
      → b < size
      → u.uio_rw ≡ uio_read
      → Reads word b u mem s (sfs_rwblock u mem s)
  unfolding sfs_rwblock
  sfs_rwblock-Reads b u mem s dev block small read =
      rwblock_from-Reads b u mem block small read 10 s dev

  pub sfs_rwblock-Puts :
      (b : ℕ) (u : Uio) (mem : ℕ → ℕ) (s : SfsFs D)
      → IsDevice s.d_io size word
      → IsBlockUio b u
      → b < size
      → u.uio_rw ≡ uio_write
      → Puts word b u mem s (sfs_rwblock u mem s)
  unfolding sfs_rwblock
  sfs_rwblock-Puts b u mem s dev block small write =
      rwblock_from-Puts b u mem block small write 10 s dev

pub sfsuio-IsBlockUio : (b : ℕ) (rw : UioRw) → IsBlockUio b (sfsuio b rw)
unfolding sfsuio uio_kinit
sfsuio-IsBlockUio b rw = record {
  whole = record { fits = omega arith; small = omega arith; apart = λ j k lj lk e. ground arith };
  block_offset = refl;
  block_resid = refl;
}

cell-sfsuio : (b : ℕ) (rw : UioRw) (k : ℕ) → k < sfs_blocksize → cell (sfsuio b rw).uio_iov k ≡ k
unfolding sfsuio uio_kinit
cell-sfsuio b rw k lt = ground arith

sfsuio_rw : (b : ℕ) (rw : UioRw) → (sfsuio b rw).uio_rw ≡ rw
unfolding sfsuio uio_kinit
sfsuio_rw b rw = refl

-- A block has been read to a buffer.
pub record ReadsBuffer {D : Type 0} (word : D → ℕ → ℕ → ℕ) (b : ℕ) (s : SfsFs D)
    (r : Kernel (ℕ × (ℕ → ℕ) × SfsFs D)) : Type 0 where
  pub err : ℕ
  pub buf : ℕ → ℕ
  pub device : D
  pub ends : r ≡ done (err, buf, with_device s device)
  pub bytes : err ≡ 0 → (i : ℕ) → i < sfs_blocksize → buf i ≡ store_words (word s.sfs_device b) i
  pub read_data : err ≡ 0 → (i : ℕ) → i < sfs_dbperidb → load_words buf i ≡ word s.sfs_device b i
  pub keeps : (c i : ℕ) → word device c i ≡ word s.sfs_device c i
  pub blame : DeviceFailed (with_device s device) err

-- The words of a block stand on its bytes.
load_words-same :
    (buf bytes : ℕ → ℕ)
    → ((j : ℕ) → j < sfs_blocksize → buf j ≡ bytes j)
    → (i : ℕ) → i < sfs_dbperidb
    → load_words buf i ≡ load_words bytes i
unfolding load_words
load_words-same buf bytes same i lt =
    let s0 = same (4 * i) (omega arith) in
    let s1 = same (4 * i + 1) (omega arith) in
    let s2 = same (4 * i + 2) (omega arith) in
    let s3 = same (4 * i + 3) (omega arith) in rw (s0, s1, s2, s3)

module _ {D : Type 0} {size : ℕ} {word : D → ℕ → ℕ → ℕ} where
  -- `sfs_rblock` of a block of the device fails no KASSERT and does not panic.
  pub sfs_rblock-ReadsBuffer :
      (b : ℕ) (s : SfsFs D)
      → IsDevice s.d_io size word
      → b < size
      → ReadsBuffer word b s (sfs_rblock b s)
  unfolding sfs_rblock
  sfs_rblock-ReadsBuffer b s dev small =
      let u = sfsuio b uio_read in
      let r =
        sfs_rwblock-Reads b u zeros s dev (sfsuio-IsBlockUio b uio_read) small
          (sfsuio_rw b uio_read) in
      let got : r.err ≡ 0
          → (i : ℕ) → i < sfs_blocksize
          → r.memory i ≡ store_words (word s.sfs_device b) i =
        λ e i lt.
          (let (buf, m) = r.moves e in
            ap r.memory (sym (cell-sfsuio b uio_read i lt))
            ∙ (m.reads_memory (sfsuio_rw b uio_read) i lt
                ∙ (let at : 0 + i ≡ i = omega arith in
                    ap (store_words (word s.sfs_device b)) at))) in
      record {
        err = r.err;
        buf = r.memory;
        device = r.device;
        ends = rw r.ends;
        bytes = got;
        read_data = λ e i lt.
            load_words-same r.memory (store_words (word s.sfs_device b)) (got e) i lt
            ∙ load_words-store_words (word s.sfs_device b) i (dev.word_small s.sfs_device b i);
        keeps = r.keeps;
        blame = r.blame;
      }

  -- `sfs_wblock` of a block of the device fails no KASSERT and does not panic.
  pub sfs_wblock-Puts :
      (bytes : ℕ → ℕ) (b : ℕ) (s : SfsFs D)
      → IsDevice s.d_io size word
      → b < size
      → (err : ℕ) × (d : D) × (sfs_wblock bytes b s ≡ done (err, with_device s d))
        × (err ≡ 0 → (i : ℕ) → i < sfs_dbperidb → word d b i ≡ load_words bytes i)
        × ((c i : ℕ) → b ≢ c → word d c i ≡ word s.sfs_device c i)
        × DeviceFailed (with_device s d) err
  unfolding sfs_wblock
  sfs_wblock-Puts bytes b s dev small =
      let u = sfsuio b uio_write in
      let p =
        sfs_rwblock-Puts b u bytes s dev (sfsuio-IsBlockUio b uio_write) small
          (sfsuio_rw b uio_write) in
      (
        p.err,
        p.device,
        rw p.ends,
        λ e i lt.
            (let (buf, m, stored) = p.moves e in
              let gathered : (j : ℕ) → j < sfs_blocksize → buf j ≡ bytes j = λ j lj.
                (let inside : (leb 0 j && ltb j (0 + sfs_blocksize)) ≡ true = ground arith in
                  let at : j - 0 ≡ j = omega arith in
                  m.writes_buffer (sfsuio_rw b uio_write) j
                  ∙ rw inside (
                      ap (λ k. bytes (cell u.uio_iov k)) at
                      ∙ ap bytes (cell-sfsuio b uio_write j lj))) in
              stored i lt ∙ load_words-same buf bytes gathered i lt),
        p.keeps,
        p.blame,
      )

  -- A block of words.
  pub sfs_wblock-store_words :
      (w : ℕ → ℕ) (b : ℕ) (s : SfsFs D)
      → IsDevice s.d_io size word
      → b < size
      → ((i : ℕ) → i < sfs_dbperidb → w i < 2 ^ 32)
      → (err : ℕ) × (d : D) × (sfs_wblock (store_words w) b s ≡ done (err, with_device s d))
        × (err ≡ 0 → (i : ℕ) → i < sfs_dbperidb → word d b i ≡ w i)
        × ((c i : ℕ) → b ≢ c → word d c i ≡ word s.sfs_device c i)
        × DeviceFailed (with_device s d) err
  sfs_wblock-store_words w b s dev small words =
      let (err, d, ends, wrote, keeps, blame) = sfs_wblock-Puts (store_words w) b s dev small in
      (
        err,
        d,
        ends,
        λ e i lt. (wrote e i lt ∙ load_words-store_words w i (words i lt)),
        keeps,
        blame,
      )
