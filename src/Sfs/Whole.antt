-- ===== src/Sfs/Whole.antt =====
-- `sfs_blockio` of kern/fs/sfs/sfs_vnode.c.
use toy_os.Common.{
  ℕ, ◌+◌, ◌-◌, ◌*◌, ◌/◌, ◌%◌, ◌^◌, ◌≤◌, ◌<◌, ◌≡◌, ◌≢◌, refl, sym, subst, ap, ◌∙◌, inl, inr, true,
  false, ◌&&◌, done, arith, ltb, leb, ◌==◌, ==_ne, ℕ_discrete, store_words,
}
use toy_os.Coremap.{u32}
use toy_os.Uio.{uio_read, uio_write, Uio, is_read}
use toy_os.Uio.Moved.{IsUio, Moved}
use toy_os.Uio.Zeros.{Clears, cleared, uiomovezeros-Clears}
use toy_os.Sfs.{sfs_blocksize, SfsFs, SfsVnode}
use toy_os.Sfs.Disk.{IsBlockUio, with_device, sfs_rwblock-Reads, sfs_rwblock-Puts}
use toy_os.Sfs.Blocks.{device_failed, IsMounted}
use toy_os.Sfs.Owns.{file_blocks, entry, Owns}
use toy_os.Sfs.FileIo.{reframed, whole_block, sfs_blockio}
use toy_os.Sfs.FileBytes.{fbyte, Serves-refl, Serves-Leaves, same_words-Serves, written-Serves}
use toy_os.Sfs.FileMoves.{refused, bad_copy, FileMoves, Moved-read, Moved-write, Moved-reframed}
use toy_os.Sfs.Partial.{
  HoldsBytes, rw_cases, block_byte_small, bmap-FileMoves, block_inside, stored_byte, missing_byte,
  write_failed, written_byte,
}

module _ {D : Type 0} {word : D → ℕ → ℕ → ℕ} where
  module _ (u : Uio) (mem : ℕ → ℕ) (sv : SfsVnode) (s : SfsFs D) (m : IsMounted word s)
      (o : Owns word s sv) (lt : u.uio_offset / sfs_blocksize < file_blocks)
      (aligned : u.uio_offset % sfs_blocksize ≡ 0) (whole : IsUio u)
      (enough : sfs_blocksize ≤ u.uio_resid) where
    abbrev block : ℕ
    block = entry word s sv (u.uio_offset / sfs_blocksize)

    -- There is no block: the bytes are zeros.
    no_block-FileMoves :
        block ≡ 0
        → u.uio_rw ≡ uio_read
        → FileMoves word sfs_blocksize u mem sv s (whole_block block u mem sv s)
    unfolding whole_block
    no_block-FileMoves z read =
        let none_yet : (block == 0) ≡ true = ground arith in
        let reads : is_read u.uio_rw ≡ true = ap is_read read in
        elim (uiomovezeros-Clears sfs_blocksize u mem whole read enough) [
          | Clears.failed err u' mem' run bad same k lk part c ↦
              FileMoves.failed err u' mem' sv s (rw (none_yet, reads, run)) bad same
                (Serves-Leaves (Serves-refl s sv m o)) (bad_copy k (omega arith) c)
          | cleared u' mem' run move ↦
              FileMoves.moved u' mem' sv s (rw (none_yet, reads, run)) (Serves-refl s sv m o) refl (
                Moved-read (fbyte word s sv) (fbyte word s sv) read move
                  (λ k lk.
                    (let place : u.uio_offset / sfs_blocksize * sfs_blocksize + k
                          ≡ u.uio_offset + k =
                        omega arith in
                      sym (missing_byte u mem sv s m o lt z k lk) ∙ ap (fbyte word s sv) place))
                  (λ j. refl))
        ]

    module _ (there : block ≢ 0) (small : s.sp_nblocks * sfs_blocksize ≤ 2 ^ 32) where
      abbrev disk_uio : Uio
      disk_uio = reframed (u32 (block * sfs_blocksize)) sfs_blocksize u

      disk_uio-IsBlockUio : IsBlockUio block disk_uio
      disk_uio-IsBlockUio =
          let (inside, in_use) = o.entries (u.uio_offset / sfs_blocksize) lt there in
          let fits = whole.fits in
          record {
            whole = record {
              fits = omega arith;
              small = omega arith;
              apart = λ j k lj lk e. whole.apart j k (omega arith) (omega arith) e;
            };
            block_offset = omega arith;
            block_resid = refl;
          }

      -- The uio as it is restored.
      abbrev restored : Uio → Uio
      restored v =
          reframed (v.uio_offset + u.uio_offset - u32 (block * sfs_blocksize))
            (u32 (v.uio_resid + u.uio_resid - sfs_blocksize)) v

      restored-Moved :
          {p : ℕ} {buf buf' mem' : ℕ → ℕ} {v : Uio}
          → Moved p sfs_blocksize buf disk_uio mem buf' v mem'
          → Moved p sfs_blocksize buf u mem buf' (restored v) mem'
      restored-Moved {v = v} move =
          let o1 = move.offset in
          let r1 = move.resid in
          let fits = whole.small in
          Moved-reframed (v.uio_offset + u.uio_offset - u32 (block * sfs_blocksize))
            (u32 (v.uio_resid + u.uio_resid - sfs_blocksize)) move (omega arith) (omega arith)

      block_read-FileMoves :
          u.uio_rw ≡ uio_read
          → FileMoves word sfs_blocksize u mem sv s (whole_block block u mem sv s)
      unfolding whole_block
      block_read-FileMoves read =
          let is_there : (block == 0) ≡ false = ==_ne block 0 there in
          let room : leb sfs_blocksize u.uio_resid ≡ true = ground arith in
          let r =
            sfs_rwblock-Reads block disk_uio mem s m.device disk_uio-IsBlockUio
              (block_inside u mem sv s m o lt there) read in
          let (x, same) = same_words-Serves s sv m o r.device r.keeps in
          elim (ℕ_discrete r.err 0) [
            | no bad ↦
                FileMoves.failed r.err (restored r.uio) r.memory sv (with_device s r.device)
                  (rw (is_there, room, r.ends)) bad r.same_rw (Serves-Leaves x)
                  (refused (device_failed r.blame))
            | yes ok ↦
                let (buf, move) = r.moves ok in
                FileMoves.moved (restored r.uio) r.memory sv (with_device s r.device)
                  (rw (is_there, room, r.ends)
                    (ap (λ e. done (e, restored r.uio, r.memory, sv, with_device s r.device)) ok))
                  x refl
                  (Moved-read (fbyte word s sv) (fbyte word (with_device s r.device) sv) read
                    (restored-Moved move)
                    (λ k lk.
                      (let place : u.uio_offset / sfs_blocksize * sfs_blocksize + k
                            ≡ u.uio_offset + k =
                          omega arith in
                        let at : 0 + k ≡ k = omega arith in
                        ap (store_words (word s.sfs_device block)) at
                        ∙ (sym (stored_byte u mem sv s m o lt there k lk)
                            ∙ ap (fbyte word s sv) place)))
                    same)
          ]

      block_write-FileMoves :
          u.uio_rw ≡ uio_write
          → ((a : ℕ) → mem a < 256)
          → FileMoves word sfs_blocksize u mem sv s (whole_block block u mem sv s)
      unfolding whole_block
      block_write-FileMoves write bytes =
          let is_there : (block == 0) ≡ false = ==_ne block 0 there in
          let room : leb sfs_blocksize u.uio_resid ≡ true = ground arith in
          let r =
            sfs_rwblock-Puts block disk_uio mem s m.device disk_uio-IsBlockUio
              (block_inside u mem sv s m o lt there) write in
          elim (ℕ_discrete r.err 0) [
            | no bad ↦
                FileMoves.failed r.err (restored r.uio) r.memory sv (with_device s r.device)
                  (rw (is_there, room, r.ends)) bad r.same_rw
                  (write_failed u mem sv s m o lt s.sfs_device r.device there (λ c i. refl) r.keeps)
                  (refused (device_failed r.blame))
            | yes ok ↦
                let (buf', move, wrote) = r.moves ok in
                let (x, stored) =
                  written-Serves s sv m o r.device (u.uio_offset / sfs_blocksize) buf' lt there
                    wrote r.keeps in
                let f = fbyte word s sv in
                let f' = fbyte word (with_device s r.device) sv in
                FileMoves.moved (restored r.uio) r.memory sv (with_device s r.device)
                  (rw (is_there, room, r.ends)
                    (ap (λ e. done (e, restored r.uio, r.memory, sv, with_device s r.device)) ok))
                  x refl
                  (Moved-write f f' write (restored-Moved move) (
                    written_byte u mem sv s m o lt 0 sfs_blocksize (sym aligned) (omega arith)
                      (λ k. f (u.uio_offset / sfs_blocksize * sfs_blocksize + k)) buf' f f' bytes
                      (λ k lk. refl)
                      (λ j.
                        block_byte_small (word s.sfs_device) (entry word s sv (j / sfs_blocksize))
                          j)
                      (λ k lk.
                        (let inside : (leb 0 k && ltb k (0 + sfs_blocksize)) ≡ true =
                            ground arith in
                          rw inside (rw inside at (move.writes_buffer write k))))
                      stored))
          ]

  -- `sfs_blockio` of a block of a file fails no KASSERT and does not panic, on a volume of 4 GB at
  -- most. It answers an errno, or moves the block between the file and the regions.
  pub sfs_blockio-FileMoves :
      (u : Uio) (mem : ℕ → ℕ) (sv : SfsVnode) (s : SfsFs D)
      → IsMounted word s
      → Owns word s sv
      → IsUio u
      → HoldsBytes u mem
      → u.uio_offset < 2 ^ 32
      → u.uio_offset % sfs_blocksize ≡ 0
      → sfs_blocksize ≤ u.uio_resid
      → s.sp_nblocks * sfs_blocksize ≤ 2 ^ 32
      → FileMoves word sfs_blocksize u mem sv s (sfs_blockio u mem sv s)
  unfolding sfs_blockio
  sfs_blockio-FileMoves u mem sv s m o whole bytes small aligned enough volume =
      bmap-FileMoves u mem sv s (λ block sv1 s1. whole_block block u mem sv1 s1) m o small
        (λ b sv1 s1 m1 o1 lt here some_block n.
          subst (λ k. FileMoves word sfs_blocksize u mem sv1 s1 (whole_block k u mem sv1 s1)) here
            (elim (rw_cases u.uio_rw) [
              | inl read ↦ elim (ℕ_discrete (block u mem sv1 s1 m1 o1 lt aligned whole enough) 0) [
                | yes z ↦ no_block-FileMoves u mem sv1 s1 m1 o1 lt aligned whole enough z read
                | no there ↦
                    block_read-FileMoves u mem sv1 s1 m1 o1 lt aligned whole enough there
                      (omega (arith, n, volume)) read
              ]
              | inr write ↦
                  block_write-FileMoves u mem sv1 s1 m1 o1 lt aligned whole enough
                    (λ z. some_block write (sym here ∙ z)) (omega (arith, n, volume)) write
                    (bytes write)
            ]))
