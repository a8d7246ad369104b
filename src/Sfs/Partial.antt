-- ===== src/Sfs/Partial.antt =====
-- `sfs_partialio` of kern/fs/sfs/sfs_vnode.c.
use toy_os.Common.{
  ℕ, ◌+◌, ◌-◌, ◌*◌, ◌/◌, ◌%◌, ◌^◌, ◌≤◌, ◌<◌, ◌≡◌, ◌≢◌, refl, sym, subst, ap, ◌∙◌, ◌⊎◌, inl, inr,
  true, false, not, ◌&&◌, Kernel, done, ◌>>=◌, arith, Bool-cases, ltb, leb, ◌==◌, if◌then◌else◌,
  ==_ne, ℕ_discrete, store_words, word_byte,
}
use toy_os.Coremap.{u32}
use toy_os.Uio.{UioRw, uio_read, uio_write, Uio, is_read}
use toy_os.Uio.Moved.{cell, IsUio}
use toy_os.Uio.Moves.{Moves, uiomove-Moves}
use toy_os.Sfs.{efbig, sfs_blocksize, SfsFs, SfsVnode, sfs_bmap}
use toy_os.Sfs.Disk.{DeviceFailed, with_device, sfs_rblock-ReadsBuffer, sfs_wblock-Puts}
use toy_os.Sfs.Blocks.{device_failed, clash, IsMounted, IsMounted-with_device}
use toy_os.Sfs.Owns.{file_blocks, entry, Owns}
use toy_os.Sfs.Mapped.{Bmaps, maps}
use toy_os.Sfs.Indirect.{sfs_bmap-Bmaps}
use toy_os.Sfs.FileIo.{FileIo, partial_fill, partial_write, partial_block, sfs_partialio}
use toy_os.Sfs.FileBytes.{
  block_byte, fbyte, Leaves, Serves-refl, Serves-Leaves, Spares-Leaves, Mapped-Serves, fbyte-Mapped,
  same_words-Serves, written-Serves,
}
use toy_os.Sfs.FileMoves.{
  refused, too_big, bad_copy, FileMoves, Moved-read, Moved-write, FileMoves-Serves,
}

-- The regions hold bytes where they are written from.
abbrev pub HoldsBytes : Uio → (ℕ → ℕ) → Type 0
HoldsBytes u mem = u.uio_rw ≡ uio_write → (a : ℕ) → mem a < 256

pub rw_cases : (r : UioRw) → (r ≡ uio_read) ⊎ (r ≡ uio_write)
rw_cases uio_read = inl refl
rw_cases uio_write = inr refl

store_words_small : (w : ℕ → ℕ) (j : ℕ) → store_words w j < 256
unfolding store_words word_byte
store_words_small w j = ground arith

pub block_byte_small : (w : ℕ → ℕ → ℕ) (b j : ℕ) → block_byte w b j < 256
block_byte_small w b j = elim (Bool-cases (not (b == 0) && ltb (j / sfs_blocksize) file_blocks)) [
  | inl e ↦ rw e (store_words_small (w b) (j % sfs_blocksize))
  | inr e ↦ rw e (omega arith)
]

module _ {D : Type 0} {word : D → ℕ → ℕ → ℕ} where
  -- `sfs_bmap` where the file's bytes are wanted.
  pub bmap-FileMoves :
      {n : ℕ} (u : Uio) (mem : ℕ → ℕ) (sv : SfsVnode) (s : SfsFs D)
      (next : ℕ → SfsVnode → SfsFs D → Kernel (FileIo D))
      → IsMounted word s
      → Owns word s sv
      → u.uio_offset < 2 ^ 32
      → ((block : ℕ) (sv1 : SfsVnode) (s1 : SfsFs D)
          → IsMounted word s1
          → Owns word s1 sv1
          → u.uio_offset / sfs_blocksize < file_blocks
          → entry word s1 sv1 (u.uio_offset / sfs_blocksize) ≡ block
          → (u.uio_rw ≡ uio_write → block ≢ 0)
          → s1.sp_nblocks ≡ s.sp_nblocks
          → FileMoves word n u mem sv1 s1 (next block sv1 s1))
      → FileMoves word n u mem sv s (
          sfs_bmap (u32 (u.uio_offset / sfs_blocksize)) (not (is_read u.uio_rw)) sv s >>= λ r.
          if r.0 == 0 then next r.1 r.2 r.3 else done (r.0, u, mem, r.2, r.3))
  bmap-FileMoves u mem sv s next m o small rest =
      let i = u.uio_offset / sfs_blocksize in
      let word_of : u32 i ≡ i = omega arith in
      rw word_of (elim (sfs_bmap-Bmaps s sv (not (is_read u.uio_rw)) m o i) [
        | inl (past, e) ↦
            FileMoves.failed efbig u mem sv s (rw e) (λ z. omega arith) refl
              (Serves-Leaves (Serves-refl s sv m o)) (too_big refl (omega arith))
        | inr (lt, Bmaps.failed err sv1 s1 e bad p why) ↦
            let wrong : (err == 0) ≡ false = ==_ne err 0 bad in
            FileMoves.failed err u mem sv1 s1 (rw (e, wrong)) bad refl (Spares-Leaves p)
              (refused why)
        | inr (lt, maps block sv1 s1 e p) ↦ rw e (
            FileMoves-Serves (Mapped-Serves o lt p) p.same_size (fbyte-Mapped o lt p) (
              rest block sv1 s1 p.spares.mounted p.owns lt p.here
                (λ w. p.allocated (let wants : is_read u.uio_rw ≡ false = ap is_read w in rw wants))
                p.spares.same_nblocks))
      ])

  module _ (u : Uio) (mem : ℕ → ℕ) (sv : SfsVnode) (s : SfsFs D) (m : IsMounted word s)
      (o : Owns word s sv) (lt : u.uio_offset / sfs_blocksize < file_blocks) where
    abbrev block : ℕ
    block = entry word s sv (u.uio_offset / sfs_blocksize)

    pub block_inside : block ≢ 0 → block < m.size
    block_inside h =
        let (small, in_use) = o.entries (u.uio_offset / sfs_blocksize) lt h in
        omega (arith, small, m.fits)

    -- A byte of the block.
    byte_of_block :
        (k : ℕ)
        → k < sfs_blocksize
        → fbyte word s sv (u.uio_offset / sfs_blocksize * sfs_blocksize + k)
          ≡ block_byte (word s.sfs_device) block (u.uio_offset / sfs_blocksize * sfs_blocksize + k)
    byte_of_block k lk =
        let at : (u.uio_offset / sfs_blocksize * sfs_blocksize + k) / sfs_blocksize
            ≡ u.uio_offset / sfs_blocksize =
          omega arith in
        ap
          (λ n.
            block_byte (word s.sfs_device) (entry word s sv n)
              (u.uio_offset / sfs_blocksize * sfs_blocksize + k))
          at

    pub stored_byte :
        block ≢ 0
        → (k : ℕ) → k < sfs_blocksize
        → fbyte word s sv (u.uio_offset / sfs_blocksize * sfs_blocksize + k)
          ≡ store_words (word s.sfs_device block) k
    stored_byte h k lk =
        let j = u.uio_offset / sfs_blocksize * sfs_blocksize + k in
        let inside : (not (block == 0) && ltb (j / sfs_blocksize) file_blocks) ≡ true =
          (let at : j / sfs_blocksize ≡ u.uio_offset / sfs_blocksize = omega arith in
            let there : (block == 0) ≡ false = ==_ne block 0 h in
            let small : ltb (j / sfs_blocksize) file_blocks ≡ true = ground arith in
            rw (there, small)) in
        let back : j % sfs_blocksize ≡ k = omega arith in byte_of_block k lk ∙ rw (inside, back)

    pub missing_byte :
        block ≡ 0
        → (k : ℕ) → k < sfs_blocksize
        → fbyte word s sv (u.uio_offset / sfs_blocksize * sfs_blocksize + k) ≡ 0
    missing_byte z k lk =
        let j = u.uio_offset / sfs_blocksize * sfs_blocksize + k in
        let inside : (not (block == 0) && ltb (j / sfs_blocksize) file_blocks) ≡ false =
          ground arith in
        byte_of_block k lk ∙ rw inside

    -- The buffer holds the bytes of the file.
    partial_fill-bytes :
        (u.uio_rw ≡ uio_write → block ≢ 0)
        → (err : ℕ) × (buf : ℕ → ℕ) × (d : D) × (partial_fill block u.uio_rw s
            ≡ done (err, buf, with_device s d))
          × (err ≡ 0
              → (k : ℕ) → k < sfs_blocksize
              → buf k ≡ fbyte word s sv (u.uio_offset / sfs_blocksize * sfs_blocksize + k))
          × ((c i : ℕ) → word d c i ≡ word s.sfs_device c i)
          × (err ≢ 0 → DeviceFailed (with_device s d) err)
    unfolding partial_fill
    partial_fill-bytes some_block = elim (ℕ_discrete block 0) [
      | no there ↦
          let r = sfs_rblock-ReadsBuffer block s m.device (block_inside there) in
          let is_there : (block == 0) ≡ false = ==_ne block 0 there in
          (
            r.err,
            r.buf,
            r.device,
            rw is_there r.ends,
            λ e k lk. (r.bytes e k lk ∙ sym (stored_byte there k lk)),
            r.keeps,
            λ bad. r.blame,
          )
      | yes z ↦ elim (rw_cases u.uio_rw) [
        | inr w ↦ absurd (some_block w z)
        | inl read ↦
            let none_yet : (block == 0) ≡ true = ground arith in
            (
              0,
              (λ k. 0),
              s.sfs_device,
              rw (none_yet, read),
              λ e k lk. sym (missing_byte z k lk),
              λ c i. refl,
              λ bad. absurd (bad refl),
            )
      ]
    ]

    -- The device after a write that failed.
    pub write_failed :
        (d d3 : D)
        → block ≢ 0
        → ((c i : ℕ) → word d c i ≡ word s.sfs_device c i)
        → ((c i : ℕ) → block ≢ c → word d3 c i ≡ word d c i)
        → Leaves word s sv (with_device s d3)
    write_failed d d3 there keeps keeps3 = record {
      mounted = IsMounted-with_device s d3 m;
      same_nblocks = refl;
      still_used = λ b h. h;
      foreign_kept =
          λ b i f. keeps3 b i (f.no_entry (u.uio_offset / sfs_blocksize) lt there) ∙ keeps b i;
    }

    module _ (skip len : ℕ) (at : skip ≡ u.uio_offset % sfs_blocksize)
        (fits : skip + len ≤ sfs_blocksize) where
      -- A byte of the block that has been written.
      pub written_byte :
          (buf buf' f g : ℕ → ℕ)
          → ((a : ℕ) → mem a < 256)
          → ((k : ℕ)
              → k < sfs_blocksize
              → buf k ≡ f (u.uio_offset / sfs_blocksize * sfs_blocksize + k))
          → ((j : ℕ) → f j < 256)
          → ((i : ℕ)
              → i < sfs_blocksize
              → buf' i ≡ (
                  if leb skip i && ltb i (skip + len)
                  then mem (cell u.uio_iov (i - skip))
                  else buf i))
          → ((j : ℕ)
              → g j ≡ (
                  if j / sfs_blocksize == u.uio_offset / sfs_blocksize
                  then buf' (j % sfs_blocksize) % 256
                  else f j))
          → (j : ℕ)
          → g j ≡ (
              if leb u.uio_offset j && ltb j (u.uio_offset + len)
              then mem (cell u.uio_iov (j - u.uio_offset))
              else f j)
      written_byte buf buf' f g bytes filled small put stored j =
          let off = u.uio_offset in
          elim (Bool-cases (leb off j && ltb j (off + len))) [
            | inl inside ↦
                let lo : off ≤ j = ground arith in
                let hi : j < off + len = ground arith in
                let same : (j / sfs_blocksize == off / sfs_blocksize) ≡ true =
                  (let e : j / sfs_blocksize ≡ off / sfs_blocksize = omega arith in ground arith) in
                let range : (leb skip (j % sfs_blocksize) && ltb (j % sfs_blocksize) (skip + len))
                    ≡ true =
                  (let l : skip ≤ j % sfs_blocksize = omega arith in
                    let h : j % sfs_blocksize < skip + len = omega arith in ground arith) in
                let back : j % sfs_blocksize - skip ≡ j - off = omega arith in
                let byte = bytes (cell u.uio_iov (j - off)) in
                let kept : mem (cell u.uio_iov (j - off)) % 256 ≡ mem (cell u.uio_iov (j - off)) =
                  omega arith in
                stored j
                ∙ rw (same, inside)
                    (ap (λ b. b % 256) (put (j % sfs_blocksize) (omega arith) ∙ rw (range, back))
                      ∙ kept)
            | inr out ↦ elim (Bool-cases (j / sfs_blocksize == off / sfs_blocksize)) [
              | inr miss ↦ stored j ∙ rw (out, miss)
              | inl same ↦
                  let e : j / sfs_blocksize ≡ off / sfs_blocksize = ground arith in
                  let range : (leb skip (j % sfs_blocksize) && ltb (j % sfs_blocksize) (skip + len))
                      ≡ false =
                    (elim (Bool-cases
                      (leb skip (j % sfs_blocksize) && ltb (j % sfs_blocksize) (skip + len))) [
                        | inr out_too ↦ out_too
                        | inl there ↦
                            let l : skip ≤ j % sfs_blocksize = ground arith in
                            let h : j % sfs_blocksize < skip + len = ground arith in
                            let lo : off ≤ j = omega arith in
                            let hi : j < off + len = omega arith in
                            let inside : (leb off j && ltb j (off + len)) ≡ true = ground arith in
                            absurd (clash inside out)
                      ]) in
                  let whole : off / sfs_blocksize * sfs_blocksize + j % sfs_blocksize ≡ j =
                    omega arith in
                  let byte = small j in
                  let kept : f j % 256 ≡ f j = omega arith in
                  stored j
                  ∙ rw (same, out)
                      (ap (λ b. b % 256)
                          (put (j % sfs_blocksize) (omega arith)
                            ∙ rw range (filled (j % sfs_blocksize) (omega arith) ∙ ap f whole))
                        ∙ kept)
            ]
          ]

      pub partial_block-FileMoves :
          IsUio u
          → len ≤ u.uio_resid
          → HoldsBytes u mem
          → (u.uio_rw ≡ uio_write → block ≢ 0)
          → FileMoves word len u mem sv s (partial_block block skip len u mem sv s)
      unfolding partial_block partial_write
      partial_block-FileMoves whole enough bytes some_block =
          let (err, buf, d, fill, filled, keeps, blame) = partial_fill-bytes some_block in
          let (x, same) = same_words-Serves s sv m o d keeps in
          elim (ℕ_discrete err 0) [
            | no bad ↦
                let wrong : (err == 0) ≡ false = ==_ne err 0 bad in
                FileMoves.failed err u mem sv (with_device s d) (rw (fill, wrong)) bad refl
                  (Serves-Leaves x) (refused (device_failed (blame bad)))
            | yes ok ↦
                let right : (err == 0) ≡ true = ground arith in
                elim (uiomove-Moves skip len buf u mem whole enough) [
                  | Moves.failed e2 buf' u' mem' run bad rw_same k lk part c ↦
                      let wrong : (e2 == 0) ≡ false = ==_ne e2 0 bad in
                      FileMoves.failed e2 u' mem' sv (with_device s d)
                        (rw (fill, right, run, wrong)) bad rw_same (Serves-Leaves x)
                        (bad_copy k (omega arith) c)
                  | Moves.moved buf' u' mem' run move ↦ elim (rw_cases u.uio_rw) [
                    | inl read ↦
                        let reads : is_read u'.uio_rw ≡ true = ap is_read (move.same_rw ∙ read) in
                        FileMoves.moved u' mem' sv (with_device s d) (rw (fill, right, run, reads))
                          x refl
                          (Moved-read (fbyte word s sv) (fbyte word (with_device s d) sv) read move
                            (λ k lk.
                              (let place : u.uio_offset / sfs_blocksize * sfs_blocksize + (skip + k)
                                    ≡ u.uio_offset + k =
                                  omega arith in
                                filled ok (skip + k) (omega arith) ∙ ap (fbyte word s sv) place))
                            same)
                    | inr write ↦
                        let writes : is_read u'.uio_rw ≡ false =
                          ap is_read (move.same_rw ∙ write) in
                        let there = some_block write in
                        let (e3, d3, ends, wrote, keeps3, blame3) =
                          sfs_wblock-Puts buf' block (with_device s d) m.device
                            (block_inside there) in
                        elim (ℕ_discrete e3 0) [
                          | no bad ↦
                              FileMoves.failed e3 u' mem' sv (with_device s d3)
                                (rw (fill, right, run, writes, ends)) bad move.same_rw
                                (write_failed d d3 there keeps keeps3)
                                (refused (device_failed blame3))
                          | yes good ↦
                              let (y, stored) =
                                written-Serves s sv m o d3 (u.uio_offset / sfs_blocksize) buf' lt
                                  there (wrote good) (λ c k other. keeps3 c k other ∙ keeps c k) in
                              FileMoves.moved u' mem' sv (with_device s d3)
                                (rw (fill, right, run, writes, ends)
                                  (ap (λ e. done (e, u', mem', sv, with_device s d3)) good))
                                y refl
                                (Moved-write (fbyte word s sv) (fbyte word (with_device s d3) sv)
                                  write move
                                  (written_byte buf buf' (fbyte word s sv)
                                    (fbyte word (with_device s d3) sv) (bytes write) (filled ok)
                                    (λ j.
                                      block_byte_small (word s.sfs_device)
                                        (entry word s sv (j / sfs_blocksize)) j)
                                    (λ k lk. move.writes_buffer write k) stored))
                        ]
                  ]
                ]
          ]

  -- `sfs_partialio` of bytes of one block fails no KASSERT and does not panic. It answers an errno,
  -- or moves the bytes between the file, at the offset of the uio, and the regions.
  pub sfs_partialio-FileMoves :
      (skip len : ℕ) (u : Uio) (mem : ℕ → ℕ) (sv : SfsVnode) (s : SfsFs D)
      → IsMounted word s
      → Owns word s sv
      → IsUio u
      → HoldsBytes u mem
      → u.uio_offset < 2 ^ 32
      → skip ≡ u.uio_offset % sfs_blocksize
      → skip + len ≤ sfs_blocksize
      → len ≤ u.uio_resid
      → FileMoves word len u mem sv s (sfs_partialio skip len u mem sv s)
  unfolding sfs_partialio
  sfs_partialio-FileMoves skip len u mem sv s m o whole bytes small at fits enough =
      let inside : leb (skip + len) sfs_blocksize ≡ true = ground arith in
      rw inside (
        bmap-FileMoves u mem sv s (λ block sv1 s1. partial_block block skip len u mem sv1 s1) m o
          small
          (λ b sv1 s1 m1 o1 lt here some_block n.
            subst (λ k. FileMoves word len u mem sv1 s1 (partial_block k skip len u mem sv1 s1))
              here
              (partial_block-FileMoves u mem sv1 s1 m1 o1 lt skip len at fits whole enough bytes
                (λ w z. some_block w (sym here ∙ z)))))
