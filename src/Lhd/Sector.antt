-- ===== src/Lhd/Sector.antt =====
-- `lhd_io` of kern/dev/lamebus/lhd.c for one sector.
use toy_os.Common.{
  ℕ, ◌+◌, ◌/◌, ◌%◌, ◌^◌, ◌<◌, ◌≡◌, ◌≢◌, refl, sym, subst, ap, ◌∙◌, ◌⊎◌, inl, inr, true, false,
  Kernel, done, ◌>>=◌, arith, Bool-cases, ltb, ◌==◌, if◌then◌else◌, ==_ne,
}
use Prim.Native.Nat.{bit_or}
use toy_os.Coremap.{u32}
use toy_os.Uio.{UioRw, uio_read, uio_write, Uio, is_read, uiomove}
use toy_os.Uio.Moved.{CopyFails, Moved}
use toy_os.Uio.Moves.{Moves, uiomove-Moves}
use toy_os.Sfs.{eio}
use toy_os.Sfs.Disk.{IsBlockUio}
use toy_os.Lhd.{
  lhd_sectsize, lhd_working, lhd_iswrite, LhdCard, LhdSoftc, LhdIo, sem_p, lhd_iodone, lhd_clear,
  lhd_operate, lhd_move, lhd_started, lhd_sector, lhd_loop, lhd_io,
}
use toy_os.Lhd.Card.{Answers, lhd_irqs-Answers}

-- The semaphores between two operations.
abbrev pub at_rest : {H : Type 0} → LhdSoftc H → LhdSoftc H
at_rest lh = record lh { lh_clear = 1; lh_done = 0 }

-- The status register for a read, and for a write.
abbrev pub start_value : UioRw → ℕ
start_value rw = if is_read rw then lhd_working else bit_or lhd_working lhd_iswrite

-- A card of `size` sectors, which hold `bytes`: it finishes every operation on a sector that is
-- there, with success or a media error, and on success has read the sector to its buffer or written
-- it.
pub record IsCard {H : Type 0} (card : LhdCard H) (size : ℕ) (bytes : H → ℕ → ℕ → ℕ) : Type 0 where
  pub finishes :
      (b stat : ℕ) (buf : ℕ → ℕ) (h : H)
      → b < size
      → Answers (card b stat buf h).0 0 ⊎ Answers (card b stat buf h).0 eio
  pub reads :
      (b : ℕ) (buf : ℕ → ℕ) (h : H)
      → Answers (card b (start_value uio_read) buf h).0 0
      → (i : ℕ) → (card b (start_value uio_read) buf h).1 i ≡ bytes h b i
  pub read_keeps :
      (b : ℕ) (buf : ℕ → ℕ) (h : H) (c i : ℕ)
      → bytes (card b (start_value uio_read) buf h).2 c i ≡ bytes h c i
  pub writes :
      (b : ℕ) (buf : ℕ → ℕ) (h : H)
      → Answers (card b (start_value uio_write) buf h).0 0
      → (i : ℕ) → i < lhd_sectsize
      → bytes (card b (start_value uio_write) buf h).2 b i ≡ buf i
  pub write_keeps :
      (b : ℕ) (buf : ℕ → ℕ) (h : H) (c i : ℕ)
      → b ≢ c
      → bytes (card b (start_value uio_write) buf h).2 c i ≡ bytes h c i

-- What has become of the sectors: those that were not written hold what they held.
abbrev pub Keeps : {H : Type 0} → (H → ℕ → ℕ → ℕ) → ℕ → Uio → H → H → Type 0
Keeps bytes b u h h' = (c i : ℕ) → (u.uio_rw ≡ uio_read) ⊎ (b ≢ c) → bytes h' c i ≡ bytes h c i

-- How `lhd_io` ends for the sector `b`. The semaphores are given back in every case.
pub data Sectors {H : Type 0} (bytes : H → ℕ → ℕ → ℕ) (b : ℕ) (u : Uio) (mem : ℕ → ℕ)
    (lh : LhdSoftc H) (r : Kernel (LhdIo H)) : Type 0 where
  copy_failed :
      (err : ℕ) (u' : Uio) (mem' : ℕ → ℕ) (lh' : LhdSoftc H)
      → r ≡ done (err, u', mem', at_rest lh')
      → err ≢ 0
      → (k : ℕ) → k < lhd_sectsize
      → CopyFails u k err
      → Keeps bytes b u lh.lh_hardware lh'.lh_hardware
      → Sectors bytes b u mem lh r
  read_failed :
      (lh' : LhdSoftc H)
      → r ≡ done (eio, u, mem, at_rest lh')
      → u.uio_rw ≡ uio_read
      → Answers (lh.lh_card b (start_value u.uio_rw) lh.lh_buf lh.lh_hardware).0 eio
      → Keeps bytes b u lh.lh_hardware lh'.lh_hardware
      → Sectors bytes b u mem lh r
  write_failed :
      (buf : ℕ → ℕ) (u' : Uio) (mem' : ℕ → ℕ) (lh' : LhdSoftc H)
      → r ≡ done (eio, u', mem', at_rest lh')
      → u.uio_rw ≡ uio_write
      → Moved 0 lhd_sectsize lh.lh_buf u mem buf u' mem'
      → lhd_io u' mem' (at_rest lh') ≡ done (0, u', mem', at_rest lh')
      → Answers (lh.lh_card b (start_value u.uio_rw) buf lh.lh_hardware).0 eio
      → Keeps bytes b u lh.lh_hardware lh'.lh_hardware
      → Sectors bytes b u mem lh r
  sector_read :
      (start buf : ℕ → ℕ) (u' : Uio) (mem' : ℕ → ℕ) (lh' : LhdSoftc H)
      → r ≡ done (0, u', mem', at_rest lh')
      → u.uio_rw ≡ uio_read
      → ((i : ℕ) → start i ≡ bytes lh.lh_hardware b i)
      → Moved 0 lhd_sectsize start u mem buf u' mem'
      → Keeps bytes b u lh.lh_hardware lh'.lh_hardware
      → Sectors bytes b u mem lh r
  sector_written :
      (buf : ℕ → ℕ) (u' : Uio) (mem' : ℕ → ℕ) (lh' : LhdSoftc H)
      → r ≡ done (0, u', mem', at_rest lh')
      → u.uio_rw ≡ uio_write
      → Moved 0 lhd_sectsize lh.lh_buf u mem buf u' mem'
      → ((i : ℕ) → i < lhd_sectsize → bytes lh'.lh_hardware b i ≡ buf i)
      → Keeps bytes b u lh.lh_hardware lh'.lh_hardware
      → Sectors bytes b u mem lh r

module _ {H : Type 0} where
  -- The semaphore is taken, and nothing has been posted.
  abbrev busy : LhdSoftc H → LhdSoftc H
  busy lh = record lh { lh_clear = 0; lh_done = 0 }

  -- The device behind an operation that the card has finished.
  abbrev operated : ℕ → ℕ → ℕ → LhdSoftc H → LhdSoftc H
  operated b stat err lh =
      let q = lh.lh_card b stat lh.lh_buf lh.lh_hardware in
      record lh { lh_buf = q.1; lh_hardware = q.2; lh_result = err; lh_clear = 0; lh_done = 0 }

  lhd_operate-Answers :
      (b stat err : ℕ) (lh : LhdSoftc H)
      → Answers (lh.lh_card b stat lh.lh_buf lh.lh_hardware).0 err
      → lhd_operate b stat (busy lh) ≡ done (operated b stat err lh)
  unfolding lhd_operate lhd_iodone sem_p
  lhd_operate-Answers b stat err lh a =
      let q = lh.lh_card b stat lh.lh_buf lh.lh_hardware in
      rw (
        lhd_irqs-Answers (record lh { lh_buf = q.1; lh_hardware = q.2; lh_clear = 0; lh_done = 0 })
          a)

  -- A uio that has been moved has no bytes left.
  lhd_io_empty :
      (b : ℕ) (u u' : Uio) (mem mem' buf buf' : ℕ → ℕ) (lh : LhdSoftc H)
      → IsBlockUio b u
      → Moved 0 lhd_sectsize buf u mem buf' u' mem'
      → b < lh.d_blocks
      → lh.d_blocks < 2 ^ 32
      → lhd_io u' mem' lh ≡ done (0, u', mem', lh)
  unfolding lhd_io lhd_loop
  lhd_io_empty b u u' mem mem' buf buf' lh block m lt small =
      let off = block.block_offset in
      let res = block.block_resid in
      let off' = m.offset in
      let res' = m.resid in
      let on_sector : (u'.uio_offset % lhd_sectsize == 0) ≡ true =
        (let z : u'.uio_offset % lhd_sectsize ≡ 0 = omega arith in ground arith) in
      let all : (u'.uio_resid % lhd_sectsize == 0) ≡ true =
        (let z : u'.uio_resid % lhd_sectsize ≡ 0 = omega arith in ground arith) in
      let len : u'.uio_resid / lhd_sectsize ≡ 0 = omega arith in
      let sector : u32 (u'.uio_offset / lhd_sectsize) ≡ b + 1 = omega arith in
      let inside : ltb lh.d_blocks (u32 (b + 1 + 0)) ≡ false = ground arith in
      rw (on_sector, all, sector, len, inside)

  module _ (b : ℕ) (u : Uio) (mem : ℕ → ℕ) (lh : LhdSoftc H) (block : IsBlockUio b u) where
    -- The guards of `lhd_io`, and its one round.
    lhd_io_round :
        b < lh.d_blocks
        → lh.d_blocks < 2 ^ 32
        → lhd_io u mem (at_rest lh) ≡ (
            lhd_sector b (start_value u.uio_rw) u mem (at_rest lh) >>= λ x.
            if x.0 == 0 then done (0, x.1, x.2, x.3) else done x)
    unfolding lhd_io lhd_loop
    lhd_io_round lt small =
        let off = block.block_offset in
        let res = block.block_resid in
        let on_sector : (u.uio_offset % lhd_sectsize == 0) ≡ true = ground arith in
        let all : (u.uio_resid % lhd_sectsize == 0) ≡ true = ground arith in
        let sector : u32 (u.uio_offset / lhd_sectsize) ≡ b = omega arith in
        let len : u.uio_resid / lhd_sectsize ≡ 1 = omega arith in
        let inside : ltb lh.d_blocks (u32 (b + 1)) ≡ false = ground arith in
        rw (on_sector, all, sector, len, inside)

    module _ (read : u.uio_rw ≡ uio_read) where
      read_round :
          (stat err : ℕ)
          → Answers (lh.lh_card b stat lh.lh_buf lh.lh_hardware).0 err
          → lhd_sector b stat u mem (at_rest lh) ≡ (
              let after = operated b stat err lh in
              if err == 0
              then (lhd_move true u mem after >>= λ x. done (x.0, x.1, x.2, lhd_clear x.3))
              else done (err, u, mem, lhd_clear after))
      unfolding lhd_sector lhd_started sem_p lhd_move
      read_round stat err a =
          let reads : is_read u.uio_rw ≡ true = ap is_read read in
          let run = lhd_operate-Answers b stat err lh a in rw (reads, run, reads)

    module _ (write : u.uio_rw ≡ uio_write) where
      write_round :
          (stat err : ℕ) (buf : ℕ → ℕ) (u' : Uio) (mem' : ℕ → ℕ)
          → uiomove 0 lhd_sectsize lh.lh_buf u mem ≡ done (0, buf, u', mem')
          → u'.uio_rw ≡ u.uio_rw
          → Answers (lh.lh_card b stat buf lh.lh_hardware).0 err
          → lhd_sector b stat u mem (at_rest lh)
            ≡ done (err, u', mem', lhd_clear (operated b stat err (record lh { lh_buf = buf })))
      unfolding lhd_sector lhd_started sem_p lhd_move
      write_round stat err buf u' mem' move same a =
          let writes : is_read u.uio_rw ≡ false = ap is_read write in
          let writes' : is_read u'.uio_rw ≡ false = ap is_read (same ∙ write) in
          let run = lhd_operate-Answers b stat err (record lh { lh_buf = buf }) a in
          elim (Bool-cases (err == 0)) [
            | inl ok ↦
                let zero_err : err ≡ 0 = ground arith in
                rw (writes, move, run, ok, writes')
                  (ap
                    (λ e.
                      done
                        (e, u', mem', lhd_clear (operated b stat err (record lh { lh_buf = buf }))))
                    (sym zero_err))
            | inr bad ↦ rw (writes, move, run, bad)
          ]

    module _ {bytes : H → ℕ → ℕ → ℕ} (lt : b < lh.d_blocks) (small : lh.d_blocks < 2 ^ 32)
        (disk : IsCard lh.lh_card lh.d_blocks bytes) where
      read-Sectors : u.uio_rw ≡ uio_read → Sectors bytes b u mem lh (lhd_io u mem (at_rest lh))
      unfolding lhd_clear lhd_move
      read-Sectors read =
          let stat = start_value u.uio_rw in
          let at : start_value uio_read ≡ stat = ap start_value (sym read) in
          let q = lh.lh_card stat in
          let keeps : Keeps bytes b u lh.lh_hardware
              (lh.lh_card b stat lh.lh_buf lh.lh_hardware).2 =
            λ c i h.
              subst
                (λ v.
                  bytes (lh.lh_card b v lh.lh_buf lh.lh_hardware).2 c i ≡ bytes lh.lh_hardware c i)
                at (disk.read_keeps b lh.lh_buf lh.lh_hardware c i) in
          rw (lhd_io_round lt small) (elim (disk.finishes b stat lh.lh_buf lh.lh_hardware lt) [
            | inr media ↦
                rw (read_round read stat eio media)
                  (read_failed (operated b stat eio lh) refl read media keeps)
            | inl fine ↦
                let start = (lh.lh_card b stat lh.lh_buf lh.lh_hardware).1 in
                let holds : (i : ℕ) → start i ≡ bytes lh.lh_hardware b i =
                  subst
                    (λ v.
                      Answers (lh.lh_card b v lh.lh_buf lh.lh_hardware).0 0
                      → (i : ℕ)
                      → (lh.lh_card b v lh.lh_buf lh.lh_hardware).1 i ≡ bytes lh.lh_hardware b i)
                    at (disk.reads b lh.lh_buf lh.lh_hardware) fine in
                let res = block.block_resid in
                rw (read_round read stat 0 fine)
                  (elim (uiomove-Moves 0 lhd_sectsize start u mem block.whole (omega arith)) [
                    | Moves.failed err buf u' mem' e bad same k lk part c ↦
                        let wrong : (err == 0) ≡ false = ==_ne err 0 bad in
                        let after = operated b stat 0 lh in
                        copy_failed err u' mem' (record after { lh_buf = buf }) (rw (e, wrong)) bad
                          k lk c keeps
                    | Moves.moved buf u' mem' e m ↦
                        let after = operated b stat 0 lh in
                        sector_read start buf u' mem' (record after { lh_buf = buf }) (rw e) read
                          holds m keeps
                  ])
          ])

      write-Sectors : u.uio_rw ≡ uio_write → Sectors bytes b u mem lh (lhd_io u mem (at_rest lh))
      unfolding lhd_clear lhd_move lhd_sector sem_p
      write-Sectors write =
          let stat = start_value u.uio_rw in
          let at : start_value uio_write ≡ stat = ap start_value (sym write) in
          let writes : is_read u.uio_rw ≡ false = ap is_read write in
          let res = block.block_resid in
          rw (lhd_io_round lt small)
            (elim (uiomove-Moves 0 lhd_sectsize lh.lh_buf u mem block.whole (omega arith)) [
              | Moves.failed err buf u' mem' e bad same k lk part c ↦
                  let wrong : (err == 0) ≡ false = ==_ne err 0 bad in
                  copy_failed err u' mem' (record lh { lh_buf = buf })
                    (rw (writes, e, wrong, wrong)) bad k lk c (λ c i h. refl)
              | Moves.moved buf u' mem' e m ↦
                  let keeps : Keeps bytes b u lh.lh_hardware
                      (lh.lh_card b stat buf lh.lh_hardware).2 =
                    λ c i h. elim h [
                      | inl read ↦ absurd (no_read (sym read ∙ write))
                      | inr other ↦
                          subst
                            (λ v.
                              bytes (lh.lh_card b v buf lh.lh_hardware).2 c i
                              ≡ bytes lh.lh_hardware c i)
                            at (disk.write_keeps b buf lh.lh_hardware c i other)
                    ] in
                  elim (disk.finishes b stat buf lh.lh_hardware lt) [
                    | inr media ↦ rw (write_round write stat eio buf u' mem' e m.same_rw media) (
                        write_failed buf u' mem' (operated b stat eio (record lh { lh_buf = buf }))
                          refl write m
                          (lhd_io_empty b u u' mem mem' lh.lh_buf buf
                            (at_rest (operated b stat eio (record lh { lh_buf = buf }))) block m lt
                            small)
                          media keeps)
                    | inl fine ↦ rw (write_round write stat 0 buf u' mem' e m.same_rw fine) (
                        sector_written buf u' mem' (operated b stat 0 (record lh { lh_buf = buf }))
                          refl write m
                          (subst
                            (λ v.
                              Answers (lh.lh_card b v buf lh.lh_hardware).0 0
                              → (i : ℕ) → i < lhd_sectsize
                              → bytes (lh.lh_card b v buf lh.lh_hardware).2 b i ≡ buf i)
                            at (disk.writes b buf lh.lh_hardware) fine)
                          keeps)
                  ]
            ])
        where
          no_read : uio_read ≢ uio_write
          no_read e = cc

-- `lhd_io` of a sector that is there ends, and gives the semaphores back in every case. It answers
-- the errno of a copy to or from user space, or EIO where the card has answered a media error, or
-- moves the sector between the disk and the regions; no other sector changes. After EIO a read has
-- moved nothing; a write has advanced the uio past the sector, and with that uio a second call
-- answers 0 and does nothing.
pub lhd_io-Sectors :
    {H : Type 0} {bytes : H → ℕ → ℕ → ℕ} (b : ℕ) (u : Uio) (mem : ℕ → ℕ) (lh : LhdSoftc H)
    → IsBlockUio b u
    → b < lh.d_blocks
    → lh.d_blocks < 2 ^ 32
    → IsCard lh.lh_card lh.d_blocks bytes
    → Sectors bytes b u mem lh (lhd_io u mem (at_rest lh))
lhd_io-Sectors b u mem lh block lt small disk = elim (directions u.uio_rw) [
  | inl read ↦ read-Sectors b u mem lh block lt small disk read
  | inr write ↦ write-Sectors b u mem lh block lt small disk write
]
  where
    directions : (r : UioRw) → (r ≡ uio_read) ⊎ (r ≡ uio_write)
    directions uio_read = inl refl
    directions uio_write = inr refl
