-- ===== src/Sfs/Truncated.antt =====
-- `sfs_truncate` of kern/fs/sfs/sfs_vnode.c, case by case.
use toy_os.Common.{
  ℕ, ◌+◌, ◌-◌, ◌^◌, ◌≤◌, ◌<◌, ◌≡◌, ℕ_discrete, load_words, store_words, ◌≢◌, refl, sym, subst, ap,
  ◌∙◌, inl, inr, Bool, true, false, not, ◌&&◌, ◌||◌, done, arith, Bool-cases, ltb, leb, ◌==◌, ==_ne,
}
use toy_os.Coremap.{u32, div_round_up}
use toy_os.Sfs.{
  sfs_blocksize, sfs_ndirect, sfs_dbperidb, SfsFs, SfsVnode, set_indirect, sfs_wblock, sfs_bfree,
}
use toy_os.Sfs.Disk.{with_device, sfs_rblock-ReadsBuffer, sfs_wblock-store_words}
use toy_os.Sfs.Blocks.{used, with_map, clash, IsMounted, IsMounted-with_device}
use toy_os.Sfs.Owns.{file_blocks, entry, IsMap, IsMap-kept, Owns}
use toy_os.Sfs.Drops.{Drops, Drops-none, Drops-trans, Drops-cong, sfs_bfree-used}
use toy_os.Sfs.Truncate.{IdBlock, set_size, trunc_write, trunc_rest, sfs_truncate}
use toy_os.Sfs.Discard.{Erases, buffer_entry, trunc_direct-Erases}
use toy_os.Sfs.Scanned.{Scanned, trunc_indirect-Erases}
use toy_os.Sfs.Erase.{past_end, Truncates, truncated, shrunk, shrunk_indirect}

no_indirect : (len : ℕ) (sv : SfsVnode) → (set_size len (set_indirect 0 sv)).sv_i.sfi_indirect ≡ 0
unfolding set_size set_indirect
no_indirect len sv = refl

size_set : (len : ℕ) (sv : SfsVnode) → (set_size len sv).sv_i.sfi_size ≡ u32 len
unfolding set_size
size_set len sv = refl

-- What the buffer holds fits the words of the disk.
buffered_small :
    {n ind : ℕ} {u : ℕ → Bool} (sv : SfsVnode) (idbuf : ℕ → ℕ)
    → n ≤ 2 ^ 32
    → IsMap n u (buffer_entry sv idbuf) ind
    → (k : ℕ) → k < sfs_dbperidb
    → idbuf k < 2 ^ 32
buffered_small sv idbuf fits map k lk = elim (ℕ_discrete (idbuf k) 0) [
  | yes z ↦ omega arith
  | no some_block ↦
      let up : ltb (sfs_ndirect + k) sfs_ndirect ≡ false = ground arith in
      let back : sfs_ndirect + k - sfs_ndirect ≡ k = omega arith in
      let at : buffer_entry sv idbuf (sfs_ndirect + k) ≡ idbuf k = rw (up, back) in
      let (small, in_use) =
        map.entries (sfs_ndirect + k) (omega arith) (λ z. some_block (sym at ∙ z)) in
      omega (arith, small, at, fits)
]

module _ {D : Type 0} {word : D → ℕ → ℕ → ℕ} (len blocklen : ℕ) (s : SfsFs D) (sv : SfsVnode) where
  module _ (c : IdBlock) (sv1 : SfsVnode) (t : SfsFs D) (ind : ℕ) (at : sv.sv_i.sfi_indirect ≡ ind)
      (at1 : sv1.sv_i.sfi_indirect ≡ ind) (there : ind ≢ 0) (m : IsMounted word t)
      (n : t.sp_nblocks ≡ s.sp_nblocks)
      (map : IsMap t.sp_nblocks (used t) (buffer_entry sv1 c.idbuf) ind)
      (d : Drops (past_end blocklen) (used s) (entry word s sv) (used t) (buffer_entry sv1 c.idbuf))
      (words : (b i : ℕ) → word t.sfs_device b i ≡ word s.sfs_device b i) where
    -- The indirect block holds what the buffer does.
    same_as_buffer :
        (u : SfsFs D)
        → ((k : ℕ) → k < sfs_dbperidb → word u.sfs_device ind k ≡ c.idbuf k)
        → (i : ℕ) → i < file_blocks
        → entry word u sv1 i ≡ buffer_entry sv1 c.idbuf i
    same_as_buffer u holds i lt =
        let some_indirect : (ind == 0) ≡ false = ==_ne ind 0 there in
        let some_indirect1 : (sv1.sv_i.sfi_indirect == 0) ≡ false =
          ap (λ k. k == 0) at1 ∙ some_indirect in
        elim (Bool-cases (ltb i sfs_ndirect)) [
          | inl low ↦ rw low
          | inr up ↦
              rw (up, some_indirect1)
                (ap (λ k. word u.sfs_device k (i - sfs_ndirect)) at1
                  ∙ holds (i - sfs_ndirect) (ground arith))
        ]

    no_entry :
        (u : SfsFs D)
        → ((k : ℕ) → k < sfs_dbperidb → c.idbuf k ≡ 0)
        → (i : ℕ) → i < file_blocks
        → entry word u (set_size len (set_indirect 0 sv1)) i ≡ buffer_entry sv1 c.idbuf i
    unfolding set_size set_indirect
    no_entry u zero_all i lt = elim (Bool-cases (ltb i sfs_ndirect)) [
      | inl low ↦ rw low
      | inr up ↦ rw up (sym (zero_all (i - sfs_ndirect) (ground arith)))
    ]

    pub trunc_write-Truncates :
        (c.hasnonzero ≡ false → (k : ℕ) → k < sfs_dbperidb → c.idbuf k ≡ 0)
        → (c.iddirty ≡ false → (k : ℕ) → k < sfs_dbperidb → word t.sfs_device ind k ≡ c.idbuf k)
        → Truncates word len blocklen s sv (trunc_write len c sv1 t)
    unfolding trunc_write set_size
    trunc_write-Truncates zeros clean =
        let (small, in_use) = map.indirect there in
        elim (Bool-cases c.hasnonzero) [
          | inr empty ↦
              let (f, run, mounted, bits) = sfs_bfree-used ind t m small in_use there in
              let freed : sfs_bfree sv1.sv_i.sfi_indirect t ≡ done (with_map t f) =
                subst (λ k. sfs_bfree k t ≡ done (with_map t f)) (sym at1) run in
              truncated (set_size len (set_indirect 0 sv1)) (with_map t f) (rw (empty, freed))
                (size_set len (set_indirect 0 sv1))
                (shrunk_indirect len blocklen s sv ind t (with_map t f)
                  (set_size len (set_indirect 0 sv1)) (buffer_entry sv1 c.idbuf) mounted n refl at
                  (no_indirect len sv1) map d bits (no_entry (with_map t f) (zeros empty))
                  (λ b i other. words b i))
          | inl some_left ↦ elim (Bool-cases c.iddirty) [
            | inr same ↦ truncated (set_size len sv1) t (rw (some_left, same)) refl (
                shrunk len blocklen s sv ind t (set_size len sv1) (buffer_entry sv1 c.idbuf) m n at
                  at1 map d (same_as_buffer t (clean same)) (λ b i other. words b i))
            | inl dirty ↦
                let (err, dev, run, wrote, keeps, blame) =
                  sfs_wblock-store_words c.idbuf ind t m.device (omega (arith, small, m.fits))
                    (buffered_small sv1 c.idbuf m.word_sized map) in
                let written : sfs_wblock (store_words c.idbuf) sv1.sv_i.sfi_indirect t
                    ≡ done (err, with_device t dev) =
                  subst (λ k. sfs_wblock (store_words c.idbuf) k t ≡ done (err, with_device t dev))
                    (sym at1) run in
                let u = with_device t dev in
                let mounted = IsMounted-with_device t dev m in
                elim (Bool-cases (err == 0)) [
                  | inr bad ↦
                      Truncates.failed err sv1 u (rw (some_left, dirty, written, bad))
                        (λ z. ground arith) mounted d.no_more blame
                  | inl ok ↦
                      truncated (set_size len sv1) u (rw (some_left, dirty, written, ok)) refl (
                        shrunk len blocklen s sv ind u (set_size len sv1) (buffer_entry sv1 c.idbuf)
                          mounted n at at1 map d (same_as_buffer u (wrote (ground arith)))
                          (λ b i other. keeps b i (λ z. other (sym z ∙ sym at)) ∙ words b i))
                ]
          ]
        ]

  -- Behind the loop over the direct blocks.
  module _ (sv1 : SfsVnode) (s1 : SfsFs D) (at1 : sv1.sv_i.sfi_indirect ≡ sv.sv_i.sfi_indirect)
      (x : Erases word
        (λ j. (leb 0 j && ltb j sfs_ndirect) && leb blocklen j)
        sv.sv_i.sfi_indirect
        s
        (entry word s sv)
        s1
        (entry word s1 sv1)) where
    abbrev above : ℕ → Bool
    above i = leb (sfs_ndirect + 0) i && ltb blocklen i

    both_loops :
        (i : ℕ)
        → i < file_blocks
        → (((leb 0 i && ltb i sfs_ndirect) && leb blocklen i) || above i) ≡ past_end blocklen i
    both_loops i lt = ground arith

    no_indirect_entry :
        (ltb blocklen (sfs_ndirect + sfs_dbperidb - 1) && not (sv1.sv_i.sfi_indirect == 0)) ≡ false
        → (i : ℕ) → i < file_blocks
        → above i ≡ true
        → entry word s1 sv1 i ≡ 0
    no_indirect_entry e i lt h =
        let up : ltb i sfs_ndirect ≡ false = ground arith in
        let missing : (sv1.sv_i.sfi_indirect == 0) ≡ true = ground arith in rw (up, missing)

    kept_truncated :
        (ltb blocklen (sfs_ndirect + sfs_dbperidb - 1) && not (sv1.sv_i.sfi_indirect == 0)) ≡ false
        → Truncates word len blocklen s sv (done (0, set_size len sv1, s1))
    unfolding set_size
    kept_truncated e = truncated (set_size len sv1) s1 refl refl (
        shrunk len blocklen s sv sv.sv_i.sfi_indirect s1 (set_size len sv1) (entry word s1 sv1)
          x.mounted x.same_nblocks refl at1 x.map
          (Drops-cong both_loops
            (Drops-trans x.drops (Drops-none (no_indirect_entry e) (λ i lt. refl))))
          (λ i lt. refl) (λ c i other. ap (λ d. word d c i) x.same_device))

    module _ (there : sv1.sv_i.sfi_indirect ≢ 0) (buf : ℕ → ℕ) (dev : D)
        (read : (i : ℕ) → i < sfs_dbperidb → buf i ≡ word s1.sfs_device sv1.sv_i.sfi_indirect i)
        (keeps : (c i : ℕ) → word dev c i ≡ word s1.sfs_device c i) where
      buffer_read : (i : ℕ) → i < file_blocks → buffer_entry sv1 buf i ≡ entry word s1 sv1 i
      buffer_read i lt =
          let some_indirect : (sv1.sv_i.sfi_indirect == 0) ≡ false = ==_ne _ 0 there in
          elim (Bool-cases (ltb i sfs_ndirect)) [
            | inl low ↦ rw low
            | inr up ↦ rw (up, some_indirect) (read (i - sfs_ndirect) (ground arith))
          ]

      abbrev first : IdBlock
      first = record { idbuf = buf; hasnonzero = false; iddirty = false }

      Scanned-Truncates :
          (c : IdBlock) (t : SfsFs D)
          → Scanned 0 sfs_dbperidb first c
          → Erases word above sv.sv_i.sfi_indirect
              (with_device s1 dev)
              (buffer_entry sv1 buf)
              t
              (buffer_entry sv1 c.idbuf)
          → Truncates word len blocklen s sv (trunc_write len c sv1 t)
      Scanned-Truncates c t known y =
          let same : (b i : ℕ) → word t.sfs_device b i ≡ word s1.sfs_device b i =
            λ b i. ap (λ d. word d b i) y.same_device ∙ keeps b i in
          trunc_write-Truncates c sv1 t sv.sv_i.sfi_indirect refl at1 (λ z. there (at1 ∙ z))
            y.mounted (y.same_nblocks ∙ x.same_nblocks) y.map
            (Drops-cong both_loops (
              Drops-trans x.drops (
                Drops-cong (λ i lt. refl)
                  (Drops-trans
                    (Drops-none {p = λ i. false} (λ i lt h. absurd (clash h refl)) buffer_read)
                    y.drops))))
            (λ b i. same b i ∙ ap (λ d. word d b i) x.same_device)
            (λ h k lk. (known.all_zero h).1 k (omega arith) lk)
            (λ h k lk.
              same sv.sv_i.sfi_indirect k
              ∙ (ap (λ b. word s1.sfs_device b k) (sym at1)
                  ∙ (sym (read k lk) ∙ sym ((known.clean h).1 k))))

    trunc_rest-Truncates : Truncates word len blocklen s sv (trunc_rest len blocklen sv1 s1)
    unfolding trunc_rest
    trunc_rest-Truncates =
        let ind1 = sv1.sv_i.sfi_indirect in
        elim (Bool-cases (ltb blocklen (sfs_ndirect + sfs_dbperidb - 1) && not (ind1 == 0))) [
          | inr e ↦ rw e (kept_truncated e)
          | inl e ↦
              let there : ind1 ≢ 0 = λ z. ground arith in
              let (small, in_use) = x.map.indirect (λ z. there (at1 ∙ z)) in
              let inside : ind1 < x.mounted.size = omega (arith, small, at1, x.mounted.fits) in
              let r = sfs_rblock-ReadsBuffer ind1 s1 x.mounted.device inside in
              let s2 = with_device s1 r.device in
              let mounted = IsMounted-with_device s1 r.device x.mounted in
              elim (Bool-cases (r.err == 0)) [
                | inr bad ↦
                    Truncates.failed r.err sv1 s2 (rw (e, r.ends, bad)) (λ z. ground arith) mounted
                      x.drops.no_more r.blame
                | inl ok ↦
                    let read = r.read_data (ground arith) in
                    let map0 =
                      IsMap-kept x.map (used s2) (buffer_entry sv1 (load_words r.buf)) (λ b h. h)
                        (buffer_read there (load_words r.buf) r.device read r.keeps) in
                    let (c, t, run, known, y) =
                      trunc_indirect-Erases blocklen sv.sv_i.sfi_indirect sv1 sfs_dbperidb 0
                        (first there (load_words r.buf) r.device read r.keeps) s2 refl mounted
                        map0 in
                    rw (e, r.ends, ok, run)
                      (Scanned-Truncates there (load_words r.buf) r.device read r.keeps c t known y)
              ]
        ]

-- `sfs_truncate` of a file on a mounted volume, on a device that leaves the uio and its memory
-- alone after an I/O error, fails no KASSERT. It answers an errno of the device, having taken no
-- block, or sets the size. Then the file's blocks past the new end are gone and free, the others
-- are what they were, and so are the blocks of other files, in the free map and on the device. Of
-- the blocks that stand in the indirect block, the one at the new length itself stays.
pub sfs_truncate-Truncates :
    {D : Type 0} {word : D → ℕ → ℕ → ℕ} (len : ℕ) (sv : SfsVnode) (s : SfsFs D)
    → IsMounted word s
    → Owns word s sv
    → Truncates word len (u32 (div_round_up len sfs_blocksize)) s sv (sfs_truncate len sv s)
unfolding sfs_truncate
sfs_truncate-Truncates len sv s m o =
    let blocklen = u32 (div_round_up len sfs_blocksize) in
    let (sv1, s1, run, at1, x) =
      trunc_direct-Erases sfs_ndirect 0 blocklen sv.sv_i.sfi_indirect sv s refl refl m o in
    rw run (trunc_rest-Truncates len blocklen s sv sv1 s1 at1 x)
