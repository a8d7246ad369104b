-- ===== src/Sfs/Indirect.antt =====
-- `sfs_bmap` of kern/fs/sfs/sfs_vnode.c: the indirect block, and all cases together.
use toy_os.Common.{
  ℕ, ◌-◌, ◌/◌, ◌%◌, ◌≤◌, ◌<◌, ◌≡◌, refl, sym, subst, ap, ◌∙◌, ◌⊎◌, inl, inr, Bool, true, false,
  done, arith, load_words, Bool-cases, ltb, ◌==◌, ==_ne, ℕ_discrete,
}
use toy_os.Sfs.{
  efbig, sfs_ndirect, sfs_dbperidb, SfsFs, SfsVnode, set_indirect, bmap_entry, bmap_indirect,
  sfs_bmap,
}
use toy_os.Sfs.Disk.{with_device, sfs_rblock-ReadsBuffer}
use toy_os.Sfs.Blocks.{
  device_failed, used, clash, IsMounted, IsMounted-with_device, TakesBlock, Ballocs, takes_block,
  sfs_balloc-Ballocs,
}
use toy_os.Sfs.Owns.{file_blocks, entry, IsMap, IsMap-kept, IsMap-indirect, Owns}
use toy_os.Sfs.Bmap.{hand_back_lem, found-Bmaps, Grows-Spares, bmap_direct-Bmaps, bmap_entry-Bmaps}
use toy_os.Sfs.Mapped.{Bmaps, Extends, Bmaps-Extends}

module _ {D : Type 0} {word : D → ℕ → ℕ → ℕ} where
  module _ (s : SfsFs D) (sv : SfsVnode) (doalloc : Bool) (m : IsMounted word s)
      (o : Owns word s sv) where
    -- The indirect block is new.
    module _ (b : ℕ) (u : SfsFs D) (taken : TakesBlock word s u b)
        (none_yet : sv.sv_i.sfi_indirect ≡ 0) where
      new_entry : (j : ℕ) → j < file_blocks → entry word u (set_indirect b sv) j ≡ entry word s sv j
      unfolding set_indirect
      new_entry j lj =
          let fresh : (b == 0) ≡ false = ==_ne b 0 taken.nonzero in
          let missing : (sv.sv_i.sfi_indirect == 0) ≡ true = ground arith in
          elim (Bool-cases (ltb j sfs_ndirect)) [
            | inl low ↦ rw low
            | inr up ↦ rw (up, fresh, missing) (taken.zeros (j - sfs_ndirect) (ground arith))
          ]

      new_indirect-Owns : Owns word u (set_indirect b sv)
      unfolding set_indirect
      new_indirect-Owns =
          subst (λ n. IsMap n (used u) (entry word u (set_indirect b sv)) b)
            (sym taken.grows.same_nblocks)
            (IsMap-indirect o (used u) (entry word u (set_indirect b sv)) b taken.was_free
              taken.in_range taken.bits new_entry)

      new_indirect-Extends : doalloc ≡ true → Extends word s sv doalloc u (set_indirect b sv)
      unfolding set_indirect
      new_indirect-Extends alloc = record {
        grows = taken.grows;
        same_entry = new_entry;
        spared = λ c h other. inl (λ e. clash h (ap (used s) e ∙ taken.was_free));
        same_size = refl;
        same_if = λ h. absurd (clash alloc h);
      }

    -- The indirect block has been read.
    module _ (d : D) (keeps : (c i : ℕ) → word d c i ≡ word s.sfs_device c i) where
      same_entries :
          (j : ℕ) → j < file_blocks → entry word (with_device s d) sv j ≡ entry word s sv j
      same_entries j lj = elim (Bool-cases (ltb j sfs_ndirect)) [
        | inl low ↦ rw low
        | inr up ↦ elim (Bool-cases (sv.sv_i.sfi_indirect == 0)) [
          | inl missing ↦ rw (up, missing)
          | inr there ↦ rw (up, there) (keeps sv.sv_i.sfi_indirect (j - sfs_ndirect))
        ]
      ]

      read-Extends : Extends word s sv doalloc (with_device s d) sv
      read-Extends = record {
        grows = record {
          mounted = IsMounted-with_device s d m;
          same_nblocks = refl;
          still_used = λ b h. h;
          words_kept = λ b i h. keeps b i;
        };
        same_entry = same_entries;
        spared = λ b h other. other;
        same_size = refl;
        same_if = λ h. (refl, refl);
      }

    new_block-Bmaps :
        (i b : ℕ) (u : SfsFs D)
        → i < file_blocks
        → sfs_ndirect ≤ i
        → TakesBlock word s u b
        → sv.sv_i.sfi_indirect ≡ 0
        → Bmaps word u
            (set_indirect b sv)
            i
            doalloc
            (bmap_entry b (i - sfs_ndirect) (λ k. 0) doalloc (set_indirect b sv) u)
    unfolding set_indirect
    new_block-Bmaps i b u lt high taken missing =
        bmap_entry-Bmaps u (set_indirect b sv) i doalloc taken.grows.mounted
          (new_indirect-Owns b u taken missing) lt high taken.nonzero (λ k. 0)
          (λ k lk. sym (taken.zeros k lk))

    bmap_indirect-Bmaps :
        (i : ℕ)
        → i < file_blocks
        → sfs_ndirect ≤ i
        → Bmaps word s sv i doalloc (bmap_indirect (i - sfs_ndirect) doalloc sv s)
    unfolding bmap_indirect
    bmap_indirect-Bmaps i lt high =
        let ind = sv.sv_i.sfi_indirect in
        let up : ltb i sfs_ndirect ≡ false = ground arith in
        elim (ℕ_discrete ind 0) [
          | no there ↦
              let some_indirect : (ind == 0) ≡ false = ==_ne ind 0 there in
              let (small, in_use) = o.indirect there in
              let r = sfs_rblock-ReadsBuffer ind s m.device (omega (arith, small, m.fits)) in
              let x = read-Extends r.device r.keeps in
              elim (Bool-cases (r.err == 0)) [
                | inr bad ↦
                    Bmaps.failed r.err sv (with_device s r.device) (rw (some_indirect, r.ends, bad))
                      (λ z. ground arith) (Grows-Spares x.grows) (device_failed r.blame)
                | inl ok ↦
                    let s1 = with_device s r.device in
                    let o1 =
                      IsMap-kept o (used s1) (entry word s1 sv) (λ b h. h)
                        (same_entries r.device r.keeps) in
                    rw (some_indirect, r.ends, ok)
                      (Bmaps-Extends i lt x (
                        bmap_entry-Bmaps s1 sv i doalloc x.grows.mounted o1 lt high there
                          (load_words r.buf)
                          (λ k lk. r.read_data (ground arith) k lk ∙ sym (r.keeps ind k))))
              ]
          | yes missing ↦
              let none_yet : (ind == 0) ≡ true = ground arith in
              elim (Bool-cases doalloc) [
                | inr keep ↦
                    let nothing : 0 ≡ entry word s sv i = rw (up, none_yet) in
                    rw (none_yet, keep)
                      (rw keep at (
                        subst (Bmaps word s sv i doalloc)
                          (hand_back_lem 0 sv s (λ h. absurd (h refl)))
                          (found-Bmaps s sv i doalloc m o lt 0 nothing
                            (λ a. absurd (clash a keep)))))
                | inl alloc ↦ elim (sfs_balloc-Ballocs s m) [
                  | Ballocs.failed err b u run bad g why ↦
                      Bmaps.failed err sv u (rw (none_yet, alloc, run, bad)) (λ z. ground arith)
                        (Grows-Spares g) why
                  | takes_block b u run taken ↦
                      rw (none_yet, alloc, run)
                        (rw alloc at (
                          Bmaps-Extends i lt (new_indirect-Extends b u taken missing alloc)
                            (new_block-Bmaps i b u lt high taken missing)))
                ]
              ]
        ]

    -- `sfs_bmap` of a file on a mounted volume, on a device that leaves the uio and its memory
    -- alone after an I/O error, fails no KASSERT and does not panic. A block past the last that a
    -- file can have is EFBIG, and nothing changes. Else it answers ENOSPC on a full volume, or an
    -- errno of the device, or gives the block's number as the inode and the indirect block then
    -- name it: what was there, or a block that was free and holds zeros, the other blocks of the
    -- file being what they were. Every block in use stays so, no two of the file's are the same,
    -- and what they hold is kept, but for the indirect block.
    pub sfs_bmap-Bmaps :
        (i : ℕ)
        → ((file_blocks ≤ i) × (sfs_bmap i doalloc sv s ≡ done (efbig, 0, sv, s)))
          ⊎ ((i < file_blocks) × Bmaps word s sv i doalloc (sfs_bmap i doalloc sv s))
    unfolding sfs_bmap
    sfs_bmap-Bmaps i = elim (Bool-cases (ltb i sfs_ndirect)) [
      | inl low ↦ inr (
        ground arith,
        rw low (bmap_direct-Bmaps s sv i doalloc m o (ground arith) (ground arith)),
      )
      | inr up ↦ elim (Bool-cases (ltb 0 ((i - sfs_ndirect) / sfs_dbperidb))) [
        | inl big ↦ inl (ground arith, rw (up, big))
        | inr fits ↦
            let lt : i < file_blocks = ground arith in
            let whole : (i - sfs_ndirect) % sfs_dbperidb ≡ i - sfs_ndirect = ground arith in
            inr (lt, rw (up, fits, whole) (bmap_indirect-Bmaps i lt (ground arith)))
      ]
    ]
