-- ===== src/Sfs/Bmap.antt =====
-- `sfs_bmap` of kern/fs/sfs/sfs_vnode.c.
use toy_os.Common.{
  ℕ, ◌-◌, ◌^◌, ◌≤◌, ◌<◌, ◌≡◌, ◌≢◌, refl, sym, subst, ap, ◌∙◌, ◌⊎◌, inl, inr, Bool, true, false,
  ◌&&◌, done, arith, Bool-cases, ltb, leb, ◌==◌, if◌then◌else◌, update, ==_ne, ==_self, ℕ_discrete,
}
use toy_os.Bitmap
use toy_os.Sfs.{
  sfs_ndirect, sfs_dbperidb, SfsFs, SfsVnode, set_direct, sfs_bused, hand_back, bmap_direct,
  bmap_entry,
}
use toy_os.Sfs.Disk.{with_device, sfs_wblock-store_words}
use toy_os.Sfs.Blocks.{
  device_failed, used, clash, IsMounted, IsMounted-with_device, Grows, TakesBlock, Ballocs,
  takes_block, sfs_balloc-Ballocs,
}
use toy_os.Sfs.Owns.{file_blocks, entry, IsMap, IsMap-entry, Owns}
use toy_os.Sfs.Mapped.{Spares, Bmaps, maps}

pub hand_back_lem :
    {D : Type 0} (block : ℕ) (sv : SfsVnode) (s : SfsFs D)
    → (block ≢ 0 → (block < s.sp_nblocks) × (used s block ≡ true))
    → hand_back block sv s ≡ done (0, block, sv, s)
unfolding hand_back sfs_bused
hand_back_lem block sv s h = elim (ℕ_discrete block 0) [
  | yes z ↦ let nothing : (block == 0) ≡ true = ground arith in rw nothing
  | no some_block ↦
      let (small, in_use) = h some_block in
      let there : (block == 0) ≡ false = ==_ne block 0 some_block in
      let inside : leb s.sp_nblocks block ≡ false = ground arith in rw (there, inside, in_use)
]

module _ {D : Type 0} {word : D → ℕ → ℕ → ℕ} where
  pub Grows-Spares : {s t : SfsFs D} {sv : SfsVnode} → Grows word s t → Spares word s sv t
  Grows-Spares g = record {
    mounted = g.mounted;
    same_nblocks = g.same_nblocks;
    still_used = g.still_used;
    words_kept = λ b i h other. g.words_kept b i h;
  }

  module _ (s : SfsFs D) (sv : SfsVnode) (i : ℕ) (doalloc : Bool) (m : IsMounted word s)
      (o : Owns word s sv) (lt : i < file_blocks) where
    -- The block is there, or none is wanted.
    pub found-Bmaps :
        (block : ℕ)
        → block ≡ entry word s sv i
        → (doalloc ≡ true → block ≢ 0)
        → Bmaps word s sv i doalloc (hand_back block sv s)
    found-Bmaps block e alloc =
        let there = hand_back_lem block sv s (λ h.
          subst (λ k. (k < s.sp_nblocks) × (used s k ≡ true)) (sym e)
            (o.entries i lt (λ z. h (e ∙ z)))) in
        maps block sv s there (record {
          spares = record {
            mounted = m;
            same_nblocks = refl;
            still_used = λ b h. h;
            words_kept = λ b k h other. refl;
          };
          owns = o;
          here = sym e;
          others = λ j lj other. refl;
          old = λ h. e;
          allocated = alloc;
          unchanged = λ h. (refl, refl);
          same_size = refl;
          spared = λ b h other. other;
          fresh = λ h nonzero. absurd (nonzero (e ∙ h));
        })

    wanted : {block : ℕ} → (block == 0 && doalloc) ≡ false → doalloc ≡ true → block ≢ 0
    wanted e a z = ground arith

    -- A new block, written to the inode or to the indirect block.
    new-Bmaps :
        (block : ℕ) (u : SfsFs D) (sv' : SfsVnode) (t : SfsFs D)
        → TakesBlock word s u block
        → t.sfs_freemap ≡ u.sfs_freemap
        → entry word s sv i ≡ 0
        → doalloc ≡ true
        → Spares word s sv t
        → sv'.sv_i.sfi_indirect ≡ sv.sv_i.sfi_indirect
        → sv'.sv_i.sfi_size ≡ sv.sv_i.sfi_size
        → ((k : ℕ) → k < sfs_dbperidb → word t.sfs_device block k ≡ 0)
        → ((j : ℕ)
            → j < file_blocks
            → entry word t sv' j ≡ (if i == j then block else entry word s sv j))
        → Bmaps word s sv i doalloc (hand_back block sv' t)
    new-Bmaps block u sv' t b same_map none_yet alloc spares same_ind same_size zeros there =
        let bits : (c : ℕ) → used t c ≡ (if block == c then true else used s c) =
          λ c. ap (λ k. Bitmap.bitmap_isset k c) same_map ∙ b.bits c in
        let at : entry word t sv' i ≡ block = there i lt ∙ rw (==_self i) in
        let map =
          IsMap-entry o (used t) (entry word t sv') i block lt b.was_free b.nonzero b.in_range bits
            there in
        let small : block < t.sp_nblocks = omega (arith, b.in_range, spares.same_nblocks) in
        maps block sv' t (hand_back_lem block sv' t (λ h. (small, bits block ∙ rw (==_self block))))
          (record {
            spares = spares;
            owns =
                subst (λ n. IsMap n (used t) (entry word t sv') sv'.sv_i.sfi_indirect)
                  (sym spares.same_nblocks)
                  (subst (λ k. IsMap s.sp_nblocks (used t) (entry word t sv') k) (sym same_ind)
                    map);
            here = at;
            others =
                λ j lj other. there j lj ∙ (let off : (i == j) ≡ false = ==_ne i j other in rw off);
            old = λ h. absurd (h none_yet);
            allocated = λ a. b.nonzero;
            unchanged = λ a. absurd (clash alloc a);
            same_size = same_size;
            spared = λ c h other. subst (λ k. (c ≢ k) ⊎ (c ≡ 0)) (sym same_ind) other;
            fresh = λ h nonzero. (b.was_free, zeros);
          })

    direct_entry :
        (b : ℕ) (u : SfsFs D)
        → Grows word s u
        → i < sfs_ndirect
        → (j : ℕ) → j < file_blocks
        → entry word u (set_direct i b sv) j ≡ (if i == j then b else entry word s sv j)
    unfolding set_direct
    direct_entry b u g direct j lj = elim (Bool-cases (ltb j sfs_ndirect)) [
      | inl low ↦ rw low
      | inr high ↦
          let off : (i == j) ≡ false = ground arith in
          elim (Bool-cases (sv.sv_i.sfi_indirect == 0)) [
            | inl none_yet ↦ rw (high, off, none_yet)
            | inr there ↦
                rw (high, off, there)
                  (g.words_kept sv.sv_i.sfi_indirect (j - sfs_ndirect)
                    (o.indirect (λ z. ground arith)).1)
          ]
    ]

    pub bmap_direct-Bmaps : i < sfs_ndirect → Bmaps word s sv i doalloc (bmap_direct i doalloc sv s)
    unfolding bmap_direct set_direct
    bmap_direct-Bmaps direct =
        let block = sv.sv_i.sfi_direct i in
        let low : ltb i sfs_ndirect ≡ true = ground arith in
        let same : block ≡ entry word s sv i = rw low in
        elim (Bool-cases (block == 0 && doalloc)) [
          | inr e ↦ rw e (found-Bmaps block same (wanted e))
          | inl e ↦ elim (sfs_balloc-Ballocs s m) [
            | Ballocs.failed err b u run bad g why ↦
                Bmaps.failed err sv u (rw (e, run, bad)) (λ z. ground arith) (Grows-Spares g) why
            | takes_block b u run taken ↦
                let none_yet : entry word s sv i ≡ 0 = rw low (ground arith) in
                rw (e, run)
                  (new-Bmaps b u (set_direct i b sv) u taken refl none_yet (ground arith)
                    (Grows-Spares taken.grows) refl refl taken.zeros
                    (λ j lj. direct_entry b u taken.grows direct j lj))
          ]
        ]

    module _ (high : sfs_ndirect ≤ i) (there : sv.sv_i.sfi_indirect ≢ 0) where
      -- The entry of the block, written to the indirect block.
      indirect_entry :
          (idbuf : ℕ → ℕ) (b : ℕ) (u : SfsFs D) (d : D)
          → ((k : ℕ) → k < sfs_dbperidb → idbuf k ≡ word s.sfs_device sv.sv_i.sfi_indirect k)
          → ((k : ℕ)
              → k < sfs_dbperidb
              → word d sv.sv_i.sfi_indirect k ≡ update idbuf (i - sfs_ndirect) b k)
          → (j : ℕ) → j < file_blocks
          → entry word (with_device u d) sv j ≡ (if i == j then b else entry word s sv j)
      indirect_entry idbuf b u d read wrote j lj =
          let some_indirect : (sv.sv_i.sfi_indirect == 0) ≡ false = ==_ne _ 0 there in
          elim (Bool-cases (ltb j sfs_ndirect)) [
            | inl low ↦ let off : (i == j) ≡ false = ground arith in rw (low, off)
            | inr up ↦ elim (Bool-cases (i == j)) [
              | inl e ↦
                  let hit : (i - sfs_ndirect == j - sfs_ndirect) ≡ true = ground arith in
                  rw (up, some_indirect, e) (wrote (j - sfs_ndirect) (ground arith) ∙ rw hit)
              | inr e ↦
                  let miss : (i - sfs_ndirect == j - sfs_ndirect) ≡ false = ground arith in
                  rw (up, some_indirect, e)
                    (wrote (j - sfs_ndirect) (ground arith)
                      ∙ (rw miss (read (j - sfs_ndirect) (ground arith))))
            ]
          ]

      written_small :
          (idbuf : ℕ → ℕ) (b : ℕ)
          → b < s.sp_nblocks
          → ((k : ℕ) → k < sfs_dbperidb → idbuf k ≡ word s.sfs_device sv.sv_i.sfi_indirect k)
          → (k : ℕ) → k < sfs_dbperidb
          → update idbuf (i - sfs_ndirect) b k < 2 ^ 32
      written_small idbuf b small read k lk = elim (Bool-cases (i - sfs_ndirect == k)) [
        | inl e ↦ rw e (omega (arith, small, m.word_sized))
        | inr e ↦ rw e (
            subst (λ w. w < 2 ^ 32) (sym (read k lk))
              (m.device.word_small s.sfs_device sv.sv_i.sfi_indirect k))
      ]

      spared_block : (b : ℕ) → (b ≢ sv.sv_i.sfi_indirect) ⊎ (b ≡ 0) → sv.sv_i.sfi_indirect ≢ b
      spared_block b (inl h) e = h (sym e)
      spared_block b (inr h) e = there (e ∙ h)

      pub bmap_entry-Bmaps :
          (idbuf : ℕ → ℕ)
          → ((k : ℕ) → k < sfs_dbperidb → idbuf k ≡ word s.sfs_device sv.sv_i.sfi_indirect k)
          → Bmaps word s sv i doalloc
              (bmap_entry sv.sv_i.sfi_indirect (i - sfs_ndirect) idbuf doalloc sv s)
      unfolding bmap_entry
      bmap_entry-Bmaps idbuf read =
          let ind = sv.sv_i.sfi_indirect in
          let up : ltb i sfs_ndirect ≡ false = ground arith in
          let some_indirect : (ind == 0) ≡ false = ==_ne _ 0 there in
          let same : idbuf (i - sfs_ndirect) ≡ entry word s sv i =
            rw (up, some_indirect) (read (i - sfs_ndirect) (omega arith)) in
          elim (Bool-cases (idbuf (i - sfs_ndirect) == 0 && doalloc)) [
            | inr e ↦ rw e (found-Bmaps (idbuf (i - sfs_ndirect)) same (wanted e))
            | inl e ↦ elim (sfs_balloc-Ballocs s m) [
              | Ballocs.failed err b u run bad g why ↦
                  Bmaps.failed err sv u (rw (e, run, bad)) (λ z. ground arith) (Grows-Spares g) why
              | takes_block b u run taken ↦
                  let um = taken.grows.mounted in
                  let (small, in_use) = o.indirect there in
                  let (err, d, ends, wrote, keeps, blame) =
                    sfs_wblock-store_words (update idbuf (i - sfs_ndirect) b) ind u um.device
                      (omega (arith, small, taken.grows.same_nblocks, um.fits))
                      (λ k lk. written_small idbuf b taken.in_range read k lk) in
                  let t = with_device u d in
                  let spares : Spares word s sv t = record {
                    mounted = IsMounted-with_device u d um;
                    same_nblocks = taken.grows.same_nblocks;
                    still_used = taken.grows.still_used;
                    words_kept = λ c k h other.
                        keeps c k (spared_block c other) ∙ taken.grows.words_kept c k h;
                  } in
                  let none_yet : entry word s sv i ≡ 0 = sym same ∙ (ground arith) in
                  elim (Bool-cases (err == 0)) [
                    | inr bad ↦
                        Bmaps.failed err sv t (rw (e, run, ends, bad)) (λ z. ground arith) spares
                          (device_failed blame)
                    | inl ok ↦
                        let apart : ind ≢ b = λ q. clash in_use (ap (used s) q ∙ taken.was_free) in
                        rw (e, run, ends, ok)
                          (new-Bmaps b u sv t taken refl none_yet (ground arith) spares refl refl
                            (λ k lk. keeps b k apart ∙ taken.zeros k lk)
                            (indirect_entry idbuf b u d read (wrote (ground arith))))
                  ]
            ]
          ]
