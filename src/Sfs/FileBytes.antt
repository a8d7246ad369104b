-- ===== src/Sfs/FileBytes.antt =====
-- The bytes of a file of kern/fs/sfs/sfs_vnode.c, and what reading and writing blocks does to them.
use toy_os.Common.{
  ℕ, ◌-◌, ◌/◌, ◌%◌, ◌<◌, ◌≡◌, ◌≢◌, refl, sym, ap, ◌∙◌, ◌⊎◌, inl, inr, Bool, true, false, not, ◌&&◌,
  arith, Bool-cases, ltb, ◌==◌, if◌then◌else◌, ==_ne, ℕ_discrete, dec_lt, load_words, store_words,
  store_words-load_words, word_byte,
}
use toy_os.Sfs.{sfs_blocksize, sfs_ndirect, sfs_dbperidb, SfsFs, SfsVnode}
use toy_os.Sfs.Disk.{with_device}
use toy_os.Sfs.Blocks.{used, clash, IsMounted, IsMounted-with_device}
use toy_os.Sfs.Owns.{file_blocks, entry, IsMap-kept, Owns}
use toy_os.Sfs.Mapped.{Spares, Mapped}

-- The byte `j` of a file that has it in the block `b`, of words `w`; 0 where there is no block.
abbrev pub block_byte : (ℕ → ℕ → ℕ) → ℕ → ℕ → ℕ
block_byte w b j =
    if not (b == 0) && ltb (j / sfs_blocksize) file_blocks
    then store_words (w b) (j % sfs_blocksize)
    else 0

abbrev pub fbyte : {D : Type 0} → (D → ℕ → ℕ → ℕ) → SfsFs D → SfsVnode → ℕ → ℕ
fbyte word s sv j = block_byte (word s.sfs_device) (entry word s sv (j / sfs_blocksize)) j

block_byte_cong :
    (w w' : ℕ → ℕ → ℕ) (b j : ℕ)
    → (b ≢ 0 → j / sfs_blocksize < file_blocks → (k : ℕ) → k < sfs_dbperidb → w' b k ≡ w b k)
    → block_byte w' b j ≡ block_byte w b j
unfolding store_words
block_byte_cong w w' b j h =
    elim (Bool-cases (not (b == 0) && ltb (j / sfs_blocksize) file_blocks)) [
      | inr none_there ↦ rw none_there
      | inl there ↦
          let same = h (ground arith) (ground arith) (j % sfs_blocksize / 4) (omega arith) in
          rw there (ap (word_byte (j % sfs_blocksize % 4)) same)
    ]

block_byte_zero :
    (w : ℕ → ℕ → ℕ) (b j : ℕ)
    → (b ≢ 0 → j / sfs_blocksize < file_blocks → (k : ℕ) → k < sfs_dbperidb → w b k ≡ 0)
    → block_byte w b j ≡ 0
unfolding store_words word_byte
block_byte_zero w b j h = elim (Bool-cases (not (b == 0) && ltb (j / sfs_blocksize) file_blocks)) [
  | inr none_there ↦ rw none_there
  | inl there ↦
      let same = h (ground arith) (ground arith) (j % sfs_blocksize / 4) (omega arith) in
      rw (there, same) (zero_byte (j % sfs_blocksize % 4))
]
  where
    zero_byte : (place : ℕ) → word_byte place 0 ≡ 0
    zero_byte place = ground arith

-- A block in use that is not the file's.
pub record IsForeign {D : Type 0} (word : D → ℕ → ℕ → ℕ) (s : SfsFs D) (sv : SfsVnode) (b : ℕ)
    : Type 0 where
  pub in_use : used s b ≡ true
  pub no_entry : (j : ℕ) → j < file_blocks → entry word s sv j ≢ 0 → entry word s sv j ≢ b
  pub no_indirect : (b ≢ sv.sv_i.sfi_indirect) ⊎ (b ≡ 0)

-- Behind an operation on one file: the blocks of the others are still foreign, and hold what they
-- held.
pub record Serves {D : Type 0} (word : D → ℕ → ℕ → ℕ) (s : SfsFs D) (sv : SfsVnode) (t : SfsFs D)
    (sv' : SfsVnode) : Type 0 where
  pub mounted : IsMounted word t
  pub owns : Owns word t sv'
  pub same_nblocks : t.sp_nblocks ≡ s.sp_nblocks
  pub still_used : (b : ℕ) → used s b ≡ true → used t b ≡ true
  pub foreign : (b : ℕ) → IsForeign word s sv b → IsForeign word t sv' b
  pub foreign_kept :
      (b i : ℕ) → IsForeign word s sv b → word t.sfs_device b i ≡ word s.sfs_device b i

-- The same behind an errno, where the file may have lost its shape.
pub record Leaves {D : Type 0} (word : D → ℕ → ℕ → ℕ) (s : SfsFs D) (sv : SfsVnode) (t : SfsFs D)
    : Type 0 where
  pub mounted : IsMounted word t
  pub same_nblocks : t.sp_nblocks ≡ s.sp_nblocks
  pub still_used : (b : ℕ) → used s b ≡ true → used t b ≡ true
  pub foreign_kept :
      (b i : ℕ) → IsForeign word s sv b → word t.sfs_device b i ≡ word s.sfs_device b i

module _ {D : Type 0} {word : D → ℕ → ℕ → ℕ} where
  pub Serves-refl :
      (s : SfsFs D) (sv : SfsVnode) → IsMounted word s → Owns word s sv → Serves word s sv s sv
  Serves-refl s sv m o = record {
    mounted = m;
    owns = o;
    same_nblocks = refl;
    still_used = λ b h. h;
    foreign = λ b h. h;
    foreign_kept = λ b i h. refl;
  }

  pub Serves-trans :
      {s t u : SfsFs D} {sv tv uv : SfsVnode}
      → Serves word s sv t tv
      → Serves word t tv u uv
      → Serves word s sv u uv
  Serves-trans x y = record {
    mounted = y.mounted;
    owns = y.owns;
    same_nblocks = y.same_nblocks ∙ x.same_nblocks;
    still_used = λ b h. y.still_used b (x.still_used b h);
    foreign = λ b h. y.foreign b (x.foreign b h);
    foreign_kept = λ b i h. y.foreign_kept b i (x.foreign b h) ∙ x.foreign_kept b i h;
  }

  pub Serves-Leaves :
      {s t : SfsFs D} {sv tv : SfsVnode} → Serves word s sv t tv → Leaves word s sv t
  Serves-Leaves x = record {
    mounted = x.mounted;
    same_nblocks = x.same_nblocks;
    still_used = x.still_used;
    foreign_kept = x.foreign_kept;
  }

  pub Leaves-trans :
      {s t u : SfsFs D} {sv tv : SfsVnode}
      → Serves word s sv t tv
      → Leaves word t tv u
      → Leaves word s sv u
  Leaves-trans x y = record {
    mounted = y.mounted;
    same_nblocks = y.same_nblocks ∙ x.same_nblocks;
    still_used = λ b h. y.still_used b (x.still_used b h);
    foreign_kept = λ b i h. y.foreign_kept b i (x.foreign b h) ∙ x.foreign_kept b i h;
  }

  pub Spares-Leaves : {s t : SfsFs D} {sv : SfsVnode} → Spares word s sv t → Leaves word s sv t
  Spares-Leaves p = record {
    mounted = p.mounted;
    same_nblocks = p.same_nblocks;
    still_used = p.still_used;
    foreign_kept = λ b i h. p.words_kept b i h.in_use h.no_indirect;
  }

  module _ {s t : SfsFs D} {sv sv' : SfsVnode} {i block : ℕ} {doalloc : Bool} (o : Owns word s sv)
      (lt : i < file_blocks) (p : Mapped word s sv i doalloc block sv' t) where
    Mapped-IsForeign : (b : ℕ) → IsForeign word s sv b → IsForeign word t sv' b
    Mapped-IsForeign b f = record {
      in_use = p.spares.still_used b f.in_use;
      no_entry = λ j lj h e. elim (ℕ_discrete i j) [
        | no other ↦
            let same = p.others j lj other in f.no_entry j lj (λ z. h (same ∙ z)) (sym same ∙ e)
        | yes at ↦
            let here : entry word t sv' j ≡ block = ap (entry word t sv') (sym at) ∙ p.here in
            elim (ℕ_discrete (entry word s sv i) 0) [
              | yes none_yet ↦
                  let (free, zeros) = p.fresh none_yet (λ z. h (here ∙ z)) in
                  clash f.in_use (ap (used s) (sym e ∙ here) ∙ free)
              | no there ↦ f.no_entry i lt there (sym (p.old there) ∙ (sym here ∙ e))
            ]
      ];
      no_indirect = p.spared b f.in_use f.no_indirect;
    }

    pub Mapped-Serves : Serves word s sv t sv'
    Mapped-Serves = record {
      mounted = p.spares.mounted;
      owns = p.owns;
      same_nblocks = p.spares.same_nblocks;
      still_used = p.spares.still_used;
      foreign = Mapped-IsForeign;
      foreign_kept = λ b k f. p.spares.words_kept b k f.in_use f.no_indirect;
    }

    -- An entry that was there holds what it held.
    same_words :
        (j k : ℕ)
        → j < file_blocks
        → entry word s sv j ≢ 0
        → word t.sfs_device (entry word s sv j) k ≡ word s.sfs_device (entry word s sv j) k
    same_words j k lj h =
        p.spares.words_kept (entry word s sv j) k (o.entries j lj h).1
          (inl (o.indirect_apart j lj h))

    -- `sfs_bmap` changes no byte of the file.
    pub fbyte-Mapped : (j : ℕ) → fbyte word t sv' j ≡ fbyte word s sv j
    fbyte-Mapped j =
        let n = j / sfs_blocksize in
        let w' = word t.sfs_device in
        let w = word s.sfs_device in
        let kept : entry word t sv' n ≡ entry word s sv n → fbyte word t sv' j ≡ fbyte word s sv j =
          λ same.
            ap (λ b. block_byte w' b j) same
            ∙ block_byte_cong w w' (entry word s sv n) j (λ h lj k lk. same_words n k lj h) in
        elim (dec_lt n file_blocks) [
          | no out ↦
              block_byte_zero w' (entry word t sv' n) j (λ h lj. absurd (out lj))
              ∙ sym (block_byte_zero w (entry word s sv n) j (λ h lj. absurd (out lj)))
          | yes lj ↦ elim (ℕ_discrete i n) [
            | no other ↦ kept (p.others n lj other)
            | yes at ↦
                let here : entry word t sv' n ≡ block = ap (entry word t sv') (sym at) ∙ p.here in
                elim (ℕ_discrete (entry word s sv i) 0) [
                  | no there ↦ kept (here ∙ (p.old there ∙ ap (entry word s sv) at))
                  | yes none_yet ↦
                      block_byte_zero w' (entry word t sv' n) j (λ h _ k lk.
                        ap (λ b. w' b k) here ∙ (p.fresh none_yet (λ z. h (here ∙ z))).1 k lk)
                      ∙ sym (
                          block_byte_zero w (entry word s sv n) j
                            (λ h. absurd (h (ap (entry word s sv) (sym at) ∙ none_yet))))
                ]
          ]
        ]

  module _ (s : SfsFs D) (sv : SfsVnode) (m : IsMounted word s) (o : Owns word s sv) (d : D) where
    -- The entries, with the indirect block as it was.
    entry_kept :
        (sv.sv_i.sfi_indirect ≢ 0
          → (i : ℕ) → word d sv.sv_i.sfi_indirect i ≡ word s.sfs_device sv.sv_i.sfi_indirect i)
        → (j : ℕ) → entry word (with_device s d) sv j ≡ entry word s sv j
    entry_kept h j = elim (Bool-cases (ltb j sfs_ndirect)) [
      | inl low ↦ rw low
      | inr up ↦ elim (ℕ_discrete sv.sv_i.sfi_indirect 0) [
        | yes z ↦
            let none_yet : (sv.sv_i.sfi_indirect == 0) ≡ true = ground arith in rw (up, none_yet)
        | no there ↦
            let some_indirect : (sv.sv_i.sfi_indirect == 0) ≡ false = ==_ne _ 0 there in
            rw (up, some_indirect) (h there (j - sfs_ndirect))
      ]
    ]

    with_device-Serves :
        ((j : ℕ) → entry word (with_device s d) sv j ≡ entry word s sv j)
        → ((b i : ℕ) → IsForeign word s sv b → word d b i ≡ word s.sfs_device b i)
        → Serves word s sv (with_device s d) sv
    with_device-Serves same kept = record {
      mounted = IsMounted-with_device s d m;
      owns = IsMap-kept o (used s) (entry word (with_device s d) sv) (λ b h. h) (λ j lj. same j);
      same_nblocks = refl;
      still_used = λ b h. h;
      foreign = λ b f. record {
        in_use = f.in_use;
        no_entry = λ j lj h e. f.no_entry j lj (λ z. h (same j ∙ z)) (sym (same j) ∙ e);
        no_indirect = f.no_indirect;
      };
      foreign_kept = kept;
    }

    -- A device that holds what it held.
    pub same_words-Serves :
        ((c i : ℕ) → word d c i ≡ word s.sfs_device c i)
        → Serves word s sv (with_device s d) sv
          × ((j : ℕ) → fbyte word (with_device s d) sv j ≡ fbyte word s sv j)
    same_words-Serves keeps =
        let same = entry_kept (λ h i. keeps sv.sv_i.sfi_indirect i) in
        (
          with_device-Serves same (λ b i f. keeps b i),
          λ j.
              ap (λ b. block_byte (word d) b j) (same (j / sfs_blocksize))
              ∙ block_byte_cong (word s.sfs_device) (word d) (entry word s sv (j / sfs_blocksize)) j
                  (λ h lj k lk. keeps (entry word s sv (j / sfs_blocksize)) k),
        )

    -- A device on which one block of the file has been written.
    pub written-Serves :
        (i : ℕ) (bytes : ℕ → ℕ)
        → i < file_blocks
        → entry word s sv i ≢ 0
        → ((k : ℕ) → k < sfs_dbperidb → word d (entry word s sv i) k ≡ load_words bytes k)
        → ((c k : ℕ) → entry word s sv i ≢ c → word d c k ≡ word s.sfs_device c k)
        → Serves word s sv (with_device s d) sv
          × ((j : ℕ)
              → fbyte word (with_device s d) sv j ≡ (
                  if j / sfs_blocksize == i
                  then bytes (j % sfs_blocksize) % 256
                  else fbyte word s sv j))
    written-Serves i bytes lt there wrote keeps =
        let b = entry word s sv i in
        let same = entry_kept (λ h k. keeps sv.sv_i.sfi_indirect k (o.indirect_apart i lt there)) in
        (
          with_device-Serves same (λ c k f. keeps c k (f.no_entry i lt there)),
          λ j.
              ap (λ c. block_byte (word d) c j) (same (j / sfs_blocksize))
              ∙ elim (ℕ_discrete (j / sfs_blocksize) i) [
                | yes at ↦
                    let hit : (j / sfs_blocksize == i) ≡ true = ground arith in
                    ap (λ n. block_byte (word d) (entry word s sv n) j) at
                    ∙ (block_byte_cong (λ c. load_words bytes) (word d) b j (λ h lj. wrote)
                        ∙ rw hit (written_byte b bytes j there (omega arith)))
                | no other ↦
                    let miss : (j / sfs_blocksize == i) ≡ false = ==_ne _ i other in
                    block_byte_cong (word s.sfs_device) (word d)
                      (entry word s sv (j / sfs_blocksize)) j
                      (λ h lj k lk.
                        keeps (entry word s sv (j / sfs_blocksize)) k
                          (λ e. other (sym (o.apart i (j / sfs_blocksize) lt lj there e))))
                    ∙ rw miss
              ],
        )
      where
        written_byte :
            (b : ℕ) (bytes : ℕ → ℕ) (j : ℕ)
            → b ≢ 0
            → j / sfs_blocksize < file_blocks
            → block_byte (λ c. load_words bytes) b j ≡ bytes (j % sfs_blocksize) % 256
        written_byte b bytes j h lj =
            let inside : (not (b == 0) && ltb (j / sfs_blocksize) file_blocks) ≡ true =
              ground arith in
            rw inside (store_words-load_words bytes (j % sfs_blocksize))
