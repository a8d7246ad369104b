-- ===== src/Sfs/Mapped.antt =====
-- What `sfs_bmap` of kern/fs/sfs/sfs_vnode.c leaves behind.
use toy_os.Common.{
  ℕ, ◌<◌, ◌≡◌, ◌≢◌, sym, ◌∙◌, ◌⊎◌, inl, inr, Bool, true, false, Kernel, done, Bool-cases,
}
use toy_os.Sfs.{sfs_dbperidb, SfsFs, SfsVnode, Bmap}
use toy_os.Sfs.Blocks.{Refused, used, clash, IsMounted, Grows}
use toy_os.Sfs.Owns.{file_blocks, entry, Owns}

-- What every end of `sfs_bmap` leaves alone: blocks in use stay in use, and hold what they held, but
-- for the indirect block of the file.
pub record Spares {D : Type 0} (word : D → ℕ → ℕ → ℕ) (s : SfsFs D) (sv : SfsVnode) (t : SfsFs D)
    : Type 0 where
  pub mounted : IsMounted word t
  pub same_nblocks : t.sp_nblocks ≡ s.sp_nblocks
  pub still_used : (b : ℕ) → used s b ≡ true → used t b ≡ true
  pub words_kept :
      (b i : ℕ)
      → used s b ≡ true
      → (b ≢ sv.sv_i.sfi_indirect) ⊎ (b ≡ 0)
      → word t.sfs_device b i ≡ word s.sfs_device b i

-- The block `i` of the file is `block`, and its others are what they were. A block that is new was
-- free and holds zeros.
pub record Mapped {D : Type 0} (word : D → ℕ → ℕ → ℕ) (s : SfsFs D) (sv : SfsVnode) (i : ℕ)
    (doalloc : Bool) (block : ℕ) (sv' : SfsVnode) (t : SfsFs D) : Type 0 where
  pub spares : Spares word s sv t
  pub owns : Owns word t sv'
  pub here : entry word t sv' i ≡ block
  pub others : (j : ℕ) → j < file_blocks → i ≢ j → entry word t sv' j ≡ entry word s sv j
  pub old : entry word s sv i ≢ 0 → block ≡ entry word s sv i
  pub allocated : doalloc ≡ true → block ≢ 0
  pub unchanged : doalloc ≡ false → (sv' ≡ sv) × (t.sfs_freemap ≡ s.sfs_freemap)
  pub same_size : sv'.sv_i.sfi_size ≡ sv.sv_i.sfi_size
  pub spared :
      (b : ℕ)
      → used s b ≡ true
      → (b ≢ sv.sv_i.sfi_indirect) ⊎ (b ≡ 0)
      → (b ≢ sv'.sv_i.sfi_indirect) ⊎ (b ≡ 0)
  pub fresh :
      entry word s sv i ≡ 0
      → block ≢ 0
      → (used s block ≡ false) × ((k : ℕ) → k < sfs_dbperidb → word t.sfs_device block k ≡ 0)

-- How `sfs_bmap` ends for a block that a file can have.
pub data Bmaps {D : Type 0} (word : D → ℕ → ℕ → ℕ) (s : SfsFs D) (sv : SfsVnode) (i : ℕ)
    (doalloc : Bool) (r : Kernel (Bmap D)) : Type 0 where
  failed :
      (err : ℕ) (sv' : SfsVnode) (t : SfsFs D)
      → r ≡ done (err, 0, sv', t)
      → err ≢ 0
      → Spares word s sv t
      → Refused t err
      → Bmaps word s sv i doalloc r
  maps :
      (block : ℕ) (sv' : SfsVnode) (t : SfsFs D)
      → r ≡ done (0, block, sv', t)
      → Mapped word s sv i doalloc block sv' t
      → Bmaps word s sv i doalloc r

-- A state on the way of `sfs_bmap`: the same blocks of the file, with the indirect block there.
pub record Extends {D : Type 0} (word : D → ℕ → ℕ → ℕ) (s : SfsFs D) (sv : SfsVnode)
    (doalloc : Bool) (t : SfsFs D) (sv' : SfsVnode) : Type 0 where
  pub grows : Grows word s t
  pub same_entry : (j : ℕ) → j < file_blocks → entry word t sv' j ≡ entry word s sv j
  pub spared :
      (b : ℕ)
      → used s b ≡ true
      → (b ≢ sv.sv_i.sfi_indirect) ⊎ (b ≡ 0)
      → (b ≢ sv'.sv_i.sfi_indirect) ⊎ (b ≡ 0)
  pub same_size : sv'.sv_i.sfi_size ≡ sv.sv_i.sfi_size
  pub same_if : doalloc ≡ false → (sv' ≡ sv) × (t.sfs_freemap ≡ s.sfs_freemap)

free_before :
    {D : Type 0} {word : D → ℕ → ℕ → ℕ} {s t : SfsFs D} (b : ℕ)
    → Grows word s t
    → used t b ≡ false
    → used s b ≡ false
free_before {s = s} b g h = elim (Bool-cases (used s b)) [
  | inl q ↦ absurd (clash (g.still_used b q) h)
  | inr q ↦ q
]

module _ {D : Type 0} {word : D → ℕ → ℕ → ℕ} {s t : SfsFs D} {sv sv' : SfsVnode}
    {doalloc : Bool} where
  Spares-Extends :
      {u : SfsFs D} → Extends word s sv doalloc t sv' → Spares word t sv' u → Spares word s sv u
  Spares-Extends x p = record {
    mounted = p.mounted;
    same_nblocks = p.same_nblocks ∙ x.grows.same_nblocks;
    still_used = λ b h. p.still_used b (x.grows.still_used b h);
    words_kept = λ b i h other.
        p.words_kept b i (x.grows.still_used b h) (x.spared b h other) ∙ x.grows.words_kept b i h;
  }

  -- The rest of the way.
  pub Bmaps-Extends :
      (i : ℕ) {r : Kernel (Bmap D)}
      → i < file_blocks
      → Extends word s sv doalloc t sv'
      → Bmaps word t sv' i doalloc r
      → Bmaps word s sv i doalloc r
  Bmaps-Extends i lt x (failed err sv2 u e bad p why) =
      failed err sv2 u e bad (Spares-Extends x p) why
  Bmaps-Extends i lt x (maps block sv2 u e p) = maps block sv2 u e (record {
    spares = Spares-Extends x p.spares;
    owns = p.owns;
    here = p.here;
    others = λ j lj other. p.others j lj other ∙ x.same_entry j lj;
    old = λ h. p.old (λ z. h (sym (x.same_entry i lt) ∙ z)) ∙ x.same_entry i lt;
    allocated = p.allocated;
    unchanged = λ h. let (a, b) = p.unchanged h in let (c, d) = x.same_if h in (a ∙ c, b ∙ d);
    same_size = p.same_size ∙ x.same_size;
    spared = λ b h other. p.spared b (x.grows.still_used b h) (x.spared b h other);
    fresh = λ h nonzero.
        let (free, zeros) = p.fresh (x.same_entry i lt ∙ h) nonzero in
        (free_before block x.grows free, zeros);
  })
