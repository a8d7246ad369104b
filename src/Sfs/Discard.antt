-- ===== src/Sfs/Discard.antt =====
-- The two loops of `sfs_truncate` of kern/fs/sfs/sfs_vnode.c.
use toy_os.Common.{
  ℕ, zero, suc, ◌+◌, ◌-◌, ◌<◌, ◌≡◌, ◌≢◌, refl, sym, subst, ◌∙◌, inl, inr, Bool, true, false, not,
  ◌&&◌, ◌||◌, done, arith, Bool-cases, ltb, leb, ◌==◌, if◌then◌else◌,
}
use toy_os.Bitmap.{Bitmap}
use toy_os.Sfs.{sfs_ndirect, SfsFs, SfsVnode, set_direct, sfs_bfree}
use toy_os.Sfs.Blocks.{used, with_map, IsMounted}
use toy_os.Sfs.Owns.{file_blocks, entry, IsMap, IsMap-kept}
use toy_os.Sfs.Drops.{
  Drops, Drops-none, Drops-one, Drops-trans, Drops-cong, IsMap-Drops, sfs_bfree-used,
}
use toy_os.Sfs.Truncate.{discard_direct, trunc_direct}

-- The volume after some of a file's blocks are given back; the device has not been used.
pub record Erases {D : Type 0} (word : D → ℕ → ℕ → ℕ) (p : ℕ → Bool) (ind : ℕ) (s : SfsFs D)
    (e : ℕ → ℕ) (t : SfsFs D) (e' : ℕ → ℕ) : Type 0 where
  pub mounted : IsMounted word t
  pub same_device : t.sfs_device ≡ s.sfs_device
  pub same_nblocks : t.sp_nblocks ≡ s.sp_nblocks
  pub map : IsMap t.sp_nblocks (used t) e' ind
  pub drops : Drops p (used s) e (used t) e'

-- The entries of a file whose indirect block is in a buffer.
abbrev pub buffer_entry : SfsVnode → (ℕ → ℕ) → ℕ → ℕ
buffer_entry sv idbuf i =
    if ltb i sfs_ndirect then sv.sv_i.sfi_direct i else idbuf (i - sfs_ndirect)

direct_emptied :
    {D : Type 0} (word : D → ℕ → ℕ → ℕ) (s : SfsFs D) (sv : SfsVnode) (k : ℕ)
    → k < sfs_ndirect
    → (i : ℕ) → i < file_blocks
    → entry word s (set_direct k 0 sv) i ≡ (if k == i then 0 else entry word s sv i)
unfolding set_direct
direct_emptied word s sv k direct i li = elim (Bool-cases (ltb i sfs_ndirect)) [
  | inl low ↦ rw low
  | inr up ↦ let off : (k == i) ≡ false = ground arith in rw (up, off)
]

module _ {D : Type 0} {word : D → ℕ → ℕ → ℕ} where
  pub Erases-trans :
      {p q r : ℕ → Bool} {ind : ℕ} {s t u : SfsFs D} {e e1 e2 : ℕ → ℕ}
      → ((i : ℕ) → i < file_blocks → (p i || q i) ≡ r i)
      → Erases word p ind s e t e1
      → Erases word q ind t e1 u e2
      → Erases word r ind s e u e2
  Erases-trans same a b = record {
    mounted = b.mounted;
    same_device = b.same_device ∙ a.same_device;
    same_nblocks = b.same_nblocks ∙ a.same_nblocks;
    map = b.map;
    drops = Drops-cong same (Drops-trans a.drops b.drops);
  }

  pub Erases-none :
      {p : ℕ → Bool} {ind : ℕ} {s : SfsFs D} {e e' : ℕ → ℕ}
      → IsMounted word s
      → IsMap s.sp_nblocks (used s) e ind
      → ((i : ℕ) → i < file_blocks → p i ≡ true → e i ≡ 0)
      → ((i : ℕ) → i < file_blocks → e' i ≡ e i)
      → Erases word p ind s e s e'
  Erases-none {s = s} {e' = e'} m map empty same = record {
    mounted = m;
    same_device = refl;
    same_nblocks = refl;
    map = IsMap-kept map (used s) e' (λ b h. h) same;
    drops = Drops-none empty same;
  }

  pub Erases-one :
      {p : ℕ → Bool} {ind : ℕ} (s : SfsFs D) (e e' : ℕ → ℕ) (k : ℕ)
      → IsMounted word s
      → IsMap s.sp_nblocks (used s) e ind
      → ((i : ℕ) → i < file_blocks → p i ≡ (k == i))
      → k < file_blocks
      → e k ≢ 0
      → ((i : ℕ) → i < file_blocks → e' i ≡ (if k == i then 0 else e i))
      → (c : Bitmap) × (sfs_bfree (e k) s ≡ done (with_map s c))
        × Erases word p ind s e (with_map s c) e'
  Erases-one s e e' k m map only lt nonzero there =
      let (small, in_use) = map.entries k lt nonzero in
      let (c, run, mounted, bits) = sfs_bfree-used (e k) s m small in_use nonzero in
      let d = Drops-one k only lt nonzero bits there in
      (
        c,
        run,
        record {
          mounted = mounted;
          same_device = refl;
          same_nblocks = refl;
          map = IsMap-Drops map d;
          drops = d;
        },
      )

  discard_direct-Erases :
      (i blocklen ind : ℕ) (sv : SfsVnode) (s : SfsFs D)
      → i < sfs_ndirect
      → sv.sv_i.sfi_indirect ≡ ind
      → IsMounted word s
      → IsMap s.sp_nblocks (used s) (entry word s sv) ind
      → (sv' : SfsVnode) × (t : SfsFs D) × (discard_direct i blocklen sv s ≡ done (sv', t))
        × (sv'.sv_i.sfi_indirect ≡ ind)
        × Erases word (λ j. i == j && leb blocklen j) ind s (entry word s sv) t (entry word t sv')
  unfolding discard_direct set_direct
  discard_direct-Erases i blocklen ind sv s direct at m map =
      let block = sv.sv_i.sfi_direct i in
      let low : ltb i sfs_ndirect ≡ true = ground arith in
      let same : entry word s sv i ≡ block = rw low in
      elim (Bool-cases (leb blocklen i && not (block == 0))) [
        | inr keep ↦ (
          sv,
          s,
          rw keep,
          at,
          Erases-none m map
              (λ j lj h.
                (let here : i ≡ j = ground arith in
                  subst (λ k. entry word s sv k ≡ 0) here (same ∙ ground arith)))
              (λ j lj. refl),
        )
        | inl drop ↦
            let nonzero : entry word s sv i ≢ 0 = λ z. (let gone = sym same ∙ z in ground arith) in
            let (c, run, x) =
              Erases-one s (entry word s sv) (entry word s (set_direct i 0 sv)) i m map
                (λ j lj. (ground arith)) (omega arith) nonzero
                (direct_emptied word s sv i direct) in
            (
              set_direct i 0 sv,
              with_map s c,
              rw (drop, subst (λ k. sfs_bfree k s ≡ done (with_map s c)) same run),
              at,
              x,
            )
      ]

  -- The loop over the direct blocks fails no KASSERT and frees those at the new length and above.
  pub trunc_direct-Erases :
      (rounds i blocklen ind : ℕ) (sv : SfsVnode) (s : SfsFs D)
      → i + rounds ≡ sfs_ndirect
      → sv.sv_i.sfi_indirect ≡ ind
      → IsMounted word s
      → IsMap s.sp_nblocks (used s) (entry word s sv) ind
      → (sv' : SfsVnode) × (t : SfsFs D) × (trunc_direct rounds i blocklen sv s ≡ done (sv', t))
        × (sv'.sv_i.sfi_indirect ≡ ind)
        × Erases word
            (λ j. (leb i j && ltb j sfs_ndirect) && leb blocklen j)
            ind
            s
            (entry word s sv)
            t
            (entry word t sv')
  unfolding trunc_direct
  trunc_direct-Erases zero i blocklen ind sv s e at m map =
      (sv, s, refl, at, Erases-none m map (λ j lj h. absurd (ground arith)) (λ j lj. refl))
  trunc_direct-Erases (suc rounds) i blocklen ind sv s e at m map =
      let (sv1, s1, run, at1, x) =
        discard_direct-Erases i blocklen ind sv s (omega arith) at m map in
      let (sv2, s2, rest, at2, y) =
        trunc_direct-Erases rounds (i + 1) blocklen ind sv1 s1 (omega arith) at1 x.mounted x.map in
      (sv2, s2, rw (run, rest), at2, Erases-trans (λ j lj. ground arith) x y)
