-- ===== src/Sfs/Scanned.antt =====
-- The loop of `sfs_truncate` of kern/fs/sfs/sfs_vnode.c over the indirect block.
use toy_os.Common.{
  ℕ, zero, suc, ◌+◌, ◌-◌, ◌≤◌, ◌<◌, ◌≡◌, ◌≢◌, refl, sym, subst, ◌∙◌, ◌⊎◌, inl, inr, true, false,
  not, ◌&&◌, done, arith, Bool-cases, ltb, leb, ◌==◌, if◌then◌else◌, update, ==_self, update_ne,
  ℕ_discrete,
}
use toy_os.Sfs.{sfs_ndirect, sfs_dbperidb, SfsFs, SfsVnode, sfs_bfree}
use toy_os.Sfs.Blocks.{used, with_map, clash, IsMounted}
use toy_os.Sfs.Owns.{IsMap}
use toy_os.Sfs.Truncate.{IdBlock, see_entry, discard_entry, trunc_indirect}
use toy_os.Sfs.Discard.{Erases, buffer_entry, Erases-trans, Erases-none, Erases-one}

-- What the loop knows of its buffer, over the entries from `lo` up to `hi`.
pub record Scanned (lo hi : ℕ) (c c' : IdBlock) : Type 0 where
  pub all_zero :
      c'.hasnonzero ≡ false → (c.hasnonzero ≡ false) × ((k : ℕ) → lo ≤ k → k < hi → c'.idbuf k ≡ 0)
  pub clean : c'.iddirty ≡ false → (c.iddirty ≡ false) × ((k : ℕ) → c'.idbuf k ≡ c.idbuf k)
  pub outside : (k : ℕ) → (k < lo) ⊎ (hi ≤ k) → c'.idbuf k ≡ c.idbuf k

Scanned-suc :
    {lo hi : ℕ} {c c1 c2 : IdBlock}
    → Scanned lo (lo + 1) c c1
    → Scanned (lo + 1) hi c1 c2
    → lo < hi
    → Scanned lo hi c c2
Scanned-suc {lo} {hi} a b lt = record {
  all_zero = λ h.
      let (h1, rest) = b.all_zero h in
      let (h0, first) = a.all_zero h1 in
      (
        h0,
        λ k l u. elim (ℕ_discrete k lo) [
          | yes e ↦ b.outside k (inl (omega arith)) ∙ first k l (omega arith)
          | no e ↦ rest k (omega arith) u
        ],
      );
  clean = λ h.
      let (h1, rest) = b.clean h in let (h0, first) = a.clean h1 in (h0, λ k. rest k ∙ first k);
  outside = λ k h.
      b.outside k (elim h [ inl l ↦ inl (omega arith) | inr u ↦ inr u ])
      ∙ a.outside k (elim h [ inl l ↦ inl l | inr u ↦ inr (omega arith) ]);
}

buffer_emptied :
    (sv : SfsVnode) (idbuf : ℕ → ℕ) (j i : ℕ)
    → buffer_entry sv (update idbuf j 0) i
      ≡ (if sfs_ndirect + j == i then 0 else buffer_entry sv idbuf i)
buffer_emptied sv idbuf j i = elim (Bool-cases (ltb i sfs_ndirect)) [
  | inl low ↦ let off : (sfs_ndirect + j == i) ≡ false = ground arith in rw (low, off)
  | inr up ↦ elim (Bool-cases (sfs_ndirect + j == i)) [
    | inl e ↦ let hit : (j == i - sfs_ndirect) ≡ true = ground arith in rw (up, e, hit)
    | inr e ↦ let miss : (j == i - sfs_ndirect) ≡ false = ground arith in rw (up, e, miss)
  ]
]

module _ {D : Type 0} {word : D → ℕ → ℕ → ℕ} (blocklen ind : ℕ) (sv : SfsVnode) where
  discard_entry-Erases :
      (j : ℕ) (c : IdBlock) (s : SfsFs D)
      → j < sfs_dbperidb
      → IsMounted word s
      → IsMap s.sp_nblocks (used s) (buffer_entry sv c.idbuf) ind
      → (c' : IdBlock) × (t : SfsFs D) × (discard_entry j blocklen c s ≡ done (c', t))
        × Scanned j (j + 1) c c'
        × Erases word
            (λ i. sfs_ndirect + j == i && ltb blocklen i)
            ind
            s
            (buffer_entry sv c.idbuf)
            t
            (buffer_entry sv c'.idbuf)
  unfolding discard_entry see_entry
  discard_entry-Erases j c s lt m map =
      let up : ltb (sfs_ndirect + j) sfs_ndirect ≡ false = ground arith in
      let back : sfs_ndirect + j - sfs_ndirect ≡ j = omega arith in
      let same : buffer_entry sv c.idbuf (sfs_ndirect + j) ≡ c.idbuf j = rw (up, back) in
      elim (Bool-cases (c.idbuf j == 0)) [
        | inl empty ↦
            let keep : (ltb blocklen (sfs_ndirect + j) && not (c.idbuf j == 0)) ≡ false =
              ground arith in
            (
              c,
              s,
              rw (keep, empty),
              record {
                all_zero = λ h. (
                  h,
                  λ k l u.
                      (let at : j ≡ k = omega arith in
                        subst (λ z. c.idbuf z ≡ 0) at (ground arith)),
                );
                clean = λ h. (h, λ k. refl);
                outside = λ k h. refl;
              },
              Erases-none m map
                  (λ i li h.
                    (let at : sfs_ndirect + j ≡ i = ground arith in
                      subst (λ k. buffer_entry sv c.idbuf k ≡ 0) at (same ∙ ground arith)))
                  (λ i li. refl),
            )
        | inr there ↦ elim (Bool-cases (ltb blocklen (sfs_ndirect + j))) [
          | inr low ↦ (
            record c { hasnonzero = true },
            s,
            rw (low, there),
            record {
              all_zero = λ h. absurd (clash refl h);
              clean = λ h. (h, λ k. refl);
              outside = λ k h. refl;
            },
            Erases-none m map (λ i li h. absurd (ground arith)) (λ i li. refl),
          )
          | inl past ↦
              let nonzero : buffer_entry sv c.idbuf (sfs_ndirect + j) ≢ 0 =
                λ z. (let gone = sym same ∙ z in ground arith) in
              let (b, run, x) =
                Erases-one s (buffer_entry sv c.idbuf) (buffer_entry sv (update c.idbuf j 0))
                  (sfs_ndirect + j) m map (λ i li. ground arith) (omega arith) nonzero
                  (λ i li. buffer_emptied sv c.idbuf j i) in
              let freed : sfs_bfree (c.idbuf j) s ≡ done (with_map s b) =
                subst (λ k. sfs_bfree k s ≡ done (with_map s b)) same run in
              let here : (j == j) ≡ true = ==_self j in
              (
                record c { idbuf = update c.idbuf j 0; iddirty = true },
                with_map s b,
                rw (past, there, freed, here),
                record {
                  all_zero = λ h. (h, λ k l u. (let at : (j == k) ≡ true = ground arith in rw at));
                  clean = λ h. absurd (clash refl h);
                  outside = λ k h.
                      update_ne c.idbuf j k 0
                        (elim h [ inl l ↦ omega arith | inr u ↦ omega arith ]);
                },
                x,
              )
        ]
      ]

  -- The loop fails no KASSERT and frees the blocks above the new length.
  pub trunc_indirect-Erases :
      (rounds j : ℕ) (c : IdBlock) (s : SfsFs D)
      → j + rounds ≡ sfs_dbperidb
      → IsMounted word s
      → IsMap s.sp_nblocks (used s) (buffer_entry sv c.idbuf) ind
      → (c' : IdBlock) × (t : SfsFs D) × (trunc_indirect rounds j blocklen c s ≡ done (c', t))
        × Scanned j sfs_dbperidb c c'
        × Erases word
            (λ i. leb (sfs_ndirect + j) i && ltb blocklen i)
            ind
            s
            (buffer_entry sv c.idbuf)
            t
            (buffer_entry sv c'.idbuf)
  unfolding trunc_indirect
  trunc_indirect-Erases zero j c s e m map = (
    c,
    s,
    refl,
    record {
      all_zero = λ h. (h, λ k l u. absurd (omega arith));
      clean = λ h. (h, λ k. refl);
      outside = λ k h. refl;
    },
    Erases-none m map (λ i li h. absurd (ground arith)) (λ i li. refl),
  )
  trunc_indirect-Erases (suc rounds) j c s e m map =
      let (c1, s1, run, known, x) = discard_entry-Erases j c s (omega arith) m map in
      let (c2, s2, rest, later, y) =
        trunc_indirect-Erases rounds (j + 1) c1 s1 (omega arith) x.mounted x.map in
      (
        c2,
        s2,
        rw (run, rest),
        Scanned-suc known later (omega arith),
        Erases-trans (λ i li. ground arith) x y,
      )
