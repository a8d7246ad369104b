-- ===== src/Sfs/Erase.antt =====
-- `sfs_truncate` of kern/fs/sfs/sfs_vnode.c: what it leaves.
use toy_os.Common.{
  ℕ, ◌<◌, ◌≡◌, ◌≢◌, refl, sym, subst, ap, ◌∙◌, ◌⊎◌, inl, inr, Bool, true, false, Kernel, done,
  Bool-cases, ltb, leb, ◌==◌, if◌then◌else◌, ==_ne, ==_self,
}
use toy_os.Sfs.Disk.{DeviceFailed}
use toy_os.Coremap.{u32}
use toy_os.Sfs.{sfs_ndirect, SfsFs, SfsVnode}
use toy_os.Sfs.Blocks.{used, clash, IsMounted}
use toy_os.Sfs.Owns.{file_blocks, entry, IsMap, IsMap-kept, Owns}
use toy_os.Sfs.Drops.{Drops}

-- The blocks that `sfs_truncate` discards for a new length of `blocklen` blocks: of the direct ones
-- those at `blocklen` and above, of the others those above it.
abbrev pub past_end : ℕ → ℕ → Bool
past_end blocklen i = if ltb i sfs_ndirect then leb blocklen i else ltb blocklen i

-- The file after a truncation that has not failed.
pub record Shrinks {D : Type 0} (word : D → ℕ → ℕ → ℕ) (blocklen : ℕ) (s : SfsFs D) (sv : SfsVnode)
    (t : SfsFs D) (sv' : SfsVnode) : Type 0 where
  pub mounted : IsMounted word t
  pub same_nblocks : t.sp_nblocks ≡ s.sp_nblocks
  pub owns : Owns word t sv'
  pub entries :
      (i : ℕ)
      → i < file_blocks
      → entry word t sv' i ≡ (if past_end blocklen i then 0 else entry word s sv i)
  pub freed :
      (i : ℕ)
      → i < file_blocks
      → past_end blocklen i ≡ true
      → entry word s sv i ≢ 0
      → used t (entry word s sv i) ≡ false
  pub still_used :
      (c : ℕ)
      → used s c ≡ true
      → c ≢ sv.sv_i.sfi_indirect
      → ((i : ℕ)
          → i < file_blocks
          → past_end blocklen i ≡ true
          → entry word s sv i ≢ 0
          → entry word s sv i ≢ c)
      → used t c ≡ true
  pub no_more : (c : ℕ) → used t c ≡ true → used s c ≡ true
  pub indirect :
      (sv'.sv_i.sfi_indirect ≡ sv.sv_i.sfi_indirect)
      ⊎ ((sv'.sv_i.sfi_indirect ≡ 0) × (used t sv.sv_i.sfi_indirect ≡ false))
  pub words_kept :
      (c i : ℕ) → c ≢ sv.sv_i.sfi_indirect → word t.sfs_device c i ≡ word s.sfs_device c i

-- How `sfs_truncate` ends.
pub data Truncates {D : Type 0} (word : D → ℕ → ℕ → ℕ) (len blocklen : ℕ) (s : SfsFs D)
    (sv : SfsVnode) (r : Kernel (ℕ × SfsVnode × SfsFs D)) : Type 0 where
  failed :
      (err : ℕ) (sv' : SfsVnode) (t : SfsFs D)
      → r ≡ done (err, sv', t)
      → err ≢ 0
      → IsMounted word t
      → ((c : ℕ) → used t c ≡ true → used s c ≡ true)
      → DeviceFailed t err
      → Truncates word len blocklen s sv r
  truncated :
      (sv' : SfsVnode) (t : SfsFs D)
      → r ≡ done (0, sv', t)
      → sv'.sv_i.sfi_size ≡ u32 len
      → Shrinks word blocklen s sv t sv'
      → Truncates word len blocklen s sv r

-- The indirect block given back, where no entry names it.
IsMap-no_indirect :
    {n ind : ℕ} {u : ℕ → Bool} {e : ℕ → ℕ}
    → IsMap n u e ind
    → (u' : ℕ → Bool) (e' : ℕ → ℕ) → ((c : ℕ) → u' c ≡ (if ind == c then false else u c))
    → ((i : ℕ) → i < file_blocks → e' i ≡ e i)
    → IsMap n u' e' 0
IsMap-no_indirect {n} {ind} {u} {e} m u' e' bits same = record {
  entries = λ i lt h.
      let nonzero : e i ≢ 0 = λ z. h (same i lt ∙ z) in
      let (small, in_use) = m.entries i lt nonzero in
      let other : (ind == e i) ≡ false =
        ==_ne ind (e i) (λ z. m.indirect_apart i lt nonzero (sym z)) in
      (
        subst (λ k. k < n) (sym (same i lt)) small,
        ap u' (same i lt) ∙ (bits (e i) ∙ rw (other, in_use)),
      );
  apart = λ i j li lj h q.
      m.apart i j li lj (λ z. h (same i li ∙ z)) (sym (same i li) ∙ (q ∙ same j lj));
  indirect = λ h. absurd (h refl);
  indirect_apart = λ i lt h. h;
}

module _ {D : Type 0} {word : D → ℕ → ℕ → ℕ} (len blocklen : ℕ) (s : SfsFs D) (sv : SfsVnode) where
  -- The blocks are given back, and the file's entries are the ones that are left.
  pub shrunk :
      (ind : ℕ) (t : SfsFs D) (sv' : SfsVnode) (e : ℕ → ℕ)
      → IsMounted word t
      → t.sp_nblocks ≡ s.sp_nblocks
      → sv.sv_i.sfi_indirect ≡ ind
      → sv'.sv_i.sfi_indirect ≡ ind
      → IsMap t.sp_nblocks (used t) e ind
      → Drops (past_end blocklen) (used s) (entry word s sv) (used t) e
      → ((i : ℕ) → i < file_blocks → entry word t sv' i ≡ e i)
      → ((c i : ℕ) → c ≢ sv.sv_i.sfi_indirect → word t.sfs_device c i ≡ word s.sfs_device c i)
      → Shrinks word blocklen s sv t sv'
  shrunk ind t sv' e m n at at' map d same words = record {
    mounted = m;
    same_nblocks = n;
    owns =
        subst (IsMap t.sp_nblocks (used t) (entry word t sv')) (sym at')
          (IsMap-kept map (used t) (entry word t sv') (λ b h. h) same);
    entries = λ i lt. same i lt ∙ d.entries i lt;
    freed = d.freed;
    still_used = λ c h other. d.still_used c h;
    no_more = d.no_more;
    indirect = inl (at' ∙ sym at);
    words_kept = words;
  }

  -- The same, with the indirect block given back.
  pub shrunk_indirect :
      (ind : ℕ) (t u : SfsFs D) (sv' : SfsVnode) (e : ℕ → ℕ)
      → IsMounted word u
      → u.sp_nblocks ≡ s.sp_nblocks
      → u.sp_nblocks ≡ t.sp_nblocks
      → sv.sv_i.sfi_indirect ≡ ind
      → sv'.sv_i.sfi_indirect ≡ 0
      → IsMap t.sp_nblocks (used t) e ind
      → Drops (past_end blocklen) (used s) (entry word s sv) (used t) e
      → ((c : ℕ) → used u c ≡ (if ind == c then false else used t c))
      → ((i : ℕ) → i < file_blocks → entry word u sv' i ≡ e i)
      → ((c i : ℕ) → c ≢ sv.sv_i.sfi_indirect → word u.sfs_device c i ≡ word s.sfs_device c i)
      → Shrinks word blocklen s sv u sv'
  shrunk_indirect ind t u sv' e m n n' at at' map d bits same words =
      let fewer : (c : ℕ) → used u c ≡ true → used t c ≡ true = λ c h.
        elim (Bool-cases (ind == c)) [
          | inl q ↦ absurd (clash h (bits c ∙ rw q))
          | inr q ↦ (let left : used u c ≡ used t c = bits c ∙ rw q in sym left ∙ h)
        ] in
      record {
        mounted = m;
        same_nblocks = n;
        owns = subst (IsMap u.sp_nblocks (used u) (entry word u sv')) (sym at') (
            subst (λ k. IsMap k (used u) (entry word u sv') 0) (sym n')
              (IsMap-no_indirect map (used u) (entry word u sv') bits same));
        entries = λ i lt. same i lt ∙ d.entries i lt;
        freed = λ i lt q h. elim (Bool-cases (used u (entry word s sv i))) [
          | inl a ↦ absurd (clash (fewer _ a) (d.freed i lt q h))
          | inr a ↦ a
        ];
        still_used = λ c h other gone.
            let off : (ind == c) ≡ false = ==_ne ind c (λ z. other (sym z ∙ sym at)) in
            bits c ∙ (rw off (d.still_used c h gone));
        no_more = λ c h. d.no_more c (fewer c h);
        indirect = inr (at', ap (used u) at ∙ (bits ind ∙ rw (==_self ind)));
        words_kept = words;
      }
