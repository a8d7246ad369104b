-- ===== src/Sfs/Owns.antt =====
-- The blocks of one file of kern/fs/sfs/sfs_vnode.c, as its inode and its indirect block name them.
use toy_os.Common.{
  ℕ, ◌-◌, ◌<◌, ◌≡◌, ◌≢◌, sym, subst, ap, ◌∙◌, inl, inr, Bool, true, false, arith, Bool-cases, ltb,
  ◌==◌, if◌then◌else◌, ==_ne, ==_self, ℕ_discrete,
}
use toy_os.Sfs.{sfs_ndirect, SfsFs, SfsVnode}
use toy_os.Sfs.Blocks.{used, clash}

-- One more than the last block that a file can have.
abbrev pub file_blocks : ℕ
file_blocks = 143

-- The disk block of a file's block, 0 for none.
abbrev pub entry : {D : Type 0} → (D → ℕ → ℕ → ℕ) → SfsFs D → SfsVnode → ℕ → ℕ
entry word s sv i =
    if ltb i sfs_ndirect
    then sv.sv_i.sfi_direct i
    else (if sv.sv_i.sfi_indirect == 0
        then 0
        else word s.sfs_device sv.sv_i.sfi_indirect (i - sfs_ndirect))

-- Blocks that are in use, each for one purpose: `e` are the entries, `ind` is the indirect block.
pub record IsMap (n : ℕ) (u : ℕ → Bool) (e : ℕ → ℕ) (ind : ℕ) : Type 0 where
  pub entries : (i : ℕ) → i < file_blocks → e i ≢ 0 → (e i < n) × (u (e i) ≡ true)
  pub apart : (i j : ℕ) → i < file_blocks → j < file_blocks → e i ≢ 0 → e i ≡ e j → i ≡ j
  pub indirect : ind ≢ 0 → (ind < n) × (u ind ≡ true)
  pub indirect_apart : (i : ℕ) → i < file_blocks → e i ≢ 0 → e i ≢ ind

abbrev pub Owns : {D : Type 0} → (D → ℕ → ℕ → ℕ) → SfsFs D → SfsVnode → Type 0
Owns word s sv = IsMap s.sp_nblocks (used s) (entry word s sv) sv.sv_i.sfi_indirect

module _ {n ind : ℕ} {u : ℕ → Bool} {e : ℕ → ℕ} (m : IsMap n u e ind) (u' : ℕ → Bool)
    (e' : ℕ → ℕ) where
  -- Other blocks taken.
  pub IsMap-kept :
      ((b : ℕ) → u b ≡ true → u' b ≡ true)
      → ((i : ℕ) → i < file_blocks → e' i ≡ e i)
      → IsMap n u' e' ind
  IsMap-kept more same = record {
    entries = λ i lt h.
        let (small, in_use) = m.entries i lt (λ z. h (same i lt ∙ z)) in
        (
          subst (λ k. k < n) (sym (same i lt)) small,
          subst (λ k. u' k ≡ true) (sym (same i lt)) (more (e i) in_use),
        );
    apart = λ i j li lj h q.
        m.apart i j li lj (λ z. h (same i li ∙ z)) (sym (same i li) ∙ (q ∙ same j lj));
    indirect = λ h. let (small, in_use) = m.indirect h in (small, more ind in_use);
    indirect_apart =
        λ i lt h q. m.indirect_apart i lt (λ z. h (same i lt ∙ z)) (sym (same i lt) ∙ q);
  }

  -- A free block taken as the block `k` of the file.
  pub IsMap-entry :
      (k b : ℕ)
      → k < file_blocks
      → u b ≡ false
      → b ≢ 0
      → b < n
      → ((c : ℕ) → u' c ≡ (if b == c then true else u c))
      → ((i : ℕ) → i < file_blocks → e' i ≡ (if k == i then b else e i))
      → IsMap n u' e' ind
  IsMap-entry k b kl free nonzero small bits there =
      let new : (i : ℕ) → i < file_blocks → k ≡ i → e' i ≡ b =
        λ i lt q. there i lt ∙ (let hit : (k == i) ≡ true = ground arith in rw hit) in
      let old : (i : ℕ) → i < file_blocks → k ≢ i → e' i ≡ e i =
        λ i lt q. there i lt ∙ (let off : (k == i) ≡ false = ==_ne k i q in rw off) in
      let taken : u' b ≡ true = bits b ∙ rw (==_self b) in
      let more : (c : ℕ) → u c ≡ true → u' c ≡ true =
        λ c h. bits c ∙ elim (Bool-cases (b == c)) [ inl q ↦ rw q | inr q ↦ rw (q, h) ] in
      let alone : (i : ℕ) → i < file_blocks → e i ≢ b =
        λ i lt q. clash (ap u (sym q) ∙ free_entry i lt q) free in
      record {
        entries = λ i lt h. elim (ℕ_discrete k i) [
          | yes q ↦ (subst (λ c. c < n) (sym (new i lt q)) small, ap u' (new i lt q) ∙ taken)
          | no q ↦
              let (lo, in_use) = m.entries i lt (λ z. h (old i lt q ∙ z)) in
              (subst (λ c. c < n) (sym (old i lt q)) lo, ap u' (old i lt q) ∙ more (e i) in_use)
        ];
        apart = λ i j li lj h q. elim (ℕ_discrete k i) [
          | yes a ↦ elim (ℕ_discrete k j) [
            | yes c ↦ sym a ∙ c
            | no c ↦ absurd (alone j lj (sym (old j lj c) ∙ (sym q ∙ new i li a)))
          ]
          | no a ↦ elim (ℕ_discrete k j) [
            | yes c ↦ absurd (alone i li (sym (old i li a) ∙ (q ∙ new j lj c)))
            | no c ↦
                m.apart i j li lj (λ z. h (old i li a ∙ z)) (sym (old i li a) ∙ (q ∙ old j lj c))
          ]
        ];
        indirect = λ h. let (lo, in_use) = m.indirect h in (lo, more ind in_use);
        indirect_apart = λ i lt h q. elim (ℕ_discrete k i) [
          | yes a ↦
              let at : b ≡ ind = sym (new i lt a) ∙ q in
              clash ((m.indirect (λ z. nonzero (at ∙ z))).1) (ap u (sym at) ∙ free)
          | no a ↦ m.indirect_apart i lt (λ z. h (old i lt a ∙ z)) (sym (old i lt a) ∙ q)
        ];
      }
    where
      free_entry : (i : ℕ) → i < file_blocks → e i ≡ b → u (e i) ≡ true
      free_entry i lt q = (m.entries i lt (λ z. nonzero (sym q ∙ z))).1

-- A free block taken as the indirect block.
pub IsMap-indirect :
    {n : ℕ} {u : ℕ → Bool} {e : ℕ → ℕ} {ind : ℕ}
    → IsMap n u e ind
    → (u' : ℕ → Bool) (e' : ℕ → ℕ) (b : ℕ) → u b ≡ false
    → b < n
    → ((c : ℕ) → u' c ≡ (if b == c then true else u c))
    → ((i : ℕ) → i < file_blocks → e' i ≡ e i)
    → IsMap n u' e' b
IsMap-indirect {n} {u} {e} m u' e' b free small bits same =
    let more : (c : ℕ) → u c ≡ true → u' c ≡ true =
      λ c h. bits c ∙ elim (Bool-cases (b == c)) [ inl q ↦ rw q | inr q ↦ rw (q, h) ] in
    let k = IsMap-kept m u' e' more same in
    record {
      entries = k.entries;
      apart = k.apart;
      indirect = λ h. (small, bits b ∙ rw (==_self b));
      indirect_apart = λ i lt h q.
          clash ((m.entries i lt (λ z. h (same i lt ∙ z))).1) (ap u (sym (same i lt) ∙ q) ∙ free);
    }
