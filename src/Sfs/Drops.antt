-- ===== src/Sfs/Drops.antt =====
-- Blocks of a file of kern/fs/sfs/sfs_vnode.c that are given back to the free map.
use toy_os.Common.{
  ℕ, ◌<◌, ◌≡◌, ◌≢◌, refl, sym, subst, ap, ◌∙◌, inl, inr, Bool, true, false, ◌||◌, done, arith,
  Bool-cases, ◌==◌, if◌then◌else◌, ==_ne, ==_self,
}
use toy_os.Bitmap.{Bitmap}
use toy_os.Bitmap.Laws.{bitmap_unmark-Writes}
use toy_os.Sfs.{SfsFs, sfs_bfree}
use toy_os.Sfs.Blocks.{used, with_map, clash, IsMounted}
use toy_os.Sfs.Owns.{file_blocks, IsMap}

-- The entries that `p` names are emptied, and exactly their blocks are free afterwards.
pub record Drops (p : ℕ → Bool) (u : ℕ → Bool) (e : ℕ → ℕ) (u' : ℕ → Bool) (e' : ℕ → ℕ)
    : Type 0 where
  pub entries : (i : ℕ) → i < file_blocks → e' i ≡ (if p i then 0 else e i)
  pub freed : (i : ℕ) → i < file_blocks → p i ≡ true → e i ≢ 0 → u' (e i) ≡ false
  pub still_used :
      (c : ℕ)
      → u c ≡ true
      → ((i : ℕ) → i < file_blocks → p i ≡ true → e i ≢ 0 → e i ≢ c)
      → u' c ≡ true
  pub no_more : (c : ℕ) → u' c ≡ true → u c ≡ true

pub Drops-none :
    {p u : ℕ → Bool} {e e' : ℕ → ℕ}
    → ((i : ℕ) → i < file_blocks → p i ≡ true → e i ≡ 0)
    → ((i : ℕ) → i < file_blocks → e' i ≡ e i)
    → Drops p u e u e'
Drops-none {p} empty same = record {
  entries = λ i lt. elim (Bool-cases (p i)) [
    | inl q ↦ rw q (same i lt ∙ empty i lt q)
    | inr q ↦ rw q (same i lt)
  ];
  freed = λ i lt q h. absurd (h (empty i lt q));
  still_used = λ c h apart. h;
  no_more = λ c h. h;
}

pub Drops-one :
    {p u u' : ℕ → Bool} {e e' : ℕ → ℕ} (k : ℕ)
    → ((i : ℕ) → i < file_blocks → p i ≡ (k == i))
    → k < file_blocks
    → e k ≢ 0
    → ((c : ℕ) → u' c ≡ (if e k == c then false else u c))
    → ((i : ℕ) → i < file_blocks → e' i ≡ (if k == i then 0 else e i))
    → Drops p u e u' e'
Drops-one {p} {u} {u'} {e} k only lt nonzero bits there = record {
  entries = λ i li. there i li ∙ ap (λ b. if b then 0 else e i) (sym (only i li));
  freed = λ i li q h.
      let same : k ≡ i = (let hit = sym (only i li) ∙ q in ground arith) in
      subst (λ j. u' (e j) ≡ false) same (bits (e k) ∙ rw (==_self (e k)));
  still_used = λ c h apart.
      let other : (e k == c) ≡ false = ==_ne (e k) c (apart k lt (only k lt ∙ ==_self k) nonzero) in
      bits c ∙ (rw (other, h));
  no_more = λ c h. elim (Bool-cases (e k == c)) [
    | inl q ↦ absurd (clash h (bits c ∙ rw q))
    | inr q ↦ (let at : u' c ≡ u c = bits c ∙ rw q in sym at ∙ h)
  ];
}

pub Drops-trans :
    {p q u u1 u2 : ℕ → Bool} {e e1 e2 : ℕ → ℕ}
    → Drops p u e u1 e1
    → Drops q u1 e1 u2 e2
    → Drops (λ i. p i || q i) u e u2 e2
Drops-trans {p} {q} {u} {u1} {u2} {e} {e1} {e2} d f = record {
  entries = λ i lt. elim (Bool-cases (p i)) [
    | inl a ↦
        rw a
          (f.entries i lt ∙ (let gone : e1 i ≡ 0 = d.entries i lt ∙ rw a in zero_either (q i) gone))
    | inr a ↦
        (let same : e1 i ≡ e i = d.entries i lt ∙ rw a in
          rw a (f.entries i lt ∙ ap (λ k. if q i then 0 else k) same))
  ];
  freed = λ i lt h nonzero. elim (Bool-cases (p i)) [
    | inl a ↦ not_more d f (e i) (d.freed i lt a nonzero)
    | inr a ↦
        let same : e1 i ≡ e i = d.entries i lt ∙ rw a in
        let second : q i ≡ true = rw a at h in
        subst (λ k. u2 k ≡ false) same (f.freed i lt second (λ z. nonzero (sym same ∙ z)))
  ];
  still_used = λ c h apart.
      f.still_used c (d.still_used c h (λ i lt a nonzero. apart i lt (rw a) nonzero))
        (λ i lt a nonzero. elim (Bool-cases (p i)) [
          | inl b ↦ absurd (nonzero (d.entries i lt ∙ rw b))
          | inr b ↦
              let same : e1 i ≡ e i = d.entries i lt ∙ rw b in
              λ z. apart i lt (rw (b, a)) (λ y. nonzero (same ∙ y)) (sym same ∙ z)
        ]);
  no_more = λ c h. d.no_more c (f.no_more c h);
}
  where
    zero_either : (b : Bool) {k : ℕ} → k ≡ 0 → (if b then 0 else k) ≡ 0
    zero_either true h = refl
    zero_either false h = h

    not_more : Drops p u e u1 e1 → Drops q u1 e1 u2 e2 → (c : ℕ) → u1 c ≡ false → u2 c ≡ false
    not_more d f c h = elim (Bool-cases (u2 c)) [
      | inl a ↦ absurd (clash (f.no_more c a) h)
      | inr a ↦ a
    ]

pub Drops-cong :
    {p q u u' : ℕ → Bool} {e e' : ℕ → ℕ}
    → ((i : ℕ) → i < file_blocks → p i ≡ q i)
    → Drops p u e u' e'
    → Drops q u e u' e'
Drops-cong {e = e} same d = record {
  entries = λ i lt. d.entries i lt ∙ ap (λ b. if b then 0 else e i) (same i lt);
  freed = λ i lt h. d.freed i lt (same i lt ∙ h);
  still_used = λ c h apart. d.still_used c h (λ i lt a. apart i lt (sym (same i lt) ∙ a));
  no_more = d.no_more;
}

-- What is left of a file's blocks is still in use, each for one purpose.
pub IsMap-Drops :
    {p u u' : ℕ → Bool} {e e' : ℕ → ℕ} {n ind : ℕ}
    → IsMap n u e ind
    → Drops p u e u' e'
    → IsMap n u' e' ind
IsMap-Drops {p} {u} {u'} {e} {e'} {n} {ind} m d = record {
  entries = λ i lt h.
      let (left, same) = left_entry i lt h in
      let nonzero : e i ≢ 0 = λ z. h (same ∙ z) in
      let (small, in_use) = m.entries i lt nonzero in
      (
        subst (λ k. k < n) (sym same) small,
        subst (λ k. u' k ≡ true) (sym same)
            (d.still_used (e i) in_use
              (λ j lj q hj z. clash (ap p (sym (m.apart j i lj lt hj z)) ∙ q) left)),
      );
  apart = λ i j li lj h q.
      let (left, same) = left_entry i li h in
      let (left2, same2) = left_entry j lj (λ z. h (q ∙ z)) in
      m.apart i j li lj (λ z. h (same ∙ z)) (sym same ∙ (q ∙ same2));
  indirect = λ h.
      let (small, in_use) = m.indirect h in
      (small, d.still_used ind in_use (λ j lj q hj. m.indirect_apart j lj hj));
  indirect_apart = λ i lt h q.
      let (left, same) = left_entry i lt h in
      m.indirect_apart i lt (λ z. h (same ∙ z)) (sym same ∙ q);
}
  where
    left_entry : (i : ℕ) → i < file_blocks → e' i ≢ 0 → (p i ≡ false) × (e' i ≡ e i)
    left_entry i lt h = elim (Bool-cases (p i)) [
      | inl a ↦ absurd (h (d.entries i lt ∙ rw a))
      | inr a ↦ (a, d.entries i lt ∙ rw a)
    ]

-- `sfs_bfree` of a block in use, other than the superblock, fails no KASSERT.
pub sfs_bfree-used :
    {D : Type 0} {word : D → ℕ → ℕ → ℕ} (b : ℕ) (s : SfsFs D)
    → IsMounted word s
    → b < s.sp_nblocks
    → used s b ≡ true
    → b ≢ 0
    → (c : Bitmap) × (sfs_bfree b s ≡ done (with_map s c))
      × IsMounted word (with_map s c)
      × ((j : ℕ) → used (with_map s c) j ≡ (if b == j then false else used s j))
unfolding sfs_bfree
sfs_bfree-used b s m small in_use nonzero =
    elim (bitmap_unmark-Writes b s.sfs_freemap m.map_valid) [
      | inr (inl out, e) ↦ absurd (omega (arith, m.map_fits))
      | inr (inr clear, e) ↦ absurd (clash in_use clear)
      | inl (old, (c, e, w)) ↦ (
        c,
        rw e,
        record {
          size = m.size;
          device = m.device;
          fits = m.fits;
          word_sized = m.word_sized;
          map_fits = omega (arith, m.map_fits, w.size);
          map_valid = w.valid;
          over_used = λ j lo hi.
              let other : (b == j) ≡ false = ground arith in
              w.bits j ∙ (rw other (m.over_used j lo (omega (arith, w.size, hi))));
          zero_used =
              (let other : (b == 0) ≡ false = ==_ne b 0 nonzero in
                w.bits 0 ∙ (rw other m.zero_used));
        },
        w.bits,
      )
    ]
