-- ===== src/Sfs/Transfer.antt =====
-- `sfs_io` of kern/fs/sfs/sfs_vnode.c.
use toy_os.Common.{
  ℕ, zero, suc, ◌+◌, ◌-◌, ◌*◌, ◌/◌, ◌%◌, ◌^◌, ◌≤◌, ◌<◌, ◌≡◌, ◌≢◌, refl, sym, subst, ap, ◌∙◌, inl,
  inr, true, false, done, ◌>>=◌, arith, Bool-cases, ltb, ◌==◌, if◌then◌else◌, ==_ne, ℕ_discrete,
}
use toy_os.Uio.{Uio}
use toy_os.Uio.Moved.{IsUio, Moved, IsUio-Moved, Moved-none}
use toy_os.Sfs.{sfs_blocksize, SfsFs, SfsVnode}
use toy_os.Sfs.Blocks.{IsMounted}
use toy_os.Sfs.Owns.{Owns}
use toy_os.Sfs.FileIo.{
  unless_failed, sfs_partialio, leading_part, whole_blocks, trailing_part, aligned_part, io_parts,
}
use toy_os.Sfs.FileBytes.{fbyte, Serves, Serves-refl}
use toy_os.Sfs.FileMoves.{FileMoves, FileMoves-then}
use toy_os.Sfs.Partial.{HoldsBytes, sfs_partialio-FileMoves}
use toy_os.Sfs.Whole.{sfs_blockio-FileMoves}

-- A file of a mounted volume of 4 GB at most, and a uio for it.
pub record IsTransfer {D : Type 0} (word : D → ℕ → ℕ → ℕ) (u : Uio) (mem : ℕ → ℕ) (sv : SfsVnode)
    (s : SfsFs D) : Type 0 where
  pub mounted : IsMounted word s
  pub owns : Owns word s sv
  pub whole : IsUio u
  pub bytes : HoldsBytes u mem
  pub ends_small : u.uio_offset + u.uio_resid < 2 ^ 32
  pub volume_small : s.sp_nblocks * sfs_blocksize ≤ 2 ^ 32

module _ {D : Type 0} {word : D → ℕ → ℕ → ℕ} where
  IsTransfer-Serves :
      {n : ℕ} {u u' : Uio} {mem mem' : ℕ → ℕ} {sv sv' : SfsVnode} {s t : SfsFs D} {f f' : ℕ → ℕ}
      → IsTransfer word u mem sv s
      → Serves word s sv t sv'
      → Moved u.uio_offset n f u mem f' u' mem'
      → IsTransfer word u' mem' sv' t
  IsTransfer-Serves i x m = record {
    mounted = x.mounted;
    owns = x.owns;
    whole = IsUio-Moved i.whole m;
    bytes = λ w a.
        subst (λ b. b < 256) (sym (m.writes_memory (sym m.same_rw ∙ w) a))
          (i.bytes (sym m.same_rw ∙ w) a);
    ends_small = (let e = i.ends_small in let o = m.offset in let r = m.resid in omega arith);
    volume_small = (let v = i.volume_small in let n = x.same_nblocks in omega arith);
  }

  module _ (u : Uio) (mem : ℕ → ℕ) (sv : SfsVnode) (s : SfsFs D)
      (i : IsTransfer word u mem sv s) where
    nothing-FileMoves : FileMoves word 0 u mem sv s (done (0, u, mem, sv, s))
    nothing-FileMoves = FileMoves.moved u mem sv s refl (Serves-refl s sv i.mounted i.owns) refl (
        Moved-none u.uio_offset (fbyte word s sv) mem u u refl refl refl refl refl (λ k. refl) refl)

    partial-FileMoves :
        (skip len : ℕ)
        → u.uio_offset < 2 ^ 32
        → skip ≡ u.uio_offset % sfs_blocksize
        → skip + len ≤ sfs_blocksize
        → len ≤ u.uio_resid
        → FileMoves word len u mem sv s (sfs_partialio skip len u mem sv s)
    partial-FileMoves skip len small at fits enough =
        sfs_partialio-FileMoves skip len u mem sv s i.mounted i.owns i.whole i.bytes small at fits
          enough

    -- The bytes of the leading partial block.
    abbrev leading : ℕ
    leading =
        if u.uio_offset % sfs_blocksize == 0
        then 0
        else (if ltb u.uio_resid (sfs_blocksize - u.uio_offset % sfs_blocksize)
            then u.uio_resid
            else sfs_blocksize - u.uio_offset % sfs_blocksize)

    leading_part-FileMoves : FileMoves word leading u mem sv s (leading_part u mem sv s)
    unfolding leading_part
    leading_part-FileMoves = elim (Bool-cases (u.uio_offset % sfs_blocksize == 0)) [
      | inl e ↦ rw e nothing-FileMoves
      | inr e ↦
          let end = i.ends_small in
          rw e (
            partial-FileMoves (u.uio_offset % sfs_blocksize)
              (if ltb u.uio_resid (sfs_blocksize - u.uio_offset % sfs_blocksize)
                then u.uio_resid
                else sfs_blocksize - u.uio_offset % sfs_blocksize)
              (omega arith) refl (ground arith) (ground arith))
    ]

    trailing_part-FileMoves :
        u.uio_offset % sfs_blocksize ≡ 0
        → u.uio_resid < sfs_blocksize
        → FileMoves word u.uio_resid u mem sv s (trailing_part u mem sv s)
    unfolding trailing_part
    trailing_part-FileMoves aligned lt =
        let small : ltb u.uio_resid sfs_blocksize ≡ true = ground arith in
        elim (Bool-cases (ltb 0 u.uio_resid)) [
          | inl e ↦
              let end = i.ends_small in
              rw (small, e)
                (partial-FileMoves 0 u.uio_resid (omega arith) (sym aligned) (omega arith)
                  (omega arith))
          | inr e ↦
              let none_left : 0 ≡ u.uio_resid = ground arith in
              rw (small, e)
                (subst (λ n. FileMoves word n u mem sv s (done (0, u, mem, sv, s))) none_left
                  nothing-FileMoves)
        ]

  whole_blocks-FileMoves :
      (nblocks : ℕ) (u : Uio) (mem : ℕ → ℕ) (sv : SfsVnode) (s : SfsFs D)
      → IsTransfer word u mem sv s
      → u.uio_offset % sfs_blocksize ≡ 0
      → nblocks * sfs_blocksize ≤ u.uio_resid
      → FileMoves word (nblocks * sfs_blocksize) u mem sv s (whole_blocks nblocks u mem sv s)
  unfolding whole_blocks
  whole_blocks-FileMoves zero u mem sv s i aligned enough = nothing-FileMoves u mem sv s i
  whole_blocks-FileMoves (suc nblocks) u mem sv s i aligned enough =
      let end = i.ends_small in
      let sum : sfs_blocksize + nblocks * sfs_blocksize ≡ suc nblocks * sfs_blocksize =
        omega arith in
      subst (λ n. FileMoves word n u mem sv s (whole_blocks (suc nblocks) u mem sv s)) sum
        (FileMoves-then (whole_blocks nblocks) i.whole (omega arith)
          (sfs_blockio-FileMoves u mem sv s i.mounted i.owns i.whole i.bytes (omega arith) aligned
            (omega arith) i.volume_small)
          (λ u1 mem1 sv1 s1 x m.
            (let o = m.offset in
              let r = m.resid in
              whole_blocks-FileMoves nblocks u1 mem1 sv1 s1 (IsTransfer-Serves i x m) (omega arith)
                (omega arith))))

  aligned_part-FileMoves :
      (u : Uio) (mem : ℕ → ℕ) (sv : SfsVnode) (s : SfsFs D)
      → IsTransfer word u mem sv s
      → (u.uio_resid ≢ 0 → u.uio_offset % sfs_blocksize ≡ 0)
      → FileMoves word u.uio_resid u mem sv s (aligned_part u mem sv s)
  unfolding aligned_part
  aligned_part-FileMoves u mem sv s i aligned = elim (ℕ_discrete u.uio_resid 0) [
    | yes z ↦
        let none_left : (u.uio_resid == 0) ≡ true = ground arith in
        rw none_left (
          subst (λ n. FileMoves word n u mem sv s (done (0, u, mem, sv, s))) (sym z)
            (nothing-FileMoves u mem sv s i))
    | no some_left ↦
        let more : (u.uio_resid == 0) ≡ false = ==_ne _ 0 some_left in
        let on_block : (u.uio_offset % sfs_blocksize == 0) ≡ true =
          (let a = aligned some_left in ground arith) in
        let a = aligned some_left in
        let sum : u.uio_resid / sfs_blocksize * sfs_blocksize + u.uio_resid % sfs_blocksize
            ≡ u.uio_resid =
          omega arith in
        rw (more, on_block)
          (subst
            (λ n. FileMoves word n u mem sv s (
              whole_blocks (u.uio_resid / sfs_blocksize) u mem sv s >>= λ r.
              unless_failed r trailing_part))
            sum
            (FileMoves-then trailing_part i.whole (omega arith)
              (whole_blocks-FileMoves (u.uio_resid / sfs_blocksize) u mem sv s i a (omega arith))
              (λ u1 mem1 sv1 s1 x m.
                (let o = m.offset in
                  let r = m.resid in
                  let left : u1.uio_resid ≡ u.uio_resid % sfs_blocksize = omega arith in
                  subst (λ n. FileMoves word n u1 mem1 sv1 s1 (trailing_part u1 mem1 sv1 s1)) left
                    (trailing_part-FileMoves u1 mem1 sv1 s1 (IsTransfer-Serves i x m) (omega arith)
                      (omega arith))))))
  ]

  pub io_parts-FileMoves :
      (u : Uio) (mem : ℕ → ℕ) (sv : SfsVnode) (s : SfsFs D)
      → IsTransfer word u mem sv s
      → FileMoves word u.uio_resid u mem sv s (io_parts u mem sv s)
  unfolding io_parts
  io_parts-FileMoves u mem sv s i =
      let n = leading u mem sv s i in
      let le : n ≤ u.uio_resid = leading_le u.uio_offset u.uio_resid in
      let sum : n + (u.uio_resid - n) ≡ u.uio_resid = omega (arith, le) in
      subst
        (λ k.
          FileMoves word k u mem sv s
            (leading_part u mem sv s >>= λ r. unless_failed r aligned_part))
        sum
        (FileMoves-then aligned_part i.whole (omega (arith, le))
          (leading_part-FileMoves u mem sv s i)
          (λ u1 mem1 sv1 s1 x m.
            (let o = m.offset in
              let r = m.resid in
              let left : u1.uio_resid ≡ u.uio_resid - n = omega (arith, r) in
              subst (λ k. FileMoves word k u1 mem1 sv1 s1 (aligned_part u1 mem1 sv1 s1)) left
                (aligned_part-FileMoves u1 mem1 sv1 s1 (IsTransfer-Serves i x m) (λ some_left.
                  (ap (λ k. k % sfs_blocksize) o
                    ∙ leading_aligned u.uio_offset u.uio_resid (λ z. some_left (left ∙ z))))))))
    where
      lead : ℕ → ℕ → ℕ
      lead off resid =
          if off % sfs_blocksize == 0
          then 0
          else (if ltb resid (sfs_blocksize - off % sfs_blocksize)
              then resid
              else sfs_blocksize - off % sfs_blocksize)

      leading_le : (off resid : ℕ) → lead off resid ≤ resid
      leading_le off resid = ground arith

      leading_aligned :
          (off resid : ℕ) → resid - lead off resid ≢ 0 → (off + lead off resid) % sfs_blocksize ≡ 0
      leading_aligned off resid h = elim (Bool-cases (off % sfs_blocksize == 0)) [
        | inl e ↦ rw e (ground arith)
        | inr e ↦ elim (Bool-cases (ltb resid (sfs_blocksize - off % sfs_blocksize))) [
          | inl f ↦ absurd (h (rw (e, f) (omega arith)))
          | inr f ↦ rw (e, f) (omega arith)
        ]
      ]
