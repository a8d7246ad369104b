-- ===== src/Sfs/Io.antt =====
-- `sfs_io` of kern/fs/sfs/sfs_vnode.c: the end of the file, and its new length.
use toy_os.Common.{
  ℕ, ◌+◌, ◌-◌, ◌^◌, ◌≤◌, ◌<◌, ◌≡◌, ◌≢◌, refl, sym, subst, ap, fun_ext, ◌∙◌, inl, inr, Bool, true,
  false, not, ◌&&◌, ◌||◌, Kernel, done, arith, Bool-cases, ltb, leb, if◌then◌else◌,
}
use toy_os.Coremap.{u32}
use toy_os.Uio.{Uio, is_read}
use toy_os.Uio.Moved.{Moved, Moved-none}
use toy_os.Sfs.{SfsFs, SfsVnode}
use toy_os.Sfs.FileIo.{FileIo, reframed, longer, io_out, reads_past, extra_resid, sfs_io}
use toy_os.Sfs.FileBytes.{fbyte, Serves, Leaves, Serves-refl}
use toy_os.Sfs.FileMoves.{FileFault, refused, too_big, bad_copy, FileMoves, Moved-reframed}
use toy_os.Sfs.Transfer.{IsTransfer, io_parts-FileMoves}

-- How many bytes are moved: a read ends at the end of the file.
abbrev pub io_length : Uio → SfsVnode → ℕ
io_length u sv =
    let left = sv.sv_i.sfi_size - u.uio_offset in
    if is_read u.uio_rw && ltb left u.uio_resid then left else u.uio_resid

-- The length of the file after it: a write past the end makes it longer.
abbrev pub io_size : Uio → SfsVnode → ℕ
io_size u sv =
    let end = u.uio_offset + u.uio_resid in
    if not (is_read u.uio_rw) && ltb sv.sv_i.sfi_size end then end else sv.sv_i.sfi_size

-- How `sfs_io` ends: with an errno, or with the bytes moved between the file and the regions.
pub data Transfers {D : Type 0} (word : D → ℕ → ℕ → ℕ) (u : Uio) (mem : ℕ → ℕ) (sv : SfsVnode)
    (s : SfsFs D) (r : Kernel (FileIo D)) : Type 0 where
  failed :
      (err : ℕ) (u' : Uio) (mem' : ℕ → ℕ) (sv' : SfsVnode) (t : SfsFs D)
      → r ≡ done (err, u', mem', sv', t)
      → err ≢ 0
      → Leaves word s sv t
      → FileFault u t err
      → Transfers word u mem sv s r
  transferred :
      (u' : Uio) (mem' : ℕ → ℕ) (sv' : SfsVnode) (t : SfsFs D)
      → r ≡ done (0, u', mem', sv', t)
      → Serves word s sv t sv'
      → sv'.sv_i.sfi_size ≡ io_size u sv
      → Moved u.uio_offset (io_length u sv) (fbyte word s sv) u mem (fbyte word t sv') u' mem'
      → Transfers word u mem sv s r

fbyte-longer :
    {D : Type 0} (word : D → ℕ → ℕ → ℕ) (t : SfsFs D) (sv : SfsVnode) (size j : ℕ)
    → fbyte word t (longer size sv) j ≡ fbyte word t sv j
unfolding longer
fbyte-longer word t sv size j = refl

sfi_size-longer : (sv : SfsVnode) (size : ℕ) → (longer size sv).sv_i.sfi_size ≡ u32 size
unfolding longer
sfi_size-longer sv size = refl

size_kept :
    (r r' : Bool) (extra off resid off' size size' : ℕ)
    → r' ≡ r
    → (r ≡ false → extra ≡ 0)
    → size' ≡ size
    → off' ≡ off + (resid - extra)
    → (not r' && ltb size' off') ≡ false
    → (if not r && ltb size (off + resid) then off + resid else size) ≡ size
size_kept true r' extra off resid off' size size' d h z o e = refl
size_kept false r' extra off resid off' size size' d h z o e =
    let none_extra = h refl in
    let out : (not r' && ltb size' off') ≡ ltb size (off + resid) =
      rw (d, z) (ap (ltb size) (omega arith)) in
    let small : ltb size (off + resid) ≡ false = sym out ∙ e in rw small

size_grown :
    (r r' : Bool) (extra off resid off' size size' : ℕ)
    → r' ≡ r
    → (r ≡ false → extra ≡ 0)
    → size' ≡ size
    → off' ≡ off + (resid - extra)
    → off + resid < 2 ^ 32
    → (not r' && ltb size' off') ≡ true
    → (if not r && ltb size (off + resid) then off + resid else size) ≡ u32 off'
size_grown true r' extra off resid off' size size' d h z o lt e =
    let never : (not r' && ltb size' off') ≡ false = rw d in cc
size_grown false r' extra off resid off' size size' d h z o lt e =
    let none_extra = h refl in
    let out : (not r' && ltb size' off') ≡ ltb size (off + resid) =
      rw (d, z) (ap (ltb size) (omega arith)) in
    let big : ltb size (off + resid) ≡ true = sym out ∙ e in rw big (omega arith)

extra_write : (u : Uio) (sv : SfsVnode) → is_read u.uio_rw ≡ false → extra_resid u sv ≡ 0
unfolding extra_resid reads_past
extra_write u sv e = rw e

module _ {D : Type 0} {word : D → ℕ → ℕ → ℕ} where
  -- The file with its length adjusted.
  longer-Serves :
      {s t : SfsFs D} {sv sv' : SfsVnode} (size : ℕ)
      → Serves word s sv t sv'
      → Serves word s sv t (longer size sv')
  unfolding longer
  longer-Serves size x = record {
    mounted = x.mounted;
    owns = x.owns;
    same_nblocks = x.same_nblocks;
    still_used = x.still_used;
    foreign = λ b f.
        (let g = x.foreign b f in
          record { in_use = g.in_use; no_entry = g.no_entry; no_indirect = g.no_indirect });
    foreign_kept = x.foreign_kept;
  }

  module _ (u : Uio) (mem : ℕ → ℕ) (sv : SfsVnode) (s : SfsFs D)
      (i : IsTransfer word u mem sv s) where
    -- The uio without what is past the end of the file.
    cut-IsTransfer :
        (extra : ℕ) → IsTransfer word (record u { uio_resid = u.uio_resid - extra }) mem sv s
    cut-IsTransfer extra =
        let w = i.whole in
        record {
          mounted = i.mounted;
          owns = i.owns;
          whole = record {
            fits = (let f = w.fits in omega arith);
            small = (let f = w.small in omega arith);
            apart = λ j k lj lk e. w.apart j k (omega arith) (omega arith) e;
          };
          bytes = i.bytes;
          ends_small = (let e = i.ends_small in omega arith);
          volume_small = i.volume_small;
        }

    module _ (inside : (is_read u.uio_rw && leb sv.sv_i.sfi_size u.uio_offset) ≡ false) where
      -- The KASSERT on the extra bytes.
      extra_fits : (not (reads_past u sv) || ltb (extra_resid u sv) u.uio_resid) ≡ true
      unfolding reads_past extra_resid
      extra_fits =
          elim (Bool-cases
            (is_read u.uio_rw && ltb sv.sv_i.sfi_size (u.uio_offset + u.uio_resid))) [
              | inr e ↦ rw e
              | inl e ↦
                  let end = i.ends_small in
                  let over : sv.sv_i.sfi_size < u.uio_offset + u.uio_resid = ground arith in
                  let lo : u.uio_offset < sv.sv_i.sfi_size = ground arith in
                  let fits : ltb (u32 (u.uio_offset + u.uio_resid - sv.sv_i.sfi_size)) u.uio_resid
                      ≡ true =
                    (let less : u32 (u.uio_offset + u.uio_resid - sv.sv_i.sfi_size) < u.uio_resid =
                        omega arith in
                      ground arith) in
                  rw (e, fits)
            ]

      extra_le : extra_resid u sv ≤ u.uio_resid
      unfolding reads_past extra_resid
      extra_le =
          elim (Bool-cases
            (is_read u.uio_rw && ltb sv.sv_i.sfi_size (u.uio_offset + u.uio_resid))) [
              | inr e ↦ rw e (omega arith)
              | inl e ↦
                  let end = i.ends_small in
                  let over : sv.sv_i.sfi_size < u.uio_offset + u.uio_resid = ground arith in
                  let lo : u.uio_offset < sv.sv_i.sfi_size = ground arith in rw e (omega arith)
            ]

      length_left : u.uio_resid - extra_resid u sv ≡ io_length u sv
      unfolding reads_past extra_resid
      length_left =
          elim (Bool-cases
            (is_read u.uio_rw && ltb sv.sv_i.sfi_size (u.uio_offset + u.uio_resid))) [
              | inr e ↦
                  let all : (is_read u.uio_rw && ltb (sv.sv_i.sfi_size - u.uio_offset) u.uio_resid)
                      ≡ false =
                    ground arith in
                  rw (e, all) (omega arith)
              | inl e ↦
                  let end = i.ends_small in
                  let over : sv.sv_i.sfi_size < u.uio_offset + u.uio_resid = ground arith in
                  let lo : u.uio_offset < sv.sv_i.sfi_size = ground arith in
                  let part : (is_read u.uio_rw && ltb (sv.sv_i.sfi_size - u.uio_offset) u.uio_resid)
                      ≡ true =
                    ground arith in
                  rw (e, part) (omega arith)
            ]

    cut_fault :
        (extra err : ℕ) (t : SfsFs D)
        → FileFault (record u { uio_resid = u.uio_resid - extra }) t err
        → FileFault u t err
    cut_fault extra err t (refused r) = refused r
    cut_fault extra err t (too_big e past) = too_big e (omega arith)
    cut_fault extra err t (bad_copy k lt c) =
        bad_copy k (omega arith) (record {
          segment = c.segment;
          size = c.size;
          some_bytes = c.some_bytes;
          errno = c.errno;
        })

    out_failed :
        (extra err : ℕ) (u' : Uio) (mem' : ℕ → ℕ) (sv' : SfsVnode) (t : SfsFs D)
        → err ≢ 0
        → Leaves word s sv t
        → FileFault (record u { uio_resid = u.uio_resid - extra }) t err
        → Transfers word u mem sv s (done (io_out extra (err, u', mem', sv', t)))
    unfolding io_out
    out_failed extra err u' mem' sv' t bad l why =
        let r = io_out extra (err, u', mem', sv', t) in
        failed err r.1 r.2 r.3 t refl bad l (cut_fault extra err t why)

    -- The end of `sfs_io` behind a transfer without an errno.
    out-Transfers :
        (extra : ℕ) (u' : Uio) (mem' : ℕ → ℕ) (sv' : SfsVnode) (t : SfsFs D)
        → extra ≤ u.uio_resid
        → u.uio_resid - extra ≡ io_length u sv
        → (is_read u.uio_rw ≡ false → extra ≡ 0)
        → Serves word s sv t sv'
        → sv'.sv_i.sfi_size ≡ sv.sv_i.sfi_size
        → Moved u.uio_offset
            (u.uio_resid - extra)
            (fbyte word s sv)
            (record u { uio_resid = u.uio_resid - extra })
            mem
            (fbyte word t sv')
            u'
            mem'
        → Transfers word u mem sv s (done (io_out extra (0, u', mem', sv', t)))
    unfolding io_out
    out-Transfers extra u' mem' sv' t le n all x size m =
        let off = m.offset in
        let res = m.resid in
        let small = i.whole.small in
        let end = i.ends_small in
        let same_dir : is_read u'.uio_rw ≡ is_read u.uio_rw = ap is_read m.same_rw in
        let resid = u32 (u'.uio_resid + extra) in
        let back : Moved u.uio_offset (io_length u sv) (fbyte word s sv) u mem (fbyte word t sv')
            (reframed u'.uio_offset resid u') mem' =
          subst
            (λ k.
              Moved u.uio_offset k (fbyte word s sv) u mem (fbyte word t sv')
                (reframed u'.uio_offset resid u') mem')
            n (Moved-reframed u'.uio_offset resid m off (omega arith)) in
        elim (Bool-cases (not (is_read u'.uio_rw) && ltb sv'.sv_i.sfi_size u'.uio_offset)) [
          | inr e ↦
              let kept : io_size u sv ≡ sv.sv_i.sfi_size =
                size_kept (is_read u.uio_rw) (is_read u'.uio_rw) extra u.uio_offset u.uio_resid
                  u'.uio_offset sv.sv_i.sfi_size sv'.sv_i.sfi_size same_dir all size off e in
              transferred (reframed u'.uio_offset resid u') mem' sv' t (rw e) x (size ∙ sym kept)
                back
          | inl e ↦
              let grown : io_size u sv ≡ u32 u'.uio_offset =
                size_grown (is_read u.uio_rw) (is_read u'.uio_rw) extra u.uio_offset u.uio_resid
                  u'.uio_offset sv.sv_i.sfi_size sv'.sv_i.sfi_size same_dir all size off end e in
              transferred (reframed u'.uio_offset resid u') mem' (longer u'.uio_offset sv') t (rw e)
                (longer-Serves u'.uio_offset x) (sfi_size-longer sv' u'.uio_offset ∙ sym grown)
                (subst
                  (λ f.
                    Moved u.uio_offset (io_length u sv) (fbyte word s sv) u mem f
                      (reframed u'.uio_offset resid u') mem')
                  (fun_ext (λ j. sym (fbyte-longer word t sv' u'.uio_offset j))) back)
        ]

  -- `sfs_io` of a file on a mounted volume of 4 GB at most, on a device that leaves the uio and its
  -- memory alone after an I/O error, fails no KASSERT and does not panic. It answers ENOSPC on a
  -- full volume, EFBIG past the last block of a file, an errno of the device or the errno of a copy
  -- to or from user space, or moves the bytes between the file, at the offset of the uio, and the
  -- regions, each to its place: a read as many as there are up to the end of the file, a write all,
  -- and the file is longer if the write ends past its end. The uio is advanced past what has been
  -- moved. What the other files have on the disk does not change, whether or not there is an errno.
  pub sfs_io-Transfers :
      (u : Uio) (mem : ℕ → ℕ) (sv : SfsVnode) (s : SfsFs D)
      → IsTransfer word u mem sv s
      → Transfers word u mem sv s (sfs_io u mem sv s)
  unfolding sfs_io
  sfs_io-Transfers u mem sv s i =
      elim (Bool-cases (is_read u.uio_rw && leb sv.sv_i.sfi_size u.uio_offset)) [
        | inl past ↦
            let reads : is_read u.uio_rw ≡ true = ground arith in
            let n : 0 ≡ io_length u sv = rw reads (ground arith) in
            let size : io_size u sv ≡ sv.sv_i.sfi_size = rw reads in
            transferred u mem sv s (rw past) (Serves-refl s sv i.mounted i.owns) (sym size) (
              subst (λ k. Moved u.uio_offset k (fbyte word s sv) u mem (fbyte word s sv) u mem) n
                (Moved-none u.uio_offset (fbyte word s sv) mem u u refl refl refl refl refl
                  (λ k. refl) refl))
        | inr inside ↦
            let extra = extra_resid u sv in
            let fits = extra_fits u mem sv s i inside in
            elim (io_parts-FileMoves (record u { uio_resid = u.uio_resid - extra }) mem sv s
              (cut-IsTransfer u mem sv s i extra)) [
                | FileMoves.failed err u' mem' sv' t e bad same l why ↦
                    rw (inside, fits, e) (out_failed u mem sv s i extra err u' mem' sv' t bad l why)
                | FileMoves.moved u' mem' sv' t e x size m ↦
                    rw (inside, fits, e)
                      (out-Transfers u mem sv s i extra u' mem' sv' t (extra_le u mem sv s i inside)
                        (length_left u mem sv s i inside) (extra_write u sv) x size m)
              ]
      ]
