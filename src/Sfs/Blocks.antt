-- ===== src/Sfs/Blocks.antt =====
-- `sfs_balloc`, `sfs_bfree` and `sfs_bused` of kern/fs/sfs/sfs_vnode.c on a mounted volume.
use toy_os.Common.{
  ℕ, ◌≤◌, ◌^◌, ◌<◌, ◌≡◌, ◌≢◌, refl, sym, ap, ◌∙◌, inl, inr, Bool, true, false, Kernel, done, arith,
  Bool-cases, load_words, leb, ◌==◌, if◌then◌else◌, ==_ne, dec_lt, ℕ_discrete,
}
use toy_os.Bitmap.{Bitmap, bitmap_isset}
use toy_os.Bitmap.Laws
use toy_os.Bitmap.Laws.{Writes, bitmap_unmark-Writes}
use toy_os.Bitmap.Alloc
use toy_os.Bitmap.Alloc.{no_space, bitmap_alloc-Allocates}
use toy_os.Sfs.{enospc, sfs_dbperidb, SfsFs, sfs_clearblock, balloc_found, sfs_balloc}
use toy_os.Sfs.Disk.{DeviceFailed, IsDevice, with_device, sfs_wblock-Puts}

-- The bit of a block in the free map.
abbrev pub used : {D : Type 0} → SfsFs D → ℕ → Bool
used s b = bitmap_isset s.sfs_freemap b

-- A volume whose free map covers its blocks; block 0, the superblock, and what is past the end of
-- the volume are marked in use, as mksfs leaves them.
pub record IsMounted {D : Type 0} (word : D → ℕ → ℕ → ℕ) (s : SfsFs D) : Type 0 where
  pub size : ℕ
  pub device : IsDevice s.d_io size word
  pub fits : s.sp_nblocks ≤ size
  pub word_sized : s.sp_nblocks ≤ 2 ^ 32
  pub map_fits : s.sp_nblocks ≤ s.sfs_freemap.nbits
  pub map_valid : Laws.IsValid s.sfs_freemap
  pub over_used : (b : ℕ) → s.sp_nblocks ≤ b → b < s.sfs_freemap.nbits → used s b ≡ true
  pub zero_used : used s 0 ≡ true

-- What is left alone by a routine that only takes free blocks.
pub record Grows {D : Type 0} (word : D → ℕ → ℕ → ℕ) (s t : SfsFs D) : Type 0 where
  pub mounted : IsMounted word t
  pub same_nblocks : t.sp_nblocks ≡ s.sp_nblocks
  pub still_used : (b : ℕ) → used s b ≡ true → used t b ≡ true
  pub words_kept : (b i : ℕ) → used s b ≡ true → word t.sfs_device b i ≡ word s.sfs_device b i

-- A free block that has been taken, filled with zeros.
pub record TakesBlock {D : Type 0} (word : D → ℕ → ℕ → ℕ) (s t : SfsFs D) (block : ℕ) : Type 0 where
  pub grows : Grows word s t
  pub was_free : used s block ≡ false
  pub nonzero : block ≢ 0
  pub in_range : block < s.sp_nblocks
  pub bits : (b : ℕ) → used t b ≡ (if block == b then true else used s b)
  pub zeros : (i : ℕ) → i < sfs_dbperidb → word t.sfs_device block i ≡ 0
  pub kept : (b i : ℕ) → block ≢ b → word t.sfs_device b i ≡ word s.sfs_device b i

-- Why a block cannot be had: the volume is full, or the device has answered the errno.
pub data Refused {D : Type 0} (t : SfsFs D) (err : ℕ) : Type 0 where
  full_volume : err ≡ enospc → ((b : ℕ) → b < t.sfs_freemap.nbits → used t b ≡ true) → Refused t err
  device_failed : DeviceFailed t err → Refused t err

-- How an allocation ends: with an errno, or with a block.
pub data Ballocs {D : Type 0} (word : D → ℕ → ℕ → ℕ) (s : SfsFs D) (r : Kernel (ℕ × ℕ × SfsFs D))
    : Type 0 where
  failed :
      (err block : ℕ) (t : SfsFs D)
      → r ≡ done (err, block, t)
      → (err == 0) ≡ false
      → Grows word s t
      → Refused t err
      → Ballocs word s r
  takes_block :
      (block : ℕ) (t : SfsFs D)
      → r ≡ done (0, block, t)
      → TakesBlock word s t block
      → Ballocs word s r

abbrev pub with_map : {D : Type 0} → SfsFs D → Bitmap → SfsFs D
with_map s c = record s { sfs_freemap = c; sfs_freemapdirty = true }

used_after :
    {a c : Bitmap} {i : ℕ} (b : ℕ)
    → Writes a i true c
    → bitmap_isset a b ≡ true
    → bitmap_isset c b ≡ true
used_after {i = i} b w u = elim (Bool-cases (i == b)) [
  | inl e ↦ w.bits b ∙ rw e
  | inr e ↦ w.bits b ∙ rw (e, u)
]

-- A block of zeros, as words.
load_words_zero : (k : ℕ) → load_words (λ i. 0) k ≡ 0
unfolding load_words
load_words_zero k = refl

pub clash : {a : Bool} → a ≡ true → a ≡ false → ⊥
clash e f = cc

module _ {D : Type 0} {word : D → ℕ → ℕ → ℕ} where
  -- A device that has changed.
  pub IsMounted-with_device :
      (s : SfsFs D) (d : D) → IsMounted word s → IsMounted word (with_device s d)
  IsMounted-with_device s d m = record {
    size = m.size;
    device = m.device;
    fits = m.fits;
    word_sized = m.word_sized;
    map_fits = m.map_fits;
    map_valid = m.map_valid;
    over_used = m.over_used;
    zero_used = m.zero_used;
  }

  pub Grows-refl : (s : SfsFs D) → IsMounted word s → Grows word s s
  Grows-refl s m = record {
    mounted = m;
    same_nblocks = refl;
    still_used = λ b u. u;
    words_kept = λ b i u. refl;
  }

  pub Grows-trans : {s t u : SfsFs D} → Grows word s t → Grows word t u → Grows word s u
  Grows-trans g h = record {
    mounted = h.mounted;
    same_nblocks = h.same_nblocks ∙ g.same_nblocks;
    still_used = λ b n. h.still_used b (g.still_used b n);
    words_kept = λ b i n. h.words_kept b i (g.still_used b n) ∙ g.words_kept b i n;
  }

  IsMounted-with_map :
      (s : SfsFs D) (c : Bitmap) (i : ℕ)
      → Writes s.sfs_freemap i true c
      → IsMounted word s
      → IsMounted word (with_map s c)
  IsMounted-with_map s c i w m = record {
    size = m.size;
    device = m.device;
    fits = m.fits;
    word_sized = m.word_sized;
    map_fits = omega (arith, m.map_fits, w.size);
    map_valid = w.valid;
    over_used = λ b lo hi. used_after b w (m.over_used b lo (omega (arith, w.size, hi)));
    zero_used = used_after 0 w m.zero_used;
  }

  -- `sfs_balloc` fails no KASSERT and does not panic: it answers an errno, with every block in use
  -- kept, or gives a block that was free, marked in use and filled with zeros.
  pub sfs_balloc-Ballocs : (s : SfsFs D) → IsMounted word s → Ballocs word s (sfs_balloc s)
  unfolding sfs_balloc balloc_found sfs_clearblock
  sfs_balloc-Ballocs s m = elim (bitmap_alloc-Allocates s.sfs_freemap m.map_valid) [
    | no_space full e ↦ failed enospc 0 s (rw e) refl (Grows-refl s m) (full_volume refl full)
    | Alloc.takes i c e lt clear below w ↦ elim (dec_lt i s.sp_nblocks) [
      | no out ↦ absurd (clash (m.over_used i (omega arith) lt) clear)
      | yes small ↦
          let t = with_map s c in
          let tm = IsMounted-with_map s c i w m in
          let inside : leb s.sp_nblocks i ≡ false = ground arith in
          let (err, d, ends, wrote, keeps, blame) =
            sfs_wblock-Puts (λ k. 0) i t m.device (omega (arith, m.fits)) in
          let other : (b : ℕ) → used s b ≡ true → i ≢ b =
            λ b n e. clash n (ap (used s) (sym e) ∙ clear) in
          let u = with_device t d in
          let grows : Grows word s u = record {
            mounted = IsMounted-with_device t d tm;
            same_nblocks = refl;
            still_used = λ b n. used_after b w n;
            words_kept = λ b k n. keeps b k (other b n);
          } in
          elim (ℕ_discrete err 0) [
            | no bad ↦
                failed err i u (rw (e, inside, ends)) (==_ne err 0 bad) grows (device_failed blame)
            | yes ok ↦
                takes_block i u (rw (e, inside, ends) (ap (λ k. done (k, i, u)) ok)) (record {
                  grows = grows;
                  was_free = clear;
                  nonzero = λ z. clash (ap (used s) z ∙ m.zero_used) clear;
                  in_range = small;
                  bits = w.bits;
                  zeros = λ k lk. wrote ok k lk ∙ load_words_zero k;
                  kept = keeps;
                })
          ]
    ]
  ]
