-- ===== src/Sfs/Directory/Names.antt =====
-- `sfs_dir_findname` of kern/fs/sfs/sfs_vnode.c on the bytes of a directory.
use toy_os.Common.{
  ℕ, zero, suc, ◌+◌, ◌*◌, ◌/◌, ◌%◌, ◌^◌, ◌≤◌, ◌<◌, ◌≡◌, ◌≢◌, refl, sym, subst, ap, ◌∙◌, inl, inr,
  Bool, true, false, not, ◌&&◌, Option, none, some, Kernel, done, arith, Bool-cases, ◌==◌,
  if◌then◌else◌, ==_ne, ℕ_discrete, load_words, update,
}
use toy_os.Uio.{uio_read}
use toy_os.Sfs.FileMoves.{FileFault}
use toy_os.Sfs.{sfs_blocksize, SfsFs, SfsVnode}
use toy_os.Sfs.Blocks.{clash, IsMounted}
use toy_os.Sfs.Owns.{Owns}
use toy_os.Sfs.FileBytes.{fbyte, Serves, Leaves, Serves-refl, Serves-trans, Leaves-trans}
use toy_os.Sfs.Directory.{
  dir_uio, enoent, sfs_dirsize, sfs_type_dir, sfd_ino, sfs_dir_nentries, same_string, is_named,
  Found, see_slot, findname_loop, sfs_dir_findname,
}
use toy_os.Sfs.Directory.Slots.{IsSlot, Readdirs, entry_read, sfs_readdir-Readdirs}

-- The bytes of a slot, and whether it is an entry of the name.
abbrev pub slot_bytes : (ℕ → ℕ) → ℕ → ℕ → ℕ
slot_bytes bytes j k = bytes (j * sfs_dirsize + k)

abbrev pub is_entry : (ℕ → ℕ) → (ℕ → ℕ) → ℕ → Bool
is_entry bytes name j =
    not (sfd_ino (slot_bytes bytes j) == 0) && is_named name (slot_bytes bytes j)

same_string_cong :
    (n : ℕ) (a a' b : ℕ → ℕ)
    → ((k : ℕ) → k < n → a k ≡ a' k)
    → same_string n a b ≡ same_string n a' b
unfolding same_string
same_string_cong zero a a' b same = refl
same_string_cong (suc n) a a' b same =
    let first = same 0 (omega arith) in
    let rest =
      same_string_cong n (λ k. a (k + 1)) (λ k. a' (k + 1)) (λ k. b (k + 1))
        (λ k lk. same (k + 1) (omega arith)) in
    rw (first, rest)

is_named_cong :
    (name sd sd' : ℕ → ℕ)
    → ((k : ℕ) → k < sfs_dirsize → sd k ≡ sd' k)
    → is_named name sd ≡ is_named name sd'
unfolding is_named
is_named_cong name sd sd' same =
    same_string_cong 60 (λ k. update sd 63 0 (k + 4)) (λ k. update sd' 63 0 (k + 4)) name
      (λ k lk. elim (Bool-cases (63 == k + 4)) [
        | inl e ↦ rw e
        | inr e ↦ rw e (same (k + 4) (omega arith))
      ])

sfd_ino_cong :
    (sd sd' : ℕ → ℕ) → ((k : ℕ) → k < sfs_dirsize → sd k ≡ sd' k) → sfd_ino sd ≡ sfd_ino sd'
unfolding load_words
sfd_ino_cong sd sd' same =
    let s0 = same 0 (omega arith) in
    let s1 = same 1 (omega arith) in
    let s2 = same 2 (omega arith) in let s3 = same 3 (omega arith) in rw (s0, s1, s2, s3)

-- What is known of the slots below `i`.
pub record Seen (bytes name : ℕ → ℕ) (i : ℕ) (f : Found) : Type 0 where
  pub there :
      f.found ≡ true
      → (f.slot < i)
        × (is_entry bytes name f.slot ≡ true)
        × (f.ino ≡ sfd_ino (slot_bytes bytes f.slot))
  pub not_there : f.found ≡ false → (j : ℕ) → j < i → is_entry bytes name j ≡ false
  pub free : (e : ℕ) → f.emptyslot ≡ some e → (e < i) × (sfd_ino (slot_bytes bytes e) ≡ 0)

-- One slot more.
see_slot-Seen :
    (bytes name sd : ℕ → ℕ) (i : ℕ) (f : Found)
    → ((k : ℕ) → k < sfs_dirsize → sd k ≡ slot_bytes bytes i k)
    → ((j : ℕ) → j < i → is_entry bytes name j ≡ true → is_entry bytes name i ≡ false)
    → Seen bytes name i f
    → (g : Found) × (see_slot i name sd f ≡ done g) × Seen bytes name (i + 1) g
unfolding see_slot
see_slot-Seen bytes name sd i f same distinct seen =
    let ino = sfd_ino_cong sd (slot_bytes bytes i) same in
    let named = is_named_cong name sd (slot_bytes bytes i) same in
    elim (Bool-cases (sfd_ino sd == 0)) [
      | inl e ↦
          let no_entry : is_entry bytes name i ≡ false =
            (let z : (sfd_ino (slot_bytes bytes i) == 0) ≡ true = sym (ap (λ n. n == 0) ino) ∙ e in
              rw z) in
          (
            record f { emptyslot = some i },
            rw e,
            record {
              there = λ h. one_more (seen.there h);
              not_there = λ h. none_more no_entry (seen.not_there h);
              free = λ k h.
                  (let at : i ≡ k = ap (λ o. slot_or 0 o) h in
                    let z : sfd_ino sd ≡ 0 = ground arith in
                    (omega arith, ap (λ j. sfd_ino (slot_bytes bytes j)) (sym at) ∙ (sym ino ∙ z)));
            },
          )
      | inr e ↦
          let live : (sfd_ino (slot_bytes bytes i) == 0) ≡ false = sym (ap (λ n. n == 0) ino) ∙ e in
          let free : (k : ℕ)
              → f.emptyslot ≡ some k
              → (k < i + 1) × (sfd_ino (slot_bytes bytes k) ≡ 0) =
            λ k h. (let (lt, z) = seen.free k h in (omega arith, z)) in
          elim (Bool-cases (is_named name sd)) [
            | inr other ↦
                let no_entry : is_entry bytes name i ≡ false =
                  (let z = sym named ∙ other in rw (live, z)) in
                (
                  f,
                  rw (e, other),
                  record {
                    there = λ h. one_more (seen.there h);
                    not_there = λ h. none_more no_entry (seen.not_there h);
                    free = free;
                  },
                )
            | inl this ↦
                let an_entry : is_entry bytes name i ≡ true =
                  (let z = sym named ∙ this in rw (live, z)) in
                let first : f.found ≡ false = elim (Bool-cases f.found) [
                  | inr no_other ↦ no_other
                  | inl again ↦
                      let (lt, is, z) = seen.there again in
                      absurd (clash an_entry (distinct f.slot lt is))
                ] in
                (
                  record f { found = true; slot = i; ino = sfd_ino sd },
                  rw (e, this, first),
                  record {
                    there = λ h. (omega arith, an_entry, ino);
                    not_there = λ h. absurd (clash refl h);
                    free = free;
                  },
                )
          ]
    ]
  where
    slot_or : ℕ → Option ℕ → ℕ
    slot_or d none = d
    slot_or d (some x) = x

    one_more :
        (f.slot < i)
          × (is_entry bytes name f.slot ≡ true)
          × (f.ino ≡ sfd_ino (slot_bytes bytes f.slot))
        → (f.slot < i + 1)
          × (is_entry bytes name f.slot ≡ true)
          × (f.ino ≡ sfd_ino (slot_bytes bytes f.slot))
    one_more (lt, is, z) = (omega arith, is, z)

    none_more :
        is_entry bytes name i ≡ false
        → ((j : ℕ) → j < i → is_entry bytes name j ≡ false)
        → (j : ℕ) → j < i + 1
        → is_entry bytes name j ≡ false
    none_more last below j lt = elim (ℕ_discrete j i) [
      | yes e ↦ ap (is_entry bytes name) e ∙ last
      | no e ↦ below j (omega arith)
    ]

-- How `sfs_dir_findname` ends: with the errno of the read of a slot, with the slot and the inode of
-- the name, or with ENOENT where no entry has it. The directory and the other files are as they
-- were; `emptyslot` is free.
pub data Finds {D : Type 0} (word : D → ℕ → ℕ → ℕ) (n : ℕ) (bytes name : ℕ → ℕ) (sv : SfsVnode)
    (s : SfsFs D) (r : Kernel (ℕ × Found × SfsVnode × SfsFs D)) : Type 0 where
  failed :
      (err : ℕ) (f : Found) (sv' : SfsVnode) (t : SfsFs D)
      → r ≡ done (err, f, sv', t)
      → err ≢ 0
      → Leaves word s sv t
      → (i : ℕ) → i < n
      → FileFault (dir_uio i uio_read) t err
      → Finds word n bytes name sv s r
  finds :
      (f : Found) (sv' : SfsVnode) (t : SfsFs D)
      → r ≡ done ((if f.found then 0 else enoent), f, sv', t)
      → Seen bytes name n f
      → Serves word s sv t sv'
      → ((j : ℕ) → fbyte word t sv' j ≡ bytes j)
      → Finds word n bytes name sv s r

module _ {D : Type 0} {word : D → ℕ → ℕ → ℕ} (n : ℕ) (bytes name : ℕ → ℕ)
    (distinct : (j k : ℕ)
      → k < n
      → j < k
      → is_entry bytes name j ≡ true
      → is_entry bytes name k ≡ false) where
  findname_loop-Finds :
      (rounds i : ℕ) (f : Found) (sd : ℕ → ℕ) (sv : SfsVnode) (s : SfsFs D)
      → i + rounds ≡ n
      → Seen bytes name i f
      → IsMounted word s
      → Owns word s sv
      → s.sp_nblocks * sfs_blocksize ≤ 2 ^ 32
      → sv.sv_i.sfi_size ≡ n * sfs_dirsize
      → sv.sv_i.sfi_size < 2 ^ 32
      → ((j : ℕ) → fbyte word s sv j ≡ bytes j)
      → Finds word n bytes name sv s (findname_loop rounds i name f sd sv s)
  unfolding findname_loop
  findname_loop-Finds zero i f sd sv s at seen m o volume size small same =
      let all : i ≡ n = omega arith in
      finds f sv s refl (subst (λ k. Seen bytes name k f) all seen) (Serves-refl s sv m o) same
  findname_loop-Finds (suc rounds) i f sd sv s at seen m o volume size small same =
      let slot : IsSlot word i sv s = record {
        mounted = m;
        owns = o;
        slot_small = omega arith;
        volume_small = volume;
      } in
      elim (sfs_readdir-Readdirs i sd sv s slot (omega arith)) [
        | Readdirs.failed err sd1 sv1 t e bad l why ↦
            let wrong : (err == 0) ≡ false = ==_ne err 0 bad in
            failed err f sv1 t (rw (e, wrong)) bad l i (omega arith) why
        | entry_read sd1 sv1 t e x same_size read kept ↦
            let (g, run, seen1) =
              see_slot-Seen bytes name sd1 i f (λ k lk. read k lk ∙ same (i * sfs_dirsize + k))
                (λ j lt is. distinct j i (omega arith) lt is) seen in
            let blocks = x.same_nblocks in
            rw (e, run)
              (elim (findname_loop-Finds rounds (i + 1) g sd1 sv1 t (omega arith) seen1 x.mounted
                x.owns (omega arith) (same_size ∙ size) (omega arith) (λ j. kept j ∙ same j)) [
                  | failed err h sv2 t2 e2 bad l j lj why ↦
                      failed err h sv2 t2 e2 bad (Leaves-trans x l) j lj why
                  | finds h sv2 t2 e2 seen2 y same2 ↦
                      finds h sv2 t2 e2 seen2 (Serves-trans x y) same2
                ])
      ]

  -- `sfs_dir_findname` of a directory in which no name stands twice, on a mounted volume of 4 GB at
  -- most and on a device that leaves the uio and its memory alone after an I/O error, ends, fails
  -- no KASSERT and does not panic. It answers an errno with which the read of a slot has failed, or
  -- gives the slot and the inode of the name, or ENOENT where no entry has the name; the empty slot
  -- that it gives is free. The directory does not change.
  pub sfs_dir_findname-Finds :
      (sd : ℕ → ℕ) (sv : SfsVnode) (s : SfsFs D)
      → sv.sv_i.sfi_type ≡ sfs_type_dir
      → IsMounted word s
      → Owns word s sv
      → s.sp_nblocks * sfs_blocksize ≤ 2 ^ 32
      → sv.sv_i.sfi_size ≡ n * sfs_dirsize
      → sv.sv_i.sfi_size < 2 ^ 32
      → ((j : ℕ) → fbyte word s sv j ≡ bytes j)
      → Finds word n bytes name sv s (sfs_dir_findname name sd sv s)
  unfolding sfs_dir_findname sfs_dir_nentries
  sfs_dir_findname-Finds sd sv s dir m o volume size small same =
      let is_dir : (sv.sv_i.sfi_type == sfs_type_dir) ≡ true = ground arith in
      let whole : (sv.sv_i.sfi_size % sfs_dirsize == 0) ≡ true =
        (let z : sv.sv_i.sfi_size % sfs_dirsize ≡ 0 = omega arith in ground arith) in
      let entries : sv.sv_i.sfi_size / sfs_dirsize ≡ n = omega arith in
      rw (is_dir, whole, entries)
        (findname_loop-Finds n 0 (record { found = false; ino = 0; slot = 0; emptyslot = none }) sd
          sv s (omega arith)
          (record {
            there = λ h. absurd (clash h refl);
            not_there = λ h j lt. absurd (omega arith);
            free = λ e h. absurd (no_slot e h);
          })
          m o volume size small same)
    where
      is_some : Option ℕ → Bool
      is_some none = false
      is_some (some x) = true

      no_slot : (e : ℕ) → none ≡ some e → ⊥
      no_slot e h = clash refl (ap is_some (sym h))
