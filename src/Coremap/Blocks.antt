-- ===== src/Coremap/Blocks.antt =====
-- The core map of kern/arch/mips/vm/dumbvm.c as a set of blocks of frames: what `coremap_alloc`
-- and `coremap_dealloc` do to the blocks that are handed out.
use toy_os.Common.{
  ℕ, ◌+◌, ◌-◌, ◌*◌, ◌/◌, ◌^◌, ◌≤◌, ◌<◌, ◌≡◌, ap, ◌⊎◌, inl, inr, some, true, ◌&&◌, arith,
  Option-cases, ltb, leb, ◌==◌, if◌then◌else◌, dec_lt, ℕ_discrete, update, fill, fill_lem,
}
use toy_os.Coremap.{
  page_size, u32, Entry, free_entry, used_entry, Frames, free_run, take_run, coremap_alloc,
  coremap_dealloc,
}
use toy_os.Coremap.Scan.{AllFree, scan_sound, scan_complete}

-- The core map after `vm_bootstrap`: RAM ends below 508 MB (`ram_bootstrap`), and a frame that is
-- not in use has a count of zero.
pub record IsValid (s : Frames) : Type 0 where
  pub booted : s.vm_bootstrap_flag ≡ true
  pub own_le : s.num_of_coremap_pages ≤ s.num_of_pages
  pub fits : s.firstaddr + s.num_of_pages * page_size ≤ 508 * 1024 * 1024
  pub above_zero : 0 < s.firstaddr
  pub own_used : (k : ℕ) → k < s.num_of_coremap_pages → (s.coremap k).used ≡ 1
  pub clean : (k : ℕ) → k < s.num_of_pages → (s.coremap k).used ≡ 0 → (s.coremap k).count ≡ 0

-- The physical address of frame `k`.
abbrev pub frame_addr : Frames → ℕ → ℕ
frame_addr s k = s.firstaddr + k * page_size

-- An allocated block of `n` frames from frame `start` on.
pub record IsBlock (cm : ℕ → Entry) (start n : ℕ) : Type 0 where
  pub nonempty : 0 < n
  pub head : cm start ≡ used_entry n
  pub rest : (k : ℕ) → start < k → k < start + n → cm k ≡ used_entry 1

pub IsBlock-used :
    {cm : ℕ → Entry} {b m : ℕ} → IsBlock cm b m → (k : ℕ) → b ≤ k → k < b + m → (cm k).used ≡ 1
IsBlock-used {cm} {b} block k lo hi = elim (ℕ_discrete k b) [
  | yes same ↦ rw (same, block.head)
  | no above ↦ rw (block.rest k (omega arith) hi)
]

-- Every entry after `take_run`.
pub take_run_lem :
    (n start : ℕ) (cm : ℕ → Entry) (k : ℕ)
    → 0 < n
    → take_run n start cm k ≡ (
        if k == start
        then used_entry n
        else if leb start k && ltb k (start + n)
        then used_entry 1
        else cm k)
unfolding take_run
take_run_lem n start cm k pos =
    ground (arith, fill_lem (n - 1) (start + 1) (used_entry 1) (update cm start (used_entry n)) k)

-- The states that an allocation of `n` frames can lead to: the lowest free run is taken, or there
-- is none and nothing changes.
pub data Allocated (n : ℕ) (s : Frames) : ℕ × Frames → Type 0 where
  exhausted :
      ((j : ℕ)
        → s.num_of_coremap_pages ≤ j
        → j + n ≤ s.num_of_pages
        → ¬ AllFree s.coremap j (j + n))
      → Allocated n s (0, s)
  taken :
      (start : ℕ)
      → s.num_of_coremap_pages ≤ start
      → start + n ≤ s.num_of_pages
      → AllFree s.coremap start (start + n)
      → ((j : ℕ)
          → s.num_of_coremap_pages ≤ j
          → j + n ≤ s.num_of_pages
          → AllFree s.coremap j (j + n)
          → start ≤ j)
      → Allocated n s (frame_addr s start, record s { coremap = take_run n start s.coremap })

free_run_sound :
    (n : ℕ) (s : Frames) {st : ℕ}
    → IsValid s
    → free_run n s ≡ some st
    → (s.num_of_coremap_pages ≤ st) × (st + n ≤ s.num_of_pages) × AllFree s.coremap st (st + n)
free_run_sound n s v e =
    let (lo, hi, free) =
      scan_sound s.coremap n _ s.num_of_coremap_pages 0 (omega arith)
        (λ k lo hi. absurd (omega arith)) e in
    (omega arith, omega (arith, v.own_le), free)

free_run_complete :
    (n : ℕ) (s : Frames)
    → 0 < n
    → (j : ℕ) → s.num_of_coremap_pages ≤ j
    → j + n ≤ s.num_of_pages
    → AllFree s.coremap j (j + n)
    → (st : ℕ) × (free_run n s ≡ some st) × (st ≤ j)
free_run_complete n s pos j lo hi free =
    scan_complete s.coremap n _ s.num_of_coremap_pages 0 j (omega arith) pos (omega arith)
      (omega arith) free

-- `coremap_alloc` takes the lowest run of free frames that is long enough, at its address; it
-- fails, and changes nothing, exactly when there is no such run.
pub coremap_alloc-Allocated :
    (n : ℕ) (s : Frames) → 0 < n → IsValid s → Allocated n s (coremap_alloc n s)
unfolding coremap_alloc
coremap_alloc-Allocated n s pos v = elim (Option-cases (free_run n s)) [
  | inl failed ↦
      rw (failed, coremap_alloc)
        (exhausted λ j lo hi free. let (st, e, le) = free_run_complete n s pos j lo hi free in cc)
  | inr (start, e) ↦
      let (lo, hi, free) = free_run_sound n s v e in
      let addr : u32 (frame_addr s start) ≡ frame_addr s start = omega (arith, v.fits) in
      rw (e, coremap_alloc, addr)
        (taken start lo hi free λ j lo' hi' free'.
          let (st, e', le) = free_run_complete n s pos j lo' hi' free' in ground arith)
]

-- A block of `n` frames at `start`, and one of `m` at `b`, with no frame in common.
abbrev pub Apart : ℕ → ℕ → ℕ → ℕ → Type 0
Apart start n b m = (start + n ≤ b) ⊎ (b + m ≤ start)

module _ (n start : ℕ) (s : Frames) (v : IsValid s) (pos : 0 < n) where
  module _ (hi : start + n ≤ s.num_of_pages) (lo : s.num_of_coremap_pages ≤ start) where
    pub take_run-IsValid : IsValid (record s { coremap = take_run n start s.coremap })
    take_run-IsValid = record {
      booted = v.booted;
      own_le = v.own_le;
      fits = v.fits;
      above_zero = v.above_zero;
      own_used = λ k h. ground (arith, take_run_lem n start s.coremap k pos, v.own_used k h);
      clean = λ k lt h. ground (arith, take_run_lem n start s.coremap k pos, v.clean k lt);
    }

  pub take_run-IsBlock : IsBlock (take_run n start s.coremap) start n
  take_run-IsBlock = record {
    nonempty = pos;
    head = ground (arith, take_run_lem n start s.coremap start pos);
    rest = λ k lo hi. ground (arith, take_run_lem n start s.coremap k pos);
  }

  -- Another block shares no frame with a free run, and is still there after the run is taken.
  pub take_run-Apart :
      (b m : ℕ)
      → AllFree s.coremap start (start + n)
      → IsBlock s.coremap b m
      → Apart start n b m × IsBlock (take_run n start s.coremap) b m
  take_run-Apart b m free block = (apart, kept apart)
    where
      apart : Apart start n b m
      apart = elim (dec_lt b (start + n)) [
        | no above ↦ inl (omega arith)
        | yes below ↦ elim (dec_lt start (b + m)) [
          | no under ↦ inr (omega arith)
          | yes meet ↦ elim (dec_lt b start) [
            | yes left ↦ absurd (ground (arith, IsBlock-used block start, free start (omega arith)))
            | no right ↦ absurd (ground (arith, IsBlock-used block b, free b (omega arith)))
          ]
        ]
      ]

      kept : Apart start n b m → IsBlock (take_run n start s.coremap) b m
      kept far = record {
        nonempty = block.nonempty;
        head = ground (arith, take_run_lem n start s.coremap b pos, block.head, block.nonempty);
        rest = λ k lo hi. ground (arith, take_run_lem n start s.coremap k pos, block.rest k lo hi);
      }

-- What `coremap_dealloc` does at the address of a block.
pub coremap_dealloc-block :
    (b m : ℕ) (s : Frames)
    → IsValid s
    → b + m ≤ s.num_of_pages
    → IsBlock s.coremap b m
    → coremap_dealloc (frame_addr s b) s ≡ record s { coremap = fill m b free_entry s.coremap }
unfolding coremap_dealloc
coremap_dealloc-block b m s v hi block =
    let at : u32 (frame_addr s b + 2 ^ 32 - s.firstaddr) / page_size ≡ b =
      omega (arith, v.fits, block.nonempty) in
    let size : (s.coremap b).count ≡ m = ap (λ e. e.count) block.head in
    let rounds : u32 (b + m) - b ≡ m = omega (arith, v.fits) in rw (at, size, rounds)

-- Freeing a block leaves every other block, and a valid core map.
pub coremap_dealloc-IsValid :
    (b m : ℕ) (s : Frames)
    → IsValid s
    → s.num_of_coremap_pages ≤ b
    → b + m ≤ s.num_of_pages
    → IsBlock s.coremap b m
    → IsValid (coremap_dealloc (frame_addr s b) s)
coremap_dealloc-IsValid b m s v lo hi block = rw (coremap_dealloc-block b m s v hi block) (record {
  booted = v.booted;
  own_le = v.own_le;
  fits = v.fits;
  above_zero = v.above_zero;
  own_used = λ k h. ground (arith, fill_lem m b free_entry s.coremap k, v.own_used k h);
  clean = λ k lt h. ground (arith, fill_lem m b free_entry s.coremap k, v.clean k lt);
})

-- Freeing one block frees its frames and keeps another block.
pub coremap_dealloc-IsBlock :
    (b m c k : ℕ) (s : Frames)
    → IsValid s
    → b + m ≤ s.num_of_pages
    → IsBlock s.coremap b m
    → IsBlock s.coremap c k
    → Apart b m c k
    → AllFree (coremap_dealloc (frame_addr s b) s).coremap b (b + m)
      × IsBlock (coremap_dealloc (frame_addr s b) s).coremap c k
coremap_dealloc-IsBlock b m c k s v hi block other far =
    rw (coremap_dealloc-block b m s v hi block) (
      λ i lo up. ground (arith, fill_lem m b free_entry s.coremap i),
      record {
        nonempty = other.nonempty;
        head = ground (arith, fill_lem m b free_entry s.coremap c, other.head, other.nonempty);
        rest = λ i lo up. ground (arith, fill_lem m b free_entry s.coremap i, other.rest i lo up);
      },
    )
