-- ===== src/Coremap/Scan.antt =====
-- The search of `coremap_alloc` in kern/arch/mips/vm/dumbvm.c: a run that it finds is free, and it
-- finds the lowest one.
use toy_os.Common.{
  ℕ, zero, suc, ◌+◌, ◌-◌, ◌≤◌, ◌<◌, ◌≡◌, some, inl, inr, arith, Bool-cases, ◌==◌, dec_lt,
}
use toy_os.Coremap.{Entry, scan}

-- The frames from `start` up to `stop` are free.
abbrev pub AllFree : (ℕ → Entry) → ℕ → ℕ → Type 0
AllFree cm start stop = (k : ℕ) → start ≤ k → k < stop → (cm k).used ≡ 0

-- A run that is longer by one frame.
AllFree-suc :
    (cm : ℕ → Entry) (start i : ℕ) → AllFree cm start i → (cm i).used ≡ 0 → AllFree cm start (i + 1)
AllFree-suc cm start i free e k lo hi = elim (dec_lt k i) [
  | yes below ↦ free k lo below
  | no last ↦ let same : k ≡ i = omega arith in rw same e
]

-- What a found run is: not below the run that was under way, within the frames left, and free.
abbrev pub FirstRun : (ℕ → Entry) → ℕ → ℕ → ℕ → ℕ → ℕ → Type 0
FirstRun cm n rounds i run st = (i - run ≤ st) × (st + n ≤ i + rounds) × AllFree cm st (st + n)

-- The bounds of a found run, seen from one frame earlier.
FirstRun-suc :
    (cm : ℕ → Entry) (n rounds i run run' st : ℕ)
    → i - run ≤ i + 1 - run'
    → FirstRun cm n rounds (i + 1) run' st
    → FirstRun cm n (suc rounds) i run st
FirstRun-suc cm n rounds i run run' st le (lo, hi, free) = (omega arith, omega arith, free)

pub scan_sound :
    (cm : ℕ → Entry) (n rounds i run : ℕ) {st : ℕ}
    → run ≤ i
    → AllFree cm (i - run) i
    → scan cm n rounds i run ≡ some st
    → FirstRun cm n rounds i run st
unfolding scan
scan_sound cm n zero i run small free e = cc
scan_sound cm n (suc rounds) i run {st} small free e = elim (Bool-cases ((cm i).used == 0)) [
  | inr taken ↦ FirstRun-suc cm n rounds i run 0 st (omega arith) (
      scan_sound cm n rounds (i + 1) 0 (omega arith) (λ k lo hi. absurd (omega arith))
        (ground arith))
  | inl idle ↦ elim (Bool-cases (run + 1 == n)) [
    | inl enough ↦
        let same : st ≡ i + 1 - (run + 1) = ground arith in
        let full : run + 1 ≡ n = ground arith in
        (
          omega arith,
          omega arith,
          λ k lo hi. AllFree-suc cm (i - run) i free (ground arith) k (omega arith) (omega arith),
        )
    | inr short ↦ FirstRun-suc cm n rounds i run (run + 1) st (omega arith) (
        scan_sound cm n rounds (i + 1) (run + 1) (omega arith)
          (λ k lo hi. AllFree-suc cm (i - run) i free (ground arith) k (omega arith) hi)
          (ground arith))
  ]
]

-- A free run at `j` among the frames left, or in the run under way, is found, or a lower one is.
pub scan_complete :
    (cm : ℕ → Entry) (n rounds i run j : ℕ)
    → run ≤ i
    → run < n
    → i - run ≤ j
    → j + n ≤ i + rounds
    → AllFree cm j (j + n)
    → (st : ℕ) × (scan cm n rounds i run ≡ some st) × (st ≤ j)
unfolding scan
scan_complete cm n zero i run j small less lo hi free = absurd (omega arith)
scan_complete cm n (suc rounds) i run j small less lo hi free =
    elim (Bool-cases ((cm i).used == 0)) [
      | inr taken ↦
          let past : i < j = elim (dec_lt i j) [
            | yes h ↦ h
            | no h ↦ absurd (ground (arith, free i (omega arith) (omega arith)))
          ] in
          let (st, e, le) =
            scan_complete cm n rounds (i + 1) 0 j (omega arith) (omega arith) (omega arith)
              (omega arith) free in
          (st, ground arith, le)
      | inl idle ↦ elim (Bool-cases (run + 1 == n)) [
        | inl enough ↦ (i + 1 - (run + 1), ground arith, omega arith)
        | inr short ↦
            let (st, e, le) =
              scan_complete cm n rounds (i + 1) (run + 1) j (omega arith) (ground arith)
                (omega arith) (omega arith) free in
            (st, ground arith, le)
      ]
    ]
