-- ===== src/Process/Table.antt =====
-- The process table of kern/proc/proc.c stays well formed: a process stands in the slot of its pid,
-- between 2 and `current_largest_pid`, and `proc_count` counts the slots in use.
use toy_os.Common.{
  ℕ, zero, suc, ◌+◌, ◌-◌, ◌≤◌, ◌<◌, ◌≡◌, ◌≢◌, refl, inl, inr, Option, none, some, done, arith,
  Bool-cases, Option-cases, ◌==◌, if◌then◌else◌, update, dec_lt,
}
use toy_os.Process.{pid_min, pid_max, Proc, Procs, proc_bootstrap, proc_destroy}

abbrev pub weight : Option Proc → ℕ
weight none = 0
weight (some p) = 1

-- How many of the first `n` slots are in use.
unfoldable pub occupied : ℕ → (ℕ → Option Proc) → ℕ
occupied zero list = 0
occupied (suc n) list = occupied n list + weight (list n)

pub occupied-update_above :
    (n : ℕ) (list : ℕ → Option Proc) (i : ℕ) (v : Option Proc)
    → n ≤ i
    → occupied n (update list i v) ≡ occupied n list
unfolding occupied
occupied-update_above zero list i v h = refl
occupied-update_above (suc n) list i v h = ground (arith, occupied-update_above n list i v)

pub occupied-update :
    (n : ℕ) (list : ℕ → Option Proc) (i : ℕ) (v : Option Proc)
    → i < n
    → occupied n (update list i v) + weight (list i) ≡ occupied n list + weight v
unfolding occupied
occupied-update zero list i v h = absurd (omega arith)
occupied-update (suc n) list i v h = elim (dec_lt i n) [
  | yes below ↦ ground (arith, occupied-update n list i v below)
  | no last ↦ ground (arith, occupied-update_above n list i v)
]

pub occupied-full :
    (n : ℕ) (list : ℕ → Option Proc)
    → ((k : ℕ) → 2 ≤ k → k < n → list k ≢ none)
    → n ≤ occupied n list + 2
unfolding occupied
occupied-full zero list h = omega arith
occupied-full (suc n) list h = elim (dec_lt n 2) [
  | yes low ↦ omega arith
  | no high ↦
      ground (arith, occupied-full n list (λ k lo hi. h k lo (omega arith)), h n (omega arith))
]

pub record IsValid (s : Procs) : Type 0 where
  pub largest_pos : 1 ≤ s.current_largest_pid
  pub largest_le : s.current_largest_pid ≤ pid_max
  pub own_pid : (i : ℕ) (p : Proc) → s.active_proc_list i ≡ some p → p.pid ≡ i
  pub range :
      (i : ℕ) (p : Proc)
      → s.active_proc_list i ≡ some p
      → (pid_min ≤ i) × (i ≤ s.current_largest_pid)
  pub counted : s.proc_count ≡ occupied (suc s.current_largest_pid) s.active_proc_list

pub proc_bootstrap-IsValid : IsValid proc_bootstrap
unfolding proc_bootstrap occupied
proc_bootstrap-IsValid = record {
  largest_pos = omega arith;
  largest_le = omega arith;
  own_pid = λ i p e. cc;
  range = λ i p e. absurd (ground arith);
  counted = omega arith;
}

destroyed_count :
    (largest : ℕ) (list : ℕ → Option Proc) (i : ℕ) (p : Proc)
    → list i ≡ some p
    → i ≤ largest
    → 1 ≤ largest
    → occupied (suc (if i == largest then largest - 1 else largest)) (update list i none) + 1
      ≡ occupied (suc largest) list
destroyed_count largest list i p e le pos = elim (Bool-cases (i == largest)) [
  | inr below ↦ rw below (ground (arith, occupied-update (suc largest) list i none))
  | inl top ↦
      let shrunk : suc (largest - 1) ≡ largest = omega arith in
      let same : i ≡ largest = ground arith in
      rw (top, shrunk)
        (unfold occupied in ground (arith, occupied-update_above largest list i none))
]

occupied-le :
    (n : ℕ) (list : ℕ → Option Proc) → ((k : ℕ) → k < 2 → list k ≡ none) → occupied n list ≤ n - 2
unfolding occupied
occupied-le zero list low = omega arith
occupied-le (suc n) list low = elim (dec_lt n 2) [
  | yes small ↦ ground (arith, occupied-le n list low, low n)
  | no large ↦ elim (Option-cases (list n)) [
    | inl empty ↦ ground (arith, occupied-le n list low)
    | inr (p, used) ↦ ground (arith, occupied-le n list low)
  ]
]

-- There are never more processes than pids.
pub proc_count-le : (s : Procs) → IsValid s → s.proc_count ≤ pid_max - pid_min + 1
proc_count-le s v = omega (
  arith,
  v.counted,
  v.largest_le,
  occupied-le (suc s.current_largest_pid) s.active_proc_list λ k low.
      elim (Option-cases (s.active_proc_list k)) [
        | inl empty ↦ empty
        | inr (p, used) ↦ absurd (omega (arith, v.range k p used))
      ],
)

-- A process in the table is counted, so the KASSERT of `proc_destroy` holds.
proc_count-pos :
    (p : Proc) (s : Procs) → IsValid s → s.active_proc_list p.pid ≡ some p → 0 < s.proc_count
proc_count-pos p s v e = ground (
  arith,
  v.counted,
  v.range p.pid p e,
  occupied-update (suc s.current_largest_pid) s.active_proc_list p.pid none,
)

-- `proc_destroy` of a process in the table that has no thread left succeeds, empties its slot and
-- no other, counts one process less, and keeps the table well formed.
pub proc_destroy-IsValid :
    (p : Proc) (s : Procs)
    → IsValid s
    → s.active_proc_list p.pid ≡ some p
    → (t : Procs) × (proc_destroy 0 p s ≡ done t)
      × (t.active_proc_list ≡ update s.active_proc_list p.pid none)
      × (t.proc_count + 1 ≡ s.proc_count)
      × (t.current_largest_pid ≤ s.current_largest_pid)
      × IsValid t
unfolding proc_destroy
proc_destroy-IsValid p s v e = (
  record {
    proc_count = s.proc_count - 1;
    current_largest_pid =
        if p.pid == s.current_largest_pid then s.current_largest_pid - 1 else s.current_largest_pid;
    active_proc_list = update s.active_proc_list p.pid none;
  },
  ground (arith, proc_count-pos p s v e),
  refl,
  omega (arith, proc_count-pos p s v e),
  ground arith,
  record {
    largest_pos = ground (arith, v.largest_pos, v.range p.pid p e);
    largest_le = ground (arith, v.largest_le);
    own_pid = λ i q f. ground (arith, v.own_pid i q);
    range = λ i q f. ground (arith, v.range i q, v.range p.pid p e);
    counted = omega (
      arith,
      destroyed_count s.current_largest_pid s.active_proc_list p.pid p e (v.range p.pid p e).1
          v.largest_pos,
      v.counted,
    );
  },
)

-- A process that changes, but for its pid, keeps the table well formed.
pub replace-IsValid :
    (p q : Proc) (s : Procs)
    → IsValid s
    → s.active_proc_list p.pid ≡ some p
    → q.pid ≡ p.pid
    → IsValid (record s { active_proc_list = update s.active_proc_list p.pid (some q) })
replace-IsValid p q s v e same = record {
  largest_pos = v.largest_pos;
  largest_le = v.largest_le;
  own_pid = λ i r f. ground (arith, v.own_pid i r);
  range = λ i r f. ground (arith, v.range i r, v.range p.pid p e);
  counted = ground (
    arith,
    v.counted,
    v.range p.pid p e,
    occupied-update (suc s.current_largest_pid) s.active_proc_list p.pid (some q),
  );
}
