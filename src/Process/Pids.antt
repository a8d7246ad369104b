-- ===== src/Process/Pids.antt =====
-- The pids of kern/proc/proc.c: the slot that `add_to_active_proc_list` finds, and the process in
-- it.
use toy_os.Common.{
  ℕ, zero, suc, ◌+◌, ◌-◌, ◌≤◌, ◌<◌, ◌≡◌, ◌≢◌, refl, ◌⊎◌, inl, inr, Bool, true, false, ◌&&◌, Option,
  none, some, Kernel, done, panic, ◌==◌, arith, Bool-cases, Option-cases, ltb, if◌then◌else◌,
  update,
}
use toy_os.Process.{
  pid_min, pid_max, Proc, Procs, free_slot, next_pid, fresh_proc, add_to_active_proc_list,
  proc_create_runprogram,
}
use toy_os.Process.Table.{occupied, occupied-update_above, occupied-update, occupied-full, IsValid}

-- The first empty slot.
free_slot-some :
    (list : ℕ → Option Proc) (rounds i : ℕ) {j : ℕ}
    → free_slot list rounds i ≡ some j
    → (i ≤ j) × (j < i + rounds) × (list j ≡ none)
unfolding free_slot
free_slot-some list zero i e = cc
free_slot-some list (suc rounds) i {j} e =
    ground (arith, free_slot-some list rounds (i + 1) {j = j})

free_slot-lowest :
    (list : ℕ → Option Proc) (rounds i : ℕ) {j : ℕ} (k : ℕ)
    → free_slot list rounds i ≡ some j
    → i ≤ k
    → k < j
    → list k ≢ none
unfolding free_slot
free_slot-lowest list zero i k e lo hi = cc
free_slot-lowest list (suc rounds) i {j} k e lo hi =
    ground (arith, free_slot-lowest list rounds (i + 1) {j = j} k)

free_slot-none :
    (list : ℕ → Option Proc) (rounds i k : ℕ)
    → free_slot list rounds i ≡ none
    → i ≤ k
    → k < i + rounds
    → list k ≢ none
unfolding free_slot
free_slot-none list zero i k e lo hi = absurd (omega arith)
free_slot-none list (suc rounds) i k e lo hi = ground (arith, free_slot-none list rounds (i + 1) k)

abbrev slot_found : Procs → Option ℕ
slot_found s = free_slot s.active_proc_list (s.current_largest_pid + 1 - 2) 2

next_pid-cases :
    (s : Procs)
    → ((slot_found s ≡ none) × (next_pid s ≡ s.current_largest_pid + 1))
      ⊎ (slot_found s ≡ some (next_pid s))
next_pid-cases s = elim (Option-cases (slot_found s)) [
  | inl full ↦ inl (full, ground arith)
  | inr (j, found) ↦ inr (ground arith)
]

above_largest :
    (s : Procs) (k : ℕ) → IsValid s → s.current_largest_pid < k → s.active_proc_list k ≡ none
above_largest s k v above = elim (Option-cases (s.active_proc_list k)) [
  | inl empty ↦ empty
  | inr (p, used) ↦ absurd (omega (arith, v.range k p used))
]

-- The pid that is given next is free and not below 2, and every pid from 2 up to it is taken.
pub next_pid-first :
    (s : Procs)
    → IsValid s
    → (pid_min ≤ next_pid s)
      × (s.active_proc_list (next_pid s) ≡ none)
      × ((k : ℕ) → pid_min ≤ k → k < next_pid s → s.active_proc_list k ≢ none)
next_pid-first s v = elim (next_pid-cases s) [
  | inl (full, e) ↦ (
    omega (arith, v.largest_pos),
    above_largest s (next_pid s) v (omega arith),
    λ k lo hi. free_slot-none s.active_proc_list _ 2 k full lo (omega (arith, v.largest_pos)),
  )
  | inr found ↦
      let (lo, hi, e) = free_slot-some s.active_proc_list _ 2 found in
      (lo, e, λ k lo' hi'. free_slot-lowest s.active_proc_list _ 2 k found lo' hi')
]

-- While fewer processes are counted than there are pids, the pid that is given next is one of them.
pub next_pid-le :
    (s : Procs) → IsValid s → s.proc_count < pid_max - pid_min + 1 → next_pid s ≤ pid_max
next_pid-le s v room = elim (next_pid-cases s) [
  | inr found ↦
      omega (arith, free_slot-some s.active_proc_list _ 2 found, v.largest_le, v.largest_pos)
  | inl (full, e) ↦ omega (
    arith,
    v.counted,
    v.largest_pos,
    occupied-full (suc s.current_largest_pid) s.active_proc_list
        λ k lo hi. free_slot-none s.active_proc_list _ 2 k full lo (omega (arith, v.largest_pos)),
  )
]

-- What a new process has done to the table: it stands in a slot that was empty, the lowest, under
-- that slot's pid; all others stand where they were; and the table stays well formed.
pub record Added (s : Procs) (p : Proc) (t : Procs) : Type 0 where
  pub in_range : (pid_min ≤ p.pid) × (p.pid ≤ pid_max)
  pub was_free : s.active_proc_list p.pid ≡ none
  pub lowest : (k : ℕ) → pid_min ≤ k → k < p.pid → s.active_proc_list k ≢ none
  pub table : t.active_proc_list ≡ update s.active_proc_list p.pid (some p)
  pub count : t.proc_count ≡ s.proc_count + 1
  pub valid : IsValid t

added_count :
    (largest : ℕ) (list : ℕ → Option Proc) (i : ℕ) (p : Proc)
    → list i ≡ none
    → i ≤ largest + 1
    → occupied (suc (if ltb largest i then i else largest)) (update list i (some p))
      ≡ occupied (suc largest) list + 1
added_count largest list i p e le = elim (Bool-cases (ltb largest i)) [
  | inr below ↦ rw below (ground (arith, occupied-update (suc largest) list i (some p)))
  | inl top ↦
      let same : i ≡ suc largest = ground arith in
      rw (top) (unfold occupied in ground (arith, occupied-update_above i list i (some p)))
]

-- The table with a process in slot `j`.
Added-at :
    (new_proc : Proc) (s : Procs) (j : ℕ)
    → IsValid s
    → (pid_min ≤ j)
      × (s.active_proc_list j ≡ none)
      × ((k : ℕ) → pid_min ≤ k → k < j → s.active_proc_list k ≢ none)
    → j ≤ pid_max
    → j ≤ s.current_largest_pid + 1
    → let p : Proc = record new_proc { pid = j } in
      Added s p (record {
        proc_count = s.proc_count + 1;
        current_largest_pid = if ltb s.current_largest_pid j then j else s.current_largest_pid;
        active_proc_list = update s.active_proc_list j (some p);
      })
Added-at new_proc s j v (lo, free, lowest) hi near =
    let p : Proc = record new_proc { pid = j } in
    record {
      in_range = (lo, hi);
      was_free = free;
      lowest = lowest;
      table = refl;
      count = refl;
      valid = record {
        largest_pos = ground (arith, v.largest_pos);
        largest_le = ground (arith, v.largest_le);
        own_pid = λ i q f. ground (arith, v.own_pid i q);
        range = λ i q f. ground (arith, v.range i q);
        counted =
            omega (
              arith,
              added_count s.current_largest_pid s.active_proc_list j p free near,
              v.counted,
            );
      };
    }

next_pid-near : (s : Procs) → IsValid s → next_pid s ≤ s.current_largest_pid + 1
next_pid-near s v = elim (next_pid-cases s) [
  | inl (full, e) ↦ omega arith
  | inr found ↦ omega (arith, free_slot-some s.active_proc_list _ 2 found, v.largest_pos)
]

-- `add_to_active_proc_list`, run for a process that is already counted, adds it to the table.
pub add_to_active_proc_list-Added :
    (new_proc : Proc) (s : Procs)
    → IsValid s
    → s.proc_count < pid_max - pid_min + 1
    → let (p, t) = add_to_active_proc_list new_proc (record s { proc_count = s.proc_count + 1 }) in
      Added s p t × (p ≡ record new_proc { pid = p.pid })
unfolding add_to_active_proc_list
add_to_active_proc_list-Added new_proc s v room = (
  Added-at new_proc s (next_pid s) v (next_pid-first s v) (next_pid-le s v room)
      (next_pid-near s v),
  refl,
)

-- How `proc_create_runprogram` ends, each way exactly in its case.
pub data Creates (proc_ok cv_ok con_ok : Bool) (open_error : ℕ) (s : Procs)
    (r : Kernel (Option Proc × Procs)) : Type 0 where
  no_memory :
      (proc_ok && cv_ok) ≡ false → r ≡ done (none, s) → Creates proc_ok cv_ok con_ok open_error s r
  no_console :
      (proc_ok && cv_ok) ≡ true
      → (con_ok && open_error == 0) ≡ false
      → r ≡ panic
      → Creates proc_ok cv_ok con_ok open_error s r
  creates :
      (p : Proc) (t : Procs)
      → (proc_ok && cv_ok) ≡ true
      → (con_ok && open_error == 0) ≡ true
      → r ≡ done (some p, t)
      → Added s p t
      → p.parent_pid ≡ none
      → p.exit ≡ 0
      → Creates proc_ok cv_ok con_ok open_error s r

-- With room for one more pid, `proc_create_runprogram` gives NULL and changes nothing without the
-- memory for the process or its condition variable, panics where the console cannot be opened, and
-- else adds a process that has no parent and has not exited.
pub proc_create_runprogram-Creates :
    (proc_ok cv_ok con_ok : Bool) (open_error : ℕ) (s : Procs)
    → IsValid s
    → s.proc_count < pid_max - pid_min + 1
    → Creates proc_ok cv_ok con_ok open_error s
        (proc_create_runprogram proc_ok cv_ok con_ok open_error s)
unfolding proc_create_runprogram
proc_create_runprogram-Creates false cv_ok con_ok open_error s v room = no_memory refl refl
proc_create_runprogram-Creates true false con_ok open_error s v room = no_memory refl refl
proc_create_runprogram-Creates true true con_ok open_error s v room =
    elim (Bool-cases (con_ok && open_error == 0)) [
      | inr broken ↦ no_console refl broken (rw broken)
      | inl opened ↦
          let (added, e) = add_to_active_proc_list-Added fresh_proc s v room in
          creates
            (add_to_active_proc_list fresh_proc (record s { proc_count = s.proc_count + 1 })).0
            (add_to_active_proc_list fresh_proc (record s { proc_count = s.proc_count + 1 })).1 refl
            opened (rw opened) added refl refl
    ]
