-- ===== src/Process/Tests.antt =====
-- Runs of the process table's theorems: a parent with pid 2 and its child with pid 3.
use toy_os.Common.{
  ℕ, ◌+◌, ◌≤◌, ◌≡◌, refl, ◌⊎◌, inl, inr, true, Option, none, some, done, arith, ◌==◌, if◌then◌else◌,
  update, Bool-cases,
}
use toy_os.Process.{
  Proc, Procs, proc_destroy, fresh_proc, proc_create_runprogram, exited_children_cleanup,
}
use toy_os.Process.Table.{IsValid, occupied, proc_destroy-IsValid}
use toy_os.Process.Pids.{Creates, proc_create_runprogram-Creates}
use toy_os.Process.Cleanup.{without_exited, exited_children_cleanup-slots}

abbrev pub parent : Proc
parent = record fresh_proc { pid = 2 }

abbrev pub child : Proc
child = record fresh_proc { pid = 3; parent_pid = some 2 }

abbrev pub family_list : ℕ → Option Proc
family_list i = if i == 2 then some parent else (if i == 3 then some child else none)

abbrev pub family : Procs
family = record { proc_count = 2; current_largest_pid = 3; active_proc_list = family_list }

family_cases :
    (i : ℕ) (p : Proc) → family_list i ≡ some p → ((i ≡ 2) × (p ≡ parent)) ⊎ ((i ≡ 3) × (p ≡ child))
family_cases i p e = elim (Bool-cases (i == 2)) [
  | inl two ↦ let now = rw two at e in inl (ground arith, cc)
  | inr other ↦ elim (Bool-cases (i == 3)) [
    | inl three ↦ let now = rw (other, three) at e in inr (ground arith, cc)
    | inr neither ↦ let now = rw (other, neither) at e in cc
  ]
]

pub family-IsValid : IsValid family
unfolding occupied
family-IsValid = record {
  largest_pos = omega arith;
  largest_le = omega arith;
  own_pid = λ i p e. elim (family_cases i p e) [
    | inl (at, is) ↦ rw (at, is)
    | inr (at, is) ↦ rw (at, is)
  ];
  range = λ i p e. elim (family_cases i p e) [
    | inl (at, is) ↦ (omega arith, omega arith)
    | inr (at, is) ↦ (omega arith, omega arith)
  ];
  counted = refl;
}

proc_destroy-IsValid_example :
    (t : Procs) × (proc_destroy 0 child family ≡ done t)
    × (t.active_proc_list ≡ update family_list 3 none)
    × (t.proc_count + 1 ≡ 2)
    × (t.current_largest_pid ≤ 3)
    × IsValid t
proc_destroy-IsValid_example = proc_destroy-IsValid child family family-IsValid refl

proc_create_runprogram-Creates_example :
    Creates true true true 0 family (proc_create_runprogram true true true 0 family)
proc_create_runprogram-Creates_example =
    proc_create_runprogram-Creates true true true 0 family family-IsValid (omega arith)

exited_children_cleanup-slots_example :
    (t : Procs) × (exited_children_cleanup 2 family ≡ done t)
    × ((k : ℕ) → t.active_proc_list k ≡ without_exited 2 (family_list k))
    × IsValid t
exited_children_cleanup-slots_example = exited_children_cleanup-slots 2 family family-IsValid
