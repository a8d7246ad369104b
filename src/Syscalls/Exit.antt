-- ===== src/Syscalls/Exit.antt =====
-- `sys__exit` of kern/syscall/proc_syscalls.c on the process table.
use toy_os.Common.{
  ℕ, ◌≤◌, ◌≡◌, ◌≢◌, refl, ap, ◌∙◌, ◌⊎◌, inl, inr, true, false, Option, none, some, done, arith,
  Bool-cases, Option-cases, ◌==◌, if◌then◌else◌,
}
use toy_os.Process.{pid_min, pid_max, Proc, Procs, is_exited_child}
use toy_os.Process.Table.{IsValid, proc_destroy-IsValid, replace-IsValid}
use toy_os.Process.Cleanup.{without_exited, exited_children_cleanup-slots}
use toy_os.Syscalls.{is_orphan, exit_orphan, exited, exit_child, sys__exit}

-- The slots after `p` is gone with its exited children, and after it stays for its parent.
abbrev pub after_orphan : Proc → Procs → ℕ → Option Proc
after_orphan p s k = if p.pid == k then none else without_exited p.pid (s.active_proc_list k)

abbrev pub after_exited : Proc → ℕ → Procs → ℕ → Option Proc
after_exited p exitcode s k =
    if p.pid == k then some (exited p exitcode) else without_exited p.pid (s.active_proc_list k)

-- `p` has a parent that has not exited.
abbrev pub HasLivingParent : Proc → Procs → ℕ → Type 0
HasLivingParent p s parent =
    (p.parent_pid ≡ some parent)
    × ((q : Proc) × (s.active_proc_list parent ≡ some q) × ((q.exit == 1) ≡ false))

-- The parent's pid, if there is one, is a pid.
abbrev pub ParentInRange : Proc → Type 0
ParentInRange p =
    (parent : ℕ) → p.parent_pid ≡ some parent → (pid_min ≤ parent) × (parent ≤ pid_max)

-- What `is_orphan` finds out.
is_orphan-cases :
    (p : Proc) (s : Procs)
    → ParentInRange p
    → ((is_orphan p s ≡ done false) × ((parent : ℕ) × HasLivingParent p s parent))
      ⊎ ((is_orphan p s ≡ done true) × ((parent : ℕ) → ¬ HasLivingParent p s parent))
unfolding is_orphan
is_orphan-cases p s ok = elim (Option-cases p.parent_pid) [
  | inl orphan ↦ inr (ground arith, λ parent h. cc (h.0))
  | inr (parent, e) ↦ elim (Option-cases (s.active_proc_list parent)) [
    | inl gone ↦ inr (ground (arith, ok parent e), λ parent' h. ground (arith, h.0, h.1.1))
    | inr (q, there) ↦ elim (Bool-cases (q.exit == 1)) [
      | inl dead ↦ inr (ground (arith, ok parent e), λ parent' h. ground (arith, h.0, h.1.1, h.1.2))
      | inr living ↦ inl (ground (arith, ok parent e), (parent, (e, (q, there, living))))
    ]
  ]
]

module _ (p : Proc) (s : Procs) (v : IsValid s) (e : s.active_proc_list p.pid ≡ some p)
    (running : (p.exit == 1) ≡ false) where
  exit_orphan_lem :
      (t : Procs) × (exit_orphan p s ≡ done (none, t))
      × ((k : ℕ) → t.active_proc_list k ≡ after_orphan p s k)
      × IsValid t
  unfolding exit_orphan
  exit_orphan_lem =
      let (t, run, slots, valid) = exited_children_cleanup-slots p.pid s v in
      let own : t.active_proc_list p.pid ≡ some p = ground (arith, slots p.pid) in
      let (u, destroyed, list, count, largest, valid') = proc_destroy-IsValid p t valid own in
      (
        u,
        rw (exit_orphan, run, destroyed),
        λ k. ap (λ f. f k) list ∙ ground (arith, slots k),
        valid',
      )

  kept_child :
      p.parent_pid ≢ some p.pid → (exitcode : ℕ) → is_exited_child p.pid (exited p exitcode) ≡ false
  kept_child stranger exitcode = ground arith

  exit_child_lem :
      p.parent_pid ≢ some p.pid
      → (exitcode : ℕ)
      → (t : Procs) × (exit_child p exitcode s ≡ done (p.parent_pid, t))
        × ((k : ℕ) → t.active_proc_list k ≡ after_exited p exitcode s k)
        × IsValid t
  unfolding exit_child
  exit_child_lem stranger exitcode =
      let valid = replace-IsValid p (exited p exitcode) s v e refl in
      let (t, run, slots, valid') = exited_children_cleanup-slots p.pid _ valid in
      (t, rw (exit_child, run), λ k. slots k ∙ ground (arith, kept_child stranger exitcode), valid')

-- What `_exit` of a running process of the table leads to. With a parent that has not exited, the
-- process stays in its slot with the encoded code, and the parent is signalled; else its slot is
-- emptied. Either way the exited children of the process are gone, every other slot is as it was,
-- and the table is well formed; no KASSERT fails.
pub sys__exit-slots :
    (p : Proc) (exitcode : ℕ) (s : Procs)
    → IsValid s
    → s.active_proc_list p.pid ≡ some p
    → (p.exit == 1) ≡ false
    → p.parent_pid ≢ some p.pid
    → ParentInRange p
    → ((parent : ℕ) × HasLivingParent p s parent
        × (t : Procs) × (sys__exit p exitcode s ≡ done (some parent, t))
        × ((k : ℕ) → t.active_proc_list k ≡ after_exited p exitcode s k)
        × IsValid t)
      ⊎ (((parent : ℕ) → ¬ HasLivingParent p s parent)
          × ((t : Procs) × (sys__exit p exitcode s ≡ done (none, t))
              × ((k : ℕ) → t.active_proc_list k ≡ after_orphan p s k)
              × IsValid t))
unfolding sys__exit
sys__exit-slots p exitcode s v e running stranger ok = elim (is_orphan-cases p s ok) [
  | inl (found, (parent, living)) ↦
      let (t, run, slots, valid) = exit_child_lem p s v e running stranger exitcode in
      inl (parent, living, t, rw (sys__exit, found) (rw (← living.0) run), slots, valid)
  | inr (found, lonely) ↦
      let (t, run, slots, valid) = exit_orphan_lem p s v e running in
      inr (lonely, (t, rw (sys__exit, found) run, slots, valid))
]
