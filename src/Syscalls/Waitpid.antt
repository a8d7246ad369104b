-- ===== src/Syscalls/Waitpid.antt =====
-- `sys_waitpid` of kern/syscall/proc_syscalls.c, and how it meets `sys__exit`.
use toy_os.Common.{
  ltb, ◌*◌, ◌%◌, true, ℕ, ◌+◌, ◌^◌, ◌≤◌, ◌<◌, ◌≡◌, ◌≢◌, refl, sym, subst, ℕ_discrete, ap, ◌∙◌, ◌⊎◌,
  inl, inr, false, Option, none, some, Kernel, done, panic, arith, Bool-cases, Option-cases, ◌==◌,
  update,
}
use toy_os.Process.{pid_min, pid_max, Proc, Procs, find_proc}
use toy_os.Process.Table.{IsValid, proc_destroy-IsValid}
use toy_os.Syscalls.{
  esrch, echild, mkwait_exit, wexitstatus, exited, sys__exit, Wait, fails, sleeps, reaps, wait_loop,
  wait_found, sys_waitpid,
}
use toy_os.Syscalls.Exit.{HasLivingParent, ParentInRange, sys__exit-slots}

-- How waitpid by `me` for `pid` goes on at the table `s`, which becomes `t`.
pub data Waits (me pid copyout_error : ℕ) (s t : Procs) : Wait → Type 0 where
  no_process : s.active_proc_list pid ≡ none → t ≡ s → Waits me pid copyout_error s t (fails esrch)
  not_a_child :
      (q : Proc)
      → s.active_proc_list pid ≡ some q
      → q.parent_pid ≢ some me
      → t ≡ s
      → Waits me pid copyout_error s t (fails echild)
  still_running :
      (q : Proc)
      → s.active_proc_list pid ≡ some q
      → q.parent_pid ≡ some me
      → q.exit ≢ 1
      → t ≡ s
      → Waits me pid copyout_error s t sleeps
  bad_pointer :
      (q : Proc)
      → s.active_proc_list pid ≡ some q
      → q.parent_pid ≡ some me
      → q.exit ≡ 1
      → copyout_error ≢ 0
      → t ≡ s
      → Waits me pid copyout_error s t (fails copyout_error)
  reaped :
      (q : Proc)
      → s.active_proc_list pid ≡ some q
      → q.parent_pid ≡ some me
      → q.exit ≡ 1
      → copyout_error ≡ 0
      → t.active_proc_list ≡ update s.active_proc_list pid none
      → t.proc_count + 1 ≡ s.proc_count
      → IsValid t
      → Waits me pid copyout_error s t (reaps q.exitcode pid)

abbrev pub WaitsTo : ℕ → ℕ → ℕ → Procs → Kernel (Wait × Procs) → Type 0
WaitsTo me pid copyout_error s r =
    (w : Wait) × (t : Procs) × (r ≡ done (w, t)) × Waits me pid copyout_error s t w

wait_loop-Waits :
    (me copyout_error : ℕ) (q : Proc) (s : Procs)
    → IsValid s
    → s.active_proc_list q.pid ≡ some q
    → q.parent_pid ≡ some me
    → WaitsTo me q.pid copyout_error s (wait_loop q copyout_error s)
unfolding wait_loop
wait_loop-Waits me err q s v e mine = elim (Bool-cases (q.exit == 1)) [
  | inr running ↦ (sleeps, s, ground arith, still_running q e mine (ground arith) refl)
  | inl dead ↦ elim (Bool-cases (err == 0)) [
    | inr bad ↦
        (fails err, s, ground arith, bad_pointer q e mine (ground arith) (ground arith) refl)
    | inl good ↦
        let (t, run, list, count, largest, valid) = proc_destroy-IsValid q s v e in
        (
          reaps q.exitcode q.pid,
          t,
          ground arith,
          reaped q e mine (ground arith) (ground arith) list count valid,
        )
  ]
]

abbrev EndsWith : ℕ → ℕ → ℕ → Procs → Option Proc → Type 0
EndsWith me pid copyout_error s found =
    WaitsTo me pid copyout_error s (wait_found me copyout_error s found)

-- A process of another parent, or of none.
wait_found-stranger :
    (me copyout_error : ℕ) (q : Proc) (s : Procs)
    → q.parent_pid ≢ some me
    → wait_found me copyout_error s (some q) ≡ done (fails echild, s)
unfolding wait_found
wait_found-stranger me err q s other = ground arith

wait_found-child :
    (me copyout_error : ℕ) (q : Proc) (s : Procs)
    → q.parent_pid ≡ some me
    → wait_found me copyout_error s (some q) ≡ wait_loop q copyout_error s
unfolding wait_found
wait_found-child me err q s mine = ground arith

is_child_dec : (me : ℕ) (q : Proc) → (q.parent_pid ≡ some me) ⊎ (q.parent_pid ≢ some me)
is_child_dec me q = elim (Option-cases q.parent_pid) [
  | inl orphan ↦ inr (λ e. cc)
  | inr (parent, e) ↦ elim (ℕ_discrete parent me) [
    | yes same ↦ inl (ground arith)
    | no other ↦ inr (λ f. ground arith)
  ]
]

wait_found-Waits :
    (me pid copyout_error : ℕ) (s : Procs)
    → IsValid s
    → EndsWith me pid copyout_error s (s.active_proc_list pid)
wait_found-Waits me pid err s v = elim (Option-cases (s.active_proc_list pid)) [
  | inl e ↦ subst (EndsWith me pid err s) (sym e) (fails esrch, s, none_found, no_process e refl)
  | inr (q, e) ↦ subst (EndsWith me pid err s) (sym e) (elim (is_child_dec me q) [
    | inr other ↦
        (fails echild, s, wait_found-stranger me err q s other, not_a_child q e other refl)
    | inl mine ↦
        let own : q.pid ≡ pid = v.own_pid pid q e in
        rw (wait_found-child me err q s mine) (
          subst (λ k. WaitsTo me k err s (wait_loop q err s)) own
            (wait_loop-Waits me err q s v (ap s.active_proc_list own ∙ e) mine))
  ])
]
  where
    none_found : wait_found me err s none ≡ done (fails esrch, s)
    none_found = unfold wait_found in refl

pub find_proc-in_range :
    (pid : ℕ) (s : Procs)
    → pid_min ≤ pid
    → pid ≤ pid_max
    → find_proc pid s ≡ done (s.active_proc_list pid)
unfolding find_proc
find_proc-in_range pid s lo hi = ground arith

-- With a pid in range and no options, waitpid ends in exactly one way: ESRCH for an empty slot,
-- ECHILD for a process that is not the caller's child, sleep for a child that has not exited, the
-- error of `copyout`, or the status of the child, whose slot is then empty and all others as
-- before. Every way but the last leaves the table alone.
pub sys_waitpid-Waits :
    (me pid copyout_error : ℕ) (s : Procs)
    → IsValid s
    → pid_min ≤ pid
    → pid ≤ pid_max
    → WaitsTo me pid copyout_error s (sys_waitpid me pid 0 copyout_error s)
unfolding sys_waitpid
sys_waitpid-Waits me pid err s v lo hi =
    rw (sys_waitpid, find_proc-in_range pid s lo hi) (wait_found-Waits me pid err s v)

-- A pid that no process can have makes waitpid fail a KASSERT, though it comes from user space.
pub sys_waitpid-panic :
    (me pid copyout_error : ℕ) (s : Procs)
    → (pid < pid_min) ⊎ (pid_max < pid)
    → sys_waitpid me pid 0 copyout_error s ≡ panic
unfolding sys_waitpid
sys_waitpid-panic me pid err s bad = ground arith

-- The status of a process that called _exit, for a code of 29 bits.
wexitstatus-mkwait_exit : (code : ℕ) → code < 2 ^ 29 → wexitstatus (mkwait_exit code) ≡ code
unfolding wexitstatus mkwait_exit
wexitstatus-mkwait_exit code small =
    let positive : ltb (code * 4 % 2 ^ 32) (2 ^ 31) ≡ true = ground arith in
    rw positive (omega arith)

-- waitpid for a child that has exited.
reap :
    (q : Proc) (me : ℕ) (t : Procs)
    → IsValid t
    → t.active_proc_list q.pid ≡ some q
    → q.parent_pid ≡ some me
    → q.exit ≡ 1
    → (u : Procs) × (sys_waitpid me q.pid 0 0 t ≡ done (reaps q.exitcode q.pid, u))
      × (u.active_proc_list q.pid ≡ none)
unfolding wait_loop sys_waitpid
reap q me t v e mine dead =
    let (lo, hi) = v.range q.pid q e in
    let (u, run, list, count, largest, valid) = proc_destroy-IsValid q t v e in
    (
      u,
      rw
          (
            sys_waitpid,
            find_proc-in_range q.pid t lo (omega (arith, v.largest_le)),
            e,
            wait_found-child me 0 q t mine,
          )
          (ground arith),
      ap (λ f. f q.pid) list ∙ ground arith,
    )

-- A child exits with a code of 29 bits while its parent lives, and the parent then waits for it: it
-- gets the child's exit code, and the child's slot is empty.
pub sys_waitpid-sys__exit :
    (p : Proc) (me exitcode : ℕ) (s : Procs)
    → IsValid s
    → s.active_proc_list p.pid ≡ some p
    → (p.exit == 1) ≡ false
    → me ≢ p.pid
    → exitcode < 2 ^ 29
    → HasLivingParent p s me
    → (t u : Procs) × (sys__exit p exitcode s ≡ done (some me, t))
      × (status : ℕ) × (sys_waitpid me p.pid 0 0 t ≡ done (reaps status p.pid, u))
      × (wexitstatus status ≡ exitcode)
      × (u.active_proc_list p.pid ≡ none)
sys_waitpid-sys__exit p me exitcode s v e running other small living =
    elim (sys__exit-slots p exitcode s v e running (λ own. ground (arith, living.0)) in_range) [
      | inr (lonely, gone) ↦ absurd (lonely me living)
      | inl (parent, living', t, run, slots, valid) ↦
          let same : parent ≡ me = ground (arith, living.0, living'.0) in
          let (u, answer, empty) =
            reap (exited p exitcode) me t valid (slots p.pid ∙ ground arith) living.0 refl in
          (
            t,
            u,
            ground arith,
            mkwait_exit exitcode,
            answer,
            wexitstatus-mkwait_exit exitcode small,
            empty,
          )
    ]
  where
    in_range : ParentInRange p
    in_range parent mine =
        let (q, there, alive) = living.1 in
        let same : parent ≡ me = ground (arith, living.0) in
        omega (arith, v.range me q there, v.largest_le)
