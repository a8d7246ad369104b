-- ===== src/Syscalls/Tests.antt =====
-- Runs of the system calls' theorems on a parent with pid 2 and its child with pid 3.
use toy_os.Common.{ℕ, ◌≡◌, ◌≢◌, refl, ◌⊎◌, true, none, some, done, arith}
use toy_os.Process.{Procs}
use toy_os.Process.Table.{IsValid}
use toy_os.Process.Tests.{parent, child, family, family-IsValid}
use toy_os.Syscalls.{sys__exit, sys_waitpid, reaps, wexitstatus, ForkCalls}
use toy_os.Syscalls.Exit.{
  after_orphan, after_exited, HasLivingParent, ParentInRange, sys__exit-slots,
}
use toy_os.Syscalls.Waitpid.{WaitsTo, sys_waitpid-Waits, sys_waitpid-sys__exit}

child-ParentInRange : ParentInRange child
child-ParentInRange pid e = let same : pid ≡ 2 = cc in omega (arith, same)

child-HasLivingParent : HasLivingParent child family 2
child-HasLivingParent = (refl, (parent, refl, refl))

not_own_parent : child.parent_pid ≢ some child.pid
not_own_parent e = cc

sys__exit-slots_example :
    ((boss : ℕ) × HasLivingParent child family boss
      × (t : Procs) × (sys__exit child 5 family ≡ done (some boss, t))
      × ((k : ℕ) → t.active_proc_list k ≡ after_exited child 5 family k)
      × IsValid t)
    ⊎ (((boss : ℕ) → ¬ HasLivingParent child family boss)
        × ((t : Procs) × (sys__exit child 5 family ≡ done (none, t))
            × ((k : ℕ) → t.active_proc_list k ≡ after_orphan child family k)
            × IsValid t))
sys__exit-slots_example =
    sys__exit-slots child 5 family family-IsValid refl refl not_own_parent child-ParentInRange

sys_waitpid-Waits_example : WaitsTo 2 3 0 family (sys_waitpid 2 3 0 0 family)
sys_waitpid-Waits_example =
    sys_waitpid-Waits 2 3 0 family family-IsValid (omega arith) (omega arith)

sys_waitpid-sys__exit_example :
    (t u : Procs) × (sys__exit child 5 family ≡ done (some 2, t))
    × (status : ℕ) × (sys_waitpid 2 3 0 0 t ≡ done (reaps status 3, u))
    × (wexitstatus status ≡ 5)
    × (u.active_proc_list 3 ≡ none)
sys_waitpid-sys__exit_example =
    sys_waitpid-sys__exit child 2 5 family family-IsValid refl refl (λ e. omega (arith, e))
      (omega arith) child-HasLivingParent

abbrev good_calls : ForkCalls
good_calls = record {
  proc_ok = true;
  cv_ok = true;
  con_ok = true;
  open_error = 0;
  as_copy_error = 0;
  trapframe_ok = true;
  thread_fork_error = 0;
}
