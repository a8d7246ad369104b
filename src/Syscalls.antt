-- ===== src/Syscalls.antt =====
-- kern/syscall/proc_syscalls.c: _exit, getpid, waitpid and fork as they act on the process table.
-- The address space, the trap frame and the thread that they also handle come in as the error
-- codes of the calls that make them. `p` and `me` are the current process and its pid.
pub mod Exit
pub mod Waitpid
pub mod Fork
mod Tests
use toy_os.Common.{
  ℕ, ◌+◌, ◌*◌, ◌/◌, ◌%◌, ◌^◌, Bool, true, false, Option, none, some, Kernel, done, panic, ◌>>=◌,
  ltb, ◌&&◌, ◌==◌, not, if◌then◌else◌, update,
}
use toy_os.Process.{
  Proc, Procs, proc_destroy, find_proc, parent_checker, exited_children_cleanup, check_proc_limit,
  proc_create_runprogram,
}

-- kern/include/kern/errno.h
abbrev pub enomem : ℕ
enomem = 3

abbrev pub einval : ℕ
einval = 8

abbrev pub enproc : ℕ
enproc = 12

abbrev pub esrch : ℕ
esrch = 15

abbrev pub echild : ℕ
echild = 16

-- _MKWAIT_EXIT and WEXITSTATUS of kern/include/kern/wait.h, on the 32-bit word of an int; the shift
-- to the right keeps the sign.
unfoldable pub mkwait_exit : ℕ → ℕ
mkwait_exit x = x * 4 % 2 ^ 32

unfoldable pub wexitstatus : ℕ → ℕ
wexitstatus x = if ltb x (2 ^ 31) then x / 4 else x / 4 + 3 * 2 ^ 30

-- Whether no process will ask for the exit code of `p`.
unfoldable pub is_orphan : Proc → Procs → Kernel Bool
unfolding parent_checker
is_orphan p s = elim p.parent_pid [
  | none ↦ done true
  | some parent ↦ (parent_checker parent s >>= λ alive. done (not alive))
]

-- The two branches of `sys__exit`: the process goes at once, or it stays, exited, for its parent,
-- whose `wait_child` is signalled.
-- The thread of the process has been detached, so that it has none left.
unfoldable pub exit_orphan : Proc → Procs → Kernel (Option ℕ × Procs)
exit_orphan p s = do t ← exited_children_cleanup p.pid s; u ← proc_destroy 0 p t; done (none, u)

abbrev pub exited : Proc → ℕ → Proc
exited p exitcode = record p { exit = 1; exitcode = mkwait_exit exitcode }

unfoldable pub exit_child : Proc → ℕ → Procs → Kernel (Option ℕ × Procs)
exit_child p exitcode s = do
  t ←
      exited_children_cleanup p.pid
        (record s { active_proc_list = update s.active_proc_list p.pid (some (exited p exitcode)) })
  done (p.parent_pid, t)

-- `sys__exit`, from the lock on: the process whose `wait_child` is signalled, and the table.
unfoldable pub sys__exit : Proc → ℕ → Procs → Kernel (Option ℕ × Procs)
unfolding is_orphan exit_orphan exit_child
sys__exit p exitcode s =
    is_orphan p s >>= λ orphan. if orphan then exit_orphan p s else exit_child p exitcode s

-- `sys_getpid`
unfoldable pub sys_getpid : Proc → ℕ
sys_getpid p = p.pid

-- How a call of waitpid goes on: it returns an error, it sleeps on the caller's `wait_child`, or it
-- has stored a status and returns the pid.
pub data Wait : Type 0 where
  fails : ℕ → Wait
  sleeps : Wait
  reaps : (status : ℕ) → (pid : ℕ) → Wait

-- `sys_waitpid` from the test of its loop on, with the child that it has found; `copyout_error` is
-- what `copyout` of the status returns.
unfoldable pub wait_loop : Proc → ℕ → Procs → Kernel (Wait × Procs)
wait_loop child copyout_error s =
    if child.exit == 1
    then (if copyout_error == 0
        then (proc_destroy 0 child s >>= λ t. done (reaps child.exitcode child.pid, t))
        else done (fails copyout_error, s))
    else done (sleeps, s)

-- `sys_waitpid` with what `find_proc` has found.
unfoldable pub wait_found : ℕ → ℕ → Procs → Option Proc → Kernel (Wait × Procs)
unfolding wait_loop
wait_found me copyout_error s none = done (fails esrch, s)
wait_found me copyout_error s (some child) = elim child.parent_pid [
  | none ↦ done (fails echild, s)
  | some parent ↦ if parent == me then wait_loop child copyout_error s else done (fails echild, s)
]

-- `sys_waitpid`
unfoldable pub sys_waitpid : ℕ → ℕ → ℕ → ℕ → Procs → Kernel (Wait × Procs)
unfolding wait_found find_proc
sys_waitpid me pid options copyout_error s =
    if options == 0
    then (find_proc pid s >>= wait_found me copyout_error s)
    else done (fails einval, s)

-- What the calls of `sys_fork` outside the process table return.
pub record ForkCalls : Type 0 where
  pub proc_ok : Bool
  pub cv_ok : Bool
  pub con_ok : Bool
  pub open_error : ℕ
  pub as_copy_error : ℕ
  pub trapframe_ok : Bool
  pub thread_fork_error : ℕ

-- The errors after the process is made, in the order of the code; 0 for none.
abbrev pub fork_error : ForkCalls → ℕ
fork_error c =
    if c.as_copy_error == 0
    then (if c.trapframe_ok then c.thread_fork_error else enomem)
    else c.as_copy_error

pub data Forked : Type 0 where
  refused : ℕ → Forked
  child : ℕ → Forked

-- `sys_fork` with what `proc_create_runprogram` has made.
unfoldable pub fork_created : ℕ → ForkCalls → Option Proc → Procs → Kernel (Forked × Procs)
unfolding proc_destroy
fork_created me c none t = done (refused enomem, t)
fork_created me c (some fresh) t =
    let new_proc : Proc = record fresh { parent_pid = some me } in
    let u : Procs = record t {
      active_proc_list = update t.active_proc_list fresh.pid (some new_proc);
    } in
    if fork_error c == 0
    then done (child fresh.pid, u)
    else (proc_destroy 0 new_proc u >>= λ w. done (refused (fork_error c), w))

-- `sys_fork`
unfoldable pub sys_fork : ℕ → ForkCalls → Procs → Kernel (Forked × Procs)
unfolding check_proc_limit proc_create_runprogram fork_created
sys_fork me c s =
    if check_proc_limit s
    then done (refused enproc, s)
    else (proc_create_runprogram c.proc_ok c.cv_ok c.con_ok c.open_error s >>= λ r.
        fork_created me c r.0 r.1)
