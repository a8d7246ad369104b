-- ===== src/Syscalls/Fork.antt =====
-- `sys_fork` of kern/syscall/proc_syscalls.c on the process table.
use toy_os.Common.{
  ℕ, ◌+◌, ◌-◌, ◌≤◌, ◌<◌, ◌≡◌, ◌≢◌, ◌⊎◌, true, ◌&&◌, false, none, some, Kernel, done, update,
}
use toy_os.Process.{pid_min, pid_max, Proc, Procs}
use toy_os.Process.Table.{IsValid}
use toy_os.Syscalls.{ForkCalls, enproc, enomem, Forked, refused, child}

-- The errno of a fork that is refused, each in its case: all pids are taken; there is no memory for
-- the process; `as_copy` fails; there is no memory for the trap frame; `thread_fork` fails.
pub data Refuses (c : ForkCalls) (s : Procs) : ℕ → Type 0 where
  no_pid : s.proc_count ≡ pid_max - pid_min + 1 → Refuses c s enproc
  no_memory :
      s.proc_count < pid_max - pid_min + 1 → (c.proc_ok && c.cv_ok) ≡ false → Refuses c s enomem
  later_step :
      (error : ℕ)
      → s.proc_count < pid_max - pid_min + 1
      → (c.proc_ok && c.cv_ok) ≡ true
      → error ≢ 0
      → (c.as_copy_error ≡ error)
        ⊎ ((c.as_copy_error ≡ 0) × (c.trapframe_ok ≡ false) × (error ≡ enomem))
        ⊎ ((c.as_copy_error ≡ 0) × (c.trapframe_ok ≡ true) × (c.thread_fork_error ≡ error))
      → Refuses c s error

-- How fork by `me` ends: it is refused and the table holds the processes of before, or there is one
-- process more, the child of `me`, under a pid that was free.
pub data Forks (me : ℕ) (c : ForkCalls) (s t : Procs) : Forked → Type 0 where
  unchanged :
      (error : ℕ)
      → Refuses c s error
      → t.active_proc_list ≡ s.active_proc_list
      → t.proc_count ≡ s.proc_count
      → Forks me c s t (refused error)
  forked :
      (p : Proc)
      → (pid_min ≤ p.pid) × (p.pid ≤ pid_max)
      → p.parent_pid ≡ some me
      → p.exit ≡ 0
      → s.active_proc_list p.pid ≡ none
      → t.active_proc_list ≡ update s.active_proc_list p.pid (some p)
      → t.proc_count ≡ s.proc_count + 1
      → Forks me c s t (child p.pid)

abbrev pub ForksTo : ℕ → ForkCalls → Procs → Kernel (Forked × Procs) → Type 0
ForksTo me c s r = (f : Forked) × (t : Procs) × (r ≡ done (f, t)) × Forks me c s t f × IsValid t

-- The table once the child knows its parent.
abbrev adopted : ℕ → Proc → Procs → Procs
adopted me p t = record t {
  active_proc_list = update t.active_proc_list p.pid (some (record p { parent_pid = some me }));
}
