-- ===== src/Process.antt =====
-- kern/proc/proc.c: the table of processes. A process stands in the table under its pid, and the
-- pointers to it are that pid. Each routine is run by a thread that holds `global_mutex` (or, for
-- `proc_count`, its semaphore), so it is one step. Not modelled are the parts of a process that
-- these routines only create and free: its name, its threads, console and working directory.
pub mod Table
pub mod Pids
pub mod Cleanup
pub mod Tests
use toy_os.Common.{
  ℕ, zero, suc, ◌+◌, ◌-◌, ◌≤◌, Bool, true, false, ◌&&◌, Option, none, some, Kernel, done, panic,
  kassert, ◌>>=◌, ◌>>◌, leb, ltb, ◌==◌, if◌then◌else◌, update,
}

abbrev pub pid_min : ℕ
pid_min = 2

abbrev pub pid_max : ℕ
pid_max = 32767

-- `struct proc`; `parent_pid` is `none` for the dummy -1.
pub record Proc : Type 0 where
  pub exit : ℕ
  pub exitcode : ℕ
  pub parent_pid : Option ℕ
  pub pid : ℕ
  pub loaded : Bool

-- The static variables of proc.c.
pub record Procs : Type 0 where
  pub proc_count : ℕ
  pub current_largest_pid : ℕ
  pub active_proc_list : ℕ → Option Proc

-- `proc_bootstrap`, the process table's part.
unfoldable pub proc_bootstrap : Procs
proc_bootstrap = record { proc_count = 0; current_largest_pid = 2; active_proc_list = λ i. none }

-- `proc_destroy`; `num` is the number of threads that the process still has, which
-- `threadarray_cleanup` tests. Threads are not kept in the table: a process that has exited has
-- detached its thread, and one that is new has none yet.
unfoldable pub proc_destroy : ℕ → Proc → Procs → Kernel Procs
proc_destroy num p s = do
  kassert (num == 0)
  kassert (ltb 0 s.proc_count)
  done (record {
    proc_count = s.proc_count - 1;
    current_largest_pid =
        if p.pid == s.current_largest_pid then s.current_largest_pid - 1 else s.current_largest_pid;
    active_proc_list = update s.active_proc_list p.pid none;
  })

-- The search of `add_to_active_proc_list` for the first empty slot: `rounds` slots from `i` on.
unfoldable pub free_slot : (ℕ → Option Proc) → ℕ → ℕ → Option ℕ
free_slot list zero i = none
free_slot list (suc rounds) i =
    let rest = free_slot list rounds (i + 1) in elim (list i) [ none ↦ some i | some _ ↦ rest ]

-- The pid that `add_to_active_proc_list` gives.
abbrev pub next_pid : Procs → ℕ
next_pid s = elim (free_slot s.active_proc_list (s.current_largest_pid + 1 - 2) 2) [
  | some i ↦ i
  | none ↦ s.current_largest_pid + 1
]

-- `add_to_active_proc_list`
unfoldable pub add_to_active_proc_list : Proc → Procs → Proc × Procs
unfolding free_slot
add_to_active_proc_list new_proc s =
    let p : Proc = record new_proc { pid = next_pid s } in
    (
      p,
      record s {
        current_largest_pid =
            if ltb s.current_largest_pid (next_pid s) then next_pid s else s.current_largest_pid;
        active_proc_list = update s.active_proc_list (next_pid s) (some p);
      },
    )

-- A new process: the dummy parent -1, not exited, not loaded.
abbrev pub fresh_proc : Proc
fresh_proc = record { exit = 0; exitcode = 0; parent_pid = none; pid = 0; loaded = false }

-- `proc_create_runprogram`; the flags say whether the memory for the process and for its condition
-- variable is there, `con_ok` that for the path of the console, and `open_error` is what `vfs_open`
-- of it answers. `none` is NULL.
unfoldable pub proc_create_runprogram :
    Bool → Bool → Bool → ℕ → Procs → Kernel (Option Proc × Procs)
unfolding add_to_active_proc_list
proc_create_runprogram proc_ok cv_ok con_ok open_error s =
    if proc_ok && cv_ok
    then (if con_ok && open_error == 0
        then (let (p, t) =
              add_to_active_proc_list fresh_proc (record s { proc_count = s.proc_count + 1 }) in
            done (some p, t))
        else panic)
    else done (none, s)

-- `check_proc_limit`
unfoldable pub check_proc_limit : Procs → Bool
check_proc_limit s = s.proc_count == pid_max - pid_min + 1

-- `find_proc`
unfoldable pub find_proc : ℕ → Procs → Kernel (Option Proc)
find_proc pid s = do
  kassert (leb pid pid_max)
  kassert (leb pid_min pid)
  done (s.active_proc_list pid)

-- `parent_checker`; a pid here is not negative, so its test for -1 does not hold.
unfoldable pub parent_checker : ℕ → Procs → Kernel Bool
parent_checker pid s = do
  kassert (leb pid pid_max)
  kassert (leb pid_min pid)
  done (elim (s.active_proc_list pid) [ none ↦ false | some p ↦ not_exited p ])
  where
    not_exited : Proc → Bool
    not_exited p = if p.exit == 1 then false else true

-- The test of `exited_children_cleanup`
abbrev pub is_exited_child : ℕ → Proc → Bool
is_exited_child pid p = elim p.parent_pid [
  | none ↦ false
  | some parent ↦ parent == pid && p.exit == 1
]

-- `exited_children_cleanup`: the loop reads `current_largest_pid` anew in every round, and `fuel`
-- bounds its rounds.
unfoldable pub cleanup_loop : ℕ → ℕ → ℕ → Procs → Kernel Procs
unfolding proc_destroy
cleanup_loop zero pid i s = done s
cleanup_loop (suc fuel) pid i s =
    let next = λ (t : Procs). cleanup_loop fuel pid (i + 1) t in
    if leb i s.current_largest_pid
    then elim (s.active_proc_list i) [
      | none ↦ next s
      | some p ↦ if is_exited_child pid p then (proc_destroy 0 p s >>= next) else next s
    ]
    else done s

unfoldable pub exited_children_cleanup : ℕ → Procs → Kernel Procs
unfolding cleanup_loop
exited_children_cleanup pid s = cleanup_loop (s.current_largest_pid + 1) pid 2 s
