-- ===== src/Lib.antt =====
-- Verification library of the Toy-OS kernel, an OS/161 kernel for MIPS in the configuration ASST3
-- (OPT_A2 and OPT_A3 are set). The code is translated by hand into executable definitions; paths are
-- those of the repository.
--
-- The parts, and the files that model them:
--
-- - Coremap (kern/arch/mips/vm/dumbvm.c, kern/arch/mips/vm/ram.c, kern/include/coremap.h): the physical
--   frames. `Frames` holds the static variables of both C files; `ram_stealmem`, `vm_bootstrap`,
--   `coremap_alloc`, `coremap_dealloc`, `getppages`, `alloc_kpages` and `free_kpages` take it and give
--   it back. Addresses are words taken mod 2^32.
-- - Kmalloc (kern/vm/kmalloc.c): the kernel heap on those frames, `kmalloc` and `kfree`. `Kheap` holds
--   the static variables; a `struct pageref` is its index, the lists are lists of indices, and the list
--   that is threaded through the free blocks of a page is the list of their offsets. What blocks hold is
--   not modelled. Other components take the success of kmalloc as an argument.
-- - AddrSpace (kern/arch/mips/vm/dumbvm.c, kern/include/addrspace.h): the as_ functions and `vm_fault`.
--   Page tables are words of kernel memory (`Vm.mem`), their pages come from Coremap; the TLB is a
--   function from its 64 slots.
-- - Process (kern/proc/proc.c, kern/include/proc.h): the process table. `Procs` holds `proc_count`,
--   `current_largest_pid` and `active_proc_list`; a pointer to a process is its pid.
-- - Syscalls (kern/syscall/proc_syscalls.c, kern/include/kern/wait.h): _exit, getpid, waitpid and fork
--   on the table of Process. The results of copyout, as_copy and thread_fork are arguments.
-- - Synch (kern/thread/synch.c, the wait channels of kern/thread/thread.c): semaphores, locks and
--   condition variables; Synch.Semaphores and Synch.Locks let any threads call them in any order, as a
--   step relation.
-- - ThreadList (kern/thread/threadlist.c, kern/include/threadlist.h): the doubly linked lists of threads.
--   `ThreadList` holds the links of all nodes, with numbers for pointers; `IsThreads` says which threads,
--   in which order, they stand for.
-- - CatMouse (kern/synchprobs/catmouse_synch.c): the cats and mice, as a step relation on the shared
--   variables and the creatures' stages.
-- - Sfs (kern/fs/sfs/sfs_vnode.c, kern/fs/sfs/sfs_io.c): files. `SfsFs` holds the size, the free
--   map (a Bitmap) and the device, `SfsVnode` the inode; `sfs_bmap`, `sfs_truncate` and `sfs_io`
--   take both and give them back; `sfs_io` also takes the uio and the memory of its regions, and
--   `fbyte` is what a file holds; Sfs.Directory has the slots of a directory on top of it.
--   `d_io` of the device is an argument that takes a uio, of which the theorems assume
--   (`Sfs.Disk.IsDevice`) that it stores what is written, and that an I/O error leaves the uio
--   and its memory as they were; `lhd_io` does so for reads and not for writes. `sfs_rwblock`
--   retries ten times, as the source does.
-- - Uio (kern/lib/uio.c, kern/include/uio.h, kern/include/kern/iovec.h): data moved between a kernel
--   buffer and the regions of a `struct uio`. Copies to and from user space answer an errno that is an
--   argument (`uio_space`); a copy that fails is taken to have moved nothing. `Sfs` does its block I/O
--   through it.
-- - Lhd (kern/dev/lamebus/lhd.c, kern/dev/lamebus/lhd.h): the disk driver that stands behind `d_io`.
--   The card is an argument, of which the theorem assumes (`Lhd.Sector.IsCard`) that it finishes every
--   operation on a sector that is there. `Lhd` and `Sfs` share the uio.
-- - Bitmap (kern/lib/bitmap.c), Queue (kern/lib/queue.c) and Arrays (kern/lib/array.c,
--   kern/include/array.h).
-- - Common: library names, Boolean tests, C arrays as functions, and `Kernel`, the result of a routine:
--   `panic` is a failed KASSERT, a call of panic, or a NULL pointer that is followed.
--
-- How the code is modelled. A routine that runs under a lock is one step. Allocation may fail:
-- whether kmalloc succeeds is an argument. What kmalloc's memory holds is an argument (`junk`)
-- where the code does not write it. Loops are structural: the scan of `coremap_alloc`, the loops
-- over page tables and the TLB run as many rounds as the C bounds say. On fuel are `double_to`
-- (target size and one: the size doubles), `grow_max` (one round more, for the empty array),
-- `move_all` and `len_loop` (size and one: the ring is left before), `uiomove_loop` (the bytes,
-- the regions and one), `zeros_loop` (the bytes and one), and `cleanup_loop`
-- (`current_largest_pid` and one: the bound never grows). All but the last end in `panic` without
-- fuel, and the theorems on `q_addtail`, `q_len`, `array_add`, `uiomove` and `uiomovezeros` state
-- that they do not; that on `exited_children_cleanup` says what the loop has done.
--
-- Not modelled: execv, which copies its arguments between address spaces; the scheduler, spinlocks
-- and interrupt levels; trap entry; the VFS and the other device drivers, which are I/O; of SFS,
-- the linking of names, the inode on disk and mounting; boot order and menu; tests and user
-- programs. The deallocating routines q_destroy, bitmap_destroy and cv_destroy only give memory
-- back.
pub mod Common
pub mod Coremap
pub mod Process
pub mod Syscalls
pub mod Bitmap
pub mod Queue
pub mod AddrSpace
pub mod CatMouse
pub mod Synch
pub mod Arrays
pub mod Kmalloc
pub mod Lhd
pub mod Sfs
pub mod ThreadList
pub mod Uio
