-- ===== src/ThreadList.antt =====
-- kern/thread/threadlist.c: doubly linked lists of threads, with a node at each end. A pointer to a
-- node is a number: the list's two nodes, and `t_listnode` of each thread, which is its number.
-- NULL is `none`, and following it is `panic`. DEBUGASSERT is off in kern/include/lib.h and left
-- out.
pub mod Linked
pub mod Nodes
pub mod Order
mod Tests
use toy_os.Common.{
  ℕ, ◌+◌, ◌-◌, ◌^◌, Bool, true, false, not, Option, none, some, Kernel, done, panic, kassert, ◌>>=◌,
  ◌>>◌, ◌==◌, update,
}
use toy_os.Coremap.{u32}

abbrev pub tl_head : ℕ
tl_head = 0

abbrev pub tl_tail : ℕ
tl_tail = 1

abbrev pub t_listnode : ℕ → ℕ
t_listnode t = t + 2

-- `struct threadlist`, with the nodes of all threads.
pub record ThreadList : Type 0 where
  pub tln_prev : ℕ → Option ℕ
  pub tln_next : ℕ → Option ℕ
  pub tln_self : ℕ → Option ℕ
  pub tl_count : ℕ

-- `threadlistnode_init`
unfoldable pub threadlistnode_init : ℕ → ThreadList → ThreadList
threadlistnode_init t tl = record tl {
  tln_next = update tl.tln_next (t_listnode t) none;
  tln_prev = update tl.tln_prev (t_listnode t) none;
  tln_self = update tl.tln_self (t_listnode t) (some t);
}

-- `threadlist_init`
unfoldable pub threadlist_init : ThreadList → ThreadList
threadlist_init tl = record {
  tln_next = update (update tl.tln_next tl_head (some tl_tail)) tl_tail none;
  tln_prev = update (update tl.tln_prev tl_head none) tl_tail (some tl_head);
  tln_self = update (update tl.tln_self tl_head none) tl_tail none;
  tl_count = 0;
}

-- `threadlist_isempty`
unfoldable pub threadlist_isempty : ThreadList → Bool
threadlist_isempty tl = tl.tl_count == 0

-- `p->tln_next = target` and `p->tln_prev = target`
unfoldable pub set_next : Option ℕ → Option ℕ → ThreadList → Kernel ThreadList
set_next none target tl = panic
set_next (some p) target tl = done (record tl { tln_next = update tl.tln_next p target })

unfoldable pub set_prev : Option ℕ → Option ℕ → ThreadList → Kernel ThreadList
set_prev none target tl = panic
set_prev (some p) target tl = done (record tl { tln_prev = update tl.tln_prev p target })

-- The last two lines of the insertions: the node is put between its neighbours.
unfoldable pub link_node : ℕ → ThreadList → Kernel ThreadList
link_node addee tl =
    set_next (tl.tln_prev addee) (some addee) tl >>= λ u. set_prev (u.tln_next addee) (some addee) u

-- `threadlist_insertafternode`
unfoldable pub threadlist_insertafternode : ℕ → ℕ → ThreadList → Kernel ThreadList
threadlist_insertafternode onlist t tl =
    let addee = t_listnode t in
    link_node addee (record tl {
      tln_prev = update tl.tln_prev addee (some onlist);
      tln_next = update tl.tln_next addee (tl.tln_next onlist);
    })

-- `threadlist_insertbeforenode`
unfoldable pub threadlist_insertbeforenode : ℕ → ℕ → ThreadList → Kernel ThreadList
threadlist_insertbeforenode t onlist tl =
    let addee = t_listnode t in
    link_node addee (record tl {
      tln_prev = update tl.tln_prev addee (tl.tln_prev onlist);
      tln_next = update tl.tln_next addee (some onlist);
    })

-- `threadlist_removenode`
unfoldable pub threadlist_removenode : ℕ → ThreadList → Kernel ThreadList
threadlist_removenode tln tl = set_next (tl.tln_prev tln) (tl.tln_next tln) tl >>= λ u.
    set_prev (u.tln_next tln) (u.tln_prev tln) u >>= λ w.
    done (record w { tln_prev = update w.tln_prev tln none; tln_next = update w.tln_next tln none })

-- `tl_count++` and `tl_count--`, on an unsigned
unfoldable pub count_up : ThreadList → ThreadList
count_up tl = record tl { tl_count = u32 (tl.tl_count + 1) }

unfoldable pub count_down : ThreadList → ThreadList
count_down tl = record tl { tl_count = u32 (tl.tl_count + 2 ^ 32 - 1) }

-- `threadlist_addhead`
unfoldable pub threadlist_addhead : ℕ → ThreadList → Kernel ThreadList
threadlist_addhead t tl = threadlist_insertafternode tl_head t tl >>= λ u. done (count_up u)

-- `threadlist_addtail`
unfoldable pub threadlist_addtail : ℕ → ThreadList → Kernel ThreadList
threadlist_addtail t tl = threadlist_insertbeforenode t tl_tail tl >>= λ u. done (count_up u)

-- The node at an end is removed, unless the list is empty: `beyond` is what the node links to.
unfoldable pub remove_end : ℕ → Option ℕ → ThreadList → Kernel (Option ℕ × ThreadList)
remove_end tln none tl = done (none, tl)
remove_end tln (some beyond) tl =
    threadlist_removenode tln tl >>= λ u. done (u.tln_self tln, count_down u)

unfoldable pub remhead_node : Option ℕ → ThreadList → Kernel (Option ℕ × ThreadList)
remhead_node none tl = panic
remhead_node (some tln) tl = remove_end tln (tl.tln_next tln) tl

-- `threadlist_remhead`; `none` is NULL.
unfoldable pub threadlist_remhead : ThreadList → Kernel (Option ℕ × ThreadList)
threadlist_remhead tl = remhead_node (tl.tln_next tl_head) tl

unfoldable pub remtail_node : Option ℕ → ThreadList → Kernel (Option ℕ × ThreadList)
remtail_node none tl = panic
remtail_node (some tln) tl = remove_end tln (tl.tln_prev tln) tl

-- `threadlist_remtail`
unfoldable pub threadlist_remtail : ThreadList → Kernel (Option ℕ × ThreadList)
threadlist_remtail tl = remtail_node (tl.tln_prev tl_tail) tl

-- `threadlist_insertafter`
unfoldable pub threadlist_insertafter : ℕ → ℕ → ThreadList → Kernel ThreadList
threadlist_insertafter onlist addee tl =
    threadlist_insertafternode (t_listnode onlist) addee tl >>= λ u. done (count_up u)

-- `threadlist_insertbefore`
unfoldable pub threadlist_insertbefore : ℕ → ℕ → ThreadList → Kernel ThreadList
threadlist_insertbefore addee onlist tl =
    threadlist_insertbeforenode addee (t_listnode onlist) tl >>= λ u. done (count_up u)

-- `threadlist_remove`
unfoldable pub threadlist_remove : ℕ → ThreadList → Kernel ThreadList
threadlist_remove t tl = threadlist_removenode (t_listnode t) tl >>= λ u. done (count_down u)

-- `threadlistnode_cleanup` and `threadlist_cleanup`
abbrev is_null : Option ℕ → Bool
is_null none = true
is_null (some p) = false

unfoldable pub threadlistnode_cleanup : ℕ → ThreadList → Kernel (Unit {0})
threadlistnode_cleanup t tl =
    kassert (is_null (tl.tln_next (t_listnode t)))
    >> (kassert (is_null (tl.tln_prev (t_listnode t)))
        >> kassert (not (is_null (tl.tln_self (t_listnode t)))))

unfoldable pub threadlist_cleanup : ThreadList → Kernel (Unit {0})
unfolding threadlist_isempty
threadlist_cleanup tl = kassert (threadlist_isempty tl) >> kassert (tl.tl_count == 0)
