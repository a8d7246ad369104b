-- ===== src/Synch.antt =====
-- kern/thread/synch.c, and the wait channels of kern/thread/thread.c: semaphores, locks and
-- condition variables. A thread is its number. What a routine does under a spinlock is one step;
-- where a routine sleeps it is cut in two, at `wchan_sleep`.
pub mod Semaphores
pub mod Locks
mod Tests
use toy_os.Common.{
  ℕ, zero, suc, ◌+◌, ◌-◌, ◌^◌, Bool, true, false, not, Option, none, some, List, [], ◌∷◌, ◌++◌,
  Kernel, done, panic, kassert, ◌>>=◌, ◌>>◌, ltb, ◌==◌, if◌then◌else◌,
}

-- `wchan_sleep`: the thread goes to the end of the channel's list.
abbrev pub wchan_sleep : ℕ → List ℕ → List ℕ
wchan_sleep t wc = wc ++ t ∷ []

-- `wchan_wakeone`: the thread that is made runnable, if any, and the channel.
abbrev pub wchan_wakeone : List ℕ → List ℕ × List ℕ
wchan_wakeone [] = ([], [])
wchan_wakeone (t ∷ wc) = (t ∷ [], wc)

-- The loops of `wchan_wakeall`: the threads made runnable, in order, and the channel.
abbrev pub wchan_wakeall : List ℕ → List ℕ × List ℕ
wchan_wakeall wc = (wc, [])

-- `struct semaphore`
pub record Semaphore : Type 0 where
  pub sem_count : ℕ
  pub sem_wchan : List ℕ

-- The first int that is too large.
abbrev pub int_end : ℕ
int_end = 2 ^ 31

-- `sem_create`, for an initial count that is not negative; the flags say which allocations succeed.
unfoldable pub sem_create : Bool → Bool → Bool → ℕ → Option Semaphore
sem_create sem_ok name_ok wchan_ok initial_count =
    if sem_ok
    then (if name_ok
        then (if wchan_ok
            then some (record { sem_count = initial_count; sem_wchan = [] })
            else none)
        else none)
    else none

-- `sem_destroy`: `wchan_destroy` stops if a thread still waits.
unfoldable pub sem_destroy : Semaphore → Kernel (Unit {0})
sem_destroy sem = elim sem.sem_wchan [ [] ↦ done tt | _ ∷ _ ↦ panic ]

-- `P` from an acquisition of the spinlock to its release: whether the thread has passed, or sleeps.
unfoldable pub p_test : ℕ → Semaphore → Bool × Semaphore
p_test t sem =
    if sem.sem_count == 0
    then (false, record sem { sem_wchan = wchan_sleep t sem.sem_wchan })
    else (true, record sem { sem_count = sem.sem_count - 1 })

-- `P` from the call on.
unfoldable pub p_call : Bool → ℕ → Semaphore → Kernel (Bool × Semaphore)
unfolding p_test
p_call in_interrupt t sem = kassert (not in_interrupt) >> done (p_test t sem)

-- `V`: the threads it makes runnable. An int that overflows is negative.
unfoldable pub v : Semaphore → Kernel (List ℕ × Semaphore)
v sem =
    kassert (ltb (sem.sem_count + 1) int_end)
    >> done (
      (wchan_wakeone sem.sem_wchan).0,
      record { sem_count = sem.sem_count + 1; sem_wchan = (wchan_wakeone sem.sem_wchan).1 },
    )

-- `struct lock`
pub record Lock : Type 0 where
  pub lk_holder : Option ℕ
  pub lk_wchan : List ℕ

-- `lock_create`
unfoldable pub lock_create : Bool → Bool → Bool → Option Lock
lock_create lock_ok name_ok wchan_ok =
    if lock_ok
    then (if name_ok
        then (if wchan_ok then some (record { lk_holder = none; lk_wchan = [] }) else none)
        else none)
    else none

-- `lock_destroy`
unfoldable pub lock_destroy : Lock → Kernel (Unit {0})
lock_destroy lock = elim lock.lk_wchan [ [] ↦ done tt | _ ∷ _ ↦ panic ]

-- `lock_do_i_hold`
unfoldable pub lock_do_i_hold : ℕ → Lock → Bool
lock_do_i_hold t lock = elim lock.lk_holder [ some h ↦ h == t | none ↦ false ]

-- `lock_acquire` from an acquisition of the spinlock to its release.
unfoldable pub lock_test : ℕ → Lock → Bool × Lock
lock_test t lock = elim lock.lk_holder [
  | some h ↦ (false, record lock { lk_wchan = wchan_sleep t lock.lk_wchan })
  | none ↦ (true, record lock { lk_holder = some t })
]

-- `lock_acquire` from the call on.
unfoldable pub lock_acquire : Bool → ℕ → Lock → Kernel (Bool × Lock)
unfolding lock_do_i_hold lock_test
lock_acquire in_interrupt t lock =
    kassert (not (lock_do_i_hold t lock)) >> (kassert (not in_interrupt) >> done (lock_test t lock))

-- `lock_release`: the threads it makes runnable.
unfoldable pub lock_release : ℕ → Lock → Kernel (List ℕ × Lock)
unfolding lock_do_i_hold
lock_release t lock =
    kassert (lock_do_i_hold t lock)
    >> done (
      (wchan_wakeone lock.lk_wchan).0,
      record { lk_holder = none; lk_wchan = (wchan_wakeone lock.lk_wchan).1 },
    )

-- `cv_wait` up to the sleep: the threads that its `lock_release` makes runnable, the condition
-- variable's channel and the lock. The channel's lock is held all the time.
unfoldable pub cv_wait : ℕ → List ℕ → Lock → Kernel (List ℕ × List ℕ × Lock)
unfolding lock_release
cv_wait t cv lock = lock_release t lock >>= λ r. done (r.0, wchan_sleep t cv, r.1)

-- `cv_signal` and `cv_broadcast`
unfoldable pub cv_signal : ℕ → List ℕ → Lock → Kernel (List ℕ × List ℕ)
unfolding lock_do_i_hold
cv_signal t cv lock = kassert (lock_do_i_hold t lock) >> done (wchan_wakeone cv)

unfoldable pub cv_broadcast : ℕ → List ℕ → Lock → Kernel (List ℕ × List ℕ)
unfolding lock_do_i_hold
cv_broadcast t cv lock = kassert (lock_do_i_hold t lock) >> done (wchan_wakeall cv)
