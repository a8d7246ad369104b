-- ===== src/Synch/Tests.antt =====
-- Runs of semaphores and locks.
use toy_os.Common.{refl, some, [], ◌∷◌}
use toy_os.Synch.{
  sem_create, p_test, p_call, v, lock_create, lock_do_i_hold, lock_test, lock_acquire,
}
use toy_os.Synch.Semaphores
use toy_os.Synch.Locks

-- Thread 7 finds a semaphore of count 0, sleeps, and is woken.
abbrev woken_sleeper : Semaphores.World
woken_sleeper = record {
  sem = record { sem_count = 1; sem_wchan = [] };
  woken = 7 ∷ [];
  called = 1;
  passed = 0;
  posted = 1;
}

woken_sleeper_reached : Semaphores.Reaches 0 woken_sleeper
unfolding sem_create p_call p_test v
woken_sleeper_reached =
    Semaphores.steps (Semaphores.steps (Semaphores.creates refl) (Semaphores.calls 7 refl))
      (Semaphores.posts refl)

Reaches-IsFair_example : Semaphores.IsFair 0 woken_sleeper
Reaches-IsFair_example = Semaphores.Reaches-IsFair woken_sleeper_reached

-- Thread 7 holds the lock while thread 8 sleeps on it.
abbrev contended : Locks.World
contended = record {
  lock = record { lk_holder = some 7; lk_wchan = 8 ∷ [] };
  cv = [];
  woken = [];
  inside = 7 ∷ [];
}

contended_reached : Locks.Reaches contended
unfolding lock_create lock_acquire lock_do_i_hold lock_test
contended_reached =
    Locks.steps (Locks.steps (Locks.creates refl) (Locks.calls 7 refl)) (Locks.calls 8 refl)

Reaches-IsExclusive_example : Locks.IsExclusive contended
Reaches-IsExclusive_example = Locks.Reaches-IsExclusive contended_reached
