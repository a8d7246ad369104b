-- ===== src/Synch/Semaphores.antt =====
-- `P` and `V` of kern/thread/synch.c, in any order of the threads that call them.
use toy_os.Common.{
  ℕ, suc, ◌+◌, ◌≤◌, ◌≡◌, ◌≢◌, refl, subst, ◌⊎◌, inl, inr, Bool, true, false, some, List, [], ◌∷◌,
  ◌++◌, done, arith, Bool-cases, ltb, ◌==◌, length, length-snoc, Takes, length-Takes,
}
use toy_os.Synch.{wchan_wakeone, Semaphore, int_end, sem_create, p_test, p_call, v}

-- A semaphore, the threads that a wakeup made runnable inside `P`, and how many calls there were.
pub record World : Type 0 where
  pub sem : Semaphore
  pub woken : List ℕ
  pub called : ℕ
  pub passed : ℕ
  pub posted : ℕ

-- What an acquisition of the spinlock in `P` leads to.
abbrev tested : Bool × Semaphore → World → World
tested (true, sem) w = record w { sem = sem; passed = w.passed + 1 }
tested (false, sem) w = record w { sem = sem }

pub data Step (w : World) : World → Type 0 where
  calls :
      (t : ℕ) {r : Bool × Semaphore}
      → p_call false t w.sem ≡ done r
      → Step w (tested r (record w { called = w.called + 1 }))
  retries :
      (t : ℕ) {left : List ℕ}
      → Takes t w.woken left
      → Step w (tested (p_test t w.sem) (record w { woken = left }))
  posts :
      {ts : List ℕ} {sem : Semaphore}
      → v w.sem ≡ done (ts, sem)
      → Step w (record w { sem = sem; woken = ts ++ w.woken; posted = w.posted + 1 })

abbrev pub start : Semaphore → World
start sem = record { sem = sem; woken = []; called = 0; passed = 0; posted = 0 }

-- What threads reach from a semaphore that `sem_create` has made.
pub data Reaches (count : ℕ) : World → Type 0 where
  creates :
      {sem : Semaphore} → sem_create true true true count ≡ some sem → Reaches count (start sem)
  steps : {w u : World} → Reaches count w → Step w u → Reaches count u

pub record IsFair (count : ℕ) (w : World) : Type 0 where
  -- the count is what was posted less what has passed
  pub balance : w.sem.sem_count + w.passed ≡ count + w.posted
  -- a call that has not passed is asleep or runnable
  pub nobody_lost : w.called ≡ w.passed + length w.sem.sem_wchan + length w.woken
  -- where threads sleep, the wakeups suffice for the count
  pub no_lost_wakeup : (w.sem.sem_wchan ≡ []) ⊎ (w.sem.sem_count ≤ length w.woken)

tested-IsFair :
    (count : ℕ) (t : ℕ) (w : World)
    → w.sem.sem_count + w.passed ≡ count + w.posted
    → w.called ≡ suc (w.passed + length w.sem.sem_wchan + length w.woken)
    → (w.sem.sem_wchan ≡ []) ⊎ (w.sem.sem_count ≤ suc (length w.woken))
    → IsFair count (tested (p_test t w.sem) w)
unfolding p_test
tested-IsFair count t w balance nobody_lost enough = elim (Bool-cases (w.sem.sem_count == 0)) [
  | inl e ↦
      let none_left : w.sem.sem_count ≡ 0 = ground arith in
      rw e (record {
        balance = balance;
        nobody_lost = omega (arith, length-snoc w.sem.sem_wchan t);
        no_lost_wakeup = inr (omega arith);
      })
  | inr e ↦
      let some_left : w.sem.sem_count ≢ 0 = ground arith in
      rw e (record {
        balance = omega arith;
        nobody_lost = omega arith;
        no_lost_wakeup = elim enough [ inl empty ↦ inl empty | inr le ↦ inr (omega arith) ];
      })
]

wakeone-length :
    (wc : List ℕ) → length wc ≡ length (wchan_wakeone wc).0 + length (wchan_wakeone wc).1
wakeone-length [] = refl
wakeone-length (t ∷ wc) = ground arith

length-++ : (xs ys : List ℕ) → length (xs ++ ys) ≡ length xs + length ys
length-++ [] ys = omega arith
length-++ (x ∷ xs) ys = omega (arith, length-++ xs ys)

-- A wakeup leaves an empty channel, or one more runnable thread.
wakeone-woken : (wc : List ℕ) → ((wchan_wakeone wc).1 ≡ []) ⊎ (length (wchan_wakeone wc).0 ≡ 1)
wakeone-woken [] = inl refl
wakeone-woken (t ∷ wc) = inr refl

posted-IsFair :
    (count : ℕ) (w : World)
    → IsFair count w
    → IsFair count (record w {
      sem = record {
        sem_count = w.sem.sem_count + 1;
        sem_wchan = (wchan_wakeone w.sem.sem_wchan).1;
      };
      woken = (wchan_wakeone w.sem.sem_wchan).0 ++ w.woken;
      posted = w.posted + 1;
    })
posted-IsFair count w f =
    let split = wakeone-length w.sem.sem_wchan in
    let total = length-++ (wchan_wakeone w.sem.sem_wchan).0 w.woken in
    let balance = f.balance in
    let nobody = f.nobody_lost in
    record {
      balance = omega arith;
      nobody_lost = omega arith;
      no_lost_wakeup = elim f.no_lost_wakeup [
        | inl empty ↦ inl (rw empty)
        | inr le ↦ elim (wakeone-woken w.sem.sem_wchan) [
          | inl empty ↦ inl empty
          | inr one ↦ inr (omega arith)
        ]
      ];
    }

v-done :
    (sem : Semaphore) {ts : List ℕ} {next : Semaphore}
    → v sem ≡ done (ts, next)
    → (ts ≡ (wchan_wakeone sem.sem_wchan).0)
      × (next
          ≡ record { sem_count = sem.sem_count + 1; sem_wchan = (wchan_wakeone sem.sem_wchan).1 })
unfolding v
v-done sem e = elim (Bool-cases (ltb (sem.sem_count + 1) int_end)) [
  | inl fits ↦ let now = rw fits at e in (cc, cc)
  | inr over ↦ let now = rw over at e in cc
]

IsFair-Step : {count : ℕ} {w u : World} → IsFair count w → Step w u → IsFair count u
unfolding p_call
IsFair-Step {count} {w} f (calls t {r} e) =
    let balance = f.balance in
    let nobody = f.nobody_lost in
    let same : p_test t w.sem ≡ r = cc in
    subst (λ r. IsFair count (tested r (record w { called = w.called + 1 }))) same
      (tested-IsFair count t (record w { called = w.called + 1 }) balance (omega arith)
        (elim f.no_lost_wakeup [ inl empty ↦ inl empty | inr le ↦ inr (omega arith) ]))
IsFair-Step {count} {w} f (retries t {left} taken) =
    let nobody = f.nobody_lost in
    let shorter = length-Takes taken in
    tested-IsFair count t (record w { woken = left }) f.balance (omega arith)
      (elim f.no_lost_wakeup [ inl empty ↦ inl empty | inr le ↦ inr (omega arith) ])
IsFair-Step {count} {w} f (posts {ts} {sem} e) =
    let (threads, next) = v-done w.sem e in rw (threads, next) (posted-IsFair count w f)

created-IsFair :
    {count : ℕ} {sem : Semaphore}
    → sem_create true true true count ≡ some sem
    → IsFair count (start sem)
unfolding sem_create
created-IsFair {count} {sem} e =
    let same : record { sem_count = count; sem_wchan = [] } ≡ sem = cc in
    subst (λ s. IsFair count (start s)) same
      (record { balance = refl; nobody_lost = refl; no_lost_wakeup = inl refl })

-- Whatever order threads call `P` and `V` in: the count is the initial one plus the posts less the
-- passes, a call of `P` that has not passed is asleep or runnable, and where threads sleep there are
-- at least as many runnable threads in `P` as the count, so that no wakeup is lost.
pub Reaches-IsFair : {count : ℕ} {w : World} → Reaches count w → IsFair count w
Reaches-IsFair (creates e) = created-IsFair e
Reaches-IsFair (steps r st) = IsFair-Step (Reaches-IsFair r) st
