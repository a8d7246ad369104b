-- ===== src/Synch/Locks.antt =====
-- Locks and condition variables of kern/thread/synch.c, in any order of the threads that call them.
use toy_os.Common.{
  ℕ, ◌≡◌, ◌≢◌, refl, ap, subst, ◌∙◌, ◌⊎◌, inl, inr, Bool, true, false, Option, none, some, List, [],
  ◌∷◌, ◌++◌, done, >>=-eq-done, Bool-cases, Option-cases, Takes, takes_here, takes_there,
}
use toy_os.Synch.{
  wchan_sleep, wchan_wakeone, Lock, lock_create, lock_do_i_hold, lock_test, lock_acquire,
  lock_release, cv_wait, cv_signal, cv_broadcast,
}

-- A lock and a condition variable that is used with it, the threads that a wakeup made runnable
-- inside `lock_acquire` or `cv_wait`, those that a signal made runnable, and those in their critical
-- sections.
pub record World : Type 0 where
  pub lock : Lock
  pub cv : List ℕ
  pub woken : List ℕ
  pub inside : List ℕ

abbrev tested : ℕ → Bool × Lock → World → World
tested t (true, lock) w = record w { lock = lock; inside = t ∷ w.inside }
tested t (false, lock) w = record w { lock = lock }

pub data Step (w : World) : World → Type 0 where
  calls : (t : ℕ) {r : Bool × Lock} → lock_acquire false t w.lock ≡ done r → Step w (tested t r w)
  -- a thread that `wchan_sleep` of `lock_acquire` let go on, or `cv_wait` after its own
  retries :
      (t : ℕ) {left : List ℕ}
      → Takes t w.woken left
      → Step w (tested t (lock_test t w.lock) (record w { woken = left }))
  releases :
      {t : ℕ} {left ts : List ℕ} {lock : Lock}
      → Takes t w.inside left
      → lock_release t w.lock ≡ done (ts, lock)
      → Step w (record w { lock = lock; woken = ts ++ w.woken; inside = left })
  waits :
      {t : ℕ} {left ts cv : List ℕ} {lock : Lock}
      → Takes t w.inside left
      → cv_wait t w.cv w.lock ≡ done (ts, cv, lock)
      → Step w (record { lock = lock; cv = cv; woken = ts ++ w.woken; inside = left })
  signals :
      (t : ℕ) {ts cv : List ℕ}
      → cv_signal t w.cv w.lock ≡ done (ts, cv)
      → Step w (record w { cv = cv; woken = ts ++ w.woken })
  broadcasts :
      (t : ℕ) {ts cv : List ℕ}
      → cv_broadcast t w.cv w.lock ≡ done (ts, cv)
      → Step w (record w { cv = cv; woken = ts ++ w.woken })

-- What threads reach from a lock that `lock_create` has made.
pub data Reaches : World → Type 0 where
  creates :
      {lock : Lock}
      → lock_create true true true ≡ some lock
      → Reaches (record { lock = lock; cv = []; woken = []; inside = [] })
  steps : {w u : World} → Reaches w → Step w u → Reaches u

-- The threads of a lock's holder.
abbrev pub holder_list : Option ℕ → List ℕ
holder_list none = []
holder_list (some t) = t ∷ []

pub record IsExclusive (w : World) : Type 0 where
  -- the holder is in its critical section, and nobody else
  pub only_holder : w.inside ≡ holder_list w.lock.lk_holder
  -- a thread that sleeps on a free lock has one that is runnable before it
  pub no_lost_wakeup : (w.lock.lk_wchan ≡ []) ⊎ ((w.lock.lk_holder ≢ none) ⊎ (w.woken ≢ []))

tested-IsExclusive :
    (t : ℕ) (w : World)
    → w.inside ≡ holder_list w.lock.lk_holder
    → IsExclusive (tested t (lock_test t w.lock) w)
unfolding lock_test
tested-IsExclusive t w only = elim (Option-cases w.lock.lk_holder) [
  | inl free ↦ rw free (record {
    only_holder = ap (λ xs. t ∷ xs) (only ∙ ap holder_list free);
    no_lost_wakeup = inr (inl (λ e. cc));
  })
  | inr (h, held) ↦
      rw held
        (record { only_holder = only ∙ ap holder_list held; no_lost_wakeup = inr (inl (λ e. cc)) })
]

Takes-nil : {t : ℕ} {xs left : List ℕ} → Takes t xs left → xs ≢ []
Takes-nil takes_here e = cc
Takes-nil (takes_there m) e = cc

Takes-single : {t h : ℕ} {xs left : List ℕ} → Takes t xs left → xs ≡ h ∷ [] → left ≡ []
Takes-single takes_here e = cc
Takes-single (takes_there {y} {xs} m) e = let rest : xs ≡ [] = cc in absurd (Takes-nil m rest)

woken-wakeone :
    (wc woken : List ℕ) → ((wchan_wakeone wc).1 ≡ []) ⊎ (((wchan_wakeone wc).0 ++ woken) ≢ [])
woken-wakeone [] woken = inl refl
woken-wakeone (t ∷ wc) woken = inr (λ e. cc)

woken-++ : (ts woken : List ℕ) → woken ≢ [] → (ts ++ woken) ≢ []
woken-++ [] woken h e = h e
woken-++ (t ∷ ts) woken h e = cc

lock_release-done :
    (t : ℕ) (lock : Lock) {ts : List ℕ} {next : Lock}
    → lock_release t lock ≡ done (ts, next)
    → (ts ≡ (wchan_wakeone lock.lk_wchan).0)
      × (next ≡ record { lk_holder = none; lk_wchan = (wchan_wakeone lock.lk_wchan).1 })
unfolding lock_release
lock_release-done t lock e = elim (Bool-cases (lock_do_i_hold t lock)) [
  | inl mine ↦ let now = rw mine at e in (cc, cc)
  | inr other ↦ let now = rw other at e in cc
]

release-IsExclusive :
    (t : ℕ) (left : List ℕ) (w : World) (cv : List ℕ) {ts : List ℕ} {next : Lock}
    → IsExclusive w
    → Takes t w.inside left
    → lock_release t w.lock ≡ done (ts, next)
    → IsExclusive (record { lock = next; cv = cv; woken = ts ++ w.woken; inside = left })
release-IsExclusive t left w cv x taken e =
    let (threads, now) = lock_release-done t w.lock e in
    rw (threads, now)
      (record {
        only_holder = elim (Option-cases w.lock.lk_holder) [
          | inl free ↦ absurd (Takes-nil taken (x.only_holder ∙ ap holder_list free))
          | inr (h, held) ↦ Takes-single taken (x.only_holder ∙ ap holder_list held)
        ];
        no_lost_wakeup = elim (woken-wakeone w.lock.lk_wchan w.woken) [
          | inl empty ↦ inl empty
          | inr runs ↦ inr (inr runs)
        ];
      })

more_woken :
    (ts cv : List ℕ) (w : World)
    → IsExclusive w
    → IsExclusive (record w { cv = cv; woken = ts ++ w.woken })
more_woken ts cv w x = record {
  only_holder = x.only_holder;
  no_lost_wakeup = elim x.no_lost_wakeup [
    | inl empty ↦ inl empty
    | inr (inl held) ↦ inr (inl held)
    | inr (inr runs) ↦ inr (inr (woken-++ ts w.woken runs))
  ];
}

IsExclusive-Step : {w u : World} → IsExclusive w → Step w u → IsExclusive u
unfolding lock_acquire cv_wait
IsExclusive-Step {w} x (calls t {r} e) = elim (Bool-cases (lock_do_i_hold t w.lock)) [
  | inl mine ↦ let now = rw mine at e in cc
  | inr other ↦
      let now = rw other at e in
      let same : lock_test t w.lock ≡ r = cc in
      subst (λ r. IsExclusive (tested t r w)) same (tested-IsExclusive t w x.only_holder)
]
IsExclusive-Step {w} x (retries t {left} taken) =
    tested-IsExclusive t (record w { woken = left }) x.only_holder
IsExclusive-Step {w} x (releases {t} {left} taken e) = release-IsExclusive t left w w.cv x taken e
IsExclusive-Step {w} x (waits {t} {left} {ts} {cv} {lock} taken e) =
    let ((ts', next), released, rest) = >>=-eq-done (lock_release t w.lock) _ e in
    let threads : ts' ≡ ts = cc in
    let channel : wchan_sleep t w.cv ≡ cv = cc in
    let now : next ≡ lock = cc in
    rw (← threads, ← now) (release-IsExclusive t left w cv x taken released)
IsExclusive-Step {w} x (signals t {ts} {cv} e) = more_woken ts cv w x
IsExclusive-Step {w} x (broadcasts t {ts} {cv} e) = more_woken ts cv w x

-- In every world that threads reach with a lock and a condition variable: the lock's holder is in
-- its critical section and no other thread is in one, and where threads sleep on the lock it is held
-- or a thread is runnable that tries it next, so that no wakeup is lost.
pub Reaches-IsExclusive : {w : World} → Reaches w → IsExclusive w
unfolding lock_create
Reaches-IsExclusive (creates {lock} e) =
    let same : record { lk_holder = none; lk_wchan = [] } ≡ lock = cc in
    subst (λ l. IsExclusive (record { lock = l; cv = []; woken = []; inside = [] })) same
      (record { only_holder = refl; no_lost_wakeup = inl refl })
Reaches-IsExclusive (steps r st) = IsExclusive-Step (Reaches-IsExclusive r) st
