-- ===== src/CatMouse/Counts.antt =====
-- Counting the creatures of kern/synchprobs/catmouse_synch.c by their stages.
use toy_os.Common.{
  ℕ, ◌+◌, ◌≤◌, ◌≡◌, refl, ap, Bool, true, false, ◌&&◌, List, [], ◌∷◌, map, inl, inr, arith,
  Bool-cases, ◌==◌,
}
use toy_os.CatMouse.{
  Species, cat, mouse, is_species, Stage, hungry, ready, at_bowl, drowsy, asleep, woken, back,
  eating, finished, Creature, woken_stage, has_lock, holds, Broadcast, silent, to, hear, Moves,
  here, there, count, AllHungry, none_left, one_more,
}

abbrev pub is_eating : Stage → Bool
is_eating eating = true
is_eating hungry = false
is_eating ready = false
is_eating at_bowl = false
is_eating drowsy = false
is_eating asleep = false
is_eating woken = false
is_eating back = false
is_eating finished = false

-- The stages in which the counters of sleepers have a creature.
abbrev pub is_counted : Stage → Bool
is_counted drowsy = true
is_counted asleep = true
is_counted woken = true
is_counted back = true
is_counted hungry = false
is_counted ready = false
is_counted at_bowl = false
is_counted eating = false
is_counted finished = false

abbrev pub eats_as : Species → Creature → Bool
eats_as sp c = is_species sp c.species && is_eating c.stage

abbrev pub sleeps_as : Species → Creature → Bool
sleeps_as sp c = is_species sp c.species && is_counted c.stage

abbrev pub one : Bool → ℕ
one true = 1
one false = 0

abbrev pub at_stage : Species → ℕ → Stage → Creature
at_stage sp b p = record { species = sp; bowl = b; stage = p }

-- A count after a move.
pub count-Moves :
    (f : Creature → Bool) {sp : Species} {b : ℕ} {p q : Stage} {cs ds : List Creature}
    → Moves sp b p q cs ds
    → count f ds + one (f (at_stage sp b p)) ≡ count f cs + one (f (at_stage sp b q))
unfolding count
count-Moves f {sp = sp} {b = b} {p = p} {q = q} here = elim (Bool-cases (f (at_stage sp b p))) [
  | inl e ↦ elim (Bool-cases (f (at_stage sp b q))) [
    | inl d ↦ rw (e, d) (omega arith)
    | inr d ↦ rw (e, d) (omega arith)
  ]
  | inr e ↦ elim (Bool-cases (f (at_stage sp b q))) [
    | inl d ↦ rw (e, d) (omega arith)
    | inr d ↦ rw (e, d) (omega arith)
  ]
]
count-Moves f (there {c} {cs} {ds} m) = elim (Bool-cases (f c)) [
  | inl e ↦ let rest = count-Moves f m in rw e (omega arith)
  | inr e ↦ let rest = count-Moves f m in rw e rest
]

-- A count that a change of the creatures leaves alone.
pub count-map :
    (f : Creature → Bool) (g : Creature → Creature)
    → ((c : Creature) → f (g c) ≡ f c)
    → (cs : List Creature) → count f (map g cs) ≡ count f cs
unfolding count
count-map f g h [] = refl
count-map f g h (c ∷ cs) = rw (h c, count-map f g h cs)

is_eating-woken_stage : (st : Stage) → is_eating (woken_stage st) ≡ is_eating st
is_eating-woken_stage hungry = refl
is_eating-woken_stage ready = refl
is_eating-woken_stage at_bowl = refl
is_eating-woken_stage drowsy = refl
is_eating-woken_stage asleep = refl
is_eating-woken_stage woken = refl
is_eating-woken_stage back = refl
is_eating-woken_stage eating = refl
is_eating-woken_stage finished = refl

is_counted-woken_stage : (st : Stage) → is_counted (woken_stage st) ≡ is_counted st
is_counted-woken_stage hungry = refl
is_counted-woken_stage ready = refl
is_counted-woken_stage at_bowl = refl
is_counted-woken_stage drowsy = refl
is_counted-woken_stage asleep = refl
is_counted-woken_stage woken = refl
is_counted-woken_stage back = refl
is_counted-woken_stage eating = refl
is_counted-woken_stage finished = refl

has_lock-woken_stage : (st : Stage) → has_lock (woken_stage st) ≡ has_lock st
has_lock-woken_stage hungry = refl
has_lock-woken_stage ready = refl
has_lock-woken_stage at_bowl = refl
has_lock-woken_stage drowsy = refl
has_lock-woken_stage asleep = refl
has_lock-woken_stage woken = refl
has_lock-woken_stage back = refl
has_lock-woken_stage eating = refl
has_lock-woken_stage finished = refl

-- A broadcast keeps a test of creatures that does not tell `asleep` from `woken`.
hear-keeps :
    (f : Creature → Bool)
    → ((c : Creature) → f (record c { stage = woken_stage c.stage }) ≡ f c)
    → (to_whom : Broadcast) (c : Creature) → f (hear to_whom c) ≡ f c
hear-keeps f h silent c = refl
hear-keeps f h (to who) c = elim (Bool-cases (is_species who c.species)) [
  | inl e ↦ rw (e, h c)
  | inr e ↦ rw e
]

pub hear-eats :
    (sp : Species) (to_whom : Broadcast) (c : Creature) → eats_as sp (hear to_whom c) ≡ eats_as sp c
hear-eats sp =
    hear-keeps (eats_as sp)
      (λ c. ap (λ t. is_species sp c.species && t) (is_eating-woken_stage c.stage))

pub hear-sleeps :
    (sp : Species) (to_whom : Broadcast) (c : Creature)
    → sleeps_as sp (hear to_whom c) ≡ sleeps_as sp c
hear-sleeps sp =
    hear-keeps (sleeps_as sp)
      (λ c. ap (λ t. is_species sp c.species && t) (is_counted-woken_stage c.stage))

pub hear-holds : (b : ℕ) (to_whom : Broadcast) (c : Creature) → holds b (hear to_whom c) ≡ holds b c
hear-holds b = hear-keeps (holds b) (λ c. ap (λ t. c.bowl == b && t) (has_lock-woken_stage c.stage))

-- Creatures that are all hungry count as nothing.
pub count-AllHungry :
    (f : Creature → Bool)
    → ((c : Creature) → c.stage ≡ hungry → f c ≡ false)
    → {cs : List Creature} → AllHungry cs
    → count f cs ≡ 0
unfolding count
count-AllHungry f h none_left = refl
count-AllHungry f h (one_more {c} e rest) = rw (h c e, count-AllHungry f h rest)

-- Who moves is counted before.
pub count_pos :
    (f : Creature → Bool) {sp : Species} {b : ℕ} {p q : Stage} {cs ds : List Creature}
    → f (at_stage sp b p) ≡ true
    → Moves sp b p q cs ds
    → 1 ≤ count f cs
unfolding count
count_pos f e here = rw e (omega arith)
count_pos f e (there {c} m) =
    let rest = count_pos f e m in
    elim (Bool-cases (f c)) [ inl d ↦ rw d (omega arith) | inr d ↦ rw d rest ]

pub is_species_self : (sp : Species) → is_species sp sp ≡ true
is_species_self cat = refl
is_species_self mouse = refl
