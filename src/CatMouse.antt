-- ===== src/CatMouse.antt =====
-- kern/synchprobs/catmouse_synch.c: cats and mice that share bowls. A section that holds the lock
-- `set_catmouse_eat` is one step; `lk_for_bowls` and the condition variables are in a creature's
-- stage. The counters are of type int and count creatures, so that they stay in its range.
pub mod Counts
pub mod Tally
pub mod Safety
mod Tests
use toy_os.Common.{
  ℕ, zero, suc, ◌+◌, ◌-◌, ◌≡◌, Bool, true, false, ◌&&◌, ◌||◌, List, [], ◌∷◌, map, ltb, ◌==◌,
  if◌then◌else◌,
}

-- `cat_mouse_turn`: -1, 0 and 1.
pub data Turn : Type 0 where
  nobody mice cats : Turn

pub data Species : Type 0 where
  cat mouse : Species

abbrev pub is_species : Species → Species → Bool
is_species cat cat = true
is_species cat mouse = false
is_species mouse cat = false
is_species mouse mouse = true

-- The variables that the creatures share.
pub record Shared : Type 0 where
  pub cats_eating : ℕ
  pub cats_sleeping : ℕ
  pub mouse_eating : ℕ
  pub mouse_sleeping : ℕ
  pub cat_mouse_turn : Turn

-- `catmouse_sync_init`
unfoldable pub catmouse_sync_init : Shared
catmouse_sync_init = record {
  cats_eating = 0;
  cats_sleeping = 0;
  mouse_eating = 0;
  mouse_sleeping = 0;
  cat_mouse_turn = nobody;
}

abbrev claimed : Turn → Turn → Turn
claimed nobody want = want
claimed mice want = mice
claimed cats want = cats

-- The first section of `cat_before_eating` and of `mouse_before_eating`.
unfoldable pub claim_turn : Species → Shared → Shared
claim_turn cat s = record s { cat_mouse_turn = claimed s.cat_mouse_turn cats }
claim_turn mouse s = record s { cat_mouse_turn = claimed s.cat_mouse_turn mice }

abbrev is_mice : Turn → Bool
is_mice mice = true
is_mice nobody = false
is_mice cats = false

abbrev is_cats : Turn → Bool
is_cats cats = true
is_cats nobody = false
is_cats mice = false

-- The condition of the loop in `cat_before_eating` and in `mouse_before_eating`.
unfoldable pub must_sleep : Species → Shared → Bool
must_sleep cat s = is_mice s.cat_mouse_turn || ltb 0 s.mouse_eating
must_sleep mouse s = is_cats s.cat_mouse_turn || ltb 0 s.cats_eating

-- The loop's body, up to the release of the lock.
unfoldable pub fall_asleep : Species → Shared → Shared
fall_asleep cat s = record s { cats_sleeping = s.cats_sleeping + 1 }
fall_asleep mouse s = record s { mouse_sleeping = s.mouse_sleeping + 1 }

-- Its end, once `cv_wait` returned.
unfoldable pub wake_up : Species → Shared → Shared
wake_up cat s = record s { cats_sleeping = s.cats_sleeping - 1 }
wake_up mouse s = record s { mouse_sleeping = s.mouse_sleeping - 1 }

-- After the loop.
unfoldable pub start_eating : Species → Shared → Shared
start_eating cat s = record s { cats_eating = s.cats_eating + 1 }
start_eating mouse s = record s { mouse_eating = s.mouse_eating + 1 }

-- Which condition variable gets the broadcast, if any.
pub data Broadcast : Type 0 where
  silent : Broadcast
  to : Species → Broadcast

-- The section of `cat_after_eating` and of `mouse_after_eating`.
unfoldable pub after_eating : Species → Shared → Shared × Broadcast
after_eating cat s =
    let left = s.cats_eating - 1 in
    let t : Shared = record s { cats_eating = left } in
    if left == 0 && ltb 0 s.mouse_sleeping
    then (record t { cat_mouse_turn = mice }, to mouse)
    else (if left == 0 && (s.mouse_sleeping == 0 && s.cats_sleeping == 0)
        then (record t { cat_mouse_turn = nobody }, silent)
        else (t, to cat))
after_eating mouse s =
    let left = s.mouse_eating - 1 in
    let t : Shared = record s { mouse_eating = left } in
    if left == 0 && ltb 0 s.cats_sleeping
    then (record t { cat_mouse_turn = cats }, to cat)
    else (if left == 0 && (s.cats_sleeping == 0 && s.mouse_sleeping == 0)
        then (record t { cat_mouse_turn = nobody }, silent)
        else (t, to mouse))

-- Where a creature is in its calls.
pub data Stage : Type 0 where
  -- before the call, and between the call's first section and `lock_acquire(lk_for_bowls[..])`
  hungry ready : Stage
  -- holds the bowl's lock, before the section with the test
  at_bowl : Stage
  -- counted as asleep, before `cv_wait`, with the bowl's lock
  drowsy : Stage
  -- in `cv_wait`: asleep, woken without the bowl's lock, and back with it
  asleep woken back : Stage
  -- between the two calls
  eating : Stage
  finished : Stage

pub record Creature : Type 0 where
  pub species : Species
  pub bowl : ℕ
  pub stage : Stage

-- The stages with the lock of the bowl.
abbrev pub has_lock : Stage → Bool
has_lock at_bowl = true
has_lock drowsy = true
has_lock back = true
has_lock eating = true
has_lock hungry = false
has_lock ready = false
has_lock asleep = false
has_lock woken = false
has_lock finished = false

abbrev pub holds : ℕ → Creature → Bool
holds b c = c.bowl == b && has_lock c.stage

abbrev pub woken_stage : Stage → Stage
woken_stage asleep = woken
woken_stage hungry = hungry
woken_stage ready = ready
woken_stage at_bowl = at_bowl
woken_stage drowsy = drowsy
woken_stage woken = woken
woken_stage back = back
woken_stage eating = eating
woken_stage finished = finished

-- `cv_broadcast`
abbrev pub hear : Broadcast → Creature → Creature
hear silent c = c
hear (to sp) c = if is_species sp c.species then record c { stage = woken_stage c.stage } else c

-- One creature of a list goes from one stage to another.
pub data Moves (sp : Species) (b : ℕ) (p q : Stage) : List Creature → List Creature → Type 0 where
  here :
      {cs : List Creature}
      → Moves sp b p q
          (record { species = sp; bowl = b; stage = p } ∷ cs)
          (record { species = sp; bowl = b; stage = q } ∷ cs)
  there :
      {c : Creature} {cs ds : List Creature}
      → Moves sp b p q cs ds
      → Moves sp b p q (c ∷ cs) (c ∷ ds)

-- How many creatures pass a test.
unfoldable pub count : (Creature → Bool) → List Creature → ℕ
count f [] = 0
count f (c ∷ cs) = if f c then suc (count f cs) else count f cs

pub record World : Type 0 where
  pub shared : Shared
  pub creatures : List Creature

-- The steps of the creatures' calls, and the eating between them.
pub data Step (w : World) : World → Type 0 where
  claims :
      {sp : Species} {b : ℕ} {ds : List Creature}
      → Moves sp b hungry ready w.creatures ds
      → Step w (record { shared = claim_turn sp w.shared; creatures = ds })
  takes_bowl :
      {sp : Species} {b : ℕ} {ds : List Creature}
      → count (holds b) w.creatures ≡ 0
      → Moves sp b ready at_bowl w.creatures ds
      → Step w (record { shared = w.shared; creatures = ds })
  counts_in :
      {sp : Species} {b : ℕ} {ds : List Creature}
      → must_sleep sp w.shared ≡ true
      → Moves sp b at_bowl drowsy w.creatures ds
      → Step w (record { shared = fall_asleep sp w.shared; creatures = ds })
  waits :
      {sp : Species} {b : ℕ} {ds : List Creature}
      → Moves sp b drowsy asleep w.creatures ds
      → Step w (record { shared = w.shared; creatures = ds })
  retakes_bowl :
      {sp : Species} {b : ℕ} {ds : List Creature}
      → count (holds b) w.creatures ≡ 0
      → Moves sp b woken back w.creatures ds
      → Step w (record { shared = w.shared; creatures = ds })
  -- back under the lock: the count, then the loop's test
  sleeps_again :
      {sp : Species} {b : ℕ} {ds : List Creature}
      → must_sleep sp (wake_up sp w.shared) ≡ true
      → Moves sp b back drowsy w.creatures ds
      → Step w (record { shared = fall_asleep sp (wake_up sp w.shared); creatures = ds })
  wakes_and_eats :
      {sp : Species} {b : ℕ} {ds : List Creature}
      → must_sleep sp (wake_up sp w.shared) ≡ false
      → Moves sp b back eating w.creatures ds
      → Step w (record { shared = start_eating sp (wake_up sp w.shared); creatures = ds })
  eats :
      {sp : Species} {b : ℕ} {ds : List Creature}
      → must_sleep sp w.shared ≡ false
      → Moves sp b at_bowl eating w.creatures ds
      → Step w (record { shared = start_eating sp w.shared; creatures = ds })
  leaves :
      {sp : Species} {b : ℕ} {ds : List Creature}
      → Moves sp b eating finished w.creatures ds
      → Step w (record {
        shared = (after_eating sp w.shared).0;
        creatures = map (hear (after_eating sp w.shared).1) ds;
      })

abbrev IsHungry : Creature → Type 0
IsHungry c = c.stage ≡ hungry

-- Creatures that are all about to come.
pub data AllHungry : List Creature → Type 0 where
  none_left : AllHungry []
  one_more : {c : Creature} {cs : List Creature} → IsHungry c → AllHungry cs → AllHungry (c ∷ cs)

-- What the simulation reaches from its start.
pub data Reaches : World → Type 0 where
  starts :
      {cs : List Creature}
      → AllHungry cs
      → Reaches (record { shared = catmouse_sync_init; creatures = cs })
  steps : {w v : World} → Reaches w → Step w v → Reaches v
