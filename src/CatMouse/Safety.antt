-- ===== src/CatMouse/Safety.antt =====
-- What holds in every world that the creatures of kern/synchprobs/catmouse_synch.c reach.
use toy_os.Common.{
  ℕ, ◌+◌, ◌≤◌, ◌≡◌, refl, ap, sym, subst, ◌∙◌, ◌⊎◌, inl, inr, Bool, true, false, ◌&&◌, List, map,
  arith, Bool-cases, ◌==◌,
}
use toy_os.CatMouse.{
  Species, cat, mouse, is_species, Shared, catmouse_sync_init, Stage, eating, Creature, has_lock,
  holds, Broadcast, hear, Moves, count, World, Step, claims, takes_bowl, counts_in, waits,
  retakes_bowl, sleeps_again, wakes_and_eats, eats, leaves, AllHungry, Reaches, starts, steps,
}
use toy_os.CatMouse.Counts.{
  is_eating, is_counted, eats_as, sleeps_as, one, at_stage, count-Moves, count-map, hear-eats,
  hear-sleeps, hear-holds, count-AllHungry, count_pos, is_species_self,
}
use toy_os.CatMouse.Tally.{
  eating_count, sleeping_count, other, Tallies, is_species-eq, is_species-other, tally_none,
  tally_claims, tally_sleeps, tally_again, tally_eats, tally_wakes, tally_leaves,
}

-- The counters count the creatures, one species at most eats, and a bowl's lock has one holder at
-- most.
pub record IsConsistent (w : World) : Type 0 where
  pub counts_eating : (sp : Species) → count (eats_as sp) w.creatures ≡ eating_count sp w.shared
  pub counts_sleeping :
      (sp : Species) → count (sleeps_as sp) w.creatures ≡ sleeping_count sp w.shared
  pub apart : (w.shared.cats_eating ≡ 0) ⊎ (w.shared.mouse_eating ≡ 0)
  pub one_holder : (b : ℕ) → count (holds b) w.creatures ≤ 1

one_and_false : (x y : Bool) → y ≡ false → one (x && y) ≡ 0
one_and_false true y e = rw e
one_and_false false y e = refl

one-le : (x : Bool) → one x ≤ 1
one-le true = omega arith
one-le false = omega arith

module _ {sp : Species} {b : ℕ} {p q : Stage} {cs ds : List Creature}
    (m : Moves sp b p q cs ds) where
  holder-Moves :
      ((has_lock q ≡ true) → (has_lock p ≡ true) ⊎ (count (holds b) cs ≡ 0))
      → ((k : ℕ) → count (holds k) cs ≤ 1)
      → (k : ℕ) → count (holds k) ds ≤ 1
  holder-Moves lock before k =
      let moved = count-Moves (holds k) m in
      elim (Bool-cases (has_lock q)) [
        | inr not_after ↦
            let none_after = one_and_false (b == k) (has_lock q) not_after in
            let known = before k in omega arith
        | inl after ↦ elim (lock after) [
          | inl held ↦
              let alike : holds k (at_stage sp b p) ≡ holds k (at_stage sp b q) =
                ap (λ h. b == k && h) (held ∙ sym after) in
              let known = before k in let now = rw alike at moved in omega arith
          | inr free ↦ elim (Bool-cases (b == k)) [
            | inl same ↦
                let at_k : count (holds k) cs ≡ 0 =
                  subst (λ i. count (holds i) cs ≡ 0) (ground arith) free in
                let le = one-le (holds k (at_stage sp b q)) in omega arith
            | inr differs ↦ let known = before k in let now = rw differs at moved in omega arith
          ]
        ]
      ]

module _ {sp : Species} {b : ℕ} {p q : Stage} {cs ds : List Creature} (m : Moves sp b p q cs ds)
    {s t : Shared} where
  -- A counter that follows its species' stages.
  counter-Moves :
      (g : Stage → Bool) (n : Species → Shared → ℕ)
      → ((o : Species) → count (λ c. is_species o c.species && g c.stage) cs ≡ n o s)
      → (n sp t + one (g p) ≡ n sp s + one (g q))
      → n (other sp) t ≡ n (other sp) s
      → (o : Species) → count (λ c. is_species o c.species && g c.stage) ds ≡ n o t
  counter-Moves g n before mine others o =
      let moved = count-Moves (λ c. is_species o c.species && g c.stage) m in
      elim (Bool-cases (is_species o sp)) [
        | inl same ↦
            let own =
              subst (λ k. n k t + one (g p) ≡ n k s + one (g q)) (sym (is_species-eq o sp same))
                mine in
            let known = before o in let now = rw same at moved in omega arith
        | inr differs ↦
            let kept = subst (λ k. n k t ≡ n k s) (sym (is_species-other o sp differs)) others in
            let known = before o in let now = rw differs at moved in omega arith
      ]

  IsConsistent-move :
      IsConsistent (record { shared = s; creatures = cs })
      → Tallies sp p q s t
      → ((has_lock q ≡ true) → (has_lock p ≡ true) ⊎ (count (holds b) cs ≡ 0))
      → IsConsistent (record { shared = t; creatures = ds })
  IsConsistent-move i ts lock = record {
    counts_eating =
        counter-Moves is_eating eating_count i.counts_eating ts.eating_mine ts.eating_other;
    counts_sleeping =
        counter-Moves is_counted sleeping_count i.counts_sleeping ts.sleeping_mine
          ts.sleeping_other;
    apart = ts.still_apart;
    one_holder = holder-Moves m lock i.one_holder;
  }

-- Who moves from a stage of sleepers is in their counter, and so for the eaters.
sleeper :
    {w : World} {sp : Species} {b : ℕ} {p q : Stage} {ds : List Creature}
    → IsConsistent w
    → Moves sp b p q w.creatures ds
    → is_counted p ≡ true
    → 1 ≤ sleeping_count sp w.shared
sleeper {sp = sp} i m e =
    subst (λ n. 1 ≤ n) (i.counts_sleeping sp)
      (count_pos (sleeps_as sp) (rw (is_species_self sp, e)) m)

eater :
    {w : World} {sp : Species} {b : ℕ} {q : Stage} {ds : List Creature}
    → IsConsistent w
    → Moves sp b eating q w.creatures ds
    → 1 ≤ eating_count sp w.shared
eater {sp = sp} i m =
    subst (λ n. 1 ≤ n) (i.counts_eating sp) (count_pos (eats_as sp) (rw (is_species_self sp)) m)

IsConsistent-hear :
    {s : Shared} {cs : List Creature}
    → IsConsistent (record { shared = s; creatures = cs })
    → (to_whom : Broadcast)
    → IsConsistent (record { shared = s; creatures = map (hear to_whom) cs })
IsConsistent-hear {cs = cs} i whom = record {
  counts_eating =
      λ sp. count-map (eats_as sp) (hear whom) (hear-eats sp whom) cs ∙ i.counts_eating sp;
  counts_sleeping =
      λ sp. count-map (sleeps_as sp) (hear whom) (hear-sleeps sp whom) cs ∙ i.counts_sleeping sp;
  apart = i.apart;
  one_holder = λ b.
      subst (λ n. n ≤ 1) (sym (count-map (holds b) (hear whom) (hear-holds b whom) cs))
        (i.one_holder b);
}

-- Every step keeps the counts.
IsConsistent-Step : {w v : World} → IsConsistent w → Step w v → IsConsistent v
IsConsistent-Step i (claims {sp} m) = IsConsistent-move m i (tally_claims sp _ i.apart) (λ e. cc)
IsConsistent-Step i (takes_bowl {sp} free m) =
    IsConsistent-move m i (tally_none sp _ _ _ refl refl i.apart) (λ e. inr free)
IsConsistent-Step i (counts_in {sp} guard m) =
    IsConsistent-move m i (tally_sleeps sp _ i.apart) (λ e. inl refl)
IsConsistent-Step i (waits {sp} m) =
    IsConsistent-move m i (tally_none sp _ _ _ refl refl i.apart) (λ e. inl refl)
IsConsistent-Step i (retakes_bowl {sp} free m) =
    IsConsistent-move m i (tally_none sp _ _ _ refl refl i.apart) (λ e. inr free)
IsConsistent-Step i (sleeps_again {sp} guard m) =
    IsConsistent-move m i (tally_again sp _ (sleeper i m refl) i.apart) (λ e. inl refl)
IsConsistent-Step i (wakes_and_eats {sp} guard m) =
    IsConsistent-move m i (tally_wakes sp _ (sleeper i m refl) guard) (λ e. inl refl)
IsConsistent-Step i (eats {sp} guard m) =
    IsConsistent-move m i (tally_eats sp _ guard) (λ e. inl refl)
IsConsistent-Step i (leaves {sp} m) =
    IsConsistent-hear (IsConsistent-move m i (tally_leaves sp _ (eater i m) i.apart) (λ e. cc)) _

and_false : (x y : Bool) → y ≡ false → (x && y) ≡ false
and_false true y e = e
and_false false y e = refl

start_eating_count : (sp : Species) → 0 ≡ eating_count sp catmouse_sync_init
unfolding catmouse_sync_init
start_eating_count cat = refl
start_eating_count mouse = refl

start_sleeping_count : (sp : Species) → 0 ≡ sleeping_count sp catmouse_sync_init
unfolding catmouse_sync_init
start_sleeping_count cat = refl
start_sleeping_count mouse = refl

IsConsistent-starts :
    {cs : List Creature}
    → AllHungry cs
    → IsConsistent (record { shared = catmouse_sync_init; creatures = cs })
unfolding catmouse_sync_init
IsConsistent-starts all = record {
  counts_eating = λ sp.
      count-AllHungry (eats_as sp) (λ c e. and_false (is_species sp c.species) _ (ap is_eating e))
        all
      ∙ start_eating_count sp;
  counts_sleeping = λ sp.
      count-AllHungry (sleeps_as sp)
        (λ c e. and_false (is_species sp c.species) _ (ap is_counted e)) all
      ∙ start_sleeping_count sp;
  apart = inl refl;
  one_holder = λ b.
      subst (λ n. n ≤ 1)
        (sym (count-AllHungry (holds b) (λ c e. and_false (c.bowl == b) _ (ap has_lock e)) all))
        (omega arith);
}

-- In every world that the simulation reaches, the four counters count the creatures that eat and
-- sleep, no cat eats while a mouse eats, and each bowl's lock has one holder at most.
pub Reaches-IsConsistent : {w : World} → Reaches w → IsConsistent w
Reaches-IsConsistent (starts all) = IsConsistent-starts all
Reaches-IsConsistent (steps r st) = IsConsistent-Step (Reaches-IsConsistent r) st
