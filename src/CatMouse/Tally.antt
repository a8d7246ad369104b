-- ===== src/CatMouse/Tally.antt =====
-- What the sections of kern/synchprobs/catmouse_synch.c do to the shared counters.
use toy_os.Common.{ℕ, ◌+◌, ◌≤◌, ◌≡◌, refl, ◌⊎◌, true, false, arith}
use toy_os.CatMouse.{
  Species, cat, mouse, is_species, Shared, claim_turn, must_sleep, fall_asleep, wake_up,
  start_eating, after_eating, Stage, hungry, ready, at_bowl, drowsy, back, eating, finished,
}
use toy_os.CatMouse.Counts.{is_eating, is_counted, one}

-- The counters that a species has.
abbrev pub eating_count : Species → Shared → ℕ
eating_count cat s = s.cats_eating
eating_count mouse s = s.mouse_eating

abbrev pub sleeping_count : Species → Shared → ℕ
sleeping_count cat s = s.cats_sleeping
sleeping_count mouse s = s.mouse_sleeping

abbrev pub other : Species → Species
other cat = mouse
other mouse = cat

-- What a step does to the shared variables, by the stages before and after.
pub record Tallies (sp : Species) (p q : Stage) (s t : Shared) : Type 0 where
  pub eating_mine : eating_count sp t + one (is_eating p) ≡ eating_count sp s + one (is_eating q)
  pub sleeping_mine :
      sleeping_count sp t + one (is_counted p) ≡ sleeping_count sp s + one (is_counted q)
  pub eating_other : eating_count (other sp) t ≡ eating_count (other sp) s
  pub sleeping_other : sleeping_count (other sp) t ≡ sleeping_count (other sp) s
  pub still_apart : (t.cats_eating ≡ 0) ⊎ (t.mouse_eating ≡ 0)

pub is_species-eq : (o sp : Species) → is_species o sp ≡ true → o ≡ sp
is_species-eq cat cat e = refl
is_species-eq cat mouse e = cc
is_species-eq mouse cat e = cc
is_species-eq mouse mouse e = refl

pub is_species-other : (o sp : Species) → is_species o sp ≡ false → o ≡ other sp
is_species-other cat cat e = cc
is_species-other cat mouse e = refl
is_species-other mouse cat e = refl
is_species-other mouse mouse e = cc

pub tally_none :
    (sp : Species) (p q : Stage) (s : Shared)
    → is_eating p ≡ is_eating q
    → is_counted p ≡ is_counted q
    → (s.cats_eating ≡ 0) ⊎ (s.mouse_eating ≡ 0)
    → Tallies sp p q s s
tally_none sp p q s e f a = record {
  eating_mine = rw e;
  sleeping_mine = rw f;
  eating_other = refl;
  sleeping_other = refl;
  still_apart = a;
}

pub tally_claims :
    (sp : Species) (s : Shared)
    → (s.cats_eating ≡ 0) ⊎ (s.mouse_eating ≡ 0)
    → Tallies sp hungry ready s (claim_turn sp s)
unfolding claim_turn
tally_claims cat s a = record {
  eating_mine = ground arith;
  sleeping_mine = ground arith;
  eating_other = ground arith;
  sleeping_other = ground arith;
  still_apart = ground arith;
}
tally_claims mouse s a = record {
  eating_mine = ground arith;
  sleeping_mine = ground arith;
  eating_other = ground arith;
  sleeping_other = ground arith;
  still_apart = ground arith;
}

pub tally_sleeps :
    (sp : Species) (s : Shared)
    → (s.cats_eating ≡ 0) ⊎ (s.mouse_eating ≡ 0)
    → Tallies sp at_bowl drowsy s (fall_asleep sp s)
unfolding fall_asleep
tally_sleeps cat s a = record {
  eating_mine = ground arith;
  sleeping_mine = ground arith;
  eating_other = ground arith;
  sleeping_other = ground arith;
  still_apart = ground arith;
}
tally_sleeps mouse s a = record {
  eating_mine = ground arith;
  sleeping_mine = ground arith;
  eating_other = ground arith;
  sleeping_other = ground arith;
  still_apart = ground arith;
}

pub tally_again :
    (sp : Species) (s : Shared)
    → 1 ≤ sleeping_count sp s
    → (s.cats_eating ≡ 0) ⊎ (s.mouse_eating ≡ 0)
    → Tallies sp back drowsy s (fall_asleep sp (wake_up sp s))
unfolding fall_asleep wake_up
tally_again cat s pos a = record {
  eating_mine = ground arith;
  sleeping_mine = ground arith;
  eating_other = ground arith;
  sleeping_other = ground arith;
  still_apart = ground arith;
}
tally_again mouse s pos a = record {
  eating_mine = ground arith;
  sleeping_mine = ground arith;
  eating_other = ground arith;
  sleeping_other = ground arith;
  still_apart = ground arith;
}

pub tally_eats :
    (sp : Species) (s : Shared)
    → must_sleep sp s ≡ false
    → Tallies sp at_bowl eating s (start_eating sp s)
unfolding must_sleep start_eating
tally_eats cat s guard = record {
  eating_mine = ground arith;
  sleeping_mine = ground arith;
  eating_other = ground arith;
  sleeping_other = ground arith;
  still_apart = ground arith;
}
tally_eats mouse s guard = record {
  eating_mine = ground arith;
  sleeping_mine = ground arith;
  eating_other = ground arith;
  sleeping_other = ground arith;
  still_apart = ground arith;
}

pub tally_wakes :
    (sp : Species) (s : Shared)
    → 1 ≤ sleeping_count sp s
    → must_sleep sp (wake_up sp s) ≡ false
    → Tallies sp back eating s (start_eating sp (wake_up sp s))
unfolding must_sleep start_eating wake_up
tally_wakes cat s pos guard = record {
  eating_mine = ground arith;
  sleeping_mine = ground arith;
  eating_other = ground arith;
  sleeping_other = ground arith;
  still_apart = ground arith;
}
tally_wakes mouse s pos guard = record {
  eating_mine = ground arith;
  sleeping_mine = ground arith;
  eating_other = ground arith;
  sleeping_other = ground arith;
  still_apart = ground arith;
}

pub tally_leaves :
    (sp : Species) (s : Shared)
    → 1 ≤ eating_count sp s
    → (s.cats_eating ≡ 0) ⊎ (s.mouse_eating ≡ 0)
    → Tallies sp eating finished s (after_eating sp s).0
unfolding after_eating
tally_leaves cat s pos a = record {
  eating_mine = ground arith;
  sleeping_mine = ground arith;
  eating_other = ground arith;
  sleeping_other = ground arith;
  still_apart = ground arith;
}
tally_leaves mouse s pos a = record {
  eating_mine = ground arith;
  sleeping_mine = ground arith;
  eating_other = ground arith;
  sleeping_other = ground arith;
  still_apart = ground arith;
}
