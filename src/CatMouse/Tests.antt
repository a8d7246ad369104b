-- ===== src/CatMouse/Tests.antt =====
-- A run of the cats and mice: a cat eats at bowl 1 while a mouse is about to come to bowl 2.
use toy_os.Common.{refl, [], ◌∷◌}
use toy_os.CatMouse.{
  cats, cat, mouse, catmouse_sync_init, claim_turn, must_sleep, start_eating, Stage, hungry, eating,
  Creature, here, count, World, claims, takes_bowl, eats, none_left, one_more, Reaches, starts,
  steps,
}
use toy_os.CatMouse.Safety.{IsConsistent, Reaches-IsConsistent}

abbrev tom : Stage → Creature
tom st = record { species = cat; bowl = 1; stage = st }

abbrev jerry : Creature
jerry = record { species = mouse; bowl = 2; stage = hungry }

abbrev meal : World
meal = record {
  shared = record {
    cats_eating = 1;
    cats_sleeping = 0;
    mouse_eating = 0;
    mouse_sleeping = 0;
    cat_mouse_turn = cats;
  };
  creatures = tom eating ∷ jerry ∷ [];
}

meal_reached : Reaches meal
unfolding catmouse_sync_init claim_turn must_sleep start_eating count
meal_reached =
    steps
      (steps (steps (starts (one_more refl (one_more refl none_left))) (claims here))
        (takes_bowl refl here))
      (eats refl here)

Reaches-IsConsistent_example : IsConsistent meal
Reaches-IsConsistent_example = Reaches-IsConsistent meal_reached
