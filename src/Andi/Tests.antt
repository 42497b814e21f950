-- ===== src/Andi/Tests.antt =====
-- Runs of the penguins on small screens and masks, and witnesses.
use tcb.Base.{
  ℕ, suc, ◌*◌, ◌/◌, ◌≤◌, ◌<◌, ◌≡◌, refl, true, false, none, some, List, [], ◌∷◌, ◌++◌, ok, fault,
  inr, max, arith, replicate, drop, ◌==◌, if◌then◌else◌, leb,
}
use tcb.Base.Int.{pos, negsuc, less}
use tcb.Andi.Penguin.{first_rand, myrand, Penguin, Resolution, newborn, move_penguin}
use tcb.Andi.Penguin.Laws.{HasRoom, IsPenguin, move_penguin-IsPenguin, newborn-HasFrames}
use tcb.Andi.Penguin.Walks.{on_screen, walked, move_penguin-walked}
use tcb.Andi.Store.{Nodes, look, Store, spawn_penguins, destroy_penguins}
use tcb.Andi.Store.Ops.{
  Allocates, Represents, Yields, spawn_penguins-Yields, destroy_penguins-Yields,
}
use tcb.Base.Memory.{store}
use tcb.Andi.Mask.{is_black, mask_rows, mask_row, mask_pixel, Mask, read_destination_mask}
use tcb.Andi.Mask.Laws.{filled, read_destination_mask_lem}
use tcb.Andi.Main.{World, escape, small_d, space, Event, key_press, other_event, first_demo}
use tcb.Andi.Main.Crowd.{crowd_loop}
use tcb.Andi.Main.Laws.{Simulates}
use tcb.Andi.Main.Laws.Frame.{Outcome, Drawn, main-Outcome, move_penguins-Drawn}

-- A `calloc` that goes on behind the highest address so far.
abbrev next_address : Nodes → ℕ
next_address [] = 16
next_address ((a, n) ∷ nodes) = max (suc a) (next_address nodes)

look_above : (nodes : Nodes) (b : ℕ) → next_address nodes ≤ b → look nodes b ≡ none
unfolding look
look_above [] b h = refl
look_above ((a, n) ∷ nodes) b h =
    let below : a < b = omega (arith, h) in
    let rest : look nodes b ≡ none = look_above nodes b (omega (arith, h)) in ground arith

bump-Allocates : Allocates (λ nodes. some (next_address nodes)) next_address
bump-Allocates = record {
  gives = λ nodes. refl;
  free = λ nodes. look_above nodes (next_address nodes) (omega arith);
}

abbrev small_screen : Resolution
small_screen = record { xres = 160; yres = 120 }

abbrev world : World
world = record {
  resolution = small_screen;
  calloc = λ nodes. some (next_address nodes);
  toward = λ z size c. less z (c * size / 1000);
}

small_HasRoom : HasRoom small_screen
small_HasRoom = record { wide = omega arith; high = omega arith }

-- Four by two pixels, the first column black.
abbrev column : ℕ → ℕ → ℕ
column x y = if x == 0 then 0xFF000000 else 0xFFFFFFFF

abbrev mask : Mask
mask = record { width = 4; height = 2; pixels = some column }

abbrev inputs : List (List Event)
inputs =
    (other_event ∷ []) ∷ (key_press space ∷ key_press small_d ∷ []) ∷ (key_press escape ∷ []) ∷ []

main-Outcome_example : Outcome world mask (filled ((0, 0) ∷ (0, 500) ∷ []) 4) inputs
unfolding is_black
main-Outcome_example =
    main-Outcome world next_address bump-Allocates small_HasRoom mask column refl (omega arith)
      inputs

-- Two penguins on the heap.
abbrev two_newborn : List Penguin
two_newborn = newborn small_screen ∷ newborn small_screen ∷ []

abbrev two_penguins : Store
two_penguins = record {
  nodes =
      (16, some (record { penguin = newborn small_screen; next = some 17 }))
      ∷ (17, some (record { penguin = newborn small_screen; next = none }))
      ∷ [];
  penguins = some 16;
  last_penguin = some 17;
  population = 2;
}

two-Represents : Represents two_penguins two_newborn
unfolding look
two-Represents = (
  (16, newborn small_screen) ∷ (17, newborn small_screen) ∷ [],
  record {
    leads = (refl, (omega arith, tt), some 17, refl, (refl, tt, none, refl, refl));
    is_last = refl;
    population = refl;
    only = λ a m. ground (arith, m.0, m.1.0);
  },
  refl,
)

spawn_penguins-Yields_example :
    Yields
      (spawn_penguins small_screen world.calloc 2 two_penguins)
      (two_newborn ++ replicate 2 (newborn small_screen))
spawn_penguins-Yields_example =
    spawn_penguins-Yields small_screen world.calloc next_address bump-Allocates 2 two_penguins
      two_newborn two-Represents

destroyed : Yields (destroy_penguins 10 two_penguins) (drop 10 two_newborn)
destroyed = destroy_penguins-Yields 10 two_penguins two_newborn two-Represents

move_penguin-IsPenguin_example :
    IsPenguin small_screen (move_penguin small_screen 3 first_rand (newborn small_screen)).1
move_penguin-IsPenguin_example =
    move_penguin-IsPenguin small_screen 3 first_rand (newborn small_screen) small_HasRoom
      (newborn-HasFrames small_screen)

-- On its way to the left and down, 2 and 10 pixels.
abbrev on_way : Penguin
on_way = record (newborn small_screen) { x_togo = pos 2; y_togo = negsuc 9 }

move_penguin-walked_example :
    let q = (move_penguin small_screen 3 first_rand on_way).1 in
    ((move_penguin small_screen 3 first_rand on_way).0 ≡ first_rand)
    × ((q.x, q.x_togo) ≡ on_screen small_screen.xres 40 (walked 3 on_way.x (pos 2)))
    × ((q.y, q.y_togo) ≡ on_screen small_screen.yres 60 (walked 3 on_way.y (negsuc 9)))
move_penguin-walked_example =
    move_penguin-walked small_screen 3 first_rand on_way (omega arith) (inr (omega arith))

two-Simulates :
    Simulates
      (first_demo two_penguins)
      (record { rand = first_rand; members = two_newborn; quit = false })
two-Simulates = record {
  list = two-Represents;
  rand = refl;
  quit = refl;
  fit = (newborn-HasFrames small_screen, (newborn-HasFrames small_screen, tt));
}

move_penguins-Drawn_example :
    Drawn world
      (first_demo two_penguins)
      (record { rand = first_rand; members = two_newborn; quit = false })
move_penguins-Drawn_example =
    move_penguins-Drawn world (first_demo two_penguins)
      (record { rand = first_rand; members = two_newborn; quit = false }) small_HasRoom
      two-Simulates

-- Half of the mask may be black, but no more.
read_destination_mask_lem_example :
    read_destination_mask mask ≡ (if leb 4 8 then ok (filled ((0, 0) ∷ (0, 500) ∷ []) 4) else fault)
unfolding is_black
read_destination_mask_lem_example = read_destination_mask_lem mask column refl

abbrev all_black : Mask
all_black = record { width = 2; height = 2; pixels = some (λ x y. 0) }

all_black_faults : read_destination_mask all_black ≡ fault
unfolding read_destination_mask mask_rows mask_row mask_pixel is_black store
all_black_faults = refl

first_number : (myrand first_rand).0 ≡ 0x8F84AD92
unfolding myrand
first_number = refl

-- With the first key the demo quits.
quits_at_once :
    crowd_loop world
      (filled [] 8)
      ((key_press escape ∷ []) ∷ [])
      (record { rand = first_rand; members = []; quit = false })
    ≡ some (record { rand = first_rand; members = []; quit = true })
quits_at_once = refl
