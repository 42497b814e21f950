-- ===== src/Andi/Main.antt =====
-- The keys, a frame of the main loop, and `main`.
pub mod Crowd
pub mod Laws
use tcb.Base.{
  ℕ, ◌-◌, Bool, true, false, not, Option, none, some, List, [], ◌∷◌, Res, ok, running, ◌>>=◌, ◌==◌,
  if◌then◌else◌,
}
use tcb.Base.Int.{ℤ, difference}
use tcb.Andi.Penguin.{Rand, first_rand, Penguin, Resolution, move_penguin, revive_penguin}
use tcb.Andi.Store.{
  Pointer, Nodes, Store, no_penguins, spawn_penguins, destroy_penguins, walk, destroy_all,
}
use tcb.Andi.Draw.{Sprite, initialize_animation, draw_penguins}
use tcb.Andi.Mask.{Mask, Coords, read_destination_mask, search_destination}

-- What the program does not compute itself: the size of the screen, `calloc`, and the conversion of a
-- coordinate of the mask by floating-point numbers.
pub record World : Type 0 where
  pub resolution : Resolution
  pub calloc : Nodes → Pointer
  pub toward : ℤ → ℕ → ℕ → ℤ

-- `key_symbol` in lower case, and the events of `GetEvent`.
pub data Key : Type 0 where
  escape small_q back stop small_s cursor_up small_r small_d cursor_down small_c space enter ok_key
        other_key :
      Key

pub data Event : Type 0 where
  key_press : Key → Event
  other_event : Event

-- `DFBRegion`
pub record Region : Type 0 where
  pub x1 : ℕ
  pub y1 : ℕ
  pub x2 : ℤ
  pub y2 : ℤ

-- The state of the demo: the random numbers, the list, `clipping`, `quit`, the batches that the last
-- frame has drawn, and the clip region of the screen.
pub record Demo : Type 0 where
  pub rand : Rand
  pub list : Store
  pub clipping : Bool
  pub quit : Bool
  pub screen : List (List Sprite)
  pub region : Option Region

-- A loop over the list, whose rounds the population bounds.
unfoldable pub for_each : (Rand → Penguin → Res (Rand × Penguin)) → Demo → Res Demo
unfolding walk
for_each body d = do
  out ← walk body d.list.population d.list.penguins d.rand d.list.nodes
  ok (record d { rand = out.0; list = record (d.list) { nodes = out.1 } })

unfoldable pub move_penguins : World → ℕ → Demo → Res Demo
unfolding for_each move_penguin
move_penguins w step d = for_each (λ r p. ok (move_penguin w.resolution step r p)) d

unfoldable pub revive_penguins : Demo → Res Demo
unfolding for_each revive_penguin
revive_penguins d = for_each (λ r p. ok (r, revive_penguin p)) d

unfoldable pub penguins_search_destination : World → Coords → Demo → Res Demo
unfolding for_each search_destination
penguins_search_destination w c d = elim (c.nr_coords == 0) [
  | true ↦ ok d
  | false ↦ for_each (search_destination w.toward w.resolution c) d
]

unfoldable pub with_list : Res Store → Demo → Res Demo
with_list r d = do st ← r; ok (record d { list = st })

unfoldable pub toggle_clipping : World → Demo → Demo
toggle_clipping w d = record d {
  clipping = not d.clipping;
  region =
      if not d.clipping
      then some (record {
        x1 = 100;
        y1 = 100;
        x2 = difference w.resolution.xres 100;
        y2 = difference w.resolution.yres 100;
      })
      else none;
}

-- `switch (DFB_LOWER_CASE(evt.key_symbol))`
unfoldable pub press_key : World → Coords → Key → Demo → Res Demo
unfolding spawn_penguins destroy_penguins revive_penguins penguins_search_destination with_list
    toggle_clipping
press_key w c key d = elim key [
  | escape ↦ ok (record d { quit = true })
  | small_q ↦ ok (record d { quit = true })
  | back ↦ ok (record d { quit = true })
  | stop ↦ ok (record d { quit = true })
  | small_s ↦ with_list (spawn_penguins w.resolution w.calloc 10 d.list) d
  | cursor_up ↦ with_list (spawn_penguins w.resolution w.calloc 10 d.list) d
  | small_r ↦ revive_penguins d
  | small_d ↦ with_list (destroy_penguins 10 d.list) d
  | cursor_down ↦ with_list (destroy_penguins 10 d.list) d
  | small_c ↦ ok (toggle_clipping w d)
  | space ↦ penguins_search_destination w c d
  | enter ↦ penguins_search_destination w c d
  | ok_key ↦ penguins_search_destination w c d
  | other_key ↦ ok d
]

-- `while (keybuffer->GetEvent(...) == DFB_OK)`
unfoldable pub process_events : World → Coords → List Event → Demo → Res Demo
unfolding press_key
process_events w c [] d = ok d
process_events w c (other_event ∷ events) d = process_events w c events d
process_events w c (key_press key ∷ events) d = do
  d1 ← press_key w c key d
  process_events w c events d1

-- A round of the main loop.
unfoldable pub frame : World → Coords → List Event → Demo → Res Demo
unfolding move_penguins draw_penguins process_events initialize_animation
frame w c events d = do
  d1 ← move_penguins w 3 d
  screen ← draw_penguins initialize_animation d1.list
  process_events w c events (record d1 { screen = screen })

-- `while (!quit)`, on the events that each frame finds; `running` when the given frames are over.
unfoldable pub main_loop : World → Coords → List (List Event) → Demo → Res Demo
unfolding frame
main_loop w c [] d = running
main_loop w c (events ∷ frames) d = do
  d1 ← frame w c events d
  let rest = main_loop w c frames d1
  if d1.quit then ok d1 else rest

abbrev pub first_demo : Store → Demo
first_demo st = record {
  rand = first_rand;
  list = st;
  clipping = false;
  quit = false;
  screen = [];
  region = none;
}

-- `main`: what it returns, and the nodes that are in use then.
unfoldable pub main : World → Mask → List (List Event) → Res (ℕ × Nodes)
unfolding read_destination_mask spawn_penguins main_loop destroy_all
main w m frames = do
  c ← read_destination_mask m
  st ← spawn_penguins w.resolution w.calloc 200 no_penguins
  d ← main_loop w c frames (first_demo st)
  nodes ← destroy_all d.list.population d.list.penguins d.list.nodes
  ok (42, nodes)
