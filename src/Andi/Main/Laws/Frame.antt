-- ===== src/Andi/Main/Laws/Frame.antt =====
-- Frames of the demo, and the whole of it.
use tcb.Base.{
  ℕ, ◌-◌, ◌*◌, ◌≤◌, ◌≡◌, refl, Bool, true, false, Option, none, some, List, [], ◌∷◌, Res, ok,
  running, ◌>>=◌, if◌then◌else◌, All, replicate, length, arith, sym, subst,
}
use mathlib.Core.List.{map}
use tcb.Andi.Penguin.{first_rand, newborn, move_penguin}
use tcb.Andi.Penguin.Laws.{HasRoom, IsOnScreen, move_penguin-IsPenguin}
use tcb.Andi.Store.{Nodes, Store, look, no_penguins, spawn_penguins, destroy_all}
use tcb.Andi.Store.Ops.{Allocates, Represents, spawn_penguins-Yields}
use tcb.Andi.Store.Walk.{destroy_all_lem}
use tcb.Andi.Draw.{Sprite, initialize_animation, draw_penguins}
use tcb.Andi.Draw.Laws.{sprite, Shows, draw_penguins_lem}
use tcb.Andi.Mask.{Mask, Coords}
use tcb.Andi.Mask.Laws.{points, filled, HasCoords, filled-HasCoords, read_destination_mask_fits}
use tcb.Andi.Main.{World, Event, Demo, move_penguins, frame, main_loop, first_demo, main}
use tcb.Andi.Main.Crowd.{Crowd, crowd_moves, crowd_frame, crowd_loop}
use tcb.Andi.Main.Laws.{
  Simulates, Follows, All-each, length-members, move_penguins_lem, All-newborn, process_events_lem,
}

-- What a frame shows: every penguin has moved and is on the screen whole, and the batches are the
-- sprites of all of them, in order.
pub record Drawn (w : World) (d : Demo) (k : Crowd) : Type 0 where
  pub moved : Demo
  pub batches : List (List Sprite)
  pub moves : move_penguins w 3 d ≡ ok moved
  pub draws : draw_penguins initialize_animation moved.list ≡ ok batches
  pub shows : Shows batches (map sprite (crowd_moves w k).members)
  pub on_screen : All (IsOnScreen w.resolution) (crowd_moves w k).members
  pub holds : Simulates moved (crowd_moves w k)

-- On a screen with room for a penguin, moving and drawing a list of penguins succeeds; each penguin
-- is then on the screen whole, and the batches are the sprites of all penguins, in order.
pub move_penguins-Drawn :
    (w : World) (d : Demo) (k : Crowd) → HasRoom w.resolution → Simulates d k → Drawn w d k
move_penguins-Drawn w d k room v =
    let (moved, moves, holds) = move_penguins_lem w d k room v in
    let (batches, draws, shows) =
      draw_penguins_lem moved.list (crowd_moves w k).members holds.list holds.fit in
    record {
      moved = moved;
      batches = batches;
      moves = moves;
      draws = draws;
      shows = shows;
      on_screen =
          All-each (IsOnScreen w.resolution) (move_penguin w.resolution 3) k.rand k.members
            (λ r p f. (move_penguin-IsPenguin w.resolution 3 r p room f).0) v.fit;
      holds = holds;
    }

-- The end of a run: it goes on as long as the crowd does, and returns 42 with no node in use.
abbrev pub EndsWith : Res (ℕ × Nodes) → Option Crowd → Type 0
EndsWith r none = r ≡ running
EndsWith r (some k) = (nodes : Nodes) × (r ≡ ok (42, nodes)) × ((a : ℕ) → look nodes a ≡ none)

abbrev pub LoopOutcome : Res Demo → Option Crowd → Type 0
LoopOutcome r none = r ≡ running
LoopOutcome r (some k) = Follows r k

module _ (w : World) (address : Nodes → ℕ) (memory : Allocates w.calloc address)
    (room : HasRoom w.resolution) (c : Coords) (has : HasCoords c) where
  frame-Follows :
      (events : List Event) (d : Demo) (k : Crowd)
      → Simulates d k
      → Follows (frame w c events d) (crowd_frame w c events k)
  unfolding frame
  frame-Follows events d k v =
      let drawn = move_penguins-Drawn w d k room v in
      let h = drawn.holds in
      let (d1, runs, v1) =
        process_events_lem w address memory c has events
          (record (drawn.moved) { screen = drawn.batches }) (crowd_moves w k)
          (record { list = h.list; rand = h.rand; quit = h.quit; fit = h.fit }) in
      (d1, rw (drawn.moves, drawn.draws) runs, v1)

  main_loop_lem :
      (frames : List (List Event)) (d : Demo) (k : Crowd)
      → Simulates d k
      → LoopOutcome (main_loop w c frames d) (crowd_loop w c frames k)
  unfolding main_loop
  main_loop_lem [] d k v = refl
  main_loop_lem (events ∷ frames) d k v =
      let (d1, runs, v1) = frame-Follows events d k v in
      let k1 = crowd_frame w c events k in
      subst
        (λ r.
          LoopOutcome
            (r >>= λ d1. let rest = main_loop w c frames d1 in if d1.quit then ok d1 else rest)
            (crowd_loop w c (events ∷ frames) k))
        (sym runs)
        (subst
          (λ b.
            LoopOutcome (if b then ok d1 else main_loop w c frames d1)
              (if k1.quit then some k1 else crowd_loop w c frames k1))
          (sym v1.quit) (after d1 k1 v1 (main_loop_lem frames d1 k1 v1) k1.quit))
    where
      after :
          (d1 : Demo) (k1 : Crowd)
          → Simulates d1 k1
          → LoopOutcome (main_loop w c frames d1) (crowd_loop w c frames k1)
          → (b : Bool)
          → LoopOutcome
              (if b then ok d1 else main_loop w c frames d1)
              (if b then some k1 else crowd_loop w c frames k1)
      after d1 k1 v1 h true = (d1, refl, v1)
      after d1 k1 v1 h false = h

abbrev pub first_crowd : World → Crowd
first_crowd w = record {
  rand = first_rand;
  members = replicate 200 (newborn w.resolution);
  quit = false;
}

-- What `main` does: the 200 penguins, then the loop over the frames, which the crowd's is like, and the
-- end.
pub record Outcome (w : World) (m : Mask) (c : Coords) (frames : List (List Event)) : Type 0 where
  pub spawned : Store
  pub spawns : spawn_penguins w.resolution w.calloc 200 no_penguins ≡ ok spawned
  pub first : Simulates (first_demo spawned) (first_crowd w)
  pub loops :
      LoopOutcome
        (main_loop w c frames (first_demo spawned))
        (crowd_loop w c frames (first_crowd w))
  pub ends : EndsWith (main w m frames) (crowd_loop w c frames (first_crowd w))

-- Where `calloc` gives addresses that are free, the screen has room for a penguin, and no more than
-- half of the mask is black, `main` does what the crowd does on the same events: the list that it
-- starts with has 200 new penguins; its loop over the frames goes on exactly as long as the crowd's,
-- and at its end the list has the crowd's penguins, each with the crowd's fields and in its order, with
-- their number and the crowd's random numbers; and then `main` returns 42 with no penguin left in
-- memory. It never reads or writes anything but a node or an entry of an array.
pub main-Outcome :
    (w : World) (address : Nodes → ℕ)
    → Allocates w.calloc address
    → HasRoom w.resolution
    → (m : Mask) (pixel : ℕ → ℕ → ℕ) → m.pixels ≡ some pixel
    → length (points m pixel m.height 0) * 2 ≤ m.width * m.height
    → (frames : List (List Event))
    → let black = points m pixel m.height 0 in
      let c = filled black (m.width * m.height - length black * 2) in Outcome w m c frames
unfolding main
main-Outcome w address memory room m pixel e fits frames =
    let black = points m pixel m.height 0 in
    let c = filled black (m.width * m.height - length black * 2) in
    let k = first_crowd w in
    let empty : Represents no_penguins [] =
      ([], record { leads = refl; is_last = tt; population = refl; only = λ a m. refl }, refl) in
    let (st, spawns, rep) =
      spawn_penguins-Yields w.resolution w.calloc address memory 200 no_penguins [] empty in
    let v : Simulates (first_demo st) k = record {
      list = rep;
      rand = refl;
      quit = refl;
      fit = All-newborn w.resolution 200;
    } in
    let looped =
      main_loop_lem w address memory room c
        (filled-HasCoords black (m.width * m.height - length black * 2)) frames (first_demo st) k
        v in
    record {
      spawned = st;
      spawns = spawns;
      first = v;
      loops = looped;
      ends =
          rw (read_destination_mask_fits m pixel e fits, spawns)
            (finish (main_loop w c frames (first_demo st)) (crowd_loop w c frames k) looped);
    }
  where
    finish :
        (r : Res Demo) (o : Option Crowd)
        → LoopOutcome r o
        → EndsWith
            (r >>= λ d. destroy_all d.list.population d.list.penguins d.list.nodes >>= λ nodes.
              ok (42, nodes))
            o
    finish r none h = rw h refl
    finish r (some k) (d, runs, v) =
        let (after, frees, gone) =
          destroy_all_lem d.list.population d.list k.members v.list
            (omega (arith, length-members d.list k.members v.list)) in
        (after, rw (runs, frees) refl, gone)
