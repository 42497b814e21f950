-- ===== src/Andi/Main/Crowd.antt =====
-- What the demo does, on a list of penguins and without the heap.
use tcb.Base.{
  ◌+◌, ◌*◌, ◌%◌, Bool, true, false, Option, none, some, List, [], ◌∷◌, ◌++◌, ◌==◌, if◌then◌else◌,
  replicate, drop, get_or,
}
use tcb.Andi.Penguin.{Rand, myrand, Penguin, newborn, move_penguin}
use tcb.Andi.Mask.{Coords}
use tcb.Andi.Store.Walk.{each}
use tcb.Andi.Main.{
  World, Key, escape, small_q, back, stop, small_s, cursor_up, small_r, small_d, cursor_down,
  small_c, space, enter, ok_key, other_key, Event, key_press, other_event,
}

pub record Crowd : Type 0 where
  pub rand : Rand
  pub members : List Penguin
  pub quit : Bool

abbrev pub all_do : (Rand → Penguin → Rand × Penguin) → Crowd → Crowd
all_do body k = let (r, ps) = each body k.rand k.members in record k { rand = r; members = ps }

-- A penguin's way into formation: to a random pair of `coords`.
abbrev pub take_place : World → Coords → Rand → Penguin → Rand × Penguin
take_place w c r p =
    let (number, r1) = myrand r in
    let entry = number % c.nr_coords * 2 in
    (
      r1,
      record p {
        x_togo = w.toward p.x w.resolution.xres (get_or c.coords entry 0);
        y_togo = w.toward p.y w.resolution.yres (get_or c.coords (entry + 1) 0);
        moving = false;
      },
    )

abbrev pub formation : World → Coords → Crowd → Crowd
formation w c k = if c.nr_coords == 0 then k else all_do (take_place w c) k

abbrev pub crowd_key : World → Coords → Key → Crowd → Crowd
crowd_key w c escape k = record k { quit = true }
crowd_key w c small_q k = record k { quit = true }
crowd_key w c back k = record k { quit = true }
crowd_key w c stop k = record k { quit = true }
crowd_key w c small_s k = record k { members = k.members ++ replicate 10 (newborn w.resolution) }
crowd_key w c cursor_up k = record k { members = k.members ++ replicate 10 (newborn w.resolution) }
crowd_key w c small_r k = all_do (λ r p. (r, record p { moving = true })) k
crowd_key w c small_d k = record k { members = drop 10 k.members }
crowd_key w c cursor_down k = record k { members = drop 10 k.members }
crowd_key w c small_c k = k
crowd_key w c space k = formation w c k
crowd_key w c enter k = formation w c k
crowd_key w c ok_key k = formation w c k
crowd_key w c other_key k = k

abbrev pub crowd_events : World → Coords → List Event → Crowd → Crowd
crowd_events w c [] k = k
crowd_events w c (other_event ∷ events) k = crowd_events w c events k
crowd_events w c (key_press key ∷ events) k = crowd_events w c events (crowd_key w c key k)

abbrev pub crowd_moves : World → Crowd → Crowd
crowd_moves w k = all_do (move_penguin w.resolution 3) k

abbrev pub crowd_frame : World → Coords → List Event → Crowd → Crowd
crowd_frame w c events k = crowd_events w c events (crowd_moves w k)

-- The crowd when the demo quits, or none if no frame has a key that does.
abbrev pub crowd_loop : World → Coords → List (List Event) → Crowd → Option Crowd
crowd_loop w c [] k = none
crowd_loop w c (events ∷ frames) k =
    let k1 = crowd_frame w c events k in
    let rest = crowd_loop w c frames k1 in if k1.quit then some k1 else rest
