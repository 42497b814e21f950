-- ===== src/Andi/Main/Laws.antt =====
-- The demo does what the crowd does, whatever the keys are.
pub mod Frame
use tcb.Base.{
  ℕ, zero, suc, ◌+◌, ◌*◌, ◌%◌, ◌≤◌, ◌<◌, ◌≡◌, refl, Bool, true, false, Option, none, some, List, [],
  ◌∷◌, ◌++◌, Res, ok, ◌>>=◌, ◌==◌, if◌then◌else◌, All, All-append, replicate, drop, length, get_or,
  arith, sym, ap, subst, ◌∙◌, Bool-cases, inl, inr,
}
use native.Mathlib.Nat.{mod-lt}
use tcb.Base.Memory.{load, load_ok}
use tcb.Andi.Penguin.{Rand, myrand, Penguin, Resolution, newborn, move_penguin, revive_penguin}
use tcb.Andi.Penguin.Laws.{
  HasRoom, HasFrames, IsPenguin, IsOnScreen, move_penguin-IsPenguin, newborn-HasFrames,
}
use tcb.Andi.Store.{Pointer, Nodes, Store, spawn_penguins, destroy_penguins, walk}
use tcb.Andi.Store.Ops.{
  Allocates, values, Represents, Yields, spawn_penguins-Yields, destroy_penguins-Yields,
}
use tcb.Andi.Store.Walk.{each, length-values, walk-Represents}
use tcb.Andi.Mask.{Coords, search_destination}
use tcb.Andi.Mask.Laws.{HasCoords}
use tcb.Andi.Main.{
  World, Key, escape, small_q, back, stop, small_s, cursor_up, small_r, small_d, cursor_down,
  small_c, space, enter, ok_key, other_key, Event, key_press, other_event, Demo, for_each,
  move_penguins, revive_penguins, penguins_search_destination, with_list, toggle_clipping,
  press_key, process_events,
}
use tcb.Andi.Main.Crowd.{Crowd, all_do, take_place, formation, crowd_key, crowd_events, crowd_moves}

-- The demo's heap holds the crowd.
pub record Simulates (d : Demo) (k : Crowd) : Type 0 where
  pub list : Represents d.list k.members
  pub rand : d.rand ≡ k.rand
  pub quit : d.quit ≡ k.quit
  pub fit : All HasFrames k.members

abbrev pub Follows : Res Demo → Crowd → Type 0
Follows r k = (d : Demo) × (r ≡ ok d) × Simulates d k

-- What a loop's body keeps of every penguin.
pub All-each :
    (P : Penguin → Type 0) (body : Rand → Penguin → Rand × Penguin) (r : Rand) (ps : List Penguin)
    → ((r : Rand) (p : Penguin) → HasFrames p → P (body r p).1)
    → All HasFrames ps
    → All P (each body r ps).1
All-each P body r [] h v = tt
All-each P body r (p ∷ ps) h v = (h r p v.0, All-each P body (body r p).0 ps h v.1)

pub length-members : (st : Store) (ps : List Penguin) → Represents st ps → st.population ≡ length ps
length-members st ps (cells, v, e) = v.population ∙ length-values cells ∙ ap length e

for_each_lem :
    (code : Rand → Penguin → Res (Rand × Penguin)) (body : Rand → Penguin → Rand × Penguin)
    → ((r : Rand) (p : Penguin) → code r p ≡ ok (body r p))
    → ((r : Rand) (p : Penguin) → HasFrames p → HasFrames (body r p).1)
    → (d : Demo) (k : Crowd) → Simulates d k
    → Follows (for_each code d) (all_do body k)
unfolding for_each
for_each_lem code body does keeps d k v =
    let (after, runs, rep) =
      walk-Represents code body does d.list.population d.list d.rand k.members v.list
        (omega (arith, length-members d.list k.members v.list)) in
    let after_list = record (d.list) { nodes = after } in
    (
      record d { rand = (each body d.rand k.members).0; list = after_list },
      rw runs refl,
      record {
        list = subst (λ r. Represents after_list (each body r k.members).1) v.rand rep;
        rand = ap (λ r. (each body r k.members).0) v.rand;
        quit = v.quit;
        fit = All-each HasFrames body k.rand k.members keeps v.fit;
      },
    )

search_destination_lem :
    (w : World) (c : Coords)
    → HasCoords c
    → 0 < c.nr_coords
    → (r : Rand) (p : Penguin)
    → search_destination w.toward w.resolution c r p ≡ ok (take_place w c r p)
unfolding search_destination
search_destination_lem w c has some_coords r p =
    let below = mod-lt (myrand r).0 some_coords in
    let entry = (myrand r).0 % c.nr_coords * 2 in
    let first = load_ok c.coords entry (omega (arith, below, has)) in
    let second = load_ok c.coords (entry + 1) (omega (arith, below, has)) in rw (first, second) refl

formation_lem :
    (w : World) (c : Coords) (d : Demo) (k : Crowd)
    → HasCoords c
    → Simulates d k
    → Follows (penguins_search_destination w c d) (formation w c k)
unfolding penguins_search_destination
formation_lem w c d k has v = split (c.nr_coords == 0) refl
  where
    split :
        (b : Bool)
        → (c.nr_coords == 0) ≡ b
        → Follows (penguins_search_destination w c d) (formation w c k)
    split true e = rw (penguins_search_destination, e) (d, refl, v)
    split false e =
        let some_coords : 0 < c.nr_coords = ground arith in
        let does = search_destination_lem w c has some_coords in
        rw (penguins_search_destination, e)
          (for_each_lem (search_destination w.toward w.resolution c) (take_place w c) does
            (λ r p f. record { left = f.left; right = f.right; above = f.above; below = f.below }) d
            k v)

move_penguins_lem :
    (w : World) (d : Demo) (k : Crowd)
    → HasRoom w.resolution
    → Simulates d k
    → Follows (move_penguins w 3 d) (crowd_moves w k)
unfolding move_penguins
move_penguins_lem w d k room v =
    for_each_lem (λ r p. ok (move_penguin w.resolution 3 r p)) (move_penguin w.resolution 3)
      (λ r p. refl) (λ r p f. (move_penguin-IsPenguin w.resolution 3 r p room f).1) d k v

revive_penguins_lem :
    (d : Demo) (k : Crowd)
    → Simulates d k
    → Follows (revive_penguins d) (all_do (λ r p. (r, record p { moving = true })) k)
unfolding revive_penguins revive_penguin
revive_penguins_lem d k v =
    for_each_lem (λ r p. ok (r, revive_penguin p)) (λ r p. (r, record p { moving = true }))
      (λ r p. refl)
      (λ r p f. record { left = f.left; right = f.right; above = f.above; below = f.below }) d k v

-- Another list.
with_list_lem :
    (r : Res Store) (d : Demo) (k : Crowd) (ps : List Penguin)
    → Yields r ps
    → All HasFrames ps
    → Simulates d k
    → Follows (with_list r d) (record k { members = ps })
unfolding with_list
with_list_lem r d k ps (st, runs, rep) fit v = (
  record d { list = st },
  rw runs refl,
  record { list = rep; rand = v.rand; quit = v.quit; fit = fit },
)

pub All-newborn : (s : Resolution) (n : ℕ) → All HasFrames (replicate n (newborn s))
All-newborn s zero = tt
All-newborn s (suc n) = (newborn-HasFrames s, All-newborn s n)

All-dropped : (n : ℕ) (ps : List Penguin) → All HasFrames ps → All HasFrames (drop n ps)
All-dropped zero ps v = v
All-dropped (suc n) [] v = tt
All-dropped (suc n) (p ∷ ps) v = All-dropped n ps v.1

module _ (w : World) (address : Nodes → ℕ) (memory : Allocates w.calloc address) (c : Coords)
    (has : HasCoords c) where
  spawned :
      (d : Demo) (k : Crowd)
      → Simulates d k
      → Follows
          (with_list (spawn_penguins w.resolution w.calloc 10 d.list) d)
          (record k { members = k.members ++ replicate 10 (newborn w.resolution) })
  spawned d k v =
      let more = replicate 10 (newborn w.resolution) in
      with_list_lem (spawn_penguins w.resolution w.calloc 10 d.list) d k (k.members ++ more)
        (spawn_penguins-Yields w.resolution w.calloc address memory 10 d.list k.members v.list)
        (All-append HasFrames k.members more v.fit (All-newborn w.resolution 10)) v

  destroyed :
      (d : Demo) (k : Crowd)
      → Simulates d k
      → Follows
          (with_list (destroy_penguins 10 d.list) d)
          (record k { members = drop 10 k.members })
  destroyed d k v =
      with_list_lem (destroy_penguins 10 d.list) d k (drop 10 k.members)
        (destroy_penguins-Yields 10 d.list k.members v.list) (All-dropped 10 k.members v.fit) v

  quits :
      (d : Demo) (k : Crowd)
      → Simulates d k
      → Follows (ok (record d { quit = true })) (record k { quit = true })
  quits d k v = (
    record d { quit = true },
    refl,
    record { list = v.list; rand = v.rand; quit = refl; fit = v.fit },
  )

  press_key_lem :
      (key : Key) (d : Demo) (k : Crowd)
      → Simulates d k
      → Follows (press_key w c key d) (crowd_key w c key k)
  unfolding press_key toggle_clipping
  press_key_lem escape d k v = quits d k v
  press_key_lem small_q d k v = quits d k v
  press_key_lem back d k v = quits d k v
  press_key_lem stop d k v = quits d k v
  press_key_lem small_s d k v = spawned d k v
  press_key_lem cursor_up d k v = spawned d k v
  press_key_lem small_r d k v = revive_penguins_lem d k v
  press_key_lem small_d d k v = destroyed d k v
  press_key_lem cursor_down d k v = destroyed d k v
  press_key_lem small_c d k v =
      (_, refl, record { list = v.list; rand = v.rand; quit = v.quit; fit = v.fit })
  press_key_lem space d k v = formation_lem w c d k has v
  press_key_lem enter d k v = formation_lem w c d k has v
  press_key_lem ok_key d k v = formation_lem w c d k has v
  press_key_lem other_key d k v = (d, refl, v)

  pub process_events_lem :
      (events : List Event) (d : Demo) (k : Crowd)
      → Simulates d k
      → Follows (process_events w c events d) (crowd_events w c events k)
  unfolding process_events
  process_events_lem [] d k v = (d, refl, v)
  process_events_lem (other_event ∷ events) d k v = process_events_lem events d k v
  process_events_lem (key_press key ∷ events) d k v =
      let (d1, runs, v1) = press_key_lem key d k v in
      let (d2, more, v2) = process_events_lem events d1 (crowd_key w c key k) v1 in
      (d2, rw runs more, v2)
