-- ===== src/Starfield/Stars.antt =====
-- The stars of starfield.c: the palette, the making of a star, its move, and the two calls of main.
-- An `int` is an integer: no product of the source comes near its limits on a screen below 2³¹ bytes.
mod Table
pub mod Bounds
pub mod Moves
pub mod Update
pub mod Rounds
pub mod Palette
pub use Table.{rndtable}
use tcb.Base.{
  ℕ, zero, suc, ◌+◌, ◌-◌, ◌*◌, ◌/◌, ◌%◌, ◌^◌, Bool, true, false, not, ◌||◌, ◌&&◌, ltb,
  if◌then◌else◌, List, [], ◌∷◌, Res, ok, running, ◌>>=◌, leb, length, get_or,
}
use tcb.Base.Int.{ℤ, pos, plus, less, times, over, word, octet, difference, up, down, is_positive}
use tcb.Base.Memory.{Memory, store}

pub record Star : Type 0 where
  pub x : ℤ
  pub y : ℤ
  pub z : ℤ
  pub screen_x : ℕ
  pub screen_y : ℕ
  pub speed : ℤ

-- `screeninfo`, and `num` of create_star.
pub record Field : Type 0 where
  pub xres : ℕ
  pub yres : ℕ
  pub screen : Memory
  pub num : ℕ

abbrev pub maxstars : ℕ
maxstars = 256

abbrev pub numrnd : ℕ
numrnd = 256

abbrev pub zmax : ℕ
zmax = 4096

unfoldable pub create_star : Field → Star → Field × Star
create_star f s = (
  record f { num = suc f.num % 2 ^ 32 },
  record s {
    x = times (get_or rndtable (f.num % numrnd) (pos 0)) 16;
    y = times (get_or rndtable ((f.num + numrnd / 2) % 2 ^ 32 % numrnd) (pos 0)) 16;
    z = pos zmax;
  },
)

-- `width - 2` as an unsigned number.
abbrev pub limit : ℕ → ℕ
limit width = (width + (2 ^ 32 - 2)) % 2 ^ 32

-- The boundary checks.
unfoldable pub is_outside : Field → Star → Bool
is_outside f s =
    not (is_positive s.z)
    || leb (limit f.xres) s.screen_x
    || leb (limit f.yres) s.screen_y
    || leb s.screen_x 2
    || leb s.screen_y 2

-- The new screen coordinates.
unfoldable pub place_star : Field → Star → Res Star
place_star f s = do
  column ← over (times s.x 256) s.z
  row ← over (times s.y 256) s.z
  ok (record s {
    screen_x = word (plus column (f.xres / 2));
    screen_y = word (plus row (f.yres / 2));
  })

abbrev pub colour : ℤ → ℕ
colour z = octet (difference (255 + down z / 24) (up z / 24))

-- The pixel, and the step closer.
unfoldable pub draw_star : Field → Star → Res (Field × Star)
draw_star f s = do
  mem ← store f.screen ((s.screen_x + s.screen_y * f.xres) % 2 ^ 32) (colour s.z)
  ok (record f { screen = mem }, record s { z = less s.z 24 })

-- With a depth of calls.
unfoldable pub update_star : ℕ → Field → Star → Res (Field × Star)
unfolding create_star
update_star zero f s = running
update_star (suc depth) f s = do
  placed ← place_star f s
  elim (is_outside f placed) [
    | true ↦ do
      again ← update_star depth (create_star f placed).0 (create_star f placed).1
      draw_star again.0 again.1
    | false ↦ draw_star f placed
  ]

-- `calc_starfield`, from a star on.
unfoldable pub calc_starfield : ℕ → Field → List Star → Res (Field × List Star)
calc_starfield depth f [] = ok (f, [])
calc_starfield depth f (s ∷ stars) = do
  moved ← update_star depth f s
  rest ← calc_starfield depth moved.0 stars
  ok (rest.0, moved.1 ∷ rest.1)

-- The loops of `set_pal`, with the rounds left: a round writes three bytes.
unfoldable pub pal_loop : (ℕ → ℕ × ℕ × ℕ) → ℕ → ℕ → ℕ → Memory → Res Memory
pal_loop bytes zero i s pal = ok pal
pal_loop bytes (suc left) i s pal = do
  pal1 ← store pal i (bytes s).0
  pal2 ← store pal1 (i + 1) (bytes s).1
  pal3 ← store pal2 (i + 2) (bytes s).2
  pal_loop bytes left (i + 3) (s + 4) pal3

unfoldable pub fill_loop : ℕ → ℕ → ℕ → Memory → Res Memory
fill_loop v zero i mem = ok mem
fill_loop v (suc left) i mem = do mem1 ← store mem i v; fill_loop v left (suc i) mem1

abbrev pub violet : ℕ → ℕ × ℕ × ℕ
violet s = (s % 256, 0, s % 256)

abbrev pub orange : ℕ → ℕ × ℕ × ℕ
orange s = (255, s % 256, octet (difference 255 s))

abbrev pub white : ℕ → ℕ × ℕ × ℕ
white s = (255, 255, s % 256)

unfoldable pub set_pal : Memory → Res Memory
set_pal pal = do
  pal1 ← pal_loop violet 64 0 0 pal
  pal2 ← pal_loop orange 64 192 0 pal1
  pal3 ← pal_loop white 64 384 0 pal2
  fill_loop 255 192 576 pal3

-- The stars of `init_starfield`, from the `i`-th on; they are static, so all 0 before.
unfoldable pub make_stars : ℕ → ℕ → Field → Field × List Star
unfolding create_star
make_stars zero i f = (f, [])
make_stars (suc left) i f =
    let none_yet : Star = record {
      x = pos 0;
      y = pos 0;
      z = pos 0;
      screen_x = 0;
      screen_y = 0;
      speed = pos 0;
    } in
    let made = create_star f none_yet in
    let rest = make_stars left (suc i) made.0 in
    (
      rest.0,
      record made.1 { z = times (plus (get_or rndtable (i % numrnd) (pos 0)) 127) (zmax / 256) }
          ∷ rest.1,
    )

-- `init_starfield(screenbuf, pal, xres, yres)`: the palette, and the field with its stars.
unfoldable pub init_starfield : Memory → Memory → ℕ → ℕ → Res (Memory × Field × List Star)
init_starfield screenbuf pal xres yres = do
  cleared ← fill_loop 0 (xres * yres) 0 screenbuf
  pal1 ← set_pal pal
  let f : Field = record { xres = xres; yres = yres; screen = cleared; num = 0 } in
      ok (pal1, (make_stars maxstars 0 f).0, (make_stars maxstars 0 f).1)

-- `delete_star`, which nothing calls.
unfoldable pub delete_star : Field → Star → Res Memory
delete_star f s =
    if ltb s.screen_x f.xres && ltb s.screen_y f.yres
    then store f.screen ((s.screen_x + s.screen_y * f.xres) % 2 ^ 32) 0
    else ok f.screen
