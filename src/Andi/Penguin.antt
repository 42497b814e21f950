-- ===== src/Andi/Penguin.antt =====
-- One penguin: the random numbers, the animation frames, and the body of the loop of `move_penguins`.
pub mod Laws
pub mod Walks
use Prim.Native.Nat.{bit_xor, bit_or}
use tcb.Base.{
  ℕ, zero, suc, ◌+◌, ◌-◌, ◌*◌, ◌/◌, ◌%◌, ◌^◌, Bool, true, false, not, ◌&&◌, ltb, ◌==◌,
  if◌then◌else◌,
}
use tcb.Base.Int.{
  ℤ, pos, up, down, difference, plus, less, magnitude, is_zero, is_positive, is_negative,
}

-- `rand_pool` and `rand_add`.
pub record Rand : Type 0 where
  pub rand_pool : ℕ
  pub rand_add : ℕ

abbrev pub first_rand : Rand
first_rand = record { rand_pool = 0x12345678; rand_add = 0x87654321 }

-- `myrand`: what it returns, and the state behind it.
unfoldable pub myrand : Rand → ℕ × Rand
myrand r =
    let turned = bit_or (r.rand_pool * 2 ^ 7 % 2 ^ 32) (r.rand_pool / 2 ^ 25) in
    let pool = (bit_xor r.rand_pool turned + r.rand_add) % 2 ^ 32 in
    (pool, record { rand_pool = pool; rand_add = (r.rand_add + pool) % 2 ^ 32 })

-- The sizes of the penguin surface and of a sprite.
abbrev pub x_tux_size : ℕ
x_tux_size = 400

abbrev pub x_sprite_size : ℕ
x_sprite_size = 40

abbrev pub y_sprite_size : ℕ
y_sprite_size = 60

pub data Direction : Type 0 where
  left right above below : Direction

-- A penguin without its `next`. A frame is its place in the ring of its direction; `frameset` points
-- to one of the penguin's own four frames.
pub record Penguin : Type 0 where
  pub x : ℤ
  pub y : ℤ
  pub x_togo : ℤ
  pub y_togo : ℤ
  pub moving : Bool
  pub delay : ℕ
  pub left_frame : ℕ
  pub right_frame : ℕ
  pub up_frame : ℕ
  pub down_frame : ℕ
  pub frameset : Direction

pub record Resolution : Type 0 where
  pub xres : ℕ
  pub yres : ℕ

-- What `spawn_penguin` puts into the new node.
unfoldable pub newborn : Resolution → Penguin
newborn s = record {
  x = pos (s.xres / 2);
  y = pos (s.yres / 2);
  x_togo = pos 0;
  y_togo = pos 0;
  moving = true;
  delay = 5;
  left_frame = 0;
  right_frame = 0;
  up_frame = 0;
  down_frame = 0;
  frameset = below;
}

-- `next` of a frame: the last of the ring's 9 frames leads to the first.
abbrev pub ring_size : ℕ
ring_size = x_tux_size / x_sprite_size - 1

abbrev pub next_frame : ℕ → ℕ
next_frame i = if suc i == ring_size then 0 else suc i

-- `*(p->frameset)`, and the same set to the next frame.
unfoldable pub frame_of : Penguin → ℕ
frame_of p = elim p.frameset [
  | left ↦ p.left_frame
  | right ↦ p.right_frame
  | above ↦ p.up_frame
  | below ↦ p.down_frame
]

abbrev pub advance_at : Direction → Penguin → Penguin
advance_at left p = record p { left_frame = next_frame p.left_frame }
advance_at right p = record p { right_frame = next_frame p.right_frame }
advance_at above p = record p { up_frame = next_frame p.up_frame }
advance_at below p = record p { down_frame = next_frame p.down_frame }

-- A way to go that is shorter than a step is done.
abbrev pub arrived : ℕ → ℤ → ℤ
arrived step z = if ltb (magnitude z) step then pos 0 else z

-- With no way to go, a walking penguin gets a new destination, and one in formation jitters.
unfoldable pub rest_penguin : Rand → Penguin → Rand × Penguin
unfolding myrand
rest_penguin r p =
    let (a, r1) = myrand r in
    let (b, r2) = myrand r1 in
    if not (is_zero p.x_togo && is_zero p.y_togo)
    then (r, p)
    else if p.moving
    then (r2, record p { x_togo = difference (a % 100) 50; y_togo = difference (b % 100) 50 })
    else (
      r2,
      record p { frameset = below; x = less (plus p.x (a % 3)) 1; y = less (plus p.y (b % 3)) 1 },
    )

-- One step towards the destination; the tests look at what the tests before have left.
unfoldable pub step_left : ℕ → Penguin → Penguin
step_left step p =
    if is_positive p.x_togo
    then record p { x = less p.x step; x_togo = less p.x_togo step; frameset = left }
    else p

unfoldable pub step_right : ℕ → Penguin → Penguin
step_right step p =
    if is_negative p.x_togo
    then record p { x = plus p.x step; x_togo = plus p.x_togo step; frameset = right }
    else p

unfoldable pub step_up : ℕ → Penguin → Penguin
step_up step p =
    if is_positive p.y_togo
    then record p { y = less p.y step; y_togo = less p.y_togo step; frameset = above }
    else p

unfoldable pub step_down : ℕ → Penguin → Penguin
step_down step p =
    if is_negative p.y_togo
    then record p { y = plus p.y step; y_togo = plus p.y_togo step; frameset = below }
    else p

-- The clipping of a coordinate: below 0, and above the screen's size less that of a sprite.
unfoldable pub clip : ℕ → ℕ → ℤ → ℤ
clip size sprite z =
    let z1 = if is_negative z then pos 0 else z in
    let limit = difference size sprite in
    if ltb (up limit + down z1) (up z1 + down limit) then limit else z1

unfoldable pub clip_penguin : Resolution → Penguin → Penguin
unfolding clip
clip_penguin s p = record p { x = clip s.xres x_sprite_size p.x; y = clip s.yres y_sprite_size p.y }

-- The next frame is set every sixth time.
unfoldable pub animate : Penguin → Penguin
animate p =
    if p.delay == 0
    then record (advance_at p.frameset p) { delay = 5 }
    else record p { delay = p.delay - 1 }

-- The body of the loop of `move_penguins`.
unfoldable pub move_penguin : Resolution → ℕ → Rand → Penguin → Rand × Penguin
unfolding rest_penguin step_left step_right step_up step_down clip_penguin animate
move_penguin s step r p =
    let p1 = record p { x_togo = arrived step p.x_togo; y_togo = arrived step p.y_togo } in
    let (r1, p2) = rest_penguin r p1 in
    (
      r1,
      animate
          (clip_penguin s (step_down step (step_up step (step_right step (step_left step p2))))),
    )

-- The body of the loop of `revive_penguins`.
unfoldable pub revive_penguin : Penguin → Penguin
revive_penguin p = record p { moving = true }
