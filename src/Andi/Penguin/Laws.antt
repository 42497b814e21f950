-- ===== src/Andi/Penguin/Laws.antt =====
-- A penguin stays on the screen, and its frames in their rings.
use tcb.Base.{ℕ, ◌+◌, ◌≤◌, ◌<◌, ◌≡◌, refl, subst, sym, arith}
use tcb.Base.Int.{ℤ, pos, negsuc}
use tcb.Andi.Penguin.{
  Rand, Penguin, Resolution, x_sprite_size, y_sprite_size, Direction, left, right, above, below,
  newborn, ring_size, advance_at, arrived, rest_penguin, step_left, step_right, step_up, step_down,
  clip, clip_penguin, animate, move_penguin,
}

-- A screen that a sprite fits on.
pub record HasRoom (s : Resolution) : Type 0 where
  pub wide : x_sprite_size ≤ s.xres
  pub high : y_sprite_size ≤ s.yres

-- A coordinate at which a sprite of that size lies within the screen.
abbrev pub IsWithin : ℕ → ℕ → ℤ → Type 0
IsWithin size sprite (pos k) = k + sprite ≤ size
IsWithin size sprite (negsuc k) = ⊥

-- The frames are frames of the rings.
pub record HasFrames (p : Penguin) : Type 0 where
  pub left : p.left_frame < ring_size
  pub right : p.right_frame < ring_size
  pub above : p.up_frame < ring_size
  pub below : p.down_frame < ring_size

pub record IsOnScreen (s : Resolution) (p : Penguin) : Type 0 where
  pub across : IsWithin s.xres x_sprite_size p.x
  pub along : IsWithin s.yres y_sprite_size p.y

pub clip-IsWithin :
    (size sprite : ℕ) (z : ℤ) → sprite ≤ size → IsWithin size sprite (clip size sprite z)
unfolding clip
clip-IsWithin size sprite (pos k) h = ground arith
clip-IsWithin size sprite (negsuc k) h = ground arith

advance_at-HasFrames : (d : Direction) (p : Penguin) → HasFrames p → HasFrames (advance_at d p)
advance_at-HasFrames left p v = ground arith
advance_at-HasFrames right p v = ground arith
advance_at-HasFrames above p v = ground arith
advance_at-HasFrames below p v = ground arith

animate-HasFrames : (p : Penguin) → HasFrames p → HasFrames (animate p)
unfolding animate
animate-HasFrames p v = ground (arith, advance_at-HasFrames p.frameset p v)

-- Only `animate` moves the frames on.
module _ (step : ℕ) (p : Penguin) (v : HasFrames p) where
  step_left-HasFrames : HasFrames (step_left step p)
  unfolding step_left
  step_left-HasFrames = ground arith

  step_right-HasFrames : HasFrames (step_right step p)
  unfolding step_right
  step_right-HasFrames = ground arith

  step_up-HasFrames : HasFrames (step_up step p)
  unfolding step_up
  step_up-HasFrames = ground arith

  step_down-HasFrames : HasFrames (step_down step p)
  unfolding step_down
  step_down-HasFrames = ground arith

rest_penguin-HasFrames : (r : Rand) (p : Penguin) → HasFrames p → HasFrames (rest_penguin r p).1
unfolding rest_penguin
rest_penguin-HasFrames r p v = ground arith

clip_penguin-HasFrames : (s : Resolution) (p : Penguin) → HasFrames p → HasFrames (clip_penguin s p)
unfolding clip_penguin
clip_penguin-HasFrames s p v = ground arith

advance_at-same :
    (d : Direction) (p : Penguin) → ((advance_at d p).x ≡ p.x) × ((advance_at d p).y ≡ p.y)
advance_at-same left p = (refl, refl)
advance_at-same right p = (refl, refl)
advance_at-same above p = (refl, refl)
advance_at-same below p = (refl, refl)

animate-same : (p : Penguin) → ((animate p).x ≡ p.x) × ((animate p).y ≡ p.y)
unfolding animate
animate-same p = ground (arith, advance_at-same p.frameset p)

animate-IsOnScreen : (s : Resolution) (p : Penguin) → IsOnScreen s p → IsOnScreen s (animate p)
animate-IsOnScreen s p v = record {
  across = subst (IsWithin s.xres x_sprite_size) (sym (animate-same p).0) v.across;
  along = subst (IsWithin s.yres y_sprite_size) (sym (animate-same p).1) v.along;
}

clip_penguin-IsOnScreen :
    (s : Resolution) (p : Penguin) → HasRoom s → IsOnScreen s (clip_penguin s p)
unfolding clip_penguin
clip_penguin-IsOnScreen s p room = record {
  across = clip-IsWithin s.xres x_sprite_size p.x room.wide;
  along = clip-IsWithin s.yres y_sprite_size p.y room.high;
}

-- What holds of every penguin of the list.
abbrev pub IsPenguin : Resolution → Penguin → Type 0
IsPenguin s p = IsOnScreen s p × HasFrames p

-- On a screen that a sprite fits on, a penguin whose frames are in their rings is, after the loop body
-- of `move_penguins` with any step and any random numbers, on the screen whole, and its frames are
-- still in their rings.
pub move_penguin-IsPenguin :
    (s : Resolution) (step : ℕ) (r : Rand) (p : Penguin)
    → HasRoom s
    → HasFrames p
    → IsPenguin s (move_penguin s step r p).1
unfolding move_penguin
move_penguin-IsPenguin s step r p room v =
    let p1 = record p { x_togo = arrived step p.x_togo; y_togo = arrived step p.y_togo } in
    let v1 : HasFrames p1 = record {
      left = v.left;
      right = v.right;
      above = v.above;
      below = v.below;
    } in
    let p2 = (rest_penguin r p1).1 in
    let v2 = rest_penguin-HasFrames r p1 v1 in
    let v3 = step_left-HasFrames step p2 v2 in
    let v4 = step_right-HasFrames step (step_left step p2) v3 in
    let p4 = step_right step (step_left step p2) in
    let v5 = step_up-HasFrames step p4 v4 in
    let v6 = step_down-HasFrames step (step_up step p4) v5 in
    let p6 = step_down step (step_up step p4) in
    (
      animate-IsOnScreen s (clip_penguin s p6) (clip_penguin-IsOnScreen s p6 room),
      animate-HasFrames (clip_penguin s p6) (clip_penguin-HasFrames s p6 v6),
    )

pub newborn-HasFrames : (s : Resolution) → HasFrames (newborn s)
unfolding newborn
newborn-HasFrames s = omega arith
