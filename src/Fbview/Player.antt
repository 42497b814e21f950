-- ===== src/Fbview/Player.antt =====
-- bitmap.c, the viewer's former player, from a loaded bitmap on: `bitmap_render` at a position, and the
-- keys of `bitmap_play`. It is in no build: keyboard.h, which has `kbhit`, `readch` and the codes of the
-- keys, is not in the repository, so the keys come as a list; JUMP_SIZE is that of fbview.c. A bitmap
-- has less than 2³² bytes.
pub mod Laws
use tcb.Base.{
  ℕ, zero, suc, ◌+◌, ◌-◌, ◌*◌, ◌%◌, ◌^◌, List, [], ◌∷◌, Res, ok, running, ◌>>=◌, leb, ltb,
  if◌then◌else◌,
}
use tcb.Base.Memory.{Memory}
use tcb.Fbview.Render.{Screen, render_rows}
use tcb.Fbview.View.{fb_clear_screen}

pub data Key : Type 0 where
  escape up down left right other : Key

-- `position_x` and `position_y`.
pub record Position : Type 0 where
  pub x : ℕ
  pub y : ℕ

abbrev pub jump_size : ℕ
jump_size = 2

-- `res <= (size - position - JUMP_SIZE)`, in a Uint32, and the step on, in a Uint16.
abbrev pub step_on : ℕ → ℕ → ℕ → ℕ
step_on res size position =
    if leb res ((size + 2 ^ 32 - position + (2 ^ 32 - jump_size)) % 2 ^ 32)
    then (position + jump_size) % 2 ^ 16
    else position

abbrev pub step_back : ℕ → ℕ
step_back position = if leb jump_size position then position - jump_size else position

module _ (s : Screen) (bmp_buffer : Memory) (width height : ℕ) where
  -- The tests of a key.
  unfoldable pub move : Key → Position → Position
  move up p = record p { y = step_back p.y }
  move down p = record p { y = step_on s.yres height p.y }
  move left p = record p { x = step_back p.x }
  move right p = record p { x = step_on s.xres width p.x }
  move _ p = p

  abbrev pub copy_mem_size : ℕ
  copy_mem_size = if ltb width s.xres then width * s.pixelsize else s.xres * s.pixelsize

  abbrev pub max_j : ℕ
  max_j = if ltb height s.yres then height else s.yres

  unfoldable pub bitmap_render : Position → Memory → Res Memory
  unfolding render_rows
  bitmap_render p screen =
      let bmp_line_size = width * s.pixelsize in
      render_rows max_j (s.xres * s.pixelsize) bmp_line_size copy_mem_size bmp_buffer 0
        (p.y * bmp_line_size + p.x * s.pixelsize) screen

  -- The loop, for the keys that come; it goes on when no more have come.
  unfoldable pub play_keys : List Key → Position → Memory → Res Memory
  unfolding move bitmap_render
  play_keys [] p screen = running
  play_keys (escape ∷ keys) p screen = ok screen
  play_keys (key ∷ keys) p screen = do
    screen1 ← bitmap_render (move key p) screen
    play_keys keys (move key p) screen1

  -- `bitmap_play` behind `bitmap_load`.
  unfoldable pub bitmap_play : ℕ → List Key → Memory → Res Memory
  unfolding play_keys
  bitmap_play buffer_size keys screen = do
    cleared ← fb_clear_screen buffer_size screen
    shown ← bitmap_render (record { x = 0; y = 0 }) cleared
    played ← play_keys keys (record { x = 0; y = 0 }) shown
    fb_clear_screen buffer_size played
