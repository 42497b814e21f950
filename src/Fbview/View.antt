-- ===== src/Fbview/View.antt =====
-- `main` of fbview.c behind `decode_params` and `fb_init`, for a bitmap and without options that scale,
-- rotate or save it.
mod Tests
use tcb.Base.{
  ℕ, ◌+◌, ◌*◌, ◌≤◌, ◌<◌, ◌≡◌, refl, Bool, true, Option, none, some, List, ◌++◌, Res, ok, within,
  ◌>>=◌, ◌>>◌, leb, replicate, drop, length, get_or, length-append, length-replicate, arith, ap,
  sym, ◌∙◌,
}
use native.Mathlib.Nat.{mul-le-mul_right, mul_assoc}
use tcb.Base.Int.{pos}
use tcb.Base.Memory.{Memory, length-drop}
use tcb.Fbview.Render.{Screen, copy_size, rows_shown, fb_pixmap_render}
use tcb.Fbview.Render.Laws.{fb_pixmap_render-shown}
use tcb.Fbview.Rotate.{Pixmap}
use tcb.Fbview.Bmp.{Order}
use tcb.Fbview.Bmp.Reader.{bmp2fb_pixmap}
use tcb.Fbview.Bmp.Writer.{working, fb_pixmap2bmp}
use tcb.Fbview.Bmp.Rows.{IsPixmap}
use tcb.Fbview.Bmp.Laws.{bmp2fb_pixmap-fb_pixmap2bmp}

-- `fb_clear_screen`: `memset` of `buffer_size` bytes.
unfoldable pub fb_clear_screen : ℕ → Memory → Res Memory
fb_clear_screen buffer_size screen = do
  within (leb buffer_size (length screen))
  ok (replicate buffer_size 0 ++ drop buffer_size screen)

unfoldable pub show_image : Screen → ℕ → Pixmap → Memory → Res Memory
unfolding fb_clear_screen fb_pixmap_render
show_image s buffer_size image screen = do
  cleared ← fb_clear_screen buffer_size screen
  fb_pixmap_render s image.memory image.w image.h 0 0 cleared

-- What `main` returns, and the screen.
unfoldable pub view :
    Order → Screen → ℕ → (ℕ → Option Memory) → Option (List ℕ) → Memory → Res (ℕ × Memory)
unfolding bmp2fb_pixmap show_image
view order s buffer_size malloc file screen = do
  loaded ← bmp2fb_pixmap order s.pixelsize malloc file
  elim loaded [
    | none ↦ ok (1, screen)
    | some image ↦ do shown ← show_image s buffer_size image screen; ok (0, shown)
  ]

pub fb_clear_screen_lem :
    (size : ℕ) (screen : Memory)
    → size ≤ length screen
    → (cleared : Memory) × (fb_clear_screen size screen ≡ ok cleared)
      × (length cleared ≡ length screen)
unfolding fb_clear_screen
fb_clear_screen_lem size screen h =
    let blank : Memory = replicate size 0 in
    let fits : leb size (length screen) ≡ true = ground arith in
    (
      blank ++ drop size screen,
      rw fits refl,
      omega (
        arith,
        h,
        length-append {0} blank (drop size screen),
        length-replicate {A = ℕ} size 0,
        length-drop size screen,
      ),
    )

-- The part of an image from its first pixel on that a screen shows.
abbrev pub Shows : Screen → Memory → ℕ → ℕ → Memory → Type 0
Shows s image w h screen =
    (j k : ℕ)
    → j < rows_shown s h
    → k < copy_size s w
    → get_or screen (j * (s.xres * s.pixelsize) + k) 0 ≡ get_or image (j * (w * s.pixelsize) + k) 0

pub show_image-Shows :
    (s : Screen) (size w h : ℕ) (image screen : Memory)
    → IsPixmap s.pixelsize w h image
    → s.yres * (s.xres * s.pixelsize) ≤ length screen
    → size ≤ length screen
    → (after : Memory) × (show_image s size (record { memory = image; w = w; h = h }) screen
        ≡ ok after)
      × Shows s image w h after
unfolding show_image
show_image-Shows s size w h image screen v fits whole =
    let line = w * s.pixelsize in
    let (cleared, clears, len) = fb_clear_screen_lem size screen whole in
    let most : rows_shown s h * line ≤ h * line = mul-le-mul_right line (grind arith) in
    let same : h * w * s.pixelsize ≡ h * line = mul_assoc h w s.pixelsize in
    let (after, renders, kept, shown) =
      fb_pixmap_render-shown s image w h 0 0 cleared (omega (arith, fits, len))
        (omega (arith, most, same, v.same_length)) in
    (
      after,
      rw clears renders,
      λ j k h1 h2. shown j k h1 h2 ∙ ap (λ i. get_or image i 0) (omega arith),
    )

-- A pixmap that is saved as a bitmap and viewed is on the screen as it was: `main` loads the file that
-- `fb_pixmap2bmp` writes and returns 0, and byte `k` of row `j` of the screen is byte `k` of row `j` of
-- the pixmap, for as many rows and bytes of a row as both have. The pixmap is as for the round trip of
-- `fb_pixmap2bmp`, and the screen has the bytes of its rows and those that are cleared.
pub view-fb_pixmap2bmp :
    (order : Order) (s : Screen) (size w h : ℕ) (source fresh screen : Memory)
    (malloc : ℕ → Option Memory)
    → IsPixmap s.pixelsize w h source
    → malloc (h * w * s.pixelsize) ≡ some fresh
    → length fresh ≡ length source
    → s.yres * (s.xres * s.pixelsize) ≤ length screen
    → size ≤ length screen
    → (file : List ℕ) × (after : Memory) × (fb_pixmap2bmp order working s.pixelsize source w h
        ≡ ok (pos 0, some file))
      × (view order s size malloc (some file) screen ≡ ok (0, after))
      × Shows s source w h after
unfolding view
view-fb_pixmap2bmp order s size w h source fresh screen malloc v gives same fits whole =
    let (file, writes, loads) =
      bmp2fb_pixmap-fb_pixmap2bmp order s.pixelsize w h source fresh malloc v gives same in
    let (after, shows, shown) = show_image-Shows s size w h source screen v fits whole in
    (file, after, writes, rw (loads, shows) refl, shown)
