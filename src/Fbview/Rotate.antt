-- ===== src/Fbview/Rotate.antt =====
-- `fb_pixmap_rotate` of pixmap.c.
pub mod Laws
pub mod Quarter
use tcb.Base.{
  ℕ, zero, suc, ◌+◌, ◌-◌, ◌*◌, Option, none, some, Res, ok, fault, ◌>>=◌, ◌==◌, if◌then◌else◌,
}
use tcb.Base.Memory.{Memory}
use tcb.Fbview.Pixel.{Colour, fb_set_pixel, fb_get_pixel}

-- R, G and B before their first read are not used: every `pixelsize` of the framebuffer sets them.
abbrev pub unread : Colour
unread = record { red = 0; green = 0; blue = 0 }

module _ (pixelsize : ℕ) (fb_pixmap : Memory) (source target : ℕ → ℕ → ℕ) where
  -- One pixel, from its index in the old pixmap to that in the new one.
  unfoldable pub move_pixel : ℕ → ℕ → Memory → Res Memory
  move_pixel i j new = do
    c ← fb_get_pixel pixelsize fb_pixmap (source i j * pixelsize) unread
    fb_set_pixel pixelsize new (target i j * pixelsize) c

  -- The inner loop with the rounds left, and the outer one.
  unfoldable pub rotate_row : ℕ → ℕ → ℕ → Memory → Res Memory
  unfolding move_pixel
  rotate_row zero i j new = ok new
  rotate_row (suc left) i j new = do new1 ← move_pixel i j new; rotate_row left (suc i) j new1

  unfoldable pub rotate_rows : ℕ → ℕ → ℕ → Memory → Res Memory
  unfolding rotate_row
  rotate_rows zero j row new = ok new
  rotate_rows (suc left) j row new = do
    new1 ← rotate_row row 0 j new
    rotate_rows left (suc j) row new1

-- A pixmap with its width and height.
pub record Pixmap : Type 0 where
  pub memory : Memory
  pub w : ℕ
  pub h : ℕ

abbrev sized : ℕ → ℕ → Res Memory → Res Pixmap
sized w h m = do memory ← m; ok (record { memory = memory; w = w; h = h })

-- The switch; for another angle `nw` and `nh` are never set. In the second and the fourth index of a
-- case, `nw` and `nh` are the new sizes.
unfoldable pub rotate_to : ℕ → ℕ → Pixmap → Memory → Res Pixmap
unfolding rotate_rows
rotate_to pixelsize rotate p new =
    if rotate == 90
    then (let nw = p.h in
        let nh = p.w in
        sized nw nh
          (rotate_rows pixelsize p.memory (λ i j. i + j * nh) (λ i j. nw - j + i * nw) nw 0 nh new))
    else if rotate == 180
    then (let nw = p.w in
        let nh = p.h in
        sized nw nh (
          rotate_rows pixelsize p.memory (λ i j. i + j * nw) (λ i j. nw - i + (nh - j) * nw) nh 0 nw
            new))
    else if rotate == 270
    then (let nw = p.h in
        let nh = p.w in
        sized nw nh (
          rotate_rows pixelsize p.memory (λ i j. i + j * nh) (λ i j. j + (nh - i) * nw) nw 0 nh
            new))
    else fault

-- `fb_pixmap_rotate`, with what `malloc` returns for the new pixmap.
unfoldable pub fb_pixmap_rotate : ℕ → ℕ → Option Memory → Pixmap → Res Pixmap
unfolding rotate_to
fb_pixmap_rotate pixelsize rotate malloc p =
    if rotate == 0
    then ok p
    else elim malloc [ none ↦ ok p | some new ↦ rotate_to pixelsize rotate p new ]
