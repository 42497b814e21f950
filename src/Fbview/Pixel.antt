-- ===== src/Fbview/Pixel.antt =====
-- `fb_set_pixel` and `fb_get_pixel`. The operands of each | have no bits in common, so it is a sum;
-- a mask and a shift are a division and a remainder.
pub mod Laws
pub mod At
use tcb.Base.{ℕ, ◌+◌, ◌*◌, ◌/◌, ◌%◌, Res, ok, ◌>>=◌, ◌>>◌, ◌==◌, ◌||◌, if◌then◌else◌}
use tcb.Base.Memory.{Memory, load, store}

-- A colour as it stands in red, green and blue.
pub record Colour : Type 0 where
  pub red : ℕ
  pub green : ℕ
  pub blue : ℕ

-- `fb_set_pixel`, by `pixelsize`.
unfoldable pub fb_set_pixel : ℕ → Memory → ℕ → Colour → Res Memory
fb_set_pixel pixelsize mem dest c =
    if pixelsize == 1
    then store mem dest (c.red / 32 * 32 + c.green / 32 * 4 + c.blue / 64)
    else if pixelsize == 2
    then (do
      mem1 ← store mem (dest + 1) (128 + c.blue / 8 * 4 + c.green / 64)
      store mem1 dest (c.green / 8 % 8 * 32 + c.red / 8))
    else if pixelsize == 3 || pixelsize == 4
    then (do
      mem1 ← store mem (dest + 3) c.blue
      mem2 ← store mem1 (dest + 2) c.green
      store mem2 (dest + 1) c.red)
    else ok mem

-- `fb_get_pixel`; for any other `pixelsize` it leaves the colour as it was.
unfoldable pub fb_get_pixel : ℕ → Memory → ℕ → Colour → Res Colour
fb_get_pixel pixelsize mem dest old =
    if pixelsize == 1
    then (do
      d ← load mem dest
      ok (record { red = d / 32 * 32; green = d / 4 % 8 * 32; blue = d % 4 * 64 }))
    else if pixelsize == 2
    then (do
      d0 ← load mem dest
      d1 ← load mem (dest + 1)
      ok (record { red = d0 % 32 * 8; green = d1 % 4 * 64 + d0 / 32 * 8; blue = d1 / 4 % 32 * 8 }))
    else if pixelsize == 3 || pixelsize == 4
    then (do
      d0 ← load mem dest
      d1 ← load mem (dest + 1)
      d2 ← load mem (dest + 2)
      ok (record { red = d2; green = d1; blue = d0 }))
    else ok old
