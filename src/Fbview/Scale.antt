-- ===== src/Fbview/Scale.antt =====
-- `fb_pixmap_scale` of pixmap.c, over a type of floats that is a parameter.
pub mod Laws
use tcb.Base.{ℕ, zero, suc, ◌+◌, ◌*◌, Option, none, some, Res, ok, ◌>>=◌, leb, if◌then◌else◌}
use tcb.Base.Int.{ℤ, pos, difference}
use tcb.Base.Memory.{Memory}
use tcb.Fbview.Sizes.{int}
use tcb.Fbview.Pixel.{Colour, fb_set_pixel, fb_get_pixel}
use tcb.Fbview.Rotate.{Pixmap, unread}
use tcb.Fbview.Raster.{raster_rows}

-- What the code does with floats: the conversion of an `int`, arithmetic, `floor`, and the
-- conversions to `Uint16` and `Uint8`.
pub record Float (F : Type 0) : Type 0 where
  pub of_int : ℤ → F
  pub add : F → F → F
  pub sub : F → F → F
  pub mul : F → F → F
  pub div : F → F → F
  pub floor : F → F
  pub to_word : F → ℕ
  pub to_byte : F → ℕ

module _ {F : Type 0} (o : Float F) where
  abbrev pub of_nat : ℕ → F
  of_nat n = o.of_int (pos n)

  -- `nw` and `nh`.
  abbrev pub scaled : F → ℕ → ℕ
  scaled scale size = o.to_word (o.mul (of_nat size) scale)

  -- `x` and `x1` of `i`, `y` and `y1` of `j`; `x2` of `x1`, `y2` of `y1`.
  abbrev pub place : F → ℕ → F
  place scale i = o.div (of_nat i) scale

  abbrev pub first : F → ℕ → ℕ
  first scale i = o.to_word (o.floor (place scale i))

  abbrev pub second : ℕ → ℕ → ℕ
  second size x1 = if leb size (x1 + 1) then x1 else x1 + 1

  -- `x - x1`
  abbrev pub part : F → ℕ → F
  part scale i = o.sub (place scale i) (of_nat (first scale i))

  -- `f12` and `f34`, and a component of the new pixel.
  abbrev pub between : F → ℕ → ℕ → F
  between dx p q = o.add (of_nat p) (o.mul dx (o.of_int (difference q p)))

  abbrev pub mixed : F → F → ℕ → ℕ → ℕ → ℕ → ℕ
  mixed dx dy p1 p2 p3 p4 =
      let f12 = between dx p1 p2 in
      let f34 = between dx p3 p4 in o.to_byte (o.add f12 (o.mul dy (o.sub f34 f12)))

  abbrev pub mixed_colour : F → F → Colour → Colour → Colour → Colour → Colour
  mixed_colour dx dy c1 c2 c3 c4 = record {
    red = mixed dx dy c1.red c2.red c3.red c4.red;
    green = mixed dx dy c1.green c2.green c3.green c4.green;
    blue = mixed dx dy c1.blue c2.blue c3.blue c4.blue;
  }

  module _ (pixelsize : ℕ) (p : Pixmap) (scale : F) (nw : ℕ) where
    -- The pixel of the old pixmap.
    abbrev pub old_pixel : ℕ → ℕ → Res Colour
    old_pixel x y = do
      at ← int ((x + y * p.w) * pixelsize)
      fb_get_pixel pixelsize p.memory at unread

    -- The body of the inner loop.
    unfoldable pub scale_pixel : ℕ → ℕ → Memory → Res Memory
    scale_pixel i j new =
        let x1 = first scale i in
        let x2 = second p.w x1 in
        let y1 = first scale j in
        let y2 = second p.h y1 in
        (do
          c1 ← old_pixel x1 y1
          c2 ← old_pixel x2 y1
          c3 ← old_pixel x1 y2
          c4 ← old_pixel x2 y2
          at ← int ((i + j * nw) * pixelsize)
          fb_set_pixel pixelsize new at (mixed_colour (part scale i) (part scale j) c1 c2 c3 c4))

  -- What follows `malloc`; without memory the pixmap stays as it is.
  abbrev pub scale_into : ℕ → Pixmap → F → Option Memory → Res Pixmap
  scale_into pixelsize p scale none = ok p
  scale_into pixelsize p scale (some new) = do
    memory ←
        raster_rows (scale_pixel pixelsize p scale (scaled scale p.w)) (scaled scale p.w)
          (scaled scale p.h) 0 new
    ok (record { memory = memory; w = scaled scale p.w; h = scaled scale p.h })

  unfoldable pub fb_pixmap_scale : ℕ → (ℕ → Option Memory) → Pixmap → F → Res Pixmap
  fb_pixmap_scale pixelsize malloc p scale = do
    bytes ← int (scaled scale p.w * scaled scale p.h * pixelsize)
    scale_into pixelsize p scale (malloc bytes)
