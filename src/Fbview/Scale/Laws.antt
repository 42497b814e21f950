-- ===== src/Fbview/Scale/Laws.antt =====
-- The scaled pixmap, pixel by pixel.
use tcb.Base.{ℕ, ◌+◌, ◌*◌, ◌^◌, ◌<◌, ◌≤◌, ◌≡◌, refl, Option, some, Res, ok, ◌>>=◌, length, arith}
use tcb.Base.Memory.{Memory, pixel-lt}
use tcb.Fbview.Pixel.{Colour, fb_get_pixel}
use tcb.Fbview.Pixel.Laws.{IsColour}
use tcb.Fbview.Pixel.At.{IsFormat, rounded, colour_at, get_at, set_at, HasPixel, pixel_before}
use tcb.Fbview.Rotate.{Pixmap, unread}
use tcb.Fbview.Sizes.{int_ok}
use tcb.Fbview.Raster.Laws.{raster_ok}
use tcb.Fbview.Scale.{
  Float, scaled, first, second, part, mixed_colour, old_pixel, scale_pixel, fb_pixmap_scale,
}

-- What the code relies on: a coordinate of the new pixmap leads to one of the old, and a conversion to
-- `Uint8` is a byte.
pub record IsSampling {F : Type 0} (o : Float F) (scale : F) (size : ℕ) : Type 0 where
  pub in_range : (i : ℕ) → i < scaled o scale size → first o scale i < size
  pub byte : (f : F) → o.to_byte f < 256

v_positive : (size : ℕ) → IsFormat size → 1 ≤ size
v_positive size v = ground arith

second-lt : {F : Type 0} (o : Float F) (size x : ℕ) → x < size → second o size x < size
second-lt o size x h = ground arith

module _ {F : Type 0} (o : Float F) (size : ℕ) (p : Pixmap) (scale : F) where
  -- A pixel of the old pixmap, and what the four around a place come to.
  abbrev pub old_at : ℕ → ℕ → Colour
  old_at x y = colour_at size p.memory ((x + y * p.w) * size)

  abbrev pub wanted : ℕ → ℕ → Colour
  wanted i j =
      let x1 = first o scale i in
      let x2 = second o p.w x1 in
      let y1 = first o scale j in
      let y2 = second o p.h y1 in
      mixed_colour o (part o scale i) (part o scale j) (old_at x1 y1) (old_at x2 y1) (old_at x1 y2)
        (old_at x2 y2)

  old_at_ok :
      (n x y : ℕ)
      → p.w * p.h * size < 2 ^ 31
      → IsFormat size
      → x < p.w
      → y < p.h
      → p.w * p.h * size ≤ length p.memory
      → old_pixel o size p scale n x y ≡ ok (old_at x y)
  old_at_ok n x y small v hx hy h =
      let before = pixel_before size (x + y * p.w) (p.w * p.h) (pixel-lt x y p.w p.h hx hy) in
      rw (
        int_ok ((x + y * p.w) * size) (omega (arith, small, before, v_positive size v)),
        ◌>>=◌,
        get_at size p.memory ((x + y * p.w) * size) unread v (omega (arith, h, before)),
      )

  wanted-IsColour : (i j : ℕ) → ((f : F) → o.to_byte f < 256) → IsColour (wanted i j)
  wanted-IsColour i j byte = record { red = byte _; green = byte _; blue = byte _ }

  -- One pixel.
  module _ (v : IsFormat size) (small : p.w * p.h * size < 2 ^ 31)
      (small' : scaled o scale p.w * scaled o scale p.h * size < 2 ^ 31)
      (whole : p.w * p.h * size ≤ length p.memory) (wide : IsSampling o scale p.w)
      (high : IsSampling o scale p.h) where
    abbrev nw : ℕ
    nw = scaled o scale p.w

    abbrev nh : ℕ
    nh = scaled o scale p.h

    scale_pixel_ok :
        (i j : ℕ) (new : Memory)
        → i < nw
        → j < nh
        → nw * nh * size ≤ length new
        → (after : Memory) × (scale_pixel o size p scale nw i j new ≡ ok after)
          × HasPixel size new ((i + j * nw) * size) (wanted i j) after
    unfolding scale_pixel
    scale_pixel_ok i j new hi hj h =
        let x1 = wide.in_range i hi in
        let x2 = second-lt o p.w (first o scale i) x1 in
        let y1 = high.in_range j hj in
        let y2 = second-lt o p.h (first o scale j) y1 in
        let here = pixel_before size (i + j * nw) (nw * nh) (pixel-lt i j nw nh hi hj) in
        let put = set_at size new ((i + j * nw) * size) (wanted i j) v (omega (arith, h, here)) in
        (
          put.0,
          rw (
            old_at_ok nw _ _ small v x1 y1 whole,
            ◌>>=◌,
            old_at_ok nw _ _ small v x2 y1 whole,
            ◌>>=◌,
            old_at_ok nw _ _ small v x1 y2 whole,
            ◌>>=◌,
            old_at_ok nw _ _ small v x2 y2 whole,
            ◌>>=◌,
            int_ok ((i + j * nw) * size) (omega (arith, small', here, v_positive size v)),
            ◌>>=◌,
            put.1,
          ),
          put.2,
        )

-- The end of the code.
abbrev sized : ℕ → ℕ → Res Memory → Res Pixmap
sized w h m = do memory ← m; ok (record { memory = memory; w = w; h = h })

-- A pixmap of one or two bytes a pixel is scaled: where neither the bytes of the old pixmap nor those of the
-- new one overflow an `int`, and where `malloc` gives a new pixmap for `nw` columns and `nh`
-- rows, every access is inside the two, the loops come to their end, and pixel `i` of row `j` of the new
-- pixmap is the mixture of the four pixels of the old one around its place, with the bits that the
-- format keeps. Of the floats it is assumed that the places are inside the old pixmap, and that a
-- conversion to `Uint8` is a byte.
pub fb_pixmap_scale-wanted :
    {F : Type 0} (o : Float F) (size : ℕ) (p : Pixmap) (scale : F) (malloc : ℕ → Option Memory)
    (new : Memory) (old : Colour)
    → IsFormat size
    → p.w * p.h * size ≤ length p.memory
    → p.w * p.h * size < 2 ^ 31
    → scaled o scale p.w * scaled o scale p.h * size < 2 ^ 31
    → IsSampling o scale p.w
    → IsSampling o scale p.h
    → malloc (scaled o scale p.w * scaled o scale p.h * size) ≡ some new
    → length new ≡ scaled o scale p.w * scaled o scale p.h * size
    → (q : Pixmap) × (fb_pixmap_scale o size malloc p scale ≡ ok q)
      × (q.w ≡ scaled o scale p.w)
      × (q.h ≡ scaled o scale p.h)
      × (length q.memory ≡ q.w * q.h * size)
      × ((i j : ℕ)
          → i < q.w
          → j < q.h
          → fb_get_pixel size q.memory ((i + j * q.w) * size) old
            ≡ ok (rounded size (wanted o size p scale i j)))
unfolding fb_pixmap_scale
fb_pixmap_scale-wanted o size p scale malloc new old v whole small small' wide high gives same =
    let nw = scaled o scale p.w in
    let nh = scaled o scale p.h in
    let all =
      raster_ok size nw nh (wanted o size p scale) (scale_pixel o size p scale nw)
        (scale_pixel_ok o size p scale v small small' whole wide high)
        (λ i j hi hj. wanted-IsColour o size p scale i j wide.byte) new v same in
    (
      record { memory = all.0; w = nw; h = nh },
      rw (int_ok (nw * nh * size) small', ◌>>=◌, gives, all.1, ◌>>=◌),
      refl,
      refl,
      all.2,
      all.3 old,
    )
