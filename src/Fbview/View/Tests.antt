-- ===== src/Fbview/View/Tests.antt =====
-- A small image, saved and viewed.
use tcb.Base.{
  ℕ, zero, suc, ◌*◌, ◌<◌, ◌≡◌, refl, Option, some, none, List, [], ◌∷◌, ok, inl, replicate, arith,
}
use tcb.Base.Int.{pos}
use tcb.Base.Memory.{Memory}
use tcb.Fbview.Render.{Screen}
use tcb.Fbview.Bmp.{little}
use tcb.Fbview.Bmp.Reader.{bmp2fb_pixmap}
use tcb.Fbview.Bmp.Writer.{working, fb_pixmap2bmp}
use tcb.Fbview.Bmp.Pixels.{IsPixel}
use tcb.Fbview.Bmp.Rows.{IsPixmap}
use tcb.Fbview.View.{view, Shows, view-fb_pixmap2bmp}

-- A row of three pixels on a screen of two by two.
abbrev row : Memory
row = 7 ∷ 8 ∷ 255 ∷ []

abbrev small : Screen
small = record { xres = 2; yres = 2; pixelsize = 1 }

abbrev zeroed : ℕ → Option Memory
zeroed n = some (replicate n 0)

row-IsPixmap : IsPixmap 1 3 1 row
row-IsPixmap = record {
  some_bytes = omega arith;
  few_bytes = omega arith;
  width = omega arith;
  height = omega arith;
  size = omega arith;
  same_length = refl;
  pixels = by_pixel;
}
  where
    by_pixel : (i : ℕ) → i < 1 * 3 → IsPixel 1 row (i * 1)
    by_pixel zero h = inl (refl, omega arith)
    by_pixel (suc zero) h = inl (refl, omega arith)
    by_pixel (suc (suc zero)) h = inl (refl, omega arith)
    by_pixel (suc (suc (suc i))) h = absurd (omega (arith, h))

saved_and_viewed :
    (file : List ℕ) × (after : Memory) × (fb_pixmap2bmp little working 1 row 3 1
      ≡ ok (pos 0, some file))
    × (view little small 4 zeroed (some file) (9 ∷ 9 ∷ 9 ∷ 9 ∷ []) ≡ ok (0, after))
    × Shows small row 3 1 after
saved_and_viewed =
    view-fb_pixmap2bmp little small 4 3 1 row (0 ∷ 0 ∷ 0 ∷ []) (9 ∷ 9 ∷ 9 ∷ 9 ∷ []) zeroed
      row-IsPixmap refl refl (omega arith) (omega arith)

-- Without a file the screen stays as it is.
not_loaded : view little small 4 zeroed none (9 ∷ []) ≡ ok (1, 9 ∷ [])
unfolding view bmp2fb_pixmap
not_loaded = refl
