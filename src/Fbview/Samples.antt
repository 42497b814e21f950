-- ===== src/Fbview/Samples.antt =====
-- An image as libpng and libjpeg give it, onto a new pixmap: three samples a pixel, row by row.
pub mod Laws
use tcb.Base.{ℕ, ◌+◌, ◌*◌, List, Res, ok, ◌>>=◌, or_fault, get_elem?}
use tcb.Base.Memory.{Memory, load}
use tcb.Fbview.Pixel.{Colour, fb_set_pixel}

-- Its sizes, and its rows of samples.
pub record Image : Type 0 where
  pub width : ℕ
  pub height : ℕ
  pub rows : List Memory

-- `fb_set_pixel((*fb_pixmap)+((i+j*(*w))*pixelsize), …)`, from row `j`.
unfoldable pub set_samples : ℕ → ℕ → List Memory → ℕ → ℕ → Memory → Res Memory
set_samples pixelsize w rows i j new = do
  row ← or_fault (get_elem? rows j)
  red ← load row (i * 3)
  green ← load row (i * 3 + 1)
  blue ← load row (i * 3 + 2)
  fb_set_pixel pixelsize new ((i + j * w) * pixelsize)
      (record { red = red; green = green; blue = blue })
