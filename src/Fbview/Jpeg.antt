-- ===== src/Fbview/Jpeg.antt =====
-- `jpeg2fb_pixmap` of ds_jpeg.c. What libjpeg does is a parameter. `my_error_exit` is NULL, so that an
-- error of libjpeg, which goes through it, is a call of the null pointer, and never comes to `setjmp`.
pub mod Laws
use tcb.Base.{
  ℕ, ◌*◌, ◌%◌, ◌^◌, Bool, true, false, Option, none, some, Res, ok, fault, ◌>>=◌, ◌>>◌, within,
  or_fault, if◌then◌else◌, not,
}
use tcb.Base.Memory.{Memory}
use tcb.Fbview.Sizes.{int}
use tcb.Fbview.Rotate.{Pixmap}
use tcb.Fbview.Raster.{raster_rows}
use tcb.Fbview.Samples.{Image, set_samples}

-- Whether the file opens, what is read up to `jpeg_start_decompress` with the scan lines that follow
-- (`none` is an error), and whether `jpeg_finish_decompress` succeeds behind a number of scan lines.
pub record Libjpeg : Type 0 where
  pub opens : Bool
  pub image : Option Image
  pub finishes : ℕ → Bool

-- The loop: `output_width` columns of each scan line, the sizes of the pixmap cut to a Uint16.
abbrev pub jpeg_filled : Libjpeg → ℕ → Image → Option Memory → Res (ℕ × Option Pixmap)
jpeg_filled jpeg pixelsize image none = do within (jpeg.finishes 0); ok (1, none)
jpeg_filled jpeg pixelsize image (some new) =
    let w = image.width % 2 ^ 16 in
    let h = image.height % 2 ^ 16 in
    (do
      memory ← raster_rows (set_samples pixelsize w image.rows) image.width image.height 0 new
      within (jpeg.finishes image.height)
      ok (0, some (record { memory = memory; w = w; h = h })))

-- What is returned, and the pixmap.
unfoldable pub jpeg2fb_pixmap : Libjpeg → ℕ → (ℕ → Option Memory) → Res (ℕ × Option Pixmap)
unfolding set_samples raster_rows
jpeg2fb_pixmap jpeg pixelsize malloc = if not jpeg.opens then ok (1, none) else (do
  image ← or_fault jpeg.image
  bytes ← int (image.width % 2 ^ 16 * (image.height % 2 ^ 16) * pixelsize)
  jpeg_filled jpeg pixelsize image (malloc bytes))
