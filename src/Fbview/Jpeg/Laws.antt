-- ===== src/Fbview/Jpeg/Laws.antt =====
-- What `jpeg2fb_pixmap` returns, for images and for errors.
use tcb.Base.{
  ℕ, ◌*◌, ◌%◌, ◌^◌, ◌<◌, ◌≡◌, refl, ap, ap₂, ◌∙◌, true, false, Option, none, some, ok, fault, ◌>>=◌,
  length, inl, inr, ◌⊎◌,
}
use native.Mathlib.Nat.{mod-eq_of_lt}
use tcb.Base.Memory.{Memory}
use tcb.Fbview.Pixel.At.{IsFormat}
use tcb.Fbview.Rotate.{Pixmap}
use tcb.Fbview.Sizes.{int, int_ok}
use tcb.Fbview.Raster.{raster_rows}
use tcb.Fbview.Samples.{Image, set_samples}
use tcb.Fbview.Samples.Laws.{IsRgb, HasSamples, samples_ok}
use tcb.Fbview.Jpeg.{Libjpeg, jpeg_filled, jpeg2fb_pixmap}

-- An image that libjpeg reads to its end, of rows of RGB samples and of less than 2¹⁶ columns and
-- rows, whose bytes do not overflow an `int`, comes into a new pixmap of one or two bytes a pixel as it is: 0 is returned, and each pixel has
-- the three samples of its place, with the bits that the format keeps.
pub jpeg2fb_pixmap-HasSamples :
    (jpeg : Libjpeg) (size : ℕ) (malloc : ℕ → Option Memory) (image : Image) (new : Memory)
    → IsFormat size
    → jpeg.opens ≡ true
    → jpeg.image ≡ some image
    → jpeg.finishes image.height ≡ true
    → IsRgb image
    → image.width < 2 ^ 16
    → image.height < 2 ^ 16
    → image.width * image.height * size < 2 ^ 31
    → malloc (image.width * image.height * size) ≡ some new
    → length new ≡ image.width * image.height * size
    → (q : Pixmap) × (jpeg2fb_pixmap jpeg size malloc ≡ ok (0, some q)) × HasSamples size image q
unfolding jpeg2fb_pixmap
jpeg2fb_pixmap-HasSamples jpeg size malloc image new v opens read ends rgb wide high small gives
      same =
    let mw : image.width % 2 ^ 16 ≡ image.width = mod-eq_of_lt wide in
    let mh : image.height % 2 ^ 16 ≡ image.height = mod-eq_of_lt high in
    let all = samples_ok size image v rgb new same in
    let bytes : image.width % 2 ^ 16 * (image.height % 2 ^ 16) * size
        ≡ image.width * image.height * size =
      ap₂ (λ s t. s * t * size) mw mh in
    let sized = ap int bytes ∙ int_ok (image.width * image.height * size) small in
    let fills =
      ap (λ s. raster_rows (set_samples size s image.rows) image.width image.height 0 new) mw
      ∙ all.1 in
    (
      record { memory = all.0; w = image.width; h = image.height },
      rw (opens, read, ◌>>=◌, sized, ◌>>=◌, gives, jpeg_filled, fills, ◌>>=◌, ends, mw, mh),
      record { same_width = refl; same_height = refl; same_length = all.2; pixels = all.3 },
    )

-- An error of libjpeg is not an error of `jpeg2fb_pixmap`: where the header cannot be read, or where
-- there is no memory for the pixmap and libjpeg takes the early end for an error, the null pointer is
-- called.
pub jpeg2fb_pixmap_fault :
    (jpeg : Libjpeg) (size : ℕ) (malloc : ℕ → Option Memory)
    → jpeg.opens ≡ true
    → jpeg.finishes 0 ≡ false
    → (jpeg.image ≡ none)
      ⊎ ((image : Image) × (jpeg.image ≡ some image)
          × (image.width % 2 ^ 16 * (image.height % 2 ^ 16) * size < 2 ^ 31)
          × (malloc (image.width % 2 ^ 16 * (image.height % 2 ^ 16) * size) ≡ none))
    → jpeg2fb_pixmap jpeg size malloc ≡ fault
unfolding jpeg2fb_pixmap
jpeg2fb_pixmap_fault jpeg size malloc opens early (inl e) = rw (opens, e, ◌>>=◌)
jpeg2fb_pixmap_fault jpeg size malloc opens early (inr e) =
    rw (opens, e.1, ◌>>=◌, int_ok _ e.2, ◌>>=◌, e.3, early)
