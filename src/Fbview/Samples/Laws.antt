-- ===== src/Fbview/Samples/Laws.antt =====
-- The pixmap of an image has its samples.
use tcb.Base.{
  ℕ, ◌+◌, ◌*◌, ◌<◌, ◌≤◌, ◌≡◌, [], ok, ◌>>=◌, get_elem?, get_or, get_elem?-eq-get_or, length, some,
  arith,
}
use tcb.Base.Memory.{Memory, load_ok}
use tcb.Fbview.Pixel.{Colour, fb_get_pixel}
use tcb.Fbview.Pixel.At.{IsFormat, rounded, set_at, HasPixel, pixel_before}
use tcb.Base.Memory.{pixel-lt}
use tcb.Fbview.Raster.{raster_rows}
use tcb.Fbview.Raster.Laws.{raster_ok}
use tcb.Fbview.Rotate.{Pixmap}
use tcb.Fbview.Samples.{Image, set_samples}

abbrev pub row_of : Image → ℕ → Memory
row_of image j = get_or image.rows j []

-- The samples of a pixel.
abbrev pub sampled : Image → ℕ → ℕ → Colour
sampled image i j = record {
  red = get_or (row_of image j) (i * 3) 0;
  green = get_or (row_of image j) (i * 3 + 1) 0;
  blue = get_or (row_of image j) (i * 3 + 2) 0;
}

-- An image of RGB samples: as many rows as its height, each with three bytes for each column.
pub record IsRgb (image : Image) : Type 0 where
  pub all_rows : length image.rows ≡ image.height
  pub long_rows : (j : ℕ) → j < image.height → image.width * 3 ≤ length (row_of image j)
  pub bytes : (j k : ℕ) → j < image.height → get_or (row_of image j) k 0 < 256

module _ (size : ℕ) (image : Image) (v : IsFormat size) (rgb : IsRgb image) where
  set_samples_ok :
      (i j : ℕ) (new : Memory)
      → i < image.width
      → j < image.height
      → image.width * image.height * size ≤ length new
      → (after : Memory) × (set_samples size image.width image.rows i j new ≡ ok after)
        × HasPixel size new ((i + j * image.width) * size) (sampled image i j) after
  unfolding set_samples
  set_samples_ok i j new hi hj h =
      let row = row_of image j in
      let there : get_elem? image.rows j ≡ some row =
        get_elem?-eq-get_or image.rows j [] (omega (arith, hj, rgb.all_rows)) in
      let long = rgb.long_rows j hj in
      let here =
        pixel_before size (i + j * image.width) (image.width * image.height)
          (pixel-lt i j image.width image.height hi hj) in
      let put =
        set_at size new ((i + j * image.width) * size) (sampled image i j) v
          (omega (arith, h, here)) in
      (
        put.0,
        rw (
          there,
          ◌>>=◌,
          load_ok row (i * 3) (omega (arith, long, hi)),
          ◌>>=◌,
          load_ok row (i * 3 + 1) (omega (arith, long, hi)),
          ◌>>=◌,
          load_ok row (i * 3 + 2) (omega (arith, long, hi)),
          ◌>>=◌,
          put.1,
        ),
        put.2,
      )

  pub samples_ok :
      (new : Memory)
      → length new ≡ image.width * image.height * size
      → (after : Memory) × (raster_rows
            (set_samples size image.width image.rows)
            image.width
            image.height
            0
            new
          ≡ ok after)
        × (length after ≡ image.width * image.height * size)
        × ((old : Colour) (i j : ℕ)
            → i < image.width
            → j < image.height
            → fb_get_pixel size after ((i + j * image.width) * size) old
              ≡ ok (rounded size (sampled image i j)))
  samples_ok new same =
      raster_ok size image.width image.height (sampled image)
        (set_samples size image.width image.rows) set_samples_ok
        (λ i j hi hj. record {
          red = rgb.bytes j (i * 3) hj;
          green = rgb.bytes j (i * 3 + 1) hj;
          blue = rgb.bytes j (i * 3 + 2) hj;
        })
        new v same

-- A pixmap with the samples of an image, in a format.
pub record HasSamples (size : ℕ) (image : Image) (q : Pixmap) : Type 0 where
  pub same_width : q.w ≡ image.width
  pub same_height : q.h ≡ image.height
  pub same_length : length q.memory ≡ q.w * q.h * size
  pub pixels :
      (old : Colour) (i j : ℕ)
      → i < q.w
      → j < q.h
      → fb_get_pixel size q.memory ((i + j * q.w) * size) old
        ≡ ok (rounded size (sampled image i j))
