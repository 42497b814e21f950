-- ===== src/Fbview/Png.antt =====
-- `png2fb_pixmap` of ds_png.c. What libpng does is a parameter.
pub mod Laws
use tcb.Base.{
  ℕ, ◌*◌, ◌%◌, ◌^◌, Bool, true, false, Option, none, some, Res, ok, ◌>>=◌, if◌then◌else◌, not,
}
use tcb.Base.Int.{ℤ, pos, negsuc}
use tcb.Base.Memory.{Memory}
use tcb.Fbview.Rotate.{Pixmap}
use tcb.Fbview.Sizes.{int}
use tcb.Fbview.Raster.{raster_rows}
use tcb.Fbview.Samples.{Image, set_samples}

-- Whether the file opens and the two structs are made, and what is read: `none` is a `longjmp`.
pub record Libpng : Type 0 where
  pub opens : Bool
  pub read_struct : Bool
  pub info_struct : Bool
  pub image : Option Image

-- What is returned, whether the file and the structs of libpng are left, and the pixmap.
pub record PngOutcome : Type 0 where
  pub status : ℤ
  pub file_left : Bool
  pub structs_left : Bool
  pub pixmap : Option Pixmap

abbrev pub ended : ℤ → PngOutcome
ended status = record { status = status; file_left = false; structs_left = false; pixmap = none }

-- From the sizes on; they are cut to a Uint16. The error of `malloc` only closes the file.
abbrev pub filled : ℕ → Image → Option Memory → Res PngOutcome
filled pixelsize image none =
    ok (record { status = negsuc 0; file_left = false; structs_left = true; pixmap = none })
filled pixelsize image (some new) =
    let w = image.width % 2 ^ 16 in
    let h = image.height % 2 ^ 16 in
    (do
      memory ← raster_rows (set_samples pixelsize w image.rows) w h 0 new
      ok (record {
        status = pos 0;
        file_left = false;
        structs_left = false;
        pixmap = some (record { memory = memory; w = w; h = h });
      }))

abbrev pub read_png : ℕ → (ℕ → Option Memory) → Option Image → Res PngOutcome
read_png pixelsize malloc none = ok (ended (negsuc 0))
read_png pixelsize malloc (some image) = do
  bytes ← int (image.width % 2 ^ 16 * (image.height % 2 ^ 16) * pixelsize)
  filled pixelsize image (malloc bytes)

unfoldable pub png2fb_pixmap : Libpng → ℕ → (ℕ → Option Memory) → Res PngOutcome
unfolding set_samples raster_rows
png2fb_pixmap png pixelsize malloc =
    if not png.opens
    then ok (ended (pos 1))
    else if not png.read_struct
    then ok (ended (negsuc 0))
    else if not png.info_struct
    then ok (ended (pos 1))
    else read_png pixelsize malloc png.image
