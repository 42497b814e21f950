-- ===== src/Fbview/Png/Laws.antt =====
-- What `png2fb_pixmap` returns, and what it leaves.
use tcb.Base.{
  ℕ, ◌*◌, ◌%◌, ◌^◌, ◌<◌, ◌≡◌, ◌≢◌, refl, ap, ap₂, ◌∙◌, Bool, true, false, Option, none, some, Res,
  ok, >>=-eq-ok, ok-injective, subst, not, if◌then◌else◌, ◌>>=◌, length, inl, inr, ◌⊎◌,
}
use tcb.Base.Int.{ℤ, pos, negsuc}
use native.Mathlib.Nat.{mod-eq_of_lt}
use tcb.Base.Memory.{Memory}
use tcb.Fbview.Pixel.At.{IsFormat}
use tcb.Fbview.Rotate.{Pixmap}
use tcb.Fbview.Sizes.{int, int_ok}
use tcb.Fbview.Raster.{raster_rows}
use tcb.Fbview.Samples.{Image, set_samples}
use tcb.Fbview.Samples.Laws.{IsRgb, HasSamples, samples_ok}
use tcb.Fbview.Png.{Libpng, PngOutcome, ended, filled, read_png, png2fb_pixmap}

-- An image that libpng reads, of rows of RGB samples and of less than 2¹⁶ columns and rows, whose bytes do not overflow an `int`, comes into a
-- new pixmap of one or two bytes a pixel as it is: 0 is returned, the file and the structs of libpng
-- are released, and each pixel has the three samples of its place, with the bits that the format
-- keeps.
pub png2fb_pixmap-HasSamples :
    (png : Libpng) (size : ℕ) (malloc : ℕ → Option Memory) (image : Image) (new : Memory)
    → IsFormat size
    → (png.opens ≡ true) × (png.read_struct ≡ true) × (png.info_struct ≡ true)
    → png.image ≡ some image
    → IsRgb image
    → image.width < 2 ^ 16
    → image.height < 2 ^ 16
    → image.width * image.height * size < 2 ^ 31
    → malloc (image.width * image.height * size) ≡ some new
    → length new ≡ image.width * image.height * size
    → (q : Pixmap) × (png2fb_pixmap png size malloc
        ≡ ok (record { status = pos 0; file_left = false; structs_left = false; pixmap = some q }))
      × HasSamples size image q
unfolding png2fb_pixmap
png2fb_pixmap-HasSamples png size malloc image new v made read rgb wide high small gives same =
    let mw : image.width % 2 ^ 16 ≡ image.width = mod-eq_of_lt wide in
    let mh : image.height % 2 ^ 16 ≡ image.height = mod-eq_of_lt high in
    let all = samples_ok size image v rgb new same in
    let bytes : image.width % 2 ^ 16 * (image.height % 2 ^ 16) * size
        ≡ image.width * image.height * size =
      ap₂ (λ s t. s * t * size) mw mh in
    let sized = ap int bytes ∙ int_ok (image.width * image.height * size) small in
    let fills = ap₂ (λ s t. raster_rows (set_samples size s image.rows) s t 0 new) mw mh ∙ all.1 in
    (
      record { memory = all.0; w = image.width; h = image.height },
      rw (made.0, made.1, made.2, read, sized, ◌>>=◌, gives, filled, fills, ◌>>=◌, mw, mh),
      record { same_width = refl; same_height = refl; same_length = all.2; pixels = all.3 },
    )

-- What an ending leaves: 0 with a pixmap or another number without one, and the file closed. The
-- structs are left where the pixmap found no memory, and nowhere else.
pub record IsSettled (png : Libpng) (size : ℕ) (malloc : ℕ → Option Memory) (o : PngOutcome)
    : Type 0 where
  pub file_closed : o.file_left ≡ false
  pub by_status :
      ((o.status ≡ pos 0) × (o.pixmap ≢ none)) ⊎ ((o.status ≢ pos 0) × (o.pixmap ≡ none))
  pub structs : o.structs_left ≡ true → (o.status ≡ negsuc 0) × (png.image ≢ none)

module _ (png : Libpng) (size : ℕ) (malloc : ℕ → Option Memory) where
  -- What holds of every ending.
  abbrev Settles : Res PngOutcome → Type 0
  Settles r = (o : PngOutcome) → r ≡ ok o → IsSettled png size malloc o

  if-Settles :
      (b : Bool) (r s : Res PngOutcome) → Settles r → Settles s → Settles (if b then r else s)
  if-Settles true r s h k = h
  if-Settles false r s h k = k

  ended-Settles : (z : ℤ) → z ≢ pos 0 → Settles (ok (ended z))
  ended-Settles z ne o e =
      subst (IsSettled png size malloc) (ok-injective e)
        (record { file_closed = refl; by_status = inr (ne, refl); structs = λ bad. cc })

  filled-Settles :
      (image : Image) → png.image ≡ some image → (m : Option Memory) → Settles (filled size image m)
  filled-Settles image e none o came =
      subst (IsSettled png size malloc) (ok-injective came) (record {
        file_closed = refl;
        by_status = inr (λ e. cc, refl);
        structs = λ _. (refl, λ bad. cc);
      })
  filled-Settles image e (some new) o came =
      let all =
        >>=-eq-ok
          (raster_rows (set_samples size (image.width % 2 ^ 16) image.rows) (image.width % 2 ^ 16)
            (image.height % 2 ^ 16) 0 new)
          _ came in
      subst (IsSettled png size malloc) (ok-injective all.2)
        (record { file_closed = refl; by_status = inl (refl, λ e. cc); structs = λ bad. cc })

  read-Settles : (i : Option Image) → png.image ≡ i → Settles (read_png size malloc i)
  read-Settles none e o came = ended-Settles (negsuc 0) (λ e. cc) o came
  read-Settles (some image) e o came =
      let (bytes, _, fills) =
        >>=-eq-ok (int (image.width % 2 ^ 16 * (image.height % 2 ^ 16) * size)) _ came in
      filled-Settles image e (malloc bytes) o fills

-- On every ending of `png2fb_pixmap` the file is closed, and it returns 0 with a pixmap or another number
-- without one. The structs of libpng are left only where it returns -1 for an image that was read.
pub png2fb_pixmap-IsSettled :
    (png : Libpng) (size : ℕ) (malloc : ℕ → Option Memory) (o : PngOutcome)
    → png2fb_pixmap png size malloc ≡ ok o
    → IsSettled png size malloc o
unfolding png2fb_pixmap
png2fb_pixmap-IsSettled png size malloc =
    if-Settles png size malloc (not png.opens) _ _ (ended-Settles png size malloc (pos 1) (λ e. cc))
      (if-Settles png size malloc (not png.read_struct) _ _
        (ended-Settles png size malloc (negsuc 0) (λ e. cc))
        (if-Settles png size malloc (not png.info_struct) _ _
          (ended-Settles png size malloc (pos 1) (λ e. cc))
          (read-Settles png size malloc png.image refl)))
