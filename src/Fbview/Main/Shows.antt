-- ===== src/Fbview/Main/Shows.antt =====
-- A bitmap that fbview has saved, shown by `main`.
use tcb.Base.{
  ℕ, ◌*◌, ◌≤◌, ◌≡◌, true, false, Option, none, some, List, Res, ok, ◌>>=◌, length, ap, ◌∙◌, sym,
  >>=-eq-ok, ok-injective,
}
use tcb.Base.Int.{ℤ, pos}
use tcb.Base.Text.{Str}
use tcb.Base.Memory.{Memory}
use tcb.Fbview.Rotate.{Pixmap, fb_pixmap_rotate}
use tcb.Fbview.Params.{Config, bmp2fb_pixmap, decode_params}
use tcb.Fbview.Palette.{State, fb_init}
use tcb.Fbview.Bmp.Reader
use tcb.Fbview.Bmp.Rows.{IsPixmap}
use tcb.Fbview.Bmp.Writer.{working, fb_pixmap2bmp}
use tcb.Fbview.Bmp.Laws.{bmp2fb_pixmap-fb_pixmap2bmp}
use tcb.Fbview.View.{fb_clear_screen, show_image, Shows, show_image-Shows}
use tcb.Fbview.Main.{World, Left, screen_of, load, show, manipulate, save, main}

-- Options that leave the image as it is.
pub record IsPlain {F : Type 0} (w : World F) (c : Config F) (name : Str) : Type 0 where
  pub named : c.filename ≡ some name
  pub not_dumped : c.dump_filename ≡ none
  pub not_quiet : c.quiet ≡ false
  pub not_scaled : w.is_one c.scale ≡ true
  pub not_rotated : c.rotate ≡ 0
  pub not_fitted : c.autoscale ≡ false

module _ {F : Type 0} (w : World F) (c : Config F) (name : Str) (plain : IsPlain w c name) where
  manipulate_same : (s : State) (p : Pixmap) → manipulate w c s p ≡ ok p
  unfolding manipulate fb_pixmap_rotate
  manipulate_same s p = rw (plain.not_fitted, plain.not_scaled, plain.not_rotated)

  save-none : (s : State) (p : Pixmap) → save w c s p ≡ ok none
  unfolding save
  save-none s p = rw plain.not_dumped

  show_plain :
      (s : State) (p : Pixmap) (screen after : Memory)
      → show_image (screen_of s) s.buffer_size p screen ≡ ok after
      → show w c s screen p ≡ ok (0, record { state = s; screen = after; dump = none })
  unfolding show show_image
  show_plain s p screen after e =
      let cleared = >>=-eq-ok (fb_clear_screen s.buffer_size screen) _ e in
      rw (manipulate_same s p, ◌>>=◌, save-none s p, ◌>>=◌, cleared.1, ◌>>=◌, cleared.2, ◌>>=◌)

  load_named :
      (s : State) (file : List ℕ) (loaded : Res (Option Pixmap))
      → w.file name ≡ some file
      → Reader.bmp2fb_pixmap w.order s.pixelsize w.malloc (some file) ≡ loaded
      → load w bmp2fb_pixmap s.pixelsize c.filename ≡ loaded
  unfolding load
  load_named s file loaded there e = rw (plain.named, there) e

file_eq : {a b : ℤ} {f g : List ℕ} → ◌≡◌ {A = ℤ × Option (List ℕ)} (a, some f) (b, some g) → f ≡ g
file_eq e = cc

-- An image that is saved as a bitmap is shown as it was: with options that name the file and change
-- nothing else, and a device that `fb_init` opens, `main` returns 0, and byte `k` of row `j` of the
-- screen is byte `k` of row `j` of the image that `fb_pixmap2bmp` has written to the file, for as many
-- rows and bytes of a row as both have. The image is as for the round trip of `fb_pixmap2bmp`, and the
-- screen has the bytes of its rows and those that are cleared.
pub main-Shows :
    {F : Type 0} (w : World F) (args : List Str) (c0 c : Config F) (name : Str) (s s1 : State)
    (width height : ℕ) (source fresh screen : Memory) (file : List ℕ)
    → decode_params w.libc args c0 ≡ some (c, bmp2fb_pixmap)
    → IsPlain w c name
    → fb_init w.device s ≡ ok (0, s1)
    → IsPixmap s1.pixelsize width height source
    → w.malloc (height * width * s1.pixelsize) ≡ some fresh
    → length fresh ≡ length source
    → s1.fb_yres * (s1.fb_xres * s1.pixelsize) ≤ length screen
    → s1.buffer_size ≤ length screen
    → fb_pixmap2bmp w.order working s1.pixelsize source width height ≡ ok (pos 0, some file)
    → w.file name ≡ some file
    → (left : Left) × (main w args c0 s screen ≡ ok (0, left))
      × Shows (screen_of s1) source width height left.screen
unfolding main
main-Shows w args c0 c name s s1 width height source fresh screen file options plain begins v gives
      same fits whole saved there =
    let trip =
      bmp2fb_pixmap-fb_pixmap2bmp w.order s1.pixelsize width height source fresh w.malloc v gives
        same in
    let image : Pixmap = record { memory = source; w = width; h = height } in
    let shown =
      show_image-Shows (screen_of s1) s1.buffer_size width height source screen v fits whole in
    let written : trip.0 ≡ file = file_eq (ok-injective (sym trip.1 ∙ saved)) in
    let loads =
      ap (λ f. Reader.bmp2fb_pixmap w.order s1.pixelsize w.malloc (some f)) (sym written)
      ∙ trip.2 in
    (
      record { state = s1; screen = shown.0; dump = none },
      rw (
        options,
        plain.not_quiet,
        begins,
        ◌>>=◌,
        load_named w c name plain s1 file _ there loads,
        ◌>>=◌,
        show_plain w c name plain s1 image screen shown.0 shown.1,
      ),
      shown.2,
    )
