-- ===== src/Fbview/Main.antt =====
-- `main` of fbview.c, in the build without gpm and libpng.
pub mod Laws
pub mod Shows
use tcb.Base.{
  ℕ, zero, suc, ◌*◌, Bool, true, false, not, Option, none, some, List, Res, ok, ◌>>=◌, ◌==◌,
  if◌then◌else◌,
}
use tcb.Base.Text.{Str}
use tcb.Base.Memory.{Memory}
use tcb.Fbview.Render.{Screen, fb_pixmap_render}
use tcb.Fbview.Rotate.{Pixmap, fb_pixmap_rotate}
use tcb.Fbview.Sizes.{int}
use tcb.Fbview.Scale.{Float, of_nat, fb_pixmap_scale}
use tcb.Fbview.Params.{Libc, Config, Codec, bmp2fb_pixmap, jpeg2fb_pixmap, decode_params}
use tcb.Fbview.Palette.{Device, State, fb_init, fb_uninit}
use tcb.Fbview.Bmp.{Order}
use tcb.Fbview.Bmp.Reader
use tcb.Fbview.Bmp.Writer.{Disk, fb_pixmap2bmp}
use tcb.Fbview.Jpeg
use tcb.Fbview.Jpeg.{Libjpeg}
use tcb.Fbview.View.{fb_clear_screen}

-- What is outside: the C library, the floats with `scale == 1.00` and `>`, the device, `malloc` for
-- pixmaps, the files by name, what libjpeg does with them, and the disk for the dump.
pub record World (F : Type 0) : Type 0 where
  pub libc : Libc F
  pub float : Float F
  pub is_one : F → Bool
  pub gt : F → F → Bool
  pub order : Order
  pub device : Device
  pub malloc : ℕ → Option Memory
  pub file : Str → Option (List ℕ)
  pub jpeg : Str → Libjpeg
  pub disk : Disk

-- What `main` leaves: the globals with the palette of the device, the screen, and the dump.
pub record Left : Type 0 where
  pub state : State
  pub screen : Memory
  pub dump : Option (List ℕ)

abbrev pub screen_of : State → Screen
screen_of s = record { xres = s.fb_xres; yres = s.fb_yres; pixelsize = s.pixelsize }

module _ {F : Type 0} (w : World F) where
  -- `(* image_codec)(filename, …)`; `none` is an error or no pixmap.
  unfoldable pub load : Codec → ℕ → Option Str → Res (Option Pixmap)
  load codec pixelsize none = ok none
  load bmp2fb_pixmap pixelsize (some name) =
      Reader.bmp2fb_pixmap w.order pixelsize w.malloc (w.file name)
  load jpeg2fb_pixmap pixelsize (some name) = do
    read ← Jpeg.jpeg2fb_pixmap (w.jpeg name) pixelsize w.malloc
    ok read.1

  -- `autoscale`
  abbrev pub quotient : ℕ → ℕ → F
  quotient a b = w.float.div (of_nat w.float a) (of_nat w.float b)

  abbrev pub fitted : State → Pixmap → F
  fitted s p =
      if w.gt (quotient s.fb_xres s.fb_yres) (quotient p.w p.h)
      then quotient s.fb_yres p.h
      else quotient s.fb_xres p.w

  -- The `malloc` of `fb_pixmap_rotate`, which has none for a rotation by 0.
  abbrev pub rotated_memory : ℕ → ℕ → Res (Option Memory)
  rotated_memory rotate bytes = if rotate == 0 then ok none else (do n ← int bytes; ok (w.malloc n))

  unfoldable pub manipulate : Config F → State → Pixmap → Res Pixmap
  manipulate c s p =
      let scale = if c.autoscale then fitted s p else c.scale in
      (do
        scaled ←
            if w.is_one scale then ok p else fb_pixmap_scale w.float s.pixelsize w.malloc p scale
        new ← rotated_memory c.rotate (scaled.w * scaled.h * s.pixelsize)
        fb_pixmap_rotate s.pixelsize c.rotate new scaled)

  unfoldable pub save : Config F → State → Pixmap → Res (Option (List ℕ))
  save c s p = elim c.dump_filename [
    | none ↦ ok none
    | some name ↦ do
      written ← fb_pixmap2bmp w.order w.disk s.pixelsize p.memory p.w p.h
      ok written.1
  ]

  -- From a loaded image on.
  unfoldable pub show : Config F → State → Memory → Pixmap → Res (ℕ × Left)
  unfolding manipulate save
  show c s screen p = do
    image ← manipulate c s p
    dump ← save c s image
    cleared ← fb_clear_screen s.buffer_size screen
    shown ← fb_pixmap_render (screen_of s) image.memory image.w image.h 0 0 cleared
    ok (0, record { state = s; screen = shown; dump = dump })

  -- The way out without an image.
  abbrev pub give_up : Config F → State → Memory → Res (ℕ × Left)
  give_up c s screen =
      if c.quiet then ok (1, record { state = s; screen = screen; dump = none }) else (do
        s1 ← fb_uninit w.device s
        ok (1, record { state = s1; screen = screen; dump = none }))

  abbrev pub loaded_to : Config F → State → Memory → Option Pixmap → Res (ℕ × Left)
  loaded_to c s screen none = give_up c s screen
  loaded_to c s screen (some p) = show c s screen p

  -- `fb_init` unless quiet.
  abbrev pub init : Bool → State → Res (ℕ × State)
  init true s = ok (0, s)
  init false s = fb_init w.device s

  abbrev pub initialized : Config F → Codec → Memory → ℕ × State → Res (ℕ × Left)
  initialized c codec screen (zero, s) = do
    loaded ← load codec s.pixelsize c.filename
    loaded_to c s screen loaded
  initialized c codec screen (suc e, s) = ok (1, record { state = s; screen = screen; dump = none })

  abbrev pub decoded : State → Memory → Option (Config F × Codec) → Res (ℕ × Left)
  decoded s screen none = ok (1, record { state = s; screen = screen; dump = none })
  decoded s screen (some (c, codec)) = do began ← init c.quiet s; initialized c codec screen began

  -- `main`, of the arguments behind the program's name: what it returns, and what it leaves.
  unfoldable pub main : List Str → Config F → State → Memory → Res (ℕ × Left)
  unfolding load show
  main args c s screen = decoded s screen (decode_params w.libc args c)
