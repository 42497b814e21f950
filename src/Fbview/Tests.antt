-- ===== src/Fbview/Tests.antt =====
-- The theorems of the viewer at inputs.
use tcb.Base.{
  ℕ, ◌+◌, ◌-◌, ◌*◌, ◌%◌, ◌^◌, ◌<◌, ◌≡◌, refl, inl, true, false, none, some, [], ◌∷◌, ok, fault,
  ◌>>=◌, length, get_or, replicate, arith,
}
use tcb.Base.Memory.{Memory, memcpy}
use tcb.Fbview.Pixel.{Colour, fb_set_pixel, fb_get_pixel}
use tcb.Fbview.Pixel.Laws.{rounded_8, rounded_16, get-set, get-set_swapped}
use tcb.Fbview.Render.{Screen, fb_pixmap_render, copy_size, rows_shown}
use tcb.Fbview.Render.Laws.{fb_pixmap_render-shown}
use tcb.Fbview.Rotate.{fb_pixmap_rotate}
use tcb.Fbview.Rotate.Laws.{fb_pixmap_rotate_out}
use tcb.Fbview.Params.{Libc, Config, decode_rotate}
use tcb.Fbview.Params.Laws.{decode_rotate_negative}
use tcb.Fbview.Palette.{Palette, PaletteAnswers, Device, State, fb_init}
use tcb.Fbview.Palette.Laws.{
  Restored, Garbage, fb_uninit-Garbage, generate_palette-range, fb_init-Restored, fb_init_32,
}
use tcb.Fbview.Palette.{generate_palette}

abbrev orange : Colour
orange = record { red = 255; green = 130; blue = 70 }

abbrev black : Colour
black = record { red = 0; green = 0; blue = 0 }

get-set_example :
    ((fb_set_pixel 1 (7 ∷ 8 ∷ []) 0 orange >>= λ m. fb_get_pixel 1 m 0 black)
      ≡ ok (rounded_8 orange))
    × ((fb_set_pixel 2 (7 ∷ 8 ∷ []) 0 orange >>= λ m. fb_get_pixel 2 m 0 black)
        ≡ ok (rounded_16 orange))
get-set_example =
    get-set (7 ∷ 8 ∷ []) 0 orange black
      (record { red = omega arith; green = omega arith; blue = omega arith }) (omega arith)

swapped :
    (fb_set_pixel 4 (7 ∷ 8 ∷ 9 ∷ 10 ∷ []) 0 orange >>= λ m. fb_get_pixel 4 m 0 black)
    ≡ ok (record { red = 130; green = 255; blue = 7 })
swapped = get-set_swapped (7 ∷ 8 ∷ 9 ∷ 10 ∷ []) 0 orange black (omega arith)

-- A screen of 2 by 2 and an image of 3 by 2, with pixels of one byte.
abbrev small : Screen
small = record { xres = 2; yres = 2; pixelsize = 1 }

abbrev image : Memory
image = 1 ∷ 2 ∷ 3 ∷ 4 ∷ 5 ∷ 6 ∷ []

rendered_rows :
    (after : Memory) × (fb_pixmap_render small image 3 2 0 0 (replicate 4 0) ≡ ok after)
    × (length after ≡ 4)
    × ((j k : ℕ)
        → j < rows_shown small 2
        → k < copy_size small 3
        → get_or after (j * (2 * 1) + k) 0 ≡ get_or image (0 * (3 * 1) + 0 * 1 + j * (3 * 1) + k) 0)
rendered_rows =
    fb_pixmap_render-shown small image 3 2 0 0 (replicate 4 0) (omega arith) (omega arith)

rendered : fb_pixmap_render small image 3 2 0 0 (replicate 4 0) ≡ ok (1 ∷ 2 ∷ 4 ∷ 5 ∷ [])
unfolding fb_pixmap_render memcpy
rendered = refl

turned_out :
    fb_pixmap_rotate 1 180 (some (replicate 6 0)) (record { memory = image; w = 3; h = 2 }) ≡ fault
turned_out =
    fb_pixmap_rotate_out 1 180 (replicate 6 0) (record { memory = image; w = 3; h = 2 })
      (omega arith, omega arith) (inl refl) (omega arith) (omega arith) refl

-- Every number that is read is -90.
abbrev libc : Libc ℕ
libc = record { atof = λ s. 1; is_out = λ f. false; atoi = λ s. 2 ^ 32 - 90; malloc = λ n. true }

abbrev defaults : Config ℕ
defaults = record {
  filename = none;
  dump_filename = none;
  quiet = false;
  scale = 1;
  rotate = 0;
  autoscale = false;
}

-- -180 becomes 0.
negative_angles : decode_rotate (2 ^ 32 - 180) ≡ some ((180 + 180) % 360)
negative_angles = decode_rotate_negative 180 (omega arith) (omega arith) refl

abbrev willing : PaletteAnswers
willing = record {
  allocated = true;
  got = true;
  uninitialized = record { red = λ a. 3; green = λ a. 3; blue = λ a. 3 };
  put = true;
  allocated_last = true;
  put_last = true;
}

abbrev console : ℕ → Device
console bits = record {
  descriptor = 3;
  get_screeninfo = true;
  put_screeninfo = true;
  mapped = true;
  xres = 640;
  yres = 400;
  bits_per_pixel = bits;
  palettes = willing;
}

abbrev grey : Palette
grey = record { red = λ a. a; green = λ a. a; blue = λ a. a }

abbrev closed : State
closed = record {
  pixelsize = 2;
  buffer_size = 0;
  have_cmap = false;
  old_palette = none;
  fb_xres = 0;
  fb_yres = 0;
  fb_line_size = 0;
  cmap = grey;
  is_open = false;
  is_mapped = false;
}

fb_init-Restored_example : Restored (console 16) closed (fb_init (console 16) closed)
fb_init-Restored_example =
    fb_init-Restored (console 16) closed (refl, refl, refl) (omega arith)
      (record { allocated = refl; got = refl; allocated_last = refl; put_last = refl })

abbrev mute_console : Device
mute_console = record (console 16) { palettes = record willing { got = false } }

mute_console_lem : Garbage mute_console (fb_init mute_console closed)
mute_console_lem =
    fb_uninit-Garbage mute_console closed refl (λ e. absurd (omega (arith, e))) refl refl refl refl
      refl refl refl

deep_console : fb_init (console 32) closed ≡ fault
deep_console = fb_init_32 (console 32) closed refl (λ e. absurd (omega (arith, e))) refl refl refl

palette_in_range :
    let p = generate_palette 8 in
    (p.red 255 < 2 ^ 16)
    × (p.green 255 < 2 ^ 16)
    × (p.blue 255 < 2 ^ 16)
    × (p.red 0 ≡ 0)
    × (p.green 0 ≡ 0)
    × (p.blue 0 ≡ 0)
palette_in_range = generate_palette-range 8 255
