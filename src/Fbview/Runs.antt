-- ===== src/Fbview/Runs.antt =====
-- The theorems on whole images and on main at inputs.
use tcb.Base.{
  ℕ, zero, suc, ◌+◌, ◌-◌, ◌*◌, ◌/◌, ◌%◌, ◌<◌, ◌≡◌, refl, inl, inr, true, false, Option, none, some,
  List, [], ◌∷◌, ok, ◌>>=◌, length, get_or, ◌≤◌, replicate, ltb, ◌==◌, arith,
}
use tcb.Base.Int.{pos, up}
use tcb.Base.Text.{codes, str_eq}
use tcb.Base.Memory.{Memory}
use tcb.Fbview.Pixel.{fb_get_pixel}
use tcb.Fbview.Pixel.At.{rounded}
use tcb.Fbview.Rotate.{Pixmap, unread}
use tcb.Fbview.Scale.{Float, fb_pixmap_scale}
use tcb.Fbview.Scale.Laws.{IsSampling, wanted, fb_pixmap_scale-wanted}
use tcb.Fbview.Samples.{Image}
use tcb.Fbview.Samples.Laws.{IsRgb, HasSamples, row_of}
use tcb.Fbview.Jpeg.{Libjpeg, jpeg2fb_pixmap}
use tcb.Fbview.Jpeg.Laws.{jpeg2fb_pixmap-HasSamples}
use tcb.Fbview.Png.{Libpng, png2fb_pixmap}
use tcb.Fbview.Png.Laws.{png2fb_pixmap-HasSamples}
use tcb.Fbview.Palette.{
  Palette, PaletteAnswers, Device, State, generate_palette, fb_init, fb_uninit,
}
use tcb.Fbview.Palette.Arrays.{
  Answers, AreGiven, arrays, alloc_palette, get_palette, set_palette, set_palette-get_palette,
}
use tcb.Fbview.Params.{Config, bmp2fb_pixmap, decode_params, extension, codec_of, decode_loop}
use tcb.Fbview.Bmp.{little}
use tcb.Fbview.Bmp.Reader
use tcb.Fbview.Bmp.Writer.{working, fb_pixmap2bmp}
use tcb.Fbview.Bmp.Pixels.{IsPixel}
use tcb.Fbview.Bmp.Rows.{IsPixmap}
use tcb.Fbview.Bmp.Laws.{bmp2fb_pixmap-fb_pixmap2bmp}
use tcb.Fbview.View.{Shows}
use tcb.Fbview.Player.{Key, right, down, other, escape, bitmap_play}
use tcb.Fbview.Player.Laws.{bitmap_play_inside}
use tcb.Fbview.Main
use tcb.Fbview.Main.{World, Left, screen_of, load}
use tcb.Fbview.Main.Laws.{IsUntouched, main-IsUntouched}
use tcb.Fbview.Main.Shows.{main-Shows}

-- Whole numbers for floats.
abbrev whole : Float ℕ
whole = record {
  of_int = up;
  add = λ a b. a + b;
  sub = λ a b. a - b;
  mul = λ a b. a * b;
  div = λ a b. a / b;
  floor = λ a. a;
  to_word = λ a. a;
  to_byte = λ a. a % 256;
}

abbrev zeroed : ℕ → Option Memory
zeroed n = some (replicate n 0)

-- Two pixels of two bytes, doubled.
abbrev pair : Pixmap
pair = record { memory = 31 ∷ 128 ∷ 224 ∷ 131 ∷ []; w = 2; h = 1 }

doubled : (size : ℕ) → IsSampling whole 2 size
doubled size = record { in_range = λ i h. omega (arith, h); byte = λ f. omega arith }

fb_pixmap_scale-wanted_example :
    (q : Pixmap) × (fb_pixmap_scale whole 2 zeroed pair 2 ≡ ok q)
    × (q.w ≡ 4)
    × (q.h ≡ 2)
    × (length q.memory ≡ q.w * q.h * 2)
    × ((i j : ℕ)
        → i < q.w
        → j < q.h
        → fb_get_pixel 2 q.memory ((i + j * q.w) * 2) unread
          ≡ ok (rounded 2 (wanted whole 2 pair 2 i j)))
fb_pixmap_scale-wanted_example =
    fb_pixmap_scale-wanted whole 2 pair 2 zeroed (replicate 16 0) unread (inr refl) (omega arith)
      (omega arith) (omega arith) (doubled 2) (doubled 1) refl refl

-- An image of two pixels.
abbrev image : Image
image = record { width = 2; height = 1; rows = (255 ∷ 0 ∷ 8 ∷ 16 ∷ 99 ∷ 3 ∷ []) ∷ [] }

image-IsRgb : IsRgb image
image-IsRgb = record { all_rows = refl; long_rows = long; bytes = bytes }
  where
    long : (j : ℕ) → j < 1 → 2 * 3 ≤ length (row_of image j)
    long zero h = omega arith
    long (suc j) h = absurd (omega (arith, h))

    bytes : (j k : ℕ) → j < 1 → get_or (row_of image j) k 0 < 256
    bytes zero zero h = omega arith
    bytes zero (suc zero) h = omega arith
    bytes zero (suc (suc zero)) h = omega arith
    bytes zero (suc (suc (suc zero))) h = omega arith
    bytes zero (suc (suc (suc (suc zero)))) h = omega arith
    bytes zero (suc (suc (suc (suc (suc zero))))) h = omega arith
    bytes zero (suc (suc (suc (suc (suc (suc k)))))) h = omega arith
    bytes (suc j) k h = absurd (omega (arith, h))

abbrev jpeg : Libjpeg
jpeg = record { opens = true; image = some image; finishes = λ n. n == 1 }

jpeg2fb_pixmap-HasSamples_example :
    (q : Pixmap) × (jpeg2fb_pixmap jpeg 2 zeroed ≡ ok (0, some q)) × HasSamples 2 image q
jpeg2fb_pixmap-HasSamples_example =
    jpeg2fb_pixmap-HasSamples jpeg 2 zeroed image (replicate 4 0) (inr refl) refl refl refl
      image-IsRgb (omega arith) (omega arith) (omega arith) refl refl

abbrev png : Libpng
png = record { opens = true; read_struct = true; info_struct = true; image = some image }

png_loaded :
    (q : Pixmap) × (png2fb_pixmap png 1 zeroed
      ≡ ok (record { status = pos 0; file_left = false; structs_left = false; pixmap = some q }))
    × HasSamples 1 image q
png_loaded =
    png2fb_pixmap-HasSamples png 1 zeroed image (replicate 2 0) (inl refl) (refl, refl, refl) refl
      image-IsRgb (omega arith) (omega arith) (omega arith) refl refl

-- Two colours.
abbrev answers : Answers
answers = record {
  r = some (7 ∷ 7 ∷ []);
  g = some (7 ∷ 7 ∷ []);
  b = some (7 ∷ 7 ∷ []);
  t = some (7 ∷ 7 ∷ []);
  ioctl = true;
}

answers-AreGiven : AreGiven answers 2
answers-AreGiven = record {
  red = 7 ∷ 7 ∷ [];
  green = 7 ∷ 7 ∷ [];
  blue = 7 ∷ 7 ∷ [];
  gives_red = refl;
  gives_green = refl;
  gives_blue = refl;
  red_length = refl;
  green_length = refl;
  blue_length = refl;
  succeeds = refl;
}

set_palette-get_palette_example :
    (get_palette 2 answers (alloc_palette answers) (arrays (1 ∷ 2 ∷ []) (3 ∷ 4 ∷ []) (5 ∷ 6 ∷ []))
      >>= λ pal. set_palette 2 answers pal (arrays [] [] []))
    ≡ ok (arrays (1 ∷ 2 ∷ []) (3 ∷ 4 ∷ []) (5 ∷ 6 ∷ []))
set_palette-get_palette_example =
    set_palette-get_palette answers answers answers (1 ∷ 2 ∷ []) (3 ∷ 4 ∷ []) (5 ∷ 6 ∷ [])
      (arrays [] [] []) answers-AreGiven answers-AreGiven answers-AreGiven refl refl

abbrev willing : PaletteAnswers
willing = record {
  allocated = true;
  got = true;
  uninitialized = record { red = λ a. 3; green = λ a. 3; blue = λ a. 3 };
  put = true;
  allocated_last = true;
  put_last = true;
}

-- A console of 2 by 2 with a byte a pixel, and a bitmap of a row of three pixels.
abbrev console : Device
console = record {
  descriptor = 3;
  get_screeninfo = true;
  put_screeninfo = true;
  mapped = true;
  xres = 2;
  yres = 2;
  bits_per_pixel = 8;
  palettes = willing;
}

abbrev grey : Palette
grey = record { red = λ a. a; green = λ a. a; blue = λ a. a }

abbrev closed : State
closed = record {
  pixelsize = 2;
  buffer_size = 0;
  have_cmap = false;
  old_palette = none;
  fb_xres = 0;
  fb_yres = 0;
  fb_line_size = 0;
  cmap = grey;
  is_open = false;
  is_mapped = false;
}

abbrev opened : State
opened = record {
  pixelsize = 1;
  buffer_size = 4;
  have_cmap = true;
  old_palette = some grey;
  fb_xres = 2;
  fb_yres = 2;
  fb_line_size = 2;
  cmap = generate_palette 8;
  is_open = true;
  is_mapped = true;
}

begins : fb_init console closed ≡ ok (0, opened)
unfolding fb_init
begins = refl

abbrev row : Memory
row = 7 ∷ 8 ∷ 255 ∷ []

row-IsPixmap : IsPixmap 1 3 1 row
row-IsPixmap = record {
  some_bytes = omega arith;
  few_bytes = omega arith;
  width = omega arith;
  height = omega arith;
  size = omega arith;
  same_length = refl;
  pixels = by_pixel;
}
  where
    by_pixel : (i : ℕ) → i < 1 * 3 → IsPixel 1 row (i * 1)
    by_pixel zero h = inl (refl, omega arith)
    by_pixel (suc zero) h = inl (refl, omega arith)
    by_pixel (suc (suc zero)) h = inl (refl, omega arith)
    by_pixel (suc (suc (suc i))) h = absurd (omega (arith, h))

written :
    (file : List ℕ) × (fb_pixmap2bmp little working 1 row 3 1 ≡ ok (pos 0, some file))
    × (Reader.bmp2fb_pixmap little 1 zeroed (some file)
        ≡ ok (some (record { memory = row; w = 3; h = 1 })))
written =
    bmp2fb_pixmap-fb_pixmap2bmp little 1 3 1 row (0 ∷ 0 ∷ 0 ∷ []) zeroed row-IsPixmap refl refl

-- Any name is that of the bitmap, or of none.
abbrev world : Option (List ℕ) → World ℕ
world file = record {
  libc = record { atof = λ s. 1; is_out = λ f. false; atoi = λ s. 0; malloc = λ n. true };
  float = whole;
  is_one = λ f. f == 1;
  gt = λ a b. ltb b a;
  order = little;
  device = console;
  malloc = zeroed;
  file = λ s. file;
  jpeg = λ s. jpeg;
  disk = working;
}

abbrev defaults : Config ℕ
defaults = record {
  filename = none;
  dump_filename = none;
  quiet = false;
  scale = 1;
  rotate = 0;
  autoscale = false;
}

abbrev chosen : Config ℕ
chosen = record defaults { filename = some (codes "a.bmp") }

decoded :
    (file : Option (List ℕ))
    → decode_params (world file).libc (codes "a.bmp" ∷ []) defaults ≡ some (chosen, bmp2fb_pixmap)
unfolding decode_params extension codec_of str_eq decode_loop
decoded file = refl

main-Shows_example :
    (left : Left) × (Main.main
        (world (some written.0))
        (codes "a.bmp" ∷ [])
        defaults
        closed
        (9 ∷ 9 ∷ 9 ∷ 9 ∷ [])
      ≡ ok (0, left))
    × Shows (screen_of opened) row 3 1 left.screen
main-Shows_example =
    main-Shows (world (some written.0)) (codes "a.bmp" ∷ []) defaults chosen (codes "a.bmp") closed
      opened 3 1 row (0 ∷ 0 ∷ 0 ∷ []) (9 ∷ 9 ∷ 9 ∷ 9 ∷ []) written.0 (decoded (some written.0))
      (record {
        named = refl;
        not_dumped = refl;
        not_quiet = refl;
        not_scaled = refl;
        not_rotated = refl;
        not_fitted = refl;
      })
      begins row-IsPixmap refl refl (omega arith) (omega arith) written.1 refl

abbrev after_error : Left
after_error = record {
  state = record opened { cmap = grey; old_palette = none; is_open = false; is_mapped = false };
  screen = 9 ∷ 9 ∷ [];
  dump = none;
}

ends_with_1 :
    Main.main (world none) (codes "a.bmp" ∷ []) defaults closed (9 ∷ 9 ∷ []) ≡ ok (1, after_error)
unfolding Main.main fb_init fb_uninit load Reader.bmp2fb_pixmap decode_params extension codec_of
    str_eq decode_loop
ends_with_1 = refl

main-IsUntouched_example : IsUntouched closed (9 ∷ 9 ∷ []) after_error
main-IsUntouched_example =
    main-IsUntouched (world none) (codes "a.bmp" ∷ []) defaults closed (9 ∷ 9 ∷ []) 0 after_error
      (refl, refl, refl) (omega arith)
      (record { allocated = refl; got = refl; allocated_last = refl; put_last = refl }) ends_with_1

-- A bitmap of three by three.
abbrev square : Memory
square = 1 ∷ 2 ∷ 3 ∷ 4 ∷ 5 ∷ 6 ∷ 7 ∷ 8 ∷ 9 ∷ []

abbrev pressed : List Key
pressed = right ∷ down ∷ other ∷ escape ∷ []

bitmap_play_inside_example :
    (after : Memory) × (bitmap_play (screen_of opened) square 3 3 4 pressed (9 ∷ 9 ∷ 9 ∷ 9 ∷ [])
      ≡ ok after)
    × (length after ≡ 4)
bitmap_play_inside_example =
    bitmap_play_inside (screen_of opened) square 3 3 4 pressed (9 ∷ 9 ∷ 9 ∷ 9 ∷ [])
      (record {
        wide = (omega arith, omega arith);
        high = (omega arith, omega arith);
        words = (omega arith, omega arith);
        whole = omega arith;
      })
      tt (omega arith) (omega arith)
