-- ===== src/Fbview/Palette.antt =====
-- The palettes of framebuffer.c: `generate_palette`, and how `fb_init` and `fb_uninit` change the
-- palette of the device. A component of a palette is a function from the index of a colour.
pub mod Laws
pub mod Arrays
use tcb.Base.{
  ℕ, ◌+◌, ◌*◌, ◌/◌, ◌%◌, ◌^◌, Bool, true, false, not, Option, none, some, Res, ok, fault, within,
  ◌>>=◌, ◌>>◌, ltb, ◌==◌, if◌then◌else◌,
}

-- `struct palette`; it has `1 << bits_per_pixel` colours.
pub record Palette : Type 0 where
  pub red : ℕ → ℕ
  pub green : ℕ → ℕ
  pub blue : ℕ → ℕ

abbrev palette_4 : Palette
palette_4 = record {
  red = λ a. if a / 8 % 2 == 0 then 0 else 65535;
  green = λ a. a / 2 % 4 * (65535 / 3);
  blue = λ a. if a % 2 == 0 then 0 else 65535;
}

abbrev palette_8 : Palette
palette_8 = record {
  red = λ a. a / 32 % 8 * (65535 / 7);
  green = λ a. a / 4 % 8 * (65535 / 7);
  blue = λ a. a % 4 * (65535 / 3);
}

abbrev palette_16 : Palette
palette_16 = record {
  red = λ a. a % 32 * 255 / 31 * 257;
  green = λ a. a % 32 * 255 / 31 * 257;
  blue = λ a. a % 32 * 255 / 31 * 257;
}

abbrev palette_24 : Palette
palette_24 = record {
  red = λ a. a % 32 * 255 / 32 * 257;
  green = λ a. a % 64 * 255 / 64 * 257;
  blue = λ a. a % 32 * 255 / 32 * 257;
}

-- `a * 257` is cut to an `unsigned short`.
abbrev palette_other : Palette
palette_other = record {
  red = λ a. a * 257 % 2 ^ 16;
  green = λ a. a * 257 % 2 ^ 16;
  blue = λ a. a * 257 % 2 ^ 16;
}

-- `generate_palette`
unfoldable pub generate_palette : ℕ → Palette
generate_palette bits_per_pixel =
    if bits_per_pixel == 4
    then palette_4
    else if bits_per_pixel == 8
    then palette_8
    else if bits_per_pixel == 16
    then palette_16
    else if bits_per_pixel == 24
    then palette_24
    else palette_other

-- What the calls for the palettes answer. Of `fb_init`: whether `malloc` gives every array of a
-- component, those of the two palettes and of the copies for the device; whether FBIOGETCMAP succeeds,
-- and what is in the new arrays that it fills; whether FBIOPUTCMAP does. Of `fb_uninit`: whether
-- `malloc` gives the arrays, and FBIOPUTCMAP succeeds. No answer is looked at; the loops go through a
-- null pointer. The fourth array, `t`, is only handed to the device.
pub record PaletteAnswers : Type 0 where
  pub allocated : Bool
  pub got : Bool
  pub uninitialized : Palette
  pub put : Bool
  pub allocated_last : Bool
  pub put_last : Bool

-- What the device answers: `open` (0 is taken for a failure), the two calls that read and set the
-- screen, `mmap`, and those for the palettes; and what the first of them reads.
pub record Device : Type 0 where
  pub descriptor : ℕ
  pub get_screeninfo : Bool
  pub put_screeninfo : Bool
  pub mapped : Bool
  pub xres : ℕ
  pub yres : ℕ
  pub bits_per_pixel : ℕ
  pub palettes : PaletteAnswers

-- The globals that `fb_init` sets, and the palette and the descriptor of the device.
pub record State : Type 0 where
  pub pixelsize : ℕ
  pub buffer_size : ℕ
  pub have_cmap : Bool
  pub old_palette : Option Palette
  pub fb_xres : ℕ
  pub fb_yres : ℕ
  pub fb_line_size : ℕ
  pub cmap : Palette
  pub is_open : Bool
  pub is_mapped : Bool

-- The switch on the format.
abbrev pub pixelsize_of : ℕ → Option ℕ
pixelsize_of bits =
    if bits == 4
    then some 1
    else if bits == 8
    then some 1
    else if bits == 5
    then some 2
    else if bits == 15
    then some 2
    else if bits == 16
    then some 2
    else if bits == 24
    then some 3
    else if bits == 32
    then some 4
    else none

-- The palettes are allocated, the old one is read and the generated one set. `1<<bits_per_pixel` is
-- undefined from 31 bits on, and below is 1 at least, so that a null array is always gone through.
-- Palette/Arrays has the functions on the arrays.
abbrev pub change_palette : Device → State → Res State
change_palette d s =
    if ltb d.bits_per_pixel (2 ^ 24)
    then (do
      within (ltb d.bits_per_pixel 31)
      within d.palettes.allocated
      ok (record s {
        have_cmap = true;
        old_palette = some (if d.palettes.got then s.cmap else d.palettes.uninitialized);
        cmap = if d.palettes.put then generate_palette d.bits_per_pixel else s.cmap;
      }))
    else ok s

-- `fb_init` from the switch on.
abbrev pub init_format : Device → Option ℕ → State → Res (ℕ × State)
init_format d none s = ok (3, s)
init_format d (some pixelsize) s =
    let size = d.xres * d.yres % 2 ^ 32 * d.bits_per_pixel % 2 ^ 32 / 8 in
    let s1 = record s { pixelsize = pixelsize; buffer_size = size } in
    if not d.mapped then ok (4, record s1 { is_open = false }) else (do
      s2 ← change_palette d (record s1 { is_mapped = true })
      ok (
        0,
        record s2 {
          fb_xres = d.xres % 2 ^ 16;
          fb_yres = d.yres % 2 ^ 16;
          fb_line_size = d.xres * pixelsize % 2 ^ 32;
        },
      ))

-- `fb_init`: what it returns, and the state.
unfoldable pub fb_init : Device → State → Res (ℕ × State)
unfolding generate_palette
fb_init d s =
    if d.descriptor == 0
    then ok (1, s)
    else if not d.get_screeninfo
    then ok (2, s)
    else if not d.put_screeninfo
    then ok (3, s)
    else init_format d (pixelsize_of d.bits_per_pixel) (record s { is_open = true })

-- The old palette is freed with it, so a second call would read freed memory.
abbrev pub restore : PaletteAnswers → Bool → Option Palette → State → Res State
restore a true (some old) s = do
  within a.allocated_last
  ok (record s { cmap = if a.put_last then old else s.cmap; old_palette = none })
restore a true none s = fault
restore a false old s = ok s

-- `fb_uninit`
unfoldable pub fb_uninit : Device → State → Res State
fb_uninit d s = do
  s1 ← restore d.palettes s.have_cmap s.old_palette (record s { is_mapped = false })
  ok (record s1 { is_open = false })
