-- ===== src/Fbview/Bmp/Wraps.antt =====
-- The limit of memory is computed with 32 bits.
use tcb.Base.{ℕ, ◌<◌, arith, ◌≡◌, refl, Option, some, List, [], ◌++◌, fault, ◌∙◌, ◌^◌, drop, true}
use tcb.Base.Memory.{Memory, store}
use tcb.Fbview.Pixel.{fb_set_pixel}
use tcb.Fbview.Bmp.{Order, FileHeader, InfoHeader, put_file_header, put_info_header}
use tcb.Fbview.Bmp.Fields.{IsFileHeader, IsInfoHeader, get_file_header-put, get_info_header-put}
use tcb.Fbview.Bmp.Reader.{read_row, read_rows, accepted, load_pixels, bmp2fb_pixmap}
use tcb.Fbview.Bmp.Laws.{bmp2fb_pixmap-loads}

-- A bitmap of 2^31 by 2 pixels.
abbrev pub huge : ℕ → InfoHeader
huge colours = record {
  bi_size = 0x28;
  bi_width = 2 ^ 31;
  bi_height = 2;
  bi_planes = 1;
  bi_bpp = 24;
  bi_compression = 0;
  bi_data_size = 0;
  bi_pixels_per_meter_x = 0;
  bi_pixels_per_meter_y = 0;
  bi_colour_count = colours;
  bi_colour_used = colours;
}

abbrev pub bitmap_at : ℕ → ℕ → FileHeader
bitmap_at size offset = record {
  bf_type = 0x4d42;
  bf_size = size;
  bf_reserved1 = 0;
  bf_reserved2 = 0;
  bf_data_offset = offset;
}

huge_rows : (file : List ℕ) → read_rows 1 24 (2 ^ 31) 2 [] file ≡ fault
unfolding read_rows read_row fb_set_pixel store
huge_rows file = refl

huge_loads :
    (malloc : ℕ → Option Memory) (file : List ℕ) (size offset colours : ℕ)
    → malloc 0 ≡ some []
    → load_pixels 1 malloc file (bitmap_at size offset) (huge colours) ≡ fault
unfolding load_pixels
huge_loads malloc file size offset colours gives =
    rw (load_pixels, gives, huge_rows (drop offset file)) refl

huge-accepted : (colours : ℕ) → accepted (huge colours) ≡ true
unfolding accepted
huge-accepted colours = refl

-- The size of a bitmap of 2^31 by 2 pixels wraps to 0, so it passes the limit of memory: whatever the
-- rest of the file is, `bmp2fb_pixmap` asks `malloc` for no bytes and, with the empty memory that it
-- may give, writes the first pixel out of it.
pub bmp2fb_pixmap_wraps :
    (order : Order) (size offset colours : ℕ) (pixels : List ℕ) (malloc : ℕ → Option Memory)
    → size < 2 ^ 32
    → offset < 2 ^ 32
    → colours < 2 ^ 32
    → malloc 0 ≡ some []
    → bmp2fb_pixmap order 1 malloc (
        some (
          put_file_header order (bitmap_at size offset)
          ++ (put_info_header order (huge colours) ++ pixels)))
      ≡ fault
bmp2fb_pixmap_wraps order size offset colours pixels malloc h1 h2 h3 gives =
    let f = bitmap_at size offset in
    let i = huge colours in
    let rest = put_info_header order i ++ pixels in
    let file = put_file_header order f ++ rest in
    let v : IsFileHeader f = record {
      bf_type = omega arith;
      bf_size = h1;
      bf_reserved1 = omega arith;
      bf_reserved2 = omega arith;
      bf_data_offset = h2;
    } in
    let u : IsInfoHeader i = record {
      bi_size = omega arith;
      bi_width = omega arith;
      bi_height = omega arith;
      bi_planes = omega arith;
      bi_bpp = omega arith;
      bi_compression = omega arith;
      bi_data_size = omega arith;
      bi_pixels_per_meter_x = omega arith;
      bi_pixels_per_meter_y = omega arith;
      bi_colour_count = h3;
      bi_colour_used = h3;
    } in
    bmp2fb_pixmap-loads order 1 malloc file rest pixels f i (get_file_header-put order f rest v)
      refl (get_info_header-put order i pixels u) (huge-accepted colours)
    ∙ huge_loads malloc file size offset colours gives
