-- ===== src/Fbview/Bmp/Tests.antt =====
-- Small bitmaps.
use tcb.Base.{
  true, false, ℕ, zero, suc, ◌*◌, ◌<◌, ◌≡◌, refl, Option, none, some, List, [], ◌∷◌, ◌++◌, ok,
  fault, inr, replicate, arith,
}
use tcb.Base.Int.{pos, negsuc}
use tcb.Base.Memory.{Memory, load, store}
use tcb.Fbview.Pixel.{fb_set_pixel, fb_get_pixel}
use tcb.Fbview.Bmp.{
  little, big, InfoHeader, put_file_header, put_info_header, get_16, get_32, get_file_header,
  get_info_header,
}
use tcb.Fbview.Bmp.Reader.{
  fgetc, read_colour, skip, read_row, read_rows, accepted, load_pixels, bmp2fb_pixmap,
}
use tcb.Fbview.Bmp.Writer.{file_header, write_row, write_rows, working, fb_pixmap2bmp}
use tcb.Fbview.Bmp.Pixels.{IsPixel}
use tcb.Fbview.Bmp.Rows.{IsPixmap}
use tcb.Fbview.Bmp.Laws.{bmp2fb_pixmap-fb_pixmap2bmp}
use tcb.Fbview.Bmp.Checks.{Checked, bmp2fb_pixmap-Checked}
use tcb.Fbview.Bmp.Wraps.{huge, bitmap_at, bmp2fb_pixmap_wraps}

-- One column of two pixels of two bytes.
abbrev column : Memory
column = 17 ∷ 130 ∷ 255 ∷ 200 ∷ []

column-IsPixmap : IsPixmap 2 1 2 column
column-IsPixmap = record {
  some_bytes = omega arith;
  few_bytes = omega arith;
  width = omega arith;
  height = omega arith;
  size = omega arith;
  same_length = refl;
  pixels = by_pixel;
}
  where
    by_pixel : (i : ℕ) → i < 2 * 1 → IsPixel 2 column (i * 2)
    by_pixel zero h = inr (refl, omega arith, omega arith, omega arith)
    by_pixel (suc zero) h = inr (refl, omega arith, omega arith, omega arith)
    by_pixel (suc (suc i)) h = absurd (omega (arith, h))

abbrev zeroed : ℕ → Option Memory
zeroed n = some (replicate n 0)

bmp2fb_pixmap-fb_pixmap2bmp_example :
    (file : List ℕ) × (fb_pixmap2bmp little working 2 column 1 2 ≡ ok (pos 0, some file))
    × (bmp2fb_pixmap little 2 zeroed (some file)
        ≡ ok (some (record { memory = column; w = 1; h = 2 })))
bmp2fb_pixmap-fb_pixmap2bmp_example =
    bmp2fb_pixmap-fb_pixmap2bmp little 2 1 2 column (0 ∷ 0 ∷ 0 ∷ 0 ∷ []) zeroed column-IsPixmap refl
      refl

-- The pixels of its file: the lower one first, each row filled to 4 bytes.
abbrev pixels : List ℕ
pixels = 144 ∷ 56 ∷ 248 ∷ 0 ∷ 0 ∷ 128 ∷ 136 ∷ 0 ∷ []

abbrev column_info : ℕ → ℕ → InfoHeader
column_info bpp data_size = record {
  bi_size = 40;
  bi_width = 1;
  bi_height = 2;
  bi_planes = 1;
  bi_bpp = bpp;
  bi_compression = 0;
  bi_data_size = data_size;
  bi_pixels_per_meter_x = 2835;
  bi_pixels_per_meter_y = 2835;
  bi_colour_count = 0;
  bi_colour_used = 0;
}

-- The header says 12 bytes of pixels, and the file has 8.
column_written :
    fb_pixmap2bmp little working 2 column 1 2
    ≡ ok (
      pos 0,
      some (
          put_file_header little (file_header 1 2)
          ++ (put_info_header little (column_info 24 12) ++ pixels)),
    )
unfolding fb_pixmap2bmp write_rows write_row fb_get_pixel load
column_written = refl

abbrev column_file : List ℕ
column_file =
    66 ∷ 77 ∷ 66 ∷ 0 ∷ 0 ∷ 0 ∷ 0 ∷ 0 ∷ 0 ∷ 0 ∷ 54 ∷ 0 ∷ 0 ∷ 0 ∷ 40 ∷ 0 ∷ 0 ∷ 0 ∷ 1 ∷ 0 ∷ 0 ∷ 0 ∷ 2
    ∷ 0 ∷ 0 ∷ 0 ∷ 1 ∷ 0 ∷ 24 ∷ 0 ∷ 0 ∷ 0 ∷ 0 ∷ 0 ∷ 12 ∷ 0 ∷ 0 ∷ 0 ∷ 19 ∷ 11 ∷ 0 ∷ 0 ∷ 19 ∷ 11 ∷ 0
    ∷ 0 ∷ 0 ∷ 0 ∷ 0 ∷ 0 ∷ 0 ∷ 0 ∷ 0 ∷ 0 ∷ pixels

column_loads :
    bmp2fb_pixmap little 2 zeroed (some column_file)
    ≡ ok (some (record { memory = column; w = 1; h = 2 }))
unfolding bmp2fb_pixmap get_file_header get_info_header get_16 get_32 accepted load_pixels read_rows
    read_row read_colour skip fgetc fb_set_pixel store
column_loads = refl

bmp2fb_pixmap-Checked_example :
    Checked little column_file (record { memory = column; w = 1; h = 2 })
bmp2fb_pixmap-Checked_example =
    bmp2fb_pixmap-Checked little 2 zeroed column_file (record { memory = column; w = 1; h = 2 })
      column_loads

-- A file that does not open.
column_not_written :
    fb_pixmap2bmp little
      (record { opens = false; takes_header = true; takes_info = true })
      2
      column
      1
      2
    ≡ ok (negsuc 0, none)
unfolding fb_pixmap2bmp
column_not_written = refl

-- A machine of the other byte order takes the same file for no bitmap.
column_refused : bmp2fb_pixmap big 2 zeroed (some column_file) ≡ ok none
unfolding bmp2fb_pixmap get_file_header get_16 get_32
column_refused = refl

-- With 32 bits a pixel a row needs no filling, but a byte is skipped behind each: the upper pixel,
-- red, is read one byte too late and comes out green.
column_32 :
    read_rows 1 32 1 2 (0 ∷ 0 ∷ []) (255 ∷ 255 ∷ 255 ∷ 0 ∷ 0 ∷ 0 ∷ 255 ∷ 0 ∷ [])
    ≡ ok (28 ∷ 255 ∷ [])
unfolding read_rows read_row read_colour skip fgetc fb_set_pixel store
column_32 = refl

huge_bitmap_wraps :
    bmp2fb_pixmap big 1 zeroed
      (some (put_file_header big (bitmap_at 54 54) ++ (put_info_header big (huge 0) ++ pixels)))
    ≡ fault
huge_bitmap_wraps =
    bmp2fb_pixmap_wraps big 54 54 0 pixels zeroed (omega arith) (omega arith) (omega arith) refl
