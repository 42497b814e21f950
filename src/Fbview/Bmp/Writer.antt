-- ===== src/Fbview/Bmp/Writer.antt =====
-- `fb_pixmap2bmp`.
use tcb.Base.{
  Bool, true, not, Option, none, some, if◌then◌else◌, ℕ, zero, suc, ◌+◌, ◌*◌, ◌%◌, ◌^◌, List, [],
  ◌∷◌, ◌++◌, Res, ok, ◌>>=◌, replicate,
}
use tcb.Base.Int.{ℤ, pos, negsuc}
use tcb.Base.Memory.{Memory}
use tcb.Fbview.Pixel.{fb_get_pixel}
use tcb.Fbview.Rotate.{unread}
use tcb.Fbview.Bmp.{Order, FileHeader, InfoHeader, put_file_header, put_info_header}
use tcb.Fbview.Bmp.Reader.{place, columns, rows}

-- `bits_per_row`
abbrev pub bits_per_row : ℕ → ℕ
bits_per_row w = w * 3 % 4 + w * 3

abbrev pub file_header : ℕ → ℕ → FileHeader
file_header w h = record {
  bf_type = 0x4d42;
  bf_size = (bits_per_row w * h + 0x36) % 2 ^ 32;
  bf_reserved1 = 0;
  bf_reserved2 = 0;
  bf_data_offset = 0x36;
}

abbrev pub info_header : ℕ → ℕ → InfoHeader
info_header w h = record {
  bi_size = 0x28;
  bi_width = w;
  bi_height = h;
  bi_planes = 1;
  bi_bpp = 24;
  bi_compression = 0;
  bi_data_size = bits_per_row w * h % 2 ^ 32;
  bi_pixels_per_meter_x = 0xb13;
  bi_pixels_per_meter_y = 0xb13;
  bi_colour_count = 0;
  bi_colour_used = 0;
}

module _ (pixelsize width : ℕ) (fb_pixmap : Memory) where
  -- The rows from top to bottom are written last to first.
  unfoldable pub write_row : ℕ → ℕ → ℕ → Res (List ℕ)
  unfolding fb_get_pixel
  write_row zero i j = ok []
  write_row (suc left) i j = do
    c ← fb_get_pixel pixelsize fb_pixmap (place pixelsize width i j) unread
    file ← write_row left (suc i) j
    ok (c.blue ∷ c.green ∷ c.red ∷ file)

  unfoldable pub write_rows : ℕ → Res (List ℕ)
  unfolding write_row
  write_rows zero = ok []
  write_rows (suc j) = do
    row ← write_row (columns width) 0 j
    file ← write_rows j
    ok (row ++ (replicate (width % 4) 0 ++ file))

-- What the disk does: whether `fopen` and the `fwrite` calls for each header succeed.
pub record Disk : Type 0 where
  pub opens : Bool
  pub takes_header : Bool
  pub takes_info : Bool

abbrev pub working : Disk
working = record { opens = true; takes_header = true; takes_info = true }

-- `fb_pixmap2bmp`: what it returns, and the file's bytes where it returns 0. `fputc` is not checked; the
-- disk takes what it writes.
unfoldable pub fb_pixmap2bmp : Order → Disk → ℕ → Memory → ℕ → ℕ → Res (ℤ × Option (List ℕ))
unfolding put_file_header put_info_header write_rows
fb_pixmap2bmp order d pixelsize fb_pixmap w h =
    let head = put_file_header order (file_header w h) in
    let info = put_info_header order (info_header w h) in
    if not d.opens
    then ok (negsuc 0, none)
    else if not d.takes_header
    then ok (pos 1, none)
    else if not d.takes_info
    then ok (pos 1, none)
    else do
      pixels ← write_rows pixelsize w fb_pixmap (rows h)
      ok (pos 0, some (head ++ (info ++ pixels)))
