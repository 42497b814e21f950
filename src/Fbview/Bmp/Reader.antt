-- ===== src/Fbview/Bmp/Reader.antt =====
-- `bmp2fb_pixmap`.
use tcb.Base.{
  ℕ, zero, suc, ◌+◌, ◌-◌, ◌*◌, ◌/◌, ◌%◌, ◌^◌, Bool, not, ◌||◌, ◌&&◌, Option, none, some, List, [],
  ◌∷◌, Res, ok, running, ◌>>=◌, ltb, ◌==◌, if◌then◌else◌, drop,
}
use tcb.Base.Memory.{Memory}
use tcb.Fbview.Pixel.{Colour, fb_set_pixel}
use tcb.Fbview.Rotate.{Pixmap}
use tcb.Fbview.Bmp.{Order, FileHeader, InfoHeader, get_file_header, get_info_header}

-- `MEMSIZE`
abbrev pub mem_size : ℕ
mem_size = 1024 * 1024 * 4

-- `fgetc`, put into a Uint8: EOF is 255.
unfoldable pub fgetc : List ℕ → ℕ × List ℕ
fgetc [] = (255, [])
fgetc (b ∷ file) = (b, file)

-- The bytes of a pixel: a fourth is read and not used.
unfoldable pub read_colour : ℕ → List ℕ → Colour × List ℕ
unfolding fgetc
read_colour bpp file =
    let (b, file1) = fgetc file in
    let (g, file2) = fgetc file1 in
    let (r, file3) = fgetc file2 in
    let file4 = if bpp == 32 then (fgetc file3).1 else file3 in
    (record { red = r; green = g; blue = b }, file4)

-- `for (A = 0; A < bi_width % 4; A++) fgetc(fp);`, with the rounds left.
unfoldable pub skip : ℕ → List ℕ → List ℕ
unfolding fgetc
skip zero file = file
skip (suc left) file = skip left (fgetc file).1

-- `(i + j*bi_width)*pixelsize`, in a Uint32.
abbrev pub place : ℕ → ℕ → ℕ → ℕ → ℕ
place pixelsize width i j = (i + j * width) % 2 ^ 32 * pixelsize % 2 ^ 32

-- The rounds of the loops: `i` and `j` are of type Sint16. From 0 `i` is below the width until it is
-- -32768, which is above every width but the highest ones; `j` begins with the height less 1, of which
-- it holds 16 bits, and without a round where these are negative.
abbrev pub columns : ℕ → ℕ
columns width = if ltb width (2 ^ 15) then width else 2 ^ 15

abbrev pub rows : ℕ → ℕ
rows height = let j = (height + (2 ^ 32 - 1)) % 2 ^ 16 in if ltb j (2 ^ 15) then j + 1 else 0

module _ (pixelsize bpp width : ℕ) where
  unfoldable pub read_row : ℕ → ℕ → ℕ → Memory → List ℕ → Res (Memory × List ℕ)
  unfolding read_colour fb_set_pixel
  read_row zero i j mem file = ok (mem, file)
  read_row (suc left) i j mem file = do
    mem1 ← fb_set_pixel pixelsize mem (place pixelsize width i j) (read_colour bpp file).0
    read_row left (suc i) j mem1 (read_colour bpp file).1

  -- With the rows below `suc j` left; a width of which a Sint16 is never as much does not end.
  unfoldable pub read_rows : ℕ → Memory → List ℕ → Res Memory
  unfolding read_row skip
  read_rows zero mem file = ok mem
  read_rows (suc j) mem file = if ltb (2 ^ 32 - 2 ^ 15) width then running else do
    row ← read_row (columns width) 0 j mem file
    read_rows j row.0 (skip (width % 4) row.1)

-- The checks of the headers.
unfoldable pub accepted : InfoHeader → Bool
accepted h =
    (h.bi_compression == 0)
    && not (ltb mem_size (h.bi_width * h.bi_height * 8 % 2 ^ 32 / 8))
    && (h.bi_bpp == 24 || h.bi_bpp == 32)

abbrev pub with_size : ℕ → ℕ → Res Memory → Res (Option Pixmap)
with_size w h m = do memory ← m; ok (some (record { memory = memory; w = w; h = h }))

-- What is in the file behind the headers, onto new memory.
unfoldable pub load_pixels :
    ℕ → (ℕ → Option Memory) → List ℕ → FileHeader → InfoHeader → Res (Option Pixmap)
unfolding read_rows
load_pixels pixelsize malloc file f h =
    elim (malloc (h.bi_width * h.bi_height % 2 ^ 32 * pixelsize % 2 ^ 32)) [
      | none ↦ ok none
      | some mem ↦ with_size (h.bi_width % 2 ^ 16) (h.bi_height % 2 ^ 16) (
          read_rows pixelsize h.bi_bpp h.bi_width (rows h.bi_height) mem
            (drop f.bf_data_offset file))
    ]

-- `bmp2fb_pixmap`, on a file or none that opens: none where it returns 1.
unfoldable pub bmp2fb_pixmap :
    Order → ℕ → (ℕ → Option Memory) → Option (List ℕ) → Res (Option Pixmap)
unfolding get_file_header get_info_header accepted load_pixels
bmp2fb_pixmap order pixelsize malloc none = ok none
bmp2fb_pixmap order pixelsize malloc (some file) = elim (get_file_header order file) [
  | none ↦ ok none
  | some (f, file1) ↦
      if f.bf_type == 0x4d42
      then elim (get_info_header order file1) [
        | none ↦ ok none
        | some (h, file2) ↦ if accepted h then load_pixels pixelsize malloc file f h else ok none
      ]
      else ok none
]
