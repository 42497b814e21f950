-- ===== src/Fbview/Bmp.antt =====
-- patches/code/fbview/ds_bmp.c: the headers of a bitmap as they are read from a file and written to
-- one. A file is the list of its bytes; numbers are in the byte order of the machine.
pub mod Reader
pub mod Writer
pub mod Fields
pub mod Pixels
pub mod Rows
pub mod Laws
pub mod Checks
pub mod Wraps
mod Tests
use tcb.Base.{ℕ, ◌+◌, ◌*◌, ◌/◌, ◌%◌, ◌^◌, Option, none, some, List, [], ◌∷◌, ◌++◌}

pub data Order : Type 0 where
  little big : Order

-- `fwrite` of a Uint16 and of a Uint32.
unfoldable pub put_16 : Order → ℕ → List ℕ
put_16 little v = v % 256 ∷ v / 256 % 256 ∷ []
put_16 big v = v / 256 % 256 ∷ v % 256 ∷ []

unfoldable pub put_32 : Order → ℕ → List ℕ
put_32 little v = v % 256 ∷ v / 256 % 256 ∷ v / 2 ^ 16 % 256 ∷ v / 2 ^ 24 % 256 ∷ []
put_32 big v = v / 2 ^ 24 % 256 ∷ v / 2 ^ 16 % 256 ∷ v / 256 % 256 ∷ v % 256 ∷ []

-- `fread` of them: what is read, and what is left of the file; none where `fread` returns 0.
unfoldable pub get_16 : Order → List ℕ → Option (ℕ × List ℕ)
get_16 little (a ∷ b ∷ file) = some (a + b * 256, file)
get_16 big (a ∷ b ∷ file) = some (b + a * 256, file)
get_16 order file = none

unfoldable pub get_32 : Order → List ℕ → Option (ℕ × List ℕ)
get_32 little (a ∷ b ∷ c ∷ d ∷ file) = some (a + b * 256 + c * 2 ^ 16 + d * 2 ^ 24, file)
get_32 big (a ∷ b ∷ c ∷ d ∷ file) = some (d + c * 256 + b * 2 ^ 16 + a * 2 ^ 24, file)
get_32 order file = none

-- `bitmap_file_header`
pub record FileHeader : Type 0 where
  pub bf_type : ℕ
  pub bf_size : ℕ
  pub bf_reserved1 : ℕ
  pub bf_reserved2 : ℕ
  pub bf_data_offset : ℕ

-- `bitmap_info_header`
pub record InfoHeader : Type 0 where
  pub bi_size : ℕ
  pub bi_width : ℕ
  pub bi_height : ℕ
  pub bi_planes : ℕ
  pub bi_bpp : ℕ
  pub bi_compression : ℕ
  pub bi_data_size : ℕ
  pub bi_pixels_per_meter_x : ℕ
  pub bi_pixels_per_meter_y : ℕ
  pub bi_colour_count : ℕ
  pub bi_colour_used : ℕ

-- One `fread` behind the other.
infixl 5 ◌>>=◌
abbrev ◌>>=◌ : {A B : Type 0} → Option A → (A → Option B) → Option B
none >>= next = none
(some a) >>= next = next a

-- The chain of `fread` calls for each header.
unfoldable pub get_file_header : Order → List ℕ → Option (FileHeader × List ℕ)
unfolding get_16 get_32
get_file_header order file = do
  type ← get_16 order file
  size ← get_32 order type.1
  reserved1 ← get_16 order size.1
  reserved2 ← get_16 order reserved1.1
  offset ← get_32 order reserved2.1
  some (
    record {
      bf_type = type.0;
      bf_size = size.0;
      bf_reserved1 = reserved1.0;
      bf_reserved2 = reserved2.0;
      bf_data_offset = offset.0;
    },
    offset.1,
  )

unfoldable pub get_info_header : Order → List ℕ → Option (InfoHeader × List ℕ)
unfolding get_16 get_32
get_info_header order file = do
  size ← get_32 order file
  width ← get_32 order size.1
  height ← get_32 order width.1
  planes ← get_16 order height.1
  bpp ← get_16 order planes.1
  compression ← get_32 order bpp.1
  data_size ← get_32 order compression.1
  across ← get_32 order data_size.1
  along ← get_32 order across.1
  count ← get_32 order along.1
  used ← get_32 order count.1
  some (
    record {
      bi_size = size.0;
      bi_width = width.0;
      bi_height = height.0;
      bi_planes = planes.0;
      bi_bpp = bpp.0;
      bi_compression = compression.0;
      bi_data_size = data_size.0;
      bi_pixels_per_meter_x = across.0;
      bi_pixels_per_meter_y = along.0;
      bi_colour_count = count.0;
      bi_colour_used = used.0;
    },
    used.1,
  )

-- The chain of `fwrite` calls for each header.
unfoldable pub put_file_header : Order → FileHeader → List ℕ
unfolding put_16 put_32
put_file_header order h =
    put_16 order h.bf_type
    ++ put_32 order h.bf_size
    ++ put_16 order h.bf_reserved1
    ++ put_16 order h.bf_reserved2
    ++ put_32 order h.bf_data_offset

unfoldable pub put_info_header : Order → InfoHeader → List ℕ
unfolding put_16 put_32
put_info_header order h =
    put_32 order h.bi_size
    ++ put_32 order h.bi_width
    ++ put_32 order h.bi_height
    ++ put_16 order h.bi_planes
    ++ put_16 order h.bi_bpp
    ++ put_32 order h.bi_compression
    ++ put_32 order h.bi_data_size
    ++ put_32 order h.bi_pixels_per_meter_x
    ++ put_32 order h.bi_pixels_per_meter_y
    ++ put_32 order h.bi_colour_count
    ++ put_32 order h.bi_colour_used
