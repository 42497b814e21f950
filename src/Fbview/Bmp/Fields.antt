-- ===== src/Fbview/Bmp/Fields.antt =====
-- Headers that are written are read back.
use tcb.Base.{ℕ, ◌+◌, ◌*◌, ◌/◌, ◌%◌, ◌^◌, ◌<◌, ◌≡◌, refl, some, List, ◌++◌, arith}
use tcb.Fbview.Bmp.{
  Order, little, big, FileHeader, InfoHeader, put_16, put_32, get_16, get_32, get_file_header,
  get_info_header, put_file_header, put_info_header,
}

-- The fields fit their types.
pub record IsFileHeader (h : FileHeader) : Type 0 where
  pub bf_type : h.bf_type < 2 ^ 16
  pub bf_size : h.bf_size < 2 ^ 32
  pub bf_reserved1 : h.bf_reserved1 < 2 ^ 16
  pub bf_reserved2 : h.bf_reserved2 < 2 ^ 16
  pub bf_data_offset : h.bf_data_offset < 2 ^ 32

pub record IsInfoHeader (h : InfoHeader) : Type 0 where
  pub bi_size : h.bi_size < 2 ^ 32
  pub bi_width : h.bi_width < 2 ^ 32
  pub bi_height : h.bi_height < 2 ^ 32
  pub bi_planes : h.bi_planes < 2 ^ 16
  pub bi_bpp : h.bi_bpp < 2 ^ 16
  pub bi_compression : h.bi_compression < 2 ^ 32
  pub bi_data_size : h.bi_data_size < 2 ^ 32
  pub bi_pixels_per_meter_x : h.bi_pixels_per_meter_x < 2 ^ 32
  pub bi_pixels_per_meter_y : h.bi_pixels_per_meter_y < 2 ^ 32
  pub bi_colour_count : h.bi_colour_count < 2 ^ 32
  pub bi_colour_used : h.bi_colour_used < 2 ^ 32

bytes_16 : (v : ℕ) → v < 2 ^ 16 → v % 256 + v / 256 % 256 * 256 ≡ v
bytes_16 v h = omega (arith, h)

bytes_32 :
    (v : ℕ)
    → v < 2 ^ 32
    → v % 256 + v / 256 % 256 * 256 + v / 2 ^ 16 % 256 * 2 ^ 16 + v / 2 ^ 24 % 256 * 2 ^ 24 ≡ v
bytes_32 v h = omega (arith, h)

pub get_file_header-put :
    (order : Order) (h : FileHeader) (file : List ℕ)
    → IsFileHeader h
    → get_file_header order (put_file_header order h ++ file) ≡ some (h, file)
unfolding get_file_header put_file_header get_16 get_32 put_16 put_32
get_file_header-put little h file v =
    rw
      (
        bytes_16 h.bf_type v.bf_type,
        bytes_32 h.bf_size v.bf_size,
        bytes_16 h.bf_reserved1 v.bf_reserved1,
        bytes_16 h.bf_reserved2 v.bf_reserved2,
        bytes_32 h.bf_data_offset v.bf_data_offset,
      )
      refl
get_file_header-put big h file v =
    rw
      (
        bytes_16 h.bf_type v.bf_type,
        bytes_32 h.bf_size v.bf_size,
        bytes_16 h.bf_reserved1 v.bf_reserved1,
        bytes_16 h.bf_reserved2 v.bf_reserved2,
        bytes_32 h.bf_data_offset v.bf_data_offset,
      )
      refl

pub get_info_header-put :
    (order : Order) (h : InfoHeader) (file : List ℕ)
    → IsInfoHeader h
    → get_info_header order (put_info_header order h ++ file) ≡ some (h, file)
unfolding get_info_header put_info_header get_16 get_32 put_16 put_32
get_info_header-put little h file v =
    rw
      (
        bytes_32 h.bi_size v.bi_size,
        bytes_32 h.bi_width v.bi_width,
        bytes_32 h.bi_height v.bi_height,
        bytes_16 h.bi_planes v.bi_planes,
        bytes_16 h.bi_bpp v.bi_bpp,
        bytes_32 h.bi_compression v.bi_compression,
        bytes_32 h.bi_data_size v.bi_data_size,
        bytes_32 h.bi_pixels_per_meter_x v.bi_pixels_per_meter_x,
        bytes_32 h.bi_pixels_per_meter_y v.bi_pixels_per_meter_y,
        bytes_32 h.bi_colour_count v.bi_colour_count,
        bytes_32 h.bi_colour_used v.bi_colour_used,
      )
      refl
get_info_header-put big h file v =
    rw
      (
        bytes_32 h.bi_size v.bi_size,
        bytes_32 h.bi_width v.bi_width,
        bytes_32 h.bi_height v.bi_height,
        bytes_16 h.bi_planes v.bi_planes,
        bytes_16 h.bi_bpp v.bi_bpp,
        bytes_32 h.bi_compression v.bi_compression,
        bytes_32 h.bi_data_size v.bi_data_size,
        bytes_32 h.bi_pixels_per_meter_x v.bi_pixels_per_meter_x,
        bytes_32 h.bi_pixels_per_meter_y v.bi_pixels_per_meter_y,
        bytes_32 h.bi_colour_count v.bi_colour_count,
        bytes_32 h.bi_colour_used v.bi_colour_used,
      )
      refl
