-- ===== src/Fbview/Bmp/Laws.antt =====
-- A pixmap that is saved is loaded as it was; what is no bitmap is refused.
use tcb.Base.{
  ℕ, ◌*◌, ◌%◌, ◌^◌, ◌≤◌, ◌≡◌, refl, true, Option, some, ok, List, ◌++◌, ◌==◌, arith, ap, ◌∙◌,
  length, drop, get_or_ext,
}
use native.Mathlib.Nat.{mul-le-mul_left, mod-eq_of_lt, mul_comm}
use tcb.Base.Int.{pos}
use tcb.Base.Memory.{Memory}
use tcb.Fbview.Bmp.{
  Order, little, big, FileHeader, InfoHeader, get_file_header, get_info_header, put_file_header,
  put_info_header, put_16, put_32,
}
use tcb.Fbview.Bmp.Fields.{IsFileHeader, IsInfoHeader, get_file_header-put, get_info_header-put}
use tcb.Fbview.Bmp.Reader.{rows, read_rows, accepted, load_pixels, bmp2fb_pixmap}
use tcb.Fbview.Bmp.Writer.{file_header, info_header, write_rows, working, fb_pixmap2bmp}
use tcb.Fbview.Bmp.Rows.{IsPixmap, rows_all, rows-Transfers}

-- The pixels stand behind the headers.
drop-headers :
    (order : Order) (f : FileHeader) (i : InfoHeader) (pixels : List ℕ)
    → drop 0x36 (put_file_header order f ++ (put_info_header order i ++ pixels)) ≡ pixels
unfolding put_file_header put_info_header put_16 put_32
drop-headers little f i pixels = refl
drop-headers big f i pixels = refl

module _ (pixelsize w h : ℕ) (source : Memory) (v : IsPixmap pixelsize w h source) where
  headers_fit : IsFileHeader (file_header w h) × IsInfoHeader (info_header w h)
  headers_fit = (
    record {
      bf_type = omega arith;
      bf_size = omega arith;
      bf_reserved1 = omega arith;
      bf_reserved2 = omega arith;
      bf_data_offset = omega arith;
    },
    record {
      bi_size = omega arith;
      bi_width = omega (arith, v.width);
      bi_height = omega (arith, v.height);
      bi_planes = omega arith;
      bi_bpp = omega arith;
      bi_compression = omega arith;
      bi_data_size = omega arith;
      bi_pixels_per_meter_x = omega arith;
      bi_pixels_per_meter_y = omega arith;
      bi_colour_count = omega arith;
      bi_colour_used = omega arith;
    },
  )

  area : w * h ≤ 2 ^ 22
  area = omega (arith, v.size, mul_comm w h)

  header-accepted : accepted (info_header w h) ≡ true
  unfolding accepted
  header-accepted = ground (arith, area)

  load_pixels_lem :
      (malloc : ℕ → Option Memory) (fresh : Memory) (file bytes : List ℕ)
      → malloc (h * w * pixelsize) ≡ some fresh
      → drop 0x36 file ≡ bytes
      → read_rows pixelsize 24 w h fresh bytes ≡ ok source
      → load_pixels pixelsize malloc file (file_header w h) (info_header w h)
        ≡ ok (some (record { memory = source; w = w; h = h }))
  unfolding load_pixels
  load_pixels_lem malloc fresh file bytes gives behind reads =
      let most : h * w * pixelsize ≤ h * w * 2 = mul-le-mul_left (h * w) v.few_bytes in
      let turned : w * h % 2 ^ 32 ≡ h * w = mod-eq_of_lt (omega (arith, area)) ∙ mul_comm w h in
      let size : w * h % 2 ^ 32 * pixelsize % 2 ^ 32 ≡ h * w * pixelsize =
        ap (λ t. t * pixelsize % 2 ^ 32) turned ∙ mod-eq_of_lt (omega (arith, most, v.size)) in
      let mw : w % 2 ^ 16 ≡ w = mod-eq_of_lt (omega (arith, v.width)) in
      let mh : h % 2 ^ 16 ≡ h = mod-eq_of_lt (omega (arith, v.height)) in
      let given : malloc (w * h % 2 ^ 32 * pixelsize % 2 ^ 32) ≡ some fresh =
        ap malloc size ∙ gives in
      let all : read_rows pixelsize 24 w (rows h) fresh (drop 0x36 file) ≡ ok source =
        ap (λ n. read_rows pixelsize 24 w n fresh (drop 0x36 file)) (rows_all h v.height)
        ∙ ap (read_rows pixelsize 24 w h fresh) behind
        ∙ reads in
      rw (load_pixels, given, all, mw, mh) refl

-- Behind headers that are accepted.
pub bmp2fb_pixmap-loads :
    (order : Order) (pixelsize : ℕ) (malloc : ℕ → Option Memory) (file file1 file2 : List ℕ)
    (f : FileHeader) (i : InfoHeader)
    → get_file_header order file ≡ some (f, file1)
    → (f.bf_type == 0x4d42) ≡ true
    → get_info_header order file1 ≡ some (i, file2)
    → accepted i ≡ true
    → bmp2fb_pixmap order pixelsize malloc (some file) ≡ load_pixels pixelsize malloc file f i
unfolding bmp2fb_pixmap
bmp2fb_pixmap-loads order pixelsize malloc file file1 file2 f i first is_bitmap second fine =
    rw (bmp2fb_pixmap, first, is_bitmap, second, fine) refl

-- What `fb_pixmap2bmp` writes of a pixmap, `bmp2fb_pixmap` loads, on a machine of either byte order:
-- both return 0, and it has the same width, height and bytes. The pixmap has pixels of one byte, or of two
-- with the upper bit that `fb_set_pixel` sets; its width and height are at most 2^15 and its pixels at
-- most 2^22, the disk works, and `malloc` gives memory of its size, with any contents.
pub bmp2fb_pixmap-fb_pixmap2bmp :
    (order : Order) (pixelsize w h : ℕ) (source fresh : Memory) (malloc : ℕ → Option Memory)
    → IsPixmap pixelsize w h source
    → malloc (h * w * pixelsize) ≡ some fresh
    → length fresh ≡ length source
    → (file : List ℕ) × (fb_pixmap2bmp order working pixelsize source w h ≡ ok (pos 0, some file))
      × (bmp2fb_pixmap order pixelsize malloc (some file)
          ≡ ok (some (record { memory = source; w = w; h = h })))
unfolding fb_pixmap2bmp
bmp2fb_pixmap-fb_pixmap2bmp order pixelsize w h source fresh malloc v gives e =
    let (bytes, after, writes, reads, written) =
      rows-Transfers pixelsize w h source v h fresh (omega arith) e in
    let f = file_header w h in
    let i = info_header w h in
    let file = put_file_header order f ++ (put_info_header order i ++ bytes) in
    let same : after ≡ source = get_or_ext 0 after source (written.same_length ∙ e) (λ k inside.
      written.same k (omega arith)
        (omega (arith, inside, written.same_length, e, v.same_length))) in
    let fits = headers_fit pixelsize w h source v in
    let write : write_rows pixelsize w source (rows h) ≡ ok bytes =
      ap (write_rows pixelsize w source) (rows_all h v.height) ∙ writes in
    let loads =
      load_pixels_lem pixelsize w h source v malloc fresh file bytes gives
        (drop-headers order f i bytes) (reads ∙ ap ok same) in
    (
      file,
      rw write refl,
      bmp2fb_pixmap-loads order pixelsize malloc file (put_info_header order i ++ bytes) bytes f i
            (get_file_header-put order f (put_info_header order i ++ bytes) fits.0) refl
            (get_info_header-put order i bytes fits.1) (header-accepted pixelsize w h source v)
          ∙ loads,
    )
