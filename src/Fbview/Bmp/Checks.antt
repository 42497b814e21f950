-- ===== src/Fbview/Bmp/Checks.antt =====
-- What `bmp2fb_pixmap` checks before it loads.
use tcb.Base.{
  ℕ, ◌*◌, ◌/◌, ◌%◌, ◌^◌, ◌≤◌, ◌≡◌, refl, Bool, true, false, Option, none, some, Res, ok, List, ◌==◌,
  arith, sym, ap, ◌∙◌, drop, ◌⊎◌, fault, running, exit, ==_iff, ok-injective,
}
use tcb.Base.Memory.{Memory}
use tcb.Fbview.Rotate.{Pixmap}
use tcb.Fbview.Bmp.{Order, FileHeader, InfoHeader, get_file_header, get_info_header}
use tcb.Fbview.Bmp.Reader.{
  mem_size, rows, read_rows, accepted, with_size, load_pixels, bmp2fb_pixmap,
}
use tcb.Fbview.Bmp.Laws.{bmp2fb_pixmap-loads}

-- What the checks leave: the headers of a file that is loaded.
pub record Checked (order : Order) (file : List ℕ) (image : Pixmap) : Type 0 where
  pub f : FileHeader
  pub i : InfoHeader
  pub file1 : List ℕ
  pub file2 : List ℕ
  pub first : get_file_header order file ≡ some (f, file1)
  pub second : get_info_header order file1 ≡ some (i, file2)
  pub is_bitmap : f.bf_type ≡ 0x4d42
  pub plain : i.bi_compression ≡ 0
  pub depth : (i.bi_bpp ≡ 24) ⊎ (i.bi_bpp ≡ 32)
  pub limit : i.bi_width * i.bi_height * 8 % 2 ^ 32 / 8 ≤ mem_size
  pub width : image.w ≡ i.bi_width % 2 ^ 16
  pub height : image.h ≡ i.bi_height % 2 ^ 16

accepted-eq-true :
    (i : InfoHeader)
    → accepted i ≡ true
    → (i.bi_compression ≡ 0)
      × ((i.bi_bpp ≡ 24) ⊎ (i.bi_bpp ≡ 32))
      × (i.bi_width * i.bi_height * 8 % 2 ^ 32 / 8 ≤ mem_size)
unfolding accepted
accepted-eq-true i h = ground arith

not_refused : (image : Pixmap) {r : Res (Option Pixmap)} → r ≡ ok none → r ≡ ok (some image) → ⊥
not_refused image e came = cc

with_size-eq-some :
    (w h : ℕ) (run : Res Memory) (image : Pixmap)
    → with_size w h run ≡ ok (some image)
    → (image.w ≡ w) × (image.h ≡ h)
with_size-eq-some w h (ok mem) image came =
    let same : record { memory = mem; w = w; h = h } ≡ image = some_injective (ok-injective came) in
    (ap (λ p. p.w) (sym same), ap (λ p. p.h) (sym same))
  where
    some_injective : {a b : Pixmap} → ◌≡◌ {A = Option Pixmap} (some a) (some b) → a ≡ b
    some_injective e = cc
with_size-eq-some w h (exit status) image came = cc
with_size-eq-some w h fault image came = cc
with_size-eq-some w h running image came = cc

load_pixels-eq-some :
    (pixelsize : ℕ) (malloc : ℕ → Option Memory) (file : List ℕ) (f : FileHeader) (i : InfoHeader)
    (image : Pixmap)
    → load_pixels pixelsize malloc file f i ≡ ok (some image)
    → (image.w ≡ i.bi_width % 2 ^ 16) × (image.h ≡ i.bi_height % 2 ^ 16)
unfolding load_pixels
load_pixels-eq-some pixelsize malloc file f i image came =
    by_memory (malloc (i.bi_width * i.bi_height % 2 ^ 32 * pixelsize % 2 ^ 32)) refl
  where
    by_memory :
        (o : Option Memory)
        → malloc (i.bi_width * i.bi_height % 2 ^ 32 * pixelsize % 2 ^ 32) ≡ o
        → (image.w ≡ i.bi_width % 2 ^ 16) × (image.h ≡ i.bi_height % 2 ^ 16)
    by_memory none e =
        let refused : load_pixels pixelsize malloc file f i ≡ ok none = rw (load_pixels, e) refl in
        absurd (not_refused image refused came)
    by_memory (some mem) e =
        let run =
          read_rows pixelsize i.bi_bpp i.bi_width (rows i.bi_height) mem
            (drop f.bf_data_offset file) in
        let loaded : load_pixels pixelsize malloc file f i
            ≡ with_size (i.bi_width % 2 ^ 16) (i.bi_height % 2 ^ 16) run =
          rw (load_pixels, e) refl in
        with_size-eq-some (i.bi_width % 2 ^ 16) (i.bi_height % 2 ^ 16) run image (sym loaded ∙ came)

module _ (order : Order) (pixelsize : ℕ) (malloc : ℕ → Option Memory) (file : List ℕ)
    (image : Pixmap)
    (came : bmp2fb_pixmap order pixelsize malloc (some file) ≡ ok (some image)) where
  by_accepted :
      (f : FileHeader) (i : InfoHeader) (file1 file2 : List ℕ)
      → get_file_header order file ≡ some (f, file1)
      → (f.bf_type == 0x4d42) ≡ true
      → get_info_header order file1 ≡ some (i, file2)
      → (b : Bool) → accepted i ≡ b
      → Checked order file image
  unfolding bmp2fb_pixmap
  by_accepted f i file1 file2 e1 e2 e3 false e4 =
      absurd (not_refused image (rw (bmp2fb_pixmap, e1, e2, e3, e4) refl) came)
  by_accepted f i file1 file2 e1 e2 e3 true e4 =
      let loads = bmp2fb_pixmap-loads order pixelsize malloc file file1 file2 f i e1 e2 e3 e4 in
      let (plain, depth, limit) = accepted-eq-true i e4 in
      let (width, height) =
        load_pixels-eq-some pixelsize malloc file f i image (sym loads ∙ came) in
      record {
        f = f;
        i = i;
        file1 = file1;
        file2 = file2;
        first = e1;
        second = e3;
        is_bitmap = (==_iff f.bf_type 0x4d42).0 e2;
        plain = plain;
        depth = depth;
        limit = limit;
        width = width;
        height = height;
      }

  by_second :
      (f : FileHeader) (file1 : List ℕ)
      → get_file_header order file ≡ some (f, file1)
      → (f.bf_type == 0x4d42) ≡ true
      → (o : Option (InfoHeader × List ℕ)) → get_info_header order file1 ≡ o
      → Checked order file image
  unfolding bmp2fb_pixmap
  by_second f file1 e1 e2 none e3 =
      absurd (not_refused image (rw (bmp2fb_pixmap, e1, e2, e3) refl) came)
  by_second f file1 e1 e2 (some (i, file2)) e3 =
      by_accepted f i file1 file2 e1 e2 e3 (accepted i) refl

  by_type :
      (f : FileHeader) (file1 : List ℕ)
      → get_file_header order file ≡ some (f, file1)
      → (b : Bool) → (f.bf_type == 0x4d42) ≡ b
      → Checked order file image
  unfolding bmp2fb_pixmap
  by_type f file1 e1 false e2 = absurd (not_refused image (rw (bmp2fb_pixmap, e1, e2) refl) came)
  by_type f file1 e1 true e2 = by_second f file1 e1 e2 (get_info_header order file1) refl

  by_first :
      (o : Option (FileHeader × List ℕ)) → get_file_header order file ≡ o → Checked order file image
  unfolding bmp2fb_pixmap
  by_first none e1 = absurd (not_refused image (rw (bmp2fb_pixmap, e1) refl) came)
  by_first (some (f, file1)) e1 = by_type f file1 e1 (f.bf_type == 0x4d42) refl

  -- A file that is loaded begins with the headers of a bitmap that is not compressed, has 24 or 32 bits
  -- a pixel, and is within the limit of memory as the machine computes it, with 32 bits; the image has
  -- the lower 16 bits of their width and height.
  pub bmp2fb_pixmap-Checked : Checked order file image
  bmp2fb_pixmap-Checked = by_first (get_file_header order file) refl
