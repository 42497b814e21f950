-- ===== src/Fbview/Bmp/Rows.antt =====
-- Rows that are written to a file and read from it.
use tcb.Base.{
  ℕ, zero, suc, ◌+◌, ◌-◌, ◌*◌, ◌%◌, ◌^◌, ◌≤◌, ◌<◌, ◌≡◌, refl, inl, inr, false, Res, ok, List, [],
  ◌∷◌, ◌++◌, ltb, arith, sym, ap, ◌∙◌, length, replicate, subst, lt→ltb,
}
use native.Mathlib.Nat.{mul-le-mul_left, mul-le-mul_right, mod-eq_of_lt, add-mul}
use tcb.Base.Memory.{Memory}
use tcb.Fbview.Pixel.{Colour, fb_set_pixel, fb_get_pixel}
use tcb.Fbview.Rotate.{unread}
use tcb.Fbview.Bmp.Reader.{fgetc, read_colour, skip, place, columns, rows, read_row, read_rows}
use tcb.Fbview.Bmp.Writer.{write_row, write_rows}
use tcb.Fbview.Bmp.Pixels.{Written, Written-none, Written-then, IsPixel, IsPixel-Moves}

-- A pixmap that comes back as it was, of a size that the loops and the limit of memory allow.
pub record IsPixmap (pixelsize w h : ℕ) (source : Memory) : Type 0 where
  pub some_bytes : 1 ≤ pixelsize
  pub few_bytes : pixelsize ≤ 2
  pub width : w ≤ 2 ^ 15
  pub height : h ≤ 2 ^ 15
  pub size : h * w ≤ 2 ^ 22
  pub same_length : length source ≡ h * w * pixelsize
  pub pixels : (i : ℕ) → i < h * w → IsPixel pixelsize source (i * pixelsize)

skip-replicate : (n : ℕ) (file : List ℕ) → skip n (replicate n 0 ++ file) ≡ file
unfolding skip fgetc
skip-replicate zero file = refl
skip-replicate (suc n) file = skip-replicate n file

-- What a row or rows come to: bytes that are written, and read back onto other memory.
pub record Transfers (write : Res (List ℕ)) (read : List ℕ → Res (Memory × List ℕ))
    (mem source : Memory) (a n : ℕ) : Type 0 where
  pub bytes : List ℕ
  pub after : Memory
  pub writes : write ≡ ok bytes
  pub reads : (file : List ℕ) → read (bytes ++ file) ≡ ok (after, file)
  pub written : Written mem after source a n

-- A pixel of a row.
module _ (pixelsize w : ℕ) (left i j dest : ℕ) (c : Colour)
    (at : place pixelsize w i j ≡ dest) where
  write_row-eq-ok :
      (source : Memory) (bytes : List ℕ)
      → fb_get_pixel pixelsize source dest unread ≡ ok c
      → write_row pixelsize w source left (suc i) j ≡ ok bytes
      → write_row pixelsize w source (suc left) i j ≡ ok (c.blue ∷ c.green ∷ c.red ∷ bytes)
  unfolding write_row
  write_row-eq-ok source bytes gets rest = rw (at, gets, rest) refl

  read_row-eq :
      (mem after : Memory) (file : List ℕ) {out : Res (Memory × List ℕ)}
      → fb_set_pixel pixelsize mem dest c ≡ ok after
      → read_row pixelsize 24 w left (suc i) j after file ≡ out
      → read_row pixelsize 24 w (suc left) i j mem (c.blue ∷ c.green ∷ c.red ∷ file) ≡ out
  unfolding read_row read_colour fgetc
  read_row-eq mem after file sets rest = rw (at, sets) rest

-- A row of a width that a Sint16 counts.
pub columns_all : (w : ℕ) → w ≤ 2 ^ 15 → columns w ≡ w
columns_all w h = ground arith

pub rows_all : (h : ℕ) → h ≤ 2 ^ 15 → rows h ≡ h
rows_all zero h = refl
rows_all (suc h) bound =
    let few : (suc h + (2 ^ 32 - 1)) % 2 ^ 16 ≡ h = omega (arith, bound) in
    rw (few, lt→ltb h (2 ^ 15) (omega (arith, bound))) (omega arith)

module _ (pixelsize w j : ℕ) (row file : List ℕ) (narrow : w ≤ 2 ^ 15) where
  write_rows-eq-ok :
      (source : Memory)
      → write_row pixelsize w source w 0 j ≡ ok row
      → write_rows pixelsize w source j ≡ ok file
      → write_rows pixelsize w source (suc j) ≡ ok (row ++ (replicate (w % 4) 0 ++ file))
  unfolding write_rows
  write_rows-eq-ok source first rest =
      let all : write_row pixelsize w source (columns w) 0 j ≡ ok row =
        ap (λ n. write_row pixelsize w source n 0 j) (columns_all w narrow) ∙ first in
      rw (all, rest) refl

  read_rows-eq :
      (mem mem1 : Memory) {out : Res Memory}
      → read_row pixelsize 24 w w 0 j mem (row ++ (replicate (w % 4) 0 ++ file))
        ≡ ok (mem1, replicate (w % 4) 0 ++ file)
      → read_rows pixelsize 24 w j mem1 file ≡ out
      → read_rows pixelsize 24 w (suc j) mem (row ++ (replicate (w % 4) 0 ++ file)) ≡ out
  unfolding read_rows
  read_rows-eq mem mem1 first rest =
      let bytes = row ++ (replicate (w % 4) 0 ++ file) in
      let all : read_row pixelsize 24 w (columns w) 0 j mem bytes
          ≡ ok (mem1, replicate (w % 4) 0 ++ file) =
        ap (λ n. read_row pixelsize 24 w n 0 j mem bytes) (columns_all w narrow) ∙ first in
      let ends : ltb (2 ^ 32 - 2 ^ 15) w ≡ false = ground arith in
      rw (ends, all, skip-replicate (w % 4) file) rest

module _ (pixelsize w h : ℕ) (source : Memory) (v : IsPixmap pixelsize w h source) where
  place_exact : (k : ℕ) → k < h * w → k % 2 ^ 32 * pixelsize % 2 ^ 32 ≡ k * pixelsize
  place_exact k below =
      let most : k * pixelsize ≤ k * 2 = mul-le-mul_left k v.few_bytes in
      let first : k % 2 ^ 32 ≡ k = mod-eq_of_lt (omega (arith, below, v.size)) in
      ap (λ t. t * pixelsize % 2 ^ 32) first ∙ mod-eq_of_lt (omega (arith, below, v.size, most))

  -- A pixel of the image is in the pixmap whole.
  pixel_below : (k : ℕ) → k < h * w → k * pixelsize + pixelsize ≤ length source
  pixel_below k below =
      let most : suc k * pixelsize ≤ h * w * pixelsize = mul-le-mul_right pixelsize below in
      let next : suc k * pixelsize ≡ k * pixelsize + pixelsize = omega arith in
      omega (arith, most, next, v.same_length)

  in_image : (i j : ℕ) → i < w → j < h → i + j * w < h * w
  in_image i j across along =
      let most : suc j * w ≤ h * w = mul-le-mul_right w along in
      let next : suc j * w ≡ j * w + w = omega arith in omega (arith, most, next, across)

  row-Transfers :
      (left i j : ℕ) (mem : Memory)
      → i + left ≤ w
      → j < h
      → length mem ≡ length source
      → Transfers
          (write_row pixelsize w source left i j)
          (read_row pixelsize 24 w left i j mem)
          mem
          source
          ((i + j * w) * pixelsize)
          (left * pixelsize)
  unfolding read_row write_row
  row-Transfers zero i j mem inside below e = record {
    bytes = [];
    after = mem;
    writes = refl;
    reads = λ file. refl;
    written =
        let none : 0 ≡ 0 * pixelsize = omega arith in
        subst (Written mem mem source ((i + j * w) * pixelsize)) none
          (Written-none mem source ((i + j * w) * pixelsize));
  }
  row-Transfers (suc left) i j mem inside below e =
      let k = i + j * w in
      let in_size : k < h * w = in_image i j (omega (arith, inside)) below in
      let at : place pixelsize w i j ≡ k * pixelsize = place_exact k in_size in
      let moved =
        IsPixel-Moves pixelsize source mem (k * pixelsize) (v.pixels k in_size)
          (pixel_below k in_size) e in
      let c = moved.colour in
      let rest =
        row-Transfers left (suc i) j moved.after (omega (arith, inside)) below
          (moved.written.same_length ∙ e) in
      let next : (suc i + j * w) * pixelsize ≡ k * pixelsize + pixelsize = omega arith in
      let whole : pixelsize + left * pixelsize ≡ suc left * pixelsize = omega arith in
      record {
        bytes = c.blue ∷ c.green ∷ c.red ∷ rest.bytes;
        after = rest.after;
        writes =
            write_row-eq-ok pixelsize w left i j (k * pixelsize) c at source rest.bytes moved.gets
              rest.writes;
        reads = λ file.
            read_row-eq pixelsize w left i j (k * pixelsize) c at mem moved.after
              (rest.bytes ++ file) moved.sets (rest.reads file);
        written = subst (Written mem rest.after source (k * pixelsize)) whole (
            Written-then mem moved.after rest.after source (k * pixelsize) pixelsize
              ((suc i + j * w) * pixelsize) (left * pixelsize) (k * pixelsize) moved.written
              rest.written (inl (refl, next)));
      }

  -- The rows below `j`, the highest first, with the filling behind each.
  pub rows-Transfers :
      (j : ℕ) (mem : Memory)
      → j ≤ h
      → length mem ≡ length source
      → (bytes : List ℕ) × (after : Memory) × (write_rows pixelsize w source j ≡ ok bytes)
        × (read_rows pixelsize 24 w j mem bytes ≡ ok after)
        × Written mem after source 0 (j * w * pixelsize)
  unfolding read_rows write_rows
  rows-Transfers zero mem inside e =
      let none : 0 ≡ 0 * w * pixelsize = omega arith in
      ([], mem, refl, refl, subst (Written mem mem source 0) none (Written-none mem source 0))
  rows-Transfers (suc j) mem inside e =
      let row = row-Transfers w 0 j mem (omega arith) (omega (arith, inside)) e in
      let (file, after, writes, reads, written) =
        rows-Transfers j row.after (omega (arith, inside)) (row.written.same_length ∙ e) in
      let from : (0 + j * w) * pixelsize ≡ 0 + j * w * pixelsize =
        ap (λ t. t * pixelsize) (let e : 0 + j * w ≡ j * w = omega arith in e) ∙ omega arith in
      let whole : w * pixelsize + j * w * pixelsize ≡ suc j * w * pixelsize =
        sym (add-mul w (j * w) pixelsize) ∙ ap (λ t. t * pixelsize) (omega arith) in
      (
        row.bytes ++ (replicate (w % 4) 0 ++ file),
        after,
        write_rows-eq-ok pixelsize w j row.bytes file v.width source row.writes writes,
        read_rows-eq pixelsize w j row.bytes file v.width mem row.after
            (row.reads (replicate (w % 4) 0 ++ file)) reads,
        subst (Written mem after source 0) whole (
            Written-then mem row.after after source ((0 + j * w) * pixelsize) (w * pixelsize) 0
              (j * w * pixelsize) 0 row.written written (inr (refl, from))),
      )
