-- ===== src/Fbview/Raster/Laws.antt =====
-- A raster whose pixels are set one by one has each of them in the end.
use tcb.Base.{
  ℕ, zero, suc, ◌+◌, ◌*◌, ◌<◌, ◌≤◌, ◌≡◌, refl, ◌⊎◌, inl, inr, Res, ok, ◌>>=◌, length, arith, subst,
  ap, ◌∙◌, sym,
}
use native.Mathlib.Nat.{mul-le-mul_right}
use tcb.Base.Memory.{Memory, pixel-lt}
use tcb.Fbview.Pixel.{Colour, fb_get_pixel}
use tcb.Fbview.Pixel.Laws.{IsColour}
use tcb.Fbview.Pixel.At.{
  IsFormat, rounded, colour_at, get_at, SameOutside, HasPixel, colour_at_same, pixel_before,
}
use tcb.Fbview.Raster.{raster_row, raster_rows}

-- A wider gap leaves less outside.
widen :
    {b from to from1 to1 : ℕ}
    → (b < from) ⊎ (to ≤ b)
    → from ≤ from1
    → to1 ≤ to
    → (b < from1) ⊎ (to1 ≤ b)
widen (inl h) f t = inl (omega (arith, h, f))
widen (inr h) f t = inr (omega (arith, h, t))

module _ (size width height : ℕ) (wanted : ℕ → ℕ → Colour) (pixel : ℕ → ℕ → Memory → Res Memory)
    (pixel_ok : (i j : ℕ) (new : Memory)
      → i < width
      → j < height
      → width * height * size ≤ length new
      → (after : Memory) × (pixel i j new ≡ ok after)
        × HasPixel size new ((i + j * width) * size) (wanted i j) after)
    (colours : (i j : ℕ) → i < width → j < height → IsColour (wanted i j)) where
  -- What a part of a row leaves, and what rows do.
  pub record IsRow (left i j : ℕ) (new after : Memory) : Type 0 where
    pub same_length : length after ≡ length new
    pub outside : SameOutside ((i + j * width) * size) ((i + left + j * width) * size) new after
    pub done :
        (k : ℕ)
        → k < left
        → colour_at size after ((i + k + j * width) * size) ≡ rounded size (wanted (i + k) j)

  pub record IsRows (left j : ℕ) (new after : Memory) : Type 0 where
    pub same_length : length after ≡ length new
    pub outside : SameOutside (j * width * size) ((j + left) * width * size) new after
    pub done :
        (i k : ℕ)
        → i < width
        → k < left
        → colour_at size after ((i + (j + k) * width) * size) ≡ rounded size (wanted i (j + k))

  -- A pixel and the part of the row behind it.
  row_colours :
      (left i j : ℕ) (new one after : Memory)
      → IsColour (wanted i j)
      → HasPixel size new ((i + j * width) * size) (wanted i j) one
      → IsRow left (suc i) j one after
      → (k : ℕ) → k < suc left
      → colour_at size after ((i + k + j * width) * size) ≡ rounded size (wanted (i + k) j)
  row_colours left i j new one after v set rest zero below =
      let here = pixel_before size (i + j * width) (suc i + j * width) (omega arith) in
      let e : i + 0 ≡ i = omega arith in
      ap (λ t. colour_at size after ((t + j * width) * size)) e
      ∙ colour_at_same size one after ((i + j * width) * size)
          (λ b low high1. rest.outside b (inl (omega (arith, high1, here))))
      ∙ set.colour v
      ∙ ap (λ t. rounded size (wanted t j)) (sym e)
  row_colours left i j new one after v set rest (suc k) below =
      let e : i + suc k ≡ suc i + k = omega arith in
      ap (λ t. colour_at size after ((t + j * width) * size)) e
      ∙ rest.done k (omega (arith, below))
      ∙ ap (λ t. rounded size (wanted t j)) (sym e)

  IsRow-next :
      (left i j : ℕ) (new one after : Memory)
      → IsColour (wanted i j)
      → HasPixel size new ((i + j * width) * size) (wanted i j) one
      → IsRow left (suc i) j one after
      → IsRow (suc left) i j new after
  IsRow-next left i j new one after v set rest =
      let here = pixel_before size (i + j * width) (suc i + j * width) (omega arith) in
      let on = pixel_before size (i + j * width) (i + suc left + j * width) (omega arith) in
      let end : (suc i + left + j * width) * size ≡ (i + suc left + j * width) * size =
        ap (λ t. (t + j * width) * size) (omega arith) in
      record {
        same_length = rest.same_length ∙ set.same_length;
        outside = λ b out.
            rest.outside b (widen out (omega (arith, here)) (omega (arith, end)))
            ∙ set.outside b (widen out (omega arith) on);
        done = row_colours left i j new one after v set rest;
      }

  raster_row_ok :
      (left i j : ℕ) (new : Memory)
      → i + left ≤ width
      → j < height
      → width * height * size ≤ length new
      → (after : Memory) × (raster_row pixel left i j new ≡ ok after) × IsRow left i j new after
  unfolding raster_row
  raster_row_ok zero i j new hi hj h = (
    new,
    refl,
    record {
      same_length = refl;
      outside = λ b out. refl;
      done = λ k below. absurd (omega (arith, below));
    },
  )
  raster_row_ok (suc left) i j new hi hj h =
      let one = pixel_ok i j new (omega (arith, hi)) hj h in
      let rest =
        raster_row_ok left (suc i) j one.0 (omega (arith, hi)) hj
          (omega (arith, h, one.2.same_length)) in
      (
        rest.0,
        rw (one.1, ◌>>=◌, rest.1),
        IsRow-next left i j new one.0 rest.0 (colours i j (omega (arith, hi)) hj) one.2 rest.2,
      )

  rows_colours :
      (left j : ℕ) (new one after : Memory)
      → IsRow width 0 j new one
      → IsRows left (suc j) one after
      → (i k : ℕ) → i < width
      → k < suc left
      → colour_at size after ((i + (j + k) * width) * size) ≡ rounded size (wanted i (j + k))
  rows_colours left j new one after row rest i zero hi below =
      let e : j + 0 ≡ j = omega arith in
      let here : colour_at size one ((i + j * width) * size) ≡ rounded size (wanted i j) =
        subst (λ t. colour_at size one ((t + j * width) * size) ≡ rounded size (wanted t j))
          (omega arith) (row.done i hi) in
      let line : suc j * width ≡ width + j * width = omega arith in
      let before = pixel_before size (i + j * width) (suc j * width) (omega (arith, line, hi)) in
      ap (λ t. colour_at size after ((i + t * width) * size)) e
      ∙ colour_at_same size one after ((i + j * width) * size)
          (λ b low high1. rest.outside b (inl (omega (arith, high1, before))))
      ∙ here
      ∙ ap (λ t. rounded size (wanted i t)) (sym e)
  rows_colours left j new one after row rest i (suc k) hi below =
      let e : j + suc k ≡ suc j + k = omega arith in
      ap (λ t. colour_at size after ((i + t * width) * size)) e
      ∙ rest.done i k hi (omega (arith, below))
      ∙ ap (λ t. rounded size (wanted i t)) (sym e)

  IsRows-next :
      (left j : ℕ) (new one after : Memory)
      → IsRow width 0 j new one
      → IsRows left (suc j) one after
      → IsRows (suc left) j new after
  IsRows-next left j new one after row rest =
      let on : j * width * size ≤ suc j * width * size = mul-le-mul_right size (omega arith) in
      let end : (suc j + left) * width * size ≡ (j + suc left) * width * size =
        ap (λ t. t * width * size) (omega arith) in
      let line : suc j * width * size ≡ (0 + width + j * width) * size =
        ap (λ t. t * size) (omega arith) in
      let start : (0 + j * width) * size ≡ j * width * size = ap (λ t. t * size) (omega arith) in
      let more : suc j * width * size ≤ (j + suc left) * width * size =
        mul-le-mul_right size (mul-le-mul_right width (omega arith)) in
      record {
        same_length = rest.same_length ∙ row.same_length;
        outside = λ b out.
            rest.outside b (widen out on (omega (arith, end)))
            ∙ row.outside b (widen out (omega (arith, start)) (omega (arith, line, more)));
        done = rows_colours left j new one after row rest;
      }

  raster_rows_ok :
      (left j : ℕ) (new : Memory)
      → j + left ≤ height
      → width * height * size ≤ length new
      → (after : Memory) × (raster_rows pixel width left j new ≡ ok after) × IsRows left j new after
  unfolding raster_rows
  raster_rows_ok zero j new hj h = (
    new,
    refl,
    record {
      same_length = refl;
      outside = λ b out. refl;
      done = λ i k hi below. absurd (omega (arith, below));
    },
  )
  raster_rows_ok (suc left) j new hj h =
      let one = raster_row_ok width 0 j new (omega arith) (omega (arith, hj)) h in
      let rest =
        raster_rows_ok left (suc j) one.0 (omega (arith, hj))
          (omega (arith, h, one.2.same_length)) in
      (rest.0, rw (one.1, ◌>>=◌, rest.1), IsRows-next left j new one.0 rest.0 one.2 rest.2)

  -- All of it, as it is read back.
  pub raster_ok :
      (new : Memory)
      → IsFormat size
      → length new ≡ width * height * size
      → (after : Memory) × (raster_rows pixel width height 0 new ≡ ok after)
        × (length after ≡ width * height * size)
        × ((old : Colour) (i j : ℕ)
            → i < width
            → j < height
            → fb_get_pixel size after ((i + j * width) * size) old ≡ ok (rounded size (wanted i j)))
  raster_ok new v same =
      let all = raster_rows_ok height 0 new (omega arith) (omega (arith, same)) in
      let len : length all.0 ≡ width * height * size = all.2.same_length ∙ same in
      (
        all.0,
        all.1,
        len,
        λ old i j hi hj.
            let there =
              pixel_before size (i + j * width) (width * height)
                (pixel-lt i j width height hi hj) in
            get_at size all.0 ((i + j * width) * size) old v (omega (arith, len, there))
            ∙ ap ok (
                subst
                  (λ t. colour_at size all.0 ((i + t * width) * size) ≡ rounded size (wanted i t))
                  (omega arith) (all.2.done i j hi hj)),
      )
