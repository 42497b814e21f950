-- ===== src/Starfield/Fader/Laws.antt =====
-- The fader stays within its part of the screen.
use tcb.Base.{
  ℕ, zero, suc, ◌+◌, ◌-◌, ◌*◌, ◌/◌, ◌<◌, ◌≤◌, ◌≡◌, refl, ◌⊎◌, inl, inr, ◌≢◌, ok, length, length-set,
  get_or, get_or-set_ne, set, arith, [], ◌∷◌, ◌∙◌, if◌then◌else◌, ◌==◌,
}
use native.Mathlib.Nat.{mul-le-mul_right}
use tcb.Base.Memory.{Memory, load_ok, store_ok}
use tcb.Starfield.Fader.{
  dimmed, fade_pixel, fade_row, fade_rows, fade, part_start, part_height, fade_part,
}

-- Every byte of a memory is one, and those outside a range are as they were.
abbrev pub Bytes : Memory → Type 0
Bytes mem = (i : ℕ) → get_or mem i 0 < 256

pub record Faded (lo hi : ℕ) (before after : Memory) : Type 0 where
  pub size : length after ≡ length before
  pub same : (i : ℕ) → (i < lo) ⊎ (hi ≤ i) → get_or after i 0 ≡ get_or before i 0
  pub bytes : Bytes before → Bytes after

set-Bytes : (mem : Memory) (p v : ℕ) → Bytes mem → v < 256 → Bytes (set mem p v)
set-Bytes [] p v all h i = all i
set-Bytes (x ∷ xs) zero v all h zero = h
set-Bytes (x ∷ xs) zero v all h (suc i) = all (suc i)
set-Bytes (x ∷ xs) (suc p) v all h zero = all zero
set-Bytes (x ∷ xs) (suc p) v all h (suc i) = set-Bytes xs p v (λ k. all (suc k)) h i

dimmed_lt : (l r a b : ℕ) → l < 256 → r < 256 → a < 256 → b < 256 → dimmed (l + r + a + b) < 256
dimmed_lt l r a b h1 h2 h3 h4 = ground arith

apart : (p i : ℕ) → (i < p) ⊎ (suc p ≤ i) → p ≢ i
apart p i h e = ground (arith, h, e)

above : (lo mid hi i : ℕ) → lo ≤ mid → (i < lo) ⊎ (hi ≤ i) → (i < mid) ⊎ (hi ≤ i)
above lo mid hi i h (inl l) = inl (omega (arith, h, l))
above lo mid hi i h (inr l) = inr l

below : (lo mid hi i : ℕ) → mid ≤ hi → (i < lo) ⊎ (hi ≤ i) → (i < lo) ⊎ (mid ≤ i)
below lo mid hi i h (inl l) = inl l
below lo mid hi i h (inr l) = inr (omega (arith, h, l))

fade_pixel-Faded :
    (width offset : ℕ) (mem : Memory)
    → 1 ≤ width
    → width ≤ offset
    → offset + width < length mem
    → (after : Memory) × (fade_pixel width offset mem ≡ ok after)
      × Faded offset (suc offset) mem after
unfolding fade_pixel
fade_pixel-Faded width offset mem h1 h2 h3 =
    let l = get_or mem (offset - 1) 0 in
    let r = get_or mem (offset + 1) 0 in
    let a = get_or mem (offset - width) 0 in
    let b = get_or mem (offset + width) 0 in
    let v = dimmed (l + r + a + b) in
    (
      set mem offset v,
      rw
          (
            load_ok mem (offset - 1) (omega (arith, h3, h1)),
            load_ok mem (offset + 1) (omega (arith, h3, h1)),
            load_ok mem (offset - width) (omega (arith, h3, h1)),
            load_ok mem (offset + width) h3,
          )
          (store_ok mem offset v (omega (arith, h3))),
      record {
        size = length-set mem offset v;
        same = λ i out. get_or-set_ne mem v 0 (λ e. apart offset i out e);
        bytes = λ all. set-Bytes mem offset v all (
            dimmed_lt l r a b (all (offset - 1)) (all (offset + 1)) (all (offset - width))
              (all (offset + width)));
      },
    )

Faded-trans :
    (lo mid hi : ℕ) {m1 m2 m3 : Memory}
    → lo ≤ mid
    → mid ≤ hi
    → Faded lo mid m1 m2
    → Faded mid hi m2 m3
    → Faded lo hi m1 m3
Faded-trans lo mid hi h1 h2 f g = record {
  size = g.size ∙ f.size;
  same = λ i out. g.same i (above lo mid hi i h1 out) ∙ f.same i (below lo mid hi i h2 out);
  bytes = λ all. g.bytes (f.bytes all);
}

Faded-refl : (lo hi : ℕ) (m : Memory) → Faded lo hi m m
Faded-refl lo hi m = record { size = refl; same = λ i out. refl; bytes = λ all. all }

Faded-wider :
    (lo lo' hi hi' : ℕ) {m1 m2 : Memory}
    → lo' ≤ lo
    → hi ≤ hi'
    → Faded lo hi m1 m2
    → Faded lo' hi' m1 m2
Faded-wider lo lo' hi hi' h1 h2 f = record {
  size = f.size;
  same = λ i out. f.same i (below lo hi hi' i h2 (above lo' lo hi' i h1 out));
  bytes = f.bytes;
}

fade_row-Faded :
    (width left offset : ℕ) (mem : Memory)
    → 1 ≤ width
    → width ≤ offset
    → offset + left + width ≤ length mem
    → (after : Memory) × (fade_row width left offset mem ≡ ok after)
      × Faded offset (offset + left) mem after
unfolding fade_row
fade_row-Faded width zero offset mem h1 h2 h3 = (mem, refl, Faded-refl offset (offset + 0) mem)
fade_row-Faded width (suc left) offset mem h1 h2 h3 =
    let (m1, runs, f) = fade_pixel-Faded width offset mem h1 h2 (omega (arith, h3)) in
    let (m2, runs', g) =
      fade_row-Faded width left (suc offset) m1 h1 (omega (arith, h2))
        (omega (arith, h3, f.size)) in
    (
      m2,
      rw runs runs',
      Faded-trans offset (suc offset) (offset + suc left) (omega arith) (omega arith) f (
          Faded-wider (suc offset) (suc offset) (suc offset + left) (offset + suc left)
            (omega arith) (omega arith) g),
    )

fade_rows-Faded :
    (width left offset : ℕ) (mem : Memory)
    → 2 ≤ width
    → width ≤ offset
    → offset + left * width + width ≤ length mem
    → (after : Memory) × (fade_rows width left offset mem ≡ ok after)
      × Faded offset (offset + left * width) mem after
unfolding fade_rows
fade_rows-Faded width zero offset mem h1 h2 h3 =
    (mem, refl, Faded-refl offset (offset + 0 * width) mem)
fade_rows-Faded width (suc left) offset mem h1 h2 h3 =
    let next = offset + 1 + (width - 2) + 1 in
    let line : next ≡ offset + width = omega (arith, h1) in
    let (m1, runs, f) =
      fade_row-Faded width (width - 2) (offset + 1) mem (omega (arith, h1)) (omega (arith, h2))
        (omega (arith, h3, h1)) in
    let (m2, runs', g) =
      fade_rows-Faded width left next m1 h1 (omega (arith, h2, line))
        (omega (arith, h3, f.size, line)) in
    (
      m2,
      rw runs runs',
      Faded-trans offset next (offset + suc left * width) (omega (arith, line))
          (omega (arith, line))
          (Faded-wider (offset + 1) offset (offset + 1 + (width - 2)) next (omega arith)
            (omega arith) f)
          (Faded-wider next next (next + left * width) (offset + suc left * width) (omega arith)
            (omega (arith, line)) g),
    )

fits :
    (mem : Memory) (ptr width height : ℕ)
    → 2 ≤ height
    → ptr + height * width ≤ length mem
    → ptr + width + (height - 2) * width + width ≤ length mem
fits mem ptr width zero h1 h2 = absurd (omega (arith, h1))
fits mem ptr width (suc zero) h1 h2 = absurd (omega (arith, h1))
fits mem ptr width (suc (suc n)) h1 h2 =
    let same : suc (suc n) - 2 ≡ n = omega arith in rw same (omega (arith, h2))

part_height_le : (id yres : ℕ) → 4 ≤ yres → 2 ≤ part_height id yres
part_height_le id yres h = ground arith

-- `fade` of a part of at least 2 by 2 pixels that lies within memory ends; it changes nothing outside
-- the rows between the part's first and last one, and bytes stay bytes.
pub fade-Faded :
    (mem : Memory) (ptr width height : ℕ)
    → 2 ≤ width
    → 2 ≤ height
    → ptr + height * width ≤ length mem
    → (after : Memory) × (fade mem ptr width height ≡ ok after)
      × Faded (ptr + width) (ptr + width + (height - 2) * width) mem after
unfolding fade
fade-Faded mem ptr width height h1 h2 h3 =
    fade_rows-Faded width (height - 2) (ptr + width) mem h1 (omega arith)
      (fits mem ptr width height h2 h3)

predecessor : (r : ℕ) → suc r - 1 ≡ r
predecessor r = omega arith

-- A quarter of `suc r` rows.
rows_fit : (x r y : ℕ) → 4 * suc r ≤ y → (4 * r + 4) * x ≤ x * y
rows_fit x r y h =
    let enough : (4 * r + 4) * x ≤ y * x = mul-le-mul_right x (omega (arith, h)) in
    omega (arith, enough)

parts_fit :
    (id x q y : ℕ)
    → id < 4
    → 1 ≤ q
    → 4 * q ≤ y
    → id * x * (q - 1) + (q + (if id == 3 then 2 else 1)) * x ≤ x * y
parts_fit id x zero y h1 h2 h3 = absurd (omega (arith, h2))
parts_fit zero x (suc r) y h1 h2 h3 = rw (predecessor r) (omega (arith, rows_fit x r y h3))
parts_fit (suc zero) x (suc r) y h1 h2 h3 = rw (predecessor r) (omega (arith, rows_fit x r y h3))
parts_fit (suc (suc zero)) x (suc r) y h1 h2 h3 =
    rw (predecessor r) (omega (arith, rows_fit x r y h3))
parts_fit (suc (suc (suc zero))) x (suc r) y h1 h2 h3 =
    rw (predecessor r) (omega (arith, rows_fit x r y h3))
parts_fit (suc (suc (suc (suc n)))) x (suc r) y h1 h2 h3 = absurd (omega (arith, h1))

part_fits :
    (id xres yres : ℕ)
    → id < 4
    → 4 ≤ yres
    → part_start id xres yres + part_height id yres * xres ≤ xres * yres
part_fits id xres yres h1 h2 =
    parts_fit id xres (yres / 4) yres h1 (omega (arith, h2)) (omega arith)

-- On a screen of at least 2 by 4 pixels, a round of each of the four threads ends, stays on the screen,
-- and changes only the rows within its part.
pub fade_part-Faded :
    (id xres yres : ℕ) (mem : Memory)
    → id < 4
    → 2 ≤ xres
    → 4 ≤ yres
    → length mem ≡ xres * yres
    → (after : Memory) × (fade_part id xres yres mem ≡ ok after)
      × Faded
          (part_start id xres yres + xres)
          (part_start id xres yres + xres + (part_height id yres - 2) * xres)
          mem
          after
unfolding fade_part
fade_part-Faded id xres yres mem h1 h2 h3 h =
    fade-Faded mem (part_start id xres yres) xres (part_height id yres) h2
      (part_height_le id yres h3) (omega (arith, part_fits id xres yres h1 h3, h))

-- On a screen of at least 4 rows, the rows that thread `id + 1` writes begin where those that thread
-- `id` writes end, so no two threads write to the same pixel.
pub part_start-suc :
    (id xres yres : ℕ)
    → id < 3
    → 4 ≤ yres
    → part_start id xres yres + xres + (part_height id yres - 2) * xres
      ≡ part_start (suc id) xres yres + xres
part_start-suc id xres yres h1 h2 =
    let height : part_height id yres - 2 ≡ yres / 4 - 1 = ground arith in rw height (omega arith)
