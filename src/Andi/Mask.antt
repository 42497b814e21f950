-- ===== src/Andi/Mask.antt =====
-- The destination mask and the way into formation.
pub mod Laws
use tcb.Base.{
  ℕ, zero, suc, ◌+◌, ◌*◌, ◌/◌, ◌%◌, ◌^◌, Bool, true, false, Option, none, some, List, Res, ok,
  ◌>>=◌, ◌==◌, if◌then◌else◌, replicate,
}
use tcb.Base.Int.{ℤ}
use tcb.Base.Memory.{Memory, load, store}
use tcb.Andi.Penguin.{Rand, myrand, Penguin, Resolution}

-- `DESTINATION_MASK_WIDTH`, `DESTINATION_MASK_HEIGHT`, and the mask's pixels: what `Lock` gives, or
-- none where it fails. `(pixel x y)` is `src[x]` in row `y`.
pub record Mask : Type 0 where
  pub width : ℕ
  pub height : ℕ
  pub pixels : Option (ℕ → ℕ → ℕ)

pub record Coords : Type 0 where
  pub coords : Memory
  pub nr_coords : ℕ

-- `(src[x] & 0x00FFFFFF) == 0`
unfoldable pub is_black : ℕ → Bool
is_black pixel = (pixel % 2 ^ 24) == 0

abbrev pub scaled : ℕ → ℕ → ℕ
scaled size k = k * (1000 / size)

-- A pixel of the mask.
unfoldable pub mask_pixel : Mask → (ℕ → ℕ → ℕ) → ℕ → ℕ → Coords → Res Coords
unfolding store
mask_pixel m pixel y x c = elim (is_black (pixel x y)) [
  | false ↦ ok c
  | true ↦ do
    first ← store c.coords (c.nr_coords * 2) (scaled m.width x)
    second ← store first (c.nr_coords * 2 + 1) (scaled m.height y)
    ok (record { coords = second; nr_coords = c.nr_coords + 1 })
]

-- The loops over the pixels of a row, and over the rows, with so many rounds to go.
unfoldable pub mask_row : Mask → (ℕ → ℕ → ℕ) → ℕ → ℕ → ℕ → Coords → Res Coords
unfolding mask_pixel
mask_row m pixel y zero x c = ok c
mask_row m pixel y (suc rounds) x c = do
  c1 ← mask_pixel m pixel y x c
  mask_row m pixel y rounds (suc x) c1

unfoldable pub mask_rows : Mask → (ℕ → ℕ → ℕ) → ℕ → ℕ → Coords → Res Coords
unfolding mask_row
mask_rows m pixel zero y c = ok c
mask_rows m pixel (suc rounds) y c = do
  c1 ← mask_row m pixel y m.width 0 c
  mask_rows m pixel rounds (suc y) c1

-- `read_destination_mask`; `calloc` does not run out of memory.
unfoldable pub read_destination_mask : Mask → Res Coords
unfolding mask_rows
read_destination_mask m =
    let c : Coords = record { coords = replicate (m.width * m.height) 0; nr_coords = 0 } in
    elim m.pixels [ none ↦ ok c | some pixel ↦ mask_rows m pixel m.height 0 c ]

-- The body of the loop of `penguins_search_destination`. `toward p size c` is the floating-point
-- `p - c * size/1000.0f`, cut to an int.
unfoldable pub search_destination :
    (ℤ → ℕ → ℕ → ℤ) → Resolution → Coords → Rand → Penguin → Res (Rand × Penguin)
unfolding myrand load
search_destination toward s c r p =
    let (number, r1) = myrand r in
    let entry = number % c.nr_coords * 2 in
    do
      across ← load c.coords entry
      along ← load c.coords (entry + 1)
      ok (
        r1,
        record p {
          x_togo = toward p.x s.xres across;
          y_togo = toward p.y s.yres along;
          moving = false;
        },
      )
