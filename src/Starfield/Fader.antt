-- ===== src/Starfield/Fader.antt =====
-- `fade` of fader.c, and the call that `fade_worker` of main.c makes of it.
pub mod Laws
use tcb.Base.{ℕ, zero, suc, ◌+◌, ◌-◌, ◌*◌, ◌/◌, Res, ok, ◌>>=◌, ltb, ◌==◌, if◌then◌else◌}
use tcb.Base.Memory.{Memory, load, store}

-- `av` from the sum of the four neighbours.
abbrev pub dimmed : ℕ → ℕ
dimmed sum = if ltb 0 (sum / 4) then sum / 4 - 1 else sum / 4

-- One pixel: left, right, above and below.
unfoldable pub fade_pixel : ℕ → ℕ → Memory → Res Memory
fade_pixel width offset mem = do
  left ← load mem (offset - 1)
  right ← load mem (offset + 1)
  above ← load mem (offset - width)
  below ← load mem (offset + width)
  store mem offset (dimmed (left + right + above + below))

-- The inner loop with the rounds left; it ends behind the row.
unfoldable pub fade_row : ℕ → ℕ → ℕ → Memory → Res Memory
fade_row width zero offset mem = ok mem
fade_row width (suc left) offset mem = do
  mem1 ← fade_pixel width offset mem
  fade_row width left (suc offset) mem1

-- The outer loop with the rounds left. `offset` is that of the row's first pixel, which is skipped, as
-- the last one is: a round moves it on by `width - 2` and 2.
unfoldable pub fade_rows : ℕ → ℕ → ℕ → Memory → Res Memory
fade_rows width zero offset mem = ok mem
fade_rows width (suc left) offset mem = do
  mem1 ← fade_row width (width - 2) (offset + 1) mem
  fade_rows width left (offset + 1 + (width - 2) + 1) mem1

-- `fade(mem + ptr, width, height)`; `y` and `x` run from 1 to below `height - 1` and `width - 1`.
unfoldable pub fade : Memory → ℕ → ℕ → ℕ → Res Memory
fade mem ptr width height = fade_rows width (height - 2) (ptr + width) mem

-- The part of thread `id` of `NR_THREADS` = 4 threads, where `yres` is at least 4: its place in the
-- frame, and its height.
abbrev pub part_start : ℕ → ℕ → ℕ → ℕ
part_start id xres yres = id * xres * (yres / 4 - 1)

abbrev pub part_height : ℕ → ℕ → ℕ
part_height id yres = yres / 4 + (if id == 3 then 2 else 1)

-- A round of `fade_worker`.
unfoldable pub fade_part : ℕ → ℕ → ℕ → Memory → Res Memory
unfolding fade
fade_part id xres yres mem = fade mem (part_start id xres yres) xres (part_height id yres)
