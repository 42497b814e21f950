-- ===== src/Fbview/Raster.antt =====
-- The two loops in which pixmap.c, ds_jpeg.c and ds_png.c go through the pixels of a new pixmap.
pub mod Laws
use tcb.Base.{ℕ, zero, suc, Res, ok, ◌>>=◌}
use tcb.Base.Memory.{Memory}

module _ (pixel : ℕ → ℕ → Memory → Res Memory) where
  -- The inner loop with the rounds left, and the outer one.
  unfoldable pub raster_row : ℕ → ℕ → ℕ → Memory → Res Memory
  raster_row zero i j new = ok new
  raster_row (suc left) i j new = do new1 ← pixel i j new; raster_row left (suc i) j new1

  unfoldable pub raster_rows : ℕ → ℕ → ℕ → Memory → Res Memory
  unfolding raster_row
  raster_rows width zero j new = ok new
  raster_rows width (suc left) j new = do
    new1 ← raster_row width 0 j new
    raster_rows width left (suc j) new1
