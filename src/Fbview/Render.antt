-- ===== src/Fbview/Render.antt =====
-- `fb_pixmap_render`: row by row onto the screen, at most as much as both have.
pub mod Laws
use tcb.Base.{ℕ, zero, suc, ◌+◌, ◌*◌, Res, ok, ◌>>=◌, ltb, if◌then◌else◌}
use tcb.Base.Memory.{Memory, memcpy}

-- The globals that it reads.
pub record Screen : Type 0 where
  pub xres : ℕ
  pub yres : ℕ
  pub pixelsize : ℕ

-- The loop, with the rows left; `tmp_screen` and `tmp_bmp` are taken after their increment.
unfoldable pub render_rows : ℕ → ℕ → ℕ → ℕ → Memory → ℕ → ℕ → Memory → Res Memory
render_rows zero fb_line bmp_line copy fb_pixmap p q screen = ok screen
render_rows (suc rows) fb_line bmp_line copy fb_pixmap p q screen = do
  screen1 ← memcpy screen p fb_pixmap q copy
  render_rows rows fb_line bmp_line copy fb_pixmap (p + fb_line) (q + bmp_line) screen1

abbrev pub copy_size : Screen → ℕ → ℕ
copy_size s width = if ltb width s.xres then width * s.pixelsize else s.xres * s.pixelsize

abbrev pub rows_shown : Screen → ℕ → ℕ
rows_shown s height = if ltb height s.yres then height else s.yres

-- `fb_pixmap_render`
unfoldable pub fb_pixmap_render : Screen → Memory → ℕ → ℕ → ℕ → ℕ → Memory → Res Memory
unfolding render_rows
fb_pixmap_render s fb_pixmap width height pos_x pos_y screen =
    let bmp_line = width * s.pixelsize in
    render_rows (rows_shown s height) (s.xres * s.pixelsize) bmp_line (copy_size s width) fb_pixmap
      0 (pos_y * bmp_line + pos_x * s.pixelsize) screen
