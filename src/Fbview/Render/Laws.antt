-- ===== src/Fbview/Render/Laws.antt =====
-- What is on the screen after `fb_pixmap_render`.
use tcb.Base.{
  ℕ, zero, suc, ◌+◌, ◌*◌, ◌<◌, ◌≤◌, ◌≡◌, refl, ok, length, get_or, arith, ap, ◌∙◌, ltb, Bool-cases,
  inl, inr,
}
use native.Mathlib.Nat.{mul-le-mul_right}
use tcb.Base.Memory.{Memory, copied, memcpy_ok, copied_at, kept_below, length-copied}
use tcb.Fbview.Render.{Screen, render_rows, copy_size, rows_shown, fb_pixmap_render}

-- The rows fit: `rows` lines of each memory from the two places on.
module _ (fb_line bmp_line copy : ℕ) (fb_pixmap : Memory) (small : copy ≤ fb_line) where
  abbrev Shown : ℕ → ℕ → ℕ → Memory → Memory → Type 0
  Shown rows p q before after =
      (length after ≡ length before)
      × ((i : ℕ) → i < p → get_or after i 0 ≡ get_or before i 0)
      × ((j k : ℕ)
          → j < rows
          → k < copy
          → get_or after (p + j * fb_line + k) 0 ≡ get_or fb_pixmap (q + j * bmp_line + k) 0)

  -- The first row, and the others.
  one_more :
      (rows p q : ℕ) (after : Memory)
      → ((k : ℕ) → k < copy → get_or after (p + k) 0 ≡ get_or fb_pixmap (q + k) 0)
      → ((j k : ℕ)
          → j < rows
          → k < copy
          → get_or after (p + fb_line + j * fb_line + k) 0
            ≡ get_or fb_pixmap (q + bmp_line + j * bmp_line + k) 0)
      → (j k : ℕ) → j < suc rows
      → k < copy
      → get_or after (p + j * fb_line + k) 0 ≡ get_or fb_pixmap (q + j * bmp_line + k) 0
  one_more rows p q after here shown zero k l m =
      ap (λ i. get_or after i 0) (omega arith)
      ∙ here k m
      ∙ ap (λ i. get_or fb_pixmap i 0) (omega arith)
  one_more rows p q after here shown (suc j) k l m =
      ap (λ i. get_or after i 0) (omega arith)
      ∙ shown j k (omega (arith, l)) m
      ∙ ap (λ i. get_or fb_pixmap i 0) (omega arith)

  pub render_rows-Shown :
      (rows p q : ℕ) (screen : Memory)
      → p + rows * fb_line ≤ length screen
      → copy ≤ bmp_line
      → q + rows * bmp_line ≤ length fb_pixmap
      → (after : Memory) × (render_rows rows fb_line bmp_line copy fb_pixmap p q screen ≡ ok after)
        × Shown rows p q screen after
  unfolding render_rows
  render_rows-Shown zero p q screen h1 h h2 =
      (screen, refl, (refl, λ i l. refl, λ j k l m. absurd (omega (arith, l))))
  render_rows-Shown (suc rows) p q screen h1 h h2 =
      let in_screen : p + copy ≤ length screen = omega (arith, h1, small) in
      let in_pixmap : q + copy ≤ length fb_pixmap = omega (arith, h2, h) in
      let first = copied p copy q screen fb_pixmap in
      let len = length-copied p copy q screen fb_pixmap in_screen in_pixmap in
      let (after, runs, (same, kept, shown)) =
        render_rows-Shown rows (p + fb_line) (q + bmp_line) first (omega (arith, h1, len)) h
          (omega (arith, h2)) in
      let here : (k : ℕ) → k < copy → get_or after (p + k) 0 ≡ get_or fb_pixmap (q + k) 0 = λ k m.
        kept (p + k) (omega (arith, m, small))
        ∙ copied_at p copy q screen fb_pixmap in_screen in_pixmap k m in
      (
        after,
        rw (memcpy_ok p copy q screen fb_pixmap in_screen in_pixmap) runs,
        (
          same ∙ len,
          λ i l.
              kept i (omega (arith, l))
              ∙ kept_below p copy q screen fb_pixmap in_screen in_pixmap i l,
          one_more rows p q after here shown,
        ),
      )

copy_size-le :
    (s : Screen) (width : ℕ)
    → (copy_size s width ≤ s.xres * s.pixelsize) × (copy_size s width ≤ width * s.pixelsize)
copy_size-le s width = elim (Bool-cases (ltb width s.xres)) [
  | inl e ↦ rw e (mul-le-mul_right s.pixelsize (grind arith), omega arith)
  | inr e ↦ rw e (omega arith, mul-le-mul_right s.pixelsize (grind arith))
]

rows_shown-le : (s : Screen) (height line : ℕ) → rows_shown s height * line ≤ s.yres * line
rows_shown-le s height line = mul-le-mul_right line (grind arith)

-- `fb_pixmap_render`, on a screen of its size and from a place in the image behind which there are as
-- many lines as it shows, ends; byte `k` of row `j` of the screen is then byte `k` of row `j` from that
-- place on, for as many rows and bytes of a row as screen and image both have; the screen keeps its size.
pub fb_pixmap_render-shown :
    (s : Screen) (fb_pixmap : Memory) (width height pos_x pos_y : ℕ) (screen : Memory)
    → s.yres * (s.xres * s.pixelsize) ≤ length screen
    → pos_y * (width * s.pixelsize)
        + pos_x * s.pixelsize
        + rows_shown s height * (width * s.pixelsize)
      ≤ length fb_pixmap
    → (after : Memory) × (fb_pixmap_render s fb_pixmap width height pos_x pos_y screen ≡ ok after)
      × (length after ≡ length screen)
      × ((j k : ℕ)
          → j < rows_shown s height
          → k < copy_size s width
          → get_or after (j * (s.xres * s.pixelsize) + k) 0
            ≡ get_or fb_pixmap
                (pos_y * (width * s.pixelsize)
                  + pos_x * s.pixelsize
                  + j * (width * s.pixelsize)
                  + k)
                0)
unfolding fb_pixmap_render
fb_pixmap_render-shown s fb_pixmap width height pos_x pos_y screen h1 h2 =
    let fb_line = s.xres * s.pixelsize in
    let fits : 0 + rows_shown s height * fb_line ≤ length screen =
      omega (arith, rows_shown-le s height fb_line, h1) in
    let (after, runs, (len, kept, shown)) =
      render_rows-Shown fb_line (width * s.pixelsize) (copy_size s width) fb_pixmap
        ((copy_size-le s width).0) (rows_shown s height) 0
        (pos_y * (width * s.pixelsize) + pos_x * s.pixelsize) screen fits ((copy_size-le s width).1)
        h2 in
    (after, runs, len, λ j k l m. ap (λ i. get_or after i 0) (omega arith) ∙ shown j k l m)
