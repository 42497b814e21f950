-- ===== src/Fbview/Player/Laws.antt =====
-- Whatever keys come before KEY_ESC, the player stays inside the bitmap and the screen.
use tcb.Base.{
  ℕ, zero, suc, ◌+◌, ◌*◌, ◌^◌, ◌<◌, ◌≤◌, ◌≡◌, refl, ◌⊎◌, inl, List, [], ◌∷◌, Res, ok, ◌>>=◌, ltb,
  if◌then◌else◌, length, arith, ◌∙◌,
}
use native.Mathlib.Nat.{mul-le-mul_right, add-mul}
use tcb.Base.Memory.{Memory, memcpy_ok, length-copied, copied}
use tcb.Fbview.Render.{Screen, render_rows}
use tcb.Fbview.View.{fb_clear_screen_lem}
use tcb.Fbview.Player.{
  Key, escape, up, down, left, right, other, Position, step_on, step_back, move, copy_mem_size,
  bitmap_render, play_keys, bitmap_play,
}

-- A place along one side: at the front, or with the screen's length behind it.
abbrev pub Fits : ℕ → ℕ → ℕ → Type 0
Fits res size position = (position ≡ 0) ⊎ (position + res ≤ size)

step_on-Fits :
    (res size position : ℕ)
    → 2 ≤ size
    → 2 ≤ res
    → size < 2 ^ 32
    → Fits res size position
    → Fits res size (step_on res size position)
step_on-Fits res size position h1 h2 h3 f = ground arith

step_back-Fits :
    (res size position : ℕ) → Fits res size position → Fits res size (step_back position)
step_back-Fits res size position f = ground arith

-- Rows that all have their place are copied.
render_rows_ok :
    (rows fb_line bmp_line copy : ℕ) (buffer : Memory) (p q : ℕ) (screen : Memory)
    → ((j : ℕ) → j < rows → p + j * fb_line + copy ≤ length screen)
    → ((j : ℕ) → j < rows → q + j * bmp_line + copy ≤ length buffer)
    → (after : Memory) × (render_rows rows fb_line bmp_line copy buffer p q screen ≡ ok after)
      × (length after ≡ length screen)
unfolding render_rows
render_rows_ok zero fb_line bmp_line copy buffer p q screen hp hq = (screen, refl, refl)
render_rows_ok (suc rows) fb_line bmp_line copy buffer p q screen hp hq =
    let hp0 : p + copy ≤ length screen = omega (arith, hp 0 (omega arith)) in
    let hq0 : q + copy ≤ length buffer = omega (arith, hq 0 (omega arith)) in
    let len = length-copied p copy q screen buffer hp0 hq0 in
    let rest =
      render_rows_ok rows fb_line bmp_line copy buffer (p + fb_line) (q + bmp_line)
        (copied p copy q screen buffer) (λ j h. omega (arith, hp (suc j) (omega (arith, h)), len))
        (λ j h. omega (arith, hq (suc j) (omega (arith, h)))) in
    (rest.0, rw (memcpy_ok p copy q screen buffer hp0 hq0, ◌>>=◌, rest.1), rest.2 ∙ len)

-- The columns that are shown.
abbrev columns : ℕ → ℕ → ℕ
columns res size = if ltb size res then size else res

copy_mem_size_eq :
    (s : Screen) (buffer : Memory) (width height : ℕ)
    → copy_mem_size s buffer width height ≡ columns s.xres width * s.pixelsize
copy_mem_size_eq s buffer width height = ground arith

columns_fit : (res size position : ℕ) → Fits res size position → position + columns res size ≤ size
columns_fit res size position f = ground arith

columns-le : (res size : ℕ) → columns res size ≤ res
columns-le res size = ground arith

-- A row of part of a picture of `w` by `h`.
part_fits :
    (w h size x cols y j rows : ℕ)
    → x + cols ≤ w
    → y + rows ≤ h
    → j < rows
    → y * (w * size) + x * size + j * (w * size) + cols * size ≤ h * (w * size)
part_fits w h size x cols y j rows hx hy hj =
    let across : (x + cols) * size ≤ w * size = mul-le-mul_right size hx in
    let along : suc (y + j) * (w * size) ≤ h * (w * size) =
      mul-le-mul_right (w * size) (omega (arith, hy, hj)) in
    let line : suc (y + j) * (w * size) ≡ w * size + y * (w * size) + j * (w * size) =
      omega arith in
    let both : (x + cols) * size ≡ x * size + cols * size = add-mul x cols size in
    omega (arith, across, along, line, both)

-- Where the player can be.
pub record IsPlayable (s : Screen) (buffer : Memory) (width height : ℕ) : Type 0 where
  pub wide : (2 ≤ width) × (2 ≤ s.xres)
  pub high : (2 ≤ height) × (2 ≤ s.yres)
  pub words : (width < 2 ^ 32) × (height < 2 ^ 32)
  pub whole : height * (width * s.pixelsize) ≤ length buffer

-- The keys that come have KEY_ESC among them.
abbrev pub HasEscape : List Key → Type 0
HasEscape [] = ⊥
HasEscape (escape ∷ keys) = Unit
HasEscape (up ∷ keys) = HasEscape keys
HasEscape (down ∷ keys) = HasEscape keys
HasEscape (left ∷ keys) = HasEscape keys
HasEscape (right ∷ keys) = HasEscape keys
HasEscape (other ∷ keys) = HasEscape keys

abbrev pub FitsIn : Screen → ℕ → ℕ → Position → Type 0
FitsIn s width height p = Fits s.xres width p.x × Fits s.yres height p.y

module _ (s : Screen) (buffer : Memory) (width height : ℕ)
    (v : IsPlayable s buffer width height) where
  move-FitsIn :
      (k : Key) (p : Position)
      → FitsIn s width height p
      → FitsIn s width height (move s buffer width height k p)
  unfolding move
  move-FitsIn escape p f = f
  move-FitsIn other p f = f
  move-FitsIn up p f = (f.0, step_back-Fits s.yres height p.y f.1)
  move-FitsIn down p f = (f.0, step_on-Fits s.yres height p.y v.high.0 v.high.1 v.words.1 f.1)
  move-FitsIn left p f = (step_back-Fits s.xres width p.x f.0, f.1)
  move-FitsIn right p f = (step_on-Fits s.xres width p.x v.wide.0 v.wide.1 v.words.0 f.0, f.1)

  abbrev pub Renders : Memory → Res Memory → Type 0
  Renders screen r = (after : Memory) × (r ≡ ok after) × (length after ≡ length screen)

  bitmap_render-Renders :
      (p : Position) (screen : Memory)
      → FitsIn s width height p
      → s.yres * (s.xres * s.pixelsize) ≤ length screen
      → Renders screen (bitmap_render s buffer width height p screen)
  unfolding bitmap_render
  bitmap_render-Renders p screen f fits =
      let copy = copy_mem_size_eq s buffer width height in
      render_rows_ok (columns s.yres height) (s.xres * s.pixelsize) (width * s.pixelsize)
        (copy_mem_size s buffer width height) buffer 0
        (p.y * (width * s.pixelsize) + p.x * s.pixelsize) screen
        (λ j h.
          let place =
            part_fits s.xres s.yres s.pixelsize 0 (columns s.xres width) 0 j (columns s.yres height)
              (omega (arith, columns-le s.xres width)) (omega (arith, columns-le s.yres height))
              h in
          omega (arith, place, fits, copy))
        (λ j h.
          let place =
            part_fits width height s.pixelsize p.x (columns s.xres width) p.y j
              (columns s.yres height) (columns_fit s.xres width p.x f.0)
              (columns_fit s.yres height p.y f.1) h in
          omega (arith, place, v.whole, copy))

  -- A key that is not the last.
  abbrev after_key : Key → List Key → Position → Memory → Res Memory
  after_key k keys p screen =
      bitmap_render s buffer width height (move s buffer width height k p) screen >>= λ screen1.
      play_keys s buffer width height keys (move s buffer width height k p) screen1

  then_keys :
      (k : Key) (keys : List Key) (p : Position) (screen : Memory)
      → FitsIn s width height p
      → s.yres * (s.xres * s.pixelsize) ≤ length screen
      → ((q : Position) (m : Memory)
          → FitsIn s width height q
          → s.yres * (s.xres * s.pixelsize) ≤ length m
          → Renders m (play_keys s buffer width height keys q m))
      → Renders screen (after_key k keys p screen)
  then_keys k keys p screen f fits more =
      let q = move s buffer width height k p in
      let fq = move-FitsIn k p f in
      let one = bitmap_render-Renders q screen fq fits in
      let rest = more q one.0 fq (omega (arith, fits, one.2)) in
      (rest.0, rw (one.1, ◌>>=◌, rest.1), rest.2 ∙ one.2)

  play_keys-Renders :
      (keys : List Key) (p : Position) (screen : Memory)
      → HasEscape keys
      → FitsIn s width height p
      → s.yres * (s.xres * s.pixelsize) ≤ length screen
      → Renders screen (play_keys s buffer width height keys p screen)
  unfolding play_keys
  play_keys-Renders [] p screen e f fits = absurd e
  play_keys-Renders (escape ∷ keys) p screen e f fits = (screen, refl, refl)
  play_keys-Renders (up ∷ keys) p screen e f fits =
      then_keys up keys p screen f fits (λ q m. play_keys-Renders keys q m e)
  play_keys-Renders (down ∷ keys) p screen e f fits =
      then_keys down keys p screen f fits (λ q m. play_keys-Renders keys q m e)
  play_keys-Renders (left ∷ keys) p screen e f fits =
      then_keys left keys p screen f fits (λ q m. play_keys-Renders keys q m e)
  play_keys-Renders (right ∷ keys) p screen e f fits =
      then_keys right keys p screen f fits (λ q m. play_keys-Renders keys q m e)
  play_keys-Renders (other ∷ keys) p screen e f fits =
      then_keys other keys p screen f fits (λ q m. play_keys-Renders keys q m e)

-- Whatever keys come before KEY_ESC, the player stays inside the bitmap: with a bitmap and a screen of two columns and
-- rows at least, a screen of the bytes of its rows and of those that are cleared, and KEY_ESC among the keys, `bitmap_play` comes to
-- its end without an access outside the bitmap or the screen, whose size stays.
pub bitmap_play_inside :
    (s : Screen) (buffer : Memory) (width height size : ℕ) (keys : List Key) (screen : Memory)
    → IsPlayable s buffer width height
    → HasEscape keys
    → s.yres * (s.xres * s.pixelsize) ≤ length screen
    → size ≤ length screen
    → (after : Memory) × (bitmap_play s buffer width height size keys screen ≡ ok after)
      × (length after ≡ length screen)
unfolding bitmap_play
bitmap_play_inside s buffer width height size keys screen v escapes fits whole =
    let start : Position = record { x = 0; y = 0 } in
    let at_start : FitsIn s width height start = (inl refl, inl refl) in
    let blank = fb_clear_screen_lem size screen whole in
    let shown =
      bitmap_render-Renders s buffer width height v start blank.0 at_start
        (omega (arith, fits, blank.2)) in
    let played =
      play_keys-Renders s buffer width height v keys start shown.0 escapes at_start
        (omega (arith, fits, blank.2, shown.2)) in
    let last =
      fb_clear_screen_lem size played.0 (omega (arith, whole, blank.2, shown.2, played.2)) in
    (
      last.0,
      rw (blank.1, ◌>>=◌, shown.1, ◌>>=◌, played.1, ◌>>=◌, last.1),
      last.2 ∙ played.2 ∙ shown.2 ∙ blank.2,
    )
