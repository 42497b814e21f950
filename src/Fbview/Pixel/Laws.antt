-- ===== src/Fbview/Pixel/Laws.antt =====
-- What is read back after a pixel is set.
use tcb.Base.{
  ℕ, ◌+◌, ◌*◌, ◌/◌, ◌%◌, ◌<◌, ◌≡◌, ◌≢◌, ok, ◌>>=◌, length, get_or, set, length-set, arith, sym,
}
use tcb.Base.Memory.{Memory, load-set_self, load-set_ne, load_ok, store_ok}
use tcb.Fbview.Pixel.{Colour, fb_set_pixel, fb_get_pixel}

-- The components of a colour are bytes.
pub record IsColour (c : Colour) : Type 0 where
  pub red : c.red < 256
  pub green : c.green < 256
  pub blue : c.blue < 256

-- What is left of a colour in a format of one byte, and in one of two.
abbrev pub rounded_8 : Colour → Colour
rounded_8 c = record { red = c.red / 32 * 32; green = c.green / 32 * 32; blue = c.blue / 64 * 64 }

abbrev pub rounded_16 : Colour → Colour
rounded_16 c = record { red = c.red / 8 * 8; green = c.green / 8 * 8; blue = c.blue / 8 * 8 }

get-set_8 :
    (mem : Memory) (dest : ℕ) (c old : Colour)
    → IsColour c
    → dest < length mem
    → (fb_set_pixel 1 mem dest c >>= λ m. fb_get_pixel 1 m dest old) ≡ ok (rounded_8 c)
unfolding fb_set_pixel fb_get_pixel
get-set_8 mem dest c old v h =
    let p = c.red / 32 * 32 + c.green / 32 * 4 + c.blue / 64 in
    let r : p / 32 * 32 ≡ c.red / 32 * 32 = omega arith in
    let g : p / 4 % 8 * 32 ≡ c.green / 32 * 32 = omega arith in
    let b : p % 4 * 64 ≡ c.blue / 64 * 64 = omega arith in
    rw (store_ok mem dest p h, load-set_self mem dest p h, r, g, b)

get-set_16 :
    (mem : Memory) (dest : ℕ) (c old : Colour)
    → IsColour c
    → dest + 1 < length mem
    → (fb_set_pixel 2 mem dest c >>= λ m. fb_get_pixel 2 m dest old) ≡ ok (rounded_16 c)
unfolding fb_set_pixel fb_get_pixel
get-set_16 mem dest c old v h =
    let hi = 128 + c.blue / 8 * 4 + c.green / 64 in
    let lo = c.green / 8 % 8 * 32 + c.red / 8 in
    let m1 = set mem (dest + 1) hi in
    let len = length-set mem (dest + 1) hi in
    let below : dest < length m1 = omega (arith, len, h) in
    let other : dest ≢ dest + 1 = λ e. absurd (omega (arith, e)) in
    let r : lo % 32 * 8 ≡ c.red / 8 * 8 = omega arith in
    let g : hi % 4 * 64 + lo / 32 * 8 ≡ c.green / 8 * 8 = omega arith in
    let b : hi / 4 % 32 * 8 ≡ c.blue / 8 * 8 = omega arith in
    rw (
      store_ok mem (dest + 1) hi h,
      store_ok m1 dest lo below,
      load-set_self m1 dest lo below,
      load-set_ne m1 dest (dest + 1) lo other (omega (arith, len, h)),
      load-set_self mem (dest + 1) hi h,
      r,
      g,
      b,
    )

-- A pixel of four bytes is set one byte further on than it is read, and its components in the opposite
-- order: green comes back as red, red as green, and blue is what was in memory before.
pub get-set_swapped :
    (mem : Memory) (dest : ℕ) (c old : Colour)
    → dest + 3 < length mem
    → (fb_set_pixel 4 mem dest c >>= λ m. fb_get_pixel 4 m dest old)
      ≡ ok (record { red = c.green; green = c.red; blue = get_or mem dest 0 })
unfolding fb_set_pixel fb_get_pixel
get-set_swapped mem dest c old h =
    let m1 = set mem (dest + 3) c.blue in
    let m2 = set m1 (dest + 2) c.green in
    let len1 = length-set mem (dest + 3) c.blue in
    let len2 = length-set m1 (dest + 2) c.green in
    let ne : (i j : ℕ) → i < j → dest + j ≢ dest + i = λ i j l e. absurd (omega (arith, e, l)) in
    let h2 : dest + 2 < length m1 = omega (arith, len1, h) in
    let h1 : dest + 1 < length m2 = omega (arith, len1, len2, h) in
    let h1' : dest + 1 < length m1 = omega (arith, len1, h) in
    rw (
      store_ok mem (dest + 3) c.blue h,
      store_ok m1 (dest + 2) c.green h2,
      store_ok m2 (dest + 1) c.red h1,
      -- The two bytes that were written, and the one that was not.
      load-set_ne m2 (dest + 1) (dest + 2) c.red (λ e. ne 1 2 (omega arith) (sym e))
          (omega (arith, len1, len2, h)),
      load-set_self m1 (dest + 2) c.green h2,
      load-set_self m2 (dest + 1) c.red h1,
      load-set_ne m2 (dest + 1) dest c.red (λ e. absurd (omega (arith, e)))
          (omega (arith, len1, len2, h)),
      load-set_ne m1 (dest + 2) dest c.green (λ e. absurd (omega (arith, e)))
          (omega (arith, len1, h)),
      load-set_ne mem (dest + 3) dest c.blue (λ e. absurd (omega (arith, e))) (omega (arith, h)),
      load_ok mem dest (omega (arith, h)),
    )

-- A pixel that is set and read back keeps the upper bits of its components with a pixel of one byte
-- (3, 3 and 2 bits) and of two bytes (5 bits each).
pub get-set :
    (mem : Memory) (dest : ℕ) (c old : Colour)
    → IsColour c
    → dest + 1 < length mem
    → ((fb_set_pixel 1 mem dest c >>= λ m. fb_get_pixel 1 m dest old) ≡ ok (rounded_8 c))
      × ((fb_set_pixel 2 mem dest c >>= λ m. fb_get_pixel 2 m dest old) ≡ ok (rounded_16 c))
get-set mem dest c old v h =
    (get-set_8 mem dest c old v (omega (arith, h)), get-set_16 mem dest c old v h)
