-- ===== src/Fbview/Pixel/At.antt =====
-- Pixels of one and two bytes as they stand in memory.
use tcb.Base.{
  ℕ, zero, suc, ◌+◌, ◌*◌, ◌/◌, ◌%◌, ◌<◌, ◌≤◌, ◌≡◌, refl, ◌⊎◌, inl, inr, ok, length, get_or, set,
  length-set, get_or-set_self, get_or-set_ne, subst, ◌>>=◌, arith, sym, ap, ap₂, ◌∙◌,
}
use native.Mathlib.Nat.{mul-le-mul_right}
use tcb.Base.Memory.{Memory, load_ok, store_ok}
use tcb.Fbview.Pixel.{Colour, fb_set_pixel, fb_get_pixel}
use tcb.Fbview.Pixel.Laws.{IsColour, rounded_8, rounded_16}

-- The formats of one byte and of two.
abbrev pub IsFormat : ℕ → Type 0
IsFormat size = (size ≡ 1) ⊎ (size ≡ 2)

abbrev pub rounded : ℕ → Colour → Colour
rounded zero c = c
rounded (suc zero) c = rounded_8 c
rounded (suc (suc n)) c = rounded_16 c

abbrev colour_8 : ℕ → Colour
colour_8 d = record { red = d / 32 * 32; green = d / 4 % 8 * 32; blue = d % 4 * 64 }

abbrev colour_16 : ℕ → ℕ → Colour
colour_16 d0 d1 = record {
  red = d0 % 32 * 8;
  green = d1 % 4 * 64 + d0 / 32 * 8;
  blue = d1 / 4 % 32 * 8;
}

abbrev pub colour_at : ℕ → Memory → ℕ → Colour
colour_at zero mem dest = colour_8 0
colour_at (suc zero) mem dest = colour_8 (get_or mem dest 0)
colour_at (suc (suc n)) mem dest = colour_16 (get_or mem dest 0) (get_or mem (dest + 1) 0)

pub get_at :
    (size : ℕ) (mem : Memory) (dest : ℕ) (old : Colour)
    → IsFormat size
    → dest + size ≤ length mem
    → fb_get_pixel size mem dest old ≡ ok (colour_at size mem dest)
unfolding fb_get_pixel
get_at size mem dest old (inl e) h =
    let below : dest < length mem = omega (arith, e, h) in rw (e, load_ok mem dest below)
get_at size mem dest old (inr e) h =
    let below : dest < length mem = omega (arith, e, h) in
    let above : dest + 1 < length mem = omega (arith, e, h) in
    rw (e, load_ok mem dest below, load_ok mem (dest + 1) above)

-- The bytes outside a pixel are the same.
abbrev pub SameOutside : ℕ → ℕ → Memory → Memory → Type 0
SameOutside from to mem after = (i : ℕ) → (i < from) ⊎ (to ≤ i) → get_or after i 0 ≡ get_or mem i 0

-- What setting a pixel leaves.
pub record HasPixel (size : ℕ) (mem : Memory) (dest : ℕ) (c : Colour) (after : Memory)
    : Type 0 where
  pub same_length : length after ≡ length mem
  pub outside : SameOutside dest (dest + size) mem after
  pub colour : IsColour c → colour_at size after dest ≡ rounded size c

abbrev byte_of : Colour → ℕ
byte_of c = c.red / 32 * 32 + c.green / 32 * 4 + c.blue / 64

abbrev low_of : Colour → ℕ
low_of c = c.green / 8 % 8 * 32 + c.red / 8

abbrev high_of : Colour → ℕ
high_of c = 128 + c.blue / 8 * 4 + c.green / 64

colour_8-byte_of : (c : Colour) → IsColour c → colour_8 (byte_of c) ≡ rounded_8 c
colour_8-byte_of c v =
    let p = byte_of c in
    let r : p / 32 * 32 ≡ c.red / 32 * 32 = omega (arith, v.red, v.green, v.blue) in
    let g : p / 4 % 8 * 32 ≡ c.green / 32 * 32 = omega (arith, v.red, v.green, v.blue) in
    let b : p % 4 * 64 ≡ c.blue / 64 * 64 = omega (arith, v.red, v.green, v.blue) in rw (r, g, b)

colour_16-low_of : (c : Colour) → IsColour c → colour_16 (low_of c) (high_of c) ≡ rounded_16 c
colour_16-low_of c v =
    let lo = low_of c in
    let hi = high_of c in
    let r : lo % 32 * 8 ≡ c.red / 8 * 8 = omega (arith, v.red, v.green, v.blue) in
    let g : hi % 4 * 64 + lo / 32 * 8 ≡ c.green / 8 * 8 = omega (arith, v.red, v.green, v.blue) in
    let b : hi / 4 % 32 * 8 ≡ c.blue / 8 * 8 = omega (arith, v.red, v.green, v.blue) in rw (r, g, b)

set_8 :
    (mem : Memory) (dest : ℕ) (c : Colour)
    → dest + 1 ≤ length mem
    → (after : Memory) × (fb_set_pixel 1 mem dest c ≡ ok after) × HasPixel 1 mem dest c after
unfolding fb_set_pixel
set_8 mem dest c h = (
  set mem dest (byte_of c),
  store_ok mem dest (byte_of c) (omega (arith, h)),
  record {
    same_length = length-set mem dest (byte_of c);
    outside = λ i out. get_or-set_ne mem (byte_of c) 0 (ground arith);
    colour = λ v.
        ap colour_8 (get_or-set_self mem dest (byte_of c) 0 (omega (arith, h)))
        ∙ colour_8-byte_of c v;
  },
)

set_16 :
    (mem : Memory) (dest : ℕ) (c : Colour)
    → dest + 2 ≤ length mem
    → (after : Memory) × (fb_set_pixel 2 mem dest c ≡ ok after) × HasPixel 2 mem dest c after
unfolding fb_set_pixel
set_16 mem dest c h =
    let m1 = set mem (dest + 1) (high_of c) in
    let len = length-set mem (dest + 1) (high_of c) in
    (
      set m1 dest (low_of c),
      rw (
        store_ok mem (dest + 1) (high_of c) (omega (arith, h)),
        ◌>>=◌,
        store_ok m1 dest (low_of c) (omega (arith, h, len)),
      ),
      record {
        same_length = length-set m1 dest (low_of c) ∙ len;
        outside = λ i out.
            get_or-set_ne m1 (low_of c) 0 (ground arith)
            ∙ get_or-set_ne mem (high_of c) 0 (ground arith);
        colour = λ v.
            ap₂ colour_16 (get_or-set_self m1 dest (low_of c) 0 (omega (arith, h, len))) (
              get_or-set_ne m1 (low_of c) 0 (λ e. omega (arith, e))
              ∙ get_or-set_self mem (dest + 1) (high_of c) 0 (omega (arith, h)))
            ∙ colour_16-low_of c v;
      },
    )

pub set_at :
    (size : ℕ) (mem : Memory) (dest : ℕ) (c : Colour)
    → IsFormat size
    → dest + size ≤ length mem
    → (after : Memory) × (fb_set_pixel size mem dest c ≡ ok after) × HasPixel size mem dest c after
set_at size mem dest c (inl e) h =
    let r = set_8 mem dest c (omega (arith, e, h)) in
    (
      r.0,
      ap (λ s. fb_set_pixel s mem dest c) e ∙ r.1,
      subst (λ s. HasPixel s mem dest c r.0) (sym e) r.2,
    )
set_at size mem dest c (inr e) h =
    let r = set_16 mem dest c (omega (arith, e, h)) in
    (
      r.0,
      ap (λ s. fb_set_pixel s mem dest c) e ∙ r.1,
      subst (λ s. HasPixel s mem dest c r.0) (sym e) r.2,
    )

-- A pixel stays where its bytes do.
pub colour_at_same :
    (size : ℕ) (mem after : Memory) (dest : ℕ)
    → ((i : ℕ) → dest ≤ i → i < dest + size → get_or after i 0 ≡ get_or mem i 0)
    → colour_at size after dest ≡ colour_at size mem dest
colour_at_same zero mem after dest h = refl
colour_at_same (suc zero) mem after dest h = ap colour_8 (h dest (omega arith) (omega arith))
colour_at_same (suc (suc n)) mem after dest h =
    ap₂ colour_16 (h dest (omega arith) (omega arith)) (h (dest + 1) (omega arith) (omega arith))

-- The bytes of a pixel lie before those of a later one.
pub pixel_before : (size i j : ℕ) → i < j → i * size + size ≤ j * size
pixel_before size i j h = omega (arith, mul-le-mul_right {m = suc i} {n = j} size h)
