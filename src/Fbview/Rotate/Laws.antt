-- ===== src/Fbview/Rotate/Laws.antt =====
-- `fb_pixmap_rotate` writes behind the new pixmap.
use tcb.Base.{
  ℕ, zero, suc, ◌+◌, ◌-◌, ◌*◌, ◌≤◌, ◌≡◌, refl, ◌⊎◌, inl, inr, some, Bool, true, false, Bool-cases,
  ltb, get_or, ◌==◌, ◌||◌, if◌then◌else◌, Res, ok, fault, ◌>>=◌, length, arith,
}
use native.Mathlib.Nat.{mul-le-mul_right}
use tcb.Base.Memory.{Memory, load, store}
use tcb.Fbview.Pixel.{Colour, fb_set_pixel, fb_get_pixel}
use tcb.Fbview.Rotate.{
  unread, move_pixel, rotate_row, rotate_rows, Pixmap, rotate_to, fb_pixmap_rotate,
}

-- A size of pixels of the framebuffer.
abbrev pub IsPixelsize : ℕ → Type 0
IsPixelsize s = (1 ≤ s) × (s ≤ 4)

pub set_out :
    (size : ℕ) (mem : Memory) (dest : ℕ) (c : Colour)
    → IsPixelsize size
    → length mem ≤ dest
    → fb_set_pixel size mem dest c ≡ fault
unfolding fb_set_pixel store
set_out size mem dest c v h = ground arith

-- A read is a colour or a fault.
unfoldable pub Reads : Res Colour → Type 0
Reads r = (r ≡ fault) ⊎ ((c : Colour) × (r ≡ ok c))

read-Reads :
    (m : Memory) (p : ℕ) (f : ℕ → Res Colour) → ((d : ℕ) → Reads (f d)) → Reads (load m p >>= f)
unfolding load Reads
read-Reads m p f h = elim (Bool-cases (ltb p (length m))) [
  | inl e ↦ rw e (h (get_or m p 0))
  | inr e ↦ rw e (inl refl)
]

if-Reads : (b : Bool) (r s : Res Colour) → Reads r → Reads s → Reads (if b then r else s)
if-Reads true r s h k = h
if-Reads false r s h k = k

pub get_cases :
    (size : ℕ) (mem : Memory) (dest : ℕ) (old : Colour) → Reads (fb_get_pixel size mem dest old)
unfolding fb_get_pixel Reads
get_cases size mem dest old =
    if-Reads (size == 1) _ _ (read-Reads mem dest _ (λ d. inr (_, refl))) (
      if-Reads (size == 2) _ _
        (read-Reads mem dest _ (λ d. read-Reads mem (dest + 1) _ (λ d1. inr (_, refl))))
        (if-Reads (size == 3 || size == 4) _ _
          (read-Reads mem dest _ (λ d.
            read-Reads mem (dest + 1) _ (λ d1. read-Reads mem (dest + 2) _ (λ d2. inr (_, refl)))))
          (inr (old, refl))))

-- The loops stop at a first pixel that has no place.
rotate_rows_out :
    (size : ℕ) (mem : Memory) (source target : ℕ → ℕ → ℕ) (rows row : ℕ) (new : Memory)
    → IsPixelsize size
    → 1 ≤ rows
    → 1 ≤ row
    → length new ≤ target 0 0 * size
    → rotate_rows size mem source target rows 0 row new ≡ fault
unfolding rotate_rows rotate_row move_pixel Reads
rotate_rows_out size mem source target zero row new v h1 h2 h = absurd (omega (arith, h1))
rotate_rows_out size mem source target (suc rows) zero new v h1 h2 h = absurd (omega (arith, h2))
rotate_rows_out size mem source target (suc rows) (suc row) new v h1 h2 h =
    elim (get_cases size mem (source 0 0 * size) unread) [
      | inl e ↦ rw e refl
      | inr (c, e) ↦ rw (e, set_out size new (target 0 0 * size) c v h) refl
    ]

minus_zero : (n : ℕ) → n - 0 ≡ n
minus_zero n = omega arith

-- A rotation by 180 or 270 of an image that is not empty writes behind the new pixmap of as many bytes
-- as the old one: the index of the first pixel is one row, or one image, too high.
pub fb_pixmap_rotate_out :
    (size rotate : ℕ) (new : Memory) (p : Pixmap)
    → IsPixelsize size
    → (rotate ≡ 180) ⊎ (rotate ≡ 270)
    → 1 ≤ p.w
    → 1 ≤ p.h
    → length new ≡ p.w * p.h * size
    → fb_pixmap_rotate size rotate (some new) p ≡ fault
unfolding fb_pixmap_rotate rotate_to
fb_pixmap_rotate_out size rotate new p v (inl e) h1 h2 h =
    let more : p.w * p.h ≤ p.w - 0 + (p.h - 0) * p.w =
      rw (minus_zero p.w, minus_zero p.h) (omega arith) in
    let out : length new ≤ (p.w - 0 + (p.h - 0) * p.w) * size =
      omega (arith, mul-le-mul_right size more, h) in
    rw
      (
        e,
        rotate_rows_out size p.memory (λ i j. i + j * p.w) (λ i j. p.w - i + (p.h - j) * p.w) p.h
            p.w new v h2 h1 out,
      )
      refl
fb_pixmap_rotate_out size rotate new p v (inr e) h1 h2 h =
    let more : p.w * p.h ≤ 0 + (p.w - 0) * p.h = rw (minus_zero p.w) (omega arith) in
    let out : length new ≤ (0 + (p.w - 0) * p.h) * size =
      omega (arith, mul-le-mul_right size more, h) in
    rw
      (
        e,
        rotate_rows_out size p.memory (λ i j. i + j * p.w) (λ i j. j + (p.w - i) * p.h) p.h p.w new
            v h2 h1 out,
      )
      refl
