-- ===== src/Fbview/Bmp/Pixels.antt =====
-- A pixel that is read, and written somewhere else.
use tcb.Base.{
  ℕ, suc, ◌+◌, ◌*◌, ◌/◌, ◌%◌, ◌≤◌, ◌<◌, ◌≡◌, ◌≢◌, refl, ◌⊎◌, inl, inr, ok, arith, sym, ◌∙◌, length,
  get_or, set, length-set, get_or-set_self, get_or-set_ne, subst,
}
use native.Mathlib.Decide.{dec_le}
use tcb.Base.Memory.{Memory, load_ok, store_ok}
use tcb.Fbview.Pixel.{Colour, fb_set_pixel, fb_get_pixel}
use tcb.Fbview.Rotate.{unread}

-- The bytes from `a` on, `n` of them, are those of `source`, and all others are as they were.
pub record Written (mem after source : Memory) (a n : ℕ) : Type 0 where
  pub same_length : length after ≡ length mem
  pub same : (k : ℕ) → a ≤ k → k < a + n → get_or after k 0 ≡ get_or source k 0
  pub kept : (k : ℕ) → (k < a) ⊎ (a + n ≤ k) → get_or after k 0 ≡ get_or mem k 0

pub Written-none : (mem source : Memory) (a : ℕ) → Written mem mem source a 0
Written-none mem source a = record {
  same_length = refl;
  same = λ k h1 h2. absurd (omega (arith, h1, h2));
  kept = λ k h. refl;
}

-- Two writes side by side are one.
pub Written-then :
    (mem first after source : Memory) (a n b m c : ℕ)
    → Written mem first source a n
    → Written first after source b m
    → ((c ≡ a) × (b ≡ a + n)) ⊎ ((c ≡ b) × (a ≡ b + m))
    → Written mem after source c (n + m)
Written-then mem first after source a n b m c w1 w2 side = record {
  same_length = w2.same_length ∙ w1.same_length;
  same = λ k h1 h2. elim (dec_le b k) [
    | yes h3 ↦ elim (dec_le (suc k) (b + m)) [
      | yes h4 ↦ w2.same k h3 (omega (arith, h4))
      | no h4 ↦ w2.kept k (inr (omega (arith, h4))) ∙ w1.same k (ground arith) (ground arith)
    ]
    | no h3 ↦ w2.kept k (inl (omega (arith, h3))) ∙ w1.same k (ground arith) (ground arith)
  ];
  kept = λ k h. w2.kept k (outside_second k h) ∙ w1.kept k (outside_first k h);
}
  where
    outside_second : (k : ℕ) → (k < c) ⊎ (c + (n + m) ≤ k) → (k < b) ⊎ (b + m ≤ k)
    outside_second k (inl h) = elim side [
      | inl s ↦ inl (omega (arith, h, s.0, s.1))
      | inr s ↦ inl (omega (arith, h, s.0, s.1))
    ]
    outside_second k (inr h) = elim side [
      | inl s ↦ inr (omega (arith, h, s.0, s.1))
      | inr s ↦ inr (omega (arith, h, s.0, s.1))
    ]

    outside_first : (k : ℕ) → (k < c) ⊎ (c + (n + m) ≤ k) → (k < a) ⊎ (a + n ≤ k)
    outside_first k (inl h) = elim side [
      | inl s ↦ inl (omega (arith, h, s.0, s.1))
      | inr s ↦ inl (omega (arith, h, s.0, s.1))
    ]
    outside_first k (inr h) = elim side [
      | inl s ↦ inr (omega (arith, h, s.0, s.1))
      | inr s ↦ inr (omega (arith, h, s.0, s.1))
    ]

-- One byte.
Written-set :
    (mem source : Memory) (a v : ℕ)
    → a < length mem
    → v ≡ get_or source a 0
    → Written mem (set mem a v) source a 1
Written-set mem source a v h e = record {
  same_length = length-set mem a v;
  same = λ k h1 h2.
      let here : a ≡ k = omega (arith, h1, h2) in
      subst (λ t. get_or (set mem a v) t 0 ≡ get_or source t 0) here
        (get_or-set_self mem a v 0 h ∙ e);
  kept = λ k out. get_or-set_ne mem v 0 (apart k out);
}
  where
    apart : (k : ℕ) → (k < a) ⊎ (a + 1 ≤ k) → a ≢ k
    apart k (inl h) e = absurd (omega (arith, h, e))
    apart k (inr h) e = absurd (omega (arith, h, e))

-- A pixel that comes back as it was: of one byte, or of two with the upper bit that `fb_set_pixel` sets.
abbrev pub IsPixel : ℕ → Memory → ℕ → Type 0
IsPixel pixelsize source dest =
    ((pixelsize ≡ 1) × (get_or source dest 0 < 256))
    ⊎ ((pixelsize ≡ 2)
        × (get_or source dest 0 < 256)
        × (128 ≤ get_or source (dest + 1) 0)
        × (get_or source (dest + 1) 0 < 256))

-- A pixel that is read from one memory and set in another at the same place.
pub record Moves (pixelsize : ℕ) (source mem : Memory) (dest : ℕ) : Type 0 where
  pub colour : Colour
  pub after : Memory
  pub gets : fb_get_pixel pixelsize source dest unread ≡ ok colour
  pub sets : fb_set_pixel pixelsize mem dest colour ≡ ok after
  pub written : Written mem after source dest pixelsize

Moves-8 :
    (source mem : Memory) (dest : ℕ)
    → get_or source dest 0 < 256
    → dest < length source
    → dest < length mem
    → Moves 1 source mem dest
unfolding fb_set_pixel fb_get_pixel
Moves-8 source mem dest byte h1 h2 =
    let d = get_or source dest 0 in
    let v = d / 32 * 32 / 32 * 32 + d / 4 % 8 * 32 / 32 * 4 + d % 4 * 64 / 64 in
    record {
      colour = record { red = d / 32 * 32; green = d / 4 % 8 * 32; blue = d % 4 * 64 };
      after = set mem dest v;
      gets = rw (load_ok source dest h1) refl;
      sets = store_ok mem dest v h2;
      written = Written-set mem source dest v h2 (omega (arith, byte));
    }

Moves-16 :
    (source mem : Memory) (dest : ℕ)
    → (get_or source dest 0 < 256)
      × (128 ≤ get_or source (dest + 1) 0)
      × (get_or source (dest + 1) 0 < 256)
    → dest + 1 < length source
    → dest + 1 < length mem
    → Moves 2 source mem dest
unfolding fb_set_pixel fb_get_pixel
Moves-16 source mem dest byte h1 h2 =
    let d0 = get_or source dest 0 in
    let d1 = get_or source (dest + 1) 0 in
    let red = d0 % 32 * 8 in
    let green = d1 % 4 * 64 + d0 / 32 * 8 in
    let blue = d1 / 4 % 32 * 8 in
    let hi = 128 + blue / 8 * 4 + green / 64 in
    let lo = green / 8 % 8 * 32 + red / 8 in
    let first = set mem (dest + 1) hi in
    let below : dest < length first = omega (arith, h2, length-set mem (dest + 1) hi) in
    let w1 = Written-set mem source (dest + 1) hi h2 (omega (arith, byte.0, byte.1, byte.2)) in
    let w2 = Written-set first source dest lo below (omega (arith, byte.0, byte.1, byte.2)) in
    record {
      colour = record { red = red; green = green; blue = blue };
      after = set first dest lo;
      gets = rw (load_ok source dest (omega (arith, h1)), load_ok source (dest + 1) h1) refl;
      sets = rw (store_ok mem (dest + 1) hi h2) (store_ok first dest lo below);
      written =
          Written-then mem first (set first dest lo) source (dest + 1) 1 dest 1 dest w1 w2
            (inr (refl, refl));
    }

pub IsPixel-Moves :
    (pixelsize : ℕ) (source mem : Memory) (dest : ℕ)
    → IsPixel pixelsize source dest
    → dest + pixelsize ≤ length source
    → length mem ≡ length source
    → Moves pixelsize source mem dest
IsPixel-Moves pixelsize source mem dest (inl (one, byte)) h e =
    subst (λ t. Moves t source mem dest) (sym one)
      (Moves-8 source mem dest byte (omega (arith, h, one)) (omega (arith, h, one, e)))
IsPixel-Moves pixelsize source mem dest (inr (two, low, marked, high)) h e =
    subst (λ t. Moves t source mem dest) (sym two)
      (Moves-16 source mem dest (low, marked, high) (omega (arith, h, two))
        (omega (arith, h, two, e)))
