-- ===== src/Starfield/Stars/Moves.antt =====
-- The checks and the pixel of `update_star` on a wide screen.
use native.Mathlib.Nat.{mod-eq_of_lt}
use tcb.Base.{
  ℕ, zero, suc, ◌+◌, ◌-◌, ◌*◌, ◌%◌, ◌^◌, ◌<◌, ◌≤◌, ◌≡◌, ◌≢◌, refl, sym, ap, ap₂, ◌∙◌, Bool, true,
  false, ok, length, get_or, set, length-set, get_or-set_ne, get_or-set_self, not, ◌||◌, leb, arith,
}
use tcb.Base.Int.{ℤ, pos, negsuc, up, down, over, plus, less, is_positive}
use tcb.Base.Memory.{store_ok, pixel-lt}
use tcb.Starfield.Stars.{Star, Field, is_outside, draw_star, colour, limit}
use tcb.Starfield.Stars.Bounds.{limit_eq}

-- A screen on which every new star has its place.
pub record IsWide (f : Field) : Type 0 where
  pub wide : 262 ≤ f.xres
  pub high : 262 ≤ f.yres
  pub xres_int : f.xres < 2 ^ 31
  pub yres_int : f.yres < 2 ^ 31
  pub area_int : f.xres * f.yres < 2 ^ 31
  pub whole : f.xres * f.yres ≤ length f.screen

-- What `z` can be on the way from 4096 in steps of 24: never 0.
pub record IsStep (z : ℤ) : Type 0 where
  pub phase : (up z + 24 - down z) % 24 ≡ 16
  pub behind : down z ≤ 8

pub record Inside (f : Field) (s : Star) : Type 0 where
  pub left : 2 < s.screen_x
  pub right : s.screen_x + 2 < f.xres
  pub top : 2 < s.screen_y
  pub bottom : s.screen_y + 2 < f.yres

abbrev pub pixel : Field → Star → ℕ
pixel f s = s.screen_x + s.screen_y * f.xres

-- What a move leaves: the star inside the screen, a step closer than the pixel it has drawn, and no
-- other byte changed; a star on its steps stays on them.
pub record Drawn (f : Field) (s : Star) (f1 : Field) (s1 : Star) : Type 0 where
  pub same_xres : f1.xres ≡ f.xres
  pub same_yres : f1.yres ≡ f.yres
  pub same_length : length f1.screen ≡ length f.screen
  pub inside : Inside f s1
  pub on_step : IsStep s.z → IsStep s1.z
  pub drawn : get_or f1.screen (pixel f s1) 0 ≡ colour (plus s1.z 24)
  pub others : (i : ℕ) → i ≢ pixel f s1 → get_or f1.screen i 0 ≡ get_or f.screen i 0

pub over_ok : (a z : ℤ) → z ≢ pos 0 → (q : ℤ) × (over a z ≡ ok q)
over_ok a (pos zero) h = absurd (h refl)
over_ok a (pos (suc k)) h = (_, refl)
over_ok a (negsuc k) h = (_, refl)

less-IsStep : (z : ℤ) → IsStep z → is_positive z ≡ true → IsStep (less z 24)
less-IsStep (pos zero) h p = absurd (cc)
less-IsStep (pos (suc k)) h p = record {
  phase = ground (arith, h.phase);
  behind = ground (arith, h.phase);
}
less-IsStep (negsuc k) h p = absurd (cc)

-- The five checks on their numbers.
checks_off :
    (p : Bool) (x y a b : ℕ)
    → (not p || leb a x || leb b y || leb x 2 || leb y 2) ≡ false
    → (p ≡ true) × (x < a) × (y < b) × (2 < x) × (2 < y)
checks_off p x y a b h = ground arith

checks_on :
    (p : Bool) (x y a b : ℕ)
    → p ≡ true
    → x < a
    → y < b
    → 2 < x
    → 2 < y
    → (not p || leb a x || leb b y || leb x 2 || leb y 2) ≡ false
checks_on p x y a b hp ha hb hx hy = ground arith

module _ (f : Field) (s : Star) (w : IsWide f) where
  columns : limit f.xres + 2 ≡ f.xres
  columns = limit_eq f.xres (omega (arith, w.wide)) w.xres_int

  rows : limit f.yres + 2 ≡ f.yres
  rows = limit_eq f.yres (omega (arith, w.high)) w.yres_int

  pub checked : is_outside f s ≡ false → Inside f s × (is_positive s.z ≡ true)
  unfolding is_outside
  checked h =
      let c = checks_off (is_positive s.z) s.screen_x s.screen_y (limit f.xres) (limit f.yres) h in
      (
        record {
          left = c.3;
          right = omega (arith, c.1, columns);
          top = c.4;
          bottom = omega (arith, c.2, rows);
        },
        c.0,
      )

  pub checks_pass : Inside f s → is_positive s.z ≡ true → is_outside f s ≡ false
  unfolding is_outside
  checks_pass h p =
      checks_on (is_positive s.z) s.screen_x s.screen_y (limit f.xres) (limit f.yres) p
        (omega (arith, h.right, columns)) (omega (arith, h.bottom, rows)) h.left h.top

  pixel-lt_area : Inside f s → pixel f s < f.xres * f.yres
  pixel-lt_area h =
      pixel-lt s.screen_x s.screen_y f.xres f.yres (omega (arith, h.right))
        (omega (arith, h.bottom))

abbrev pub drawn_at : Field → Star → Field × Star
drawn_at f s =
    (record f { screen = set f.screen (pixel f s) (colour s.z) }, record s { z = less s.z 24 })

pub draw_star_ok :
    (f : Field) (s : Star) → IsWide f → Inside f s → draw_star f s ≡ ok (drawn_at f s)
unfolding draw_star
draw_star_ok f s w h =
    let on_screen = pixel-lt_area f s w h in
    let unwrapped : (s.screen_x + s.screen_y * f.xres) % 2 ^ 32 ≡ pixel f s =
      mod-eq_of_lt (omega (arith, on_screen, w.area_int)) in
    rw (unwrapped, store_ok f.screen (pixel f s) (colour s.z) (omega (arith, on_screen, w.whole)))

-- A step back leads to the `z` that was drawn.
plus-less : (z : ℤ) → is_positive z ≡ true → plus (less z 24) 24 ≡ z
plus-less (pos k) p = ground arith
plus-less (negsuc k) p = absurd (cc)

pub drawn_at-Drawn :
    (f : Field) (s : Star)
    → IsWide f
    → Inside f s
    → is_positive s.z ≡ true
    → Drawn f s (drawn_at f s).0 (drawn_at f s).1
drawn_at-Drawn f s w h p = record {
  same_xres = refl;
  same_yres = refl;
  same_length = length-set f.screen (pixel f s) (colour s.z);
  inside = record { left = h.left; right = h.right; top = h.top; bottom = h.bottom };
  on_step = λ step. less-IsStep s.z step p;
  drawn =
      get_or-set_self f.screen (pixel f s) (colour s.z) 0
        (omega (arith, pixel-lt_area f s w h, w.whole))
      ∙ ap colour (sym (plus-less s.z p));
  others = λ i ne. get_or-set_ne f.screen (colour s.z) 0 (λ e. ne (sym e));
}

pub IsWide-same :
    (f g : Field)
    → g.xres ≡ f.xres
    → g.yres ≡ f.yres
    → length g.screen ≡ length f.screen
    → IsWide f
    → IsWide g
IsWide-same f g x y l w =
    let area : g.xres * g.yres ≡ f.xres * f.yres = ap₂ ◌*◌ x y in
    record {
      wide = omega (arith, w.wide, x);
      high = omega (arith, w.high, y);
      xres_int = omega (arith, w.xres_int, x);
      yres_int = omega (arith, w.yres_int, y);
      area_int = omega (arith, w.area_int, area);
      whole = omega (arith, w.whole, area, l);
    }
