-- ===== src/Starfield/Stars/Bounds.antt =====
-- Numbers behind the moves: the random table, a made star's first place, and the pixels of a screen.
use tcb.Base.{
  ℕ, zero, suc, ◌+◌, ◌^◌, ◌<◌, ◌≤◌, ◌≡◌, refl, Bool, true, ◌&&◌, List, [], ◌∷◌, ok, leb, get_or,
  arith,
}
use tcb.Base.Int.{ℤ, pos, negsuc, plus, times, over, word, up, down}
use tcb.Starfield.Stars.{rndtable, limit}

-- A signed char.
pub record IsChar (z : ℤ) : Type 0 where
  pub above : up z ≤ 127
  pub below : down z ≤ 128

chars : List ℤ → Bool
chars [] = true
chars (z ∷ zs) = (leb (up z) 127 && leb (down z) 128) && chars zs

chars-get_or : (zs : List ℤ) (i : ℕ) → chars zs ≡ true → IsChar (get_or zs i (pos 0))
unfolding chars
chars-get_or [] i h = record { above = omega arith; below = omega arith }
chars-get_or (z ∷ zs) zero h = record { above = ground arith; below = ground arith }
chars-get_or (z ∷ zs) (suc i) h = chars-get_or zs i (ground arith)

table_chars : chars rndtable ≡ true
unfolding chars
table_chars = refl

pub rndtable-IsChar : (i : ℕ) → IsChar (get_or rndtable i (pos 0))
rndtable-IsChar i = chars-get_or rndtable i table_chars

-- At `zmax`, a star stands its random number from the middle of the screen.
pub over-zmax : (e : ℤ) → over (times (times e 16) 256) (pos 4096) ≡ ok e
over-zmax (pos k) = ground arith
over-zmax (negsuc k) = ground arith

pub word-middle :
    (e : ℤ) (half : ℕ)
    → IsChar e
    → 131 ≤ half
    → half < 2 ^ 31
    → word (plus e half) + down e ≡ half + up e
word-middle (pos k) half h m b = ground (arith, h.above, h.below)
word-middle (negsuc k) half h m b = ground (arith, h.above, h.below)

pub limit_eq : (width : ℕ) → 2 ≤ width → width < 2 ^ 31 → limit width + 2 ≡ width
limit_eq width h b = omega arith
