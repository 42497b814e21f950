-- ===== src/Starfield/Stars/Palette.antt =====
-- The palette that `set_pal` writes, entry by entry.
use tcb.Base.{
  ℕ, zero, suc, ◌+◌, ◌-◌, ◌*◌, ◌%◌, ◌<◌, ◌≤◌, ◌≡◌, ◌⊎◌, inl, inr, refl, ap, ap₂, ◌∙◌, Res, ok,
  subst, ◌>>=◌, length, get_or, set, length-set, get_or-set_self, get_or-set_ne, arith,
}
use tcb.Base.Memory.{Memory, store, store_ok}
use native.Mathlib.Decide.{ℕ_discrete}
use tcb.Starfield.Stars.{fill_loop, pal_loop, set_pal, violet, orange, white}

-- The bytes of a round by number.
abbrev pub pick : ℕ × ℕ × ℕ → ℕ → ℕ
pick b zero = b.0
pick b (suc zero) = b.1
pick b (suc (suc c)) = b.2

-- What a loop of `left` rounds from byte `i` and number `s` on leaves.
pub record Painted (bytes : ℕ → ℕ × ℕ × ℕ) (left i s : ℕ) (pal after : Memory) : Type 0 where
  pub same_length : length after ≡ length pal
  pub painted :
      (k c : ℕ) → k < left → c < 3 → get_or after (i + k * 3 + c) 0 ≡ pick (bytes (s + k * 4)) c
  pub others : (j : ℕ) → (j < i) ⊎ (i + left * 3 ≤ j) → get_or after j 0 ≡ get_or pal j 0

-- The same of a loop that writes one byte.
pub record Filled (v left i : ℕ) (mem after : Memory) : Type 0 where
  pub same_length : length after ≡ length mem
  pub filled : (j : ℕ) → i ≤ j → j < i + left → get_or after j 0 ≡ v
  pub others : (j : ℕ) → (j < i) ⊎ (i + left ≤ j) → get_or after j 0 ≡ get_or mem j 0

pub fill_loop_ok :
    (v left i : ℕ) (mem : Memory)
    → i + left ≤ length mem
    → (after : Memory) × (fill_loop v left i mem ≡ ok after) × Filled v left i mem after
unfolding fill_loop
fill_loop_ok v zero i mem h = (
  mem,
  refl,
  record {
    same_length = refl;
    filled = λ j a b. absurd (omega (arith, a, b));
    others = λ j out. refl;
  },
)
fill_loop_ok v (suc left) i mem h =
    let rest = fill_loop_ok v left (suc i) (set mem i v) (omega (arith, h, length-set mem i v)) in
    (
      rest.0,
      rw (store_ok mem i v (omega (arith, h)), ◌>>=◌, rest.1),
      record {
        same_length = rest.2.same_length ∙ length-set mem i v;
        filled = λ j a b. elim (ℕ_discrete i j) [
          | yes e ↦
              subst (λ j. get_or rest.0 j 0 ≡ v) e
                (rest.2.others i (inl (omega arith)) ∙ get_or-set_self mem i v 0 (omega (arith, h)))
          | no ne ↦ rest.2.filled j (ground arith) (omega (arith, b))
        ];
        others = λ j out. rest.2.others j (ground arith) ∙ get_or-set_ne mem v 0 (ground arith);
      },
    )

-- Three bytes.
abbrev three : Memory → ℕ → ℕ × ℕ × ℕ → Memory
three pal i b = set (set (set pal i b.0) (i + 1) b.1) (i + 2) b.2

module _ (pal : Memory) (i : ℕ) (b : ℕ × ℕ × ℕ) (h : i + 2 < length pal) where
  length-three : length (three pal i b) ≡ length pal
  length-three =
      length-set (set (set pal i b.0) (i + 1) b.1) (i + 2) b.2
      ∙ length-set (set pal i b.0) (i + 1) b.1
      ∙ length-set pal i b.0

  three_red : get_or (three pal i b) i 0 ≡ b.0
  three_red =
      get_or-set_ne (set (set pal i b.0) (i + 1) b.1) b.2 0 (λ e. omega (arith, e))
      ∙ get_or-set_ne (set pal i b.0) b.1 0 (λ e. omega (arith, e))
      ∙ get_or-set_self pal i b.0 0 (omega (arith, h))

  three_green : get_or (three pal i b) (i + 1) 0 ≡ b.1
  three_green =
      get_or-set_ne (set (set pal i b.0) (i + 1) b.1) b.2 0 (λ e. omega (arith, e))
      ∙ get_or-set_self (set pal i b.0) (i + 1) b.1 0 (omega (arith, h, length-set pal i b.0))

  three_blue : get_or (three pal i b) (i + 2) 0 ≡ b.2
  three_blue =
      get_or-set_self (set (set pal i b.0) (i + 1) b.1) (i + 2) b.2 0
        (omega (arith, h, length-set (set pal i b.0) (i + 1) b.1, length-set pal i b.0))

  three_at : (c : ℕ) → c < 3 → get_or (three pal i b) (i + c) 0 ≡ pick b c
  three_at zero below =
      ap (λ j. get_or (three pal i b) j 0) (let e : i + 0 ≡ i = omega arith in e) ∙ three_red
  three_at (suc zero) below = three_green
  three_at (suc (suc zero)) below = three_blue
  three_at (suc (suc (suc c))) below = absurd (omega arith)

  three_others : (j : ℕ) → (j < i) ⊎ (i + 3 ≤ j) → get_or (three pal i b) j 0 ≡ get_or pal j 0
  three_others j out =
      get_or-set_ne (set (set pal i b.0) (i + 1) b.1) b.2 0 (ground arith)
      ∙ get_or-set_ne (set pal i b.0) b.1 0 (ground arith)
      ∙ get_or-set_ne pal b.0 0 (ground arith)

  three_stores :
      {B : Type 0} (next : Memory → Res B)
      → (do
        pal1 ← store pal i b.0
        pal2 ← store pal1 (i + 1) b.1
        pal3 ← store pal2 (i + 2) b.2
        next pal3)
        ≡ next (three pal i b)
  three_stores next =
      let l1 = length-set pal i b.0 in
      let l2 = length-set (set pal i b.0) (i + 1) b.1 in
      rw (
        store_ok pal i b.0 (omega (arith, h)),
        ◌>>=◌,
        store_ok (set pal i b.0) (i + 1) b.1 (omega (arith, h, l1)),
        ◌>>=◌,
        store_ok (set (set pal i b.0) (i + 1) b.1) (i + 2) b.2 (omega (arith, h, l1, l2)),
        ◌>>=◌,
      )

-- The rounds behind the first.
Painted-next :
    {before : Memory} (bytes : ℕ → ℕ × ℕ × ℕ) (left i s : ℕ) (after : Memory)
    → Painted bytes left (i + 3) (s + 4) before after
    → ((c : ℕ) → c < 3 → get_or before (i + c) 0 ≡ pick (bytes s) c)
    → (k c : ℕ) → k < suc left
    → c < 3
    → get_or after (i + k * 3 + c) 0 ≡ pick (bytes (s + k * 4)) c
Painted-next bytes left i s after p first zero c below small =
    ap (λ j. get_or after j 0) (let e : i + 0 * 3 + c ≡ i + c = omega arith in e)
    ∙ p.others (i + c) (inl (omega (arith, small)))
    ∙ first c small
    ∙ ap (λ t. pick (bytes t) c) (let e : s ≡ s + 0 * 4 = omega arith in e)
Painted-next bytes left i s after p first (suc k) c below small =
    ap (λ j. get_or after j 0) (let e : i + suc k * 3 + c ≡ i + 3 + k * 3 + c = omega arith in e)
    ∙ p.painted k c (omega (arith, below)) small
    ∙ ap (λ t. pick (bytes t) c) (let e : s + 4 + k * 4 ≡ s + suc k * 4 = omega arith in e)

-- A loop of three bytes a round.
pub pal_loop_ok :
    (bytes : ℕ → ℕ × ℕ × ℕ) (left i s : ℕ) (pal : Memory)
    → i + left * 3 ≤ length pal
    → (after : Memory) × (pal_loop bytes left i s pal ≡ ok after) × Painted bytes left i s pal after
unfolding pal_loop
pal_loop_ok bytes zero i s pal h = (
  pal,
  refl,
  record {
    same_length = refl;
    painted = λ k c below. absurd (omega (arith, below));
    others = λ j out. refl;
  },
)
pal_loop_ok bytes (suc left) i s pal h =
    let h1 : i + 2 < length pal = omega (arith, h) in
    let rest =
      pal_loop_ok bytes left (i + 3) (s + 4) (three pal i (bytes s))
        (omega (arith, h, length-three pal i (bytes s) h1)) in
    (
      rest.0,
      three_stores pal i (bytes s) h1 (λ p. pal_loop bytes left (i + 3) (s + 4) p) ∙ rest.1,
      record {
        same_length = rest.2.same_length ∙ length-three pal i (bytes s) h1;
        painted = Painted-next bytes left i s rest.0 rest.2 (three_at pal i (bytes s) h1);
        others = λ j out.
            rest.2.others j (ground arith) ∙ three_others pal i (bytes s) h1 j (ground arith);
      },
    )

-- No number of a round is above a byte.
rounds_fit : (k : ℕ) → k < 64 → (0 + k * 4) % 256 ≡ k * 4
rounds_fit k below = omega arith

violet_at : (k : ℕ) → k < 64 → violet (0 + k * 4) ≡ (k * 4, 0, k * 4)
violet_at k below = ap (λ t. (t, 0, t)) (rounds_fit k below)

orange_at : (k : ℕ) → k < 64 → orange (0 + k * 4) ≡ (255, k * 4, 255 - k * 4)
orange_at k below = ap₂ (λ t u. (255, t, u)) (rounds_fit k below) (ground arith)

white_at : (k : ℕ) → k < 64 → white (0 + k * 4) ≡ (255, 255, k * 4)
white_at k below = ap (λ t. (255, 255, t)) (rounds_fit k below)

-- 64 entries from black to violet, 64 from violet to orange (red 255, green rising as blue falls), 64
-- from yellow to white, each in steps of 4, 64 of white, and nothing behind the 768 bytes changed.
pub record SetPal (pal after : Memory) : Type 0 where
  pub same_length : length after ≡ length pal
  pub violets : (k c : ℕ) → k < 64 → c < 3 → get_or after (k * 3 + c) 0 ≡ pick (k * 4, 0, k * 4) c
  pub oranges :
      (k c : ℕ)
      → k < 64
      → c < 3
      → get_or after (192 + k * 3 + c) 0 ≡ pick (255, k * 4, 255 - k * 4) c
  pub whites :
      (k c : ℕ) → k < 64 → c < 3 → get_or after (384 + k * 3 + c) 0 ≡ pick (255, 255, k * 4) c
  pub filled : (j : ℕ) → 576 ≤ j → j < 768 → get_or after j 0 ≡ 255
  pub others : (j : ℕ) → 768 ≤ j → get_or after j 0 ≡ get_or pal j 0

-- For a palette of 768 bytes at least, `set_pal` comes to its end and leaves the colours above.
pub set_pal-SetPal :
    (pal : Memory)
    → 768 ≤ length pal
    → (after : Memory) × (set_pal pal ≡ ok after) × SetPal pal after
unfolding set_pal
set_pal-SetPal pal h =
    let a = pal_loop_ok violet 64 0 0 pal (omega (arith, h)) in
    let b = pal_loop_ok orange 64 192 0 a.0 (omega (arith, h, a.2.same_length)) in
    let c = pal_loop_ok white 64 384 0 b.0 (omega (arith, h, a.2.same_length, b.2.same_length)) in
    let d =
      fill_loop_ok 255 192 576 c.0
        (omega (arith, h, a.2.same_length, b.2.same_length, c.2.same_length)) in
    (
      d.0,
      rw (a.1, ◌>>=◌, b.1, ◌>>=◌, c.1, ◌>>=◌, d.1),
      record {
        same_length = d.2.same_length ∙ c.2.same_length ∙ b.2.same_length ∙ a.2.same_length;
        violets = λ k n below small.
            d.2.others (k * 3 + n) (inl (omega arith))
            ∙ c.2.others (k * 3 + n) (inl (omega arith))
            ∙ b.2.others (k * 3 + n) (inl (omega arith))
            ∙ ap (λ j. get_or a.0 j 0) (let e : k * 3 + n ≡ 0 + k * 3 + n = omega arith in e)
            ∙ a.2.painted k n below small
            ∙ ap (λ t. pick t n) (violet_at k below);
        oranges = λ k n below small.
            d.2.others (192 + k * 3 + n) (inl (omega arith))
            ∙ c.2.others (192 + k * 3 + n) (inl (omega arith))
            ∙ b.2.painted k n below small
            ∙ ap (λ t. pick t n) (orange_at k below);
        whites = λ k n below small.
            d.2.others (384 + k * 3 + n) (inl (omega arith))
            ∙ c.2.painted k n below small
            ∙ ap (λ t. pick t n) (white_at k below);
        filled = λ j low high. d.2.filled j low (omega (arith, high));
        others = λ j low.
            d.2.others j (inr (omega (arith, low)))
            ∙ c.2.others j (inr (omega (arith, low)))
            ∙ b.2.others j (inr (omega (arith, low)))
            ∙ a.2.others j (inr (omega (arith, low)));
      },
    )
