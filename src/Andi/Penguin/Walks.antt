-- ===== src/Andi/Penguin/Walks.antt =====
-- A penguin on its way: the loop body of `move_penguins` in df_andi.c, one coordinate at a time.
use tcb.Base.{
  ℕ, zero, suc, ◌-◌, ◌≤◌, ◌≡◌, ◌⊎◌, inl, inr, refl, false, ltb, if◌then◌else◌, ap, ◌∙◌, arith,
}
use tcb.Base.Int.{
  ℤ, pos, negsuc, difference, plus, less, magnitude, is_zero, is_positive, is_negative,
}
use tcb.Andi.Penguin.{
  Rand, Penguin, Resolution, x_sprite_size, y_sprite_size, Direction, left, right, above, below,
  advance_at, arrived, rest_penguin, step_left, step_right, step_up, step_down, clip, clip_penguin,
  animate, move_penguin,
}

-- A coordinate and what is left of its way: a step against the sign of the way, or none where less
-- than a step is left.
abbrev pub walked : ℕ → ℤ → ℤ → ℤ × ℤ
walked step z (pos k) =
    if ltb k step then (z, pos 0) else if ltb 0 k then (less z step, pos (k - step)) else (z, pos 0)
walked step z (negsuc k) =
    if ltb (suc k) step then (z, pos 0) else (plus z step, difference 0 (suc k - step))

-- A way that is over, or has a step left.
IsSettled : ℕ → ℤ → Type 0
IsSettled step z = (z ≡ pos 0) ⊎ (step ≤ magnitude z)

-- The two tests of a coordinate, `x` or `y`.
abbrev first_test : ℕ → ℤ × ℤ → ℤ × ℤ
first_test step (z, togo) = if is_positive togo then (less z step, less togo step) else (z, togo)

abbrev second_test : ℕ → ℤ × ℤ → ℤ × ℤ
second_test step (z, togo) = if is_negative togo then (plus z step, plus togo step) else (z, togo)

tests_walked :
    (step : ℕ) (z togo : ℤ)
    → second_test step (first_test step (z, arrived step togo)) ≡ walked step z togo
tests_walked step z (pos k) = ground arith
tests_walked step z (negsuc k) = ground arith

-- The coordinates of a penguin with their ways.
abbrev across : Penguin → ℤ × ℤ
across p = (p.x, p.x_togo)

abbrev along : Penguin → ℤ × ℤ
along p = (p.y, p.y_togo)

step_left_lem :
    (step : ℕ) (p : Penguin)
    → (across (step_left step p) ≡ first_test step (across p))
      × (along (step_left step p) ≡ along p)
unfolding step_left
step_left_lem step p = ground arith

step_right_lem :
    (step : ℕ) (p : Penguin)
    → (across (step_right step p) ≡ second_test step (across p))
      × (along (step_right step p) ≡ along p)
unfolding step_right
step_right_lem step p = ground arith

step_up_lem :
    (step : ℕ) (p : Penguin)
    → (across (step_up step p) ≡ across p) × (along (step_up step p) ≡ first_test step (along p))
unfolding step_up
step_up_lem step p = ground arith

step_down_lem :
    (step : ℕ) (p : Penguin)
    → (across (step_down step p) ≡ across p)
      × (along (step_down step p) ≡ second_test step (along p))
unfolding step_down
step_down_lem step p = ground arith

-- The four tests, one behind the other.
abbrev all_steps : ℕ → Penguin → Penguin
all_steps step p = step_down step (step_up step (step_right step (step_left step p)))

all_steps_lem :
    (step : ℕ) (p : Penguin)
    → (across (all_steps step p) ≡ second_test step (first_test step (across p)))
      × (along (all_steps step p) ≡ second_test step (first_test step (along p)))
all_steps_lem step p =
    let p1 = step_left step p in
    let p2 = step_right step p1 in
    let p3 = step_up step p2 in
    let l = step_left_lem step p in
    let r = step_right_lem step p1 in
    let u = step_up_lem step p2 in
    let d = step_down_lem step p3 in
    (
      d.0 ∙ u.0 ∙ r.0 ∙ ap (second_test step) l.0,
      d.1 ∙ ap (second_test step) (u.1 ∙ ap (first_test step) (r.1 ∙ l.1)),
    )

-- A coordinate on the screen, with its way.
abbrev pub on_screen : ℕ → ℕ → ℤ × ℤ → ℤ × ℤ
on_screen size sprite (z, togo) = (clip size sprite z, togo)

clip_penguin_lem :
    (s : Resolution) (p : Penguin)
    → (across (clip_penguin s p) ≡ on_screen s.xres x_sprite_size (across p))
      × (along (clip_penguin s p) ≡ on_screen s.yres y_sprite_size (along p))
unfolding clip_penguin
clip_penguin_lem s p = (refl, refl)

advance_at_lem :
    (d : Direction) (p : Penguin)
    → (across (advance_at d p) ≡ across p) × (along (advance_at d p) ≡ along p)
advance_at_lem left p = (refl, refl)
advance_at_lem right p = (refl, refl)
advance_at_lem above p = (refl, refl)
advance_at_lem below p = (refl, refl)

animate_lem : (p : Penguin) → (across (animate p) ≡ across p) × (along (animate p) ≡ along p)
unfolding animate
animate_lem p = ground (arith, advance_at_lem p.frameset p)

-- With a way to go, nothing is drawn by lot.
rest_penguin_on_way :
    (r : Rand) (p : Penguin)
    → (is_zero p.x_togo ≡ false) ⊎ (is_zero p.y_togo ≡ false)
    → rest_penguin r p ≡ (r, p)
unfolding rest_penguin
rest_penguin_on_way r p h = ground arith

arrived_on_way :
    (step : ℕ) (z : ℤ) → 1 ≤ step → step ≤ magnitude z → is_zero (arrived step z) ≡ false
arrived_on_way step (pos zero) h k = absurd (omega (arith, h, k))
arrived_on_way step (pos (suc j)) h k = ground arith
arrived_on_way step (negsuc j) h k = ground arith

-- A penguin that has a step or more to go, across or along the screen, makes it in the loop body of
-- `move_penguins`, whatever the random numbers, of which it takes none: each coordinate is a step
-- further against the sign of its way, which is a step shorter, and then cut to the screen; a way of
-- less than a step is given up.
pub move_penguin-walked :
    (s : Resolution) (step : ℕ) (r : Rand) (p : Penguin)
    → 1 ≤ step
    → (step ≤ magnitude p.x_togo) ⊎ (step ≤ magnitude p.y_togo)
    → let q = (move_penguin s step r p).1 in
      ((move_penguin s step r p).0 ≡ r)
      × ((q.x, q.x_togo) ≡ on_screen s.xres x_sprite_size (walked step p.x p.x_togo))
      × ((q.y, q.y_togo) ≡ on_screen s.yres y_sprite_size (walked step p.y p.y_togo))
unfolding move_penguin
move_penguin-walked s step r p h way =
    let p1 = record p { x_togo = arrived step p.x_togo; y_togo = arrived step p.y_togo } in
    let on_way : (is_zero p1.x_togo ≡ false) ⊎ (is_zero p1.y_togo ≡ false) = elim way [
      | inl k ↦ inl (arrived_on_way step p.x_togo h k)
      | inr k ↦ inr (arrived_on_way step p.y_togo h k)
    ] in
    let rests = rest_penguin_on_way r p1 on_way in
    let steps = all_steps_lem step p1 in
    let q2 = all_steps step p1 in
    let cut = clip_penguin_lem s q2 in
    let last = animate_lem (clip_penguin s q2) in
    rw rests (
      refl,
      last.0
          ∙ cut.0
          ∙ ap (on_screen s.xres x_sprite_size) (steps.0 ∙ tests_walked step p.x p.x_togo),
      last.1
          ∙ cut.1
          ∙ ap (on_screen s.yres y_sprite_size) (steps.1 ∙ tests_walked step p.y p.y_togo),
    )
