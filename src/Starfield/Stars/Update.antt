-- ===== src/Starfield/Stars/Update.antt =====
-- `update_star` whole: a star that stays, and one that is replaced within the call.
use tcb.Base.{
  ℕ, suc, ◌+◌, ◌/◌, ◌%◌, ◌^◌, ◌≡◌, ◌≢◌, refl, sym, ap, ap₂, subst, ◌∙◌, true, false, Res, ok, ◌>>=◌,
  get_or, Bool-cases, inl, inr, arith,
}
use tcb.Base.Int.{ℤ, pos, times, plus, word}
use tcb.Starfield.Stars.{
  Star, Field, create_star, place_star, is_outside, draw_star, update_star, rndtable,
}
use tcb.Starfield.Stars.Bounds.{rndtable-IsChar, over-zmax, word-middle}
use tcb.Starfield.Stars.Moves.{
  IsWide, IsStep, Inside, Drawn, checked, checks_pass, drawn_at, draw_star_ok, drawn_at-Drawn,
  over_ok, IsWide-same,
}

-- One call, by what the checks say.
module _ (depth : ℕ) (f : Field) (s p : Star) (placed : place_star f s ≡ ok p) where
  update_inside : is_outside f p ≡ false → update_star (suc depth) f s ≡ draw_star f p
  unfolding update_star
  update_inside o = rw (placed, ◌>>=◌, o)

  update_outside :
      is_outside f p ≡ true
      → update_star (suc depth) f s ≡ (
          update_star depth (create_star f p).0 (create_star f p).1 >>= λ again.
          draw_star again.0 again.1)
  unfolding update_star create_star
  update_outside o = rw (placed, ◌>>=◌, o)

-- `place_star` on what the divisions come to.
abbrev placing : Field → Star → Res ℤ → Res ℤ → Res Star
placing f s first second = do
  column ← first
  row ← second
  ok (record s {
    screen_x = word (plus column (f.xres / 2));
    screen_y = word (plus row (f.yres / 2));
  })

place_star_ok :
    (f : Field) (s : Star) → s.z ≢ pos 0 → (p : Star) × (place_star f s ≡ ok p) × (p.z ≡ s.z)
unfolding place_star
place_star_ok f s h =
    let column = over_ok (times s.x 256) s.z h in
    let row = over_ok (times s.y 256) s.z h in (_, ap₂ (placing f s) column.1 row.1, refl)

-- A new star, and its place.
module _ (f : Field) (s : Star) (w : IsWide f) where
  abbrev field1 : Field
  unfolding create_star
  field1 = (create_star f s).0

  abbrev first_x : ℤ
  first_x = get_or rndtable (f.num % 256) (pos 0)

  abbrev first_y : ℤ
  first_y = get_or rndtable ((f.num + 128) % 2 ^ 32 % 256) (pos 0)

  abbrev newcomer : Star
  newcomer = record s {
    x = times first_x 16;
    y = times first_y 16;
    z = pos 4096;
    screen_x = word (plus first_x (f.xres / 2));
    screen_y = word (plus first_y (f.yres / 2));
  }

  newcomer_placed : place_star (create_star f s).0 (create_star f s).1 ≡ ok newcomer
  unfolding place_star create_star
  newcomer_placed =
      ap₂ (placing (create_star f s).0 (create_star f s).1) (over-zmax first_x) (over-zmax first_y)

  newcomer-Inside : Inside (create_star f s).0 newcomer
  unfolding create_star
  newcomer-Inside =
      let x = rndtable-IsChar (f.num % 256) in
      let y = rndtable-IsChar ((f.num + 128) % 2 ^ 32 % 256) in
      let at_x =
        word-middle first_x (f.xres / 2) x (omega (arith, w.wide)) (omega (arith, w.xres_int)) in
      let at_y =
        word-middle first_y (f.yres / 2) y (omega (arith, w.high)) (omega (arith, w.yres_int)) in
      record {
        left = omega (arith, at_x, x.above, x.below, w.wide);
        right = omega (arith, at_x, x.above, x.below, w.wide);
        top = omega (arith, at_y, y.above, y.below, w.high);
        bottom = omega (arith, at_y, y.above, y.below, w.high);
      }

-- A star outside: the new one is drawn by the inner call, and once more, a step closer, behind it.
module _ (f : Field) (s : Star) (w : IsWide f) where
  created_wide : IsWide (create_star f s).0
  unfolding create_star
  created_wide = IsWide-same f (create_star f s).0 refl refl refl w

  abbrev once : Field × Star
  once = drawn_at (create_star f s).0 (newcomer f s w)

  once-Drawn : Drawn (create_star f s).0 (newcomer f s w) once.0 once.1
  once-Drawn =
      drawn_at-Drawn (create_star f s).0 (newcomer f s w) created_wide (newcomer-Inside f s w) refl

  once_wide : IsWide once.0
  once_wide =
      IsWide-same (create_star f s).0 once.0 once-Drawn.same_xres once-Drawn.same_yres
        once-Drawn.same_length created_wide

  once_update :
      (depth : ℕ) → update_star (suc depth) (create_star f s).0 (create_star f s).1 ≡ ok once
  once_update depth =
      update_inside depth (create_star f s).0 (create_star f s).1 (newcomer f s w)
        (newcomer_placed f s w)
        (checks_pass (create_star f s).0 (newcomer f s w) created_wide (newcomer-Inside f s w) refl)
      ∙ draw_star_ok (create_star f s).0 (newcomer f s w) created_wide (newcomer-Inside f s w)

  once-Inside : Inside once.0 once.1
  unfolding create_star
  once-Inside =
      let h = once-Drawn.inside in
      record { left = h.left; right = h.right; top = h.top; bottom = h.bottom }

  abbrev twice : Field × Star
  twice = drawn_at once.0 once.1

  twice_draw : draw_star once.0 once.1 ≡ ok twice
  twice_draw = draw_star_ok once.0 once.1 once_wide once-Inside

  twice-Drawn : Drawn f s twice.0 twice.1
  unfolding create_star
  twice-Drawn =
      let first = once-Drawn in
      let last = drawn_at-Drawn once.0 once.1 once_wide once-Inside refl in
      record {
        same_xres = refl;
        same_yres = refl;
        same_length = last.same_length ∙ first.same_length;
        inside =
            let h = last.inside in
            record { left = h.left; right = h.right; top = h.top; bottom = h.bottom };
        on_step = λ _. record { phase = refl; behind = omega arith };
        drawn = last.drawn;
        others = λ i ne. last.others i ne ∙ first.others i ne;
      }

of_placed :
    {f : Field} {s p : Star} {f1 : Field} {s1 : Star}
    → p.z ≡ s.z
    → Drawn f p f1 s1
    → Drawn f s f1 s1
of_placed e d = record {
  same_xres = d.same_xres;
  same_yres = d.same_yres;
  same_length = d.same_length;
  inside = d.inside;
  on_step = λ step. d.on_step (subst IsStep (sym e) step);
  drawn = d.drawn;
  others = d.others;
}

-- On a screen of 262 columns and rows at least, all of it in the memory, a star whose `z` is not 0 is
-- moved, and two calls deep are enough: the star is drawn inside the screen, off its borders, in the
-- colour of the `z` before its last step, and no other byte is changed. Where `z` was some steps of 24
-- from 4096, it is so again, and such a `z` is never 0.
pub update_star-Drawn :
    (depth : ℕ) (f : Field) (s : Star)
    → IsWide f
    → s.z ≢ pos 0
    → (out : Field × Star) × (update_star (suc (suc depth)) f s ≡ ok out) × Drawn f s out.0 out.1
update_star-Drawn depth f s w nonzero =
    let place = place_star_ok f s nonzero in
    let p = place.0 in
    elim (Bool-cases (is_outside f p)) [
      | inl o ↦ (
        twice f p w,
        update_outside (suc depth) f s p place.1 o
            ∙ ap (λ r. r >>= λ again. draw_star again.0 again.1) (once_update f p w depth)
            ∙ twice_draw f p w,
        of_placed place.2 (twice-Drawn f p w),
      )
      | inr o ↦
          let c = checked f p w o in
          (
            drawn_at f p,
            update_inside (suc depth) f s p place.1 o ∙ draw_star_ok f p w c.0,
            of_placed place.2 (drawn_at-Drawn f p w c.0 c.1),
          )
    ]
