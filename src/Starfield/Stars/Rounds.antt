-- ===== src/Starfield/Stars/Rounds.antt =====
-- `calc_starfield`: a round that meets a star at 0, as the first one of the program does.
use tcb.Base.{
  ℕ, zero, suc, ◌+◌, ◌%◌, ◌≡◌, ◌≢◌, refl, ap, ◌∙◌, ◌⊎◌, inl, inr, some, List, [], ◌∷◌, ok, fault,
  ◌>>=◌, length, get_elem?, get_or, ◌≤◌, ◌*◌, ◌<◌, ◌^◌, arith,
}
use tcb.Base.Int.{ℤ, pos, negsuc, times, plus}
use tcb.Starfield.Stars.{
  Star, Field, update_star, calc_starfield, place_star, make_stars, rndtable, create_star, set_pal,
  init_starfield,
}
use tcb.Starfield.Stars.Palette.{set_pal-SetPal, fill_loop_ok}
use tcb.Base.Memory.{Memory}
use tcb.Starfield.Stars.Moves.{IsWide, Drawn, IsWide-same}
use tcb.Starfield.Stars.Update.{update_star-Drawn}

zero_or_not : (z : ℤ) → (z ≡ pos 0) ⊎ (z ≢ pos 0)
zero_or_not (pos zero) = inl refl
zero_or_not (pos (suc k)) = inr (λ e. cc)
zero_or_not (negsuc k) = inr (λ e. cc)

Drawn-IsWide :
    {f : Field} {s : Star} {f1 : Field} {s1 : Star} → Drawn f s f1 s1 → IsWide f → IsWide f1
Drawn-IsWide {f = f} {f1 = f1} d w = IsWide-same f f1 d.same_xres d.same_yres d.same_length w

place_star_fault : (f : Field) (s : Star) → s.z ≡ pos 0 → place_star f s ≡ fault
unfolding place_star
place_star_fault f s e = rw (e, ◌>>=◌)

update_star_fault :
    (depth : ℕ) (f : Field) (s : Star) → s.z ≡ pos 0 → update_star (suc depth) f s ≡ fault
unfolding update_star
update_star_fault depth f s e = rw (place_star_fault f s e, ◌>>=◌)

pub calc_starfield_fault :
    (depth : ℕ) (f : Field) (stars : List Star) (k : ℕ) {s : Star}
    → IsWide f
    → get_elem? stars k ≡ some s
    → s.z ≡ pos 0
    → calc_starfield (suc (suc depth)) f stars ≡ fault
unfolding calc_starfield
calc_starfield_fault depth f [] k w e at_0 = absurd (cc)
calc_starfield_fault depth f (t ∷ stars) zero {s = s} w e at_0 =
    let z : t.z ≡ pos 0 = let same : t ≡ s = cc in ap (λ u. u.z) same ∙ at_0 in
    rw (update_star_fault (suc depth) f t z, ◌>>=◌)
calc_starfield_fault depth f (t ∷ stars) (suc k) w e at_0 = elim (zero_or_not t.z) [
  | inl z ↦ rw (update_star_fault (suc depth) f t z, ◌>>=◌)
  | inr nz ↦
      let one = update_star-Drawn depth f t w nz in
      rw (
        one.1,
        ◌>>=◌,
        calc_starfield_fault depth one.0.0 stars k (Drawn-IsWide one.2 w) e at_0,
        ◌>>=◌,
      )
]

-- The `z` of the `i`-th star of `init_starfield`.
abbrev first_z : ℕ → ℤ
first_z i = times (plus (get_or rndtable (i % 256) (pos 0)) 127) 16

-- The stars that `init_starfield` makes.
make_stars-get :
    (left i : ℕ) (f : Field) (k : ℕ)
    → k < left
    → (s : Star) × (get_elem? (make_stars left i f).1 k ≡ some s) × (s.z ≡ first_z (i + k))
unfolding make_stars create_star
make_stars-get zero i f k h = absurd (omega arith)
make_stars-get (suc left) i f zero h =
    (_, refl, ap first_z (let same : i ≡ i + 0 = omega arith in same))
make_stars-get (suc left) i f (suc k) h =
    let later =
      make_stars-get left (suc i) (record f { num = suc f.num % 2 ^ 32 }) k (omega arith) in
    (
      later.0,
      later.1,
      later.2 ∙ ap first_z (let same : suc i + k ≡ i + suc k = omega arith in same),
    )

make_stars_screen :
    (left i : ℕ) (f : Field)
    → ((make_stars left i f).0.xres ≡ f.xres)
      × ((make_stars left i f).0.yres ≡ f.yres)
      × ((make_stars left i f).0.screen ≡ f.screen)
unfolding make_stars create_star
make_stars_screen zero i f = (refl, refl, refl)
make_stars_screen (suc left) i f =
    make_stars_screen left (suc i) (record f { num = suc f.num % 2 ^ 32 })

-- On a screen of 262 columns and rows at least, all of it in the memory, with 768 bytes for the
-- palette, `init_starfield` comes to its end, and the first `calc_starfield` divides by zero: the 90th
-- star's random number is −127, which makes its `z` 0.
pub init_calc_fault :
    (depth : ℕ) (screenbuf pal : Memory) (xres yres : ℕ)
    → 768 ≤ length pal
    → IsWide (record { xres = xres; yres = yres; screen = screenbuf; num = 0 })
    → (started : Memory × Field × List Star) × (init_starfield screenbuf pal xres yres ≡ ok started)
      × (set_pal pal ≡ ok started.0)
      × (calc_starfield (suc (suc depth)) started.1 started.2 ≡ fault)
unfolding init_starfield
init_calc_fault depth screenbuf pal xres yres h w =
    let clear = fill_loop_ok 0 (xres * yres) 0 screenbuf (omega (arith, w.whole)) in
    let f : Field = record { xres = xres; yres = yres; screen = clear.0; num = 0 } in
    let colours = set_pal-SetPal pal h in
    let kept = make_stars_screen 256 0 f in
    let made = make_stars-get 256 0 f 89 (omega arith) in
    let w1 : IsWide (make_stars 256 0 f).0 =
      IsWide-same (record f { screen = screenbuf }) (make_stars 256 0 f).0 kept.0 kept.1
        (ap length kept.2 ∙ clear.2.same_length) w in
    (
      (colours.0, (make_stars 256 0 f).0, (make_stars 256 0 f).1),
      rw (clear.1, ◌>>=◌, colours.1, ◌>>=◌),
      colours.1,
      calc_starfield_fault depth _ _ 89 w1 made.1 made.2,
    )
