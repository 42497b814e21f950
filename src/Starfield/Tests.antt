-- ===== src/Starfield/Tests.antt =====
-- The fader at a small screen.
use tcb.Base.{
  ℕ, ◌+◌, ◌-◌, ◌*◌, ◌<◌, ◌≤◌, ◌≡◌, ◌⊎◌, refl, some, [], ◌∷◌, ok, fault, replicate, length-replicate,
  arith, false,
}
use tcb.Base.Int.{pos, minus}
use tcb.Base.Memory.{Memory, load, store}
use tcb.Starfield.Fader.{fade, fade_pixel, fade_row, fade_rows, fade_part, part_start, part_height}
use tcb.Starfield.Threads.{
  Threads, Step, worker_posts, worker_waits, main_waits, main_posts, Run, start, step, fading,
  outside, waiting, Run-fading, Run-Step,
}
use tcb.Starfield.Stars.{Star, Field, update_star, calc_starfield}
use tcb.Starfield.Stars.Moves.{IsWide, IsStep, Drawn}
use tcb.Starfield.Stars.Update.{update_star-Drawn}
use tcb.Starfield.Main
use tcb.Starfield.Main.{Device, Started}
use tcb.Starfield.Main.Laws.{IsWorking, ColoursAt, start-calc_starfield}
use tcb.Starfield.Ending.{
  Program, program, created, exit_prog, begin, leaving, closing, deciding, worker_leaves_loop,
  main_leaves_loop,
}
use tcb.Starfield.Ending.Laws.{Steps, done, then_step, Ended, GoesOn, Run-exit_prog}
use tcb.Starfield.Fader.Laws.{Faded, fade-Faded, fade_part-Faded, part_start-suc}

-- A part of 3 by 3 pixels.
abbrev part : Memory
part = 9 ∷ 80 ∷ 9 ∷ 80 ∷ 0 ∷ 80 ∷ 9 ∷ 80 ∷ 9 ∷ []

part_fades :
    (after : Memory) × (fade part 0 3 3 ≡ ok after) × Faded (0 + 3) (0 + 3 + (3 - 2) * 3) part after
part_fades = fade-Faded part 0 3 3 (omega arith) (omega arith) (omega arith)

faded : fade part 0 3 3 ≡ ok (9 ∷ 80 ∷ 9 ∷ 80 ∷ 79 ∷ 80 ∷ 9 ∷ 80 ∷ 9 ∷ [])
unfolding fade fade_rows fade_row fade_pixel load store
faded = refl

fade_part-Faded_example :
    (after : Memory) × (fade_part 3 3 8 (replicate 24 200) ≡ ok after)
    × Faded
        (part_start 3 3 8 + 3)
        (part_start 3 3 8 + 3 + (part_height 3 8 - 2) * 3)
        (replicate 24 200)
        after
fade_part-Faded_example =
    fade_part-Faded 3 3 8 (replicate 24 200) (omega arith) (omega arith) (omega arith) refl

parts_meet : part_start 2 3 8 + 3 + (part_height 2 8 - 2) * 3 ≡ part_start 3 3 8 + 3
parts_meet = part_start-suc 2 3 8 (omega arith) (omega arith)

-- A worker in its first round.
abbrev first_round : Threads
first_round = record { worker = fading; main = outside; sem = 0; sem_main = 0 }

to_first_round : Run first_round
to_first_round =
    step
      (step (step (step start (worker_posts outside 0 0)) (main_waits waiting 0 0))
        (main_posts waiting 0 0))
      (worker_waits outside 0 0)

first_round_fades :
    (first_round.sem ≤ 1)
    × (first_round.sem_main ≤ 1)
    × (first_round.worker ≡ fading
        → (first_round.sem ≡ 0) × (first_round.sem_main ≡ 0) × (first_round.main ≡ outside))
first_round_fades = Run-fading first_round to_first_round

first_round_goes_on : (b : Threads) × Step first_round b
first_round_goes_on = Run-Step first_round to_first_round

-- A screen of 262 by 262 pixels.
abbrev screen : Memory
screen = replicate (262 * 262) 0

abbrev field : Field
field = record { xres = 262; yres = 262; screen = screen; num = 0 }

field-IsWide : IsWide field
field-IsWide = record {
  wide = omega arith;
  high = omega arith;
  xres_int = omega arith;
  yres_int = omega arith;
  area_int = omega arith;
  whole = omega (arith, length-replicate {A = ℕ} (262 * 262) 0);
}

-- A star that leaves the screen.
abbrev leaving_star : Star
leaving_star = record {
  x = pos 1456;
  y = minus 1552;
  z = pos 40;
  screen_x = 0;
  screen_y = 0;
  speed = pos 0;
}

leaving-IsStep : IsStep leaving_star.z
leaving-IsStep = record { phase = refl; behind = omega arith }

update_star-Drawn_example :
    (out : Field × Star) × (update_star 2 field leaving_star ≡ ok out)
    × Drawn field leaving_star out.0 out.1
update_star-Drawn_example = update_star-Drawn 0 field leaving_star field-IsWide (λ e. cc)

abbrev device : Device
device = record {
  fbfd = 3;
  fscreeninfo = 0;
  vscreeninfo = 0;
  xres = 262;
  yres = 262;
  mapped = some screen;
  tmppal = replicate 768 7;
  getcmap = 0;
  putcmap = 0;
}

device-IsWorking : IsWorking device screen
device-IsWorking = record {
  opened = λ e. absurd (omega (arith, e));
  fscreen_read = refl;
  vscreen_read = refl;
  is_mapped = refl;
  got = refl;
  put = refl;
  palette = omega (arith, length-replicate {A = ℕ} 768 7);
  screen = field-IsWide;
}

start-calc_starfield_example :
    (st : Started) × (Main.start device ≡ ok st)
    × ((k : ℕ) → k < 64 → ColoursAt st.cmap k (k * 1024) 0 (k * 1024))
    × ((k : ℕ) → k < 64 → ColoursAt st.cmap (64 + k) 65280 (k * 1024) (65280 - k * 1024))
    × ((k : ℕ) → k < 64 → ColoursAt st.cmap (128 + k) 65280 65280 (k * 1024))
    × ((k : ℕ) → k < 64 → ColoursAt st.cmap (192 + k) 65280 65280 65280)
    × (calc_starfield 2 st.field st.stars ≡ fault)
start-calc_starfield_example = start-calc_starfield 0 device screen device-IsWorking

-- A signal before anything else: both leave their loops.
abbrev stopped : Program
stopped = exit_prog created

to_end : Steps 2 stopped (program false leaving closing 0 0)
to_end = then_step (worker_leaves_loop deciding 0 0) (then_step (main_leaves_loop leaving 0 0) done)

Run-exit_prog_example :
    (2 ≤ 11)
    × (Ended (program false leaving closing 0 0) ⊎ GoesOn (program false leaving closing 0 0))
Run-exit_prog_example = Run-exit_prog created begin 2 (program false leaving closing 0 0) to_end
