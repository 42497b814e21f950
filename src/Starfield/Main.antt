-- ===== src/Starfield/Main.antt =====
-- `main` of main.c up to its threads: the device, the colour map, and the errors.
pub mod Laws
use tcb.Base.{
  ℕ, zero, suc, ◌+◌, ◌*◌, ◌%◌, ◌^◌, Bool, true, false, Option, none, some, List, [], ◌∷◌, Res, ok,
  exit, ◌>>=◌, ◌>>◌, ltb, ◌==◌, if◌then◌else◌,
}
use tcb.Base.Memory.{Memory, load}
use tcb.Starfield.Stars.{Star, Field, init_starfield}

-- What the kernel answers: the number of the open device, 1 for an ioctl that fails, what
-- FBIOGET_VSCREENINFO tells, the mapped memory or `none` for -1; and what is in `tmppal` before.
pub record Device : Type 0 where
  pub fbfd : ℕ
  pub fscreeninfo : ℕ
  pub vscreeninfo : ℕ
  pub xres : ℕ
  pub yres : ℕ
  pub mapped : Option Memory
  pub tmppal : Memory
  pub getcmap : ℕ
  pub putcmap : ℕ

-- `return status` if the test holds.
abbrev pub give_up : Bool → ℕ → Res (Unit {0})
give_up true status = exit status
give_up false status = ok tt

abbrev pub or_exit {ℓ} : {A : Type ℓ} → Option A → ℕ → Res A
or_exit none status = exit status
or_exit (some a) status = ok a

-- `((unsigned short)c) << 8`, cut to an `unsigned short`, of a `char` that is signed.
abbrev pub shifted : ℕ → ℕ
shifted c = (if ltb c 128 then c else c + 65280) * 2 ^ 8 % 2 ^ 16

-- red, green and blue from the `i`-th entry on.
unfoldable pub colour_map : ℕ → ℕ → Memory → Res (List (ℕ × ℕ × ℕ))
colour_map zero i pal = ok []
colour_map (suc left) i pal = do
  red ← load pal (i * 3)
  green ← load pal (i * 3 + 1)
  blue ← load pal (i * 3 + 2)
  rest ← colour_map left (suc i) pal
  ok ((shifted red, shifted green, shifted blue) ∷ rest)

-- What there is before the threads: the colour map that the device has got, and the stars.
pub record Started : Type 0 where
  pub cmap : List (ℕ × ℕ × ℕ)
  pub field : Field
  pub stars : List Star

unfoldable pub start : Device → Res Started
start d = do
  give_up (d.fbfd == 0) 1
  give_up (ltb 0 d.fscreeninfo) 2
  give_up (ltb 0 d.vscreeninfo) 3
  fbp ← or_exit d.mapped 4
  made ← init_starfield fbp d.tmppal d.xres d.yres
  give_up (ltb 0 d.getcmap) 5
  cmap ← colour_map 256 0 made.0
  give_up (ltb 0 d.putcmap) 6
  ok (record { cmap = cmap; field = made.1; stars = made.2 })
