-- ===== src/Starfield/Main/Laws.antt =====
-- What main has made before its threads.
use tcb.Base.{
  ℕ, zero, suc, ◌+◌, ◌-◌, ◌*◌, ◌<◌, ◌≤◌, ◌≡◌, ◌≢◌, ◌==◌, ok-injective, subst, false, refl, sym, ap,
  ap₂, ◌∙◌, some, List, ◌∷◌, ok, fault, ◌>>=◌, length, get_elem?, get_or, arith,
}
use tcb.Base.Memory.{Memory, load_ok}
use tcb.Starfield.Stars.{init_starfield, calc_starfield, Star, Field}
use tcb.Starfield.Stars.Moves.{IsWide}
use tcb.Starfield.Stars.Palette.{pick, SetPal, set_pal-SetPal}
use tcb.Starfield.Stars.Rounds.{init_calc_fault}
use tcb.Starfield.Main.{Device, Started, start, colour_map, shifted}

-- An entry of a palette, and its colours.
abbrev pub entry : Memory → ℕ → ℕ × ℕ × ℕ
entry pal i = (get_or pal (i * 3) 0, get_or pal (i * 3 + 1) 0, get_or pal (i * 3 + 2) 0)

abbrev pub shifted_all : ℕ × ℕ × ℕ → ℕ × ℕ × ℕ
shifted_all c = (shifted c.0, shifted c.1, shifted c.2)

colours_next :
    (left i : ℕ) (pal : Memory) (cmap : List (ℕ × ℕ × ℕ))
    → ((k : ℕ) → k < left → get_elem? cmap k ≡ some (shifted_all (entry pal (suc i + k))))
    → (k : ℕ) → k < suc left
    → get_elem? (shifted_all (entry pal i) ∷ cmap) k ≡ some (shifted_all (entry pal (i + k)))
colours_next left i pal cmap later zero below =
    ap (λ j. some (shifted_all (entry pal j))) (let e : i ≡ i + 0 = omega arith in e)
colours_next left i pal cmap later (suc k) below =
    later k (omega arith)
    ∙ ap (λ j. some (shifted_all (entry pal j))) (let e : suc i + k ≡ i + suc k = omega arith in e)

colour_map_ok :
    (left i : ℕ) (pal : Memory)
    → (i + left) * 3 ≤ length pal
    → (cmap : List (ℕ × ℕ × ℕ)) × (colour_map left i pal ≡ ok cmap)
      × ((k : ℕ) → k < left → get_elem? cmap k ≡ some (shifted_all (entry pal (i + k))))
unfolding colour_map
colour_map_ok zero i pal h = (_, refl, λ k below. absurd (omega (arith, below)))
colour_map_ok (suc left) i pal h =
    let rest = colour_map_ok left (suc i) pal (omega (arith, h)) in
    let c = entry pal i in
    (
      shifted_all c ∷ rest.0,
      rw (
        load_ok pal (i * 3) (omega (arith, h)),
        ◌>>=◌,
        load_ok pal (i * 3 + 1) (omega (arith, h)),
        ◌>>=◌,
        load_ok pal (i * 3 + 2) (omega (arith, h)),
        ◌>>=◌,
        rest.1,
        ◌>>=◌,
      ),
      colours_next left i pal rest.0 rest.2,
    )

-- A device that answers every call, whose memory has the whole screen.
pub record IsWorking (d : Device) (fbp : Memory) : Type 0 where
  pub opened : d.fbfd ≢ 0
  pub fscreen_read : d.fscreeninfo ≡ 0
  pub vscreen_read : d.vscreeninfo ≡ 0
  pub is_mapped : d.mapped ≡ some fbp
  pub got : d.getcmap ≡ 0
  pub put : d.putcmap ≡ 0
  pub palette : 768 ≤ length d.tmppal
  pub screen : IsWide (record { xres = d.xres; yres = d.yres; screen = fbp; num = 0 })

start_eq :
    (d : Device) (fbp : Memory)
    → IsWorking d fbp
    → (made : Memory × Field × List Star) → init_starfield fbp d.tmppal d.xres d.yres ≡ ok made
    → (cmap : List (ℕ × ℕ × ℕ)) → colour_map 256 0 made.0 ≡ ok cmap
    → start d ≡ ok (record { cmap = cmap; field = made.1; stars = made.2 })
unfolding start
start_eq d fbp w made init cmap map =
    let is_open : (d.fbfd == 0) ≡ false = ground (arith, w.opened) in
    rw (
      is_open, w.fscreen_read, w.vscreen_read, w.is_mapped, ◌>>=◌, init, ◌>>=◌, w.got, map, ◌>>=◌,
      w.put,
    )

-- The three bytes of an entry.
triple_eq : {a b c x y z : ℕ} → a ≡ x → b ≡ y → c ≡ z → ◌≡◌ {A = ℕ × ℕ × ℕ} (a, b, c) (x, y, z)
triple_eq e f g = cc

entry_eq :
    (pal : Memory) (from k x y z : ℕ)
    → ((n : ℕ) → n < 3 → get_or pal (from * 3 + k * 3 + n) 0 ≡ pick (x, y, z) n)
    → entry pal (from + k) ≡ (x, y, z)
entry_eq pal from k x y z h =
    let place : (n j : ℕ) → n < 3 → j ≡ from * 3 + k * 3 + n → get_or pal j 0 ≡ pick (x, y, z) n =
      λ n j below e. ap (λ i. get_or pal i 0) e ∙ h n below in
    triple_eq (place 0 ((from + k) * 3) (omega arith) (omega arith))
      (place 1 ((from + k) * 3 + 1) (omega arith) (omega arith))
      (place 2 ((from + k) * 3 + 2) (omega arith) (omega arith))

shifted_small : (k : ℕ) → k < 64 → shifted (k * 4) ≡ k * 1024
shifted_small k below = ground arith

shifted_back : (k : ℕ) → k < 64 → shifted (255 - k * 4) ≡ 65280 - k * 1024
shifted_back k below = ground arith

-- An entry of the map from the bytes of the palette.
map_at :
    (cmap : List (ℕ × ℕ × ℕ)) (pal : Memory)
    → ((k : ℕ) → k < 256 → get_elem? cmap k ≡ some (shifted_all (entry pal (0 + k))))
    → (from k i x y z : ℕ) → i ≡ from + k
    → i < 256
    → ((n : ℕ) → n < 3 → get_or pal (from * 3 + k * 3 + n) 0 ≡ pick (x, y, z) n)
    → get_elem? cmap i ≡ some (shifted_all (x, y, z))
map_at cmap pal all from k i x y z e below h =
    all i below
    ∙ ap (λ j. some (shifted_all (entry pal j))) (let f : 0 + i ≡ from + k = omega arith in f)
    ∙ ap (λ c. some (shifted_all c)) (entry_eq pal from k x y z h)

-- The colours of an entry of the map.
abbrev pub ColoursAt : List (ℕ × ℕ × ℕ) → ℕ → ℕ → ℕ → ℕ → Type 0
ColoursAt cmap i red green blue = get_elem? cmap i ≡ some (red, green, blue)

all_white : (n : ℕ) → n < 3 → 255 ≡ pick (255, 255, 255) n
all_white zero h = refl
all_white (suc zero) h = refl
all_white (suc (suc n)) h = refl

-- With a device that answers every call, a screen of 262 columns and rows at least, all of it in the
-- memory, main comes to its threads: the device has been given the map from black to violet, from
-- violet to orange, from yellow to white in steps of 1024, and white; and the first call of its loop,
-- calc_starfield, divides by zero.
pub start-calc_starfield :
    (depth : ℕ) (d : Device) (fbp : Memory)
    → IsWorking d fbp
    → (st : Started) × (start d ≡ ok st)
      × ((k : ℕ) → k < 64 → ColoursAt st.cmap k (k * 1024) 0 (k * 1024))
      × ((k : ℕ) → k < 64 → ColoursAt st.cmap (64 + k) 65280 (k * 1024) (65280 - k * 1024))
      × ((k : ℕ) → k < 64 → ColoursAt st.cmap (128 + k) 65280 65280 (k * 1024))
      × ((k : ℕ) → k < 64 → ColoursAt st.cmap (192 + k) 65280 65280 65280)
      × (calc_starfield (suc (suc depth)) st.field st.stars ≡ fault)
start-calc_starfield depth d fbp w =
    let init = init_calc_fault depth fbp d.tmppal d.xres d.yres w.palette w.screen in
    let made = init.0 in
    let painted = set_pal-SetPal d.tmppal w.palette in
    let same : painted.0 ≡ made.0 = ok-injective (sym painted.1 ∙ init.2) in
    let p : SetPal d.tmppal made.0 = subst (SetPal d.tmppal) same painted.2 in
    let map = colour_map_ok 256 0 made.0 (omega (arith, p.same_length, w.palette)) in
    (
      record { cmap = map.0; field = made.1; stars = made.2 },
      start_eq d fbp w made init.1 map.0 map.1,
      λ k below.
          map_at map.0 made.0 map.2 0 k k (k * 4) 0 (k * 4) (omega arith) (omega (arith, below))
            (λ n small. ap (λ j. get_or made.0 j 0) (omega arith) ∙ p.violets k n below small)
          ∙ ap (λ c. some (c, 0, c)) (shifted_small k below),
      λ k below.
          map_at map.0 made.0 map.2 64 k (64 + k) 255 (k * 4) (255 - k * 4) refl
            (omega (arith, below)) (λ n small. p.oranges k n below small)
          ∙ ap₂ (λ c e. some (65280, c, e)) (shifted_small k below) (shifted_back k below),
      λ k below.
          map_at map.0 made.0 map.2 128 k (128 + k) 255 255 (k * 4) refl (omega (arith, below))
            (λ n small. p.whites k n below small)
          ∙ ap (λ c. some (65280, 65280, c)) (shifted_small k below),
      λ k below.
          map_at map.0 made.0 map.2 192 k (192 + k) 255 255 255 refl (omega (arith, below))
            (λ n small.
              p.filled (576 + k * 3 + n) (omega arith) (omega (arith, below, small))
              ∙ all_white n small),
      init.3,
    )
