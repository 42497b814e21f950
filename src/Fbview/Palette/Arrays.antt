-- ===== src/Fbview/Palette/Arrays.antt =====
-- The arrays of a palette: `alloc_palette`, `set_palette` and `get_palette` of framebuffer.c, whose
-- allocations are not checked.
use tcb.Base.{
  ℕ, zero, suc, ◌+◌, ◌<◌, ◌≡◌, refl, Bool, true, Option, none, some, Res, ok, fault, ◌>>=◌, length,
  get_or, set, length-set, get_or-set_self, get_or-set_ne, get_or_ext, arith, subst, sym, ◌∙◌,
  if◌then◌else◌,
}
use native.Mathlib.Decide.{ℕ_discrete}
use tcb.Base.Memory.{Memory, load, store, load_ok, store_ok}

-- `struct palette`, with null pointers.
pub record Arrays : Type 0 where
  pub red : Option Memory
  pub green : Option Memory
  pub blue : Option Memory

-- What `malloc` returns for each of the arrays, and whether the ioctl succeeds.
pub record Answers : Type 0 where
  pub r : Option Memory
  pub g : Option Memory
  pub b : Option Memory
  pub t : Option Memory
  pub ioctl : Bool

unfoldable pub alloc_palette : Answers → Arrays
alloc_palette a = record { red = a.r; green = a.g; blue = a.b }

-- `to[i] = from[i]`
unfoldable pub copy_entry : ℕ → Option Memory → Option Memory → Res (Option Memory)
copy_entry i none to = fault
copy_entry i (some from) none = fault
copy_entry i (some from) (some to) = do v ← load from i; after ← store to i v; ok (some after)

-- The loop over the colours, with the rounds left.
unfoldable pub copy_colours : ℕ → ℕ → Arrays → Arrays → Res Arrays
unfolding copy_entry
copy_colours zero i from to = ok to
copy_colours (suc left) i from to = do
  r ← copy_entry i from.red to.red
  g ← copy_entry i from.green to.green
  b ← copy_entry i from.blue to.blue
  copy_colours left (suc i) from (record { red = r; green = g; blue = b })

-- `set_palette(pal)`: the map of the device.
unfoldable pub set_palette : ℕ → Answers → Arrays → Arrays → Res Arrays
unfolding copy_colours
set_palette colours a pal device = do
  cmap ← copy_colours colours 0 pal (record { red = a.r; green = a.g; blue = a.b })
  ok (if a.ioctl then cmap else device)

-- `get_palette(pal)`: the palette. Where the ioctl fails, the new arrays have what they had.
unfoldable pub get_palette : ℕ → Answers → Arrays → Arrays → Res Arrays
unfolding copy_colours
get_palette colours a pal device =
    let cmap : Arrays = if a.ioctl then device else record { red = a.r; green = a.g; blue = a.b } in
    copy_colours colours 0 cmap pal

-- As a copy goes on: the first `i` entries are those of `from`.
abbrev Begun : ℕ → Memory → Memory → Type 0
Begun i from to = (length to ≡ length from) × ((k : ℕ) → k < i → get_or to k 0 ≡ get_or from k 0)

Begun-all : (from to : Memory) → Begun (length from) from to → to ≡ from
Begun-all from to h = get_or_ext 0 to from h.0 (λ k below. h.1 k (omega (arith, below, h.0)))

-- One entry more.
copy_entry_ok :
    (i : ℕ) (from to : Memory)
    → i < length from
    → Begun i from to
    → (after : Memory) × (copy_entry i (some from) (some to) ≡ ok (some after))
      × Begun (suc i) from after
unfolding copy_entry
copy_entry_ok i from to h begun =
    let v = get_or from i 0 in
    (
      set to i v,
      rw (load_ok from i h, ◌>>=◌, store_ok to i v (omega (arith, h, begun.0)), ◌>>=◌),
      (
        length-set to i v ∙ begun.0,
        λ k below. elim (ℕ_discrete i k) [
          | yes e ↦
              subst (λ k. get_or (set to i v) k 0 ≡ get_or from k 0) e
                (get_or-set_self to i v 0 (omega (arith, h, begun.0)))
          | no ne ↦ get_or-set_ne to v 0 ne ∙ begun.1 k (ground arith)
        ],
      ),
    )

abbrev pub arrays : Memory → Memory → Memory → Arrays
arrays red green blue = record { red = some red; green = some green; blue = some blue }

copy_colours_ok :
    (left i : ℕ) (red green blue reds greens blues : Memory)
    → i + left ≡ length red
    → length green ≡ length red
    → length blue ≡ length red
    → Begun i red reds
    → Begun i green greens
    → Begun i blue blues
    → copy_colours left i (arrays red green blue) (arrays reds greens blues)
      ≡ ok (arrays red green blue)
unfolding copy_colours
copy_colours_ok zero i red green blue reds greens blues all hg hb r g b =
    let whole : (x y : Memory) → length x ≡ i → Begun i x y → y ≡ x =
      λ x y e h. Begun-all x y (subst (λ n. Begun n x y) (sym e) h) in
    rw (
      whole red reds (omega (arith, all)) r,
      whole green greens (omega (arith, all, hg)) g,
      whole blue blues (omega (arith, all, hb)) b,
    )
copy_colours_ok (suc left) i red green blue reds greens blues all hg hb r g b =
    let r1 = copy_entry_ok i red reds (omega (arith, all)) r in
    let g1 = copy_entry_ok i green greens (omega (arith, all, hg)) g in
    let b1 = copy_entry_ok i blue blues (omega (arith, all, hb)) b in
    rw (
      r1.1,
      ◌>>=◌,
      g1.1,
      ◌>>=◌,
      b1.1,
      ◌>>=◌,
      copy_colours_ok left (suc i) red green blue r1.0 g1.0 b1.0 (omega (arith, all)) hg hb r1.2
          g1.2 b1.2,
    )

-- Nothing is copied yet.
fresh : (x y : Memory) → length y ≡ length x → Begun 0 x y
fresh x y e = (e, λ k below. absurd (omega (arith, below)))

-- Answers without a failure, for so many colours.
pub record AreGiven (a : Answers) (colours : ℕ) : Type 0 where
  pub red : Memory
  pub green : Memory
  pub blue : Memory
  pub gives_red : a.r ≡ some red
  pub gives_green : a.g ≡ some green
  pub gives_blue : a.b ≡ some blue
  pub red_length : length red ≡ colours
  pub green_length : length green ≡ colours
  pub blue_length : length blue ≡ colours
  pub succeeds : a.ioctl ≡ true

-- The palette of the device comes back: what `get_palette` reads into arrays from `alloc_palette`,
-- `set_palette` gives to the device, whatever its palette is then, where no allocation and no ioctl
-- fails and the device has as many entries of each component as there are colours.
pub set_palette-get_palette :
    (a b c : Answers) (red green blue : Memory) (now : Arrays)
    → AreGiven a (length red)
    → AreGiven b (length red)
    → AreGiven c (length red)
    → length green ≡ length red
    → length blue ≡ length red
    → (get_palette (length red) b (alloc_palette a) (arrays red green blue) >>= λ pal.
        set_palette (length red) c pal now)
      ≡ ok (arrays red green blue)
unfolding get_palette set_palette alloc_palette
set_palette-get_palette a b c red green blue now va vb vc hg hb =
    let got =
      copy_colours_ok (length red) 0 red green blue va.red va.green va.blue (omega arith) hg hb
        (fresh red va.red va.red_length) (fresh green va.green (omega (arith, va.green_length, hg)))
        (fresh blue va.blue (omega (arith, va.blue_length, hb))) in
    let put =
      copy_colours_ok (length red) 0 red green blue vc.red vc.green vc.blue (omega arith) hg hb
        (fresh red vc.red vc.red_length) (fresh green vc.green (omega (arith, vc.green_length, hg)))
        (fresh blue vc.blue (omega (arith, vc.blue_length, hb))) in
    rw (
      vb.succeeds, va.gives_red, va.gives_green, va.gives_blue, got, ◌>>=◌, vc.gives_red,
      vc.gives_green, vc.gives_blue, put, ◌>>=◌, vc.succeeds,
    )

copy_entry_null : (i : ℕ) (from : Option Memory) → copy_entry i from none ≡ fault
unfolding copy_entry
copy_entry_null i none = refl
copy_entry_null i (some from) = refl

-- A failed allocation is not noticed: with a null pointer for one of the palette's arrays, both go
-- through it at the first colour.
pub palette_null :
    (colours : ℕ) (a : Answers) (pal device : Arrays)
    → pal.red ≡ none
    → (get_palette (suc colours) a pal device ≡ fault)
      × (set_palette (suc colours) a pal device ≡ fault)
unfolding get_palette set_palette copy_colours copy_entry
palette_null colours a pal device e =
    let cmap : Arrays = if a.ioctl then device else record { red = a.r; green = a.g; blue = a.b } in
    (rw (e, copy_entry_null 0 cmap.red, ◌>>=◌), rw (e, ◌>>=◌))
