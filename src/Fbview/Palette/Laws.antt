-- ===== src/Fbview/Palette/Laws.antt =====
-- What `fb_init` and `fb_uninit` do to the device.
use tcb.Base.{ℕ, ◌^◌, ◌<◌, ◌≡◌, ◌≢◌, true, false, Res, ok, exit, fault, running, zero, suc, arith}
use tcb.Fbview.Palette.{generate_palette, Device, State, fb_init, fb_uninit}

-- The components of the colours of a palette are `unsigned short`s without being cut, and those of
-- colour 0 are 0.
pub generate_palette-range :
    (bits a : ℕ)
    → let p = generate_palette bits in
      (p.red a < 2 ^ 16)
      × (p.green a < 2 ^ 16)
      × (p.blue a < 2 ^ 16)
      × (p.red 0 ≡ 0)
      × (p.green 0 ≡ 0)
      × (p.blue 0 ≡ 0)
unfolding generate_palette
generate_palette-range bits a = ground arith

-- There is memory for the palettes, and the device gives its palette and takes it back.
pub record KeepsPalettes (d : Device) : Type 0 where
  pub allocated : d.palettes.allocated ≡ true
  pub got : d.palettes.got ≡ true
  pub allocated_last : d.palettes.allocated_last ≡ true
  pub put_last : d.palettes.put_last ≡ true

-- Before the device is opened.
abbrev pub IsClosed : State → Type 0
IsClosed s = (s.is_open ≡ false) × (s.is_mapped ≡ false) × (s.have_cmap ≡ false)

-- The device is closed, and has the palette that it had.
abbrev pub Closed : State → Res State → Type 0
Closed s (ok s2) = (s2.cmap ≡ s.cmap) × (s2.is_open ≡ false) × (s2.is_mapped ≡ false)
Closed s (exit status) = ⊥
Closed s fault = ⊥
Closed s running = ⊥

-- What is left of a device when `fb_uninit` follows an `fb_init`.
abbrev pub Restored : Device → State → Res (ℕ × State) → Type 0
Restored d s (ok (zero, s1)) = Closed s (fb_uninit d s1)
Restored d s (ok (suc error, s1)) = (s1.cmap ≡ s.cmap) × (s1.is_mapped ≡ false)
Restored d s (exit status) = ⊥
Restored d s fault = ⊥
Restored d s running = ⊥

-- On a screen of less than 31 bits a pixel, where there is memory for the palettes, and the old palette can
-- be read and set again, `fb_init` ends, whether or not it can set a new one; when it fails, the device has the palette
-- that it had and is not mapped; when it succeeds, `fb_uninit` closes and unmaps the device and gives
-- it its palette back.
pub fb_init-Restored :
    (d : Device) (s : State)
    → IsClosed s
    → d.bits_per_pixel < 31
    → KeepsPalettes d
    → Restored d s (fb_init d s)
unfolding fb_init fb_uninit
fb_init-Restored d s v h k = ground arith

-- A screen of 32 bits a pixel that can be opened and mapped runs into the undefined shift.
pub fb_init_32 :
    (d : Device) (s : State)
    → d.bits_per_pixel ≡ 32
    → d.descriptor ≢ 0
    → d.get_screeninfo ≡ true
    → d.put_screeninfo ≡ true
    → d.mapped ≡ true
    → fb_init d s ≡ fault
unfolding fb_init
fb_init_32 d s h1 h2 h3 h4 h5 = ground arith

-- `fb_uninit` behind `fb_init` leaves the device with the palette of the arrays as they were allocated.
abbrev HasGarbage : Device → Res State → Type 0
HasGarbage d (ok s2) = s2.cmap ≡ d.palettes.uninitialized
HasGarbage d (exit status) = ⊥
HasGarbage d fault = ⊥
HasGarbage d running = ⊥

abbrev pub Garbage : Device → Res (ℕ × State) → Type 0
Garbage d (ok (zero, s1)) = HasGarbage d (fb_uninit d s1)
Garbage d (ok (suc error, s1)) = ⊥
Garbage d (exit status) = ⊥
Garbage d fault = ⊥
Garbage d running = ⊥

-- A palette that cannot be read is not noticed: where FBIOGETCMAP fails and nothing else, on a screen of
-- 16 bits a pixel, `fb_uninit` gives the device what was in the new arrays.
pub fb_uninit-Garbage :
    (d : Device) (s : State)
    → d.bits_per_pixel ≡ 16
    → d.descriptor ≢ 0
    → d.get_screeninfo ≡ true
    → d.put_screeninfo ≡ true
    → d.mapped ≡ true
    → d.palettes.allocated ≡ true
    → d.palettes.got ≡ false
    → d.palettes.allocated_last ≡ true
    → d.palettes.put_last ≡ true
    → Garbage d (fb_init d s)
unfolding fb_init fb_uninit
fb_uninit-Garbage d s h1 h2 h3 h4 h5 h6 h7 h8 h9 = ground arith
