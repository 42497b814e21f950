-- ===== src/Andi/Mask/Laws.antt =====
-- What the black pixels of the mask leave in `coords`.
use tcb.Base.{
  ℕ, zero, suc, ◌+◌, ◌-◌, ◌*◌, ◌≤◌, ◌<◌, ◌≡◌, refl, true, false, some, List, [], ◌∷◌, ◌++◌, Res, ok,
  fault, ◌>>=◌, if◌then◌else◌, replicate, length, length-append, Bool-cases, leb, arith, sym, ap,
  ap₂, inl, inr, ◌∙◌, subst,
}
use mathlib.Core.List.{append_assoc, append-nil}
use native.Mathlib.Decide.{dec_le}
use tcb.Base.Memory.{Memory, store-append, store_fault}
use tcb.Andi.Mask.{
  Mask, Coords, is_black, scaled, mask_pixel, mask_row, mask_rows, read_destination_mask,
}

-- The coordinates of the black pixels, in the order of the rows.
abbrev pub Points : Type 0
Points = List (ℕ × ℕ)

module _ (m : Mask) (pixel : ℕ → ℕ → ℕ) where
  abbrev pub pixel_points : ℕ → ℕ → Points
  pixel_points y x = if is_black (pixel x y) then (scaled m.width x, scaled m.height y) ∷ [] else []

  abbrev pub row_points : ℕ → ℕ → ℕ → Points
  row_points y zero x = []
  row_points y (suc rounds) x = pixel_points y x ++ row_points y rounds (suc x)

  abbrev pub points : ℕ → ℕ → Points
  points zero y = []
  points (suc rounds) y = row_points y m.width 0 ++ points rounds (suc y)

abbrev pub flat : Points → Memory
flat [] = []
flat ((x, y) ∷ ps) = x ∷ y ∷ flat ps

length-flat : (ps : Points) → length (flat ps) ≡ length ps * 2
length-flat [] = refl
length-flat ((x, y) ∷ ps) = omega (arith, length-flat ps)

flat-append : (ps qs : Points) → flat (ps ++ qs) ≡ flat ps ++ flat qs
flat-append [] qs = refl
flat-append ((x, y) ∷ ps) qs = ap (λ t. x ∷ y ∷ t) (flat-append ps qs)

-- `coords` and `nr_coords` with these points, and so many entries free.
abbrev pub filled : Points → ℕ → Coords
filled ps room = record { coords = flat ps ++ replicate room 0; nr_coords = length ps }

module _ (m : Mask) (pixel : ℕ → ℕ → ℕ) (y x : ℕ) (ps : Points) where
  mask_pixel_black :
      (room : ℕ)
      → is_black (pixel x y) ≡ true
      → mask_pixel m pixel y x (filled ps (suc (suc room)))
        ≡ ok (filled (ps ++ (scaled m.width x, scaled m.height y) ∷ []) room)
  unfolding mask_pixel
  mask_pixel_black room e =
      let a = scaled m.width x in
      let b = scaled m.height y in
      let zeros = replicate room 0 in
      let first =
        store-append (flat ps) (0 ∷ 0 ∷ zeros) (length ps * 2) 0 a (omega (arith, length-flat ps))
          (omega arith) in
      let second =
        store-append (flat ps) (a ∷ 0 ∷ zeros) (length ps * 2 + 1) 1 b
          (omega (arith, length-flat ps)) (omega arith) in
      rw
        (
          mask_pixel,
          e,
          first,
          second,
          flat-append ps ((a, b) ∷ []),
          append_assoc (flat ps) (a ∷ b ∷ []) zeros,
          length-append {0} ps ((a, b) ∷ []),
        )
        refl

  mask_pixel_full :
      (room : ℕ)
      → is_black (pixel x y) ≡ true
      → room < 2
      → mask_pixel m pixel y x (filled ps room) ≡ fault
  unfolding mask_pixel
  mask_pixel_full zero e h =
      rw
        (
          mask_pixel,
          e,
          store_fault (flat ps ++ []) (length ps * 2) (scaled m.width x)
              (omega (arith, length-flat ps, length-append {0} (flat ps) [])),
        )
        refl
  mask_pixel_full (suc zero) e h =
      let a = scaled m.width x in
      let first =
        store-append (flat ps) (0 ∷ []) (length ps * 2) 0 a (omega (arith, length-flat ps))
          (omega arith) in
      let second =
        store_fault (flat ps ++ a ∷ []) (length ps * 2 + 1) (scaled m.height y)
          (omega (arith, length-flat ps, length-append {0} (flat ps) (a ∷ []))) in
      rw (mask_pixel, e, first, second) refl
  mask_pixel_full (suc (suc room)) e h = absurd (omega (arith, h))

-- What a run over pixels whose black ones are `qs` comes to: they are added where there is room for
-- them, and else a store is behind the end of `coords`.
abbrev Fills : Res Coords → Points → ℕ → Points → Type 0
Fills run ps room qs =
    (length qs * 2 ≤ room → run ≡ ok (filled (ps ++ qs) (room - length qs * 2)))
    × (room < length qs * 2 → run ≡ fault)

Fills-then :
    (run : Res Coords) (next : Coords → Res Coords) (ps : Points) (room : ℕ) (qs rs : Points)
    → Fills run ps room qs
    → ((left : ℕ) → Fills (next (filled (ps ++ qs) left)) (ps ++ qs) left rs)
    → Fills (run >>= next) ps room (qs ++ rs)
Fills-then run next ps room qs rs f g =
    let count = length-append {0} qs rs in
    let left = room - length qs * 2 in
    (
      (λ fit.
          let whole : left - length rs * 2 ≡ room - length (qs ++ rs) * 2 = omega (arith, count) in
          ap (λ r. r >>= next) (f.0 (omega (arith, fit, count)))
          ∙ (g left).0 (omega (arith, fit, count))
          ∙ ap ok (ap₂ filled (append_assoc ps qs rs) whole)),
      (λ over. elim (dec_le (length qs * 2) room) [
        | yes fit ↦ ap (λ r. r >>= next) (f.0 fit) ∙ (g left).1 (omega (arith, over, fit, count))
        | no full ↦ ap (λ r. r >>= next) (f.1 (omega (arith, full)))
      ]),
    )

nothing-Fills : (ps : Points) (room : ℕ) → Fills (ok (filled ps room)) ps room []
nothing-Fills ps room =
    let same : room ≡ room - 0 * 2 = omega arith in
    ((λ h. ap ok (ap₂ filled (sym (append-nil ps)) same)), λ h. absurd (omega (arith, h)))

module _ (m : Mask) (pixel : ℕ → ℕ → ℕ) where
  black-Fills :
      (y x : ℕ) (ps : Points) (room : ℕ)
      → is_black (pixel x y) ≡ true
      → Fills
          (mask_pixel m pixel y x (filled ps room))
          ps
          room
          ((scaled m.width x, scaled m.height y) ∷ [])
  black-Fills y x ps zero e =
      ((λ h. absurd (omega (arith, h))), λ h. mask_pixel_full m pixel y x ps 0 e (omega arith))
  black-Fills y x ps (suc zero) e =
      ((λ h. absurd (omega (arith, h))), λ h. mask_pixel_full m pixel y x ps 1 e (omega arith))
  black-Fills y x ps (suc (suc room)) e =
      let left : room ≡ suc (suc room) - 1 * 2 = omega arith in
      let more = ps ++ (scaled m.width x, scaled m.height y) ∷ [] in
      (
        (λ h. mask_pixel_black m pixel y x ps room e ∙ ap (λ t. ok (filled more t)) left),
        λ h. absurd (omega (arith, h)),
      )

  white-Fills :
      (y x : ℕ) (ps : Points) (room : ℕ)
      → is_black (pixel x y) ≡ false
      → Fills (mask_pixel m pixel y x (filled ps room)) ps room []
  unfolding mask_pixel
  white-Fills y x ps room e = rw (mask_pixel, e) (nothing-Fills ps room)

  mask_pixel-Fills :
      (y x : ℕ) (ps : Points) (room : ℕ)
      → Fills (mask_pixel m pixel y x (filled ps room)) ps room (pixel_points m pixel y x)
  mask_pixel-Fills y x ps room =
      let p : ℕ × ℕ = (scaled m.width x, scaled m.height y) in
      let fills = Fills (mask_pixel m pixel y x (filled ps room)) ps room in
      elim (Bool-cases (is_black (pixel x y))) [
        | inl e ↦
            subst fills (ap (λ b. if b then p ∷ [] else []) (sym e)) (black-Fills y x ps room e)
        | inr e ↦
            subst fills (ap (λ b. if b then p ∷ [] else []) (sym e)) (white-Fills y x ps room e)
      ]

  mask_row-Fills :
      (y rounds x : ℕ) (ps : Points) (room : ℕ)
      → Fills (mask_row m pixel y rounds x (filled ps room)) ps room (row_points m pixel y rounds x)
  unfolding mask_row
  mask_row-Fills y zero x ps room = nothing-Fills ps room
  mask_row-Fills y (suc rounds) x ps room =
      Fills-then (mask_pixel m pixel y x (filled ps room)) (mask_row m pixel y rounds (suc x)) ps
        room (pixel_points m pixel y x) (row_points m pixel y rounds (suc x))
        (mask_pixel-Fills y x ps room)
        (mask_row-Fills y rounds (suc x) (ps ++ pixel_points m pixel y x))

  mask_rows-Fills :
      (rounds y : ℕ) (ps : Points) (room : ℕ)
      → Fills (mask_rows m pixel rounds y (filled ps room)) ps room (points m pixel rounds y)
  unfolding mask_rows
  mask_rows-Fills zero y ps room = nothing-Fills ps room
  mask_rows-Fills (suc rounds) y ps room =
      Fills-then (mask_row m pixel y m.width 0 (filled ps room)) (mask_rows m pixel rounds (suc y))
        ps room (row_points m pixel y m.width 0) (points m pixel rounds (suc y))
        (mask_row-Fills y m.width 0 ps room)
        (mask_rows-Fills rounds (suc y) (ps ++ row_points m pixel y m.width 0))

-- Where no more than half of the mask is black, `read_destination_mask` ends with the scaled
-- coordinates of the black pixels, row by row, and zeros behind them; where more is black, it writes
-- behind the end of `coords`, which has one int for each pixel and takes two for each black one.
pub read_destination_mask_lem :
    (m : Mask) (pixel : ℕ → ℕ → ℕ)
    → m.pixels ≡ some pixel
    → let black = points m pixel m.height 0 in
      let size = m.width * m.height in
      read_destination_mask m
      ≡ (if leb (length black * 2) size then ok (filled black (size - length black * 2)) else fault)
unfolding read_destination_mask
read_destination_mask_lem m pixel e =
    let black = points m pixel m.height 0 in
    let size = m.width * m.height in
    let fills = mask_rows-Fills m pixel m.height 0 [] size in
    elim (dec_le (length black * 2) size) [
      | yes h ↦ rw (e, fills.0 h, le→leb (length black * 2) size h) refl
      | no h ↦
          rw (e, fills.1 (omega (arith, h)), lt→leb size (length black * 2) (omega (arith, h))) refl
    ]
  where
    le→leb : (a b : ℕ) → a ≤ b → leb a b ≡ true
    le→leb a b h = ground arith

    lt→leb : (a b : ℕ) → a < b → leb b a ≡ false
    lt→leb a b h = ground arith

-- Every number below `nr_coords` has its entries in `coords`.
abbrev pub HasCoords : Coords → Type 0
HasCoords c = c.nr_coords * 2 ≤ length c.coords

pub filled-HasCoords : (ps : Points) (room : ℕ) → HasCoords (filled ps room)
filled-HasCoords ps room =
    omega (arith, length-flat ps, length-append {0} (flat ps) (replicate room 0))

pub read_destination_mask_fits :
    (m : Mask) (pixel : ℕ → ℕ → ℕ)
    → m.pixels ≡ some pixel
    → length (points m pixel m.height 0) * 2 ≤ m.width * m.height
    → let black = points m pixel m.height 0 in
      read_destination_mask m ≡ ok (filled black (m.width * m.height - length black * 2))
unfolding read_destination_mask
read_destination_mask_fits m pixel e h =
    rw (e, (mask_rows-Fills m pixel m.height 0 [] (m.width * m.height)).0 h) refl
