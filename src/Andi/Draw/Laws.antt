-- ===== src/Andi/Draw/Laws.antt =====
-- The batches are the sprites of all penguins, in order.
use tcb.Base.{
  ℕ, zero, suc, ◌+◌, ◌-◌, ◌*◌, ◌≤◌, ◌<◌, ◌≡◌, refl, none, some, List, [], ◌∷◌, ◌++◌, ok, All,
  get_elem?, min, length, take, drop, lt→ltb, arith, sym, ap, subst, ◌∙◌,
}
use mathlib.Core.List.{map}
use tcb.Andi.Penguin.{Direction, left, right, above, below, Penguin, ring_size, frame_of}
use tcb.Andi.Penguin.Laws.{HasFrames}
use tcb.Andi.Store.{Pointer, Nodes, Store, deref}
use tcb.Andi.Store.Cells.{Cells, Leads}
use tcb.Andi.Store.Ops.{values, Represents}
use tcb.Andi.Draw.{
  direction_loop, direction_frames, initialize_animation, rect_of, Sprite, fill_batch, draw_loop,
  draw_penguins,
}

-- The row of the penguin surface with the frames of a direction.
abbrev pub row : Direction → ℕ
row below = 0
row left = 1
row above = 2
row right = 3

-- Where a penguin's sprite is on the surface, and where it goes on the screen.
abbrev pub sprite : Penguin → Sprite
sprite p = record {
  rect = record { x = 40 * frame_of p; y = 60 * row p.frameset; w = 40; h = 60 };
  x = p.x;
  y = p.y;
}

get_elem?-direction_loop :
    (yoffset rounds i k : ℕ)
    → k < rounds
    → get_elem? (direction_loop yoffset rounds i) k
      ≡ some (record { x = (i + k) * 40; y = 60 * yoffset; w = 40; h = 60 })
unfolding direction_loop
get_elem?-direction_loop yoffset zero i k h = absurd (omega (arith, h))
get_elem?-direction_loop yoffset (suc rounds) i zero h =
    ap (λ t. some (record { x = t * 40; y = 60 * yoffset; w = 40; h = 60 }))
      (let e : i ≡ i + 0 = omega arith in e)
get_elem?-direction_loop yoffset (suc rounds) i (suc k) h =
    get_elem?-direction_loop yoffset rounds (suc i) k (omega (arith, h))
    ∙ ap (λ t. some (record { x = t * 40; y = 60 * yoffset; w = 40; h = 60 }))
        (let e : suc i + k ≡ i + suc k = omega arith in e)

frame_found :
    (yoffset k : ℕ)
    → k < ring_size
    → get_elem? (direction_frames yoffset) k
      ≡ some (record { x = 40 * k; y = 60 * yoffset; w = 40; h = 60 })
frame_found yoffset k h =
    get_elem?-direction_loop yoffset ring_size 0 k h
    ∙ ap (λ t. some (record { x = t; y = 60 * yoffset; w = 40; h = 60 }))
        (let e : (0 + k) * 40 ≡ 40 * k = omega arith in e)

rect_of_lem : (p : Penguin) → HasFrames p → rect_of initialize_animation p ≡ ok (sprite p).rect
unfolding rect_of initialize_animation frame_of
rect_of_lem p v = by_direction p.frameset refl
  where
    by_direction :
        (d : Direction) → p.frameset ≡ d → rect_of initialize_animation p ≡ ok (sprite p).rect
    by_direction left e = rw (e, frame_found 1 p.left_frame v.left) refl
    by_direction right e = rw (e, frame_found 3 p.right_frame v.right) refl
    by_direction above e = rw (e, frame_found 2 p.up_frame v.above) refl
    by_direction below e = rw (e, frame_found 0 p.down_frame v.below) refl

-- `rounds` rounds put the sprites of the next `rounds` penguins into the arrays.
fill_batch_lem :
    (nodes : Nodes) (size rounds n : ℕ) (p : Pointer) (cells : Cells)
    → Leads nodes p cells none
    → All HasFrames (values cells)
    → n + rounds ≤ size
    → rounds ≤ length cells
    → (q : Pointer) × (fill_batch initialize_animation nodes size rounds n p
        ≡ ok (map sprite (values (take rounds cells)), q))
      × Leads nodes q (drop rounds cells) none
unfolding fill_batch deref
fill_batch_lem nodes size zero n p cells l v h long = (p, refl, l)
fill_batch_lem nodes size (suc rounds) n p [] l v h long = absurd (omega (arith, long))
fill_batch_lem nodes size (suc rounds) n p ((a, w) ∷ cells) l v h long =
    let (at, out, r, here, next) = l in
    let (q, runs, leads) =
      fill_batch_lem nodes size rounds (suc n) r cells next v.1 (omega (arith, h))
        (omega (arith, long)) in
    (q, rw (lt→ltb n size (omega (arith, h)), at, here, rect_of_lem w v.0, runs) refl, leads)

-- What the batches of a list of penguins are.
abbrev pub Shows : List (List Sprite) → List Sprite → Type 0
Shows [] sprites = sprites ≡ []
Shows (batch ∷ batches) sprites =
    (1 ≤ length batch)
    × (length batch ≤ 256)
    × (rest : List Sprite) × (sprites ≡ batch ++ rest)
    × Shows batches rest

-- Cells in two parts.
sprites_split :
    (k : ℕ) (cells : Cells)
    → map sprite (values cells)
      ≡ map sprite (values (take k cells)) ++ map sprite (values (drop k cells))
sprites_split zero cells = refl
sprites_split (suc k) [] = refl
sprites_split (suc k) ((a, p) ∷ cells) = ap (λ t. sprite p ∷ t) (sprites_split k cells)

All-drop :
    (k : ℕ) (cells : Cells) → All HasFrames (values cells) → All HasFrames (values (drop k cells))
All-drop zero cells v = v
All-drop (suc k) [] v = tt
All-drop (suc k) ((a, p) ∷ cells) v = All-drop k cells v.1

length-drop : (k : ℕ) (cells : Cells) → length (drop k cells) ≡ length cells - k
length-drop zero cells = omega arith
length-drop (suc k) [] = omega arith
length-drop (suc k) (c ∷ cells) = omega (arith, length-drop k cells)

length-sprites :
    (k : ℕ) (cells : Cells) → k ≤ length cells → length (map sprite (values (take k cells))) ≡ k
length-sprites zero cells h = refl
length-sprites (suc k) [] h = absurd (omega (arith, h))
length-sprites (suc k) ((a, p) ∷ cells) h = ap suc (length-sprites k cells (omega (arith, h)))

draw_loop_lem :
    (nodes : Nodes) (size fuel j : ℕ) (p : Pointer) (cells : Cells)
    → Leads nodes p cells none
    → All HasFrames (values cells)
    → j ≡ length cells
    → min j 256 ≤ size
    → j ≤ fuel
    → (batches : List (List Sprite)) × (draw_loop initialize_animation nodes size fuel j p
        ≡ ok batches)
      × Shows batches (map sprite (values cells))
unfolding draw_loop
draw_loop_lem nodes size fuel zero p [] l v count h long = ([], refl, refl)
draw_loop_lem nodes size fuel zero p (c ∷ cells) l v count h long = absurd (omega (arith, count))
draw_loop_lem nodes size zero (suc j) p cells l v count h long = absurd (omega (arith, long))
draw_loop_lem nodes size (suc fuel) (suc j) p cells l v count h long =
    let k = min (suc j) 256 in
    let (q, filled, next) =
      fill_batch_lem nodes size k 0 p cells l v (omega (arith, h)) (omega (arith, count)) in
    let (batches, runs, shows) =
      draw_loop_lem nodes size fuel (suc j - k) q (drop k cells) next (All-drop k cells v)
        (omega (arith, count, length-drop k cells)) (omega (arith, h)) (omega (arith, long)) in
    let len = length-sprites k cells (omega (arith, count)) in
    (
      map sprite (values (take k cells)) ∷ batches,
      rw (filled, runs) refl,
      (
        omega (arith, len),
        omega (arith, len),
        map sprite (values (drop k cells)),
        sprites_split k cells,
        shows,
      ),
    )

-- `draw_penguins` never leaves its arrays or follows a null pointer: it draws the sprite of every
-- penguin, in order, in batches of 1 to 256.
pub draw_penguins_lem :
    (st : Store) (ps : List Penguin)
    → Represents st ps
    → All HasFrames ps
    → (batches : List (List Sprite)) × (draw_penguins initialize_animation st ≡ ok batches)
      × Shows batches (map sprite ps)
unfolding draw_penguins
draw_penguins_lem st ps (cells, v, e) fit =
    let (batches, runs, shows) =
      draw_loop_lem st.nodes (min st.population 256) st.population st.population st.penguins cells
        v.leads (subst (All HasFrames) (sym e) fit) v.population (omega arith) (omega arith) in
    (batches, runs, subst (λ t. Shows batches (map sprite t)) e shows)
