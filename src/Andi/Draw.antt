-- ===== src/Andi/Draw.antt =====
-- The animation frames, and the penguins on the screen in batches.
pub mod Laws
use tcb.Base.{
  ℕ, zero, suc, ◌+◌, ◌-◌, ◌*◌, ◌/◌, Option, none, some, List, [], ◌∷◌, ◌++◌, Res, ok, running,
  or_fault, within, ◌>>=◌, ◌>>◌, ltb, get_elem?, min,
}
use tcb.Base.Int.{ℤ}
use tcb.Andi.Penguin.{
  Direction, left, right, above, below, Penguin, x_tux_size, x_sprite_size, y_sprite_size,
  ring_size, frame_of,
}
use tcb.Andi.Store.{Pointer, Nodes, Store, deref}

-- `DFBRectangle`
pub record Rect : Type 0 where
  pub x : ℕ
  pub y : ℕ
  pub w : ℕ
  pub h : ℕ

-- The loop of `initialize_direction_frames`, with `rounds` to go: a ring by its frames in order.
unfoldable pub direction_loop : ℕ → ℕ → ℕ → List Rect
direction_loop yoffset zero i = []
direction_loop yoffset (suc rounds) i =
    record {
      x = i * x_sprite_size;
      y = y_sprite_size * yoffset;
      w = x_sprite_size;
      h = y_sprite_size;
    }
    ∷ direction_loop yoffset rounds (suc i)

abbrev pub direction_frames : ℕ → List Rect
direction_frames yoffset = direction_loop yoffset ring_size 0

-- `down_frames`, `left_frames`, `up_frames`, `right_frames`
pub record Frames : Type 0 where
  pub down_frames : List Rect
  pub left_frames : List Rect
  pub up_frames : List Rect
  pub right_frames : List Rect

unfoldable pub initialize_animation : Frames
unfolding direction_loop
initialize_animation = record {
  down_frames = direction_frames 0;
  left_frames = direction_frames 1;
  up_frames = direction_frames 2;
  right_frames = direction_frames 3;
}

-- `(*(p->frameset))->rect`
abbrev pub frames_of : Frames → Direction → List Rect
frames_of f left = f.left_frames
frames_of f right = f.right_frames
frames_of f above = f.up_frames
frames_of f below = f.down_frames

unfoldable pub rect_of : Frames → Penguin → Res Rect
unfolding frame_of
rect_of f p = or_fault (get_elem? (frames_of f p.frameset) (frame_of p))

-- An entry of `rects` with its entry of `points`.
pub record Sprite : Type 0 where
  pub rect : Rect
  pub x : ℤ
  pub y : ℤ

-- The loop that fills the arrays: from `n = 0` it makes `min j 256` rounds. The arrays have `size`
-- entries.
unfoldable pub fill_batch : Frames → Nodes → ℕ → ℕ → ℕ → Pointer → Res (List Sprite × Pointer)
unfolding deref rect_of
fill_batch f nodes size zero n p = ok ([], p)
fill_batch f nodes size (suc rounds) n p = do
  within (ltb n size)
  node ← deref p nodes
  rect ← rect_of f node.1.penguin
  rest ← fill_batch f nodes size rounds (suc n) node.1.next
  ok (record { rect = rect; x = node.1.penguin.x; y = node.1.penguin.y } ∷ rest.0, rest.1)

-- `while (j > 0)`: the batches that go to `BatchBlit`.
unfoldable pub draw_loop : Frames → Nodes → ℕ → ℕ → ℕ → Pointer → Res (List (List Sprite))
unfolding fill_batch
draw_loop f nodes size fuel zero p = ok []
draw_loop f nodes size zero (suc j) p = running
draw_loop f nodes size (suc fuel) (suc j) p = do
  batch ← fill_batch f nodes size (min (suc j) 256) 0 p
  rest ← draw_loop f nodes size fuel (suc j - min (suc j) 256) batch.1
  ok (batch.0 ∷ rest)

-- `draw_penguins`; without a penguin the arrays have no entries, as gcc allows.
unfoldable pub draw_penguins : Frames → Store → Res (List (List Sprite))
unfolding draw_loop
draw_penguins f st =
    draw_loop f st.nodes (min st.population 256) st.population st.population st.penguins
