-- ===== src/Andi/Store.antt =====
-- The linked list of penguins: `penguins`, `last_penguin`, `population`, and the nodes that `calloc`
-- has given. A pointer is `none` where it is null; a read or write of anything but a node is `fault`.
pub mod Cells
pub mod Ops
pub mod Walk
use tcb.Base.{
  ℕ, zero, suc, ◌+◌, ◌-◌, Option, none, some, List, [], ◌∷◌, Res, ok, fault, running, or_fault,
  ◌>>=◌, ◌==◌, if◌then◌else◌,
}
use tcb.Andi.Penguin.{Penguin, Resolution, newborn}

abbrev pub Pointer : Type 0
Pointer = Option ℕ

-- `struct _Penguin`
pub record Node : Type 0 where
  pub penguin : Penguin
  pub next : Pointer

-- The nodes, as what was last written to each address: none where it was freed.
abbrev pub Nodes : Type 0
Nodes = List (ℕ × Option Node)

unfoldable pub look : Nodes → ℕ → Option Node
look [] b = none
look ((a, n) ∷ nodes) b = if b == a then n else look nodes b

abbrev pub put : Nodes → ℕ → Option Node → Nodes
put nodes a n = (a, n) ∷ nodes

-- The globals of the list.
pub record Store : Type 0 where
  pub nodes : Nodes
  pub penguins : Pointer
  pub last_penguin : Pointer
  pub population : ℕ

abbrev pub no_penguins : Store
no_penguins = record { nodes = []; penguins = none; last_penguin = none; population = 0 }

-- `*p`
unfoldable pub deref : Pointer → Nodes → Res (ℕ × Node)
unfolding look
deref none nodes = fault
deref (some a) nodes = do n ← or_fault (look nodes a); ok (a, n)

-- `spawn_penguin`; `fresh` is what `calloc` returns, and the new node is written through it.
unfoldable pub spawn_penguin : Resolution → Pointer → Store → Res Store
unfolding deref
spawn_penguin s none st = fault
spawn_penguin s (some a) st =
    let nodes1 = put st.nodes a (some (record { penguin = newborn s; next = none })) in
    elim st.penguins [
      | none ↦ ok (record {
        nodes = nodes1;
        penguins = some a;
        last_penguin = some a;
        population = st.population + 1;
      })
      | some _ ↦ do
        last ← deref st.last_penguin nodes1
        ok (record st {
          nodes = put nodes1 last.0 (some (record { penguin = last.1.penguin; next = some a }));
          last_penguin = some a;
          population = st.population + 1;
        })
    ]

-- `destroy_penguin`
unfoldable pub destroy_penguin : Store → Res Store
unfolding deref
destroy_penguin st = elim st.penguins [
  | none ↦ ok st
  | some a ↦ do
    first ← deref (some a) st.nodes
    ok (record st {
      nodes = put st.nodes a none;
      penguins = first.1.next;
      population = st.population - 1;
    })
]

-- `spawn_penguins` and `destroy_penguins`. `calloc` may look at all nodes so far.
unfoldable pub spawn_penguins : Resolution → (Nodes → Pointer) → ℕ → Store → Res Store
unfolding spawn_penguin
spawn_penguins s calloc zero st = ok st
spawn_penguins s calloc (suc number) st = do
  st1 ← spawn_penguin s (calloc st.nodes) st
  spawn_penguins s calloc number st1

unfoldable pub destroy_penguins : ℕ → Store → Res Store
unfolding destroy_penguin
destroy_penguins zero st = ok st
destroy_penguins (suc number) st = do st1 ← destroy_penguin st; destroy_penguins number st1

-- `while (p) { ...; p = p->next; }`, as `move_penguins`, `revive_penguins` and
-- `penguins_search_destination` go through the list: the body changes the penguin that `p` points to.
unfoldable pub walk :
    {S : Type 0} → (S → Penguin → Res (S × Penguin)) → ℕ → Pointer → S → Nodes → Res (S × Nodes)
unfolding deref
walk body fuel none s nodes = ok (s, nodes)
walk body zero (some a) s nodes = running
walk body (suc fuel) (some a) s nodes = do
  n ← deref (some a) nodes
  out ← body s n.1.penguin
  walk body fuel n.1.next out.0 (put nodes a (some (record { penguin = out.1; next = n.1.next })))

-- `destroy_all_penguins`; `population` and `last_penguin` keep their values.
unfoldable pub destroy_all : ℕ → Pointer → Nodes → Res Nodes
unfolding deref
destroy_all fuel none nodes = ok nodes
destroy_all zero (some a) nodes = running
destroy_all (suc fuel) (some a) nodes = do
  n ← deref (some a) nodes
  destroy_all fuel n.1.next (put nodes a none)
