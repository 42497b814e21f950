-- ===== src/Andi/Store/Walk.antt =====
-- The loops over the linked list end, and do to every penguin what their body does to one.
use tcb.Base.{
  ℕ, zero, suc, ◌≤◌, ◌≡◌, refl, none, some, List, [], ◌∷◌, All, length, arith, sym, subst, ◌∙◌, ap,
  Res, ok,
}
use native.Mathlib.Decide.{ℕ_discrete}
use tcb.Andi.Penguin.{Penguin}
use tcb.Andi.Store.{Pointer, Nodes, look, put, Store, deref, walk, destroy_all}
use tcb.Andi.Store.Cells.{Cells, Misses, Leads, put_self, put_ne, Leads-put, IsLast}
use tcb.Andi.Store.Ops.{values, Represents}

module _ {S : Type 0} (body : S → Penguin → S × Penguin) where
  -- The body at each of a list of penguins, in order.
  abbrev pub each : S → List Penguin → S × List Penguin
  each s [] = (s, [])
  each s (p ∷ ps) = let (s1, p1) = body s p in let (s2, rest) = each s1 ps in (s2, p1 ∷ rest)

  abbrev each_cell : S → Cells → S × Cells
  each_cell s [] = (s, [])
  each_cell s ((a, p) ∷ cells) =
      let (s1, p1) = body s p in let (s2, rest) = each_cell s1 cells in (s2, (a, p1) ∷ rest)

  values-each :
      (s : S) (cells : Cells)
      → ((each_cell s cells).0 ≡ (each s (values cells)).0)
        × (values (each_cell s cells).1 ≡ (each s (values cells)).1)
  values-each s [] = (refl, refl)
  values-each s ((a, p) ∷ cells) =
      let (s1, p1) = body s p in
      let (same, rest) = values-each s1 cells in (same, ap (λ t. p1 ∷ t) rest)

  Misses-each : (a : ℕ) (s : S) (cells : Cells) → Misses a cells → Misses a (each_cell s cells).1
  Misses-each a s [] m = tt
  Misses-each a s ((b, p) ∷ cells) m = (m.0, Misses-each a (body s p).0 cells m.1)

  Misses-each_inv :
      (a : ℕ) (s : S) (cells : Cells) → Misses a (each_cell s cells).1 → Misses a cells
  Misses-each_inv a s [] m = tt
  Misses-each_inv a s ((b, p) ∷ cells) m = (m.0, Misses-each_inv a (body s p).0 cells m.1)

  IsLast-each :
      (last : Pointer) (s : S) (cells : Cells)
      → IsLast last cells
      → IsLast last (each_cell s cells).1
  IsLast-each last s [] h = tt
  IsLast-each last s (c ∷ []) h = h
  IsLast-each last s (c ∷ d ∷ cells) h = IsLast-each last (body s c.1).0 (d ∷ cells) h

  length-each : (s : S) (cells : Cells) → length (each_cell s cells).1 ≡ length cells
  length-each s [] = refl
  length-each s ((a, p) ∷ cells) = ap suc (length-each (body s p).0 cells)

pub length-values : (cells : Cells) → length cells ≡ length (values cells)
length-values [] = refl
length-values (c ∷ cells) = ap suc (length-values cells)

-- The code of a loop's body comes to a value wherever it is run.
module _ {S : Type 0} (code : S → Penguin → Res (S × Penguin)) (body : S → Penguin → S × Penguin)
    (does : (s : S) (p : Penguin) → code s p ≡ ok (body s p)) where
  walk-Leads :
      (fuel : ℕ) (p : Pointer) (s : S) (nodes : Nodes) (cells : Cells)
      → Leads nodes p cells none
      → length cells ≤ fuel
      → (after : Nodes) × (walk code fuel p s nodes ≡ ok ((each_cell body s cells).0, after))
        × Leads after p (each_cell body s cells).1 none
        × ((b : ℕ) → Misses b cells → look after b ≡ look nodes b)
  unfolding walk deref
  walk-Leads fuel p s nodes [] l h = (nodes, rw l refl, l, λ b m. refl)
  walk-Leads zero p s nodes (c ∷ cells) l h = absurd (omega (arith, h))
  walk-Leads (suc fuel) p s nodes ((a, v) ∷ cells) l h =
      let (at, out, r, here, rest) = l in
      let (s1, v1) = body s v in
      let new = some (record { penguin = v1; next = r }) in
      let nodes1 = put nodes a new in
      let (after, runs, l2, kept) =
        walk-Leads fuel r s1 nodes1 cells (Leads-put nodes r none cells a new out rest)
          (omega (arith, h)) in
      (
        after,
        rw (at, here, does s v) runs,
        (at, Misses-each body a s1 cells out, r, kept a out ∙ put_self nodes a new, l2),
        λ b m. kept b m.1 ∙ put_ne nodes a b new (λ e. m.0 (sym e)),
      )

  -- With as many rounds as there are penguins, a loop over the list ends, and leaves the list that the
  -- body leaves of the penguins, one behind the other.
  pub walk-Represents :
      (fuel : ℕ) (st : Store) (s : S) (ps : List Penguin)
      → Represents st ps
      → length ps ≤ fuel
      → (after : Nodes) × (walk code fuel st.penguins s st.nodes ≡ ok ((each body s ps).0, after))
        × Represents (record st { nodes = after }) (each body s ps).1
  walk-Represents fuel st s ps (cells, v, e) h =
      let count : length cells ≡ length ps = length-values cells ∙ ap length e in
      let (after, runs, leads, kept) =
        walk-Leads fuel st.penguins s st.nodes cells v.leads (omega (arith, h, count)) in
      let (same, after_values) = values-each body s cells in
      (
        after,
        runs ∙ ap (λ t. ok (t, after)) (same ∙ ap (λ t. (each body s t).0) e),
        (
          (each_cell body s cells).1,
          record {
            leads = leads;
            is_last = IsLast-each body st.last_penguin s cells v.is_last;
            population = v.population ∙ sym (length-each body s cells);
            only = λ b m. let out = Misses-each_inv body b s cells m in kept b out ∙ v.only b out;
          },
          after_values ∙ ap (λ t. (each body s t).1) e,
        ),
      )

-- `destroy_all_penguins` ends, gives back every node of the list, and no other.
pub destroy_all-frees :
    (fuel : ℕ) (p : Pointer) (nodes : Nodes) (cells : Cells)
    → Leads nodes p cells none
    → length cells ≤ fuel
    → (after : Nodes) × (destroy_all fuel p nodes ≡ ok after)
      × All (λ c. look after c.0 ≡ none) cells
      × ((a : ℕ) → Misses a cells → look after a ≡ look nodes a)
unfolding destroy_all deref
destroy_all-frees fuel p nodes [] l h = (nodes, rw l refl, tt, λ a m. refl)
destroy_all-frees zero p nodes (c ∷ cells) l h = absurd (omega (arith, h))
destroy_all-frees (suc fuel) p nodes ((a, v) ∷ cells) l h =
    let (at, out, r, here, rest) = l in
    let nodes1 = put nodes a none in
    let (after, runs, freed, kept) =
      destroy_all-frees fuel r nodes1 cells (Leads-put nodes r none cells a none out rest)
        (omega (arith, h)) in
    (
      after,
      rw (at, here) runs,
      (kept a out ∙ put_self nodes a none, freed),
      λ b m. kept b m.1 ∙ put_ne nodes a b none (λ e. m.0 (sym e)),
    )

-- With every node in the list, none is in use when `destroy_all_penguins` has ended.
pub destroy_all_lem :
    (fuel : ℕ) (st : Store) (ps : List Penguin)
    → Represents st ps
    → length ps ≤ fuel
    → (after : Nodes) × (destroy_all fuel st.penguins st.nodes ≡ ok after)
      × ((a : ℕ) → look after a ≡ none)
destroy_all_lem fuel st ps (cells, v, e) h =
    let count : length cells ≡ length ps = length-values cells ∙ ap length e in
    let (after, runs, freed, kept) =
      destroy_all-frees fuel st.penguins st.nodes cells v.leads (omega (arith, h, count)) in
    (after, runs, λ a. all_none after a cells freed (λ m. kept a m ∙ v.only a m))
  where
    all_none :
        (after : Nodes) (a : ℕ) (cells : Cells)
        → All (λ c. look after c.0 ≡ none) cells
        → (Misses a cells → look after a ≡ none)
        → look after a ≡ none
    all_none after a [] freed h = h tt
    all_none after a (c ∷ cells) freed h = elim (ℕ_discrete c.0 a) [
      | yes e ↦ subst (λ t. look after t ≡ none) e freed.0
      | no ne ↦ all_none after a cells freed.1 (λ m. h (ne, m))
    ]
