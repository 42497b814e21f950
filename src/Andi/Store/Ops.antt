-- ===== src/Andi/Store/Ops.antt =====
-- The operations of the linked list are those of a queue.
use tcb.Base.{
  ℕ, zero, suc, ◌+◌, ◌-◌, ◌≡◌, ◌≢◌, refl, none, some, List, [], ◌∷◌, ◌++◌, length-append, replicate,
  drop, arith, sym, subst, ◌∙◌, ap, Res, ok,
}
use mathlib.Core.List.{append-nil, append_assoc}
use native.Mathlib.Decide.{ℕ_discrete}
use tcb.Andi.Penguin.{Penguin, Resolution, newborn}
use tcb.Andi.Store.{
  Pointer, Node, Nodes, look, put, Store, deref, spawn_penguin, destroy_penguin, spawn_penguins,
  destroy_penguins,
}
use tcb.Andi.Store.Cells.{
  Cells, Misses, Leads, put_self, put_ne, Leads-put, Misses-last, Misses-front, Leads-append,
  Leads-Misses, IsLast, IsLast-append, split, Holds,
}

used_ne : (nodes : Nodes) (a b : ℕ) {n : Node} → look nodes a ≡ some n → look nodes b ≡ none → a ≢ b
used_ne nodes a b used free e =
    let bad : none ≡ some _ = sym free ∙ ap (look nodes) (sym e) ∙ used in cc

-- What comes out holds what the queue has.
abbrev pub Becomes : Res Store → Cells → Type 0
Becomes r cells = (st : Store) × (r ≡ ok st) × Holds st cells

pub spawn_penguin-Becomes :
    (s : Resolution) (a : ℕ) (st : Store) (cells : Cells)
    → look st.nodes a ≡ none
    → Holds st cells
    → Becomes (spawn_penguin s (some a) st) (cells ++ (a, newborn s) ∷ [])
unfolding spawn_penguin deref
spawn_penguin-Becomes s a st [] free v =
    let nodes1 = put st.nodes a (some (record { penguin = newborn s; next = none })) in
    (
      record {
        nodes = nodes1;
        penguins = some a;
        last_penguin = some a;
        population = st.population + 1;
      },
      rw v.leads refl,
      record {
        leads = (refl, tt, none, put_self st.nodes a _, refl);
        is_last = refl;
        population = omega (arith, v.population);
        only = λ b m. put_ne st.nodes a b _ (λ e. m.0 (sym e)) ∙ v.only b tt;
      },
    )
spawn_penguin-Becomes s a st ((b, u) ∷ cells) free v =
    let sp = split st.nodes st.penguins st.last_penguin (b, u) cells v.leads v.is_last in
    let l = sp.address in
    let new = some (record { penguin = newborn s; next = none }) in
    let linked = some (record { penguin = sp.penguin; next = some a }) in
    let nodes1 = put st.nodes a new in
    let nodes2 = put nodes1 l linked in
    let apart : l ≢ a = used_ne st.nodes l a sp.here free in
    let last_node = put_ne st.nodes a l new apart ∙ sp.here in
    let front1 =
      Leads-put st.nodes st.penguins (some l) sp.front a new
        (Leads-Misses st.nodes st.penguins (some l) sp.front a free sp.leads) sp.leads in
    let front2 = Leads-put nodes1 st.penguins (some l) sp.front l linked sp.misses front1 in
    let joined =
      Leads-append nodes2 st.penguins (some a) sp.front l sp.penguin sp.misses front2
        (put_self nodes1 l linked) in
    let old = subst (λ t. Leads nodes2 st.penguins t (some a)) (sym sp.whole) joined in
    (
      record st { nodes = nodes2; last_penguin = some a; population = st.population + 1 },
      rw (v.leads.0, sp.is_last, last_node) refl,
      record {
        leads =
            Leads-append nodes2 st.penguins none ((b, u) ∷ cells) a (newborn s)
              (Leads-Misses st.nodes st.penguins none ((b, u) ∷ cells) a free v.leads) old
              (put_ne nodes1 l a linked (λ e. apart (sym e)) ∙ put_self st.nodes a new);
        is_last = IsLast-append ((b, u) ∷ cells) a (newborn s);
        population = omega (arith, v.population, length-append {0} cells ((a, newborn s) ∷ []));
        only = λ c m.
            let other = Misses-front c ((b, u) ∷ cells) a (newborn s) m in
            let ne_last = Misses-last c sp.front l sp.penguin (subst (Misses c) sp.whole other) in
            put_ne nodes1 l c linked (λ e. ne_last (sym e))
            ∙ put_ne st.nodes a c new (λ e. Misses-last c ((b, u) ∷ cells) a (newborn s) m (sym e))
            ∙ v.only c other;
      },
    )

pub destroy_penguin-Becomes :
    (st : Store) (c : ℕ × Penguin) (cells : Cells)
    → Holds st (c ∷ cells)
    → Becomes (destroy_penguin st) cells
unfolding destroy_penguin deref
destroy_penguin-Becomes st (a, w) cells v =
    let (at, out, r, here, rest) = v.leads in
    (
      record st { nodes = put st.nodes a none; penguins = r; population = st.population - 1 },
      rw (at, here) refl,
      record {
        leads = Leads-put st.nodes r none cells a none out rest;
        is_last = IsLast_tail st.last_penguin (a, w) cells v.is_last;
        population = omega (arith, v.population);
        only = λ b m. elim (ℕ_discrete a b) [
          | yes e ↦ subst (λ t. look (put st.nodes a none) t ≡ none) e (put_self st.nodes a none)
          | no ne ↦ put_ne st.nodes a b none (λ e. ne (sym e)) ∙ v.only b (ne, m)
        ];
      },
    )
  where
    IsLast_tail :
        (last : Pointer) (c : ℕ × Penguin) (cells : Cells)
        → IsLast last (c ∷ cells)
        → IsLast last cells
    IsLast_tail last c [] h = tt
    IsLast_tail last c (d ∷ cells) h = h

pub destroy_penguin_empty : (st : Store) → Holds st [] → Becomes (destroy_penguin st) []
unfolding destroy_penguin
destroy_penguin_empty st v = (st, rw v.leads refl, v)

-- `calloc` gives an address that is not in use; it does not run out of memory.
pub record Allocates (calloc : Nodes → Pointer) (address : Nodes → ℕ) : Type 0 where
  pub gives : (nodes : Nodes) → calloc nodes ≡ some (address nodes)
  pub free : (nodes : Nodes) → look nodes (address nodes) ≡ none

-- The penguins of cells, in order.
abbrev pub values : Cells → List Penguin
values [] = []
values ((a, v) ∷ cells) = v ∷ values cells

pub values-append :
    (cells : Cells) (a : ℕ) (v : Penguin) → values (cells ++ (a, v) ∷ []) ≡ values cells ++ v ∷ []
values-append [] a v = refl
values-append ((b, w) ∷ cells) a v = ap (λ t. w ∷ t) (values-append cells a v)

-- A list of penguins that a store represents.
abbrev pub Represents : Store → List Penguin → Type 0
Represents st ps = (cells : Cells) × Holds st cells × (values cells ≡ ps)

abbrev pub Yields : Res Store → List Penguin → Type 0
Yields r ps = (st : Store) × (r ≡ ok st) × Represents st ps

-- Where `calloc` gives addresses that are free, `spawn_penguins` on a store that represents a list of
-- penguins comes to a store that represents the list with so many new penguins behind it.
pub spawn_penguins-Yields :
    (s : Resolution) (calloc : Nodes → Pointer) (address : Nodes → ℕ)
    → Allocates calloc address
    → (number : ℕ) (st : Store) (ps : List Penguin) → Represents st ps
    → Yields (spawn_penguins s calloc number st) (ps ++ replicate number (newborn s))
unfolding spawn_penguins
spawn_penguins-Yields s calloc address w zero st ps r =
    (st, refl, subst (Represents st) (sym (append-nil ps)) r)
spawn_penguins-Yields s calloc address w (suc number) st ps (cells, v, e) =
    let a = address st.nodes in
    let (st1, runs, v1) = spawn_penguin-Becomes s a st cells (w.free st.nodes) v in
    let r1 : Represents st1 (ps ++ newborn s ∷ []) = (
      cells ++ (a, newborn s) ∷ [],
      v1,
      values-append cells a (newborn s) ∙ ap (λ t. t ++ newborn s ∷ []) e,
    ) in
    let (st2, runs2, r2) =
      spawn_penguins-Yields s calloc address w number st1 (ps ++ newborn s ∷ []) r1 in
    (
      st2,
      rw (w.gives st.nodes, runs) runs2,
      subst (Represents st2) (append_assoc ps (newborn s ∷ []) (replicate number (newborn s))) r2,
    )

drop_nil : (number : ℕ) → ◌≡◌ {A = List Penguin} (drop number []) []
drop_nil zero = refl
drop_nil (suc number) = refl

nil≢cons : {A : Type 0} {a : A} {rest : List A} → [] ≢ a ∷ rest
nil≢cons e = cc

-- `destroy_penguins` on a store that represents a list of penguins comes to a store that represents the
-- list without its first penguins, as many as were asked for, or without any where there are fewer;
-- the nodes of the dropped penguins are free.
pub destroy_penguins-Yields :
    (number : ℕ) (st : Store) (ps : List Penguin)
    → Represents st ps
    → Yields (destroy_penguins number st) (drop number ps)
unfolding destroy_penguins
destroy_penguins-Yields zero st ps r = (st, refl, r)
destroy_penguins-Yields (suc number) st [] ([], v, e) =
    let (st1, runs, v1) = destroy_penguin_empty st v in
    let (st2, runs2, r2) = destroy_penguins-Yields number st1 [] ([], v1, refl) in
    (st2, rw runs runs2, subst (Represents st2) (drop_nil number) r2)
destroy_penguins-Yields (suc number) st (p ∷ ps) ([], v, e) = absurd (nil≢cons e)
destroy_penguins-Yields (suc number) st [] (c ∷ cells, v, e) = absurd (nil≢cons (sym e))
destroy_penguins-Yields (suc number) st (p ∷ ps) (c ∷ cells, v, e) =
    let (st1, runs, v1) = destroy_penguin-Becomes st c cells v in
    let same : values cells ≡ ps = cc in
    let (st2, runs2, r2) = destroy_penguins-Yields number st1 ps (cells, v1, same) in
    (st2, rw runs runs2, r2)
