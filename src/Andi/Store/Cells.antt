-- ===== src/Andi/Store/Cells.antt =====
-- What a store holds: the penguins of the list, with the addresses of their nodes.
use tcb.Base.{
  ℕ, ◌≡◌, ◌≢◌, refl, Option, none, some, List, [], ◌∷◌, ◌++◌, All, All-append, length, arith, sym,
  subst, ◌∙◌, ap,
}
use tcb.Andi.Penguin.{Penguin}
use tcb.Andi.Store.{Pointer, Node, Nodes, look, put, Store}

abbrev pub Cells : Type 0
Cells = List (ℕ × Penguin)

-- An address that no cell has.
abbrev pub Misses : ℕ → Cells → Type 0
Misses a = All (λ c. c.0 ≢ a)

-- From `p` the nodes lead through the cells, at different addresses, to `q`.
abbrev pub Leads : Nodes → Pointer → Cells → Pointer → Type 0
Leads nodes p [] q = p ≡ q
Leads nodes p ((a, v) ∷ cells) q =
    (p ≡ some a)
    × Misses a cells
    × (r : Pointer) × (look nodes a ≡ some (record { penguin = v; next = r }))
    × Leads nodes r cells q

-- What a write elsewhere leaves.
pub put_self : (nodes : Nodes) (a : ℕ) (n : Option Node) → look (put nodes a n) a ≡ n
unfolding look
put_self nodes a n = ground arith

pub put_ne :
    (nodes : Nodes) (a b : ℕ) (n : Option Node) → b ≢ a → look (put nodes a n) b ≡ look nodes b
unfolding look
put_ne nodes a b n h = ground arith

pub Leads-put :
    (nodes : Nodes) (p q : Pointer) (cells : Cells) (a : ℕ) (n : Option Node)
    → Misses a cells
    → Leads nodes p cells q
    → Leads (put nodes a n) p cells q
Leads-put nodes p q [] a n miss l = l
Leads-put nodes p q ((b, v) ∷ cells) a n miss l =
    let (at, out, r, here, rest) = l in
    (at, out, r, put_ne nodes a b n miss.0 ∙ here, Leads-put nodes r q cells a n miss.1 rest)

pub Misses-append :
    (b : ℕ) (cells : Cells) (a : ℕ) (v : Penguin)
    → Misses b cells
    → a ≢ b
    → Misses b (cells ++ (a, v) ∷ [])
Misses-append b cells a v out ne = All-append (λ c. c.0 ≢ b) cells ((a, v) ∷ []) out (ne, tt)

-- One more cell behind the others.
pub Leads-append :
    (nodes : Nodes) (p q : Pointer) (cells : Cells) (a : ℕ) (v : Penguin)
    → Misses a cells
    → Leads nodes p cells (some a)
    → look nodes a ≡ some (record { penguin = v; next = q })
    → Leads nodes p (cells ++ (a, v) ∷ []) q
Leads-append nodes p q [] a v miss l e = (l, tt, q, e, refl)
Leads-append nodes p q ((b, w) ∷ cells) a v miss l e =
    let (at, out, r, here, rest) = l in
    (
      at,
      Misses-append b cells a v out (λ e. miss.0 (sym e)),
      r,
      here,
      Leads-append nodes r q cells a v miss.1 rest e,
    )

-- Every cell is in a node, so an address that is not in use is no cell's.
pub Leads-Misses :
    (nodes : Nodes) (p q : Pointer) (cells : Cells) (a : ℕ)
    → look nodes a ≡ none
    → Leads nodes p cells q
    → Misses a cells
Leads-Misses nodes p q [] a free l = tt
Leads-Misses nodes p q ((b, v) ∷ cells) a free l =
    let (at, out, r, here, rest) = l in
    (
      (λ (e : b ≡ a). none≢some (sym free ∙ ap (look nodes) (sym e) ∙ here)),
      Leads-Misses nodes r q cells a free rest,
    )
  where
    none≢some : {n : Node} → ◌≢◌ {A = Option Node} none (some n)
    none≢some e = cc

-- `last_penguin` points to the last cell; without cells it may be anything.
abbrev pub IsLast : Pointer → Cells → Type 0
IsLast last [] = Unit
IsLast last (c ∷ []) = last ≡ some c.0
IsLast last (c ∷ d ∷ cells) = IsLast last (d ∷ cells)

pub IsLast-append : (cells : Cells) (a : ℕ) (v : Penguin) → IsLast (some a) (cells ++ (a, v) ∷ [])
IsLast-append [] a v = refl
IsLast-append (c ∷ []) a v = refl
IsLast-append (c ∷ d ∷ cells) a v = IsLast-append (d ∷ cells) a v

-- An address that a longer list misses.
pub Misses-last :
    (a : ℕ) (front : Cells) (b : ℕ) (v : Penguin) → Misses a (front ++ (b, v) ∷ []) → b ≢ a
Misses-last a [] b v m = m.0
Misses-last a (c ∷ front) b v m = Misses-last a front b v m.1

pub Misses-front :
    (a : ℕ) (front : Cells) (b : ℕ) (v : Penguin) → Misses a (front ++ (b, v) ∷ []) → Misses a front
Misses-front a [] b v m = tt
Misses-front a (c ∷ front) b v m = (m.0, Misses-front a front b v m.1)

-- A list that is not empty is split at its last cell.
pub record Split (nodes : Nodes) (p last : Pointer) (cells : Cells) : Type 0 where
  pub front : Cells
  pub address : ℕ
  pub penguin : Penguin
  pub whole : cells ≡ front ++ (address, penguin) ∷ []
  pub is_last : last ≡ some address
  pub misses : Misses address front
  pub leads : Leads nodes p front (some address)
  pub here : look nodes address ≡ some (record { penguin = penguin; next = none })

pub split :
    (nodes : Nodes) (p last : Pointer) (c : ℕ × Penguin) (cells : Cells)
    → Leads nodes p (c ∷ cells) none
    → IsLast last (c ∷ cells)
    → Split nodes p last (c ∷ cells)
split nodes p last (a, v) [] l is =
    let (at, out, r, here, rest) = l in
    record {
      front = [];
      address = a;
      penguin = v;
      whole = refl;
      is_last = is;
      misses = tt;
      leads = at;
      here = subst (λ r. look nodes a ≡ some (record { penguin = v; next = r })) rest here;
    }
split nodes p last (a, v) (d ∷ cells) l is =
    let (at, out, r, here, rest) = l in
    let s = split nodes r last d cells rest is in
    let gone = subst (Misses a) s.whole out in
    record {
      front = (a, v) ∷ s.front;
      address = s.address;
      penguin = s.penguin;
      whole = ap (λ t. (a, v) ∷ t) s.whole;
      is_last = s.is_last;
      misses = ((λ e. Misses-last a s.front s.address s.penguin gone (sym e)), s.misses);
      leads = (at, Misses-front a s.front s.address s.penguin gone, r, here, s.leads);
      here = s.here;
    }

-- The store holds these cells, and no other node is in use.
pub record Holds (st : Store) (cells : Cells) : Type 0 where
  pub leads : Leads st.nodes st.penguins cells none
  pub is_last : IsLast st.last_penguin cells
  pub population : st.population ≡ length cells
  pub only : (a : ℕ) → Misses a cells → look st.nodes a ≡ none
