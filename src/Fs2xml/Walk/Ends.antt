-- ===== src/Fs2xml/Walk/Ends.antt =====
-- `WalkXML` and `WalkJSON` reach the end of every table that is a tree.
use tcb.Base.{
  ℕ, zero, suc, ◌+◌, ◌-◌, ◌≤◌, ◌≡◌, refl, subst, Bool, true, false, inl, inr, Bool-cases, Option,
  none, some, [], ◌∷◌, ◌++◌, arith, length, get_elem?, Res, ok, exit, fault, running, ◌>>=◌,
  if◌then◌else◌, get_elem?-lt,
}
use tcb.Base.Text.{Str}
use tcb.Fs2xml.Inode.{Inode, Table, same_id}
use tcb.Fs2xml.Inode.Search.{same_id_iff}
use tcb.Fs2xml.Merge.{s_ifdir, s_ifreg, s_iflnk, is_kind}
use tcb.Fs2xml.Merge.Laws.{IsTree, IsBefore}
use tcb.Fs2xml.Walk.{
  xml_inode, xml_loop, json_inode, json_loop, count_children, walk_xml, walk_json,
}

abbrev pub Returns {ℓ} : {A : Type ℓ} → Res A → Type ℓ
Returns {A} m = (a : A) × (m ≡ ok a)

-- A value, or `exit`: neither an access out of range, nor no end.
abbrev pub Stops {ℓ} : {A : Type ℓ} → Res A → Type 0
Stops (ok a) = Unit
Stops (exit s) = Unit
Stops fault = ⊥
Stops running = ⊥

>>=-Returns {ℓ} :
    {A B : Type ℓ} (m : Res A) (f : A → Res B)
    → Returns m
    → ((a : A) → Returns (f a))
    → Returns (m >>= f)
>>=-Returns m f (a, e) hf = rw e (hf a)

if-Returns {ℓ} :
    {A : Type ℓ} (b : Bool) {x y : Res A} → Returns x → Returns y → Returns (if b then x else y)
if-Returns true hx hy = hx
if-Returns false hx hy = hy

-- The children of a parent in the rest of a table from index `i` on.
abbrev Children : (Option ℕ → Type 0) → Table → ℕ → Option ℕ → Type 0
Children P ns i parent =
    (j : ℕ) (n : Inode) → get_elem? ns j ≡ some n → n.parentid ≡ parent → P (some (i + j))

Children-tail :
    (P : Option ℕ → Type 0) (n : Inode) (ns : Table) (i : ℕ) (parent : Option ℕ)
    → Children P (n ∷ ns) i parent
    → Children P ns (suc i) parent
Children-tail P n ns i parent h j m at below =
    let e : i + suc j ≡ suc i + j = omega arith in subst (λ k. P (some k)) e (h (suc j) m at below)

Children-head :
    (P : Option ℕ → Type 0) (n : Inode) (ns : Table) (i : ℕ) (parent : Option ℕ)
    → Children P (n ∷ ns) i parent
    → n.parentid ≡ parent
    → P (some i)
Children-head P n ns i parent h below =
    let e : i + 0 ≡ i = omega arith in subst (λ k. P (some k)) e (h 0 n refl below)

module _ (walk : Option ℕ → ℕ → Res Str) (inodes : Table) where
  abbrev XmlAt : Option ℕ → Type 0
  XmlAt id = (sub : ℕ) → Returns (walk id sub)

  abbrev JsonAt : Option ℕ → Type 0
  JsonAt id = (sub : ℕ) → Stops (walk id sub)

  xml_inode-Returns :
      (i : ℕ) (n : Inode) (sub : ℕ) → XmlAt (some i) → Returns (xml_inode walk inodes i n sub)
  unfolding xml_inode
  xml_inode-Returns i n sub h =
      if-Returns (is_kind s_ifdir n.mode)
        (>>=-Returns (walk (some i) (sub + 1)) _ (h (sub + 1)) (λ _. (_, refl)))
        (if-Returns (is_kind s_ifreg n.mode) (_, refl)
          (if-Returns (is_kind s_iflnk n.mode) (_, refl) (_, refl)))

  xml_loop-Returns :
      (ns : Table) (i : ℕ) (parent : Option ℕ) (sub : ℕ)
      → Children XmlAt ns i parent
      → Returns (xml_loop walk inodes ns i parent sub)
  unfolding xml_loop
  xml_loop-Returns [] i parent sub h = ([], refl)
  xml_loop-Returns (n ∷ ns) i parent sub h =
      >>=-Returns (if same_id n.parentid parent then xml_inode walk inodes i n sub else ok []) _
        (elim (Bool-cases (same_id n.parentid parent)) [
          | inl e ↦ rw e (
              xml_inode-Returns i n sub
                (Children-head XmlAt n ns i parent h ((same_id_iff _ _).0 e)))
          | inr e ↦ rw e ([], refl)
        ])
        λ here.
          >>=-Returns (xml_loop walk inodes ns (suc i) parent sub) _
            (xml_loop-Returns ns (suc i) parent sub (Children-tail XmlAt n ns i parent h))
            λ rest. (here ++ rest, refl)

  json_inode-Stops :
      (i : ℕ) (n : Inode) (sub : ℕ) → JsonAt (some i) → Stops (json_inode walk inodes i n sub)
  unfolding json_inode
  json_inode-Stops i n sub h = ground (arith, h (sub + 1))

  json_loop-Stops :
      (ns : Table) (i left : ℕ) (parent : Option ℕ) (sub : ℕ)
      → Children JsonAt ns i parent
      → Stops (json_loop walk inodes ns i left parent sub)
  unfolding json_loop
  json_loop-Stops [] i left parent sub h = tt
  json_loop-Stops (n ∷ ns) i left parent sub h =
      let rest = Children-tail JsonAt n ns i parent h in
      elim (Bool-cases (same_id n.parentid parent)) [
        | inl e ↦ ground (
          arith,
          json_inode-Stops i n sub (Children-head JsonAt n ns i parent h ((same_id_iff _ _).0 e)),
          json_loop-Stops ns (suc i) (left - 1) parent sub rest,
        )
        | inr e ↦ ground (arith, json_loop-Stops ns (suc i) left parent sub rest)
      ]

-- Where the children of a parent start at the earliest.
rank : Option ℕ → ℕ
rank none = 0
rank (some p) = suc p

rank-le : (i : ℕ) (p : Option ℕ) → IsBefore i p → rank p ≤ i
unfolding rank
rank-le i none h = omega arith
rank-le i (some p) h = h

children_rank :
    (inodes : Table) (parent : Option ℕ) (j : ℕ) (n : Inode)
    → IsTree inodes
    → get_elem? inodes j ≡ some n
    → n.parentid ≡ parent
    → rank parent ≤ j
children_rank inodes parent j n v at below =
    subst (λ p. rank p ≤ j) below (rank-le j n.parentid (v.parents j n at))

walk_xml-Returns_from :
    (fuel : ℕ) (inodes : Table) (parent : Option ℕ) (sub : ℕ)
    → IsTree inodes
    → length inodes ≤ rank parent + fuel
    → Returns (walk_xml (suc fuel) inodes parent sub)
unfolding walk_xml rank
walk_xml-Returns_from zero inodes parent sub v h =
    xml_loop-Returns (walk_xml 0 inodes) inodes inodes 0 parent sub (λ j n at below.
      absurd (omega (arith, children_rank inodes parent j n v at below, get_elem?-lt inodes j at)))
walk_xml-Returns_from (suc fuel) inodes parent sub v h =
    xml_loop-Returns (walk_xml (suc fuel) inodes) inodes inodes 0 parent sub (λ j n at below sub'.
      walk_xml-Returns_from fuel inodes (some (0 + j)) sub' v
        (omega (arith, children_rank inodes parent j n v at below)))

walk_json-Stops_from :
    (fuel : ℕ) (inodes : Table) (parent : Option ℕ) (sub : ℕ)
    → IsTree inodes
    → length inodes ≤ rank parent + fuel
    → Stops (walk_json (suc fuel) inodes parent sub)
unfolding walk_json rank
walk_json-Stops_from zero inodes parent sub v h =
    json_loop-Stops (walk_json 0 inodes) inodes inodes 0 (count_children inodes parent) parent sub
      (λ j n at below.
        absurd
          (omega (arith, children_rank inodes parent j n v at below, get_elem?-lt inodes j at)))
walk_json-Stops_from (suc fuel) inodes parent sub v h =
    json_loop-Stops (walk_json (suc fuel) inodes) inodes inodes 0 (count_children inodes parent)
      parent sub
      (λ j n at below sub'.
        walk_json-Stops_from fuel inodes (some (0 + j)) sub' v
          (omega (arith, children_rank inodes parent j n v at below)))

-- On a table that is a tree, `WalkXML` from the root returns a text, and `WalkJSON` from the root
-- returns one or exits, both without going deeper than the table has inodes, and one.
pub walk-Ends :
    (inodes : Table) (sub : ℕ)
    → IsTree inodes
    → Returns (walk_xml (suc (length inodes)) inodes none sub)
      × Stops (walk_json (suc (length inodes)) inodes none sub)
unfolding rank
walk-Ends inodes sub v = (
  walk_xml-Returns_from (length inodes) inodes none sub v (omega arith),
  walk_json-Stops_from (length inodes) inodes none sub v (omega arith),
)
