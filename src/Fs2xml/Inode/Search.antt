-- ===== src/Fs2xml/Inode/Search.antt =====
-- What `SearchInode` and `IsEmpty` find.
use tcb.Base.{
  ℕ, zero, suc, ◌+◌, ◌≡◌, refl, ◌≢◌, sym, ◌↔◌, true, Bool-cases, inl, inr, Option, none, some, [],
  ◌∷◌, arith, get_elem?,
}
use tcb.Base.Text.{Str, str_eq, str_eq_iff}
use tcb.Fs2xml.Inode.{Inode, Table, same_id, is_empty, search_from, search_inode}

pub same_id_iff : (a b : Option ℕ) → (same_id a b ≡ true) ↔ (a ≡ b)
unfolding same_id
same_id_iff none none = (λ _. refl, λ _. refl)
same_id_iff none (some j) = ground arith
same_id_iff (some i) none = ground arith
same_id_iff (some i) (some j) = ground arith

-- An inode that answers to a name below a parent.
abbrev pub Answers : Inode → Str → Option ℕ → Type 0
Answers n name parent = (n.parentid ≡ parent) × (n.name ≡ name)

search_from_found :
    (ns : Table) (i : ℕ) (name : Str) (parent : Option ℕ) (k : ℕ)
    → search_from ns i name parent ≡ some k
    → (j : ℕ) × (n : Inode) × (k ≡ i + j) × (get_elem? ns j ≡ some n) × Answers n name parent
unfolding search_from
search_from_found [] i name parent k h = absurd (cc)
search_from_found (n ∷ ns) i name parent k h = elim (Bool-cases (same_id n.parentid parent)) [
  | inl p ↦ elim (Bool-cases (str_eq name n.name)) [
    | inl q ↦ (
      0,
      n,
      ground arith,
      refl,
      ((same_id_iff n.parentid parent).0 p, sym ((str_eq_iff name n.name).0 q)),
    )
    | inr q ↦
        let (j, m, e, at, answers) = search_from_found ns (suc i) name parent k (ground arith) in
        (suc j, m, omega arith, at, answers)
  ]
  | inr p ↦
      let (j, m, e, at, answers) = search_from_found ns (suc i) name parent k (ground arith) in
      (suc j, m, omega arith, at, answers)
]

search_from-none :
    (ns : Table) (i : ℕ) (name : Str) (parent : Option ℕ) (j : ℕ) {n : Inode}
    → search_from ns i name parent ≡ none
    → get_elem? ns j ≡ some n
    → ¬ Answers n name parent
unfolding search_from
search_from-none [] i name parent j h at a = absurd (cc)
search_from-none (m ∷ ns) i name parent zero {n} h at a =
    ground (arith, same_id_iff m.parentid parent, str_eq_iff name m.name)
search_from-none (m ∷ ns) i name parent (suc j) h at a =
    search_from-none ns (suc i) name parent j (ground arith) at a

-- `SearchInode` finds an index exactly of an inode that has the name and the parent: what it returns
-- is one, and when it returns -1 the table holds none.
pub search_inode_found :
    (inodes : Table) (name : Str) (parent : Option ℕ)
    → ((k : ℕ)
        → search_inode inodes name parent ≡ some k
        → (n : Inode) × (get_elem? inodes k ≡ some n) × Answers n name parent)
      × (search_inode inodes name parent ≡ none
          → (j : ℕ) (n : Inode) → get_elem? inodes j ≡ some n
          → ¬ Answers n name parent)
unfolding search_inode
search_inode_found inodes name parent = (
  λ k h.
      let (j, n, e, at, a) = search_from_found inodes 0 name parent k h in
      let same : j ≡ k = omega arith in (n, rw same at at, a),
  λ h j n. search_from-none inodes 0 name parent j h,
)

is_empty_sound :
    (inodes : Table) (parent : Option ℕ) (j : ℕ) (n : Inode)
    → is_empty inodes parent ≡ true
    → get_elem? inodes j ≡ some n
    → n.parentid ≢ parent
unfolding is_empty
is_empty_sound [] parent j n h at = absurd (cc)
is_empty_sound (m ∷ ns) parent zero n h at = ground (arith, same_id_iff m.parentid parent)
is_empty_sound (m ∷ ns) parent (suc j) n h at = is_empty_sound ns parent j n (ground arith) at

is_empty_complete :
    (inodes : Table) (parent : Option ℕ)
    → ((j : ℕ) (n : Inode) → get_elem? inodes j ≡ some n → n.parentid ≢ parent)
    → is_empty inodes parent ≡ true
unfolding is_empty
is_empty_complete [] parent h = refl
is_empty_complete (m ∷ ns) parent h = ground (
  arith,
  same_id_iff m.parentid parent,
  h 0 m refl,
  is_empty_complete ns parent (λ j n at. h (suc j) n at),
)

-- `IsEmpty` says 1 exactly when no inode of the table has the parent.
pub is_empty_iff :
    (inodes : Table) (parent : Option ℕ)
    → (is_empty inodes parent ≡ true)
      ↔ ((j : ℕ) (n : Inode) → get_elem? inodes j ≡ some n → n.parentid ≢ parent)
is_empty_iff inodes parent =
    (λ h j n. is_empty_sound inodes parent j n h, is_empty_complete inodes parent)
