-- ===== src/Fs2xml/Merge/Laws.antt =====
-- `MergeFile` keeps the inode table a tree, and only ever adds one inode behind the others.
use tcb.Base.{
  ℕ, ◌-◌, ◌<◌, ◌≤◌, ◌≡◌, refl, sym, ap, subst, ◌∙◌, ◌⊎◌, inl, inr, Bool-cases, Option-cases, Option,
  none, some, List, [], ◌∷◌, ◌++◌, arith, length, get_elem?, take, All, All-append, All-get_elem?,
  ok, within, or_fault, >>=-eq-ok, ok-injective, within-eq-ok, ltb→lt, or_fault-eq-ok, drop,
  get_elem?-append_one, take_all, ltb, length-append, get_elem?-lt, ◌==◌,
}
use tcb.Base.Text.{Str, c_string, strncpy, strtol_8}
use tcb.Fs2xml.Inode.{Inode, Table, max_inodes, search_inode}
use tcb.Fs2xml.Inode.Search.{Answers, search_inode_found}
use tcb.Fs2xml.Names.{row_size, split_loop, split_start, split}
use tcb.Fs2xml.PosixHeader
use tcb.Fs2xml.Merge.{
  walk_down, merge_kind, make_inode, read_inode, add_inode, place_inode, merge_file,
}

-- A parent that stands before index `i`; the root does.
abbrev pub IsBefore : ℕ → Option ℕ → Type 0
IsBefore i none = Unit
IsBefore i (some p) = p < i

-- The table is a forest below the root: each parent stands before its children, no two inodes have
-- both name and parent in common, and the table fits its memory.
pub record IsTree (inodes : Table) : Type 0 where
  pub parents : (i : ℕ) (n : Inode) → get_elem? inodes i ≡ some n → IsBefore i n.parentid
  pub names :
      (i j : ℕ) (m n : Inode)
      → get_elem? inodes i ≡ some m
      → get_elem? inodes j ≡ some n
      → Answers m n.name n.parentid
      → i ≡ j
  pub fits : length inodes ≤ max_inodes

pub IsTree-nil : IsTree []
IsTree-nil = record {
  parents = λ i n h. absurd (cc);
  names = λ i j m n h. absurd (cc);
  fits = omega arith;
}

walk_down-IsBefore :
    (inodes : Table) (names : List Str) (p q : Option ℕ)
    → IsBefore (length inodes) p
    → walk_down inodes names p ≡ ok q
    → IsBefore (length inodes) q
unfolding walk_down
walk_down-IsBefore inodes [] p q hp h =
    let same : p ≡ q = ground arith in subst (IsBefore (length inodes)) same hp
walk_down-IsBefore inodes (name ∷ names) p q hp h =
    elim (Option-cases (search_inode inodes name p)) [
      | inl e ↦ absurd (ground arith)
      | inr (i, e) ↦
          let (n, at, _) = (search_inode_found inodes name p).0 i e in
          walk_down-IsBefore inodes names (some i) q (get_elem?-lt inodes i at) (ground arith)
    ]

split_loop_rows :
    (s : Str) (rows : List Str) (row : Str) (out : List Str)
    → All (λ r. length r < row_size) rows
    → split_loop s rows row ≡ ok out
    → All (λ r. length r < row_size) out
unfolding split_loop
split_loop_rows [] rows row out hr h =
    let fits : length row < row_size = ground arith in
    let same : rows ++ row ∷ [] ≡ out = ground arith in
    subst (All (λ r. length r < row_size)) same (All-append _ rows (row ∷ []) hr (fits, tt))
split_loop_rows (c ∷ s) rows row out hr h = elim (Bool-cases (c == b'/')) [
  | inl e ↦
      let fits : length row < row_size = ground arith in
      split_loop_rows s (rows ++ row ∷ []) [] out (All-append _ rows (row ∷ []) hr (fits, tt))
        (ground arith)
  | inr e ↦ split_loop_rows s rows (row ++ c ∷ []) out hr (ground arith)
]

-- What a new inode has, whatever the entry.
pub record IsNew (name : Str) (parent : Option ℕ) (n : Inode) : Type 0 where
  pub named : n.name ≡ take 127 name
  pub below : n.parentid ≡ parent
  pub owner : (n.uid ≡ 0) ⊎ (n.uid ≡ 1000)

make_inode-IsNew :
    (name : Str) (parent : Option ℕ) (kind : ℕ × Option (List ℕ) × Str) (size uid gid mtime : ℕ)
    → IsNew name parent (make_inode name parent kind size uid gid mtime)
unfolding make_inode
make_inode-IsNew name parent kind size uid gid mtime = record {
  named = refl;
  below = refl;
  owner = ground arith;
}

read_inode-IsNew :
    (ph : List ℕ) (name : Str) (parent : Option ℕ) (typeflag : ℕ) (n : Inode)
    → read_inode ph name parent typeflag ≡ ok n
    → IsNew name parent n
unfolding read_inode
read_inode-IsNew ph name parent typeflag n h =
    let (link, _, h1) = >>=-eq-ok (or_fault (strncpy (drop PosixHeader.linkname ph) 100)) _ h in
    let (size, _, h2) = >>=-eq-ok (or_fault (strtol_8 (drop PosixHeader.size ph))) _ h1 in
    let (uid, _, h3) = >>=-eq-ok (or_fault (strtol_8 (drop PosixHeader.uid ph))) _ h2 in
    let (gid, _, h4) = >>=-eq-ok (or_fault (strtol_8 (drop PosixHeader.gid ph))) _ h3 in
    let (mtime, _, h5) = >>=-eq-ok (or_fault (strtol_8 (drop PosixHeader.mtime ph))) _ h4 in
    let (mode, _, h6) = >>=-eq-ok (or_fault (strtol_8 (drop PosixHeader.mode ph))) _ h5 in
    let (kind, _, h7) = >>=-eq-ok (merge_kind ph typeflag mode size link) _ h6 in
    subst (IsNew name parent) (ok-injective h7)
      (make_inode-IsNew name parent kind size uid gid mtime)

add_inode-IsNew :
    (inodes : Table) (ph : List ℕ) (name : Str) (parent : Option ℕ) (typeflag : ℕ) (t : Table)
    → add_inode inodes ph name parent typeflag ≡ ok t
    → (length inodes < max_inodes) × (n : Inode) × (t ≡ inodes ++ n ∷ []) × IsNew name parent n
unfolding add_inode
add_inode-IsNew inodes ph name parent typeflag t h =
    let (_, room, h1) = >>=-eq-ok (within (ltb (length inodes) max_inodes)) _ h in
    let (n, read, h2) = >>=-eq-ok (read_inode ph name parent typeflag) _ h1 in
    (
      ltb→lt _ _ (within-eq-ok _ room),
      n,
      sym (ok-injective h2),
      read_inode-IsNew ph name parent typeflag n read,
    )

-- An inode whose parent is in the table, and whose name is new below it, keeps the tree.
IsTree-append :
    (inodes : Table) (n : Inode)
    → IsTree inodes
    → length inodes < max_inodes
    → IsBefore (length inodes) n.parentid
    → ((j : ℕ) (m : Inode) → get_elem? inodes j ≡ some m → ¬ Answers m n.name n.parentid)
    → IsTree (inodes ++ n ∷ [])
IsTree-append inodes n v room before fresh = record {
  parents = λ i m at. elim (get_elem?-append_one inodes n i at) [
    | inl old ↦ v.parents i m old
    | inr (e, same) ↦ rw e (subst (λ k. IsBefore (length inodes) k.parentid) same before)
  ];
  names = λ i j m k at at' a. elim (get_elem?-append_one inodes n i at) [
    | inl old ↦ elim (get_elem?-append_one inodes n j at') [
      | inl old' ↦ v.names i j m k old old' a
      | inr (e', same') ↦
          absurd (fresh i m old (subst (λ (x : Inode). Answers m x.name x.parentid) (sym same') a))
    ]
    | inr (e, same) ↦ elim (get_elem?-append_one inodes n j at') [
      | inl old' ↦ absurd (
          fresh j k old'
            (subst (λ (x : Inode). Answers k x.name x.parentid) (sym same) (sym a.0, sym a.1)))
      | inr (e', same') ↦ e ∙ sym e'
    ]
  ];
  fits = omega (arith, length-append inodes (n ∷ []));
}

-- What `MergeFile` may do to the table: nothing, or one inode behind the others.
pub data Grows (inodes : Table) (t : Table) : Type 0 where
  same : t ≡ inodes → Grows inodes t
  added : (n : Inode) → t ≡ inodes ++ n ∷ [] → (n.uid ≡ 0) ⊎ (n.uid ≡ 1000) → Grows inodes t

split_rows :
    (name : Str) (n : ℕ) (rows : List Str)
    → split name ≡ ok (n, rows)
    → All (λ r. length r < row_size) rows
unfolding split
split_rows name n rows h =
    let (out, made, h1) = >>=-eq-ok (split_loop (drop (split_start name) name) [] []) _ h in
    let (last, _, h2) = >>=-eq-ok (or_fault (get_elem? name (length name - 1))) _ h1 in
    let e : out ≡ rows = ap (λ (p : ℕ × List Str). p.1) (ok-injective h2) in
    subst (All (λ r. length r < row_size)) e
      (split_loop_rows (drop (split_start name) name) [] [] out tt made)

place :
    (inodes : Table) (ph : List ℕ) (last : Str) (parent : Option ℕ) (typeflag : ℕ) (t : Table)
    → IsTree inodes
    → length last < row_size
    → IsBefore (length inodes) parent
    → place_inode inodes ph last parent typeflag ≡ ok t
    → IsTree t × Grows inodes t
unfolding place_inode
place inodes ph last parent typeflag t v short before h =
    elim (Option-cases (search_inode inodes last parent)) [
      | inr (i, e) ↦ let kept : inodes ≡ t = ground arith in (subst IsTree kept v, same (sym kept))
      | inl e ↦
          let (room, n, shape, new) =
            add_inode-IsNew inodes ph last parent typeflag t (ground arith) in
          let name : n.name ≡ last = new.named ∙ take_all 127 last (omega arith) in
          let fresh = (search_inode_found inodes last parent).1 e in
          (
            subst IsTree (sym shape) (
                IsTree-append inodes n v room (rw new.below before)
                  (λ j m at a. fresh j m at (a.0 ∙ new.below, a.1 ∙ name))),
            added n shape new.owner,
          )
    ]

-- A `MergeFile` that returns keeps the table a tree within its memory, and leaves every inode that
-- was there as it was: it changes nothing, or it adds one inode, owned by 0 or 1000, behind them.
pub merge_file-IsTree :
    (inodes : Table) (ph : List ℕ) (t : Table)
    → IsTree inodes
    → merge_file inodes ph ≡ ok t
    → IsTree t × Grows inodes t
unfolding merge_file
merge_file-IsTree inodes ph t v h =
    let (name, _, h1) = >>=-eq-ok (or_fault (c_string ph)) _ h in
    let (walk, cut, h2) = >>=-eq-ok (split name) _ h1 in
    let (parent, down, h3) = >>=-eq-ok (walk_down inodes (take (walk.0 - 1) walk.1) none) _ h2 in
    let (_, _, h4) = >>=-eq-ok (within (ltb 0 walk.0)) _ h3 in
    let (last, is_last, h5) = >>=-eq-ok (or_fault (get_elem? walk.1 (walk.0 - 1))) _ h4 in
    let (typeflag, _, h6) = >>=-eq-ok (or_fault (get_elem? ph PosixHeader.typeflag)) _ h5 in
    place inodes ph last parent typeflag t v
      (All-get_elem? (λ r. length r < row_size) walk.1 (walk.0 - 1) (split_rows name _ _ cut)
        (or_fault-eq-ok _ is_last))
      (walk_down-IsBefore inodes _ none parent tt down) h6
