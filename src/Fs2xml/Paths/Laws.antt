-- ===== src/Fs2xml/Paths/Laws.antt =====
-- `GetFullPath` ends on every table that is a tree, and gives the names of the ancestors.
use mathlib.Core.List.{append-nil, append_assoc}
use tcb.Base.{
  ℕ, zero, suc, ◌+◌, ◌<◌, ◌≤◌, ◌≡◌, refl, sym, ap, ◌∙◌, Option, none, some, List, [], ◌∷◌, ◌++◌,
  arith, length, get_elem?, ok, length-append, get_elem?-eq-get_or, get_or,
}
use tcb.Base.Text.{Str}
use tcb.Fs2xml.Inode.{Inode, Table, blank_inode}
use tcb.Fs2xml.Merge.Laws.{IsTree, IsBefore}
use tcb.Fs2xml.Paths.{path_size, full_path_loop, get_full_path}

-- The names from below the root down to an inode.
pub data Lineage (inodes : Table) : Option ℕ → List Str → Type 0 where
  root : Lineage inodes none []
  below :
      {i : ℕ} {n : Inode} {names : List Str}
      → get_elem? inodes i ≡ some n
      → Lineage inodes n.parentid names
      → Lineage inodes (some i) (names ++ n.name ∷ [])

-- Every name behind a `/`.
abbrev pub slashed : List Str → Str
slashed [] = []
slashed (s ∷ ss) = (b'/' ∷ s) ++ slashed ss

slashed-append : (ss ts : List Str) → slashed (ss ++ ts) ≡ slashed ss ++ slashed ts
slashed-append [] ts = refl
slashed-append (s ∷ ss) ts =
    rw (slashed-append ss ts) (ap (λ t. b'/' ∷ t) (sym (append_assoc s (slashed ss) (slashed ts))))

slashed-last :
    (ss : List Str) (s path : Str)
    → slashed (ss ++ s ∷ []) ++ path ≡ slashed ss ++ (b'/' ∷ s ++ path)
slashed-last ss s path =
    rw (slashed-append ss (s ∷ []), append-nil) (append_assoc (slashed ss) (b'/' ∷ s) path)

IsBefore-le : (i k : ℕ) (p : Option ℕ) → i ≤ k → IsBefore i p → IsBefore k p
IsBefore-le i k none h b = tt
IsBefore-le i k (some p) h b = omega arith

full_path_loop_step :
    (inodes : Table) (fuel i : ℕ) (n : Inode) (path : Str)
    → get_elem? inodes i ≡ some n
    → suc (length n.name + length path) < path_size
    → full_path_loop (suc fuel) inodes (some i) path
      ≡ full_path_loop fuel inodes n.parentid (b'/' ∷ n.name ++ path)
unfolding full_path_loop
full_path_loop_step inodes fuel i n path at room = rw at (ground arith)

-- With more rounds than the index of the inode the loop reaches the root, if the path fits.
full_path_loop_lem :
    (inodes : Table)
    → IsTree inodes
    → (fuel : ℕ) (id : Option ℕ) (path : Str) → IsBefore fuel id
    → IsBefore (length inodes) id
    → (names : List Str) × Lineage inodes id names
      × (length (slashed names) + length path < path_size
          → full_path_loop (suc fuel) inodes id path ≡ ok (slashed names ++ path))
full_path_loop_lem inodes v fuel none path hf hi = ([], root, λ _. unfold full_path_loop in refl)
full_path_loop_lem inodes v zero (some i) path hf hi = absurd (omega arith)
full_path_loop_lem inodes v (suc fuel) (some i) path hf hi =
    let n = get_or inodes i blank_inode in
    let at : get_elem? inodes i ≡ some n = get_elem?-eq-get_or inodes i blank_inode hi in
    let before = v.parents i n at in
    let (names, line, ends) =
      full_path_loop_lem inodes v fuel n.parentid (b'/' ∷ n.name ++ path)
        (IsBefore-le i fuel n.parentid (omega arith) before)
        (IsBefore-le i (length inodes) n.parentid (omega arith) before) in
    let size : length (slashed (names ++ n.name ∷ [])) + length path
        ≡ length (slashed names) + suc (length n.name + length path) =
      sym (length-append (slashed (names ++ n.name ∷ [])) path)
      ∙ ap length (slashed-last names n.name path)
      ∙ length-append (slashed names) (b'/' ∷ n.name ++ path)
      ∙ ap (λ k. length (slashed names) + suc k) (length-append n.name path) in
    (
      names ++ n.name ∷ [],
      below at line,
      λ room.
          full_path_loop_step inodes (suc fuel) i n path at (omega arith)
          ∙ ends (omega (arith, length-append n.name path))
          ∙ ap ok (sym (slashed-last names n.name path)),
    )

-- On a table that is a tree, `GetFullPath` of an inode ends in as many rounds as the table has
-- inodes, and one: it gives the root and then the names of the ancestors and of the inode, each
-- behind a `/`, provided that this fits the path buffer.
pub get_full_path_lem :
    (inodes : Table) (root_dir : Str) (i : ℕ)
    → IsTree inodes
    → i < length inodes
    → (names : List Str) × Lineage inodes (some i) names
      × (length root_dir + length (slashed names) < path_size
          → get_full_path (suc (length inodes)) inodes root_dir (some i)
            ≡ ok (root_dir ++ slashed names))
unfolding get_full_path
get_full_path_lem inodes root_dir i v h =
    let (names, line, ends) = full_path_loop_lem inodes v (length inodes) (some i) [] h h in
    (names, line, λ room. rw (ends (omega arith), append-nil) (ground arith))
