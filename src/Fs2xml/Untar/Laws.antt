-- ===== src/Fs2xml/Untar/Laws.antt =====
-- `Untar` keeps the table a tree, keeps what was in it, and ends if no entry has a negative size.
use mathlib.Core.List.{append-nil, append_assoc}
use tcb.Base.{
  ℕ, zero, suc, ◌+◌, ◌≡◌, sym, ap, subst, ◌∙◌, inl, inr, true, Bool-cases, List, [], ◌∷◌, ◌++◌,
  arith, drop, ok, if◌then◌else◌, ◌>>=◌, or_fault, >>=-eq-ok, ok-injective, ltb, ◌==◌,
}
use tcb.Base.Text.{codes, has_prefix, strtol_8}
use tcb.Fs2xml.Inode.{Table}
use tcb.Fs2xml.PosixHeader
use tcb.Fs2xml.Merge.{merge_file}
use tcb.Fs2xml.Merge.Laws.{IsTree, Grows, same, added, merge_file-IsTree}
use tcb.Fs2xml.Untar.{next_header, untar_entry, untar_block, untar_loop, untar}

-- Every inode of the first table stands where it stood in the second.
abbrev pub Extends : Table → Table → Type 0
Extends inodes t = (new : Table) × (t ≡ inodes ++ new)

Grows-Extends : {inodes t : Table} → Grows inodes t → Extends inodes t
Grows-Extends {inodes} (same e) = ([], e ∙ sym (append-nil inodes))
Grows-Extends (added n e _) = (n ∷ [], e)

Extends-trans : (a : Table) {b c : Table} → Extends a b → Extends b c → Extends a c
Extends-trans a (x, e) (y, f) = (x ++ y, f ∙ ap (λ t. t ++ y) e ∙ append_assoc a x y)

-- What a round leaves: a tree that extends the old one.
abbrev pub Keeps : Table → Table → Type 0
Keeps inodes t = IsTree t × Extends inodes t

untar_entry-Keeps :
    (buf : List ℕ) (p : ℕ) (inodes : Table) (r : ℕ × Table)
    → IsTree inodes
    → untar_entry buf p inodes ≡ ok r
    → Keeps inodes r.1
unfolding untar_entry
untar_entry-Keeps buf p inodes r v h =
    let ph = drop p buf in
    let (size, _, h1) = >>=-eq-ok (or_fault (strtol_8 (drop PosixHeader.size ph))) _ h in
    let (t, merged, h2) = >>=-eq-ok (merge_file inodes ph) _ h1 in
    let (p', _, h3) =
      >>=-eq-ok (if size == 0 then ok (p + 512) else next_header (p + 512) size) _ h2 in
    let (tree, grows) = merge_file-IsTree inodes ph t v merged in
    let e : t ≡ r.1 = ap (λ (q : ℕ × Table). q.1) (ok-injective h3) in
    subst (Keeps inodes) e (tree, Grows-Extends grows)

untar_block-Keeps :
    (buf : List ℕ) (p : ℕ) (inodes : Table) (r : ℕ × Table)
    → IsTree inodes
    → untar_block buf p inodes ≡ ok r
    → Keeps inodes r.1
unfolding untar_block
untar_block-Keeps buf p inodes r v h =
    let found = has_prefix (drop PosixHeader.magic (drop p buf)) (codes "ustar") in
    let (ustar, _, h1) = >>=-eq-ok (or_fault found) _ h in
    elim (Bool-cases ustar) [
      | inl e ↦ untar_entry-Keeps buf p inodes r v (ground arith)
      | inr e ↦
          let kept : inodes ≡ r.1 = ground arith in
          subst (Keeps inodes) kept (v, ([], sym (append-nil inodes)))
    ]

pub untar_loop_step :
    (fuel : ℕ) (buf : List ℕ) (len p : ℕ) (inodes : Table)
    → ltb p len ≡ true
    → untar_loop (suc fuel) buf len p inodes
      ≡ (untar_block buf p inodes >>= λ r. untar_loop fuel buf len r.0 r.1)
unfolding untar_loop
untar_loop_step fuel buf len p inodes e = rw (e, untar_loop)

untar_loop-Keeps :
    (fuel : ℕ) (buf : List ℕ) (len p : ℕ) (inodes t : Table)
    → IsTree inodes
    → untar_loop fuel buf len p inodes ≡ ok t
    → Keeps inodes t
unfolding untar_loop
untar_loop-Keeps zero buf len p inodes t v h = absurd (cc)
untar_loop-Keeps (suc fuel) buf len p inodes t v h = elim (Bool-cases (ltb p len)) [
  | inr e ↦
      let kept : inodes ≡ t = ground arith in
      subst (Keeps inodes) kept (v, ([], sym (append-nil inodes)))
  | inl e ↦
      let (r, done, h1) =
        >>=-eq-ok (untar_block buf p inodes) _
          (sym (untar_loop_step fuel buf len p inodes e) ∙ h) in
      let (tree, more) = untar_block-Keeps buf p inodes r v done in
      let (tree', more') = untar_loop-Keeps fuel buf len r.0 r.1 t tree h1 in
      (tree', Extends-trans inodes more more')
]

-- An `Untar` that returns keeps the table a tree within its memory, and every inode that was in it
-- where it was.
pub untar-Keeps :
    (fuel : ℕ) (buf : List ℕ) (len : ℕ) (inodes t : Table)
    → IsTree inodes
    → untar fuel buf len inodes ≡ ok t
    → IsTree t × Extends inodes t
unfolding untar
untar-Keeps fuel buf len inodes t v h = untar_loop-Keeps fuel buf len 0 inodes t v h
