-- ===== src/Fs2xml/Main/Laws.antt =====
-- A run of fs2xml that gets to its end.
use tcb.Base.{
  ℕ, suc, ◌+◌, ◌/◌, ◌≡◌, subst, Bool, Option, List, [], ◌∷◌, length, ok, >>=-eq-ok, ok-injective,
}
use tcb.Base.Text.{Str, codes}
use tcb.Fs2xml.Inode.{Table}
use tcb.Fs2xml.Merge.Laws.{IsTree, IsTree-nil}
use tcb.Fs2xml.Untar.{untar}
use tcb.Fs2xml.Untar.Laws.{untar-Keeps}
use tcb.Fs2xml.Walk.{create_xml, create_json}
use tcb.Fs2xml.Disk.{create_filesystem}
use tcb.Fs2xml.Disk.Shape.{create_filesystem-SameShape, SameShape-IsTree}
use tcb.Fs2xml.Main.{Output, count_files, decompress, merge_archives, open_output, main}

module _ (bz2 : Str → List ℕ → Option (List ℕ × ℕ)) where
  merge_archives-IsTree :
      (names : List Str) (buf : List ℕ) (inodes t : Table)
      → IsTree inodes
      → merge_archives bz2 names buf inodes ≡ ok t
      → IsTree t
  unfolding merge_archives
  merge_archives-IsTree [] buf inodes t v h = subst IsTree (ok-injective h) v
  merge_archives-IsTree (name ∷ names) buf inodes t v h =
      let (r, _, h1) = >>=-eq-ok (decompress bz2 name buf) _ h in
      let (inodes', done, h2) = >>=-eq-ok (untar (suc (r.1 / 512 + 1)) r.0 r.1 inodes) _ h1 in
      merge_archives-IsTree names r.0 inodes' t
        (untar-Keeps (suc (r.1 / 512 + 1)) r.0 r.1 inodes inodes' v done).0 h2

-- Whatever the archives hold, a run of `main` that gets to its end has a table that is a tree, and
-- has written fs.xml and fs.json from that table.
pub main-IsTree :
    (bz2 : Str → List ℕ → Option (List ℕ × ℕ)) (can_create : Str → Bool) (args : List Str)
    (buf : List ℕ) (out : Output)
    → main bz2 can_create args buf ≡ ok out
    → IsTree out.disk.inodes
      × (create_xml (suc (length out.disk.inodes)) out.disk.inodes ≡ ok out.xml)
      × (create_json (suc (length out.disk.inodes)) out.disk.inodes ≡ ok out.json)
unfolding main
main-IsTree bz2 can_create [] buf out h = absurd (cc)
main-IsTree bz2 can_create (name ∷ names) buf out h =
    let (t, merged, h1) = >>=-eq-ok (merge_archives bz2 (name ∷ names) buf []) _ h in
    let (files, _, h2) = >>=-eq-ok (count_files t 0 0) _ h1 in
    let (d, walked, h3) = >>=-eq-ok (create_filesystem can_create (suc (length t)) t) _ h2 in
    let (_, _, h4) = >>=-eq-ok (open_output can_create (codes "fs.xml")) _ h3 in
    let (xml, is_xml, h5) = >>=-eq-ok (create_xml (suc (length d.inodes)) d.inodes) _ h4 in
    let (_, _, h6) = >>=-eq-ok (open_output can_create (codes "fs.json")) _ h5 in
    let (json, is_json, h7) = >>=-eq-ok (create_json (suc (length d.inodes)) d.inodes) _ h6 in
    let tree : IsTree d.inodes =
      SameShape-IsTree t d.inodes
        (create_filesystem-SameShape can_create (suc (length t)) t d walked)
        (merge_archives-IsTree bz2 (name ∷ names) buf [] t IsTree-nil merged) in
    subst
      (λ (o : Output).
        IsTree o.disk.inodes
        × (create_xml (suc (length o.disk.inodes)) o.disk.inodes ≡ ok o.xml)
        × (create_json (suc (length o.disk.inodes)) o.disk.inodes ≡ ok o.json))
      (ok-injective h7) (tree, is_xml, is_json)
