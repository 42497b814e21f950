-- ===== src/Fs2xml/Merge/Ending.antt =====
-- `MergeFile` ends: its loops go over the rows of `walk`.
use tcb.Base.{
  ℕ, ◌-◌, Option-cases, inl, inr, Option, none, some, List, [], ◌∷◌, ◌++◌, arith, length, get_elem?,
  drop, take, within, or_fault, Ends, >>=-Ends, within-Ends, or_fault-Ends, ok-Ends, ltb, ◌&&◌,
}
use tcb.Base.Text.{Str, c_string, strncpy, strtol_8}
use tcb.Fs2xml.Inode.{Table, search_inode}
use tcb.Fs2xml.Names.{walk_rows, row_size, split_loop, split_start, split}
use tcb.Fs2xml.PosixHeader
use tcb.Fs2xml.Merge.{
  walk_down, copy_contents, merge_kind, read_inode, add_inode, place_inode, merge_file,
}

split_loop-Ends : (s : Str) (rows : List Str) (row : Str) → Ends (split_loop s rows row)
unfolding split_loop
split_loop-Ends [] rows row =
    >>=-Ends (within (ltb (length rows) walk_rows && ltb (length row) row_size)) _ (within-Ends _)
      (λ _ _. ok-Ends _)
split_loop-Ends (c ∷ s) rows row =
    >>=-Ends (within (ltb (length rows) walk_rows && ltb (length row) row_size)) _ (within-Ends _)
      λ _ _.
        ground
          (arith, split_loop-Ends s (rows ++ row ∷ []) [], split_loop-Ends s rows (row ++ c ∷ []))

split-Ends : (name : Str) → Ends (split name)
unfolding split
split-Ends name =
    >>=-Ends (split_loop (drop (split_start name) name) [] []) _
      (split_loop-Ends (drop (split_start name) name) [] [])
      λ rows _.
        >>=-Ends (or_fault (get_elem? name (length name - 1))) _ (or_fault-Ends _)
          (λ _ _. ok-Ends _)

walk_down-Ends :
    (inodes : Table) (names : List Str) (p : Option ℕ) → Ends (walk_down inodes names p)
unfolding walk_down
walk_down-Ends inodes [] p = ok-Ends p
walk_down-Ends inodes (name ∷ names) p = elim (Option-cases (search_inode inodes name p)) [
  | inl e ↦ ground arith
  | inr (i, e) ↦ ground (arith, walk_down-Ends inodes names (some i))
]

copy_contents-Ends : (ph : List ℕ) (size : ℕ) → Ends (copy_contents ph size)
unfolding copy_contents
copy_contents-Ends ph size = ground arith

merge_kind-Ends :
    (ph : List ℕ) (typeflag mode size : ℕ) (link : Str)
    → Ends (merge_kind ph typeflag mode size link)
unfolding merge_kind
merge_kind-Ends ph typeflag mode size link = ground (arith, copy_contents-Ends ph size)

read_inode-Ends :
    (ph : List ℕ) (name : Str) (parent : Option ℕ) (typeflag : ℕ)
    → Ends (read_inode ph name parent typeflag)
unfolding read_inode
read_inode-Ends ph name parent typeflag =
    >>=-Ends (or_fault (strncpy (drop PosixHeader.linkname ph) 100)) _ (or_fault-Ends _) λ link _.
      >>=-Ends (or_fault (strtol_8 (drop PosixHeader.size ph))) _ (or_fault-Ends _) λ size _.
        >>=-Ends (or_fault (strtol_8 (drop PosixHeader.uid ph))) _ (or_fault-Ends _) λ _ _.
          >>=-Ends (or_fault (strtol_8 (drop PosixHeader.gid ph))) _ (or_fault-Ends _) λ _ _.
            >>=-Ends (or_fault (strtol_8 (drop PosixHeader.mtime ph))) _ (or_fault-Ends _) λ _ _.
              >>=-Ends (or_fault (strtol_8 (drop PosixHeader.mode ph))) _ (or_fault-Ends _)
                λ mode _.
                  >>=-Ends (merge_kind ph typeflag mode size link) _
                    (merge_kind-Ends ph typeflag mode size link) (λ _ _. ok-Ends _)

place_inode-Ends :
    (inodes : Table) (ph : List ℕ) (last : Str) (parent : Option ℕ) (typeflag : ℕ)
    → Ends (place_inode inodes ph last parent typeflag)
unfolding place_inode add_inode
place_inode-Ends inodes ph last parent typeflag =
    elim (Option-cases (search_inode inodes last parent)) [
      | inr (i, e) ↦ ground arith
      | inl e ↦ ground (arith, read_inode-Ends ph last parent typeflag)
    ]

pub merge_file-Ends : (inodes : Table) (ph : List ℕ) → Ends (merge_file inodes ph)
unfolding merge_file
merge_file-Ends inodes ph = >>=-Ends (or_fault (c_string ph)) _ (or_fault-Ends _) λ name _.
    >>=-Ends (split name) _ (split-Ends name) λ walk _.
      >>=-Ends (walk_down inodes (take (walk.0 - 1) walk.1) none) _ (walk_down-Ends inodes _ none)
        λ parent _. >>=-Ends (within (ltb 0 walk.0)) _ (within-Ends _) λ _ _.
          >>=-Ends (or_fault (get_elem? walk.1 (walk.0 - 1))) _ (or_fault-Ends _) λ last _.
            >>=-Ends (or_fault (get_elem? ph PosixHeader.typeflag)) _ (or_fault-Ends _)
              λ typeflag _. place_inode-Ends inodes ph last parent typeflag
