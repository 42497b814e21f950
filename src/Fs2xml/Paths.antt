-- ===== src/Fs2xml/Paths.antt =====
-- `GetFullPath` and `GetFullPathNotHidden`: the path of an inode, from the names of its ancestors.
pub mod Laws
use tcb.Base.{
  ℕ, zero, suc, ◌+◌, Bool, true, false, Option, none, some, List, [], ◌∷◌, ◌++◌, ltb, ◌==◌,
  if◌then◌else◌, length, get_elem?, Res, ok, running, ◌>>=◌, ◌>>◌, within, or_fault,
}
use tcb.Base.Text.{Str}
use tcb.Fs2xml.Inode.{Inode, Table}

-- `static char path[1024]`, and `temp` of the same size: a longer `sprintf` overruns it.
abbrev pub path_size : ℕ
path_size = 1024

-- The loop of `GetFullPath`, which goes up to the root (-1).
unfoldable pub full_path_loop : ℕ → Table → Option ℕ → Str → Res Str
full_path_loop zero inodes id path = running
full_path_loop (suc fuel) inodes none path = ok path
full_path_loop (suc fuel) inodes (some i) path = do
  n ← or_fault (get_elem? inodes i)
  within (ltb (suc (length n.name + length path)) path_size)
  full_path_loop fuel inodes n.parentid (b'/' ∷ n.name ++ path)

-- `GetFullPath`
unfoldable pub get_full_path : ℕ → Table → Str → Option ℕ → Res Str
unfolding full_path_loop
get_full_path fuel inodes root id = do
  path ← full_path_loop fuel inodes id []
  within (ltb (length root + length path) path_size)
  ok (root ++ path)

-- The name that an inode goes by on disk, and whether that differs: `.x`, `_x` and `__x` lose their
-- signs.
unfoldable pub shown_name : Str → Str × Bool
shown_name [] = ([], false)
shown_name (c ∷ []) =
    if c == b'.' then ([], true) else if c == b'_' then ([], true) else (c ∷ [], false)
shown_name (c ∷ d ∷ s) =
    if c == b'.'
    then (d ∷ s, true)
    else if c == b'_'
    then (if d == b'_' then (s, true) else (d ∷ s, true))
    else (c ∷ d ∷ s, false)

-- The loop of `GetFullPathNotHidden`; `hidden` is only ever set.
unfoldable pub not_hidden_loop : ℕ → Table → Option ℕ → Str → Bool → Res (Str × Bool)
unfolding shown_name
not_hidden_loop zero inodes id path hidden = running
not_hidden_loop (suc fuel) inodes none path hidden = ok (path, hidden)
not_hidden_loop (suc fuel) inodes (some i) path hidden = do
  n ← or_fault (get_elem? inodes i)
  let shown = shown_name n.name
  within (ltb (suc (length shown.0 + length path)) path_size)
  not_hidden_loop fuel inodes n.parentid (b'/' ∷ shown.0 ++ path) (if shown.1 then true else hidden)

-- `GetFullPathNotHidden`
unfoldable pub get_full_path_not_hidden : ℕ → Table → Str → Option ℕ → Bool → Res (Str × Bool)
unfolding not_hidden_loop
get_full_path_not_hidden fuel inodes root id hidden = do
  r ← not_hidden_loop fuel inodes id [] hidden
  within (ltb (length root + length r.0) path_size)
  ok (root ++ r.0, r.1)
