-- ===== src/Fs2xml/Inode.antt =====
-- `struct inode`, the table `inodes[0..ninodes)`, and the two searches of it.
pub mod Search
use tcb.Base.{
  ℕ, zero, suc, ◌+◌, ◌==◌, Bool, true, false, ◌&&◌, not, Option, none, some, List, [], ◌∷◌,
  if◌then◌else◌,
}
use tcb.Base.Text.{Str, str_eq}

-- An `int` field is its bit pattern; a `char[128]` field is its string. `parentid` is `none` for the
-- root's -1, and `data` is `none` for a null pointer.
pub record Inode : Type 0 where
  pub name : Str
  pub src : Str
  pub link : Str
  pub mode : ℕ
  pub type : ℕ
  pub size : ℕ
  pub uid : ℕ
  pub gid : ℕ
  pub parentid : Option ℕ
  pub contents : Option (List ℕ)
  pub compressed : Bool
  pub load : Bool
  pub mtime : ℕ

abbrev pub Table : Type 0
Table = List Inode

-- How many inodes `main` allocates.
abbrev pub max_inodes : ℕ
max_inodes = 10000

-- What `memset` leaves in a slot of the table.
abbrev pub blank_inode : Inode
blank_inode = record {
  name = [];
  src = [];
  link = [];
  mode = 0;
  type = 0;
  size = 0;
  uid = 0;
  gid = 0;
  parentid = some 0;
  contents = none;
  compressed = false;
  load = false;
  mtime = 0;
}

-- `a == b` on parent ids.
unfoldable pub same_id : Option ℕ → Option ℕ → Bool
same_id none none = true
same_id none (some j) = false
same_id (some i) none = false
same_id (some i) (some j) = i == j

-- `IsEmpty`: no inode has this parent.
unfoldable pub is_empty : Table → Option ℕ → Bool
unfolding same_id
is_empty [] parent = true
is_empty (n ∷ ns) parent = not (same_id n.parentid parent) && is_empty ns parent

-- The loop of `SearchInode` from index `i` on, over the rest of the table.
unfoldable pub search_from : Table → ℕ → Str → Option ℕ → Option ℕ
unfolding same_id
search_from [] i name parent = none
search_from (n ∷ ns) i name parent =
    let rest = search_from ns (suc i) name parent in
    if not (same_id n.parentid parent)
    then rest
    else if not (str_eq name n.name)
    then rest
    else some i

-- `SearchInode`; `none` is its -1.
unfoldable pub search_inode : Table → Str → Option ℕ → Option ℕ
unfolding search_from
search_inode inodes name parent = search_from inodes 0 name parent
