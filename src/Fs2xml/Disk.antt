-- ===== src/Fs2xml/Disk.antt =====
-- `WalkDir` and `CreateFilesystem`: the directory tree on disk, and the fields of the inodes that
-- are settled there.
pub mod Shape
use tcb.Base.{
  ℕ, zero, suc, ◌+◌, ◌-◌, Bool, true, false, Option, none, some, List, [], ◌∷◌, ◌++◌, ltb, ◌==◌,
  if◌then◌else◌, length, get_elem?, set, drop, take, Res, ok, exit, running, ◌>>=◌, ◌>>◌, within,
  or_fault,
}
use tcb.Base.Text.{Str, codes}
use tcb.Fs2xml.Inode.{Inode, Table, same_id}
use tcb.Fs2xml.Names.{row_size, should_be_loaded, should_be_compressed}
use tcb.Fs2xml.Paths.{path_size, get_full_path_not_hidden}
use tcb.Fs2xml.Merge.{s_ifdir, s_ifreg, is_kind}

-- What the program does to the disk, oldest first.
pub data Action : Type 0 where
  mkdir : Str → Action
  write : Str → List ℕ → Action
  bzip2 : Str → Action

pub record Disk : Type 0 where
  pub inodes : Table
  pub actions : List Action

-- `GetFullPathNotHidden("fs", id, &hidden)` with `hidden` 0 before; a table that is a tree has no
-- longer chain of parents than inodes.
unfoldable pub disk_path : Table → Option ℕ → Res (Str × Bool)
disk_path inodes id = get_full_path_not_hidden (suc (length inodes)) inodes (codes "fs") id false

-- The bytes that `fwrite` takes of the inode.
unfoldable pub file_bytes : Inode → Res (List ℕ)
file_bytes n = if n.size == 0 then ok [] else do
  bytes ← or_fault n.contents
  within (ltb n.size (suc (length bytes)))
  ok (take n.size bytes)

-- `strcpy(inodes[i].src, &path[3])`, for a file whose path hides a name.
unfoldable pub set_src : Inode → Str × Bool → Res Inode
set_src n path = elim path.1 [
  | false ↦ ok n
  | true ↦ do within (ltb (length (drop 3 path.0)) row_size); ok (record n { src = drop 3 path.0 })
]

-- `char command[1024]` takes the path between `bzip2 -f "` and `"\n`.
abbrev pub command_size : ℕ
command_size = 1024

-- What `WalkDir` does with the regular file at index `i`, whose inode is `n`.
unfoldable pub walk_file : (Str → Bool) → ℕ → Inode → Disk → Res Disk
unfolding disk_path set_src file_bytes
walk_file can_create i n d = do
  path ← disk_path d.inodes (some i)
  n1 ← set_src n path
  bytes ← if can_create path.0 then file_bytes n1 else exit 1
  squeeze ← should_be_compressed n1.name n1.contents n1.size
  within (if squeeze then ltb (length path.0 + 12) command_size else true)
  let n2 = if squeeze then record n1 { compressed = true } else n1
  let n3 = if should_be_loaded n2.name then record n2 { load = true } else n2
  let commands = if squeeze then bzip2 path.0 ∷ [] else []
  ok (record d { inodes = set d.inodes i n3; actions = d.actions ++ write path.0 bytes ∷ commands })

-- The loop of `WalkDir` from index `i` on, with `left` inodes to go.
module _ (can_create : Str → Bool) (walk : Option ℕ → Disk → Res Disk) where
  unfoldable pub dir_entry : ℕ → Option ℕ → Disk → Res Disk
  unfolding walk_file
  dir_entry i parent d = do
    n ← or_fault (get_elem? d.inodes i)
    elim (same_id n.parentid parent) [
      | false ↦ ok d
      | true ↦
          if is_kind s_ifdir n.mode
          then walk (some i) d
          else if is_kind s_ifreg n.mode
          then walk_file can_create i n d
          else ok d
    ]

  unfoldable pub dir_loop : ℕ → ℕ → Option ℕ → Disk → Res Disk
  unfolding dir_entry
  dir_loop zero i parent d = ok d
  dir_loop (suc left) i parent d = do d' ← dir_entry i parent d; dir_loop left (suc i) parent d'

-- `WalkDir`
unfoldable pub walk_dir : (Str → Bool) → ℕ → Option ℕ → Disk → Res Disk
unfolding dir_loop disk_path
walk_dir can_create zero parent d = running
walk_dir can_create (suc fuel) parent d = do
  path ← disk_path d.inodes parent
  dir_loop can_create (walk_dir can_create fuel) (length d.inodes) 0 parent
      (record d { actions = d.actions ++ mkdir path.0 ∷ [] })

-- `CreateFilesystem`
unfoldable pub create_filesystem : (Str → Bool) → ℕ → Table → Res Disk
unfolding walk_dir
create_filesystem can_create fuel inodes =
    walk_dir can_create fuel none (record { inodes = inodes; actions = [] })
