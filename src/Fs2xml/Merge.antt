-- ===== src/Fs2xml/Merge.antt =====
-- `MergeFile`: one entry of a tar archive goes into the inode table.
pub mod Laws
pub mod Ending
use Prim.Native.Nat.{bit_or, bit_and}
use tcb.Base.{
  ℕ, zero, suc, ◌+◌, ◌-◌, ◌^◌, Bool, true, false, ◌||◌, Option, none, some, List, [], ◌∷◌, ◌++◌,
  ltb, leb, ◌==◌, if◌then◌else◌, length, get_elem?, take, drop, Res, ok, exit, fault, ◌>>=◌, ◌>>◌,
  within, or_fault,
}
use tcb.Base.Text.{Str, c_string, strncpy, strtol_8}
use tcb.Fs2xml.Inode.{Inode, Table, max_inodes, blank_inode, search_inode}
use tcb.Fs2xml.Names.{split}
use tcb.Fs2xml.PosixHeader

-- `S_IFMT` and the file types of <sys/stat.h>.
abbrev pub s_ifmt : ℕ
s_ifmt = 0o170000

abbrev pub s_ifdir : ℕ
s_ifdir = 0o040000

abbrev pub s_ifreg : ℕ
s_ifreg = 0o100000

abbrev pub s_iflnk : ℕ
s_iflnk = 0o120000

-- `(mode & S_IFMT) == kind`
abbrev pub is_kind : ℕ → ℕ → Bool
is_kind kind mode = bit_and mode s_ifmt == kind

-- The loop of `MergeFile` over `walk[0..n-1)`: a missing directory ends the program.
unfoldable pub walk_down : Table → List Str → Option ℕ → Res (Option ℕ)
walk_down inodes [] parent = ok parent
walk_down inodes (name ∷ names) parent = elim (search_inode inodes name parent) [
  | none ↦ exit 1
  | some i ↦ walk_down inodes names (some i)
]

-- `malloc` and `memcpy` of the `size` bytes behind the header; an `int` size below 0 is a huge
-- `size_t`, for which `malloc` returns NULL.
unfoldable pub copy_contents : List ℕ → ℕ → Res (Option (List ℕ))
copy_contents ph size =
    if size == 0
    then ok none
    else if leb (2 ^ 31) size
    then fault
    else do within (leb (512 + size) (length ph)); ok (some (take size (drop 512 ph)))

-- The `switch` on `typeflag`: mode, data and link of the new inode.
unfoldable pub merge_kind : List ℕ → ℕ → ℕ → ℕ → Str → Res (ℕ × Option (List ℕ) × Str)
unfolding copy_contents
merge_kind ph typeflag mode size link =
    if typeflag == b'5'
    then ok (bit_or mode s_ifdir, none, link)
    else if typeflag == b'0'
    then (do contents ← copy_contents ph size; ok (bit_or mode s_ifreg, contents, link))
    else if typeflag == b'1'
    then (if length link == 0 then exit 1 else ok (bit_or mode s_iflnk, none, b'/' ∷ link))
    else if typeflag == b'2'
    then (if length link == 0 then exit 1 else ok (bit_or mode s_iflnk, none, link))
    else exit 1

-- The new inode, from what the header holds. Owners other than 0 and 1000 become root.
unfoldable pub make_inode : Str → Option ℕ → ℕ × Option (List ℕ) × Str → ℕ → ℕ → ℕ → ℕ → Inode
make_inode name parent kind size uid gid mtime =
    let keep = uid == 0 || uid == 1000 in
    record blank_inode {
      name = take 127 name;
      link = kind.2;
      mode = kind.0;
      size = size;
      uid = if keep then uid else 0;
      gid = if keep then gid else 0;
      parentid = parent;
      contents = kind.1;
      mtime = mtime;
    }

-- The reads of the header, in the order of `MergeFile`.
unfoldable pub read_inode : List ℕ → Str → Option ℕ → ℕ → Res Inode
unfolding merge_kind make_inode
read_inode ph name parent typeflag = do
  link ← or_fault (strncpy (drop PosixHeader.linkname ph) 100)
  size ← or_fault (strtol_8 (drop PosixHeader.size ph))
  uid ← or_fault (strtol_8 (drop PosixHeader.uid ph))
  gid ← or_fault (strtol_8 (drop PosixHeader.gid ph))
  mtime ← or_fault (strtol_8 (drop PosixHeader.mtime ph))
  mode ← or_fault (strtol_8 (drop PosixHeader.mode ph))
  kind ← merge_kind ph typeflag mode size link
  ok (make_inode name parent kind size uid gid mtime)

-- The end of `MergeFile`: the inode is written behind the others, and counted.
unfoldable pub add_inode : Table → List ℕ → Str → Option ℕ → ℕ → Res Table
unfolding read_inode
add_inode inodes ph name parent typeflag = do
  within (ltb (length inodes) max_inodes)
  n ← read_inode ph name parent typeflag
  ok (inodes ++ n ∷ [])

-- The second half of `MergeFile`. A name that is there already, directory or not, is left as it is.
unfoldable pub place_inode : Table → List ℕ → Str → Option ℕ → ℕ → Res Table
unfolding add_inode
place_inode inodes ph last parent typeflag = elim (search_inode inodes last parent) [
  | some _ ↦ ok inodes
  | none ↦ add_inode inodes ph last parent typeflag
]

-- `MergeFile`. With `n` 0 it reads `walk[-1]`.
unfoldable pub merge_file : Table → List ℕ → Res Table
unfolding walk_down place_inode
merge_file inodes ph = do
  name ← or_fault (c_string ph)
  walk ← split name
  parent ← walk_down inodes (take (walk.0 - 1) walk.1) none
  within (ltb 0 walk.0)
  last ← or_fault (get_elem? walk.1 (walk.0 - 1))
  typeflag ← or_fault (get_elem? ph PosixHeader.typeflag)
  place_inode inodes ph last parent typeflag
