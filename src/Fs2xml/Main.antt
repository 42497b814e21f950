-- ===== src/Fs2xml/Main.antt =====
-- `main` and `decompress` of fs2xml.c. libbz2 is a parameter: what `BZ2_bzopen` and `BZ2_bzread` make
-- of a file name and of what the buffer held before (the new buffer, and how many bytes are read;
-- `none` if the file cannot be opened).
pub mod Laws
use tcb.Base.{
  ℕ, zero, suc, ◌+◌, ◌-◌, ◌*◌, ◌/◌, ◌%◌, ◌^◌, Bool, true, false, Option, none, some, List, [], ◌∷◌,
  ◌&&◌, ltb, leb, ◌==◌, if◌then◌else◌, length, Res, ok, exit, fault, ◌>>=◌, ◌>>◌, within,
}
use tcb.Base.Text.{Str, codes}
use tcb.Fs2xml.Inode.{Inode, Table}
use tcb.Fs2xml.Merge.{s_ifreg, is_kind}
use tcb.Fs2xml.Untar.{untar}
use tcb.Fs2xml.Walk.{create_xml, create_json}
use tcb.Fs2xml.Disk.{Disk, Action, create_filesystem}

-- `a + b` on `int`s: a sum out of range is undefined.
unfoldable pub add_int : ℕ → ℕ → Res ℕ
add_int a b =
    if ltb a (2 ^ 31) && ltb b (2 ^ 31)
    then (do within (ltb (a + b) (2 ^ 31)); ok (a + b))
    else if leb (2 ^ 31) a && leb (2 ^ 31) b
    then (do within (leb (2 ^ 32 + 2 ^ 31) (a + b)); ok (a + b - 2 ^ 32))
    else ok ((a + b) % 2 ^ 32)

-- The loop of `main` that counts the regular files and adds up their sizes.
unfoldable pub count_files : Table → ℕ → ℕ → Res (ℕ × ℕ)
unfolding add_int
count_files [] n size = ok (n, size)
count_files (x ∷ xs) n size = elim (is_kind s_ifreg x.mode) [
  | false ↦ count_files xs n size
  | true ↦ do size' ← add_int size x.size; count_files xs (n + 1) size'
]

-- The memory that `main` unpacks the archives into: a 60 MB buffer.
abbrev pub buffer_size : ℕ
buffer_size = 60 * 1024 * 1024

-- What a run leaves behind.
pub record Output : Type 0 where
  pub disk : Disk
  pub files : ℕ × ℕ
  pub xml : Str
  pub json : Str

module _ (bz2 : Str → List ℕ → Option (List ℕ × ℕ)) where
  -- `decompress`: the file name goes through `char name[256]`.
  unfoldable pub decompress : Str → List ℕ → Res (List ℕ × ℕ)
  decompress filename buf = do
    within (ltb (length filename) 256)
    elim (bz2 filename buf) [ none ↦ exit 1 | some r ↦ ok r ]

  -- The loop of `main` over the archives; `Untar` gets a round for each block, and two.
  unfoldable pub merge_archives : List Str → List ℕ → Table → Res Table
  unfolding decompress
  merge_archives [] buf inodes = ok inodes
  merge_archives (filename ∷ names) buf inodes = do
    r ← decompress filename buf
    inodes' ← untar (suc (r.1 / 512 + 1)) r.0 r.1 inodes
    merge_archives names r.0 inodes'

-- `fopen(name, "w")`, or the end of the program.
unfoldable pub open_output : (Str → Bool) → Str → Res (Unit {0})
open_output can_create name = if can_create name then ok tt else exit 1

-- `main`, of the arguments behind the program's name.
unfoldable pub main :
    (Str → List ℕ → Option (List ℕ × ℕ)) → (Str → Bool) → List Str → List ℕ → Res Output
unfolding merge_archives count_files open_output
main bz2 can_create [] buf = exit 1
main bz2 can_create (name ∷ names) buf = do
  inodes ← merge_archives bz2 (name ∷ names) buf []
  files ← count_files inodes 0 0
  disk ← create_filesystem can_create (suc (length inodes)) inodes
  open_output can_create (codes "fs.xml")
  xml ← create_xml (suc (length disk.inodes)) disk.inodes
  open_output can_create (codes "fs.json")
  json ← create_json (suc (length disk.inodes)) disk.inodes
  ok (record { disk = disk; files = files; xml = xml; json = json })
