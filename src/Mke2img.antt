-- ===== src/Mke2img.antt =====
-- tools/mke2img.c: copies a directory tree into an ext2 image. libext2fs is a parameter: what it answers
-- to a call, after the calls and messages so far. The tree is what readdir, lstat, open, read, readlink
-- and chdir give.
pub mod Laws
pub mod Files
pub mod Trawl
pub mod Main
mod Tests
use tcb.Base.{
  ℕ, zero, suc, ◌+◌, ◌*◌, Bool, true, false, not, ◌||◌, Option, none, some, List, [], ◌∷◌, Res, ok,
  exit, fault, ◌>>=◌, ◌==◌, if◌then◌else◌, length, take, ltb, ◌%◌, ◌^◌,
}
use tcb.Base.Text.{str_eq}

abbrev pub Name : Type 0
Name = List ℕ

-- What is used of `struct stat`.
pub record Info : Type 0 where
  pub st_mode : ℕ
  pub st_uid : ℕ
  pub st_gid : ℕ
  pub st_atime : ℕ
  pub st_mtime : ℕ
  pub st_ctime : ℕ
  pub st_size : ℕ
  pub st_rdev : ℕ

-- What is set of `struct ext2_inode`.
pub record Inode : Type 0 where
  pub i_mode : ℕ
  pub i_uid : ℕ
  pub i_gid : ℕ
  pub i_atime : ℕ
  pub i_mtime : ℕ
  pub i_ctime : ℕ
  pub i_links_count : ℕ
  pub i_size : ℕ
  pub i_block : ℕ

pub data FileType : Type 0 where
  reg_file chrdev blkdev fifo sock symlink : FileType

-- What `st_mode` says of an entry, with what the system gives: whether `chdir` into it succeeds, the
-- blocks that are read from it or none where it does not open, what `readlink` gives.
pub data Kind : Type 0 where
  directory : Bool → Kind
  regular : Option (List (List ℕ)) → Kind
  link_to : Option (List ℕ) → Kind
  device : FileType → Kind
  other : Kind

-- A directory: an entry with its name, its `lstat` or none where that fails, its kind, its own entries,
-- whether `opendir` opens it, and the entries behind it.
pub data Entries : Type 0 where
  no_more : Entries
  entry : Name → Option Info → Kind → Entries → Bool → Entries → Entries

-- The calls of libext2fs that say whether they failed.
pub data Call : Type 0 where
  new_inode : ℕ → ℕ → Call
  mkdir : ℕ → ℕ → Name → Call
  expand_dir : ℕ → Call
  write_new_inode : ℕ → Inode → Call
  alloc_stats : ℕ → Call
  file_open : ℕ → Call
  file_write : ℕ → List ℕ → Call
  file_flush : ℕ → Call
  file_close : ℕ → Call
  link : ℕ → Name → ℕ → FileType → Call
  open_image read_bitmaps write_bitmaps close_image : Call

-- What has happened: a call with its answer, 0 for success, and a message about an entry,
-- or about none.
pub data Event : Type 0 where
  called : Call → ℕ → Event
  message : Name → Event

-- The latest first.
abbrev pub Events : Type 0
Events = List Event

-- The inode of the root directory, the answers, the inode that `ext2fs_new_inode` gives, and how much of
-- a block `ext2fs_file_write` says it has written.
pub record Library : Type 0 where
  pub root : ℕ
  pub answer : Events → Call → ℕ
  pub inode : Events → ℕ
  pub written : Events → ℕ → ℕ

-- `.` and `..`
unfoldable pub is_dot : Name → Bool
unfolding str_eq
is_dot name = str_eq name (46 ∷ []) || str_eq name (46 ∷ 46 ∷ [])

module _ (lib : Library) where
  abbrev pub ask : Call → Events → ℕ × Events
  ask c t = (lib.answer t c, called c (lib.answer t c) ∷ t)

  -- `if ((e = ...)) error(e, ...)`
  abbrev pub warned : Call → Name → Events → Events
  warned c name t = if lib.answer t c == 0 then (ask c t).1 else message name ∷ (ask c t).1

  -- A call that makes a name in a directory, once more where the directory had to be expanded.
  unfoldable pub add_name : Call → ℕ → Name → Events → Bool × Events
  add_name c parent name t =
      let (e1, t1) = ask c t in
      let (e2, t2) = ask (expand_dir parent) t1 in
      let (e3, t3) = ask c t2 in
      if e1 == 0
      then (true, t1)
      else if not (e2 == 0)
      then (false, message name ∷ t2)
      else if e3 == 0
      then (true, t3)
      else (false, message name ∷ t3)

  -- The loop over the blocks of a file. Where a write fails, it closes the file and goes on; a write to
  -- a closed file, or closing it once more, is undefined. `read` puts what it reads, up to the image's
  -- block size, into a buffer of 4096 bytes.
  unfoldable pub copy : ℕ → Name → Bool → List (List ℕ) → Events → Res Events
  copy new name usable [] t = if usable then ok (warned (file_close new) name t) else fault
  copy new name usable (block ∷ blocks) t =
      let (e, t1) = ask (file_write new block) t in
      let failed = not (e == 0) || ltb (lib.written t (length block)) (length block) in
      let after_failure = copy new name false blocks (
        called (file_close new) (lib.answer (message name ∷ t1) (file_close new))
        ∷ message name
        ∷ t1) in
      let after = copy new name true blocks (warned (file_flush new) name t1) in
      if ltb 4096 (length block)
      then fault
      else if not usable
      then fault
      else if failed
      then after_failure
      else after

  abbrev pub inode_of : Info → Inode
  inode_of info = record {
    i_mode = info.st_mode;
    i_uid = info.st_uid;
    i_gid = info.st_gid;
    i_atime = info.st_atime;
    i_mtime = info.st_mtime;
    i_ctime = info.st_ctime;
    i_links_count = 1;
    i_size = info.st_size;
    i_block = info.st_rdev;
  }

  -- The attributes of a new file.
  abbrev pub attributes : ℕ → Inode → Name → Events → Events
  attributes new inode name t =
      (ask (alloc_stats new) (warned (write_new_inode new inode) name t)).1

  -- A regular file: what becomes of it, and whether it reaches `ext2fs_link`.
  abbrev pub file_inode : Info → Inode
  file_inode info = record (inode_of info) { i_mode = 0x8000 + info.st_mode % 2 ^ 9; i_block = 0 }

  unfoldable pub regular_file : ℕ → Name → Info → ℕ → Option (List (List ℕ)) → Events → Res Events
  unfolding add_name copy
  regular_file parent name info new none t =
      ok (message name ∷ attributes new (file_inode info) name t)
  regular_file parent name info new (some blocks) t =
      let (e, t1) = ask (file_open new) (attributes new (file_inode info) name t) in
      if not (e == 0) then ok (message name ∷ t1) else do
        t2 ← copy new name true blocks t1
        ok (add_name (link parent name new reg_file) parent name t2).1

  -- Where a symbolic link leads goes into its inode as the contents of a file; `f` is closed also where
  -- `ext2fs_file_open` has not set it.
  unfoldable pub copy_target : ℕ → Name → Info → Option (List ℕ) → Events → Res Events
  copy_target new name info none t = ok (message name ∷ t)
  copy_target new name info (some target) t =
      let (e1, t1) = ask (file_open new) t in
      let t2 = warned (file_write new (take info.st_size target)) name t1 in
      if not (e1 == 0)
      then fault
      else if ltb 1024 info.st_size
      then fault
      else ok (ask (file_close new) t2).1

  abbrev pub special_file : ℕ → Name → Info → ℕ → FileType → Events → Events
  special_file parent name info new type t = (add_name (link parent name new type) parent name t).1

  -- A round of the loop over a directory; `enter` copies the directory that the entry is.
  unfoldable pub make_entry :
      ℕ → Name → Option Info → Kind → (ℕ → Events → Res Events) → Events → Res Events
  unfolding add_name regular_file copy_target
  make_entry parent name none kind enter t = ok (message name ∷ t)
  make_entry parent name (some info) kind enter t =
      let new = lib.inode t in
      let (e, t1) = ask (new_inode parent info.st_mode) t in
      if not (e == 0) then ok (message name ∷ t1) else elim kind [
        | directory enters ↦
            let (made, t2) = add_name (mkdir parent new name) parent name t1 in
            if not made then ok t2 else if enters then enter new t2 else ok (message name ∷ t2)
        | regular blocks ↦ regular_file parent name info new blocks t1
        | link_to target ↦ do
          t2 ← copy_target new name info target (attributes new (inode_of info) name t1)
          ok (special_file parent name info new symlink t2)
        | device type ↦
            ok (special_file parent name info new type (attributes new (inode_of info) name t1))
        | other ↦ ok (message name ∷ t1)
      ]

  -- The loop of `trawl_dir`, and `trawl_dir` where `opendir` opens the directory or not.
  unfoldable pub trawl : Entries → ℕ → Events → Res Events
  unfolding make_entry is_dot
  trawl no_more parent t = ok t
  trawl (entry name info kind below opens rest) parent t = do
    t1 ←
        if is_dot name
        then ok t
        else make_entry parent name info kind (λ new t. if opens then trawl below new t else exit 1)
            t
    trawl rest parent t1

  abbrev pub trawl_dir : Bool → Entries → ℕ → Events → Res Events
  trawl_dir opens entries parent t = if opens then trawl entries parent t else exit 1

  -- `main`, with the directory that `argv[2]` names, or none where `chdir` fails, and the current one.
  unfoldable pub main : ℕ → Option (Bool × Entries) → Bool × Entries → Res (ℕ × Events)
  unfolding trawl
  main argc tree here =
      let (e1, t1) = ask open_image [] in
      let t2 = warned read_bitmaps [] t1 in
      let from : Bool × Entries = elim tree [ none ↦ here | some there ↦ there ] in
      if ltb argc 3 then exit 1 else if not (e1 == 0) then exit 1 else do
        t3 ← trawl_dir from.0 from.1 lib.root t2
        let (e4, t4) = ask close_image (warned write_bitmaps [] t3)
        if e4 == 0 then ok (0, t4) else exit 1
