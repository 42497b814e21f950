-- ===== src/Fs2xml/PosixHeader.antt =====
-- `struct posix_header` of fs2xml.c: where its fields start, in the memory from `ph` on. `name` is
-- at 0.
use tcb.Base.{ℕ}

abbrev pub mode : ℕ
mode = 100

abbrev pub uid : ℕ
uid = 108

abbrev pub gid : ℕ
gid = 116

abbrev pub size : ℕ
size = 124

abbrev pub mtime : ℕ
mtime = 136

abbrev pub typeflag : ℕ
typeflag = 156

abbrev pub linkname : ℕ
linkname = 157

abbrev pub magic : ℕ
magic = 257
