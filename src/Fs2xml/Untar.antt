-- ===== src/Fs2xml/Untar.antt =====
-- `Untar`: the loop over the blocks of an unpacked archive.
pub mod Laws
pub mod Ends
use tcb.Base.{
  ℕ, zero, suc, ◌+◌, ◌-◌, ◌*◌, ◌/◌, ◌^◌, Bool, true, false, List, ltb, leb, ◌==◌, if◌then◌else◌,
  drop, Res, ok, fault, running, ◌>>=◌, or_fault,
}
use tcb.Base.Text.{codes, has_prefix, strtol_8}
use tcb.Fs2xml.Inode.{Table}
use tcb.Fs2xml.PosixHeader
use tcb.Fs2xml.Merge.{merge_file}

-- Where the loop goes on behind an entry whose header ends at `p`: `p + size`, cut down to a block
-- (`p & ~0x1FF`). A negative `p` is used as an index, and an `int` sum out of range is undefined.
unfoldable pub next_header : ℕ → ℕ → Res ℕ
next_header p size =
    if ltb size (2 ^ 31)
    then (if ltb (p + size) (2 ^ 31) then ok ((p + size) / 512 * 512) else fault)
    else (if leb (2 ^ 32 - size) p then ok ((p - (2 ^ 32 - size)) / 512 * 512) else fault)

-- What one round of the loop does with a header at `p`: where the loop goes on, and the table.
unfoldable pub untar_entry : List ℕ → ℕ → Table → Res (ℕ × Table)
unfolding next_header
untar_entry buf p inodes = do
  size ← or_fault (strtol_8 (drop PosixHeader.size (drop p buf)))
  inodes' ← merge_file inodes (drop p buf)
  p' ← if size == 0 then ok (p + 512) else next_header (p + 512) size
  ok (p', inodes')

-- What it does with any block at `p`.
unfoldable pub untar_block : List ℕ → ℕ → Table → Res (ℕ × Table)
unfolding untar_entry
untar_block buf p inodes = do
  ustar ← or_fault (has_prefix (drop PosixHeader.magic (drop p buf)) (codes "ustar"))
  elim ustar [ false ↦ ok (p + 512, inodes) | true ↦ untar_entry buf p inodes ]

-- The `while` loop of `Untar`.
unfoldable pub untar_loop : ℕ → List ℕ → ℕ → ℕ → Table → Res Table
untar_loop zero buf len p inodes = running
untar_loop (suc fuel) buf len p inodes = elim (ltb p len) [
  | false ↦ ok inodes
  | true ↦ do r ← untar_block buf p inodes; untar_loop fuel buf len r.0 r.1
]

-- `Untar`
unfoldable pub untar : ℕ → List ℕ → ℕ → Table → Res Table
unfolding untar_loop
untar fuel buf len inodes = untar_loop fuel buf len 0 inodes
