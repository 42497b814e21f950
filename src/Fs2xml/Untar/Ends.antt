-- ===== src/Fs2xml/Untar/Ends.antt =====
-- `Untar` ends on archives with no negative size, and does not on some others.
use tcb.Base.{
  ℕ, zero, suc, ◌+◌, ◌*◌, ◌/◌, ◌%◌, ◌^◌, ◌<◌, ◌≤◌, ◌≡◌, refl, inl, inr, Bool-cases, List, some,
  arith, drop, ok, or_fault, >>=-eq-ok, or_fault-eq-ok, Ends, >>=-Ends, or_fault-Ends, ltb, ltb→lt,
  ◌==◌, if◌then◌else◌,
}
use tcb.Base.Text.{strtol_8}
use tcb.Fs2xml.Inode.{Table}
use tcb.Fs2xml.PosixHeader
use tcb.Fs2xml.Merge.{merge_file}
use tcb.Fs2xml.Merge.Ending.{merge_file-Ends}
use tcb.Fs2xml.Untar.Laws.{untar_loop_step}
use tcb.Fs2xml.Untar.{next_header, untar_entry, untar_block, untar_loop, untar}

-- No size field of a block among the first `len` bytes reads as a negative number.
abbrev pub HasSizes : List ℕ → ℕ → Type 0
HasSizes buf len =
    (p size : ℕ)
    → p < len
    → p % 512 ≡ 0
    → strtol_8 (drop PosixHeader.size (drop p buf)) ≡ some size
    → size < 2 ^ 31

next_header-Ends : (p size : ℕ) → Ends (next_header p size)
unfolding next_header
next_header-Ends p size = ground arith

untar_entry-Ends : (buf : List ℕ) (p : ℕ) (inodes : Table) → Ends (untar_entry buf p inodes)
unfolding untar_entry
untar_entry-Ends buf p inodes =
    >>=-Ends (or_fault (strtol_8 (drop PosixHeader.size (drop p buf)))) _ (or_fault-Ends _)
      λ size _.
        >>=-Ends (merge_file inodes (drop p buf)) _ (merge_file-Ends inodes (drop p buf))
          λ t _. ground (arith, next_header-Ends (p + 512) size)

untar_block-Ends : (buf : List ℕ) (p : ℕ) (inodes : Table) → Ends (untar_block buf p inodes)
unfolding untar_block
untar_block-Ends buf p inodes = ground (arith, untar_entry-Ends buf p inodes)

next_header-le :
    (p size p' : ℕ)
    → p % 512 ≡ 0
    → size < 2 ^ 31
    → next_header p size ≡ ok p'
    → (p ≤ p') × (p' % 512 ≡ 0)
unfolding next_header
next_header-le p size p' h s e = ground arith

untar_entry-le :
    (buf : List ℕ) (len p : ℕ) (inodes : Table) (r : ℕ × Table)
    → HasSizes buf len
    → p < len
    → p % 512 ≡ 0
    → untar_entry buf p inodes ≡ ok r
    → (p + 512 ≤ r.0) × (r.0 % 512 ≡ 0)
unfolding untar_entry
untar_entry-le buf len p inodes r s below h e =
    let (size, read, e1) =
      >>=-eq-ok (or_fault (strtol_8 (drop PosixHeader.size (drop p buf)))) _ e in
    let (t, _, e2) = >>=-eq-ok (merge_file inodes (drop p buf)) _ e1 in
    let (p', next, e3) =
      >>=-eq-ok (if size == 0 then ok (p + 512) else next_header (p + 512) size) _ e2 in
    let small = s p size below h (or_fault-eq-ok _ read) in
    ground (arith, next_header-le (p + 512) size p')

untar_block-le :
    (buf : List ℕ) (len p : ℕ) (inodes : Table) (r : ℕ × Table)
    → HasSizes buf len
    → p < len
    → p % 512 ≡ 0
    → untar_block buf p inodes ≡ ok r
    → (p + 512 ≤ r.0) × (r.0 % 512 ≡ 0)
unfolding untar_block
untar_block-le buf len p inodes r s below h e =
    ground (arith, untar_entry-le buf len p inodes r s below h)

untar_loop-Ends :
    (fuel : ℕ) (buf : List ℕ) (len p : ℕ) (inodes : Table)
    → HasSizes buf len
    → p % 512 ≡ 0
    → len ≤ p + 512 * fuel
    → Ends (untar_loop (suc fuel) buf len p inodes)
unfolding untar_loop
untar_loop-Ends zero buf len p inodes s h f = ground arith
untar_loop-Ends (suc fuel) buf len p inodes s h f = elim (Bool-cases (ltb p len)) [
  | inr e ↦ ground arith
  | inl e ↦ rw (untar_loop_step (suc fuel) buf len p inodes e) (
      >>=-Ends (untar_block buf p inodes) _ (untar_block-Ends buf p inodes) λ r done.
        let (far, aligned) = untar_block-le buf len p inodes r s (ltb→lt _ _ e) h done in
        untar_loop-Ends fuel buf len r.0 r.1 s aligned (omega arith))
]

-- `Untar` of an archive without negative sizes ends (with a table, by `exit`, or at an access out of
-- range) within one round for each block of 512 bytes, and one.
pub untar-Ends :
    (buf : List ℕ) (len : ℕ) (inodes : Table)
    → HasSizes buf len
    → Ends (untar (suc (len / 512 + 1)) buf len inodes)
unfolding untar
untar-Ends buf len inodes s = untar_loop-Ends (len / 512 + 1) buf len 0 inodes s refl (omega arith)
