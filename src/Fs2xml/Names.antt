-- ===== src/Fs2xml/Names.antt =====
-- The string helpers of fs2xml.c: `Split` cuts a path into names, and the name tests that choose
-- which files are compressed or loaded.
pub mod Laws
use Prim.Native.Nat.{◌≤◌}
use tcb.Base.{
  ℕ, zero, suc, ◌+◌, ◌-◌, ◌*◌, ◌^◌, Bool, true, false, ◌&&◌, ◌||◌, Option, none, some, List, [],
  ◌∷◌, ◌++◌, ltb, leb, ◌==◌, if◌then◌else◌, length, get_elem?, set, drop, Res, ok, exit, fault,
  ◌>>=◌, ◌>>◌, within, or_fault,
}
use tcb.Base.Text.{Str, codes, str_eq, has_prefix}

-- `char walk[12][128]`
abbrev pub walk_rows : ℕ
walk_rows = 12

abbrev pub row_size : ℕ
row_size = 128

-- The loop of `Split` over the rest of the name: `rows` are the finished rows of `walk` (so their
-- number is `pn`), and `row` is the row that is being written (so its length is `p`). The NUL that
-- ends a row is written too, so both indices must be in range at every write.
unfoldable pub split_loop : Str → List Str → Str → Res (List Str)
split_loop [] rows row = do
  within (ltb (length rows) walk_rows && ltb (length row) row_size)
  ok (rows ++ row ∷ [])
split_loop (c ∷ s) rows row = do
  within (ltb (length rows) walk_rows && ltb (length row) row_size)
  elim (c == b'/') [
    | true ↦ split_loop s (rows ++ row ∷ []) []
    | false ↦ split_loop s rows (row ++ c ∷ [])
  ]

-- Where the loop of `Split` starts.
unfoldable pub split_start : Str → ℕ
split_start name =
    let first = get_elem? name 0 in
    elim first [ none ↦ 0 | some c ↦ if c == b'.' then 2 else if c == b'/' then 1 else 0 ]

-- `Split`: the number that it returns, and the rows that it wrote. An empty name makes it read
-- `name[-1]`.
unfoldable pub split : Str → Res (ℕ × List Str)
unfolding split_loop split_start
split name = do
  rows ← split_loop (drop (split_start name) name) [] []
  last ← or_fault (get_elem? name (length name - 1))
  ok ((if last == b'/' then length rows - 1 else length rows), rows)

-- `ShouldBeLoaded`
unfoldable pub should_be_loaded : Str → Bool
should_be_loaded name =
    str_eq name (codes "libc.so")
    || str_eq name (codes "libncurses.so.5.9")
    || str_eq name (codes "libmenu.so.5.9")
    || str_eq name (codes "libgcc_s.so.1")

-- `EndsWith`, of two strings that are not null.
unfoldable pub ends_with : Str → Str → Bool
ends_with str suffix =
    if ltb (length str) (length suffix)
    then false
    else str_eq (drop (length str - length suffix) str) suffix

-- The suffixes that `ShouldBeCompressed` leaves alone, in its order.
unfoldable pub is_packed : Str → Bool
unfolding ends_with
is_packed name =
    ends_with name (codes ".jpg")
    || ends_with name (codes ".png")
    || ends_with name (codes ".gz")
    || ends_with name (codes ".bz2")
    || ends_with name (codes ".zip")
    || ends_with name (codes ".png")
    || ends_with name (codes ".3gp")
    || ends_with name (codes ".mpg")

-- `ShouldBeCompressed`; `size` is the bit pattern of an `int`, and is compared as one.
unfoldable pub should_be_compressed : Str → Option (List ℕ) → ℕ → Res Bool
unfolding is_packed
should_be_compressed name contents size =
    if ltb size 4 || leb (2 ^ 31) size
    then ok false
    else if is_packed name
    then ok false
    else if ltb (10 * 1024) size
    then ok true
    else do
      bytes ← or_fault contents
      c0 ← or_fault (get_elem? bytes 0)
      c1 ← or_fault (get_elem? bytes 1)
      c2 ← or_fault (get_elem? bytes 2)
      c3 ← or_fault (get_elem? bytes 3)
      ok (c0 == 0x7f && c1 == b'E' && c2 == b'L' && c3 == b'F')

-- The loop of `RemoveFirstSignofString` over the array `s`, with `left` rounds to go: `s[i] = s[i+1]`.
unfoldable pub remove_first_loop : ℕ → ℕ → List ℕ → Res (List ℕ)
remove_first_loop zero i s = ok s
remove_first_loop (suc left) i s = do
  c ← or_fault (get_elem? s (i + 1))
  remove_first_loop left (i + 1) (set s i c)

-- `RemoveFirstSignofString`, of an array that holds a string of length `n`.
unfoldable pub remove_first : ℕ → List ℕ → Res (List ℕ)
unfolding remove_first_loop
remove_first n s = remove_first_loop n 0 s

-- The loop of `AddFirstSigntoString`, with `left` rounds to go (so `i` is `left - 1`): `s[i+1] = s[i]`.
unfoldable pub add_first_loop : ℕ → List ℕ → Res (List ℕ)
add_first_loop zero s = ok s
add_first_loop (suc i) s = do
  c ← or_fault (get_elem? s i)
  within (ltb (i + 1) (length s))
  add_first_loop i (set s (i + 1) c)

-- `AddFirstSigntoString`, of an array that holds a string of length `n`.
unfoldable pub add_first : ℕ → List ℕ → ℕ → Res (List ℕ)
unfolding add_first_loop
add_first n s x = do s' ← add_first_loop (n + 1) s; within (ltb 0 (length s')); ok (set s' 0 x)
