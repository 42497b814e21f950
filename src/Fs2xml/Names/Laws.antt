-- ===== src/Fs2xml/Names/Laws.antt =====
-- `Split` takes a path apart into the names that it was joined from, and `EndsWith` finds exactly
-- the suffixes.
use mathlib.Core.List.{append-nil, append_assoc}
use tcb.Base.{
  ℕ, suc, ◌+◌, ◌-◌, ◌<◌, ◌≤◌, ◌≡◌, refl, sym, ap, ◌∙◌, ◌≢◌, ◌↔◌, true, Option, some, List, [], ◌∷◌,
  ◌++◌, arith, length, get_elem?, take, drop, All, ok, length-append, take-append-drop,
}
use tcb.Base.Text.{Str, codes, str_eq_iff, str_eq_refl}
use tcb.Fs2xml.Names.{walk_rows, row_size, split_loop, split_start, split, ends_with}

abbrev pub NoSlash : Str → Type 0
NoSlash = All (λ c. c ≢ b'/')

-- A file name that fits a row of `walk`.
abbrev pub IsName : Str → Type 0
IsName s = (0 < length s) × (length s < row_size) × NoSlash s

-- The names of a path with `/` between them.
abbrev pub join : Str → List Str → Str
join s [] = s
join s (t ∷ ts) = s ++ b'/' ∷ join t ts

split_loop_row :
    (s rest : Str) (rows : List Str) (row : Str)
    → NoSlash s
    → length rows < walk_rows
    → length row + length s < row_size
    → split_loop (s ++ rest) rows row ≡ split_loop rest rows (row ++ s)
unfolding split_loop
split_loop_row [] rest rows row h hr hs = rw append-nil
split_loop_row (c ∷ s) rest rows row h hr hs =
    let next =
      split_loop_row s rest rows (row ++ c ∷ []) h.1 hr
        (omega (arith, length-append row (c ∷ []))) in
    ground (arith, h.0, next, append_assoc row (c ∷ []) s)

split_loop_end :
    (rows : List Str) (row : Str)
    → length rows < walk_rows
    → length row < row_size
    → split_loop [] rows row ≡ ok (rows ++ row ∷ [])
unfolding split_loop
split_loop_end rows row hr hs = ground arith

split_loop_slash :
    (s : Str) (rows : List Str) (row : Str)
    → length rows < walk_rows
    → length row < row_size
    → split_loop (b'/' ∷ s) rows row ≡ split_loop s (rows ++ row ∷ []) []
unfolding split_loop
split_loop_slash s rows row hr hs = ground arith

split_loop-join :
    (s : Str) (ts : List Str) (rows : List Str)
    → IsName s
    → All IsName ts
    → length rows + suc (length ts) ≤ walk_rows
    → split_loop (join s ts) rows [] ≡ ok (rows ++ s ∷ ts)
split_loop-join s [] rows hs ht fits =
    ap (λ t. split_loop t rows []) (sym (append-nil s))
    ∙ split_loop_row s [] rows [] hs.2 (omega arith) (omega arith)
    ∙ split_loop_end rows s (omega arith) hs.1
split_loop-join s (t ∷ ts) rows hs ht fits =
    split_loop_row s (b'/' ∷ join t ts) rows [] hs.2 (omega arith) (omega arith)
    ∙ split_loop_slash (join t ts) rows s (omega arith) hs.1
    ∙ split_loop-join t ts (rows ++ s ∷ []) ht.0 ht.1 (omega (arith, length-append rows (s ∷ [])))
    ∙ ap ok (append_assoc rows (s ∷ []) (t ∷ ts))

-- The byte before the NUL.
last_of : Str → Option ℕ
last_of s = get_elem? s (length s - 1)

last_of-cons : (x : ℕ) (s : Str) → 0 < length s → last_of (x ∷ s) ≡ last_of s
unfolding last_of
last_of-cons x [] h = absurd (omega arith)
last_of-cons x (y ∷ s) h =
    ap (λ i. get_elem? (x ∷ y ∷ s) i) (at_suc (suc (length s)))
    ∙ ap (λ i. get_elem? (y ∷ s) i) (sym (at_suc (length s)))
  where
    at_suc : (n : ℕ) → suc n - 1 ≡ n
    at_suc n = omega arith

last_of-append : (s t : Str) → 0 < length t → last_of (s ++ t) ≡ last_of t
last_of-append [] t h = refl
last_of-append (x ∷ s) t h =
    last_of-cons x (s ++ t) (omega (arith, length-append s t)) ∙ last_of-append s t h

last_of_name : (s : Str) → 0 < length s → NoSlash s → (c : ℕ) × (last_of s ≡ some c) × (c ≢ b'/')
unfolding last_of
last_of_name [] h n = absurd (omega arith)
last_of_name (x ∷ []) h n = (x, refl, n.0)
last_of_name (x ∷ y ∷ s) h n =
    let (c, e, d) = last_of_name (y ∷ s) (omega arith) n.1 in
    (c, last_of-cons x (y ∷ s) (omega arith) ∙ e, d)

length-join : (s : Str) (ts : List Str) → length s ≤ length (join s ts)
length-join s [] = omega arith
length-join s (t ∷ ts) = omega (arith, length-append s (b'/' ∷ join t ts))

last_of-join :
    (s : Str) (ts : List Str)
    → IsName s
    → All IsName ts
    → (c : ℕ) × (last_of (join s ts) ≡ some c) × (c ≢ b'/')
last_of-join s [] hs ht = last_of_name s hs.0 hs.2
last_of-join s (t ∷ ts) hs ht =
    let (c, e, d) = last_of-join t ts ht.0 ht.1 in
    (
      c,
      last_of-append s (b'/' ∷ join t ts) (omega arith)
          ∙ last_of-cons b'/' (join t ts) (omega (arith, length-join t ts, ht.0.0))
          ∙ e,
      d,
    )

-- `Split` undoes the joining of at most 12 names by `/` behind the `./` of a package's entries: it
-- returns their number and leaves exactly them in `walk`, with no write out of range.
pub split-join :
    (s : Str) (ts : List Str)
    → IsName s
    → All IsName ts
    → suc (length ts) ≤ walk_rows
    → split (codes "./" ++ join s ts) ≡ ok (suc (length ts), s ∷ ts)
unfolding split split_start last_of
split-join s ts hs ht fits =
    let (c, e, d) = last_of-join s ts hs ht in
    let tail = last_of-append (codes "./") (join s ts) (omega (arith, length-join s ts, hs.0)) in
    rw (split_loop-join s ts [] hs ht (omega arith), tail ∙ e) (ground arith)

ends_with_sound :
    (str suffix : Str) → ends_with str suffix ≡ true → (pre : Str) × (str ≡ pre ++ suffix)
unfolding ends_with
ends_with_sound str suffix h =
    let n = length str - length suffix in
    (
      take n str,
      sym (take-append-drop n str)
          ∙ ap (λ t. take n str ++ t) ((str_eq_iff (drop n str) suffix).0 (ground arith)),
    )

drop-append : (pre s : Str) → drop (length pre) (pre ++ s) ≡ s
drop-append [] s = refl
drop-append (x ∷ pre) s = drop-append pre s

ends_with_complete : (pre suffix : Str) → ends_with (pre ++ suffix) suffix ≡ true
unfolding ends_with
ends_with_complete pre suffix =
    let cut : length (pre ++ suffix) - length suffix ≡ length pre =
      omega (arith, length-append pre suffix) in
    rw (cut, drop-append pre suffix, str_eq_refl suffix) (ground (arith, length-append pre suffix))

-- `EndsWith` says 1 exactly for the strings that are some string with the suffix behind it.
pub ends_with_iff :
    (str suffix : Str) → (ends_with str suffix ≡ true) ↔ ((pre : Str) × (str ≡ pre ++ suffix))
ends_with_iff str suffix =
    (ends_with_sound str suffix, λ (pre, e). rw e (ends_with_complete pre suffix))
