-- ===== src/Demos/Pascal/Laws.antt =====
-- What is printed is the triangle, as long as the factorials fit.
use tcb.Base.{
  ℕ, zero, suc, ◌+◌, ◌-◌, ◌<◌, ◌≤◌, ◌≡◌, refl, Bool, true, false, not, ◌||◌, [], ◌∷◌, ◌++◌, Res, ok,
  exit, fault, running, ◌>>=◌, leb, if◌then◌else◌, ◌==◌, ==_iff, replicate, arith, ap, sym, ◌∙◌,
  subst,
}
use native.Mathlib.Decide.{dec_le}
use tcb.Base.Tables.{holds_under, holds_under-at}
use tcb.Base.Text.{Str, print_int}
use tcb.Demos.Pascal.{factorial, factorial_loop, entry, row_entries, rows, pascal}

-- The triangle by its own rule: a number is the sum of the two above it.
unfoldable pub triangle : ℕ → ℕ → ℕ
triangle i zero = 1
triangle zero (suc c) = 0
triangle (suc i) (suc c) = triangle i c + triangle i (suc c)

-- Its text, in the form of a tree.
unfoldable pub triangle_row : ℕ → ℕ → ℕ → Str
triangle_row zero i c = []
triangle_row (suc left) i c = print_int (triangle i c) ++ (b' ' ∷ triangle_row left i (suc c))

unfoldable pub triangle_text : ℕ → ℕ → ℕ → Str
triangle_text zero n i = []
triangle_text (suc left) n i =
    replicate (n - i - 1) b' '
    ++ (triangle_row (suc i) i 0 ++ (b'\n' ∷ triangle_text left n (suc i)))

gives : Res ℕ → ℕ → Bool
gives (ok e) k = e == k
gives (exit s) k = false
gives fault k = false
gives running k = false

gives-ok : (r : Res ℕ) (k : ℕ) → gives r k ≡ true → r ≡ ok k
unfolding gives
gives-ok (ok e) k h = ap ok ((==_iff e k).0 h)
gives-ok (exit s) k h = absurd (cc)
gives-ok fault k h = absurd (cc)
gives-ok running k h = absurd (cc)

-- The rows that fit.
entry_test : ℕ → ℕ → Bool
entry_test i c = not (leb c i) || gives (entry i c) (triangle i c)

entries_fit : holds_under (λ i. holds_under (entry_test i) 13) 13 ≡ true
unfolding holds_under entry_test gives entry factorial factorial_loop triangle
entries_fit = refl

entry-triangle : (i c : ℕ) → i < 13 → c ≤ i → entry i c ≡ ok (triangle i c)
unfolding entry_test
entry-triangle i c hi hc =
    let row = holds_under-at (λ i. holds_under (entry_test i) 13) 13 i entries_fit hi in
    let one = holds_under-at (entry_test i) 13 c row (omega (arith, hi, hc)) in
    gives-ok (entry i c) (triangle i c) (ground (arith, one, hc))

row_entries-triangle_row :
    (left i c : ℕ) → i < 13 → c + left ≤ suc i → row_entries left i c ≡ ok (triangle_row left i c)
unfolding row_entries triangle_row
row_entries-triangle_row zero i c hi h = refl
row_entries-triangle_row (suc left) i c hi h = rw (
  entry-triangle i c hi (omega (arith, h)),
  ◌>>=◌,
  row_entries-triangle_row left i (suc c) hi (omega (arith, h)),
  ◌>>=◌,
)

rows-triangle_text : (left n i : ℕ) → i + left ≤ 13 → rows left n i ≡ ok (triangle_text left n i)
unfolding rows triangle_text
rows-triangle_text zero n i h = refl
rows-triangle_text (suc left) n i h = rw (
  row_entries-triangle_row (suc i) i 0 (omega (arith, h)) (omega arith),
  ◌>>=◌,
  rows-triangle_text left n (suc i) (omega (arith, h)),
  ◌>>=◌,
)

-- 13! does not fit.
factorial_fault : (k : ℕ) → 13 ≤ k → factorial k ≡ fault
unfolding factorial factorial_loop
factorial_fault k h =
    let same : suc (suc (suc (suc (suc (suc (suc (suc (suc (suc (suc (suc (suc (k - 13)))))))))))))
        ≡ k =
      omega (arith, h) in
    subst (λ t. factorial t ≡ fault) same refl

rows_fault : (left n i : ℕ) → i ≤ 13 → 13 < i + left → rows left n i ≡ fault
unfolding rows row_entries entry
rows_fault zero n i hi h = absurd (omega (arith, hi, h))
rows_fault (suc left) n i hi h = elim (dec_le i 12) [
  | yes below ↦ rw (
    row_entries-triangle_row (suc i) i 0 (omega (arith, below)) (omega arith),
    ◌>>=◌,
    rows_fault left n (suc i) (omega (arith, below)) (omega (arith, h)),
    ◌>>=◌,
  )
  | no not_below ↦ rw (factorial_fault i (ground (arith, not_below)), ◌>>=◌)
]

-- The numbers that the quotients of factorials give are those of Pascal's rule: up to 13 rows, what is
-- printed is the triangle in which every number is the sum of the two above it; with more rows, the
-- program comes to 13!, which a `long` of 32 bits does not hold.
pub pascal-triangle_text :
    (n : ℕ) → pascal n ≡ (if leb n 13 then ok (triangle_text n n 0) else fault)
unfolding pascal
pascal-triangle_text n = elim (dec_le n 13) [
  | yes h ↦
      let fits : leb n 13 ≡ true = ground (arith, h) in
      rows-triangle_text n n 0 (omega (arith, h))
      ∙ ap (λ b. if b then ok (triangle_text n n 0) else fault) (sym fits)
  | no h ↦
      let above : leb n 13 ≡ false = ground (arith, h) in
      rows_fault n n 0 (omega arith) (ground (arith, h))
      ∙ ap (λ b. if b then ok (triangle_text n n 0) else fault) (sym above)
]
