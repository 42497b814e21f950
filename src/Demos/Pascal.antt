-- ===== src/Demos/Pascal.antt =====
-- pascal.c: the triangle from factorials. A `long` has 32 bits, as on the OpenRISC; a product that it
-- does not hold is undefined. The question and the number that is read are left out: `n` is not
-- negative.
pub mod Laws
use tcb.Base.{
  ℕ, zero, suc, ◌-◌, ◌*◌, ◌/◌, ◌^◌, List, [], ◌∷◌, ◌++◌, Res, ok, ◌>>=◌, ◌>>◌, within, ltb,
  replicate,
}
use tcb.Base.Text.{Str, print_int}

-- The loop of `factorial`, with the rounds left.
unfoldable pub factorial_loop : ℕ → ℕ → ℕ → Res ℕ
factorial_loop zero c result = ok result
factorial_loop (suc left) c result = do
  within (ltb (result * c) (2 ^ 31))
  factorial_loop left (suc c) (result * c)

unfoldable pub factorial : ℕ → Res ℕ
unfolding factorial_loop
factorial n = factorial_loop n 1 1

-- `factorial(i)/(factorial(c)*factorial(i-c))`
unfoldable pub entry : ℕ → ℕ → Res ℕ
unfolding factorial
entry i c = do
  a ← factorial i
  b ← factorial c
  d ← factorial (i - c)
  within (ltb (b * d) (2 ^ 31))
  ok (a / (b * d))

-- The entries of row `i` from the `c`-th on.
unfoldable pub row_entries : ℕ → ℕ → ℕ → Res Str
unfolding entry print_int
row_entries zero i c = ok []
row_entries (suc left) i c = do
  e ← entry i c
  rest ← row_entries left i (suc c)
  ok (print_int e ++ (b' ' ∷ rest))

-- The rows from the `i`-th on; there are `n - i - 1` blanks before one.
unfoldable pub rows : ℕ → ℕ → ℕ → Res Str
unfolding row_entries
rows zero n i = ok []
rows (suc left) n i = do
  entries ← row_entries (suc i) i 0
  rest ← rows left n (suc i)
  ok (replicate (n - i - 1) b' ' ++ (entries ++ (b'\n' ∷ rest)))

-- What `main` prints for `n`.
unfoldable pub pascal : ℕ → Res Str
unfolding rows
pascal n = rows n n 0
