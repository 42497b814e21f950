-- ===== src/Base/Text.antt =====
-- The C library on strings, as far as the programs here call it. A string is the list of its bytes
-- up to the NUL, memory is the list of bytes from a pointer on; `none` is a read past its end.
use Prim.Native.Char.{code}
use Prim.Native.String.{String}
use mathlib.Core.Option
use tcb.Base.{
  ℕ, zero, suc, ◌+◌, ◌-◌, ◌*◌, ◌/◌, ◌%◌, ◌^◌, min, ◌≡◌, refl, ◌↔◌, Bool, true, false, ◌&&◌, ◌||◌,
  Option, none, some, List, [], ◌∷◌, ◌++◌, ltb, leb, ◌==◌, if◌then◌else◌, arith,
}

abbrev pub Str : Type 0
Str = List ℕ

-- A string literal of the source.
abbrev pub codes : String → Str
codes String.[] = []
codes (String.◌∷◌ c s) = code c ∷ codes s

-- `strcmp(a, b) == 0`
unfoldable pub str_eq : Str → Str → Bool
str_eq [] [] = true
str_eq [] (y ∷ ys) = false
str_eq (x ∷ xs) [] = false
str_eq (x ∷ xs) (y ∷ ys) = x == y && str_eq xs ys

pub str_eq_iff : (a b : Str) → (str_eq a b ≡ true) ↔ (a ≡ b)
unfolding str_eq
str_eq_iff [] [] = (λ _. refl, λ _. refl)
str_eq_iff [] (y ∷ ys) = ground arith
str_eq_iff (x ∷ xs) [] = ground arith
str_eq_iff (x ∷ xs) (y ∷ ys) = ground (arith, str_eq_iff xs ys)

pub str_eq_refl : (a : Str) → str_eq a a ≡ true
str_eq_refl a = (str_eq_iff a a).1 refl

-- The string that a pointer leads to.
unfoldable pub c_string : List ℕ → Option Str
c_string [] = none
c_string (c ∷ m) = let rest = c_string m in if c == 0 then some [] else Option.map (λ s. c ∷ s) rest

-- What `strncpy` takes from a pointer: `n` bytes, or fewer up to a NUL.
unfoldable pub strncpy : List ℕ → ℕ → Option Str
strncpy m zero = some []
strncpy [] (suc n) = none
strncpy (c ∷ m) (suc n) =
    let rest = strncpy m n in if c == 0 then some [] else Option.map (λ s. c ∷ s) rest

-- `strncmp(m, s, strlen(s)) == 0`
unfoldable pub has_prefix : List ℕ → Str → Option Bool
has_prefix m [] = some true
has_prefix [] (y ∷ s) = none
has_prefix (x ∷ m) (y ∷ s) = let rest = has_prefix m s in if x == y then rest else some false

unfoldable pub is_space : ℕ → Bool
is_space c = c == 32 || (leb 9 c && leb c 13)

unfoldable pub skip_spaces : List ℕ → List ℕ
unfolding is_space
skip_spaces [] = []
skip_spaces (c ∷ m) = let rest = skip_spaces m in if is_space c then rest else c ∷ m

unfoldable pub octal_digits : ℕ → List ℕ → Option ℕ
octal_digits acc [] = none
octal_digits acc (c ∷ m) =
    let rest = octal_digits (acc * 8 + (c - 48)) m in
    if leb 48 c && leb c 55 then rest else some acc

-- A `long` of 64 bits, cut to the bit pattern of an `int`.
unfoldable pub int_of_long : Bool → ℕ → ℕ
int_of_long true n = (2 ^ 32 - min n (2 ^ 63) % 2 ^ 32) % 2 ^ 32
int_of_long false n = min n (2 ^ 63 - 1) % 2 ^ 32

strtol_8_signed : List ℕ → Option ℕ
unfolding octal_digits int_of_long
strtol_8_signed [] = none
strtol_8_signed (c ∷ r) =
    if c == b'-'
    then Option.map (int_of_long true) (octal_digits 0 r)
    else if c == b'+'
    then Option.map (int_of_long false) (octal_digits 0 r)
    else Option.map (int_of_long false) (octal_digits 0 (c ∷ r))

-- `(int) strtol(m, NULL, 8)`: blanks, a sign, digits.
unfoldable pub strtol_8 : List ℕ → Option ℕ
unfolding skip_spaces strtol_8_signed
strtol_8 m = strtol_8_signed (skip_spaces m)

-- The digits of `n` in a base, for a number of at most `f` digits.
unfoldable pub print_digits : ℕ → ℕ → ℕ → Str
print_digits base zero n = []
print_digits base (suc f) n =
    let rest = print_digits base f (n / base) in
    if ltb n base then (48 + n) ∷ [] else rest ++ (48 + n % base) ∷ []

-- `%o` and `%i` of the bit pattern of an `int`.
unfoldable pub print_octal : ℕ → Str
unfolding print_digits
print_octal w = print_digits 8 11 w

unfoldable pub print_int : ℕ → Str
unfolding print_digits
print_int w =
    if ltb w (2 ^ 31) then print_digits 10 10 w else b'-' ∷ print_digits 10 10 (2 ^ 32 - w)
