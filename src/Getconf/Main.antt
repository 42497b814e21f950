-- ===== src/Getconf/Main.antt =====
-- `main` and its loop over the table.
pub mod Laws
use tcb.Base.{
  ℕ, Bool, true, false, ◌&&◌, not, Option, none, some, List, [], ◌∷◌, ◌==◌, if◌then◌else◌,
}
use tcb.Base.Text.{Str, codes, str_eq}
use tcb.Getconf.Table.{Kind, pathconf, ConfVariable, conf_table}
use tcb.Getconf.Print.{
  Line, Libc, Handled, printed, silent, undefined, died, print_string, type_handlers,
}

-- Standard output and the exit status.
abbrev pub Report : Type 0
Report = List Line × ℕ

abbrev pub is_pathconf : Kind → Bool
is_pathconf pathconf = true
is_pathconf _ = false

abbrev pub is_some {ℓ} : {A : Type ℓ} → Option A → Bool
is_some none = false
is_some (some a) = true

abbrev pub iff : Bool → Bool → Bool
iff true b = b
iff false b = not b

-- `(cp->type == PATHCONF) == (pathname != NULL)`
abbrev pub wants : Option Str → ConfVariable → Bool
wants pathname cp = iff (is_pathconf cp.kind) (is_some pathname)

-- `print_string(cp->name, "undefined")`
abbrev pub undefined_line : Bool → ConfVariable → Line
undefined_line all cp = print_string all cp.name (codes "undefined")

-- What the end of `main` returns; `io_error` is `ferror(stdout)`.
abbrev pub finish : Bool → Bool → Bool → Report
finish io_error all found =
    if not all && not found then ([], 1) else if io_error then ([], 1) else ([], 0)

abbrev pub after : Line → Report → Report
after l (lines, status) = (l ∷ lines, status)

-- One variable is handled, the rest of the table behind it.
abbrev pub handled : Bool → ConfVariable → Handled → Report → Report
handled all cp (printed l) rest = after l rest
handled all cp silent rest = rest
handled all cp undefined rest = after (undefined_line all cp) rest
handled all cp (died status) rest = ([], status)

-- The loop over the table, and what follows it.
module _ (libc : Libc) (io_error all : Bool) (varname : Str) (pathname : Option Str) where
  unfoldable pub visit : List ConfVariable → Bool → Report
  visit [] found = finish io_error all found
  visit (cp ∷ cps) found = elim (not all && not (str_eq varname cp.name)) [
    | true ↦ visit cps found
    | false ↦ elim (wants pathname cp) [
      | true ↦ handled all cp (type_handlers libc all cp pathname) (visit cps true)
      | false ↦ elim all [ true ↦ visit cps found | false ↦ ([], 1) ]
    ]
  ]

-- The options that `getopt(argc, argv, "a")` returns; `none` is the call of `usage`.
unfoldable pub read_options : List ℕ → Bool → Option Bool
read_options [] all = some all
read_options (ch ∷ chs) all = let rest = read_options chs true in if ch == b'a' then rest else none

-- `main` after the variable's name is taken.
unfoldable pub with_pathname : Libc → Bool → Bool → Str → List Str → Report
with_pathname libc io_error all varname [] = visit libc io_error all varname none conf_table false
with_pathname libc io_error all varname (pathname ∷ []) =
    visit libc io_error all varname (some pathname) conf_table false
with_pathname libc io_error all varname (a ∷ b ∷ more) = ([], 1)

abbrev with_options : Libc → Bool → Option Bool → List Str → Report
with_options libc io_error none args = ([], 1)
with_options libc io_error (some true) args = with_pathname libc io_error true [] args
with_options libc io_error (some false) [] = ([], 1)
with_options libc io_error (some false) (varname ∷ args) =
    with_pathname libc io_error false varname args

-- `main`, with the options that `getopt` returns and the arguments that it leaves.
unfoldable pub main : Libc → Bool → List ℕ → List Str → Report
unfolding read_options
main libc io_error options args = with_options libc io_error (read_options options false) args
