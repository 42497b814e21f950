-- ===== src/Getconf/Print.antt =====
-- The printing functions and the five handlers of `type_handlers`.
use tcb.Base.{ℕ, Bool, true, false, ◌&&◌, not, Option, none, some, ◌==◌, if◌then◌else◌}
use tcb.Base.Text.{Str}
use tcb.Getconf.Table.{Kind, sysconf, confstr, pathconf, constant, uconstant, ConfVariable}

-- What follows a name on a line; `%ld` and `%lu` of a bit pattern are left to the reader of the line.
pub data Value : Type 0 where
  long ulong : ℕ → Value
  text : Str → Value

-- A line of standard output, with `name = ` before it or not.
pub record Line : Type 0 where
  pub name : Option Str
  pub value : Value

-- What a call that returns a number answers: the number, or -1 and what `errno` is then.
pub data Answer {ℓ} (A : Type ℓ) : Type ℓ where
  got : A → Answer A
  failed : ℕ → Answer A

-- The C library. `constant` is the number behind a constant; `confstr_size` is `confstr(n, NULL, 0)`
-- (`failed` where it returns 0), `confstr_text` is `confstr(n, val, len)`.
pub record Libc : Type 0 where
  pub constant : Str → ℕ
  pub sysconf : ℕ → Answer ℕ
  pub pathconf : Option Str → ℕ → Answer ℕ
  pub confstr_size : ℕ → Answer ℕ
  pub malloc : ℕ → Bool
  pub confstr_text : ℕ → ℕ → Answer Str

abbrev pub einval : ℕ
einval = 22

-- `all` is the flag of the option -a.
abbrev pub print_value : Bool → Str → Value → Line
print_value true name v = record { name = some name; value = v }
print_value false name v = record { name = none; value = v }

abbrev pub print_long : Bool → Str → ℕ → Line
print_long all name val = print_value all name (long val)

abbrev pub print_ulong : Bool → Str → ℕ → Line
print_ulong all name val = print_value all name (ulong val)

abbrev pub print_string : Bool → Str → Str → Line
print_string all name val = print_value all name (text val)

-- What a handler does: it prints and returns 0, it returns 0, or it returns -1; `err` ends the program with a status.
pub data Handled : Type 0 where
  printed : Line → Handled
  silent undefined : Handled
  died : ℕ → Handled

unfoldable pub print_constant : Libc → Bool → ConfVariable → Handled
print_constant libc all cp = printed (print_long all cp.name (libc.constant cp.value))

unfoldable pub print_uconstant : Libc → Bool → ConfVariable → Handled
print_uconstant libc all cp = printed (print_ulong all cp.name (libc.constant cp.value))

abbrev sysconf_result : Bool → Str → Answer ℕ → Handled
sysconf_result all name (got val) = printed (print_long all name val)
sysconf_result all name (failed errno) = if not (errno == 0) then died 1 else undefined

unfoldable pub print_sysconf : Libc → Bool → ConfVariable → Handled
print_sysconf libc all cp = sysconf_result all cp.name (libc.sysconf (libc.constant cp.value))

-- The label `error`.
abbrev confstr_error : ℕ → Handled
confstr_error errno = if not (errno == einval) then died 1 else undefined

abbrev confstr_second : Bool → Str → Answer Str → Handled
confstr_second all name (got val) = printed (print_string all name val)
confstr_second all name (failed errno) = confstr_error errno

abbrev confstr_first : Libc → Bool → Str → ℕ → Answer ℕ → Handled
confstr_first libc all name n (failed errno) = confstr_error errno
confstr_first libc all name n (got len) =
    if not (libc.malloc len) then died 1 else confstr_second all name (libc.confstr_text n len)

unfoldable pub print_confstr : Libc → Bool → ConfVariable → Handled
print_confstr libc all cp =
    let n = libc.constant cp.value in confstr_first libc all cp.name n (libc.confstr_size n)

abbrev pathconf_result : Bool → Str → Answer ℕ → Handled
pathconf_result all name (got val) = printed (print_long all name val)
pathconf_result all name (failed errno) =
    if all && errno == einval then silent else if not (errno == 0) then died 1 else undefined

unfoldable pub print_pathconf : Libc → Bool → ConfVariable → Option Str → Handled
print_pathconf libc all cp pathname =
    pathconf_result all cp.name (libc.pathconf pathname (libc.constant cp.value))

-- `type_handlers[cp->type](cp, pathname)`, by the type.
abbrev pub handler : Kind → Libc → Bool → ConfVariable → Option Str → Handled
handler sysconf libc all cp pathname = print_sysconf libc all cp
handler confstr libc all cp pathname = print_confstr libc all cp
handler pathconf libc all cp pathname = print_pathconf libc all cp pathname
handler constant libc all cp pathname = print_constant libc all cp
handler uconstant libc all cp pathname = print_uconstant libc all cp

unfoldable pub type_handlers : Libc → Bool → ConfVariable → Option Str → Handled
type_handlers libc all cp pathname = handler cp.kind libc all cp pathname
