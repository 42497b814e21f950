-- ===== src/Getconf/Main/Laws.antt =====
-- What `main` of getconf prints.
use tcb.Base.{
  ℕ, zero, suc, ◌≡◌, ◌≢◌, refl, Bool, true, false, ◌&&◌, not, if◌then◌else◌, Option, none, some,
  List, [], ◌∷◌, ◌++◌, All, get_elem?, Bool-cases, subst, ap, ◌∙◌, inl, inr, arith,
}
use tcb.Base.Text.{Str, str_eq, str_eq_refl, str_eq_iff}
use tcb.Getconf.Table.{ConfVariable, conf_table}
use tcb.Getconf.Print.{Line, Libc, Handled, printed, silent, undefined, died, type_handlers}
use tcb.Getconf.Main.{
  Report, wants, undefined_line, finish, handled, visit, read_options, with_pathname, main,
}

-- The names of a table differ from a name; the names of a table differ from each other.
abbrev pub lacks : Str → List ConfVariable → Bool
lacks name [] = true
lacks name (cp ∷ cps) = not (str_eq name cp.name) && lacks name cps

abbrev pub distinct : List ConfVariable → Bool
distinct [] = true
distinct (cp ∷ cps) = lacks cp.name cps && distinct cps

conf_table-distinct : distinct conf_table ≡ true
unfolding str_eq
conf_table-distinct = refl

str_eq-swap : (a b : Str) → str_eq a b ≡ false → str_eq b a ≡ false
str_eq-swap a b h = elim (Bool-cases (str_eq b a)) [
  | inr e ↦ e
  | inl e ↦
      let same : b ≡ a = (str_eq_iff b a).0 e in
      absurd (ground (arith, h, subst (λ x. str_eq x b ≡ true) same (str_eq_refl b)))
]

module _ (libc : Libc) (io_error : Bool) (pathname : Option Str) where
  visit-lacks :
      (name : Str) (cps : List ConfVariable) (found : Bool)
      → lacks name cps ≡ true
      → visit libc io_error false name pathname cps found ≡ finish io_error false found
  unfolding visit
  visit-lacks name [] found h = refl
  visit-lacks name (cp ∷ cps) found h = elim (Bool-cases (str_eq name cp.name)) [
    | inl e ↦ absurd (ground (arith, e, h))
    | inr e ↦
        let rest : lacks name cps ≡ true = ground (arith, e, h) in
        rw (visit, e, visit-lacks name cps found rest)
  ]

  -- What one variable alone comes to.
  abbrev pub alone : ConfVariable → Report
  alone cp = elim (wants pathname cp) [
    | true ↦ handled false cp (type_handlers libc false cp pathname) (finish io_error false true)
    | false ↦ ([], 1)
  ]

  visit-head :
      (cp : ConfVariable) (cps : List ConfVariable) (found : Bool)
      → lacks cp.name cps ≡ true
      → visit libc io_error false cp.name pathname (cp ∷ cps) found ≡ alone cp
  unfolding visit
  visit-head cp cps found h =
      let later = visit-lacks cp.name cps true h in
      rw (visit, str_eq_refl cp.name)
        (ap
          (λ rest. elim (wants pathname cp) as (λ _. Report) [
            | true ↦ handled false cp (type_handlers libc false cp pathname) rest
            | false ↦ ([], 1)
          ])
          later)

  lacks-get_elem? :
      (name : Str) (cps : List ConfVariable) (i : ℕ) {cp : ConfVariable}
      → lacks name cps ≡ true
      → get_elem? cps i ≡ some cp
      → str_eq cp.name name ≡ false
  lacks-get_elem? name [] i h e = absurd (cc)
  lacks-get_elem? name (c ∷ cps) zero {cp = cp} h e =
      let same : c ≡ cp = cc in
      let here : str_eq name cp.name ≡ false =
        subst (λ v. str_eq name (ConfVariable.name v) ≡ false) same (ground (arith, h)) in
      str_eq-swap name cp.name here
  lacks-get_elem? name (c ∷ cps) (suc i) h e = lacks-get_elem? name cps i (ground (arith, h)) e

  visit-distinct :
      (cps : List ConfVariable) (i : ℕ) (found : Bool) {cp : ConfVariable}
      → distinct cps ≡ true
      → get_elem? cps i ≡ some cp
      → visit libc io_error false cp.name pathname cps found ≡ alone cp
  unfolding visit
  visit-distinct [] i found h e = absurd (cc)
  visit-distinct (c ∷ cps) zero found {cp = cp} h e =
      let same : c ≡ cp = cc in
      subst
        (λ v. visit libc io_error false (ConfVariable.name v) pathname (c ∷ cps) found ≡ alone v)
        same (visit-head c cps found (ground (arith, h)))
  visit-distinct (c ∷ cps) (suc i) found h e =
      let other = lacks-get_elem? c.name cps i (ground (arith, h)) e in
      rw (visit, other, visit-distinct cps i found (ground (arith, h)) e)

module _ (libc : Libc) (pathname : Option Str) where
  -- With the option -a: the lines of a variable, and of the table.
  abbrev pub lines_of : ConfVariable → Handled → List Line
  lines_of cp (printed l) = l ∷ []
  lines_of cp silent = []
  lines_of cp undefined = undefined_line true cp ∷ []
  lines_of cp (died status) = []

  abbrev pub all_lines : List ConfVariable → List Line
  all_lines [] = []
  all_lines (cp ∷ cps) =
      (if wants pathname cp then lines_of cp (type_handlers libc true cp pathname) else [])
      ++ all_lines cps

  handled-lines :
      (cp : ConfVariable) (r : Handled) (rest : List Line) (status : ℕ)
      → ((end : ℕ) → r ≢ died end)
      → handled true cp r (rest, status) ≡ (lines_of cp r ++ rest, status)
  handled-lines cp (printed l) rest status h = refl
  handled-lines cp silent rest status h = refl
  handled-lines cp undefined rest status h = refl
  handled-lines cp (died end) rest status h = absurd (h end refl)

  -- No handler ends the program at this variable.
  abbrev pub Survives : ConfVariable → Type 0
  Survives cp =
      wants pathname cp ≡ true → (status : ℕ) → type_handlers libc true cp pathname ≢ died status

  visit-All :
      (io_error : Bool) (cps : List ConfVariable) (found : Bool)
      → All Survives cps
      → visit libc io_error true [] pathname cps found ≡ (all_lines cps, if io_error then 1 else 0)
  unfolding visit
  visit-All io_error [] found v = ground arith
  visit-All io_error (cp ∷ cps) found v = elim (Bool-cases (wants pathname cp)) [
    | inr e ↦ rw (visit, e, visit-All io_error cps found v.1)
    | inl e ↦
        let first : visit libc io_error true [] pathname (cp ∷ cps) found
            ≡ handled true cp (type_handlers libc true cp pathname)
                (visit libc io_error true [] pathname cps true) =
          rw (visit, e) refl in
        let later =
          ap (handled true cp (type_handlers libc true cp pathname))
            (visit-All io_error cps true v.1) in
        first ∙ later ∙ rw e (handled-lines cp (type_handlers libc true cp pathname) _ _ (v.0 e))
  ]

-- The arguments behind the variable's name.
abbrev pub arguments : Option Str → List Str
arguments none = []
arguments (some pathname) = pathname ∷ []

visit-of-main :
    (libc : Libc) (io_error all : Bool) (varname : Str) (pathname : Option Str)
    → with_pathname libc io_error all varname (arguments pathname)
      ≡ visit libc io_error all varname pathname conf_table false
unfolding with_pathname
visit-of-main libc io_error all varname none = refl
visit-of-main libc io_error all varname (some pathname) = refl

-- Without options, the name of any entry of the table, with a pathname or without, is answered from
-- that entry alone: its handler's line, or `undefined`, or its error, and exit status 1 with no output
-- where a pathname is missing or is one too many.
pub main-alone :
    (libc : Libc) (io_error : Bool) (pathname : Option Str) (i : ℕ) (cp : ConfVariable)
    → get_elem? conf_table i ≡ some cp
    → main libc io_error [] (cp.name ∷ arguments pathname) ≡ alone libc io_error pathname cp
unfolding main read_options
main-alone libc io_error pathname i cp e =
    visit-of-main libc io_error false cp.name pathname
    ∙ visit-distinct libc io_error pathname conf_table i false conf_table-distinct e

-- A name that no entry of the table has prints nothing and exits with status 1.
pub main-lacks :
    (libc : Libc) (io_error : Bool) (pathname : Option Str) (name : Str)
    → lacks name conf_table ≡ true
    → main libc io_error [] (name ∷ arguments pathname) ≡ ([], 1)
unfolding main read_options
main-lacks libc io_error pathname name h =
    visit-of-main libc io_error false name pathname
    ∙ visit-lacks libc io_error pathname name conf_table false h

-- With -a, where no handler ends the program, standard output has the lines of every entry that goes
-- with the pathname or with none, in the order of the table, and the status tells of errors of output.
pub main-All :
    (libc : Libc) (io_error : Bool) (pathname : Option Str)
    → All (Survives libc pathname) conf_table
    → main libc io_error (b'a' ∷ []) (arguments pathname)
      ≡ (all_lines libc pathname conf_table, if io_error then 1 else 0)
unfolding main read_options
main-All libc io_error pathname v =
    visit-of-main libc io_error true [] pathname
    ∙ visit-All libc pathname io_error conf_table false v
