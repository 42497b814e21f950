-- ===== src/Getconf/Tests.antt =====
-- Runs of getconf.
use tcb.Base.{arith, ◌≡◌, refl, true, false, none, some, List, [], ◌∷◌, All, if◌then◌else◌}
use tcb.Base.Text.{codes, str_eq}
use tcb.Getconf.Table.{ConfVariable, conf_table, entry, pathconf}
use tcb.Getconf.Print.{
  Libc, got, failed, type_handlers, print_pathconf, print_sysconf, print_confstr, print_constant,
  print_uconstant,
}
use tcb.Getconf.Main.{main}
use tcb.Getconf.Main.Laws.{alone, arguments, Survives, all_lines, main-alone, main-lacks, main-All}

-- Every constant is 7; sysconf knows nothing.
abbrev small : Libc
small = record {
  constant = λ name. 7;
  sysconf = λ n. failed 0;
  pathconf = λ path n. got 255;
  confstr_size = λ n. failed 22;
  malloc = λ n. true;
  confstr_text = λ n len. got (codes "/bin");
}

-- `getconf NAME_MAX /`
main-alone_example :
    main small false [] (codes "NAME_MAX" ∷ arguments (some (codes "/")))
    ≡ alone small false (some (codes "/")) (entry "NAME_MAX" pathconf "_PC_NAME_MAX")
main-alone_example =
    main-alone small false (some (codes "/")) 60 (entry "NAME_MAX" pathconf "_PC_NAME_MAX") refl

lacks_run : main small false [] (codes "MAX" ∷ arguments none) ≡ ([], 1)
unfolding str_eq
lacks_run = main-lacks small false none (codes "MAX") refl

small-Survives : (cp : ConfVariable) → Survives small none cp
unfolding type_handlers print_pathconf print_sysconf print_confstr print_constant print_uconstant
small-Survives cp h status = ground arith

small-All : (cps : List ConfVariable) → All (Survives small none) cps
small-All [] = tt
small-All (cp ∷ cps) = (small-Survives cp, small-All cps)

main-All_example :
    main small true (b'a' ∷ []) (arguments none)
    ≡ (all_lines small none conf_table, if true then 1 else 0)
main-All_example = main-All small true none (small-All conf_table)
