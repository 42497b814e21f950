-- ===== src/Demos/Tests.antt =====
-- The demos at inputs.
use tcb.Base.{◌≡◌, refl, ok}
use tcb.Base.Text.{codes, print_int, print_digits}
use tcb.Demos.Pascal.{pascal, rows, row_entries, entry, factorial, factorial_loop}
use tcb.Demos.Pascal.Laws.{triangle_text, pascal-triangle_text}

pascal-triangle_text_example : pascal 3 ≡ ok (triangle_text 3 3 0)
pascal-triangle_text_example = pascal-triangle_text 3

three_rows : pascal 3 ≡ ok (codes "  1 \n 1 1 \n1 2 1 \n")
unfolding pascal rows row_entries entry factorial factorial_loop print_int print_digits
three_rows = refl
