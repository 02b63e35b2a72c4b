-- ===== src/Edits/Tests.antt =====
-- Edits of small texts.
use noah_code.Prelude.{◌≡◌, refl}
use noah_code.Python.Text.{codes}
use noah_code.Edits.{refused, edited, many, stale_text, replace_text, replace_lines}
use noah_code.Edits.Splice.{IsSplice, replace_text-IsSplice}

refuses_two : replace_text (codes "a = a") (codes "a") (codes "b") ≡ refused (many 2)
unfolding replace_text
refuses_two = refl

-- Occurrences that overlap are counted once.
counts_overlap_once : replace_text (codes "aaa") (codes "aa") (codes "b") ≡ edited (codes "ba")
unfolding replace_text
counts_overlap_once = refl

replaces_a_line :
    replace_lines (codes "one\r\ntwo\r\nthree") 2 2 (codes "two\n") (codes "2")
    ≡ edited (codes "one\r\n2\r\nthree")
unfolding replace_lines
replaces_a_line = refl

is_stale : replace_lines (codes "one\ntwo") 1 1 (codes "ONE\n") (codes "1") ≡ refused stale_text
unfolding replace_lines
is_stale = refl

replace_text-IsSplice_example : IsSplice (codes "a = 1\n") (codes "1") (codes "2") (codes "a = 2\n")
unfolding replace_text
replace_text-IsSplice_example =
    replace_text-IsSplice (codes "a = 1\n") (codes "1") (codes "2") (codes "a = 2\n") refl
