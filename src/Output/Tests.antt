-- ===== src/Output/Tests.antt =====
-- An output that is shown in part.
use noah_code.Prelude.{some, [], ◌∷◌, ◌≡◌, ◌≤◌, refl, max, length}
use noah_code.Python.Text.{Text, codes}
use noah_code.Files.{Bytes}
use noah_code.Output.{BoundedOutput, OutputStore, bound, split_lines, rendered}
use noah_code.Output.Bounds.{bound-IsKept, IsKept, note_size}

abbrev encode : Text → Bytes
encode t = t

abbrev hash : Bytes → Text
hash b = codes "00"

abbrev empty_store : OutputStore
empty_store = record { files = []; max_total_bytes = 100 }

abbrev long_text : Text
long_text = codes "one\ntwo\nthree\nfour\nfive\nsix\nseven\n"

splits :
    split_lines (codes "a\r\nb\n\nc") ≡ codes "a\r\n" ∷ codes "b\n" ∷ codes "\n" ∷ codes "c" ∷ []
unfolding split_lines
splits = refl

abbrev after_store : OutputStore
after_store = record { files = (codes "00", long_text) ∷ []; max_total_bytes = 100 }

abbrev shown_part : BoundedOutput
shown_part = record {
  text = rendered (split_lines long_text) (codes "00") 30 5;
  output_id = some (codes "00");
  original_chars = length long_text;
  original_lines = length (split_lines long_text);
}

bound-IsKept_example :
    (length shown_part.text ≤ max 30 (note_size (split_lines long_text) 5 shown_part.output_id))
    × IsKept encode after_store long_text shown_part
unfolding bound
bound-IsKept_example =
    bound-IsKept encode hash empty_store after_store long_text 30 5 shown_part refl
