-- ===== src/Python/FilePath.antt =====
-- `pathlib.PurePosixPath`: the parts, the name and the text of a path.
use noah_code.Prelude.{
  ◌&&◌, not, Option, none, some, List, [], ◌∷◌, ◌++◌, if◌then◌else◌, null, last?, keep,
}
use noah_code.Python.Text.{Text, codes, text_eq, starts_with, split_on, join}

-- Empty components and single dots are dropped.
unfoldable pub components : Text → List Text
unfolding split_on text_eq
components p = keep (λ w. not (null w) && not (text_eq w (codes "."))) (split_on b'/' p)

-- Exactly two slashes at the front are a root of their own.
unfoldable pub root : Text → Text
unfolding starts_with
root p =
    if starts_with p (codes "//") && not (starts_with p (codes "///"))
    then codes "//"
    else if starts_with p (codes "/")
    then codes "/"
    else []

-- `Path(p).parts`
unfoldable pub parts : Text → List Text
unfolding components root
parts p = if null (root p) then components p else root p ∷ components p

abbrev or_empty : Option Text → Text
or_empty none = []
or_empty (some w) = w

-- `Path(p).name`
unfoldable pub name : Text → Text
unfolding components
name p = or_empty (last? (components p))

-- `str(Path(p))`
unfoldable pub to_text : Text → Text
unfolding components root join
to_text p = let s = root p ++ join (codes "/") (components p) in if null s then codes "." else s
